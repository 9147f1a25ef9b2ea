-- ===== src/Common/IntervalSet/Tests.antt =====
-- Interval sets at concrete values, and instances of the theorems.
use cxxlab.Prelude.{ℕ, ◌≡◌, refl, ◌&&◌, ◌||◌, not, [], ◌∷◌, arith, add64, sub64}
use cxxlab.Common.IntervalSet.{
  IntervalSet, insert, erase, lower, upper, absorb, place, cut_left, cut_right,
}
use cxxlab.Common.IntervalSet.Cover.{IsValid, in_range, contains}
use cxxlab.Common.IntervalSet.Insert.{insert_lem}
use cxxlab.Common.IntervalSet.Erase.{erase_lem}

abbrev two_parts : IntervalSet
two_parts = record {
  m = record { start = 0; len = 10 } ∷ record { start = 20; len = 10 } ∷ [];
  total = 20;
}

two_parts-IsValid : IsValid two_parts
two_parts-IsValid = record { separate = omega arith; counted = refl }

bridged : insert 10 10 two_parts ≡ record { m = record { start = 0; len = 30 } ∷ []; total = 30 }
unfolding insert lower upper absorb place add64 sub64
bridged = refl

halved :
    erase 5 20 two_parts
    ≡ record { m = record { start = 0; len = 5 } ∷ record { start = 25; len = 5 } ∷ []; total = 10 }
unfolding erase lower upper cut_left cut_right add64 sub64
halved = refl

insert_lem_example :
    IsValid (insert 10 10 two_parts)
    × ((x : ℕ)
        → contains x (insert 10 10 two_parts).m ≡ (in_range x 10 10 || contains x two_parts.m))
insert_lem_example = insert_lem 10 10 two_parts (omega arith) two_parts-IsValid

erase_lem_example :
    IsValid (erase 5 20 two_parts)
    × ((x : ℕ)
        → contains x (erase 5 20 two_parts).m ≡ (contains x two_parts.m && not (in_range x 5 20)))
erase_lem_example = erase_lem 5 20 two_parts (omega arith) two_parts-IsValid
