-- ===== src/Common/IntervalSet.antt =====
-- common/interval_set.h at T = uint64_t, the only type it is used at. `std::map` is a list in the
-- order of its keys; an iterator is the suffix of the list that it points at.
pub mod Cover
pub mod Insert
pub mod Erase
pub mod Tests
use cxxlab.Prelude.{
  ℕ, Bool, false, ◌&&◌, ◌||◌, List, [], ◌∷◌, ◌++◌, Option, none, some, max, add64, sub64, ltb, leb,
  ◌==◌, if◌then◌else◌,
}

pub record Interval : Type 0 where
  pub start : ℕ
  pub len : ℕ

-- it->first + it->second
abbrev pub stop : Interval → ℕ
stop i = add64 i.start i.len

pub record IntervalSet : Type 0 where
  pub m : List Interval
  pub total : ℕ

abbrev pub empty : IntervalSet
empty = record { m = []; total = 0 }

-- The entries before `lower_bound(off)`, and those from there on.
unfoldable pub lower : ℕ → List Interval → List Interval
lower off [] = []
lower off (i ∷ m) = let rest = lower off m in if ltb i.start off then i ∷ rest else []

unfoldable pub upper : ℕ → List Interval → List Interval
upper off [] = []
upper off (i ∷ m) = let rest = upper off m in if ltb i.start off then rest else i ∷ m

-- What the loop of `insert` leaves: the new length, the length that it erased, and the entries from
-- the iterator on.
pub record Absorbed : Type 0 where
  pub new_len : ℕ
  pub old_len : ℕ
  pub rest : List Interval

unfoldable pub absorb : ℕ → ℕ → ℕ → List Interval → Absorbed
absorb off len old [] = record { new_len = len; old_len = old; rest = [] }
absorb off len old (i ∷ m) =
    let next = absorb off (max len (sub64 (stop i) off)) (add64 old i.len) m in
    if leb i.start (add64 off len)
    then next
    else record { new_len = len; old_len = old; rest = i ∷ m }

-- What the rest of `insert` makes: the map, the length of the entry that it writes, and the length
-- of the entry before the iterator where the two are merged.
pub record Placed : Type 0 where
  pub entries : List Interval
  pub new_len : ℕ
  pub old_len : ℕ

unfoldable pub place : ℕ → ℕ → List Interval → List Interval → Placed
place off len [] rest = record {
  entries = record { start = off; len = len } ∷ rest;
  new_len = len;
  old_len = 0;
}
place off len (p ∷ []) rest =
    if leb off (stop p)
    then (let merged = sub64 (max (add64 off len) (stop p)) p.start in
        record {
          entries = record { start = p.start; len = merged } ∷ rest;
          new_len = merged;
          old_len = p.len;
        })
    else record {
      entries = p ∷ record { start = off; len = len } ∷ rest;
      new_len = len;
      old_len = 0;
    }
place off len (p ∷ q ∷ ps) rest =
    let later = place off len (q ∷ ps) rest in record later { entries = p ∷ later.entries }

unfoldable pub insert : ℕ → ℕ → IntervalSet → IntervalSet
insert off len s =
    if len == 0
    then s
    else let a = absorb off len 0 (upper off s.m) in
      let b = place off a.new_len (lower off s.m) a.rest in
      record { m = b.entries; total = add64 s.total (sub64 b.new_len (add64 a.old_len b.old_len)) }

-- What a part of `erase` leaves: the entries, the length erased and the length written back.
pub record Cut : Type 0 where
  pub kept : List Interval
  pub old_len : ℕ
  pub new_len : ℕ

-- The part of `erase` on the entry before the iterator.
unfoldable pub cut_left : ℕ → ℕ → List Interval → Cut
cut_left off len [] = record { kept = []; old_len = 0; new_len = 0 }
cut_left off len (p ∷ []) =
    if ltb off (stop p)
    then (if ltb (add64 off len) (stop p)
        then record {
          kept =
              record { start = p.start; len = sub64 off p.start }
              ∷ record { start = add64 off len; len = sub64 (stop p) (add64 off len) }
              ∷ [];
          old_len = p.len;
          new_len = add64 (sub64 off p.start) (sub64 (stop p) (add64 off len));
        }
        else record {
          kept = record { start = p.start; len = sub64 off p.start } ∷ [];
          old_len = p.len;
          new_len = sub64 off p.start;
        })
    else record { kept = p ∷ []; old_len = 0; new_len = 0 }
cut_left off len (p ∷ q ∷ ps) = let c = cut_left off len (q ∷ ps) in record c { kept = p ∷ c.kept }

-- The loop of `erase`. A remainder is written at `end`, where the loop stops.
unfoldable pub cut_right : ℕ → ℕ → ℕ → List Interval → Cut
cut_right end old new [] = record { kept = []; old_len = old; new_len = new }
cut_right end old new (i ∷ m) =
    let next = cut_right end (add64 old i.len) new m in
    let right_len = sub64 (stop i) end in
    if ltb i.start end
    then (if ltb end (stop i)
        then record {
          kept = record { start = end; len = right_len } ∷ m;
          old_len = add64 old i.len;
          new_len = add64 new right_len;
        }
        else next)
    else record { kept = i ∷ m; old_len = old; new_len = new }

unfoldable pub erase : ℕ → ℕ → IntervalSet → IntervalSet
erase off len s =
    if len == 0
    then s
    else let l = cut_left off len (lower off s.m) in
      let r = cut_right (add64 off len) l.old_len l.new_len (upper off s.m) in
      record { m = l.kept ++ r.kept; total = add64 s.total (sub64 r.new_len r.old_len) }

-- insert(const interval_set &)
unfoldable pub insert_all : List Interval → IntervalSet → IntervalSet
insert_all [] s = s
insert_all (i ∷ m) s = insert_all m (insert i.start i.len s)

-- range_start and range_end; `none` is the failed assertion.
unfoldable pub range_start : IntervalSet → Option ℕ
range_start s = elim s.m [ [] ↦ none | i ∷ m ↦ some i.start ]

unfoldable pub last_stop : List Interval → Option ℕ
last_stop [] = none
last_stop (i ∷ []) = some (stop i)
last_stop (i ∷ j ∷ m) = last_stop (j ∷ m)

unfoldable pub range_end : IntervalSet → Option ℕ
range_end s = last_stop s.m

-- _recalc_size
unfoldable pub recalc : ℕ → List Interval → ℕ
recalc acc [] = acc
recalc acc (i ∷ m) = recalc (add64 acc i.len) m
