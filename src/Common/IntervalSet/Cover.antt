-- ===== src/Common/IntervalSet/Cover.antt =====
-- The invariant of common/interval_set.h and the set of points that an interval set stands for.
use cxxlab.Prelude.{
  ℕ, ◌+◌, ◌≤◌, ◌<◌, ◌≡◌, refl, Bool, true, false, ◌&&◌, ◌||◌, List, [], ◌∷◌, ◌++◌, arith, ltb, leb,
  u64_mod, All,
}
use cxxlab.Common.IntervalSet.{Interval, IntervalSet, lower, upper}

-- Sorted from `lo` on, not empty, and never touching: the entries that `insert` would merge.
abbrev pub Sep : ℕ → List Interval → Type 0
Sep lo [] = Unit {0}
Sep lo (i ∷ m) =
    (lo ≤ i.start) × (0 < i.len) × (i.start + i.len < u64_mod) × Sep (i.start + i.len + 1) m

abbrev pub in_range : ℕ → ℕ → ℕ → Bool
in_range x off len = leb off x && ltb x (off + len)

abbrev pub contains : ℕ → List Interval → Bool
contains x [] = false
contains x (i ∷ m) = in_range x i.start i.len || contains x m

abbrev pub sum : List Interval → ℕ
sum [] = 0
sum (i ∷ m) = i.len + sum m

pub record IsValid (s : IntervalSet) : Type 0 where
  pub separate : Sep 0 s.m
  pub counted : s.total ≡ sum s.m

pub Sep-mono : {lo lo' : ℕ} (m : List Interval) → lo' ≤ lo → Sep lo m → Sep lo' m
Sep-mono [] h s = tt
Sep-mono (i ∷ m) h s = (omega arith, s.1, s.2, s.3)

sum-le : (lo : ℕ) (m : List Interval) → lo ≤ u64_mod → Sep lo m → lo + sum m ≤ u64_mod
sum-le lo [] h s = omega arith
sum-le lo (i ∷ m) h s = omega (arith, sum-le (i.start + i.len + 1) m (omega arith) s.3)

pub sum-lt : (lo : ℕ) (m : List Interval) → lo < u64_mod → Sep lo m → lo + sum m < u64_mod
sum-lt lo [] h s = omega arith
sum-lt lo (i ∷ m) h s = omega (arith, sum-le (i.start + i.len + 1) m (omega arith) s.3)

-- Entries before `off`.
abbrev pub AllBelow : ℕ → List Interval → Type 0
AllBelow off = All λ i. i.start < off

pub lower-AllBelow : (off : ℕ) (m : List Interval) → AllBelow off (lower off m)
unfolding lower
lower-AllBelow off [] = tt
lower-AllBelow off (i ∷ m) = ground (arith, lower-AllBelow off m)

pub lower-append-upper :
    (off : ℕ) (m : List Interval) (lo : ℕ) → Sep lo m → lower off m ++ upper off m ≡ m
unfolding lower upper
lower-append-upper off [] lo s = refl
lower-append-upper off (i ∷ m) lo s =
    ground (arith, lower-append-upper off m (i.start + i.len + 1) s.3)

pub upper-Sep : (off lo : ℕ) (m : List Interval) → Sep lo m → Sep off (upper off m)
unfolding upper
upper-Sep off lo [] s = tt
upper-Sep off lo (i ∷ m) s = ground (arith, upper-Sep off (i.start + i.len + 1) m s.3)

pub contains-append :
    (x : ℕ) (l m : List Interval) → contains x (l ++ m) ≡ (contains x l || contains x m)
contains-append x [] m = refl
contains-append x (i ∷ l) m = ground (arith, contains-append x l m)

pub sum-append : (l m : List Interval) → sum (l ++ m) ≡ sum l + sum m
sum-append [] m = omega arith
sum-append (i ∷ l) m = omega (arith, sum-append l m)

-- What comes after a list may be exchanged for anything that is separate from the same places on.
pub Sep-append_mono :
    (l m n : List Interval) (lo : ℕ)
    → ((b : ℕ) → Sep b m → Sep b n)
    → Sep lo (l ++ m)
    → Sep lo (l ++ n)
Sep-append_mono [] m n lo h s = h lo s
Sep-append_mono (i ∷ l) m n lo h s =
    (s.0, s.1, s.2, Sep-append_mono l m n (i.start + i.len + 1) h s.3)

pub contains-ge : (b x : ℕ) (m : List Interval) → Sep b m → contains x m ≡ true → b ≤ x
contains-ge b x [] s h = cc
contains-ge b x (i ∷ m) s h = ground (arith, contains-ge (i.start + i.len + 1) x m s.3)
