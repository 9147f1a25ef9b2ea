-- ===== src/Bluestore/ExtentMap/Seek.antt =====
-- The iterators of bluestore/extent_map.cc: what lies before the one that seek_lextent gives, and
-- the insertions and removals at it.
use cxxlab.Prelude.{
  ℕ, ◌+◌, ◌≤◌, ◌<◌, ◌≡◌, refl, List, [], ◌∷◌, ◌++◌, arith, ltb, ◌==◌, if-cases, add64, ap, All,
}
use cxxlab.Bluestore.ExtentMap.{
  Extent, logical_end, to_u32, before_key, if_beyond, or_this, seek_lextent, or_begin, restart,
  insert, rm,
}
use cxxlab.Bluestore.ExtentMap.Holes.{IsOrdered}

-- The extents before the hole.
abbrev pub AllBefore : ℕ → List Extent → Type 0
AllBefore offset = All (λ e. e.logical_offset + e.length ≤ offset)

-- A set split at an iterator, with nothing of what comes before it behind a position.
pub record Split (offset : ℕ) (m it : List Extent) : Type 0 where
  pub front : List Extent
  pub whole : m ≡ front ++ it
  pub before : AllBefore offset front

-- A result of before_key in a set that starts at `lo` or behind it.
abbrev Found : ℕ → ℕ → List Extent → List Extent → Type 0
Found lo key m [] = Unit
Found lo key m (x ∷ it) =
    (lo ≤ x.logical_offset) × (x.logical_offset < key) × Split x.logical_offset m (x ∷ it)

or_this-Found :
    (lo key : ℕ) (e : Extent) (m r : List Extent)
    → lo ≤ e.logical_offset
    → e.logical_offset < key
    → Found (e.logical_offset + e.length) key m r
    → Found lo key (e ∷ m) (or_this (e ∷ m) r)
or_this-Found lo key e m [] h k f = (h, k, record { front = []; whole = refl; before = tt })
or_this-Found lo key e m (x ∷ it) h k f = (
  omega (arith, h, f.0),
  f.1,
  record { front = e ∷ f.2.front; whole = ap (λ l. e ∷ l) f.2.whole; before = (f.0, f.2.before) },
)

before_key-Found :
    (lo key : ℕ) (m : List Extent) → IsOrdered lo m → Found lo key m (before_key key m)
unfolding before_key IsOrdered
before_key-Found lo key [] o = tt
before_key-Found lo key (e ∷ m) o =
    if-cases (Found lo key (e ∷ m)) (ltb e.logical_offset key)
      (λ g.
        or_this-Found lo key e m (before_key key m) o.0 (ground (arith, g))
          (before_key-Found (e.logical_offset + e.length) key m o.4))
      (λ g. tt)

AllBefore-weaken : (a b : ℕ) (m : List Extent) → a ≤ b → AllBefore a m → AllBefore b m
AllBefore-weaken a b [] h p = p
AllBefore-weaken a b (e ∷ m) h p = (omega (arith, h, p.0), AllBefore-weaken a b m h p.1)

-- What restart makes of the result of before_key.
or_begin-Split :
    (lo key offset : ℕ) (m r : List Extent)
    → key ≤ offset + 1
    → Found lo key m r
    → Split offset m (or_begin (if_beyond offset r) m)
or_begin-Split lo key offset m [] h f = record { front = []; whole = refl; before = tt }
or_begin-Split lo key offset m (x ∷ it) h f =
    if-cases (λ r. Split offset m (or_begin r m)) (ltb offset (logical_end x))
      (λ g. record {
        front = f.2.front;
        whole = f.2.whole;
        before =
            AllBefore-weaken x.logical_offset offset f.2.front (omega (arith, f.1, h)) f.2.before;
      })
      (λ g. record { front = []; whole = refl; before = tt })

pub restart-Split :
    (lo offset : ℕ) (m : List Extent) → IsOrdered lo m → Split offset m (restart offset m)
unfolding restart seek_lextent add64
restart-Split lo offset m o =
    or_begin-Split lo (to_u32 (add64 offset 1)) offset m (before_key (to_u32 (add64 offset 1)) m)
      (omega arith) (before_key-Found lo (to_u32 (add64 offset 1)) m o)

-- The extents of a set, and those behind an iterator, from its place on.
pub ordered_behind :
    (lo : ℕ) (front : List Extent) (e : Extent) (it : List Extent)
    → IsOrdered lo (front ++ e ∷ it)
    → IsOrdered e.logical_offset (e ∷ it) × (lo ≤ e.logical_offset)
unfolding IsOrdered
ordered_behind lo [] e it o = ((omega arith, o.1, o.2, o.3, o.4), o.0)
ordered_behind lo (d ∷ front) e it o =
    let rest = ordered_behind (d.logical_offset + d.length) front e it o.4 in
    (rest.0, omega (arith, rest.1, o.0))

pub rm-++ :
    (lo : ℕ) (front : List Extent) (e : Extent) (it : List Extent)
    → IsOrdered lo (front ++ e ∷ it)
    → rm e (front ++ e ∷ it) ≡ front ++ it
unfolding rm IsOrdered
rm-++ lo [] e it o =
    if-cases (λ m. m ≡ it) (e.logical_offset == e.logical_offset) (λ g. refl)
      (λ g. ground (arith, g))
rm-++ lo (d ∷ front) e it o =
    let behind = ordered_behind (d.logical_offset + d.length) front e it o.4 in
    if-cases (λ m. m ≡ d ∷ (front ++ it)) (d.logical_offset == e.logical_offset)
      (λ g. ground (arith, g, behind.1, o.1))
      (λ g. ap (λ m. d ∷ m) (rm-++ (d.logical_offset + d.length) front e it o.4))

-- Starts at `pos` or behind it.
abbrev pub StartsFrom : ℕ → List Extent → Type 0
StartsFrom pos [] = Unit
StartsFrom pos (e ∷ m) = pos ≤ e.logical_offset

pub insert-++ :
    (x : Extent) (front it : List Extent)
    → 0 < x.length
    → All (λ e. e.logical_offset < x.logical_offset) front
    → StartsFrom (x.logical_offset + x.length) it
    → insert x (front ++ it) ≡ front ++ x ∷ it
unfolding insert
insert-++ x [] [] p b s = refl
insert-++ x [] (e ∷ it) p b s =
    if-cases (λ m. m ≡ x ∷ e ∷ it) (ltb x.logical_offset e.logical_offset) (λ g. refl)
      (λ g. ground (arith, g, s, p))
insert-++ x (d ∷ front) it p b s =
    if-cases (λ m. m ≡ d ∷ (front ++ x ∷ it)) (ltb x.logical_offset d.logical_offset)
      (λ g. ground (arith, g, b.0))
      (λ g.
        if-cases (λ m. m ≡ d ∷ (front ++ x ∷ it)) (ltb d.logical_offset x.logical_offset)
          (λ k. ap (λ m. d ∷ m) (insert-++ x front it p b.1 s)) (λ k. ground (arith, k, b.0)))
