-- ===== src/Blk/AvlAllocator/Lengths.antt =====
-- blk/avl_allocator.cc, range_size_tree_: the nodes stand in the order of their lengths, so that the last
-- one is as long as any.
use cxxlab.Prelude.{◌≤◌, ◌≡◌, refl, arith, true, List, [], ◌∷◌, All, if-cases, Bool-cases, inl, inr}
use cxxlab.Blk.AvlAllocator.{RangeSeg, length_of, is_shorter, same_node, size_insert, size_erase}
use cxxlab.Blk.AvlAllocator.Operations.{max_size}
use cxxlab.Blk.AvlAllocator.Trees.{has_node}

unfoldable pub IsByLength : List RangeSeg → Type 0
IsByLength [] = Unit
IsByLength (x ∷ l) = All (λ y. length_of x ≤ length_of y) l × IsByLength l

module _ (P : RangeSeg → Type 0) where
  All-size_insert : (r : RangeSeg) (l : List RangeSeg) → P r → All P l → All P (size_insert r l)
  unfolding size_insert
  All-size_insert r [] p h = (p, tt)
  All-size_insert r (x ∷ l) p h =
      if-cases (All P) (is_shorter r x) (λ e. (p, h)) (λ e. (h.0, All-size_insert r l p h.1))

  All-size_erase : (r : RangeSeg) (l : List RangeSeg) → All P l → All P (size_erase r l)
  unfolding size_erase
  All-size_erase r [] h = tt
  All-size_erase r (x ∷ l) h =
      if-cases (All P) (same_node r x) (λ e. All-size_erase r l h.1)
        (λ e. (h.0, All-size_erase r l h.1))

All-longer :
    (r x : RangeSeg) (l : List RangeSeg)
    → length_of r ≤ length_of x
    → All (λ y. length_of x ≤ length_of y) l
    → All (λ y. length_of r ≤ length_of y) l
All-longer r x [] h k = tt
All-longer r x (y ∷ l) h k = (omega (arith, h, k.0), All-longer r x l h k.1)

pub size_insert-IsByLength :
    (r : RangeSeg) (l : List RangeSeg) → IsByLength l → IsByLength (size_insert r l)
unfolding IsByLength size_insert
size_insert-IsByLength r [] h = (tt, tt)
size_insert-IsByLength r (x ∷ l) h =
    if-cases IsByLength (is_shorter r x)
      (λ e.
        let le : length_of r ≤ length_of x = ground (arith, e) in
        ((le, All-longer r x l le h.0), h))
      (λ e.
        let le : length_of x ≤ length_of r = ground (arith, e) in
        (
          All-size_insert (λ y. length_of x ≤ length_of y) r l le h.0,
          size_insert-IsByLength r l h.1,
        ))

pub size_erase-IsByLength :
    (r : RangeSeg) (l : List RangeSeg) → IsByLength l → IsByLength (size_erase r l)
unfolding IsByLength size_erase
size_erase-IsByLength r [] h = tt
size_erase-IsByLength r (x ∷ l) h =
    if-cases IsByLength (same_node r x) (λ e. size_erase-IsByLength r l h.1)
      (λ e.
        (All-size_erase (λ y. length_of x ≤ length_of y) r l h.0, size_erase-IsByLength r l h.1))

pub same_node-length_of : (x y : RangeSeg) → same_node x y ≡ true → length_of x ≡ length_of y
same_node-length_of x y h =
    let s : x.start ≡ y.start = ground (arith, h) in
    let e : x.end ≡ y.end = ground (arith, h) in rw (s, e) refl

first-le : (x : RangeSeg) (l : List RangeSeg) → IsByLength (x ∷ l) → length_of x ≤ max_size (x ∷ l)
unfolding IsByLength max_size
first-le x [] h = omega arith
first-le x (y ∷ l) h = omega (arith, h.0.0, first-le y l h.1)

pub length_of-le :
    (x : RangeSeg) (l : List RangeSeg)
    → IsByLength l
    → has_node x l ≡ true
    → length_of x ≤ max_size l
unfolding IsByLength max_size has_node
length_of-le x [] h k = absurd (ground (arith, k))
length_of-le x (y ∷ []) h k =
    let same : same_node x y ≡ true = ground (arith, k) in
    omega (arith, same_node-length_of x y same)
length_of-le x (y ∷ z ∷ l) h k = elim (Bool-cases (same_node x y)) [
  | inl same ↦ omega (arith, same_node-length_of x y same, first-le z l h.1, h.0.0)
  | inr other ↦ length_of-le x (z ∷ l) h.1 (ground (arith, other, k))
]
