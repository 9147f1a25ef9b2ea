-- ===== src/Blk/AvlAllocator/Searches.antt =====
-- blk/avl_allocator.cc, _pick_block_after and _pick_block_fits: what they find lies in a free range.
use native.Mathlib.Nat.{mod-lt}
use cxxlab.Prelude.{
  ℕ, ◌+◌, ◌-◌, ◌^◌, ◌≤◌, ◌<◌, ◌≡◌, sym, ◌∙◌, arith, true, List, [], ◌∷◌, Option, none, some, All,
  ltb, leb, ◌==◌, add64, sub64, if-cases, Bool-cases, inl, inr, add64-eq, leb→le,
}
use cxxlab.Blk.AvlAllocator.{
  RangeSeg, AvlAllocator, same_node, is_shorter, max_search_count, max_search_bytes,
}
use cxxlab.Blk.AvlAllocator.Pick.{
  p2roundup, offset_in, Search, hit, given_up, passed, hit_or, search_after, search_before,
  from_cursor, up_to_cursor, first_start, offset_of, search_on, pick_block_after, from_size,
  search_fits, pick_block_fits,
}
use cxxlab.Blk.AvlAllocator.Trees.{has_node, IsFrom, end_of, Contains, end_of-le}
use cxxlab.Blk.AvlAllocator.Grow.{IsValid}

pub p2roundup_lem :
    (x a : ℕ) → 0 < a → x + a < 2 ^ 64 → (x ≤ p2roundup x a) × (p2roundup x a < x + a)
p2roundup_lem x a h k =
    let r = mod-lt (x + (a - 1)) h in (omega (arith, h, k, r), omega (arith, h, k, r))

-- What a node of the range tree is.
pub node_in :
    (lo : ℕ) (x : RangeSeg) (tree : List RangeSeg)
    → IsFrom lo tree
    → has_node x tree ≡ true
    → (x.start < x.end)
      × (x.end ≤ end_of lo tree)
      × ((key : RangeSeg) → x.start ≤ key.start → key.end ≤ x.end → Contains key tree)
unfolding IsFrom has_node end_of
node_in lo x [] h k = absurd (ground (arith, k))
node_in lo x (y ∷ tree) h k = elim (Bool-cases (same_node x y)) [
  | inl same ↦
      let s : x.start ≡ y.start = ground (arith, same) in
      let e : x.end ≡ y.end = ground (arith, same) in
      (
        omega (arith, s, e, h.1),
        omega (arith, e, end_of-le y.end tree h.2),
        λ key a b. inl (omega (arith, s, a), omega (arith, e, b)),
      )
  | inr other ↦
      let (a, b, c) = node_in y.end x tree h.2 (ground (arith, other, k)) in
      (a, b, λ key l m. inr (c key l m))
]

module _ (a : AvlAllocator) (v : IsValid a) (size align : ℕ) (some_bytes : 0 < size)
    (few : size < 2 ^ 62) (unit : 0 < align) (fine : align < 2 ^ 62) where
  -- A node of the allocator, and an offset behind which the size fits in a free range.
  abbrev IsNode : RangeSeg → Type 0
  IsNode x = has_node x a.range_tree ≡ true

  abbrev pub IsFree : ℕ → Type 0
  IsFree o = Contains (record { start = o; end = o + size }) a.range_tree

  fits_lem :
      (x : RangeSeg)
      → IsNode x
      → leb (add64 (p2roundup x.start align) size) x.end ≡ true
      → IsFree (p2roundup x.start align)
  fits_lem x n fit =
      let (long, last, holds) = node_in 0 x a.range_tree v.ordered n in
      let (low, high) =
        p2roundup_lem x.start align unit (omega (arith, long, last, v.in_device, v.small, fine)) in
      let e =
        add64-eq (p2roundup x.start align) size
          (omega (arith, high, long, last, v.in_device, v.small, fine, few)) in
      holds (record { start = p2roundup x.start align; end = p2roundup x.start align + size }) low
        (leb→le (p2roundup x.start align + size) x.end ((rw e at fit)))

  abbrev IsHit : Search → Type 0
  IsHit (hit o) = IsFree o
  IsHit given_up = Unit
  IsHit (passed c b) = Unit

  abbrev pub IsOffset : Option ℕ → Type 0
  IsOffset none = Unit
  IsOffset (some o) = IsFree o

  hit_or-IsHit :
      (x : RangeSeg) (s : Search) → IsNode x → IsHit s → IsHit (hit_or (offset_in size align x) s)
  hit_or-IsHit x s n h = elim (Bool-cases (leb (add64 (p2roundup x.start align) size) x.end)) [
    | inl fit ↦ rw fit (fits_lem x n fit)
    | inr none_ ↦ rw none_ h
  ]

  search_after-IsHit :
      (first count bytes : ℕ) (l : List RangeSeg)
      → All IsNode l
      → IsHit (search_after size align first count bytes l)
  unfolding search_after
  search_after-IsHit first count bytes [] h = tt
  search_after-IsHit first count bytes (x ∷ l) h = hit_or-IsHit x _ h.0 (
      if-cases IsHit (ltb max_search_count (count + 1)) (λ e. tt)
        (λ e.
          if-cases IsHit (ltb max_search_bytes (sub64 x.start first)) (λ e'. tt)
            (λ e'. search_after-IsHit first (count + 1) (sub64 x.start first) l h.1)))

  search_before-IsHit :
      (first count bytes : ℕ) (l : List RangeSeg)
      → All IsNode l
      → IsHit (search_before size align first count bytes l)
  unfolding search_before
  search_before-IsHit first count bytes [] h = tt
  search_before-IsHit first count bytes (x ∷ l) h = hit_or-IsHit x _ h.0 (
      if-cases IsHit (ltb max_search_count (count + 1)) (λ e. tt)
        (λ e.
          if-cases IsHit (ltb max_search_bytes (add64 bytes (sub64 first x.start))) (λ e'. tt)
            (λ e'. search_before-IsHit first (count + 1) bytes l h.1)))

  search_fits-IsOffset :
      (count : ℕ) (l : List RangeSeg) → All IsNode l → IsOffset (search_fits size align count l)
  unfolding search_fits
  search_fits-IsOffset count [] h = tt
  search_fits-IsOffset count (x ∷ l) h =
      if-cases IsOffset (ltb max_search_count (count + 1)) (λ e. tt)
        (λ e.
          if-cases IsOffset (leb (add64 (p2roundup x.start align) size) x.end)
            (λ fit. fits_lem x h.0 fit) (λ e'. search_fits-IsOffset (count + 1) l h.1))

  from_cursor-IsNode : (c : ℕ) (l : List RangeSeg) → All IsNode l → All IsNode (from_cursor c l)
  unfolding from_cursor
  from_cursor-IsNode c [] h = tt
  from_cursor-IsNode c (x ∷ l) h =
      if-cases (All IsNode) (leb x.end c) (λ e. from_cursor-IsNode c l h.1) (λ e. h)

  up_to_cursor-IsNode : (c : ℕ) (l : List RangeSeg) → All IsNode l → All IsNode (up_to_cursor c l)
  unfolding up_to_cursor
  up_to_cursor-IsNode c [] h = tt
  up_to_cursor-IsNode c (x ∷ l) h =
      if-cases (All IsNode) (leb x.end c) (λ e. (h.0, up_to_cursor-IsNode c l h.1)) (λ e. tt)

  from_size-IsNode : (n : ℕ) (l : List RangeSeg) → All IsNode l → All IsNode (from_size n l)
  unfolding from_size
  from_size-IsNode n [] h = tt
  from_size-IsNode n (x ∷ l) h =
      if-cases (All IsNode) (is_shorter x (record { start = 0; end = n }))
        (λ e. from_size-IsNode n l h.1) (λ e. h)

  nodes-IsNode :
      (l : List RangeSeg) → ((x : RangeSeg) → has_node x l ≡ true → IsNode x) → All IsNode l
  unfolding has_node
  nodes-IsNode [] h = tt
  nodes-IsNode (x ∷ l) h = (h x (ground arith), nodes-IsNode l (λ y n. h y (ground (arith, n))))

  pub pick_block_fits-IsOffset : IsOffset (pick_block_fits size align a)
  unfolding pick_block_fits
  pick_block_fits-IsOffset = search_fits-IsOffset 0 (from_size size a.range_size_tree) (
      from_size-IsNode size a.range_size_tree
        (nodes-IsNode a.range_size_tree (λ x n. sym (v.indexed.nodes x) ∙ n)))

  offset_of-IsOffset : (s : Search) → IsHit s → IsOffset (offset_of s)
  offset_of-IsOffset (hit o) h = h
  offset_of-IsOffset given_up h = tt
  offset_of-IsOffset (passed c b) h = tt

  search_on-IsOffset :
      (first cursor : ℕ) (front : List RangeSeg) (s : Search)
      → All IsNode front
      → IsHit s
      → IsOffset (search_on size align first cursor front s)
  search_on-IsOffset first cursor front (hit o) h k = k
  search_on-IsOffset first cursor front given_up h k = tt
  search_on-IsOffset first cursor front (passed c b) h k =
      if-cases IsOffset (cursor == 0) (λ e. tt)
        (λ e.
          offset_of-IsOffset (search_before size align first c b front)
            (search_before-IsHit first c b front h))

  pub pick_block_after-IsOffset :
      (past_end cursor : ℕ) → IsOffset (pick_block_after past_end cursor size align a)
  unfolding pick_block_after
  pick_block_after-IsOffset past_end cursor =
      let nodes = nodes-IsNode a.range_tree (λ x n. n) in
      let rest = from_cursor cursor a.range_tree in
      let first = first_start past_end rest in
      search_on-IsOffset first cursor (up_to_cursor cursor a.range_tree)
        (search_after size align first 0 0 rest) (up_to_cursor-IsNode cursor a.range_tree nodes)
        (search_after-IsHit first 0 0 rest (from_cursor-IsNode cursor a.range_tree nodes))
