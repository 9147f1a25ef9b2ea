-- ===== src/Blk/AvlAllocator/Change.antt =====
-- blk/avl_allocator.cc, _range_size_tree_rm and _range_size_tree_try_insert: the index of the nodes by
-- length and the number of free bytes, as one node goes or comes.
use cxxlab.Prelude.{
  ◌+◌, ◌-◌, ◌^◌, ◌<◌, ◌≡◌, refl, ◌∙◌, arith, true, false, not, ◌&&◌, ◌||◌, List, ◌∷◌, ◌++◌, some,
  leb, add64, sub64, add64-eq, sub64-eq, Bool-cases, inl, inr,
}
use cxxlab.Blk.AvlAllocator.{
  RangeSeg, AvlAllocator, length_of, same_node, size_insert, size_erase, range_size_tree_rm,
  range_size_tree_insert,
}
use cxxlab.Blk.AvlAllocator.Lengths.{IsByLength, size_insert-IsByLength, size_erase-IsByLength}
use cxxlab.Blk.AvlAllocator.Trees.{
  has_node, total, IsFrom, end_of, total-append, has_node-append, total-le, has_node-above,
  has_node-below, has_node-size_insert, has_node-same, has_node-size_erase, end_of-le, end_of-node,
  IsFrom-node,
}

-- The index has these nodes by their lengths, and the free bytes are theirs; there is no cap on their
-- number.
pub record Indexes (a : AvlAllocator) (l : List RangeSeg) : Type 0 where
  pub nodes : (r : RangeSeg) → has_node r a.range_size_tree ≡ has_node r l
  pub free : a.num_free ≡ total l
  pub uncapped : a.range_count_cap ≡ 0
  pub sorted : IsByLength a.range_size_tree

-- The nodes, their number of bytes and the cap are all that it is about.
pub same-Indexes :
    (a b : AvlAllocator) (l : List RangeSeg)
    → b.range_size_tree ≡ a.range_size_tree
    → b.num_free ≡ a.num_free
    → b.range_count_cap ≡ a.range_count_cap
    → Indexes a l
    → Indexes b l
same-Indexes a b l index count cap i = record {
  nodes = λ r. rw index (i.nodes r);
  free = rw count i.free;
  uncapped = rw cap i.uncapped;
  sorted = rw index i.sorted;
}

abbrev pub removed : RangeSeg → AvlAllocator → AvlAllocator
removed r a = record a {
  num_free = sub64 a.num_free (length_of r);
  range_size_tree = size_erase r a.range_size_tree;
}

abbrev pub inserted : RangeSeg → AvlAllocator → AvlAllocator
inserted r a = record a {
  num_free = add64 a.num_free (length_of r);
  range_size_tree = size_insert r a.range_size_tree;
}

module _ (a : AvlAllocator) (front : List RangeSeg) (r : RangeSeg) (rest : List RangeSeg) where
  total_around : total (front ++ (r ∷ rest)) ≡ total (front ++ rest) + (r.end - r.start)
  unfolding total
  total_around = omega (arith, total-append front (r ∷ rest), total-append front rest)

  nodes_around :
      (x : RangeSeg)
      → has_node r front ≡ false
      → has_node r rest ≡ false
      → has_node x a.range_size_tree ≡ has_node x (front ++ (r ∷ rest))
      → (not (same_node x r) && has_node x a.range_size_tree) ≡ has_node x (front ++ rest)
  unfolding has_node
  nodes_around x f b h = elim (Bool-cases (same_node x r)) [
    | inl same ↦
        let at_front = has_node-same x r front same ∙ f in
        let at_rest = has_node-same x r rest same ∙ b in
        ground (arith, same, at_front, at_rest, has_node-append x front rest)
    | inr other ↦
        ground (arith, other, h, has_node-append x front rest, has_node-append x front (r ∷ rest))
  ]

  nodes_with :
      (x : RangeSeg)
      → has_node x a.range_size_tree ≡ has_node x (front ++ rest)
      → (same_node x r || has_node x a.range_size_tree) ≡ has_node x (front ++ (r ∷ rest))
  unfolding has_node
  nodes_with x h =
      ground (arith, h, has_node-append x front rest, has_node-append x front (r ∷ rest))

  pub range_size_tree_rm_lem :
      IsFrom 0 (front ++ (r ∷ rest))
      → end_of 0 (front ++ (r ∷ rest)) < 2 ^ 64
      → Indexes a (front ++ (r ∷ rest))
      → (range_size_tree_rm r a ≡ some (removed r a)) × Indexes (removed r a) (front ++ rest)
  unfolding range_size_tree_rm
  range_size_tree_rm_lem h small i =
      let (before, apart, real, after) = IsFrom-node 0 front r rest h in
      let e = end_of-node 0 front r rest in
      let last = end_of-le r.end rest after in
      let t = total-le 0 (front ++ (r ∷ rest)) h in
      let len : length_of r ≡ r.end - r.start =
        sub64-eq r.end r.start (omega (arith, real)) (omega (arith, small, e, last)) in
      let enough : leb (length_of r) a.num_free ≡ true =
        ground (arith, len, i.free, total_around) in
      let less =
        sub64-eq a.num_free (length_of r) (omega (arith, len, i.free, total_around))
          (omega (arith, i.free, t, small)) in
      let none_before = has_node-above 0 r front before apart in
      let none_after = has_node-below r.end r rest after real in
      (
        rw enough refl,
        record {
          nodes = λ x.
              has_node-size_erase x r a.range_size_tree
              ∙ nodes_around x none_before none_after (i.nodes x);
          free = less ∙ omega (arith, len, i.free, total_around);
          uncapped = i.uncapped;
          sorted = size_erase-IsByLength r a.range_size_tree i.sorted;
        },
      )

  pub range_size_tree_insert_lem :
      IsFrom 0 (front ++ (r ∷ rest))
      → end_of 0 (front ++ (r ∷ rest)) < 2 ^ 64
      → Indexes a (front ++ rest)
      → (range_size_tree_insert r a ≡ some (inserted r a))
        × Indexes (inserted r a) (front ++ (r ∷ rest))
  unfolding range_size_tree_insert
  range_size_tree_insert_lem h small i =
      let (before, apart, real, after) = IsFrom-node 0 front r rest h in
      let e = end_of-node 0 front r rest in
      let last = end_of-le r.end rest after in
      let t = total-le 0 (front ++ (r ∷ rest)) h in
      let len : length_of r ≡ r.end - r.start =
        sub64-eq r.end r.start (omega (arith, real)) (omega (arith, small, e, last)) in
      let more =
        add64-eq a.num_free (length_of r) (omega (arith, len, i.free, total_around, t, small)) in
      (
        rw i.uncapped refl,
        record {
          nodes = λ x. has_node-size_insert x r a.range_size_tree ∙ nodes_with x (i.nodes x);
          free = more ∙ omega (arith, len, i.free, total_around);
          uncapped = i.uncapped;
          sorted = size_insert-IsByLength r a.range_size_tree i.sorted;
        },
      )
