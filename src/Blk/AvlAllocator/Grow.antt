-- ===== src/Blk/AvlAllocator/Grow.antt =====
-- blk/avl_allocator.cc, _add_to_tree: a valid allocator, and what becomes of it in each way of adding a
-- range.
use cxxlab.Prelude.{
  ℕ, ◌+◌, ◌-◌, ◌^◌, ◌≤◌, ◌<◌, ◌≡◌, refl, sym, arith, ◌||◌, List, ◌∷◌, ◌++◌, Option, some,
}
use cxxlab.Blk.AvlAllocator.{
  RangeSeg, AvlAllocator, range_size_tree_rm, range_size_tree_insert, with_tree, then_do,
}
use cxxlab.Blk.AvlAllocator.Trees.{
  inside, covers, covers-append, IsFrom, end_of, end_of-node, IsFrom-node, node-IsFrom, total,
  total-append,
}
use cxxlab.Blk.AvlAllocator.Change.{
  same-Indexes, Indexes, inserted, removed, range_size_tree_rm_lem, range_size_tree_insert_lem,
}

-- The free ranges are in order and in the device, and the index and the number of free bytes are theirs.
pub record IsValid (a : AvlAllocator) : Type 0 where
  pub ordered : IsFrom 0 a.range_tree
  pub in_device : end_of 0 a.range_tree ≤ a.device_size
  pub small : a.device_size < 2 ^ 63
  pub indexed : Indexes a a.range_tree

-- An allocator with a range more than another one.
pub record Grows (start end : ℕ) (a : AvlAllocator) (o : Option AvlAllocator) : Type 0 where
  pub next : AvlAllocator
  pub is : o ≡ some next
  pub valid : IsValid next
  pub covered : (n : ℕ) → covers next.range_tree n ≡ (covers a.range_tree n || inside start end n)
  pub freed : next.num_free ≡ a.num_free + (end - start)
  pub device : next.device_size ≡ a.device_size
  pub block : next.block_size ≡ a.block_size

module _ (start end : ℕ) (a : AvlAllocator) (v : IsValid a) (real : start < end)
    (fits : end ≤ a.device_size) where
  pub add_new :
      (front rest : List RangeSeg)
      → a.range_tree ≡ front ++ rest
      → IsFrom 0 front
      → end_of 0 front ≤ start
      → IsFrom end rest
      → end_of end rest ≤ a.device_size
      → let new : RangeSeg = record { start = start; end = end } in
        Grows start end a (range_size_tree_insert new (with_tree (front ++ (new ∷ rest)) a))
  unfolding covers total
  add_new front rest t before apart after last =
      let new : RangeSeg = record { start = start; end = end } in
      let h = node-IsFrom 0 front new rest before apart real after in
      let e = end_of-node 0 front new rest in
      let a' = with_tree (front ++ (new ∷ rest)) a in
      let i : Indexes a' (front ++ rest) =
        rw (sym t) (same-Indexes _ _ _ refl refl refl v.indexed) in
      let (is, j) =
        range_size_tree_insert_lem a' front new rest h (omega (arith, e, last, v.small)) i in
      record {
        next = inserted new a';
        is = is;
        valid = record {
          ordered = h;
          in_device = omega (arith, e, last);
          small = v.small;
          indexed = same-Indexes _ _ _ refl refl refl j;
        };
        covered = λ n.
            rw t (ground (arith, covers-append front rest n, covers-append front (new ∷ rest) n));
        freed = omega (
          arith,
          j.free,
          i.free,
          total-append front (new ∷ rest),
          total-append front rest,
          v.indexed.free,
        );
        device = refl;
        block = refl;
      }

  -- A node is exchanged for a longer one.
  pub exchange :
      (front rest : List RangeSeg) (b g : RangeSeg)
      → a.range_tree ≡ front ++ (b ∷ rest)
      → end_of 0 front ≤ g.start
      → g.start < g.end
      → IsFrom g.end rest
      → end_of g.end rest ≤ a.device_size
      → ((n : ℕ) → inside g.start g.end n ≡ (inside b.start b.end n || inside start end n))
      → g.end - g.start ≡ (b.end - b.start) + (end - start)
      → Grows start end a (
          then_do
            (range_size_tree_rm b a)
            (λ a1. range_size_tree_insert g (with_tree (front ++ (g ∷ rest)) a1)))
  unfolding covers total
  exchange front rest b g t apart long after last same more =
      let h0 = rw t at v.ordered in
      let d0 = rw t at v.in_device in
      let i0 : Indexes a (front ++ (b ∷ rest)) = rw (sym t) v.indexed in
      let (gone, i1) = range_size_tree_rm_lem a front b rest h0 (omega (arith, d0, v.small)) i0 in
      let before = (IsFrom-node 0 front b rest h0).0 in
      let h = node-IsFrom 0 front g rest before apart long after in
      let e = end_of-node 0 front g rest in
      let a1 = with_tree (front ++ (g ∷ rest)) (removed b a) in
      let i : Indexes a1 (front ++ rest) = same-Indexes _ _ _ refl refl refl i1 in
      let (is, j) =
        range_size_tree_insert_lem a1 front g rest h (omega (arith, e, last, v.small)) i in
      record {
        next = inserted g a1;
        is = rw gone is;
        valid = record {
          ordered = h;
          in_device = omega (arith, e, last);
          small = v.small;
          indexed = same-Indexes _ _ _ refl refl refl j;
        };
        covered = λ n. rw t (
            ground
              (arith, same n, covers-append front (b ∷ rest) n, covers-append front (g ∷ rest) n));
        freed = omega (
          arith,
          j.free,
          i0.free,
          more,
          total-append front (g ∷ rest),
          total-append front (b ∷ rest),
        );
        device = refl;
        block = refl;
      }

  -- Two nodes and the range between them become one node.
  pub join :
      (front rest : List RangeSeg) (b x : RangeSeg)
      → a.range_tree ≡ front ++ (b ∷ (x ∷ rest))
      → b.end ≡ start
      → x.start ≡ end
      → let joined : RangeSeg = record { start = b.start; end = x.end } in
        Grows start end a (
          then_do (range_size_tree_rm b a) (λ a1.
            then_do
              (range_size_tree_rm x a1)
              (λ a2. range_size_tree_insert joined (with_tree (front ++ (joined ∷ rest)) a2))))
  unfolding covers total IsFrom end_of
  join front rest b x t to from =
      let g : RangeSeg = record { start = b.start; end = x.end } in
      let h0 = rw t at v.ordered in
      let d0 = rw t at v.in_device in
      let i0 : Indexes a (front ++ (b ∷ (x ∷ rest))) = rw (sym t) v.indexed in
      let (before, apart, long, after) = IsFrom-node 0 front b (x ∷ rest) h0 in
      let e0 = end_of-node 0 front b (x ∷ rest) in
      let (gone, i1) =
        range_size_tree_rm_lem a front b (x ∷ rest) h0 (omega (arith, d0, v.small)) i0 in
      let h1 =
        node-IsFrom 0 front x rest before (omega (arith, apart, long, after.0)) after.1 after.2 in
      let e1 = end_of-node 0 front x rest in
      let (gone2, i2) =
        range_size_tree_rm_lem (removed b a) front x rest h1 (omega (arith, e1, e0, d0, v.small))
          i1 in
      let h =
        node-IsFrom 0 front g rest before apart (omega (arith, long, after.0, after.1)) after.2 in
      let e = end_of-node 0 front g rest in
      let a2 = with_tree (front ++ (g ∷ rest)) (removed x (removed b a)) in
      let i : Indexes a2 (front ++ rest) = same-Indexes _ _ _ refl refl refl i2 in
      let (is, j) =
        range_size_tree_insert_lem a2 front g rest h (omega (arith, e, e0, d0, v.small)) i in
      record {
        next = inserted g a2;
        is = rw (gone, gone2) is;
        valid = record {
          ordered = h;
          in_device = omega (arith, e, e0, d0);
          small = v.small;
          indexed = same-Indexes _ _ _ refl refl refl j;
        };
        covered = λ n. rw t (
            ground (
              arith,
              to,
              from,
              real,
              long,
              after.1,
              covers-append front (b ∷ (x ∷ rest)) n,
              covers-append front (g ∷ rest) n,
            ));
        freed = omega (
          arith,
          to,
          from,
          real,
          long,
          after.1,
          j.free,
          i0.free,
          total-append front (g ∷ rest),
          total-append front (b ∷ (x ∷ rest)),
        );
        device = refl;
        block = refl;
      }
