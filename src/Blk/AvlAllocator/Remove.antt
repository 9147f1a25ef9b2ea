-- ===== src/Blk/AvlAllocator/Remove.antt =====
-- blk/avl_allocator.cc, _remove_from_tree: what becomes of the free ranges when a part of one is taken.
use cxxlab.Prelude.{
  ℕ, ◌+◌, ◌-◌, ◌^◌, ◌≤◌, ◌<◌, ◌≡◌, refl, sym, arith, true, false, not, ◌&&◌, ◌||◌, List, ◌∷◌, ◌++◌,
  Option, some, leb, ◌==◌, add64-eq, if-cases, Bool-cases, inl, inr, ==→eq,
}
use cxxlab.Blk.AvlAllocator.{
  RangeSeg, AvlAllocator, range_size_tree_rm, range_size_tree_insert, with_tree, then_do, Found,
  missing, found, find_node, process_range_removal, remove_found, remove_from_tree,
}
use cxxlab.Blk.AvlAllocator.Trees.{
  inside, covers, covers-append, covers-above, covers-below, IsFrom, end_of, end_of-node,
  end_of-append, end_of-le, end_of-le_of, IsFrom-weaken, append-IsFrom, IsFrom-node, node-IsFrom,
  total, total-append, Contains, IsFound, find_node-IsFound,
}
use cxxlab.Blk.AvlAllocator.Change.{
  same-Indexes, Indexes, inserted, removed, range_size_tree_rm_lem, range_size_tree_insert_lem,
}
use cxxlab.Blk.AvlAllocator.Grow.{IsValid}

-- An allocator with a range less than another one.
pub record Shrinks (start end : ℕ) (a : AvlAllocator) (o : Option AvlAllocator) : Type 0 where
  pub next : AvlAllocator
  pub is : o ≡ some next
  pub valid : IsValid next
  pub covered :
      (n : ℕ) → covers next.range_tree n ≡ (covers a.range_tree n && not (inside start end n))
  pub taken : next.num_free + (end - start) ≡ a.num_free
  pub device : next.device_size ≡ a.device_size
  pub block : next.block_size ≡ a.block_size

module _ (start end : ℕ) (a : AvlAllocator) (v : IsValid a) (real : start < end)
    (front rest : List RangeSeg) (r : RangeSeg) (t : a.range_tree ≡ front ++ (r ∷ rest))
    (from : r.start ≤ start) (to : end ≤ r.end) where
  whole : Indexes a (front ++ (r ∷ rest))
  whole = rw (sym t) v.indexed

  parts : IsFrom 0 front × (end_of 0 front ≤ r.start) × (r.start < r.end) × IsFrom r.end rest
  parts = IsFrom-node 0 front r rest (rw t at v.ordered)

  last : end_of r.end rest ≤ a.device_size
  last = omega (arith, end_of-node 0 front r rest, (rw t at v.in_device))

  gone : (range_size_tree_rm r a ≡ some (removed r a)) × Indexes (removed r a) (front ++ rest)
  gone =
      range_size_tree_rm_lem a front r rest (rw t at v.ordered)
        (omega (arith, v.small, (rw t at v.in_device))) whole

  -- The bytes of the node, but for those of the range, are those of the parts that are left.
  covered_lem :
      (n : ℕ) (l : List RangeSeg)
      → covers l n ≡ ((inside r.start r.end n && not (inside start end n)) || covers rest n)
      → covers (front ++ l) n ≡ (covers a.range_tree n && not (inside start end n))
  unfolding covers
  covered_lem n l h =
      let before = covers-above 0 n front parts.0 in
      let behind = covers-below r.end n rest parts.3 in
      rw t (elim (Bool-cases (inside start end n)) [
        | inl within ↦
            let low : end_of 0 front ≤ n = ground (arith, within, from, parts.1) in
            let high : n < r.end = ground (arith, within, to) in
            ground (
              arith,
              within,
              h,
              before low,
              behind high,
              covers-append front l n,
              covers-append front (r ∷ rest) n,
            )
        | inr outside ↦
            ground (arith, outside, h, covers-append front l n, covers-append front (r ∷ rest) n)
      ])

  all_taken :
      r.start ≡ start
      → r.end ≡ end
      → Shrinks start end a
          (then_do (range_size_tree_rm r a) (λ a1. some (with_tree (front ++ rest) a1)))
  unfolding covers total
  all_taken s e =
      let j = gone.1 in
      let joined =
        append-IsFrom 0 front rest parts.0
          (IsFrom-weaken (end_of 0 front) r.end rest parts.3 (omega (arith, parts.1, parts.2))) in
      let ends = end_of-append 0 front rest in
      record {
        next = with_tree (front ++ rest) (removed r a);
        is = rw gone.0 refl;
        valid = record {
          ordered = joined;
          in_device = rw ends (
              end_of-le_of r.end (end_of 0 front) a.device_size rest last
                (omega (arith, parts.1, parts.2, last, end_of-le r.end rest parts.3)));
          small = v.small;
          indexed = same-Indexes _ _ _ refl refl refl j;
        };
        covered = λ n. covered_lem n rest (ground (arith, s, e));
        taken = omega (
          arith,
          j.free,
          whole.free,
          total-append front (r ∷ rest),
          total-append front rest,
          real,
          s,
          e,
        );
        device = refl;
        block = refl;
      }

  -- One part of the node is left.
  part_left :
      (g : RangeSeg)
      → r.start ≤ g.start
      → g.start < g.end
      → g.end ≤ r.end
      → ((n : ℕ) → inside g.start g.end n ≡ (inside r.start r.end n && not (inside start end n)))
      → (g.end - g.start) + (end - start) ≡ r.end - r.start
      → Shrinks start end a (
          then_do
            (range_size_tree_rm r a)
            (λ a1. range_size_tree_insert g (with_tree (front ++ (g ∷ rest)) a1)))
  unfolding covers total
  part_left g low long high same less =
      let a1 = with_tree (front ++ (g ∷ rest)) (removed r a) in
      let i : Indexes a1 (front ++ rest) = same-Indexes _ _ _ refl refl refl gone.1 in
      let h =
        node-IsFrom 0 front g rest parts.0 (omega (arith, parts.1, low)) long
          (IsFrom-weaken g.end r.end rest parts.3 high) in
      let e = end_of-node 0 front g rest in
      let ends =
        end_of-le_of r.end g.end a.device_size rest last
          (omega (arith, high, last, end_of-le r.end rest parts.3)) in
      let (is, j) =
        range_size_tree_insert_lem a1 front g rest h (omega (arith, e, ends, v.small)) i in
      record {
        next = inserted g a1;
        is = rw gone.0 is;
        valid = record {
          ordered = h;
          in_device = omega (arith, e, ends);
          small = v.small;
          indexed = same-Indexes _ _ _ refl refl refl j;
        };
        covered = λ n. covered_lem n (g ∷ rest) (ground (arith, same n));
        taken = omega (
          arith,
          j.free,
          whole.free,
          total-append front (g ∷ rest),
          total-append front (r ∷ rest),
          less,
        );
        device = refl;
        block = refl;
      }

  both_left :
      r.start < start
      → end < r.end
      → let left : RangeSeg = record { start = r.start; end = start } in
        let right : RangeSeg = record { start = end; end = r.end } in
        Shrinks start end a (
          then_do (range_size_tree_rm r a) (λ a1.
            then_do
              (range_size_tree_insert right (with_tree (front ++ (left ∷ (right ∷ rest))) a1))
              (λ a2. range_size_tree_insert left a2)))
  unfolding covers total IsFrom end_of
  both_left low high =
      let left : RangeSeg = record { start = r.start; end = start } in
      let right : RangeSeg = record { start = end; end = r.end } in
      let a1 = with_tree (front ++ (left ∷ (right ∷ rest))) (removed r a) in
      let i : Indexes a1 (front ++ rest) = same-Indexes _ _ _ refl refl refl gone.1 in
      let h1 =
        node-IsFrom 0 front right rest parts.0 (omega (arith, parts.1, real, low)) high parts.3 in
      let e1 = end_of-node 0 front right rest in
      let (is1, j1) =
        range_size_tree_insert_lem a1 front right rest h1 (omega (arith, e1, last, v.small)) i in
      let h =
        node-IsFrom 0 front left (right ∷ rest) parts.0 parts.1 low
          (omega (arith, real), high, parts.3) in
      let e = end_of-node 0 front left (right ∷ rest) in
      let (is, j) =
        range_size_tree_insert_lem (inserted right a1) front left (right ∷ rest) h
          (omega (arith, e, last, v.small)) j1 in
      record {
        next = inserted left (inserted right a1);
        is = rw (gone.0, is1) is;
        valid = record {
          ordered = h;
          in_device = omega (arith, e, last);
          small = v.small;
          indexed = same-Indexes _ _ _ refl refl refl j;
        };
        covered = λ n. covered_lem n (left ∷ (right ∷ rest)) (ground (arith, low, high, real));
        taken = omega (
          arith,
          low,
          high,
          real,
          j.free,
          whole.free,
          total-append front (left ∷ (right ∷ rest)),
          total-append front (r ∷ rest),
        );
        device = refl;
        block = refl;
      }

  pub process_range_removal-Shrinks :
      Shrinks start end a (process_range_removal start end front r rest a)
  unfolding process_range_removal
  process_range_removal-Shrinks =
      let P = λ (o : Option AvlAllocator). Shrinks start end a o in
      if-cases P (r.start == start)
        (λ s.
          let at_start = ==→eq r.start start s in
          if-cases P (r.end == end) (λ e. all_taken at_start (==→eq r.end end e))
            (λ e.
              let more : end < r.end = ground (arith, e, to) in
              part_left (record { start = end; end = r.end }) (omega (arith, from, real)) more
                (omega arith) (λ n. ground (arith, at_start, real, more))
                (omega (arith, at_start, real, more))))
        (λ s.
          let less : r.start < start = ground (arith, s, from) in
          if-cases P (r.end == end)
            (λ e.
              let at_end = ==→eq r.end end e in
              part_left (record { start = r.start; end = start }) (omega arith) less
                (omega (arith, real, to)) (λ n. ground (arith, at_end, real, less))
                (omega (arith, at_end, real, less)))
            (λ e. both_left less (ground (arith, e, to))))

remove_found-Shrinks :
    (start size : ℕ) (a : AvlAllocator)
    → IsValid a
    → 0 < size
    → (f : Found) → IsFound (record { start = start; end = start + size }) a.range_tree f
    → Shrinks start (start + size) a (remove_found start (start + size) size f a)
unfolding total
remove_found-Shrinks start size a v some_bytes missing h = absurd h
remove_found-Shrinks start size a v some_bytes (found front r rest) (t, from, to) =
    let i = whole start (start + size) a v (omega (arith, some_bytes)) front rest r t from to in
    let checks : (leb r.start start && (leb (start + size) r.end && leb size a.num_free)) ≡ true =
      ground (arith, from, to, i.free, total-append front (r ∷ rest)) in
    rw checks (
      process_range_removal-Shrinks start (start + size) a v (omega (arith, some_bytes)) front rest
        r t from to)

-- In a valid allocator, for a range that is not empty, ends below 2^64 and lies in a free range:
-- _remove_from_tree fails no assertion and leaves a valid allocator, where just the bytes of the range
-- are free no longer, and the number of free bytes is less by its length.
pub remove_from_tree-Shrinks :
    (start size : ℕ) (a : AvlAllocator)
    → IsValid a
    → 0 < size
    → start + size < 2 ^ 64
    → Contains (record { start = start; end = start + size }) a.range_tree
    → Shrinks start (start + size) a (remove_from_tree start size a)
unfolding remove_from_tree
remove_from_tree-Shrinks start size a v some_bytes fits c =
    let end = add64-eq start size (omega (arith, fits)) in
    let real : (size == 0) ≡ false = ground (arith, some_bytes) in
    let key : RangeSeg = record { start = start; end = start + size } in
    rw (end, real)
      (remove_found-Shrinks start size a v some_bytes (find_node key a.range_tree)
        (find_node-IsFound 0 key a.range_tree v.ordered (omega (arith, some_bytes)) c))
