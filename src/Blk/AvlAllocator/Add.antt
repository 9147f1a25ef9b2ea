-- ===== src/Blk/AvlAllocator/Add.antt =====
-- blk/avl_allocator.cc, _add_to_tree: which way it takes, and what becomes of the free ranges.
use mathlib.Core.List.{append_assoc}
use cxxlab.Prelude.{
  ℕ, ◌+◌, ◌≤◌, ◌<◌, ◌≡◌, refl, sym, ap, ◌∙◌, arith, false, List, [], ◌∷◌, ◌++◌, Option, leb, ◌==◌,
  add64-eq, max, if-cases, Bool-cases, inl, inr, ==→eq, leb→le, leb→lt,
}
use cxxlab.Blk.AvlAllocator.{
  RangeSeg, AvlAllocator, range_size_tree_rm, range_size_tree_insert, with_tree, Place, at_begin,
  behind, then_do, upper_bound, rest_of, add_at, add_between, add_touching, add_to_tree,
}
use cxxlab.Blk.AvlAllocator.Trees.{
  covers, covers-append, IsFrom, end_of, end_of-node, end_of-le_of, IsFrom-node, node-IsFrom,
  IsPlace, upper_bound-IsPlace,
}
use cxxlab.Blk.AvlAllocator.Grow.{IsValid, Grows, add_new, exchange, join}

module _ (start end : ℕ) (a : AvlAllocator) (v : IsValid a) (real : start < end)
    (fits : end ≤ a.device_size) where
  module _ (apart_from : (n : ℕ) → start ≤ n → n < end → covers a.range_tree n ≡ false) where
    -- The node in front of the place ends at the start of the range, or before it.
    front_apart :
        (front rest : List RangeSeg) (b : RangeSeg)
        → a.range_tree ≡ front ++ (b ∷ rest)
        → b.start < end
        → b.end ≤ start
    unfolding covers
    front_apart front rest b t k =
        let h0 = rw t at v.ordered in
        let long = (IsFrom-node 0 front b rest h0).2 in
        let n = max b.start start in
        let clear = rw t at apart_from n in
        elim (Bool-cases (leb b.end start)) [
          | inl ends ↦ leb→le b.end start ends
          | inr over ↦
              let past = leb→lt b.end start over in
              let out = clear (omega arith) (omega (arith, real, k)) in
              absurd (ground (arith, past, long, k, real, out, covers-append front (b ∷ rest) n))
        ]

    behind_last :
        (front rest : List RangeSeg) (b : RangeSeg)
        → a.range_tree ≡ front ++ (b ∷ rest)
        → end_of end rest ≤ a.device_size
    behind_last front rest b t =
        end_of-le_of b.end end a.device_size rest
          (omega (arith, end_of-node 0 front b rest, (rw t at v.in_device))) fits

    between :
        (p : Place)
        → IsPlace (record { start = start; end = end }) a.range_tree p
        → Grows start end a (add_between start end p a)
    between (at_begin rest) h =
        add_new start end a v real fits [] rest h.0 (unfold IsFrom in tt)
          (unfold end_of in omega arith) h.1
          (end_of-le_of 0 end a.device_size rest (rw (sym h.0) v.in_device) fits)
    between (behind front b rest) h =
        let (t, k, after) = h in
        let ends = front_apart front rest b t k in
        let last = behind_last front rest b t in
        let parts = IsFrom-node 0 front b rest (rw t at v.ordered) in
        let grown : RangeSeg = record { start = b.start; end = end } in
        let new : RangeSeg = record { start = start; end = end } in
        if-cases (λ (o : Option AvlAllocator). Grows start end a o) (b.end == start)
          (λ same.
            let to = ==→eq b.end start same in
            exchange start end a v real fits front rest b grown t parts.1 (omega (arith, k)) after
              last (λ n. ground (arith, to, real, parts.2)) (omega (arith, to, real, parts.2)))
          (λ other. rw (sym (append_assoc front (b ∷ []) (new ∷ rest))) (
            add_new start end a v real fits (front ++ b ∷ []) rest
              (t ∙ sym (append_assoc front (b ∷ []) rest))
              (node-IsFrom 0 front b [] parts.0 parts.1 parts.2 (unfold IsFrom in tt))
              (rw (end_of-node 0 front b []) (unfold end_of in ends)) after last))

    grow_down :
        (x : RangeSeg) (rest front : List RangeSeg)
        → a.range_tree ≡ front ++ (x ∷ rest)
        → end_of 0 front ≤ start
        → x.start ≡ end
        → let grown : RangeSeg = record { start = start; end = x.end } in
          Grows start end a (
            then_do
              (range_size_tree_rm x a)
              (λ a1. range_size_tree_insert grown (with_tree (front ++ (grown ∷ rest)) a1)))
    grow_down x rest front t ends from =
        let grown : RangeSeg = record { start = start; end = x.end } in
        let parts = IsFrom-node 0 front x rest (rw t at v.ordered) in
        exchange start end a v real fits front rest x grown t ends
          (omega (arith, real, from, parts.2)) parts.3
          (omega (arith, end_of-node 0 front x rest, (rw t at v.in_device)))
          (λ n. ground (arith, from, real, parts.2)) (omega (arith, from, real, parts.2))

    touching :
        (x : RangeSeg) (rest : List RangeSeg) (p : Place)
        → IsPlace (record { start = start; end = end }) a.range_tree p
        → rest_of p ≡ x ∷ rest
        → x.start ≡ end
        → Grows start end a (add_touching start x rest p a)
    touching x rest (at_begin l) h is from =
        grow_down x rest [] (h.0 ∙ is) (unfold end_of in omega arith) from
    touching x rest (behind front b l) h is from =
        let t = h.0 ∙ ap (λ (m : List RangeSeg). front ++ (b ∷ m)) is in
        let ends = front_apart front (x ∷ rest) b t h.1 in
        let grown : RangeSeg = record { start = start; end = x.end } in
        if-cases (λ (o : Option AvlAllocator). Grows start end a o) (b.end == start)
          (λ same. join start end a v real fits front rest b x t (==→eq b.end start same) from)
          (λ other. rw (sym (append_assoc front (b ∷ []) (grown ∷ rest))) (
            grow_down x rest (front ++ b ∷ []) (t ∙ sym (append_assoc front (b ∷ []) (x ∷ rest)))
              (rw (end_of-node 0 front b []) (unfold end_of in ends)) from))

    add_at-Grows :
        (p : Place) (rest : List RangeSeg)
        → IsPlace (record { start = start; end = end }) a.range_tree p
        → rest_of p ≡ rest
        → Grows start end a (add_at start end rest p a)
    add_at-Grows p [] h is = between p h
    add_at-Grows p (x ∷ rest) h is =
        if-cases (λ (o : Option AvlAllocator). Grows start end a o) (x.start == end)
          (λ same. touching x rest p h is (==→eq x.start end same)) (λ other. between p h)

-- In a valid allocator, for a range that is not empty, ends in the device and has no free byte:
-- _add_to_tree fails no assertion and leaves a valid allocator, where just the bytes of the range are
-- free besides those that were, and the number of free bytes has grown by its length.
pub add_to_tree-Grows :
    (start size : ℕ) (a : AvlAllocator)
    → IsValid a
    → 0 < size
    → start + size ≤ a.device_size
    → ((n : ℕ) → start ≤ n → n < start + size → covers a.range_tree n ≡ false)
    → Grows start (start + size) a (add_to_tree start size a)
unfolding add_to_tree
add_to_tree-Grows start size a v some_bytes fits apart =
    let end = add64-eq start size (omega (arith, fits, v.small)) in
    let real : (size == 0) ≡ false = ground (arith, some_bytes) in
    let key : RangeSeg = record { start = start; end = start + size } in
    let p = upper_bound key a.range_tree in
    rw (end, real)
      (add_at-Grows start (start + size) a v (omega (arith, some_bytes)) fits apart p (rest_of p)
        (upper_bound-IsPlace 0 key a.range_tree v.ordered) refl)
