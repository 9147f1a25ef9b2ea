-- ===== src/Btier/ExtentMap/Placement/Opened.antt =====
-- btier/extent_map.cc, a new extent map with two AVL allocators, and init_free_space.
use mathlib.Core.Path.{subst}
use mathlib.Core.Option.{some-injective}
use cxxlab.Prelude.{
  ℕ, ◌^◌, ◌<◌, ◌≤◌, ◌≡◌, refl, ap, sym, ◌∙◌, arith, true, false, [], Option, none, some, leb, ltb,
  ◌==◌, add64, add64-eq, lookup, nat_eq,
}
use cxxlab.Blk.AvlAllocator.{AvlAllocator, new_allocator}
use cxxlab.Blk.AvlAllocator.Operations
use cxxlab.Blk.AvlAllocator.Trees.{covers}
use cxxlab.Blk.AvlAllocator.Add.{add_to_tree-Grows}
use cxxlab.Blk.AvlAllocator.Release.{new_allocator-IsValid}
use cxxlab.Btier.Types.{Tier, fast, slow}
use cxxlab.Btier.ExtentMap.{ExtentMap, at}
use cxxlab.Btier.ExtentMap.Space.{
  new_map, add_allocator, add_block_device, init_tier, init_free_space,
}
use cxxlab.Btier.ExtentMap.Placement.{bit, held, entry_locs, deferred_locs, free_bit, Disjoint}
use cxxlab.Btier.ExtentMap.Placement.Avl.{avl_ops, avl_space, IsOk, unless_failed}

-- A new allocator with its whole device added.
record Filled (size : ℕ) (a : AvlAllocator) : Type 0 where
  ok : IsOk size a
  covered : (n : ℕ) → covers a.range_tree n ≡ ltb n size

init_add_free-Filled :
    (size block : ℕ)
    → 0 < size
    → size < 2 ^ 63
    → 0 < block
    → block < 2 ^ 32
    → Filled size (
        unless_failed
          (new_allocator size block 0)
          (Operations.init_add_free 0 size (new_allocator size block 0)))
unfolding Operations.init_add_free
init_add_free-Filled size block real small unit cap =
    let a = new_allocator size block 0 in
    let g =
      add_to_tree-Grows 0 size a (new_allocator-IsValid size block small) real (omega arith)
        (λ n low high. unfold covers in refl) in
    let some_bytes : (size == 0) ≡ false = ground (arith, real) in
    let fits : leb (add64 0 size) size ≡ true =
      ground (arith, add64-eq 0 size (omega (arith, small))) in
    rw (some_bytes, fits, g.is)
      (record {
        ok = (g.valid, g.device, omega (arith, g.block, unit), omega (arith, g.block, cap));
        covered = λ n. unfold covers in ground (arith, g.covered n);
      })

free_bit-le :
    (past_end : ℕ) (o : Option AvlAllocator) (n : ℕ)
    → free_bit (avl_ops past_end) (avl_space past_end) o n ≤ 1
free_bit-le past_end none n = omega arith
free_bit-le past_end (some a) n = ground arith

abbrev pub sizes_of : (fast_size slow_size : ℕ) → Tier → ℕ
sizes_of fast_size slow_size fast = fast_size
sizes_of fast_size slow_size slow = slow_size

-- An extent map with new allocators and their devices, as it is before init_free_space.
abbrev pub assembled : (fast_size slow_size block : ℕ) → ExtentMap AvlAllocator
assembled fast_size slow_size block = add_block_device slow (
    add_block_device fast (
      add_allocator slow (new_allocator slow_size block 0)
        (add_allocator fast (new_allocator fast_size block 0) (new_map block))))

module _ (past_end fast_size slow_size block : ℕ) where
  -- The free bytes of the tiers behind init_free_space.
  set_up : ExtentMap AvlAllocator
  set_up = init_free_space (avl_ops past_end) (assembled fast_size slow_size block)

  module _ (on_fast : 0 < fast_size) (fast_small : fast_size < 2 ^ 63) (on_slow : 0 < slow_size)
      (slow_small : slow_size < 2 ^ 63) (unit : 0 < block) (cap : block < 2 ^ 32) where
    filled :
        (t : Tier)
        → (a : AvlAllocator) × (at set_up.allocators t ≡ some a)
          × Filled (sizes_of fast_size slow_size t) a
    unfolding set_up init_free_space init_tier add_allocator add_block_device
    filled fast = (_, refl, init_add_free-Filled fast_size block on_fast fast_small unit cap)
    filled slow = (_, refl, init_add_free-Filled slow_size block on_slow slow_small unit cap)

    set_up-Disjoint :
        Disjoint (sizes_of fast_size slow_size) (avl_ops past_end) (avl_space past_end) set_up []
    unfolding set_up init_free_space init_tier add_allocator add_block_device held entry_locs
        deferred_locs lookup
    set_up-Disjoint = record {
      apart = λ t n. omega (arith, free_bit-le past_end (at set_up.allocators t) n);
      entries_fit = tt;
      deferred_fit = tt;
      loose_fit = tt;
      in_order = λ t a e.
          let (b, h, f) = filled t in
          subst (IsOk (sizes_of fast_size slow_size t)) (some-injective b a (sym h ∙ e)) f.ok;
      fresh = λ id e h. absurd (ground (arith, h));
    }

    -- For devices of positive sizes below 2^63 and a block size that is positive and fits 32 bits:
    -- init_free_space, on a new extent map with a new AVL allocator for each tier, leaves every byte of
    -- each device free, no byte at its end or behind it, and `Disjoint` holds with no location outside the map.
    pub init_free_space-Disjoint :
        Disjoint
          (sizes_of fast_size slow_size)
          (avl_ops past_end)
          (avl_space past_end)
          (init_free_space (avl_ops past_end) (assembled fast_size slow_size block))
          []
        × ((t : Tier) (n : ℕ)
            → free_bit
                (avl_ops past_end)
                (avl_space past_end)
                (at
                  (init_free_space
                    (avl_ops past_end)
                    (assembled fast_size slow_size block)).allocators
                  t)
                n
              ≡ bit (ltb n (sizes_of fast_size slow_size t)))
    unfolding set_up
    init_free_space-Disjoint = (
      set_up-Disjoint,
      (λ t n.
          let (a, e, f) = filled t in
          ap (λ (o : Option AvlAllocator). free_bit (avl_ops past_end) (avl_space past_end) o n) e
          ∙ ap bit (f.covered n)),
    )
