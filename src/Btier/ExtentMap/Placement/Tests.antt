-- ===== src/Btier/ExtentMap/Placement/Tests.antt =====
-- The extent map of btier/extent_map.cc with an AVL allocator for each tier.
use cxxlab.Prelude.{
  ◌^◌, ltb, ℕ, ◌+◌, ◌<◌, ◌≤◌, ◌≡◌, refl, arith, true, [], ◌∷◌, Option, some, if◌then◌else◌, lookup,
  nat_eq, add64, sub64,
}
use mathlib.Core.Option.{some-injective}
use mathlib.Core.Path.{subst}
use cxxlab.Blk.AvlAllocator.{AvlAllocator, new_allocator}
use cxxlab.Blk.AvlAllocator.Trees.{covers, total, IsFrom, end_of}
use cxxlab.Blk.AvlAllocator.Lengths.{IsByLength}
use cxxlab.Btier.Types.{Tier, fast, slow, DiskLocation}
use cxxlab.Btier.ExtentMap.{ExtentEntry, ExtentMap, at, find, new_entry}
use cxxlab.Btier.ExtentMap.Migration.{MigrationHandle, commit_migration}
use cxxlab.Btier.ExtentMap.Space.{
  aligned, round_up_to, allocate_extent, process_deferred_free, free, init_free_space,
}
use cxxlab.Btier.ExtentMap.Placement.{bit, held, entry_locs, deferred_locs, free_bit, Disjoint}
use cxxlab.Btier.ExtentMap.Placement.Avl.{avl_ops, avl_space, IsOk, Asks}
use cxxlab.Btier.ExtentMap.Placement.Sized.{avl-GivesExtent, allocate_extent-avl_ops-Outcome}
use cxxlab.Btier.ExtentMap.Valid.Allocations.{GivesExtent, Outcome}
use cxxlab.Btier.ExtentMap.Placement.Rounds.{HasBoth}
use cxxlab.Btier.ExtentMap.Placement.Reclaim.{process_deferred_free-IsFree}
use cxxlab.Btier.ExtentMap.Placement.Opened.{assembled, sizes_of, init_free_space-Disjoint}
use cxxlab.Btier.ExtentMap.Placement.Steps.{Reach-Disjoint, here, next, allocate, commit, process}

abbrev pub disk : AvlAllocator
disk = record (new_allocator 262144 65536 0) {
  range_tree = record { start = 65536; end = 262144 } ∷ [];
  range_size_tree = record { start = 65536; end = 262144 } ∷ [];
  num_free = 196608;
}

disk-IsOk : IsOk 262144 disk
unfolding IsFrom end_of total IsByLength
disk-IsOk = (
  record {
    ordered = (omega arith, omega arith, tt);
    in_device = omega arith;
    small = omega arith;
    indexed = record { nodes = λ r. refl; free = refl; uncapped = refl; sorted = (tt, tt) };
  },
  refl,
  omega arith,
  omega arith,
)

abbrev pub source : DiskLocation
source = record { offset = 0; length = 65536; tier = fast }

abbrev pub target : DiskLocation
target = record { offset = 0; length = 65536; tier = slow }

-- An extent on the fast tier, and a place for it on the slow one.
abbrev pub two_tiers : ExtentMap AvlAllocator
two_tiers = record {
  block_size = 65536;
  entries = (0, new_entry source) ∷ [];
  next_extent_id = 1;
  allocators = record { on_fast = some disk; on_slow = some disk };
  free_lists = record { on_fast = []; on_slow = [] };
  deferred_free = [];
  seqno = 0;
  dirty_headers = [];
  devices = record { on_fast = true; on_slow = true };
  written = [];
}

abbrev pub sizes : Tier → ℕ
sizes t = 262144

apart_bytes :
    (t : Tier) (n : ℕ)
    → held t n (entry_locs two_tiers.entries)
        + (held t n (deferred_locs two_tiers.deferred_free)
            + (held t n (target ∷ [])
                + free_bit (avl_ops 0) (avl_space 0) (at two_tiers.allocators t) n))
      ≤ 1
unfolding held entry_locs deferred_locs covers
apart_bytes fast n = ground arith
apart_bytes slow n = ground arith

allocators-IsOk : (t : Tier) (a : AvlAllocator) → at two_tiers.allocators t ≡ some a → IsOk 262144 a
allocators-IsOk fast a e = subst (IsOk 262144) (some-injective disk a e) disk-IsOk
allocators-IsOk slow a e = subst (IsOk 262144) (some-injective disk a e) disk-IsOk

only_one : (id : ℕ) (e : ExtentEntry) → find two_tiers id ≡ some e → id < 1
unfolding lookup
only_one id e h = ground (arith, h)

pub two_tiers-Disjoint : Disjoint sizes (avl_ops 0) (avl_space 0) two_tiers (target ∷ [])
two_tiers-Disjoint = record {
  apart = apart_bytes;
  entries_fit = unfold entry_locs in ((omega arith, omega arith), tt);
  deferred_fit = unfold deferred_locs in tt;
  loose_fit = ((omega arith, omega arith), tt);
  in_order = allocators-IsOk;
  fresh = only_one;
}

abbrev handle : Option MigrationHandle
handle = some (record { extent_id = 0; src_loc = source; gen_before = 0 })

abbrev grown : ExtentMap AvlAllocator
grown = (allocate_extent (avl_ops 0) fast 60000 two_tiers).1

asks : Asks (aligned 65536 60000) 65536
unfolding aligned round_up_to add64 sub64
asks = (omega arith, omega arith, refl, refl, omega arith)

-- An extent is allocated, the first one goes to the slow tier, and its old place is a deferred free.
Reach-Disjoint_example :
    Disjoint sizes
      (avl_ops 0)
      (avl_space 0)
      (process_deferred_free (avl_ops 0) (commit_migration handle target grown).1)
      (if (commit_migration handle target grown).0 then [] else target ∷ [])
Reach-Disjoint_example = Reach-Disjoint sizes (avl_ops 0) (avl_space 0) two_tiers-Disjoint (
    next (next (next here (allocate fast 60000 asks (omega arith))) (commit handle target [] []))
      process)

both_tiers : HasBoth two_tiers
both_tiers fast = (disk, refl)
both_tiers slow = (disk, refl)

first_entry : find two_tiers 0 ≡ some (new_entry source)
unfolding lookup
first_entry = refl

process_deferred_free-IsFree_example :
    free_bit
      (avl_ops 0)
      (avl_space 0)
      (process_deferred_free (avl_ops 0) (
        process_deferred_free
          (avl_ops 0)
          (process_deferred_free (avl_ops 0) (free 0 two_tiers)))).allocators.on_fast
      100
    ≡ 1
process_deferred_free-IsFree_example =
    process_deferred_free-IsFree (avl_ops 0) (avl_space 0) sizes two_tiers (target ∷ []) 0
      (new_entry source) both_tiers two_tiers-Disjoint tt (omega arith) first_entry 100 refl

init_free_space-Disjoint_example :
    let s = init_free_space (avl_ops 0) (assembled 1048576 8388608 65536) in
    Disjoint (sizes_of 1048576 8388608) (avl_ops 0) (avl_space 0) s []
    × ((t : Tier) (n : ℕ)
        → free_bit (avl_ops 0) (avl_space 0) (at s.allocators t) n
          ≡ bit (ltb n (sizes_of 1048576 8388608 t)))
init_free_space-Disjoint_example =
    init_free_space-Disjoint 0 1048576 8388608 65536 (omega arith) (omega arith) (omega arith)
      (omega arith) (omega arith) (omega arith)

pub two_tiers-blocks :
    (t : Tier) (a : AvlAllocator)
    → at two_tiers.allocators t ≡ some a
    → IsOk 262144 a × (a.block_size ≤ 2 ^ 31)
two_tiers-blocks fast a e =
    subst (λ (x : AvlAllocator). IsOk 262144 x × (x.block_size ≤ 2 ^ 31)) (some-injective disk a e)
      (disk-IsOk, omega arith)
two_tiers-blocks slow a e =
    subst (λ (x : AvlAllocator). IsOk 262144 x × (x.block_size ≤ 2 ^ 31)) (some-injective disk a e)
      (disk-IsOk, omega arith)

pub two_tiers-GivesExtent : GivesExtent (avl_ops 0) 60000 two_tiers
two_tiers-GivesExtent = avl-GivesExtent 0 sizes 60000 two_tiers two_tiers-blocks asks (omega arith)

allocate_extent-avl_ops-Outcome_example :
    Outcome two_tiers (allocate_extent (avl_ops 0) fast 60000 two_tiers)
allocate_extent-avl_ops-Outcome_example =
    allocate_extent-avl_ops-Outcome 0 sizes fast 60000 two_tiers two_tiers-blocks asks (omega arith)
      (omega arith)
