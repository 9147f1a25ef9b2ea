-- ===== src/Btier/ExtentMap/Placement/Steps.antt =====
-- btier/extent_map.cc: the calls of the extent map, with the locations that their callers hold.
use cxxlab.Prelude.{ℕ, ◌+◌, ◌<◌, List, ◌∷◌, ◌++◌, Option, u64_mod, if◌then◌else◌}
use cxxlab.Btier.Types.{Tier, DiskLocation, IoOp}
use cxxlab.Btier.ExtentMap.{ExtentMap}
use cxxlab.Btier.ExtentMap.Slots.{
  record_io, set_randomness, append_slot, mark_dead_slot, restore_extent_state, io_ref_inc,
  io_ref_dec,
}
use cxxlab.Btier.ExtentMap.Migration.{
  MigrationHandle, begin_migration, commit_migration, abort_migration, release_source,
}
use cxxlab.Btier.ExtentMap.Space.{
  AllocatorOps, aligned, allocate_extent, allocate_raw, free, process_deferred_free,
  flush_dirty_headers, clear_deferred_free,
}
use cxxlab.Btier.ExtentMap.Placement.{FreeSpace, Disjoint}
use cxxlab.Btier.ExtentMap.Placement.Allocated.{
  given, allocate_extent-Disjoint, allocate_raw-Disjoint,
}
use cxxlab.Btier.ExtentMap.Placement.Freed.{process_deferred_free-Disjoint}
use cxxlab.Btier.ExtentMap.Placement.Moved.{
  free-Disjoint, release_source-Disjoint, commit_migration-Disjoint, begin_migration-Disjoint,
  abort_migration-Disjoint,
}
use cxxlab.Btier.ExtentMap.Placement.Kept.{
  record_io-Disjoint, set_randomness-Disjoint, append_slot-Disjoint, mark_dead_slot-Disjoint,
  restore_extent_state-Disjoint, io_ref_inc-Disjoint, io_ref_dec-Disjoint,
  flush_dirty_headers-Disjoint, clear_deferred_free-Disjoint,
}

module _ (sizes : Tier → ℕ) {A : Type 0} (ops : AllocatorOps A) (space : FreeSpace ops) where
  -- One call, with what its caller has to see to. The list has the locations of allocate_raw that the
  -- caller still has to use: a commit takes its target from it where it succeeds, and release_source
  -- gives one back.
  pub data Step : ExtentMap A → List DiskLocation → ExtentMap A → List DiskLocation → Type 0 where
    allocate :
        {s : ExtentMap A} {loose : List DiskLocation} (t : Tier) (size : ℕ)
        → space.Asks (aligned s.block_size size) s.block_size
        → s.next_extent_id + 1 < u64_mod
        → Step s loose (allocate_extent ops t size s).1 loose
    raw :
        {s : ExtentMap A} {loose : List DiskLocation} (t : Tier) (size : ℕ)
        → space.Asks (aligned s.block_size size) s.block_size
        → Step s loose (allocate_raw ops t size s).1 (given (allocate_raw ops t size s).0 ++ loose)
    remove : {s : ExtentMap A} {loose : List DiskLocation} (id : ℕ) → Step s loose (free id s) loose
    begin :
        {s : ExtentMap A} {loose : List DiskLocation} (id : ℕ)
        → Step s loose (begin_migration id s).1 loose
    commit :
        {s : ExtentMap A} (h : Option MigrationHandle) (l : DiskLocation)
        (front rest : List DiskLocation)
        → Step s
            (front ++ (l ∷ rest))
            (commit_migration h l s).1
            (if (commit_migration h l s).0 then front ++ rest else front ++ (l ∷ rest))
    abort :
        {s : ExtentMap A} {loose : List DiskLocation} (h : Option MigrationHandle)
        → Step s loose (abort_migration h s) loose
    give_up :
        {s : ExtentMap A} (l : DiskLocation) (front rest : List DiskLocation)
        → Step s (front ++ (l ∷ rest)) (release_source l s) (front ++ rest)
    process :
        {s : ExtentMap A} {loose : List DiskLocation}
        → Step s loose (process_deferred_free ops s) loose
    clear :
        {s : ExtentMap A} {loose : List DiskLocation} → Step s loose (clear_deferred_free s) loose
    flush :
        {s : ExtentMap A} {loose : List DiskLocation} → Step s loose (flush_dirty_headers s) loose
    io :
        {s : ExtentMap A} {loose : List DiskLocation} (id : ℕ) (op : IoOp) (now : ℕ)
        → Step s loose (record_io id op now s) loose
    random :
        {s : ExtentMap A} {loose : List DiskLocation} (id r : ℕ)
        → Step s loose (set_randomness id r s) loose
    append :
        {s : ExtentMap A} {loose : List DiskLocation} (id size : ℕ)
        → Step s loose (append_slot id size s).1 loose
    die :
        {s : ExtentMap A} {loose : List DiskLocation} (id n : ℕ)
        → Step s loose (mark_dead_slot id n s) loose
    restore :
        {s : ExtentMap A} {loose : List DiskLocation} (id used live : ℕ)
        → Step s loose (restore_extent_state id used live s) loose
    ref_inc :
        {s : ExtentMap A} {loose : List DiskLocation} (id : ℕ)
        → Step s loose (io_ref_inc id s) loose
    ref_dec :
        {s : ExtentMap A} {loose : List DiskLocation} (id : ℕ)
        → Step s loose (io_ref_dec id s) loose

  pub data Reach (s : ExtentMap A) (loose : List DiskLocation)
      : ExtentMap A → List DiskLocation → Type 0 where
    here : Reach s loose s loose
    next :
        {t u : ExtentMap A} {l m : List DiskLocation}
        → Reach s loose t l
        → Step t l u m
        → Reach s loose u m

  Step-Disjoint :
      {s t : ExtentMap A} {l m : List DiskLocation}
      → Step s l t m
      → Disjoint sizes ops space s l
      → Disjoint sizes ops space t m
  Step-Disjoint (allocate {s} {loose = l} t size asks small) p =
      allocate_extent-Disjoint sizes ops space size s l t p asks small
  Step-Disjoint (raw {s} {loose = l} t size asks) p =
      allocate_raw-Disjoint sizes ops space size s l t p asks
  Step-Disjoint (remove {s} {loose = l} id) p = free-Disjoint sizes ops space s id l p
  Step-Disjoint (begin {s} {loose = l} id) p = begin_migration-Disjoint sizes ops space s id l p
  Step-Disjoint (commit {s} h l front rest) p =
      commit_migration-Disjoint sizes ops space s h l front rest p
  Step-Disjoint (abort {s} {loose = l} h) p = abort_migration-Disjoint sizes ops space s h l p
  Step-Disjoint (give_up {s} l front rest) p =
      release_source-Disjoint sizes ops space s l front rest p
  Step-Disjoint (process {s} {loose = l}) p = process_deferred_free-Disjoint ops space sizes s l p
  Step-Disjoint (clear {s} {loose = l}) p = clear_deferred_free-Disjoint sizes ops space l s p
  Step-Disjoint (flush {s} {loose = l}) p = flush_dirty_headers-Disjoint sizes ops space l s p
  Step-Disjoint (io {s} {loose = l} id op now) p =
      record_io-Disjoint sizes ops space l s p id op now
  Step-Disjoint (random {s} {loose = l} id r) p = set_randomness-Disjoint sizes ops space l s p id r
  Step-Disjoint (append {s} {loose = l} id size) p =
      append_slot-Disjoint sizes ops space l s p id size
  Step-Disjoint (die {s} {loose = l} id n) p = mark_dead_slot-Disjoint sizes ops space l s p id n
  Step-Disjoint (restore {s} {loose = l} id used live) p =
      restore_extent_state-Disjoint sizes ops space l s p id used live
  Step-Disjoint (ref_inc {s} {loose = l} id) p = io_ref_inc-Disjoint sizes ops space l s p id
  Step-Disjoint (ref_dec {s} {loose = l} id) p = io_ref_dec-Disjoint sizes ops space l s p id

  -- For allocators with the laws of `FreeSpace`: where no byte of a device is in two of the locations of
  -- the extents, of the deferred frees and of the loose list, or in one of them and free with its
  -- allocator, these locations are not empty and end on their device, the allocators are in order and every
  -- number in use is below the next one, all this holds behind any sequence of calls of allocate_extent,
  -- allocate_raw, free, begin_migration, commit_migration, abort_migration, release_source,
  -- process_deferred_free, clear_deferred_free, flush_dirty_headers, record_io, set_randomness,
  -- append_slot, mark_dead_slot, restore_extent_state, io_ref_inc and io_ref_dec, where each
  -- allocation asks for what the allocators take, the numbers of extents do not wrap, and a commit or a
  -- release_source is given a location of the loose list. The set-up of the map and the replay of the
  -- journal are no such calls.
  pub Reach-Disjoint :
      {s : ExtentMap A} {l : List DiskLocation} {t : ExtentMap A} {m : List DiskLocation}
      → Disjoint sizes ops space s l
      → Reach s l t m
      → Disjoint sizes ops space t m
  Reach-Disjoint p here = p
  Reach-Disjoint p (next r st) = Step-Disjoint st (Reach-Disjoint p r)
