-- ===== src/Btier/MigrationEngine/Placement/Tasks.antt =====
-- btier/migration_engine.cc over the extent map and its allocators: where the bytes of a compaction go, and
-- those of the whole queue.
use cxxlab.Prelude.{
  ℕ, ◌+◌, ◌<◌, arith, Bool, true, false, List, [], ◌∷◌, Option, none, some, if-cases, u64_mod, Eq,
  ◌==◌,
}
use cxxlab.Btier.Types.{Tier, DiskLocation, KeyLocation}
use cxxlab.Btier.ExtentMap.{ExtentMap}
use cxxlab.Btier.ExtentMap.Slots.{append_slot, uint32_max}
use cxxlab.Btier.ExtentMap.Migration.{MigrationHandle, begin_migration, check_migration}
use cxxlab.Btier.ExtentMap.Space.{AllocatorOps, aligned}
use cxxlab.Btier.ExtentMap.Placement.{FreeSpace, Disjoint}
use cxxlab.Btier.ExtentMap.Placement.Allocated.{allocate_extent-Disjoint}
use cxxlab.Btier.ExtentMap.Placement.Moved.{
  free-Disjoint, begin_migration-Disjoint, abort_migration-Disjoint,
}
use cxxlab.Btier.ExtentMap.Placement.Kept.{append_slot-Disjoint}
use cxxlab.Btier.KeyMap.{KeyMap, keys_in_extent, lookup_loc}
use cxxlab.Btier.ExtentMap.Placement.Steps.{Reach, Reach-Disjoint}
use cxxlab.Btier.MigrationEngine.Placement.{
  Fine, Claims, abort-Disjoint, begin_migration-Claims, asked, migrate_tier-Disjoint,
}
use cxxlab.Btier.MigrationEngine.{
  run_tasks, process_queue, DeviceOps, Engine, MigrationResult, MigrationTask, tier_migrate,
  compaction, Copying, CopyEnd, copied, io_error, no_slot, copy_appended, copy_key, copy_keys,
  copy_more, found_loc, undo, commit_copy, compact_copied, compact_into, compact_keys,
  compact_claimed, compact, run_task, copy_written, copy_read,
}

-- The extent that a task is about.
abbrev pub task_extent : MigrationTask → ℕ
task_extent (tier_migrate id from to) = id
task_extent (compaction id) = id

module _ {A K D B : Type 0} ⦃eq : Eq K⦄ (sizes : Tier → ℕ) (ops : AllocatorOps A)
    (space : FreeSpace ops) (loose : List DiskLocation) (dev : DeviceOps D B)
    (others : ExtentMap A → ExtentMap A)
    (calls : (s : ExtentMap A) (l : List DiskLocation)
      → Reach sizes ops space s l (others s) l) where
  -- The extent map of a copy is in order.
  Keeps : CopyEnd × Copying A K D → Type 0
  Keeps r = Disjoint sizes ops space r.1.extent_map loose

  module _ (tier : Tier) (src dst : DiskLocation) (new_id : ℕ) where
    copy_written-Keeps :
        (new_offset : ℕ) (k : K) (l : KeyLocation) (w : Bool × D) (c : Copying A K D)
        → Disjoint sizes ops space c.extent_map loose
        → Keeps (copy_written dev tier src dst new_id new_offset k l w c)
    unfolding Keeps
    copy_written-Keeps new_offset k l (true, d) c p = p
    copy_written-Keeps new_offset k l (false, d) c p = p

    copy_appended-Keeps :
        (k : K) (l : KeyLocation) (value : B) (r : ℕ × ExtentMap A) (c : Copying A K D)
        → Disjoint sizes ops space r.1 loose
        → Keeps (copy_appended dev tier src dst new_id k l value r c)
    copy_appended-Keeps k l value (n, s) c p =
        if-cases Keeps (n == uint32_max) (λ full. unfold Keeps in p)
          (λ room. copy_written-Keeps n k l _ (record c { extent_map = s }) p)

    copy_read-Keeps :
        (k : K) (l : KeyLocation) (v : Option B) (c : Copying A K D)
        → Disjoint sizes ops space c.extent_map loose
        → Keeps (copy_read dev tier src dst new_id k l v c)
    copy_read-Keeps k l none c p = unfold Keeps in p
    copy_read-Keeps k l (some value) c p =
        copy_appended-Keeps k l value (append_slot new_id l.length c.extent_map) c
          (append_slot-Disjoint sizes ops space loose c.extent_map p new_id l.length)

    copy_more-Keeps :
        (r : CopyEnd × Copying A K D) (rest : Copying A K D → CopyEnd × Copying A K D)
        → Keeps r
        → ((c : Copying A K D) → Disjoint sizes ops space c.extent_map loose → Keeps (rest c))
        → (keys : KeyMap K) → Keeps (copy_more dev tier src dst new_id keys r rest)
    unfolding Keeps
    copy_more-Keeps (copied, c) rest p more keys = more c p
    copy_more-Keeps (io_error, c) rest p more keys = p
    copy_more-Keeps (no_slot, c) rest p more keys = p

    copy_keys-Keeps :
        (keys : KeyMap K) (ks : List K) (c : Copying A K D)
        → Disjoint sizes ops space c.extent_map loose
        → Keeps (copy_keys dev tier src dst new_id keys ks c)
    unfolding copy_keys copy_key
    copy_keys-Keeps keys [] c p = unfold Keeps in p
    copy_keys-Keeps keys (k ∷ ks) c p =
        copy_more-Keeps _ (copy_keys dev tier src dst new_id keys ks)
          (copy_read-Keeps k (found_loc (lookup_loc k keys)) _ c p) (copy_keys-Keeps keys ks) keys

  undo-Disjoint :
      (h : MigrationHandle) (new_id : ℕ) (g : Engine A K D)
      → Disjoint sizes ops space g.extent_map loose
      → Disjoint sizes ops space (undo ops dev others h new_id g).extent_map loose
  unfolding undo
  undo-Disjoint h new_id g p =
      free-Disjoint sizes ops space _ new_id loose
        (abort_migration-Disjoint sizes ops space g.extent_map (some h) loose p)

  -- The extent map of a task's result is in order.
  Ends : MigrationResult × Engine A K D → Type 0
  Ends r = Disjoint sizes ops space r.1.extent_map loose

  commit_copy-Ends :
      (h : MigrationHandle) (new_id : ℕ) (updates : List (K × KeyLocation)) (g : Engine A K D)
      → Disjoint sizes ops space g.extent_map loose
      → Ends (commit_copy ops dev others h new_id updates g)
  unfolding commit_copy
  commit_copy-Ends h new_id updates g p =
      if-cases Ends (check_migration h g.extent_map)
        (λ same. unfold Ends in (free-Disjoint sizes ops space g.extent_map h.extent_id loose p))
        (λ other. unfold Ends in (undo-Disjoint h new_id g p))

  compact_copied-Ends :
      (h : MigrationHandle) (new_id : ℕ) (r : CopyEnd × Copying A K D) (g : Engine A K D)
      → Disjoint sizes ops space r.1.extent_map loose
      → Ends (compact_copied ops dev others h new_id r g)
  unfolding Ends
  compact_copied-Ends h new_id (copied, c) g p =
      commit_copy-Ends h new_id c.updates _
        (Reach-Disjoint sizes ops space p (calls c.extent_map loose))
  compact_copied-Ends h new_id (io_error, c) g p = undo-Disjoint h new_id _ p
  compact_copied-Ends h new_id (no_slot, c) g p = undo-Disjoint h new_id _ p

  compact_into-Ends :
      (h : MigrationHandle) (ks : List K) (o : Option (ℕ × DiskLocation) × ExtentMap A)
      (g : Engine A K D)
      → Disjoint sizes ops space o.1 loose
      → Ends (compact_into ops dev others h ks o g)
  unfolding Ends Keeps
  compact_into-Ends h ks (none, s) g p =
      abort-Disjoint sizes ops space loose h (record g { extent_map = s }) p
  compact_into-Ends h ks (some (new_id, new_loc), s) g p = compact_copied-Ends h new_id _ g (
      copy_keys-Keeps h.src_loc.tier h.src_loc new_loc new_id g.key_map ks
        (record { updates = []; extent_map = s; devices = g.devices }) p)

  compact_keys-Ends :
      (h : MigrationHandle) (ks : List K) (g : Engine A K D)
      → space.Asks (aligned g.extent_map.block_size h.src_loc.length) g.extent_map.block_size
      → g.extent_map.next_extent_id + 1 < u64_mod
      → Disjoint sizes ops space g.extent_map loose
      → Ends (compact_keys ops dev others h ks g)
  unfolding Ends
  compact_keys-Ends h [] g asks small p =
      free-Disjoint sizes ops space g.extent_map h.extent_id loose p
  compact_keys-Ends h (k ∷ ks) g asks small p = compact_into-Ends h (k ∷ ks) _ g (
      allocate_extent-Disjoint sizes ops space h.src_loc.length g.extent_map loose h.src_loc.tier p
        asks small)

  compact_claimed-Ends :
      (id : ℕ) (s : ExtentMap A) (r : Option MigrationHandle × ExtentMap A) (g : Engine A K D)
      → Claims sizes ops space loose id s r
      → Fine ops space s id
      → s.next_extent_id + 1 < u64_mod
      → Disjoint sizes ops space r.1 loose
      → Ends (compact_claimed ops dev others r g)
  unfolding Ends Claims
  compact_claimed-Ends id s (none, s') g c fine small p = p
  compact_claimed-Ends id s (some h, s') g c fine small p =
      compact_keys-Ends h (keys_in_extent h.extent_id g.key_map) (record g { extent_map = s' })
        (asked sizes ops space loose id s s' h c fine) (omega (arith, small, c.1)) p

  compact-Ends :
      (id : ℕ) (g : Engine A K D)
      → Fine ops space g.extent_map id
      → g.extent_map.next_extent_id + 1 < u64_mod
      → Disjoint sizes ops space g.extent_map loose
      → Ends (compact ops dev others id g)
  unfolding compact
  compact-Ends id g fine small p =
      compact_claimed-Ends id g.extent_map (begin_migration id g.extent_map) g
        (begin_migration-Claims sizes ops space loose id g.extent_map) fine small
        (begin_migration-Disjoint sizes ops space g.extent_map id loose p)

  run_task-Disjoint :
      (t : MigrationTask) (g : Engine A K D)
      → Fine ops space g.extent_map (task_extent t)
      → g.extent_map.next_extent_id + 1 < u64_mod
      → Disjoint sizes ops space g.extent_map loose
      → Disjoint sizes ops space (run_task ops dev others t g).extent_map loose
  unfolding Ends
  run_task-Disjoint (tier_migrate id from to) g fine small p =
      migrate_tier-Disjoint sizes ops space loose dev others
        (λ s l q. Reach-Disjoint sizes ops space q (calls s l)) id from to g fine p
  run_task-Disjoint (compaction id) g fine small p = compact-Ends id g fine small p

  -- When the turn of a task comes, its extent has a length that the allocators take, and there is a
  -- number for a new extent.
  unfoldable pub Ready : List MigrationTask → Engine A K D → Type 0
  Ready [] g = Unit
  Ready (t ∷ ts) g =
      Fine ops space g.extent_map (task_extent t)
      × (g.extent_map.next_extent_id + 1 < u64_mod)
      × Ready ts (run_task ops dev others t g)

  run_tasks-Disjoint :
      (ts : List MigrationTask) (g : Engine A K D)
      → Ready ts g
      → Disjoint sizes ops space g.extent_map loose
      → Disjoint sizes ops space (run_tasks ops dev others ts g).extent_map loose
  unfolding run_tasks Ready
  run_tasks-Disjoint [] g ready p = p
  run_tasks-Disjoint (t ∷ ts) g ready p =
      run_tasks-Disjoint ts (run_task ops dev others t g) ready.2
        (run_task-Disjoint t g ready.0 ready.1 p)

  -- Where other threads make calls of the extent map that leave what others hold, and each task finds, as
  -- its turn comes, an extent of a length that the allocators take and a number for a new one:
  -- process_queue keeps `Disjoint`, with the same locations held by others.
  pub process_queue-Disjoint :
      (g : Engine A K D)
      → Ready g.queue (record g { queue = [] })
      → Disjoint sizes ops space g.extent_map loose
      → Disjoint sizes ops space (process_queue ops dev others g).extent_map loose
  unfolding process_queue
  process_queue-Disjoint g ready p = run_tasks-Disjoint g.queue (record g { queue = [] }) ready p
