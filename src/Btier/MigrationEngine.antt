-- ===== src/Btier/MigrationEngine.antt =====
-- btier/migration_engine.cc: the moves of an extent between tiers and within one, over the extent map
-- and the key map. The block devices are the abstract class of blk/block_device.h, so their operations
-- are a parameter; so is what other threads do to the extent map while a move has no lock, which is
-- let happen once, between the copy and the commit. The observer only logs, and is left out.
pub mod Migrate
pub mod Copy
pub mod Compact
pub mod Placement
pub mod Tests
use cxxlab.Prelude.{
  ℕ, ◌+◌, Bool, true, false, List, [], ◌∷◌, ◌++◌, Option, none, some, add64, length, ◌==◌,
  if◌then◌else◌, Eq,
}
use cxxlab.Btier.Types.{Tier, fast, slow, DiskLocation, KeyLocation, header_size}
use cxxlab.Btier.ExtentMap.{ExtentMap}
use cxxlab.Btier.ExtentMap.Slots.{append_slot, uint32_max}
use cxxlab.Btier.ExtentMap.Migration.{
  MigrationHandle, begin_migration, commit_migration, abort_migration, check_migration,
  release_source,
}
use cxxlab.Btier.ExtentMap.Space.{AllocatorOps, allocate_raw, allocate_extent, free}
use cxxlab.Btier.KeyMap.{KeyMap, keys_in_extent, lookup_loc, batch_update}

-- read gives none and write false where the code sees a negative result; D has both devices.
pub record DeviceOps (D B : Type 0) : Type 0 where
  pub read : (device : Tier) (offset length : ℕ) → D → Option B
  pub write : (device : Tier) (offset : ℕ) → B → D → Bool × D

pub data MigrationResult : Type 0 where
  committed interrupted failed : MigrationResult

pub data MigrationTask : Type 0 where
  tier_migrate : (extent_id : ℕ) (from to : Tier) → MigrationTask
  compaction : (extent_id : ℕ) → MigrationTask

pub record Stats : Type 0 where
  pub promotions_committed : ℕ
  pub demotions_committed : ℕ
  pub compactions_committed : ℕ
  pub interruptions : ℕ
  pub io_errors : ℕ

pub record Engine (A K D : Type 0) : Type 0 where
  pub extent_map : ExtentMap A
  pub key_map : KeyMap K
  pub devices : D
  pub queue : List MigrationTask
  pub stats : Stats

-- The counter of a move between tiers; none counts a move within one.
abbrev pub count_moved : Tier → Tier → Stats → Stats
count_moved slow fast c = record c { promotions_committed = add64 c.promotions_committed 1 }
count_moved fast slow c = record c { demotions_committed = add64 c.demotions_committed 1 }
count_moved fast fast c = c
count_moved slow slow c = c

module _ {A K D : Type 0} where
  abbrev pub count_interruption : Engine A K D → Engine A K D
  count_interruption g = record g {
    stats = record g.stats { interruptions = add64 g.stats.interruptions 1 };
  }

  abbrev pub count_io_error : Engine A K D → Engine A K D
  count_io_error g = record g { stats = record g.stats { io_errors = add64 g.stats.io_errors 1 } }

  abbrev pub count_compaction : Engine A K D → Engine A K D
  count_compaction g = record g {
    stats = record g.stats { compactions_committed = add64 g.stats.compactions_committed 1 };
  }

  unfoldable pub abort : MigrationHandle → Engine A K D → Engine A K D
  abort h g = record g { extent_map = abort_migration (some h) g.extent_map }

  -- Step 2 of migrate_tier: commit, or give the new place back.
  abbrev pub settle :
      MigrationHandle
      → DiskLocation
      → Tier
      → Tier
      → Bool × ExtentMap A
      → Engine A K D
      → MigrationResult × Engine A K D
  settle h dst from to (true, s) g =
      (committed, record g { extent_map = s; stats = count_moved from to g.stats })
  settle h dst from to (false, s) g =
      let s' = release_source dst (abort_migration (some h) s) in
      (interrupted, count_interruption (record g { extent_map = s' }))

  unfoldable pub enqueue : MigrationTask → Engine A K D → Engine A K D
  enqueue t g = record g { queue = g.queue ++ t ∷ [] }

  unfoldable pub enqueue_migrate : ℕ → Tier → Tier → Engine A K D → Engine A K D
  enqueue_migrate id from to g = enqueue (tier_migrate id from to) g

  unfoldable pub enqueue_compact : ℕ → Engine A K D → Engine A K D
  enqueue_compact id g = enqueue (compaction id) g

  unfoldable pub pending : Engine A K D → ℕ
  pending g = length g.queue

module _ {A K D B : Type 0} (ops : AllocatorOps A) (dev : DeviceOps D B)
    (others : ExtentMap A → ExtentMap A) where
  -- After the write to the destination.
  abbrev pub written :
      MigrationHandle
      → DiskLocation
      → Tier
      → Tier
      → Bool × D
      → Engine A K D
      → MigrationResult × Engine A K D
  written h dst from to (true, d) g =
      settle h dst from to (commit_migration (some h) dst (others g.extent_map))
        (record g { devices = d })
  written h dst from to (false, d) g =
      let s = release_source dst (abort_migration (some h) g.extent_map) in
      (failed, count_io_error (record g { extent_map = s; devices = d }))

  -- After allocate_raw.
  abbrev pub placed :
      MigrationHandle
      → B
      → Tier
      → Tier
      → Option DiskLocation × ExtentMap A
      → Engine A K D
      → MigrationResult × Engine A K D
  placed h content from to (none, s) g = (failed, abort h (record g { extent_map = s }))
  placed h content from to (some dst, s) g =
      written h dst from to (dev.write to dst.offset content g.devices)
        (record g { extent_map = s })

  -- After the read of the whole extent.
  abbrev pub fetched :
      MigrationHandle → Tier → Tier → Option B → Engine A K D → MigrationResult × Engine A K D
  fetched h from to none g = (failed, count_io_error (abort h g))
  fetched h from to (some content) g =
      placed h content from to (allocate_raw ops to h.src_loc.length g.extent_map) g

  abbrev pub claimed :
      Tier
      → Tier
      → Option MigrationHandle × ExtentMap A
      → Engine A K D
      → MigrationResult × Engine A K D
  claimed from to (none, s) g = (interrupted, record g { extent_map = s })
  claimed from to (some h, s) g =
      fetched h from to (dev.read from h.src_loc.offset h.src_loc.length g.devices)
        (record g { extent_map = s })

  unfoldable pub migrate_tier : ℕ → Tier → Tier → Engine A K D → MigrationResult × Engine A K D
  migrate_tier id from to g = claimed from to (begin_migration id g.extent_map) g

-- The state of the copy loop of compact: the updates so far, and the part of the engine it changes.
pub record Copying (A K D : Type 0) : Type 0 where
  pub updates : List (K × KeyLocation)
  pub extent_map : ExtentMap A
  pub devices : D

-- How the copy loop ends.
pub data CopyEnd : Type 0 where
  copied io_error no_slot : CopyEnd

-- KeyLocation old_kloc, which a lookup that finds nothing leaves alone.
abbrev pub found_loc : Option KeyLocation → KeyLocation
found_loc none = record { extent_id = 0; offset = 0; length = 0 }
found_loc (some l) = l

module _ {A K D B : Type 0} (dev : DeviceOps D B) (tier : Tier) (src dst : DiskLocation)
    (new_id : ℕ) where
  -- A round of the loop, from the append to the new extent on.
  abbrev pub copy_written : ℕ → K → KeyLocation → Bool × D → Copying A K D → CopyEnd × Copying A K D
  copy_written new_offset k l (false, d) c = (io_error, record c { devices = d })
  copy_written new_offset k l (true, d) c = (
    copied,
    record c {
      devices = d;
      updates =
          c.updates
          ++ (k, record { extent_id = new_id; offset = new_offset; length = l.length }) ∷ [];
    },
  )

  abbrev pub copy_appended :
      K → KeyLocation → B → ℕ × ExtentMap A → Copying A K D → CopyEnd × Copying A K D
  copy_appended k l value (new_offset, s) c =
      let c' = record c { extent_map = s } in
      let write_off = add64 (add64 dst.offset header_size) new_offset in
      let next = copy_written new_offset k l (dev.write tier write_off value c.devices) c' in
      if new_offset == uint32_max then (no_slot, c') else next

  abbrev pub copy_read : K → KeyLocation → Option B → Copying A K D → CopyEnd × Copying A K D
  copy_read k l none c = (io_error, c)
  copy_read k l (some value) c =
      copy_appended k l value (append_slot new_id l.length c.extent_map) c

  unfoldable pub copy_key : K → KeyLocation → Copying A K D → CopyEnd × Copying A K D
  copy_key k l c =
      let read_off = add64 (add64 src.offset header_size) l.offset in
      copy_read k l (dev.read tier read_off l.length c.devices) c

module _ {A K D B : Type 0} ⦃e : Eq K⦄ (dev : DeviceOps D B) (tier : Tier) (src dst : DiskLocation)
    (new_id : ℕ) (keys : KeyMap K) where
  abbrev pub copy_more :
      CopyEnd × Copying A K D → (Copying A K D → CopyEnd × Copying A K D) → CopyEnd × Copying A K D
  copy_more (copied, c) rest = rest c
  copy_more (io_error, c) rest = (io_error, c)
  copy_more (no_slot, c) rest = (no_slot, c)

  -- The loop over the keys; a round that fails ends it.
  unfoldable pub copy_keys : List K → Copying A K D → CopyEnd × Copying A K D
  copy_keys [] c = (copied, c)
  copy_keys (k ∷ ks) c =
      copy_more (copy_key dev tier src dst new_id k (found_loc (lookup_loc k keys)) c)
        (copy_keys ks)

module _ {A K D B : Type 0} ⦃e : Eq K⦄ (ops : AllocatorOps A) (dev : DeviceOps D B)
    (others : ExtentMap A → ExtentMap A) where
  -- The new extent goes back, and the old one is active again.
  unfoldable pub undo : MigrationHandle → ℕ → Engine A K D → Engine A K D
  undo h new_id g = record g { extent_map = free new_id (abort_migration (some h) g.extent_map) }

  -- From check_migration on.
  unfoldable pub commit_copy :
      MigrationHandle → ℕ → List (K × KeyLocation) → Engine A K D → MigrationResult × Engine A K D
  commit_copy h new_id updates g =
      let g' = record g {
        key_map = batch_update updates g.key_map;
        extent_map = free h.extent_id g.extent_map;
      } in
      if check_migration h g.extent_map
      then (committed, count_compaction g')
      else (interrupted, count_interruption (undo h new_id g))

  abbrev pub compact_copied :
      MigrationHandle → ℕ → CopyEnd × Copying A K D → Engine A K D → MigrationResult × Engine A K D
  compact_copied h new_id (copied, c) g =
      commit_copy h new_id c.updates
        (record g { extent_map = others c.extent_map; devices = c.devices })
  compact_copied h new_id (io_error, c) g = (
    failed,
    count_io_error (undo h new_id (record g { extent_map = c.extent_map; devices = c.devices })),
  )
  compact_copied h new_id (no_slot, c) g =
      (failed, undo h new_id (record g { extent_map = c.extent_map; devices = c.devices }))

  abbrev pub compact_into :
      MigrationHandle
      → List K
      → Option (ℕ × DiskLocation) × ExtentMap A
      → Engine A K D
      → MigrationResult × Engine A K D
  compact_into h ks (none, s) g = (failed, abort h (record g { extent_map = s }))
  compact_into h ks (some (new_id, new_loc), s) g =
      let start : Copying A K D = record { updates = []; extent_map = s; devices = g.devices } in
      compact_copied h new_id
        (copy_keys dev h.src_loc.tier h.src_loc new_loc new_id g.key_map ks start) g

  -- With no live key the extent is only freed.
  abbrev pub compact_keys : MigrationHandle → List K → Engine A K D → MigrationResult × Engine A K D
  compact_keys h [] g =
      (committed, count_compaction (record g { extent_map = free h.extent_id g.extent_map }))
  compact_keys h (k ∷ ks) g =
      compact_into h (k ∷ ks) (allocate_extent ops h.src_loc.tier h.src_loc.length g.extent_map) g

  abbrev pub compact_claimed :
      Option MigrationHandle × ExtentMap A → Engine A K D → MigrationResult × Engine A K D
  compact_claimed (none, s) g = (interrupted, record g { extent_map = s })
  compact_claimed (some h, s) g =
      compact_keys h (keys_in_extent h.extent_id g.key_map) (record g { extent_map = s })

  unfoldable pub compact : ℕ → Engine A K D → MigrationResult × Engine A K D
  compact id g = compact_claimed (begin_migration id g.extent_map) g

  abbrev pub run_task : MigrationTask → Engine A K D → Engine A K D
  run_task (tier_migrate id from to) g = (migrate_tier ops dev others id from to g).1
  run_task (compaction id) g = (compact id g).1

  unfoldable pub run_tasks : List MigrationTask → Engine A K D → Engine A K D
  run_tasks [] g = g
  run_tasks (t ∷ ts) g = run_tasks ts (run_task t g)

  -- The queue is taken as a whole first.
  unfoldable pub process_queue : Engine A K D → Engine A K D
  process_queue g = run_tasks g.queue (record g { queue = [] })
