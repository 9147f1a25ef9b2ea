-- ===== src/Btier/MigrationEngine/Placement.antt =====
-- btier/migration_engine.cc over the extent map and its allocators: where the bytes of a move go.
pub mod Tasks
pub mod Target
pub mod Tests
use cxxlab.Prelude.{
  ℕ, ◌+◌, ◌<◌, ◌≡◌, refl, ap, arith, Bool, true, false, List, [], ◌∷◌, ◌++◌, Option, none, some,
  Option-cases, inl, inr, if-cases, if◌then◌else◌, u64_mod, Eq, not, ◌==◌,
}
use cxxlab.Btier.Types.{Tier, DiskLocation, KeyLocation, active}
use cxxlab.Btier.Metrics.{state, generation}
use cxxlab.Btier.ExtentMap.{ExtentEntry, ExtentMap, find, set_entry}
use cxxlab.Btier.ExtentMap.Slots.{append_slot, uint32_max}
use cxxlab.Btier.ExtentMap.Migration.{
  MigrationHandle, begin_migration, commit_migration, abort_migration, check_migration,
  release_source,
}
use cxxlab.Btier.ExtentMap.Space.{AllocatorOps, aligned, allocate_raw, allocate_extent, free}
use cxxlab.Btier.ExtentMap.Placement.{FreeSpace, Disjoint}
use cxxlab.Btier.ExtentMap.Placement.Allocated.{
  given, allocate_extent-Disjoint, allocate_raw-Disjoint,
}
use cxxlab.Btier.ExtentMap.Placement.Moved.{
  free-Disjoint, release_source-Disjoint, commit_migration-Disjoint, begin_migration-Disjoint,
  abort_migration-Disjoint,
}
use cxxlab.Btier.ExtentMap.Placement.Kept.{append_slot-Disjoint}
use cxxlab.Btier.KeyMap.{KeyMap, keys_in_extent, lookup_loc}
use cxxlab.Btier.MigrationEngine.{
  DeviceOps, Engine, MigrationResult, MigrationTask, tier_migrate, compaction, settle, written,
  placed, fetched, claimed, migrate_tier, abort, Copying, CopyEnd, copied, io_error, no_slot,
  copy_appended, copy_key, copy_keys, copy_more, found_loc, undo, commit_copy, compact_copied,
  compact_into, compact_keys, compact_claimed, compact, run_task, copy_written, copy_read,
}

module _ {A : Type 0} (ops : AllocatorOps A) (space : FreeSpace ops) where
  -- The requests for as much as an extent has are requests that the allocators take.
  abbrev pub Fine : ExtentMap A → ℕ → Type 0
  Fine s id =
      (e : ExtentEntry)
      → find s id ≡ some e
      → space.Asks (aligned s.block_size e.location.length) s.block_size

module _ {A : Type 0} (sizes : Tier → ℕ) (ops : AllocatorOps A) (space : FreeSpace ops)
    (loose : List DiskLocation) where
  module _ {K D : Type 0} where
    settle-Disjoint :
        (h : MigrationHandle) (dst : DiskLocation) (from to : Tier) (r : Bool × ExtentMap A)
        (g : Engine A K D)
        → Disjoint sizes ops space r.1 (if r.0 then loose else dst ∷ loose)
        → Disjoint sizes ops space (settle h dst from to r g).1.extent_map loose
    settle-Disjoint h dst from to (true, s) g p = p
    settle-Disjoint h dst from to (false, s) g p =
        release_source-Disjoint sizes ops space _ dst [] loose
          (abort_migration-Disjoint sizes ops space s (some h) (dst ∷ loose) p)

    pub abort-Disjoint :
        (h : MigrationHandle) (g : Engine A K D)
        → Disjoint sizes ops space g.extent_map loose
        → Disjoint sizes ops space (abort h g).extent_map loose
    unfolding abort
    abort-Disjoint h g p = abort_migration-Disjoint sizes ops space g.extent_map (some h) loose p

  module _ {K D B : Type 0} (dev : DeviceOps D B) (others : ExtentMap A → ExtentMap A)
      (keeps : (s : ExtentMap A) (l : List DiskLocation)
        → Disjoint sizes ops space s l
        → Disjoint sizes ops space (others s) l) where
    written-Disjoint :
        (h : MigrationHandle) (dst : DiskLocation) (from to : Tier) (w : Bool × D)
        (g : Engine A K D)
        → Disjoint sizes ops space g.extent_map (dst ∷ loose)
        → Disjoint sizes ops space (written ops dev others h dst from to w g).1.extent_map loose
    written-Disjoint h dst from to (true, d) g p =
        settle-Disjoint h dst from to (commit_migration (some h) dst (others g.extent_map))
          (record g { devices = d })
          (commit_migration-Disjoint sizes ops space (others g.extent_map) (some h) dst [] loose
            (keeps g.extent_map _ p))
    written-Disjoint h dst from to (false, d) g p =
        release_source-Disjoint sizes ops space _ dst [] loose
          (abort_migration-Disjoint sizes ops space g.extent_map (some h) (dst ∷ loose) p)

    placed-Disjoint :
        (h : MigrationHandle) (content : B) (from to : Tier) (o : Option DiskLocation × ExtentMap A)
        (g : Engine A K D)
        → Disjoint sizes ops space o.1 (given o.0 ++ loose)
        → Disjoint sizes ops space (placed ops dev others h content from to o g).1.extent_map loose
    placed-Disjoint h content from to (none, s) g p = abort-Disjoint h _ p
    placed-Disjoint h content from to (some dst, s) g p =
        written-Disjoint h dst from to (dev.write to dst.offset content g.devices) _ p

    fetched-Disjoint :
        (h : MigrationHandle) (from to : Tier) (o : Option B) (g : Engine A K D)
        → space.Asks (aligned g.extent_map.block_size h.src_loc.length) g.extent_map.block_size
        → Disjoint sizes ops space g.extent_map loose
        → Disjoint sizes ops space (fetched ops dev others h from to o g).1.extent_map loose
    fetched-Disjoint h from to none g asks p = abort-Disjoint h g p
    fetched-Disjoint h from to (some content) g asks p =
        placed-Disjoint h content from to (allocate_raw ops to h.src_loc.length g.extent_map) g
          (allocate_raw-Disjoint sizes ops space h.src_loc.length g.extent_map loose to p asks)

  -- What a claim gives: it keeps the block size and the next number, and its handle has the place of the extent.
  pub Claims : ℕ → ExtentMap A → Option MigrationHandle × ExtentMap A → Type 0
  Claims id s (none, s') = Unit
  Claims id s (some h, s') =
      (s'.block_size ≡ s.block_size)
      × (s'.next_extent_id ≡ s.next_extent_id)
      × (e : ExtentEntry) × (find s id ≡ some e)
      × (h.src_loc ≡ e.location)

  pub begin_migration-Claims : (id : ℕ) (s : ExtentMap A) → Claims id s (begin_migration id s)
  unfolding begin_migration set_entry Claims
  begin_migration-Claims id s = elim (Option-cases (find s id)) [
    | inl e ↦ rw (begin_migration, e) tt
    | inr (x, e) ↦
        rw (begin_migration, e)
          (if-cases (Claims id s) (not (state x.raw == active)) (λ other. tt)
            (λ same. (refl, refl, x, e, refl)))
  ]

  pub asked :
      (id : ℕ) (s s' : ExtentMap A) (h : MigrationHandle)
      → Claims id s (some h, s')
      → Fine ops space s id
      → space.Asks (aligned s'.block_size h.src_loc.length) s'.block_size
  unfolding Claims
  asked id s s' h (blocks, nexts, e, found, place) fine = rw (blocks, place) (fine e found)

  module _ {K D B : Type 0} ⦃eq : Eq K⦄ (dev : DeviceOps D B) (others : ExtentMap A → ExtentMap A)
      (keeps : (s : ExtentMap A) (l : List DiskLocation)
        → Disjoint sizes ops space s l
        → Disjoint sizes ops space (others s) l) where
    claimed-Disjoint :
        (id : ℕ) (from to : Tier) (s : ExtentMap A) (r : Option MigrationHandle × ExtentMap A)
        (g : Engine A K D)
        → Claims id s r
        → Fine ops space s id
        → Disjoint sizes ops space r.1 loose
        → Disjoint sizes ops space (claimed ops dev others from to r g).1.extent_map loose
    claimed-Disjoint id from to s (none, s') g c fine p = p
    claimed-Disjoint id from to s (some h, s') g c fine p =
        fetched-Disjoint dev others keeps h from to
          (dev.read from h.src_loc.offset h.src_loc.length g.devices) _ (asked id s s' h c fine) p

    pub migrate_tier-Disjoint :
        (id : ℕ) (from to : Tier) (g : Engine A K D)
        → Fine ops space g.extent_map id
        → Disjoint sizes ops space g.extent_map loose
        → Disjoint sizes ops space (migrate_tier ops dev others id from to g).1.extent_map loose
    unfolding migrate_tier
    migrate_tier-Disjoint id from to g fine p =
        claimed-Disjoint id from to g.extent_map (begin_migration id g.extent_map) g
          (begin_migration-Claims id g.extent_map) fine
          (begin_migration-Disjoint sizes ops space g.extent_map id loose p)
