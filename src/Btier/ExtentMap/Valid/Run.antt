-- ===== src/Btier/ExtentMap/Valid/Run.antt =====
-- The invariant of btier/extent_map.cc after any calls of its operations.
use cxxlab.Prelude.{ℕ, ◌+◌, ◌<◌, ◌≤◌, ◌≡◌, some, Option, u32_mod, u64_mod}
use cxxlab.Btier.Types.{IoOp, DiskLocation, header_size, Tier}
use cxxlab.Btier.ExtentMap.{ExtentMap, ExtentEntry, find}
use cxxlab.Btier.ExtentMap.Slots.{
  record_io, set_randomness, append_slot, mark_dead_slot, restore_extent_state, io_ref_inc,
  io_ref_dec,
}
use cxxlab.Btier.ExtentMap.Migration.{
  MigrationHandle, begin_migration, commit_migration, abort_migration, release_source,
}
use cxxlab.Btier.ExtentMap.Space.{
  AllocatorOps, allocate_extent, allocate_raw, free, create_entry_from_journal,
  process_deferred_free, flush_dirty_headers, clear_deferred_free, init_free_space,
}
use cxxlab.Btier.ExtentMap.Valid.{
  IsValid, record_io-IsValid, set_randomness-IsValid, append_slot-IsValid, mark_dead_slot-IsValid,
}
use cxxlab.Btier.ExtentMap.Valid.Migrations.{
  begin_migration-IsValid, commit_migration-IsValid, abort_migration-IsValid,
  restore_extent_state-IsValid, io_ref_inc-IsValid, io_ref_dec-IsValid,
}
use cxxlab.Btier.ExtentMap.Valid.Same.{
  allocate_raw-SameExtents, release_source-SameExtents, flush_dirty_headers-SameExtents,
  clear_deferred_free-SameExtents, init_free_space-SameExtents,
}
use cxxlab.Btier.ExtentMap.Valid.Extents.{
  SameExtents-IsValid, free-IsValid, create_entry_from_journal-IsValid,
  process_deferred_free-IsValid,
}
use cxxlab.Btier.ExtentMap.Valid.Allocations.{GivesExtent, allocate_extent-Outcome, Outcome-IsValid}

-- One call, with what its caller has to see to: a slot size that does not wrap the 32-bit sum, a
-- migration target with room for what the extent holds, recovered byte counts that fit.
pub data Step {A : Type 0} (ops : AllocatorOps A) : ExtentMap A → ExtentMap A → Type 0 where
  io : {s : ExtentMap A} (id : ℕ) (op : IoOp) (now : ℕ) → Step ops s (record_io id op now s)
  random : {s : ExtentMap A} (id r : ℕ) → Step ops s (set_randomness id r s)
  append :
      {s : ExtentMap A} (id size : ℕ)
      → ((e : ExtentEntry) → find s id ≡ some e → e.used_bytes + size < u32_mod)
      → Step ops s (append_slot id size s).1
  die : {s : ExtentMap A} (id n : ℕ) → Step ops s (mark_dead_slot id n s)
  begin : {s : ExtentMap A} (id : ℕ) → Step ops s (begin_migration id s).1
  commit :
      {s : ExtentMap A} (m : Option MigrationHandle) (loc : DiskLocation)
      → ((hd : MigrationHandle) (e : ExtentEntry)
          → m ≡ some hd
          → find s hd.extent_id ≡ some e
          → (e.used_bytes + header_size ≤ loc.length) × (loc.length < u32_mod))
      → Step ops s (commit_migration m loc s).1
  abort : {s : ExtentMap A} (m : Option MigrationHandle) → Step ops s (abort_migration m s)
  restore :
      {s : ExtentMap A} (id used live : ℕ)
      → live ≤ used
      → ((e : ExtentEntry) → find s id ≡ some e → used + header_size ≤ e.location.length)
      → Step ops s (restore_extent_state id used live s)
  ref_inc : {s : ExtentMap A} (id : ℕ) → Step ops s (io_ref_inc id s)
  ref_dec : {s : ExtentMap A} (id : ℕ) → Step ops s (io_ref_dec id s)
  remove : {s : ExtentMap A} (id : ℕ) → Step ops s (free id s)
  replay :
      {s : ExtentMap A} (id : ℕ) (loc : DiskLocation)
      → id + 1 < u64_mod
      → header_size ≤ loc.length
      → loc.length < u32_mod
      → Step ops s (create_entry_from_journal id loc s)
  allocate :
      {s : ExtentMap A} (t : Tier) (size : ℕ)
      → s.next_extent_id + 1 < u64_mod
      → GivesExtent ops size s
      → Step ops s (allocate_extent ops t size s).1
  raw : {s : ExtentMap A} (t : Tier) (size : ℕ) → Step ops s (allocate_raw ops t size s).1
  give_up : {s : ExtentMap A} (loc : DiskLocation) → Step ops s (release_source loc s)
  flush : {s : ExtentMap A} → Step ops s (flush_dirty_headers s)
  clear : {s : ExtentMap A} → Step ops s (clear_deferred_free s)
  init_free : {s : ExtentMap A} → Step ops s (init_free_space ops s)
  process : {s : ExtentMap A} → Step ops s (process_deferred_free ops s)

pub data Reach {A : Type 0} (ops : AllocatorOps A) (s : ExtentMap A) : ExtentMap A → Type 0 where
  here : Reach ops s s
  next : {t u : ExtentMap A} → Reach ops s t → Step ops t u → Reach ops s u

module _ {A : Type 0} (ops : AllocatorOps A) where
  Step-IsValid : {s t : ExtentMap A} → Step ops s t → IsValid s → IsValid t
  Step-IsValid (io {s} id op now) v = record_io-IsValid s id v op now
  Step-IsValid (random {s} id r) v = set_randomness-IsValid s id v r
  Step-IsValid (append {s} id size w) v = append_slot-IsValid s id v size w
  Step-IsValid (die {s} id n) v = mark_dead_slot-IsValid s id v n
  Step-IsValid (begin {s} id) v = begin_migration-IsValid s v id
  Step-IsValid (commit {s} m loc f) v = commit_migration-IsValid s v m loc f
  Step-IsValid (abort {s} m) v = abort_migration-IsValid s v m
  Step-IsValid (restore {s} id used live h f) v = restore_extent_state-IsValid s v id used live h f
  Step-IsValid (ref_inc {s} id) v = io_ref_inc-IsValid s v id
  Step-IsValid (ref_dec {s} id) v = io_ref_dec-IsValid s v id
  Step-IsValid (remove {s} id) v = free-IsValid s id v
  Step-IsValid (replay {s} id loc n h w) v = create_entry_from_journal-IsValid s id loc n h w v
  Step-IsValid (allocate {s} t size n gives) v =
      Outcome-IsValid s (allocate_extent ops t size s)
        (allocate_extent-Outcome ops t size s n gives) v
  Step-IsValid (raw {s} t size) v = SameExtents-IsValid (allocate_raw-SameExtents ops t size s) v
  Step-IsValid (give_up {s} loc) v = SameExtents-IsValid (release_source-SameExtents loc s) v
  Step-IsValid (flush {s}) v = SameExtents-IsValid (flush_dirty_headers-SameExtents s) v
  Step-IsValid (clear {s}) v = SameExtents-IsValid (clear_deferred_free-SameExtents s) v
  Step-IsValid (init_free {s}) v = SameExtents-IsValid (init_free_space-SameExtents ops s) v
  Step-IsValid (process {s}) v = process_deferred_free-IsValid ops s v

  -- From a valid extent map, behind any sequence of calls of record_io, set_randomness, append_slot,
  -- mark_dead_slot, begin_migration, commit_migration, abort_migration, restore_extent_state, io_ref_inc,
  -- io_ref_dec, free, create_entry_from_journal, allocate_extent, allocate_raw, release_source,
  -- process_deferred_free, clear_deferred_free, flush_dirty_headers and init_free_space, where slot sizes do
  -- not wrap the 32-bit sum, migration targets have room for what the extent holds, recovered locations
  -- and byte counts fit, numbers do not wrap, and the reply that an allocate_extent takes an extent of
  -- has room for the header in it and a length of 32 bits: every extent keeps its live bytes
  -- within its used bytes, its used bytes and header within its length and its word within 64 bits, and
  -- every number in use is below the next one.
  pub Reach-IsValid : {s t : ExtentMap A} → IsValid s → Reach ops s t → IsValid t
  Reach-IsValid v here = v
  Reach-IsValid v (next r st) = Step-IsValid st (Reach-IsValid v r)
