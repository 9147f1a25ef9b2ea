-- ===== src/Btier/ExtentMap/Migration.antt =====
-- btier/extent_map.cc: the migration handle and the operations that take it.
pub mod Protocol
pub mod Commit
use cxxlab.Prelude.{ℕ, ◌+◌, Bool, true, false, Option, none, some, ◌==◌, not, if◌then◌else◌}
use cxxlab.Btier.Types.{DiskLocation, active, migrating}
use cxxlab.Btier.Metrics.{pack, access_count, write_count, randomness, state, generation}
use cxxlab.Btier.ExtentMap.{ExtentEntry, ExtentMap, find, set_entry, mark_dirty, add_deferred_free}

pub record MigrationHandle : Type 0 where
  pub extent_id : ℕ
  pub src_loc : DiskLocation
  pub gen_before : ℕ

-- The word with another state and generation.
unfoldable pub state_word : ℕ → ℕ → ℕ → ℕ
state_word st gen raw = pack (access_count raw) (write_count raw) (randomness raw) st gen

module _ {A : Type 0} where
  -- `none` is the null pointer.
  unfoldable pub begin_migration : ℕ → ExtentMap A → Option MigrationHandle × ExtentMap A
  begin_migration id s = elim (find s id) [
    | none ↦ (none, s)
    | some e ↦ if not (state e.raw == active) then (none, s) else (
      some (record { extent_id = id; src_loc = e.location; gen_before = generation e.raw }),
      set_entry s id (record e { raw = state_word migrating (generation e.raw) e.raw }),
    )
  ]

  unfoldable pub commit_handle : MigrationHandle → DiskLocation → ExtentMap A → Bool × ExtentMap A
  commit_handle h new_loc s = elim (find s h.extent_id) [
    | none ↦ (false, s)
    | some e ↦ if not (generation e.raw == h.gen_before) then (false, s) else (
      true,
      mark_dirty h.extent_id (
          add_deferred_free e.location (
            set_entry s h.extent_id
              (record e { location = new_loc; raw = state_word active (h.gen_before + 1) e.raw }))),
    )
  ]

  unfoldable pub commit_migration :
      Option MigrationHandle → DiskLocation → ExtentMap A → Bool × ExtentMap A
  unfolding commit_handle
  commit_migration none new_loc s = (false, s)
  commit_migration (some h) new_loc s = commit_handle h new_loc s

  unfoldable pub abort_handle : MigrationHandle → ExtentMap A → ExtentMap A
  abort_handle h s = elim (find s h.extent_id) [
    | none ↦ s
    | some e ↦
        if not (state e.raw == migrating)
        then s
        else set_entry s h.extent_id (record e { raw = state_word active (generation e.raw) e.raw })
  ]

  unfoldable pub abort_migration : Option MigrationHandle → ExtentMap A → ExtentMap A
  unfolding abort_handle
  abort_migration none s = s
  abort_migration (some h) s = abort_handle h s

  unfoldable pub check_migration : MigrationHandle → ExtentMap A → Bool
  check_migration h s = elim (find s h.extent_id) [
    | none ↦ false
    | some e ↦ generation e.raw == h.gen_before
  ]

  unfoldable pub release_source : DiskLocation → ExtentMap A → ExtentMap A
  release_source loc s = add_deferred_free loc s
