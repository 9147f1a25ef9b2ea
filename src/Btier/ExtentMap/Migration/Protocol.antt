-- ===== src/Btier/ExtentMap/Migration/Protocol.antt =====
-- The migration protocol of btier/extent_map.cc: what begin, commit and abort do to one another and
-- to the operations that may run in between.
use cxxlab.Prelude.{
  ℕ, ◌+◌, ◌%◌, ◌^◌, ◌<◌, ◌≡◌, ◌≢◌, ap, arith, some, none, true, false, inl, nat_eq,
}
use cxxlab.Btier.Types.{active, migrating, DiskLocation}
use cxxlab.Btier.Metrics.{access_count, write_count, randomness, state, generation}
use cxxlab.Btier.Metrics.Fields.{pack_fields, fields-lt, generation-lt, pack-unpack}
use cxxlab.Btier.ExtentMap.{
  ExtentMap, ExtentEntry, find, set_entry, mark_dirty, add_deferred_free, update_free_list,
}
use cxxlab.Btier.ExtentMap.Find.{find-set_entry, find-set_entry_self}
use cxxlab.Btier.ExtentMap.Slots.{append_slot, mark_dead_slot, dead_entry, uint32_max}
use cxxlab.Btier.ExtentMap.Slots.Append.{append_slot-refused}
use cxxlab.Btier.ExtentMap.Slots.Counters.{SameCounters, bump_generation_lem}
use cxxlab.Btier.ExtentMap.Migration.{
  MigrationHandle, state_word, begin_migration, commit_handle, commit_migration, abort_handle,
  abort_migration,
}

pub state_word_lem :
    (st gen raw : ℕ)
    → SameCounters raw (state_word st gen raw)
      × (state (state_word st gen raw) ≡ st % 2 ^ 2)
      × (generation (state_word st gen raw) ≡ gen % 2 ^ 32)
      × (state_word st gen raw < 2 ^ 64)
unfolding state_word
state_word_lem st gen raw =
    let f = pack_fields (access_count raw) (write_count raw) (randomness raw) st gen in
    let b = fields-lt raw in
    (
      record {
        access = omega (arith, f.0, b.0);
        writes = omega (arith, f.1, b.1);
        random = omega (arith, f.2, b.2);
      },
      f.3,
      f.4,
      f.5,
    )

-- Setting the state of a word back gives the word back.
state_word-undo :
    (st raw : ℕ)
    → raw < 2 ^ 64
    → state_word
        (state raw)
        (generation (state_word st (generation raw) raw))
        (state_word st (generation raw) raw)
      ≡ raw
state_word-undo st raw h =
    let w = state_word_lem st (generation raw) raw in
    let g : generation (state_word st (generation raw) raw) ≡ generation raw =
      omega (arith, w.2, generation-lt raw h) in
    unfold state_word in (rw (g, w.0.access, w.0.writes, w.0.random) (pack-unpack raw h))

-- The handle that begin_migration gives out, and the entry and the map that it leaves.
abbrev pub handle : ℕ → ExtentEntry → MigrationHandle
handle id e = record { extent_id = id; src_loc = e.location; gen_before = generation e.raw }

abbrev pub locked : ExtentEntry → ExtentEntry
locked e = record e { raw = state_word migrating (generation e.raw) e.raw }

abbrev pub begun : {A : Type 0} → ℕ → ExtentEntry → ExtentMap A → ExtentMap A
begun id e s = set_entry s id (locked e)

-- Each operation on a handle whose extent is there, branch by branch.
module _ {A : Type 0} (hd : MigrationHandle) (s : ExtentMap A) (e : ExtentEntry)
    (h : find s hd.extent_id ≡ some e) where
  pub abort_handle-migrating :
      state e.raw ≡ migrating
      → abort_handle hd s
        ≡ set_entry s hd.extent_id (record e { raw = state_word active (generation e.raw) e.raw })
  unfolding abort_handle
  abort_handle-migrating k = ground arith

  pub commit_handle-stale :
      (new_loc : DiskLocation)
      → generation e.raw ≢ hd.gen_before
      → commit_handle hd new_loc s ≡ (false, s)
  unfolding commit_handle
  commit_handle-stale new_loc k = ground arith

  pub commit_handle-fresh :
      (new_loc : DiskLocation)
      → generation e.raw ≡ hd.gen_before
      → commit_handle hd new_loc s ≡ (
        true,
        mark_dirty hd.extent_id (
            add_deferred_free e.location (
              set_entry s hd.extent_id (record e {
                location = new_loc;
                raw = state_word active (hd.gen_before + 1) e.raw;
              }))),
      )
  unfolding commit_handle
  commit_handle-fresh new_loc k = ground arith

pub next_generation : (g : ℕ) → g < 2 ^ 32 → (g + 1) % 2 ^ 32 ≢ g
next_generation g h = omega arith

begin_migration-not_active :
    {A : Type 0} (id : ℕ) (s : ExtentMap A) (e : ExtentEntry)
    → find s id ≡ some e
    → state e.raw ≢ active
    → begin_migration id s ≡ (none, s)
unfolding begin_migration
begin_migration-not_active id s e h k = ground arith

find-mark_dead_slot :
    {A : Type 0} (id length : ℕ) (s : ExtentMap A) (e : ExtentEntry)
    → find s id ≡ some e
    → find (mark_dead_slot id length s) id ≡ some (dead_entry length e)
unfolding mark_dead_slot update_free_list mark_dirty
find-mark_dead_slot id length s e h =
    rw (h, mark_dead_slot) (find-set_entry_self s id (dead_entry length e))

module _ {A : Type 0} (id : ℕ) (s : ExtentMap A) (e : ExtentEntry) (h : find s id ≡ some e)
    (a : state e.raw ≡ active) (b : e.raw < 2 ^ 64) where
  pub begin_migration_lem : begin_migration id s ≡ (some (handle id e), begun id e s)
  unfolding begin_migration
  begin_migration_lem = ground arith

  pub find-begun : find (begun id e s) id ≡ some (locked e)
  find-begun = find-set_entry_self s id (locked e)

  pub locked-generation : generation (locked e).raw ≡ generation e.raw
  locked-generation =
      omega (arith, (state_word_lem migrating (generation e.raw) e.raw).2, generation-lt e.raw b)

  pub locked-state : state (locked e).raw ≡ migrating
  locked-state = (state_word_lem migrating (generation e.raw) e.raw).1

  pub restored :
      record (locked e) { raw = state_word active (generation (locked e).raw) (locked e).raw } ≡ e
  restored = ap (λ (r : ℕ). record e { raw = r }) (rw (← a) (state_word-undo migrating e.raw b))

  -- An aborted migration leaves every extent as it was, the metrics word included.
  pub abort-begin :
      (j : ℕ) → let (m, s') = begin_migration id s in find (abort_migration m s') j ≡ find s j
  unfolding abort_migration
  abort-begin j = rw begin_migration_lem (
      rw (abort_handle-migrating (handle id e) (begun id e s) (locked e) find-begun locked-state) (
        rw restored
          (ground (arith, find-set_entry (begun id e s) id e j, find-set_entry s id (locked e) j))))

  -- While an extent migrates, a second migration of it and a new slot in it are refused.
  pub begun_excludes :
      (size : ℕ)
      → let s' = (begin_migration id s).1 in
        (begin_migration id s' ≡ (none, s')) × (append_slot id size s' ≡ (uint32_max, s'))
  begun_excludes size = rw begin_migration_lem (
    begin_migration-not_active id (begun id e s) (locked e) find-begun
        (omega (arith, locked-state)),
    append_slot-refused id size (begun id e s) (locked e) find-begun
        (inl (omega (arith, locked-state))),
  )

  dead_generation : (length : ℕ) → generation (dead_entry length (locked e)).raw ≢ generation e.raw
  unfolding dead_entry
  dead_generation length =
      let g = (bump_generation_lem (locked e).raw).2 in
      rw (g, locked-generation) (next_generation (generation e.raw) (generation-lt e.raw b))

  -- A slot that dies between begin and commit makes the commit fail, and the failed commit changes
  -- nothing.
  pub commit-mark_dead_slot :
      (length : ℕ) (new_loc : DiskLocation)
      → let (m, s') = begin_migration id s in
        let s2 = mark_dead_slot id length s' in commit_migration m new_loc s2 ≡ (false, s2)
  unfolding commit_migration
  commit-mark_dead_slot length new_loc = rw begin_migration_lem (
      commit_handle-stale (handle id e) (mark_dead_slot id length (begun id e s))
        (dead_entry length (locked e))
        (find-mark_dead_slot id length (begun id e s) (locked e) find-begun) new_loc
        (dead_generation length))
