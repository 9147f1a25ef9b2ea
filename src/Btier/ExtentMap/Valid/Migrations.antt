-- ===== src/Btier/ExtentMap/Valid/Migrations.antt =====
-- The invariant of btier/extent_map.cc under migrations, recovery and the reference counts.
use cxxlab.Prelude.{
  ℕ, ◌+◌, ◌<◌, ◌≤◌, ◌≡◌, refl, arith, some, none, Option, nat_eq, ◌==◌, u32_mod, Option-cases,
  Bool-cases, inl, inr,
}
use cxxlab.Btier.Types.{DiskLocation, header_size, active, migrating}
use cxxlab.Btier.Metrics.{state, generation}
use cxxlab.Btier.ExtentMap.{
  ExtentMap, ExtentEntry, find, set_entry, mark_dirty, update_free_list, add_deferred_free,
}
use cxxlab.Btier.ExtentMap.Slots.{restore_extent_state, io_ref_inc, io_ref_dec}
use cxxlab.Btier.ExtentMap.Migration.{
  MigrationHandle, state_word, begin_migration, commit_handle, commit_migration, abort_handle,
  abort_migration,
}
use cxxlab.Btier.ExtentMap.Migration.Protocol.{state_word_lem}
use cxxlab.Btier.ExtentMap.Valid.{IsValid, set_entry-IsValid, entries-IsValid}

module _ {A : Type 0} (s : ExtentMap A) (v : IsValid s) where
  -- Only the word changes.
  word-IsValid :
      (id st gen : ℕ) (e : ExtentEntry)
      → find s id ≡ some e
      → IsValid (set_entry s id (record e { raw = state_word st gen e.raw }))
  word-IsValid id st gen e h =
      let g = v.good id e h in
      set_entry-IsValid s id e _ h
        (record {
          word = (state_word_lem st gen e.raw).3;
          holds_header = g.holds_header;
          narrow = g.narrow;
          live_le = g.live_le;
          fits = g.fits;
        })
        v

  pub begin_migration-IsValid : (id : ℕ) → IsValid (begin_migration id s).1
  unfolding begin_migration
  begin_migration-IsValid id = elim (Option-cases (find s id)) [
    | inl missing ↦ rw (missing, begin_migration) v
    | inr (e, h) ↦
        rw (h, begin_migration)
          (elim (Bool-cases (state e.raw == active)) [
            | inl idle ↦ rw idle (word-IsValid id migrating (generation e.raw) e h)
            | inr busy ↦ rw busy v
          ])
  ]

  abort_handle-IsValid : (hd : MigrationHandle) → IsValid (abort_handle hd s)
  unfolding abort_handle
  abort_handle-IsValid hd = elim (Option-cases (find s hd.extent_id)) [
    | inl missing ↦ rw (missing, abort_handle) v
    | inr (e, h) ↦
        rw (h, abort_handle)
          (elim (Bool-cases (state e.raw == migrating)) [
            | inl busy ↦ rw busy (word-IsValid hd.extent_id active (generation e.raw) e h)
            | inr idle ↦ rw idle v
          ])
  ]

  pub abort_migration-IsValid : (m : Option MigrationHandle) → IsValid (abort_migration m s)
  unfolding abort_migration
  abort_migration-IsValid none = v
  abort_migration-IsValid (some hd) = abort_handle-IsValid hd

  -- A commit to a place with room for what the extent holds.
  commit_handle-IsValid :
      (hd : MigrationHandle) (loc : DiskLocation)
      → ((e : ExtentEntry)
          → find s hd.extent_id ≡ some e
          → (e.used_bytes + header_size ≤ loc.length) × (loc.length < u32_mod))
      → IsValid (commit_handle hd loc s).1
  unfolding commit_handle mark_dirty add_deferred_free
  commit_handle-IsValid hd loc fit = elim (Option-cases (find s hd.extent_id)) [
    | inl missing ↦ rw (missing, commit_handle) v
    | inr (e, h) ↦
        rw (h, commit_handle)
          (elim (Bool-cases (generation e.raw == hd.gen_before)) [
            | inr stale ↦ rw stale v
            | inl fresh ↦
                let g = v.good hd.extent_id e h in
                let f = fit e h in
                rw fresh (
                  entries-IsValid (set_entry s hd.extent_id _) hd.extent_id _ refl refl (
                    set_entry-IsValid s hd.extent_id e
                      (record e {
                        location = loc;
                        raw = state_word active (hd.gen_before + 1) e.raw;
                      })
                      h
                      (record {
                        word = (state_word_lem active (hd.gen_before + 1) e.raw).3;
                        holds_header = omega (arith, f.0);
                        narrow = f.1;
                        live_le = g.live_le;
                        fits = f.0;
                      })
                      v))
          ])
  ]

  pub commit_migration-IsValid :
      (m : Option MigrationHandle) (loc : DiskLocation)
      → ((hd : MigrationHandle) (e : ExtentEntry)
          → m ≡ some hd
          → find s hd.extent_id ≡ some e
          → (e.used_bytes + header_size ≤ loc.length) × (loc.length < u32_mod))
      → IsValid (commit_migration m loc s).1
  unfolding commit_migration
  commit_migration-IsValid none loc fit = v
  commit_migration-IsValid (some hd) loc fit = commit_handle-IsValid hd loc (λ e h. fit hd e refl h)

  counts-IsValid :
      (id used live refs : ℕ) (e : ExtentEntry)
      → find s id ≡ some e
      → live ≤ used
      → used + header_size ≤ e.location.length
      → IsValid (set_entry s id (record e { used_bytes = used; live_bytes = live; io_refs = refs }))
  counts-IsValid id used live refs e h le fits =
      let g = v.good id e h in
      set_entry-IsValid s id e _ h
        (record {
          word = g.word;
          holds_header = g.holds_header;
          narrow = g.narrow;
          live_le = le;
          fits = fits;
        })
        v

  pub restore_extent_state-IsValid :
      (id used live : ℕ)
      → live ≤ used
      → ((e : ExtentEntry) → find s id ≡ some e → used + header_size ≤ e.location.length)
      → IsValid (restore_extent_state id used live s)
  unfolding restore_extent_state mark_dirty update_free_list
  restore_extent_state-IsValid id used live le fits = elim (Option-cases (find s id)) [
    | inl missing ↦ rw (missing, restore_extent_state) v
    | inr (e, h) ↦
        rw (h, restore_extent_state)
          (entries-IsValid (set_entry s id _) id _ refl refl
            (counts-IsValid id used live e.io_refs e h le (fits e h)))
  ]

  pub io_ref_inc-IsValid : (id : ℕ) → IsValid (io_ref_inc id s)
  unfolding io_ref_inc
  io_ref_inc-IsValid id = elim (Option-cases (find s id)) [
    | inl missing ↦ rw (missing, io_ref_inc) v
    | inr (e, h) ↦
        let g = v.good id e h in
        rw (h, io_ref_inc) (counts-IsValid id e.used_bytes e.live_bytes _ e h g.live_le g.fits)
  ]

  pub io_ref_dec-IsValid : (id : ℕ) → IsValid (io_ref_dec id s)
  unfolding io_ref_dec
  io_ref_dec-IsValid id = elim (Option-cases (find s id)) [
    | inl missing ↦ rw (missing, io_ref_dec) v
    | inr (e, h) ↦
        let g = v.good id e h in
        rw (h, io_ref_dec) (counts-IsValid id e.used_bytes e.live_bytes _ e h g.live_le g.fits)
  ]
