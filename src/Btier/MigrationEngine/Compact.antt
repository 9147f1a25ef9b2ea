-- ===== src/Btier/MigrationEngine/Compact.antt =====
-- btier/migration_engine.cc, compact: what becomes of the old extent and of the locations of its keys.
use cxxlab.Prelude.{
  ℕ, ◌+◌, ◌^◌, ◌<◌, ◌≡◌, ◌≢◌, refl, sym, ap, ◌∙◌, arith, some, none, Option, true, Option-cases,
  inl, inr, lookup, nat_eq, Eq, List, [], ◌∷◌, ◌++◌, lookup-erase, u64_mod,
}
use cxxlab.Btier.Types.{DiskLocation, KeyLocation, active}
use cxxlab.Btier.Metrics.{state}
use cxxlab.Btier.ExtentMap.{new_entry, ExtentMap, ExtentEntry, find, set_entry, add_deferred_free}
use cxxlab.Btier.ExtentMap.Migration.{check_migration, abort_migration}
use cxxlab.Btier.ExtentMap.Migration.Protocol.{
  handle, locked, begun, begin_migration_lem, find-begun, locked-generation,
}
use cxxlab.Btier.ExtentMap.Space.{AllocatorOps, allocate_extent, free}
use cxxlab.Btier.ExtentMap.Valid.Allocations.{GivesExtent, Outcome, allocate_extent-Outcome}
use cxxlab.Btier.KeyMap.{keys_in_extent, batch_update}
use cxxlab.Btier.MigrationEngine.{
  DeviceOps, Engine, MigrationResult, committed, failed, interrupted, Copying, CopyEnd, copied,
  io_error, no_slot, copy_keys, compact, compact_keys, compact_into, compact_copied, commit_copy,
  undo, abort,
}
use cxxlab.Btier.MigrationEngine.Migrate.{abort-locked, abort-locked-others}
use cxxlab.Btier.ExtentMap.Find.{find-set_entry_ne}
use cxxlab.Btier.MigrationEngine.Copy.{Moves, CopyOutcome, copy_keys-Outcome}

module _ {A : Type 0} (s : ExtentMap A) (id : ℕ) where
  find-free_self : find (free id s) id ≡ none
  unfolding free add_deferred_free
  find-free_self = elim (Option-cases (find s id)) [
    | inl missing ↦ rw (missing, free) missing
    | inr (e, h) ↦ rw (h, free) (ground (arith, lookup-erase id id s.entries))
  ]

  find-free : (j : ℕ) → id ≢ j → find (free id s) j ≡ find s j
  unfolding free add_deferred_free
  find-free j n = elim (Option-cases (find s id)) [
    | inl missing ↦ rw (missing, free) refl
    | inr (e, h) ↦ rw (h, free) (ground (arith, lookup-erase id j s.entries))
  ]

-- Where the keys of a compaction go: one behind the other into the extent under the next number, with the
-- bytes that they had.
abbrev pub Relocated :
    {A K D B : Type 0} ⦃eq : Eq K⦄
    → DeviceOps D B
    → ExtentEntry
    → Engine A K D
    → List K
    → List (K × KeyLocation)
    → Engine A K D
    → Type 0
Relocated dev e g [] us g' = (us ≡ []) × (g'.devices ≡ g.devices)
Relocated dev e g (k ∷ ks) us g' =
    (x : ExtentEntry) × (find g'.extent_map g.extent_map.next_extent_id ≡ some x)
    × Moves dev e.location.tier e.location x.location g.extent_map.next_extent_id g.key_map 0
        (k ∷ ks) us g.devices g'.devices

-- What becomes of a compaction, by its result.
abbrev pub CompactOutcome :
    {A K D B : Type 0} ⦃eq : Eq K⦄
    → DeviceOps D B
    → ℕ
    → ExtentEntry
    → Engine A K D
    → MigrationResult × Engine A K D
    → Type 0
CompactOutcome {K = K} dev id e g (committed, g') =
    (find g'.extent_map id ≡ none)
    × (us : List (K × KeyLocation)) × Relocated dev e g (keys_in_extent id g.key_map) us g'
    × (g'.key_map ≡ batch_update us g.key_map)
CompactOutcome dev id e g (failed, g') =
    (find g'.extent_map id ≡ some e)
    × (find g'.extent_map g.extent_map.next_extent_id ≡ none)
    × (g'.key_map ≡ g.key_map)
CompactOutcome dev id e g (interrupted, g') = ⊥

module _ {A K D B : Type 0} ⦃eq : Eq K⦄ (ops : AllocatorOps A) (dev : DeviceOps D B)
    (others : ExtentMap A → ExtentMap A) (id : ℕ) (e : ExtentEntry) (g : Engine A K D)
    (still : (s : ExtentMap A) → find (others s) id ≡ find s id)
    (still_new : (s : ExtentMap A)
      → find (others s) g.extent_map.next_extent_id ≡ find s g.extent_map.next_extent_id)
    (b : e.raw < 2 ^ 64) (a : state e.raw ≡ active) (h : find g.extent_map id ≡ some e) where
  undo_lem :
      (new_id : ℕ) (g1 : Engine A K D)
      → new_id ≢ id
      → find g1.extent_map id ≡ some (locked e)
      → find (undo ops dev others (handle id e) new_id g1).extent_map id ≡ some e
  unfolding undo
  undo_lem new_id g1 n k =
      find-free (abort_migration (some (handle id e)) g1.extent_map) new_id id n
      ∙ abort-locked id g.extent_map e h a b g1.extent_map k

  check_migration-locked :
      (s : ExtentMap A) → find s id ≡ some (locked e) → check_migration (handle id e) s ≡ true
  unfolding check_migration
  check_migration-locked s k = ground (arith, k, locked-generation id g.extent_map e h a b)

  commit_copy-Outcome :
      (us : List (K × KeyLocation)) (g1 : Engine A K D) (x : ExtentEntry) (k : K) (ks : List K)
      → g.extent_map.next_extent_id ≢ id
      → find g1.extent_map id ≡ some (locked e)
      → g1.key_map ≡ g.key_map
      → keys_in_extent id g.key_map ≡ k ∷ ks
      → find g1.extent_map g.extent_map.next_extent_id ≡ some x
      → Moves dev e.location.tier e.location x.location g.extent_map.next_extent_id g.key_map 0
          (k ∷ ks)
          us
          g.devices
          g1.devices
      → CompactOutcome dev id e g
          (commit_copy ops dev others (handle id e) g.extent_map.next_extent_id us g1)
  unfolding commit_copy
  commit_copy-Outcome us g1 x k ks n there same keys new moves =
      rw (check_migration-locked g1.extent_map there) (
        find-free_self g1.extent_map id,
        us,
        rw keys (
          x,
          find-free g1.extent_map id g.extent_map.next_extent_id (λ p. n (sym p)) ∙ new,
          moves,
        ),
        ap (batch_update us) same,
      )

  compact_copied-Outcome :
      (loc : DiskLocation) (k : K) (ks : List K) (start : Copying A K D)
      (r : CopyEnd × Copying A K D) (g1 : Engine A K D)
      → g.extent_map.next_extent_id ≢ id
      → keys_in_extent id g.key_map ≡ k ∷ ks
      → start.updates ≡ []
      → start.devices ≡ g.devices
      → find start.extent_map id ≡ some (locked e)
      → find start.extent_map g.extent_map.next_extent_id ≡ some (new_entry loc)
      → g1.key_map ≡ g.key_map
      → CopyOutcome dev e.location.tier e.location loc g.extent_map.next_extent_id g.key_map
          (k ∷ ks)
          start
          r
      → CompactOutcome dev id e g
          (compact_copied ops dev others (handle id e) g.extent_map.next_extent_id r g1)
  unfolding undo
  compact_copied-Outcome loc k ks start (copied, c) g1 n keys nil first there new same
        (us, eq1, all, only) =
      let updates : us ≡ c.updates =
        sym (eq1 ∙ ap (λ (vs : List (K × KeyLocation)). vs ++ us) nil) in
      let m = all (new_entry loc) new in
      let next = g.extent_map.next_extent_id in
      let moves : Moves dev e.location.tier e.location m.entry.location next g.key_map 0 (k ∷ ks)
          c.updates g.devices c.devices =
        rw (m.place, sym updates, sym first) m.moves in
      commit_copy-Outcome c.updates
        (record g1 { extent_map = others c.extent_map; devices = c.devices }) m.entry k ks n
        (still c.extent_map ∙ only id n ∙ there) same keys (still_new c.extent_map ∙ m.found) moves
  compact_copied-Outcome loc k ks start (io_error, c) g1 n keys nil first there new same only = (
    undo_lem g.extent_map.next_extent_id
        (record g1 { extent_map = c.extent_map; devices = c.devices }) n (only id n ∙ there),
    find-free_self (abort_migration (some (handle id e)) c.extent_map) g.extent_map.next_extent_id,
    same,
  )
  compact_copied-Outcome loc k ks start (no_slot, c) g1 n keys nil first there new same only = (
    undo_lem g.extent_map.next_extent_id
        (record g1 { extent_map = c.extent_map; devices = c.devices }) n (only id n ∙ there),
    find-free_self (abort_migration (some (handle id e)) c.extent_map) g.extent_map.next_extent_id,
    same,
  )

  compact_into-Outcome :
      (k : K) (ks : List K) (o : Option (ℕ × DiskLocation) × ExtentMap A) (s1 : ExtentMap A)
      → id < s1.next_extent_id
      → s1.next_extent_id ≡ g.extent_map.next_extent_id
      → keys_in_extent id g.key_map ≡ k ∷ ks
      → find s1 id ≡ some (locked e)
      → find s1 g.extent_map.next_extent_id ≡ none
      → Outcome s1 o
      → CompactOutcome dev id e g
          (compact_into ops dev others (handle id e) (k ∷ ks) o (record g { extent_map = s1 }))
  unfolding abort
  compact_into-Outcome k ks (none, s) s1 old nexts keys there unused same =
      let kept = ap (lookup id) same.entries ∙ there in
      let next = g.extent_map.next_extent_id in
      (
        abort-locked id g.extent_map e h a b s kept,
        abort-locked-others id g.extent_map e h a b s kept next (λ p. omega (arith, p, old, nexts))
            ∙ ap (lookup next) same.entries
            ∙ unused,
        refl,
      )
  compact_into-Outcome k ks (some (new_id, loc), s) s1 old nexts keys there unused added =
      let fresh : new_id ≡ g.extent_map.next_extent_id = added.fresh ∙ nexts in
      let n : g.extent_map.next_extent_id ≢ id = omega (arith, nexts) in
      let start : Copying A K D = record { updates = []; extent_map = s; devices = g.devices } in
      rw fresh (
        compact_copied-Outcome loc k ks start
          (copy_keys dev e.location.tier e.location loc g.extent_map.next_extent_id g.key_map
            (k ∷ ks) start)
          (record g { extent_map = s1 }) n keys refl refl
          (added.others id (λ p. n (sym fresh ∙ p)) ∙ there) (rw (sym fresh) added.found) refl
          (copy_keys-Outcome dev e.location.tier e.location loc g.extent_map.next_extent_id
            g.key_map (k ∷ ks) start))

  compact_keys-Outcome :
      (ks : List K) (s1 : ExtentMap A)
      → GivesExtent ops e.location.length s1
      → id < s1.next_extent_id
      → s1.next_extent_id + 1 < u64_mod
      → s1.next_extent_id ≡ g.extent_map.next_extent_id
      → keys_in_extent id g.key_map ≡ ks
      → find s1 id ≡ some (locked e)
      → find s1 g.extent_map.next_extent_id ≡ none
      → CompactOutcome dev id e g
          (compact_keys ops dev others (handle id e) ks (record g { extent_map = s1 }))
  unfolding batch_update
  compact_keys-Outcome [] s1 gives old room nexts keys there unused =
      (find-free_self s1 id, [], rw keys (refl, refl), refl)
  compact_keys-Outcome (j ∷ ks) s1 gives old room nexts keys there unused =
      compact_into-Outcome j ks (allocate_extent ops e.location.tier e.location.length s1) s1 old
        nexts keys there unused
        (allocate_extent-Outcome ops e.location.tier e.location.length s1 room gives)

-- A compaction of an active extent with a 64-bit word and a number below the next one, of which one more is
-- left and which no extent has, where what the allocators give for its length has room for a header and a 32-bit length, while
-- other threads leave alone that extent and the one under the next number: either the result is FAILED, the
-- extent is as before, none is under the next number and the key map is as before; or it is COMMITTED, the extent is gone, and the key map is
-- updated by a list that has each key of the extent, in its order, with its old length and an offset in the
-- extent under the next number: the first at 0, and each where the one before it ends (modulo 2^32). The
-- devices are what the writes make of them that, one key after another, put what is read at the old place of
-- the key behind the header of the new extent at this offset, on the device of the tier of the old extent.
pub compact_lem :
    {A K D B : Type 0} ⦃eq : Eq K⦄ (ops : AllocatorOps A) (dev : DeviceOps D B)
    (others : ExtentMap A → ExtentMap A) (id : ℕ) (e : ExtentEntry) (g : Engine A K D)
    → GivesExtent ops e.location.length g.extent_map
    → ((s : ExtentMap A) → find (others s) id ≡ find s id)
    → ((s : ExtentMap A)
        → find (others s) g.extent_map.next_extent_id ≡ find s g.extent_map.next_extent_id)
    → e.raw < 2 ^ 64
    → state e.raw ≡ active
    → find g.extent_map id ≡ some e
    → find g.extent_map g.extent_map.next_extent_id ≡ none
    → id < g.extent_map.next_extent_id
    → g.extent_map.next_extent_id + 1 < u64_mod
    → CompactOutcome dev id e g (compact ops dev others id g)
unfolding compact set_entry
compact_lem ops dev others id e g gives still still_new b a h unused old room =
    rw (begin_migration_lem id g.extent_map e h a b) (
      compact_keys-Outcome ops dev others id e g still still_new b a h (keys_in_extent id g.key_map)
        (begun id e g.extent_map) gives old room refl refl (find-begun id g.extent_map e h a b)
        (find-set_entry_ne g.extent_map id (locked e) g.extent_map.next_extent_id
            (λ p. omega (arith, p, old))
          ∙ unused))
