-- ===== src/Btier/MigrationEngine/Migrate.antt =====
-- btier/migration_engine.cc, migrate_tier: what becomes of the extent, and of its bytes.
use cxxlab.Prelude.{
  ℕ, ◌+◌, ◌^◌, ◌<◌, ◌≡◌, ◌≢◌, refl, sym, ap, ◌∙◌, some, none, Option, Bool, true, false,
  Option-cases, inl, inr, lookup, nat_eq,
}
use cxxlab.Btier.Types.{Tier, fast, slow, DiskLocation, active, migrating}
use cxxlab.Btier.Metrics.{state, generation}
use cxxlab.Btier.ExtentMap.{ExtentMap, ExtentEntry, find, set_at, at, mark_dirty, add_deferred_free}
use cxxlab.Btier.ExtentMap.Find.{find-set_entry_self, find-set_entry_ne}
use cxxlab.Btier.ExtentMap.Slots.Counters.{SameCounters, SameCounters-trans}
use cxxlab.Btier.ExtentMap.Migration.{commit_migration, abort_migration, release_source, state_word}
use cxxlab.Btier.ExtentMap.Migration.Protocol.{
  handle, locked, begun, begin_migration_lem, find-begun, locked-generation, state_word_lem,
  locked-state, restored, commit_handle-fresh, abort_handle-migrating,
}
use cxxlab.Btier.ExtentMap.Space.{
  AllocatorOps, allocate_raw, allocate_on, raw_location, no_space, first_extent, aligned,
}
use cxxlab.Btier.MigrationEngine.{
  DeviceOps, Engine, MigrationResult, committed, failed, interrupted, migrate_tier, written, placed,
  fetched, abort,
}

module _ {A : Type 0} (ops : AllocatorOps A) where
  allocate_on-entries :
      (t : Tier) (fallback : ExtentMap A → Option DiskLocation × ExtentMap A) (size : ℕ)
      (s : ExtentMap A)
      → ((s' : ExtentMap A) → (fallback s').1.entries ≡ s'.entries)
      → (allocate_on ops t (raw_location t) fallback size s).1.entries ≡ s.entries
  unfolding allocate_on raw_location
  allocate_on-entries t fallback size s back = elim (Option-cases (at s.allocators t)) [
    | inl missing ↦ rw (missing, allocate_on) refl
    | inr (a, h) ↦
        let want = aligned s.block_size size in
        let r = ops.allocate want s.block_size want 0 a in
        let s1 = record s { allocators = set_at s.allocators t (some r.allocator) } in
        elim (Option-cases (first_extent r.got want r.extents)) [
          | inl none_found ↦ rw (h, none_found, allocate_on) (back s1)
          | inr (x, hx) ↦ rw (h, hx, allocate_on) refl
        ]
  ]

  -- allocate_raw leaves the extents as they are.
  pub allocate_raw-entries :
      (t : Tier) (size : ℕ) (s : ExtentMap A) → (allocate_raw ops t size s).1.entries ≡ s.entries
  unfolding allocate_raw no_space
  allocate_raw-entries slow size s = allocate_on-entries slow no_space size s (λ s'. refl)
  allocate_raw-entries fast size s =
      allocate_on-entries fast (allocate_on ops slow (raw_location slow) no_space size) size s
        (λ s'. allocate_on-entries slow no_space size s' (λ s''. refl))

-- What the engine relies on of a device: a write that succeeds can be read back, at its length.
abbrev pub ReadsBack : {D B : Type 0} → DeviceOps D B → Type 0
ReadsBack {D} {B} dev =
    (t t' : Tier) (off off' length : ℕ) (b : B) (d d1 d2 : D)
    → dev.read t off length d ≡ some b
    → dev.write t' off' b d1 ≡ (true, d2)
    → dev.read t' off' length d2 ≡ some b

-- An extent after a move that has been committed.
pub record Moved {A K D B : Type 0} (dev : DeviceOps D B) (id : ℕ) (to : Tier) (e : ExtentEntry)
    (g g' : Engine A K D) : Type 0 where
  pub entry : ExtentEntry
  pub found : find g'.extent_map id ≡ some entry
  pub unlocked : state entry.raw ≡ active
  pub counters : SameCounters e.raw entry.raw
  pub used : entry.used_bytes ≡ e.used_bytes
  pub live : entry.live_bytes ≡ e.live_bytes
  pub readable :
      dev.read to entry.location.offset e.location.length g'.devices
      ≡ dev.read e.location.tier e.location.offset e.location.length g.devices

abbrev pub MoveOutcome :
    {A K D B : Type 0}
    → DeviceOps D B
    → ℕ
    → Tier
    → ExtentEntry
    → Engine A K D
    → MigrationResult × Engine A K D
    → Type 0
MoveOutcome dev id to e g (committed, g') = Moved dev id to e g g'
MoveOutcome dev id to e g (failed, g') = find g'.extent_map id ≡ some e
MoveOutcome dev id to e g (interrupted, g') = ⊥

-- An abort gives a claimed extent back as it was.
pub abort-locked :
    {A : Type 0} (id : ℕ) (s0 : ExtentMap A) (e : ExtentEntry)
    → find s0 id ≡ some e
    → state e.raw ≡ active
    → e.raw < 2 ^ 64
    → (s : ExtentMap A) → find s id ≡ some (locked e)
    → find (abort_migration (some (handle id e)) s) id ≡ some e
unfolding abort_migration
abort-locked id s0 e h a b s k =
    rw (abort_handle-migrating (handle id e) s (locked e) k (locked-state id s0 e h a b))
      (rw (restored id s0 e h a b) (find-set_entry_self s id e))

-- It leaves the other extents alone.
pub abort-locked-others :
    {A : Type 0} (id : ℕ) (s0 : ExtentMap A) (e : ExtentEntry)
    → find s0 id ≡ some e
    → state e.raw ≡ active
    → e.raw < 2 ^ 64
    → (s : ExtentMap A) → find s id ≡ some (locked e)
    → (j : ℕ) → id ≢ j
    → find (abort_migration (some (handle id e)) s) j ≡ find s j
unfolding abort_migration
abort-locked-others id s0 e h a b s k j n =
    rw (abort_handle-migrating (handle id e) s (locked e) k (locked-state id s0 e h a b))
      (rw (restored id s0 e h a b) (find-set_entry_ne s id e j n))

module _ {A K D B : Type 0} (ops : AllocatorOps A) (dev : DeviceOps D B) (reads : ReadsBack dev)
    (others : ExtentMap A → ExtentMap A) (id : ℕ) (to : Tier) (e : ExtentEntry) (g : Engine A K D)
    (still : (s : ExtentMap A) → find (others s) id ≡ find s id) (b : e.raw < 2 ^ 64)
    (a : state e.raw ≡ active) (h : find g.extent_map id ≡ some e) where
  -- The entry that a commit leaves.
  committed_entry : DiskLocation → ExtentEntry
  committed_entry dst = record (locked e) {
    location = dst;
    raw = state_word active (generation e.raw + 1) (locked e).raw;
  }

  written-Outcome :
      (dst : DiskLocation) (content : B) (g1 : Engine A K D) (w : Bool × D)
      → dev.read e.location.tier e.location.offset e.location.length g.devices ≡ some content
      → dev.write to dst.offset content g.devices ≡ w
      → find g1.extent_map id ≡ some (locked e)
      → MoveOutcome dev id to e g (written ops dev others (handle id e) dst e.location.tier to w g1)
  unfolding commit_migration release_source add_deferred_free mark_dirty committed_entry
  written-Outcome dst content g1 (true, d) r w k =
      let s = others g1.extent_map in
      let there = still g1.extent_map ∙ k in
      let word = state_word_lem active (generation e.raw + 1) (locked e).raw in
      let before = state_word_lem migrating (generation e.raw) e.raw in
      rw
        (commit_handle-fresh (handle id e) s (locked e) there dst
          (locked-generation id g.extent_map e h a b))
        (record {
          entry = committed_entry dst;
          found = find-set_entry_self s id (committed_entry dst);
          unlocked = word.1;
          counters = SameCounters-trans before.0 word.0;
          used = refl;
          live = refl;
          readable =
              reads e.location.tier to e.location.offset dst.offset e.location.length content
                g.devices g.devices d r w
              ∙ sym r;
        })
  written-Outcome dst content g1 (false, d) r w k =
      abort-locked id g.extent_map e h a b g1.extent_map k

  placed-Outcome :
      (content : B) (o : Option DiskLocation) (s : ExtentMap A) (g1 : Engine A K D)
      → dev.read e.location.tier e.location.offset e.location.length g.devices ≡ some content
      → g1.devices ≡ g.devices
      → find s id ≡ some (locked e)
      → MoveOutcome dev id to e g
          (placed ops dev others (handle id e) content e.location.tier to (o, s) g1)
  unfolding abort
  placed-Outcome content none s g1 r same k = abort-locked id g.extent_map e h a b s k
  placed-Outcome content (some dst) s g1 r same k = rw same (
      written-Outcome dst content (record g1 { extent_map = s; devices = g.devices })
        (dev.write to dst.offset content g.devices) r refl k)

  fetched-Outcome :
      (o : Option B) (g1 : Engine A K D)
      → dev.read e.location.tier e.location.offset e.location.length g.devices ≡ o
      → g1.devices ≡ g.devices
      → find g1.extent_map id ≡ some (locked e)
      → MoveOutcome dev id to e g (fetched ops dev others (handle id e) e.location.tier to o g1)
  unfolding abort
  fetched-Outcome none g1 r same k = abort-locked id g.extent_map e h a b g1.extent_map k
  fetched-Outcome (some content) g1 r same k =
      let (o, s) = allocate_raw ops to e.location.length g1.extent_map in
      placed-Outcome content o s g1 r same
        (ap (lookup id) (allocate_raw-entries ops to e.location.length g1.extent_map) ∙ k)

-- An active extent with a 64-bit word is moved from the tier it is on, while other threads leave that
-- extent alone, on devices that read back what they wrote: either the result is FAILED, and the extent
-- is as before, or it is COMMITTED, the extent is active with the same counters and byte counts, and
-- the device of the tier that was asked for gives, at the offset of the new place, the bytes that the
-- old place had.
pub migrate_tier_lem :
    {A K D B : Type 0} (ops : AllocatorOps A) (dev : DeviceOps D B)
    (others : ExtentMap A → ExtentMap A) (id : ℕ) (to : Tier) (e : ExtentEntry) (g : Engine A K D)
    → ReadsBack dev
    → ((s : ExtentMap A) → find (others s) id ≡ find s id)
    → e.raw < 2 ^ 64
    → state e.raw ≡ active
    → find g.extent_map id ≡ some e
    → MoveOutcome dev id to e g (migrate_tier ops dev others id e.location.tier to g)
unfolding migrate_tier
migrate_tier_lem ops dev others id to e g reads still b a h =
    rw (begin_migration_lem id g.extent_map e h a b) (
      fetched-Outcome ops dev reads others id to e g still b a h
        (dev.read e.location.tier e.location.offset e.location.length g.devices)
        (record g { extent_map = begun id e g.extent_map }) refl refl
        (find-begun id g.extent_map e h a b))
