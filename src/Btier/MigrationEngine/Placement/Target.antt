-- ===== src/Btier/MigrationEngine/Placement/Target.antt =====
-- btier/migration_engine.cc, migrate_tier: what becomes of the place that it allocates.
use cxxlab.Prelude.{
  ℕ, ◌≡◌, refl, ap, sym, arith, Bool, true, false, List, [], ◌∷◌, ◌++◌, Option, none, some,
  Option-cases, Bool-cases, inl, inr, not, ◌==◌, Eq,
}
use mathlib.Core.Path.{subst}
use mathlib.Core.Option.{some-injective}
use cxxlab.Btier.Types.{Tier, DiskLocation, active}
use cxxlab.Btier.Metrics.{state, generation}
use cxxlab.Btier.ExtentMap.{
  ExtentMap, ExtentEntry, DeferredFreeEntry, find, set_entry, mark_dirty, add_deferred_free,
}
use cxxlab.Btier.ExtentMap.Find.{find-set_entry_self}
use cxxlab.Btier.ExtentMap.Slots.{get_location}
use cxxlab.Btier.ExtentMap.Migration.{
  MigrationHandle, begin_migration, commit_handle, commit_migration, abort_migration,
  release_source,
}
use cxxlab.Btier.ExtentMap.Space.{AllocatorOps, allocate_raw}
use cxxlab.Btier.ExtentMap.Placement.{FreeSpace, Disjoint}
use cxxlab.Btier.ExtentMap.Placement.Steps.{Reach, Reach-Disjoint}
use cxxlab.Btier.MigrationEngine.{
  DeviceOps, Engine, MigrationResult, committed, interrupted, failed, settle, written, placed,
  fetched, claimed, migrate_tier,
}
use cxxlab.Btier.MigrationEngine.Placement.{Fine, migrate_tier-Disjoint}

-- The last of the deferred frees.
abbrev pub Deferred : {A : Type 0} → DiskLocation → ExtentMap A → Type 0
Deferred l s =
    (ds : List DeferredFreeEntry) × (s.deferred_free
      ≡ ds ++ record { loc = l; added_at_seqno = s.seqno } ∷ [])

-- The extent has moved from its place to another, and the old place is deferred.
abbrev pub HasMoved : {A : Type 0} → ℕ → DiskLocation → ExtentMap A → ExtentMap A → Type 0
HasMoved id dst s s' =
    (get_location s' id ≡ some dst)
    × (l : DiskLocation) × (get_location s id ≡ some l)
    × Deferred l s'

-- What becomes of the place, by the result; `s` is the extent map as the commit finds it.
abbrev pub Settled :
    {A K D : Type 0} → ℕ → DiskLocation → ExtentMap A → MigrationResult × Engine A K D → Type 0
Settled id dst s (committed, g') = HasMoved id dst s g'.extent_map
Settled id dst s (failed, g') = Deferred dst g'.extent_map
Settled id dst s (interrupted, g') = Deferred dst g'.extent_map

abbrev location_of : Option ExtentEntry → Option DiskLocation
location_of none = none
location_of (some e) = some e.location

module _ {A : Type 0} where
  release_source-Deferred : (l : DiskLocation) (s : ExtentMap A) → Deferred l (release_source l s)
  unfolding release_source add_deferred_free
  release_source-Deferred l s = (s.deferred_free, refl)

  commit_migration-HasMoved :
      (h : MigrationHandle) (dst : DiskLocation) (s : ExtentMap A)
      → (commit_migration (some h) dst s).0 ≡ true
      → HasMoved h.extent_id dst s (commit_migration (some h) dst s).1
  unfolding commit_migration commit_handle mark_dirty add_deferred_free get_location set_entry
  commit_migration-HasMoved h dst s = elim (Option-cases (find s h.extent_id)) [
    | inl e ↦ rw (commit_handle, e) (λ done. absurd (ground (arith, done)))
    | inr (x, e) ↦
        rw (commit_handle, e)
          (elim (Bool-cases (not (generation x.raw == h.gen_before))) [
            | inl other ↦ rw other (λ done. absurd (ground (arith, done)))
            | inr same ↦ rw same (λ done. (
              ap location_of (find-set_entry_self s h.extent_id _),
              x.location,
              ap location_of e,
              (s.deferred_free, refl),
            ))
          ])
  ]

module _ {A K D : Type 0} where
  settle-Settled :
      (h : MigrationHandle) (dst : DiskLocation) (from to : Tier) (s : ExtentMap A)
      (r : Bool × ExtentMap A) (g : Engine A K D)
      → commit_migration (some h) dst s ≡ r
      → Settled h.extent_id dst s (settle h dst from to r g)
  settle-Settled h dst from to s (true, s') g e =
      subst (λ (x : ExtentMap A). HasMoved h.extent_id dst s x)
        (ap (λ (p : Bool × ExtentMap A). p.1) e)
        (commit_migration-HasMoved h dst s (ap (λ (p : Bool × ExtentMap A). p.0) e))
  settle-Settled h dst from to s (false, s') g e =
      release_source-Deferred dst (abort_migration (some h) s')

-- What allocate_raw gives for a claimed extent, once its bytes are read, with the extent map behind it.
abbrev pub allocated :
    {A K D B : Type 0}
    → AllocatorOps A
    → DeviceOps D B
    → (from to : Tier) → Option MigrationHandle × ExtentMap A
    → Engine A K D
    → Option (DiskLocation × ExtentMap A)
allocated ops dev from to (none, s) g = none
allocated ops dev from to (some h, s) g =
    elim (dev.read from h.src_loc.offset h.src_loc.length g.devices) [
      | none ↦ none
      | some content ↦
          let (o, s') = allocate_raw ops to h.src_loc.length s in
          elim o [ none ↦ none | some dst ↦ some (dst, s') ]
    ]

module _ {A K D B : Type 0} (ops : AllocatorOps A) (dev : DeviceOps D B)
    (others : ExtentMap A → ExtentMap A) where
  written-Settled :
      (h : MigrationHandle) (dst : DiskLocation) (from to : Tier) (w : Bool × D) (g : Engine A K D)
      → Settled h.extent_id dst (others g.extent_map) (written ops dev others h dst from to w g)
  written-Settled h dst from to (true, d) g =
      settle-Settled h dst from to (others g.extent_map)
        (commit_migration (some h) dst (others g.extent_map)) _ refl
  written-Settled h dst from to (false, d) g =
      release_source-Deferred dst (abort_migration (some h) g.extent_map)

  placed-Settled :
      (id : ℕ) (from to : Tier) (h : MigrationHandle) (content : B) (o : Option DiskLocation)
      (s' : ExtentMap A) (g : Engine A K D)
      → h.extent_id ≡ id
      → (dst : DiskLocation) (s : ExtentMap A)
      → (elim o as (λ x. Option (DiskLocation × ExtentMap A)) [
        | none ↦ none
        | some l ↦ some (l, s')
      ])
        ≡ some (dst, s)
      → Settled id dst (others s) (placed ops dev others h content from to (o, s') g)
  placed-Settled id from to h content none s' g same dst s e = absurd (ground (arith, e))
  placed-Settled id from to h content (some l) s' g same dst s e =
      let is = some-injective (l, s') (dst, s) e in
      subst
        (λ (p : DiskLocation × ExtentMap A).
          Settled id p.0 (others p.1) (placed ops dev others h content from to (some l, s') g))
        is
        (rw (sym same) (
          written-Settled h l from to (dev.write to l.offset content g.devices)
            (record g { extent_map = s' })))

  fetched-Settled :
      (id : ℕ) (from to : Tier) (h : MigrationHandle) (v : Option B) (s1 : ExtentMap A)
      (g : Engine A K D)
      → h.extent_id ≡ id
      → (dst : DiskLocation) (s : ExtentMap A)
      → (elim v as (λ x. Option (DiskLocation × ExtentMap A)) [
        | none ↦ none
        | some content ↦
            let (o, s') = allocate_raw ops to h.src_loc.length s1 in
            elim o [ none ↦ none | some l ↦ some (l, s') ]
      ])
        ≡ some (dst, s)
      → Settled id dst
          (others s)
          (fetched ops dev others h from to v (record g { extent_map = s1 }))
  fetched-Settled id from to h none s1 g same dst s e = absurd (ground (arith, e))
  fetched-Settled id from to h (some content) s1 g same dst s e =
      let (o, s') = allocate_raw ops to h.src_loc.length s1 in
      placed-Settled id from to h content o s' (record g { extent_map = s1 }) same dst s e

  claimed-Settled :
      (id : ℕ) (from to : Tier) (r : Option MigrationHandle × ExtentMap A) (g : Engine A K D)
      → ((h : MigrationHandle) → r.0 ≡ some h → h.extent_id ≡ id)
      → (dst : DiskLocation) (s : ExtentMap A) → allocated ops dev from to r g ≡ some (dst, s)
      → Settled id dst (others s) (claimed ops dev others from to r g)
  claimed-Settled id from to (none, s1) g same dst s e = absurd (ground (arith, e))
  claimed-Settled id from to (some h, s1) g same dst s e =
      fetched-Settled id from to h (dev.read from h.src_loc.offset h.src_loc.length g.devices) s1 g
        (same h refl) dst s e

begin_migration-extent_id :
    {A : Type 0} (id : ℕ) (s : ExtentMap A) (h : MigrationHandle)
    → (begin_migration id s).0 ≡ some h
    → h.extent_id ≡ id
unfolding begin_migration
begin_migration-extent_id id s h = elim (Option-cases (find s id)) [
  | inl e ↦ rw (begin_migration, e) (λ is. absurd (ground (arith, is)))
  | inr (x, e) ↦
      rw (begin_migration, e)
        (elim (Bool-cases (not (state x.raw == active))) [
          | inl other ↦ rw other (λ is. absurd (ground (arith, is)))
          | inr same ↦
              rw same
                (λ is. ap (λ (m : MigrationHandle). m.extent_id) (sym (some-injective _ h is)))
        ])
]

-- For allocators with the laws of `FreeSpace`: where no byte of a device is in two of the locations of the
-- extents, of the deferred frees and of those that others hold, or in one of them and free, with the rest of
-- `Disjoint`, where what other threads do is calls of the extent map that leave what others hold, and the
-- extent, if it is there, has a length that the allocators take: migrate_tier leaves it so, with the same
-- locations held by others. A place that it gets from allocate_raw is not lost: behind COMMITTED it is the
-- location of the extent, and the location that the commit found there is the last deferred free; behind
-- FAILED and INTERRUPTED the place itself is the last deferred free.
pub migrate_tier-Settled :
    {A K D B : Type 0} ⦃eq : Eq K⦄ (sizes : Tier → ℕ) (ops : AllocatorOps A) (space : FreeSpace ops)
    (loose : List DiskLocation) (dev : DeviceOps D B) (others : ExtentMap A → ExtentMap A) (id : ℕ)
    (from to : Tier) (g : Engine A K D)
    → ((s : ExtentMap A) (l : List DiskLocation) → Reach sizes ops space s l (others s) l)
    → Fine ops space g.extent_map id
    → Disjoint sizes ops space g.extent_map loose
    → Disjoint sizes ops space (migrate_tier ops dev others id from to g).1.extent_map loose
      × ((dst : DiskLocation) (s : ExtentMap A)
          → allocated ops dev from to (begin_migration id g.extent_map) g ≡ some (dst, s)
          → Settled id dst (others s) (migrate_tier ops dev others id from to g))
unfolding migrate_tier
migrate_tier-Settled sizes ops space loose dev others id from to g calls fine p = (
  migrate_tier-Disjoint sizes ops space loose dev others
      (λ s l q. Reach-Disjoint sizes ops space q (calls s l)) id from to g fine p,
  λ dst s e.
      claimed-Settled ops dev others id from to (begin_migration id g.extent_map) g
        (begin_migration-extent_id id g.extent_map) dst s e,
)
