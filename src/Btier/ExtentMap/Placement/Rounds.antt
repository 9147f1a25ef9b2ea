-- ===== src/Btier/ExtentMap/Placement/Rounds.antt =====
-- btier/extent_map.cc, process_deferred_free: what a round gives back to the allocators, and what it keeps.
use cxxlab.Prelude.{
  ℕ, ◌+◌, ◌<◌, ◌≤◌, ◌≡◌, refl, ap, arith, true, List, [], ◌∷◌, ◌++◌, Option, some, leb,
  Option-cases, Bool-cases, inl, inr, add64, sub64, sub64-eq, add64-eq, u64_mod,
}
use cxxlab.Common.IntervalSet
use cxxlab.Btier.Types.{Tier, fast, slow, DiskLocation}
use cxxlab.Btier.ExtentMap.{ExtentMap, DeferredFreeEntry, PerTier, at, set_at}
use cxxlab.Btier.ExtentMap.Space.{AllocatorOps, release_loc, release_due, process_deferred_free}
use cxxlab.Btier.ExtentMap.Space.Deferred.{Past}
use cxxlab.Btier.ExtentMap.Placement.{
  FreeSpace, location_at, held, deferred_locs, free_bit, Disjoint,
}
use cxxlab.Btier.ExtentMap.Placement.Freed.{
  free_bit-given_back, location_at-same, release_loc-Disjoint, later-Disjoint, pending-Disjoint,
}

-- Every tier has an allocator.
abbrev pub HasBoth : {A : Type 0} → ExtentMap A → Type 0
HasBoth {A} s = (t : Tier) → (a : A) × (at s.allocators t ≡ some a)

set_at-HasBoth :
    {A : Type 0} (p : PerTier (Option A)) (t u : Tier) (b : A)
    → ((v : Tier) → (a : A) × (at p v ≡ some a))
    → (a : A) × (at (set_at p t (some b)) u ≡ some a)
set_at-HasBoth p fast fast b h = (b, refl)
set_at-HasBoth p fast slow b h = h slow
set_at-HasBoth p slow fast b h = h fast
set_at-HasBoth p slow slow b h = (b, refl)

module _ {A : Type 0} (ops : AllocatorOps A) where
  release_loc-HasBoth :
      (l : DiskLocation) (s : ExtentMap A) → HasBoth s → HasBoth (release_loc ops l s)
  unfolding release_loc
  release_loc-HasBoth l s h u =
      let (a, e) = h l.tier in rw (release_loc, e) (set_at-HasBoth s.allocators l.tier u _ h)

  release_loc-seqno : (l : DiskLocation) (s : ExtentMap A) → (release_loc ops l s).seqno ≡ s.seqno
  unfolding release_loc
  release_loc-seqno l s = elim (Option-cases (at s.allocators l.tier)) [
    | inl e ↦ rw (release_loc, e) refl
    | inr (a, e) ↦ rw (release_loc, e) refl
  ]

  module _ (space : FreeSpace ops) (sizes : Tier → ℕ) where
    release_loc-frees :
        (l : DiskLocation) (s : ExtentMap A) (loose : List DiskLocation)
        → HasBoth s
        → Disjoint sizes ops space (record s { deferred_free = [] }) (l ∷ loose)
        → (u : Tier) (n : ℕ)
        → free_bit ops space (at (release_loc ops l s).allocators u) n
          ≡ location_at u n l + free_bit ops space (at s.allocators u) n
    unfolding release_loc held
    release_loc-frees l s loose h p u n =
        let (a, e) = h l.tier in
        let law =
          space.release_law (sizes l.tier) l.offset l.length a (p.in_order l.tier a e)
            p.loose_fit.0.0 p.loose_fit.0.1
            (λ i. omega (
              arith,
              p.apart l.tier i,
              location_at-same l.tier i l refl,
              ap (λ (o : Option A). free_bit ops space o i) e,
            )) in
        rw (release_loc, e)
          (free_bit-given_back ops space s.allocators l.tier u a
            (ops.release (IntervalSet.insert l.offset l.length IntervalSet.empty) a) l n refl e
            (law.1 n))

    -- A round loses no byte.
    release_due-conserves :
        (now : ℕ) (ds : List DeferredFreeEntry) (s : ExtentMap A) (loose : List DiskLocation)
        → HasBoth s
        → Disjoint sizes ops space (record s { deferred_free = [] }) (deferred_locs ds ++ loose)
        → HasBoth (release_due ops now ds s).1
          × ((release_due ops now ds s).1.seqno ≡ s.seqno)
          × ((u : Tier) (n : ℕ)
              → held u n (deferred_locs (release_due ops now ds s).0)
                  + free_bit ops space (at (release_due ops now ds s).1.allocators u) n
                ≡ held u n (deferred_locs ds) + free_bit ops space (at s.allocators u) n)
    unfolding release_due deferred_locs held
    release_due-conserves now [] s loose h p = (h, refl, λ u n. refl)
    release_due-conserves now (d ∷ ds) s loose h p =
        elim (Bool-cases (leb 2 (sub64 now d.added_at_seqno))) [
          | inl due ↦
              let rest =
                release_due-conserves now ds (release_loc ops d.loc s) loose
                  (release_loc-HasBoth d.loc s h)
                  (release_loc-Disjoint ops space sizes d.loc s [] (deferred_locs ds ++ loose) p) in
              rw (release_due, due)
                (
                  rest.0,
                  omega (arith, rest.1, release_loc-seqno d.loc s),
                  (λ u n. omega (
                    arith,
                    rest.2 u n,
                    release_loc-frees d.loc s (deferred_locs ds ++ loose) h p u n,
                  )),
                )
          | inr early ↦
              let rest = release_due-conserves now ds s (d.loc ∷ loose) h (
                later-Disjoint ops space sizes (record s { deferred_free = [] }) d.loc
                  (deferred_locs ds) loose p) in
              rw (release_due, early) (rest.0, rest.1, (λ u n. omega (arith, rest.2 u n)))
        ]

  -- What a round keeps was there before, and nothing that has waited for two rounds is kept.
  release_due-Past :
      (q now : ℕ) (ds : List DeferredFreeEntry) (s : ExtentMap A)
      → Past q ds
      → Past q (release_due ops now ds s).0
  unfolding release_due
  release_due-Past q now [] s p = tt
  release_due-Past q now (d ∷ ds) s p = elim (Bool-cases (leb 2 (sub64 now d.added_at_seqno))) [
    | inl due ↦ rw (release_due, due) (release_due-Past q now ds (release_loc ops d.loc s) p.1)
    | inr early ↦ rw (release_due, early) (p.0, release_due-Past q now ds s p.1)
  ]

  release_due-all :
      (q now : ℕ) (ds : List DeferredFreeEntry) (s : ExtentMap A)
      → q + 2 ≤ now
      → now < u64_mod
      → Past q ds
      → (release_due ops now ds s).0 ≡ []
  unfolding release_due
  release_due-all q now [] s late small p = refl
  release_due-all q now (d ∷ ds) s late small p =
      let due : leb 2 (sub64 now d.added_at_seqno) ≡ true =
        ground (arith, sub64-eq now d.added_at_seqno (omega (arith, late, p.0)) small, late, p.0) in
      rw (release_due, due) (release_due-all q now ds (release_loc ops d.loc s) late small p.1)

  pub process_deferred_free-Past :
      (q : ℕ) (s : ExtentMap A)
      → Past q s.deferred_free
      → Past q (process_deferred_free ops s).deferred_free
  unfolding process_deferred_free
  process_deferred_free-Past q s p =
      release_due-Past q s.seqno s.deferred_free (record s { seqno = add64 s.seqno 1 }) p

  pub process_deferred_free-all :
      (q : ℕ) (s : ExtentMap A)
      → q + 2 ≤ s.seqno
      → s.seqno < u64_mod
      → Past q s.deferred_free
      → (process_deferred_free ops s).deferred_free ≡ []
  unfolding process_deferred_free
  process_deferred_free-all q s late small p =
      release_due-all q s.seqno s.deferred_free (record s { seqno = add64 s.seqno 1 }) late small p

  module _ (space : FreeSpace ops) (sizes : Tier → ℕ) where
    -- A round keeps the allocators, counts, and gives back what it no longer defers.
    pub record Round (s s' : ExtentMap A) : Type 0 where
      pub both : HasBoth s'
      pub seqno : s'.seqno ≡ s.seqno + 1
      pub conserved :
          (u : Tier) (n : ℕ)
          → held u n (deferred_locs s'.deferred_free) + free_bit ops space (at s'.allocators u) n
            ≡ held u n (deferred_locs s.deferred_free) + free_bit ops space (at s.allocators u) n

    pub process_deferred_free-Round :
        (s : ExtentMap A) (loose : List DiskLocation)
        → HasBoth s
        → s.seqno + 1 < u64_mod
        → Disjoint sizes ops space s loose
        → Round s (process_deferred_free ops s)
    unfolding process_deferred_free
    process_deferred_free-Round s loose h small p =
        let r =
          release_due-conserves space sizes s.seqno s.deferred_free
            (record s { seqno = add64 s.seqno 1 }) loose h
            (pending-Disjoint ops space sizes s loose p) in
        record { both = r.0; seqno = omega (arith, r.1, add64-eq s.seqno 1 small); conserved = r.2 }
