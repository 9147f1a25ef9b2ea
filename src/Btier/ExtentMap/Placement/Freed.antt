-- ===== src/Btier/ExtentMap/Placement/Freed.antt =====
-- btier/extent_map.cc, process_deferred_free: the places that go back to an allocator.
use cxxlab.Prelude.{
  ℕ, ◌+◌, ◌≤◌, ◌≡◌, refl, ap, arith, List, [], ◌∷◌, ◌++◌, Option, some, All, leb, Option-cases,
  Bool-cases, inl, inr, add64, sub64,
}
use cxxlab.Common.IntervalSet
use cxxlab.Btier.Types.{Tier, fast, slow, DiskLocation}
use cxxlab.Btier.ExtentMap.{ExtentMap, DeferredFreeEntry, PerTier, at, set_at}
use cxxlab.Btier.ExtentMap.Space.{AllocatorOps, release_loc, release_due, process_deferred_free}
use cxxlab.Btier.ExtentMap.Placement.{
  bit, within, FreeSpace, location_at, held, deferred_locs, free_bit, Fits, Disjoint,
}
use cxxlab.Btier.ExtentMap.Placement.Sums.{held-append, All-with, All-both}
use cxxlab.Btier.ExtentMap.Placement.Taken.{in_order-set_at}

pub location_at-same :
    (t : Tier) (n : ℕ) (l : DiskLocation)
    → l.tier ≡ t
    → location_at t n l ≡ bit (within l.offset l.length n)
location_at-same fast n l e = rw e refl
location_at-same slow n l e = rw e refl

module _ {A : Type 0} (ops : AllocatorOps A) (space : FreeSpace ops) where
  pub free_bit-given_back :
      (p : PerTier (Option A)) (t u : Tier) (a b : A) (l : DiskLocation) (n : ℕ)
      → l.tier ≡ t
      → at p t ≡ some a
      → bit (space.is_free b n) ≡ bit (within l.offset l.length n) + bit (space.is_free a n)
      → free_bit ops space (at (set_at p t (some b)) u) n
        ≡ location_at u n l + free_bit ops space (at p u) n
  free_bit-given_back p fast fast a b l n at_tier h e = rw (h, at_tier) e
  free_bit-given_back p fast slow a b l n at_tier h e = rw at_tier (omega arith)
  free_bit-given_back p slow fast a b l n at_tier h e = rw at_tier (omega arith)
  free_bit-given_back p slow slow a b l n at_tier h e = rw (h, at_tier) e

  module _ (sizes : Tier → ℕ) where
    -- Loose locations may be given up, or be listed in another order.
    pub loose-Disjoint :
        (s : ExtentMap A) (loose rest : List DiskLocation)
        → Disjoint sizes ops space s loose
        → All (Fits sizes) rest
        → ((t : Tier) (n : ℕ) → held t n rest ≤ held t n loose)
        → Disjoint sizes ops space s rest
    loose-Disjoint s loose rest p fit few = record {
      apart = λ t n. omega (arith, p.apart t n, few t n);
      entries_fit = p.entries_fit;
      deferred_fit = p.deferred_fit;
      loose_fit = fit;
      in_order = p.in_order;
      fresh = p.fresh;
    }

    pub release_loc-Disjoint :
        (l : DiskLocation) (s : ExtentMap A) (ds : List DeferredFreeEntry)
        (loose : List DiskLocation)
        → Disjoint sizes ops space (record s { deferred_free = ds }) (l ∷ loose)
        → Disjoint sizes ops space (record (release_loc ops l s) { deferred_free = ds }) loose
    unfolding release_loc held
    release_loc-Disjoint l s ds loose p = elim (Option-cases (at s.allocators l.tier)) [
      | inl e ↦
          rw (release_loc, e)
            (loose-Disjoint _ (l ∷ loose) loose p p.loose_fit.1 (λ t n. omega arith))
      | inr (a, e) ↦
          let b = ops.release (IntervalSet.insert l.offset l.length IntervalSet.empty) a in
          let law =
            space.release_law (sizes l.tier) l.offset l.length a (p.in_order l.tier a e)
              p.loose_fit.0.0 p.loose_fit.0.1
              (λ n. omega (
                arith,
                p.apart l.tier n,
                location_at-same l.tier n l refl,
                ap (λ (o : Option A). free_bit ops space o n) e,
              )) in
          rw (release_loc, e)
            (record {
              apart = λ u n. omega (
                arith,
                p.apart u n,
                free_bit-given_back s.allocators l.tier u a b l n refl e (law.1 n),
              );
              entries_fit = p.entries_fit;
              deferred_fit = p.deferred_fit;
              loose_fit = p.loose_fit.1;
              in_order = λ u c h.
                  in_order-set_at ops space sizes s.allocators l.tier u b c p.in_order law.0 h;
              fresh = p.fresh;
            })
    ]

    keep-Disjoint :
        (s : ExtentMap A) (d : DeferredFreeEntry) (ds : List DeferredFreeEntry)
        (loose : List DiskLocation)
        → Disjoint sizes ops space (record s { deferred_free = ds }) (d.loc ∷ loose)
        → Disjoint sizes ops space (record s { deferred_free = d ∷ ds }) loose
    unfolding held deferred_locs
    keep-Disjoint s d ds loose p = record {
      apart = λ t n. omega (arith, p.apart t n);
      entries_fit = p.entries_fit;
      deferred_fit = (p.loose_fit.0, p.deferred_fit);
      loose_fit = p.loose_fit.1;
      in_order = p.in_order;
      fresh = p.fresh;
    }

    pub later-Disjoint :
        (s : ExtentMap A) (l : DiskLocation) (front loose : List DiskLocation)
        → Disjoint sizes ops space s (l ∷ (front ++ loose))
        → Disjoint sizes ops space s (front ++ (l ∷ loose))
    unfolding held
    later-Disjoint s l front loose p =
        loose-Disjoint s (l ∷ (front ++ loose)) _ p
          (All-with (Fits sizes) front l loose p.loose_fit.0 p.loose_fit.1)
          (λ t n. omega (arith, held-append t n front (l ∷ loose), held-append t n front loose))

    -- The frees that the loop still has to look at are loose, and so are those that it keeps until it
    -- returns.
    release_due-Disjoint :
        (now : ℕ) (ds : List DeferredFreeEntry) (s : ExtentMap A) (loose : List DiskLocation)
        → Disjoint sizes ops space (record s { deferred_free = [] }) (deferred_locs ds ++ loose)
        → Disjoint sizes ops space
            (record (release_due ops now ds s).1 { deferred_free = (release_due ops now ds s).0 })
            loose
    unfolding release_due deferred_locs
    release_due-Disjoint now [] s loose p = p
    release_due-Disjoint now (d ∷ ds) s loose p =
        elim (Bool-cases (leb 2 (sub64 now d.added_at_seqno))) [
          | inl due ↦
              rw (release_due, due)
                (release_due-Disjoint now ds (release_loc ops d.loc s) loose
                  (release_loc-Disjoint d.loc s [] (deferred_locs ds ++ loose) p))
          | inr early ↦
              rw (release_due, early)
                (keep-Disjoint (release_due ops now ds s).1 d (release_due ops now ds s).0 loose (
                  release_due-Disjoint now ds s (d.loc ∷ loose) (
                    later-Disjoint (record s { deferred_free = [] }) d.loc (deferred_locs ds) loose
                      p)))
        ]

    -- The deferred frees, as the loop of a round starts, are loose.
    pub pending-Disjoint :
        (s : ExtentMap A) (loose : List DiskLocation)
        → Disjoint sizes ops space s loose
        → Disjoint sizes ops space
            (record s { seqno = add64 s.seqno 1; deferred_free = [] })
            (deferred_locs s.deferred_free ++ loose)
    unfolding held deferred_locs
    pending-Disjoint s loose p = record {
      apart =
          λ t n. omega (arith, p.apart t n, held-append t n (deferred_locs s.deferred_free) loose);
      entries_fit = p.entries_fit;
      deferred_fit = tt;
      loose_fit =
          All-both (Fits sizes) (deferred_locs s.deferred_free) loose p.deferred_fit p.loose_fit;
      in_order = p.in_order;
      fresh = p.fresh;
    }

    pub process_deferred_free-Disjoint :
        (s : ExtentMap A) (loose : List DiskLocation)
        → Disjoint sizes ops space s loose
        → Disjoint sizes ops space (process_deferred_free ops s) loose
    unfolding process_deferred_free
    process_deferred_free-Disjoint s loose p =
        release_due-Disjoint s.seqno s.deferred_free (record s { seqno = add64 s.seqno 1 }) loose
          (pending-Disjoint s loose p)
