-- ===== src/Btier/ExtentMap/Placement/Reclaim.antt =====
-- btier/extent_map.cc, free and process_deferred_free: the bytes of an extent that is freed.
use cxxlab.Prelude.{
  ℕ, ◌+◌, ◌<◌, ◌≤◌, ◌≡◌, refl, ap, arith, true, List, [], ◌∷◌, ◌++◌, some, u64_mod,
}
use cxxlab.Btier.Types.{Tier, DiskLocation}
use cxxlab.Btier.ExtentMap.{ExtentEntry, ExtentMap, DeferredFreeEntry, at, find, add_deferred_free}
use cxxlab.Btier.ExtentMap.Space.{AllocatorOps, process_deferred_free, free}
use cxxlab.Btier.ExtentMap.Space.Deferred.{Past}
use cxxlab.Btier.ExtentMap.Placement.{
  bit, within, FreeSpace, held, deferred_locs, free_bit, Disjoint,
}
use cxxlab.Btier.ExtentMap.Placement.Sums.{held-snoc}
use cxxlab.Btier.ExtentMap.Placement.Freed.{location_at-same, process_deferred_free-Disjoint}
use cxxlab.Btier.ExtentMap.Placement.Moved.{free-Disjoint}
use cxxlab.Btier.ExtentMap.Placement.Rounds.{
  HasBoth, process_deferred_free-Past, process_deferred_free-all, process_deferred_free-Round,
}

Past-snoc :
    (q : ℕ) (d : DeferredFreeEntry) (ds : List DeferredFreeEntry)
    → d.added_at_seqno ≤ q
    → Past q ds
    → Past q (ds ++ d ∷ [])
Past-snoc q d [] le p = (le, tt)
Past-snoc q d (x ∷ ds) le p = (p.0, Past-snoc q d ds le p.1)

module _ {A : Type 0} (ops : AllocatorOps A) where
  free_lem :
      (id : ℕ) (s : ExtentMap A) (e : ExtentEntry)
      → find s id ≡ some e
      → ((free id s).deferred_free
          ≡ s.deferred_free ++ record { loc = e.location; added_at_seqno = s.seqno } ∷ [])
        × ((free id s).allocators ≡ s.allocators)
        × ((free id s).seqno ≡ s.seqno)
  unfolding free add_deferred_free
  free_lem id s e h = rw (free, h) (refl, refl, refl)

  module _ (space : FreeSpace ops) (sizes : Tier → ℕ) where
    -- Three rounds give back all that is deferred, and nothing else.
    drained :
        (s : ExtentMap A) (loose : List DiskLocation)
        → HasBoth s
        → Disjoint sizes ops space s loose
        → Past s.seqno s.deferred_free
        → s.seqno + 3 < u64_mod
        → (u : Tier) (n : ℕ)
        → free_bit ops space
            (at
              (process_deferred_free ops
                (process_deferred_free ops (process_deferred_free ops s))).allocators
              u)
            n
          ≡ held u n (deferred_locs s.deferred_free) + free_bit ops space (at s.allocators u) n
    unfolding held deferred_locs
    drained s loose h p past small u n =
        let s1 = process_deferred_free ops s in
        let s2 = process_deferred_free ops s1 in
        let s3 = process_deferred_free ops s2 in
        let p1 = process_deferred_free-Disjoint ops space sizes s loose p in
        let p2 = process_deferred_free-Disjoint ops space sizes s1 loose p1 in
        let r1 = process_deferred_free-Round ops space sizes s loose h (omega (arith, small)) p in
        let r2 =
          process_deferred_free-Round ops space sizes s1 loose r1.both
            (omega (arith, small, r1.seqno)) p1 in
        let r3 =
          process_deferred_free-Round ops space sizes s2 loose r2.both
            (omega (arith, small, r1.seqno, r2.seqno)) p2 in
        let past1 : Past s.seqno s1.deferred_free = process_deferred_free-Past ops s.seqno s past in
        let past2 : Past s.seqno s2.deferred_free =
          process_deferred_free-Past ops s.seqno s1 past1 in
        let none_left : s3.deferred_free ≡ [] =
          process_deferred_free-all ops s.seqno s2 (omega (arith, r1.seqno, r2.seqno))
            (omega (arith, r1.seqno, r2.seqno, small)) past2 in
        omega (
          arith,
          r1.conserved u n,
          r2.conserved u n,
          r3.conserved u n,
          ap (λ (ds : List DeferredFreeEntry). held u n (deferred_locs ds)) none_left,
        )

    -- For allocators with the laws of `FreeSpace`, one on each tier: where no byte of a device is in two of
    -- the locations of the extents, of the deferred frees and of the loose list, or in one of them and free,
    -- with the rest of `Disjoint`, no deferred free lies in a round to come, and the round number does not
    -- wrap in three rounds: behind free of an extent that is there and three calls of process_deferred_free,
    -- every byte of its location is free with the allocator of its tier.
    pub process_deferred_free-IsFree :
        (s : ExtentMap A) (loose : List DiskLocation) (id : ℕ) (e : ExtentEntry)
        → HasBoth s
        → Disjoint sizes ops space s loose
        → Past s.seqno s.deferred_free
        → s.seqno + 3 < u64_mod
        → find s id ≡ some e
        → (n : ℕ) → within e.location.offset e.location.length n ≡ true
        → free_bit ops space
            (at
              (process_deferred_free ops
                (process_deferred_free ops (process_deferred_free ops (free id s)))).allocators
              e.location.tier)
            n
          ≡ 1
    process_deferred_free-IsFree s loose id e h p past small has n inside =
        let s' = free id s in
        let (deferred, same, seqno) = free_lem id s e has in
        let p' = free-Disjoint sizes ops space s id loose p in
        let d : DeferredFreeEntry = record { loc = e.location; added_at_seqno = s.seqno } in
        let done =
          drained s' loose (rw same h) p'
            (rw (deferred, seqno) (Past-snoc s.seqno d s.deferred_free (omega arith) past))
            (omega (arith, small, seqno)) e.location.tier n in
        omega (
          arith,
          done,
          p'.apart e.location.tier n,
          location_at-same e.location.tier n e.location refl,
          ap bit inside,
          held-snoc e.location.tier n s.deferred_free d,
          ap (λ (ds : List DeferredFreeEntry). held e.location.tier n (deferred_locs ds)) deferred,
        )
