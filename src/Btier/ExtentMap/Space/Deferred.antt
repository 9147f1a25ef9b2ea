-- ===== src/Btier/ExtentMap/Space/Deferred.antt =====
-- The grace period of the deferred frees of btier/extent_map.cc.
use cxxlab.Prelude.{
  ℕ, ◌+◌, ◌<◌, ◌≤◌, ◌≡◌, refl, arith, Bool, List, [], ◌∷◌, if◌then◌else◌, leb, sub64, sub64-eq,
  add64-eq, u64_mod, All, Bool-cases, inl, inr, not,
}
use cxxlab.Btier.ExtentMap.{ExtentMap, DeferredFreeEntry}
use cxxlab.Btier.ExtentMap.Space.{AllocatorOps, release_loc, release_due, process_deferred_free}

-- What a round keeps and what it releases, by the rounds that an entry has waited.
abbrev pub waited : ℕ → DeferredFreeEntry → Bool
waited now d = leb (d.added_at_seqno + 2) now

abbrev pub select : (DeferredFreeEntry → Bool) → List DeferredFreeEntry → List DeferredFreeEntry
select p [] = []
select p (d ∷ ds) = let rest = select p ds in if p d then d ∷ rest else rest

abbrev pub young : ℕ → DeferredFreeEntry → Bool
young now d = not (waited now d)

-- The locations released, one after another.
pub release_all : {A : Type 0} → AllocatorOps A → List DeferredFreeEntry → ExtentMap A → ExtentMap A
release_all ops [] s = s
release_all ops (d ∷ ds) s = release_all ops ds (release_loc ops d.loc s)

-- No entry was added in a round to come.
abbrev pub Past : ℕ → List DeferredFreeEntry → Type 0
Past now = All λ d. d.added_at_seqno ≤ now

due-eq :
    (now : ℕ) (d : DeferredFreeEntry)
    → now < u64_mod
    → d.added_at_seqno ≤ now
    → leb 2 (sub64 now d.added_at_seqno) ≡ waited now d
due-eq now d h k = rw (sub64-eq now d.added_at_seqno k h) (ground arith)

release_due_lem :
    {A : Type 0} (ops : AllocatorOps A) (now : ℕ) (ds : List DeferredFreeEntry) (s : ExtentMap A)
    → now < u64_mod
    → Past now ds
    → release_due ops now ds s ≡ (select (young now) ds, release_all ops (select (waited now) ds) s)
unfolding release_due release_all
release_due_lem ops now [] s h p = refl
release_due_lem ops now (d ∷ ds) s h p = rw (due-eq now d h p.0) (elim (Bool-cases (waited now d)) [
  | inl due ↦ rw due (ground (arith, release_due_lem ops now ds (release_loc ops d.loc s) h p.1))
  | inr not_due ↦ rw not_due (ground (arith, release_due_lem ops now ds s h p.1))
])

-- A round releases, in order, exactly the locations that were deferred at least two rounds ago, and
-- keeps exactly the others; the round number then grows by one.
pub process_deferred_free_lem :
    {A : Type 0} (ops : AllocatorOps A) (s : ExtentMap A)
    → s.seqno + 1 < u64_mod
    → Past s.seqno s.deferred_free
    → process_deferred_free ops s
      ≡ record (release_all ops
          (select (waited s.seqno) s.deferred_free)
          (record s { seqno = s.seqno + 1 })) {
            deferred_free = select (young s.seqno) s.deferred_free;
          }
unfolding process_deferred_free
process_deferred_free_lem ops s h p = rw (
  add64-eq s.seqno 1 h,
  release_due_lem ops s.seqno s.deferred_free (record s { seqno = s.seqno + 1 }) (omega arith) p,
)
