-- ===== src/Btier/ExtentMap/Placement/Moved.antt =====
-- btier/extent_map.cc, the operations that move a location between an entry, the deferred frees and its
-- holder outside the map: free, the migrations and release_source.
use mathlib.Core.Path.{subst}
use cxxlab.Prelude.{
  ℕ, ◌<◌, ◌≡◌, refl, sym, ap, arith, Bool, List, ◌∷◌, ◌++◌, Option, none, some, ◌==◌, not,
  if◌then◌else◌, if-cases, Bool-cases, Option-cases, inl, inr, lookup, put, erase, nat_eq,
  lookup-put, lookup-erase, ==→eq,
}
use cxxlab.Btier.Types.{Tier, DiskLocation, active, migrating}
use cxxlab.Btier.FreeList.{FreeEntry}
use cxxlab.Btier.Metrics.{state, generation}
use cxxlab.Btier.ExtentMap.{
  ExtentEntry, ExtentMap, DeferredFreeEntry, PerTier, find, set_entry, mark_dirty,
  add_deferred_free,
}
use cxxlab.Btier.ExtentMap.Space.{AllocatorOps, free}
use cxxlab.Btier.ExtentMap.Migration.{
  MigrationHandle, begin_migration, commit_handle, commit_migration, abort_handle, abort_migration,
  release_source,
}
use cxxlab.Btier.ExtentMap.Placement.{FreeSpace, location_at, held, Fits, Disjoint}
use cxxlab.Btier.ExtentMap.Placement.Sums.{
  held-append, held-snoc, held-put, held-erase, All-put, All-erase, All-lookup, All-snoc,
  All-without,
}

module _ (sizes : Tier → ℕ) {A : Type 0} (ops : AllocatorOps A) (space : FreeSpace ops) where
  module _ (s : ExtentMap A) (id : ℕ) (x : ExtentEntry) (has : find s id ≡ some x) where
    fresh-exchange :
        (e : ExtentEntry)
        → ((j : ℕ) (y : ExtentEntry) → find s j ≡ some y → j < s.next_extent_id)
        → (j : ℕ) (y : ExtentEntry) → lookup j (put id e s.entries) ≡ some y
        → j < s.next_extent_id
    fresh-exchange e h j y is = elim (Bool-cases (id == j)) [
      | inl same ↦ omega (arith, h id x has, ==→eq id j same)
      | inr other ↦ h j y (ground (arith, other, is, lookup-put id j e s.entries))
    ]

    -- The entry is exchanged for one at the same place.
    pub set_entry-Disjoint :
        (e : ExtentEntry) (loose : List DiskLocation)
        → e.location ≡ x.location
        → Disjoint sizes ops space s loose
        → Disjoint sizes ops space (set_entry s id e) loose
    unfolding set_entry
    set_entry-Disjoint e loose same p = record {
      apart = λ t n.
          omega (arith, p.apart t n, held-put t n id e x s.entries has, ap (location_at t n) same);
      entries_fit =
          All-put (Fits sizes) id e s.entries
            (subst (Fits sizes) (sym same)
              (All-lookup (Fits sizes) id x s.entries has p.entries_fit))
            p.entries_fit;
      deferred_fit = p.deferred_fit;
      loose_fit = p.loose_fit;
      in_order = p.in_order;
      fresh = fresh-exchange e p.fresh;
    }

    -- The entry goes to a loose location, and its old one is to be freed.
    moved-Disjoint :
        (e : ExtentEntry) (front rest : List DiskLocation)
        → Disjoint sizes ops space s (front ++ (e.location ∷ rest))
        → Disjoint sizes ops space
            (mark_dirty id (add_deferred_free x.location (set_entry s id e)))
            (front ++ rest)
    unfolding set_entry mark_dirty add_deferred_free held
    moved-Disjoint e front rest p =
        let d : DeferredFreeEntry = record { loc = x.location; added_at_seqno = s.seqno } in
        let (fit, target) = All-without (Fits sizes) front e.location rest p.loose_fit in
        record {
          apart = λ t n. omega (
            arith,
            p.apart t n,
            held-put t n id e x s.entries has,
            held-snoc t n s.deferred_free d,
            held-append t n front (e.location ∷ rest),
            held-append t n front rest,
          );
          entries_fit = All-put (Fits sizes) id e s.entries target p.entries_fit;
          deferred_fit =
              All-snoc (Fits sizes) s.deferred_free d
                (All-lookup (Fits sizes) id x s.entries has p.entries_fit) p.deferred_fit;
          loose_fit = fit;
          in_order = p.in_order;
          fresh = fresh-exchange e p.fresh;
        }

    erased-Disjoint :
        (f : PerTier (List FreeEntry)) (loose : List DiskLocation)
        → Disjoint sizes ops space s loose
        → Disjoint sizes ops space
            (add_deferred_free x.location
              (record s { entries = erase id s.entries; free_lists = f }))
            loose
    unfolding add_deferred_free
    erased-Disjoint f loose p =
        let d : DeferredFreeEntry = record { loc = x.location; added_at_seqno = s.seqno } in
        record {
          apart = λ t n. omega (
            arith,
            p.apart t n,
            held-erase t n id x s.entries has,
            held-snoc t n s.deferred_free d,
          );
          entries_fit = All-erase (Fits sizes) id s.entries p.entries_fit;
          deferred_fit =
              All-snoc (Fits sizes) s.deferred_free d
                (All-lookup (Fits sizes) id x s.entries has p.entries_fit) p.deferred_fit;
          loose_fit = p.loose_fit;
          in_order = p.in_order;
          fresh = λ j y is. p.fresh j y (ground (arith, is, lookup-erase id j s.entries));
        }

  module _ (s : ExtentMap A) where
    pub free-Disjoint :
        (id : ℕ) (loose : List DiskLocation)
        → Disjoint sizes ops space s loose
        → Disjoint sizes ops space (free id s) loose
    unfolding free
    free-Disjoint id loose p = elim (Option-cases (find s id)) [
      | inl e ↦ rw (free, e) p
      | inr (x, e) ↦ rw (free, e) (erased-Disjoint s id x e _ loose p)
    ]

    pub release_source-Disjoint :
        (l : DiskLocation) (front rest : List DiskLocation)
        → Disjoint sizes ops space s (front ++ (l ∷ rest))
        → Disjoint sizes ops space (release_source l s) (front ++ rest)
    unfolding release_source add_deferred_free held
    release_source-Disjoint l front rest p =
        let d : DeferredFreeEntry = record { loc = l; added_at_seqno = s.seqno } in
        let (fit, target) = All-without (Fits sizes) front l rest p.loose_fit in
        record {
          apart = λ t n. omega (
            arith,
            p.apart t n,
            held-snoc t n s.deferred_free d,
            held-append t n front (l ∷ rest),
            held-append t n front rest,
          );
          entries_fit = p.entries_fit;
          deferred_fit = All-snoc (Fits sizes) s.deferred_free d target p.deferred_fit;
          loose_fit = fit;
          in_order = p.in_order;
          fresh = p.fresh;
        }

    -- What stays outside the map: the target, where the commit fails.
    commit_handle-Disjoint :
        (h : MigrationHandle) (l : DiskLocation) (front rest : List DiskLocation)
        → Disjoint sizes ops space s (front ++ (l ∷ rest))
        → Disjoint sizes ops space
            (commit_handle h l s).1
            (if (commit_handle h l s).0 then front ++ rest else front ++ (l ∷ rest))
    unfolding commit_handle
    commit_handle-Disjoint h l front rest p = elim (Option-cases (find s h.extent_id)) [
      | inl e ↦ rw (commit_handle, e) p
      | inr (x, e) ↦
          rw (commit_handle, e)
            (if-cases
              (λ (r : Bool × ExtentMap A).
                Disjoint sizes ops space r.1 (if r.0 then front ++ rest else front ++ (l ∷ rest)))
              (not (generation x.raw == h.gen_before)) (λ other. p)
              (λ same. moved-Disjoint s h.extent_id x e _ front rest p))
    ]

    pub commit_migration-Disjoint :
        (h : Option MigrationHandle) (l : DiskLocation) (front rest : List DiskLocation)
        → Disjoint sizes ops space s (front ++ (l ∷ rest))
        → Disjoint sizes ops space
            (commit_migration h l s).1
            (if (commit_migration h l s).0 then front ++ rest else front ++ (l ∷ rest))
    unfolding commit_migration
    commit_migration-Disjoint none l front rest p = p
    commit_migration-Disjoint (some h) l front rest p = commit_handle-Disjoint h l front rest p

    pub begin_migration-Disjoint :
        (id : ℕ) (loose : List DiskLocation)
        → Disjoint sizes ops space s loose
        → Disjoint sizes ops space (begin_migration id s).1 loose
    unfolding begin_migration
    begin_migration-Disjoint id loose p = elim (Option-cases (find s id)) [
      | inl e ↦ rw (begin_migration, e) p
      | inr (x, e) ↦
          rw (begin_migration, e)
            (if-cases
              (λ (r : Option MigrationHandle × ExtentMap A). Disjoint sizes ops space r.1 loose)
              (not (state x.raw == active)) (λ other. p)
              (λ same. set_entry-Disjoint s id x e _ loose refl p))
    ]

    abort_handle-Disjoint :
        (h : MigrationHandle) (loose : List DiskLocation)
        → Disjoint sizes ops space s loose
        → Disjoint sizes ops space (abort_handle h s) loose
    unfolding abort_handle
    abort_handle-Disjoint h loose p = elim (Option-cases (find s h.extent_id)) [
      | inl e ↦ rw (abort_handle, e) p
      | inr (x, e) ↦
          rw (abort_handle, e)
            (if-cases (λ (r : ExtentMap A). Disjoint sizes ops space r loose)
              (not (state x.raw == migrating)) (λ other. p)
              (λ same. set_entry-Disjoint s h.extent_id x e _ loose refl p))
    ]

    pub abort_migration-Disjoint :
        (h : Option MigrationHandle) (loose : List DiskLocation)
        → Disjoint sizes ops space s loose
        → Disjoint sizes ops space (abort_migration h s) loose
    unfolding abort_migration
    abort_migration-Disjoint none loose p = p
    abort_migration-Disjoint (some h) loose p = abort_handle-Disjoint h loose p
