-- ===== src/Btier/ExtentMap/Migration/Commit.antt =====
-- commit_migration of btier/extent_map.cc: what a successful commit changes, and what it forgets.
use cxxlab.Prelude.{
  ℕ, ◌+◌, ◌%◌, ◌^◌, ◌<◌, ◌≡◌, ◌≢◌, refl, ap, ◌∙◌, arith, some, none, Option, Bool, true, false,
  List, [], ◌∷◌, ◌++◌, nat_eq, ◌==◌, inl, inr, Bool-cases, ==→eq,
}
use cxxlab.Btier.Types.{active, migrating, DiskLocation, Tier}
use cxxlab.Btier.Metrics.{state, generation}
use cxxlab.Btier.Metrics.Fields.{generation-lt}
use cxxlab.Btier.FreeList
use cxxlab.Btier.FreeList.{FreeEntry, free_entry}
use cxxlab.Btier.ExtentMap.{
  ExtentMap, ExtentEntry, find, set_entry, mark_dirty, add_deferred_free, at, PerTier,
}
use cxxlab.Btier.ExtentMap.Find.{find-set_entry_self, find-set_entry_ne}
use cxxlab.Btier.ExtentMap.Slots.{first_active, find_extent_with_space, get_location}
use cxxlab.Btier.ExtentMap.Slots.Counters.{SameCounters, SameCounters-trans}
use cxxlab.Btier.ExtentMap.Migration.{state_word, begin_migration, commit_migration}
use cxxlab.Btier.ExtentMap.Migration.Protocol.{
  handle, locked, begun, begin_migration_lem, find-begun, locked-generation, state_word_lem,
  commit_handle-fresh, commit_handle-stale, next_generation,
}

pub record Committed {A : Type 0} (id : ℕ) (new_loc : DiskLocation) (s s' : ExtentMap A)
    (e e' : ExtentEntry) : Type 0 where
  pub found : find s' id ≡ some e'
  pub moved : e'.location ≡ new_loc
  pub unlocked : state e'.raw ≡ active
  pub next : generation e'.raw ≡ (generation e.raw + 1) % 2 ^ 32
  pub counters : SameCounters e.raw e'.raw
  pub used : e'.used_bytes ≡ e.used_bytes
  pub live : e'.live_bytes ≡ e.live_bytes
  pub freed :
      s'.deferred_free
      ≡ s.deferred_free ++ record { loc = e.location; added_at_seqno = s.seqno } ∷ []
  pub others : (j : ℕ) → id ≢ j → find s' j ≡ find s j

module _ {A : Type 0} (id : ℕ) (s : ExtentMap A) (e : ExtentEntry) (h : find s id ≡ some e)
    (a : state e.raw ≡ active) (b : e.raw < 2 ^ 64) (new_loc : DiskLocation) where
  committed : ExtentEntry
  committed = record (locked e) {
    location = new_loc;
    raw = state_word active (generation e.raw + 1) (locked e).raw;
  }

  commit-eq :
      let (m, s') = begin_migration id s in
      commit_migration m new_loc s'
      ≡ (true, mark_dirty id (add_deferred_free e.location (set_entry (begun id e s) id committed)))
  unfolding commit_migration committed
  commit-eq = rw (begin_migration_lem id s e h a b) (
      commit_handle-fresh (handle id e) (begun id e s) (locked e) (find-begun id s e h a b) new_loc
        (locked-generation id s e h a b))

  committed_word :
      SameCounters e.raw committed.raw
      × (state committed.raw ≡ active)
      × (generation committed.raw ≡ (generation e.raw + 1) % 2 ^ 32)
  unfolding committed
  committed_word =
      let w = state_word_lem active (generation e.raw + 1) (locked e).raw in
      let v = state_word_lem migrating (generation e.raw) e.raw in
      (SameCounters-trans v.0 w.0, w.1, w.2)

  -- A commit right after its begin succeeds: the extent has moved, is active again under the next
  -- generation with the same counters and byte counts, its old place waits to be freed, and no other
  -- extent has changed.
  pub commit-begin :
      let (m, s') = begin_migration id s in
      ((commit_migration m new_loc s').0 ≡ true)
      × (e' : ExtentEntry) × Committed id new_loc s (commit_migration m new_loc s').1 e e'
  unfolding mark_dirty add_deferred_free set_entry committed
  commit-begin = rw commit-eq (
    refl,
    committed,
    record {
      found = find-set_entry_self (begun id e s) id committed;
      moved = refl;
      unlocked = committed_word.1;
      next = committed_word.2;
      counters = committed_word.0;
      used = refl;
      live = refl;
      freed = refl;
      others = λ j n.
          find-set_entry_ne (begun id e s) id committed j n ∙ find-set_entry_ne s id (locked e) j n;
    },
  )

  -- A handle serves once: a second commit with it fails and changes nothing.
  pub commit-commit :
      (loc2 : DiskLocation)
      → let (m, s') = begin_migration id s in
        let s2 = (commit_migration m new_loc s').1 in commit_migration m loc2 s2 ≡ (false, s2)
  unfolding commit_migration mark_dirty add_deferred_free set_entry committed
  commit-commit loc2 =
      rw (commit-eq, begin_migration_lem id s e h a b)
        (commit_handle-stale (handle id e)
          (mark_dirty id (add_deferred_free e.location (set_entry (begun id e s) id committed)))
          committed (find-set_entry_self (begun id e s) id committed) loc2
          (rw committed_word.2 (next_generation (generation e.raw) (generation-lt e.raw b))))

-- Whether find_extent_with_space would take this extent.
abbrev takes : Option ExtentEntry → Bool
takes none = false
takes (some e) = state e.raw == active

first_active-same :
    {A : Type 0} (s s' : ExtentMap A) (fs : List FreeEntry)
    → ((j : ℕ) → takes (find s' j) ≡ takes (find s j))
    → first_active s' fs ≡ first_active s fs
unfolding first_active
first_active-same s s' [] same = refl
first_active-same s s' (f ∷ fs) same =
    ground (arith, same f.extent_id, first_active-same s s' fs same)

module _ {A : Type 0} (id : ℕ) (s : ExtentMap A) (e : ExtentEntry) (h : find s id ≡ some e)
    (a : state e.raw ≡ active) (b : e.raw < 2 ^ 64) (new_loc : DiskLocation) where
  commit-takes :
      (j : ℕ)
      → let (m, s') = begin_migration id s in
        takes (find (commit_migration m new_loc s').1 j) ≡ takes (find s j)
  commit-takes j =
      let c = commit-begin id s e h a b new_loc in
      elim (Bool-cases (id == j)) [
        | inl same ↦ rw (← ==→eq id j same) (rw (c.2.found, h) (ground (arith, c.2.unlocked)))
        | inr other ↦ rw (c.2.others j (λ p. ground arith))
      ]

  free_lists-commit :
      let (m, s') = begin_migration id s in
      (commit_migration m new_loc s').1.free_lists ≡ s.free_lists
  unfolding mark_dirty add_deferred_free set_entry
  free_lists-commit = rw (commit-eq id s e h a b new_loc)

  -- An active extent with a 64-bit word that a request for space on a tier finds: a begin and a commit to any
  -- new location leave the free lists of both tiers as they were, the same request still finds the extent,
  -- and its location is the new one.
  pub commit_stale_free_list :
      (tier : Tier) (needed : ℕ)
      → find_extent_with_space s tier needed ≡ id
      → let (m, s') = begin_migration id s in
        let s2 = (commit_migration m new_loc s').1 in
        (s2.free_lists ≡ s.free_lists)
        × (find_extent_with_space s2 tier needed ≡ id)
        × (get_location s2 id ≡ some new_loc)
  unfolding find_extent_with_space get_location
  commit_stale_free_list tier needed p =
      let (m, s') = begin_migration id s in
      let s2 = (commit_migration m new_loc s').1 in
      let c = commit-begin id s e h a b new_loc in
      let lower =
        λ (l : PerTier (List FreeEntry)). FreeList.lower_bound (free_entry needed 0) (at l tier) in
      (
        free_lists-commit,
        first_active-same s s2 (lower s2.free_lists) commit-takes
            ∙ ap (λ (l : PerTier (List FreeEntry)). first_active s (lower l)) free_lists-commit
            ∙ p,
        rw (c.2.found, get_location) (ap some c.2.moved),
      )
