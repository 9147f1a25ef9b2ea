-- ===== src/Btier/KeyMap/Runs.antt =====
-- What put and batch_update of btier/key_map.cc leave under each key: its location and the length
-- of its sequential run.
use cxxlab.Prelude.{
  ℕ, ◌≡◌, ◌≤◌, refl, List, [], ◌∷◌, Option, none, some, arith, Eq, beq, lookup, put, lookup-put,
  lookup-erase, if◌then◌else◌,
}
use cxxlab.Btier.Types.{KeyLocation}
use cxxlab.Btier.KeyMap.{
  KeyEntry, KeyMap, next_run, put_key, put_entry, erase_key, erase_found, batch_update, update_one,
  or_fresh, moved, run_of, last_lba_of, lookup_loc, get_consecutive_sequential, empty_key_map,
  Change, putting, erasing, updating, change, changes, max_seq_award,
}

next_run-bound : (lba prev run : ℕ) → run ≤ max_seq_award → next_run lba prev run ≤ max_seq_award
unfolding next_run
next_run-bound lba prev run h = ground arith

run_of-put :
    (l : KeyLocation) (lba : ℕ) (old : Option KeyEntry)
    → run_of old ≤ max_seq_award
    → (put_entry l lba (or_fresh old)).consecutive_sequential ≤ max_seq_award
unfolding put_entry
run_of-put l lba none h = next_run-bound lba 0 0 h
run_of-put l lba (some x) h = next_run-bound lba x.last_lba x.consecutive_sequential h

run_of-moved_bound :
    (l : KeyLocation) (old : Option KeyEntry)
    → run_of old ≤ max_seq_award
    → (moved l old).consecutive_sequential ≤ max_seq_award
run_of-moved_bound l none h = ground arith
run_of-moved_bound l (some x) h = h

put_entry_lem :
    (l : KeyLocation) (lba : ℕ) (old : Option KeyEntry)
    → (put_entry l lba (or_fresh old)).consecutive_sequential
      ≡ next_run lba (last_lba_of old) (run_of old)
unfolding put_entry
put_entry_lem l lba none = refl
put_entry_lem l lba (some x) = refl

module _ {K : Type 0} ⦃e : Eq K⦄ where
  unfoldable HasShortRuns : KeyMap K → Type 0
  HasShortRuns s = (j : K) → run_of (lookup j s.entries) ≤ max_seq_award

  put-run :
      (k j : K) (x : KeyEntry) (m : List (K × KeyEntry))
      → x.consecutive_sequential ≤ max_seq_award
      → run_of (lookup j m) ≤ max_seq_award
      → run_of (lookup j (put k x m)) ≤ max_seq_award
  put-run k j x m h g = ground (arith, lookup-put k j x m)

  erase-run :
      (k j : K) (old : Option KeyEntry) (s : KeyMap K)
      → run_of (lookup j s.entries) ≤ max_seq_award
      → run_of (lookup j (erase_found k old s).entries) ≤ max_seq_award
  erase-run k j none s h = h
  erase-run k j (some x) s h = ground (arith, lookup-erase k j s.entries)

  update-HasShortRuns :
      (us : List (K × KeyLocation)) (s : KeyMap K)
      → HasShortRuns s
      → HasShortRuns (batch_update us s)
  unfolding batch_update HasShortRuns update_one
  update-HasShortRuns [] s h = h
  update-HasShortRuns ((k, l) ∷ us) s h = update-HasShortRuns us (update_one k l s) (λ j.
      put-run k j (moved l (lookup k s.entries)) s.entries
        (run_of-moved_bound l (lookup k s.entries) (h k)) (h j))

  change-HasShortRuns : (c : Change K) (s : KeyMap K) → HasShortRuns s → HasShortRuns (change c s)
  unfolding change HasShortRuns put_key erase_key
  change-HasShortRuns (putting k l lba) s h j =
      put-run k j (put_entry l lba (or_fresh (lookup k s.entries))) s.entries
        (run_of-put l lba (lookup k s.entries) (h k)) (h j)
  change-HasShortRuns (erasing k) s h j = erase-run k j (lookup k s.entries) s (h j)
  change-HasShortRuns (updating us) s h j = update-HasShortRuns us s h j

  changes-HasShortRuns :
      (cs : List (Change K)) (s : KeyMap K) → HasShortRuns s → HasShortRuns (changes cs s)
  unfolding changes
  changes-HasShortRuns [] s h = h
  changes-HasShortRuns (c ∷ cs) s h =
      changes-HasShortRuns cs (change c s) (change-HasShortRuns c s h)

  -- After any sequence of put, erase and batch_update from an empty map, the sequential run of
  -- every key is at most 63.
  pub get_consecutive_sequential-bound :
      (cs : List (Change K)) (k : K) → get_consecutive_sequential k (changes cs empty_key_map) ≤ 63
  unfolding get_consecutive_sequential HasShortRuns lookup
  get_consecutive_sequential-bound cs k =
      changes-HasShortRuns cs empty_key_map (λ j. ground arith) k

  -- A put of a key gives it the new location and next_run of its run, from the block address of
  -- the put before (0 for a new key); every other key keeps both.
  pub put_key_lem :
      (k j : K) (l : KeyLocation) (lba : ℕ) (s : KeyMap K)
      → (lookup_loc j (put_key k l lba s) ≡ (if beq k j then some l else lookup_loc j s))
        × (get_consecutive_sequential j (put_key k l lba s) ≡ (
            if beq k j
            then next_run lba (last_lba_of (lookup k s.entries)) (get_consecutive_sequential k s)
            else get_consecutive_sequential j s))
  unfolding put_key lookup_loc get_consecutive_sequential put_entry
  put_key_lem k j l lba s =
      let old = lookup k s.entries in
      let x = put_entry l lba (or_fresh old) in
      (
        ground (arith, lookup-put k j x s.entries),
        ground (arith, lookup-put k j x s.entries, put_entry_lem l lba old),
      )
