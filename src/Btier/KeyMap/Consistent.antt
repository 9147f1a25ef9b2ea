-- ===== src/Btier/KeyMap/Consistent.antt =====
-- The index of btier/key_map.cc follows its map.
use cxxlab.Prelude.{
  ℕ, ◌≡◌, refl, Bool, true, false, List, [], ◌∷◌, Option, none, some, arith, ◌==◌, ==_iff, Eq,
  nat_eq, beq, lookup, put, lookup-put, lookup-erase, not, ◌&&◌,
}
use mathlib.Core.Path.{ap, subst, ◌∙◌}
use cxxlab.Btier.Types.{KeyLocation}
use cxxlab.Btier.KeyMap.{
  KeyEntry, KeyMap, member, put_key, put_entry, erase_key, erase_found, batch_update, update_one,
  keys_in_extent, leave, add_key, or_fresh, moved, location_of, lookup_loc, empty_key_map, Change,
  putting, erasing, updating, change, changes,
}
use cxxlab.Btier.KeyMap.Sets.{indexed, indexed-drop_key, indexed-add_key}

-- Whether an entry is that of a key in an extent.
unfoldable pub located_in : ℕ → Option KeyEntry → Bool
located_in i none = false
located_in i (some x) = x.loc.extent_id == i

-- Whether a location is in an extent; a missing one is in none.
abbrev pub in_extent : ℕ → Option KeyLocation → Bool
in_extent i none = false
in_extent i (some l) = l.extent_id == i

moved_extent : (l : KeyLocation) (old : Option KeyEntry) → (moved l old).loc ≡ l
moved_extent l none = refl
moved_extent l (some x) = refl

extent_of_entry : (i : ℕ) (o : Option KeyEntry) → located_in i o ≡ in_extent i (location_of o)
unfolding located_in
extent_of_entry i none = refl
extent_of_entry i (some x) = refl

module _ {K : Type 0} ⦃e : Eq K⦄ where
  unfoldable pub IsConsistent : KeyMap K → Type 0
  IsConsistent s = (i : ℕ) (j : K) → indexed i j s.reverse_index ≡ located_in i (lookup j s.entries)

  -- A key leaves its old extent, unless the new one is the same.
  indexed-leave :
      (k j : K) (old : Option KeyEntry) (id i : ℕ) (r : List (ℕ × List K))
      → indexed i j (leave k old id r)
        ≡ (not (located_in i old && not (id == i) && beq k j) && indexed i j r)
  unfolding leave located_in
  indexed-leave k j none id i r = ground arith
  indexed-leave k j (some x) id i r =
      ground (arith, indexed-drop_key x.loc.extent_id i k j r, ==_iff x.loc.extent_id id)

  located_same :
      (i : ℕ) (k j : K) (m : List (K × KeyEntry))
      → beq k j ≡ true
      → located_in i (lookup k m) ≡ located_in i (lookup j m)
  located_same i k j m h = ap (λ a. located_in i (lookup a m)) ((e.beq_iff k j).0 h)

  moves-IsConsistent :
      (k : K) (x : KeyEntry) (s : KeyMap K)
      → IsConsistent s
      → IsConsistent (record {
        entries = put k x s.entries;
        reverse_index =
            add_key x.loc.extent_id k
              (leave k (lookup k s.entries) x.loc.extent_id s.reverse_index);
      })
  unfolding IsConsistent located_in
  moves-IsConsistent k x s c i j =
      let old = lookup k s.entries in
      ground (
        arith,
        c i j,
        lookup-put k j x s.entries,
        located_same i k j s.entries,
        indexed-add_key x.loc.extent_id i k j (leave k old x.loc.extent_id s.reverse_index),
        indexed-leave k j old x.loc.extent_id i s.reverse_index,
      )

  put_key-IsConsistent :
      (k : K) (l : KeyLocation) (lba : ℕ) (s : KeyMap K)
      → IsConsistent s
      → IsConsistent (put_key k l lba s)
  unfolding put_key put_entry
  put_key-IsConsistent k l lba s =
      moves-IsConsistent k (put_entry l lba (or_fresh (lookup k s.entries))) s

  update_one-IsConsistent :
      (k : K) (l : KeyLocation) (s : KeyMap K) → IsConsistent s → IsConsistent (update_one k l s)
  unfolding update_one
  update_one-IsConsistent k l s c =
      let x = moved l (lookup k s.entries) in
      subst
        (λ n. IsConsistent (record {
          entries = put k x s.entries;
          reverse_index =
              add_key n.extent_id k (leave k (lookup k s.entries) n.extent_id s.reverse_index);
        }))
        (moved_extent l (lookup k s.entries)) (moves-IsConsistent k x s c)

  batch_update-IsConsistent :
      (us : List (K × KeyLocation)) (s : KeyMap K)
      → IsConsistent s
      → IsConsistent (batch_update us s)
  unfolding batch_update
  batch_update-IsConsistent [] s c = c
  batch_update-IsConsistent ((k, l) ∷ us) s c =
      batch_update-IsConsistent us (update_one k l s) (update_one-IsConsistent k l s c)

  erase_found-IsConsistent :
      (k : K) (old : Option KeyEntry) (s : KeyMap K)
      → lookup k s.entries ≡ old
      → IsConsistent s
      → IsConsistent (erase_found k old s)
  unfolding IsConsistent located_in
  erase_found-IsConsistent k none s h c i j = c i j
  erase_found-IsConsistent k (some x) s h c i j = ground (
    arith,
    h,
    c i j,
    lookup-erase k j s.entries,
    located_same i k j s.entries,
    indexed-drop_key x.loc.extent_id i k j s.reverse_index,
  )

  erase_key-IsConsistent : (k : K) (s : KeyMap K) → IsConsistent s → IsConsistent (erase_key k s)
  unfolding erase_key
  erase_key-IsConsistent k s = erase_found-IsConsistent k (lookup k s.entries) s refl

  change-IsConsistent : (c : Change K) (s : KeyMap K) → IsConsistent s → IsConsistent (change c s)
  unfolding change
  change-IsConsistent (putting k l lba) s = put_key-IsConsistent k l lba s
  change-IsConsistent (erasing k) s = erase_key-IsConsistent k s
  change-IsConsistent (updating us) s = batch_update-IsConsistent us s

  pub changes-IsConsistent :
      (cs : List (Change K)) (s : KeyMap K) → IsConsistent s → IsConsistent (changes cs s)
  unfolding changes
  changes-IsConsistent [] s c = c
  changes-IsConsistent (x ∷ cs) s c =
      changes-IsConsistent cs (change x s) (change-IsConsistent x s c)

  -- After any sequence of put, erase and batch_update from an empty map, keys_in_extent has exactly
  -- the keys whose location, as lookup returns it, is in that extent.
  pub keys_in_extent-lookup_loc :
      (cs : List (Change K)) (i : ℕ) (j : K)
      → member j (keys_in_extent i (changes cs empty_key_map))
        ≡ in_extent i (lookup_loc j (changes cs empty_key_map))
  unfolding keys_in_extent lookup_loc IsConsistent located_in member lookup
  keys_in_extent-lookup_loc cs i j =
      let s = changes cs empty_key_map in
      changes-IsConsistent cs empty_key_map (λ n a. refl) i j
      ∙ extent_of_entry i (lookup j s.entries)
