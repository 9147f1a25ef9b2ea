-- ===== src/Btier/ExtentMap/Find.antt =====
-- How a changed entry of btier/extent_map.cc shows in a lookup.
use cxxlab.Prelude.{ℕ, ◌≡◌, ◌≢◌, arith, some, if◌then◌else◌, lookup-put, nat_eq, ◌==◌}
use cxxlab.Btier.ExtentMap.{ExtentMap, ExtentEntry, find, set_entry}

module _ {A : Type 0} (s : ExtentMap A) (id : ℕ) (e : ExtentEntry) where
  pub find-set_entry : (j : ℕ) → find (set_entry s id e) j ≡ (if id == j then some e else find s j)
  unfolding set_entry
  find-set_entry j = lookup-put id j e s.entries

  pub find-set_entry_self : find (set_entry s id e) id ≡ some e
  find-set_entry_self = ground (arith, find-set_entry id)

  pub find-set_entry_ne : (j : ℕ) → id ≢ j → find (set_entry s id e) j ≡ find s j
  find-set_entry_ne j h = ground (arith, find-set_entry j)
