-- ===== src/Btier/KeyMap.antt =====
-- btier/key_map.cc: the map from keys to locations and its index by extent. Only equality of keys
-- is used, so their type (std::string) is a parameter. Each method runs under one lock.
pub mod Sets
pub mod Consistent
pub mod Runs
pub mod Tests
use cxxlab.Prelude.{
  ℕ, ◌+◌, ◌-◌, ◌*◌, Bool, true, false, not, ◌&&◌, ◌||◌, List, [], ◌∷◌, Option, none, some, ltb, leb,
  ◌==◌, if◌then◌else◌, Eq, nat_eq, beq, lookup, put, erase, add32, length,
}
use cxxlab.Btier.Types.{KeyLocation}

abbrev pub sequential_threshold : ℕ
sequential_threshold = 64 * 1024

abbrev pub max_seq_award : ℕ
max_seq_award = 63

pub record KeyEntry : Type 0 where
  pub loc : KeyLocation
  pub last_lba : ℕ
  pub consecutive_sequential : ℕ

-- KeyEntry{} with a location: the value of a new key.
abbrev pub fresh_entry : KeyLocation → KeyEntry
fresh_entry l = record { loc = l; last_lba = 0; consecutive_sequential = 0 }

-- Stride tracking: what `put` leaves of the run length of a key.
unfoldable pub next_run : ℕ → ℕ → ℕ → ℕ
next_run lba prev run =
    let delta = if ltb prev lba then lba - prev else prev - lba in
    if leb delta sequential_threshold then (if ltb run max_seq_award then run + 1 else run) else 0

unfoldable pub put_entry : KeyLocation → ℕ → KeyEntry → KeyEntry
put_entry l lba x = record {
  loc = l;
  last_lba = lba;
  consecutive_sequential = next_run lba x.last_lba x.consecutive_sequential;
}

-- A missing key starts from KeyEntry{}, whose fields are 0.
abbrev pub or_fresh : Option KeyEntry → KeyEntry
or_fresh none = fresh_entry (record { extent_id = 0; offset = 0; length = 0 })
or_fresh (some x) = x

abbrev pub moved : KeyLocation → Option KeyEntry → KeyEntry
moved l none = fresh_entry l
moved l (some x) = record x { loc = l }

abbrev pub location_of : Option KeyEntry → Option KeyLocation
location_of none = none
location_of (some x) = some x.loc

abbrev pub last_lba_of : Option KeyEntry → ℕ
last_lba_of none = 0
last_lba_of (some x) = x.last_lba

abbrev pub run_of : Option KeyEntry → ℕ
run_of none = 0
run_of (some x) = x.consecutive_sequential

pub record KeyMap (K : Type 0) : Type 0 where
  pub entries : List (K × KeyEntry)
  pub reverse_index : List (ℕ × List K)

module _ {K : Type 0} ⦃e : Eq K⦄ where
  -- std::unordered_set
  unfoldable pub member : K → List K → Bool
  member k [] = false
  member k (j ∷ js) = beq j k || member k js

  unfoldable pub set_insert : K → List K → List K
  unfolding member
  set_insert k js = if member k js then js else k ∷ js

  unfoldable pub set_erase : K → List K → List K
  set_erase k [] = []
  set_erase k (j ∷ js) = let rest = set_erase k js in if beq j k then rest else j ∷ rest

  abbrev pub or_nothing : Option (List K) → List K
  or_nothing none = []
  or_nothing (some s) = s

  abbrev pub put_nonempty : ℕ → List K → List (ℕ × List K) → List (ℕ × List K)
  put_nonempty id [] r = erase id r
  put_nonempty id (k ∷ ks) r = put id (k ∷ ks) r

  abbrev pub drop_from : ℕ → K → Option (List K) → List (ℕ × List K) → List (ℕ × List K)
  drop_from id k none r = r
  drop_from id k (some ks) r = put_nonempty id (set_erase k ks) r

  -- The clean-up of the index where a key leaves an extent: an empty set goes away.
  unfoldable pub drop_key : ℕ → K → List (ℕ × List K) → List (ℕ × List K)
  drop_key id k r = drop_from id k (lookup id r) r

  -- reverse_index_[id].insert(key)
  unfoldable pub add_key : ℕ → K → List (ℕ × List K) → List (ℕ × List K)
  add_key id k r = put id (set_insert k (or_nothing (lookup id r))) r

  unfoldable pub lookup_loc : K → KeyMap K → Option KeyLocation
  lookup_loc k s = location_of (lookup k s.entries)

  -- The index without a key that moves to another extent.
  unfoldable pub leave : K → Option KeyEntry → ℕ → List (ℕ × List K) → List (ℕ × List K)
  leave k none new_id r = r
  leave k (some x) new_id r = if x.loc.extent_id == new_id then r else drop_key x.loc.extent_id k r

  unfoldable pub put_key : K → KeyLocation → ℕ → KeyMap K → KeyMap K
  put_key k l lba s =
      let old = lookup k s.entries in
      record {
        entries = put k (put_entry l lba (or_fresh old)) s.entries;
        reverse_index = add_key l.extent_id k (leave k old l.extent_id s.reverse_index);
      }

  abbrev pub erase_found : K → Option KeyEntry → KeyMap K → KeyMap K
  erase_found k none s = s
  erase_found k (some x) s = record {
    entries = erase k s.entries;
    reverse_index = drop_key x.loc.extent_id k s.reverse_index;
  }

  unfoldable pub erase_key : K → KeyMap K → KeyMap K
  erase_key k s = erase_found k (lookup k s.entries) s

  unfoldable pub keys_in_extent : ℕ → KeyMap K → List K
  keys_in_extent id s = or_nothing (lookup id s.reverse_index)

  -- One round of the loop of batch_update.
  unfoldable pub update_one : K → KeyLocation → KeyMap K → KeyMap K
  update_one k l s =
      let old = lookup k s.entries in
      record {
        entries = put k (moved l old) s.entries;
        reverse_index = add_key l.extent_id k (leave k old l.extent_id s.reverse_index);
      }

  unfoldable pub batch_update : List (K × KeyLocation) → KeyMap K → KeyMap K
  batch_update [] s = s
  batch_update ((k, l) ∷ us) s = batch_update us (update_one k l s)

  unfoldable pub get_consecutive_sequential : K → KeyMap K → ℕ
  get_consecutive_sequential k s = run_of (lookup k s.entries)

  unfoldable pub keys_in_extent_count : ℕ → KeyMap K → ℕ
  keys_in_extent_count id s = length (or_nothing (lookup id s.reverse_index))

  unfoldable pub size : KeyMap K → ℕ
  size s = length s.entries

  abbrev pub empty_key_map : KeyMap K
  empty_key_map = record { entries = []; reverse_index = [] }

-- The calls that change a key map.
pub data Change (K : Type 0) : Type 0 where
  putting : K → KeyLocation → ℕ → Change K
  erasing : K → Change K
  updating : List (K × KeyLocation) → Change K

module _ {K : Type 0} ⦃e : Eq K⦄ where
  unfoldable pub change : Change K → KeyMap K → KeyMap K
  change (putting k l lba) s = put_key k l lba s
  change (erasing k) s = erase_key k s
  change (updating us) s = batch_update us s

  unfoldable pub changes : List (Change K) → KeyMap K → KeyMap K
  changes [] s = s
  changes (c ∷ cs) s = changes cs (change c s)
