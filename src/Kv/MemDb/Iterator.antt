-- ===== src/Kv/MemDb/Iterator.antt =====
-- The iterator of kv/mem/mem_db.cc over the whole store: a copy of the entries, which a seek renews
-- when the store has changed, and a position, none for -1.
use cxxlab.Prelude.{
  ℕ, ◌-◌, Bool, false, List, [], ◌∷◌, ◌++◌, Option, none, some, if◌then◌else◌, length, get_elem?,
  ltb, leb, ◌==◌, zero, suc, lookup,
}
use cxxlab.Kv.Bytes.{less, decode_key, encode_key, equal, bytes_eq}
use cxxlab.Kv.MemDb.{MemDb, Op}
use cxxlab.Kv.MemDb.Ranges.{Entries}

-- The methods of a transaction append their operation.
unfoldable pub push_back : Op → List Op → List Op
push_back o ops = ops ++ o ∷ []

abbrev pub add_found : List ℕ → Option (List ℕ) → Entries → Entries
add_found k none out = out
add_found k (some v) out = (k, v) ∷ out

-- The keys of a prefix that are there, with their values.
unfoldable pub get_values : List ℕ → List (List ℕ) → MemDb → Entries
get_values prefix [] s = []
get_values prefix (k ∷ ks) s =
    add_found k (lookup (encode_key prefix k) s.db) (get_values prefix ks s)

pub record Iterator : Type 0 where
  pub items : Entries
  pub seqno : ℕ
  pub pos : Option ℕ

unfoldable pub get_wholespace_iterator : MemDb → Iterator
get_wholespace_iterator s = record { items = s.db; seqno = s.seqno; pos = none }

unfoldable pub refresh : MemDb → Iterator → Iterator
refresh s it = if s.seqno == it.seqno then it else record it { seqno = s.seqno; items = s.db }

-- An index of the entries as a position.
abbrev pub position : ℕ → Entries → Option ℕ
position i m = if leb (length m) i then none else some i

unfoldable pub seek_to_first : MemDb → Iterator → Iterator
seek_to_first s it = let r = refresh s it in record r { pos = position 0 r.items }

unfoldable pub seek_to_last : MemDb → Iterator → Iterator
seek_to_last s it = let r = refresh s it in record r { pos = position (length r.items - 1) r.items }

-- The index that std::lower_bound finds in entries in order.
unfoldable pub lower_index : List ℕ → Entries → ℕ
lower_index to [] = 0
lower_index to ((k, v) ∷ m) = let rest = lower_index to m in if less k to then suc rest else 0

unfoldable pub upper_index : List ℕ → Entries → ℕ
upper_index after [] = 0
upper_index after ((k, v) ∷ m) =
    let rest = upper_index after m in if less after k then 0 else suc rest

unfoldable pub lower_bound : List ℕ → MemDb → Iterator → Iterator
lower_bound to s it =
    let r = refresh s it in record r { pos = position (lower_index to r.items) r.items }

unfoldable pub upper_bound : List ℕ → MemDb → Iterator → Iterator
upper_bound after s it =
    let r = refresh s it in record r { pos = position (upper_index after r.items) r.items }

abbrev valid_at : Option ℕ → Entries → Bool
valid_at none m = false
valid_at (some i) m = ltb i (length m)

unfoldable pub valid : Iterator → Bool
valid it = valid_at it.pos it.items

abbrev pub next_pos : Option ℕ → Entries → Option ℕ
next_pos none m = none
next_pos (some i) m = position (suc i) m

unfoldable pub next_item : Iterator → Iterator
next_item it = record it { pos = next_pos it.pos it.items }

abbrev pub prev_pos : Option ℕ → Option ℕ
prev_pos none = none
prev_pos (some zero) = none
prev_pos (some (suc i)) = some i

unfoldable pub prev_item : Iterator → Iterator
prev_item it = record it { pos = prev_pos it.pos }

abbrev pub entry_at : Option ℕ → Entries → Option (List ℕ × List ℕ)
entry_at none m = none
entry_at (some i) m = get_elem? m i

-- key() and value(); none where the code reads out of range.
unfoldable pub entry : Iterator → Option (List ℕ × List ℕ)
entry it = entry_at it.pos it.items

abbrev decoded : Option (List ℕ × List ℕ) → Option (List ℕ × List ℕ)
decoded none = none
decoded (some e) = some (decode_key e.0)

unfoldable pub raw_key : Iterator → Option (List ℕ × List ℕ)
unfolding entry
raw_key it = decoded (entry it)

abbrev prefixed : List ℕ → Option (List ℕ × List ℕ) → Option Bool
prefixed prefix none = none
prefixed prefix (some e) = some (equal e.0 prefix)

unfoldable pub raw_key_is_prefixed : List ℕ → Iterator → Option Bool
unfolding raw_key
raw_key_is_prefixed prefix it = prefixed prefix (raw_key it)
