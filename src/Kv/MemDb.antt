-- ===== src/Kv/MemDb.antt =====
-- kv/mem/mem_db.cc: the in-memory store, a std::map of strings in their order. Left out: the
-- performance counters. Every method holds the lock.
pub mod Ranges
pub mod Submit
pub mod Iterator
pub mod Walk
pub mod Tests
use cxxlab.Prelude.{
  ℕ, ◌+◌, Bool, true, false, not, ◌&&◌, List, [], ◌∷◌, Option, none, some, if◌then◌else◌, add64,
  beq, lookup, erase, length,
}
use cxxlab.Kv.Bytes.{less, starts_with, encode_key, bytes_eq, equal}

-- kv/merge_op/merge_op.h: an operator of a prefix; a merge is none where the assertion of the
-- operator fails.
pub record MergeOperator : Type 0 where
  pub merge_nonexistent : List ℕ → List ℕ
  pub merge : List ℕ → List ℕ → Option (List ℕ)

-- The operations of a transaction; the members of the struct that an operation does not use are
-- left out.
pub data Op : Type 0 where
  set_op : List ℕ → List ℕ → List ℕ → Op
  rmkey_op : List ℕ → List ℕ → Op
  rmkeys_by_prefix_op : List ℕ → Op
  rm_range_keys_op : List ℕ → List ℕ → List ℕ → Op
  merge_op : List ℕ → List ℕ → List ℕ → Op

pub record MemDb : Type 0 where
  pub db : List (List ℕ × List ℕ)
  pub seqno : ℕ
  pub merge_ops : List (List ℕ × MergeOperator)

-- db_[key] = value, in the order of the keys.
unfoldable pub assign : List ℕ → List ℕ → List (List ℕ × List ℕ) → List (List ℕ × List ℕ)
assign k v [] = (k, v) ∷ []
assign k v ((j, w) ∷ m) =
    let rest = assign k v m in
    if beq j k then (j, v) ∷ m else if less k j then (k, v) ∷ (j, w) ∷ m else (j, w) ∷ rest

-- The loop that erases from an iterator on while a test of the key holds.
unfoldable pub erase_while : (List ℕ → Bool) → List (List ℕ × List ℕ) → List (List ℕ × List ℕ)
erase_while p [] = []
erase_while p ((k, v) ∷ m) = let rest = erase_while p m in if p k then rest else (k, v) ∷ m

-- The same from db_.lower_bound(s) on.
unfoldable pub erase_from :
    List ℕ → (List ℕ → Bool) → List (List ℕ × List ℕ) → List (List ℕ × List ℕ)
erase_from s p [] = []
erase_from s p ((k, v) ∷ m) =
    let rest = erase_from s p m in if less k s then (k, v) ∷ rest else erase_while p ((k, v) ∷ m)

abbrev pub stored : MemDb → List (List ℕ × List ℕ) → MemDb
stored s m = record s { db = m; seqno = add64 s.seqno 1 }

unfoldable pub set_key : List ℕ → List ℕ → MemDb → MemDb
set_key full v s = stored s (assign full v s.db)

unfoldable pub rmkey : List ℕ → MemDb → MemDb
rmkey full s = stored s (erase full s.db)

unfoldable pub rmkeys_by_prefix : List ℕ → MemDb → MemDb
rmkeys_by_prefix prefix s =
    let start = encode_key prefix [] in stored s (erase_from start (starts_with start) s.db)

unfoldable pub rm_range_keys : List ℕ → List ℕ → List ℕ → MemDb → MemDb
rm_range_keys prefix start end s =
    let e = encode_key prefix end in
    stored s (erase_from (encode_key prefix start) (λ k. less k e) s.db)

-- What submit_transaction gives: 0, -EINVAL, or the failed assertion of a merge operator.
pub data Status : Type 0 where
  ok : Status
  einval : Status
  failed_assertion : Status

abbrev pub merged : MergeOperator → List ℕ → Option (List ℕ) → Option (List ℕ)
merged op v none = some (op.merge_nonexistent v)
merged op v (some old) = op.merge old v

abbrev pub write_merged : List ℕ → Option (List ℕ) → MemDb → Status × MemDb
write_merged full none s = (failed_assertion, s)
write_merged full (some v) s = (ok, stored s (assign full v s.db))

abbrev pub merge_by : Option MergeOperator → List ℕ → List ℕ → MemDb → Status × MemDb
merge_by none full v s = (einval, s)
merge_by (some op) full v s = write_merged full (merged op v (lookup full s.db)) s

-- The operator is the first one of its prefix.
unfoldable pub merge_key : List ℕ → List ℕ → List ℕ → MemDb → Status × MemDb
merge_key prefix full v s = merge_by (lookup prefix s.merge_ops) full v s

unfoldable pub apply_op : Op → MemDb → Status × MemDb
apply_op (set_op p k v) s = (ok, set_key (encode_key p k) v s)
apply_op (rmkey_op p k) s = (ok, rmkey (encode_key p k) s)
apply_op (rmkeys_by_prefix_op p) s = (ok, rmkeys_by_prefix p s)
apply_op (rm_range_keys_op p a b) s = (ok, rm_range_keys p a b s)
apply_op (merge_op p k v) s = merge_key p (encode_key p k) v s

abbrev pub is_ok : Status → Bool
is_ok ok = true
is_ok einval = false
is_ok failed_assertion = false

-- The loop over the operations stops at the first one that fails; what went before it stays.
unfoldable pub submit_transaction : List Op → MemDb → Status × MemDb
submit_transaction [] s = (ok, s)
submit_transaction (o ∷ os) s =
    let r = apply_op o s in let rest = submit_transaction os r.1 in if is_ok r.0 then rest else r

unfoldable pub close : MemDb → MemDb
close s = record s { db = [] }

unfoldable pub estimated : List (List ℕ × List ℕ) → ℕ
estimated [] = 0
estimated ((k, v) ∷ m) = add64 (add64 (length k) (length v)) (estimated m)

unfoldable pub get_estimated_size : MemDb → ℕ
get_estimated_size s = estimated s.db
