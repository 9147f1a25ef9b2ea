-- ===== src/Kv/MemDb/Tests.antt =====
-- Runs of kv/mem/mem_db.cc on short keys.
use cxxlab.Prelude.{add64, ◌≡◌, refl, List, [], ◌∷◌, some, lookup}
use cxxlab.Kv.Bytes.{less, equal, starts_with, encode_key, bytes_eq}
use cxxlab.Kv.MemDb.{
  MemDb, MergeOperator, Op, set_op, rmkey_op, rmkeys_by_prefix_op, rm_range_keys_op, merge_op,
  submit_transaction, apply_op, set_key, rm_range_keys, rmkeys_by_prefix, merge_key, assign,
  erase_from, erase_while,
}
use cxxlab.Kv.MemDb.Ranges.{IsSorted}
use cxxlab.Kv.MemDb.Iterator.{
  Iterator, get_wholespace_iterator, lower_bound, seek_to_first, refresh,
}
use cxxlab.Kv.MemDb.Walk.{walk, keys_from, walk-lower_bound}
use cxxlab.Kv.MemDb.Submit.{submit_transaction-meanings, observe, meanings, view}

-- Keeps the first value.
abbrev first_value : MergeOperator
first_value = record { merge_nonexistent = λ v. v; merge = λ old v. some old }

abbrev start_db : MemDb
start_db = record {
  db = (65 ∷ 0 ∷ 1 ∷ [], 10 ∷ []) ∷ (65 ∷ 0 ∷ 2 ∷ [], 20 ∷ []) ∷ (66 ∷ 0 ∷ 1 ∷ [], 30 ∷ []) ∷ [];
  seqno = 3;
  merge_ops = (65 ∷ [], first_value) ∷ [];
}

abbrev transaction : List Op
transaction =
    set_op (65 ∷ []) (3 ∷ []) (40 ∷ [])
    ∷ rm_range_keys_op (65 ∷ []) (1 ∷ []) (3 ∷ [])
    ∷ merge_op (65 ∷ []) (3 ∷ []) (50 ∷ [])
    ∷ rmkeys_by_prefix_op (66 ∷ [])
    ∷ merge_op (67 ∷ []) (1 ∷ []) (60 ∷ [])
    ∷ rmkey_op (65 ∷ []) (3 ∷ [])
    ∷ []

-- The merge without an operator fails, and what went before it stays.
submitted : (submit_transaction transaction start_db).1.db ≡ (65 ∷ 0 ∷ 3 ∷ [], 40 ∷ []) ∷ []
unfolding submit_transaction apply_op set_key rm_range_keys rmkeys_by_prefix merge_key assign
    erase_from erase_while lookup less equal starts_with encode_key
submitted = refl

start_db-IsSorted : IsSorted start_db.db
unfolding less
start_db-IsSorted = ((refl, (refl, tt)), ((refl, tt), (tt, tt)))

submit_transaction-meanings_example :
    (observe (submit_transaction transaction start_db)
      ≡ meanings start_db.merge_ops transaction (view start_db))
    × IsSorted (submit_transaction transaction start_db).1.db
submit_transaction-meanings_example =
    submit_transaction-meanings transaction start_db start_db-IsSorted

-- An iterator made before the transaction sees the store after it.
abbrev old_iterator : Iterator
old_iterator = get_wholespace_iterator start_db

abbrev later_db : MemDb
later_db = (submit_transaction transaction start_db).1

walk-lower_bound_example :
    walk 3 (lower_bound (65 ∷ 0 ∷ 2 ∷ []) start_db old_iterator)
    ≡ keys_from (65 ∷ 0 ∷ 2 ∷ []) start_db.db
unfolding get_wholespace_iterator
walk-lower_bound_example =
    walk-lower_bound (65 ∷ 0 ∷ 2 ∷ []) start_db old_iterator start_db-IsSorted (λ h. refl)

seen : (seek_to_first later_db old_iterator).items ≡ (65 ∷ 0 ∷ 3 ∷ [], 40 ∷ []) ∷ []
unfolding seek_to_first refresh get_wholespace_iterator submit_transaction apply_op set_key
    rm_range_keys rmkeys_by_prefix merge_key assign erase_from erase_while lookup less equal
    starts_with encode_key add64
seen = refl
