-- ===== src/Kv/MemDb/Submit.antt =====
-- submit_transaction of kv/mem/mem_db.cc against a store that is a function from keys to values.
use cxxlab.Prelude.{
  ℕ, ◌≡◌, refl, not, ◌&&◌, List, [], ◌∷◌, Option, none, some, arith, if◌then◌else◌, beq, lookup,
  lookup-erase, ap, sym, ◌∙◌, if-cases, Bool-cases, inl, inr,
}
use mathlib.Core.Path.{fun_ext}
use cxxlab.Kv.Bytes.{
  less, less_trans, starts_with, starts_with-run, starts_with-less, encode_key, bytes_eq,
}
use cxxlab.Kv.MemDb.{
  MemDb, MergeOperator, Op, set_op, rmkey_op, rmkeys_by_prefix_op, rm_range_keys_op, merge_op,
  Status, ok, einval, failed_assertion, merged, write_merged, merge_by, merge_key, apply_op, is_ok,
  submit_transaction, set_key, rmkey, rmkeys_by_prefix, rm_range_keys,
}
use cxxlab.Kv.MemDb.Ranges.{
  IsSorted, IsRun, lookup-assign, lookup-erase_from, assign-IsSorted, erase-IsSorted,
  erase_from-IsSorted,
}

abbrev pub Store : Type 0
Store = List ℕ → Option (List ℕ)

abbrev pub Operators : Type 0
Operators = List (List ℕ × MergeOperator)

abbrev pub view : MemDb → Store
view s k = lookup k s.db

abbrev update : List ℕ → List ℕ → Store → Store
update full v m k = if beq full k then some v else m k

abbrev write : List ℕ → Option (List ℕ) → Store → Status × Store
write full none m = (failed_assertion, m)
write full (some v) m = (ok, update full v m)

abbrev write_by : Option MergeOperator → List ℕ → List ℕ → Store → Status × Store
write_by none full v m = (einval, m)
write_by (some o) full v m = write full (merged o v (m full)) m

-- One operation on the store as a function.
unfoldable pub meaning : Operators → Op → Store → Status × Store
meaning ops (set_op p k v) m = (ok, update (encode_key p k) v m)
meaning ops (rmkey_op p k) m = (ok, λ j. if beq (encode_key p k) j then none else m j)
meaning ops (rmkeys_by_prefix_op p) m =
    (ok, λ j. if starts_with (encode_key p []) j then none else m j)
meaning ops (rm_range_keys_op p a b) m =
    (ok, λ j. if not (less j (encode_key p a)) && less j (encode_key p b) then none else m j)
meaning ops (merge_op p k v) m = write_by (lookup p ops) (encode_key p k) v m

unfoldable pub meanings : Operators → List Op → Store → Status × Store
meanings ops [] m = (ok, m)
meanings ops (o ∷ os) m =
    let r = meaning ops o m in let rest = meanings ops os r.1 in if is_ok r.0 then rest else r

abbrev pub observe : Status × MemDb → Status × Store
observe r = (r.0, view r.1)

-- A result with a map in order, with the operators of the state before it.
abbrev IsGood : MemDb → Status × MemDb → Type 0
IsGood s r = IsSorted r.1.db × (r.1.merge_ops ≡ s.merge_ops)

starts_with-range :
    (start j : List ℕ) (o : Option (List ℕ))
    → (if not (less j start) && starts_with start j then none else o)
      ≡ (if starts_with start j then none else o)
starts_with-range start j o = ground (arith, starts_with-less start j)

less-IsRun : (s e : List ℕ) → IsRun s (λ k. less k e)
less-IsRun s e a b h k l = elim (Bool-cases (less b e)) [
  | inl g ↦ ground (arith, k, less_trans a b e l g)
  | inr g ↦ g
]

write_merged-write :
    (full : List ℕ) (o : Option (List ℕ)) (s : MemDb)
    → IsSorted s.db
    → (observe (write_merged full o s) ≡ write full o (view s)) × IsGood s (write_merged full o s)
write_merged-write full none s h = (refl, (h, refl))
write_merged-write full (some v) s h = (
  ap (λ (m : Store). (ok, m)) (fun_ext (λ j. lookup-assign full j v s.db)),
  (assign-IsSorted full v s.db h, refl),
)

merge_by-write_by :
    (o : Option MergeOperator) (full v : List ℕ) (s : MemDb)
    → IsSorted s.db
    → (observe (merge_by o full v s) ≡ write_by o full v (view s)) × IsGood s (merge_by o full v s)
merge_by-write_by none full v s h = (refl, (h, refl))
merge_by-write_by (some o) full v s h = write_merged-write full (merged o v (lookup full s.db)) s h

apply_op-meaning :
    (o : Op) (s : MemDb)
    → IsSorted s.db
    → (observe (apply_op o s) ≡ meaning s.merge_ops o (view s)) × IsGood s (apply_op o s)
unfolding apply_op meaning set_key rmkey rmkeys_by_prefix rm_range_keys merge_key
apply_op-meaning (set_op p k v) s h = write_merged-write (encode_key p k) (some v) s h
apply_op-meaning (rmkey_op p k) s h = (
  ap (λ (m : Store). (ok, m)) (fun_ext (λ j. lookup-erase (encode_key p k) j s.db)),
  (erase-IsSorted (encode_key p k) s.db h, refl),
)
apply_op-meaning (rmkeys_by_prefix_op p) s h =
    let start = encode_key p [] in
    (
      ap (λ (m : Store). (ok, m))
          (fun_ext (λ j.
            lookup-erase_from start (starts_with start) (starts_with-run start) j s.db h
            ∙ starts_with-range start j (lookup j s.db))),
      (erase_from-IsSorted start (starts_with start) s.db h, refl),
    )
apply_op-meaning (rm_range_keys_op p a b) s h =
    let start = encode_key p a in
    let e = encode_key p b in
    (
      ap (λ (m : Store). (ok, m))
          (fun_ext (λ j. lookup-erase_from start (λ k. less k e) (less-IsRun start e) j s.db h)),
      (erase_from-IsSorted start (λ k. less k e) s.db h, refl),
    )
apply_op-meaning (merge_op p k v) s h =
    merge_by-write_by (lookup p s.merge_ops) (encode_key p k) v s h

-- A transaction on a map in order gives the status and the store that the operations give one by
-- one on a function from keys to values, up to the first that fails; the map stays in order.
pub submit_transaction-meanings :
    (os : List Op) (s : MemDb)
    → IsSorted s.db
    → (observe (submit_transaction os s) ≡ meanings s.merge_ops os (view s))
      × IsSorted (submit_transaction os s).1.db
unfolding submit_transaction meanings
submit_transaction-meanings [] s h = (refl, h)
submit_transaction-meanings (o ∷ os) s h =
    let r = apply_op o s in
    let one = apply_op-meaning o s h in
    let rest = submit_transaction-meanings os r.1 one.1.0 in
    let after = ap (λ ops. meanings ops os (view r.1)) one.1.1 in
    let next = meanings s.merge_ops os (view r.1) in
    let here =
      ap (λ (q : Status × Store). if is_ok q.0 then meanings s.merge_ops os q.1 else q) one.0 in
    (
      if-cases
            (λ (q : Status × MemDb).
              observe q ≡ (if is_ok r.0 then meanings s.merge_ops os (view r.1) else observe r))
            (is_ok r.0) (λ g. rest.0 ∙ after ∙ ap (λ c. if c then next else observe r) (sym g))
            (λ g. ap (λ c. if c then next else observe r) (sym g))
          ∙ here,
      if-cases (λ (q : Status × MemDb). IsSorted q.1.db) (is_ok r.0) (λ g. rest.1) (λ g. one.1.0),
    )
