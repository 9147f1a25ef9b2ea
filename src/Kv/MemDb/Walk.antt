-- ===== src/Kv/MemDb/Walk.antt =====
-- What a walk with the iterator of kv/mem/mem_db.cc visits.
use cxxlab.Prelude.{
  ℕ, ◌+◌, ◌≤◌, ◌<◌, ◌≡◌, refl, false, not, List, [], ◌∷◌, Option, none, some, arith, if◌then◌else◌,
  length, get_elem?, leb, ◌==◌, ==→eq, zero, suc, ap, sym, ◌∙◌, if-cases, leb→le, leb→lt,
  Bool-cases, inl, inr,
}
use cxxlab.Kv.Bytes.{less, less_trans}
use cxxlab.Kv.MemDb.{MemDb}
use cxxlab.Kv.MemDb.Ranges.{Entries, IsSorted, Keys, Keys-imp}
use cxxlab.Kv.MemDb.Iterator.{
  Iterator, refresh, position, lower_index, lower_bound, next_item, entry,
}

abbrev continue : Option (List ℕ × List ℕ) → Entries → Entries
continue none rest = []
continue (some e) rest = e ∷ rest

-- The entries that a walk with next_item visits, as many as a number of steps allows.
unfoldable pub walk : ℕ → Iterator → Entries
unfolding entry
walk zero it = []
walk (suc n) it = continue (entry it) (walk n (next_item it))

unfoldable drop : ℕ → Entries → Entries
drop i [] = []
drop zero (e ∷ m) = e ∷ m
drop (suc i) (e ∷ m) = drop i m

drop_all : (i : ℕ) (m : Entries) → length m ≤ i → drop i m ≡ []
unfolding drop
drop_all i [] h = refl
drop_all zero (e ∷ m) h = ground (arith, h)
drop_all (suc i) (e ∷ m) h = drop_all i m (omega (arith, h))

drop_zero : (m : Entries) → drop 0 m ≡ m
unfolding drop
drop_zero [] = refl
drop_zero (e ∷ m) = refl

drop_step :
    (i : ℕ) (m : Entries) → i < length m → drop i m ≡ continue (get_elem? m i) (drop (suc i) m)
unfolding drop
drop_step i [] h = ground (arith, h)
drop_step zero (e ∷ m) h = ap (λ l. e ∷ l) (sym (drop_zero m))
drop_step (suc i) (e ∷ m) h = drop_step i m (omega (arith, h))

abbrev iterator : Entries → ℕ → Option ℕ → Iterator
iterator m q p = record { items = m; seqno = q; pos = p }

walk-none : (n : ℕ) (m : Entries) (q : ℕ) → walk n (iterator m q none) ≡ []
unfolding walk
walk-none zero m q = refl
walk-none (suc n) m q = refl

walk-some :
    (n i : ℕ) (m : Entries) (q : ℕ)
    → i < length m
    → length m ≤ n + i
    → walk n (iterator m q (some i)) ≡ drop i m
unfolding walk next_item
walk-some zero i m q h k = ground (arith, h, k)
walk-some (suc n) i m q h k =
    ap (continue (get_elem? m i)) (
      if-cases (λ p. walk n (iterator m q p) ≡ drop (suc i) m) (leb (length m) (suc i))
        (λ g. walk-none n m q ∙ sym (drop_all (suc i) m (leb→le (length m) (suc i) g)))
        (λ g. walk-some n (suc i) m q (leb→lt (length m) (suc i) g) (omega (arith, k))))
    ∙ sym (drop_step i m h)

walk_at :
    (n i : ℕ) (m : Entries) (q : ℕ)
    → length m ≤ n + i
    → walk n (iterator m q (position i m)) ≡ drop i m
walk_at n i m q k =
    if-cases (λ p. walk n (iterator m q p) ≡ drop i m) (leb (length m) i)
      (λ g. walk-none n m q ∙ sym (drop_all i m (leb→le (length m) i g)))
      (λ g. walk-some n i m q (leb→lt (length m) i g) k)

-- The entries whose key is not less than a bound, in their order.
unfoldable pub keys_from : List ℕ → Entries → Entries
keys_from to [] = []
keys_from to ((k, v) ∷ m) = let rest = keys_from to m in if less k to then rest else (k, v) ∷ rest

keys_from_all : (to : List ℕ) (m : Entries) → Keys (λ k. not (less k to)) m → keys_from to m ≡ m
unfolding keys_from
keys_from_all to [] a = refl
keys_from_all to ((k, v) ∷ m) a =
    let g : less k to ≡ false = ground (arith, a.0) in
    ap (λ b. if b then keys_from to m else (k, v) ∷ keys_from to m) g
    ∙ ap (λ l. (k, v) ∷ l) (keys_from_all to m a.1)

drop-lower_index :
    (to : List ℕ) (m : Entries) → IsSorted m → drop (lower_index to m) m ≡ keys_from to m
unfolding drop lower_index keys_from
drop-lower_index to [] o = refl
drop-lower_index to ((k, v) ∷ m) o = elim (Bool-cases (less k to)) [
  | inl g ↦
      ap (λ b. drop (if b then suc (lower_index to m) else 0) ((k, v) ∷ m)) g
      ∙ drop-lower_index to m o.1
      ∙ ap (λ b. if b then keys_from to m else (k, v) ∷ keys_from to m) (sym g)
  | inr g ↦
      let later =
        Keys-imp (less k) (λ i. not (less i to)) m (λ i l. ground (arith, g, less_trans k i to l))
          o.0 in
      ap (λ b. drop (if b then suc (lower_index to m) else 0) ((k, v) ∷ m)) g
      ∙ sym (keys_from_all to ((k, v) ∷ m) (ground (arith, g), later))
]

refreshed :
    (s : MemDb) (it : Iterator)
    → (s.seqno ≡ it.seqno → it.items ≡ s.db)
    → (refresh s it).items ≡ s.db
unfolding refresh
refreshed s it h =
    if-cases (λ (r : Iterator). r.items ≡ s.db) (s.seqno == it.seqno)
      (λ g. h (==→eq s.seqno it.seqno g)) (λ g. refl)

-- Take a store in order, and an iterator whose copy is that of the store if their sequence numbers
-- agree. From lower_bound on, as many steps as there are entries visit exactly the entries whose
-- key is not less than the bound, in their order.
pub walk-lower_bound :
    (to : List ℕ) (s : MemDb) (it : Iterator)
    → IsSorted s.db
    → (s.seqno ≡ it.seqno → it.items ≡ s.db)
    → walk (length s.db) (lower_bound to s it) ≡ keys_from to s.db
unfolding lower_bound
walk-lower_bound to s it o h =
    let r = refresh s it in
    let same = refreshed s it h in
    walk_at (length s.db) (lower_index to r.items) r.items r.seqno
      (omega (arith, ap (λ (m : Entries). length m) same))
    ∙ ap (λ m. drop (lower_index to m) m) same
    ∙ drop-lower_index to s.db o
