-- ===== src/Kv/MemDb/Ranges.antt =====
-- What the loops of kv/mem/mem_db.cc make of a map in the order of its keys.
use cxxlab.Prelude.{
  ℕ, ◌≡◌, refl, Bool, true, false, not, ◌&&◌, List, [], ◌∷◌, none, some, arith, if◌then◌else◌, beq,
  lookup, erase, All, ap, Bool-cases, inl, inr, if-cases,
}
use cxxlab.Kv.Bytes.{less, less_trans, less_total, bytes_eq, equal, equal_to}
use cxxlab.Kv.MemDb.{assign, erase_while, erase_from}

abbrev pub Entries : Type 0
Entries = List (List ℕ × List ℕ)

-- Every key has a test.
abbrev pub Keys : (List ℕ → Bool) → Entries → Type 0
Keys q m = All (λ e. q e.0 ≡ true) m

-- The order of std::map.
abbrev pub IsSorted : Entries → Type 0
IsSorted [] = Unit
IsSorted ((k, v) ∷ m) = Keys (less k) m × IsSorted m

pub Keys-imp :
    (q r : List ℕ → Bool) (m : Entries)
    → ((k : List ℕ) → q k ≡ true → r k ≡ true)
    → Keys q m
    → Keys r m
Keys-imp q r [] h a = a
Keys-imp q r (e ∷ m) h a = (h e.0 a.0, Keys-imp q r m h a.1)

same_test : (q : List ℕ → Bool) (k j : List ℕ) → equal k j ≡ true → q k ≡ q j
same_test q k j h = ap q (equal_to k j h)

-- A key that fails the test of all keys is not there.
lookup-Keys :
    (q : List ℕ → Bool) (j : List ℕ) (m : Entries) → Keys q m → q j ≡ false → lookup j m ≡ none
unfolding lookup
lookup-Keys q j [] a h = refl
lookup-Keys q j ((k, v) ∷ m) a h = ground (arith, h, a.0, same_test q k j, lookup-Keys q j m a.1)

pub lookup-assign :
    (k j v : List ℕ) (m : Entries)
    → lookup j (assign k v m) ≡ (if beq k j then some v else lookup j m)
unfolding lookup assign
lookup-assign k j v [] = refl
lookup-assign k j v ((i, w) ∷ m) =
    ground (
      arith,
      bytes_eq.beq_iff k j,
      bytes_eq.beq_iff i k,
      bytes_eq.beq_iff i j,
      lookup-assign k j v m,
    )

Keys-assign :
    (q : List ℕ → Bool) (k v : List ℕ) (m : Entries) → q k ≡ true → Keys q m → Keys q (assign k v m)
unfolding assign
Keys-assign q k v [] h a = (h, tt)
Keys-assign q k v ((j, w) ∷ m) h a =
    if-cases (Keys q) (beq j k) (λ e. a)
      (λ e. if-cases (Keys q) (less k j) (λ l. (h, a)) (λ l. (a.0, Keys-assign q k v m h a.1)))

pub assign-IsSorted : (k v : List ℕ) (m : Entries) → IsSorted m → IsSorted (assign k v m)
unfolding assign
assign-IsSorted k v [] s = (tt, tt)
assign-IsSorted k v ((j, w) ∷ m) s =
    if-cases IsSorted (beq j k) (λ e. s)
      (λ e.
        if-cases IsSorted (less k j)
          (λ l. ((l, Keys-imp (less j) (less k) m (λ i g. less_trans k j i l g) s.0), s))
          (λ l. (Keys-assign (less j) k v m (less_total k j e l) s.0, assign-IsSorted k v m s.1)))

Keys-erase : (q : List ℕ → Bool) (k : List ℕ) (m : Entries) → Keys q m → Keys q (erase k m)
unfolding erase
Keys-erase q k [] a = a
Keys-erase q k ((j, w) ∷ m) a =
    if-cases (Keys q) (beq j k) (λ e. Keys-erase q k m a.1) (λ e. (a.0, Keys-erase q k m a.1))

pub erase-IsSorted : (k : List ℕ) (m : Entries) → IsSorted m → IsSorted (erase k m)
unfolding erase
erase-IsSorted k [] s = s
erase-IsSorted k ((j, w) ∷ m) s =
    if-cases IsSorted (beq j k) (λ e. erase-IsSorted k m s.1)
      (λ e. (Keys-erase (less j) k m s.0, erase-IsSorted k m s.1))

Keys-erase_while : (q p : List ℕ → Bool) (m : Entries) → Keys q m → Keys q (erase_while p m)
unfolding erase_while
Keys-erase_while q p [] a = a
Keys-erase_while q p ((j, w) ∷ m) a =
    if-cases (Keys q) (p j) (λ e. Keys-erase_while q p m a.1) (λ e. a)

Keys-erase_from :
    (q p : List ℕ → Bool) (s : List ℕ) (m : Entries) → Keys q m → Keys q (erase_from s p m)
unfolding erase_from
Keys-erase_from q p s [] a = a
Keys-erase_from q p s ((j, w) ∷ m) a =
    if-cases (Keys q) (less j s) (λ e. (a.0, Keys-erase_from q p s m a.1))
      (λ e. Keys-erase_while q p ((j, w) ∷ m) a)

erase_while-IsSorted : (p : List ℕ → Bool) (m : Entries) → IsSorted m → IsSorted (erase_while p m)
unfolding erase_while
erase_while-IsSorted p [] s = s
erase_while-IsSorted p ((j, w) ∷ m) s =
    if-cases IsSorted (p j) (λ e. erase_while-IsSorted p m s.1) (λ e. s)

pub erase_from-IsSorted :
    (a : List ℕ) (p : List ℕ → Bool) (m : Entries) → IsSorted m → IsSorted (erase_from a p m)
unfolding erase_from
erase_from-IsSorted a p [] s = s
erase_from-IsSorted a p ((j, w) ∷ m) s =
    if-cases IsSorted (less j a)
      (λ e. (Keys-erase_from (less j) p a m s.0, erase_from-IsSorted a p m s.1))
      (λ e. erase_while-IsSorted p ((j, w) ∷ m) s)

-- Once the test fails it fails for all larger keys.
abbrev pub IsRun : List ℕ → (List ℕ → Bool) → Type 0
IsRun s p = (a b : List ℕ) → less a s ≡ false → p a ≡ false → less a b ≡ true → p b ≡ false

-- Keys from a bound on.
abbrev from : List ℕ → List ℕ → Bool
from s k = not (less k s)

module _ (s : List ℕ) (p : List ℕ → Bool) (run : IsRun s p) where
  lookup-erase_while :
      (j : List ℕ) (m : Entries)
      → IsSorted m
      → Keys (from s) m
      → lookup j (erase_while p m) ≡ (if p j then none else lookup j m)
  unfolding erase_while lookup
  lookup-erase_while j [] o a = ground arith
  lookup-erase_while j ((k, v) ∷ m) o a = elim (Bool-cases (p k)) [
    | inl g ↦ ground (arith, g, same_test p k j, lookup-erase_while j m o.1 a.1)
    | inr g ↦
        let stay =
          Keys-imp (less k) (λ i. not (p i)) m
            (λ i l. ground (arith, run k i (ground (arith, a.0)) g l)) o.0 in
        ground (arith, g, same_test p k j, lookup-Keys (λ i. not (p i)) j m stay)
  ]

  -- The loop erases the keys from the bound on that pass the test, and no other.
  pub lookup-erase_from :
      (j : List ℕ) (m : Entries)
      → IsSorted m
      → lookup j (erase_from s p m) ≡ (if not (less j s) && p j then none else lookup j m)
  unfolding erase_from lookup
  lookup-erase_from j [] o = ground arith
  lookup-erase_from j ((k, v) ∷ m) o = elim (Bool-cases (less k s)) [
    | inl g ↦ ground (arith, g, same_test (λ i. less i s) k j, lookup-erase_from j m o.1)
    | inr g ↦
        let later =
          Keys-imp (less k) (from s) m (λ i l. ground (arith, g, less_trans k i s l)) o.0 in
        ground (
          arith,
          g,
          lookup-erase_while j ((k, v) ∷ m) o (ground (arith, g), later),
          lookup-Keys (from s) j ((k, v) ∷ m) (ground (arith, g), later),
        )
  ]
