-- ===== src/Btier/ExtentMap/Placement/Sums.antt =====
-- How many locations have a byte, as an entry is stored, exchanged or erased and a deferred free added.
use mathlib.Core.Path.{subst}
use cxxlab.Prelude.{
  ℕ, ◌+◌, ◌≤◌, ◌≡◌, ap, arith, List, [], ◌∷◌, ◌++◌, none, some, All, ◌==◌, if-cases, Bool-cases,
  inl, inr, lookup, put, erase, nat_eq,
}
use cxxlab.Btier.Types.{Tier, DiskLocation}
use cxxlab.Btier.ExtentMap.{ExtentEntry, DeferredFreeEntry}
use cxxlab.Btier.ExtentMap.Placement.{location_at, held, entry_locs, deferred_locs}

module _ (t : Tier) (n : ℕ) where
  pub held-append : (l m : List DiskLocation) → held t n (l ++ m) ≡ held t n l + held t n m
  unfolding held
  held-append [] m = omega arith
  held-append (x ∷ l) m = omega (arith, held-append l m)

  pub held-snoc :
      (ds : List DeferredFreeEntry) (d : DeferredFreeEntry)
      → held t n (deferred_locs (ds ++ d ∷ []))
        ≡ held t n (deferred_locs ds) + location_at t n d.loc
  unfolding held deferred_locs
  held-snoc [] d = omega arith
  held-snoc (x ∷ ds) d = omega (arith, held-snoc ds d)

  -- A new number.
  pub held-put_new :
      (id : ℕ) (e : ExtentEntry) (m : List (ℕ × ExtentEntry))
      → lookup id m ≡ none
      → held t n (entry_locs (put id e m)) ≡ held t n (entry_locs m) + location_at t n e.location
  unfolding held entry_locs lookup put
  held-put_new id e [] h = omega arith
  held-put_new id e ((j, x) ∷ m) h = elim (Bool-cases (j == id)) [
    | inl same ↦ absurd (ground (arith, same, h))
    | inr other ↦
        let rest = held-put_new id e m (ground (arith, other, h)) in rw other (omega (arith, rest))
  ]

  -- The entry of a number is exchanged.
  pub held-put :
      (id : ℕ) (e x : ExtentEntry) (m : List (ℕ × ExtentEntry))
      → lookup id m ≡ some x
      → held t n (entry_locs (put id e m)) + location_at t n x.location
        ≡ held t n (entry_locs m) + location_at t n e.location
  unfolding held entry_locs lookup put
  held-put id e x [] h = absurd (ground (arith, h))
  held-put id e x ((j, y) ∷ m) h = elim (Bool-cases (j == id)) [
    | inl same ↦
        let is : y ≡ x = ground (arith, same, h) in
        rw same (omega (arith, ap (λ (z : ExtentEntry). location_at t n z.location) is))
    | inr other ↦
        let rest = held-put id e x m (ground (arith, other, h)) in rw other (omega (arith, rest))
  ]

  held-erase_le :
      (id : ℕ) (m : List (ℕ × ExtentEntry))
      → held t n (entry_locs (erase id m)) ≤ held t n (entry_locs m)
  unfolding held entry_locs erase
  held-erase_le id [] = omega arith
  held-erase_le id ((j, y) ∷ m) = elim (Bool-cases (j == id)) [
    | inl same ↦ rw same (omega (arith, held-erase_le id m))
    | inr other ↦ rw other (omega (arith, held-erase_le id m))
  ]

  pub held-erase :
      (id : ℕ) (x : ExtentEntry) (m : List (ℕ × ExtentEntry))
      → lookup id m ≡ some x
      → held t n (entry_locs (erase id m)) + location_at t n x.location ≤ held t n (entry_locs m)
  unfolding held entry_locs lookup erase
  held-erase id x [] h = absurd (ground (arith, h))
  held-erase id x ((j, y) ∷ m) h = elim (Bool-cases (j == id)) [
    | inl same ↦
        let is : y ≡ x = ground (arith, same, h) in
        rw same (
          omega
            (arith, held-erase_le id m, ap (λ (z : ExtentEntry). location_at t n z.location) is))
    | inr other ↦ rw other (omega (arith, held-erase id x m (ground (arith, other, h))))
  ]

module _ (P : DiskLocation → Type 0) where
  pub All-put :
      (id : ℕ) (e : ExtentEntry) (m : List (ℕ × ExtentEntry))
      → P e.location
      → All P (entry_locs m)
      → All P (entry_locs (put id e m))
  unfolding entry_locs put
  All-put id e [] p h = (p, tt)
  All-put id e ((j, y) ∷ m) p h =
      if-cases (λ (l : List (ℕ × ExtentEntry)). All P (entry_locs l)) (j == id) (λ same. (p, h.1))
        (λ other. (h.0, All-put id e m p h.1))

  pub All-erase :
      (id : ℕ) (m : List (ℕ × ExtentEntry)) → All P (entry_locs m) → All P (entry_locs (erase id m))
  unfolding entry_locs erase
  All-erase id [] h = tt
  All-erase id ((j, y) ∷ m) h =
      if-cases (λ (l : List (ℕ × ExtentEntry)). All P (entry_locs l)) (j == id)
        (λ same. All-erase id m h.1) (λ other. (h.0, All-erase id m h.1))

  pub All-lookup :
      (id : ℕ) (x : ExtentEntry) (m : List (ℕ × ExtentEntry))
      → lookup id m ≡ some x
      → All P (entry_locs m)
      → P x.location
  unfolding entry_locs lookup
  All-lookup id x [] h a = absurd (ground (arith, h))
  All-lookup id x ((j, y) ∷ m) h a = elim (Bool-cases (j == id)) [
    | inl same ↦
        let is : y ≡ x = ground (arith, same, h) in subst (λ (z : ExtentEntry). P z.location) is a.0
    | inr other ↦ All-lookup id x m (ground (arith, other, h)) a.1
  ]

  pub All-snoc :
      (ds : List DeferredFreeEntry) (d : DeferredFreeEntry)
      → P d.loc
      → All P (deferred_locs ds)
      → All P (deferred_locs (ds ++ d ∷ []))
  unfolding deferred_locs
  All-snoc [] d p h = (p, tt)
  All-snoc (x ∷ ds) d p h = (h.0, All-snoc ds d p h.1)

  -- A location between others.
  pub All-without :
      (front : List DiskLocation) (l : DiskLocation) (rest : List DiskLocation)
      → All P (front ++ (l ∷ rest))
      → All P (front ++ rest) × P l
  All-without [] l rest h = (h.1, h.0)
  All-without (x ∷ front) l rest h = let (a, b) = All-without front l rest h.1 in ((h.0, a), b)

  pub All-with :
      (front : List DiskLocation) (l : DiskLocation) (rest : List DiskLocation)
      → P l
      → All P (front ++ rest)
      → All P (front ++ (l ∷ rest))
  All-with [] l rest p h = (p, h)
  All-with (x ∷ front) l rest p h = (h.0, All-with front l rest p h.1)

  pub All-both : (l m : List DiskLocation) → All P l → All P m → All P (l ++ m)
  All-both [] m h k = k
  All-both (x ∷ l) m h k = (h.0, All-both l m h.1 k)
