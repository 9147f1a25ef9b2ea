-- ===== src/Btier/KeyMap/Sets.antt =====
-- The sets and the index of btier/key_map.cc, by membership.
use cxxlab.Prelude.{
  ℕ, ◌≡◌, refl, Bool, true, not, ◌&&◌, ◌||◌, List, [], ◌∷◌, Option, none, some, arith, ◌==◌, ==_iff,
  if◌then◌else◌, Eq, nat_eq, beq, lookup, lookup-put, lookup-erase, Bool-cases,
}
use mathlib.Core.Path.{ap}
use cxxlab.Btier.KeyMap.{
  member, set_insert, set_erase, or_nothing, put_nonempty, drop_key, drop_from, add_key,
}

module _ {K : Type 0} ⦃e : Eq K⦄ where
  -- Equal keys are in a set together.
  member_same : (k j : K) (ks : List K) → beq k j ≡ true → member k ks ≡ member j ks
  member_same k j ks h = ap (λ i. member i ks) ((e.beq_iff k j).0 h)

  pub member-set_insert :
      (k j : K) (ks : List K) → member j (set_insert k ks) ≡ (beq k j || member j ks)
  unfolding set_insert member
  member-set_insert k j ks =
      ground (arith, Bool-cases (member k ks), Bool-cases (beq k j), member_same k j ks)

  member-set_erase :
      (k j : K) (ks : List K) → member j (set_erase k ks) ≡ (not (beq k j) && member j ks)
  unfolding set_erase member
  member-set_erase k j [] = ground arith
  member-set_erase k j (i ∷ ks) =
      ground (arith, e.beq_iff k j, e.beq_iff i k, e.beq_iff i j, member-set_erase k j ks)

  -- Whether the index has a key under an extent.
  abbrev pub indexed : ℕ → K → List (ℕ × List K) → Bool
  indexed id j r = member j (or_nothing (lookup id r))

  lookup-put_nonempty :
      (id i : ℕ) (ks : List K) (r : List (ℕ × List K))
      → or_nothing (lookup i (put_nonempty id ks r))
        ≡ (if id == i then ks else or_nothing (lookup i r))
  lookup-put_nonempty id i [] r = ground (arith, lookup-erase id i r)
  lookup-put_nonempty id i (k ∷ ks) r = ground (arith, lookup-put id i (k ∷ ks) r)

  found_same : (id i : ℕ) (r : List (ℕ × List K)) → (id == i) ≡ true → lookup id r ≡ lookup i r
  found_same id i r h = ap (λ n. lookup n r) ((==_iff id i).0 h)

  indexed-drop_from :
      (id i : ℕ) (k j : K) (r : List (ℕ × List K)) (o : Option (List K))
      → lookup id r ≡ o
      → indexed i j (drop_from id k o r) ≡ (not (id == i && beq k j) && indexed i j r)
  unfolding member
  indexed-drop_from id i k j r none h = ground (arith, h, found_same id i r)
  indexed-drop_from id i k j r (some ks) h = ground (
    arith,
    h,
    found_same id i r,
    lookup-put_nonempty id i (set_erase k ks) r,
    member-set_erase k j ks,
  )

  pub indexed-drop_key :
      (id i : ℕ) (k j : K) (r : List (ℕ × List K))
      → indexed i j (drop_key id k r) ≡ (not (id == i && beq k j) && indexed i j r)
  unfolding drop_key
  indexed-drop_key id i k j r = indexed-drop_from id i k j r (lookup id r) refl

  pub indexed-add_key :
      (id i : ℕ) (k j : K) (r : List (ℕ × List K))
      → indexed i j (add_key id k r) ≡ ((id == i && beq k j) || indexed i j r)
  unfolding add_key
  indexed-add_key id i k j r = ground (
    arith,
    lookup-put id i (set_insert k (or_nothing (lookup id r))) r,
    found_same id i r,
    member-set_insert k j (or_nothing (lookup id r)),
  )
