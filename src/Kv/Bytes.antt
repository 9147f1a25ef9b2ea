-- ===== src/Kv/Bytes.antt =====
-- Strings of kv/ as lists of bytes, in the order of std::string, and the keys of key_value_db.h.
use cxxlab.Prelude.{
  ℕ, ◌≡◌, ◌≢◌, refl, Bool, true, false, ◌&&◌, ◌||◌, List, [], ◌∷◌, ◌++◌, arith, ltb, ◌==◌, ==→eq,
  if-cases, sym, ◌∙◌, if◌then◌else◌, Eq, All, ap,
}

-- std::string::operator==
unfoldable pub equal : List ℕ → List ℕ → Bool
equal [] [] = true
equal [] (y ∷ ys) = false
equal (x ∷ xs) [] = false
equal (x ∷ xs) (y ∷ ys) = x == y && equal xs ys

-- std::string::operator<
unfoldable pub less : List ℕ → List ℕ → Bool
less xs [] = false
less [] (y ∷ ys) = true
less (x ∷ xs) (y ∷ ys) = ltb x y || (x == y && less xs ys)

-- s.compare(0, start.size(), start) == 0
unfoldable pub starts_with : List ℕ → List ℕ → Bool
starts_with [] ys = true
starts_with (x ∷ xs) [] = false
starts_with (x ∷ xs) (y ∷ ys) = x == y && starts_with xs ys

unfoldable pub encode_key : List ℕ → List ℕ → List ℕ
encode_key prefix key = prefix ++ 0 ∷ key

-- The bytes before the first zero byte, and those behind it.
unfoldable pub decode_key : List ℕ → List ℕ × List ℕ
decode_key [] = ([], [])
decode_key (x ∷ xs) = let rest = decode_key xs in if x == 0 then ([], xs) else (x ∷ rest.0, rest.1)

pub equal_to : (xs ys : List ℕ) → equal xs ys ≡ true → xs ≡ ys
unfolding equal
equal_to [] [] h = refl
equal_to [] (y ∷ ys) h = ground (arith, h)
equal_to (x ∷ xs) [] h = ground (arith, h)
equal_to (x ∷ xs) (y ∷ ys) h =
    cc (==→eq x y (ground (arith, h)), equal_to xs ys (ground (arith, h)))

pub equal_refl : (xs : List ℕ) → equal xs xs ≡ true
unfolding equal
equal_refl [] = refl
equal_refl (x ∷ xs) = ground (arith, equal_refl xs)

instance abbrev pub bytes_eq : Eq (List ℕ)
bytes_eq = record {
  beq = equal;
  beq_iff = λ xs ys. (equal_to xs ys, λ h. ap (equal xs) (sym h) ∙ equal_refl xs);
}

pub less_irrefl : (xs : List ℕ) → less xs xs ≡ false
unfolding less
less_irrefl [] = refl
less_irrefl (x ∷ xs) = ground (arith, less_irrefl xs)

pub less_trans : (xs ys zs : List ℕ) → less xs ys ≡ true → less ys zs ≡ true → less xs zs ≡ true
unfolding less
less_trans xs ys [] h k = k
less_trans xs [] (z ∷ zs) h k = ground (arith, h)
less_trans [] (y ∷ ys) (z ∷ zs) h k = refl
less_trans (x ∷ xs) (y ∷ ys) (z ∷ zs) h k = ground (arith, h, k, less_trans xs ys zs)

-- Strings that are not equal are ordered.
pub less_total : (xs ys : List ℕ) → equal ys xs ≡ false → less xs ys ≡ false → less ys xs ≡ true
unfolding less equal
less_total [] [] h k = ground (arith, h)
less_total [] (y ∷ ys) h k = ground (arith, k)
less_total (x ∷ xs) [] h k = refl
less_total (x ∷ xs) (y ∷ ys) h k = ground (arith, h, k, less_total xs ys)

-- The strings with a prefix come together in the order, from the prefix on.
pub starts_with-run :
    (s a b : List ℕ)
    → less a s ≡ false
    → starts_with s a ≡ false
    → less a b ≡ true
    → starts_with s b ≡ false
unfolding less starts_with
starts_with-run [] a b h k l = ground (arith, k)
starts_with-run (x ∷ s) [] b h k l = ground (arith, h)
starts_with-run (x ∷ s) (y ∷ a) [] h k l = refl
starts_with-run (x ∷ s) (y ∷ a) (z ∷ b) h k l = ground (arith, h, k, l, starts_with-run s a b)

pub starts_with-less : (s a : List ℕ) → starts_with s a ≡ true → less a s ≡ false
unfolding less starts_with
starts_with-less [] a h = refl
starts_with-less (x ∷ s) [] h = ground (arith, h)
starts_with-less (x ∷ s) (y ∷ a) h = ground (arith, h, starts_with-less s a)

-- A prefix without a zero byte and any key come back from their encoding.
pub decode_key-encode_key :
    (prefix key : List ℕ)
    → All (λ x. x ≢ 0) prefix
    → decode_key (encode_key prefix key) ≡ (prefix, key)
unfolding decode_key encode_key
decode_key-encode_key [] key a = refl
decode_key-encode_key (x ∷ xs) key a =
    let rest = decode_key-encode_key xs key a.1 in
    if-cases (λ (r : List ℕ × List ℕ). r ≡ (x ∷ xs, key)) (x == 0)
      (λ h. elim (a.0 (==→eq x 0 h)) [ ]) (λ h. ap (λ (r : List ℕ × List ℕ). (x ∷ r.0, r.1)) rest)
