-- ===== src/Prelude/Bits.antt =====
-- Laws of `&` and `|` at variables, for masks and for fields that do not overlap.
use Prim.Native.Nat.{
  ℕ, zero, suc, ◌+◌, ◌-◌, ◌*◌, ◌/◌, ◌%◌, ◌^◌, ◌≤◌, ◌<◌, min, max, bit_and, bit_or, digits,
  bit_and-bitwise, bit_or-bitwise,
}
use native.Mathlib.Nat.{pow-suc, div-add-mod', mod-lt, add-mul-mod_self_right, mod-eq_of_lt}
use mathlib.Core.Path.{◌≡◌, refl, sym, ap, ◌∙◌}
use native.Mathlib.Omega.{arith}

module _ (z : ℕ → ℕ) (f : ℕ → ℕ → ℕ) where
  -- More digits than the number has change nothing.
  spare_digits : (bound n a b : ℕ) → a ≤ bound → a ≤ n → digits z f n a b ≡ digits z f a a b
  spare_digits bound zero zero b small enough = refl
  spare_digits bound (suc n) zero b small enough = refl
  spare_digits bound zero (suc a) b small enough = absurd (omega arith)
  spare_digits zero (suc n) (suc a) b small enough = absurd (omega arith)
  spare_digits (suc bound) (suc n) (suc a) b small enough =
      let half = suc a / 2 in
      omega (
        arith,
        spare_digits bound n half (b / 2) (omega arith) (omega arith),
        spare_digits bound a half (b / 2) (omega arith) (omega arith),
      )

  -- One digit off both numbers, where the rule for a number that has run out agrees.
  digits_step :
      ((b : ℕ) → z b ≡ z (b / 2) * 2 + f 0 (b % 2))
      → (a b : ℕ) → digits z f a a b ≡ digits z f (a / 2) (a / 2) (b / 2) * 2 + f (a % 2) (b % 2)
  digits_step out zero b = out b
  digits_step out (suc a) b =
      omega (arith, spare_digits (suc a) a (suc a / 2) (b / 2) (omega arith) (omega arith))

bit_and_step : (a b : ℕ) → bit_and a b ≡ bit_and (a / 2) (b / 2) * 2 + min (a % 2) (b % 2)
bit_and_step a b =
    bit_and-bitwise a b
    ∙ digits_step (λ b. zero) min (λ b. omega arith) a b
    ∙ ap (λ (t : ℕ). t * 2 + min (a % 2) (b % 2)) (sym (bit_and-bitwise (a / 2) (b / 2)))

bit_or_step : (a b : ℕ) → bit_or a b ≡ bit_or (a / 2) (b / 2) * 2 + max (a % 2) (b % 2)
bit_or_step a b =
    bit_or-bitwise a b
    ∙ digits_step (λ b. b) max (λ b. omega arith) a b
    ∙ ap (λ (t : ℕ). t * 2 + max (a % 2) (b % 2)) (sym (bit_or-bitwise (a / 2) (b / 2)))

and_digits-zero : (n a : ℕ) → digits (λ b. zero) min n a 0 ≡ 0
and_digits-zero zero a = refl
and_digits-zero (suc n) zero = refl
and_digits-zero (suc n) (suc a) = omega (arith, and_digits-zero n (suc a / 2))

bit_and-zero : (a : ℕ) → bit_and a 0 ≡ 0
bit_and-zero a = bit_and-bitwise a 0 ∙ and_digits-zero a a

bit_or-zero_left : (b : ℕ) → bit_or 0 b ≡ b
bit_or-zero_left b = bit_or-bitwise 0 b

bit_or-double : (a p : ℕ) → bit_or a (p * 2) ≡ bit_or (a / 2) p * 2 + a % 2
bit_or-double a p =
    let e : p * 2 / 2 ≡ p = omega arith in
    omega (arith, bit_or_step a (p * 2), ap (λ (t : ℕ). bit_or (a / 2) t) e)

bit_and-double_one : (a p : ℕ) → bit_and a (p * 2 + 1) ≡ bit_and (a / 2) p * 2 + a % 2
bit_and-double_one a p =
    let e : (p * 2 + 1) / 2 ≡ p = omega arith in
    omega (arith, bit_and_step a (p * 2 + 1), ap (λ (t : ℕ). bit_and (a / 2) t) e)

mod-double : (a p : ℕ) → 0 < p → a % (p * 2) ≡ a / 2 % p * 2 + a % 2
mod-double a p h =
    let r : ℕ = a / 2 % p * 2 + a % 2 in
    let e : a ≡ r + a / 2 / p * (p * 2) = omega (arith, div-add-mod' (a / 2) p) in
    let small : r < p * 2 = omega (arith, mod-lt (a / 2) h) in
    ap (λ (t : ℕ). t % (p * 2)) e
    ∙ add-mul-mod_self_right r (a / 2 / p) (p * 2)
    ∙ mod-eq_of_lt small

pub pow-two-pos : (k : ℕ) → 0 < 2 ^ k
pow-two-pos zero = omega arith
pow-two-pos (suc k) = omega (arith, pow-suc 2 k, pow-two-pos k)

-- A field of k bits below another one: `|` of the two is their sum.
pub bit_or-eq-add : (k a b : ℕ) → a < 2 ^ k → bit_or a (b * 2 ^ k) ≡ a + b * 2 ^ k
bit_or-eq-add zero a b h = ground (arith, bit_or-zero_left (b * 2 ^ 0))
bit_or-eq-add (suc k) a b h =
    let e : b * 2 ^ suc k ≡ b * 2 ^ k * 2 = omega (arith, ap (λ (t : ℕ). b * t) (pow-suc 2 k)) in
    let below : a / 2 < 2 ^ k = omega (arith, pow-suc 2 k) in
    rw e (omega (arith, bit_or-double a (b * 2 ^ k), bit_or-eq-add k (a / 2) b below))

-- `a & (2 ^ k - 1)` keeps the k lowest bits.
pub bit_and-mask : (k a : ℕ) → bit_and a (2 ^ k - 1) ≡ a % 2 ^ k
bit_and-mask zero a = omega (arith, bit_and-zero a)
bit_and-mask (suc k) a =
    let pos : 0 < 2 ^ k = pow-two-pos k in
    let e : 2 ^ suc k - 1 ≡ (2 ^ k - 1) * 2 + 1 = omega (arith, pow-suc 2 k) in
    let f : 2 ^ suc k ≡ 2 ^ k * 2 = pow-suc 2 k in
    rw (e, f)
      (omega
        (arith, bit_and-double_one a (2 ^ k - 1), bit_and-mask k (a / 2), mod-double a (2 ^ k) pos))
