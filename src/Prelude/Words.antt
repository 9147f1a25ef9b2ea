-- ===== src/Prelude/Words.antt =====
-- Unsigned machine words as native numbers: C++ wraps them, so the wrap is written out.
use Prim.Native.Nat.{ℕ, ◌+◌, ◌-◌, ◌%◌, ◌^◌, ◌≤◌, ◌<◌}
use mathlib.Core.Path.{◌≡◌}
use native.Mathlib.Omega.{arith}

abbrev pub u32_mod : ℕ
u32_mod = 2 ^ 32

abbrev pub u64_mod : ℕ
u64_mod = 2 ^ 64

unfoldable pub add64 : ℕ → ℕ → ℕ
add64 a b = (a + b) % u64_mod

unfoldable pub sub64 : ℕ → ℕ → ℕ
sub64 a b = (a + u64_mod - b) % u64_mod

unfoldable pub add32 : ℕ → ℕ → ℕ
add32 a b = (a + b) % u32_mod

unfoldable pub sub32 : ℕ → ℕ → ℕ
sub32 a b = (a + u32_mod - b) % u32_mod

pub add64-eq : (a b : ℕ) → a + b < u64_mod → add64 a b ≡ a + b
unfolding add64
add64-eq a b h = omega arith

pub sub64-eq : (a b : ℕ) → b ≤ a → a < u64_mod → sub64 a b ≡ a - b
unfolding sub64
sub64-eq a b h k = omega arith

pub add32-eq : (a b : ℕ) → a + b < u32_mod → add32 a b ≡ a + b
unfolding add32
add32-eq a b h = omega arith

pub sub32-eq : (a b : ℕ) → b ≤ a → a < u32_mod → sub32 a b ≡ a - b
unfolding sub32
sub32-eq a b h k = omega arith

-- `total += new - old` is exact where the true result is in range, whatever wraps on the way.
pub add64-sub64 :
    (total new old result : ℕ)
    → result + old ≡ total + new
    → result < u64_mod
    → add64 total (sub64 new (old % u64_mod)) ≡ result
unfolding add64 sub64
add64-sub64 total new old result h k = omega arith

pub add64-sub64_small :
    (total new old result : ℕ)
    → result + old ≡ total + new
    → result < u64_mod
    → old < u64_mod
    → add64 total (sub64 new old) ≡ result
unfolding add64 sub64
add64-sub64_small total new old result h k l = omega arith

pub ruleset word_laws = (add64-eq, sub64-eq, add32-eq, sub32-eq)
