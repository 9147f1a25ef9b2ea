-- ===== src/Btier/Metrics.antt =====
-- btier/btier_types.h, ExtentMetrics: the 64-bit word that packs an extent's counters, its state and
-- its generation.
pub mod Fields
pub mod Tests
use Prim.Native.Nat.{bit_and, bit_or}
use cxxlab.Prelude.{ℕ, ◌*◌, ◌/◌, ◌%◌, ◌^◌, Bool, ◌==◌, u64_mod}
use cxxlab.Btier.Types.{migrating}

-- x << k and x >> k on uint64_t
abbrev pub shl : ℕ → ℕ → ℕ
shl x k = x * 2 ^ k % u64_mod

abbrev pub shr : ℕ → ℕ → ℕ
shr x k = x / 2 ^ k

unfoldable pub pack : ℕ → ℕ → ℕ → ℕ → ℕ → ℕ
pack access write random state gen =
    bit_or
      (bit_or
        (bit_or (bit_or (bit_and access 0xfff) (shl (bit_and write 0xfff) 12))
          (shl (bit_and random 0x3f) 24))
        (shl (bit_and state 0x3) 30))
      (shl (bit_and gen 0xffff_ffff) 32)

unfoldable pub access_count : ℕ → ℕ
access_count v = bit_and v 0xfff

unfoldable pub write_count : ℕ → ℕ
write_count v = bit_and (shr v 12) 0xfff

unfoldable pub randomness : ℕ → ℕ
randomness v = bit_and (shr v 24) 0x3f

unfoldable pub state : ℕ → ℕ
state v = bit_and (shr v 30) 0x3

unfoldable pub generation : ℕ → ℕ
generation v = shr v 32

unfoldable pub is_migrating : ℕ → Bool
is_migrating v = state v == migrating
