-- ===== src/Btier/Metrics/Fields.antt =====
-- What the metrics word of btier/btier_types.h holds: each field by itself, and nothing else.
use Prim.Native.Nat.{bit_or}
use cxxlab.Prelude.{
  ℕ, ◌+◌, ◌*◌, ◌/◌, ◌%◌, ◌^◌, ◌<◌, ◌≡◌, refl, arith, bit_and-mask, bit_or-eq-add, u64_mod,
}
use native.Mathlib.Nat.{mod-eq_of_lt}
use cxxlab.Btier.Metrics.{shl, shr, pack, access_count, write_count, randomness, state, generation}

add_field :
    (k acc f : ℕ) → acc < 2 ^ k → f * 2 ^ k < u64_mod → bit_or acc (shl f k) ≡ acc + f * 2 ^ k
add_field k acc f low fits =
    let e : shl f k ≡ f * 2 ^ k = mod-eq_of_lt fits in rw e (bit_or-eq-add k acc f low)

pack-sum :
    (a w r s g : ℕ)
    → pack a w r s g
      ≡ a % 2 ^ 12
        + w % 2 ^ 12 * 2 ^ 12
        + r % 2 ^ 6 * 2 ^ 24
        + s % 2 ^ 2 * 2 ^ 30
        + g % 2 ^ 32 * 2 ^ 32
unfolding pack
pack-sum a w r s g =
    let acc1 : ℕ = a % 2 ^ 12 in
    let acc2 : ℕ = acc1 + w % 2 ^ 12 * 2 ^ 12 in
    let acc3 : ℕ = acc2 + r % 2 ^ 6 * 2 ^ 24 in
    let acc4 : ℕ = acc3 + s % 2 ^ 2 * 2 ^ 30 in
    rw (
      bit_and-mask 12 a,
      bit_and-mask 12 w,
      bit_and-mask 6 r,
      bit_and-mask 2 s,
      bit_and-mask 32 g,
      add_field 12 acc1 (w % 2 ^ 12) (omega arith) (omega arith),
      add_field 24 acc2 (r % 2 ^ 6) (omega arith) (omega arith),
      add_field 30 acc3 (s % 2 ^ 2) (omega arith) (omega arith),
      add_field 32 acc4 (g % 2 ^ 32) (omega arith) (omega arith),
    )

module _ (v : ℕ) where
  access_count-eq : access_count v ≡ v % 2 ^ 12
  unfolding access_count
  access_count-eq = bit_and-mask 12 v

  write_count-eq : write_count v ≡ v / 2 ^ 12 % 2 ^ 12
  unfolding write_count
  write_count-eq = bit_and-mask 12 (shr v 12)

  randomness-eq : randomness v ≡ v / 2 ^ 24 % 2 ^ 6
  unfolding randomness
  randomness-eq = bit_and-mask 6 (shr v 24)

  state-eq : state v ≡ v / 2 ^ 30 % 2 ^ 2
  unfolding state
  state-eq = bit_and-mask 2 (shr v 30)

  generation-eq : generation v ≡ v / 2 ^ 32
  unfolding generation
  generation-eq = refl

-- The width of each field.
pub fields-lt :
    (v : ℕ)
    → (access_count v < 2 ^ 12)
      × (write_count v < 2 ^ 12)
      × (randomness v < 2 ^ 6)
      × (state v < 2 ^ 2)
fields-lt v = (
  omega (arith, access_count-eq v),
  omega (arith, write_count-eq v),
  omega (arith, randomness-eq v),
  omega (arith, state-eq v),
)

pub generation-lt : (v : ℕ) → v < 2 ^ 64 → generation v < 2 ^ 32
generation-lt v h = omega (arith, generation-eq v)

-- What `pack` puts in, each accessor reads back, cut to the width of its field; the word fits in 64
-- bits.
pub pack_fields :
    (a w r s g : ℕ)
    → (access_count (pack a w r s g) ≡ a % 2 ^ 12)
      × (write_count (pack a w r s g) ≡ w % 2 ^ 12)
      × (randomness (pack a w r s g) ≡ r % 2 ^ 6)
      × (state (pack a w r s g) ≡ s % 2 ^ 2)
      × (generation (pack a w r s g) ≡ g % 2 ^ 32)
      × (pack a w r s g < 2 ^ 64)
pack_fields a w r s g =
    let v = pack a w r s g in
    let e = pack-sum a w r s g in
    (
      omega (arith, e, access_count-eq v),
      omega (arith, e, write_count-eq v),
      omega (arith, e, randomness-eq v),
      omega (arith, e, state-eq v),
      omega (arith, e, generation-eq v),
      omega (arith, e),
    )

-- Reading the five fields of a 64-bit word and packing them again gives the same word, so no bit of
-- it lies outside the fields.
pub pack-unpack :
    (v : ℕ)
    → v < 2 ^ 64
    → pack (access_count v) (write_count v) (randomness v) (state v) (generation v) ≡ v
pack-unpack v h = omega (
  arith,
  pack-sum (access_count v) (write_count v) (randomness v) (state v) (generation v),
  access_count-eq v,
  write_count-eq v,
  randomness-eq v,
  state-eq v,
  generation-eq v,
)
