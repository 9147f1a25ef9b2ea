-- ===== src/Bluestore/Blob/Places.antt =====
-- bluestore/bluestore_types.cc, bluestore_blob_t::split: where the bytes of a blob are on the device.
use cxxlab.Prelude.{
  ℕ, ◌+◌, ◌-◌, ◌^◌, ◌≤◌, ◌<◌, ◌≡◌, refl, ap, ◌∙◌, arith, true, List, [], ◌∷◌, Option, none, some,
  ltb, leb, ◌==◌, if◌then◌else◌, add64, add32-eq, sub32, sub32-eq, Bool-cases, inl, inr, leb→le,
  leb→lt,
}
use cxxlab.Btier.ExtentMap.Space.{PExtent}
use cxxlab.Bluestore.Blob.{
  BlobData, is_valid, invalid_offset, cut_extent, split_extents, split_data, has_csum, set_flag,
}

-- The byte x of an extent at an offset, which may stand for no space.
unfoldable pub place : ℕ → ℕ → Option ℕ
place offset x = if offset == invalid_offset then none else some (offset + x)

-- The device offset of a byte of a list of extents: none past their end and in a part without space.
unfoldable pub locate : ℕ → List PExtent → Option ℕ
locate x [] = none
locate x (e ∷ es) =
    let rest = locate (x - e.length) es in if ltb x e.length then place e.offset x else rest

unfoldable pub total_length : List PExtent → ℕ
total_length [] = 0
total_length (e ∷ es) = e.length + total_length es

-- An extent with space ends below the offset that stands for none.
unfoldable pub AreOnDevice : List PExtent → Type 0
AreOnDevice [] = Unit
AreOnDevice (e ∷ es) = (is_valid e ≡ true → e.offset + e.length < invalid_offset) × AreOnDevice es

place_cut :
    (n x : ℕ) (e : PExtent)
    → n < e.length
    → (is_valid e ≡ true → e.offset + e.length < invalid_offset)
    → place (cut_extent n e).offset x ≡ place e.offset (x + n)
unfolding add64 place
place_cut n x e h device = elim (Bool-cases (e.offset == invalid_offset)) [
  | inl gone ↦ rw gone refl
  | inr there ↦ let below = device (rw there refl) in rw there (ground (arith, below))
]

left-locate :
    (off b x : ℕ) (es : List PExtent)
    → off ≤ b
    → off + total_length es < 2 ^ 32
    → locate x (split_extents off b es).0 ≡ (if ltb (off + x) b then locate x es else none)
unfolding locate split_extents total_length
left-locate off b x [] h k = ground arith
left-locate off b x (e ∷ es) h k =
    rw (add32-eq off e.length (omega arith)) (elim (Bool-cases (leb (off + e.length) b)) [
      | inl whole ↦
          let ih =
            left-locate (off + e.length) b (x - e.length) es (leb→le _ _ whole) (omega arith) in
          rw whole (ground (arith, ih))
      | inr cut ↦ rw cut (ground arith)
    ])

right-locate :
    (off b x : ℕ) (es : List PExtent)
    → off ≤ b
    → off + total_length es < 2 ^ 32
    → AreOnDevice es
    → locate x (split_extents off b es).1 ≡ locate (x + (b - off)) es
unfolding locate split_extents total_length AreOnDevice
right-locate off b x [] h k d = refl
right-locate off b x (e ∷ es) h k d =
    rw (add32-eq off e.length (omega arith)) (elim (Bool-cases (leb (off + e.length) b)) [
      | inl whole ↦
          let ih = right-locate (off + e.length) b x es (leb→le _ _ whole) (omega arith) d.1 in
          let same : x + (b - (off + e.length)) ≡ x + (b - off) - e.length =
            omega (arith, leb→le _ _ whole) in
          let ih' = rw same at ih in rw whole (ground (arith, ih'))
      | inr cut ↦ elim (Bool-cases (ltb off b)) [
        | inl inside ↦
            rw (cut, inside)
              (ground (arith, place_cut (b - off) x e (omega (arith, leb→lt _ _ cut)) d.0))
        | inr before ↦ rw (cut, before) (ground arith)
      ]
    ])

zero_add : (x : ℕ) → 0 + x ≡ x
zero_add x = omega arith

sub_zero : (n : ℕ) → n - 0 ≡ n
sub_zero n = omega arith

extents-split_data :
    (n : ℕ) (b rb : BlobData)
    → let (l, r) = split_data n b rb in
      (l.extents ≡ (split_extents 0 n b.extents).0)
      × (r.extents ≡ (split_extents 0 n b.extents).1)
      × (l.logical_length ≡ n)
      × (r.logical_length ≡ sub32 b.logical_length n)
unfolding split_data set_flag
extents-split_data n b rb = elim (Bool-cases (has_csum b)) [
  | inl summed ↦ rw summed (refl, refl, refl, refl)
  | inr plain ↦ rw plain (refl, refl, refl, refl)
]

-- A split of a blob whose extents add up to fewer than 2^32 bytes and lie on the device, at an offset
-- within its logical length: a byte of the left part below the offset has the place that it had, and
-- none from there on, a byte of the right part has the place it had as a byte further on by the offset,
-- and the logical lengths add up.
pub split_data_lem :
    (n : ℕ) (b rb : BlobData)
    → total_length b.extents < 2 ^ 32
    → AreOnDevice b.extents
    → n ≤ b.logical_length
    → b.logical_length < 2 ^ 32
    → let (l, r) = split_data n b rb in
      ((x : ℕ) → locate x l.extents ≡ (if ltb x n then locate x b.extents else none))
      × ((x : ℕ) → locate x r.extents ≡ locate (x + n) b.extents)
      × (l.logical_length + r.logical_length ≡ b.logical_length)
split_data_lem n b rb small device within short =
    let (le, re, ll, rl) = extents-split_data n b rb in
    (
      λ x.
          ap (locate x) le
          ∙ left-locate 0 n x b.extents (omega arith) (omega arith)
          ∙ ap (λ (m : ℕ). if ltb m n then locate x b.extents else none) (zero_add x),
      λ x.
          ap (locate x) re
          ∙ right-locate 0 n x b.extents (omega arith) (omega arith) device
          ∙ ap (λ (m : ℕ). locate (x + m) b.extents) (sub_zero n),
      omega (arith, ll, rl, sub32-eq b.logical_length n within short),
    )
