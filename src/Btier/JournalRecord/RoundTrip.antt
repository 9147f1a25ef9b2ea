-- ===== src/Btier/JournalRecord/RoundTrip.antt =====
-- btier/journal.cc: what serialize_record writes, deserialize_record reads back.
use native.Mathlib.Nat.{pow-suc}
use mathlib.Core.List.{append_assoc}
use cxxlab.Prelude.{
  ℕ, ◌+◌, ◌*◌, ◌/◌, ◌%◌, ◌^◌, ◌<◌, ◌≡◌, refl, ap, ◌∙◌, zero, suc, arith, [], ◌∷◌, ◌++◌, some,
  length,
}
use cxxlab.Btier.Types.{KeyLocation}
use cxxlab.Btier.JournalRecord.{
  Bytes, PlaceOnDisk, JournalRecord, txn_begin, key_put, key_del, mark_dead, extent_new,
  extent_free, txn_commit, checkpoint_mark, unknown, put_bytes, get_bytes, get_data, put_string,
  get_string, put_key_location, get_key_location, put_disk_location, get_disk_location,
  serialize_record, deserialize_record, get_body, header,
}

-- A record whose numbers fit the words they are stored in.
abbrev pub Fits : JournalRecord → Type 0
Fits (txn_begin t) = t < 2 ^ 64
Fits (key_put t k l) =
    (t < 2 ^ 64)
    × (length k < 2 ^ 32)
    × (l.extent_id < 2 ^ 64)
    × (l.offset < 2 ^ 32)
    × (l.length < 2 ^ 32)
Fits (key_del t k) = (t < 2 ^ 64) × (length k < 2 ^ 32)
Fits (mark_dead t e n) = (t < 2 ^ 64) × (e < 2 ^ 64) × (n < 2 ^ 32)
Fits (extent_new t e l) =
    (t < 2 ^ 64) × (e < 2 ^ 64) × (l.offset < 2 ^ 64) × (l.length < 2 ^ 32) × (l.tier < 2 ^ 8)
Fits (extent_free t e) = (t < 2 ^ 64) × (e < 2 ^ 64)
Fits (txn_commit t c) = (t < 2 ^ 64) × (c < 2 ^ 32)
Fits (checkpoint_mark t) = t < 2 ^ 64
Fits (unknown op t) = (8 < op) × (op < 2 ^ 8) × (t < 2 ^ 64)

get_bytes-put_bytes :
    (n v : ℕ) (p : Bytes) → v < 256 ^ n → get_bytes n (put_bytes n v ++ p) ≡ some (v, p)
unfolding get_bytes put_bytes
get_bytes-put_bytes zero v p h = let e : 0 ≡ v = omega (arith, h) in ap (λ (m : ℕ). some (m, p)) e
get_bytes-put_bytes (suc n) v p h =
    let e : v % 256 + v / 256 * 256 ≡ v = omega arith in
    rw (get_bytes-put_bytes n (v / 256) p (omega (arith, pow-suc 256 n, h)))
      (ap (λ (m : ℕ). some (m, p)) e)

get_data-append : (s p : Bytes) → get_data (length s) (s ++ p) ≡ some (s, p)
unfolding get_data
get_data-append [] p = refl
get_data-append (b ∷ s) p = rw (get_data-append s p) refl

get_u32-put : (v : ℕ) (p : Bytes) → v < 2 ^ 32 → get_bytes 4 (put_bytes 4 v ++ p) ≡ some (v, p)
get_u32-put v p h = get_bytes-put_bytes 4 v p (omega (arith, h))

pub get_u64-put : (v : ℕ) (p : Bytes) → v < 2 ^ 64 → get_bytes 8 (put_bytes 8 v ++ p) ≡ some (v, p)
get_u64-put v p h = get_bytes-put_bytes 8 v p (omega (arith, h))

get_string-put : (s p : Bytes) → length s < 2 ^ 32 → get_string (put_string s ++ p) ≡ some (s, p)
unfolding get_string put_string
get_string-put s p h =
    rw (append_assoc (put_bytes 4 (length s)) s p, get_u32-put (length s) (s ++ p) h)
      (get_data-append s p)

get_key_location-put :
    (l : KeyLocation) (p : Bytes)
    → l.extent_id < 2 ^ 64
    → l.offset < 2 ^ 32
    → l.length < 2 ^ 32
    → get_key_location (put_key_location l ++ p) ≡ some (l, p)
unfolding get_key_location put_key_location
get_key_location-put l p h k m =
    let e = put_bytes 8 l.extent_id in
    let o = put_bytes 4 l.offset in
    let n = put_bytes 4 l.length in
    rw
      (
        append_assoc e (o ++ n) p,
        append_assoc o n p,
        get_u64-put l.extent_id (o ++ (n ++ p)) h,
        get_u32-put l.offset (n ++ p) k,
        get_u32-put l.length p m,
      )
      refl

get_disk_location-put :
    (l : PlaceOnDisk) (p : Bytes)
    → l.offset < 2 ^ 64
    → l.length < 2 ^ 32
    → get_disk_location (put_disk_location l ++ p) ≡ some (l, p)
unfolding get_disk_location put_disk_location
get_disk_location-put l p h k =
    let o = put_bytes 8 l.offset in
    let n = put_bytes 4 l.length in
    rw
      (
        append_assoc o (n ++ l.tier ∷ []) p,
        append_assoc n (l.tier ∷ []) p,
        get_u64-put l.offset (n ++ (l.tier ∷ p)) h,
        get_u32-put l.length (l.tier ∷ p) k,
      )
      refl

-- The operation and the number of the transaction, before any body.
deserialize_record-header :
    (op t : ℕ) (body p : Bytes)
    → t < 2 ^ 64
    → deserialize_record ((header op t ++ body) ++ p) ≡ get_body op t (body ++ p)
unfolding deserialize_record
deserialize_record-header op t body p h =
    rw (append_assoc (put_bytes 8 t) body p, get_u64-put t (body ++ p) h) refl

deserialize_record-bare :
    (op t : ℕ) (p : Bytes) → t < 2 ^ 64 → deserialize_record (header op t ++ p) ≡ get_body op t p
unfolding deserialize_record
deserialize_record-bare op t p h = rw (get_u64-put t p h) refl

pub get_body-unknown : (op t : ℕ) (p : Bytes) → 8 < op → get_body op t p ≡ some (unknown op t, p)
unfolding get_body
get_body-unknown op t p h = ground arith

-- Reading what was written gives the record, and leaves the bytes behind it, where every number fits
-- the word it is stored in.
pub deserialize_record-serialize_record :
    (r : JournalRecord) (p : Bytes)
    → Fits r
    → deserialize_record (serialize_record r ++ p) ≡ some (r, p)
unfolding serialize_record get_body
deserialize_record-serialize_record (txn_begin t) p h = deserialize_record-bare 1 t p h
deserialize_record-serialize_record (key_put t k l) p (h, n, e, o, m) =
    deserialize_record-header 2 t (put_string k ++ put_key_location l) p h
    ∙ rw
        (
          append_assoc (put_string k) (put_key_location l) p,
          get_string-put k (put_key_location l ++ p) n,
          get_key_location-put l p e o m,
        )
        refl
deserialize_record-serialize_record (key_del t k) p (h, n) =
    deserialize_record-header 3 t (put_string k) p h ∙ rw (get_string-put k p n) refl
deserialize_record-serialize_record (mark_dead t e n) p (h, k, m) =
    deserialize_record-header 4 t (put_bytes 8 e ++ put_bytes 4 n) p h
    ∙ rw
        (
          append_assoc (put_bytes 8 e) (put_bytes 4 n) p,
          get_u64-put e (put_bytes 4 n ++ p) k,
          get_u32-put n p m,
        )
        refl
deserialize_record-serialize_record (extent_new t e l) p (h, k, o, m, b) =
    deserialize_record-header 5 t (put_bytes 8 e ++ put_disk_location l) p h
    ∙ rw
        (
          append_assoc (put_bytes 8 e) (put_disk_location l) p,
          get_u64-put e (put_disk_location l ++ p) k,
          get_disk_location-put l p o m,
        )
        refl
deserialize_record-serialize_record (extent_free t e) p (h, k) =
    deserialize_record-header 6 t (put_bytes 8 e) p h ∙ rw (get_u64-put e p k) refl
deserialize_record-serialize_record (txn_commit t c) p (h, k) =
    deserialize_record-header 7 t (put_bytes 4 c) p h ∙ rw (get_u32-put c p k) refl
deserialize_record-serialize_record (checkpoint_mark t) p h = deserialize_record-bare 8 t p h
deserialize_record-serialize_record (unknown op t) p (h, k, n) =
    deserialize_record-bare op t p n ∙ get_body-unknown op t p h
