-- ===== src/Btier/Journal/Scan.antt =====
-- btier/journal.cc, the parsing loop of Journal::recover: what it does at a record, at the records of a
-- transaction, and at zero padding.
use mathlib.Core.List.{append-nil, append_assoc}
use cxxlab.Prelude.{
  ℕ, ◌+◌, ◌-◌, ◌*◌, ◌/◌, ◌%◌, ◌≤◌, ◌<◌, ◌≡◌, refl, sym, ap, ◌∙◌, arith, zero, suc, true, false,
  List, [], ◌∷◌, ◌++◌, Option, some, All, ltb, leb, length, length-append, drop, drop-append,
  if-cases, Bool-cases, inl, inr, ltb→lt, ltb→le, leb→le,
}
use cxxlab.Btier.JournalRecord.{
  Bytes, JournalRecord, txn_begin, key_put, key_del, mark_dead, extent_new, extent_free, txn_commit,
  checkpoint_mark, unknown, put_bytes, get_bytes, serialize_record, serialize_all,
  deserialize_record, get_body, header,
}
use cxxlab.Btier.JournalRecord.RoundTrip.{Fits, deserialize_record-serialize_record}
use cxxlab.Btier.Journal.{zero_bytes}
use cxxlab.Btier.Journal.Recover.{Scan, scan, scan_next, read_record, next_boundary}

pub length-put_bytes : (n v : ℕ) → length (put_bytes n v) ≡ n
unfolding put_bytes
length-put_bytes zero v = refl
length-put_bytes (suc n) v = omega (arith, length-put_bytes n (v / 256))

-- A record takes at least nine bytes: its operation and the number of its transaction.
header-length : (op t : ℕ) (body : Bytes) → 9 ≤ length (header op t ++ body)
header-length op t body = omega (arith, length-append (put_bytes 8 t) body, length-put_bytes 8 t)

pub length-serialize_record : (r : JournalRecord) → 9 ≤ length (serialize_record r)
unfolding serialize_record
length-serialize_record (txn_begin t) = omega (arith, length-put_bytes 8 t)
length-serialize_record (key_put t k l) = header-length 2 t _
length-serialize_record (key_del t k) = header-length 3 t _
length-serialize_record (mark_dead t e n) = header-length 4 t _
length-serialize_record (extent_new t e l) = header-length 5 t _
length-serialize_record (extent_free t e) = header-length 6 t _
length-serialize_record (txn_commit t c) = header-length 7 t _
length-serialize_record (checkpoint_mark t) = omega (arith, length-put_bytes 8 t)
length-serialize_record (unknown op t) = omega (arith, length-put_bytes 8 t)

module _ (calc_crc32 : Bytes → ℕ) (total : ℕ) where
  -- From one place in the buffer to another, with fuel for the bytes that are left at both.
  unfoldable pub Advances : Bytes → Scan → Bytes → Scan → Type 0
  Advances p s q t =
      (fuel : ℕ)
      → length p ≤ fuel
      → (left : ℕ) × (length q ≤ left)
        × (scan calc_crc32 fuel total p s ≡ scan calc_crc32 left total q t)

  pub Advances-refl : (p : Bytes) (s : Scan) → Advances p s p s
  unfolding Advances
  Advances-refl p s fuel h = (fuel, h, refl)

  pub Advances-trans :
      (p q r : Bytes) (s t u : Scan) → Advances p s q t → Advances q t r u → Advances p s r u
  unfolding Advances
  Advances-trans p q r s t u a b fuel h =
      let (f1, h1, e1) = a fuel h in let (f2, h2, e2) = b f1 h1 in (f2, h2, e1 ∙ e2)

  scan-nil : (fuel : ℕ) (s : Scan) → scan calc_crc32 fuel total [] s ≡ some s
  unfolding scan
  scan-nil zero s = refl
  scan-nil (suc fuel) s = refl

  pub Advances-end :
      (p : Bytes) (s t : Scan) → Advances p s [] t → scan calc_crc32 (length p) total p s ≡ some t
  unfolding Advances
  Advances-end p s t a = let (left, h, e) = a (length p) (omega arith) in e ∙ scan-nil left t

  next_of-record :
      (r : JournalRecord) (p q : Bytes) (s : Scan) (rest : Bytes → Scan → Option Scan)
      → Fits r
      → scan_next calc_crc32 total p (some (r, q)) s rest ≡ rest q (read_record calc_crc32 r s)
  next_of-record (txn_begin t) p q s rest h = refl
  next_of-record (key_put t k l) p q s rest h = refl
  next_of-record (key_del t k) p q s rest h = refl
  next_of-record (mark_dead t e n) p q s rest h = refl
  next_of-record (extent_new t e l) p q s rest h = refl
  next_of-record (extent_free t e) p q s rest h = refl
  next_of-record (txn_commit t c) p q s rest h = refl
  next_of-record (checkpoint_mark t) p q s rest h = refl
  next_of-record (unknown op t) p q s rest h = ground (arith, h)

  pub Advances-record :
      (r : JournalRecord) (p : Bytes) (s : Scan)
      → Fits r
      → Advances (serialize_record r ++ p) s p (read_record calc_crc32 r s)
  unfolding Advances scan
  Advances-record r p s h zero few =
      absurd (omega (arith, few, length-append (serialize_record r) p, length-serialize_record r))
  Advances-record r p s h (suc fuel) few =
      let n = length-append (serialize_record r) p in
      let m = length-serialize_record r in
      let enough : ltb (length (serialize_record r ++ p)) 9 ≡ false = ground (arith, n, m) in
      (
        fuel,
        omega (arith, few, n, m),
        rw (enough, deserialize_record-serialize_record r p h)
            (next_of-record r (serialize_record r ++ p) p s (scan calc_crc32 fuel total) h),
      )

-- A record that stands in a transaction between its BEGIN and its COMMIT.
abbrev pub IsData : JournalRecord → Type 0
IsData (txn_begin t) = ⊥
IsData (key_put t k l) = Fits (key_put t k l)
IsData (key_del t k) = Fits (key_del t k)
IsData (mark_dead t e n) = Fits (mark_dead t e n)
IsData (extent_new t e l) = Fits (extent_new t e l)
IsData (extent_free t e) = Fits (extent_free t e)
IsData (txn_commit t c) = ⊥
IsData (checkpoint_mark t) = ⊥
IsData (unknown op t) = ⊥

data_Fits : (r : JournalRecord) → IsData r → Fits r
data_Fits (txn_begin t) d = absurd d
data_Fits (key_put t k l) d = d
data_Fits (key_del t k) d = d
data_Fits (mark_dead t e n) d = d
data_Fits (extent_new t e l) d = d
data_Fits (extent_free t e) d = d
data_Fits (txn_commit t c) d = absurd d
data_Fits (checkpoint_mark t) d = absurd d
data_Fits (unknown op t) d = absurd d

pub length-zero_bytes : (n : ℕ) → length (zero_bytes n) ≡ n
unfolding zero_bytes
length-zero_bytes zero = refl
length-zero_bytes (suc n) = omega (arith, length-zero_bytes n)

nil_of-length : (p : Bytes) → length p ≡ 0 → p ≡ []
nil_of-length [] h = refl
nil_of-length (b ∷ p) h = absurd (omega (arith, h))

-- Reading a word succeeds where the bytes are there.
get_bytes-some :
    (n : ℕ) (p : Bytes) → n ≤ length p → (v : ℕ) × (q : Bytes) × (get_bytes n p ≡ some (v, q))
unfolding get_bytes
get_bytes-some zero p h = (0, p, refl)
get_bytes-some (suc n) [] h = absurd (omega arith)
get_bytes-some (suc n) (b ∷ p) h =
    let (v, q, e) = get_bytes-some n p (omega arith) in (b + v * 256, q, rw e refl)

deserialize_record-zero :
    (p : Bytes)
    → 8 ≤ length p
    → (t : ℕ) × (q : Bytes) × (deserialize_record (0 ∷ p) ≡ some (unknown 0 t, q))
unfolding deserialize_record get_body
deserialize_record-zero p h = let (t, q, e) = get_bytes-some 8 p h in (t, q, rw e refl)

zero_record :
    (k : ℕ) (p : Bytes)
    → 9 ≤ length (zero_bytes (suc k) ++ p)
    → (t : ℕ) × (q : Bytes) × (deserialize_record (zero_bytes (suc k) ++ p) ≡ some (unknown 0 t, q))
unfolding zero_bytes
zero_record k p h = deserialize_record-zero (zero_bytes k ++ p) (omega (arith, h))

module _ (calc_crc32 : Bytes → ℕ) (total : ℕ) where
  read_data :
      (r : JournalRecord) (s : Scan)
      → IsData r
      → s.in_txn ≡ true
      → read_record calc_crc32 r s ≡ record s { current_txn = s.current_txn ++ r ∷ [] }
  unfolding read_record
  read_data (txn_begin t) s d i = absurd d
  read_data (key_put t k l) s d i = rw i refl
  read_data (key_del t k) s d i = rw i refl
  read_data (mark_dead t e n) s d i = rw i refl
  read_data (extent_new t e l) s d i = rw i refl
  read_data (extent_free t e) s d i = rw i refl
  read_data (txn_commit t c) s d i = absurd d
  read_data (checkpoint_mark t) s d i = absurd d
  read_data (unknown op t) s d i = absurd d

  pub Advances-records :
      (rs : List JournalRecord) (p : Bytes) (s : Scan)
      → All IsData rs
      → s.in_txn ≡ true
      → Advances calc_crc32 total
          (serialize_all rs ++ p)
          s
          p
          (record s { current_txn = s.current_txn ++ rs })
  unfolding serialize_all
  Advances-records [] p s d i = rw (append-nil s.current_txn) (Advances-refl calc_crc32 total p s)
  Advances-records (r ∷ rs) p s d i =
      let s1 = record s { current_txn = s.current_txn ++ r ∷ [] } in
      let rest = serialize_all rs ++ p in
      let first = Advances-record calc_crc32 total r rest s (data_Fits r d.0) in
      let first' = rw (read_data r s d.0 i) at first in
      let others = Advances-records rs p s1 d.1 i in
      let others' = rw (append_assoc s.current_txn (r ∷ []) rs) at others in
      rw (append_assoc (serialize_record r) (serialize_all rs) p)
        (Advances-trans calc_crc32 total (serialize_record r ++ rest) rest p s s1 _ first' others')

  padding-boundary :
      (k : ℕ) (p : Bytes)
      → suc k < 4096
      → suc k + length p ≤ total
      → total % 4096 ≡ 0
      → length p % 4096 ≡ 0
      → let off = total - length (zero_bytes (suc k) ++ p) in
        (next_boundary off ≡ off + suc k) × (off + (suc k + length p) ≡ total)
  padding-boundary k p h n a b =
      let len = length-append (zero_bytes (suc k)) p in
      let z = length-zero_bytes (suc k) in (omega (arith, len, z), omega (arith, len, z))

  -- A round at a padding byte.
  padding_round :
      (k fuel : ℕ) (p : Bytes) (s : Scan)
      → suc k < 4096
      → suc k + length p ≤ total
      → total % 4096 ≡ 0
      → length p % 4096 ≡ 0
      → scan calc_crc32 (suc fuel) total (zero_bytes (suc k) ++ p) s
        ≡ scan calc_crc32 fuel total p s
  unfolding scan
  padding_round k fuel p s h n a b =
      let z = zero_bytes (suc k) ++ p in
      let off = total - length z in
      let len = length-append (zero_bytes (suc k)) p in
      let zl = length-zero_bytes (suc k) in
      let (nb, all) = padding-boundary k p h n a b in
      elim (Bool-cases (ltb (length z) 9)) [
        | inl few ↦
            let none_left : p ≡ [] = nil_of-length p (omega (arith, ltb→lt _ _ few, len, b)) in
            rw few (
              sym (
                ap (λ q. scan calc_crc32 fuel total q s) none_left
                ∙ scan-nil calc_crc32 total fuel s))
        | inr more ↦
            let (t, q, e) = zero_record k p (omega (arith, ltb→le _ _ more)) in
            rw (more, e, nb)
              (if-cases (λ (o : Option Scan). o ≡ scan calc_crc32 fuel total p s)
                (leb total (off + suc k))
                (λ last. sym (
                  ap (λ q'. scan calc_crc32 fuel total q' s)
                    (nil_of-length p (omega (arith, leb→le _ _ last, all)))
                  ∙ scan-nil calc_crc32 total fuel s))
                (λ on.
                  ap (λ q'. scan calc_crc32 fuel total q' s)
                    (ap (λ m. drop m z) (omega (arith, zl)) ∙ drop-append (zero_bytes (suc k)) p)))
      ]

  -- Zeros up to the next boundary.
  pub Advances-padding :
      (k : ℕ) (p : Bytes) (s : Scan)
      → k < 4096
      → k + length p ≤ total
      → total % 4096 ≡ 0
      → length p % 4096 ≡ 0
      → Advances calc_crc32 total (zero_bytes k ++ p) s p s
  unfolding Advances
  Advances-padding zero p s h n a b = unfold zero_bytes in Advances-refl calc_crc32 total p s
  Advances-padding (suc k) p s h n a b = λ fuel few.
      let len = length-append (zero_bytes (suc k)) p in
      let zl = length-zero_bytes (suc k) in
      let e : fuel ≡ suc (fuel - 1) = omega (arith, few, len, zl) in
      (
        fuel - 1,
        omega (arith, few, len, zl),
        ap (λ f. scan calc_crc32 f total (zero_bytes (suc k) ++ p) s) e
            ∙ padding_round k (fuel - 1) p s h n a b,
      )
