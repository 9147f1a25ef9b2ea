-- ===== src/Btier/JournalRecord.antt =====
-- btier/journal.h and journal.cc: the records of the journal, and how they are laid out in bytes. A
-- bufferlist is the list of its bytes; the words are those of a little-endian machine. The members of
-- a record that its operation does not use are left out.
pub mod RoundTrip
pub mod Tests
use cxxlab.Prelude.{
  ℕ, ◌+◌, ◌*◌, ◌/◌, ◌%◌, ◌^◌, zero, suc, List, [], ◌∷◌, ◌++◌, Option, none, some, ◌==◌,
  if◌then◌else◌, length,
}
use cxxlab.Btier.Types.{KeyLocation}

abbrev pub Bytes : Type 0
Bytes = List ℕ

-- DiskLocation, its tier as the byte that is stored.
pub record PlaceOnDisk : Type 0 where
  pub offset : ℕ
  pub length : ℕ
  pub tier : ℕ

-- JournalRecord, by its operation; `unknown` has an operation that is no JournalOp.
pub data JournalRecord : Type 0 where
  txn_begin : (txn_id : ℕ) → JournalRecord
  key_put : (txn_id : ℕ) (key : Bytes) (key_loc : KeyLocation) → JournalRecord
  key_del : (txn_id : ℕ) (key : Bytes) → JournalRecord
  mark_dead : (txn_id extent_id dead_length : ℕ) → JournalRecord
  extent_new : (txn_id extent_id : ℕ) (extent_loc : PlaceOnDisk) → JournalRecord
  extent_free : (txn_id extent_id : ℕ) → JournalRecord
  txn_commit : (txn_id crc : ℕ) → JournalRecord
  checkpoint_mark : (txn_id : ℕ) → JournalRecord
  unknown : (op txn_id : ℕ) → JournalRecord

-- The low bytes of a number, the lowest first: put_u8, put_u32 and put_u64.
unfoldable pub put_bytes : ℕ → ℕ → Bytes
put_bytes zero v = []
put_bytes (suc n) v = v % 256 ∷ put_bytes n (v / 256)

abbrev pub put_u32 : ℕ → Bytes
put_u32 v = put_bytes 4 v

abbrev pub put_u64 : ℕ → Bytes
put_u64 v = put_bytes 8 v

-- A value that was read and the bytes behind it; none where copy runs past the end and throws.
abbrev pub Reading : Type 0 → Type 0
Reading A = Option (A × Bytes)

abbrev pub then_read : {A B : Type 0} → Reading A → (A → Bytes → Reading B) → Reading B
then_read none f = none
then_read (some (a, p)) f = f a p

-- get_u8
abbrev pub get_u8 : Bytes → Reading ℕ
get_u8 [] = none
get_u8 (b ∷ p) = some (b, p)

-- get_u32 and get_u64
unfoldable pub get_bytes : ℕ → Bytes → Reading ℕ
get_bytes zero p = some (0, p)
get_bytes (suc n) [] = none
get_bytes (suc n) (b ∷ p) = then_read (get_bytes n p) (λ v p'. some (b + v * 256, p'))

abbrev pub get_u32 : Bytes → Reading ℕ
get_u32 p = get_bytes 4 p

abbrev pub get_u64 : Bytes → Reading ℕ
get_u64 p = get_bytes 8 p

-- The next bytes of the buffer as they are.
unfoldable pub get_data : ℕ → Bytes → Reading Bytes
get_data zero p = some ([], p)
get_data (suc n) [] = none
get_data (suc n) (b ∷ p) = then_read (get_data n p) (λ s p'. some (b ∷ s, p'))

unfoldable pub put_string : Bytes → Bytes
put_string s = put_u32 (length s) ++ s

unfoldable pub get_string : Bytes → Reading Bytes
get_string p = then_read (get_u32 p) (λ len p'. get_data len p')

unfoldable pub put_key_location : KeyLocation → Bytes
put_key_location l = put_u64 l.extent_id ++ (put_u32 l.offset ++ put_u32 l.length)

unfoldable pub get_key_location : Bytes → Reading KeyLocation
get_key_location p = then_read (get_u64 p) (λ e p1. then_read (get_u32 p1) (λ o p2.
    then_read (get_u32 p2) (λ l p3. some (record { extent_id = e; offset = o; length = l }, p3))))

unfoldable pub put_disk_location : PlaceOnDisk → Bytes
put_disk_location l = put_u64 l.offset ++ (put_u32 l.length ++ l.tier ∷ [])

unfoldable pub get_disk_location : Bytes → Reading PlaceOnDisk
get_disk_location p = then_read (get_u64 p) (λ o p1. then_read (get_u32 p1) (λ l p2.
    then_read (get_u8 p2) (λ t p3. some (record { offset = o; length = l; tier = t }, p3))))

abbrev pub header : ℕ → ℕ → Bytes
header op txn_id = op ∷ put_u64 txn_id

unfoldable pub serialize_record : JournalRecord → Bytes
serialize_record (txn_begin t) = header 1 t
serialize_record (key_put t k l) = header 2 t ++ (put_string k ++ put_key_location l)
serialize_record (key_del t k) = header 3 t ++ put_string k
serialize_record (mark_dead t e n) = header 4 t ++ (put_u64 e ++ put_u32 n)
serialize_record (extent_new t e l) = header 5 t ++ (put_u64 e ++ put_disk_location l)
serialize_record (extent_free t e) = header 6 t ++ put_u64 e
serialize_record (txn_commit t c) = header 7 t ++ put_u32 c
serialize_record (checkpoint_mark t) = header 8 t
serialize_record (unknown op t) = header op t

abbrev pub get_key_put : ℕ → Bytes → Reading JournalRecord
get_key_put t p =
    then_read (get_string p)
      (λ k p1. then_read (get_key_location p1) (λ l p2. some (key_put t k l, p2)))

abbrev pub get_key_del : ℕ → Bytes → Reading JournalRecord
get_key_del t p = then_read (get_string p) (λ k p1. some (key_del t k, p1))

abbrev pub get_mark_dead : ℕ → Bytes → Reading JournalRecord
get_mark_dead t p =
    then_read (get_u64 p) (λ e p1. then_read (get_u32 p1) (λ n p2. some (mark_dead t e n, p2)))

abbrev pub get_extent_new : ℕ → Bytes → Reading JournalRecord
get_extent_new t p =
    then_read (get_u64 p)
      (λ e p1. then_read (get_disk_location p1) (λ l p2. some (extent_new t e l, p2)))

abbrev pub get_extent_free : ℕ → Bytes → Reading JournalRecord
get_extent_free t p = then_read (get_u64 p) (λ e p1. some (extent_free t e, p1))

abbrev pub get_commit : ℕ → Bytes → Reading JournalRecord
get_commit t p = then_read (get_u32 p) (λ c p1. some (txn_commit t c, p1))

-- The switch of deserialize_record.
unfoldable pub get_body : ℕ → ℕ → Bytes → Reading JournalRecord
get_body op t p =
    if op == 1
    then some (txn_begin t, p)
    else if op == 2
    then get_key_put t p
    else if op == 3
    then get_key_del t p
    else if op == 4
    then get_mark_dead t p
    else if op == 5
    then get_extent_new t p
    else if op == 6
    then get_extent_free t p
    else if op == 7
    then get_commit t p
    else if op == 8
    then some (checkpoint_mark t, p)
    else some (unknown op t, p)

unfoldable pub deserialize_record : Bytes → Reading JournalRecord
deserialize_record p =
    then_read (get_u8 p) (λ op p1. then_read (get_u64 p1) (λ t p2. get_body op t p2))

unfoldable pub serialize_all : List JournalRecord → Bytes
serialize_all [] = []
serialize_all (r ∷ rs) = serialize_record r ++ serialize_all rs
