-- ===== src/Btier/Journal/Frames.antt =====
-- btier/journal.cc: the bytes of committed transactions and checkpoints, one after another, and what
-- the loop of Journal::recover makes of them.
use mathlib.Core.List.{append_assoc}
use cxxlab.Prelude.{
  ℕ, ◌+◌, ◌-◌, ◌%◌, ◌^◌, ◌≤◌, ◌<◌, ◌≡◌, refl, arith, Bool, true, false, List, [], ◌∷◌, ◌++◌, All,
  ==_iff, length, length-append, add64, sub64,
}
use cxxlab.Btier.ExtentMap.Space.{round_up_to}
use cxxlab.Btier.JournalRecord.{
  Bytes, JournalRecord, txn_begin, txn_commit, checkpoint_mark, serialize_record, serialize_all,
}
use cxxlab.Btier.Journal.{zero_bytes, frame, padded, padded_size, checksum}
use cxxlab.Btier.Journal.Recover.{Scan, read_record}
use cxxlab.Btier.Journal.Scan.{
  Advances, Advances-refl, Advances-trans, Advances-record, Advances-records, IsData,
  length-zero_bytes,
}

-- One write of the journal: a committed transaction, or a checkpoint.
pub record Entry : Type 0 where
  pub txn_id : ℕ
  pub is_checkpoint : Bool
  pub records : List JournalRecord

abbrev pub mark_of : Bool → Bytes
mark_of false = []
mark_of true = serialize_record (checkpoint_mark 0)

unfoldable pub records_of : List Entry → List JournalRecord
records_of [] = []
records_of (e ∷ es) = e.records ++ records_of es

module _ (calc_crc32 : Bytes → ℕ) where
  abbrev pub entry_frame : Entry → Bytes
  entry_frame e =
      frame e.txn_id (mark_of e.is_checkpoint) (serialize_all e.records)
        (checksum calc_crc32 (serialize_all e.records))

  unfoldable pub log_bytes : List Entry → Bytes
  log_bytes [] = []
  log_bytes (e ∷ es) = padded (entry_frame e) ++ log_bytes es

  -- The numbers of an entry fit their words, and its size does not wrap.
  pub record IsEntry (e : Entry) : Type 0 where
    pub id_fits : e.txn_id < 2 ^ 64
    pub are_data : All IsData e.records
    pub size_fits : length (entry_frame e) + 4096 < 2 ^ 64

-- What padding does to a size below 2^64 - 4096.
pub padded_size_lem :
    (n : ℕ)
    → 0 < n
    → n + 4096 < 2 ^ 64
    → (n ≤ padded_size n) × (padded_size n < n + 4096) × (padded_size n % 4096 ≡ 0)
unfolding round_up_to add64 sub64
padded_size_lem n h k = ground arith

pub length-padded :
    (bl : Bytes)
    → 0 < length bl
    → length bl + 4096 < 2 ^ 64
    → length (padded bl) ≡ padded_size (length bl)
unfolding padded
length-padded bl h k =
    let n = padded_size_lem (length bl) h k in
    omega (
      arith,
      length-append bl (zero_bytes (padded_size (length bl) - length bl)),
      length-zero_bytes (padded_size (length bl) - length bl),
      n.0,
    )

module _ (calc_crc32 : Bytes → ℕ) (crc-lt : (b : Bytes) → calc_crc32 b < 2 ^ 32) where
  checksum-lt : (b : Bytes) → checksum calc_crc32 b < 2 ^ 32
  checksum-lt [] = omega arith
  checksum-lt (x ∷ b) = crc-lt (x ∷ b)

  module _ (total : ℕ) where
    Advances-mark :
        (m : Bool) (p : Bytes) (s : Scan) → Advances calc_crc32 total (mark_of m ++ p) s p s
    unfolding read_record
    Advances-mark false p s = Advances-refl calc_crc32 total p s
    Advances-mark true p s = Advances-record calc_crc32 total (checkpoint_mark 0) p s (omega arith)

    close_lem :
        (e : Entry) (s : Scan)
        → s.in_txn ≡ true
        → s.current_txn_id ≡ e.txn_id
        → s.current_txn ≡ e.records
        → (read_record calc_crc32
            (txn_commit e.txn_id (checksum calc_crc32 (serialize_all e.records)))
            s).result
          ≡ s.result ++ e.records
    unfolding read_record
    close_lem e s i n c =
        let same = (==_iff e.txn_id e.txn_id).1 refl in
        let sum = checksum calc_crc32 (serialize_all e.records) in
        let match = (==_iff sum sum).1 refl in rw (i, n, c, same, match) refl

    pub Advances-frame :
        (e : Entry) (p : Bytes) (s : Scan)
        → IsEntry calc_crc32 e
        → (t : Scan) × (t.result ≡ s.result ++ e.records)
          × Advances calc_crc32 total (entry_frame calc_crc32 e ++ p) s p t
    unfolding read_record
    Advances-frame e p s h =
        let m = mark_of e.is_checkpoint in
        let rs = serialize_all e.records in
        let commit = txn_commit e.txn_id (checksum calc_crc32 rs) in
        let c = serialize_record commit in
        let b = serialize_record (txn_begin e.txn_id) in
        let s1 = record s { in_txn = true; current_txn_id = e.txn_id; current_txn = [] } in
        let s2 = record s1 { current_txn = e.records } in
        let t = read_record calc_crc32 commit s2 in
        let at_begin =
          Advances-record calc_crc32 total (txn_begin e.txn_id) (m ++ (rs ++ (c ++ p))) s
            h.id_fits in
        let at_mark = Advances-mark e.is_checkpoint (rs ++ (c ++ p)) s1 in
        let at_records = Advances-records calc_crc32 total e.records (c ++ p) s1 h.are_data refl in
        let at_commit = Advances-record calc_crc32 total commit p s2 (h.id_fits, checksum-lt rs) in
        let go = Advances-trans calc_crc32 total in
        (
          t,
          close_lem e s2 refl refl refl,
          rw (append_assoc b (m ++ (rs ++ c)) p, append_assoc m (rs ++ c) p, append_assoc rs c p)
              (go (b ++ (m ++ (rs ++ (c ++ p)))) (m ++ (rs ++ (c ++ p))) p s s1 t at_begin (
                go (m ++ (rs ++ (c ++ p))) (rs ++ (c ++ p)) p s1 s1 t at_mark
                  (go (rs ++ (c ++ p)) (c ++ p) p s1 s2 t at_records at_commit))),
        )
