-- ===== src/Btier/Journal/Recover.antt =====
-- btier/journal.cc, Journal::recover: the range to read, and the loop that parses it. The iterator is
-- the suffix of the buffer that it points at; an exception that leaves the loop is none.
use cxxlab.Prelude.{
  ℕ, ◌+◌, ◌-◌, ◌*◌, ◌/◌, zero, suc, Bool, true, false, ◌&&◌, List, [], ◌∷◌, ◌++◌, Option, none,
  some, ltb, leb, ◌==◌, if◌then◌else◌, add64, sub64, length, drop,
}
use cxxlab.Btier.JournalRecord.{
  Bytes, JournalRecord, txn_begin, key_put, key_del, mark_dead, extent_new, extent_free, txn_commit,
  checkpoint_mark, unknown, Reading, serialize_all, deserialize_record,
}
use cxxlab.Btier.Journal.{BlockDevice, Journal, read_superblock, read_range, checksum, block}

-- result, current_txn, in_txn and current_txn_id
pub record Scan : Type 0 where
  pub result : List JournalRecord
  pub current_txn : List JournalRecord
  pub in_txn : Bool
  pub current_txn_id : ℕ

abbrev pub start : Scan
start = record { result = []; current_txn = []; in_txn = false; current_txn_id = 0 }

abbrev pub keep : JournalRecord → Scan → Scan
keep r s = if s.in_txn then record s { current_txn = s.current_txn ++ r ∷ [] } else s

abbrev pub next_boundary : ℕ → ℕ
next_boundary off = (off / block + 1) * block

module _ (calc_crc32 : Bytes → ℕ) where
  abbrev pub close_txn : ℕ → ℕ → Scan → Scan
  close_txn t c s =
      let s' = record s { in_txn = false; current_txn = [] } in
      if s.in_txn
        && (t == s.current_txn_id && checksum calc_crc32 (serialize_all s.current_txn) == c)
      then record s' { result = s.result ++ s.current_txn }
      else s'

  -- What one record does, but for one of operation 0.
  unfoldable pub read_record : JournalRecord → Scan → Scan
  read_record (txn_begin t) s = record s { in_txn = true; current_txn_id = t; current_txn = [] }
  read_record (txn_commit t c) s = close_txn t c s
  read_record (checkpoint_mark t) s = s
  read_record (key_put t k l) s = keep (key_put t k l) s
  read_record (key_del t k) s = keep (key_del t k) s
  read_record (mark_dead t e n) s = keep (mark_dead t e n) s
  read_record (extent_new t e l) s = keep (extent_new t e l) s
  read_record (extent_free t e) s = keep (extent_free t e) s
  read_record (unknown op t) s = keep (unknown op t) s

  -- A round after deserialize_record; the rest of the loop is an argument.
  abbrev pub scan_next :
      ℕ → Bytes → Reading JournalRecord → Scan → (Bytes → Scan → Option Scan) → Option Scan
  scan_next total p none s rest = none
  scan_next total p (some (unknown op t, p')) s rest =
      let off = total - length p in
      if op == 0
      then if leb total (next_boundary off)
        then some s
        else rest (drop (next_boundary off - off) p) s
      else rest p' (read_record (unknown op t) s)
  scan_next total p (some (txn_begin t, p')) s rest = rest p' (read_record (txn_begin t) s)
  scan_next total p (some (txn_commit t c, p')) s rest = rest p' (read_record (txn_commit t c) s)
  scan_next total p (some (checkpoint_mark t, p')) s rest =
      rest p' (read_record (checkpoint_mark t) s)
  scan_next total p (some (key_put t k l, p')) s rest = rest p' (read_record (key_put t k l) s)
  scan_next total p (some (key_del t k, p')) s rest = rest p' (read_record (key_del t k) s)
  scan_next total p (some (mark_dead t e n, p')) s rest = rest p' (read_record (mark_dead t e n) s)
  scan_next total p (some (extent_new t e l, p')) s rest =
      rest p' (read_record (extent_new t e l) s)
  scan_next total p (some (extent_free t e, p')) s rest = rest p' (read_record (extent_free t e) s)

  -- The loop, which ends at fewer than 9 bytes, the end of the buffer among them; none also where the
  -- fuel has run out.
  unfoldable pub scan : ℕ → ℕ → Bytes → Scan → Option Scan
  scan zero total p s = if ltb (length p) 9 then some s else none
  scan (suc fuel) total p s =
      let more = scan_next total p (deserialize_record p) s (scan fuel total) in
      if ltb (length p) 9 then some s else more

  abbrev pub result_of : Option Scan → Option (List JournalRecord)
  result_of none = none
  result_of (some s) = some s.result

  -- A round takes at least one byte.
  unfoldable pub parse : Bytes → Option (List JournalRecord)
  parse bl = result_of (scan (length bl) (length bl) bl start)

abbrev pub all_zeros : Bytes → Bool
all_zeros [] = true
all_zeros (b ∷ bs) = b == 0 && all_zeros bs

-- Whether recover goes on where the two offsets are equal: only at 0, with data in the first block.
abbrev pub has_data : Option Bytes → Bool
has_data none = false
has_data (some bl) = if all_zeros bl then false else true

module _ {D : Type 0} (dev : BlockDevice D) (calc_crc32 : Bytes → ℕ) where
  abbrev pub recover_range : Journal D → Option (List JournalRecord)
  recover_range j =
      let from = j.superblock.checkpoint_offset in
      let scan_len =
        if leb from j.write_offset
        then sub64 j.write_offset from
        else add64 (sub64 j.data_size from) j.write_offset in
      parse calc_crc32 (read_range dev scan_len j.data_size scan_len from j.device)

  abbrev pub recover_with : Bool × Journal D → Option (List JournalRecord)
  recover_with (false, j) = some []
  recover_with (true, j) =
      if j.superblock.checkpoint_offset == j.write_offset
      then if j.write_offset == 0
        then if has_data (dev.read block block j.device) then recover_range j else some []
        else some []
      else recover_range j

  -- The records, and the journal with the superblock that was read.
  unfoldable pub recover : Journal D → Option (List JournalRecord) × Journal D
  recover j = let r = read_superblock dev j in (recover_with r, r.1)
