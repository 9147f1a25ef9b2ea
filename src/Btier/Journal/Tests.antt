-- ===== src/Btier/Journal/Tests.antt =====
-- A journal of btier/journal.cc on a device in memory.
use mathlib.Core.Path.{subst}
use mathlib.Core.Option.{some-injective}
use cxxlab.Prelude.{
  ℕ, ◌<◌, ◌≡◌, refl, sym, ◌∙◌, arith, true, false, List, [], ◌∷◌, some, All, lookup, put, nat_eq,
  length, add64, sub64, erase,
}
use cxxlab.Btier.ExtentMap.Space.{round_up_to}
use cxxlab.Btier.JournalRecord.{
  Bytes, extent_free, key_del, serialize_record, serialize_all, put_bytes, get_bytes, put_string,
}
use cxxlab.Btier.Journal.{
  Journal, open_journal, parse_superblock, TxnBuffer, begin_txn, append, read_superblock,
  write_superblock, commit_txn, pad_and_write, padded, zero_bytes, frame, done,
}
use cxxlab.Btier.Journal.Recover.{recover, parse}
use cxxlab.Btier.Journal.Frames.{
  Entry, log_bytes, records_of, IsEntry, entry_frame, padded_size_lem, length-padded,
}
use cxxlab.Btier.Journal.Log.{parse-log_bytes}
use cxxlab.Btier.Journal.Disk.{bytes_at}
use cxxlab.Btier.Journal.Memory.{byte_in, memory, memory-IsMemory, sum, sum-lt, zeros}
use cxxlab.Btier.Journal.Ledger.{
  Op, begin, add, commit, save, AreReady, Ready, perform_all, apply, apply_all, perform, Refines,
}
use cxxlab.Btier.Journal.Writes.{HasRoom}
use cxxlab.Btier.Journal.Durable.{committed, snapshot, recover-pad_and_write}
use cxxlab.Btier.Journal.History.{IsBlank, new_ledger, open_journal-Refines, recover-perform_all}
use cxxlab.Btier.Journal.Refine.{perform_all-Refines}
use cxxlab.Btier.Journal.Full.{FillsUp, recover-commit_txn-FillsUp}

abbrev two_entries : List Entry
two_entries =
    record {
      txn_id = 1;
      is_checkpoint = false;
      records = extent_free 1 7 ∷ key_del 1 (97 ∷ []) ∷ [];
    }
    ∷ record { txn_id = 0; is_checkpoint = true; records = extent_free 0 9 ∷ [] }
    ∷ []

two-AreEntries : All (IsEntry sum) two_entries
unfolding serialize_record put_bytes serialize_all put_string
two-AreEntries = (
  record {
    id_fits = omega arith;
    are_data = ((omega arith, omega arith), ((omega arith, omega arith), tt));
    size_fits = ground arith;
  },
  (
    record {
      id_fits = omega arith;
      are_data = ((omega arith, omega arith), tt);
      size_fits = ground arith;
    },
    tt,
  ),
)

parse-log_bytes_example :
    parse sum (log_bytes sum two_entries)
    ≡ some (extent_free 1 7 ∷ key_del 1 (97 ∷ []) ∷ extent_free 0 9 ∷ [])
unfolding records_of
parse-log_bytes_example = parse-log_bytes sum sum-lt two_entries two-AreEntries

blank : IsBlank memory byte_in 1048576 (memory-IsMemory 1048576) sum zeros
unfolding parse_superblock bytes_at get_bytes
blank = refl

abbrev history : List Op
history = begin ∷ add 1 (extent_free 0 7) ∷ commit 1 ∷ save (extent_free 0 9 ∷ []) ∷ begin ∷ []

-- A short transaction has room in the first half of the device.
short-HasRoom :
    (bl : Bytes) (j : Journal (ℕ → ℕ))
    → 0 < length bl
    → length bl < 4096
    → j.write_offset < 524288
    → HasRoom memory byte_in 1048576 (memory-IsMemory 1048576) bl j
short-HasRoom bl j some_there short half =
    let n = padded_size_lem (length bl) some_there (omega (arith, short)) in
    omega (arith, half, short, length-padded bl some_there (omega (arith, short)), n.1)

abbrev begun_journal : Journal (ℕ → ℕ)
begun_journal =
    perform memory sum (add 1 (extent_free 0 7))
      (perform memory sum begin (open_journal memory zeros 1048576))

abbrev one_buffer : TxnBuffer
one_buffer = record {
  records = extent_free 1 7 ∷ [];
  serialized = serialize_record (extent_free 1 7);
}

begun_journal-buffer : lookup 1 begun_journal.active_txns ≡ some one_buffer
unfolding perform begin_txn append lookup put read_superblock write_superblock parse_superblock
    bytes_at get_bytes
begun_journal-buffer = refl

begun_journal-head : begun_journal.write_offset ≡ 0
unfolding perform begin_txn append lookup put read_superblock write_superblock parse_superblock
    bytes_at get_bytes
begun_journal-head = refl

commit-Ready : Ready memory byte_in 1048576 (memory-IsMemory 1048576) sum (commit 1) begun_journal
unfolding Ready serialize_record put_bytes serialize_all
commit-Ready t found =
    let is = some-injective one_buffer t (sym begun_journal-buffer ∙ found) in
    subst
      (λ (u : TxnBuffer).
        HasRoom memory byte_in 1048576 (memory-IsMemory 1048576) (entry_frame sum (committed 1 u))
          begun_journal)
      is
      (short-HasRoom (entry_frame sum (committed 1 one_buffer)) begun_journal (omega arith)
        (omega arith) (omega (arith, begun_journal-head)))

opened_journal-head : (open_journal memory zeros 1048576).write_offset ≡ 0
unfolding read_superblock write_superblock parse_superblock bytes_at get_bytes
opened_journal-head = refl

committed_journal-head : (perform memory sum (commit 1) begun_journal).write_offset ≡ 4096
unfolding perform begin_txn append commit_txn pad_and_write padded zero_bytes round_up_to add64
    sub64 serialize_record put_bytes lookup put erase read_superblock write_superblock
    parse_superblock bytes_at get_bytes
committed_journal-head = refl

history-AreReady :
    AreReady memory byte_in 1048576
      (memory-IsMemory 1048576)
      sum
      history
      (open_journal memory zeros 1048576)
unfolding AreReady Ready serialize_record put_bytes serialize_all
history-AreReady = (
  tt,
  (
    (omega arith, omega arith),
    (
      commit-Ready,
      (
        (
          ((omega arith, omega arith), tt),
          short-HasRoom (entry_frame sum (snapshot (extent_free 0 9 ∷ [])))
              (perform memory sum (commit 1) begun_journal) (omega arith) (omega arith)
              (omega (arith, committed_journal-head)),
        ),
        (tt, tt),
      ),
    ),
  ),
)

recover-perform_all_example :
    let j = perform_all memory sum history (open_journal memory zeros 1048576) in
    (recover memory sum (open_journal memory j.device 1048576)).0 ≡ some (extent_free 0 9 ∷ [])
unfolding apply_all apply
recover-perform_all_example =
    recover-perform_all memory byte_in 1048576 (memory-IsMemory 1048576) sum sum-lt zeros
      (omega arith) (omega arith) blank history history-AreReady

-- A transaction in the middle of its write.
recover-pad_and_write_example :
    let first = open_journal memory zeros 1048576 in
    let bl : Bytes = 1 ∷ 2 ∷ 3 ∷ [] in
    (recover memory sum (open_journal memory (pad_and_write memory bl first).1.device 1048576)).0
    ≡ some (
        records_of
          (open_journal-Refines memory byte_in 1048576
            (memory-IsMemory 1048576)
            sum
            zeros
            (omega arith)
            blank).log)
recover-pad_and_write_example =
    let first = open_journal memory zeros 1048576 in
    let bl : Bytes = 1 ∷ 2 ∷ 3 ∷ [] in
    let h =
      open_journal-Refines memory byte_in 1048576 (memory-IsMemory 1048576) sum zeros (omega arith)
        blank in
    recover-pad_and_write memory byte_in 1048576 (memory-IsMemory 1048576) sum sum-lt h.log bl first
      (pad_and_write memory bl first).1.device (omega arith) h.holds
      (short-HasRoom bl first (omega arith) (omega arith) (omega (arith, opened_journal-head)))
      (λ a l. refl)

-- A device with one block for data.
abbrev small_journal : Journal (ℕ → ℕ)
small_journal = perform_all memory sum (begin ∷ []) (open_journal memory zeros 8192)

small_blank : IsBlank memory byte_in 8192 (memory-IsMemory 8192) sum zeros
unfolding parse_superblock bytes_at get_bytes
small_blank = refl

small_journal-Refines :
    Refines memory byte_in 8192
      (memory-IsMemory 8192)
      sum
      small_journal
      (apply_all (begin ∷ []) new_ledger)
unfolding AreReady Ready
small_journal-Refines =
    perform_all-Refines memory byte_in 8192 (memory-IsMemory 8192) sum (begin ∷ [])
      (open_journal memory zeros 8192) new_ledger (omega arith)
      (open_journal-Refines memory byte_in 8192 (memory-IsMemory 8192) sum zeros (omega arith)
        small_blank)
      (tt, tt)

small_journal-start : small_journal.superblock.checkpoint_offset ≡ 0
unfolding perform_all perform begin_txn read_superblock write_superblock parse_superblock bytes_at
    get_bytes
small_journal-start = refl

small_journal-buffer :
    lookup 1 small_journal.active_txns ≡ some (record { records = []; serialized = [] })
unfolding perform_all perform begin_txn lookup put read_superblock write_superblock parse_superblock
    bytes_at get_bytes
small_journal-buffer = refl

small_journal-FillsUp :
    FillsUp memory byte_in 8192 (memory-IsMemory 8192) (frame 1 [] [] 0) small_journal
unfolding perform_all perform begin_txn read_superblock write_superblock parse_superblock bytes_at
    get_bytes padded zero_bytes round_up_to sub64 add64 serialize_record put_bytes
small_journal-FillsUp = refl

recover-commit_txn-FillsUp_example :
    let r = commit_txn memory sum 1 small_journal in
    (r.0 ≡ done) × ((recover memory sum (open_journal memory r.1.device 8192)).0 ≡ some [])
recover-commit_txn-FillsUp_example =
    recover-commit_txn-FillsUp memory byte_in 8192 (memory-IsMemory 8192) sum sum-lt
      small_journal-Refines.log 1 (record { records = []; serialized = [] }) small_journal
      (omega arith) small_journal-Refines.holds small_journal-start small_journal-buffer
      small_journal-FillsUp
