-- ===== src/Btier/Journal/Durable.antt =====
-- btier/journal.cc, Journal::commit_txn and Journal::checkpoint: what recover gives behind them, and when
-- the machine stops in the middle of them.
use mathlib.Core.List.{append-nil}
use cxxlab.Prelude.{
  ℕ, ◌+◌, ◌-◌, ◌^◌, ◌≤◌, ◌<◌, ◌≡◌, refl, ap, ◌∙◌, arith, true, false, List, [], ◌∷◌, ◌++◌, some,
  All, length, length-append, lookup, erase, nat_eq,
}
use cxxlab.Btier.JournalRecord.{Bytes, JournalRecord, serialize_all}
use cxxlab.Btier.Journal.{
  BlockDevice, Journal, TxnBuffer, done, block, padded, pad_and_write, open_journal, commit_txn,
  checkpoint, zero_bytes, padded_size,
}
use cxxlab.Btier.Journal.Recover.{recover}
use cxxlab.Btier.Journal.Scan.{IsData}
use cxxlab.Btier.Journal.Frames.{Entry, entry_frame, records_of, IsEntry}
use cxxlab.Btier.Journal.Disk.{IsMemory}
use cxxlab.Btier.Journal.Holds.{OnDisk-agree, recover-open_journal}
use cxxlab.Btier.Journal.Writes.{
  Holds, HasRoom, records_of-snoc, data_device, pad_and_write_lem, write_superblock_lem,
  data_device-below,
}
use cxxlab.Btier.Journal.Commit.{
  committed_super, checkpointed_super, committed-OnDisk, checkpointed-OnDisk,
}

-- A buffer whose bytes are those of its records, none of them a BEGIN, COMMIT or checkpoint mark.
pub record IsBuffer (t : TxnBuffer) : Type 0 where
  pub in_bytes : t.serialized ≡ serialize_all t.records
  pub are_data : All IsData t.records

abbrev pub committed : ℕ → TxnBuffer → Entry
committed id t = record { txn_id = id; is_checkpoint = false; records = t.records }

abbrev pub snapshot : List JournalRecord → Entry
snapshot rs = record { txn_id = 0; is_checkpoint = true; records = rs }

length-padded_le : (bl : Bytes) → length bl ≤ length (padded bl)
unfolding padded
length-padded_le bl =
    omega (arith, length-append bl (zero_bytes (padded_size (length bl) - length bl)))

module _ {D : Type 0} (dev : BlockDevice D) (byte : D → ℕ → ℕ) (size : ℕ)
    (mem : IsMemory dev byte size) (calc_crc32 : Bytes → ℕ) where
  entry_of-room :
      (e : Entry) (j : Journal D)
      → size < 2 ^ 64
      → e.txn_id < 2 ^ 64
      → All IsData e.records
      → HasRoom dev byte size mem (entry_frame calc_crc32 e) j
      → IsEntry calc_crc32 e
  entry_of-room e j small id rs room = record {
    id_fits = id;
    are_data = rs;
    size_fits = omega (arith, small, room, length-padded_le (entry_frame calc_crc32 e));
  }

  pub commit_txn-Holds :
      (es : List Entry) (id : ℕ) (t : TxnBuffer) (j : Journal D)
      → size < 2 ^ 64
      → Holds byte size calc_crc32 es j
      → lookup id j.active_txns ≡ some t
      → IsBuffer t
      → id < 2 ^ 64
      → HasRoom dev byte size mem (entry_frame calc_crc32 (committed id t)) j
      → ((commit_txn dev calc_crc32 id j).0 ≡ done)
        × Holds byte size calc_crc32 (es ++ committed id t ∷ []) (commit_txn dev calc_crc32 id j).1
  unfolding commit_txn
  commit_txn-Holds es id t j small h found buffer fits room =
      let e = committed id t in
      let bl = entry_frame calc_crc32 e in
      let j1 : Journal D = record j { active_txns = erase id j.active_txns } in
      let wrote = pad_and_write_lem dev byte size mem bl j1 small h.sized room in
      let s = committed_super bl j in
      let j2 : Journal D = record j1 {
        device = data_device dev byte size mem bl j;
        write_offset = j.write_offset + length (padded bl);
        superblock = s;
      } in
      let through = write_superblock_lem dev byte size mem j2 (omega (arith, room)) in
      rw (found, buffer.in_bytes, wrote, through)
        (
          refl,
          record {
            on_disk =
                committed-OnDisk dev byte size mem calc_crc32 es e j h
                  (entry_of-room e j small fits buffer.are_data room) room;
            head = refl;
            sized = h.sized;
          },
        )

  pub checkpoint-Holds :
      (es : List Entry) (full_state : List JournalRecord) (j : Journal D)
      → size < 2 ^ 64
      → Holds byte size calc_crc32 es j
      → All IsData full_state
      → HasRoom dev byte size mem (entry_frame calc_crc32 (snapshot full_state)) j
      → ((checkpoint dev calc_crc32 full_state j).0 ≡ done)
        × Holds byte size calc_crc32
            (snapshot full_state ∷ [])
            (checkpoint dev calc_crc32 full_state j).1
  unfolding checkpoint
  checkpoint-Holds es full_state j small h rs room =
      let e = snapshot full_state in
      let bl = entry_frame calc_crc32 e in
      let wrote = pad_and_write_lem dev byte size mem bl j small h.sized room in
      let j2 : Journal D = record j {
        device = data_device dev byte size mem bl j;
        write_offset = j.write_offset + length (padded bl);
        superblock = checkpointed_super bl j;
      } in
      let through = write_superblock_lem dev byte size mem j2 (omega (arith, room)) in
      rw (wrote, through)
        (
          refl,
          record {
            on_disk =
                checkpointed-OnDisk dev byte size mem calc_crc32 es e j h
                  (entry_of-room e j small (omega arith) rs room) room;
            head = refl;
            sized = h.sized;
          },
        )

  module _ (crc-lt : (b : Bytes) → calc_crc32 b < 2 ^ 32) where
    -- Where the device keeps its bytes and is smaller than 2^64, the journal's log lies on it in one
    -- piece, the transaction is open with data records in its buffer and a number below 2^64, and its
    -- bytes have room between the head and the end: commit_txn succeeds, and a journal opened on the
    -- device afterwards recovers the records of the log and then those of the transaction.
    pub recover-commit_txn :
        (es : List Entry) (id : ℕ) (t : TxnBuffer) (j : Journal D)
        → size < 2 ^ 64
        → Holds byte size calc_crc32 es j
        → lookup id j.active_txns ≡ some t
        → IsBuffer t
        → id < 2 ^ 64
        → HasRoom dev byte size mem (entry_frame calc_crc32 (committed id t)) j
        → let r = commit_txn dev calc_crc32 id j in
          (r.0 ≡ done)
          × ((recover dev calc_crc32 (open_journal dev r.1.device size)).0
              ≡ some (records_of es ++ t.records))
    recover-commit_txn es id t j small h found buffer fits room =
        let (ok, h') = commit_txn-Holds es id t j small h found buffer fits room in
        let j' = (commit_txn dev calc_crc32 id j).1 in
        (
          ok,
          recover-open_journal dev byte size calc_crc32 mem small crc-lt (es ++ committed id t ∷ [])
                j'.superblock j'.device h'.on_disk
              ∙ ap some (records_of-snoc es (committed id t)),
        )

    -- Under the same conditions on the device and the log, and where the checkpoint's bytes have room: checkpoint
    -- succeeds, and a journal opened on the device afterwards recovers the records of the checkpoint alone.
    pub recover-checkpoint :
        (es : List Entry) (full_state : List JournalRecord) (j : Journal D)
        → size < 2 ^ 64
        → Holds byte size calc_crc32 es j
        → All IsData full_state
        → HasRoom dev byte size mem (entry_frame calc_crc32 (snapshot full_state)) j
        → let r = checkpoint dev calc_crc32 full_state j in
          (r.0 ≡ done)
          × ((recover dev calc_crc32 (open_journal dev r.1.device size)).0 ≡ some full_state)
    unfolding records_of
    recover-checkpoint es full_state j small h rs room =
        let (ok, h') = checkpoint-Holds es full_state j small h rs room in
        let j' = (checkpoint dev calc_crc32 full_state j).1 in
        (
          ok,
          recover-open_journal dev byte size calc_crc32 mem small crc-lt (snapshot full_state ∷ [])
                j'.superblock j'.device h'.on_disk
              ∙ ap some (append-nil full_state),
        )

    -- Where the device keeps its bytes and is smaller than 2^64 and the journal's log lies on it in one
    -- piece: whatever pad_and_write was given, if the bytes have room, a journal opened on any device
    -- that differs from the one behind it at most above the head, as one that holds a part of the bytes,
    -- recovers the records of the log as it was, since the superblock is not written.
    pub recover-pad_and_write :
        (es : List Entry) (bl : Bytes) (j : Journal D) (d : D)
        → size < 2 ^ 64
        → Holds byte size calc_crc32 es j
        → HasRoom dev byte size mem bl j
        → ((a : ℕ)
            → a < block + j.write_offset
            → byte d a ≡ byte (pad_and_write dev bl j).1.device a)
        → (recover dev calc_crc32 (open_journal dev d size)).0 ≡ some (records_of es)
    recover-pad_and_write es bl j d small h room torn =
        let wrote = pad_and_write_lem dev byte size mem bl j small h.sized room in
        let same = rw wrote at torn in
        let disk =
          OnDisk-agree dev byte size calc_crc32 es j.superblock (byte j.device) (byte d)
            (λ a l.
              same a (omega (arith, l, h.head))
              ∙ data_device-below dev byte size mem bl j a (omega (arith, l, h.head)))
            h.on_disk in
        recover-open_journal dev byte size calc_crc32 mem small crc-lt es j.superblock d disk
