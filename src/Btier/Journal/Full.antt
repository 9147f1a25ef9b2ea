-- ===== src/Btier/Journal/Full.antt =====
-- btier/journal.cc, Journal::commit_txn where the bytes end just where the device does, and recover
-- behind it.
use cxxlab.Prelude.{
  ℕ, ◌+◌, ◌^◌, ◌<◌, ◌≡◌, refl, arith, true, List, [], some, if◌then◌else◌, ltb, leb, add64,
  add64-eq, lookup, erase, nat_eq, length,
}
use cxxlab.Btier.JournalRecord.{Bytes}
use cxxlab.Btier.Journal.{
  BlockDevice, SuperBlock, Journal, TxnBuffer, done, block, padded, pad_and_write, open_journal,
  commit_txn, frame, checksum,
}
use cxxlab.Btier.Journal.Recover.{recover}
use cxxlab.Btier.Journal.Frames.{Entry, log_bytes, records_of}
use cxxlab.Btier.Journal.Disk.{IsMemory, bytes_at}
use cxxlab.Btier.Journal.Holds.{OnDisk, recover-open_journal}
use cxxlab.Btier.Journal.Writes.{
  Holds, data_device, super_device, data_written_lem, write_superblock_lem, super_device-inside,
}

module _ {D : Type 0} (dev : BlockDevice D) (byte : D → ℕ → ℕ) (size : ℕ)
    (mem : IsMemory dev byte size) where
  -- The bytes at the head end just where the device does.
  abbrev pub FillsUp : Bytes → Journal D → Type 0
  FillsUp bl j = block + (j.write_offset + length (padded bl)) ≡ size

  pad_and_write-FillsUp :
      (bl : Bytes) (j : Journal D)
      → size < 2 ^ 64
      → j.data_size + block ≡ size
      → FillsUp bl j
      → pad_and_write dev bl j
        ≡ (true, record j { device = data_device dev byte size mem bl j; write_offset = 0 })
  unfolding pad_and_write
  pad_and_write-FillsUp bl j small sized full =
      let n = length (padded bl) in
      let next = add64-eq j.write_offset n (omega (arith, full, small)) in
      let head : (if ltb j.data_size (add64 j.write_offset n) then 0 else j.write_offset)
          ≡ j.write_offset =
        ground (arith, next, full, sized) in
      let at = add64-eq block j.write_offset (omega (arith, full, small)) in
      let on : (if leb j.data_size (j.write_offset + n) then 0 else j.write_offset + n) ≡ 0 =
        ground (arith, full, sized) in
      let wrote =
        mem.write_ok (block + j.write_offset) (padded bl) j.device (omega (arith, full)) in
      rw
        (
          head,
          at,
          next,
          data_written_lem dev byte size mem (j.write_offset + n)
              (dev.write (block + j.write_offset) (padded bl) j.device)
              (record j { write_offset = j.write_offset }) wrote,
          on,
        )
        refl

  -- Where the device keeps its bytes and is smaller than 2^64, the journal's log lies on it in one piece
  -- from its start on, and the bytes of an open transaction end just where the device does: commit_txn
  -- succeeds, and a journal opened on the device afterwards recovers no record at all.
  pub recover-commit_txn-FillsUp :
      (calc_crc32 : Bytes → ℕ)
      → (crc-lt : (b : Bytes) → calc_crc32 b < 2 ^ 32)
      → (es : List Entry) (id : ℕ) (t : TxnBuffer) (j : Journal D) → size < 2 ^ 64
      → Holds byte size calc_crc32 es j
      → j.superblock.checkpoint_offset ≡ 0
      → lookup id j.active_txns ≡ some t
      → FillsUp (frame id [] t.serialized (checksum calc_crc32 t.serialized)) j
      → let r = commit_txn dev calc_crc32 id j in
        (r.0 ≡ done) × ((recover dev calc_crc32 (open_journal dev r.1.device size)).0 ≡ some [])
  unfolding commit_txn
  recover-commit_txn-FillsUp calc_crc32 crc-lt es id t j small h start found full =
      let bl = frame id [] t.serialized (checksum calc_crc32 t.serialized) in
      let j1 : Journal D = record j { active_txns = erase id j.active_txns } in
      let wrote = pad_and_write-FillsUp bl j1 small h.sized full in
      let s : SuperBlock = record j.superblock { write_offset = 0 } in
      let d1 = data_device dev byte size mem bl j in
      let j2 : Journal D = record j1 { device = d1; write_offset = 0; superblock = s } in
      let big : block < size = omega (arith, h.on_disk.inside) in
      let through = write_superblock_lem dev byte size mem j2 big in
      let d2 = super_device dev byte size mem s d1 in
      let disk : OnDisk calc_crc32 size [] s (byte d2) = record {
        super_kept = super_device-inside dev byte size mem s d1 big;
        log_kept = unfold log_bytes in unfold bytes_at in refl;
        ends = unfold log_bytes in omega (arith, start);
        inside = omega (arith, big);
        seqno_fits = h.on_disk.seqno_fits;
        entries = tt;
      } in
      let got = recover-open_journal dev byte size calc_crc32 mem small crc-lt [] s d2 disk in
      rw (found, wrote, through) (refl, unfold records_of in got)
