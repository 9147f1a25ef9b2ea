-- ===== src/Btier/Journal/Commit.antt =====
-- btier/journal.cc: the superblock and the log on the device, when both writes of Journal::commit_txn or
-- of Journal::checkpoint are through.
use mathlib.Core.List.{append-nil}
use cxxlab.Prelude.{
  ℕ, ◌+◌, ◌≡◌, refl, ◌∙◌, arith, List, [], ◌∷◌, ◌++◌, length, length-append, add64,
}
use cxxlab.Btier.JournalRecord.{Bytes}
use cxxlab.Btier.Journal.{BlockDevice, SuperBlock, Journal, block, padded}
use cxxlab.Btier.Journal.Frames.{Entry, entry_frame, log_bytes, IsEntry}
use cxxlab.Btier.Journal.Disk.{IsMemory, bytes_at, bytes_at-agree, bytes_at-add}
use cxxlab.Btier.Journal.Holds.{OnDisk}
use cxxlab.Btier.Journal.Writes.{
  Holds, HasRoom, log_bytes-snoc, entries-snoc, data_device, super_device, super_device-above,
  super_device-inside, data_device-below, data_device-inside,
}

module _ {D : Type 0} where
  -- The superblock behind a commit of these bytes, and behind a checkpoint.
  abbrev pub committed_super : Bytes → Journal D → SuperBlock
  committed_super bl j = record j.superblock { write_offset = j.write_offset + length (padded bl) }

  abbrev pub checkpointed_super : Bytes → Journal D → SuperBlock
  checkpointed_super bl j = record {
    checkpoint_offset = j.write_offset;
    checkpoint_seqno = add64 j.superblock.checkpoint_seqno 1;
    write_offset = j.write_offset + length (padded bl);
  }

module _ {D : Type 0} (dev : BlockDevice D) (byte : D → ℕ → ℕ) (size : ℕ)
    (mem : IsMemory dev byte size) (calc_crc32 : Bytes → ℕ) where
  -- The bytes of the log and of the entry behind it, when both writes are through.
  log_kept_lem :
      (es : List Entry) (bl : Bytes) (s : SuperBlock) (j : Journal D)
      → Holds byte size calc_crc32 es j
      → HasRoom dev byte size mem bl j
      → let d = super_device dev byte size mem s (data_device dev byte size mem bl j) in
        (bytes_at
            (length (log_bytes calc_crc32 es))
            (block + j.superblock.checkpoint_offset)
            (byte d)
          ≡ log_bytes calc_crc32 es)
        × (bytes_at (length (padded bl)) (block + j.write_offset) (byte d) ≡ padded bl)
  log_kept_lem es bl s j h room =
      let d1 = data_device dev byte size mem bl j in
      let d2 = super_device dev byte size mem s d1 in
      let n = length (log_bytes calc_crc32 es) in
      let above = super_device-above dev byte size mem s d1 in
      let old =
        bytes_at-agree n (block + j.superblock.checkpoint_offset) (byte d2) (byte j.device)
          (λ a l m.
            above a (omega (arith, l))
            ∙ data_device-below dev byte size mem bl j a
                (omega (arith, m, h.head, h.on_disk.ends))) in
      let new =
        bytes_at-agree (length (padded bl)) (block + j.write_offset) (byte d2) (byte d1)
          (λ a l m. above a (omega (arith, l))) in
      (old ∙ h.on_disk.log_kept, new ∙ data_device-inside dev byte size mem bl j room)

  pub committed-OnDisk :
      (es : List Entry) (e : Entry) (j : Journal D)
      → Holds byte size calc_crc32 es j
      → IsEntry calc_crc32 e
      → HasRoom dev byte size mem (entry_frame calc_crc32 e) j
      → let s = committed_super (entry_frame calc_crc32 e) j in
        OnDisk calc_crc32 size (es ++ e ∷ []) s (
          byte (
            super_device dev byte size mem s
              (data_device dev byte size mem (entry_frame calc_crc32 e) j)))
  committed-OnDisk es e j h k room =
      let bl = entry_frame calc_crc32 e in
      let s = committed_super bl j in
      let from = block + j.superblock.checkpoint_offset in
      let d1 = data_device dev byte size mem bl j in
      let f = byte (super_device dev byte size mem s d1) in
      let log = log_bytes calc_crc32 es in
      let n = length-append log (padded bl) in
      let (old, new) = log_kept_lem es bl s j h room in
      let snoc = log_bytes-snoc calc_crc32 es e in
      let at : from + length log ≡ block + j.write_offset = omega (arith, h.head, h.on_disk.ends) in
      record {
        super_kept = super_device-inside dev byte size mem s d1 (omega (arith, room));
        log_kept =
            rw (snoc, n, bytes_at-add (length log) (length (padded bl)) from f, at, old, new) refl;
        ends = rw (snoc, n) (omega (arith, h.on_disk.ends, h.head));
        inside = omega (arith, room);
        seqno_fits = h.on_disk.seqno_fits;
        entries = entries-snoc calc_crc32 es e h.on_disk.entries k;
      }

  pub checkpointed-OnDisk :
      (es : List Entry) (e : Entry) (j : Journal D)
      → Holds byte size calc_crc32 es j
      → IsEntry calc_crc32 e
      → HasRoom dev byte size mem (entry_frame calc_crc32 e) j
      → let s = checkpointed_super (entry_frame calc_crc32 e) j in
        OnDisk calc_crc32 size (e ∷ []) s (
          byte (
            super_device dev byte size mem s
              (data_device dev byte size mem (entry_frame calc_crc32 e) j)))
  unfolding log_bytes
  checkpointed-OnDisk es e j h k room =
      let bl = entry_frame calc_crc32 e in
      let s = checkpointed_super bl j in
      let d1 = data_device dev byte size mem bl j in
      let kept = log_kept_lem es bl s j h room in
      record {
        super_kept = super_device-inside dev byte size mem s d1 (omega (arith, room));
        log_kept = rw (append-nil (padded bl)) kept.1;
        ends = rw (append-nil (padded bl)) refl;
        inside = omega (arith, room);
        seqno_fits = unfold add64 in omega arith;
        entries = (k, tt);
      }
