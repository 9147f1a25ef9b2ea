-- ===== src/Btier/Journal/Writes.antt =====
-- btier/journal.cc, pad_and_write and write_superblock on a device that keeps its bytes: the journal
-- behind them, and what is on the device.
use mathlib.Core.List.{append-nil, append_assoc}
use cxxlab.Prelude.{
  ℕ, ◌+◌, ◌^◌, ◌≤◌, ◌<◌, ◌≡◌, refl, sym, ap, ◌∙◌, arith, Bool, true, false, List, [], ◌∷◌, ◌++◌,
  All, length, ltb, leb, if◌then◌else◌, add64, add64-eq,
}
use cxxlab.Btier.JournalRecord.{Bytes, JournalRecord}
use cxxlab.Btier.Journal.{
  BlockDevice, SuperBlock, Journal, block, superblock_bytes, padded, pad_and_write, data_written,
  flushed, write_superblock,
}
use cxxlab.Btier.Journal.Frames.{Entry, entry_frame, log_bytes, records_of, IsEntry}
use cxxlab.Btier.Journal.Disk.{IsMemory, bytes_at, bytes_at-agree, length-superblock_bytes}
use cxxlab.Btier.Journal.Holds.{OnDisk}

-- A journal at work: its log and superblock are on the device, and the head is the one stored there.
pub record Holds {D : Type 0} (byte : D → ℕ → ℕ) (size : ℕ) (calc_crc32 : Bytes → ℕ)
    (es : List Entry) (j : Journal D) : Type 0 where
  pub on_disk : OnDisk calc_crc32 size es j.superblock (byte j.device)
  pub head : j.write_offset ≡ j.superblock.write_offset
  pub sized : j.data_size + block ≡ size

module _ (calc_crc32 : Bytes → ℕ) where
  pub log_bytes-snoc :
      (es : List Entry) (e : Entry)
      → log_bytes calc_crc32 (es ++ e ∷ [])
        ≡ log_bytes calc_crc32 es ++ padded (entry_frame calc_crc32 e)
  unfolding log_bytes
  log_bytes-snoc [] e = append-nil (padded (entry_frame calc_crc32 e))
  log_bytes-snoc (x ∷ es) e =
      let first = padded (entry_frame calc_crc32 x) in
      ap (λ (b : Bytes). first ++ b) (log_bytes-snoc es e)
      ∙ sym (append_assoc first (log_bytes calc_crc32 es) (padded (entry_frame calc_crc32 e)))

  pub entries-snoc :
      (es : List Entry) (e : Entry)
      → All (IsEntry calc_crc32) es
      → IsEntry calc_crc32 e
      → All (IsEntry calc_crc32) (es ++ e ∷ [])
  entries-snoc [] e h k = (k, tt)
  entries-snoc (x ∷ es) e h k = (h.0, entries-snoc es e h.1 k)

pub records_of-snoc :
    (es : List Entry) (e : Entry) → records_of (es ++ e ∷ []) ≡ records_of es ++ e.records
unfolding records_of
records_of-snoc [] e = append-nil e.records
records_of-snoc (x ∷ es) e =
    ap (λ (rs : List JournalRecord). x.records ++ rs) (records_of-snoc es e)
    ∙ sym (append_assoc x.records (records_of es) e.records)

module _ {D : Type 0} (dev : BlockDevice D) (byte : D → ℕ → ℕ) (size : ℕ)
    (mem : IsMemory dev byte size) where
  -- Room for the bytes at the head, so that they need not start over.
  abbrev pub HasRoom : Bytes → Journal D → Type 0
  HasRoom bl j = block + (j.write_offset + length (padded bl)) < size

  -- The device behind pad_and_write.
  abbrev pub data_device : Bytes → Journal D → D
  data_device bl j = (dev.flush (dev.write (block + j.write_offset) (padded bl) j.device).1).1

  pub data_written_lem :
      (next : ℕ) (r : Bool × D) (j : Journal D)
      → r.0 ≡ true
      → data_written dev next r j ≡ (
        true,
        record j {
          device = (dev.flush r.1).1;
          write_offset = if leb j.data_size next then 0 else next;
        },
      )
  data_written_lem next (false, d) j ok = absurd (ground (arith, ok))
  data_written_lem next (true, d) j ok = rw (mem.flush_ok d) refl

  pub pad_and_write_lem :
      (bl : Bytes) (j : Journal D)
      → size < 2 ^ 64
      → j.data_size + block ≡ size
      → HasRoom bl j
      → pad_and_write dev bl j ≡ (
        true,
        record j { device = data_device bl j; write_offset = j.write_offset + length (padded bl) },
      )
  unfolding pad_and_write
  pad_and_write_lem bl j small sized room =
      let n = length (padded bl) in
      let head : (if ltb j.data_size (add64 j.write_offset n) then 0 else j.write_offset)
          ≡ j.write_offset =
        ground (arith, add64-eq j.write_offset n (omega (arith, room, small)), room, sized) in
      let at = add64-eq block j.write_offset (omega (arith, room, small)) in
      let next = add64-eq j.write_offset n (omega (arith, room, small)) in
      let on : (if leb j.data_size (j.write_offset + n) then 0 else j.write_offset + n)
          ≡ j.write_offset + n =
        ground (arith, room, sized) in
      let wrote =
        mem.write_ok (block + j.write_offset) (padded bl) j.device (omega (arith, room)) in
      rw
        (
          head,
          at,
          next,
          data_written_lem (j.write_offset + n)
              (dev.write (block + j.write_offset) (padded bl) j.device)
              (record j { write_offset = j.write_offset }) wrote,
          on,
        )
        refl

  -- The device behind write_superblock.
  abbrev pub super_device : SuperBlock → D → D
  super_device s d = (dev.flush (dev.write 0 (superblock_bytes s) d).1).1

  flushed_lem : (r : Bool × D) → r.0 ≡ true → (flushed dev r).1 ≡ (dev.flush r.1).1
  flushed_lem (false, d) ok = absurd (ground (arith, ok))
  flushed_lem (true, d) ok = refl

  pub write_superblock_lem :
      (j : Journal D)
      → block < size
      → (write_superblock dev j).1 ≡ record j { device = super_device j.superblock j.device }
  unfolding write_superblock
  write_superblock_lem j big =
      let wrote =
        mem.write_ok 0 (superblock_bytes j.superblock) j.device
          (omega (arith, big, length-superblock_bytes j.superblock)) in
      ap (λ (d : D). record j { device = d })
        (flushed_lem (dev.write 0 (superblock_bytes j.superblock) j.device) wrote)

  pub super_device-above :
      (s : SuperBlock) (d : D) (a : ℕ) → block ≤ a → byte (super_device s d) a ≡ byte d a
  super_device-above s d a h =
      mem.flush_law (dev.write 0 (superblock_bytes s) d).1 a
      ∙ mem.write_above 0 (superblock_bytes s) d a (omega (arith, h, length-superblock_bytes s))

  pub super_device-inside :
      (s : SuperBlock) (d : D)
      → block < size
      → bytes_at block 0 (byte (super_device s d)) ≡ superblock_bytes s
  super_device-inside s d big =
      let w = (dev.write 0 (superblock_bytes s) d).1 in
      let n = length-superblock_bytes s in
      let inside = mem.write_inside 0 (superblock_bytes s) d (omega (arith, big, n)) in
      bytes_at-agree block 0 (byte (super_device s d)) (byte w) (λ a l m. mem.flush_law w a)
      ∙ (rw n at inside)

  pub data_device-below :
      (bl : Bytes) (j : Journal D) (a : ℕ)
      → a < block + j.write_offset
      → byte (data_device bl j) a ≡ byte j.device a
  data_device-below bl j a h =
      mem.flush_law (dev.write (block + j.write_offset) (padded bl) j.device).1 a
      ∙ mem.write_below (block + j.write_offset) (padded bl) j.device a h

  pub data_device-inside :
      (bl : Bytes) (j : Journal D)
      → HasRoom bl j
      → bytes_at (length (padded bl)) (block + j.write_offset) (byte (data_device bl j)) ≡ padded bl
  data_device-inside bl j room =
      let w = (dev.write (block + j.write_offset) (padded bl) j.device).1 in
      bytes_at-agree (length (padded bl)) (block + j.write_offset) (byte (data_device bl j))
        (byte w) (λ a l m. mem.flush_law w a)
      ∙ mem.write_inside (block + j.write_offset) (padded bl) j.device (omega (arith, room))
