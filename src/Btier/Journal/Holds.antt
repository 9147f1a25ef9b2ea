-- ===== src/Btier/Journal/Holds.antt =====
-- btier/journal.cc: a journal whose log lies on the device in one piece, and what Journal::recover makes
-- of such a device.
use cxxlab.Prelude.{
  ℕ, ◌+◌, ◌-◌, ◌^◌, ◌<◌, ◌≡◌, refl, sym, ap, ◌∙◌, arith, true, false, List, [], ◌∷◌, Option, some,
  All, length, length-append, ltb, leb, ◌==◌, if◌then◌else◌, add64, sub64, sub64-eq, if-cases,
  ==→eq,
}
use cxxlab.Btier.JournalRecord.{Bytes, JournalRecord}
use cxxlab.Btier.Journal.{
  BlockDevice, SuperBlock, Journal, block, superblock_bytes, read_superblock, padded, open_journal,
  opened,
}
use cxxlab.Btier.Journal.Recover.{recover, recover_range, has_data}
use cxxlab.Btier.Journal.Frames.{
  Entry, entry_frame, log_bytes, records_of, IsEntry, padded_size_lem,
}
use cxxlab.Btier.Journal.Log.{length-entry, length-entry_frame, parse-log_bytes}
use cxxlab.Btier.Journal.Disk.{
  IsMemory, bytes_at, bytes_at-agree, IsSuperBlock, parse_superblock-superblock_bytes,
  length-superblock_bytes, read_range_lem,
}

-- The superblock and the log of a device, the log in one piece that ends at the head.
pub record OnDisk (calc_crc32 : Bytes → ℕ) (size : ℕ) (es : List Entry) (s : SuperBlock) (f : ℕ → ℕ)
    : Type 0 where
  pub super_kept : bytes_at block 0 f ≡ superblock_bytes s
  pub log_kept :
      bytes_at (length (log_bytes calc_crc32 es)) (block + s.checkpoint_offset) f
      ≡ log_bytes calc_crc32 es
  pub ends : s.checkpoint_offset + length (log_bytes calc_crc32 es) ≡ s.write_offset
  pub inside : block + s.write_offset < size
  pub seqno_fits : s.checkpoint_seqno < 2 ^ 64
  pub entries : All (IsEntry calc_crc32) es

module _ (calc_crc32 : Bytes → ℕ) where
  -- A log of no bytes has no entries.
  records_of-nil :
      (es : List Entry)
      → All (IsEntry calc_crc32) es
      → length (log_bytes calc_crc32 es) ≡ 0
      → records_of es ≡ []
  unfolding log_bytes records_of
  records_of-nil [] h e = refl
  records_of-nil (x ∷ es) h e =
      let n = length-entry_frame calc_crc32 x in
      let p =
        padded_size_lem (length (entry_frame calc_crc32 x)) (omega (arith, n)) h.0.size_fits in
      absurd (
        omega (
          arith,
          n,
          p.0,
          length-entry calc_crc32 x h.0,
          length-append (padded (entry_frame calc_crc32 x)) (log_bytes calc_crc32 es),
          e,
        ))

module _ {D : Type 0} (dev : BlockDevice D) (byte : D → ℕ → ℕ) (size : ℕ)
    (calc_crc32 : Bytes → ℕ) where
  -- A device where nothing below the head of the log differs holds the same log.
  pub OnDisk-agree :
      (es : List Entry) (s : SuperBlock) (f g : ℕ → ℕ)
      → ((a : ℕ) → a < block + s.write_offset → g a ≡ f a)
      → OnDisk calc_crc32 size es s f
      → OnDisk calc_crc32 size es s g
  OnDisk-agree es s f g same h = record {
    super_kept = bytes_at-agree block 0 g f (λ a l m. same a (omega (arith, m))) ∙ h.super_kept;
    log_kept =
        bytes_at-agree (length (log_bytes calc_crc32 es)) (block + s.checkpoint_offset) g f
          (λ a l m. same a (omega (arith, m, h.ends)))
        ∙ h.log_kept;
    ends = h.ends;
    inside = h.inside;
    seqno_fits = h.seqno_fits;
    entries = h.entries;
  }

  pub read_superblock_lem :
      IsMemory dev byte size
      → size < 2 ^ 64
      → (es : List Entry) (s : SuperBlock) (j : Journal D)
      → OnDisk calc_crc32 size es s (byte j.device)
      → read_superblock dev j ≡ (true, record j { superblock = s; write_offset = s.write_offset })
  unfolding read_superblock
  read_superblock_lem mem small es s j h =
      let fits : IsSuperBlock s = record {
        checkpoint_fits = omega (arith, small, h.ends, h.inside);
        seqno_fits = h.seqno_fits;
        write_fits = omega (arith, small, h.inside);
      } in
      let got = mem.read_law 0 block j.device (omega (arith, h.inside)) ∙ ap some h.super_kept in
      let whole : ltb (length (superblock_bytes s)) block ≡ false =
        ground (arith, length-superblock_bytes s) in
      rw (got, parse_superblock-superblock_bytes s fits, whole) refl

  recover_range_lem :
      IsMemory dev byte size
      → size < 2 ^ 64
      → (crc-lt : (b : Bytes) → calc_crc32 b < 2 ^ 32) → (es : List Entry) (j : Journal D)
      → j.data_size + block ≡ size
      → j.write_offset ≡ j.superblock.write_offset
      → OnDisk calc_crc32 size es j.superblock (byte j.device)
      → recover_range dev calc_crc32 j ≡ some (records_of es)
  recover_range_lem mem small crc-lt es j ds head h =
      let from = j.superblock.checkpoint_offset in
      let n = length (log_bytes calc_crc32 es) in
      let len : (if leb from j.write_offset
            then sub64 j.write_offset from
            else add64 (sub64 j.data_size from) j.write_offset)
          ≡ n =
        ground (
          arith,
          h.ends,
          head,
          sub64-eq j.write_offset from (omega (arith, h.ends, head))
              (omega (arith, small, h.inside, head)),
        ) in
      let got =
        read_range_lem dev byte size mem n j.data_size n from j.device (omega arith)
          (omega (arith, h.ends, h.inside, ds)) (omega (arith, ds)) small in
      rw (len, got, h.log_kept) (parse-log_bytes calc_crc32 crc-lt es h.entries)

  -- Where the device keeps its bytes and is smaller than 2^64, and the superblock and the log on it are
  -- those of the entries: recover gives the records of the entries in their order.
  pub recover_lem :
      IsMemory dev byte size
      → size < 2 ^ 64
      → (crc-lt : (b : Bytes) → calc_crc32 b < 2 ^ 32)
      → (es : List Entry) (s : SuperBlock) (j : Journal D) → j.data_size + block ≡ size
      → OnDisk calc_crc32 size es s (byte j.device)
      → (recover dev calc_crc32 j).0 ≡ some (records_of es)
  unfolding recover
  recover_lem mem small crc-lt es s j ds h =
      let j' : Journal D = record j { superblock = s; write_offset = s.write_offset } in
      let all = recover_range_lem mem small crc-lt es j' ds refl h in
      rw (read_superblock_lem mem small es s j h) (
        if-cases (λ (o : Option (List JournalRecord)). o ≡ some (records_of es))
          (s.checkpoint_offset == s.write_offset)
          (λ same.
            let none_left = ap some (
              sym
                (records_of-nil calc_crc32 es h.entries (omega (arith, h.ends, ==→eq _ _ same)))) in
            if-cases (λ (o : Option (List JournalRecord)). o ≡ some (records_of es))
              (s.write_offset == 0)
              (λ first.
                if-cases (λ (o : Option (List JournalRecord)). o ≡ some (records_of es))
                  (has_data (dev.read block block j.device)) (λ d. all) (λ d. none_left))
              (λ later. none_left))
          (λ other. all))

  -- The same for a journal that is opened anew on the device.
  pub recover-open_journal :
      IsMemory dev byte size
      → size < 2 ^ 64
      → (crc-lt : (b : Bytes) → calc_crc32 b < 2 ^ 32) → (es : List Entry) (s : SuperBlock) (d : D)
      → OnDisk calc_crc32 size es s (byte d)
      → (recover dev calc_crc32 (open_journal dev d size)).0 ≡ some (records_of es)
  recover-open_journal mem small crc-lt es s d h =
      let ds : (if ltb block size then size - block else 0) + block ≡ size =
        ground (arith, h.inside) in
      let j : Journal D = record (opened d size) {
        superblock = s;
        write_offset = s.write_offset;
      } in
      rw (open_journal, read_superblock_lem mem small es s (opened d size) h)
        (recover_lem mem small crc-lt es s j ds h)
