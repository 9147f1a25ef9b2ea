-- ===== src/Btier/Journal/History.antt =====
-- btier/journal.cc: the whole life of a journal, from a device that has none on, against its ledger.
use cxxlab.Prelude.{
  ℕ, ◌^◌, ◌<◌, ◌≡◌, refl, ap, ◌∙◌, arith, Bool, false, List, [], none, some, ◌==◌, ltb, lookup,
  nat_eq, length,
}
use cxxlab.Btier.JournalRecord.{Bytes}
use cxxlab.Btier.Journal.{
  BlockDevice, Journal, block, magic, open_journal, opened, read_superblock, write_superblock,
  parse_superblock, first_superblock,
}
use cxxlab.Btier.Journal.Recover.{recover}
use cxxlab.Btier.Journal.Frames.{log_bytes, records_of}
use cxxlab.Btier.Journal.Disk.{IsMemory, bytes_at, length-bytes_at}
use cxxlab.Btier.Journal.Holds.{recover-open_journal}
use cxxlab.Btier.Journal.Writes.{super_device, write_superblock_lem, super_device-inside}
use cxxlab.Btier.Journal.Ledger.{Op, Ledger, apply_all, perform_all, AreReady, AreBuffers, Refines}
use cxxlab.Btier.Journal.Refine.{perform_all-Refines}

-- Nothing is durable, and no transaction is begun.
abbrev pub new_ledger : Ledger
new_ledger = record { saved = []; pending = λ id. none; next = 1 }

no_buffers : AreBuffers []
unfolding lookup
no_buffers id t found = absurd (ground (arith, found))

module _ {D : Type 0} (dev : BlockDevice D) (byte : D → ℕ → ℕ) (size : ℕ)
    (mem : IsMemory dev byte size) (calc_crc32 : Bytes → ℕ) where
  -- The first word of the device is not the magic number of a journal.
  abbrev pub IsBlank : D → Type 0
  IsBlank d = ((parse_superblock (bytes_at block 0 (byte d))).0 == magic) ≡ false

  read_superblock-blank :
      (d : D)
      → block < size
      → IsBlank d
      → read_superblock dev (opened d size) ≡ write_superblock dev (opened d size)
  unfolding read_superblock
  read_superblock-blank d big blank =
      let got = mem.read_law 0 block d (omega (arith, big)) in
      let whole : ltb (length (bytes_at block 0 (byte d))) block ≡ false =
        ground (arith, length-bytes_at block 0 (byte d)) in
      rw (got, whole, blank) refl

  pub open_journal-Refines :
      (d : D)
      → block < size
      → IsBlank d
      → Refines dev byte size mem calc_crc32 (open_journal dev d size) new_ledger
  open_journal-Refines d big blank =
      let j : Journal D = record (opened d size) {
        device = super_device dev byte size mem first_superblock d;
      } in
      let is =
        ap (λ (r : Bool × Journal D). r.1) (read_superblock-blank d big blank)
        ∙ write_superblock_lem dev byte size mem (opened d size) big in
      rw (open_journal, is)
        (record {
          log = [];
          holds = record {
            on_disk = record {
              super_kept = super_device-inside dev byte size mem first_superblock d big;
              log_kept = unfold log_bytes in unfold bytes_at in refl;
              ends = unfold log_bytes in refl;
              inside = omega (arith, big);
              seqno_fits = omega arith;
              entries = unfold log_bytes in tt;
            };
            head = refl;
            sized = ground (arith, big);
          };
          durable = unfold records_of in refl;
          buffered = λ id. unfold lookup in refl;
          buffers = no_buffers;
          numbered = refl;
          next_fits = omega arith;
        })

  -- Where the device keeps its bytes, has more than a block and fewer than 2^64 bytes, and no magic
  -- number at its start, and the checksum is below 2^32: after any sequence of
  -- begin_txn, append, commit_txn and checkpoint, and no other calls, on a journal that is opened on it,
  -- each with data records and with room for its bytes, a journal opened on the device
  -- anew recovers just the durable records of the ledger: those of the last checkpoint and then those of
  -- the transactions committed since, in the order of their commits, and nothing of the others.
  pub recover-perform_all :
      (crc-lt : (b : Bytes) → calc_crc32 b < 2 ^ 32)
      → (d : D) → block < size
      → size < 2 ^ 64
      → IsBlank d
      → (os : List Op) → AreReady dev byte size mem calc_crc32 os (open_journal dev d size)
      → let j = perform_all dev calc_crc32 os (open_journal dev d size) in
        (recover dev calc_crc32 (open_journal dev j.device size)).0
        ≡ some (apply_all os new_ledger).saved
  recover-perform_all crc-lt d big small blank os ready =
      let first = open_journal-Refines d big blank in
      let j = perform_all dev calc_crc32 os (open_journal dev d size) in
      let h =
        perform_all-Refines dev byte size mem calc_crc32 os (open_journal dev d size) new_ledger
          small first ready in
      recover-open_journal dev byte size calc_crc32 mem small crc-lt h.log j.superblock j.device
        h.holds.on_disk
      ∙ ap some h.durable
