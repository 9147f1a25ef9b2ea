-- ===== src/Btier/Journal.antt =====
-- btier/journal.cc: the write-ahead journal of btier, on the block device of blk/block_device.h, whose
-- operations are a parameter. A method is a function of the state, as if no other ran
-- meanwhile: the methods that the threads share hold the lock, while recover, sync, close and get_used_bytes
-- do not. The checksum of common/crc32.cc is a parameter too.
pub mod Recover
pub mod Scan
pub mod Frames
pub mod Log
pub mod Disk
pub mod Holds
pub mod Writes
pub mod Commit
pub mod Durable
pub mod Ledger
pub mod Buffers
pub mod Refine
pub mod History
pub mod Full
pub mod Memory
pub mod Tests
use cxxlab.Prelude.{
  ℕ, ◌+◌, ◌-◌, ◌*◌, ◌/◌, ◌%◌, ◌^◌, zero, suc, min, Bool, true, false, not, ◌&&◌, List, [], ◌∷◌,
  ◌++◌, Option, none, some, ltb, leb, ◌==◌, if◌then◌else◌, add64, sub64, length, drop, lookup, put,
  erase, nat_eq,
}
use cxxlab.Btier.ExtentMap.Space.{round_up_to}
use cxxlab.Btier.JournalRecord.{
  Bytes, JournalRecord, txn_begin, key_put, key_del, mark_dead, extent_new, extent_free, txn_commit,
  checkpoint_mark, unknown, Reading, put_u64, get_u64, serialize_record, serialize_all,
  deserialize_record,
}

-- kSuperblockSize, kDataStart and kTxnAlignment
abbrev pub block : ℕ
block = 4096

abbrev pub magic : ℕ
magic = 0x42544A5350423031

-- read gives none, and the others false, where the code sees a negative result.
pub record BlockDevice (D : Type 0) : Type 0 where
  pub read : (offset length : ℕ) → D → Option Bytes
  pub write : (offset : ℕ) → Bytes → D → Bool × D
  pub flush : D → Bool × D

-- JournalSuperBlock, but for its magic number and padding.
pub record SuperBlock : Type 0 where
  pub checkpoint_offset : ℕ
  pub checkpoint_seqno : ℕ
  pub write_offset : ℕ

-- TxnBuffer; its number is the key in active_txns.
pub record TxnBuffer : Type 0 where
  pub records : List JournalRecord
  pub serialized : Bytes

pub record Journal (D : Type 0) : Type 0 where
  pub device : D
  pub data_size : ℕ
  pub next_txn_id : ℕ
  pub active_txns : List (ℕ × TxnBuffer)
  pub superblock : SuperBlock
  pub write_offset : ℕ

pub data Status : Type 0 where
  done enoent io_failed : Status

unfoldable pub zero_bytes : ℕ → Bytes
zero_bytes zero = []
zero_bytes (suc n) = 0 ∷ zero_bytes n

-- The 4096 bytes of the superblock; the padding is never read, and 0 here.
unfoldable pub superblock_bytes : SuperBlock → Bytes
superblock_bytes s =
    put_u64 magic
    ++ (put_u64 s.checkpoint_offset
        ++ (put_u64 s.checkpoint_seqno ++ (put_u64 s.write_offset ++ zero_bytes 4064)))

abbrev pub first_superblock : SuperBlock
first_superblock = record { checkpoint_offset = 0; checkpoint_seqno = 0; write_offset = 0 }

-- The words of a superblock that was read; 0 where none is left.
abbrev pub word : Reading ℕ → ℕ
word none = 0
word (some (v, p)) = v

abbrev pub behind : Reading ℕ → Bytes
behind none = []
behind (some (v, p)) = p

-- memcpy into superblock_: the magic number, and the rest.
unfoldable pub parse_superblock : Bytes → ℕ × SuperBlock
parse_superblock p =
    let p1 = behind (get_u64 p) in
    let p2 = behind (get_u64 p1) in
    let p3 = behind (get_u64 p2) in
    (
      word (get_u64 p),
      record {
        checkpoint_offset = word (get_u64 p1);
        checkpoint_seqno = word (get_u64 p2);
        write_offset = word (get_u64 p3);
      },
    )

-- BEGIN, the records and COMMIT; a checkpoint has its mark in front of the records.
abbrev pub frame : ℕ → Bytes → Bytes → ℕ → Bytes
frame txn_id mark records crc =
    serialize_record (txn_begin txn_id)
    ++ (mark ++ (records ++ serialize_record (txn_commit txn_id crc)))

abbrev pub padded_size : ℕ → ℕ
padded_size len = let p = round_up_to len block in if p == 0 then block else p

unfoldable pub padded : Bytes → Bytes
padded bl = bl ++ zero_bytes (padded_size (length bl) - length bl)

-- r.txn_id = txn_id
abbrev pub with_txn_id : ℕ → JournalRecord → JournalRecord
with_txn_id t (txn_begin u) = txn_begin t
with_txn_id t (key_put u k l) = key_put t k l
with_txn_id t (key_del u k) = key_del t k
with_txn_id t (mark_dead u e n) = mark_dead t e n
with_txn_id t (extent_new u e l) = extent_new t e l
with_txn_id t (extent_free u e) = extent_free t e
with_txn_id t (txn_commit u c) = txn_commit t c
with_txn_id t (checkpoint_mark u) = checkpoint_mark t
with_txn_id t (unknown op u) = unknown op t

module _ (calc_crc32 : Bytes → ℕ) where
  -- The checksum of no bytes is 0.
  abbrev pub checksum : Bytes → ℕ
  checksum [] = 0
  checksum (b ∷ bs) = calc_crc32 (b ∷ bs)

-- active_txns_[txn_id], which is made empty where it is missing.
abbrev pub buffer_of : Option TxnBuffer → TxnBuffer
buffer_of none = record { records = []; serialized = [] }
buffer_of (some t) = t

module _ {D : Type 0} where
  abbrev pub opened : D → ℕ → Journal D
  opened d dev_size = record {
    device = d;
    data_size = if ltb block dev_size then dev_size - block else 0;
    next_txn_id = 1;
    active_txns = [];
    superblock = first_superblock;
    write_offset = 0;
  }

  unfoldable pub begin_txn : Journal D → ℕ × Journal D
  begin_txn j = (
    j.next_txn_id,
    record j {
      next_txn_id = add64 j.next_txn_id 1;
      active_txns =
          put j.next_txn_id (buffer_of (lookup j.next_txn_id j.active_txns)) j.active_txns;
    },
  )

  abbrev pub append_to : ℕ → JournalRecord → Option TxnBuffer → Journal D → Status × Journal D
  append_to txn_id rec none j = (enoent, j)
  append_to txn_id rec (some t) j =
      let r = with_txn_id txn_id rec in
      let t' : TxnBuffer = record {
        records = t.records ++ r ∷ [];
        serialized = t.serialized ++ serialize_record r;
      } in
      (done, record j { active_txns = put txn_id t' j.active_txns })

  unfoldable pub append : ℕ → JournalRecord → Journal D → Status × Journal D
  append txn_id rec j = append_to txn_id rec (lookup txn_id j.active_txns) j

  unfoldable pub get_used_bytes : Journal D → ℕ
  get_used_bytes j =
      let cp = j.superblock.checkpoint_offset in
      let wp = j.write_offset in if leb cp wp then sub64 wp cp else add64 (sub64 j.data_size cp) wp

-- A chunk in front of the bytes that the next rounds read; the loop ends at one that is empty.
abbrev pub chunk_then : Option Bytes → Bytes → Bytes
chunk_then none next = []
chunk_then (some []) next = []
chunk_then (some (b ∷ bs)) next = b ∷ (bs ++ next)

module _ {D : Type 0} (dev : BlockDevice D) where
  abbrev pub flushed : Bool × D → Bool × D
  flushed (false, d) = (false, d)
  flushed (true, d) = dev.flush d

  unfoldable pub write_superblock : Journal D → Bool × Journal D
  write_superblock j =
      let (ok, d) = flushed (dev.write 0 (superblock_bytes j.superblock) j.device) in
      (ok, record j { device = d })

  abbrev pub superblock_read : Option Bytes → Journal D → Bool × Journal D
  superblock_read none j = (false, j)
  superblock_read (some bl) j =
      let (m, s) = parse_superblock bl in
      let first = write_superblock (record j { superblock = first_superblock; write_offset = 0 }) in
      if ltb (length bl) block
      then (false, j)
      else if m == magic
      then (true, record j { superblock = s; write_offset = s.write_offset })
      else first

  unfoldable pub read_superblock : Journal D → Bool × Journal D
  read_superblock j = superblock_read (dev.read 0 block j.device) j

  -- Journal::Journal; the result of read_superblock is not read.
  abbrev pub open_journal : D → ℕ → Journal D
  open_journal d dev_size = (read_superblock (opened d dev_size)).1

  -- Where pad_and_write puts a number of bytes: at the head, or at the start where the end is too near.
  abbrev pub head_for : ℕ → Journal D → ℕ
  head_for size j = if ltb j.data_size (add64 j.write_offset size) then 0 else j.write_offset

  abbrev pub data_written : ℕ → Bool × D → Journal D → Bool × Journal D
  data_written next (false, d) j = (false, record j { device = d })
  data_written next (true, d) j =
      let (ok, d') = dev.flush d in
      (ok, record j { device = d'; write_offset = if leb j.data_size next then 0 else next })

  unfoldable pub pad_and_write : Bytes → Journal D → Bool × Journal D
  pad_and_write bl j =
      let bytes = padded bl in
      let head = head_for (length bytes) j in
      data_written (add64 head (length bytes)) (dev.write (add64 block head) bytes j.device)
        (record j { write_offset = head })

  -- The rest of commit_txn; the result of write_superblock is not read.
  abbrev pub commit_written : Bool × Journal D → Status × Journal D
  commit_written (false, j) = (io_failed, j)
  commit_written (true, j) =
      let s = record j.superblock { write_offset = j.write_offset } in
      (done, (write_superblock (record j { superblock = s })).1)

  unfoldable pub trim : Journal D → Journal D
  trim j =
      let s = record j.superblock {
        checkpoint_offset = j.write_offset;
        write_offset = j.write_offset;
      } in
      (write_superblock (record j { superblock = s })).1

  -- sync, and close.
  abbrev pub sync : Journal D → Journal D
  sync j = record j { device = (dev.flush j.device).1 }

  -- The loop of recover that reads the range, by at most one round for each byte. Where the
  -- superblock has a read position behind the data, the source's remaining length wraps; here it stops at 0.
  unfoldable pub read_range : ℕ → ℕ → ℕ → ℕ → D → Bytes
  read_range zero data_size remaining pos d = []
  read_range (suc fuel) data_size remaining pos d =
      let want = min block remaining in
      let to_read = if ltb data_size (add64 pos want) then sub64 data_size pos else want in
      let pos' = add64 pos to_read in
      let next =
        read_range fuel data_size (remaining - to_read) (if leb data_size pos' then 0 else pos')
          d in
      if remaining == 0 then [] else chunk_then (dev.read (add64 block pos) to_read d) next

module _ {D : Type 0} (dev : BlockDevice D) (calc_crc32 : Bytes → ℕ) where
  abbrev pub commit_buffer : ℕ → Option TxnBuffer → Journal D → Status × Journal D
  commit_buffer txn_id none j = (enoent, j)
  commit_buffer txn_id (some t) j =
      let bl = frame txn_id [] t.serialized (checksum calc_crc32 t.serialized) in
      commit_written dev
        (pad_and_write dev bl (record j { active_txns = erase txn_id j.active_txns }))

  unfoldable pub commit_txn : ℕ → Journal D → Status × Journal D
  commit_txn txn_id j = commit_buffer txn_id (lookup txn_id j.active_txns) j

  abbrev pub checkpoint_written : ℕ → Bool × Journal D → Status × Journal D
  checkpoint_written start (false, j) = (io_failed, j)
  checkpoint_written start (true, j) =
      let s : SuperBlock = record {
        checkpoint_offset = start;
        write_offset = j.write_offset;
        checkpoint_seqno = add64 j.superblock.checkpoint_seqno 1;
      } in
      (done, (write_superblock dev (record j { superblock = s })).1)

  unfoldable pub checkpoint : List JournalRecord → Journal D → Status × Journal D
  checkpoint full_state j =
      let records = serialize_all full_state in
      let bl =
        frame 0 (serialize_record (checkpoint_mark 0)) records (checksum calc_crc32 records) in
      checkpoint_written j.write_offset (pad_and_write dev bl j)
