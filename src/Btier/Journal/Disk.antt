-- ===== src/Btier/Journal/Disk.antt =====
-- btier/journal.cc on a device that keeps its bytes: what the superblock and the range of the log read
-- back as.
use cxxlab.Prelude.{
  ℕ, ◌+◌, ◌-◌, ◌^◌, ◌≤◌, ◌<◌, ◌≡◌, refl, sym, ap, ◌∙◌, arith, zero, suc, min, true, false, [], ◌∷◌,
  ◌++◌, some, length, length-append, ltb, leb, ◌==◌, if◌then◌else◌, add64, sub64, add64-eq,
}
use cxxlab.Btier.JournalRecord.{Bytes, put_u64}
use cxxlab.Btier.JournalRecord.RoundTrip.{get_u64-put}
use cxxlab.Btier.Journal.{
  BlockDevice, SuperBlock, block, magic, zero_bytes, superblock_bytes, parse_superblock, read_range,
  chunk_then,
}
use cxxlab.Btier.Journal.Scan.{length-zero_bytes, length-put_bytes}

-- The bytes of a device from an offset on.
unfoldable pub bytes_at : ℕ → ℕ → (ℕ → ℕ) → Bytes
bytes_at zero a f = []
bytes_at (suc n) a f = f a ∷ bytes_at n (suc a) f

-- A device of some size that does not fail: reads give what the last writes left.
pub record IsMemory {D : Type 0} (dev : BlockDevice D) (byte : D → ℕ → ℕ) (size : ℕ) : Type 0 where
  pub read_law :
      (offset n : ℕ) (d : D)
      → offset + n ≤ size
      → dev.read offset n d ≡ some (bytes_at n offset (byte d))
  pub write_ok :
      (offset : ℕ) (b : Bytes) (d : D) → offset + length b ≤ size → (dev.write offset b d).0 ≡ true
  pub write_inside :
      (offset : ℕ) (b : Bytes) (d : D)
      → offset + length b ≤ size
      → bytes_at (length b) offset (byte (dev.write offset b d).1) ≡ b
  pub write_below :
      (offset : ℕ) (b : Bytes) (d : D) (a : ℕ)
      → a < offset
      → byte (dev.write offset b d).1 a ≡ byte d a
  pub write_above :
      (offset : ℕ) (b : Bytes) (d : D) (a : ℕ)
      → offset + length b ≤ a
      → byte (dev.write offset b d).1 a ≡ byte d a
  pub flush_ok : (d : D) → (dev.flush d).0 ≡ true
  pub flush_law : (d : D) (a : ℕ) → byte (dev.flush d).1 a ≡ byte d a

pub length-bytes_at : (n a : ℕ) (f : ℕ → ℕ) → length (bytes_at n a f) ≡ n
unfolding bytes_at
length-bytes_at zero a f = refl
length-bytes_at (suc n) a f = ap suc (length-bytes_at n (suc a) f)

pub bytes_at-agree :
    (n a : ℕ) (f g : ℕ → ℕ)
    → ((i : ℕ) → a ≤ i → i < a + n → f i ≡ g i)
    → bytes_at n a f ≡ bytes_at n a g
unfolding bytes_at
bytes_at-agree zero a f g h = refl
bytes_at-agree (suc n) a f g h =
    rw
      (
        h a (omega arith) (omega arith),
        bytes_at-agree n (suc a) f g (λ i l m. h i (omega (arith, l)) (omega (arith, m))),
      )
      refl

pub bytes_at-add :
    (m n a : ℕ) (f : ℕ → ℕ) → bytes_at (m + n) a f ≡ bytes_at m a f ++ bytes_at n (a + m) f
unfolding bytes_at
bytes_at-add zero n a f =
    let e : a + 0 ≡ a = omega arith in let z : 0 + n ≡ n = omega arith in rw (e, z) refl
bytes_at-add (suc m) n a f =
    let e : a + suc m ≡ suc a + m = omega arith in
    let n' : suc m + n ≡ suc (m + n) = omega arith in
    rw (e, n') (ap (λ (bs : Bytes). f a ∷ bs) (bytes_at-add m n (suc a) f))

-- The numbers of a superblock fit their words.
pub record IsSuperBlock (s : SuperBlock) : Type 0 where
  pub checkpoint_fits : s.checkpoint_offset < 2 ^ 64
  pub seqno_fits : s.checkpoint_seqno < 2 ^ 64
  pub write_fits : s.write_offset < 2 ^ 64

pub parse_superblock-superblock_bytes :
    (s : SuperBlock) → IsSuperBlock s → parse_superblock (superblock_bytes s) ≡ (magic, s)
unfolding parse_superblock superblock_bytes
parse_superblock-superblock_bytes s h =
    let z = zero_bytes 4064 in
    let w = put_u64 s.write_offset ++ z in
    let q = put_u64 s.checkpoint_seqno ++ w in
    let c = put_u64 s.checkpoint_offset ++ q in
    rw
      (
        get_u64-put magic c (omega arith),
        get_u64-put s.checkpoint_offset q h.checkpoint_fits,
        get_u64-put s.checkpoint_seqno w h.seqno_fits,
        get_u64-put s.write_offset z h.write_fits,
      )
      refl

pub length-superblock_bytes : (s : SuperBlock) → length (superblock_bytes s) ≡ 4096
unfolding superblock_bytes
length-superblock_bytes s = omega (
  arith,
  length-append (put_u64 magic) _,
  length-put_bytes 8 magic,
  length-append (put_u64 s.checkpoint_offset) _,
  length-put_bytes 8 s.checkpoint_offset,
  length-append (put_u64 s.checkpoint_seqno) _,
  length-put_bytes 8 s.checkpoint_seqno,
  length-append (put_u64 s.write_offset) (zero_bytes 4064),
  length-put_bytes 8 s.write_offset,
  length-zero_bytes 4064,
)

module _ {D : Type 0} (dev : BlockDevice D) (byte : D → ℕ → ℕ) (size : ℕ) where
  chunk_then-bytes :
      (n a : ℕ) (f : ℕ → ℕ) (next : Bytes)
      → 0 < n
      → chunk_then (some (bytes_at n a f)) next ≡ bytes_at n a f ++ next
  unfolding bytes_at
  chunk_then-bytes zero a f next h = absurd (omega (arith, h))
  chunk_then-bytes (suc n) a f next h = refl

  -- A range that ends before the data does is read as its bytes, by fuel for each of them.
  pub read_range_lem :
      IsMemory dev byte size
      → (fuel data_size remaining pos : ℕ) (d : D) → remaining ≤ fuel
      → pos + remaining < data_size
      → block + data_size ≤ size
      → size < 2 ^ 64
      → read_range dev fuel data_size remaining pos d ≡ bytes_at remaining (block + pos) (byte d)
  unfolding read_range
  read_range_lem mem zero data_size remaining pos d few fits in_size small =
      let e : remaining ≡ 0 = omega (arith, few) in rw e (unfold bytes_at in refl)
  read_range_lem mem (suc fuel) data_size zero pos d few fits in_size small =
      unfold bytes_at in refl
  read_range_lem mem (suc fuel) data_size (suc r) pos d few fits in_size small =
      let w = min block (suc r) in
      let whole : add64 pos w ≡ pos + w = add64-eq pos w (omega (arith, fits, in_size, small)) in
      let to_read : (if ltb data_size (add64 pos w) then sub64 data_size pos else w) ≡ w =
        ground (arith, whole, fits) in
      let on : (if leb data_size (add64 pos w) then 0 else add64 pos w) ≡ pos + w =
        ground (arith, whole, fits) in
      let nz : (suc r == 0) ≡ false = ground arith in
      let at : add64 block pos ≡ block + pos =
        add64-eq block pos (omega (arith, fits, in_size, small)) in
      let here = mem.read_law (block + pos) w d (omega (arith, fits, in_size)) in
      let rest =
        read_range_lem mem fuel data_size (suc r - w) (pos + w) d (omega (arith, few))
          (omega (arith, fits)) in_size small in
      let all : w + (suc r - w) ≡ suc r = omega arith in
      let there : block + pos + w ≡ block + (pos + w) = omega arith in
      let split = bytes_at-add w (suc r - w) (block + pos) (byte d) in
      let split' = rw (all, there) at split in
      rw (to_read, on, nz, at, here, rest)
        (chunk_then-bytes w (block + pos) (byte d) _ (omega arith) ∙ sym split')
