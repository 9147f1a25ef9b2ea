-- ===== src/Bluestore/Blob.antt =====
-- bluestore_blob_t of bluestore/bluestore_types.h and bluestore_types.cc, and Blob of bluestore/blob.h
-- and blob.cc: the extents of a blob on the device, and who refers to them. The checksum data is a list
-- of bytes, and the cached buffers of a blob are left out.
pub mod Places
pub mod Tests
use Prim.Native.Nat.{bit_and, bit_or}
use cxxlab.Prelude.{
  ℕ, ◌+◌, ◌-◌, ◌*◌, ◌/◌, ◌%◌, ◌^◌, zero, suc, min, max, Bool, true, false, not, ◌&&◌, ◌||◌, List,
  [], ◌∷◌, ◌++◌, Option, none, some, ltb, leb, ◌==◌, if◌then◌else◌, add32, add64, sub32, length,
}
use cxxlab.Btier.ExtentMap.Space.{PExtent}
use cxxlab.Bluestore.UseTracker.{
  UseTracker, PutResult, zeros, take_bytes, drop_bytes, is_empty, init,
}
use cxxlab.Bluestore.UseTracker

-- pextent_t::INVALID_OFFSET
abbrev pub invalid_offset : ℕ
invalid_offset = 2 ^ 64 - 1

abbrev pub is_valid : PExtent → Bool
is_valid e = not (e.offset == invalid_offset)

abbrev pub flag_csum : ℕ
flag_csum = 4

abbrev pub flag_has_unused : ℕ
flag_has_unused = 8

-- csum_value_size
abbrev pub csum_value_size : ℕ → ℕ
csum_value_size t =
    if t == 2 || t == 4
    then 4
    else if t == 5
    then 2
    else if t == 6
    then 1
    else if t == 3
    then 8
    else 0

-- bluestore_blob_t
pub record BlobData : Type 0 where
  pub extents : List PExtent
  pub logical_length : ℕ
  pub flags : ℕ
  pub csum_type : ℕ
  pub csum_chunk_order : ℕ
  pub csum_data : List ℕ
  pub unused : ℕ

unfoldable pub has_flag : ℕ → BlobData → Bool
has_flag f b = not (bit_and b.flags f == 0)

unfoldable pub set_flag : ℕ → BlobData → BlobData
set_flag f b = record b { flags = bit_or b.flags f }

abbrev pub has_csum : BlobData → Bool
has_csum b = has_flag flag_csum b

abbrev pub has_unused : BlobData → Bool
has_unused b = has_flag flag_has_unused b

abbrev pub get_csum_chunk_size : BlobData → ℕ
get_csum_chunk_size b = 2 ^ b.csum_chunk_order % 2 ^ 32

abbrev pub get_csum_value_size : BlobData → ℕ
get_csum_value_size b = csum_value_size b.csum_type

unfoldable pub get_ondisk_length : List PExtent → ℕ
get_ondisk_length [] = 0
get_ondisk_length (e ∷ es) = add32 e.length (get_ondisk_length es)

unfoldable pub init_csum : ℕ → ℕ → ℕ → BlobData → BlobData
init_csum type order len b =
    let b' = record (set_flag flag_csum b) { csum_type = type; csum_chunk_order = order } in
    record b' { csum_data = zeros (get_csum_value_size b' * len / get_csum_chunk_size b') }

-- The loop that is_allocated and is_unallocated share: a test of the extents in the range.
unfoldable pub all_in_range : (PExtent → Bool) → ℕ → ℕ → ℕ → List PExtent → Bool
all_in_range ok b_off b_end extent_off [] = true
all_in_range ok b_off b_end extent_off (e ∷ es) =
    let extent_end = add64 extent_off e.length in
    let rest = all_in_range ok b_off b_end extent_end es in
    if ltb b_off extent_end && ltb extent_off b_end && not (ok e)
    then false
    else if leb b_end extent_end
    then true
    else rest

unfoldable pub is_unallocated : ℕ → ℕ → BlobData → Bool
is_unallocated b_off b_len b =
    let b_end = add64 b_off b_len in
    if ltb b.logical_length b_end
    then false
    else all_in_range (λ e. not (is_valid e)) b_off b_end 0 b.extents

unfoldable pub is_allocated : ℕ → ℕ → BlobData → Bool
is_allocated b_off b_len b =
    let b_end = add64 b_off b_len in
    if ltb b.logical_length b_end then false else all_in_range is_valid b_off b_end 0 b.extents

-- map: the offsets and lengths that it calls f with, in order.
unfoldable pub map_range : ℕ → ℕ → ℕ → List PExtent → List (ℕ × ℕ)
map_range b_off b_end extent_off [] = []
map_range b_off b_end extent_off (e ∷ es) =
    let extent_end = add64 extent_off e.length in
    let s = max b_off extent_off in
    let e_end = min b_end extent_end in
    let rest = map_range b_off b_end extent_end es in
    let more = if leb b_end extent_end then [] else rest in
    if ltb b_off extent_end && ltb extent_off b_end
    then (add64 e.offset (s - extent_off), e_end - s) ∷ more
    else more

unfoldable pub add_tail : ℕ → BlobData → BlobData
add_tail new_len b =
    let tail : PExtent = record {
      offset = invalid_offset;
      length = sub32 new_len b.logical_length;
    } in
    let b' = record b { extents = b.extents ++ tail ∷ []; logical_length = new_len } in
    let size = get_csum_value_size b * new_len / get_csum_chunk_size b in
    if has_csum b
    then record b' { csum_data = b.csum_data ++ zeros (size - length b.csum_data) }
    else b'

-- The offset is not read.
unfoldable pub allocated : ℕ → ℕ → List PExtent → BlobData → BlobData
allocated b_off len allocs b = record b { extents = allocs; logical_length = len }

-- The right part of an extent that a split cuts.
abbrev pub cut_extent : ℕ → PExtent → PExtent
cut_extent split_len e =
    if is_valid e
    then record { offset = add64 e.offset split_len; length = e.length - split_len }
    else record { offset = invalid_offset; length = e.length - split_len }

-- The extents on the left of a split, and those on its right.
unfoldable pub split_extents : ℕ → ℕ → List PExtent → List PExtent × List PExtent
split_extents offset b [] = ([], [])
split_extents offset b (e ∷ es) =
    let (l, r) = split_extents (add32 offset e.length) b es in
    if leb (add32 offset e.length) b
    then (e ∷ l, r)
    else if ltb offset b
    then (record e { length = b - offset } ∷ [], cut_extent (b - offset) e ∷ es)
    else ([], e ∷ es)

-- The checksum data of the two parts; has_csum is that of the whole.
abbrev pub split_csum : BlobData → BlobData → BlobData → BlobData × BlobData
split_csum b l r =
    let size = get_csum_value_size b in
    let left_chunks = l.logical_length / get_csum_chunk_size b in
    let right_chunks = r.logical_length / get_csum_chunk_size b in
    if has_csum b
    then (
      record l { csum_data = take_bytes (size * left_chunks) b.csum_data },
      record (set_flag flag_csum r) {
        csum_type = b.csum_type;
        csum_chunk_order = b.csum_chunk_order;
        csum_data = take_bytes (size * right_chunks) (drop_bytes (size * left_chunks) b.csum_data);
      },
    )
    else (l, r)

-- bluestore_blob_t::split, into an other blob.
unfoldable pub split_data : ℕ → BlobData → BlobData → BlobData × BlobData
split_data blob_offset b rb =
    let (l, r) = split_extents 0 blob_offset b.extents in
    split_csum b (record b { extents = l; logical_length = blob_offset })
      (record rb {
        extents = r;
        logical_length = sub32 b.logical_length blob_offset;
        flags = b.flags;
      })

abbrev pub valid_extents : List PExtent → List PExtent
valid_extents [] = []
valid_extents (e ∷ es) = if is_valid e then e ∷ valid_extents es else valid_extents es

abbrev pub fully_released : ℕ → ℕ → List PExtent → Bool
fully_released off end [] = false
fully_released off end (l ∷ ls) =
    (leb l.offset off && leb end (add64 l.offset l.length)) || fully_released off end ls

pub record Released : Type 0 where
  pub kept : List PExtent
  pub kept_length : ℕ
  pub released : List PExtent

-- The loop of release_extents.
unfoldable pub release_loop : ℕ → List PExtent → List PExtent → Released
release_loop off logical [] = record { kept = []; kept_length = 0; released = [] }
release_loop off logical (e ∷ es) =
    let end = add32 off e.length in
    let rest = release_loop end logical es in
    if fully_released off end logical
    then record rest { released = if is_valid e then e ∷ rest.released else rest.released }
    else record rest { kept = e ∷ rest.kept; kept_length = add32 e.length rest.kept_length }

abbrev pub no_extent : List PExtent → Bool
no_extent [] = true
no_extent (e ∷ es) = false

-- Whether no extent is left, the blob, and the extents that are released.
unfoldable pub release_extents : Bool → List PExtent → BlobData → Bool × BlobData × List PExtent
release_extents all logical b =
    let r = release_loop 0 logical b.extents in
    if all
    then (true, record b { extents = []; logical_length = 0 }, valid_extents b.extents)
    else (
      no_extent r.kept,
      record b { extents = r.kept; logical_length = r.kept_length },
      r.released,
    )

pub record Blob : Type 0 where
  pub blob : BlobData
  pub used_in_blob : UseTracker

abbrev pub with_tracker : Blob → Option UseTracker → Option Blob
with_tracker b none = none
with_tracker b (some t) = some (record b { used_in_blob = t })

-- None where the assertion fails.
unfoldable pub get_ref : ℕ → ℕ → ℕ → Blob → Option Blob
get_ref offset len min_alloc_size b =
    let min_release_size =
      if has_csum b.blob then max min_alloc_size (get_csum_chunk_size b.blob) else min_alloc_size in
    let t =
      if is_empty b.used_in_blob
      then init b.blob.logical_length min_release_size
      else b.used_in_blob in
    if b.blob.logical_length == 0 then none else with_tracker b (UseTracker.get offset len t)

abbrev pub put_ref_result : Blob → Option PutResult → Option (Bool × Blob × List PExtent)
put_ref_result b none = none
put_ref_result b (some p) =
    let (last, data', r) = release_extents p.empty p.release b.blob in
    if not p.empty && no_extent p.release
    then some (false, record b { used_in_blob = p.tracker }, [])
    else some (last, record { blob = data'; used_in_blob = p.tracker }, r)

unfoldable pub put_ref : ℕ → ℕ → Blob → Option (Bool × Blob × List PExtent)
put_ref offset len b = put_ref_result b (UseTracker.put offset len b.used_in_blob)

unfoldable pub can_split : Blob → Bool
can_split b = UseTracker.can_split b.used_in_blob && not (has_unused b.blob)

abbrev pub and_chunk : ℕ → BlobData → Option Bool → Option Bool
and_chunk blob_offset b none = none
and_chunk blob_offset b (some at_unit) =
    some (at_unit && (not (has_csum b) || blob_offset % get_csum_chunk_size b == 0))

unfoldable pub can_split_at : ℕ → Blob → Option Bool
can_split_at blob_offset b =
    and_chunk blob_offset b.blob (UseTracker.can_split_at blob_offset b.used_in_blob)

-- Blob::split, into another blob that has no extents.
unfoldable pub split : ℕ → Blob → Blob → Blob × Blob
split blob_offset b rb =
    let (tl, tr) = UseTracker.split blob_offset b.used_in_blob in
    let (l, r) = split_data blob_offset b.blob rb.blob in
    (record { blob = l; used_in_blob = tl }, record { blob = r; used_in_blob = tr })
