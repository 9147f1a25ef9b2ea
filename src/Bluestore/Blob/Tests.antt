-- ===== src/Bluestore/Blob/Tests.antt =====
-- Runs of bluestore/blob.cc and bluestore_blob_t on a blob of two extents, with a part without space
-- between them.
use cxxlab.Prelude.{
  ℕ, ◌+◌, ◌≡◌, refl, [], ◌∷◌, none, false, ltb, if◌then◌else◌, arith, add32, add64,
}
use cxxlab.Bluestore.Blob.{
  BlobData, invalid_offset, split_data, map_range, is_allocated, all_in_range, release_extents,
  release_loop,
}
use cxxlab.Bluestore.Blob.Places.{locate, total_length, AreOnDevice, split_data_lem}

abbrev blob : BlobData
blob = record {
  extents =
      record { offset = 65536; length = 8192 }
      ∷ record { offset = invalid_offset; length = 4096 }
      ∷ record { offset = 131072; length = 4096 }
      ∷ [];
  logical_length = 16384;
  flags = 0;
  csum_type = 1;
  csum_chunk_order = 12;
  csum_data = [];
  unused = 0;
}

mapped : map_range 4096 9000 0 blob.extents ≡ (69632, 4096) ∷ (invalid_offset, 808) ∷ []
unfolding map_range add64
mapped = refl

not_allocated : is_allocated 4096 8192 blob ≡ false
unfolding is_allocated all_in_range add64
not_allocated = refl

-- The extents that stay after a release close ranks: the last one is then found at offset 12288 - 8192.
moved_up : release_extents false (record { offset = 0; length = 8192 } ∷ []) blob ≡ (
  false,
  record blob {
    extents =
        record { offset = invalid_offset; length = 4096 }
        ∷ record { offset = 131072; length = 4096 }
        ∷ [];
    logical_length = 8192;
  },
  record { offset = 65536; length = 8192 } ∷ [],
)
unfolding release_extents release_loop add32 add64
moved_up = refl

blob-AreOnDevice : AreOnDevice blob.extents
unfolding AreOnDevice
blob-AreOnDevice = ground arith

split_data_lem_example :
    let (l, r) = split_data 4096 blob blob in
    ((x : ℕ) → locate x l.extents ≡ (if ltb x 4096 then locate x blob.extents else none))
    × ((x : ℕ) → locate x r.extents ≡ locate (x + 4096) blob.extents)
    × (l.logical_length + r.logical_length ≡ blob.logical_length)
unfolding total_length
split_data_lem_example =
    split_data_lem 4096 blob blob (omega arith) blob-AreOnDevice (omega arith) (omega arith)
