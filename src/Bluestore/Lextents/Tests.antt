-- ===== src/Bluestore/Lextents/Tests.antt =====
-- A run of set_lextent of bluestore/extent_map.cc over two extents.
use cxxlab.Prelude.{
  ℕ, ◌+◌, ◌-◌, ◌≡◌, refl, arith, ◌&&◌, List, [], ◌∷◌, none, some, ltb, leb, if◌then◌else◌, lookup,
  put, nat_eq, add32, sub32,
}
use cxxlab.Bluestore.ExtentMap.{Extent}
use cxxlab.Bluestore.ExtentMap.Holes.{find_byte, IsOrdered}
use cxxlab.Bluestore.UseTracker
use cxxlab.Bluestore.UseTracker.{UseTracker}
use cxxlab.Bluestore.Blob.{Blob, BlobData, get_ref, has_flag}
use cxxlab.Bluestore.Lextents.{Object, set_lextent}
use cxxlab.Bluestore.Lextents.Add.{set_lextent_lem}

abbrev content : BlobData
content = record {
  extents = record { offset = 65536; length = 16384 } ∷ [];
  logical_length = 16384;
  flags = 0;
  csum_type = 1;
  csum_chunk_order = 12;
  csum_data = [];
  unused = 0;
}

abbrev used : List ℕ → Blob
used bytes = record {
  blob = content;
  used_in_blob = record { au_size = 4096; total_bytes = 0; bytes_per_au = bytes };
}

abbrev object : Object
object = record {
  extent_map =
      record { logical_offset = 0; blob_offset = 0; length = 4096; blob = 1 }
      ∷ record { logical_offset = 4096; blob_offset = 8192; length = 4096; blob = 1 }
      ∷ [];
  blobs = (1, used (4096 ∷ 0 ∷ 4096 ∷ 0 ∷ [])) ∷ [];
}

object-IsOrdered : IsOrdered 0 object.extent_map
unfolding IsOrdered
object-IsOrdered = ground arith

object_blob : lookup 1 object.blobs ≡ some (used (4096 ∷ 0 ∷ 4096 ∷ 0 ∷ []))
unfolding lookup
object_blob = refl

-- get_ref counts the bytes in their units.
blob_ref :
    get_ref 4096 4096 4096 (used (4096 ∷ 0 ∷ 4096 ∷ 0 ∷ []))
    ≡ some (used (4096 ∷ 4096 ∷ 4096 ∷ 0 ∷ []))
unfolding get_ref has_flag UseTracker.is_empty UseTracker.all_zero UseTracker.init UseTracker.get
    UseTracker.get_loop UseTracker.set_bytes UseTracker.bytes_at add32 sub32
blob_ref = refl

set_lextent_lem_example :
    (m : List Extent) × (olds : List Extent) × (set_lextent 2048 4096 4096 1 4096 object
      ≡ some (
        record { extent_map = m; blobs = put 1 (used (4096 ∷ 4096 ∷ 4096 ∷ 0 ∷ [])) object.blobs },
        olds,
      ))
    × IsOrdered 0 m
    × ((x : ℕ)
        → find_byte x m ≡ (
            if leb 2048 x && ltb x (2048 + 4096)
            then some (1, 4096 + (x - 2048))
            else find_byte x object.extent_map))
    × ((x : ℕ)
        → find_byte x olds
          ≡ (if leb 2048 x && ltb x (2048 + 4096) then find_byte x object.extent_map else none))
set_lextent_lem_example =
    set_lextent_lem 2048 4096 4096 1 4096 object (used (4096 ∷ 0 ∷ 4096 ∷ 0 ∷ []))
      (used (4096 ∷ 4096 ∷ 4096 ∷ 0 ∷ [])) (omega arith) (omega arith) (omega arith)
      object-IsOrdered object_blob blob_ref
