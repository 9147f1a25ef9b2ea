-- ===== src/Bluestore/Lextents.antt =====
-- bluestore/extent_map.cc, set_lextent: a new extent of an object, over the extent map and the blobs.
-- The pointer to a blob is its number in a list of blobs. The extents that it replaces are handed out
-- with their references, which the caller puts.
pub mod Add
pub mod Tests
use cxxlab.Prelude.{ℕ, List, Option, none, some, lookup, put, nat_eq, Bool, true, false}
use cxxlab.Bluestore.ExtentMap.{Extent, punch_hole, add}
use cxxlab.Bluestore.Blob.{Blob, get_ref}

pub record Object : Type 0 where
  pub extent_map : List Extent
  pub blobs : List (ℕ × Blob)

-- b->get_ref; none for a number that stands for no blob.
abbrev pub ref_blob : ℕ → ℕ → ℕ → Option Blob → Option Blob
ref_blob bo l min_alloc_size none = none
ref_blob bo l min_alloc_size (some blob) = get_ref bo l min_alloc_size blob

abbrev pub added :
    ℕ
    → ℕ
    → ℕ
    → ℕ
    → List (ℕ × Blob)
    → Option (List Extent × List Extent)
    → Option (Object × List Extent)
added lo bo l b blobs none = none
added lo bo l b blobs (some (m, olds)) =
    some (record { extent_map = add lo bo l b m; blobs = blobs }, olds)

abbrev pub punched_for : ℕ → ℕ → ℕ → ℕ → Object → Option Blob → Option (Object × List Extent)
punched_for lo bo l b s none = none
punched_for lo bo l b s (some blob) =
    added lo bo l b (put b blob s.blobs) (punch_hole lo l s.extent_map)

-- set_lextent with a vector for the old extents; none for a failed assertion.
unfoldable pub set_lextent : ℕ → ℕ → ℕ → ℕ → ℕ → Object → Option (Object × List Extent)
set_lextent lo bo l b min_alloc_size s =
    punched_for lo bo l b s (ref_blob bo l min_alloc_size (lookup b s.blobs))
