-- ===== src/Bluestore/UseTracker/Tests.antt =====
-- Runs of the use tracker of bluestore/bluestore_types.cc on a blob of four units of 4096 bytes.
use cxxlab.Prelude.{◌+◌, ◌-◌, ◌≡◌, refl, [], ◌∷◌, some, none, arith, false, add32, add64, sub32}
use cxxlab.Bluestore.UseTracker.{
  UseTracker, PutResult, get, put, put_loop, put_unit, release_unit, set_bytes, bytes_at, split,
  can_split_at, get_referenced_bytes, init, allocate, zeros, add_tail, copy, all_zero, is_empty,
}
use cxxlab.Bluestore.UseTracker.Ranges.{total}
use cxxlab.Bluestore.UseTracker.Counts.{
  IsCountable, Restores, counted, referenced, get_lem, put-get,
}
use cxxlab.Bluestore.UseTracker.Split.{CanSplit, split-get}

abbrev blob : UseTracker
blob = record { au_size = 4096; total_bytes = 0; bytes_per_au = 0 ∷ 4096 ∷ 100 ∷ 0 ∷ [] }

-- A put of the units that are referenced releases them as one extent, unless the blob is empty then.
released :
    put 4096 4096 blob
    ≡ some (record {
      tracker = record blob { bytes_per_au = 0 ∷ 0 ∷ 100 ∷ 0 ∷ [] };
      empty = false;
      release = record { offset = 4096; length = 4096 } ∷ [];
    })
unfolding put put_loop put_unit release_unit set_bytes bytes_at add32 add64 is_empty all_zero
released = refl

-- add_tail does not round up as init does: a tail of half a unit gets no count.
tail_floors : (add_tail 18432 4096 blob).bytes_per_au ≡ blob.bytes_per_au
unfolding add_tail
tail_floors = refl

copied : copy blob ≡ some blob
unfolding copy init allocate zeros sub32 add32
copied = refl

-- A tracker of one unit cannot be copied.
copied_unit : copy (record blob { bytes_per_au = 100 ∷ [] }) ≡ none
unfolding copy init allocate zeros sub32 add32
copied_unit = refl

get_range : IsCountable 6000 5000 blob
unfolding referenced total
get_range = record {
  unit_pos = omega arith;
  inside = λ p. omega arith;
  end_small = omega arith;
  sum_small = omega arith;
}

get_lem_example :
    (get 6000 5000 blob ≡ some (counted 6000 5000 blob))
    × (get_referenced_bytes (counted 6000 5000 blob) ≡ get_referenced_bytes blob + 5000)
get_lem_example = get_lem 6000 5000 blob get_range

put-get_example :
    (t' : UseTracker) × (r : PutResult) × (get 6000 5000 blob ≡ some t')
    × (put 6000 5000 t' ≡ some r)
    × Restores blob r
put-get_example = put-get 6000 5000 blob get_range

split_place : CanSplit 4096 blob
unfolding can_split_at
split_place = record { at = refl; offset_pos = omega arith; units_small = omega arith }

split-get_example :
    (t' : UseTracker) × (r' : UseTracker) × (get 6000 5000 blob ≡ some t')
    × (get (6000 - 4096) 5000 (split 4096 blob).1 ≡ some r')
    × (split 4096 t' ≡ ((split 4096 blob).0, r'))
split-get_example = split-get 4096 6000 5000 blob split_place (omega arith) get_range
