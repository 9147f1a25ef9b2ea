-- ===== src/Bluefs/Fnode/Tests.antt =====
-- Runs of bluefs/bluefs_types.h and bluefs_types.cc on one file of two extents.
use cxxlab.Prelude.{
  ℕ, ◌+◌, ◌*◌, ◌≡◌, refl, [], ◌∷◌, none, some, arith, leb, if◌then◌else◌, add64, sub64, add32,
}
use cxxlab.Bluefs.Fnode.{
  BluefsExtent, BluefsFnode, append_extent, merges, continues, extend_back, copy_fnode, seek,
  last_start, make_delta, replay_delta,
}
use cxxlab.Bluefs.Fnode.Locate.{total, starts, locate, IsValid}
use cxxlab.Bluefs.Fnode.Append.{append_extent-IsValid}
use cxxlab.Bluefs.Fnode.Seek.{find_at, seek-find_at}
use cxxlab.Bluefs.Fnode.Delta.{replay_delta-make_delta, copy_fnode-allocated}

abbrev first_extent : BluefsExtent
first_extent = record { offset = 0; length = 4096; bdev = 1 }

-- It continues the first one.
abbrev second_extent : BluefsExtent
second_extent = record { offset = 4096; length = 4096; bdev = 1 }

abbrev other_extent : BluefsExtent
other_extent = record { offset = 65536; length = 8192; bdev = 2 }

abbrev committed : BluefsFnode
committed = record {
  ino = 7;
  size = 4096;
  mtime = 1;
  extents = first_extent ∷ [];
  extents_index = 0 ∷ [];
  allocated = 4096;
  allocated_committed = 4096;
}

abbrev file : BluefsFnode
file = append_extent other_extent (append_extent second_extent committed)

abbrev file_value : BluefsFnode
file_value = record {
  ino = 7;
  size = 4096;
  mtime = 1;
  extents = record { offset = 0; length = 8192; bdev = 1 } ∷ other_extent ∷ [];
  extents_index = 0 ∷ 8192 ∷ [];
  allocated = 16384;
  allocated_committed = 4096;
}

file_lem : file ≡ file_value
unfolding append_extent merges continues extend_back add64 add32
file_lem = refl

committed-IsValid : IsValid committed
unfolding starts total
committed-IsValid = record {
  indexed = refl;
  counted = refl;
  bounded = omega arith;
  fitting = ((omega arith, omega arith), tt);
}

file-IsValid : IsValid file_value
unfolding starts total
file-IsValid = record {
  indexed = refl;
  counted = refl;
  bounded = omega arith;
  fitting = ((omega arith, omega arith), ((omega arith, omega arith), tt));
}

sought : seek 9000 file_value ≡ some (1, 808)
unfolding seek last_start sub64
sought = refl

append_extent-IsValid_example :
    IsValid (append_extent second_extent committed)
    × ((append_extent second_extent committed).allocated ≡ 4096 + 4096)
    × ((p : ℕ)
        → locate (append_extent second_extent committed).extents p
          ≡ locate (first_extent ∷ second_extent ∷ []) p)
append_extent-IsValid_example =
    append_extent-IsValid second_extent committed committed-IsValid (omega arith, omega arith)
      (omega arith)

seek-find_at_example :
    seek 9000 file_value
    ≡ (if leb file_value.allocated 9000 then none else find_at 0 9000 file_value.extents)
seek-find_at_example = seek-find_at 9000 file_value file-IsValid

replay_delta-make_delta_example :
    (t : BluefsFnode) × (replay_delta (make_delta file_value) committed ≡ some t)
    × IsValid t
    × (t.allocated ≡ 16384)
    × ((p : ℕ) → locate t.extents p ≡ locate file_value.extents p)
unfolding locate
replay_delta-make_delta_example =
    replay_delta-make_delta file_value committed file-IsValid committed-IsValid (omega arith) refl
      (λ p h. ground (arith, h))

copy_fnode-allocated_example : (copy_fnode file_value).allocated ≡ 2 * 16384
copy_fnode-allocated_example = copy_fnode-allocated file_value file-IsValid (omega arith)
