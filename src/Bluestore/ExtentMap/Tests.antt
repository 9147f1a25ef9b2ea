-- ===== src/Bluestore/ExtentMap/Tests.antt =====
-- Runs of bluestore/extent_map.cc on two extents of one blob and one of another.
use cxxlab.Prelude.{
  ℕ, ◌+◌, ◌≡◌, refl, List, [], ◌∷◌, none, some, arith, leb, ltb, ◌&&◌, if◌then◌else◌, add32, add64,
  true,
}
use cxxlab.Bluestore.ExtentMap.{
  Extent, punch_hole, punch_loop, punched, restart, seek_lextent, before_key, insert, add, rm,
  has_any_lextents,
}
use cxxlab.Bluestore.ExtentMap.Holes.{IsOrdered, find_byte, around, inside}
use cxxlab.Bluestore.ExtentMap.Punch.{punch_hole-ends, punch_hole_lem}

abbrev extent : ℕ → ℕ → ℕ → ℕ → Extent
extent lo bo len b = record { logical_offset = lo; blob_offset = bo; length = len; blob = b }

abbrev object : List Extent
object = extent 0 0 4096 1 ∷ extent 4096 8192 4096 2 ∷ extent 16384 4096 8192 1 ∷ []

-- The hole cuts the first and the last extent and has the middle one in it.
holed :
    punch_hole 1024 16384 object
    ≡ some (
      extent 0 0 1024 1 ∷ extent 17408 5120 7168 1 ∷ [],
      extent 1024 1024 3072 1 ∷ extent 4096 8192 4096 2 ∷ extent 16384 4096 1024 1 ∷ [],
    )
unfolding punch_hole punch_loop punched restart seek_lextent before_key insert add rm add32 add64
holed = refl

some_there : has_any_lextents 8192 8193 object ≡ true
unfolding has_any_lextents add32 add64
some_there = refl

object-IsOrdered : IsOrdered 0 object
unfolding IsOrdered
object-IsOrdered = ground arith

punch_hole-ends_example :
    punch_hole 1024 16384 object
    ≡ some (around 1024 (1024 + 16384) object, inside 1024 (1024 + 16384) object)
punch_hole-ends_example =
    punch_hole-ends 1024 16384 object (omega arith) (omega arith) object-IsOrdered

punch_hole_lem_example :
    (t olds : List Extent) × (punch_hole 1024 16384 object ≡ some (t, olds))
    × IsOrdered 0 t
    × ((x : ℕ)
        → find_byte x t ≡ (if leb 1024 x && ltb x (1024 + 16384) then none else find_byte x object))
    × ((x : ℕ)
        → find_byte x olds
          ≡ (if leb 1024 x && ltb x (1024 + 16384) then find_byte x object else none))
punch_hole_lem_example =
    punch_hole_lem 1024 16384 object (omega arith) (omega arith) object-IsOrdered
