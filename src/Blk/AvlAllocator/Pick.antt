-- ===== src/Blk/AvlAllocator/Pick.antt =====
-- blk/avl_allocator.cc, _pick_block_after and _pick_block_fits: the searches for a free range; none
-- stands for the offset -1.
use cxxlab.Prelude.{
  ℕ, ◌+◌, ◌-◌, ◌%◌, ◌^◌, List, [], ◌∷◌, Option, none, some, ltb, leb, ◌==◌, if◌then◌else◌, add64,
  sub64,
}
use cxxlab.Blk.AvlAllocator.{RangeSeg, AvlAllocator, is_shorter, max_search_count, max_search_bytes}

-- p2align and p2roundup of common/intarith.h, for an alignment that is a power of two: the source takes
-- x & -align and -(-x & -align), which is the same for these alone. allocate asserts it of its unit; the
-- block size, to which p2align is also applied, is assumed to be one.
abbrev pub p2align : ℕ → ℕ → ℕ
p2align x a = x - x % a

abbrev pub p2roundup : ℕ → ℕ → ℕ
p2roundup x a = let y = x + (a - 1) in (y - y % a) % 2 ^ 64

-- The offset in a range, where the size fits behind it.
abbrev pub offset_in : ℕ → ℕ → RangeSeg → Option ℕ
offset_in size align x =
    let offset = p2roundup x.start align in
    if leb (add64 offset size) x.end then some offset else none

-- How a loop of _pick_block_after ends: by a return, or at its end with the two counts.
pub data Search : Type 0 where
  hit : (offset : ℕ) → Search
  given_up : Search
  passed : (search_count search_bytes : ℕ) → Search

abbrev pub hit_or : Option ℕ → Search → Search
hit_or none later = later
hit_or (some offset) later = hit offset

-- The two loops; a count ends the search before it can wrap.
unfoldable pub search_after : ℕ → ℕ → ℕ → ℕ → ℕ → List RangeSeg → Search
search_after size align first count bytes [] = passed count bytes
search_after size align first count bytes (x ∷ l) =
    let seen = sub64 x.start first in
    let later = search_after size align first (count + 1) seen l in
    hit_or (offset_in size align x) (
      if ltb max_search_count (count + 1)
      then given_up
      else if ltb max_search_bytes seen
      then given_up
      else later)

unfoldable pub search_before : ℕ → ℕ → ℕ → ℕ → ℕ → List RangeSeg → Search
search_before size align first count bytes [] = passed count bytes
search_before size align first count bytes (x ∷ l) =
    let later = search_before size align first (count + 1) bytes l in
    hit_or (offset_in size align x) (
      if ltb max_search_count (count + 1)
      then given_up
      else if ltb max_search_bytes (add64 bytes (sub64 first x.start))
      then given_up
      else later)

-- The range tree from lower_bound of the cursor on, and up to there.
unfoldable pub from_cursor : ℕ → List RangeSeg → List RangeSeg
from_cursor cursor [] = []
from_cursor cursor (x ∷ l) =
    let rest = from_cursor cursor l in if leb x.end cursor then rest else x ∷ l

unfoldable pub up_to_cursor : ℕ → List RangeSeg → List RangeSeg
up_to_cursor cursor [] = []
up_to_cursor cursor (x ∷ l) =
    let front = up_to_cursor cursor l in if leb x.end cursor then x ∷ front else []

-- rs_start->start; past_end is what the code reads where rs_start is the end of the tree.
abbrev pub first_start : ℕ → List RangeSeg → ℕ
first_start past_end [] = past_end
first_start past_end (x ∷ l) = x.start

abbrev pub offset_of : Search → Option ℕ
offset_of (hit offset) = some offset
offset_of given_up = none
offset_of (passed count bytes) = none

abbrev pub search_on : ℕ → ℕ → ℕ → ℕ → List RangeSeg → Search → Option ℕ
search_on size align first cursor front (hit offset) = some offset
search_on size align first cursor front given_up = none
search_on size align first cursor front (passed count bytes) =
    let again = offset_of (search_before size align first count bytes front) in
    if cursor == 0 then none else again

-- The cursor, which a hit moves behind the range, is set by the caller.
unfoldable pub pick_block_after : ℕ → ℕ → ℕ → ℕ → AvlAllocator → Option ℕ
pick_block_after past_end cursor size align a =
    let rest = from_cursor cursor a.range_tree in
    let first = first_start past_end rest in
    search_on size align first cursor (up_to_cursor cursor a.range_tree)
      (search_after size align first 0 0 rest)

-- The size tree from lower_bound of the size on.
unfoldable pub from_size : ℕ → List RangeSeg → List RangeSeg
from_size size [] = []
from_size size (x ∷ l) =
    let rest = from_size size l in
    if is_shorter x (record { start = 0; end = size }) then rest else x ∷ l

unfoldable pub search_fits : ℕ → ℕ → ℕ → List RangeSeg → Option ℕ
search_fits size align count [] = none
search_fits size align count (x ∷ l) =
    let later = search_fits size align (count + 1) l in
    if ltb max_search_count (count + 1)
    then none
    else if leb (add64 (p2roundup x.start align) size) x.end
    then some (p2roundup x.start align)
    else later

unfoldable pub pick_block_fits : ℕ → ℕ → AvlAllocator → Option ℕ
pick_block_fits size align a = search_fits size align 0 (from_size size a.range_size_tree)
