-- ===== src/Bluestore/ExtentMap.antt =====
-- bluestore/extent_map.h and extent_map.cc: the logical extents of an object. A BlobRef is a number
-- that stands for the blob. std::set<Extent> is a list in the order of logical_offset; an iterator
-- is the suffix of the list that it points at, end() the empty one.
pub mod Holes
pub mod Seek
pub mod Parts
pub mod Punch
pub mod Loop
pub mod Tests
use cxxlab.Prelude.{
  ℕ, ◌+◌, ◌-◌, ◌*◌, ◌%◌, ◌^◌, zero, suc, min, max, Bool, true, false, ◌&&◌, List, [], ◌∷◌, ◌++◌,
  Option, none, some, ltb, leb, ◌==◌, if◌then◌else◌, add32, add64, length,
}

pub record Extent : Type 0 where
  pub logical_offset : ℕ
  pub blob_offset : ℕ
  pub length : ℕ
  pub blob : ℕ

abbrev pub logical_end : Extent → ℕ
logical_end e = add32 e.logical_offset e.length

-- A 64-bit value that is stored in 32 bits.
abbrev pub to_u32 : ℕ → ℕ
to_u32 n = n % 2 ^ 32

-- Extent's constructor, whose parameters have 32 bits.
abbrev pub new_extent : ℕ → ℕ → ℕ → ℕ → Extent
new_extent lo bo l b = record {
  logical_offset = to_u32 lo;
  blob_offset = to_u32 bo;
  length = to_u32 l;
  blob = b;
}

abbrev pub or_this : List Extent → List Extent → List Extent
or_this this [] = this
or_this this (e ∷ it) = e ∷ it

-- The result of seek_lextent from the extent before the key.
abbrev pub if_beyond : ℕ → List Extent → List Extent
if_beyond offset [] = []
if_beyond offset (e ∷ it) = if ltb offset (logical_end e) then e ∷ it else []

-- std::set::lower_bound, then --it: the suffix from the last extent that starts before the key.
unfoldable pub before_key : ℕ → List Extent → List Extent
before_key key [] = []
before_key key (e ∷ m) =
    let rest = before_key key m in if ltb e.logical_offset key then or_this (e ∷ m) rest else []

unfoldable pub seek_lextent : ℕ → List Extent → List Extent
seek_lextent offset m = if_beyond offset (before_key (to_u32 (add64 offset 1)) m)

-- std::set::insert: nothing changes where an extent starts at the same offset.
unfoldable pub insert : Extent → List Extent → List Extent
insert x [] = x ∷ []
insert x (e ∷ m) =
    let rest = insert x m in
    if ltb x.logical_offset e.logical_offset
    then x ∷ e ∷ m
    else if ltb e.logical_offset x.logical_offset
    then e ∷ rest
    else e ∷ m

unfoldable pub add : ℕ → ℕ → ℕ → ℕ → List Extent → List Extent
add lo bo l b m = insert (new_extent lo bo l b) m

-- extent_map_.erase(it): offsets are unique in the set.
unfoldable pub rm : Extent → List Extent → List Extent
rm x [] = []
rm x (e ∷ m) = let rest = rm x m in if e.logical_offset == x.logical_offset then m else e ∷ rest

abbrev pub or_begin : List Extent → List Extent → List Extent
or_begin [] m = m
or_begin (e ∷ it) m = e ∷ it

-- it = seek_lextent(offset), or begin() where that is end().
unfoldable pub restart : ℕ → List Extent → List Extent
restart offset m = or_begin (seek_lextent offset m) m

-- The part of an extent in the hole, for old_extents.
unfoldable pub punched : ℕ → ℕ → Extent → Extent
punched offset end e =
    let punch_lo = max e.logical_offset offset in
    let punch_end = min (logical_end e) end in
    new_extent punch_lo (e.blob_offset + (punch_lo - e.logical_offset)) (punch_end - punch_lo)
      e.blob

abbrev pub add_head : ℕ → Extent → List Extent → List Extent
add_head offset e m =
    add e.logical_offset e.blob_offset (to_u32 (offset - e.logical_offset)) e.blob m

abbrev pub add_tail_part : ℕ → Extent → List Extent → List Extent
add_tail_part end e m =
    add end (to_u32 (e.blob_offset + (end - e.logical_offset))) (to_u32 (logical_end e - end))
      e.blob m

-- The loop of punch_hole: the set, the iterator and old_extents; none where the fuel has run out.
unfoldable pub punch_loop :
    ℕ → ℕ → ℕ → List Extent → List Extent → List Extent → Option (List Extent × List Extent)
punch_loop fuel offset end m [] olds = some (m, olds)
punch_loop zero offset end m (e ∷ it) olds = none
punch_loop (suc fuel) offset end m (e ∷ it) olds =
    let olds' = olds ++ punched offset end e ∷ [] in
    let without = rm e m in
    let headed = add_head offset e without in
    let skip = punch_loop fuel offset end m it olds in
    let shorten = punch_loop fuel offset end headed (restart offset headed) olds' in
    let drop = punch_loop fuel offset end without (restart offset without) olds' in
    if leb end e.logical_offset
    then some (m, olds)
    else if leb (logical_end e) offset
    then skip
    else if ltb e.logical_offset offset && ltb end (logical_end e)
    then some (add_tail_part end e headed, olds')
    else if ltb e.logical_offset offset
    then shorten
    else if ltb end (logical_end e)
    then some (add_tail_part end e without, olds')
    else drop

-- Each restart is due to an extent that no longer reaches into the hole, and each round between
-- two restarts moves the iterator on.
abbrev pub rounds : ℕ → ℕ
rounds n = (n + 1) * (n + 2)

unfoldable pub punch_hole : ℕ → ℕ → List Extent → Option (List Extent × List Extent)
punch_hole offset len m =
    punch_loop (rounds (length m)) offset (add64 offset len) m (restart offset m) []

unfoldable pub has_any_lextents : ℕ → ℕ → List Extent → Bool
has_any_lextents offset len [] = false
has_any_lextents offset len (e ∷ m) =
    let rest = has_any_lextents offset len m in
    if leb (add64 offset len) e.logical_offset
    then false
    else if leb (logical_end e) offset
    then rest
    else true
