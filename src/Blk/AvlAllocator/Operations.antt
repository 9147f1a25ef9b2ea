-- ===== src/Blk/AvlAllocator/Operations.antt =====
-- blk/avl_allocator.cc: allocation, release and the set-up of the free ranges.
use cxxlab.Prelude.{
  ℕ, ◌+◌, ◌-◌, ◌*◌, ◌/◌, ◌%◌, ◌^◌, zero, suc, min, Bool, true, false, ◌||◌, ◌&&◌, List, [], ◌∷◌,
  Option, none, some, ltb, leb, ◌==◌, if◌then◌else◌, add64, sub64,
}
use cxxlab.Blk.AvlAllocator.{
  RangeSeg, AvlAllocator, length_of, then_do, add_to_tree, remove_from_tree,
  range_size_alloc_threshold, range_size_alloc_free_pct,
}
use cxxlab.Blk.AvlAllocator.Pick.{p2align, pick_block_after, pick_block_fits}

-- What _allocate_single gives: -ENOSPC, or an offset and a length.
pub data Single : Type 0 where
  no_space : Single
  got : (offset length : ℕ) → Single

-- The length of the longest free range.
unfoldable pub max_size : List RangeSeg → ℕ
max_size [] = 0
max_size (x ∷ []) = length_of x
max_size (x ∷ y ∷ l) = max_size (y ∷ l)

-- cbits(size & -size) - 1: how often a number can be halved.
abbrev pub low_bit : ℕ → ℕ → ℕ
low_bit zero n = 0
low_bit (suc fuel) n = let rest = low_bit fuel (n / 2) in if n % 2 == 1 then 0 else suc rest

abbrev pub with_cursor : ℕ → ℕ → AvlAllocator → AvlAllocator
with_cursor i v a = record a { lbas = λ j. if j == i then v else a.lbas j }

-- _remove_from_tree of what a search found, and the result.
abbrev pub took : ℕ → ℕ → AvlAllocator → Option (Single × AvlAllocator)
took offset size a = then_do (remove_from_tree offset size a) (λ b. some (got offset size, b))

abbrev pub took_or :
    Option ℕ → ℕ → AvlAllocator → Option (Single × AvlAllocator) → Option (Single × AvlAllocator)
took_or none size a later = later
took_or (some offset) size a later = took offset size a

-- The loop that halves the size, by fuel for each unit of the size and one more; none also where the
-- fuel has run out.
unfoldable pub allocate_fits : ℕ → ℕ → ℕ → AvlAllocator → Option (Single × AvlAllocator)
allocate_fits zero size unit a = none
allocate_fits (suc fuel) size unit a =
    let half = p2align (size / 2) unit in
    let later = allocate_fits fuel half unit a in
    took_or (pick_block_fits size unit a) size a
      (if leb unit half then later else some (no_space, a))

-- A hit of _pick_block_after moves the cursor.
abbrev pub after_or :
    ℕ
    → Option ℕ
    → ℕ
    → AvlAllocator
    → Option (Single × AvlAllocator)
    → Option (Single × AvlAllocator)
after_or i none size a later = later
after_or i (some offset) size a later = took offset size (with_cursor i (add64 offset size) a)

-- _allocate_single with the size that it settles on.
unfoldable pub allocate_sized : ℕ → Bool → ℕ → ℕ → ℕ → AvlAllocator → Option (Single × AvlAllocator)
allocate_sized past_end forced longest size unit a =
    let free_pct = a.num_free * 100 % 2 ^ 64 / a.device_size in
    let by_size = allocate_fits (size + 1) size unit a in
    let i = low_bit 64 size in
    let by_offset = after_or i (pick_block_after past_end (a.lbas i) size unit a) size a by_size in
    if forced || (ltb longest range_size_alloc_threshold || ltb free_pct range_size_alloc_free_pct)
    then by_size
    else if size == 0
    then none
    else by_offset

-- _allocate_single
unfoldable pub allocate_single : ℕ → ℕ → ℕ → AvlAllocator → Option (Single × AvlAllocator)
allocate_single past_end size unit a =
    let longest = max_size a.range_size_tree in
    let cut = p2align longest unit in
    let all_of_it = allocate_sized past_end true longest cut unit a in
    let as_asked = allocate_sized past_end false longest size unit a in
    if ltb longest size
    then if ltb longest unit then some (no_space, a) else if cut == 0 then none else all_of_it
    else as_asked

-- What _allocate gives: the bytes that were allocated, the extents with their offsets and lengths in
-- order, and the allocator.
pub record Allocation : Type 0 where
  pub allocated : ℕ
  pub extents : List RangeSeg
  pub state : AvlAllocator

abbrev pub next_round :
    (ℕ → AvlAllocator → Option Allocation) → ℕ → Option (Single × AvlAllocator) → Option Allocation
next_round more allocated none = none
next_round more allocated (some (no_space, a)) =
    some (record { allocated = allocated; extents = []; state = a })
next_round more allocated (some (got offset length, a)) =
    then_do (more (add64 allocated length) a) (λ r.
      some
        (record r { extents = record { start = offset; end = add64 offset length } ∷ r.extents }))

-- The loop of _allocate, by fuel for each byte; a round takes at least one. None also where the fuel
-- has run out. An extent is noted with
-- its end instead of its length.
unfoldable pub allocate_loop : ℕ → ℕ → ℕ → ℕ → ℕ → ℕ → AvlAllocator → Option Allocation
allocate_loop zero past_end want unit max_alloc_size allocated a =
    if ltb allocated want
    then none
    else some (record { allocated = allocated; extents = []; state = a })
allocate_loop (suc fuel) past_end want unit max_alloc_size allocated a =
    let single = allocate_single past_end (min max_alloc_size (sub64 want allocated)) unit a in
    let round =
      next_round (allocate_loop fuel past_end want unit max_alloc_size) allocated single in
    if ltb allocated want
    then round
    else some (record { allocated = allocated; extents = []; state = a })

-- isp2, by the number of halvings.
abbrev pub is_power_of_2 : ℕ → Bool
is_power_of_2 n = if n == 0 then false else n == 2 ^ low_bit 64 n

-- allocate; a result of no bytes is -ENOSPC.
unfoldable pub allocate : ℕ → ℕ → ℕ → ℕ → AvlAllocator → Option Allocation
allocate past_end want unit max_alloc_size a =
    let cap = 2 ^ 32 - 1 in
    let wanted = if max_alloc_size == 0 then want else max_alloc_size in
    let most = if leb cap wanted then p2align cap a.block_size else wanted in
    if is_power_of_2 unit && want % unit == 0
    then allocate_loop want past_end want unit most 0 a
    else none

-- _release: the entries of the set as their starts and lengths.
unfoldable pub release : List (ℕ × ℕ) → AvlAllocator → Option AvlAllocator
release [] a = some a
release ((offset, length) ∷ l) a =
    let next = then_do (add_to_tree offset length a) (λ b. release l b) in
    if leb (add64 offset length) a.device_size then next else none

unfoldable pub init_add_free : ℕ → ℕ → AvlAllocator → Option AvlAllocator
init_add_free offset length a =
    let go =
      if leb (add64 offset length) a.device_size then add_to_tree offset length a else none in
    if length == 0 then some a else go

unfoldable pub init_rm_free : ℕ → ℕ → AvlAllocator → Option AvlAllocator
init_rm_free offset length a =
    let go =
      if leb (add64 offset length) a.device_size then remove_from_tree offset length a else none in
    if length == 0 then some a else go

unfoldable pub shutdown : AvlAllocator → AvlAllocator
shutdown a = record a { range_tree = []; range_size_tree = []; num_free = 0 }
