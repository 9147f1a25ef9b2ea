-- ===== src/Btier/ExtentMap/Placement/Sized.antt =====
-- blk/avl_allocator.cc as the allocator of btier/extent_map.cc: the size of the extent that is taken of a reply.
use mathlib.Core.List.{map}
use mathlib.Core.Path.{subst}
use cxxlab.Prelude.{
  ℕ, ◌+◌, ◌-◌, ◌^◌, ◌<◌, ◌≤◌, ◌≡◌, arith, u64_mod, List, [], ◌∷◌, Option, none, some, ltb,
  Bool-cases, inl, inr,
}
use cxxlab.Blk.AvlAllocator.{RangeSeg, AvlAllocator}
use cxxlab.Blk.AvlAllocator.Operations
use cxxlab.Blk.AvlAllocator.Operations.{Allocation}
use cxxlab.Blk.AvlAllocator.Least.{IsFirst, StartsWith, allocate-StartsWith}
use cxxlab.Btier.Types.{Tier, header_size}
use cxxlab.Btier.ExtentMap.{ExtentMap, at}
use cxxlab.Btier.ExtentMap.Space.{PExtent, aligned, first_extent, allocate_extent}
use cxxlab.Btier.ExtentMap.Valid.Allocations.{
  IsExtentSize, GivesExtent, Outcome, allocate_extent-Outcome,
}
use cxxlab.Btier.ExtentMap.Placement.Avl.{avl_ops, reply_of, extent_of, IsOk, Asks}

first_extent-IsExtentSize :
    (got : Option ℕ) (want : ℕ) (l : List RangeSeg) (x : PExtent)
    → IsFirst header_size (2 ^ 32 - 1) l
    → first_extent got want (map extent_of l) ≡ some x
    → IsExtentSize x
first_extent-IsExtentSize none want l x h e = absurd (ground (arith, e))
first_extent-IsExtentSize (some got) want [] x h e = absurd (ground (arith, e))
first_extent-IsExtentSize (some got) want (y ∷ l) x h e = elim (Bool-cases (ltb got want)) [
  | inl less ↦ absurd (ground (arith, less, e))
  | inr enough ↦
      let is : extent_of y ≡ x = ground (arith, enough, e) in
      subst IsExtentSize is (h.0, omega (arith, h.1))
]

reply_of-IsExtentSize :
    (a : AvlAllocator) (o : Option Allocation) (want : ℕ) (x : PExtent)
    → StartsWith header_size (2 ^ 32 - 1) o
    → (let r = reply_of a o in first_extent r.got want r.extents ≡ some x)
    → IsExtentSize x
unfolding reply_of
reply_of-IsExtentSize a none want x h e = absurd (ground (arith, e))
reply_of-IsExtentSize a (some r) want x h e = first_extent-IsExtentSize _ want r.extents x h e

-- Valid AVL allocators with a block size of at most 2^31 give, for a request of a positive multiple below
-- 2^62 of the block size of the map, a power of two that is not below the size of a header, an extent with
-- room for the header and a length of 32 bits.
pub avl-GivesExtent :
    (past_end : ℕ) (sizes : Tier → ℕ) (size : ℕ) (s : ExtentMap AvlAllocator)
    → ((t : Tier) (a : AvlAllocator)
        → at s.allocators t ≡ some a
        → IsOk (sizes t) a × (a.block_size ≤ 2 ^ 31))
    → Asks (aligned s.block_size size) s.block_size
    → header_size ≤ s.block_size
    → GivesExtent (avl_ops past_end) size s
avl-GivesExtent past_end sizes size s ok asks room t a x h e =
    let (valid, cap) = ok t a h in
    let want = aligned s.block_size size in
    reply_of-IsExtentSize a (Operations.allocate past_end want s.block_size want a) want x
      (allocate-StartsWith past_end header_size want s.block_size a valid.0 asks.0 asks.1 asks.2
        asks.3 asks.4 room (omega arith) valid.2 cap)
      e

-- For valid AVL allocators with block sizes of at most 2^31, a request of a positive multiple below 2^62 of the
-- block size of the map, a power of two below 2^62 that is not below the size of a header, and a next number
-- that does not wrap: allocate_extent either leaves the extents and the next number as they were, or adds one
-- extent with room for its header and a length of 32 bits under the next number and leaves the others as
-- they were, on either tier.
pub allocate_extent-avl_ops-Outcome :
    (past_end : ℕ) (sizes : Tier → ℕ) (t : Tier) (size : ℕ) (s : ExtentMap AvlAllocator)
    → ((u : Tier) (a : AvlAllocator)
        → at s.allocators u ≡ some a
        → IsOk (sizes u) a × (a.block_size ≤ 2 ^ 31))
    → Asks (aligned s.block_size size) s.block_size
    → header_size ≤ s.block_size
    → s.next_extent_id + 1 < u64_mod
    → Outcome s (allocate_extent (avl_ops past_end) t size s)
allocate_extent-avl_ops-Outcome past_end sizes t size s ok asks room small =
    allocate_extent-Outcome (avl_ops past_end) t size s small
      (avl-GivesExtent past_end sizes size s ok asks room)
