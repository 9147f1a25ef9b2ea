-- ===== src/Btier/ExtentMap/Placement/Avl.antt =====
-- blk/avl_allocator.cc as the allocator of btier/extent_map.cc, as btier/btier.cc sets it up: the calls of
-- blk/allocator.h, with the laws of `FreeSpace` for them.
use mathlib.Core.Path.{subst}
use mathlib.Core.List.{map}
use cxxlab.Prelude.{
  ℕ, ◌+◌, ◌-◌, ◌%◌, ◌^◌, ◌<◌, ◌≤◌, ◌≡◌, refl, arith, true, List, [], ◌∷◌, Option, none, some, All,
  ◌==◌, if◌then◌else◌,
}
use cxxlab.Common.IntervalSet
use cxxlab.Common.IntervalSet.{Interval, IntervalSet}
use cxxlab.Blk.AvlAllocator.{RangeSeg, AvlAllocator}
use cxxlab.Blk.AvlAllocator.Operations
use cxxlab.Blk.AvlAllocator.Operations.{Allocation, is_power_of_2}
use cxxlab.Blk.AvlAllocator.Trees.{covers}
use cxxlab.Blk.AvlAllocator.Grow.{IsValid}
use cxxlab.Blk.AvlAllocator.Loop.{Succeeds, AreApart}
use cxxlab.Blk.AvlAllocator.Release.{allocate-Succeeds, release-Releases}
use cxxlab.Btier.ExtentMap.Space.{AllocatorOps, PExtent, Reply}
use cxxlab.Btier.ExtentMap.Placement.{bit, within, extents_at, IsInside, FreeSpace}

abbrev pub extent_of : RangeSeg → PExtent
extent_of x = record { offset = x.start; length = x.end - x.start }

-- AvlAllocator::allocate as its caller sees it: no bytes are -ENOSPC. `a` stands for the allocator after a
-- failed assertion, which ends the program.
unfoldable pub reply_of : AvlAllocator → Option Allocation → Reply AvlAllocator
reply_of a none = record { got = none; extents = []; allocator = a }
reply_of a (some r) = record {
  got = if r.allocated == 0 then none else some r.allocated;
  extents = map extent_of r.extents;
  allocator = r.state;
}

abbrev pub unless_failed : AvlAllocator → Option AvlAllocator → AvlAllocator
unless_failed a none = a
unless_failed a (some b) = b

abbrev pub interval_entry : Interval → ℕ × ℕ
interval_entry i = (i.start, i.len)

-- The virtual functions of Allocator for AvlAllocator.
abbrev pub avl_ops : ℕ → AllocatorOps AvlAllocator
avl_ops past_end = record {
  allocate = λ want unit max_alloc_size hint a.
      reply_of a (Operations.allocate past_end want unit max_alloc_size a);
  release = λ set a. unless_failed a (Operations.release (map interval_entry set.m) a);
  init_add_free = λ offset length a. unless_failed a (Operations.init_add_free offset length a);
  get_capacity = λ a. a.device_size;
}

abbrev pub IsOk : ℕ → AvlAllocator → Type 0
IsOk size a = IsValid a × (a.device_size ≡ size) × (0 < a.block_size) × (a.block_size < 2 ^ 32)

abbrev pub Asks : (want unit : ℕ) → Type 0
Asks want unit =
    (0 < want) × (want < 2 ^ 62) × (is_power_of_2 unit ≡ true) × (want % unit ≡ 0) × (unit < 2 ^ 62)

-- Extents without a common byte have each byte at most once.
extents_at-map :
    (size : ℕ) (l : List RangeSeg) (n : ℕ)
    → AreApart l
    → All (λ x. (x.start < x.end) × (x.end ≤ size)) l
    → extents_at (map extent_of l) n ≡ bit (covers l n)
unfolding extents_at covers AreApart
extents_at-map size [] n h k = refl
extents_at-map size (x ∷ l) n h k = ground (arith, extents_at-map size l n h.1 k.1, h.0 n, k.0.0)

map-IsInside :
    (size : ℕ) (l : List RangeSeg)
    → All (λ x. (x.start < x.end) × (x.end ≤ size)) l
    → All (IsInside size) (map extent_of l)
map-IsInside size [] h = tt
map-IsInside size (x ∷ l) h =
    ((omega (arith, h.0.0), omega (arith, h.0.0, h.0.1)), map-IsInside size l h.1)

-- The interval set of one deferred free.
pub insert_one :
    (offset length : ℕ)
    → 0 < length
    → (IntervalSet.insert offset length IntervalSet.empty).m
      ≡ record { start = offset; len = length } ∷ []
unfolding IntervalSet.insert IntervalSet.absorb IntervalSet.upper IntervalSet.lower
    IntervalSet.place
insert_one offset length real = ground (arith, real)

abbrev pub Allocated : ℕ → AvlAllocator → Reply AvlAllocator → Type 0
Allocated size a r =
    IsOk size r.allocator
    × All (IsInside size) r.extents
    × ((n : ℕ)
        → extents_at r.extents n + bit (covers r.allocator.range_tree n)
          ≡ bit (covers a.range_tree n))

pub reply_of-Allocated :
    (size want : ℕ) (a : AvlAllocator) (o : Option Allocation)
    → IsOk size a
    → Succeeds 0 want a o
    → Allocated size a (reply_of a o)
unfolding reply_of
reply_of-Allocated size want a none ok h = absurd h
reply_of-Allocated size want a (some r) ok h = (
  (
    h.valid,
    omega (arith, h.device, ok.1),
    omega (arith, h.block, ok.2),
    omega (arith, h.block, ok.3),
  ),
  map-IsInside size r.extents
      (subst (λ (z : ℕ). All (λ x. (x.start < x.end) × (x.end ≤ z)) r.extents) ok.1 h.on_device),
  (λ n. ground (
    arith,
    h.covered n,
    h.owned n,
    extents_at-map a.device_size r.extents n h.apart h.on_device,
  )),
)

abbrev pub Released : ℕ → ℕ → ℕ → AvlAllocator → AvlAllocator → Type 0
Released size offset length a b =
    IsOk size b
    × ((n : ℕ)
        → bit (covers b.range_tree n) ≡ bit (within offset length n) + bit (covers a.range_tree n))

pub release-Released :
    (size offset length : ℕ) (a : AvlAllocator)
    → IsOk size a
    → 0 < length
    → offset + length ≤ size
    → ((n : ℕ) → bit (within offset length n) + bit (covers a.range_tree n) ≤ 1)
    → Released size offset length a (unless_failed a (Operations.release ((offset, length) ∷ []) a))
unfolding covers AreApart
release-Released size offset length a ok real fits clear =
    let x : RangeSeg = record { start = offset; end = offset + length } in
    let len : x.end - x.start ≡ length = omega arith in
    let g =
      release-Releases (x ∷ []) a ok.0 ((omega (arith, real), omega (arith, fits, ok.1)), tt)
        ((λ n. ground arith), tt) (λ n. ground (arith, clear n)) in
    let is : Operations.release ((offset, length) ∷ []) a ≡ some g.next =
      subst (λ (z : ℕ). Operations.release ((offset, z) ∷ []) a ≡ some g.next) len g.is in
    rw is (
      (
        g.valid,
        omega (arith, g.device, ok.1),
        omega (arith, g.block, ok.2),
        omega (arith, g.block, ok.3),
      ),
      (λ n. ground (arith, g.covered n, clear n)),
    )

abbrev pub avl_space : (past_end : ℕ) → FreeSpace (avl_ops past_end)
avl_space past_end = record {
  IsOk = IsOk;
  is_free = λ a n. covers a.range_tree n;
  Asks = Asks;
  allocate_law = λ size want unit a ok asks.
      reply_of-Allocated size want a (Operations.allocate past_end want unit want a) ok (
        allocate-Succeeds past_end want unit want a ok.0 asks.0 asks.1 asks.2 asks.3 asks.4 ok.2
          ok.3);
  release_law = λ size offset length a ok real fits clear.
      rw (insert_one offset length real) (release-Released size offset length a ok real fits clear);
}
