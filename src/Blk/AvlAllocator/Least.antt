-- ===== src/Blk/AvlAllocator/Least.antt =====
-- blk/avl_allocator.cc, _allocate: how long the first extent is at least, and at most.
use native.Mathlib.Nat.{mod-lt, mod-eq_of_lt}
use cxxlab.Prelude.{
  ℕ, ◌+◌, ◌-◌, ◌*◌, ◌/◌, ◌%◌, ◌^◌, ◌≤◌, ◌<◌, ◌≡◌, arith, zero, suc, min, Bool, true, false, ◌||◌,
  ◌&&◌, List, [], ◌∷◌, Option, none, some, ltb, leb, ◌==◌, if-cases, inl, inr, add64, add64-eq,
  sub64, sub64-eq, leb→le, ltb→le, Bool-cases, leb→lt,
}
use cxxlab.Blk.AvlAllocator.{
  RangeSeg, AvlAllocator, remove_from_tree, then_do, range_size_alloc_threshold,
  range_size_alloc_free_pct,
}
use cxxlab.Blk.AvlAllocator.Pick.{p2align, pick_block_fits, pick_block_after}
use cxxlab.Blk.AvlAllocator.Operations.{
  Single, no_space, got, Allocation, max_size, low_bit, with_cursor, took_or, allocate_fits,
  after_or, allocate_sized, allocate_single, next_round, allocate_loop, allocate, is_power_of_2,
}
use cxxlab.Blk.AvlAllocator.Grow.{IsValid}
use cxxlab.Blk.AvlAllocator.Allocate.{Takes, Takes-more, allocate_single-Takes, Contains-le}
use cxxlab.Blk.AvlAllocator.Progress.{p2align-le}

-- A result that is not shorter than a number of bytes.
abbrev IsAtLeast : ℕ → Option (Single × AvlAllocator) → Type 0
IsAtLeast k none = Unit
IsAtLeast k (some (no_space, b)) = Unit
IsAtLeast k (some (got o n, b)) = k ≤ n

removed-IsAtLeast :
    (k o size : ℕ) (r : Option AvlAllocator)
    → k ≤ size
    → IsAtLeast k (then_do r (λ c. some (got o size, c)))
removed-IsAtLeast k o size none h = tt
removed-IsAtLeast k o size (some c) h = h

took_or-IsAtLeast :
    (k : ℕ) (o : Option ℕ) (size : ℕ) (a : AvlAllocator) (later : Option (Single × AvlAllocator))
    → k ≤ size
    → IsAtLeast k later
    → IsAtLeast k (took_or o size a later)
took_or-IsAtLeast k none size a later h l = l
took_or-IsAtLeast k (some o) size a later h l =
    removed-IsAtLeast k o size (remove_from_tree o size a) h

after_or-IsAtLeast :
    (k i : ℕ) (o : Option ℕ) (size : ℕ) (a : AvlAllocator) (later : Option (Single × AvlAllocator))
    → k ≤ size
    → IsAtLeast k later
    → IsAtLeast k (after_or i o size a later)
after_or-IsAtLeast k i none size a later h l = l
after_or-IsAtLeast k i (some o) size a later h l =
    removed-IsAtLeast k o size (remove_from_tree o size (with_cursor i (add64 o size) a)) h

module _ (k unit : ℕ) (real : 0 < unit) (le : k ≤ unit) where
  allocate_fits-IsAtLeast :
      (fuel size : ℕ) (a : AvlAllocator) → k ≤ size → IsAtLeast k (allocate_fits fuel size unit a)
  unfolding allocate_fits
  allocate_fits-IsAtLeast zero size a h = tt
  allocate_fits-IsAtLeast (suc fuel) size a h =
      let half = p2align (size / 2) unit in
      took_or-IsAtLeast k (pick_block_fits size unit a) size a _ h (
        if-cases (IsAtLeast k) (leb unit half)
          (λ e. allocate_fits-IsAtLeast fuel half a (omega (arith, le, leb→le unit half e)))
          (λ e. tt))

  allocate_sized-IsAtLeast :
      (past_end : ℕ) (forced : Bool) (longest size : ℕ) (a : AvlAllocator)
      → k ≤ size
      → IsAtLeast k (allocate_sized past_end forced longest size unit a)
  unfolding allocate_sized
  allocate_sized-IsAtLeast past_end forced longest size a h =
      let by_size = allocate_fits-IsAtLeast (size + 1) size a h in
      if-cases (IsAtLeast k)
        (forced
          || (ltb longest range_size_alloc_threshold
              || ltb (a.num_free * 100 % 2 ^ 64 / a.device_size) range_size_alloc_free_pct))
        (λ e. by_size)
        (λ e.
          if-cases (IsAtLeast k) (size == 0) (λ e'. tt)
            (λ e'.
              after_or-IsAtLeast k (low_bit 64 size)
                (pick_block_after past_end (a.lbas (low_bit 64 size)) size unit a) size a _ h
                by_size))

  allocate_single-IsAtLeast :
      (past_end size : ℕ) (a : AvlAllocator)
      → k ≤ size
      → IsAtLeast k (allocate_single past_end size unit a)
  unfolding allocate_single
  allocate_single-IsAtLeast past_end size a h =
      let longest = max_size a.range_size_tree in
      let cut = p2align longest unit in
      if-cases (IsAtLeast k) (ltb longest size)
        (λ less.
          if-cases (IsAtLeast k) (ltb longest unit) (λ e. tt)
            (λ e.
              if-cases (IsAtLeast k) (cut == 0) (λ e'. tt)
                (λ e'.
                  allocate_sized-IsAtLeast past_end true longest cut a
                    (omega (arith, le, p2align-le longest unit real (ltb→le longest unit e))))))
        (λ e. allocate_sized-IsAtLeast past_end false longest size a h)

-- The length of the first extent.
abbrev pub IsFirst : (k most : ℕ) → List RangeSeg → Type 0
IsFirst k most [] = Unit
IsFirst k most (x ∷ l) = (k ≤ x.end - x.start) × (x.end - x.start ≤ most)

abbrev pub StartsWith : (k most : ℕ) → Option Allocation → Type 0
StartsWith k most none = Unit
StartsWith k most (some r) = IsFirst k most r.extents

IsFirst-more :
    (k most more : ℕ) (l : List RangeSeg) → most ≤ more → IsFirst k most l → IsFirst k more l
IsFirst-more k most more [] le h = tt
IsFirst-more k most more (x ∷ l) le h = (h.0, omega (arith, le, h.1))

StartsWith-more :
    (k most more : ℕ) (o : Option Allocation)
    → most ≤ more
    → StartsWith k most o
    → StartsWith k more o
StartsWith-more k most more none le h = tt
StartsWith-more k most more (some r) le h = IsFirst-more k most more r.extents le h

then_do-StartsWith :
    (k most o n : ℕ) (r : Option Allocation)
    → k ≤ n
    → n ≤ most
    → o + n < 2 ^ 64
    → StartsWith k most (
        then_do r
          (λ r'. some (record r' { extents = record { start = o; end = add64 o n } ∷ r'.extents })))
then_do-StartsWith k most o n none low high small = tt
then_do-StartsWith k most o n (some r) low high small =
    let e = add64-eq o n small in (omega (arith, e, low), omega (arith, e, high))

next_round-StartsWith :
    (k most : ℕ) (more : ℕ → AvlAllocator → Option Allocation) (allocated : ℕ) (a : AvlAllocator)
    (s : Option (Single × AvlAllocator))
    → IsValid a
    → IsAtLeast k s
    → Takes most a s
    → StartsWith k most (next_round more allocated s)
next_round-StartsWith k most more allocated a none v low t = tt
next_round-StartsWith k most more allocated a (some (no_space, b)) v low t = tt
next_round-StartsWith k most more allocated a (some (got o n, b)) v low t =
    let last = Contains-le 0 (record { start = o; end = o + n }) a.range_tree v.ordered t.2 in
    then_do-StartsWith k most o n (more (add64 allocated n) b) low t.1
      (omega (arith, last, v.in_device, v.small))

-- A positive multiple of the unit is at least one unit.
multiple-le : (want unit : ℕ) → 0 < want → want % unit ≡ 0 → unit ≤ want
multiple-le want unit some_bytes whole = elim (Bool-cases (leb unit want)) [
  | inl enough ↦ leb→le unit want enough
  | inr short ↦ absurd (omega (arith, mod-eq_of_lt (leb→lt unit want short), whole, some_bytes))
]

module _ (past_end k want unit : ℕ) (a : AvlAllocator) (v : IsValid a) (some_bytes : 0 < want)
    (few : want < 2 ^ 62) (power : is_power_of_2 unit ≡ true) (whole : want % unit ≡ 0)
    (fine : unit < 2 ^ 62) where
  allocate_loop-StartsWith :
      (most fuel : ℕ)
      → 0 < unit
      → k ≤ unit
      → k ≤ most
      → 0 < most
      → StartsWith k most (allocate_loop fuel past_end want unit most 0 a)
  unfolding allocate_loop
  allocate_loop-StartsWith most zero real low at_most least =
      let go : ltb 0 want ≡ true = ground (arith, some_bytes) in rw go tt
  allocate_loop-StartsWith most (suc fuel) real low at_most least =
      let go : ltb 0 want ≡ true = ground (arith, some_bytes) in
      let left : sub64 want 0 ≡ want =
        omega (arith, sub64-eq want 0 (omega arith) (omega (arith, few))) in
      let size = min most want in
      let enough = multiple-le want unit some_bytes whole in
      let t =
        allocate_single-Takes a v unit real fine past_end size (omega (arith, least, some_bytes))
          (omega (arith, few)) in
      let h =
        allocate_single-IsAtLeast k unit real low past_end size a
          (omega (arith, at_most, low, enough)) in
      rw (go, left)
        (next_round-StartsWith k most (allocate_loop fuel past_end want unit most) 0 a
          (allocate_single past_end size unit a) v h (Takes-more size most a _ (omega arith) t))

  -- The first extent of an allocation has at least a number of bytes that fits the unit, and its length
  -- fits 32 bits.
  pub allocate-StartsWith :
      k ≤ unit
      → k ≤ 2 ^ 31
      → 0 < a.block_size
      → a.block_size ≤ 2 ^ 31
      → StartsWith k (2 ^ 32 - 1) (allocate past_end want unit want a)
  unfolding allocate
  allocate-StartsWith low small block cap =
      let checks : (is_power_of_2 unit && want % unit == 0) ≡ true = ground (arith, power, whole) in
      let real : 0 < unit = ground (arith, power) in
      let enough = multiple-le want unit some_bytes whole in
      let m = mod-lt (2 ^ 32 - 1) block in
      let asked : (want == 0) ≡ false = ground (arith, some_bytes) in
      rw (checks, asked)
        (elim (Bool-cases (leb (2 ^ 32 - 1) want)) [
          | inl big ↦
              let most = p2align (2 ^ 32 - 1) a.block_size in
              rw big (
                StartsWith-more k most (2 ^ 32 - 1) (allocate_loop want past_end want unit most 0 a)
                  (omega arith)
                  (allocate_loop-StartsWith most want real low (omega (arith, m, cap, small))
                    (omega (arith, m, cap))))
          | inr fits ↦ rw fits (
              StartsWith-more k want (2 ^ 32 - 1) (allocate_loop want past_end want unit want 0 a)
                (omega (arith, leb→lt (2 ^ 32 - 1) want fits))
                (allocate_loop-StartsWith want want real low (omega (arith, low, enough))
                  some_bytes))
        ])
