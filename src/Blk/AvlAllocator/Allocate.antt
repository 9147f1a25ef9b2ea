-- ===== src/Blk/AvlAllocator/Allocate.antt =====
-- blk/avl_allocator.cc, _allocate_single and _allocate: what they take from the free ranges.
use native.Mathlib.Nat.{mod-lt}
use cxxlab.Prelude.{
  ℕ, ◌+◌, ◌*◌, ◌/◌, ◌%◌, ◌^◌, ◌≤◌, ◌<◌, ◌≡◌, refl, arith, zero, suc, Bool, true, false, ◌||◌, List,
  [], ◌∷◌, Option, none, some, ltb, leb, ◌==◌, add64, if-cases, inl, inr, leb→le, ltb→lt, ltb→le,
  ==→eq,
}
use cxxlab.Blk.AvlAllocator.{
  RangeSeg, AvlAllocator, range_size_alloc_threshold, range_size_alloc_free_pct,
}
use cxxlab.Blk.AvlAllocator.Pick.{p2align, pick_block_fits, pick_block_after}
use cxxlab.Blk.AvlAllocator.Operations.{
  Single, no_space, got, max_size, low_bit, with_cursor, took, took_or, allocate_fits, after_or,
  allocate_sized, allocate_single,
}
use cxxlab.Blk.AvlAllocator.Trees.{IsFrom, end_of, Contains, end_of-le}
use cxxlab.Blk.AvlAllocator.Change.{same-Indexes}
use cxxlab.Blk.AvlAllocator.Grow.{IsValid}
use cxxlab.Blk.AvlAllocator.Remove.{Shrinks, remove_from_tree-Shrinks}
use cxxlab.Blk.AvlAllocator.Searches.{IsOffset, pick_block_fits-IsOffset, pick_block_after-IsOffset}

pub Contains-le :
    (lo : ℕ) (key : RangeSeg) (l : List RangeSeg)
    → IsFrom lo l
    → Contains key l
    → key.end ≤ end_of lo l
unfolding IsFrom end_of
Contains-le lo key [] h c = absurd c
Contains-le lo key (x ∷ l) h (inl c) = omega (arith, c.1, end_of-le x.end l h.2)
Contains-le lo key (x ∷ l) h (inr c) = Contains-le x.end key l h.2 c

-- What is taken lies in one free range and is no longer than asked for, and no assertion fails.
abbrev pub Takes : ℕ → AvlAllocator → Option (Single × AvlAllocator) → Type 0
Takes size a none = ⊥
Takes size a (some (no_space, b)) = b ≡ a
Takes size a (some (got o n, b)) =
    (0 < n)
    × (n ≤ size)
    × Contains (record { start = o; end = o + n }) a.range_tree
    × Shrinks o (o + n) a (some b)

pub Takes-more :
    (size more : ℕ) (a : AvlAllocator) (r : Option (Single × AvlAllocator))
    → size ≤ more
    → Takes size a r
    → Takes more a r
Takes-more size more a none le h = h
Takes-more size more a (some (no_space, b)) le h = h
Takes-more size more a (some (got o n, b)) le h = (h.0, omega (arith, h.1, le), h.2, h.3)

module _ (a : AvlAllocator) (v : IsValid a) where
  -- With any cursors.
  took-Takes :
      (cursors : ℕ → ℕ) (o size : ℕ)
      → 0 < size
      → Contains (record { start = o; end = o + size }) a.range_tree
      → Takes size a (took o size (record a { lbas = cursors }))
  took-Takes cursors o size some_bytes free =
      let key : RangeSeg = record { start = o; end = o + size } in
      let w : IsValid (record a { lbas = cursors }) = record {
        ordered = v.ordered;
        in_device = v.in_device;
        small = v.small;
        indexed = same-Indexes _ _ _ refl refl refl v.indexed;
      } in
      let last = Contains-le 0 key a.range_tree v.ordered free in
      let s =
        remove_from_tree-Shrinks o size (record a { lbas = cursors }) w some_bytes
          (omega (arith, last, v.in_device, v.small)) free in
      rw s.is (
        some_bytes,
        omega arith,
        free,
        record {
          next = s.next;
          is = refl;
          valid = s.valid;
          covered = s.covered;
          taken = s.taken;
          device = s.device;
          block = s.block;
        },
      )

  module _ (align : ℕ) (unit : 0 < align) (fine : align < 2 ^ 62) where
    took_or-Takes :
        (size : ℕ) (some_bytes : 0 < size) (few : size < 2 ^ 62) (o : Option ℕ)
        (later : Option (Single × AvlAllocator))
        → IsOffset a v size align some_bytes few unit fine o
        → Takes size a later
        → Takes size a (took_or o size a later)
    took_or-Takes size some_bytes few none later h k = k
    took_or-Takes size some_bytes few (some o) later h k = took-Takes a.lbas o size some_bytes h

    after_or-Takes :
        (i size : ℕ) (some_bytes : 0 < size) (few : size < 2 ^ 62) (o : Option ℕ)
        (later : Option (Single × AvlAllocator))
        → IsOffset a v size align some_bytes few unit fine o
        → Takes size a later
        → Takes size a (after_or i o size a later)
    after_or-Takes i size some_bytes few none later h k = k
    after_or-Takes i size some_bytes few (some o) later h k =
        took-Takes (with_cursor i (add64 o size) a).lbas o size some_bytes h

    allocate_fits-Takes :
        (fuel size : ℕ)
        → size < fuel
        → 0 < size
        → size < 2 ^ 62
        → Takes size a (allocate_fits fuel size align a)
    unfolding allocate_fits
    allocate_fits-Takes zero size f some_bytes few = absurd (omega (arith, f))
    allocate_fits-Takes (suc fuel) size f some_bytes few =
        let half = p2align (size / 2) align in
        took_or-Takes size some_bytes few (pick_block_fits size align a) _
          (pick_block_fits-IsOffset a v size align some_bytes few unit fine)
          (if-cases (Takes size a) (leb align half)
            (λ e.
              let big = leb→le align half e in
              Takes-more half size a (allocate_fits fuel half align a) (omega arith) (
                allocate_fits-Takes fuel half (omega (arith, f, some_bytes))
                  (omega (arith, big, unit)) (omega (arith, few))))
            (λ e. refl))

    allocate_sized-Takes :
        (past_end : ℕ) (forced : Bool) (longest size : ℕ)
        → 0 < size
        → size < 2 ^ 62
        → Takes size a (allocate_sized past_end forced longest size align a)
    unfolding allocate_sized
    allocate_sized-Takes past_end forced longest size some_bytes few =
        let by_size = allocate_fits-Takes (size + 1) size (omega arith) some_bytes few in
        let i = low_bit 64 size in
        if-cases (Takes size a)
          (forced
            || (ltb longest range_size_alloc_threshold
                || ltb (a.num_free * 100 % 2 ^ 64 / a.device_size) range_size_alloc_free_pct))
          (λ e. by_size)
          (λ e.
            if-cases (Takes size a) (size == 0)
              (λ empty. absurd (omega (arith, some_bytes, ==→eq size 0 empty)))
              (λ e'.
                after_or-Takes i size some_bytes few
                  (pick_block_after past_end (a.lbas i) size align a) _
                  (pick_block_after-IsOffset a v size align some_bytes few unit fine past_end
                    (a.lbas i))
                  by_size))

    -- In a valid allocator, for a size and a unit that are positive and below 2^62: _allocate_single
    -- fails no assertion. It gives no space and changes nothing, or takes a part of one free range, at
    -- most of the size, and leaves a valid allocator with just the rest.
    pub allocate_single-Takes :
        (past_end size : ℕ)
        → 0 < size
        → size < 2 ^ 62
        → Takes size a (allocate_single past_end size align a)
    unfolding allocate_single
    allocate_single-Takes past_end size some_bytes few =
        let longest = max_size a.range_size_tree in
        let cut = p2align longest align in
        let m = mod-lt longest unit in
        if-cases (Takes size a) (ltb longest size)
          (λ less.
            if-cases (Takes size a) (ltb longest align) (λ e. refl)
              (λ e.
                let short = ltb→lt longest size less in
                let enough = ltb→le longest align e in
                let real : (cut == 0) ≡ false = ground (arith, enough, m) in
                rw real (
                  Takes-more cut size a (allocate_sized past_end true longest cut align a)
                    (omega (arith, short))
                    (allocate_sized-Takes past_end true longest cut (omega (arith, enough, m))
                      (omega (arith, short, few))))))
          (λ e. allocate_sized-Takes past_end false longest size some_bytes few)
