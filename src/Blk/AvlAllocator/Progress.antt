-- ===== src/Blk/AvlAllocator/Progress.antt =====
-- blk/avl_allocator.cc, _allocate_single: a free range with room for one aligned unit is enough for a
-- result, as long as the search by length is not given up.
use native.Mathlib.Nat.{mod-lt, div-add-mod, mul-mod_right, mod-eq_of_lt, mod-eq-sub-mod}
use cxxlab.Prelude.{
  ℕ, ◌+◌, ◌-◌, ◌*◌, ◌/◌, ◌%◌, ◌^◌, ◌≤◌, ◌<◌, ◌≡◌, ◌⊎◌, inl, inr, refl, sym, ◌∙◌, arith, zero, suc,
  Bool, true, false, ◌||◌, List, [], ◌∷◌, Option, none, some, ltb, leb, ◌==◌, if-cases, Bool-cases,
  add64, add64-eq, sub64-eq, length, ltb→lt, ltb→le, leb→le, leb→lt,
}
use cxxlab.Blk.AvlAllocator.{
  RangeSeg, AvlAllocator, length_of, is_shorter, same_node, max_search_count, remove_from_tree,
  then_do, range_size_alloc_threshold, range_size_alloc_free_pct,
}
use cxxlab.Blk.AvlAllocator.Pick.{
  p2align, p2roundup, from_size, search_fits, pick_block_fits, pick_block_after,
}
use cxxlab.Blk.AvlAllocator.Operations.{
  Single, no_space, got, max_size, low_bit, with_cursor, took_or, allocate_fits, after_or,
  allocate_sized, allocate_single,
}
use cxxlab.Blk.AvlAllocator.Trees.{has_node}
use cxxlab.Blk.AvlAllocator.Lengths.{length_of-le, same_node-length_of}
use cxxlab.Blk.AvlAllocator.Grow.{IsValid}
use cxxlab.Blk.AvlAllocator.Searches.{node_in, p2roundup_lem}
use cxxlab.Blk.AvlAllocator.Allocate.{Takes, allocate_single-Takes}

abbrev HasOffset : Option ℕ → Type 0
HasOffset none = ⊥
HasOffset (some o) = Unit

-- A result that is not -ENOSPC; a failed assertion is none.
abbrev IsGranted : Option (Single × AvlAllocator) → Type 0
IsGranted none = Unit
IsGranted (some (no_space, b)) = ⊥
IsGranted (some (got o n, b)) = Unit

removed-IsGranted :
    (o size : ℕ) (r : Option AvlAllocator) → IsGranted (then_do r (λ c. some (got o size, c)))
removed-IsGranted o size none = tt
removed-IsGranted o size (some c) = tt

took_or-IsGranted :
    (o : Option ℕ) (size : ℕ) (a : AvlAllocator) (later : Option (Single × AvlAllocator))
    → HasOffset o ⊎ IsGranted later
    → IsGranted (took_or o size a later)
took_or-IsGranted none size a later (inl h) = absurd h
took_or-IsGranted none size a later (inr h) = h
took_or-IsGranted (some o) size a later h = removed-IsGranted o size (remove_from_tree o size a)

after_or-IsGranted :
    (i : ℕ) (o : Option ℕ) (size : ℕ) (a : AvlAllocator) (later : Option (Single × AvlAllocator))
    → IsGranted later
    → IsGranted (after_or i o size a later)
after_or-IsGranted i none size a later h = h
after_or-IsGranted i (some o) size a later h =
    removed-IsGranted o size (remove_from_tree o size (with_cursor i (add64 o size) a))

p2align-mod : (x unit : ℕ) → p2align x unit % unit ≡ 0
p2align-mod x unit =
    let whole : x - x % unit ≡ unit * (x / unit) = omega (arith, div-add-mod x unit) in
    rw whole (mul-mod_right unit (x / unit))

pub p2align-le : (x unit : ℕ) → 0 < unit → unit ≤ x → unit ≤ p2align x unit
p2align-le x unit real h = elim (Bool-cases (leb unit (p2align x unit))) [
  | inl low ↦ leb→le unit (p2align x unit) low
  | inr short ↦
      let none_left : p2align x unit ≡ 0 =
        sym (mod-eq_of_lt (leb→lt unit (p2align x unit) short)) ∙ p2align-mod x unit in
      absurd (omega (arith, none_left, mod-lt x real, h))
]

-- A multiple of the unit that is less than two of them is one.
one_unit :
    (size unit : ℕ) → 0 < unit → size % unit ≡ 0 → unit ≤ size → size < unit + unit → size ≡ unit
one_unit size unit real whole low high =
    let rest = sym (mod-eq-sub-mod low) ∙ whole in
    let small : (size - unit) % unit ≡ size - unit = mod-eq_of_lt (omega (arith, low, high)) in
    omega (arith, sym small ∙ rest, low)

module _ (unit : ℕ) (real : 0 < unit) (fine : unit < 2 ^ 62) (x : RangeSeg) where
  length-from_size : (size : ℕ) (l : List RangeSeg) → length (from_size size l) ≤ length l
  unfolding from_size
  length-from_size size [] = omega arith
  length-from_size size (y ∷ l) =
      let less : length (from_size size l) ≤ length (y ∷ l) =
        omega (arith, length-from_size size l) in
      let same : length (y ∷ l) ≤ length (y ∷ l) = omega arith in
      if-cases (λ (m : List RangeSeg). length m ≤ length (y ∷ l))
        (is_shorter y (record { start = 0; end = size })) (λ e. less) (λ e. same)

  -- The node is not among those that are too short.
  has_node-from_size :
      (size : ℕ) (l : List RangeSeg)
      → size < 2 ^ 64
      → size ≤ length_of x
      → has_node x l ≡ true
      → has_node x (from_size size l) ≡ true
  unfolding from_size has_node
  has_node-from_size size [] small long h = h
  has_node-from_size size (y ∷ l) small long h =
      if-cases (λ (m : List RangeSeg). has_node x m ≡ true)
        (is_shorter y (record { start = 0; end = size }))
        (λ e.
          let key : length_of (record { start = 0; end = size }) ≡ size =
            omega (arith, sub64-eq size 0 (omega arith) small) in
          elim (Bool-cases (same_node x y)) [
            | inl same ↦ absurd (ground (arith, e, key, long, same_node-length_of x y same))
            | inr other ↦ has_node-from_size size l small long (ground (arith, other, h))
          ])
        (λ e. h)

  search_fits-HasOffset :
      (count : ℕ) (l : List RangeSeg)
      → count + length l ≤ max_search_count
      → leb (add64 (p2roundup x.start unit) unit) x.end ≡ true
      → has_node x l ≡ true
      → HasOffset (search_fits unit unit count l)
  unfolding search_fits has_node
  search_fits-HasOffset count [] few fit h = absurd (ground (arith, h))
  search_fits-HasOffset count (y ∷ l) few fit h =
      let on : ltb max_search_count (count + 1) ≡ false = ground (arith, few) in
      rw on (
        if-cases HasOffset (leb (add64 (p2roundup y.start unit) unit) y.end) (λ e. tt)
          (λ e. elim (Bool-cases (same_node x y)) [
            | inl same ↦
                let s : x.start ≡ y.start = ground (arith, same) in
                let t : x.end ≡ y.end = ground (arith, same) in
                absurd (ground (arith, e, (rw (s, t) at fit)))
            | inr other ↦
                search_fits-HasOffset (count + 1) l (omega (arith, few)) fit
                  (ground (arith, other, h))
          ]))

  module _ (a : AvlAllocator) (v : IsValid a) (few : length a.range_size_tree ≤ max_search_count)
      (node : has_node x a.range_tree ≡ true) (fit : p2roundup x.start unit + unit ≤ x.end) where
    in_index : has_node x a.range_size_tree ≡ true
    in_index = v.indexed.nodes x ∙ node

    long_enough : unit ≤ length_of x
    long_enough =
        let (long, last, holds) = node_in 0 x a.range_tree v.ordered node in
        let up =
          p2roundup_lem x.start unit real (omega (arith, long, last, v.in_device, v.small, fine)) in
        omega (
          arith,
          fit,
          up.0,
          sub64-eq x.end x.start (omega (arith, long)) (omega (arith, last, v.in_device, v.small)),
        )

    pick_unit : HasOffset (pick_block_fits unit unit a)
    unfolding pick_block_fits
    pick_unit =
        let (long, last, holds) = node_in 0 x a.range_tree v.ordered node in
        let sum =
          add64-eq (p2roundup x.start unit) unit (omega (arith, fit, last, v.in_device, v.small)) in
        let test : leb (add64 (p2roundup x.start unit) unit) x.end ≡ true =
          ground (arith, sum, fit) in
        search_fits-HasOffset 0 (from_size unit a.range_size_tree)
          (omega (arith, few, length-from_size unit a.range_size_tree)) test
          (has_node-from_size unit a.range_size_tree (omega (arith, fine)) long_enough in_index)

    allocate_fits-IsGranted :
        (fuel size : ℕ) → unit ≤ size → size % unit ≡ 0 → IsGranted (allocate_fits fuel size unit a)
    unfolding allocate_fits
    allocate_fits-IsGranted zero size low whole = tt
    allocate_fits-IsGranted (suc fuel) size low whole =
        let half = p2align (size / 2) unit in
        took_or-IsGranted (pick_block_fits size unit a) size a _
          (elim (Bool-cases (leb unit half)) [
            | inl more ↦ inr (
                rw more (
                  allocate_fits-IsGranted fuel half (leb→le unit half more)
                    (p2align-mod (size / 2) unit)))
            | inr last ↦
                let short = leb→lt unit half last in
                let m = mod-lt (size / 2) real in
                let none_left : half ≡ 0 = sym (mod-eq_of_lt short) ∙ p2align-mod (size / 2) unit in
                let one = one_unit size unit real whole low (omega (arith, none_left, m)) in
                inl (rw one pick_unit)
          ])

    allocate_sized-IsGranted :
        (past_end : ℕ) (forced : Bool) (longest size : ℕ)
        → unit ≤ size
        → size % unit ≡ 0
        → IsGranted (allocate_sized past_end forced longest size unit a)
    unfolding allocate_sized
    allocate_sized-IsGranted past_end forced longest size low whole =
        let by_size = allocate_fits-IsGranted (size + 1) size low whole in
        let i = low_bit 64 size in
        if-cases IsGranted
          (forced
            || (ltb longest range_size_alloc_threshold
                || ltb (a.num_free * 100 % 2 ^ 64 / a.device_size) range_size_alloc_free_pct))
          (λ e. by_size)
          (λ e.
            if-cases IsGranted (size == 0) (λ empty. tt)
              (λ e'.
                after_or-IsGranted i (pick_block_after past_end (a.lbas i) size unit a) size a _
                  by_size))

    single-IsGranted :
        (past_end size : ℕ)
        → unit ≤ size
        → size % unit ≡ 0
        → IsGranted (allocate_single past_end size unit a)
    unfolding allocate_single
    single-IsGranted past_end size low whole =
        let longest = max_size a.range_size_tree in
        let cut = p2align longest unit in
        let most = length_of-le x a.range_size_tree v.indexed.sorted in_index in
        if-cases IsGranted (ltb longest size)
          (λ less.
            if-cases IsGranted (ltb longest unit)
              (λ short. absurd (omega (arith, most, long_enough, ltb→lt longest unit short)))
              (λ e.
                if-cases IsGranted (cut == 0) (λ empty. tt)
                  (λ e'.
                    allocate_sized-IsGranted past_end true longest cut
                      (p2align-le longest unit real (ltb→le longest unit e))
                      (p2align-mod longest unit))))
          (λ e. allocate_sized-IsGranted past_end false longest size low whole)

-- A length and the allocator behind it, as _allocate_single returns them.
pub record Grants (size : ℕ) (a : AvlAllocator) (o : Option (Single × AvlAllocator)) : Type 0 where
  pub offset : ℕ
  pub length : ℕ
  pub next : AvlAllocator
  pub is : o ≡ some (got offset length, next)
  pub some_bytes : 0 < length
  pub within : length ≤ size

granted :
    (size : ℕ) (a : AvlAllocator) (o : Option (Single × AvlAllocator))
    → Takes size a o
    → IsGranted o
    → Grants size a o
granted size a none t g = absurd t
granted size a (some (no_space, b)) t g = absurd g
granted size a (some (got o n, b)) t g = record {
  offset = o;
  length = n;
  next = b;
  is = refl;
  some_bytes = t.0;
  within = t.1;
}

-- In a valid allocator of at most 100 free ranges, for a size that is a positive multiple of the unit,
-- both below 2^62: where one of the free ranges has room for a unit at its first aligned offset,
-- _allocate_single gives some bytes, at most of the size.
pub allocate_single-Grants :
    (past_end size unit : ℕ) (a : AvlAllocator) (x : RangeSeg)
    → IsValid a
    → length a.range_size_tree ≤ max_search_count
    → 0 < unit
    → unit ≤ size
    → size % unit ≡ 0
    → size < 2 ^ 62
    → has_node x a.range_tree ≡ true
    → p2roundup x.start unit + unit ≤ x.end
    → Grants size a (allocate_single past_end size unit a)
allocate_single-Grants past_end size unit a x v few real low whole small node fit =
    let fine : unit < 2 ^ 62 = omega (arith, low, small) in
    granted size a (allocate_single past_end size unit a)
      (allocate_single-Takes a v unit real fine past_end size (omega (arith, real, low)) small)
      (single-IsGranted unit real fine x a v few node fit past_end size low whole)
