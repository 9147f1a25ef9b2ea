-- ===== src/Blk/AvlAllocator/Loop.antt =====
-- blk/avl_allocator.cc, _allocate: the extents that its rounds put together.
use mathlib.Core.Path.{subst}
use mathlib.Core.Option.{some-injective}
use cxxlab.Prelude.{
  ℕ, ◌+◌, ◌-◌, ◌^◌, ◌≤◌, ◌<◌, ◌≡◌, refl, sym, ap, ◌∙◌, arith, zero, suc, min, false, not, ◌&&◌,
  List, [], ◌∷◌, Option, none, some, All, ltb, if-cases, add64-eq, sub64-eq, ltb→lt, inl, inr,
}
use cxxlab.Blk.AvlAllocator.{RangeSeg, AvlAllocator, then_do}
use cxxlab.Blk.AvlAllocator.Operations.{
  Single, no_space, got, Allocation, next_round, allocate_loop,
}
use cxxlab.Blk.AvlAllocator.Trees.{inside, covers, total, Contains}
use cxxlab.Blk.AvlAllocator.Grow.{IsValid}
use cxxlab.Blk.AvlAllocator.Remove.{Shrinks}
use cxxlab.Blk.AvlAllocator.Allocate.{Takes, allocate_single-Takes, Contains-le}

-- No two of the extents have a byte in common.
unfoldable pub AreApart : List RangeSeg → Type 0
AreApart [] = Unit
AreApart (x ∷ l) = ((n : ℕ) → (inside x.start x.end n && covers l n) ≡ false) × AreApart l

-- A range that is in one of the ranges of a list has its bytes among theirs.
Contains-covers :
    (key : RangeSeg) (l : List RangeSeg) (n : ℕ)
    → Contains key l
    → (inside key.start key.end n && not (covers l n)) ≡ false
unfolding covers
Contains-covers key [] n c = absurd c
Contains-covers key (x ∷ l) n (inl c) = ground (arith, c.0, c.1)
Contains-covers key (x ∷ l) n (inr c) = ground (arith, Contains-covers key l n c)

-- What the loop has taken, with a number of bytes already there: extents apart from each other, from
-- the free bytes of an allocator that has just the others left.
pub record Allocates (allocated want : ℕ) (a : AvlAllocator) (r : Allocation) : Type 0 where
  pub valid : IsValid r.state
  pub summed : r.allocated ≡ allocated + total r.extents
  pub within : r.allocated ≤ want
  pub taken : r.state.num_free + total r.extents ≡ a.num_free
  pub covered :
      (n : ℕ) → covers r.state.range_tree n ≡ (covers a.range_tree n && not (covers r.extents n))
  pub owned : (n : ℕ) → (covers r.extents n && not (covers a.range_tree n)) ≡ false
  pub apart : AreApart r.extents
  pub on_device : All (λ x. (x.start < x.end) × (x.end ≤ a.device_size)) r.extents
  pub device : r.state.device_size ≡ a.device_size
  pub block : r.state.block_size ≡ a.block_size

abbrev pub Succeeds : ℕ → ℕ → AvlAllocator → Option Allocation → Type 0
Succeeds allocated want a none = ⊥
Succeeds allocated want a (some r) = Allocates allocated want a r

stopped-Allocates :
    (allocated want : ℕ) (a b : AvlAllocator)
    → IsValid a
    → allocated ≤ want
    → b ≡ a
    → Allocates allocated want a (record { allocated = allocated; extents = []; state = b })
unfolding covers total AreApart
stopped-Allocates allocated want a b v le same = record {
  valid = rw same v;
  summed = omega arith;
  within = le;
  taken = rw same (omega arith);
  covered = λ n. rw same (ground arith);
  owned = λ n. refl;
  apart = tt;
  on_device = tt;
  device = ap (λ (x : AvlAllocator). x.device_size) same;
  block = ap (λ (x : AvlAllocator). x.block_size) same;
}

extended :
    (allocated want o n : ℕ) (a b : AvlAllocator) (r : Allocation)
    → 0 < n
    → o + n ≤ a.device_size
    → Contains (record { start = o; end = o + n }) a.range_tree
    → Shrinks o (o + n) a (some b)
    → Allocates (allocated + n) want b r
    → Allocates allocated want a
        (record r { extents = record { start = o; end = o + n } ∷ r.extents })
unfolding covers total AreApart
extended allocated want o n a b r real last free s h =
    let key : RangeSeg = record { start = o; end = o + n } in
    let same = some-injective b s.next s.is in
    let left : (i : ℕ)
        → covers b.range_tree i ≡ (covers a.range_tree i && not (inside o (o + n) i)) =
      λ i. ap (λ (x : AvlAllocator). covers x.range_tree i) same ∙ s.covered i in
    let size = ap (λ (x : AvlAllocator). x.device_size) same ∙ s.device in
    let count : b.num_free + n ≡ a.num_free =
      omega (arith, s.taken, ap (λ (x : AvlAllocator). x.num_free) same) in
    record {
      valid = h.valid;
      summed = omega (arith, h.summed);
      within = h.within;
      taken = omega (arith, h.taken, count);
      covered = λ i. ground (arith, h.covered i, left i);
      owned = λ i. ground (arith, h.owned i, left i, Contains-covers key a.range_tree i free);
      apart = (λ i. ground (arith, h.owned i, left i), h.apart);
      on_device = ((omega (arith, real), last), (rw size at h.on_device));
      device = h.device ∙ size;
      block = h.block ∙ ap (λ (x : AvlAllocator). x.block_size) same ∙ s.block;
    }

finish :
    (allocated want o n : ℕ) (a b : AvlAllocator) (r : Option Allocation)
    → 0 < n
    → o + n ≤ a.device_size
    → Contains (record { start = o; end = o + n }) a.range_tree
    → Shrinks o (o + n) a (some b)
    → Succeeds (allocated + n) want b r
    → Succeeds allocated want a (
        then_do r
          (λ r'. some (record r' { extents = record { start = o; end = o + n } ∷ r'.extents })))
finish allocated want o n a b none real last free s h = h
finish allocated want o n a b (some r) real last free s h =
    extended allocated want o n a b r real last free s h

module _ (past_end want align most : ℕ) (few : want < 2 ^ 62) (unit : 0 < align)
    (fine : align < 2 ^ 62) (some_bytes : 0 < most) where
  next_round-Succeeds :
      (more : ℕ → AvlAllocator → Option Allocation) (allocated : ℕ) (a : AvlAllocator)
      (s : Option (Single × AvlAllocator))
      → IsValid a
      → allocated < want
      → ((got_now : ℕ) (b : AvlAllocator)
          → IsValid b
          → allocated < got_now
          → got_now ≤ want
          → Succeeds got_now want b (more got_now b))
      → Takes (min most (want - allocated)) a s
      → Succeeds allocated want a (next_round more allocated s)
  next_round-Succeeds more allocated a none v less go h = h
  next_round-Succeeds more allocated a (some (no_space, b)) v less go h =
      stopped-Allocates allocated want a b v (omega (arith, less)) h
  next_round-Succeeds more allocated a (some (got o n, b)) v less go h =
      let (real, le, free, s) = h in
      let valid = subst IsValid (sym (some-injective b s.next s.is)) s.valid in
      let last = Contains-le 0 (record { start = o; end = o + n }) a.range_tree v.ordered free in
      let small : o + n < 2 ^ 64 = omega (arith, last, v.in_device, v.small) in
      let now = add64-eq allocated n (omega (arith, le, less, few)) in
      let end = add64-eq o n small in
      let rest = go (allocated + n) b valid (omega (arith, real)) (omega (arith, le)) in
      rw (now, end)
        (finish allocated want o n a b (more (allocated + n) b) real
          (omega (arith, last, v.in_device)) free s rest)

  pub allocate_loop-Succeeds :
      (fuel allocated : ℕ) (a : AvlAllocator)
      → IsValid a
      → want ≤ allocated + fuel
      → allocated ≤ want
      → Succeeds allocated want a (allocate_loop fuel past_end want align most allocated a)
  unfolding allocate_loop
  allocate_loop-Succeeds zero allocated a v enough le =
      let end : ltb allocated want ≡ false = ground (arith, enough) in
      rw end (stopped-Allocates allocated want a a v le refl)
  allocate_loop-Succeeds (suc fuel) allocated a v enough le =
      let left = sub64-eq want allocated le (omega (arith, few)) in
      if-cases (Succeeds allocated want a) (ltb allocated want)
        (λ e.
          let less = ltb→lt allocated want e in
          rw left (
            next_round-Succeeds (allocate_loop fuel past_end want align most) allocated a _ v less
              (λ got_now b w more most_.
                allocate_loop-Succeeds fuel got_now b w (omega (arith, enough, more)) most_)
              (allocate_single-Takes a v align unit fine past_end (min most (want - allocated))
                (omega (arith, some_bytes, less)) (omega (arith, few)))))
        (λ e. stopped-Allocates allocated want a a v le refl)
