-- ===== src/Blk/AvlAllocator/Release.antt =====
-- blk/avl_allocator.cc, allocate and release: what an allocation takes, and that a release gives it back.
use mathlib.Core.Path.{subst}
use mathlib.Core.List.{map}
use native.Mathlib.Nat.{mod-lt}
use cxxlab.Prelude.{
  ℕ, ◌+◌, ◌-◌, ◌%◌, ◌^◌, ◌≤◌, ◌<◌, ◌≡◌, refl, sym, ap, ◌∙◌, arith, true, false, ◌&&◌, ◌||◌, List,
  [], ◌∷◌, Option, none, some, All, leb, ◌==◌, if◌then◌else◌, add64-eq,
}
use cxxlab.Blk.AvlAllocator.{RangeSeg, AvlAllocator, new_allocator}
use cxxlab.Blk.AvlAllocator.Pick.{p2align}
use cxxlab.Blk.AvlAllocator.Operations.{allocate, is_power_of_2, release, Allocation}
use cxxlab.Blk.AvlAllocator.Trees.{inside, covers, total, IsFrom, end_of}
use cxxlab.Blk.AvlAllocator.Grow.{IsValid}
use cxxlab.Blk.AvlAllocator.Add.{add_to_tree-Grows}
use cxxlab.Blk.AvlAllocator.Lengths.{IsByLength}
use cxxlab.Blk.AvlAllocator.Loop.{Allocates, Succeeds, AreApart, allocate_loop-Succeeds}

-- An extent as it is released.
abbrev pub entry_of : RangeSeg → ℕ × ℕ
entry_of x = (x.start, x.end - x.start)

abbrev IsOn : ℕ → RangeSeg → Type 0
IsOn size x = (x.start < x.end) × (x.end ≤ size)

-- What a release leaves: the bytes that were free, and those of the extents.
pub record Releases (l : List RangeSeg) (a : AvlAllocator) (o : Option AvlAllocator) : Type 0 where
  pub next : AvlAllocator
  pub is : o ≡ some next
  pub valid : IsValid next
  pub covered : (n : ℕ) → covers next.range_tree n ≡ (covers a.range_tree n || covers l n)
  pub freed : next.num_free ≡ a.num_free + total l
  pub device : next.device_size ≡ a.device_size
  pub block : next.block_size ≡ a.block_size

pub release-Releases :
    (l : List RangeSeg) (a : AvlAllocator)
    → IsValid a
    → All (IsOn a.device_size) l
    → AreApart l
    → ((n : ℕ) → (covers l n && covers a.range_tree n) ≡ false)
    → Releases l a (release (map entry_of l) a)
unfolding release covers total AreApart
release-Releases [] a v on apart clear = record {
  next = a;
  is = refl;
  valid = v;
  covered = λ n. ground arith;
  freed = omega arith;
  device = refl;
  block = refl;
}
release-Releases (x ∷ l) a v on apart clear =
    let (long, fits) = on.0 in
    let size : x.start + (x.end - x.start) ≡ x.end = omega (arith, long) in
    let g =
      add_to_tree-Grows x.start (x.end - x.start) a v (omega (arith, long))
        (omega (arith, fits, long)) (λ n low high. ground (arith, low, high, size, clear n)) in
    let covered : (n : ℕ)
        → covers g.next.range_tree n ≡ (covers a.range_tree n || inside x.start x.end n) =
      λ n. g.covered n ∙ ap (λ (e : ℕ). covers a.range_tree n || inside x.start e n) size in
    let more =
      release-Releases l g.next g.valid (subst (λ (s : ℕ). All (IsOn s) l) (sym g.device) on.1)
        apart.1 (λ n. ground (arith, covered n, clear n, apart.0 n)) in
    let whole = add64-eq x.start (x.end - x.start) (omega (arith, fits, long, v.small)) in
    let fits_here : leb (x.start + (x.end - x.start)) a.device_size ≡ true =
      ground (arith, fits, size) in
    rw (whole, fits_here, g.is)
      (record {
        next = more.next;
        is = more.is;
        valid = more.valid;
        covered = λ n. ground (arith, more.covered n, covered n);
        freed = omega (arith, more.freed, g.freed, long);
        device = omega (arith, more.device, g.device);
        block = omega (arith, more.block, g.block);
      })

-- An allocator with the free bytes of another one.
pub record Restores (a : AvlAllocator) (o : Option AvlAllocator) : Type 0 where
  pub next : AvlAllocator
  pub is : o ≡ some next
  pub valid : IsValid next
  pub covered : (n : ℕ) → covers next.range_tree n ≡ covers a.range_tree n
  pub freed : next.num_free ≡ a.num_free

-- An allocation of a number of bytes, and its release.
abbrev pub GivesBack : ℕ → AvlAllocator → Option Allocation → Type 0
GivesBack want a none = ⊥
GivesBack want a (some r) =
    Allocates 0 want a r × Restores a (release (map entry_of r.extents) r.state)

module _ (past_end want unit max_alloc_size : ℕ) (a : AvlAllocator) (v : IsValid a)
    (some_bytes : 0 < want) (few : want < 2 ^ 62) (power : is_power_of_2 unit ≡ true)
    (whole : want % unit ≡ 0) (fine : unit < 2 ^ 62) (block : 0 < a.block_size)
    (cap : a.block_size < 2 ^ 32) where
  pub allocate-Succeeds : Succeeds 0 want a (allocate past_end want unit max_alloc_size a)
  unfolding allocate
  allocate-Succeeds =
      let checks : (is_power_of_2 unit && want % unit == 0) ≡ true = ground (arith, power, whole) in
      let real : 0 < unit = ground (arith, power) in
      let wanted = if max_alloc_size == 0 then want else max_alloc_size in
      let most = if leb (2 ^ 32 - 1) wanted then p2align (2 ^ 32 - 1) a.block_size else wanted in
      let m = mod-lt (2 ^ 32 - 1) block in
      let least : 0 < most = ground (arith, m, cap, some_bytes) in
      rw checks (
        allocate_loop-Succeeds past_end want unit most few real fine least want 0 a v (omega arith)
          (omega arith))

  released : (o : Option Allocation) → Succeeds 0 want a o → GivesBack want a o
  released none h = h
  released (some r) h =
      let back =
        release-Releases r.extents r.state h.valid
          (subst (λ (s : ℕ). All (IsOn s) r.extents) (sym h.device) h.on_device) h.apart
          (λ n. ground (arith, h.covered n)) in
      (
        h,
        record {
          next = back.next;
          is = back.is;
          valid = back.valid;
          covered = λ n. ground (arith, back.covered n, h.covered n, h.owned n);
          freed = back.freed ∙ h.taken;
        },
      )

  -- In a valid allocator with a block size that is positive and fits 32 bits, for a number of bytes that
  -- is positive, below 2^62 and a multiple of the unit, a power of two below 2^62: allocate fails no
  -- assertion. Its extents are not empty, lie in the device, have no byte in common, were free and are
  -- free no longer, while all other bytes stay as they were; they have as many bytes as it says and at
  -- most as many as were wanted, and the number of free bytes is less by that. A release of these extents
  -- fails no assertion and leaves the free bytes, and their number, as they were before.
  pub release-allocate : GivesBack want a (allocate past_end want unit max_alloc_size a)
  release-allocate = released (allocate past_end want unit max_alloc_size a) allocate-Succeeds

-- The allocator as it is constructed, without a cap on the number of ranges.
pub new_allocator-IsValid :
    (device_size block_size : ℕ)
    → device_size < 2 ^ 63
    → IsValid (new_allocator device_size block_size 0)
unfolding IsFrom end_of total
new_allocator-IsValid device_size block_size small = record {
  ordered = tt;
  in_device = omega arith;
  small = small;
  indexed = record {
    nodes = λ r. refl;
    free = refl;
    uncapped = refl;
    sorted = unfold IsByLength in tt;
  };
}
