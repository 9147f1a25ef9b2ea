-- ===== src/Bluefs/VolumeSelector/Balance.antt =====
-- The totals of bluefs/bluefs_volume_selector.cc against its cells.
use cxxlab.Prelude.{
  ℕ, ◌+◌, ◌-◌, ◌^◌, ◌≤◌, ◌<◌, ◌≡◌, ◌&&◌, some, arith, ◌==◌, if◌then◌else◌, add64-eq, zero, suc,
}
use cxxlab.Bluefs.Fnode.{BluefsExtent}
use cxxlab.Bluefs.VolumeSelector.{Selector, add_cell, add_extent_usage}

-- The bytes of all levels on a device.
abbrev pub row : ℕ → Selector → ℕ
row b s = s.usage b 0 + s.usage b 1 + s.usage b 2 + s.usage b 3

-- A level's column is within the row.
cell_in_row : (b l : ℕ) (s : Selector) → l < 4 → s.usage b l ≤ row b s
cell_in_row b zero s h = omega arith
cell_in_row b (suc zero) s h = omega arith
cell_in_row b (suc (suc zero)) s h = omega arith
cell_in_row b (suc (suc (suc zero))) s h = omega arith
cell_in_row b (suc (suc (suc (suc l)))) s h = omega (arith, h)

add_cell_lem :
    (b l n c k : ℕ) (s : Selector)
    → s.usage b l + n < 2 ^ 64
    → (add_cell b l n s).usage c k ≡ (if c == b && k == l then s.usage b l + n else s.usage c k)
unfolding add_cell
add_cell_lem b l n c k s h = ground (arith, add64-eq (s.usage b l) n)

-- The state after an extent.
abbrev added : ℕ → ℕ → ℕ → Selector → Selector
added b l n s = add_cell b 4 n (add_cell b l n s)

added_lem :
    (b l n c k : ℕ) (s : Selector)
    → l < 4
    → s.usage b l + n < 2 ^ 64
    → s.usage b 4 + n < 2 ^ 64
    → (added b l n s).usage c k ≡ (
        if c == b && k == 4
        then s.usage b 4 + n
        else if c == b && k == l
        then s.usage b l + n
        else s.usage c k)
added_lem b l n c k s h p q =
    let one = add_cell_lem b l n b 4 s p in
    let two = add_cell_lem b l n c k s p in
    let start : (add_cell b l n s).usage b 4 ≡ s.usage b 4 = ground (arith, one, h) in
    ground (arith, start, two, add_cell_lem b 4 n c k (add_cell b l n s) (omega (arith, start, q)))

row-added :
    (b l n : ℕ) (s : Selector)
    → l < 4
    → s.usage b l + n < 2 ^ 64
    → s.usage b 4 + n < 2 ^ 64
    → row b (added b l n s) ≡ row b s + n
row-added b zero n s h p q = ground (
  arith,
  added_lem b 0 n b 0 s h p q,
  added_lem b 0 n b 1 s h p q,
  added_lem b 0 n b 2 s h p q,
  added_lem b 0 n b 3 s h p q,
)
row-added b (suc zero) n s h p q = ground (
  arith,
  added_lem b 1 n b 0 s h p q,
  added_lem b 1 n b 1 s h p q,
  added_lem b 1 n b 2 s h p q,
  added_lem b 1 n b 3 s h p q,
)
row-added b (suc (suc zero)) n s h p q = ground (
  arith,
  added_lem b 2 n b 0 s h p q,
  added_lem b 2 n b 1 s h p q,
  added_lem b 2 n b 2 s h p q,
  added_lem b 2 n b 3 s h p q,
)
row-added b (suc (suc (suc zero))) n s h p q = ground (
  arith,
  added_lem b 3 n b 0 s h p q,
  added_lem b 3 n b 1 s h p q,
  added_lem b 3 n b 2 s h p q,
  added_lem b 3 n b 3 s h p q,
)
row-added b (suc (suc (suc (suc l)))) n s h p q = omega (arith, h)

-- For a hint of one of the four levels, an extent of one of the three devices and a balanced device
-- total that does not wrap: adding the extent moves the total of its device and the sum over its
-- levels by the length of the extent.
pub add_extent_usage_lem :
    (h : ℕ) (e : BluefsExtent) (s : Selector)
    → 1 ≤ h
    → h ≤ 4
    → e.bdev < 3
    → row e.bdev s ≡ s.usage e.bdev 4
    → s.usage e.bdev 4 + e.length < 2 ^ 64
    → (t : Selector) × (add_extent_usage (some h) e s ≡ some t)
      × (t.usage e.bdev 4 ≡ s.usage e.bdev 4 + e.length)
      × (row e.bdev t ≡ s.usage e.bdev 4 + e.length)
unfolding add_extent_usage
add_extent_usage_lem h e s p q r w k =
    let l = h - 1 in
    let small : l < 4 = omega (arith, q) in
    let cell : s.usage e.bdev l + e.length < 2 ^ 64 =
      omega (arith, cell_in_row e.bdev l s small, w, k) in
    (
      added e.bdev l e.length s,
      ground (arith, r),
      ground (arith, added_lem e.bdev l e.length e.bdev 4 s small cell k),
      omega (arith, row-added e.bdev l e.length s small cell k, w),
    )
