-- ===== src/Bluefs/VolumeSelector/Tests.antt =====
-- Runs of bluefs/bluefs_volume_selector.cc.
use cxxlab.Prelude.{◌+◌, ◌≡◌, refl, some, arith, add64}
use cxxlab.Bluefs.Fnode.{BluefsExtent}
use cxxlab.Bluefs.VolumeSelector.{
  Selector, add_extent_usage, select_prefer_bdev, slow_bdev, max_db_use,
}
use cxxlab.Bluefs.VolumeSelector.Balance.{row, add_extent_usage_lem}

-- Nothing is in use; the DB device has room for data of the SLOW level.
abbrev fresh : Selector
fresh = record {
  usage = λ b l. 0;
  max_usage = λ b l. 0;
  per_level_files = λ l. 0;
  totals = λ b. 1000;
  db_avail4slow = 500;
}

abbrev extent : BluefsExtent
extent = record { offset = 0; length = 100; bdev = 1 }

prefers_db : select_prefer_bdev (some 4) fresh ≡ some 1
unfolding select_prefer_bdev slow_bdev max_db_use add64
prefers_db = refl

add_extent_usage_lem_example :
    (t : Selector) × (add_extent_usage (some 3) extent fresh ≡ some t)
    × (t.usage 1 4 ≡ 0 + 100)
    × (row 1 t ≡ 0 + 100)
add_extent_usage_lem_example =
    add_extent_usage_lem 3 extent fresh (omega arith) (omega arith) (omega arith) refl (omega arith)
