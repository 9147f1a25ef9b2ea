-- ===== src/Bluefs/VolumeSelector.antt =====
-- bluefs/bluefs_volume_selector.cc: the selector that counts the bytes of each level on each
-- device. A hint is none for a null pointer, else a level. Left out: the constructor's estimate
-- with floating-point numbers, and the paths.
pub mod Balance
pub mod Tests
use cxxlab.Prelude.{
  ℕ, ◌+◌, ◌-◌, Bool, true, false, ◌&&◌, ◌||◌, List, [], ◌∷◌, Option, none, some, ltb, leb, ◌==◌,
  if◌then◌else◌, add64, min, max,
}
use cxxlab.Bluefs.Fnode.{BluefsExtent, BluefsFnode}

-- BDEV_WAL is 0, BDEV_DB 1 and BDEV_SLOW 2.
abbrev pub max_bdev : ℕ
max_bdev = 3

abbrev pub rdb_level_first : ℕ
rdb_level_first = 1

-- The column of the totals of a device, LEVELS - 1.
abbrev pub device_total : ℕ
device_total = 4

pub record Selector : Type 0 where
  pub usage : ℕ → ℕ → ℕ
  pub max_usage : ℕ → ℕ → ℕ
  pub per_level_files : ℕ → ℕ
  pub totals : ℕ → ℕ
  pub db_avail4slow : ℕ

abbrev pub set_cell : ℕ → ℕ → ℕ → (ℕ → ℕ → ℕ) → ℕ → ℕ → ℕ
set_cell b l v u c k = if c == b && k == l then v else u c k

abbrev pub set_entry_at : ℕ → ℕ → (ℕ → ℕ) → ℕ → ℕ
set_entry_at l v f k = if k == l then v else f k

-- usage_[b][l].fetch_add(n) and update_max(b, l)
unfoldable pub add_cell : ℕ → ℕ → ℕ → Selector → Selector
add_cell b l n s =
    let v = add64 (s.usage b l) n in
    record s {
      usage = set_cell b l v s.usage;
      max_usage = set_cell b l (max (s.max_usage b l) v) s.max_usage;
    }

-- None where the assertion fails.
unfoldable pub sub_cell : ℕ → ℕ → ℕ → Selector → Option Selector
sub_cell b l n s =
    if leb n (s.usage b l)
    then some (record s { usage = set_cell b l (s.usage b l - n) s.usage })
    else none

abbrev pub add_extent_at : Option ℕ → BluefsExtent → Selector → Option Selector
add_extent_at none e s = some s
add_extent_at (some h) e s =
    if ltb e.bdev (max_bdev + 1)
    then some
        (add_cell e.bdev device_total e.length (add_cell e.bdev (h - rdb_level_first) e.length s))
    else none

unfoldable pub add_extent_usage : Option ℕ → BluefsExtent → Selector → Option Selector
add_extent_usage h e s = add_extent_at h e s

abbrev pub sub_device_total : BluefsExtent → Option Selector → Option Selector
sub_device_total e none = none
sub_device_total e (some s) = sub_cell e.bdev device_total e.length s

abbrev pub sub_extent_at : Option ℕ → BluefsExtent → Selector → Option Selector
sub_extent_at none e s = some s
sub_extent_at (some h) e s =
    if ltb e.bdev (max_bdev + 1)
    then sub_device_total e (sub_cell e.bdev (h - rdb_level_first) e.length s)
    else none

unfoldable pub sub_extent_usage : Option ℕ → BluefsExtent → Selector → Option Selector
sub_extent_usage h e s = sub_extent_at h e s

unfoldable pub add_file : ℕ → Bool → Selector → Selector
add_file l upd_files s =
    let one = set_entry_at l (add64 (s.per_level_files l) 1) s.per_level_files in
    if upd_files
    then record s { per_level_files = set_entry_at device_total (add64 (one device_total) 1) one }
    else s

abbrev pub add_size_at : Option ℕ → ℕ → Bool → Selector → Selector
add_size_at none fsize upd_files s = s
add_size_at (some h) fsize upd_files s =
    let l = h - rdb_level_first in add_file l upd_files (add_cell max_bdev l fsize s)

unfoldable pub add_size_usage : Option ℕ → ℕ → Bool → Selector → Selector
add_size_usage h fsize upd_files s = add_size_at h fsize upd_files s

unfoldable pub sub_file : ℕ → Bool → Selector → Option Selector
sub_file l upd_files s =
    let one = set_entry_at l (s.per_level_files l - 1) s.per_level_files in
    if upd_files
    then if ltb 0 (s.per_level_files l) && ltb 0 (one device_total)
      then some
          (record s { per_level_files = set_entry_at device_total (one device_total - 1) one })
      else none
    else some s

abbrev pub sub_file_after : ℕ → Bool → Option Selector → Option Selector
sub_file_after l upd_files none = none
sub_file_after l upd_files (some s) = sub_file l upd_files s

abbrev pub sub_size_at : Option ℕ → ℕ → Bool → Selector → Option Selector
sub_size_at none fsize upd_files s = some s
sub_size_at (some h) fsize upd_files s =
    let l = h - rdb_level_first in sub_file_after l upd_files (sub_cell max_bdev l fsize s)

unfoldable pub sub_size_usage : Option ℕ → ℕ → Bool → Selector → Option Selector
sub_size_usage h fsize upd_files s = sub_size_at h fsize upd_files s

-- The largest use of the DB device seen for data of the upper levels, and of spilled DB data.
unfoldable pub max_db_use : Selector → ℕ
max_db_use s =
    add64 (add64 (add64 (s.max_usage 1 0) (s.max_usage 1 1)) (s.max_usage 1 2)) (s.max_usage 2 2)

-- Where data of the SLOW level goes: to the DB device while it has room to spare.
unfoldable pub slow_bdev : Selector → ℕ
slow_bdev s =
    let used = max_db_use s in
    let avail = min s.db_avail4slow (if ltb used (s.totals 2) then s.totals 2 - used else 0) in
    if ltb 0 s.db_avail4slow && ltb (s.usage 1 3) avail then 1 else 2

abbrev pub bdev_of : Option ℕ → Selector → Option ℕ
bdev_of none s = none
bdev_of (some h) s = some (if h == 4 then slow_bdev s else if h == 1 || h == 2 then 0 else 1)

-- None where the assertion on the hint fails.
unfoldable pub select_prefer_bdev : Option ℕ → Selector → Option ℕ
select_prefer_bdev h s = bdev_of h s

-- The totals of the WAL, DB and SLOW devices stand behind that of the log.
unfoldable pub get_avail_by_bdev : ℕ → Selector → ℕ
get_avail_by_bdev b s =
    let total = s.totals (b + 1) in
    let used = s.usage b device_total in if ltb b 3 && ltb used total then total - used else 0

unfoldable pub get_level_usage : ℕ → ℕ → Selector → ℕ
get_level_usage level b s = s.usage b (level - rdb_level_first)
