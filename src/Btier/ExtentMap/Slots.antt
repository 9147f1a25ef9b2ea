-- ===== src/Btier/ExtentMap/Slots.antt =====
-- btier/extent_map.cc: metrics, slots, and the queries on one extent.
pub mod Append
pub mod Counters
use cxxlab.Prelude.{
  ℕ, ◌+◌, ◌-◌, ◌^◌, Bool, not, true, false, List, [], ◌∷◌, Option, none, some, min, add32, sub32,
  ltb, leb, ◌==◌, if◌then◌else◌, u32_mod,
}
use Prim.Native.Nat.{bit_and}
use cxxlab.Btier.Types.{IoOp, read, write, Tier, DiskLocation, active}
use cxxlab.Btier.FreeList
use cxxlab.Btier.FreeList.{FreeEntry, free_entry}
use cxxlab.Btier.Metrics.{pack, access_count, write_count, randomness, state, generation}
use cxxlab.Btier.ExtentMap.{
  ExtentEntry, ExtentMap, at, capacity, bump_generation, find, set_entry, mark_dirty,
  update_free_list,
}

abbrev pub uint32_max : ℕ
uint32_max = 2 ^ 32 - 1

abbrev pub uint64_max : ℕ
uint64_max = 2 ^ 64 - 1

-- The write count that record_io stores.
abbrev pub io_writes : IoOp → ℕ → ℕ
io_writes read old = write_count old
io_writes write old = min (write_count old + 1) 4095

-- The word that record_io stores.
unfoldable pub io_word : IoOp → ℕ → ℕ
io_word op old =
    pack (min (access_count old + 1) 4095) (io_writes op old) (randomness old) (state old)
      (generation old)

-- The word that set_randomness stores.
unfoldable pub random_word : ℕ → ℕ → ℕ
random_word random old =
    pack (access_count old) (write_count old) (bit_and random 0x3f) (state old) (generation old)

-- The changes of append_slot, once its guards have passed.
unfoldable pub append_entry : ℕ → ExtentEntry → ExtentEntry
append_entry size e = record e {
  used_bytes = add32 e.used_bytes size;
  live_bytes = add32 e.live_bytes size;
  raw = bump_generation e.raw;
}

unfoldable pub dead_entry : ℕ → ExtentEntry → ExtentEntry
dead_entry length e = record e {
  live_bytes = if leb length e.live_bytes then e.live_bytes - length else 0;
  raw = bump_generation e.raw;
}

module _ {A : Type 0} where
  unfoldable pub get_location : ExtentMap A → ℕ → Option DiskLocation
  get_location s id = elim (find s id) [ none ↦ none | some e ↦ some e.location ]

  unfoldable pub get_raw_metrics : ExtentMap A → ℕ → ℕ
  get_raw_metrics s id = elim (find s id) [ none ↦ 0 | some e ↦ e.raw ]

  unfoldable pub get_live_bytes : ExtentMap A → ℕ → ℕ
  get_live_bytes s id = elim (find s id) [ none ↦ 0 | some e ↦ e.live_bytes ]

  unfoldable pub get_used_bytes : ExtentMap A → ℕ → ℕ
  get_used_bytes s id = elim (find s id) [ none ↦ 0 | some e ↦ e.used_bytes ]

  unfoldable pub record_io : ℕ → IoOp → ℕ → ExtentMap A → ExtentMap A
  record_io id op now s = elim (find s id) [
    | none ↦ s
    | some e ↦ set_entry s id (record e { last_access_time = now; raw = io_word op e.raw })
  ]

  unfoldable pub set_randomness : ℕ → ℕ → ExtentMap A → ExtentMap A
  set_randomness id random s = elim (find s id) [
    | none ↦ s
    | some e ↦ set_entry s id (record e { raw = random_word random e.raw })
  ]

  -- The loop of find_extent_with_space, from where `lower_bound` points.
  unfoldable pub first_active : ExtentMap A → List FreeEntry → ℕ
  first_active s [] = uint64_max
  first_active s (f ∷ fs) =
      let rest = first_active s fs in
      elim (find s f.extent_id) [
        | none ↦ rest
        | some e ↦ if state e.raw == active then f.extent_id else rest
      ]

  unfoldable pub find_extent_with_space : ExtentMap A → Tier → ℕ → ℕ
  find_extent_with_space s tier needed =
      first_active s (FreeList.lower_bound (free_entry needed 0) (at s.free_lists tier))

  unfoldable pub append_slot : ℕ → ℕ → ExtentMap A → ℕ × ExtentMap A
  append_slot id size s = elim (find s id) [
    | none ↦ (uint32_max, s)
    | some e ↦
        if not (state e.raw == active)
        then (uint32_max, s)
        else if ltb (capacity e) (add32 e.used_bytes size)
        then (uint32_max, s)
        else (
          e.used_bytes,
          update_free_list id e.location.tier (sub32 (capacity e) e.used_bytes)
              (sub32 (capacity e) (add32 e.used_bytes size))
              (mark_dirty id (set_entry s id (append_entry size e))),
        )
  ]

  unfoldable pub mark_dead_slot : ℕ → ℕ → ExtentMap A → ExtentMap A
  mark_dead_slot id length s = elim (find s id) [
    | none ↦ s
    | some e ↦
        update_free_list id e.location.tier (sub32 (capacity e) e.used_bytes)
          (sub32 (capacity e) e.used_bytes) (mark_dirty id (set_entry s id (dead_entry length e)))
  ]

  unfoldable pub restore_extent_state : ℕ → ℕ → ℕ → ExtentMap A → ExtentMap A
  restore_extent_state id used live s = elim (find s id) [
    | none ↦ s
    | some e ↦ mark_dirty id (
        update_free_list id e.location.tier (sub32 (capacity e) e.used_bytes)
          (sub32 (capacity e) used)
          (set_entry s id (record e { used_bytes = used; live_bytes = live })))
  ]

  unfoldable pub io_ref_inc : ℕ → ExtentMap A → ExtentMap A
  io_ref_inc id s = elim (find s id) [
    | none ↦ s
    | some e ↦ set_entry s id (record e { io_refs = add32 e.io_refs 1 })
  ]

  unfoldable pub io_ref_dec : ℕ → ExtentMap A → ExtentMap A
  io_ref_dec id s = elim (find s id) [
    | none ↦ s
    | some e ↦ set_entry s id (record e { io_refs = sub32 e.io_refs 1 })
  ]
