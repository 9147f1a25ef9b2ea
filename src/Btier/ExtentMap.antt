-- ===== src/Btier/ExtentMap.antt =====
-- btier/extent_map.h and btier/extent_map.cc: the state of the extent map, and the helpers of
-- `ExtentMap::Impl`. The operations are in the children.
--
-- Each operation runs under the locks that its source takes, so it is one step here. A loop around
-- compare_exchange_weak is the step that its last round makes.
pub mod Find
pub mod Valid
pub mod Tests
pub mod Slots
pub mod Migration
pub mod Space
pub mod Placement
use cxxlab.Prelude.{
  ℕ, ◌+◌, Bool, List, [], ◌∷◌, ◌++◌, Option, none, some, lookup, put, nat_eq, add32, sub32, ltb,
  ◌==◌, if◌then◌else◌,
}
use cxxlab.Btier.Types.{Tier, fast, slow, DiskLocation, header_size}
use cxxlab.Btier.FreeList
use cxxlab.Btier.FreeList.{FreeEntry, free_entry}
use cxxlab.Btier.Metrics.{pack, access_count, write_count, randomness, state, generation}

-- std::array<…, 2>, indexed by the tier
pub record PerTier {ℓ} (A : Type ℓ) : Type ℓ where
  pub on_fast : A
  pub on_slow : A

module _ {ℓ} {A : Type ℓ} where
  abbrev pub at : PerTier A → Tier → A
  at p fast = p.on_fast
  at p slow = p.on_slow

  abbrev pub set_at : PerTier A → Tier → A → PerTier A
  set_at p fast a = record p { on_fast = a }
  set_at p slow a = record p { on_slow = a }

pub record ExtentEntry : Type 0 where
  pub last_access_time : ℕ
  pub raw : ℕ
  pub location : DiskLocation
  pub used_bytes : ℕ
  pub live_bytes : ℕ
  pub io_refs : ℕ

-- ExtentEntry(loc)
abbrev pub new_entry : DiskLocation → ExtentEntry
new_entry loc = record {
  last_access_time = 0;
  raw = 0;
  location = loc;
  used_bytes = 0;
  live_bytes = 0;
  io_refs = 0;
}

pub record DeferredFreeEntry : Type 0 where
  pub loc : DiskLocation
  pub added_at_seqno : ℕ

-- One write of an extent header to the device of a tier: the place, and the fields of `ExtentHeader`
-- that vary. Its magic is a constant and its checksum a function of the other fields.
pub record HeaderWrite : Type 0 where
  pub device : Tier
  pub offset : ℕ
  pub extent_id : ℕ
  pub length : ℕ
  pub used_bytes : ℕ
  pub live_bytes : ℕ
  pub generation : ℕ

-- `A` is the state of an allocator. `devices` says which tiers have a device, and `written` is what
-- was written to them, oldest first.
pub record ExtentMap (A : Type 0) : Type 0 where
  pub block_size : ℕ
  pub entries : List (ℕ × ExtentEntry)
  pub next_extent_id : ℕ
  pub allocators : PerTier (Option A)
  pub free_lists : PerTier (List FreeEntry)
  pub deferred_free : List DeferredFreeEntry
  pub seqno : ℕ
  pub dirty_headers : List ℕ
  pub devices : PerTier Bool
  pub written : List HeaderWrite

-- entry->location.length - ExtentHeader::HEADER_SIZE
abbrev pub capacity : ExtentEntry → ℕ
capacity e = sub32 e.location.length header_size

-- Impl::free_bytes_of
abbrev pub free_bytes_of : ExtentEntry → ℕ
free_bytes_of e = sub32 (capacity e) e.used_bytes

-- The word that Impl::bump_generation stores.
unfoldable pub bump_generation : ℕ → ℕ
bump_generation old =
    pack (access_count old) (write_count old) (randomness old) (state old) (generation old + 1)

-- std::set<uint64_t>::insert
unfoldable pub insert_id : ℕ → List ℕ → List ℕ
insert_id x [] = x ∷ []
insert_id x (y ∷ ys) =
    if ltb x y
    then x ∷ y ∷ ys
    else (let rest = insert_id x ys in if ltb y x then y ∷ rest else y ∷ ys)

module _ {A : Type 0} where
  -- Impl::lookup
  abbrev pub find : ExtentMap A → ℕ → Option ExtentEntry
  find s id = lookup id s.entries

  -- The entry is shared, so a change of it is a change of the map.
  unfoldable pub set_entry : ExtentMap A → ℕ → ExtentEntry → ExtentMap A
  set_entry s id e = record s { entries = put id e s.entries }

  unfoldable pub mark_dirty : ℕ → ExtentMap A → ExtentMap A
  mark_dirty id s = record s { dirty_headers = insert_id id s.dirty_headers }

  unfoldable pub add_deferred_free : DiskLocation → ExtentMap A → ExtentMap A
  add_deferred_free l s = record s {
    deferred_free = s.deferred_free ++ record { loc = l; added_at_seqno = s.seqno } ∷ [];
  }

  -- A header goes to the device of its tier, if there is one.
  unfoldable pub write_header : HeaderWrite → ExtentMap A → ExtentMap A
  write_header w s = if at s.devices w.device then record s { written = s.written ++ w ∷ [] } else s

  unfoldable pub update_free_list : ℕ → Tier → ℕ → ℕ → ExtentMap A → ExtentMap A
  update_free_list id tier old_free new_free s = record s {
    free_lists = set_at s.free_lists tier (
        FreeList.insert (free_entry new_free id)
          (FreeList.erase (free_entry old_free id) (at s.free_lists tier)));
  }
