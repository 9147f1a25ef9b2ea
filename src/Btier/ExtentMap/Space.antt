-- ===== src/Btier/ExtentMap/Space.antt =====
-- btier/extent_map.cc: allocation, removal, and the deferred frees. The allocator behind a tier is
-- the abstract class of blk/allocator.h, so its operations are a parameter.
pub mod Deferred
use cxxlab.Prelude.{
  ℕ, ◌+◌, ◌-◌, ◌%◌, Bool, true, false, List, [], ◌∷◌, ◌++◌, Option, none, some, add64, sub32, sub64,
  add32, leb, ltb, ◌==◌, not, ◌||◌, if◌then◌else◌, put, erase, nat_eq, lookup, u64_mod, u32_mod,
  ◌^◌,
}
use cxxlab.Common.IntervalSet
use cxxlab.Common.IntervalSet.{IntervalSet}
use cxxlab.Btier.Types.{Tier, fast, slow, DiskLocation, header_size}
use cxxlab.Btier.FreeList
use cxxlab.Btier.FreeList.{free_entry}
use cxxlab.Btier.Metrics.{generation}
use cxxlab.Btier.ExtentMap.{
  ExtentEntry, ExtentMap, DeferredFreeEntry, PerTier, new_entry, at, set_at, find, capacity,
  add_deferred_free, write_header,
}

-- pextent_t
pub record PExtent : Type 0 where
  pub offset : ℕ
  pub length : ℕ

-- What Allocator::allocate gives: the int64_t it returns (`none` is a negative one), the extents it
-- appends, and the allocator afterwards.
pub record Reply (A : Type 0) : Type 0 where
  pub got : Option ℕ
  pub extents : List PExtent
  pub allocator : A

pub record AllocatorOps (A : Type 0) : Type 0 where
  pub allocate : (want unit max_alloc_size hint : ℕ) → A → Reply A
  pub release : IntervalSet → A → A
  pub init_add_free : ℕ → ℕ → A → A
  pub get_capacity : A → ℕ

-- round_up_to of common/intarith.h on uint64_t, for a divisor that is not 0
unfoldable pub round_up_to : ℕ → ℕ → ℕ
round_up_to n d = let rem = n % d in if rem == 0 then n else add64 n (sub64 d rem)

unfoldable pub aligned : ℕ → ℕ → ℕ
aligned block size = let a = round_up_to size block in if a == 0 then block else a

-- `got < (int64_t)aligned_size || extents.empty()`, for an aligned size below 2^63
abbrev pub first_extent : Option ℕ → ℕ → List PExtent → Option PExtent
first_extent none want xs = none
first_extent (some got) want [] = none
first_extent (some got) want (x ∷ xs) = if ltb got want then none else some x

module _ {A : Type 0} where
  -- ExtentMap(cfg)
  abbrev pub new_map : ℕ → ExtentMap A
  new_map block_size = record {
    block_size = block_size;
    entries = [];
    next_extent_id = 1;
    allocators = record { on_fast = none; on_slow = none };
    free_lists = record { on_fast = []; on_slow = [] };
    deferred_free = [];
    seqno = 0;
    dirty_headers = [];
    devices = record { on_fast = false; on_slow = false };
    written = [];
  }

  unfoldable pub add_allocator : Tier → A → ExtentMap A → ExtentMap A
  add_allocator t a s = record s { allocators = set_at s.allocators t (some a) }

  unfoldable pub add_block_device : Tier → ExtentMap A → ExtentMap A
  add_block_device t s = record s { devices = set_at s.devices t true }

module _ {A : Type 0} (ops : AllocatorOps A) where
  unfoldable pub init_tier : Tier → ExtentMap A → ExtentMap A
  init_tier t s = elim (at s.allocators t) [
    | none ↦ s
    | some a ↦ record s {
      allocators = set_at s.allocators t (some (ops.init_add_free 0 (ops.get_capacity a) a));
    }
  ]

  unfoldable pub init_free_space : ExtentMap A → ExtentMap A
  unfolding init_tier
  init_free_space s = init_tier slow (init_tier fast s)

module _ {A : Type 0} where
  -- create_entry's part of allocate_extent: a new entry, its free-list item and its header.
  unfoldable pub add_extent : Tier → PExtent → ExtentMap A → (ℕ × DiskLocation) × ExtentMap A
  add_extent t x s =
      let id = s.next_extent_id in
      let loc : DiskLocation = record { offset = x.offset; length = x.length; tier = t } in
      (
        (id, loc),
        write_header
            (record {
              device = t;
              offset = x.offset;
              extent_id = id;
              length = x.length;
              used_bytes = 0;
              live_bytes = 0;
              generation = 0;
            })
            (record s {
              next_extent_id = add64 id 1;
              entries = put id (new_entry loc) s.entries;
              free_lists = set_at s.free_lists t (
                  FreeList.insert (free_entry (sub32 x.length header_size) id) (at s.free_lists t));
            }),
      )

  -- allocate_raw makes a location and no entry.
  unfoldable pub raw_location : Tier → PExtent → ExtentMap A → DiskLocation × ExtentMap A
  raw_location t x s = (record { offset = x.offset; length = x.length; tier = t }, s)

  unfoldable pub no_space : {R : Type 0} → ExtentMap A → Option R × ExtentMap A
  no_space s = (none, s)

module _ {A : Type 0} (ops : AllocatorOps A) where
  -- The body that allocate_extent and allocate_raw share. Without an allocator it fails at once;
  -- if the allocator gives too little, it goes on with `fallback`.
  unfoldable pub allocate_on :
      {R : Type 0}
      → (t : Tier) (make : PExtent → ExtentMap A → R × ExtentMap A)
      → (fallback : ExtentMap A → Option R × ExtentMap A) (size : ℕ) (s : ExtentMap A)
      → Option R × ExtentMap A
  allocate_on t make fallback size s = elim (at s.allocators t) [
    | none ↦ (none, s)
    | some a ↦
        let want = aligned s.block_size size in
        let r = ops.allocate want s.block_size want 0 a in
        let s' = record s { allocators = set_at s.allocators t (some r.allocator) } in
        elim (first_extent r.got want r.extents) [
          | none ↦ fallback s'
          | some x ↦ let (made, s'') = make x s' in (some made, s'')
        ]
  ]

  -- A request on the fast tier falls back to the slow one.
  unfoldable pub allocate_extent : Tier → ℕ → ExtentMap A → Option (ℕ × DiskLocation) × ExtentMap A
  allocate_extent slow size s = allocate_on slow (add_extent slow) no_space size s
  allocate_extent fast size s =
      allocate_on fast (add_extent fast) (allocate_on slow (add_extent slow) no_space size) size s

  unfoldable pub allocate_raw : Tier → ℕ → ExtentMap A → Option DiskLocation × ExtentMap A
  allocate_raw slow size s = allocate_on slow (raw_location slow) no_space size s
  allocate_raw fast size s =
      allocate_on fast (raw_location fast) (allocate_on slow (raw_location slow) no_space size) size
        s

  -- The release of one deferred free: the location as an interval set of its own.
  unfoldable pub release_loc : DiskLocation → ExtentMap A → ExtentMap A
  release_loc loc s = elim (at s.allocators loc.tier) [
    | none ↦ s
    | some a ↦
        let set = IntervalSet.insert loc.offset loc.length IntervalSet.empty in
        record s { allocators = set_at s.allocators loc.tier (some (ops.release set a)) }
  ]

  -- The loop of process_deferred_free: the frees that stay, and the state.
  unfoldable pub release_due :
      ℕ → List DeferredFreeEntry → ExtentMap A → List DeferredFreeEntry × ExtentMap A
  release_due now [] s = ([], s)
  release_due now (d ∷ ds) s =
      let due = leb 2 (sub64 now d.added_at_seqno) in
      let (kept, s') = release_due now ds (if due then release_loc d.loc s else s) in
      (if due then kept else d ∷ kept, s')

  unfoldable pub process_deferred_free : ExtentMap A → ExtentMap A
  process_deferred_free s =
      let (kept, s') = release_due s.seqno s.deferred_free (record s { seqno = add64 s.seqno 1 }) in
      record s' { deferred_free = kept }

module _ {A : Type 0} where
  unfoldable pub free : ℕ → ExtentMap A → ExtentMap A
  free id s = elim (find s id) [
    | none ↦ s
    | some e ↦
        let t = e.location.tier in
        let item = free_entry (sub32 (capacity e) e.used_bytes) id in
        add_deferred_free e.location (record s {
          entries = erase id s.entries;
          free_lists = set_at s.free_lists t (FreeList.erase item (at s.free_lists t));
        })
  ]

  unfoldable pub clear_deferred_free : ExtentMap A → ExtentMap A
  clear_deferred_free s = record s { deferred_free = [] }

  unfoldable pub create_entry_from_journal : ℕ → DiskLocation → ExtentMap A → ExtentMap A
  create_entry_from_journal id loc s = record s {
    entries = put id (new_entry loc) s.entries;
    next_extent_id = if leb s.next_extent_id id then add64 id 1 else s.next_extent_id;
    free_lists =
        set_at s.free_lists loc.tier (
          FreeList.insert (free_entry (sub32 loc.length header_size) id)
            (at s.free_lists loc.tier));
  }

  unfoldable pub flush_headers : List ℕ → ExtentMap A → ExtentMap A
  flush_headers [] s = s
  flush_headers (id ∷ ids) s = flush_headers ids (elim (find s id) [
    | none ↦ s
    | some e ↦
        write_header
          (record {
            device = e.location.tier;
            offset = e.location.offset;
            extent_id = id;
            length = e.location.length;
            used_bytes = e.used_bytes;
            live_bytes = e.live_bytes;
            generation = generation e.raw;
          })
          s
  ])

  unfoldable pub flush_dirty_headers : ExtentMap A → ExtentMap A
  flush_dirty_headers s = flush_headers s.dirty_headers (record s { dirty_headers = [] })
