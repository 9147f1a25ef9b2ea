-- ===== src/Btier/ExtentMap/Placement.antt =====
-- btier/extent_map.cc with its allocators: which bytes of the devices are held by extents, by deferred
-- frees and by targets of migrations, and which are free.
pub mod Sums
pub mod Taken
pub mod Allocated
pub mod Freed
pub mod Moved
pub mod Kept
pub mod Rounds
pub mod Reclaim
pub mod Opened
pub mod Sized
pub mod Steps
pub mod Avl
pub mod Tests
use cxxlab.Prelude.{
  ℕ, ◌+◌, ◌<◌, ◌≤◌, ◌≡◌, Bool, true, false, ◌&&◌, List, [], ◌∷◌, Option, none, some, All, leb, ltb,
}
use cxxlab.Common.IntervalSet
use cxxlab.Btier.Types.{Tier, fast, slow, DiskLocation}
use cxxlab.Btier.ExtentMap.{ExtentEntry, ExtentMap, DeferredFreeEntry, PerTier, at, find}
use cxxlab.Btier.ExtentMap.Space.{AllocatorOps, PExtent}

abbrev pub bit : Bool → ℕ
bit true = 1
bit false = 0

abbrev pub within : ℕ → ℕ → ℕ → Bool
within offset length n = leb offset n && ltb n (offset + length)

-- How many of the extents have a byte.
unfoldable pub extents_at : List PExtent → ℕ → ℕ
extents_at [] n = 0
extents_at (x ∷ xs) n = bit (within x.offset x.length n) + extents_at xs n

abbrev pub IsInside : ℕ → PExtent → Type 0
IsInside size x = (0 < x.length) × (x.offset + x.length ≤ size)

-- What the placement of extents relies on of an allocator: it has free bytes, hands out extents of
-- them that it no longer has, and takes back what it does not have.
pub record FreeSpace {A : Type 0} (ops : AllocatorOps A) : Type 1 where
  pub IsOk : (size : ℕ) → A → Type 0
  pub is_free : A → ℕ → Bool
  pub Asks : (want unit : ℕ) → Type 0
  pub allocate_law :
      (size want unit : ℕ) (a : A)
      → IsOk size a
      → Asks want unit
      → IsOk size (ops.allocate want unit want 0 a).allocator
        × All (IsInside size) (ops.allocate want unit want 0 a).extents
        × ((n : ℕ)
            → extents_at (ops.allocate want unit want 0 a).extents n
                + bit (is_free (ops.allocate want unit want 0 a).allocator n)
              ≡ bit (is_free a n))
  pub release_law :
      (size offset length : ℕ) (a : A)
      → IsOk size a
      → 0 < length
      → offset + length ≤ size
      → ((n : ℕ) → bit (within offset length n) + bit (is_free a n) ≤ 1)
      → IsOk size (ops.release (IntervalSet.insert offset length IntervalSet.empty) a)
        × ((n : ℕ)
            → bit (is_free (ops.release (IntervalSet.insert offset length IntervalSet.empty) a) n)
              ≡ bit (within offset length n) + bit (is_free a n))

abbrev pub same_tier : Tier → Tier → Bool
same_tier fast fast = true
same_tier fast slow = false
same_tier slow fast = false
same_tier slow slow = true

-- Whether a location has a byte of a tier, and how many of some locations have it.
abbrev pub location_at : Tier → ℕ → DiskLocation → ℕ
location_at t n l = bit (same_tier l.tier t && within l.offset l.length n)

unfoldable pub held : Tier → ℕ → List DiskLocation → ℕ
held t n [] = 0
held t n (l ∷ ls) = location_at t n l + held t n ls

unfoldable pub entry_locs : List (ℕ × ExtentEntry) → List DiskLocation
entry_locs [] = []
entry_locs ((id, e) ∷ m) = e.location ∷ entry_locs m

unfoldable pub deferred_locs : List DeferredFreeEntry → List DiskLocation
deferred_locs [] = []
deferred_locs (d ∷ ds) = d.loc ∷ deferred_locs ds

module _ {A : Type 0} (ops : AllocatorOps A) (space : FreeSpace ops) where
  -- Whether a byte is free with the allocator of a tier, if there is one.
  abbrev pub free_bit : Option A → ℕ → ℕ
  free_bit none n = 0
  free_bit (some a) n = bit (space.is_free a n)

module _ (sizes : Tier → ℕ) where
  abbrev pub Fits : DiskLocation → Type 0
  Fits l = (0 < l.length) × (l.offset + l.length ≤ sizes l.tier)

  -- No byte of a device is in two of the locations of the entries, of the deferred frees and of `loose`, or
  -- in one of them and free; the locations end on their devices, the allocators are in order, and the
  -- numbers of the entries are below the next one. `loose` are locations that allocate_raw gave and that
  -- no entry has.
  pub record Disjoint {A : Type 0} (ops : AllocatorOps A) (space : FreeSpace ops) (s : ExtentMap A)
      (loose : List DiskLocation) : Type 0 where
    pub apart :
        (t : Tier) (n : ℕ)
        → held t n (entry_locs s.entries)
            + (held t n (deferred_locs s.deferred_free)
                + (held t n loose + free_bit ops space (at s.allocators t) n))
          ≤ 1
    pub entries_fit : All Fits (entry_locs s.entries)
    pub deferred_fit : All Fits (deferred_locs s.deferred_free)
    pub loose_fit : All Fits loose
    pub in_order : (t : Tier) (a : A) → at s.allocators t ≡ some a → space.IsOk (sizes t) a
    pub fresh : (id : ℕ) (e : ExtentEntry) → find s id ≡ some e → id < s.next_extent_id
