-- ===== src/Btier/ExtentMap/Valid/Allocations.antt =====
-- What an allocation of btier/extent_map.cc does to the extents, and that it keeps the invariant.
use cxxlab.Prelude.{
  ℕ, ◌+◌, ◌<◌, ◌≤◌, ◌≡◌, ◌≢◌, refl, ap, ◌∙◌, arith, some, none, Option, nat_eq, ◌==◌, u32_mod,
  u64_mod, Option-cases, Bool-cases, inl, inr, lookup-put, add64-eq, lookup,
}
use cxxlab.Btier.Types.{DiskLocation, header_size, Tier, fast, slow}
use cxxlab.Btier.ExtentMap.{ExtentMap, find, new_entry, at, set_at}
use cxxlab.Btier.ExtentMap.Space.{
  PExtent, AllocatorOps, first_extent, aligned, add_extent, no_space, allocate_on, allocate_extent,
}
use cxxlab.Btier.ExtentMap.Valid.{IsGood, IsValid}
use cxxlab.Btier.ExtentMap.Valid.Extents.{
  SameExtents, SameExtents-trans, SameExtents-IsValid, new_entry-IsGood, write_header-SameExtents,
}

-- What an allocation may do to the extents: nothing, or add one under the next number.
pub record Added {A : Type 0} (s s' : ExtentMap A) (id : ℕ) (loc : DiskLocation) : Type 0 where
  pub fresh : id ≡ s.next_extent_id
  pub next : s'.next_extent_id ≡ id + 1
  pub good : IsGood (new_entry loc)
  pub found : find s' id ≡ some (new_entry loc)
  pub others : (j : ℕ) → id ≢ j → find s' j ≡ find s j

abbrev pub Outcome : {A : Type 0} → ExtentMap A → Option (ℕ × DiskLocation) × ExtentMap A → Type 0
Outcome s (none, s') = SameExtents s s'
Outcome s (some (id, loc), s') = Added s s' id loc

Added-trans :
    {A : Type 0} {s t u : ExtentMap A} {id : ℕ} {loc : DiskLocation}
    → Added s t id loc
    → SameExtents t u
    → Added s u id loc
Added-trans {id = id} p q = record {
  fresh = p.fresh;
  next = q.next ∙ p.next;
  good = p.good;
  found = ap (lookup id) q.entries ∙ p.found;
  others = λ j n. ap (lookup j) q.entries ∙ p.others j n;
}

Added-from :
    {A : Type 0} {s t u : ExtentMap A} {id : ℕ} {loc : DiskLocation}
    → SameExtents s t
    → Added t u id loc
    → Added s u id loc
Added-from p q = record {
  fresh = q.fresh ∙ p.next;
  next = q.next;
  good = q.good;
  found = q.found;
  others = λ j n. q.others j n ∙ ap (lookup j) p.entries;
}

Outcome-from :
    {A : Type 0} {s t : ExtentMap A} (r : Option (ℕ × DiskLocation) × ExtentMap A)
    → SameExtents s t
    → Outcome t r
    → Outcome s r
Outcome-from (none, s') p o = SameExtents-trans p o
Outcome-from (some (id, loc), s') p o = Added-from p o

-- Sizes that an extent may have.
abbrev pub IsExtentSize : PExtent → Type 0
IsExtentSize x = (header_size ≤ x.length) × (x.length < u32_mod)

add_extent-Added :
    {A : Type 0} (t : Tier) (x : PExtent) (s : ExtentMap A)
    → s.next_extent_id + 1 < u64_mod
    → IsExtentSize x
    → Outcome s (some (add_extent t x s).0, (add_extent t x s).1)
unfolding add_extent
add_extent-Added t x s n h =
    let id = s.next_extent_id in
    let loc : DiskLocation = record { offset = x.offset; length = x.length; tier = t } in
    Added-trans
      (record {
        fresh = refl;
        next = add64-eq id 1 n;
        good = new_entry-IsGood loc h.0 h.1;
        found = ground (arith, lookup-put id id (new_entry loc) s.entries);
        others = λ j k. ground (arith, lookup-put id j (new_entry loc) s.entries);
      })
      (write_header-SameExtents _ _)

-- What the extent map relies on of the replies to one request: the extent that it takes has room for the
-- header and a length of 32 bits.
abbrev pub GivesOn : {A : Type 0} → AllocatorOps A → Tier → ℕ → ExtentMap A → Type 0
GivesOn {A} ops t size s =
    let want = aligned s.block_size size in
    (a : A) (x : PExtent)
    → at s.allocators t ≡ some a
    → (let r = ops.allocate want s.block_size want 0 a in
        first_extent r.got want r.extents ≡ some x)
    → IsExtentSize x

abbrev pub GivesExtent : {A : Type 0} → AllocatorOps A → ℕ → ExtentMap A → Type 0
GivesExtent ops size s = (t : Tier) → GivesOn ops t size s

module _ {A : Type 0} (ops : AllocatorOps A) where
  allocate_on-Outcome :
      (t : Tier) (fallback : ExtentMap A → Option (ℕ × DiskLocation) × ExtentMap A) (size : ℕ)
      (s : ExtentMap A)
      → s.next_extent_id + 1 < u64_mod
      → GivesOn ops t size s
      → ((b : A) → Outcome s (fallback (record s { allocators = set_at s.allocators t (some b) })))
      → Outcome s (allocate_on ops t (add_extent t) fallback size s)
  unfolding allocate_on
  allocate_on-Outcome t fallback size s n gives back = elim (Option-cases (at s.allocators t)) [
    | inl missing ↦ rw (missing, allocate_on) (record { entries = refl; next = refl })
    | inr (a, h) ↦
        let want = aligned s.block_size size in
        let r = ops.allocate want s.block_size want 0 a in
        let s1 = record s { allocators = set_at s.allocators t (some r.allocator) } in
        let same : SameExtents s s1 = record { entries = refl; next = refl } in
        elim (Option-cases (first_extent r.got want r.extents)) [
          | inl none_found ↦ rw (h, none_found, allocate_on) (back r.allocator)
          | inr (x, hx) ↦
              rw (h, hx, allocate_on) (Added-from same (add_extent-Added t x s1 n (gives a x h hx)))
        ]
  ]

  no_space-Outcome : (s s' : ExtentMap A) → SameExtents s s' → Outcome s (no_space s')
  unfolding no_space
  no_space-Outcome s s' p = p

  -- An allocation either fails and leaves the extents as they were, or adds one good extent, under
  -- the next number, and leaves the others as they were; on the fast tier too, where it may come to
  -- rest on the slow one.
  pub allocate_extent-Outcome :
      (t : Tier) (size : ℕ) (s : ExtentMap A)
      → s.next_extent_id + 1 < u64_mod
      → GivesExtent ops size s
      → Outcome s (allocate_extent ops t size s)
  unfolding allocate_extent
  allocate_extent-Outcome slow size s n gives =
      allocate_on-Outcome slow no_space size s n (gives slow)
        (λ b. no_space-Outcome s _ (record { entries = refl; next = refl }))
  allocate_extent-Outcome fast size s n gives =
      allocate_on-Outcome fast _ size s n (gives fast) (λ b.
        Outcome-from _ (record { entries = refl; next = refl })
          (allocate_on-Outcome slow no_space size _ n (gives slow)
            (λ c. no_space-Outcome _ _ (record { entries = refl; next = refl }))))

pub Outcome-IsValid :
    {A : Type 0} (s : ExtentMap A) (r : Option (ℕ × DiskLocation) × ExtentMap A)
    → Outcome s r
    → IsValid s
    → IsValid r.1
Outcome-IsValid s (none, s') o v = SameExtents-IsValid o v
Outcome-IsValid s (some (id, loc), s') o v = record {
  good = λ j x p. elim (Bool-cases (id == j)) [
    | inl same ↦ ground (arith, o.good, o.found)
    | inr other ↦ ground (arith, o.others j, v.good j x)
  ];
  fresh = λ j x p. elim (Bool-cases (id == j)) [
    | inl same ↦ ground (arith, o.next)
    | inr other ↦ ground (arith, o.others j, v.fresh j x, o.next, o.fresh)
  ];
}
