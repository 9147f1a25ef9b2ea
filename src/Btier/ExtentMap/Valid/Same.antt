-- ===== src/Btier/ExtentMap/Valid/Same.antt =====
-- The operations of btier/extent_map.cc that leave the table of extents alone.
use cxxlab.Prelude.{ℕ, refl, Option, some, List, [], ◌∷◌, Option-cases, inl, inr}
use cxxlab.Btier.Types.{Tier, fast, slow, DiskLocation}
use cxxlab.Btier.ExtentMap.{ExtentMap, at, set_at, find, add_deferred_free}
use cxxlab.Btier.ExtentMap.Migration.{release_source}
use cxxlab.Btier.ExtentMap.Space.{
  AllocatorOps, first_extent, aligned, raw_location, no_space, allocate_on, allocate_raw, init_tier,
  init_free_space, clear_deferred_free, flush_headers, flush_dirty_headers,
}
use cxxlab.Btier.ExtentMap.Valid.Extents.{SameExtents, SameExtents-trans, write_header-SameExtents}

module _ {A : Type 0} where
  pub release_source-SameExtents :
      (l : DiskLocation) (s : ExtentMap A) → SameExtents s (release_source l s)
  unfolding release_source add_deferred_free
  release_source-SameExtents l s = record { entries = refl; next = refl }

  pub clear_deferred_free-SameExtents : (s : ExtentMap A) → SameExtents s (clear_deferred_free s)
  unfolding clear_deferred_free
  clear_deferred_free-SameExtents s = record { entries = refl; next = refl }

  flush_headers-SameExtents : (ids : List ℕ) (s : ExtentMap A) → SameExtents s (flush_headers ids s)
  unfolding flush_headers
  flush_headers-SameExtents [] s = record { entries = refl; next = refl }
  flush_headers-SameExtents (id ∷ ids) s = elim (Option-cases (find s id)) [
    | inl e ↦ rw (flush_headers, e) (flush_headers-SameExtents ids s)
    | inr (x, e) ↦
        rw (flush_headers, e)
          (SameExtents-trans (write_header-SameExtents s _) (flush_headers-SameExtents ids _))
  ]

  pub flush_dirty_headers-SameExtents : (s : ExtentMap A) → SameExtents s (flush_dirty_headers s)
  unfolding flush_dirty_headers
  flush_dirty_headers-SameExtents s =
      let p = flush_headers-SameExtents s.dirty_headers (record s { dirty_headers = [] }) in
      record { entries = p.entries; next = p.next }

module _ {A : Type 0} (ops : AllocatorOps A) where
  init_tier-SameExtents : (t : Tier) (s : ExtentMap A) → SameExtents s (init_tier ops t s)
  unfolding init_tier
  init_tier-SameExtents t s = elim (Option-cases (at s.allocators t)) [
    | inl e ↦ rw (init_tier, e) (record { entries = refl; next = refl })
    | inr (a, e) ↦ rw (init_tier, e) (record { entries = refl; next = refl })
  ]

  pub init_free_space-SameExtents : (s : ExtentMap A) → SameExtents s (init_free_space ops s)
  unfolding init_free_space
  init_free_space-SameExtents s =
      SameExtents-trans (init_tier-SameExtents fast s) (init_tier-SameExtents slow _)

  allocate_on-SameExtents :
      (t : Tier) (fallback : ExtentMap A → Option DiskLocation × ExtentMap A) (size : ℕ)
      (s : ExtentMap A)
      → ((s' : ExtentMap A) → SameExtents s' (fallback s').1)
      → SameExtents s (allocate_on ops t (raw_location t) fallback size s).1
  unfolding allocate_on raw_location
  allocate_on-SameExtents t fallback size s back = elim (Option-cases (at s.allocators t)) [
    | inl missing ↦ rw (missing, allocate_on) (record { entries = refl; next = refl })
    | inr (a, h) ↦
        let want = aligned s.block_size size in
        let r = ops.allocate want s.block_size want 0 a in
        let s1 = record s { allocators = set_at s.allocators t (some r.allocator) } in
        elim (Option-cases (first_extent r.got want r.extents)) [
          | inl none_found ↦
              rw (h, none_found, allocate_on)
                (record { entries = (back s1).entries; next = (back s1).next })
          | inr (x, hx) ↦ rw (h, hx, allocate_on) (record { entries = refl; next = refl })
        ]
  ]

  pub allocate_raw-SameExtents :
      (t : Tier) (size : ℕ) (s : ExtentMap A) → SameExtents s (allocate_raw ops t size s).1
  unfolding allocate_raw no_space
  allocate_raw-SameExtents slow size s =
      allocate_on-SameExtents slow no_space size s (λ s'. record { entries = refl; next = refl })
  allocate_raw-SameExtents fast size s =
      allocate_on-SameExtents fast (allocate_on ops slow (raw_location slow) no_space size) size s
        (λ s'.
          allocate_on-SameExtents slow no_space size s'
            (λ s''. record { entries = refl; next = refl }))
