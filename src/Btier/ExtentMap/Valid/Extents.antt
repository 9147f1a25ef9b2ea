-- ===== src/Btier/ExtentMap/Valid/Extents.antt =====
-- The invariant of btier/extent_map.cc where extents come and go.
use cxxlab.Prelude.{
  ℕ, ◌+◌, ◌<◌, ◌≤◌, ◌≡◌, refl, ◌∙◌, arith, List, [], ◌∷◌, nat_eq, u32_mod, u64_mod, Option-cases,
  Bool-cases, inl, inr, leb, lookup-put, lookup-erase, add64, add64-eq, sub64,
}
use cxxlab.Btier.Types.{DiskLocation, header_size}
use cxxlab.Btier.ExtentMap.{
  ExtentMap, HeaderWrite, DeferredFreeEntry, find, add_deferred_free, write_header, new_entry,
}
use cxxlab.Btier.ExtentMap.Space.{
  AllocatorOps, free, create_entry_from_journal, release_loc, release_due, process_deferred_free,
}
use cxxlab.Btier.ExtentMap.Valid.{IsGood, IsValid, entries-IsValid}

-- The extents and the next number are as they were.
pub record SameExtents {A : Type 0} (s s' : ExtentMap A) : Type 0 where
  pub entries : s'.entries ≡ s.entries
  pub next : s'.next_extent_id ≡ s.next_extent_id

pub SameExtents-trans :
    {A : Type 0} {s t u : ExtentMap A} → SameExtents s t → SameExtents t u → SameExtents s u
SameExtents-trans p q = record { entries = q.entries ∙ p.entries; next = q.next ∙ p.next }

pub SameExtents-IsValid :
    {A : Type 0} {s s' : ExtentMap A} → SameExtents s s' → IsValid s → IsValid s'
SameExtents-IsValid {s = s} {s' = s'} p v = entries-IsValid s 0 s' p.entries p.next v

pub new_entry-IsGood :
    (loc : DiskLocation) → header_size ≤ loc.length → loc.length < u32_mod → IsGood (new_entry loc)
new_entry-IsGood loc h w = record {
  word = omega arith;
  holds_header = h;
  narrow = w;
  live_le = omega arith;
  fits = h;
}

module _ {A : Type 0} (s : ExtentMap A) where
  pub write_header-SameExtents : (w : HeaderWrite) → SameExtents s (write_header w s)
  unfolding write_header
  write_header-SameExtents w = ground arith

  pub free-IsValid : (id : ℕ) → IsValid s → IsValid (free id s)
  unfolding free add_deferred_free
  free-IsValid id v = elim (Option-cases (find s id)) [
    | inl missing ↦ rw (missing, free) v
    | inr (e, h) ↦
        rw (h, free)
          (record {
            good = λ j x p. ground (arith, lookup-erase id j s.entries, v.good j x);
            fresh = λ j x p. ground (arith, lookup-erase id j s.entries, v.fresh j x);
          })
  ]

  -- Recovery may name an extent that is there already, and then replaces it.
  pub create_entry_from_journal-IsValid :
      (id : ℕ) (loc : DiskLocation)
      → id + 1 < u64_mod
      → header_size ≤ loc.length
      → loc.length < u32_mod
      → IsValid s
      → IsValid (create_entry_from_journal id loc s)
  unfolding create_entry_from_journal
  create_entry_from_journal-IsValid id loc n h w v = rw (add64-eq id 1 n) (record {
    good = λ j x p.
        ground
          (arith, lookup-put id j (new_entry loc) s.entries, v.good j x, new_entry-IsGood loc h w);
    fresh = λ j x p. ground (arith, lookup-put id j (new_entry loc) s.entries, v.fresh j x);
  })

module _ {A : Type 0} (ops : AllocatorOps A) where
  release_loc-SameExtents :
      (loc : DiskLocation) (s : ExtentMap A) → SameExtents s (release_loc ops loc s)
  unfolding release_loc
  release_loc-SameExtents loc s = ground arith

  release_due-SameExtents :
      (now : ℕ) (ds : List DeferredFreeEntry) (s : ExtentMap A)
      → SameExtents s (release_due ops now ds s).1
  unfolding release_due
  release_due-SameExtents now [] s = record { entries = refl; next = refl }
  release_due-SameExtents now (d ∷ ds) s = elim (Bool-cases (leb 2 (sub64 now d.added_at_seqno))) [
    | inl due ↦ rw due (
        SameExtents-trans (release_loc-SameExtents d.loc s)
          (release_due-SameExtents now ds (release_loc ops d.loc s)))
    | inr young ↦ rw young (release_due-SameExtents now ds s)
  ]

  pub process_deferred_free-IsValid :
      (s : ExtentMap A) → IsValid s → IsValid (process_deferred_free ops s)
  unfolding process_deferred_free
  process_deferred_free-IsValid s v =
      let s1 = record s { seqno = add64 s.seqno 1 } in
      let p = release_due-SameExtents s.seqno s.deferred_free s1 in
      SameExtents-IsValid (record { entries = p.entries; next = p.next }) v
