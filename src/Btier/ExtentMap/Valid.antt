-- ===== src/Btier/ExtentMap/Valid.antt =====
-- The invariant of the extent map of btier/extent_map.cc, for each operation that changes an entry.
pub mod Migrations
pub mod Extents
pub mod Allocations
pub mod Same
pub mod Run
pub mod Tests
use cxxlab.Prelude.{
  ℕ, ◌+◌, ◌-◌, ◌%◌, ◌^◌, ◌<◌, ◌≤◌, ◌≡◌, ◌≢◌, refl, sym, ap, ◌∙◌, arith, some, none, Option, Bool,
  true, false, if◌then◌else◌, nat_eq, ◌==◌, lookup-put, lookup-erase, sub32, sub32-eq, u32_mod,
  Option-cases, inl, inr, lookup, leb, add32, add32-eq, not, Bool-cases, ltb, ltb→le, add64-eq,
  u64_mod,
}
use cxxlab.Btier.Types.{active, IoOp, read, write, DiskLocation, header_size, Tier}
use cxxlab.Btier.Metrics.{state}
use cxxlab.Btier.Metrics.Fields.{pack_fields}
use cxxlab.Btier.ExtentMap.{
  ExtentMap, ExtentEntry, find, set_entry, mark_dirty, update_free_list, add_deferred_free,
  capacity, new_entry, bump_generation,
}
use cxxlab.Btier.ExtentMap.Find.{find-set_entry}
use cxxlab.Btier.ExtentMap.Slots.{
  record_io, set_randomness, append_slot, append_entry, mark_dead_slot, dead_entry,
  restore_extent_state, io_ref_inc, io_ref_dec, io_word, random_word,
}
use cxxlab.Btier.ExtentMap.Slots.Counters.{bump_generation_lem}

-- The byte counts of an extent, in 32-bit numbers that do not wrap.
pub record IsGood (e : ExtentEntry) : Type 0 where
  pub word : e.raw < 2 ^ 64
  pub holds_header : header_size ≤ e.location.length
  pub narrow : e.location.length < u32_mod
  pub live_le : e.live_bytes ≤ e.used_bytes
  pub fits : e.used_bytes + header_size ≤ e.location.length

-- Every extent is good, and its number was given out before the next one.
pub record IsValid {A : Type 0} (s : ExtentMap A) : Type 0 where
  pub good : (id : ℕ) (e : ExtentEntry) → find s id ≡ some e → IsGood e
  pub fresh : (id : ℕ) (e : ExtentEntry) → find s id ≡ some e → id < s.next_extent_id

io_word-lt : (op : IoOp) (v : ℕ) → io_word op v < 2 ^ 64
unfolding io_word
io_word-lt op v = (pack_fields _ _ _ _ _).5

random_word-lt : (r v : ℕ) → random_word r v < 2 ^ 64
unfolding random_word
random_word-lt r v = (pack_fields _ _ _ _ _).5

module _ {A : Type 0} (s : ExtentMap A) (id : ℕ) where
  pub set_entry-IsValid :
      (e e' : ExtentEntry)
      → find s id ≡ some e
      → IsGood e'
      → IsValid s
      → IsValid (set_entry s id e')
  unfolding set_entry
  set_entry-IsValid e e' h g v = record {
    good = λ j x p. ground (arith, find-set_entry s id e' j, v.good j x);
    fresh = λ j x p. ground (arith, find-set_entry s id e' j, v.fresh j x, v.fresh id e);
  }

  -- The other fields of the state do not matter.
  pub entries-IsValid :
      (s' : ExtentMap A)
      → s'.entries ≡ s.entries
      → s'.next_extent_id ≡ s.next_extent_id
      → IsValid s
      → IsValid s'
  entries-IsValid s' p q v = record {
    good = λ j x h. v.good j x (rw p at h);
    fresh = λ j x h. rw q (v.fresh j x (rw p at h));
  }

module _ {A : Type 0} (s : ExtentMap A) (id : ℕ) (v : IsValid s) where
  pub record_io-IsValid : (op : IoOp) (now : ℕ) → IsValid (record_io id op now s)
  unfolding record_io
  record_io-IsValid op now = elim (Option-cases (find s id)) [
    | inl missing ↦ rw (missing, record_io) v
    | inr (e, h) ↦
        let g = v.good id e h in
        rw (h, record_io)
          (set_entry-IsValid s id e _ h
            (record {
              word = io_word-lt op e.raw;
              holds_header = g.holds_header;
              narrow = g.narrow;
              live_le = g.live_le;
              fits = g.fits;
            })
            v)
  ]

  pub set_randomness-IsValid : (r : ℕ) → IsValid (set_randomness id r s)
  unfolding set_randomness
  set_randomness-IsValid r = elim (Option-cases (find s id)) [
    | inl missing ↦ rw (missing, set_randomness) v
    | inr (e, h) ↦
        let g = v.good id e h in
        rw (h, set_randomness)
          (set_entry-IsValid s id e _ h
            (record {
              word = random_word-lt r e.raw;
              holds_header = g.holds_header;
              narrow = g.narrow;
              live_le = g.live_le;
              fits = g.fits;
            })
            v)
  ]

  append_entry-IsGood :
      (size : ℕ) (e : ExtentEntry)
      → IsGood e
      → e.used_bytes + size < u32_mod
      → e.used_bytes + size ≤ capacity e
      → IsGood (append_entry size e)
  unfolding append_entry
  append_entry-IsGood size e g w f =
      let c = sub32-eq e.location.length header_size g.holds_header g.narrow in
      rw (add32-eq e.used_bytes size w, add32-eq e.live_bytes size (omega (arith, g.live_le)))
        (record {
          word = (bump_generation_lem e.raw).3;
          holds_header = g.holds_header;
          narrow = g.narrow;
          live_le = omega (arith, g.live_le);
          fits = omega (arith, c, g.holds_header);
        })

  -- A slot keeps the invariant if its size does not make the 32-bit sum of append_slot wrap.
  pub append_slot-IsValid :
      (size : ℕ)
      → ((e : ExtentEntry) → find s id ≡ some e → e.used_bytes + size < u32_mod)
      → IsValid (append_slot id size s).1
  unfolding append_slot update_free_list mark_dirty
  append_slot-IsValid size narrow = elim (Option-cases (find s id)) [
    | inl missing ↦ rw (missing, append_slot) v
    | inr (e, h) ↦
        rw (h, append_slot, add32-eq e.used_bytes size (narrow e h))
          (elim (Bool-cases (state e.raw == active)) [
            | inr busy ↦ rw busy v
            | inl idle ↦ rw idle (elim (Bool-cases (ltb (capacity e) (e.used_bytes + size))) [
              | inl full ↦ rw full v
              | inr room ↦ rw room (
                  entries-IsValid (set_entry s id (append_entry size e)) id _ refl refl (
                    set_entry-IsValid s id e (append_entry size e) h
                      (append_entry-IsGood size e (v.good id e h) (narrow e h) (ltb→le _ _ room))
                      v))
            ])
          ])
  ]

  dead_entry-IsGood : (n : ℕ) (e : ExtentEntry) → IsGood e → IsGood (dead_entry n e)
  unfolding dead_entry
  dead_entry-IsGood n e g = record {
    word = (bump_generation_lem e.raw).3;
    holds_header = g.holds_header;
    narrow = g.narrow;
    live_le = ground (arith, g.live_le);
    fits = g.fits;
  }

  pub mark_dead_slot-IsValid : (n : ℕ) → IsValid (mark_dead_slot id n s)
  unfolding mark_dead_slot update_free_list mark_dirty
  mark_dead_slot-IsValid n = elim (Option-cases (find s id)) [
    | inl missing ↦ rw (missing, mark_dead_slot) v
    | inr (e, h) ↦
        rw (h, mark_dead_slot)
          (entries-IsValid (set_entry s id (dead_entry n e)) id _ refl refl
            (set_entry-IsValid s id e (dead_entry n e) h (dead_entry-IsGood n e (v.good id e h)) v))
  ]
