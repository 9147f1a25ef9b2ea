-- ===== src/Btier/ExtentMap/Slots/Append.antt =====
-- The slots of an extent of btier/extent_map.cc: append_slot on every branch, and why two slots
-- never overlap.
use cxxlab.Prelude.{
  ℕ, List, [], ◌∷◌, ◌+◌, ◌<◌, ◌≤◌, ◌≡◌, ◌≢◌, ◌⊎◌, refl, ap, ◌∙◌, arith, some, nat_eq, add32,
  add32-eq, sub32, u32_mod,
}
use cxxlab.Btier.Types.{active, DiskLocation, header_size}
use cxxlab.Btier.Metrics.{state}
use cxxlab.Btier.ExtentMap.{
  ExtentMap, ExtentEntry, find, set_entry, capacity, mark_dirty, update_free_list,
}
use cxxlab.Btier.ExtentMap.Find.{find-set_entry_self, find-set_entry_ne}
use cxxlab.Btier.ExtentMap.Slots.{append_slot, append_entry, uint32_max}
use cxxlab.Btier.ExtentMap.Slots.Counters.{bump_generation_lem}

-- An extent with room for a slot, and no wrap of the 32-bit sum.
pub record HasRoom (e : ExtentEntry) (size : ℕ) : Type 0 where
  pub is_active : state e.raw ≡ active
  pub fits : e.used_bytes + size ≤ capacity e
  pub no_wrap : e.used_bytes + size < u32_mod
  pub live_fits : e.live_bytes ≤ e.used_bytes

pub record Appended (id size : ℕ) {A : Type 0} (s s' : ExtentMap A) (e e' : ExtentEntry)
    : Type 0 where
  pub found : find s' id ≡ some e'
  pub used : e'.used_bytes ≡ e.used_bytes + size
  pub live : e'.live_bytes ≡ e.live_bytes + size
  pub place : e'.location ≡ e.location
  pub still_active : state e'.raw ≡ active
  pub others : (j : ℕ) → id ≢ j → find s' j ≡ find s j

module _ {A : Type 0} (id size : ℕ) (s : ExtentMap A) (e : ExtentEntry)
    (h : find s id ≡ some e) where
  append_slot-room :
      HasRoom e size
      → append_slot id size s ≡ (
        e.used_bytes,
        update_free_list id e.location.tier
            (sub32 (capacity e) e.used_bytes)
            (sub32 (capacity e) (add32 e.used_bytes size))
            (mark_dirty id (set_entry s id (append_entry size e))),
      )
  unfolding append_slot
  append_slot-room r = ground (arith, add32-eq e.used_bytes size r.no_wrap)

  -- A slot is granted where there is room for it: it starts where the used bytes ended, both byte
  -- counts grow by its size, the extent stays where it is and active, and no other extent changes.
  pub append_slot_lem :
      HasRoom e size
      → (e' : ExtentEntry) × (append_slot id size s).0 ≡ e.used_bytes
        × Appended id size s (append_slot id size s).1 e e'
  unfolding update_free_list mark_dirty append_entry
  append_slot_lem r =
      let live : e.live_bytes + size < u32_mod = omega (arith, r.no_wrap, r.live_fits) in
      let b = bump_generation_lem e.raw in
      (
        append_entry size e,
        ap (λ (p : ℕ × ExtentMap A). p.0) (append_slot-room r),
        rw (append_slot-room r) (record {
          found = find-set_entry_self s id (append_entry size e);
          used = add32-eq e.used_bytes size r.no_wrap;
          live = add32-eq e.live_bytes size live;
          place = refl;
          still_active = b.1 ∙ r.is_active;
          others = λ j n. find-set_entry_ne s id (append_entry size e) j n;
        }),
      )

  -- Otherwise it is refused with UINT32_MAX and nothing changes: where the extent is not active, and
  -- where the slot does not fit.
  pub append_slot-refused :
      (state e.raw ≢ active) ⊎ (capacity e < add32 e.used_bytes size)
      → append_slot id size s ≡ (uint32_max, s)
  unfolding append_slot
  append_slot-refused c = ground arith

-- Slots of the given sizes, one after another, on one extent.
pub append_slots : {A : Type 0} → ℕ → List ℕ → ExtentMap A → List ℕ × ExtentMap A
append_slots id [] s = ([], s)
append_slots id (n ∷ ns) s =
    let (off, s1) = append_slot id n s in let (offs, s2) = append_slots id ns s1 in (off ∷ offs, s2)

-- Where slots of these sizes lie if each starts where the one before it ends.
abbrev pub layout : ℕ → List ℕ → List ℕ
layout off [] = []
layout off (n ∷ ns) = off ∷ layout (off + n) ns

abbrev pub total : List ℕ → ℕ
total [] = 0
total (n ∷ ns) = n + total ns

-- If the sizes fit in an active extent together, all are granted, and each slot starts where the one
-- before it ends: no two overlap, and none passes the capacity.
pub append_slots-layout :
    {A : Type 0} (id : ℕ) (ns : List ℕ) (s : ExtentMap A) (e : ExtentEntry)
    → find s id ≡ some e
    → HasRoom e (total ns)
    → (append_slots id ns s).0 ≡ layout e.used_bytes ns
unfolding append_slots
append_slots-layout id [] s e h r = refl
append_slots-layout id (n ∷ ns) s e h r =
    let room : HasRoom e n = record {
      is_active = r.is_active;
      fits = omega (arith, r.fits);
      no_wrap = omega (arith, r.no_wrap);
      live_fits = r.live_fits;
    } in
    let (e', off, a) = append_slot_lem id n s e h room in
    let next = append_slots-layout id ns (append_slot id n s).1 e' a.found (record {
      is_active = a.still_active;
      fits =
          rw (ap (λ (l : DiskLocation). sub32 l.length header_size) a.place)
            (omega (arith, a.used, r.fits));
      no_wrap = omega (arith, a.used, r.no_wrap);
      live_fits = omega (arith, a.used, a.live, r.live_fits);
    }) in
    cc (off, next, a.used)
