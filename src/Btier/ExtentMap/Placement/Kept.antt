-- ===== src/Btier/ExtentMap/Placement/Kept.antt =====
-- btier/extent_map.cc, the operations that leave every location where it is: the counters, the slots and
-- the headers.
use cxxlab.Prelude.{
  arith, Option, some, none, sub32, ◌≡◌, ℕ, refl, List, [], ◌∷◌, not, ◌==◌, ltb, if-cases,
  Option-cases, inl, inr, add32,
}
use cxxlab.Btier.Types.{Tier, DiskLocation, IoOp, active}
use cxxlab.Btier.Metrics.{state}
use cxxlab.Btier.ExtentMap.{
  ExtentEntry, set_entry, ExtentMap, find, capacity, mark_dirty, update_free_list,
}
use cxxlab.Btier.ExtentMap.Space.{
  AllocatorOps, flush_headers, flush_dirty_headers, clear_deferred_free,
}
use cxxlab.Btier.ExtentMap.Slots.{
  io_word, random_word, append_entry, dead_entry, record_io, set_randomness, append_slot,
  mark_dead_slot, restore_extent_state, io_ref_inc, io_ref_dec,
}
use cxxlab.Btier.ExtentMap.Placement.{FreeSpace, Disjoint, held, deferred_locs}
use cxxlab.Btier.ExtentMap.Placement.Taken.{write_header-Disjoint, same-Disjoint}
use cxxlab.Btier.ExtentMap.Placement.Moved.{set_entry-Disjoint}

module _ (sizes : Tier → ℕ) {A : Type 0} (ops : AllocatorOps A) (space : FreeSpace ops)
    (loose : List DiskLocation) where
  mark_dirty-Disjoint :
      (id : ℕ) (s : ExtentMap A)
      → Disjoint sizes ops space s loose
      → Disjoint sizes ops space (mark_dirty id s) loose
  unfolding mark_dirty
  mark_dirty-Disjoint id s p = same-Disjoint ops space sizes s _ loose refl refl refl refl p

  update_free_list-Disjoint :
      (id : ℕ) (t : Tier) (old_free new_free : ℕ) (s : ExtentMap A)
      → Disjoint sizes ops space s loose
      → Disjoint sizes ops space (update_free_list id t old_free new_free s) loose
  unfolding update_free_list
  update_free_list-Disjoint id t old_free new_free s p =
      same-Disjoint ops space sizes s _ loose refl refl refl refl p

  flush_headers-Disjoint :
      (ids : List ℕ) (s : ExtentMap A)
      → Disjoint sizes ops space s loose
      → Disjoint sizes ops space (flush_headers ids s) loose
  unfolding flush_headers
  flush_headers-Disjoint [] s p = p
  flush_headers-Disjoint (id ∷ ids) s p = elim (Option-cases (find s id)) [
    | inl e ↦ rw (flush_headers, e) (flush_headers-Disjoint ids s p)
    | inr (x, e) ↦
        rw (flush_headers, e)
          (flush_headers-Disjoint ids _ (write_header-Disjoint ops space sizes _ s loose p))
  ]

  module _ (s : ExtentMap A) (p : Disjoint sizes ops space s loose) where
    pub clear_deferred_free-Disjoint : Disjoint sizes ops space (clear_deferred_free s) loose
    unfolding clear_deferred_free deferred_locs held
    clear_deferred_free-Disjoint = record {
      apart = λ t n. omega (arith, p.apart t n);
      entries_fit = p.entries_fit;
      deferred_fit = tt;
      loose_fit = p.loose_fit;
      in_order = p.in_order;
      fresh = p.fresh;
    }

    pub flush_dirty_headers-Disjoint : Disjoint sizes ops space (flush_dirty_headers s) loose
    unfolding flush_dirty_headers
    flush_dirty_headers-Disjoint =
        flush_headers-Disjoint s.dirty_headers _
          (same-Disjoint ops space sizes s _ loose refl refl refl refl p)

    -- An operation that exchanges the entry of a number for one at the same place, where there is one.
    exchange-Disjoint :
        (id : ℕ) (f : ExtentEntry → ExtentEntry) (after : ExtentEntry → ExtentMap A → ExtentMap A)
        → ((x : ExtentEntry) → (f x).location ≡ x.location)
        → ((x : ExtentEntry) (r : ExtentMap A)
            → Disjoint sizes ops space r loose
            → Disjoint sizes ops space (after x r) loose)
        → (o : Option ExtentEntry) → find s id ≡ o
        → Disjoint sizes ops space
            (elim o [ none ↦ s | some x ↦ after x (set_entry s id (f x)) ])
            loose
    exchange-Disjoint id f after place kept none e = p
    exchange-Disjoint id f after place kept (some x) e =
        kept x _ (set_entry-Disjoint sizes ops space s id x e (f x) loose (place x) p)

    pub record_io-Disjoint :
        (id : ℕ) (op : IoOp) (now : ℕ) → Disjoint sizes ops space (record_io id op now s) loose
    unfolding record_io
    record_io-Disjoint id op now =
        exchange-Disjoint id (λ x. record x { last_access_time = now; raw = io_word op x.raw })
          (λ x r. r) (λ x. refl) (λ x r q. q) (find s id) refl

    pub set_randomness-Disjoint :
        (id random : ℕ) → Disjoint sizes ops space (set_randomness id random s) loose
    unfolding set_randomness
    set_randomness-Disjoint id random =
        exchange-Disjoint id (λ x. record x { raw = random_word random x.raw }) (λ x r. r)
          (λ x. refl) (λ x r q. q) (find s id) refl

    pub io_ref_inc-Disjoint : (id : ℕ) → Disjoint sizes ops space (io_ref_inc id s) loose
    unfolding io_ref_inc
    io_ref_inc-Disjoint id =
        exchange-Disjoint id (λ x. record x { io_refs = add32 x.io_refs 1 }) (λ x r. r) (λ x. refl)
          (λ x r q. q) (find s id) refl

    pub io_ref_dec-Disjoint : (id : ℕ) → Disjoint sizes ops space (io_ref_dec id s) loose
    unfolding io_ref_dec
    io_ref_dec-Disjoint id =
        exchange-Disjoint id (λ x. record x { io_refs = sub32 x.io_refs 1 }) (λ x r. r) (λ x. refl)
          (λ x r q. q) (find s id) refl

    pub mark_dead_slot-Disjoint :
        (id length : ℕ) → Disjoint sizes ops space (mark_dead_slot id length s) loose
    unfolding mark_dead_slot dead_entry
    mark_dead_slot-Disjoint id length =
        exchange-Disjoint id (dead_entry length)
          (λ x r.
            update_free_list id x.location.tier (sub32 (capacity x) x.used_bytes)
              (sub32 (capacity x) x.used_bytes) (mark_dirty id r))
          (λ x. refl) (λ x r q. update_free_list-Disjoint id _ _ _ _ (mark_dirty-Disjoint id r q))
          (find s id) refl

    pub restore_extent_state-Disjoint :
        (id used live : ℕ) → Disjoint sizes ops space (restore_extent_state id used live s) loose
    unfolding restore_extent_state
    restore_extent_state-Disjoint id used live =
        exchange-Disjoint id (λ x. record x { used_bytes = used; live_bytes = live })
          (λ x r. mark_dirty id (
            update_free_list id x.location.tier (sub32 (capacity x) x.used_bytes)
              (sub32 (capacity x) used) r))
          (λ x. refl) (λ x r q. mark_dirty-Disjoint id _ (update_free_list-Disjoint id _ _ _ r q))
          (find s id) refl

    pub append_slot-Disjoint :
        (id size : ℕ) → Disjoint sizes ops space (append_slot id size s).1 loose
    unfolding append_slot append_entry
    append_slot-Disjoint id size = elim (Option-cases (find s id)) [
      | inl e ↦ rw (append_slot, e) p
      | inr (x, e) ↦
          rw (append_slot, e)
            (if-cases (λ (r : ℕ × ExtentMap A). Disjoint sizes ops space r.1 loose)
              (not (state x.raw == active)) (λ busy. p)
              (λ ready.
                if-cases (λ (r : ℕ × ExtentMap A). Disjoint sizes ops space r.1 loose)
                  (ltb (capacity x) (add32 x.used_bytes size)) (λ full. p)
                  (λ room. update_free_list-Disjoint id _ _ _ _ (
                    mark_dirty-Disjoint id _
                      (set_entry-Disjoint sizes ops space s id x e _ loose refl p)))))
    ]
