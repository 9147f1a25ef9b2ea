-- ===== src/Btier/ExtentMap/Placement/Taken.antt =====
-- btier/extent_map.cc, allocate_extent and allocate_raw: the place that is taken from an allocator.
use mathlib.Core.Option.{some-injective}
use cxxlab.Prelude.{
  refl, ℕ, ◌+◌, ◌<◌, ◌≤◌, ◌≡◌, sym, arith, List, [], ◌∷◌, ◌++◌, Option, none, some, All, ◌==◌,
  if◌then◌else◌, if-cases, Bool-cases, Option-cases, inl, inr, lookup, put, nat_eq, lookup-put,
  add64, add64-eq, u64_mod, ==→eq,
}
use cxxlab.Btier.Types.{Tier, fast, slow, DiskLocation}
use cxxlab.Btier.ExtentMap.{
  ExtentEntry, ExtentMap, PerTier, at, set_at, find, new_entry, HeaderWrite, write_header,
}
use cxxlab.Btier.ExtentMap.Space.{AllocatorOps, PExtent, add_extent}
use cxxlab.Btier.ExtentMap.Placement.{
  bit, extents_at, FreeSpace, same_tier, held, free_bit, Fits, Disjoint,
}
use cxxlab.Btier.ExtentMap.Placement.Sums.{held-append, held-put_new, All-put}

abbrev pub loc_of : Tier → PExtent → DiskLocation
loc_of t x = record { offset = x.offset; length = x.length; tier = t }

module _ {A : Type 0} (ops : AllocatorOps A) (space : FreeSpace ops) where
  free_bit-set_at :
      (p : PerTier (Option A)) (t u : Tier) (a b : A) (n k : ℕ)
      → at p t ≡ some a
      → k + bit (space.is_free b n) ≡ bit (space.is_free a n)
      → (if same_tier t u then k else 0) + free_bit ops space (at (set_at p t (some b)) u) n
        ≡ free_bit ops space (at p u) n
  free_bit-set_at p fast fast a b n k h e = rw h e
  free_bit-set_at p fast slow a b n k h e = omega arith
  free_bit-set_at p slow fast a b n k h e = omega arith
  free_bit-set_at p slow slow a b n k h e = rw h e

  module _ (sizes : Tier → ℕ) where
    pub in_order-set_at :
        (p : PerTier (Option A)) (t u : Tier) (b c : A)
        → ((v : Tier) (a : A) → at p v ≡ some a → space.IsOk (sizes v) a)
        → space.IsOk (sizes t) b
        → at (set_at p t (some b)) u ≡ some c
        → space.IsOk (sizes u) c
    in_order-set_at p fast fast b c h k e = rw (sym (some-injective b c e)) k
    in_order-set_at p fast slow b c h k e = h slow c e
    in_order-set_at p slow fast b c h k e = h fast c e
    in_order-set_at p slow slow b c h k e = rw (sym (some-injective b c e)) k

    -- The state with a reply's allocator holds some of the extents of the reply.
    pub reply-Disjoint :
        (t : Tier) (a : A) (want unit : ℕ) (s : ExtentMap A) (loose ls : List DiskLocation)
        → Disjoint sizes ops space s loose
        → at s.allocators t ≡ some a
        → space.Asks want unit
        → All (Fits sizes) (ls ++ loose)
        → ((u : Tier) (n : ℕ)
            → held u n ls ≤ (
                if same_tier t u
                then extents_at (ops.allocate want unit want 0 a).extents n
                else 0))
        → Disjoint sizes ops space
            (record s {
              allocators = set_at s.allocators t (some (ops.allocate want unit want 0 a).allocator);
            })
            (ls ++ loose)
    reply-Disjoint t a want unit s loose ls p h asks fit few =
        let r = ops.allocate want unit want 0 a in
        let law = space.allocate_law (sizes t) want unit a (p.in_order t a h) asks in
        record {
          apart = λ u n. omega (
            arith,
            p.apart u n,
            few u n,
            held-append u n ls loose,
            free_bit-set_at s.allocators t u a r.allocator n (extents_at r.extents n) h (law.2 n),
          );
          entries_fit = p.entries_fit;
          deferred_fit = p.deferred_fit;
          loose_fit = fit;
          in_order = λ u c e. in_order-set_at s.allocators t u r.allocator c p.in_order law.0 e;
          fresh = p.fresh;
        }

    pub first-few :
        (t u : Tier) (n : ℕ) (x : PExtent) (xs : List PExtent)
        → held u n (loc_of t x ∷ []) ≤ (if same_tier t u then extents_at (x ∷ xs) n else 0)
    unfolding held extents_at
    first-few t u n x xs = ground arith

    -- The states differ in nothing that says where the locations are.
    pub same-Disjoint :
        (s s' : ExtentMap A) (loose : List DiskLocation)
        → s'.entries ≡ s.entries
        → s'.deferred_free ≡ s.deferred_free
        → s'.allocators ≡ s.allocators
        → s'.next_extent_id ≡ s.next_extent_id
        → Disjoint sizes ops space s loose
        → Disjoint sizes ops space s' loose
    same-Disjoint s s' loose entries deferred allocators nexts p = record {
      apart = λ t n. rw (entries, deferred, allocators) (p.apart t n);
      entries_fit = rw entries p.entries_fit;
      deferred_fit = rw deferred p.deferred_fit;
      loose_fit = p.loose_fit;
      in_order = λ t a e. p.in_order t a (rw (sym allocators) e);
      fresh = λ id e h. rw nexts (p.fresh id e (rw (sym entries) h));
    }

    pub write_header-Disjoint :
        (w : HeaderWrite) (s : ExtentMap A) (loose : List DiskLocation)
        → Disjoint sizes ops space s loose
        → Disjoint sizes ops space (write_header w s) loose
    unfolding write_header
    write_header-Disjoint w s loose p =
        if-cases (λ (r : ExtentMap A). Disjoint sizes ops space r loose) (at s.devices w.device)
          (λ e. same-Disjoint s _ loose refl refl refl refl p) (λ e. p)

    fresh-put :
        (s : ExtentMap A) (e : ExtentEntry)
        → s.next_extent_id + 1 < u64_mod
        → ((id : ℕ) (x : ExtentEntry) → find s id ≡ some x → id < s.next_extent_id)
        → (id : ℕ) (x : ExtentEntry) → lookup id (put s.next_extent_id e s.entries) ≡ some x
        → id < add64 s.next_extent_id 1
    fresh-put s e small h id x is =
        let next = add64-eq s.next_extent_id 1 small in
        elim (Bool-cases (s.next_extent_id == id)) [
          | inl same ↦ omega (arith, next, ==→eq s.next_extent_id id same)
          | inr other ↦ omega (
            arith,
            next,
            h id x (ground (arith, other, is, lookup-put s.next_extent_id id e s.entries)),
          )
        ]

    unused-next :
        (s : ExtentMap A)
        → ((id : ℕ) (x : ExtentEntry) → find s id ≡ some x → id < s.next_extent_id)
        → lookup s.next_extent_id s.entries ≡ none
    unused-next s h = elim (Option-cases (lookup s.next_extent_id s.entries)) [
      | inl e ↦ e
      | inr (x, e) ↦ absurd (omega (arith, h s.next_extent_id x e))
    ]

    -- create_entry of a location that nothing else holds.
    pub add_extent-Disjoint :
        (t : Tier) (x : PExtent) (s : ExtentMap A) (loose : List DiskLocation)
        → s.next_extent_id + 1 < u64_mod
        → Disjoint sizes ops space s (loc_of t x ∷ loose)
        → Disjoint sizes ops space (add_extent t x s).1 loose
    unfolding add_extent held
    add_extent-Disjoint t x s loose small p = write_header-Disjoint _ _ loose (record {
      apart = λ u n. omega (
        arith,
        p.apart u n,
        held-put_new u n s.next_extent_id (new_entry (loc_of t x)) s.entries
            (unused-next s p.fresh),
      );
      entries_fit =
          All-put (Fits sizes) s.next_extent_id (new_entry (loc_of t x)) s.entries p.loose_fit.0
            p.entries_fit;
      deferred_fit = p.deferred_fit;
      loose_fit = p.loose_fit.1;
      in_order = p.in_order;
      fresh = fresh-put s (new_entry (loc_of t x)) small p.fresh;
    })
