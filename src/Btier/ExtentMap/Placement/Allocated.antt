-- ===== src/Btier/ExtentMap/Placement/Allocated.antt =====
-- btier/extent_map.cc, allocate_extent and allocate_raw on every branch: the fallback to the slow tier,
-- a reply with too little, and a tier without an allocator.
use mathlib.Core.Path.{subst}
use cxxlab.Prelude.{
  ℕ, ◌+◌, ◌<◌, ◌≤◌, ◌≡◌, ap, arith, List, [], ◌∷◌, ◌++◌, Option, none, some, All, ltb, Bool-cases,
  Option-cases, inl, inr, u64_mod,
}
use cxxlab.Btier.Types.{Tier, fast, slow, DiskLocation}
use cxxlab.Btier.ExtentMap.{ExtentMap, at, set_at}
use cxxlab.Btier.ExtentMap.Space.{
  AllocatorOps, PExtent, aligned, first_extent, add_extent, raw_location, no_space, allocate_on,
  allocate_extent, allocate_raw,
}
use cxxlab.Btier.ExtentMap.Placement.{IsInside, FreeSpace, held, Disjoint}
use cxxlab.Btier.ExtentMap.Placement.Taken.{loc_of, reply-Disjoint, first-few, add_extent-Disjoint}

first_extent_lem :
    (got : Option ℕ) (want : ℕ) (xs : List PExtent) (x : PExtent)
    → first_extent got want xs ≡ some x
    → (ys : List PExtent) × (xs ≡ x ∷ ys)
first_extent_lem none want xs x h = absurd (ground (arith, h))
first_extent_lem (some got) want [] x h = absurd (ground (arith, h))
first_extent_lem (some got) want (y ∷ ys) x h = elim (Bool-cases (ltb got want)) [
  | inl less ↦ absurd (ground (arith, less, h))
  | inr enough ↦ let is : y ≡ x = ground (arith, enough, h) in (ys, ap (λ (z : PExtent). z ∷ ys) is)
]

held-none : (t : Tier) (n k : ℕ) → held t n [] ≤ k
unfolding held
held-none t n k = omega arith

-- What allocate_raw gave.
abbrev pub given : Option DiskLocation → List DiskLocation
given none = []
given (some l) = l ∷ []

module _ (sizes : Tier → ℕ) {A : Type 0} (ops : AllocatorOps A) (space : FreeSpace ops) where
  -- What holds of all three outcomes holds of the allocation on a tier.
  allocate_on-Disjoint :
      {R : Type 0} (goal : Option R × ExtentMap A → Type 0) (t : Tier)
      (make : PExtent → ExtentMap A → R × ExtentMap A)
      (fallback : ExtentMap A → Option R × ExtentMap A) (size : ℕ) (s : ExtentMap A)
      (loose : List DiskLocation)
      → Disjoint sizes ops space s loose
      → space.Asks (aligned s.block_size size) s.block_size
      → goal (none, s)
      → ((b : A)
          → Disjoint sizes ops space
              (record s { allocators = set_at s.allocators t (some b) })
              loose
          → goal (fallback (record s { allocators = set_at s.allocators t (some b) })))
      → ((b : A) (x : PExtent)
          → Disjoint sizes ops space
              (record s { allocators = set_at s.allocators t (some b) })
              (loc_of t x ∷ loose)
          → goal (
            some (make x (record s { allocators = set_at s.allocators t (some b) })).0,
            (make x (record s { allocators = set_at s.allocators t (some b) })).1,
          ))
      → goal (allocate_on ops t make fallback size s)
  unfolding allocate_on
  allocate_on-Disjoint goal t make fallback size s loose p asks nothing later made =
      elim (Option-cases (at s.allocators t)) [
        | inl e ↦ rw (allocate_on, e) nothing
        | inr (a, e) ↦
            let want = aligned s.block_size size in
            let r = ops.allocate want s.block_size want 0 a in
            let law = space.allocate_law (sizes t) want s.block_size a (p.in_order t a e) asks in
            rw (allocate_on, e)
              (elim (Option-cases (first_extent r.got want r.extents)) [
                | inl f ↦ rw f (
                    later r.allocator (
                      reply-Disjoint ops space sizes t a want s.block_size s loose [] p e asks
                        p.loose_fit (λ u n. held-none u n _)))
                | inr (x, f) ↦
                    let (ys, is) = first_extent_lem r.got want r.extents x f in
                    rw f (
                      made r.allocator x (
                        reply-Disjoint ops space sizes t a want s.block_size s loose
                          (loc_of t x ∷ []) p e asks
                          ((subst (All (IsInside (sizes t))) is law.1).0, p.loose_fit)
                          (λ u n. rw is (first-few ops space sizes t u n x ys))))
              ])
      ]

  module _ (size : ℕ) (s : ExtentMap A) (loose : List DiskLocation) where
    pub allocate_extent-Disjoint :
        (t : Tier)
        → Disjoint sizes ops space s loose
        → space.Asks (aligned s.block_size size) s.block_size
        → s.next_extent_id + 1 < u64_mod
        → Disjoint sizes ops space (allocate_extent ops t size s).1 loose
    unfolding allocate_extent no_space
    allocate_extent-Disjoint slow p asks small =
        allocate_on-Disjoint (λ r. Disjoint sizes ops space r.1 loose) slow (add_extent slow)
          no_space size s loose p asks p (λ b q. q)
          (λ b x q. add_extent-Disjoint ops space sizes slow x _ loose small q)
    allocate_extent-Disjoint fast p asks small =
        allocate_on-Disjoint (λ r. Disjoint sizes ops space r.1 loose) fast (add_extent fast) _ size
          s loose p asks p
          (λ b q.
            allocate_on-Disjoint (λ r. Disjoint sizes ops space r.1 loose) slow (add_extent slow)
              no_space size _ loose q asks q (λ c q'. q')
              (λ c x q'. add_extent-Disjoint ops space sizes slow x _ loose small q'))
          (λ b x q. add_extent-Disjoint ops space sizes fast x _ loose small q)

    pub allocate_raw-Disjoint :
        (t : Tier)
        → Disjoint sizes ops space s loose
        → space.Asks (aligned s.block_size size) s.block_size
        → Disjoint sizes ops space
            (allocate_raw ops t size s).1
            (given (allocate_raw ops t size s).0 ++ loose)
    unfolding allocate_raw no_space raw_location
    allocate_raw-Disjoint slow p asks =
        allocate_on-Disjoint (λ r. Disjoint sizes ops space r.1 (given r.0 ++ loose)) slow
          (raw_location slow) no_space size s loose p asks p (λ b q. q) (λ b x q. q)
    allocate_raw-Disjoint fast p asks =
        allocate_on-Disjoint (λ r. Disjoint sizes ops space r.1 (given r.0 ++ loose)) fast
          (raw_location fast) _ size s loose p asks p
          (λ b q.
            allocate_on-Disjoint (λ r. Disjoint sizes ops space r.1 (given r.0 ++ loose)) slow
              (raw_location slow) no_space size _ loose q asks q (λ c q'. q') (λ c x q'. q'))
          (λ b x q. q)
