-- ===== src/Bluestore/ExtentMap/Punch.antt =====
-- punch_hole of bluestore/extent_map.cc ends, and leaves of every extent what lies around the hole.
use cxxlab.Prelude.{
  ℕ, ◌+◌, ◌*◌, ◌^◌, ◌≤◌, ◌<◌, ◌≡◌, zero, suc, true, false, ◌&&◌, List, [], ◌∷◌, ◌++◌, Option, none,
  some, arith, ltb, leb, if◌then◌else◌, if-cases, add32-eq, add64-eq, ap, sym, ◌∙◌, length,
  length-append,
}
use mathlib.Core.Path.{subst}
use mathlib.Core.List.{append_assoc, append-nil}
use native.Mathlib.Nat.{mul-le-mul_right}
use cxxlab.Bluestore.ExtentMap.{
  Extent, logical_end, restart, rm, add_head, add_tail_part, punched, punch_loop, punch_hole,
  rounds,
}
use cxxlab.Bluestore.ExtentMap.Holes.{
  IsOrdered, middle_part, Fits, find_byte, reaches, around, inside, around-IsOrdered,
  find_byte-around, find_byte-inside,
}
use cxxlab.Bluestore.ExtentMap.Seek.{AllBefore, Split, restart-Split}
use cxxlab.Bluestore.ExtentMap.Parts.{around-before, inside-before, pending, pending-le, middle_new}
use cxxlab.Bluestore.ExtentMap.Loop.{
  set_skipped, behind_hole, fits, spans, ends_behind, starts_before, within, Shortened, snoc-++,
}

-- Rounds that are enough when some extents still reach behind the start of the hole.
unfoldable budget : ℕ → ℕ → ℕ
budget bound zero = 0
budget bound (suc k) = bound + 1 + budget bound k

module _ (offset end : ℕ) (hole : offset < end) (lo bound : ℕ) where
  -- The loop from an iterator gives what `around` and `inside` do of the set.
  abbrev Ends : ℕ → List Extent → List Extent → List Extent → Type 0
  Ends fuel m it olds =
      punch_loop fuel offset end m it olds ≡ some (around offset end m, olds ++ inside offset end m)

  abbrev Enough : ℕ → List Extent → List Extent → Type 0
  Enough fuel m it = (length m ≤ bound) × (budget bound (pending offset m) + length it ≤ fuel)

  -- From an iterator that a restart gives.
  from_Split :
      (fuel : ℕ) (m it olds : List Extent)
      → ((front : List Extent)
          → IsOrdered lo (front ++ it)
          → AllBefore offset front
          → Enough fuel (front ++ it) it
          → Ends fuel (front ++ it) it olds)
      → IsOrdered lo m
      → Split offset m it
      → Enough fuel m it
      → Ends fuel m it olds
  from_Split fuel m it olds all o s h =
      subst (λ n. Ends fuel n it olds) (sym s.whole)
        (all s.front (subst (IsOrdered lo) s.whole o) s.before
          (subst (λ n. Enough fuel n it) s.whole h))

  both :
      {m n olds olds' : List Extent}
      → m ≡ n
      → olds ≡ olds'
      → ◌≡◌ {A = Option (List Extent × List Extent)} (some (m, olds)) (some (n, olds'))
  both {m} {n} {olds} {olds'} h k =
      ap (λ (l : List Extent). some (l, olds)) h ∙ ap (λ (l : List Extent). some (n, l)) k

  last_part :
      (olds : List Extent) (e : Extent)
      → Fits e
      → {l : List Extent} → l ≡ middle_part offset end e ∷ []
      → reaches offset end e ≡ true
      → olds ++ punched offset end e ∷ [] ≡ olds ++ l
  last_part olds e f h g =
      ap (λ x. olds ++ x ∷ []) (middle_new offset end e f hole g) ∙ ap (λ l. olds ++ l) (sym h)

  length-Split : (m it : List Extent) → Split offset m it → length it ≤ length m
  length-Split m it s =
      omega (arith, ap (λ (l : List Extent). length l) s.whole, length-append s.front it)

  -- A round that took a part out goes on where the rest of the loop does.
  resume :
      (fuel : ℕ) (front : List Extent) (e : Extent) (it olds m : List Extent)
      (o : IsOrdered lo (front ++ e ∷ it)) (b : AllBefore offset front)
      → Enough (suc fuel) (front ++ e ∷ it) (e ∷ it)
      → reaches offset end e ≡ true
      → Shortened offset end hole lo front e it o b m
      → ((front' : List Extent)
          → IsOrdered lo (front' ++ restart offset m)
          → AllBefore offset front'
          → Enough fuel (front' ++ restart offset m) (restart offset m)
          → Ends fuel
              (front' ++ restart offset m)
              (restart offset m)
              (olds ++ punched offset end e ∷ []))
      → punch_loop fuel offset end m (restart offset m) (olds ++ punched offset end e ∷ [])
        ≡ some (around offset end (front ++ e ∷ it), olds ++ inside offset end (front ++ e ∷ it))
  unfolding budget
  resume fuel front e it olds m o b h g s all =
      let part = punched offset end e in
      let split = restart-Split lo offset m s.ordered in
      let enough : Enough fuel m (restart offset m) = (
        omega (arith, s.size, h.0),
        omega (
          arith,
          s.size,
          h.0,
          h.1,
          length-Split m (restart offset m) split,
          ap (budget bound) (sym s.fewer),
        ),
      ) in
      from_Split fuel m (restart offset m) (olds ++ part ∷ []) all s.ordered split enough
      ∙ both s.same_around (
          append_assoc olds (part ∷ []) (inside offset end m)
          ∙ ap (λ x. olds ++ x ∷ inside offset end m)
              (middle_new offset end e (fits offset end hole lo front e it o b) hole g)
          ∙ ap (λ l. olds ++ l) s.more_inside)

  -- The rest of the loop, for any place of the iterator.
  abbrev Later : ℕ → Type 0
  Later fuel =
      (front it olds : List Extent)
      → IsOrdered lo (front ++ it)
      → AllBefore offset front
      → Enough fuel (front ++ it) it
      → Ends fuel (front ++ it) it olds

  module _ (fuel : ℕ) (front : List Extent) (e : Extent) (it olds : List Extent)
      (o : IsOrdered lo (front ++ e ∷ it)) (b : AllBefore offset front)
      (h : Enough (suc fuel) (front ++ e ∷ it) (e ∷ it)) (later : Later fuel) where
    abbrev m : List Extent
    m = front ++ e ∷ it

    abbrev goal : Option (List Extent × List Extent)
    goal = some (around offset end m, olds ++ inside offset end m)

    here : Fits e
    here = fits offset end hole lo front e it o b

    stop : logical_end e ≡ e.logical_offset + e.length
    stop = add32-eq e.logical_offset e.length here.1

    -- Where the extent is not cut on both sides.
    round_one_side :
        offset < e.logical_offset + e.length
        → e.logical_offset < end
        → (ltb e.logical_offset offset && ltb end (logical_end e)) ≡ false
        → (if ltb e.logical_offset offset
            then punch_loop fuel offset end
                (add_head offset e (rm e m))
                (restart offset (add_head offset e (rm e m)))
                (olds ++ punched offset end e ∷ [])
            else if ltb end (logical_end e)
            then some (add_tail_part end e (rm e m), olds ++ punched offset end e ∷ [])
            else punch_loop fuel offset end
                (rm e m)
                (restart offset (rm e m))
                (olds ++ punched offset end e ∷ []))
          ≡ goal
    round_one_side k l p =
        let in_hole : reaches offset end e ≡ true = ground (arith, k, l) in
        if-cases (λ r. r ≡ goal) (ltb e.logical_offset offset)
          (λ q.
            resume fuel front e it olds (add_head offset e (rm e m)) o b h in_hole
              (starts_before offset end hole lo front e it o b (ground (arith, q)) k
                (ground (arith, p, q, stop)))
              (λ front'.
                later front' (restart offset (add_head offset e (rm e m)))
                  (olds ++ punched offset end e ∷ [])))
          (λ q.
            if-cases (λ r. r ≡ goal) (ltb end (logical_end e))
              (λ r.
                let s =
                  ends_behind offset end hole lo front e it o b (ground (arith, q)) l
                    (ground (arith, r, stop)) in
                both s.0 (last_part olds e here s.1 in_hole))
              (λ r.
                resume fuel front e it olds (rm e m) o b h in_hole
                  (within offset end hole lo front e it o b (ground (arith, q)) l
                    (ground (arith, r, stop)))
                  (λ front'.
                    later front' (restart offset (rm e m)) (olds ++ punched offset end e ∷ []))))

    skipped : e.logical_offset + e.length ≤ offset → punch_loop fuel offset end m it olds ≡ goal
    skipped k =
        subst (λ n. Ends fuel n it olds) (snoc-++ front e it)
          (later (front ++ e ∷ []) it olds (subst (IsOrdered lo) (sym (snoc-++ front e it)) o)
            (set_skipped offset end hole lo front e it o b k)
            (subst (λ n. Enough fuel n it) (sym (snoc-++ front e it)) (h.0, omega (arith, h.1))))

    round : Ends (suc fuel) m (e ∷ it) olds
    unfolding punch_loop
    round =
        if-cases (λ r. r ≡ goal) (leb end e.logical_offset)
          (λ g.
            let none_left = behind_hole offset end hole lo front e it o b (ground (arith, g)) in
            both (sym none_left.0) (sym (ap (λ l. olds ++ l) none_left.1 ∙ append-nil olds)))
          (λ g.
            if-cases (λ r. r ≡ goal) (leb (logical_end e) offset)
              (λ k. skipped (ground (arith, k, stop)))
              (λ k.
                if-cases (λ r. r ≡ goal) (ltb e.logical_offset offset && ltb end (logical_end e))
                  (λ p.
                    let s =
                      spans offset end hole lo front e it o b (ground (arith, p))
                        (ground (arith, p, stop)) in
                    both s.0 (last_part olds e here s.1 (ground (arith, g, k, stop))))
                  (λ p. round_one_side (ground (arith, k, stop)) (ground (arith, g)) p)))

  punch_loop-ends : (fuel : ℕ) → Later fuel
  unfolding punch_loop inside around
  punch_loop-ends fuel front [] olds o b h =
      both (sym (around-before offset end front [] b))
        (sym (ap (λ l. olds ++ l) (inside-before offset end front [] b) ∙ append-nil olds))
  punch_loop-ends zero front (e ∷ it) olds o b h = absurd (omega (arith, h.1))
  punch_loop-ends (suc fuel) front (e ∷ it) olds o b h =
      round fuel front e it olds o b h (punch_loop-ends fuel)

budget_closed : (bound k : ℕ) → budget bound k ≡ k * (bound + 1)
unfolding budget
budget_closed bound zero = omega arith
budget_closed bound (suc k) = omega (arith, budget_closed bound k)

enough_rounds : (n k j : ℕ) → k ≤ n → j ≤ n → budget n k + j ≤ rounds n
enough_rounds n k j h l =
    omega (arith, budget_closed n k, mul-le-mul_right {m = k} {n = n} (n + 1) h, l)

-- For extents in order and a hole that is not empty and ends below 2^32, punch_hole ends, after at
-- most quadratically many rounds, with what lies around the hole, and old_extents with what lies in
-- it.
pub punch_hole-ends :
    (offset len : ℕ) (m : List Extent)
    → 0 < len
    → offset + len < 2 ^ 32
    → IsOrdered 0 m
    → punch_hole offset len m
      ≡ some (around offset (offset + len) m, inside offset (offset + len) m)
unfolding punch_hole
punch_hole-ends offset len m h k o =
    let end = offset + len in
    let hole : offset < end = omega (arith, h) in
    let n = length m in
    let split = restart-Split 0 offset m o in
    ap (λ e. punch_loop (rounds n) offset e m (restart offset m) [])
      (add64-eq offset len (omega (arith, k)))
    ∙ from_Split offset end hole 0 n (rounds n) m (restart offset m) []
        (λ front. punch_loop-ends offset end hole 0 n (rounds n) front (restart offset m) []) o
        split
        (
          omega arith,
          enough_rounds n (pending offset m) (length (restart offset m)) (pending-le offset m)
              (length-Split offset end hole 0 n m (restart offset m) split),
        )

-- What punch_hole does to each logical offset, under the same conditions: the set stays in order and
-- keeps every byte outside the hole and none in it, and old_extents has exactly those in the hole.
pub punch_hole_lem :
    (offset len : ℕ) (m : List Extent)
    → 0 < len
    → offset + len < 2 ^ 32
    → IsOrdered 0 m
    → (t olds : List Extent) × (punch_hole offset len m ≡ some (t, olds))
      × IsOrdered 0 t
      × ((x : ℕ)
          → find_byte x t ≡ (if leb offset x && ltb x (offset + len) then none else find_byte x m))
      × ((x : ℕ)
          → find_byte x olds
            ≡ (if leb offset x && ltb x (offset + len) then find_byte x m else none))
punch_hole_lem offset len m h k o =
    let end = offset + len in
    let hole : offset < end = omega (arith, h) in
    (
      around offset end m,
      inside offset end m,
      punch_hole-ends offset len m h k o,
      around-IsOrdered 0 offset end m hole o,
      λ x. find_byte-around x offset end m hole,
      λ x. find_byte-inside x offset end m hole,
    )
