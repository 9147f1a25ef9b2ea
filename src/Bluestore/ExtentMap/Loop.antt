-- ===== src/Bluestore/ExtentMap/Loop.antt =====
-- The loop of punch_hole in bluestore/extent_map.cc: one lemma for each way a round ends.
use cxxlab.Prelude.{
  ℕ, ◌+◌, ◌-◌, ◌≤◌, ◌<◌, ◌≡◌, refl, suc, true, List, [], ◌∷◌, ◌++◌, arith, ap, sym, ◌∙◌, All,
  length, length-append,
}
use mathlib.Core.Path.{subst}
use cxxlab.Bluestore.ExtentMap.{Extent, insert, add, rm, add_head, add_tail_part}
use cxxlab.Bluestore.ExtentMap.Holes.{
  IsOrdered, IsOrdered-weaken, head_part, tail_part, middle_part, Fits, reaches, cut, cons_if,
  around, inside,
}
use cxxlab.Bluestore.ExtentMap.Seek.{AllBefore, ordered_behind, rm-++, StartsFrom, insert-++}
use cxxlab.Bluestore.ExtentMap.Parts.{
  around-before, inside-before, around-behind, inside-behind, pending, pending-before, head_new,
  tail_new, cut_spans, cut_head, cut_tail, cut_all, cons_if-true, cut_before, inside_skip,
  pending_skip,
}

pub snoc-++ :
    (front : List Extent) (e : Extent) (it : List Extent)
    → (front ++ e ∷ []) ++ it ≡ front ++ e ∷ it
snoc-++ [] e it = refl
snoc-++ (d ∷ front) e it = ap (λ m. d ∷ m) (snoc-++ front e it)

front_starts :
    (lo : ℕ) (front : List Extent) (e : Extent) (it : List Extent)
    → IsOrdered lo (front ++ e ∷ it)
    → All (λ d. d.logical_offset < e.logical_offset) front
unfolding IsOrdered
front_starts lo [] e it o = tt
front_starts lo (d ∷ front) e it o =
    let behind = ordered_behind (d.logical_offset + d.length) front e it o.4 in
    (omega (arith, behind.1, o.1), front_starts (d.logical_offset + d.length) front e it o.4)

All-snoc :
    (pos : ℕ) (front : List Extent) (x : Extent)
    → All (λ d. d.logical_offset < pos) front
    → x.logical_offset < pos
    → All (λ d. d.logical_offset < pos) (front ++ x ∷ [])
All-snoc pos [] x a h = (h, tt)
All-snoc pos (d ∷ front) x a h = (a.0, All-snoc pos front x a.1 h)

All-weaken :
    (a b : ℕ) (front : List Extent)
    → a ≤ b
    → All (λ d. d.logical_offset < a) front
    → All (λ d. d.logical_offset < b) front
All-weaken a b [] h p = tt
All-weaken a b (d ∷ front) h p = (omega (arith, h, p.0), All-weaken a b front h p.1)

StartsFrom-ordered :
    (lo pos : ℕ) (it : List Extent) → pos ≤ lo → IsOrdered lo it → StartsFrom pos it
unfolding IsOrdered
StartsFrom-ordered lo pos [] h o = tt
StartsFrom-ordered lo pos (e ∷ it) h o = omega (arith, h, o.0)

-- Extents in the order of a set, with one of them replaced.
replaced-IsOrdered :
    (lo : ℕ) (front : List Extent) (e : Extent) (it rest : List Extent)
    → IsOrdered lo (front ++ e ∷ it)
    → IsOrdered e.logical_offset rest
    → IsOrdered lo (front ++ rest)
unfolding IsOrdered
replaced-IsOrdered lo [] e it rest o r = IsOrdered-weaken lo e.logical_offset rest o.0 r
replaced-IsOrdered lo (d ∷ front) e it rest o r =
    (o.0, o.1, o.2, o.3, replaced-IsOrdered (d.logical_offset + d.length) front e it rest o.4 r)

module _ (offset end : ℕ) (hole : offset < end) (lo : ℕ) (front : List Extent) (e : Extent)
    (it : List Extent) (o : IsOrdered lo (front ++ e ∷ it)) (b : AllBefore offset front) where
  behind : IsOrdered e.logical_offset (e ∷ it)
  behind = (ordered_behind lo front e it o).0

  pub fits : Fits e
  unfolding IsOrdered
  fits = (behind.1, behind.2, behind.3)

  rest : IsOrdered (e.logical_offset + e.length) it
  unfolding IsOrdered
  rest = behind.4

  -- The set after `add_head` on the set without the extent.
  headed :
      e.logical_offset < offset
      → offset < e.logical_offset + e.length
      → add_head offset e (rm e (front ++ e ∷ it)) ≡ front ++ head_part offset e ∷ it
  unfolding add
  headed h k =
      ap (add_head offset e) (rm-++ lo front e it o)
      ∙ ap (λ x. insert x (front ++ it)) (head_new offset end e fits h (omega (arith, k)))
      ∙ insert-++ (head_part offset e) front it (omega (arith, h)) (front_starts lo front e it o) (
          StartsFrom-ordered (e.logical_offset + e.length)
            (e.logical_offset + (offset - e.logical_offset)) it (omega (arith, h, k)) rest)

  -- The set after the tail is added, behind what is left of the extent before the hole.
  tailed :
      (kept : List Extent)
      → All (λ d. d.logical_offset < end) kept
      → e.logical_offset < end
      → end < e.logical_offset + e.length
      → add_tail_part end e (kept ++ it) ≡ kept ++ tail_part end e ∷ it
  unfolding add
  tailed kept a h k =
      ap (λ x. insert x (kept ++ it)) (tail_new offset end e fits h k)
      ∙ insert-++ (tail_part end e) kept it (omega (arith, k)) a (
          StartsFrom-ordered (e.logical_offset + e.length)
            (end + (e.logical_offset + e.length - end)) it (omega (arith, k)) rest)

  -- What `around` and `inside` make of the whole set, by the extent at the iterator.
  pub whole_around :
      around offset end (front ++ e ∷ it) ≡ front ++ cut offset end e (around offset end it)
  unfolding around
  whole_around = around-before offset end front (e ∷ it) b

  whole_inside :
      inside offset end (front ++ e ∷ it)
      ≡ cons_if (reaches offset end e) (middle_part offset end e) (inside offset end it)
  unfolding inside
  whole_inside = inside-before offset end front (e ∷ it) b

  pub set_skipped : e.logical_offset + e.length ≤ offset → AllBefore offset (front ++ e ∷ [])
  set_skipped h = go front b
    where
      go : (l : List Extent) → AllBefore offset l → AllBefore offset (l ++ e ∷ [])
      go [] a = (h, tt)
      go (d ∷ l) a = (a.0, go l a.1)

  -- The extent and all behind it start behind the hole.
  pub behind_hole :
      end ≤ e.logical_offset
      → (around offset end (front ++ e ∷ it) ≡ front ++ e ∷ it)
        × (inside offset end (front ++ e ∷ it) ≡ [])
  behind_hole h = (
    around-before offset end front (e ∷ it) b
        ∙ ap (λ m. front ++ m) (around-behind offset end e.logical_offset (e ∷ it) h behind),
    inside-before offset end front (e ∷ it) b
        ∙ inside-behind offset end e.logical_offset (e ∷ it) h behind,
  )

  -- An extent that reaches into the hole, and none behind it that does.
  last_inside :
      reaches offset end e ≡ true
      → end ≤ e.logical_offset + e.length
      → inside offset end (front ++ e ∷ it) ≡ middle_part offset end e ∷ []
  last_inside g h =
      whole_inside
      ∙ cons_if-true offset end e (inside offset end it) (reaches offset end e) g
      ∙ ap (λ m. middle_part offset end e ∷ m)
          (inside-behind offset end (e.logical_offset + e.length) it h rest)

  last_around :
      end ≤ e.logical_offset + e.length
      → around offset end (front ++ e ∷ it) ≡ front ++ cut offset end e it
  last_around h =
      whole_around
      ∙ ap (λ m. front ++ cut offset end e m)
          (around-behind offset end (e.logical_offset + e.length) it h rest)

  starts_before_hole : e.logical_offset < end → All (λ d. d.logical_offset < end) front
  starts_before_hole h =
      All-weaken e.logical_offset end front (omega (arith, h)) (front_starts lo front e it o)

  -- The extent spans the hole.
  pub spans :
      e.logical_offset < offset
      → end < e.logical_offset + e.length
      → (add_tail_part end e (add_head offset e (rm e (front ++ e ∷ it)))
          ≡ around offset end (front ++ e ∷ it))
        × (inside offset end (front ++ e ∷ it) ≡ middle_part offset end e ∷ [])
  spans h k =
      let early : e.logical_offset < end = omega (arith, h, hole) in
      let head = head_part offset e in
      (
        ap (add_tail_part end e) (headed h (omega (arith, hole, k)) ∙ sym (snoc-++ front head it))
            ∙ tailed (front ++ head ∷ []) (All-snoc end front head (starts_before_hole early) early)
                early k
            ∙ snoc-++ front head (tail_part end e ∷ it)
            ∙ sym (
                last_around (omega (arith, k))
                ∙ ap (λ m. front ++ m) (cut_spans offset end e it h hole k)),
        last_inside (ground (arith, early, hole, k)) (omega (arith, k)),
      )

  -- The extent starts in the hole and ends behind it.
  pub ends_behind :
      offset ≤ e.logical_offset
      → e.logical_offset < end
      → end < e.logical_offset + e.length
      → (add_tail_part end e (rm e (front ++ e ∷ it)) ≡ around offset end (front ++ e ∷ it))
        × (inside offset end (front ++ e ∷ it) ≡ middle_part offset end e ∷ [])
  ends_behind h l k = (
    ap (add_tail_part end e) (rm-++ lo front e it o)
        ∙ tailed front (starts_before_hole l) l k
        ∙ sym (
            last_around (omega (arith, k)) ∙ ap (λ m. front ++ m) (cut_tail offset end e it h l k)),
    last_inside (ground (arith, h, l, k)) (omega (arith, k)),
  )

  -- What a set must satisfy to go on with, after a round that took a part out.
  pub record Shortened (m : List Extent) : Type 0 where
    pub ordered : IsOrdered lo m
    pub same_around : around offset end m ≡ around offset end (front ++ e ∷ it)
    pub more_inside :
        middle_part offset end e ∷ inside offset end m ≡ inside offset end (front ++ e ∷ it)
    pub fewer : suc (pending offset m) ≡ pending offset (front ++ e ∷ it)
    pub size : length m ≤ length (front ++ e ∷ it)

  pending_here :
      offset < e.logical_offset + e.length
      → pending offset (front ++ e ∷ it) ≡ suc (pending offset it)
  unfolding pending
  pending_here h = pending-before offset front (e ∷ it) b ∙ ground (arith, h)

  -- The extent starts before the hole and ends in it.
  pub starts_before :
      e.logical_offset < offset
      → offset < e.logical_offset + e.length
      → e.logical_offset + e.length ≤ end
      → Shortened (add_head offset e (rm e (front ++ e ∷ it)))
  unfolding IsOrdered around
  starts_before h l k =
      let head = head_part offset e in
      let g : reaches offset end e ≡ true = ground (arith, h, l, k) in
      let to_offset : e.logical_offset + (offset - e.logical_offset) ≡ offset = omega (arith, h) in
      subst Shortened (sym (headed h l)) (record {
        ordered = replaced-IsOrdered lo front e it (head ∷ it) o (
          omega arith,
          omega (arith, h),
          omega (arith, fits.1, l, to_offset),
          omega (arith, fits.2, l, h),
          IsOrdered-weaken (e.logical_offset + (offset - e.logical_offset))
              (e.logical_offset + e.length) it (omega (arith, to_offset, l)) rest,
        );
        same_around =
            around-before offset end front (head ∷ it) b
            ∙ ap (λ m. front ++ m)
                (cut_before offset end head (around offset end it) (omega (arith, to_offset))
                  ∙ sym (cut_head offset end e (around offset end it) h hole l k))
            ∙ sym whole_around;
        more_inside =
            ap (λ m. middle_part offset end e ∷ m)
              (inside-before offset end front (head ∷ it) b
                ∙ inside_skip offset end head it (omega (arith, to_offset)))
            ∙ sym (cons_if-true offset end e (inside offset end it) (reaches offset end e) g)
            ∙ sym whole_inside;
        fewer =
            ap suc (
              pending-before offset front (head ∷ it) b
              ∙ pending_skip offset end head it (omega (arith, to_offset)))
            ∙ sym (pending_here l);
        size = omega (arith, length-append front (head ∷ it), length-append front (e ∷ it));
      })

  -- The extent lies in the hole.
  pub within :
      offset ≤ e.logical_offset
      → e.logical_offset < end
      → e.logical_offset + e.length ≤ end
      → Shortened (rm e (front ++ e ∷ it))
  unfolding IsOrdered
  within h l k =
      let g : reaches offset end e ≡ true = ground (arith, h, l, fits.0) in
      subst Shortened (sym (rm-++ lo front e it o)) (record {
        ordered =
            replaced-IsOrdered lo front e it it o (
              IsOrdered-weaken e.logical_offset (e.logical_offset + e.length) it (omega arith)
                rest);
        same_around =
            around-before offset end front it b
            ∙ ap (λ m. front ++ m) (sym (cut_all offset end e (around offset end it) h l fits.0 k))
            ∙ sym whole_around;
        more_inside =
            ap (λ m. middle_part offset end e ∷ m) (inside-before offset end front it b)
            ∙ sym (cons_if-true offset end e (inside offset end it) (reaches offset end e) g)
            ∙ sym whole_inside;
        fewer =
            ap suc (pending-before offset front it b)
            ∙ sym (pending_here (omega (arith, h, fits.0)));
        size = omega (arith, length-append front it, length-append front (e ∷ it));
      })
