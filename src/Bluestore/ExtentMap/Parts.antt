-- ===== src/Bluestore/ExtentMap/Parts.antt =====
-- The extents before and behind a hole, and the parts that punch_hole of bluestore/extent_map.cc
-- stores.
use cxxlab.Prelude.{
  ℕ, ◌+◌, ◌-◌, ◌≤◌, ◌<◌, ◌≡◌, refl, suc, Bool, true, List, [], ◌∷◌, ◌++◌, arith, ltb, if◌then◌else◌,
  if-cases, add32-eq, ap, length,
}
use cxxlab.Bluestore.ExtentMap.{Extent, logical_end, new_extent, to_u32, punched}
use cxxlab.Bluestore.ExtentMap.Holes.{
  IsOrdered, head_part, tail_part, middle_part, Fits, reaches, cut, cons_if, around, inside,
}
use cxxlab.Bluestore.ExtentMap.Seek.{AllBefore}

module _ (offset end : ℕ) where
  pub around-before :
      (front it : List Extent)
      → AllBefore offset front
      → around offset end (front ++ it) ≡ front ++ around offset end it
  unfolding around
  around-before [] it b = refl
  around-before (e ∷ front) it b =
      if-cases (λ m. m ≡ e ∷ (front ++ around offset end it)) (reaches offset end e)
        (λ g. ground (arith, g, b.0)) (λ g. ap (λ m. e ∷ m) (around-before front it b.1))

  pub inside-before :
      (front it : List Extent)
      → AllBefore offset front
      → inside offset end (front ++ it) ≡ inside offset end it
  unfolding inside
  inside-before [] it b = refl
  inside-before (e ∷ front) it b =
      if-cases (λ m. m ≡ inside offset end it) (reaches offset end e) (λ g. ground (arith, g, b.0))
        (λ g. inside-before front it b.1)

  pub around-behind :
      (lo : ℕ) (m : List Extent) → end ≤ lo → IsOrdered lo m → around offset end m ≡ m
  unfolding around IsOrdered
  around-behind lo [] h o = refl
  around-behind lo (e ∷ m) h o =
      if-cases (λ l. l ≡ e ∷ m) (reaches offset end e) (λ g. ground (arith, g, h, o.0))
        (λ g.
          ap (λ l. e ∷ l)
            (around-behind (e.logical_offset + e.length) m (omega (arith, h, o.0)) o.4))

  pub inside-behind :
      (lo : ℕ) (m : List Extent) → end ≤ lo → IsOrdered lo m → inside offset end m ≡ []
  unfolding inside IsOrdered
  inside-behind lo [] h o = refl
  inside-behind lo (e ∷ m) h o =
      if-cases (λ l. l ≡ []) (reaches offset end e) (λ g. ground (arith, g, h, o.0))
        (λ g. inside-behind (e.logical_offset + e.length) m (omega (arith, h, o.0)) o.4)

module _ (offset : ℕ) where
  -- How many extents are not before the hole.
  unfoldable pub pending : List Extent → ℕ
  pending [] = 0
  pending (e ∷ m) = if ltb offset (e.logical_offset + e.length) then suc (pending m) else pending m

  pub pending-before :
      (front it : List Extent) → AllBefore offset front → pending (front ++ it) ≡ pending it
  unfolding pending
  pending-before [] it b = refl
  pending-before (e ∷ front) it b = ground (arith, b.0, pending-before front it b.1)

  pub pending-le : (m : List Extent) → pending m ≤ length m
  unfolding pending
  pending-le [] = omega arith
  pending-le (e ∷ m) = ground (arith, pending-le m)

-- The parts that the code stores are those of the reference.
module _ (offset end : ℕ) (e : Extent) (f : Fits e) where
  pub head_new :
      e.logical_offset < offset
      → offset ≤ e.logical_offset + e.length
      → new_extent e.logical_offset e.blob_offset (to_u32 (offset - e.logical_offset)) e.blob
        ≡ head_part offset e
  head_new h k = ground (arith, f)

  pub tail_new :
      e.logical_offset < end
      → end < e.logical_offset + e.length
      → new_extent end
          (to_u32 (e.blob_offset + (end - e.logical_offset)))
          (to_u32 (logical_end e - end))
          e.blob
        ≡ tail_part end e
  tail_new h k = ground (arith, f, add32-eq e.logical_offset e.length)

  pub middle_new :
      offset < end → reaches offset end e ≡ true → punched offset end e ≡ middle_part offset end e
  unfolding punched
  middle_new h g = ground (arith, f, g, add32-eq e.logical_offset e.length)

-- What is left of one extent, by where it lies.
module _ (offset end : ℕ) (e : Extent) (m : List Extent) where
  pub cut_spans :
      e.logical_offset < offset
      → offset < end
      → end < e.logical_offset + e.length
      → cut offset end e m ≡ head_part offset e ∷ tail_part end e ∷ m
  cut_spans h k l = ground (arith, h, k, l)

  pub cut_head :
      e.logical_offset < offset
      → offset < end
      → offset < e.logical_offset + e.length
      → e.logical_offset + e.length ≤ end
      → cut offset end e m ≡ head_part offset e ∷ m
  cut_head h k l p = ground (arith, h, k, l, p)

  pub cut_tail :
      offset ≤ e.logical_offset
      → e.logical_offset < end
      → end < e.logical_offset + e.length
      → cut offset end e m ≡ tail_part end e ∷ m
  cut_tail h k l = ground (arith, h, k, l)

  pub cut_all :
      offset ≤ e.logical_offset
      → e.logical_offset < end
      → 0 < e.length
      → e.logical_offset + e.length ≤ end
      → cut offset end e m ≡ m
  cut_all h k l p = ground (arith, h, k, l, p)

  pub cut_before : e.logical_offset + e.length ≤ offset → cut offset end e m ≡ e ∷ m
  cut_before h = ground (arith, h)

  pub inside_skip :
      e.logical_offset + e.length ≤ offset → inside offset end (e ∷ m) ≡ inside offset end m
  unfolding inside
  inside_skip h = ground (arith, h)

  pub pending_skip :
      e.logical_offset + e.length ≤ offset → pending offset (e ∷ m) ≡ pending offset m
  unfolding pending
  pending_skip h = ground (arith, h)

  pub cons_if-true :
      (b : Bool) → b ≡ true → cons_if b (middle_part offset end e) m ≡ middle_part offset end e ∷ m
  cons_if-true b h = ap (λ c. cons_if c (middle_part offset end e) m) h
