-- ===== src/Bluefs/Fnode/Locate.antt =====
-- Where the bytes of a file lie, by its extents alone, and what a well-formed file of
-- bluefs/bluefs_types.h is.
use cxxlab.Prelude.{
  ℕ, ◌+◌, ◌-◌, ◌^◌, ◌<◌, ◌≡◌, refl, List, [], ◌∷◌, ◌++◌, Option, none, some, arith, ltb,
  if◌then◌else◌, add64-eq, All, ap, ◌∙◌,
}
use cxxlab.Bluefs.Fnode.{BluefsExtent, BluefsFnode, index_from, recalc_allocated}

unfoldable pub total : List BluefsExtent → ℕ
total [] = 0
total (e ∷ es) = e.length + total es

-- The positions where the extents start, from that of the first.
unfoldable pub starts : ℕ → List BluefsExtent → List ℕ
starts pos [] = []
starts pos (e ∷ es) = pos ∷ starts (pos + e.length) es

-- The device and the offset on it of one byte of the file.
unfoldable pub locate : List BluefsExtent → ℕ → Option (ℕ × ℕ)
locate [] p = none
locate (e ∷ es) p =
    let rest = locate es (p - e.length) in
    if ltb p e.length then some (e.bdev, e.offset + p) else rest

abbrev pub Fits : BluefsExtent → Type 0
Fits e = (e.offset + e.length < 2 ^ 64) × (e.length < 2 ^ 32)

pub record IsValid (f : BluefsFnode) : Type 0 where
  pub indexed : f.extents_index ≡ starts 0 f.extents
  pub counted : f.allocated ≡ total f.extents
  pub bounded : total f.extents < 2 ^ 64
  pub fitting : All Fits f.extents

pub index_from-starts :
    (pos : ℕ) (es : List BluefsExtent)
    → pos + total es < 2 ^ 64
    → (index_from pos es).0 ≡ starts pos es
unfolding index_from starts total
index_from-starts pos [] h = refl
index_from-starts pos (e ∷ es) h =
    let one = add64-eq pos e.length (omega (arith, h)) in
    ap (λ l. pos ∷ l)
      (ap (λ n. (index_from n es).0) one ∙ index_from-starts (pos + e.length) es (omega (arith, h)))

pub index_from-total :
    (pos : ℕ) (es : List BluefsExtent)
    → pos + total es < 2 ^ 64
    → (index_from pos es).1 ≡ pos + total es
unfolding index_from total
index_from-total pos [] h = omega arith
index_from-total pos (e ∷ es) h =
    let one = add64-eq pos e.length (omega (arith, h)) in
    let next = index_from-total (pos + e.length) es (omega (arith, h)) in
    ap (λ n. (index_from n es).1) one ∙ omega (arith, next)

-- For extents that fit the device and the 64-bit sizes, the index and the size that recalc_allocated
-- computes after a decode make the file valid.
pub recalc_allocated-IsValid :
    (f : BluefsFnode) → total f.extents < 2 ^ 64 → All Fits f.extents → IsValid (recalc_allocated f)
unfolding recalc_allocated
recalc_allocated-IsValid f h a = record {
  indexed = index_from-starts 0 f.extents (omega (arith, h));
  counted = index_from-total 0 f.extents (omega (arith, h)) ∙ omega arith;
  bounded = h;
  fitting = a;
}

pub total-++ : (es ds : List BluefsExtent) → total (es ++ ds) ≡ total es + total ds
unfolding total
total-++ [] ds = omega arith
total-++ (e ∷ es) ds = omega (arith, total-++ es ds)

pub starts-++ :
    (pos : ℕ) (es : List BluefsExtent) (x : BluefsExtent)
    → starts pos (es ++ x ∷ []) ≡ starts pos es ++ (pos + total es) ∷ []
unfolding starts total
starts-++ pos [] x = ap (λ n. n ∷ []) (omega arith)
starts-++ pos (e ∷ es) x =
    ap (λ l. pos ∷ l)
      (starts-++ (pos + e.length) es x
        ∙ ap (λ n. starts (pos + e.length) es ++ n ∷ []) (omega arith))

minus_none : (ds : List BluefsExtent) (p : ℕ) → locate ds p ≡ locate ds (p - 0)
minus_none ds p = ap (locate ds) (omega arith)

pub locate_later :
    (ds : List BluefsExtent) (p n t : ℕ) → locate ds (p - n - t) ≡ locate ds (p - (n + t))
locate_later ds p n t = ap (locate ds) (omega arith)

pub locate-++ :
    (es ds : List BluefsExtent) (p : ℕ)
    → locate (es ++ ds) p ≡ (if ltb p (total es) then locate es p else locate ds (p - total es))
unfolding locate total
locate-++ [] ds p = ground (arith, minus_none ds p)
locate-++ (e ∷ es) ds p =
    ground (arith, locate-++ es ds (p - e.length), locate_later ds p e.length (total es))
