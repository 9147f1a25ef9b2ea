-- ===== src/Bluefs/Fnode/Append.antt =====
-- append_extent of bluefs/bluefs_types.h, with and without a merge, and pop_front_extent.
use cxxlab.Prelude.{
  ℕ, ◌+◌, ◌-◌, ◌^◌, ◌<◌, ◌≡◌, refl, true, List, [], ◌∷◌, ◌++◌, arith, add64-eq, add32-eq, All, ap,
  sym, ◌∙◌, if-cases,
}
use cxxlab.Bluefs.Fnode.{
  BluefsExtent, BluefsFnode, continues, merges, extend_back, append_extent, claim_extents,
}
use cxxlab.Bluefs.Fnode.Locate.{
  total, starts, locate, Fits, IsValid, total-++, starts-++, locate-++, locate_later,
}

-- What the test for a merge says, for extents that fit.
continues_iff :
    (e x : BluefsExtent)
    → Fits e
    → Fits x
    → continues e x ≡ true
    → (x.offset ≡ e.offset + e.length) × (e.bdev ≡ x.bdev) × (e.length + x.length < 2 ^ 32 - 1)
unfolding continues
continues_iff e x f g h =
    let a = add64-eq e.offset e.length f.0 in
    let b = add64-eq e.length x.length (omega (arith, f.1, g.1)) in
    (ground (arith, h, a), ground (arith, h), ground (arith, h, b))

total-extend_back :
    (x : BluefsExtent) (es : List BluefsExtent)
    → Fits x
    → All Fits es
    → merges x es ≡ true
    → total (extend_back x.length es) ≡ total es + x.length
unfolding total extend_back merges
total-extend_back x [] g a h = ground (arith, h)
total-extend_back x (e ∷ []) g a h =
    let c = continues_iff e x a.0 g h in
    omega (arith, add32-eq e.length x.length (omega (arith, c.2)))
total-extend_back x (e ∷ f ∷ es) g a h = omega (arith, total-extend_back x (f ∷ es) g a.1 h)

starts-extend_back :
    (n pos : ℕ) (es : List BluefsExtent) → starts pos (extend_back n es) ≡ starts pos es
unfolding starts extend_back
starts-extend_back n pos [] = refl
starts-extend_back n pos (e ∷ []) = refl
starts-extend_back n pos (e ∷ f ∷ es) =
    ap (λ l. pos ∷ l) (starts-extend_back n (pos + e.length) (f ∷ es))

extend_back-Fits :
    (x : BluefsExtent) (es : List BluefsExtent)
    → Fits x
    → All Fits es
    → merges x es ≡ true
    → All Fits (extend_back x.length es)
unfolding extend_back merges
extend_back-Fits x [] g a h = a
extend_back-Fits x (e ∷ []) g a h =
    let c = continues_iff e x a.0 g h in
    let s = add32-eq e.length x.length (omega (arith, c.2)) in
    ((omega (arith, s, c.0, g.0), omega (arith, s, c.2)), a.1)
extend_back-Fits x (e ∷ f ∷ es) g a h = (a.0, extend_back-Fits x (f ∷ es) g a.1 h)

locate-extend_back :
    (x : BluefsExtent) (es : List BluefsExtent) (p : ℕ)
    → Fits x
    → All Fits es
    → merges x es ≡ true
    → locate (extend_back x.length es) p ≡ locate (es ++ x ∷ []) p
unfolding locate extend_back merges
locate-extend_back x [] p g a h = ground (arith, h)
locate-extend_back x (e ∷ []) p g a h =
    let c = continues_iff e x a.0 g h in
    ground (arith, add32-eq e.length x.length (omega (arith, c.2)), c.0, c.1, c.2)
locate-extend_back x (e ∷ f ∷ es) p g a h =
    ground (arith, locate-extend_back x (f ∷ es) (p - e.length) g a.1 h)

All-++ :
    (es : List BluefsExtent) (x : BluefsExtent) → All Fits es → Fits x → All Fits (es ++ x ∷ [])
All-++ [] x a g = (g, tt)
All-++ (e ∷ es) x a g = (a.0, All-++ es x a.1 g)

-- Appending to a valid file an extent that fits, so that the size stays below 2^64, gives a valid
-- file, merged or not, and its bytes lie where those of the old extents and then the new one do.
pub append_extent-IsValid :
    (x : BluefsExtent) (f : BluefsFnode)
    → IsValid f
    → Fits x
    → f.allocated + x.length < 2 ^ 64
    → IsValid (append_extent x f)
      × ((append_extent x f).allocated ≡ f.allocated + x.length)
      × ((p : ℕ) → locate (append_extent x f).extents p ≡ locate (f.extents ++ x ∷ []) p)
unfolding append_extent total
append_extent-IsValid x f v g h =
    let size = add64-eq f.allocated x.length h in
    if-cases
      (λ r.
        IsValid r
        × (r.allocated ≡ f.allocated + x.length)
        × ((p : ℕ) → locate r.extents p ≡ locate (f.extents ++ x ∷ []) p))
      (merges x f.extents)
      (λ m.
        let t = total-extend_back x f.extents g v.fitting m in
        (
          record {
            indexed = v.indexed ∙ sym (starts-extend_back x.length 0 f.extents);
            counted = omega (arith, size, v.counted, t);
            bounded = omega (arith, h, v.counted, t);
            fitting = extend_back-Fits x f.extents g v.fitting m;
          },
          size,
          λ p. locate-extend_back x f.extents p g v.fitting m,
        ))
      (λ m.
        let t = total-++ f.extents (x ∷ []) in
        (
          record {
            indexed =
                ap (λ l. l ++ f.allocated ∷ []) v.indexed
                ∙ ap (λ n. starts 0 f.extents ++ n ∷ []) (omega (arith, v.counted))
                ∙ sym (starts-++ 0 f.extents x);
            counted = omega (arith, size, v.counted, t);
            bounded = omega (arith, h, v.counted, t);
            fitting = All-++ f.extents x v.fitting g;
          },
          size,
          λ p. refl,
        ))

++-nil : (es : List BluefsExtent) → es ++ [] ≡ es
++-nil [] = refl
++-nil (e ∷ es) = ap (λ l. e ∷ l) (++-nil es)

total_of :
    (x : BluefsExtent) (f : BluefsFnode)
    → IsValid f
    → IsValid (append_extent x f)
    → (append_extent x f).allocated ≡ f.allocated + x.length
    → total (append_extent x f).extents ≡ total f.extents + x.length
total_of x f v w h = omega (arith, v.counted, w.counted, h)

claimed :
    (x : BluefsExtent) (ds : List BluefsExtent) (f : BluefsFnode) (es : List BluefsExtent) (p : ℕ)
    → ((q : ℕ) → locate es q ≡ locate (f.extents ++ x ∷ []) q)
    → total es ≡ total f.extents + x.length
    → locate (es ++ ds) p ≡ locate (f.extents ++ x ∷ ds) p
unfolding locate
claimed x ds f es p same t = ground (
  arith,
  same p,
  t,
  locate-++ es ds p,
  locate-++ f.extents (x ∷ []) p,
  locate-++ f.extents (x ∷ ds) p,
  ap (λ n. locate ds (p - n)) t,
  locate_later ds p (total f.extents) x.length,
)

-- What claim_extents leaves: the bytes of the old extents, then those of the new ones.
pub claim_extents-IsValid :
    (ds : List BluefsExtent) (f : BluefsFnode)
    → IsValid f
    → All Fits ds
    → f.allocated + total ds < 2 ^ 64
    → IsValid (claim_extents ds f)
      × ((claim_extents ds f).allocated ≡ f.allocated + total ds)
      × ((p : ℕ) → locate (claim_extents ds f).extents p ≡ locate (f.extents ++ ds) p)
unfolding claim_extents total
claim_extents-IsValid [] f v a h =
    (v, omega arith, λ p. ap (λ l. locate l p) (sym (++-nil f.extents)))
claim_extents-IsValid (x ∷ ds) f v a h =
    let one = append_extent-IsValid x f v a.0 (omega (arith, h)) in
    let rest = claim_extents-IsValid ds (append_extent x f) one.0 a.1 (omega (arith, h, one.1)) in
    (
      rest.0,
      omega (arith, rest.1, one.1),
      λ p.
          rest.2 p
          ∙ claimed x ds f (append_extent x f).extents p one.2 (total_of x f v one.0 one.1),
    )
