-- ===== src/Bluefs/Fnode/Seek.antt =====
-- seek of bluefs/bluefs_types.cc finds the extent of an offset, and pop_front_extent shifts the file.
use cxxlab.Prelude.{
  ℕ, ◌+◌, ◌-◌, ◌^◌, ◌≤◌, ◌<◌, ◌≡◌, refl, true, List, [], ◌∷◌, Option, none, some, arith, ltb, leb,
  if◌then◌else◌, sub64, sub64-eq, All, ap, ◌∙◌, suc, map, sym, Bool-cases, inl, inr, ltb→le,
}
use mathlib.Core.Path.{subst}
use cxxlab.Bluefs.Fnode.{
  BluefsExtent, BluefsFnode, last_start, or_here, offset_from, seek, no_extents, pop_front_extent,
  pop_front_of, tail,
}
use cxxlab.Bluefs.Fnode.Locate.{total, starts, locate, Fits, IsValid}

-- The extent that has an offset, by walking over the lengths, and the offset within it.
unfoldable pub find_at : ℕ → ℕ → List BluefsExtent → Option (ℕ × ℕ)
find_at i off [] = none
find_at i off (e ∷ es) =
    let rest = find_at (suc i) (off - e.length) es in
    if ltb off e.length then some (i, off) else rest

or_here-or_here : (a b : ℕ × ℕ) (o : Option (ℕ × ℕ)) → or_here a (or_here b o) ≡ or_here b o
or_here-or_here a b none = refl
or_here-or_here a b (some r) = refl

same_rest :
    (i off pos n : ℕ) (es : List BluefsExtent)
    → find_at i (off - (pos + n)) es ≡ find_at i (off - pos - n) es
same_rest i off pos n es = ap (λ m. find_at i m es) (omega arith)

last_start-find_at :
    (off i pos : ℕ) (es : List BluefsExtent)
    → pos ≤ off
    → off < pos + total es
    → off < 2 ^ 64
    → offset_from off (last_start off i (starts pos es)) ≡ find_at i (off - pos) es
unfolding last_start starts find_at total
last_start-find_at off i pos [] h k q = ground (arith, h, k)
last_start-find_at off i pos (e ∷ []) h k q = ground (arith, h, k, q, sub64-eq off pos)
last_start-find_at off i pos (e ∷ d ∷ es) h k q =
    let second = pos + e.length in
    elim (Bool-cases (ltb off second)) [
      | inl g ↦ ground (arith, g, h, k, q, sub64-eq off pos)
      | inr g ↦
          let next =
            last_start-find_at off (suc i) second (d ∷ es) (ltb→le off second g) (omega (arith, k))
              q in
          ground (
            arith,
            g,
            h,
            next,
            or_here-or_here (i, pos) (suc i, second)
                (last_start off (suc (suc i)) (starts (second + d.length) es)),
            same_rest (suc i) off pos e.length (d ∷ es),
          )
    ]

none_total : (es : List BluefsExtent) → no_extents es ≡ true → total es ≡ 0
unfolding total
none_total [] h = refl
none_total (e ∷ es) h = ground (arith, h)

minus_zero : (n : ℕ) → n - 0 ≡ n
minus_zero n = omega arith

zero_add : (n : ℕ) → 0 + n ≡ n + 0
zero_add n = omega arith

add_assoc : (a b c : ℕ) → a + b + c ≡ a + (b + c)
add_assoc a b c = omega arith

add_sub : (a b : ℕ) → a + b - b ≡ a
add_sub a b = omega arith

-- In a valid file, seek of an offset is the walk over the lengths of the extents: end() where the
-- file is not that long, else the extent with the offset in it.
pub seek-find_at :
    (off : ℕ) (f : BluefsFnode)
    → IsValid f
    → seek off f ≡ (if leb f.allocated off then none else find_at 0 off f.extents)
unfolding seek
seek-find_at off f v = ground (
  arith,
  none_total f.extents,
  v.counted,
  v.bounded,
  ap (λ l. offset_from off (last_start off 0 l)) v.indexed,
  last_start-find_at off 0 0 f.extents (omega arith),
  ap (λ m. find_at 0 m f.extents) (minus_zero off),
)

drops_front :
    (n pos : ℕ) (es : List BluefsExtent)
    → n + pos + total es < 2 ^ 64
    → map (λ i. sub64 i n) (starts (n + pos) es) ≡ starts pos es
unfolding starts total
drops_front n pos [] h = refl
drops_front n pos (e ∷ es) h =
    let head : sub64 (n + pos) n ≡ pos =
      sub64-eq (n + pos) n (omega arith) (omega (arith, h)) ∙ omega arith in
    let shift = ap (λ m. map (λ i. sub64 i n) (starts m es)) (add_assoc n pos e.length) in
    ap (λ m. m ∷ map (λ i. sub64 i n) (starts (n + pos + e.length) es)) head
    ∙ ap (λ l. pos ∷ l) (shift ∙ drops_front n (pos + e.length) es (omega (arith, h)))

popped :
    (e : BluefsExtent) (es : List BluefsExtent) (f : BluefsFnode)
    → IsValid f
    → f.extents ≡ e ∷ es
    → IsValid (pop_front_of (e ∷ es) f)
unfolding starts total
popped e es f v h =
    let size = v.counted ∙ ap total h in
    let bound : e.length + 0 + total es < 2 ^ 64 = omega (arith, v.bounded, ap total h) in
    record {
      indexed =
          ap (λ l. map (λ i. sub64 i e.length) (tail l)) (v.indexed ∙ ap (starts 0) h)
          ∙ ap (λ m. map (λ i. sub64 i e.length) (starts m es)) (zero_add e.length)
          ∙ drops_front e.length 0 es bound;
      counted =
          sub64-eq f.allocated e.length (omega (arith, size))
            (omega (arith, size, v.counted, v.bounded))
          ∙ omega (arith, size);
      bounded = omega (arith, v.bounded, ap total h);
      fitting = (subst (All Fits) h v.fitting).1;
    }

-- Without its first extent a valid file is valid, and each byte lies where the one that many bytes
-- further on was.
pub pop_front_extent-IsValid :
    (e : BluefsExtent) (es : List BluefsExtent) (f : BluefsFnode)
    → IsValid f
    → f.extents ≡ e ∷ es
    → IsValid (pop_front_extent f)
      × ((p : ℕ) → locate (pop_front_extent f).extents p ≡ locate f.extents (p + e.length))
unfolding pop_front_extent locate
pop_front_extent-IsValid e es f v h =
    let same = ap (λ l. pop_front_of l f) h in
    (
      subst IsValid (sym same) (popped e es f v h),
      λ p.
          ap (λ g. locate g.extents p) same
          ∙ ground (
            arith,
            ap (λ m. locate es m) (add_sub p e.length),
            ap (λ l. locate l (p + e.length)) h,
          ),
    )
