-- ===== src/Bluefs/Fnode/Delta.antt =====
-- make_delta of bluefs/bluefs_types.cc and its replay in bluefs/bluefs.cc.
use cxxlab.Prelude.{
  ℕ, ◌+◌, ◌-◌, ◌^◌, ◌≤◌, ◌<◌, ◌≡◌, refl, List, [], ◌∷◌, some, arith, ltb, leb, if◌then◌else◌, add64,
  add64-eq, sub64-eq, All, ap, sym, ◌∙◌, if-cases, ◌*◌,
}
use mathlib.Core.Path.{subst}
use cxxlab.Bluefs.Fnode.{
  BluefsExtent, BluefsFnode, BluefsFnodeDelta, cut_front, delta_from, make_delta, replay_delta,
  claim_extents, copy_fnode, append_extent, merges,
}
use cxxlab.Bluefs.Fnode.Locate.{total, locate, Fits, IsValid, locate-++}
use cxxlab.Bluefs.Fnode.Append.{claim_extents-IsValid}

cut_front_lem :
    (skip : ℕ) (e : BluefsExtent)
    → Fits e
    → skip ≤ e.length
    → ((cut_front skip e).offset ≡ e.offset + skip)
      × ((cut_front skip e).length ≡ e.length - skip)
      × ((cut_front skip e).bdev ≡ e.bdev)
unfolding cut_front
cut_front_lem skip e g h =
    let o = add64-eq e.offset skip (omega (arith, g.0, h)) in
    let l = sub64-eq e.length skip h (omega (arith, g.1)) in
    (ground (arith, o), ground (arith, l, g.1), ground arith)

-- How far the committed bytes reach into an extent.
abbrev skipped : ℕ → ℕ → ℕ
skipped c pos = if ltb pos c then c - pos else 0

later : (es : List BluefsExtent) (a b : ℕ) → a ≡ b → locate es a ≡ locate es b
later es a b h = ap (locate es) h

locate-delta_from :
    (c pos : ℕ) (es : List BluefsExtent) (p : ℕ)
    → pos + total es < 2 ^ 64
    → All Fits es
    → locate (delta_from c pos es) p ≡ locate es ((c - pos) + p)
unfolding delta_from total locate
locate-delta_from c pos [] p h a = refl
locate-delta_from c pos (e ∷ es) p h a =
    let one = add64-eq pos e.length (omega (arith, h)) in
    let skip = skipped c pos in
    let keep = p - (e.length - skip) in
    ground (
      arith,
      one,
      ap (λ n. locate (delta_from c n es) p) one,
      ap (λ n. locate (delta_from c n es) keep) one,
      locate-delta_from c (pos + e.length) es p (omega (arith, h)) a.1,
      locate-delta_from c (pos + e.length) es keep (omega (arith, h)) a.1,
      cut_front_lem skip e a.0,
      later es (c - (pos + e.length) + p) (c - pos + p - e.length),
      later es (c - (pos + e.length) + keep) (c - pos + p - e.length),
    )

total-delta_from :
    (c pos : ℕ) (es : List BluefsExtent)
    → pos + total es < 2 ^ 64
    → All Fits es
    → total (delta_from c pos es) ≡ total es - (c - pos)
unfolding delta_from total
total-delta_from c pos [] h a = omega arith
total-delta_from c pos (e ∷ es) h a =
    let one = add64-eq pos e.length (omega (arith, h)) in
    let rest = total-delta_from c (pos + e.length) es (omega (arith, h)) a.1 in
    let moved = ap (λ n. total (delta_from c n es)) one in
    ground (arith, one, rest, moved, cut_front_lem (skipped c pos) e a.0)

delta_from-Fits :
    (c pos : ℕ) (es : List BluefsExtent)
    → pos + total es < 2 ^ 64
    → All Fits es
    → All Fits (delta_from c pos es)
unfolding delta_from total
delta_from-Fits c pos [] h a = a
delta_from-Fits c pos (e ∷ es) h a =
    let one = add64-eq pos e.length (omega (arith, h)) in
    let rest =
      subst (λ n. All Fits (delta_from c n es)) (sym one)
        (delta_from-Fits c (pos + e.length) es (omega (arith, h)) a.1) in
    let skip = skipped c pos in
    if-cases (All Fits) (leb (add64 pos e.length) c) (λ g. rest)
      (λ g.
        let s : skip ≤ e.length = ground (arith, g, one) in
        let cut = cut_front_lem skip e a.0 s in
        ((omega (arith, cut.0, cut.1, a.0, s), omega (arith, cut.1, a.0)), rest))

-- The file after a replay, with the test of the assertion.
replayed :
    (d : BluefsFnodeDelta) (g : BluefsFnode)
    → d.offset ≡ g.allocated
    → replay_delta d g
      ≡ some (claim_extents d.extents (record g { mtime = d.mtime; size = d.size }))
unfolding replay_delta
replayed d g h = ground (arith, h)

-- Take a valid file, and the valid file of the last commit: as long as the committed bytes, which
-- lie where they did. The replay of the delta succeeds and gives a valid file that is as long as the
-- first one and has every byte where that one has it.
pub replay_delta-make_delta :
    (f g : BluefsFnode)
    → IsValid f
    → IsValid g
    → f.allocated_committed ≤ f.allocated
    → g.allocated ≡ f.allocated_committed
    → ((p : ℕ) → p < f.allocated_committed → locate g.extents p ≡ locate f.extents p)
    → (t : BluefsFnode) × (replay_delta (make_delta f) g ≡ some t)
      × IsValid t
      × (t.allocated ≡ f.allocated)
      × ((p : ℕ) → locate t.extents p ≡ locate f.extents p)
unfolding make_delta
replay_delta-make_delta f g v w h k same =
    let c = f.allocated_committed in
    let ds = delta_from c 0 f.extents in
    let base = record g { mtime = f.mtime; size = f.size } in
    let valid : IsValid base = record {
      indexed = w.indexed;
      counted = w.counted;
      bounded = w.bounded;
      fitting = w.fitting;
    } in
    let n = total-delta_from c 0 f.extents (omega (arith, v.bounded)) v.fitting in
    let claim =
      claim_extents-IsValid ds base valid
        (delta_from-Fits c 0 f.extents (omega (arith, v.bounded)) v.fitting)
        (omega (arith, n, k, h, v.counted, v.bounded)) in
    (
      claim_extents ds base,
      replayed (make_delta f) g (sym k),
      claim.0,
      omega (arith, claim.1, n, k, h, v.counted),
      λ p.
          claim.2 p
          ∙ ground (
            arith,
            locate-++ g.extents ds p,
            w.counted,
            k,
            same p,
            locate-delta_from c 0 f.extents (p - total g.extents) (omega (arith, v.bounded))
                v.fitting,
            later f.extents (c - 0 + (p - total g.extents)) p,
          ),
    )

append_extent-allocated :
    (x : BluefsExtent) (f : BluefsFnode)
    → f.allocated + x.length < 2 ^ 64
    → (append_extent x f).allocated ≡ f.allocated + x.length
unfolding append_extent
append_extent-allocated x f h =
    if-cases (λ (r : BluefsFnode). r.allocated ≡ f.allocated + x.length) (merges x f.extents)
      (λ m. add64-eq f.allocated x.length h) (λ m. add64-eq f.allocated x.length h)

claimed_size :
    (ds : List BluefsExtent) (f : BluefsFnode)
    → f.allocated + total ds < 2 ^ 64
    → (claim_extents ds f).allocated ≡ f.allocated + total ds
unfolding claim_extents total
claimed_size [] f h = omega arith
claimed_size (x ∷ xs) f h =
    let one = append_extent-allocated x f (omega (arith, h)) in
    omega (arith, one, claimed_size xs (append_extent x f) (omega (arith, one, h)))

-- The copy of a valid file of less than 2^63 bytes says that twice as many are allocated.
pub copy_fnode-allocated :
    (f : BluefsFnode)
    → IsValid f
    → f.allocated < 2 ^ 63
    → (copy_fnode f).allocated ≡ 2 * f.allocated
unfolding copy_fnode
copy_fnode-allocated f v h =
    claimed_size f.extents (record f { extents = []; extents_index = [] })
      (omega (arith, h, v.counted))
    ∙ omega (arith, v.counted)
