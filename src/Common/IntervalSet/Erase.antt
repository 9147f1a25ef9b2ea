-- ===== src/Common/IntervalSet/Erase.antt =====
-- `erase` of common/interval_set.h takes away exactly the points of its range.
use cxxlab.Prelude.{
  inl, inr, Bool-cases, ltb→lt, ltb→le, ℕ, zero, suc, ap, ◌+◌, ◌-◌, ◌≤◌, ◌<◌, ◌≡◌, refl, false, not,
  ◌&&◌, List, [], ◌∷◌, ◌++◌, arith, add64-eq, sub64-eq, add64-sub64_small, ltb, leb, u64_mod, ◌==◌,
}
use cxxlab.Common.IntervalSet.{Interval, IntervalSet, Cut, lower, upper, cut_left, cut_right, erase}
use cxxlab.Common.IntervalSet.Cover.{
  Sep, in_range, contains, sum, IsValid, Sep-mono, sum-lt, AllBelow, lower-AllBelow,
  lower-append-upper, upper-Sep, contains-append, sum-append, contains-ge,
}

-- The part of `erase` on the entry before the iterator; `r` is what follows.
record LeftFacts (lo off len : ℕ) (l u r : List Interval) (c : Cut) : Type 0 where
  separate : Sep lo (c.kept ++ r)
  cover : (x : ℕ) → contains x c.kept ≡ (contains x l && not (in_range x off len))
  measure : sum c.kept + c.old_len ≡ sum l + c.new_len
  smaller : c.new_len ≤ c.old_len
  bounded : c.old_len ≤ sum l

cut_left_last :
    (lo off len : ℕ) (p : Interval) (u r : List Interval)
    → 0 < len
    → off + len < u64_mod
    → p.start < off
    → Sep lo (p ∷ u)
    → ((b : ℕ) → Sep b u → Sep b r)
    → LeftFacts lo off len (p ∷ []) u r (cut_left off len (p ∷ []))
unfolding cut_left
cut_left_last lo off len p u r z f b s keep =
    let after : Sep (p.start + p.len + 1) r = keep (p.start + p.len + 1) s.3 in
    rw (add64-eq p.start p.len s.2, add64-eq off len f)
      (elim (Bool-cases (ltb off (p.start + p.len))) [
        | inl over ↦
            let h = ltb→lt off (p.start + p.len) over in
            rw (over, sub64-eq off p.start (omega arith) (omega arith))
              (elim (Bool-cases (ltb (off + len) (p.start + p.len))) [
                | inl beyond ↦
                    let k = ltb→lt (off + len) (p.start + p.len) beyond in
                    rw
                      (
                        beyond,
                        sub64-eq (p.start + p.len) (off + len) (omega arith) s.2,
                        add64-eq (off - p.start) (p.start + p.len - (off + len)) (omega arith),
                      )
                      (record {
                        separate = (
                          s.0,
                          omega arith,
                          omega arith,
                          (
                            omega arith,
                            omega arith,
                            omega arith,
                            Sep-mono {lo = p.start + p.len + 1} r (omega arith) after,
                          ),
                        );
                        cover = λ x. ground arith;
                        measure = omega arith;
                        smaller = omega arith;
                        bounded = omega arith;
                      })
                | inr within ↦
                    let k = ltb→le (off + len) (p.start + p.len) within in
                    rw within (record {
                      separate = (
                        s.0,
                        omega arith,
                        omega arith,
                        Sep-mono {lo = p.start + p.len + 1} r (omega arith) after,
                      );
                      cover = λ x. ground arith;
                      measure = omega arith;
                      smaller = omega arith;
                      bounded = omega arith;
                    })
              ])
        | inr clear ↦
            let h = ltb→le off (p.start + p.len) clear in
            rw clear (record {
              separate = (s.0, s.1, s.2, after);
              cover = λ x. ground arith;
              measure = omega arith;
              smaller = omega arith;
              bounded = omega arith;
            })
      ])

cut_left_lem :
    (lo off len : ℕ) (l u r : List Interval)
    → 0 < len
    → off + len < u64_mod
    → AllBelow off l
    → Sep lo (l ++ u)
    → ((b : ℕ) → Sep b u → Sep b r)
    → LeftFacts lo off len l u r (cut_left off len l)
unfolding cut_left
cut_left_lem lo off len [] u r z f b s keep = record {
  separate = keep lo s;
  cover = λ x. refl;
  measure = refl;
  smaller = omega arith;
  bounded = omega arith;
}
cut_left_lem lo off len (p ∷ []) u r z f b s keep = cut_left_last lo off len p u r z f b.0 s keep
cut_left_lem lo off len (p ∷ q ∷ ps) u r z f b s keep =
    let next = cut_left_lem (p.start + p.len + 1) off len (q ∷ ps) u r z f b.1 s.3 keep in
    record {
      separate = (s.0, s.1, s.2, next.separate);
      cover = λ x. ground (arith, next.cover x);
      measure = omega (arith, next.measure);
      smaller = next.smaller;
      bounded = omega (arith, next.bounded);
    }

-- The loop of `erase`.
record RightFacts (end old new : ℕ) (m : List Interval) (c : Cut) : Type 0 where
  separate : (b : ℕ) → Sep b m → Sep b c.kept
  cover : (x : ℕ) → contains x c.kept ≡ (contains x m && leb end x)
  measure : sum c.kept + c.old_len + new ≡ sum m + old + c.new_len
  bounded : c.old_len ≤ old + sum m

all_after :
    (end b x : ℕ) (m : List Interval)
    → end ≤ b
    → Sep b m
    → contains x m ≡ (contains x m && leb end x)
all_after end b x m h s = ground (arith, contains-ge b x m s)

cut_right_lem :
    (lo end old new : ℕ) (m : List Interval)
    → Sep lo m
    → end < u64_mod
    → old + sum m < u64_mod
    → new + sum m < u64_mod
    → RightFacts end old new m (cut_right end old new m)
unfolding cut_right
cut_right_lem lo end old new [] s h p q = record {
  separate = λ b t. t;
  cover = λ x. refl;
  measure = omega arith;
  bounded = omega arith;
}
cut_right_lem lo end old new (i ∷ m) s h p q =
    let next =
      cut_right_lem (i.start + i.len + 1) end (old + i.len) new m s.3 h (omega arith)
        (omega arith) in
    rw (add64-eq i.start i.len s.2, add64-eq old i.len (omega arith))
      (elim (Bool-cases (ltb i.start end)) [
        | inl hit ↦
            let low = ltb→lt i.start end hit in
            rw hit (elim (Bool-cases (ltb end (i.start + i.len))) [
              | inl beyond ↦
                  let k = ltb→lt end (i.start + i.len) beyond in
                  rw
                    (
                      beyond,
                      sub64-eq (i.start + i.len) end (omega arith) s.2,
                      add64-eq new (i.start + i.len - end) (omega arith),
                    )
                    (record {
                      separate = λ b t. (
                        omega arith,
                        omega arith,
                        omega arith,
                        Sep-mono {lo = i.start + i.len + 1} m (omega arith) t.3,
                      );
                      cover = λ x.
                          ground (arith, all_after end (i.start + i.len + 1) x m (omega arith) s.3);
                      measure = omega arith;
                      bounded = omega arith;
                    })
              | inr within ↦
                  let k = ltb→le end (i.start + i.len) within in
                  rw within (record {
                    separate = λ b t.
                        next.separate b (Sep-mono {lo = i.start + i.len + 1} m (omega arith) t.3);
                    cover = λ x. ground (arith, next.cover x);
                    measure = omega (arith, next.measure);
                    bounded = omega (arith, next.bounded);
                  })
            ])
        | inr clear ↦ rw clear (record {
          separate = λ b t. t;
          cover = λ x.
              all_after end i.start x (i ∷ m) (ltb→le i.start end clear)
                (omega arith, s.1, s.2, s.3);
          measure = omega arith;
          bounded = omega arith;
        })
      ])

record EraseFacts (off len : ℕ) (s t : IntervalSet) : Type 0 where
  valid : IsValid t
  cover : (x : ℕ) → contains x t.m ≡ (contains x s.m && not (in_range x off len))

pos-ne-zero : (n : ℕ) → 0 < n → (n == 0) ≡ false
pos-ne-zero n h = ground arith

erase_pos :
    (off len : ℕ) (s : IntervalSet)
    → 0 < len
    → off + len < u64_mod
    → IsValid s
    → EraseFacts off len s (erase off len s)
unfolding erase
erase_pos off len s z f v =
    let l = lower off s.m in
    let u = upper off s.m in
    let parts : l ++ u ≡ s.m = lower-append-upper off s.m 0 v.separate in
    let whole : Sep 0 (l ++ u) = rw parts v.separate in
    let ahead : Sep off u = upper-Sep off 0 s.m v.separate in
    let bound = sum-lt 0 (l ++ u) (omega arith) whole in
    let both = sum-append l u in
    let c = cut_left off len l in
    let a = cut_left_lem 0 off len l u u z f (lower-AllBelow off s.m) whole (λ b t. t) in
    let b =
      cut_right_lem off (off + len) c.old_len c.new_len u ahead f (omega (arith, a.bounded))
        (omega (arith, a.bounded, a.smaller)) in
    let r = cut_right (off + len) c.old_len c.new_len u in
    let d = cut_left_lem 0 off len l u r.kept z f (lower-AllBelow off s.m) whole b.separate in
    let after = sum-lt 0 (c.kept ++ r.kept) (omega arith) d.separate in
    rw (pos-ne-zero len z, add64-eq off len f)
      (record {
        valid = record {
          separate = d.separate;
          counted =
              add64-sub64_small s.total r.new_len r.old_len (sum (c.kept ++ r.kept))
                (omega
                  (arith, v.counted, a.measure, b.measure, sum-append c.kept r.kept, ap sum parts))
                (omega arith) (omega (arith, a.bounded, b.bounded));
        };
        cover = λ x. ground (
          arith,
          d.cover x,
          b.cover x,
          contains-append x c.kept r.kept,
          contains-append x l u,
          ap (contains x) parts,
          contains-ge off x u ahead,
        );
      })

-- For a valid set and a range that ends below 2^64, `erase` keeps the set sorted and separate and
-- its total right, and the points of the result are those of the set outside the range.
pub erase_lem :
    (off len : ℕ) (s : IntervalSet)
    → off + len < u64_mod
    → IsValid s
    → IsValid (erase off len s)
      × ((x : ℕ) → contains x (erase off len s).m ≡ (contains x s.m && not (in_range x off len)))
unfolding erase
erase_lem off zero s f v = (v, λ x. ground arith)
erase_lem off (suc n) s f v =
    let e = erase_pos off (suc n) s (omega arith) f v in (e.valid, e.cover)
