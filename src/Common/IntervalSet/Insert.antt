-- ===== src/Common/IntervalSet/Insert.antt =====
-- `insert` of common/interval_set.h adds exactly the points of its range.
use cxxlab.Prelude.{
  inl, inr, Bool-cases, leb→le, leb→lt, ℕ, zero, suc, ap, ◌+◌, ◌-◌, ◌≤◌, ◌<◌, ◌≡◌, refl, false,
  ◌||◌, List, [], ◌∷◌, ◌++◌, arith, add64, sub64, add64-eq, sub64-eq, add64-sub64, leb, u64_mod,
  max, ◌==◌,
}
use cxxlab.Common.IntervalSet.{
  Interval, IntervalSet, Absorbed, Placed, lower, upper, absorb, place, insert,
}
use cxxlab.Common.IntervalSet.Cover.{
  Sep, in_range, contains, sum, IsValid, Sep-mono, Sep-append_mono, sum-lt, AllBelow,
  lower-AllBelow, lower-append-upper, upper-Sep, contains-append, sum-append,
}

in_range-max :
    (x off len b n : ℕ)
    → off ≤ b
    → b ≤ off + len
    → in_range x off (max len (b + n - off)) ≡ (in_range x off len || in_range x b n)
in_range-max x off len b n h k = ground arith

-- The loop of `insert`.
pub record AbsorbFacts (off len old : ℕ) (u : List Interval) (a : Absorbed) : Type 0 where
  pub fits : off + a.new_len < u64_mod
  pub longer : len ≤ a.new_len
  pub cover :
      (x : ℕ)
      → (in_range x off a.new_len || contains x a.rest) ≡ (in_range x off len || contains x u)
  pub after : Sep (off + a.new_len + 1) a.rest
  pub suffix : (b : ℕ) → Sep b u → Sep b a.rest
  pub erased : a.old_len + sum a.rest ≡ old + sum u

absorb_stop :
    (off len old : ℕ) (u : List Interval)
    → off + len < u64_mod
    → Sep off u
    → Sep (off + len + 1) u
    → AbsorbFacts off len old u (record { new_len = len; old_len = old; rest = u })
absorb_stop off len old u h s t = record {
  fits = h;
  longer = omega arith;
  cover = λ x. refl;
  after = t;
  suffix = λ b t. t;
  erased = refl;
}

absorb_near :
    (off len old : ℕ) (i : Interval) (m : List Interval) {a : Absorbed}
    → off ≤ i.start
    → i.start ≤ off + len
    → AbsorbFacts off (max len (i.start + i.len - off)) (old + i.len) m a
    → AbsorbFacts off len old (i ∷ m) a
absorb_near off len old i m {a} h k f = record {
  fits = f.fits;
  longer = omega (arith, f.longer);
  cover = λ x. ground (arith, f.cover x, in_range-max x off len i.start i.len h k);
  after = f.after;
  suffix = λ b t. f.suffix b (Sep-mono {lo = i.start + i.len + 1} m (omega arith) t.3);
  erased = omega (arith, f.erased);
}

pub absorb_lem :
    (off len old : ℕ) (u : List Interval)
    → off + len < u64_mod
    → Sep off u
    → old + sum u < u64_mod
    → AbsorbFacts off len old u (absorb off len old u)
unfolding absorb
absorb_lem off len old [] h s c = absorb_stop off len old [] h s tt
absorb_lem off len old (i ∷ m) h s c =
    let next =
      absorb_lem off (max len (i.start + i.len - off)) (old + i.len) m (omega arith)
        (Sep-mono {lo = i.start + i.len + 1} m (omega arith) s.3) (omega arith) in
    rw
      (
        add64-eq i.start i.len s.2,
        sub64-eq (i.start + i.len) off (omega arith) s.2,
        add64-eq old i.len (omega arith),
        add64-eq off len h,
      )
      (elim (Bool-cases (leb i.start (off + len))) [
        | inl near ↦ rw near (absorb_near off len old i m s.0 (leb→le _ _ near) next)
        | inr far ↦ rw far (
            absorb_stop off len old (i ∷ m) h s
              (let b = leb→lt i.start (off + len) far in (omega arith, s.1, s.2, s.3)))
      ])

-- The rest of `insert`.
pub record PlaceFacts (lo off len : ℕ) (l rest : List Interval) (p : Placed) : Type 0 where
  pub separate : Sep lo p.entries
  pub cover : (x : ℕ) → contains x p.entries ≡ (in_range x off len || contains x (l ++ rest))
  pub measure : sum p.entries + p.old_len ≡ sum (l ++ rest) + p.new_len

in_range-merge :
    (x off len a n : ℕ)
    → a < off
    → off ≤ a + n
    → in_range x a (max (off + len) (a + n) - a) ≡ (in_range x off len || in_range x a n)
in_range-merge x off len a n h k = ground arith

Sep-max :
    (off len : ℕ) (p : Interval) (rest : List Interval)
    → Sep (p.start + p.len + 1) rest
    → Sep (off + len + 1) rest
    → Sep (p.start + (max (off + len) (p.start + p.len) - p.start) + 1) rest
Sep-max off len p rest s t = elim (Bool-cases (leb (off + len) (p.start + p.len))) [
  | inl below ↦ Sep-mono {lo = p.start + p.len + 1} rest (ground arith) s
  | inr above ↦ Sep-mono {lo = off + len + 1} rest (ground arith) t
]

place_near :
    (lo off len : ℕ) (p : Interval) (rest : List Interval)
    → off ≤ p.start + p.len
    → 0 < len
    → off + len < u64_mod
    → p.start < off
    → Sep lo (p ∷ rest)
    → Sep (off + len + 1) rest
    → PlaceFacts lo off len (p ∷ []) rest (record {
      entries =
          record { start = p.start; len = sub64 (max (off + len) (p.start + p.len)) p.start }
          ∷ rest;
      new_len = sub64 (max (off + len) (p.start + p.len)) p.start;
      old_len = p.len;
    })
place_near lo off len p rest k z f b s t =
    rw (sub64-eq (max (off + len) (p.start + p.len)) p.start (omega arith) (omega arith)) (record {
      separate = (s.0, omega arith, omega arith, Sep-max off len p rest s.3 t);
      cover = λ x. ground (arith, in_range-merge x off len p.start p.len b k);
      measure = omega arith;
    })

pub place_lem :
    (lo off len : ℕ) (l rest : List Interval)
    → lo ≤ off
    → 0 < len
    → off + len < u64_mod
    → AllBelow off l
    → Sep lo (l ++ rest)
    → Sep (off + len + 1) rest
    → PlaceFacts lo off len l rest (place off len l rest)
unfolding place
place_lem lo off len [] rest h z f b s t = record {
  separate = (h, z, f, t);
  cover = λ x. refl;
  measure = omega arith;
}
place_lem lo off len (p ∷ []) rest h z f b s t =
    rw (add64-eq p.start p.len s.2, add64-eq off len f)
      (elim (Bool-cases (leb off (p.start + p.len))) [
        | inl near ↦ rw near (place_near lo off len p rest (leb→le _ _ near) z f b.0 s t)
        | inr far ↦
            let gap = leb→lt off (p.start + p.len) far in
            rw far (record {
              separate = (s.0, s.1, s.2, (omega arith, z, f, t));
              cover = λ x. ground arith;
              measure = omega arith;
            })
      ])
place_lem lo off len (p ∷ q ∷ ps) rest h z f b s t =
    let next = place_lem (p.start + p.len + 1) off len (q ∷ ps) rest (omega arith) z f b.1 s.3 t in
    record {
      separate = (s.0, s.1, s.2, next.separate);
      cover = λ x. ground (arith, next.cover x);
      measure = omega (arith, next.measure);
    }

-- The state before and after a call of `insert` that does something.
record InsertFacts (off len : ℕ) (s t : IntervalSet) : Type 0 where
  valid : IsValid t
  cover : (x : ℕ) → contains x t.m ≡ (in_range x off len || contains x s.m)

pos-ne-zero : (n : ℕ) → 0 < n → (n == 0) ≡ false
pos-ne-zero n h = ground arith

insert_pos :
    (off len : ℕ) (s : IntervalSet)
    → 0 < len
    → off + len < u64_mod
    → IsValid s
    → InsertFacts off len s (insert off len s)
unfolding insert add64
insert_pos off len s z f v =
    let l = lower off s.m in
    let u = upper off s.m in
    let parts : l ++ u ≡ s.m = lower-append-upper off s.m 0 v.separate in
    let ahead : Sep off u = upper-Sep off 0 s.m v.separate in
    let a = absorb_lem off len 0 u f ahead (omega (arith, sum-lt off u (omega arith) ahead)) in
    let r = (absorb off len 0 u).rest in
    let n = (absorb off len 0 u).new_len in
    let kept : Sep 0 (l ++ r) = Sep-append_mono l u r 0 a.suffix (rw parts v.separate) in
    let b =
      place_lem 0 off n l r (omega arith) (omega (arith, a.longer)) a.fits (lower-AllBelow off s.m)
        kept a.after in
    rw (pos-ne-zero len z) (record {
      valid = record {
        separate = b.separate;
        counted =
            (add64-sub64 s.total (place off n l r).new_len
              ((absorb off len 0 u).old_len + (place off n l r).old_len)
              (sum (place off n l r).entries)
              (omega (
                arith,
                v.counted,
                a.erased,
                b.measure,
                sum-append l r,
                sum-append l u,
                ap sum parts,
              ))
              (omega (arith, sum-lt 0 (place off n l r).entries (omega arith) b.separate)));
      };
      cover = λ x. ground (
        arith,
        a.cover x,
        b.cover x,
        contains-append x l r,
        contains-append x l u,
        ap (contains x) parts,
      );
    })

-- For a valid set and a range that ends below 2^64, `insert` keeps the set sorted, merged and with
-- the right total, and the points of the result are those of the set and those of the range.
pub insert_lem :
    (off len : ℕ) (s : IntervalSet)
    → off + len < u64_mod
    → IsValid s
    → IsValid (insert off len s)
      × ((x : ℕ) → contains x (insert off len s).m ≡ (in_range x off len || contains x s.m))
unfolding insert
insert_lem off zero s f v = (v, λ x. ground arith)
insert_lem off (suc n) s f v =
    let i = insert_pos off (suc n) s (omega arith) f v in (i.valid, i.cover)
