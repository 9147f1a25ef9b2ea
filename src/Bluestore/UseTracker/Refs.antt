-- ===== src/Bluestore/UseTracker/Refs.antt =====
-- bluestore/bluestore_types.cc, bluestore_blob_use_tracker_t: get and put against the range they count.
use cxxlab.Prelude.{
  ℕ, ◌+◌, ◌-◌, ◌*◌, ◌/◌, ◌%◌, ◌^◌, zero, suc, min, ◌≤◌, ◌<◌, ◌≡◌, ◌≢◌, refl, sym, ap, ◌∙◌, Bool,
  true, false, List, [], ◌∷◌, some, ltb, leb, ◌==◌, if◌then◌else◌, add32, add32-eq, arith, inl, inr,
  Bool-cases, ltb→lt, ltb→le,
}
use native.Mathlib.Nat.{div-add-mod', mod-lt}
use cxxlab.Bluestore.UseTracker.{
  get_loop, chunk, set_bytes, bytes_at, PutState, put_unit, put_loop, release_unit, all_zero,
}
use cxxlab.Bluestore.UseTracker.Ranges.{
  on_range, on_range-unit, on_range-join, on_range-empty, Each, Each-unit, Each-rest, plus, minus,
  HasRoom, Covers, overlap,
}

-- The round at o: the unit it is in starts at o / au * au, and the round ends with it or the range.
record Round (au o e : ℕ) : Type 0 where
  unit_end : ℕ
  chunk_eq : o + chunk au o e ≡ min unit_end e
  from_unit : o / au * au ≤ o
  after : o < unit_end
  unit_eq : unit_end ≡ o / au * au + au
  end_eq : unit_end ≡ o + (au - o % au)

round : (au o e : ℕ) → 0 < au → o < e → Round au o e
round au o e h k =
    let d = div-add-mod' o au in
    let l = mod-lt o h in
    record {
      unit_end = o + (au - o % au);
      chunk_eq = omega arith;
      from_unit = omega (arith, d);
      after = omega (arith, l);
      unit_eq = omega (arith, d, l);
      end_eq = refl;
    }

pub plus-zero : (b : ℕ) → plus b 0 ≡ b
plus-zero b = omega arith

pub minus-zero : (b : ℕ) → minus b 0 ≡ b
minus-zero b = omega arith

plus-add : (b x y : ℕ) → plus (plus b x) y ≡ plus b (x + y)
plus-add b x y = omega arith

minus-add : (b x y : ℕ) → minus (minus b x) y ≡ minus b (x + y)
minus-add b x y = omega arith

-- What a round makes of the counts.
step-bytes :
    (f : ℕ → ℕ → ℕ)
    → ((b : ℕ) → f b 0 ≡ b)
    → (au o e : ℕ) (bs : List ℕ) → (o < e)
    → (r : Round au o e)
    → set_bytes (o / au) (f (bytes_at (o / au) bs) (chunk au o e)) bs
      ≡ on_range f au 0 o (min r.unit_end e) bs
step-bytes f f-zero au o e bs k r =
    let m = min r.unit_end e in
    let whole : chunk au o e ≡ m - o = omega (arith, r.chunk_eq) in
    rw whole (
      on_range-unit f f-zero (o / au) au 0 o m bs (omega (arith, r.from_unit))
        (omega (arith, r.after)) (omega (arith, r.unit_eq)))

Each-chunk :
    (P : ℕ → ℕ → Type 0)
    → ((b x y : ℕ) → y ≤ x → P b x → P b y)
    → (au o e : ℕ) (bs : List ℕ) → o < e
    → Round au o e
    → Each P au 0 o e bs
    → P (bytes_at (o / au) bs) (chunk au o e)
Each-chunk P mono au o e bs k r each =
    let m = min r.unit_end e in
    let whole : chunk au o e ≡ m - o = omega (arith, r.chunk_eq) in
    rw whole (
      Each-unit P mono (o / au) au 0 o m e bs (omega (arith, r.from_unit)) (omega (arith, r.after))
        (omega arith) (omega (arith, r.unit_eq)) each)

pub get_loop_lem :
    (fuel au o e : ℕ) (bs : List ℕ)
    → 0 < au
    → e ≤ o + fuel
    → e < 2 ^ 32
    → Each HasRoom au 0 o e bs
    → get_loop fuel au o e bs ≡ some (on_range plus au 0 o e bs)
unfolding get_loop
get_loop_lem zero au o e bs h enough k room =
    let e0 : ltb o e ≡ false = ground arith in
    rw (e0, on_range-empty plus plus-zero au 0 o e bs (omega arith)) refl
get_loop_lem (suc fuel) au o e bs h enough k room = elim (Bool-cases (ltb o e)) [
  | inr over ↦ rw (over, on_range-empty plus plus-zero au 0 o e bs (ltb→le o e over)) refl
  | inl more ↦
      let lt = ltb→lt o e more in
      let r = round au o e h lt in
      let m = min r.unit_end e in
      let next : add32 o (chunk au o e) ≡ m =
        add32-eq o (chunk au o e) (omega (arith, r.chunk_eq)) ∙ r.chunk_eq in
      let fits = Each-chunk HasRoom (λ b x y p q. omega arith) au o e bs lt r room in
      let sum = add32-eq (bytes_at (o / au) bs) (chunk au o e) fits in
      let mm : min m e ≡ m = omega arith in
      let le : o ≤ m = omega (arith, r.after) in
      let join : on_range plus au 0 m e (on_range plus au 0 o m bs) ≡ on_range plus au 0 o e bs =
        ap (λ (t : ℕ). on_range plus au 0 m e (on_range plus au 0 o t bs)) (sym mm)
        ∙ on_range-join plus plus-add au 0 o m e bs le in
      let room' : Each HasRoom au 0 m e (on_range plus au 0 o (min m e) bs) =
        Each-rest HasRoom plus (λ b x y p. omega arith) au 0 o m e bs le room in
      let step = step-bytes plus plus-zero au o e bs lt r in
      let room'' : Each HasRoom au 0 m e (on_range plus au 0 o m bs) = rw mm at room' in
      rw (more, next, sum, step)
        (get_loop_lem fuel au m e (on_range plus au 0 o m bs) h (omega (arith, r.after)) k room''
          ∙ ap some join)
]

put_unit-bytes :
    (au pos diff : ℕ) (s : PutState)
    → (put_unit au pos diff s).bytes ≡ set_bytes pos (bytes_at pos s.bytes - diff) s.bytes
unfolding put_unit release_unit
put_unit-bytes au pos diff s = ground arith

put_unit-maybe_empty :
    (au pos diff : ℕ) (s : PutState)
    → (put_unit au pos diff s).maybe_empty
      ≡ (if bytes_at pos s.bytes - diff == 0 then s.maybe_empty else false)
unfolding put_unit release_unit
put_unit-maybe_empty au pos diff s = ground arith

bytes_at-set_bytes :
    (pos v : ℕ) (bs : List ℕ) → 0 < bytes_at pos bs → bytes_at pos (set_bytes pos v bs) ≡ v
unfolding bytes_at set_bytes
bytes_at-set_bytes pos v [] h = absurd (omega arith)
bytes_at-set_bytes zero v (b ∷ bs) h = refl
bytes_at-set_bytes (suc pos) v (b ∷ bs) h = bytes_at-set_bytes pos v bs h

bytes_at-on_range :
    (pos au lo u e : ℕ) (bs : List ℕ)
    → lo + pos * au + au ≤ u
    → bytes_at pos (on_range minus au lo u e bs) ≡ bytes_at pos bs
unfolding bytes_at on_range overlap
bytes_at-on_range pos au lo u e [] h = refl
bytes_at-on_range zero au lo u e (b ∷ bs) h = omega arith
bytes_at-on_range (suc pos) au lo u e (b ∷ bs) h =
    bytes_at-on_range pos au (lo + au) u e bs (omega arith)

all_zero-bytes_at : (pos : ℕ) (bs : List ℕ) → 0 < bytes_at pos bs → all_zero bs ≡ false
unfolding all_zero bytes_at
all_zero-bytes_at pos [] h = absurd (omega arith)
all_zero-bytes_at zero (b ∷ bs) h = ground arith
all_zero-bytes_at (suc pos) (b ∷ bs) h = ground (arith, all_zero-bytes_at pos bs h)

==→ne : (a b : ℕ) → (a == b) ≡ false → a ≢ b
==→ne a b h = ground arith

-- After a round, the flag still knows of a count that the range leaves.
flag-put_unit :
    (au o e : ℕ) (s : PutState) (r : Round au o e)
    → 0 < chunk au o e
    → chunk au o e ≤ bytes_at (o / au) s.bytes
    → let s' = put_unit au (o / au) (chunk au o e) s in
      on_range minus au 0 r.unit_end e s'.bytes ≡ on_range minus au 0 o e s.bytes
      → (s.maybe_empty ≡ false → all_zero (on_range minus au 0 o e s.bytes) ≡ false)
      → s'.maybe_empty ≡ false
      → all_zero (on_range minus au 0 r.unit_end e s'.bytes) ≡ false
flag-put_unit au o e s r h k join flag off =
    let pos = o / au in
    let left = bytes_at pos s.bytes - chunk au o e in
    elim (Bool-cases (left == 0)) [
      | inl gone ↦
          let same =
            put_unit-maybe_empty au pos (chunk au o e) s
            ∙ ap (λ (b : Bool). if b then s.maybe_empty else false) gone in
          rw join (flag (sym same ∙ off))
      | inr stays ↦
          let eq =
            bytes_at-on_range pos au 0 r.unit_end e (put_unit au pos (chunk au o e) s).bytes
              (omega (arith, r.unit_eq)) in
          let at =
            ap (bytes_at pos) (put_unit-bytes au pos (chunk au o e) s)
            ∙ bytes_at-set_bytes pos left s.bytes (omega arith) in
          all_zero-bytes_at pos
            (on_range minus au 0 r.unit_end e (put_unit au pos (chunk au o e) s).bytes)
            (omega (arith, eq, at, ==→ne left 0 stays))
    ]

-- The offset of the next round of put is the end of the unit.
next_offset :
    (au o e : ℕ) (r : Round au o e)
    → o < e
    → e + au < 2 ^ 32
    → 0 < au
    → add32 o (if o % au == 0 then au else au - o % au) ≡ r.unit_end
next_offset au o e r h k p =
    let eq : (if o % au == 0 then au else au - o % au) ≡ au - o % au = ground arith in
    rw eq (add32-eq o (au - o % au) (omega arith) ∙ sym r.end_eq)

unfoldable pub Flagged : ℕ → ℕ → ℕ → PutState → Type 0
Flagged au o e s = s.maybe_empty ≡ false → all_zero (on_range minus au 0 o e s.bytes) ≡ false

pub record Done (au o e : ℕ) (s s' : PutState) : Type 0 where
  pub bytes_eq : s'.bytes ≡ on_range minus au 0 o e s.bytes
  pub flag : s'.maybe_empty ≡ false → all_zero s'.bytes ≡ false

pub put_loop_lem :
    (fuel au o e : ℕ) (s : PutState)
    → 0 < au
    → e ≤ o + fuel
    → e + au < 2 ^ 32
    → Each Covers au 0 o e s.bytes
    → Flagged au o e s
    → (s' : PutState) × (put_loop fuel au o e s ≡ some s') × Done au o e s s'
unfolding put_loop Flagged
put_loop_lem zero au o e s h enough k each flag =
    let same = on_range-empty minus minus-zero au 0 o e s.bytes (omega arith) in
    let over : ltb o e ≡ false = ground arith in
    (s, rw over refl, record { bytes_eq = sym same; flag = λ off. rw same at flag off })
put_loop_lem (suc fuel) au o e s h enough k each flag = elim (Bool-cases (ltb o e)) [
  | inr over ↦
      let same = on_range-empty minus minus-zero au 0 o e s.bytes (ltb→le o e over) in
      (s, rw over refl, record { bytes_eq = sym same; flag = λ off. rw same at flag off })
  | inl more ↦
      let lt = ltb→lt o e more in
      let r = round au o e h lt in
      let diff = chunk au o e in
      let u = r.unit_end in
      let s1 = put_unit au (o / au) diff s in
      let le : o ≤ u = omega (arith, r.after) in
      let covers = Each-chunk Covers (λ b x y p q. omega arith) au o e s.bytes lt r each in
      let step =
        put_unit-bytes au (o / au) diff s ∙ step-bytes minus minus-zero au o e s.bytes lt r in
      let join =
        ap (on_range minus au 0 u e) step ∙ on_range-join minus minus-add au 0 o u e s.bytes le in
      let each1 : Each Covers au 0 u e s1.bytes =
        rw step (Each-rest Covers minus (λ b x y p. omega arith) au 0 o u e s.bytes le each) in
      let (s', eq, done) =
        put_loop_lem fuel au u e s1 h (omega (arith, r.after)) k each1
          (flag-put_unit au o e s r (omega (arith, r.chunk_eq, r.after)) covers join flag) in
      let ok : leb diff (bytes_at (o / au) s.bytes) ≡ true = ground arith in
      (
        s',
        rw (more, ok, next_offset au o e r lt k h) eq,
        record { bytes_eq = done.bytes_eq ∙ join; flag = done.flag },
      )
]
