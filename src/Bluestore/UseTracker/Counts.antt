-- ===== src/Bluestore/UseTracker/Counts.antt =====
-- bluestore/bluestore_types.cc, bluestore_blob_use_tracker_t: what a get adds, and the put that takes
-- it back.
use cxxlab.Prelude.{
  ℕ, ◌+◌, ◌-◌, ◌*◌, ◌^◌, suc, ◌≤◌, ◌<◌, ◌≡◌, refl, sym, ap, ◌∙◌, Bool, true, false, ◌&&◌, List, [],
  ◌∷◌, Option, some, leb, leb→le, leb→lt, ◌==◌, if◌then◌else◌, add32, add32-eq, arith, inl, inr,
  Bool-cases,
}
use cxxlab.Btier.ExtentMap.Space.{PExtent}
use cxxlab.Bluestore.UseTracker.{
  UseTracker, PutResult, PutState, put_result, get, put, num_au, is_empty, all_zero, sum32,
  get_referenced_bytes,
}
use cxxlab.Bluestore.UseTracker.Ranges.{
  on_range, plus, total, total-plus, HasRoom-Each, Covers-Each, minus-plus, length-on_range,
}
use cxxlab.Bluestore.UseTracker.Refs.{get_loop_lem, put_loop_lem, Flagged}

-- The bytes referenced, before any wrap.
unfoldable pub referenced : UseTracker → ℕ
referenced t = if num_au t == 0 then t.total_bytes else total t.bytes_per_au

-- A range the tracker can count: inside its units, and no sum leaves 32 bits.
pub record IsCountable (offset len : ℕ) (t : UseTracker) : Type 0 where
  pub unit_pos : 0 < t.au_size
  pub inside : 0 < num_au t → offset + len ≤ num_au t * t.au_size
  pub end_small : offset + len + t.au_size < 2 ^ 32
  pub sum_small : referenced t + len < 2 ^ 32

sum32-total : (bs : List ℕ) → total bs < 2 ^ 32 → sum32 bs ≡ total bs
unfolding sum32 total add32
sum32-total [] h = refl
sum32-total (b ∷ bs) h = omega (arith, sum32-total bs (omega arith))

pub get_referenced_bytes_lem :
    (t : UseTracker) → referenced t < 2 ^ 32 → get_referenced_bytes t ≡ referenced t
unfolding get_referenced_bytes referenced
get_referenced_bytes_lem t h = elim (Bool-cases (num_au t == 0)) [
  | inl single ↦ rw single refl
  | inr many ↦ rw many (sum32-total t.bytes_per_au (rw many at h))
]

-- What get makes of a tracker.
unfoldable pub counted : ℕ → ℕ → UseTracker → UseTracker
counted offset len t =
    if num_au t == 0
    then record t { total_bytes = t.total_bytes + len }
    else record t { bytes_per_au = on_range plus t.au_size 0 offset (offset + len) t.bytes_per_au }

pub get-counted :
    (offset len : ℕ) (t : UseTracker)
    → IsCountable offset len t
    → get offset len t ≡ some (counted offset len t)
unfolding get counted referenced
get-counted offset len t h = elim (Bool-cases (num_au t == 0)) [
  | inl single ↦
      let small = rw single at h.sum_small in rw (single, add32-eq t.total_bytes len small) refl
  | inr many ↦
      let small = rw many at h.sum_small in
      let e = add32-eq offset len (omega (arith, h.end_small)) in
      let inside : offset + len ≤ 0 + num_au t * t.au_size =
        omega (arith, h.inside (ground arith)) in
      let room =
        HasRoom-Each t.au_size 0 offset (offset + len) t.bytes_per_au inside (omega arith) in
      rw
        (
          many,
          e,
          get_loop_lem len t.au_size offset (offset + len) t.bytes_per_au h.unit_pos (omega arith)
              (omega (arith, h.end_small)) room,
        )
        refl
]

counted-referenced :
    (offset len : ℕ) (t : UseTracker)
    → IsCountable offset len t
    → referenced (counted offset len t) ≡ referenced t + len
unfolding counted referenced
counted-referenced offset len t h =
    let bs = t.bytes_per_au in
    let same = length-on_range plus t.au_size 0 offset (offset + len) bs in
    elim (Bool-cases (num_au t == 0)) [
      | inl single ↦ rw (single, single) refl
      | inr many ↦
          rw (many, same, many)
            (omega (
              arith,
              total-plus t.au_size 0 offset (offset + len) bs
                  (omega (arith, h.inside (ground arith))),
            ))
    ]

-- A get of a range inside the units, with no sum that leaves 32 bits, ends; it adds to the count of
-- each unit the bytes of the range in it, and the bytes referenced grow by the length.
pub get_lem :
    (offset len : ℕ) (t : UseTracker)
    → IsCountable offset len t
    → (get offset len t ≡ some (counted offset len t))
      × (get_referenced_bytes (counted offset len t) ≡ get_referenced_bytes t + len)
get_lem offset len t h =
    let sum = counted-referenced offset len t h in
    let before = get_referenced_bytes_lem t (omega (arith, h.sum_small)) in
    let after = get_referenced_bytes_lem (counted offset len t) (omega (arith, h.sum_small, sum)) in
    (get-counted offset len t h, omega (arith, sum, before, after))

-- What a put gives that ends with the counts it started from.
unfoldable pub Restores : UseTracker → PutResult → Type 0
Restores t r = (r.tracker ≡ t) × (r.empty ≡ is_empty t) × (r.empty ≡ true → r.release ≡ [])

and-flag :
    (t : UseTracker) (b : Bool)
    → (num_au t == 0) ≡ false
    → (b ≡ false → all_zero t.bytes_per_au ≡ false)
    → b && is_empty t ≡ is_empty t
unfolding is_empty
and-flag t true many flag = refl
and-flag t false many flag = rw many (sym (flag refl))

put_single :
    (len : ℕ) (t : UseTracker)
    → (num_au t == 0) ≡ true
    → (r : PutResult) × (Path
        (Option PutResult)
        (if leb (t.total_bytes + len) len
          then some (record { tracker = record t { total_bytes = 0 }; empty = true; release = [] })
          else some (record {
            tracker = record t { total_bytes = t.total_bytes + len - len };
            empty = false;
            release = [];
          }))
        (some r))
      × Restores t r
unfolding Restores is_empty
put_single len t single = elim (Bool-cases (leb (t.total_bytes + len) len)) [
  | inl gone ↦
      let zero_eq : 0 ≡ t.total_bytes = omega (arith, leb→le (t.total_bytes + len) len gone) in
      rw (gone, single)
        (
          record { tracker = record t { total_bytes = 0 }; empty = true; release = [] },
          refl,
          (ap (λ (n : ℕ). record t { total_bytes = n }) zero_eq, ground arith, λ p. refl),
        )
  | inr stays ↦
      let back : t.total_bytes + len - len ≡ t.total_bytes = omega arith in
      let more = leb→lt (t.total_bytes + len) len stays in
      rw (stays, single)
        (
          record {
            tracker = record t { total_bytes = t.total_bytes + len - len };
            empty = false;
            release = [];
          },
          refl,
          (ap (λ (n : ℕ). record t { total_bytes = n }) back, ground arith, λ p. refl),
        )
]

-- Nothing is released where the blob goes as a whole.
no_release : (b : Bool) (es : List PExtent) → b ≡ true → (if b then [] else es) ≡ []
no_release b es h = rw h refl

put_result-Restores :
    (t : UseTracker) (cs : List ℕ) (s : PutState)
    → (num_au t == 0) ≡ false
    → s.bytes ≡ t.bytes_per_au
    → (s.maybe_empty ≡ false → all_zero s.bytes ≡ false)
    → (r : PutResult) × (put_result (record t { bytes_per_au = cs }) (some s) ≡ some r)
      × Restores t r
unfolding Restores
put_result-Restores t cs s many back flag =
    let empty = s.maybe_empty && is_empty (record t { bytes_per_au = s.bytes }) in
    let whole : record t { bytes_per_au = s.bytes } ≡ t =
      ap (λ (bs : List ℕ). record t { bytes_per_au = bs }) back in
    let same : empty ≡ s.maybe_empty && is_empty t =
      ap (λ (t' : UseTracker). s.maybe_empty && is_empty t') whole in
    (
      record {
        tracker = record t { bytes_per_au = s.bytes };
        empty = empty;
        release = if empty then [] else s.released;
      },
      refl,
      (
        whole,
        same ∙ and-flag t s.maybe_empty many (λ off. rw back at flag off),
        no_release empty s.released,
      ),
    )

put-counted :
    (offset len : ℕ) (t : UseTracker)
    → IsCountable offset len t
    → (r : PutResult) × (put offset len (counted offset len t) ≡ some r) × Restores t r
unfolding put counted referenced Flagged
put-counted offset len t h =
    let bs = t.bytes_per_au in
    let au = t.au_size in
    let e = offset + len in
    let cs = on_range plus t.au_size 0 offset e bs in
    let same = length-on_range plus t.au_size 0 offset e bs in
    elim (Bool-cases (num_au t == 0)) [
      | inl single ↦ rw (single, single) (put_single len t single)
      | inr many ↦
          let inside : e ≤ 0 + num_au t * au = omega (arith, h.inside (ground arith)) in
          let start : PutState = record {
            bytes = cs;
            released = [];
            next_offs = 0;
            maybe_empty = true;
          } in
          let (s, eq, done) =
            put_loop_lem (suc len) au offset e start h.unit_pos (omega arith) h.end_small
              (Covers-Each au 0 offset e bs inside) (λ off. ground arith) in
          rw (many, same, many, add32-eq offset len (omega (arith, h.end_small)), eq)
            (put_result-Restores t cs s many (done.bytes_eq ∙ minus-plus au 0 offset e bs)
              done.flag)
    ]

-- A get of a range inside the units, where no sum leaves 32 bits, ends, and so does the put that takes
-- it back: the tracker is then as it was before the get, put reports that it is empty exactly where it
-- was empty then, and in that case gives no extents to release.
pub put-get :
    (offset len : ℕ) (t : UseTracker)
    → IsCountable offset len t
    → (t' : UseTracker) × (r : PutResult) × (get offset len t ≡ some t')
      × (put offset len t' ≡ some r)
      × Restores t r
put-get offset len t h =
    let (r, eq, back) = put-counted offset len t h in
    (counted offset len t, r, get-counted offset len t h, eq, back)
