-- ===== src/Bluestore/UseTracker/Split.antt =====
-- bluestore/bluestore_types.cc, bluestore_blob_use_tracker_t::split: the two parts against the whole.
use cxxlab.Prelude.{
  ℕ, ◌+◌, ◌-◌, ◌*◌, ◌/◌, ◌%◌, ◌^◌, zero, suc, ◌≤◌, ◌<◌, ◌≡◌, refl, ap, ◌∙◌, List, [], ◌∷◌, ◌++◌,
  none, some, true, false, max, min, ltb, ◌==◌, ◌&&◌, if◌then◌else◌, length, arith,
}
use native.Mathlib.Nat.{div-add-mod', lt_of_mul-lt-mul_right, mul-sub}
use cxxlab.Bluestore.UseTracker.{
  get_referenced_bytes, UseTracker, split, get, num_au, take_bytes, drop_bytes, can_split_at,
}
use cxxlab.Bluestore.UseTracker.Ranges.{on_range, overlap, plus, total}
use cxxlab.Bluestore.UseTracker.Counts.{
  get_referenced_bytes_lem, IsCountable, counted, referenced, get-counted,
}

take-drop : (n : ℕ) (bs : List ℕ) → take_bytes n bs ++ drop_bytes n bs ≡ bs
unfolding take_bytes drop_bytes
take-drop n [] = refl
take-drop zero (b ∷ bs) = refl
take-drop (suc n) (b ∷ bs) = ap (λ (cs : List ℕ). b ∷ cs) (take-drop n bs)

length-take_bytes : (n : ℕ) (bs : List ℕ) → n ≤ length bs → length (take_bytes n bs) ≡ n
unfolding take_bytes
length-take_bytes n [] h = omega arith
length-take_bytes zero (b ∷ bs) h = refl
length-take_bytes (suc n) (b ∷ bs) h = omega (arith, length-take_bytes n bs (omega arith))

length-drop_bytes : (n : ℕ) (bs : List ℕ) → length (drop_bytes n bs) ≡ length bs - n
unfolding drop_bytes
length-drop_bytes n [] = omega arith
length-drop_bytes zero (b ∷ bs) = omega arith
length-drop_bytes (suc n) (b ∷ bs) = omega (arith, length-drop_bytes n bs)

total-take_bytes :
    (n : ℕ) (bs : List ℕ) → total (take_bytes n bs) + total (drop_bytes n bs) ≡ total bs
unfolding take_bytes drop_bytes total
total-take_bytes n [] = refl
total-take_bytes zero (b ∷ bs) = omega arith
total-take_bytes (suc n) (b ∷ bs) = omega (arith, total-take_bytes n bs)

-- A range behind the first units leaves them.
take-on_range :
    (n au lo o e : ℕ) (bs : List ℕ)
    → lo + n * au ≤ o
    → take_bytes n (on_range plus au lo o e bs) ≡ take_bytes n bs
unfolding take_bytes on_range overlap
take-on_range n au lo o e [] h = refl
take-on_range zero au lo o e (b ∷ bs) h = refl
take-on_range (suc n) au lo o e (b ∷ bs) h =
    let none : b + (min (lo + au) e - max lo o) ≡ b = omega arith in
    rw (none, take-on_range n au (lo + au) o e bs (omega arith)) refl

drop-on_range :
    (n au lo o e : ℕ) (bs : List ℕ)
    → drop_bytes n (on_range plus au lo o e bs)
      ≡ on_range plus au (lo + n * au) o e (drop_bytes n bs)
unfolding drop_bytes on_range
drop-on_range n au lo o e [] = refl
drop-on_range zero au lo o e (b ∷ bs) =
    let same : lo ≡ lo + 0 * au = omega arith in
    ap (λ (m : ℕ). on_range plus au m o e (b ∷ bs)) same
drop-on_range (suc n) au lo o e (b ∷ bs) =
    let same : lo + au + n * au ≡ lo + suc n * au = omega arith in
    drop-on_range n au (lo + au) o e bs
    ∙ ap (λ (m : ℕ). on_range plus au m o e (drop_bytes n bs)) same

shift-on_range :
    (d au lo o e : ℕ) (bs : List ℕ)
    → on_range plus au (lo + d) (o + d) (e + d) bs ≡ on_range plus au lo o e bs
unfolding on_range overlap
shift-on_range d au lo o e [] = refl
shift-on_range d au lo o e (b ∷ bs) =
    let swap : lo + d + au ≡ lo + au + d = omega arith in
    let same : min (lo + au + d) (e + d) - max (lo + d) (o + d) ≡ min (lo + au) e - max lo o =
      omega arith in
    rw (swap, same, shift-on_range d au (lo + au) o e bs) refl

-- Where a blob can be split.
pub record CanSplit (blob_offset : ℕ) (t : UseTracker) : Type 0 where
  pub at : can_split_at blob_offset t ≡ some true
  pub offset_pos : 0 < blob_offset
  pub units_small : num_au t * t.au_size < 2 ^ 32

record SplitUnit (blob_offset : ℕ) (t : UseTracker) : Type 0 where
  unit_eq : blob_offset / t.au_size * t.au_size ≡ blob_offset
  unit_pos : 0 < blob_offset / t.au_size
  unit_lt : blob_offset / t.au_size < num_au t

split_test :
    (b au n : ℕ)
    → (if au == 0 then none else some (b % au == 0 && ltb b (n * au % 2 ^ 32))) ≡ some true
    → (b % au ≡ 0) × (b < n * au % 2 ^ 32)
split_test b au n h = ground arith

split_unit : (b : ℕ) (t : UseTracker) → CanSplit b t → SplitUnit b t
unfolding can_split_at
split_unit b t h =
    let au = t.au_size in
    let (whole, below) = split_test b au (num_au t) h.at in
    let eq : b / au * au ≡ b = omega (arith, div-add-mod' b au, whole) in
    record {
      unit_eq = eq;
      unit_pos = ground (arith, eq, h.offset_pos);
      unit_lt = lt_of_mul-lt-mul_right au (omega (arith, eq, below, h.units_small));
    }

-- With at least one unit, the bytes referenced are the sum of the counts.
referenced-total : (t : UseTracker) → 0 < num_au t → referenced t ≡ total t.bytes_per_au
unfolding referenced
referenced-total t h = ground arith

split-referenced :
    (b : ℕ) (t : UseTracker)
    → CanSplit b t
    → referenced (split b t).0 + referenced (split b t).1 ≡ referenced t
unfolding split
split-referenced b t h =
    let u = split_unit b t h in
    let n = b / t.au_size in
    let bs = t.bytes_per_au in
    let left = length-take_bytes n bs (omega (arith, u.unit_lt)) in
    let right = length-drop_bytes n bs in
    omega (
      arith,
      referenced-total (split b t).0 (omega (arith, left, u.unit_pos)),
      referenced-total (split b t).1 (omega (arith, right, u.unit_lt)),
      referenced-total t (omega (arith, u.unit_lt)),
      total-take_bytes n bs,
    )

-- Where can_split_at allows it at an offset that is not 0, in a blob whose units span fewer than 2^32
-- bytes, split leaves the units below the offset, at least one, on the left, and the others, at least
-- one, on the right; the bytes referenced of the parts add up to those of the whole, if those are
-- fewer than 2^32.
pub split_lem :
    (b : ℕ) (t : UseTracker)
    → CanSplit b t
    → referenced t < 2 ^ 32
    → let (l, r) = split b t in
      (l.bytes_per_au ++ r.bytes_per_au ≡ t.bytes_per_au)
      × (num_au l * t.au_size ≡ b)
      × (0 < num_au l)
      × (0 < num_au r)
      × (get_referenced_bytes l + get_referenced_bytes r ≡ get_referenced_bytes t)
unfolding split
split_lem b t h small =
    let u = split_unit b t h in
    let n = b / t.au_size in
    let bs = t.bytes_per_au in
    let left = length-take_bytes n bs (omega (arith, u.unit_lt)) in
    let sum = split-referenced b t h in
    (
      take-drop n bs,
      rw left u.unit_eq,
      omega (arith, left, u.unit_pos),
      omega (arith, length-drop_bytes n bs, u.unit_lt),
      omega (
        arith,
        sum,
        get_referenced_bytes_lem (split b t).0 (omega (arith, sum)),
        get_referenced_bytes_lem (split b t).1 (omega (arith, sum)),
        get_referenced_bytes_lem t small,
      ),
    )

right-IsCountable :
    (b offset len : ℕ) (t : UseTracker)
    → CanSplit b t
    → b ≤ offset
    → IsCountable offset len t
    → IsCountable (offset - b) len (split b t).1
unfolding split
right-IsCountable b offset len t h le c =
    let u = split_unit b t h in
    let n = b / t.au_size in
    let right = length-drop_bytes n t.bytes_per_au in
    let units : (num_au t - n) * t.au_size ≡ num_au t * t.au_size - b =
      omega (arith, mul-sub t.au_size (num_au t) n, u.unit_eq) in
    record {
      unit_pos = c.unit_pos;
      inside = λ p. rw (right, units) (omega (arith, c.inside (omega (arith, u.unit_lt))));
      end_small = omega (arith, c.end_small);
      sum_small = omega (arith, split-referenced b t h, c.sum_small);
    }

counted_units :
    (offset len : ℕ) (t : UseTracker)
    → 0 < num_au t
    → counted offset len t
      ≡ record t { bytes_per_au = on_range plus t.au_size 0 offset (offset + len) t.bytes_per_au }
unfolding counted
counted_units offset len t h = let many : (num_au t == 0) ≡ false = ground arith in rw many refl

behind_split :
    (n au b offset len : ℕ) (bs : List ℕ)
    → n * au ≡ b
    → b ≤ offset
    → drop_bytes n (on_range plus au 0 offset (offset + len) bs)
      ≡ on_range plus au 0 (offset - b) (offset - b + len) (drop_bytes n bs)
behind_split n au b offset len bs eq le =
    let lo : 0 + n * au ≡ 0 + b = omega (arith, eq) in
    let o : offset - b + b ≡ offset = omega arith in
    let e : offset - b + len + b ≡ offset + len = omega arith in
    let shift = shift-on_range b au 0 (offset - b) (offset - b + len) (drop_bytes n bs) in
    drop-on_range n au 0 offset (offset + len) bs
    ∙ ap (λ (m : ℕ). on_range plus au m offset (offset + len) (drop_bytes n bs)) lo
    ∙ (rw (o, e) at shift)

-- For a tracker that can be split at an offset, which is positive and by can_split_at a multiple of the
-- unit size inside the units, whose units together are below 2^32 bytes, and a get behind that offset,
-- with a positive unit size, inside the units, and with no sum that leaves 32 bits: the get commutes with
-- the split. It leaves the left part, and is on the right one the get whose offset counts from the split.
pub split-get :
    (b offset len : ℕ) (t : UseTracker)
    → CanSplit b t
    → b ≤ offset
    → IsCountable offset len t
    → (t' : UseTracker) × (r' : UseTracker) × (get offset len t ≡ some t')
      × (get (offset - b) len (split b t).1 ≡ some r')
      × (split b t' ≡ ((split b t).0, r'))
unfolding split
split-get b offset len t h le c =
    let c' = right-IsCountable b offset len t h le c in
    let u = split_unit b t h in
    let n = b / t.au_size in
    let bs = t.bytes_per_au in
    let e = offset + len in
    let right = length-drop_bytes n bs in
    let whole = counted_units offset len t (omega (arith, u.unit_lt)) in
    let part = counted_units (offset - b) len (split b t).1 (omega (arith, right, u.unit_lt)) in
    let left : take_bytes n (on_range plus t.au_size 0 offset e bs) ≡ take_bytes n bs =
      take-on_range n t.au_size 0 offset e bs (omega (arith, u.unit_eq)) in
    (
      counted offset len t,
      counted (offset - b) len (split b t).1,
      get-counted offset len t c,
      get-counted (offset - b) len (split b t).1 c',
      rw (whole, part, left, behind_split n t.au_size b offset len bs u.unit_eq le) refl,
    )
