-- ===== src/Bluestore/ExtentMap/Holes.antt =====
-- What a hole makes of the extents of bluestore/extent_map.cc, extent by extent, and which blob byte
-- each logical offset has.
use cxxlab.Prelude.{
  ℕ, ◌+◌, ◌-◌, ◌^◌, ◌≤◌, ◌<◌, ◌≡◌, min, max, if-cases, not, Bool, ◌&&◌, List, [], ◌∷◌, Option, none,
  some, arith, ltb, leb, if◌then◌else◌,
}
use cxxlab.Bluestore.ExtentMap.{Extent}

-- The blob and the offset in it of a logical offset.
unfoldable pub find_byte : ℕ → List Extent → Option (ℕ × ℕ)
find_byte x [] = none
find_byte x (e ∷ m) =
    let rest = find_byte x m in
    if leb e.logical_offset x && ltb x (e.logical_offset + e.length)
    then some (e.blob, e.blob_offset + (x - e.logical_offset))
    else rest

-- The extents are not empty, fit 32 bits in both offsets, and follow one another from a position on.
unfoldable pub IsOrdered : ℕ → List Extent → Type 0
IsOrdered lo [] = Unit
IsOrdered lo (e ∷ m) =
    (lo ≤ e.logical_offset)
    × (0 < e.length)
    × (e.logical_offset + e.length < 2 ^ 32)
    × (e.blob_offset + e.length < 2 ^ 32)
    × IsOrdered (e.logical_offset + e.length) m

abbrev pub Fits : Extent → Type 0
Fits e =
    (0 < e.length) × (e.logical_offset + e.length < 2 ^ 32) × (e.blob_offset + e.length < 2 ^ 32)

abbrev pub head_part : ℕ → Extent → Extent
head_part offset e = record e { length = offset - e.logical_offset }

abbrev pub tail_part : ℕ → Extent → Extent
tail_part end e = record {
  logical_offset = end;
  blob_offset = e.blob_offset + (end - e.logical_offset);
  length = e.logical_offset + e.length - end;
  blob = e.blob;
}

abbrev pub middle_part : ℕ → ℕ → Extent → Extent
middle_part offset end e =
    let lo = max e.logical_offset offset in
    record {
      logical_offset = lo;
      blob_offset = e.blob_offset + (lo - e.logical_offset);
      length = min (e.logical_offset + e.length) end - lo;
      blob = e.blob;
    }

abbrev pub cons_if : Bool → Extent → List Extent → List Extent
cons_if b e m = if b then e ∷ m else m

-- The test for an extent that has a byte in the hole.
abbrev pub reaches : ℕ → ℕ → Extent → Bool
reaches offset end e = ltb e.logical_offset end && ltb offset (e.logical_offset + e.length)

-- What is left of one extent, before the others.
abbrev pub cut : ℕ → ℕ → Extent → List Extent → List Extent
cut offset end e rest =
    if reaches offset end e
    then cons_if (ltb e.logical_offset offset) (head_part offset e)
        (cons_if (ltb end (e.logical_offset + e.length)) (tail_part end e) rest)
    else e ∷ rest

-- The extents around the hole: each loses its part in it.
unfoldable pub around : ℕ → ℕ → List Extent → List Extent
around offset end [] = []
around offset end (e ∷ m) = cut offset end e (around offset end m)

-- The parts in the hole.
unfoldable pub inside : ℕ → ℕ → List Extent → List Extent
inside offset end [] = []
inside offset end (e ∷ m) =
    cons_if (reaches offset end e) (middle_part offset end e) (inside offset end m)

abbrev in_hole : ℕ → ℕ → ℕ → Bool
in_hole offset end x = leb offset x && ltb x end

abbrev covers : ℕ → Extent → Bool
covers x e = leb e.logical_offset x && ltb x (e.logical_offset + e.length)

find_byte-tail :
    (x end : ℕ) (e : Extent) (rest : List Extent)
    → e.logical_offset < end
    → find_byte x (cons_if (ltb end (e.logical_offset + e.length)) (tail_part end e) rest)
      ≡ (if covers x e && leb end x then find_byte x (e ∷ rest) else find_byte x rest)
unfolding find_byte
find_byte-tail x end e rest h =
    if-cases
      (λ m.
        find_byte x m
        ≡ (if covers x e && leb end x then find_byte x (e ∷ rest) else find_byte x rest))
      (ltb end (e.logical_offset + e.length)) (λ g. ground (arith, g, h)) (λ g. ground (arith, g))

find_byte-cut :
    (x offset end : ℕ) (e : Extent) (rest : List Extent)
    → offset < end
    → find_byte x (cut offset end e rest) ≡ (
        if covers x e && not (in_hole offset end x)
        then find_byte x (e ∷ rest)
        else find_byte x rest)
unfolding find_byte
find_byte-cut x offset end e rest h =
    let goal =
      if covers x e && not (in_hole offset end x)
      then find_byte x (e ∷ rest)
      else find_byte x rest in
    let behind = find_byte-tail x end e rest in
    if-cases (λ m. find_byte x m ≡ goal) (reaches offset end e)
      (λ g.
        if-cases (λ m. find_byte x m ≡ goal) (ltb e.logical_offset offset)
          (λ k. ground (arith, g, k, h, behind)) (λ k. ground (arith, g, k, h, behind)))
      (λ g. ground (arith, g, h))

pub find_byte-around :
    (x offset end : ℕ) (m : List Extent)
    → offset < end
    → find_byte x (around offset end m) ≡ (if in_hole offset end x then none else find_byte x m)
unfolding find_byte around
find_byte-around x offset end [] h = ground arith
find_byte-around x offset end (e ∷ m) h =
    ground (
      arith,
      find_byte-cut x offset end e (around offset end m) h,
      find_byte-around x offset end m h,
    )

pub find_byte-inside :
    (x offset end : ℕ) (m : List Extent)
    → offset < end
    → find_byte x (inside offset end m)
      ≡ (if leb offset x && ltb x end then find_byte x m else none)
unfolding find_byte inside
find_byte-inside x offset end [] h = ground arith
find_byte-inside x offset end (e ∷ m) h = ground (arith, find_byte-inside x offset end m h)

pub IsOrdered-weaken : (a b : ℕ) (m : List Extent) → a ≤ b → IsOrdered b m → IsOrdered a m
unfolding IsOrdered
IsOrdered-weaken a b [] h o = o
IsOrdered-weaken a b (e ∷ m) h o = (omega (arith, h, o.0), o.1, o.2, o.3, o.4)

tail-IsOrdered :
    (end lo : ℕ) (e : Extent) (rest : List Extent)
    → Fits e
    → e.logical_offset < end
    → lo ≤ end
    → lo ≤ e.logical_offset + e.length
    → IsOrdered (e.logical_offset + e.length) rest
    → IsOrdered lo (cons_if (ltb end (e.logical_offset + e.length)) (tail_part end e) rest)
unfolding IsOrdered
tail-IsOrdered end lo e rest f h k l o =
    if-cases (IsOrdered lo) (ltb end (e.logical_offset + e.length))
      (λ g. (
        k,
        ground (arith, g),
        ground (arith, g, f.1),
        ground (arith, g, h, f.2),
        IsOrdered-weaken (end + (e.logical_offset + e.length - end)) (e.logical_offset + e.length)
            rest (ground (arith, g)) o,
      ))
      (λ g. IsOrdered-weaken lo (e.logical_offset + e.length) rest l o)

pub around-IsOrdered :
    (lo offset end : ℕ) (m : List Extent)
    → offset < end
    → IsOrdered lo m
    → IsOrdered lo (around offset end m)
unfolding IsOrdered around
around-IsOrdered lo offset end [] h o = o
around-IsOrdered lo offset end (e ∷ m) h o =
    let rest = around-IsOrdered (e.logical_offset + e.length) offset end m h o.4 in
    let fits : Fits e = (o.1, o.2, o.3) in
    if-cases (IsOrdered lo) (reaches offset end e)
      (λ g.
        if-cases (IsOrdered lo) (ltb e.logical_offset offset)
          (λ k. (
            o.0,
            ground (arith, k),
            ground (arith, k, g, o.2),
            ground (arith, k, g, o.3),
            tail-IsOrdered end (e.logical_offset + (offset - e.logical_offset)) e
                (around offset end m) fits (ground (arith, g)) (ground (arith, k, h))
                (ground (arith, k, g)) rest,
          ))
          (λ k.
            tail-IsOrdered end lo e (around offset end m) fits (ground (arith, g))
              (ground (arith, g, o.0)) (ground (arith, o.0)) rest))
      (λ g. (o.0, o.1, o.2, o.3, rest))
