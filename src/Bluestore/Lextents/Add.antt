-- ===== src/Bluestore/Lextents/Add.antt =====
-- bluestore/extent_map.cc: an extent that is added where the map has a hole, and set_lextent.
use cxxlab.Prelude.{
  ℕ, ◌+◌, ◌-◌, ◌%◌, ◌^◌, ◌≤◌, ◌<◌, ◌≡◌, refl, ◌∙◌, arith, ◌&&◌, true, List, [], ◌∷◌, none, some,
  ltb, leb, if◌then◌else◌, Bool-cases, inl, inr, ltb→lt, ltb→le, lookup, put, nat_eq,
}
use cxxlab.Bluestore.ExtentMap.{Extent, insert, add}
use cxxlab.Bluestore.ExtentMap.Holes.{find_byte, IsOrdered, Fits}
use cxxlab.Bluestore.ExtentMap.Punch.{punch_hole_lem}
use cxxlab.Bluestore.Blob.{Blob, get_ref}
use cxxlab.Bluestore.Lextents.{Object, set_lextent}

-- The logical offsets of an extent have no byte in the map.
unfoldable pub IsFree : Extent → List Extent → Type 0
IsFree n m = (x : ℕ) → n.logical_offset ≤ x → x < n.logical_offset + n.length → find_byte x m ≡ none

record Beside (n e : Extent) (m : List Extent) : Type 0 where
  left : n.logical_offset < e.logical_offset → n.logical_offset + n.length ≤ e.logical_offset
  right : e.logical_offset ≤ n.logical_offset → e.logical_offset + e.length ≤ n.logical_offset

free_Beside :
    (n e : Extent) (m : List Extent) → 0 < n.length → 0 < e.length → IsFree n (e ∷ m) → Beside n e m
unfolding IsFree find_byte
free_Beside n e m h k free = record {
  left = λ l. elim (Bool-cases (ltb e.logical_offset (n.logical_offset + n.length))) [
    | inl overlap ↦
        absurd (ground (arith, free e.logical_offset (omega arith) (ltb→lt _ _ overlap)))
    | inr apart ↦ ltb→le _ _ apart
  ];
  right = λ l. ground (arith, free n.logical_offset (omega arith) (omega arith));
}

IsFree-tail :
    (n e : Extent) (m : List Extent)
    → e.logical_offset + e.length ≤ n.logical_offset
    → IsFree n (e ∷ m)
    → IsFree n m
unfolding IsFree find_byte
IsFree-tail n e m h free x k l = ground (arith, h, k, free x k l)

module _ (n : Extent) (f : Fits n) where
  insert-IsOrdered :
      (lo : ℕ) (m : List Extent)
      → lo ≤ n.logical_offset
      → IsOrdered lo m
      → IsFree n m
      → IsOrdered lo (insert n m)
  unfolding IsOrdered insert
  insert-IsOrdered lo [] h o free = (h, f.0, f.1, f.2, tt)
  insert-IsOrdered lo (e ∷ m) h o free =
      let beside = free_Beside n e m f.0 o.1 free in
      elim (Bool-cases (ltb n.logical_offset e.logical_offset)) [
        | inl before ↦
            rw before (h, f.0, f.1, f.2, (beside.left (ltb→lt _ _ before), o.1, o.2, o.3, o.4))
        | inr behind ↦
            let end = beside.right (ltb→le _ _ behind) in
            let later : ltb e.logical_offset n.logical_offset ≡ true = ground (arith, end, o.1) in
            rw (behind, later)
              (
                o.0,
                o.1,
                o.2,
                o.3,
                insert-IsOrdered (e.logical_offset + e.length) m end o.4
                    (IsFree-tail n e m end free),
              )
      ]

  find_byte-insert :
      (lo x : ℕ) (m : List Extent)
      → IsOrdered lo m
      → IsFree n m
      → find_byte x (insert n m) ≡ find_byte x (n ∷ m)
  unfolding IsOrdered insert find_byte
  find_byte-insert lo x [] o free = refl
  find_byte-insert lo x (e ∷ m) o free =
      let beside = free_Beside n e m f.0 o.1 free in
      elim (Bool-cases (ltb n.logical_offset e.logical_offset)) [
        | inl before ↦ rw before refl
        | inr behind ↦
            let end = beside.right (ltb→le _ _ behind) in
            let later : ltb e.logical_offset n.logical_offset ≡ true = ground (arith, end, o.1) in
            let ih =
              find_byte-insert (e.logical_offset + e.length) x m o.4 (IsFree-tail n e m end free) in
            rw (behind, later) (ground (arith, ih, end))
      ]

hole-IsFree :
    (n : Extent) (t m : List Extent)
    → ((x : ℕ)
        → find_byte x t ≡ (
            if leb n.logical_offset x && ltb x (n.logical_offset + n.length)
            then none
            else find_byte x m))
    → IsFree n t
unfolding IsFree
hole-IsFree n t m outside x h k = ground (arith, h, k, outside x)

found_new :
    (n : Extent) (x : ℕ) (t m : List Extent)
    → find_byte x t ≡ (
        if leb n.logical_offset x && ltb x (n.logical_offset + n.length)
        then none
        else find_byte x m)
    → find_byte x (n ∷ t) ≡ (
        if leb n.logical_offset x && ltb x (n.logical_offset + n.length)
        then some (n.blob, n.blob_offset + (x - n.logical_offset))
        else find_byte x m)
unfolding find_byte
found_new n x t m outside = ground (arith, outside)

small : (n : ℕ) → n < 2 ^ 32 → n % 2 ^ 32 ≡ n
small n h = omega arith

-- set_lextent of an extent that is not empty and fits 32 bits, on extents in order and where get_ref
-- of the blob succeeds: the extents stay in order, each logical offset in the new extent has its byte of
-- the blob, every other one the byte that it had, the old extents have exactly the bytes that were
-- replaced, and only the blob has changed, as get_ref changes it.
pub set_lextent_lem :
    (lo bo l b min_alloc_size : ℕ) (s : Object) (blob blob' : Blob)
    → 0 < l
    → lo + l < 2 ^ 32
    → bo + l < 2 ^ 32
    → IsOrdered 0 s.extent_map
    → lookup b s.blobs ≡ some blob
    → get_ref bo l min_alloc_size blob ≡ some blob'
    → (m olds : List Extent) × (set_lextent lo bo l b min_alloc_size s
        ≡ some (record { extent_map = m; blobs = put b blob' s.blobs }, olds))
      × IsOrdered 0 m
      × ((x : ℕ)
          → find_byte x m ≡ (
              if leb lo x && ltb x (lo + l)
              then some (b, bo + (x - lo))
              else find_byte x s.extent_map))
      × ((x : ℕ)
          → find_byte x olds
            ≡ (if leb lo x && ltb x (lo + l) then find_byte x s.extent_map else none))
unfolding set_lextent add
set_lextent_lem lo bo l b min_alloc_size s blob blob' h k n o there ref =
    let (t, olds, eq, ordered, outside, within) = punch_hole_lem lo l s.extent_map h k o in
    let new : Extent = record { logical_offset = lo; blob_offset = bo; length = l; blob = b } in
    let fits : Fits new = (h, k, n) in
    let free = hole-IsFree new t s.extent_map outside in
    (
      insert new t,
      olds,
      rw (there, ref, eq, small lo (omega arith), small bo (omega arith), small l (omega arith))
          refl,
      insert-IsOrdered new fits 0 t (omega arith) ordered free,
      λ x.
          find_byte-insert new fits 0 x t ordered free ∙ found_new new x t s.extent_map (outside x),
      within,
    )
