-- ===== src/Bluefs/Fnode.antt =====
-- bluefs/bluefs_types.h and bluefs_types.cc: the extents of a file and their index. Left out: the
-- constant field unused_ and the encodings.
pub mod Locate
pub mod Append
pub mod Seek
pub mod Delta
pub mod Tests
use cxxlab.Prelude.{
  ℕ, ◌+◌, ◌-◌, Bool, true, false, not, ◌&&◌, ◌||◌, List, [], ◌∷◌, ◌++◌, Option, none, some, ltb,
  leb, ◌==◌, if◌then◌else◌, add64, sub64, add32, sub32, zero, suc, map, ◌%◌, ◌^◌,
}

pub record BluefsExtent : Type 0 where
  pub offset : ℕ
  pub length : ℕ
  pub bdev : ℕ

abbrev pub end : BluefsExtent → ℕ
end e = add64 e.offset e.length

pub record BluefsFnodeDelta : Type 0 where
  pub ino : ℕ
  pub size : ℕ
  pub mtime : ℕ
  pub offset : ℕ
  pub extents : List BluefsExtent

pub record BluefsFnode : Type 0 where
  pub ino : ℕ
  pub size : ℕ
  pub mtime : ℕ
  pub extents : List BluefsExtent
  pub extents_index : List ℕ
  pub allocated : ℕ
  pub allocated_committed : ℕ

abbrev pub new_fnode : ℕ → ℕ → ℕ → BluefsFnode
new_fnode i s t = record {
  ino = i;
  size = s;
  mtime = t;
  extents = [];
  extents_index = [];
  allocated = 0;
  allocated_committed = 0;
}

-- The loop of recalc_allocated: the index from a position on, and the position behind the last.
unfoldable pub index_from : ℕ → List BluefsExtent → List ℕ × ℕ
index_from pos [] = ([], pos)
index_from pos (e ∷ es) = let rest = index_from (add64 pos e.length) es in (pos ∷ rest.0, rest.1)

unfoldable pub recalc_allocated : BluefsFnode → BluefsFnode
recalc_allocated f =
    let r = index_from 0 f.extents in
    record f { extents_index = r.0; allocated = r.1; allocated_committed = r.1 }

unfoldable pub reset_delta : BluefsFnode → BluefsFnode
reset_delta f = record f { allocated_committed = f.allocated }

-- Whether an extent continues the one before it; the sum of the lengths is one of 64-bit numbers.
unfoldable pub continues : BluefsExtent → BluefsExtent → Bool
continues last x =
    end last == x.offset && (last.bdev == x.bdev && ltb (add64 last.length x.length) 0xffffffff)

-- The test on extents.back().
unfoldable pub merges : BluefsExtent → List BluefsExtent → Bool
merges x [] = false
merges x (e ∷ []) = continues e x
merges x (e ∷ f ∷ es) = merges x (f ∷ es)

-- extents.back().length += ext.length
unfoldable pub extend_back : ℕ → List BluefsExtent → List BluefsExtent
extend_back n [] = []
extend_back n (e ∷ []) = record e { length = add32 e.length n } ∷ []
extend_back n (e ∷ f ∷ es) = e ∷ extend_back n (f ∷ es)

unfoldable pub append_extent : BluefsExtent → BluefsFnode → BluefsFnode
append_extent x f =
    if merges x f.extents
    then record f {
      extents = extend_back x.length f.extents;
      allocated = add64 f.allocated x.length;
    }
    else record f {
      extents = f.extents ++ x ∷ [];
      extents_index = f.extents_index ++ f.allocated ∷ [];
      allocated = add64 f.allocated x.length;
    }

-- claim_extents, whose argument is left empty, and clone_extents.
unfoldable pub claim_extents : List BluefsExtent → BluefsFnode → BluefsFnode
claim_extents [] f = f
claim_extents (x ∷ xs) f = claim_extents xs (append_extent x f)

-- The copy constructor: allocated is copied first, then every extent is appended.
unfoldable pub copy_fnode : BluefsFnode → BluefsFnode
copy_fnode f = claim_extents f.extents (record {
  ino = f.ino;
  size = f.size;
  mtime = f.mtime;
  extents = [];
  extents_index = [];
  allocated = f.allocated;
  allocated_committed = f.allocated_committed;
})

abbrev pub tail : List ℕ → List ℕ
tail [] = []
tail (n ∷ ns) = ns

abbrev pub pop_front_of : List BluefsExtent → BluefsFnode → BluefsFnode
pop_front_of [] f = f
pop_front_of (e ∷ es) f = record f {
  extents = es;
  extents_index = map (λ i. sub64 i e.length) (tail f.extents_index);
  allocated = sub64 f.allocated e.length;
}

-- The code has no behaviour for a file without extents.
unfoldable pub pop_front_extent : BluefsFnode → BluefsFnode
pop_front_extent f = pop_front_of f.extents f

unfoldable pub clear_extents : BluefsFnode → BluefsFnode
clear_extents f = record f {
  extents_index = [];
  extents = [];
  allocated = 0;
  allocated_committed = 0;
}

unfoldable pub swap_extents : BluefsFnode → BluefsFnode → BluefsFnode × BluefsFnode
swap_extents f g = (
  record f {
    extents = g.extents;
    extents_index = g.extents_index;
    allocated = g.allocated;
    allocated_committed = g.allocated_committed;
  },
  record g {
    extents = f.extents;
    extents_index = f.extents_index;
    allocated = f.allocated;
    allocated_committed = f.allocated_committed;
  },
)

abbrev pub or_here : ℕ × ℕ → Option (ℕ × ℕ) → Option (ℕ × ℕ)
or_here here none = some here
or_here here (some r) = some r

-- std::upper_bound on a sorted vector, with the element before the one it returns: the position
-- and value of the last element of at most `off`, none where it returns begin().
unfoldable pub last_start : ℕ → ℕ → List ℕ → Option (ℕ × ℕ)
last_start off i [] = none
last_start off i (n ∷ ns) =
    let rest = last_start off (suc i) ns in if ltb off n then none else or_here (i, n) rest

abbrev pub offset_from : ℕ → Option (ℕ × ℕ) → Option (ℕ × ℕ)
offset_from off none = none
offset_from off (some (i, n)) = some (i, sub64 off n)

abbrev pub no_extents : List BluefsExtent → Bool
no_extents [] = true
no_extents (e ∷ es) = false

-- The position of the extent and *x_off; none for extents.end().
unfoldable pub seek : ℕ → BluefsFnode → Option (ℕ × ℕ)
seek off f =
    if no_extents f.extents || leb f.allocated off
    then none
    else offset_from off (last_start off 0 f.extents_index)

-- The part of an extent behind `skip` bytes.
unfoldable pub cut_front : ℕ → BluefsExtent → BluefsExtent
cut_front skip e = if skip == 0 then e else record {
  offset = add64 e.offset skip;
  length = sub64 e.length skip % 2 ^ 32;
  bdev = e.bdev;
}

-- The loop of make_delta.
unfoldable pub delta_from : ℕ → ℕ → List BluefsExtent → List BluefsExtent
delta_from committed pos [] = []
delta_from committed pos (e ∷ es) =
    let rest = delta_from committed (add64 pos e.length) es in
    if leb (add64 pos e.length) committed
    then rest
    else cut_front (if ltb pos committed then committed - pos else 0) e ∷ rest

unfoldable pub make_delta : BluefsFnode → BluefsFnodeDelta
make_delta f = record {
  ino = f.ino;
  size = f.size;
  mtime = f.mtime;
  offset = f.allocated_committed;
  extents = delta_from f.allocated_committed 0 f.extents;
}

-- The replay of OP_FILE_UPDATE_INC in bluefs/bluefs.cc, as far as the fnode; none where the
-- assertion fails.
unfoldable pub replay_delta : BluefsFnodeDelta → BluefsFnode → Option BluefsFnode
replay_delta d f =
    if d.offset == f.allocated
    then some (claim_extents d.extents (record f { mtime = d.mtime; size = d.size }))
    else none
