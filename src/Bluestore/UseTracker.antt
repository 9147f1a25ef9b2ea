-- ===== src/Bluestore/UseTracker.antt =====
-- bluestore_blob_use_tracker_t of bluestore/bluestore_types.h and bluestore_types.cc: how many bytes
-- of each allocation unit of a blob are referenced. num_au and alloc_au are the length of
-- bytes_per_au; the union's total_bytes counts where that is 0. A unit size of 0 divides by zero in
-- the code, and has no meaning here either.
pub mod Ranges
pub mod Refs
pub mod Counts
pub mod Split
pub mod Tests
use cxxlab.Prelude.{
  ℕ, ◌+◌, ◌-◌, ◌*◌, ◌/◌, ◌%◌, ◌^◌, zero, suc, min, max, Bool, true, false, not, ◌&&◌, ◌||◌, List,
  [], ◌∷◌, ◌++◌, Option, none, some, ltb, leb, ◌==◌, if◌then◌else◌, add32, add64, sub32, sub64,
  length, get_elem?,
}
use cxxlab.Btier.ExtentMap.Space.{PExtent}

pub record UseTracker : Type 0 where
  pub au_size : ℕ
  pub total_bytes : ℕ
  pub bytes_per_au : List ℕ

abbrev pub num_au : UseTracker → ℕ
num_au t = length t.bytes_per_au

abbrev pub clear : UseTracker
clear = record { au_size = 0; total_bytes = 0; bytes_per_au = [] }

unfoldable pub zeros : ℕ → List ℕ
zeros zero = []
zeros (suc n) = 0 ∷ zeros n

-- allocate(_num_au), with memset
unfoldable pub allocate : ℕ → UseTracker → UseTracker
allocate n t = record t { bytes_per_au = zeros n }

unfoldable pub init : ℕ → ℕ → UseTracker
init full_length au =
    let n = sub32 (add32 full_length au) 1 / au in
    let t = record clear { au_size = au } in if leb n 1 then t else allocate n t

unfoldable pub sum32 : List ℕ → ℕ
sum32 [] = 0
sum32 (b ∷ bs) = add32 b (sum32 bs)

unfoldable pub get_referenced_bytes : UseTracker → ℕ
get_referenced_bytes t = if num_au t == 0 then t.total_bytes else sum32 t.bytes_per_au

unfoldable pub all_zero : List ℕ → Bool
all_zero [] = true
all_zero (b ∷ bs) = b == 0 && all_zero bs

unfoldable pub is_empty : UseTracker → Bool
is_empty t = if num_au t == 0 then t.total_bytes == 0 else all_zero t.bytes_per_au

-- bytes_per_au[pos] = v; out of range nothing is written.
unfoldable pub set_bytes : ℕ → ℕ → List ℕ → List ℕ
set_bytes pos v [] = []
set_bytes zero v (b ∷ bs) = v ∷ bs
set_bytes (suc pos) v (b ∷ bs) = b ∷ set_bytes pos v bs

-- bytes_per_au[pos]; 0 stands for a read out of range.
unfoldable pub bytes_at : ℕ → List ℕ → ℕ
bytes_at pos [] = 0
bytes_at zero (b ∷ bs) = b
bytes_at (suc pos) (b ∷ bs) = bytes_at pos bs

-- The bytes of a round that starts at an offset: to the end of its unit or of the range.
abbrev pub chunk : ℕ → ℕ → ℕ → ℕ
chunk au offset end = min (au - offset % au) (end - offset)

-- The loop of get; none where the fuel has run out.
unfoldable pub get_loop : ℕ → ℕ → ℕ → ℕ → List ℕ → Option (List ℕ)
get_loop zero au offset end bytes = if ltb offset end then none else some bytes
get_loop (suc fuel) au offset end bytes =
    let diff = chunk au offset end in
    let pos = offset / au in
    let rest =
      get_loop fuel au (add32 offset diff) end
        (set_bytes pos (add32 (bytes_at pos bytes) diff) bytes) in
    if ltb offset end then rest else some bytes

abbrev pub with_bytes : UseTracker → Option (List ℕ) → Option UseTracker
with_bytes t none = none
with_bytes t (some bs) = some (record t { bytes_per_au = bs })

-- Every round but the first and the last takes a whole unit, so `len` rounds are enough.
unfoldable pub get : ℕ → ℕ → UseTracker → Option UseTracker
get offset len t =
    if num_au t == 0
    then some (record t { total_bytes = add32 t.total_bytes len })
    else with_bytes t (get_loop len t.au_size offset (add32 offset len) t.bytes_per_au)

pub record PutState : Type 0 where
  pub bytes : List ℕ
  pub released : List PExtent
  pub next_offs : ℕ
  pub maybe_empty : Bool

-- release->back().length += n
unfoldable pub grow_back : ℕ → List PExtent → List PExtent
grow_back n [] = []
grow_back n (e ∷ []) = record e { length = add32 e.length n } ∷ []
grow_back n (e ∷ d ∷ es) = e ∷ grow_back n (d ∷ es)

abbrev pub no_extents : List PExtent → Bool
no_extents [] = true
no_extents (e ∷ es) = false

-- A unit that has no reference left joins the last released extent, or starts a new one.
unfoldable pub release_unit : ℕ → ℕ → PutState → PutState
release_unit au at s =
    if no_extents s.released || not (s.next_offs == at)
    then record s {
      released = s.released ++ record { offset = at; length = au } ∷ [];
      next_offs = add64 at au;
    }
    else record s { released = grow_back au s.released; next_offs = add64 s.next_offs au }

-- The count of one unit after a round; pos * au_size is a product of 64-bit numbers.
unfoldable pub put_unit : ℕ → ℕ → ℕ → PutState → PutState
put_unit au pos diff s =
    let left = bytes_at pos s.bytes - diff in
    let s' = record s { bytes = set_bytes pos left s.bytes } in
    if left == 0 then release_unit au (pos * au % 2 ^ 64) s' else record s' { maybe_empty = false }

-- What a run of put gives: none for a failed assertion, and for fuel that has run out.
unfoldable pub put_loop : ℕ → ℕ → ℕ → ℕ → PutState → Option PutState
put_loop zero au offset end s = if ltb offset end then none else some s
put_loop (suc fuel) au offset end s =
    let phase = offset % au in
    let diff = chunk au offset end in
    let pos = offset / au in
    let rest =
      put_loop fuel au (add32 offset (if phase == 0 then au else au - phase)) end
        (put_unit au pos diff s) in
    if ltb offset end then if leb diff (bytes_at pos s.bytes) then rest else none else some s

-- The tracker, whether it is empty, and the extents to release: none where the blob goes as a whole.
pub record PutResult : Type 0 where
  pub tracker : UseTracker
  pub empty : Bool
  pub release : List PExtent

abbrev pub put_result : UseTracker → Option PutState → Option PutResult
put_result t none = none
put_result t (some s) =
    let t' = record t { bytes_per_au = s.bytes } in
    let empty = s.maybe_empty && is_empty t' in
    some (record { tracker = t'; empty = empty; release = if empty then [] else s.released })

unfoldable pub put : ℕ → ℕ → UseTracker → Option PutResult
put offset len t =
    if num_au t == 0
    then if leb t.total_bytes len
      then some (record { tracker = record t { total_bytes = 0 }; empty = true; release = [] })
      else some (record {
        tracker = record t { total_bytes = t.total_bytes - len };
        empty = false;
        release = [];
      })
    else put_result t (
        put_loop (suc len) t.au_size offset (add32 offset len)
          (record { bytes = t.bytes_per_au; released = []; next_offs = 0; maybe_empty = true }))

unfoldable pub can_split : UseTracker → Bool
can_split t = ltb 0 (num_au t)

-- None where the assertion fails.
unfoldable pub can_split_at : ℕ → UseTracker → Option Bool
can_split_at blob_offset t =
    if t.au_size == 0
    then none
    else some (blob_offset % t.au_size == 0 && ltb blob_offset (num_au t * t.au_size % 2 ^ 32))

-- memcpy of the first entries, and of those behind them
unfoldable pub take_bytes : ℕ → List ℕ → List ℕ
take_bytes n [] = []
take_bytes zero (b ∷ bs) = []
take_bytes (suc n) (b ∷ bs) = b ∷ take_bytes n bs

unfoldable pub drop_bytes : ℕ → List ℕ → List ℕ
drop_bytes n [] = []
drop_bytes zero (b ∷ bs) = b ∷ bs
drop_bytes (suc n) (b ∷ bs) = drop_bytes n bs

-- The left part stays in the tracker, the right part is written to another one.
unfoldable pub split : ℕ → UseTracker → UseTracker × UseTracker
split blob_offset t =
    let n = blob_offset / t.au_size in
    (
      record t { bytes_per_au = take_bytes n t.bytes_per_au },
      record { au_size = t.au_size; total_bytes = 0; bytes_per_au = drop_bytes n t.bytes_per_au },
    )

abbrev pub first_bytes : ℕ → UseTracker → UseTracker
first_bytes old t =
    if num_au t == 0 then t else record t { bytes_per_au = set_bytes 0 old t.bytes_per_au }

unfoldable pub add_tail : ℕ → ℕ → UseTracker → UseTracker
add_tail new_len au t =
    let n = num_au t in
    let units = if n == 0 then 1 else n in
    let new_num = new_len / au in
    if new_len == t.au_size * units % 2 ^ 32
    then t
    else if n == 0
    then first_bytes t.total_bytes (init new_len au)
    else if ltb n new_num
    then record t { bytes_per_au = t.bytes_per_au ++ zeros (new_num - n) }
    else t

-- The copy constructor and operator=; none for one unit, where init makes no array and memcpy writes to
-- its null pointer.
unfoldable pub copy : UseTracker → Option UseTracker
copy o =
    let n = num_au o in
    let t = init (o.au_size * (if n == 0 then 1 else n) % 2 ^ 32) o.au_size in
    if o.au_size == 0
    then some clear
    else if n == 0
    then some (record t { total_bytes = o.total_bytes })
    else if n == 1
    then none
    else some (record t { bytes_per_au = o.bytes_per_au })

unfoldable pub same_bytes : List ℕ → List ℕ → Bool
same_bytes [] [] = true
same_bytes [] (c ∷ cs) = false
same_bytes (b ∷ bs) [] = false
same_bytes (b ∷ bs) (c ∷ cs) = b == c && same_bytes bs cs

unfoldable pub equal : UseTracker → UseTracker → Bool
equal t o =
    if num_au t == 0 && num_au o == 0
    then t.total_bytes == o.total_bytes && t.au_size == o.au_size
    else if ltb 0 (num_au t) && ltb 0 (num_au o)
    then t.au_size == o.au_size && same_bytes t.bytes_per_au o.bytes_per_au
    else let referenced =
        if num_au t == 0 then get_referenced_bytes t else get_referenced_bytes o in
      referenced == 0
      && (t.au_size == o.au_size
          && all_zero (if num_au t == 0 then o.bytes_per_au else t.bytes_per_au))
