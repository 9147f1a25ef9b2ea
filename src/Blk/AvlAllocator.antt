-- ===== src/Blk/AvlAllocator.antt =====
-- blk/avl_allocator.h and avl_allocator.cc: the free ranges of a device. A tree is the list of its
-- nodes in its order: by offset, or by length and offset. Every method holds the lock, so a method is a
-- function of the state; none is a failed assertion.
pub mod Pick
pub mod Operations
pub mod Trees
pub mod Lengths
pub mod Change
pub mod Grow
pub mod Add
pub mod Remove
pub mod Searches
pub mod Allocate
pub mod Loop
pub mod Release
pub mod Progress
pub mod Least
pub mod Tests
use cxxlab.Prelude.{
  ℕ, ◌+◌, ◌-◌, ◌*◌, ◌/◌, ◌%◌, ◌^◌, zero, suc, min, Bool, true, false, not, ◌&&◌, ◌||◌, List, [],
  ◌∷◌, ◌++◌, Option, none, some, ltb, leb, ◌==◌, if◌then◌else◌, add64, sub64, length,
}

-- range_seg_t, and the range_t of a search.
pub record RangeSeg : Type 0 where
  pub start : ℕ
  pub end : ℕ

-- range_seg_t::length
abbrev pub length_of : RangeSeg → ℕ
length_of r = sub64 r.end r.start

-- before_t and shorter_t
abbrev pub is_before : RangeSeg → RangeSeg → Bool
is_before l r = leb l.end r.start

abbrev pub is_shorter : RangeSeg → RangeSeg → Bool
is_shorter l r =
    if ltb (length_of l) (length_of r)
    then true
    else if ltb (length_of r) (length_of l)
    then false
    else ltb l.start r.start

pub record AvlAllocator : Type 0 where
  pub device_size : ℕ
  pub block_size : ℕ
  pub range_count_cap : ℕ
  pub range_tree : List RangeSeg
  pub range_size_tree : List RangeSeg
  pub num_free : ℕ
  pub lbas : ℕ → ℕ

-- range_size_alloc_threshold_, range_size_alloc_free_pct_, max_search_count_ and max_search_bytes_
abbrev pub range_size_alloc_threshold : ℕ
range_size_alloc_threshold = 131072

abbrev pub range_size_alloc_free_pct : ℕ
range_size_alloc_free_pct = 4

abbrev pub max_search_count : ℕ
max_search_count = 100

abbrev pub max_search_bytes : ℕ
max_search_bytes = 16777216

abbrev pub new_allocator : ℕ → ℕ → ℕ → AvlAllocator
new_allocator device_size block_size cap = record {
  device_size = device_size;
  block_size = block_size;
  range_count_cap = cap;
  range_tree = [];
  range_size_tree = [];
  num_free = 0;
  lbas = λ i. 0;
}

abbrev pub then_do : {A B : Type 0} → Option A → (A → Option B) → Option B
then_do none f = none
then_do (some a) f = f a

-- A node is found by its two numbers, which no other node of a tree has.
abbrev pub same_node : RangeSeg → RangeSeg → Bool
same_node r x = r.start == x.start && r.end == x.end

unfoldable pub size_insert : RangeSeg → List RangeSeg → List RangeSeg
size_insert r [] = r ∷ []
size_insert r (x ∷ l) = let rest = size_insert r l in if is_shorter r x then r ∷ x ∷ l else x ∷ rest

unfoldable pub size_erase : RangeSeg → List RangeSeg → List RangeSeg
size_erase r [] = []
size_erase r (x ∷ l) = let rest = size_erase r l in if same_node r x then rest else x ∷ rest

-- A place in the range tree: what is in front of it, its last node apart, and what is behind it.
pub data Place : Type 0 where
  at_begin : (rest : List RangeSeg) → Place
  behind : (front : List RangeSeg) (node : RangeSeg) (rest : List RangeSeg) → Place

abbrev pub step_over : RangeSeg → Place → Place
step_over x (at_begin rest) = behind [] x rest
step_over x (behind front node rest) = behind (x ∷ front) node rest

-- upper_bound: the place in front of the first node that the key is before.
unfoldable pub upper_bound : RangeSeg → List RangeSeg → Place
upper_bound key [] = at_begin []
upper_bound key (x ∷ l) =
    let later = step_over x (upper_bound key l) in
    if is_before key x then at_begin (x ∷ l) else later

-- A node of the range tree between the others, and the whole list again.
pub data Found : Type 0 where
  missing : Found
  found : (front : List RangeSeg) (node : RangeSeg) (rest : List RangeSeg) → Found

abbrev pub pass_over : RangeSeg → Found → Found
pass_over x missing = missing
pass_over x (found front node rest) = found (x ∷ front) node rest

-- find: the first node that is not before the key, if the key is not before it.
unfoldable pub find_node : RangeSeg → List RangeSeg → Found
find_node key [] = missing
find_node key (x ∷ l) =
    let later = pass_over x (find_node key l) in
    if is_before x key then later else if is_before key x then missing else found [] x l

-- _range_size_tree_rm
unfoldable pub range_size_tree_rm : RangeSeg → AvlAllocator → Option AvlAllocator
range_size_tree_rm r a =
    if leb (length_of r) a.num_free
    then some (record a {
      num_free = sub64 a.num_free (length_of r);
      range_size_tree = size_erase r a.range_size_tree;
    })
    else none

-- _try_insert_range, whether the cap leaves room. Where it does not, a range is spilled over, which this
-- class asserts not to happen.
abbrev pub has_room : AvlAllocator → Bool
has_room a = a.range_count_cap == 0 || ltb (length a.range_size_tree) a.range_count_cap

-- _range_size_tree_try_insert, and _try_insert_range with a place, where the tree has the new node.
unfoldable pub range_size_tree_insert : RangeSeg → AvlAllocator → Option AvlAllocator
range_size_tree_insert r a =
    if has_room a
    then some (record a {
      num_free = add64 a.num_free (length_of r);
      range_size_tree = size_insert r a.range_size_tree;
    })
    else none

abbrev pub with_tree : List RangeSeg → AvlAllocator → AvlAllocator
with_tree l a = record a { range_tree = l }

-- _add_to_tree without a node behind the range that it touches, and with one.
abbrev pub add_between : ℕ → ℕ → Place → AvlAllocator → Option AvlAllocator
add_between start end (at_begin rest) a =
    let new : RangeSeg = record { start = start; end = end } in
    range_size_tree_insert new (with_tree (new ∷ rest) a)
add_between start end (behind front b rest) a =
    let new : RangeSeg = record { start = start; end = end } in
    let grown : RangeSeg = record { start = b.start; end = end } in
    let merged =
      then_do (range_size_tree_rm b a)
        (λ a1. range_size_tree_insert grown (with_tree (front ++ (grown ∷ rest)) a1)) in
    if b.end == start
    then merged
    else range_size_tree_insert new (with_tree (front ++ (b ∷ (new ∷ rest))) a)

abbrev pub add_touching : ℕ → RangeSeg → List RangeSeg → Place → AvlAllocator → Option AvlAllocator
add_touching start x rest (at_begin l) a =
    let grown : RangeSeg = record { start = start; end = x.end } in
    then_do (range_size_tree_rm x a)
      (λ a1. range_size_tree_insert grown (with_tree (grown ∷ rest) a1))
add_touching start x rest (behind front b l) a =
    let grown : RangeSeg = record { start = start; end = x.end } in
    let joined : RangeSeg = record { start = b.start; end = x.end } in
    let only_after =
      then_do (range_size_tree_rm x a)
        (λ a1. range_size_tree_insert grown (with_tree (front ++ (b ∷ (grown ∷ rest))) a1)) in
    let both = then_do (range_size_tree_rm b a) (λ a1.
      then_do (range_size_tree_rm x a1)
        (λ a2. range_size_tree_insert joined (with_tree (front ++ (joined ∷ rest)) a2))) in
    if b.end == start then both else only_after

abbrev pub rest_of : Place → List RangeSeg
rest_of (at_begin rest) = rest
rest_of (behind front node rest) = rest

abbrev pub add_at : ℕ → ℕ → List RangeSeg → Place → AvlAllocator → Option AvlAllocator
add_at start end [] p a = add_between start end p a
add_at start end (x ∷ rest) p a =
    if x.start == end then add_touching start x rest p a else add_between start end p a

-- _add_to_tree
unfoldable pub add_to_tree : ℕ → ℕ → AvlAllocator → Option AvlAllocator
add_to_tree start size a =
    let end = add64 start size in
    let p = upper_bound (record { start = start; end = end }) a.range_tree in
    if size == 0 then none else add_at start end (rest_of p) p a

-- _process_range_removal
unfoldable pub process_range_removal :
    ℕ → ℕ → List RangeSeg → RangeSeg → List RangeSeg → AvlAllocator → Option AvlAllocator
process_range_removal start end front r rest a =
    let left : RangeSeg = record { start = r.start; end = start } in
    let right : RangeSeg = record { start = end; end = r.end } in
    let gone = range_size_tree_rm r a in
    let both = then_do gone (λ a1.
      then_do (range_size_tree_insert right (with_tree (front ++ (left ∷ (right ∷ rest))) a1))
        (λ a2. range_size_tree_insert left a2)) in
    let only_left =
      then_do gone (λ a1. range_size_tree_insert left (with_tree (front ++ (left ∷ rest)) a1)) in
    let only_right =
      then_do gone (λ a1. range_size_tree_insert right (with_tree (front ++ (right ∷ rest)) a1)) in
    let all = then_do gone (λ a1. some (with_tree (front ++ rest) a1)) in
    if r.start == start
    then if r.end == end then all else only_right
    else if r.end == end
    then only_left
    else both

abbrev pub remove_found : ℕ → ℕ → ℕ → Found → AvlAllocator → Option AvlAllocator
remove_found start end size missing a = none
remove_found start end size (found front r rest) a =
    let go = process_range_removal start end front r rest a in
    if leb r.start start && (leb end r.end && leb size a.num_free) then go else none

-- _remove_from_tree
unfoldable pub remove_from_tree : ℕ → ℕ → AvlAllocator → Option AvlAllocator
remove_from_tree start size a =
    let end = add64 start size in
    let go =
      remove_found start end size (find_node (record { start = start; end = end }) a.range_tree)
        a in
    if size == 0 then none else go
