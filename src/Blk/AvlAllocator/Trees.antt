-- ===== src/Blk/AvlAllocator/Trees.antt =====
-- blk/avl_allocator.cc: the two trees as lists: which numbers they cover, their order, which nodes they
-- have, and their total length.
use cxxlab.Prelude.{
  ℕ, ◌+◌, ◌-◌, ◌≤◌, ◌<◌, ◌≡◌, refl, ap, arith, Bool, true, false, not, ◌&&◌, ◌||◌, List, [], ◌∷◌,
  ◌++◌, ltb, if-cases, leb→le, leb→lt, ◌⊎◌, inl, inr, leb,
}
use cxxlab.Blk.AvlAllocator.{
  RangeSeg, is_before, is_shorter, same_node, size_insert, size_erase, Place, at_begin, behind,
  step_over, upper_bound, Found, missing, found, pass_over, find_node,
}

abbrev pub inside : ℕ → ℕ → ℕ → Bool
inside start end n = leb start n && ltb n end

-- Whether a number is in one of the ranges.
unfoldable pub covers : List RangeSeg → ℕ → Bool
covers [] n = false
covers (x ∷ l) n = inside x.start x.end n || covers l n

unfoldable pub has_node : RangeSeg → List RangeSeg → Bool
has_node r [] = false
has_node r (x ∷ l) = same_node r x || has_node r l

unfoldable pub total : List RangeSeg → ℕ
total [] = 0
total (x ∷ l) = (x.end - x.start) + total l

-- Ranges that are not empty, in order and apart from each other, from a number on.
unfoldable pub IsFrom : ℕ → List RangeSeg → Type 0
IsFrom lo [] = Unit
IsFrom lo (x ∷ l) = (lo ≤ x.start) × (x.start < x.end) × IsFrom x.end l

-- Where the last of the ranges ends.
unfoldable pub end_of : ℕ → List RangeSeg → ℕ
end_of lo [] = lo
end_of lo (x ∷ l) = end_of x.end l

pub covers-append : (l m : List RangeSeg) (n : ℕ) → covers (l ++ m) n ≡ (covers l n || covers m n)
unfolding covers
covers-append [] m n = refl
covers-append (x ∷ l) m n = ground (arith, covers-append l m n)

pub has_node-append :
    (r : RangeSeg) (l m : List RangeSeg) → has_node r (l ++ m) ≡ (has_node r l || has_node r m)
unfolding has_node
has_node-append r [] m = refl
has_node-append r (x ∷ l) m = ground (arith, has_node-append r l m)

pub total-append : (l m : List RangeSeg) → total (l ++ m) ≡ total l + total m
unfolding total
total-append [] m = omega arith
total-append (x ∷ l) m = omega (arith, total-append l m)

pub IsFrom-append :
    (lo : ℕ) (l m : List RangeSeg) → IsFrom lo (l ++ m) → IsFrom lo l × IsFrom (end_of lo l) m
unfolding IsFrom end_of
IsFrom-append lo [] m h = (tt, h)
IsFrom-append lo (x ∷ l) m h = let (a, b) = IsFrom-append x.end l m h.2 in ((h.0, h.1, a), b)

pub append-IsFrom :
    (lo : ℕ) (l m : List RangeSeg) → IsFrom lo l → IsFrom (end_of lo l) m → IsFrom lo (l ++ m)
unfolding IsFrom end_of
append-IsFrom lo [] m h k = k
append-IsFrom lo (x ∷ l) m h k = (h.0, h.1, append-IsFrom x.end l m h.2 k)

pub end_of-append : (lo : ℕ) (l m : List RangeSeg) → end_of lo (l ++ m) ≡ end_of (end_of lo l) m
unfolding end_of
end_of-append lo [] m = refl
end_of-append lo (x ∷ l) m = end_of-append x.end l m

pub end_of-node :
    (lo : ℕ) (front : List RangeSeg) (r : RangeSeg) (rest : List RangeSeg)
    → end_of lo (front ++ (r ∷ rest)) ≡ end_of r.end rest
unfolding end_of
end_of-node lo front r rest = end_of-append lo front (r ∷ rest)

pub end_of-le_of :
    (lo hi bound : ℕ) (l : List RangeSeg) → end_of lo l ≤ bound → hi ≤ bound → end_of hi l ≤ bound
unfolding end_of
end_of-le_of lo hi bound [] h k = k
end_of-le_of lo hi bound (x ∷ l) h k = h

-- What is in front of a node and behind it.
pub IsFrom-node :
    (lo : ℕ) (front : List RangeSeg) (r : RangeSeg) (rest : List RangeSeg)
    → IsFrom lo (front ++ (r ∷ rest))
    → IsFrom lo front × (end_of lo front ≤ r.start) × (r.start < r.end) × IsFrom r.end rest
unfolding IsFrom
IsFrom-node lo front r rest h =
    let (a, b) = IsFrom-append lo front (r ∷ rest) h in (a, b.0, b.1, b.2)

pub node-IsFrom :
    (lo : ℕ) (front : List RangeSeg) (r : RangeSeg) (rest : List RangeSeg)
    → IsFrom lo front
    → end_of lo front ≤ r.start
    → r.start < r.end
    → IsFrom r.end rest
    → IsFrom lo (front ++ (r ∷ rest))
unfolding IsFrom
node-IsFrom lo front r rest a b c d = append-IsFrom lo front (r ∷ rest) a (b, c, d)

pub end_of-le : (lo : ℕ) (l : List RangeSeg) → IsFrom lo l → lo ≤ end_of lo l
unfolding IsFrom end_of
end_of-le lo [] h = omega arith
end_of-le lo (x ∷ l) h = omega (arith, h.0, h.1, end_of-le x.end l h.2)

pub IsFrom-weaken : (lo hi : ℕ) (l : List RangeSeg) → IsFrom hi l → lo ≤ hi → IsFrom lo l
unfolding IsFrom
IsFrom-weaken lo hi [] h k = tt
IsFrom-weaken lo hi (x ∷ l) h k = (omega (arith, h.0, k), h.1, h.2)

pub total-le : (lo : ℕ) (l : List RangeSeg) → IsFrom lo l → lo + total l ≤ end_of lo l
unfolding IsFrom end_of total
total-le lo [] h = omega arith
total-le lo (x ∷ l) h = omega (arith, h.0, h.1, total-le x.end l h.2)

-- What a range before, or behind, is not part of.
pub covers-below : (lo n : ℕ) (l : List RangeSeg) → IsFrom lo l → n < lo → covers l n ≡ false
unfolding IsFrom covers
covers-below lo n [] h k = refl
covers-below lo n (x ∷ l) h k =
    ground (arith, h.0, h.1, k, covers-below x.end n l h.2 (omega (arith, h.0, h.1, k)))

pub covers-above :
    (lo n : ℕ) (l : List RangeSeg) → IsFrom lo l → end_of lo l ≤ n → covers l n ≡ false
unfolding IsFrom covers end_of
covers-above lo n [] h k = refl
covers-above lo n (x ∷ l) h k =
    ground (arith, h.0, h.1, k, end_of-le x.end l h.2, covers-above x.end n l h.2 k)

pub has_node-same :
    (x r : RangeSeg) (l : List RangeSeg) → same_node x r ≡ true → has_node x l ≡ has_node r l
unfolding has_node
has_node-same x r [] h = refl
has_node-same x r (y ∷ l) h = ground (arith, h, has_node-same x r l h)

-- A node covers its first number.
has_node-covers :
    (lo : ℕ) (r : RangeSeg) (l : List RangeSeg)
    → IsFrom lo l
    → (has_node r l && not (covers l r.start)) ≡ false
unfolding IsFrom covers has_node
has_node-covers lo r [] h = refl
has_node-covers lo r (x ∷ l) h = ground (arith, h.0, h.1, has_node-covers x.end r l h.2)

pub has_node-above :
    (lo : ℕ) (r : RangeSeg) (l : List RangeSeg)
    → IsFrom lo l
    → end_of lo l ≤ r.start
    → has_node r l ≡ false
has_node-above lo r l h k = ground (arith, has_node-covers lo r l h, covers-above lo r.start l h k)

pub has_node-below :
    (lo : ℕ) (r : RangeSeg) (l : List RangeSeg) → IsFrom lo l → r.start < lo → has_node r l ≡ false
has_node-below lo r l h k = ground (arith, has_node-covers lo r l h, covers-below lo r.start l h k)

pub has_node-size_insert :
    (r x : RangeSeg) (l : List RangeSeg)
    → has_node r (size_insert x l) ≡ (same_node r x || has_node r l)
unfolding has_node size_insert
has_node-size_insert r x [] = refl
has_node-size_insert r x (y ∷ l) =
    if-cases (λ (m : List RangeSeg). has_node r m ≡ (same_node r x || has_node r (y ∷ l)))
      (is_shorter x y) (λ before. refl) (λ later. ground (arith, has_node-size_insert r x l))

pub has_node-size_erase :
    (r x : RangeSeg) (l : List RangeSeg)
    → has_node r (size_erase x l) ≡ (not (same_node r x) && has_node r l)
unfolding has_node size_erase
has_node-size_erase r x [] = ground arith
has_node-size_erase r x (y ∷ l) = ground (arith, has_node-size_erase r x l)

-- The place that upper_bound finds for a key: the nodes behind it lie behind the key, and the node in
-- front of it starts before the key ends.
abbrev pub IsPlace : RangeSeg → List RangeSeg → Place → Type 0
IsPlace key l (at_begin rest) = (l ≡ rest) × IsFrom key.end rest
IsPlace key l (behind front b rest) =
    (l ≡ front ++ (b ∷ rest)) × (b.start < key.end) × IsFrom key.end rest

step_over-IsPlace :
    (key x : RangeSeg) (l : List RangeSeg) (p : Place)
    → x.start < key.end
    → IsPlace key l p
    → IsPlace key (x ∷ l) (step_over x p)
step_over-IsPlace key x l (at_begin rest) h k = (ap (λ (m : List RangeSeg). x ∷ m) k.0, h, k.1)
step_over-IsPlace key x l (behind front b rest) h k =
    (ap (λ (m : List RangeSeg). x ∷ m) k.0, k.1, k.2)

pub upper_bound-IsPlace :
    (lo : ℕ) (key : RangeSeg) (l : List RangeSeg) → IsFrom lo l → IsPlace key l (upper_bound key l)
unfolding IsFrom upper_bound
upper_bound-IsPlace lo key [] h = (refl, tt)
upper_bound-IsPlace lo key (x ∷ l) h =
    if-cases (λ (p : Place). IsPlace key (x ∷ l) p) (is_before key x)
      (λ past. (refl, (leb→le key.end x.start past, h.1, h.2)))
      (λ on.
        step_over-IsPlace key x l (upper_bound key l) (leb→lt key.end x.start on)
          (upper_bound-IsPlace x.end key l h.2))

-- The node that find gives for a range that one of the nodes contains.
abbrev pub IsFound : RangeSeg → List RangeSeg → Found → Type 0
IsFound key l missing = ⊥
IsFound key l (found front r rest) =
    (l ≡ front ++ (r ∷ rest)) × (r.start ≤ key.start) × (key.end ≤ r.end)

pass_over-IsFound :
    (key x : RangeSeg) (l : List RangeSeg) (f : Found)
    → IsFound key l f
    → IsFound key (x ∷ l) (pass_over x f)
pass_over-IsFound key x l missing k = k
pass_over-IsFound key x l (found front r rest) k = (ap (λ (m : List RangeSeg). x ∷ m) k.0, k.1, k.2)

-- Whether one of the nodes contains a range.
abbrev pub Contains : RangeSeg → List RangeSeg → Type 0
Contains key [] = ⊥
Contains key (x ∷ l) = ((x.start ≤ key.start) × (key.end ≤ x.end)) ⊎ Contains key l

Contains-IsFrom :
    (lo : ℕ) (key : RangeSeg) (l : List RangeSeg) → IsFrom lo l → Contains key l → lo ≤ key.start
unfolding IsFrom
Contains-IsFrom lo key [] h k = absurd k
Contains-IsFrom lo key (x ∷ l) h (inl k) = omega (arith, h.0, k.0)
Contains-IsFrom lo key (x ∷ l) h (inr k) =
    omega (arith, h.0, h.1, Contains-IsFrom x.end key l h.2 k)

pub find_node-IsFound :
    (lo : ℕ) (key : RangeSeg) (l : List RangeSeg)
    → IsFrom lo l
    → key.start < key.end
    → Contains key l
    → IsFound key l (find_node key l)
unfolding IsFrom find_node
find_node-IsFound lo key [] h k c = absurd c
find_node-IsFound lo key (x ∷ l) h k (inl c) =
    let on : is_before x key ≡ false = ground (arith, k, c.0, c.1) in
    let here : is_before key x ≡ false = ground (arith, k, c.0, c.1) in
    rw (on, here) (refl, c.0, c.1)
find_node-IsFound lo key (x ∷ l) h k (inr c) =
    let past : is_before x key ≡ true = ground (arith, Contains-IsFrom x.end key l h.2 c) in
    rw past (pass_over-IsFound key x l (find_node key l) (find_node-IsFound x.end key l h.2 k c))
