-- ===== src/Btier/FreeList.antt =====
-- btier/extent_map.cc: `std::set<ExtentFreeEntry>`, ordered by free bytes and then by extent.
use cxxlab.Prelude.{ℕ, Bool, false, ◌&&◌, ◌||◌, List, [], ◌∷◌, ltb, ◌==◌, if◌then◌else◌}

pub record FreeEntry : Type 0 where
  pub free_bytes : ℕ
  pub extent_id : ℕ

abbrev pub free_entry : ℕ → ℕ → FreeEntry
free_entry bytes id = record { free_bytes = bytes; extent_id = id }

-- operator<
abbrev pub before : FreeEntry → FreeEntry → Bool
before a b =
    ltb a.free_bytes b.free_bytes || (a.free_bytes == b.free_bytes && ltb a.extent_id b.extent_id)

unfoldable pub insert : FreeEntry → List FreeEntry → List FreeEntry
insert x [] = x ∷ []
insert x (y ∷ ys) =
    if before x y
    then x ∷ y ∷ ys
    else (let rest = insert x ys in if before y x then y ∷ rest else y ∷ ys)

unfoldable pub erase : FreeEntry → List FreeEntry → List FreeEntry
erase x [] = []
erase x (y ∷ ys) = let rest = erase x ys in if before x y || before y x then y ∷ rest else ys

-- The suffix that `lower_bound` points at.
unfoldable pub lower_bound : FreeEntry → List FreeEntry → List FreeEntry
lower_bound x [] = []
lower_bound x (y ∷ ys) = if before y x then lower_bound x ys else y ∷ ys

unfoldable pub contains : FreeEntry → List FreeEntry → Bool
contains x [] = false
contains x (y ∷ ys) = (y.free_bytes == x.free_bytes && y.extent_id == x.extent_id) || contains x ys
