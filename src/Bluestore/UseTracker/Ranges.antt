-- ===== src/Bluestore/UseTracker/Ranges.antt =====
-- A range of bytes over the units of a blob: a list of counts, each changed by the bytes of the range
-- that lie in its unit. The loops of get and put are compared with it.
use cxxlab.Prelude.{
  ℕ, ◌+◌, ◌-◌, ◌*◌, ◌^◌, zero, suc, min, max, ◌≤◌, ◌<◌, ◌≡◌, refl, List, [], ◌∷◌, arith, length,
}
use cxxlab.Bluestore.UseTracker.{set_bytes, bytes_at}

-- The bytes of [offset, end) in the unit of au bytes at lo.
unfoldable pub overlap : ℕ → ℕ → ℕ → ℕ → ℕ
overlap au lo offset end = min (lo + au) end - max lo offset

unfoldable pub on_range : (ℕ → ℕ → ℕ) → ℕ → ℕ → ℕ → ℕ → List ℕ → List ℕ
on_range f au lo offset end [] = []
on_range f au lo offset end (b ∷ bs) =
    f b (overlap au lo offset end) ∷ on_range f au (lo + au) offset end bs

-- P relates each count to the bytes of the range in its unit, and the range ends with the units.
unfoldable pub Each : (ℕ → ℕ → Type 0) → ℕ → ℕ → ℕ → ℕ → List ℕ → Type 0
Each P au lo offset end [] = end ≤ lo
Each P au lo offset end (b ∷ bs) =
    P b (overlap au lo offset end) × Each P au (lo + au) offset end bs

pub overlap-add :
    (au lo o u e : ℕ) → o ≤ u → overlap au lo o (min u e) + overlap au lo u e ≡ overlap au lo o e
unfolding overlap
overlap-add au lo o u e h = omega arith

module _ (f : ℕ → ℕ → ℕ) (f-zero : (b : ℕ) → f b 0 ≡ b) where
  pub on_range-below : (au lo o m : ℕ) (bs : List ℕ) → m ≤ lo → on_range f au lo o m bs ≡ bs
  unfolding on_range overlap
  on_range-below au lo o m [] h = refl
  on_range-below au lo o m (b ∷ bs) h =
      let none : min (lo + au) m - max lo o ≡ 0 = omega arith in
      rw (none, f-zero b, on_range-below au (lo + au) o m bs (omega arith)) refl

  pub on_range-empty : (au lo o e : ℕ) (bs : List ℕ) → e ≤ o → on_range f au lo o e bs ≡ bs
  unfolding on_range overlap
  on_range-empty au lo o e [] h = refl
  on_range-empty au lo o e (b ∷ bs) h =
      let none : min (lo + au) e - max lo o ≡ 0 = omega arith in
      rw (none, f-zero b, on_range-empty au (lo + au) o e bs h) refl

  pub on_range-unit :
      (pos au lo o m : ℕ) (bs : List ℕ)
      → lo + pos * au ≤ o
      → o ≤ m
      → m ≤ lo + pos * au + au
      → set_bytes pos (f (bytes_at pos bs) (m - o)) bs ≡ on_range f au lo o m bs
  unfolding on_range overlap set_bytes bytes_at
  on_range-unit pos au lo o m [] h k l = refl
  on_range-unit zero au lo o m (b ∷ bs) h k l =
      let whole : min (lo + au) m - max lo o ≡ m - o = omega arith in
      rw (whole, on_range-below au (lo + au) o m bs (omega arith)) refl
  on_range-unit (suc pos) au lo o m (b ∷ bs) h k l =
      let none : min (lo + au) m - max lo o ≡ 0 = omega arith in
      rw (none, f-zero b, on_range-unit pos au (lo + au) o m bs (omega arith) k (omega arith)) refl

module _ (f : ℕ → ℕ → ℕ) (f-add : (b x y : ℕ) → f (f b x) y ≡ f b (x + y)) where
  pub on_range-join :
      (au lo o u e : ℕ) (bs : List ℕ)
      → o ≤ u
      → on_range f au lo u e (on_range f au lo o (min u e) bs) ≡ on_range f au lo o e bs
  unfolding on_range
  on_range-join au lo o u e [] h = refl
  on_range-join au lo o u e (b ∷ bs) h =
      rw
        (
          f-add b (overlap au lo o (min u e)) (overlap au lo u e),
          overlap-add au lo o u e h,
          on_range-join au (lo + au) o u e bs h,
        )
        refl

module _ (P : ℕ → ℕ → Type 0) where
  -- The count of the unit at pos, with a part of the range in it.
  pub Each-unit :
      ((b x y : ℕ) → y ≤ x → P b x → P b y)
      → (pos au lo o m e : ℕ) (bs : List ℕ) → lo + pos * au ≤ o
      → o < m
      → m ≤ e
      → m ≤ lo + pos * au + au
      → Each P au lo o e bs
      → P (bytes_at pos bs) (m - o)
  unfolding Each overlap bytes_at
  Each-unit mono pos au lo o m e [] h k l n each = absurd (omega arith)
  Each-unit mono zero au lo o m e (b ∷ bs) h k l n (p, each) =
      mono b (min (lo + au) e - max lo o) (m - o) (omega arith) p
  Each-unit mono (suc pos) au lo o m e (b ∷ bs) h k l n (p, each) =
      Each-unit mono pos au (lo + au) o m e bs (omega arith) k l (omega arith) each

  pub Each-rest :
      (f : ℕ → ℕ → ℕ)
      → ((b x y : ℕ) → P b (x + y) → P (f b x) y)
      → (au lo o u e : ℕ) (bs : List ℕ) → o ≤ u
      → Each P au lo o e bs
      → Each P au lo u e (on_range f au lo o (min u e) bs)
  unfolding Each on_range
  Each-rest f go au lo o u e [] h each = each
  Each-rest f go au lo o u e (b ∷ bs) h (p, each) = (
    go b (overlap au lo o (min u e)) (overlap au lo u e) (rw (overlap-add au lo o u e h) p),
    Each-rest f go au (lo + au) o u e bs h each,
  )

unfoldable pub total : List ℕ → ℕ
total [] = 0
total (b ∷ bs) = b + total bs

abbrev pub plus : ℕ → ℕ → ℕ
plus b x = b + x

abbrev pub minus : ℕ → ℕ → ℕ
minus b x = b - x

abbrev pub HasRoom : ℕ → ℕ → Type 0
HasRoom b x = b + x < 2 ^ 32

abbrev pub Covers : ℕ → ℕ → Type 0
Covers b x = x ≤ b

pub total-plus :
    (au lo o e : ℕ) (bs : List ℕ)
    → e ≤ lo + length bs * au
    → total (on_range plus au lo o e bs) ≡ total bs + (e - max lo o)
unfolding total on_range overlap
total-plus au lo o e [] h = omega arith
total-plus au lo o e (b ∷ bs) h = omega (arith, total-plus au (lo + au) o e bs (omega arith))

pub HasRoom-Each :
    (au lo o e : ℕ) (bs : List ℕ)
    → e ≤ lo + length bs * au
    → total bs + (e - max lo o) < 2 ^ 32
    → Each HasRoom au lo o e bs
unfolding Each total overlap
HasRoom-Each au lo o e [] h k = omega arith
HasRoom-Each au lo o e (b ∷ bs) h k =
    (omega arith, HasRoom-Each au (lo + au) o e bs (omega arith) (omega arith))

pub Covers-Each :
    (au lo o e : ℕ) (bs : List ℕ)
    → e ≤ lo + length bs * au
    → Each Covers au lo o e (on_range plus au lo o e bs)
unfolding Each on_range
Covers-Each au lo o e [] h = omega arith
Covers-Each au lo o e (b ∷ bs) h = (omega arith, Covers-Each au (lo + au) o e bs (omega arith))

pub minus-plus :
    (au lo o e : ℕ) (bs : List ℕ) → on_range minus au lo o e (on_range plus au lo o e bs) ≡ bs
unfolding on_range
minus-plus au lo o e [] = refl
minus-plus au lo o e (b ∷ bs) =
    let back : b + overlap au lo o e - overlap au lo o e ≡ b = omega arith in
    rw (back, minus-plus au (lo + au) o e bs) refl

pub length-on_range :
    (f : ℕ → ℕ → ℕ) (au lo o e : ℕ) (bs : List ℕ) → length (on_range f au lo o e bs) ≡ length bs
unfolding on_range
length-on_range f au lo o e [] = refl
length-on_range f au lo o e (b ∷ bs) = omega (arith, length-on_range f au (lo + au) o e bs)
