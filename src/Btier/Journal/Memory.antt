-- ===== src/Btier/Journal/Memory.antt =====
-- A device in memory, for the journal of btier/journal.cc, and a checksum.
use cxxlab.Prelude.{
  ℕ, ◌+◌, ◌%◌, ◌^◌, ◌≤◌, ◌<◌, ◌≡◌, refl, ap, arith, suc, true, [], ◌∷◌, some, ◌==◌, if◌then◌else◌,
  length,
}
use cxxlab.Btier.JournalRecord.{Bytes}
use cxxlab.Btier.Journal.{BlockDevice}
use cxxlab.Btier.Journal.Disk.{IsMemory, bytes_at, bytes_at-agree}

-- The bytes of a device, by their offsets.
abbrev pub byte_in : (ℕ → ℕ) → ℕ → ℕ
byte_in d a = d a

unfoldable pub overlay : ℕ → Bytes → (ℕ → ℕ) → ℕ → ℕ
overlay offset [] d a = d a
overlay offset (x ∷ b) d a =
    let rest = overlay (suc offset) b d a in if a == offset then x else rest

abbrev pub memory : BlockDevice (ℕ → ℕ)
memory = record {
  read = λ offset n d. some (bytes_at n offset d);
  write = λ offset b d. (true, overlay offset b d);
  flush = λ d. (true, d);
}

overlay-below :
    (offset : ℕ) (b : Bytes) (d : ℕ → ℕ) (a : ℕ) → a < offset → overlay offset b d a ≡ d a
unfolding overlay
overlay-below offset [] d a h = refl
overlay-below offset (x ∷ b) d a h =
    ground (arith, h, overlay-below (suc offset) b d a (omega (arith, h)))

overlay-above :
    (offset : ℕ) (b : Bytes) (d : ℕ → ℕ) (a : ℕ)
    → offset + length b ≤ a
    → overlay offset b d a ≡ d a
unfolding overlay
overlay-above offset [] d a h = refl
overlay-above offset (x ∷ b) d a h =
    ground (arith, h, overlay-above (suc offset) b d a (omega (arith, h)))

overlay-inside :
    (offset : ℕ) (b : Bytes) (d : ℕ → ℕ) → bytes_at (length b) offset (overlay offset b d) ≡ b
unfolding bytes_at overlay
overlay-inside offset [] d = refl
overlay-inside offset (x ∷ b) d =
    let f = overlay offset (x ∷ b) d in
    let first : f offset ≡ x = ground arith in
    let later =
      bytes_at-agree (length b) (suc offset) f (overlay (suc offset) b d)
        (λ i l m. ground (arith, l)) in
    rw (later, overlay-inside (suc offset) b d) (ap (λ (y : ℕ). y ∷ b) first)

pub memory-IsMemory : (size : ℕ) → IsMemory memory byte_in size
memory-IsMemory size = record {
  read_law = λ offset n d h. refl;
  write_ok = λ offset b d h. refl;
  write_inside = λ offset b d h. overlay-inside offset b d;
  write_below = overlay-below;
  write_above = overlay-above;
  flush_ok = λ d. refl;
  flush_law = λ d a. refl;
}

-- A checksum, and a device of zeros.
abbrev pub sum : Bytes → ℕ
sum b = length b % 2 ^ 32

pub sum-lt : (b : Bytes) → sum b < 2 ^ 32
sum-lt b = omega arith

abbrev pub zeros : ℕ → ℕ
zeros a = 0
