-- ===== src/Blk/AvlAllocator/Tests.antt =====
-- An allocator of blk/avl_allocator.cc on a small device.
use mathlib.Core.Path.{subst}
use mathlib.Core.Option.{some-injective}
use cxxlab.Prelude.{sym, ◌∙◌, add64, sub64, ◌≡◌, refl, arith, [], ◌∷◌, some}
use cxxlab.Blk.AvlAllocator.{
  AvlAllocator, new_allocator, add_to_tree, size_insert, upper_bound, range_size_tree_insert,
}
use cxxlab.Blk.AvlAllocator.Operations.{allocate}
use cxxlab.Blk.AvlAllocator.Trees.{covers}
use cxxlab.Blk.AvlAllocator.Grow.{IsValid, Grows}
use cxxlab.Blk.AvlAllocator.Add.{add_to_tree-Grows}
use cxxlab.Blk.AvlAllocator.Operations.{allocate_single}
use cxxlab.Blk.AvlAllocator.Progress.{Grants, allocate_single-Grants}
use cxxlab.Blk.AvlAllocator.Trees.{has_node}
use cxxlab.Blk.AvlAllocator.Release.{new_allocator-IsValid, GivesBack, release-allocate}

abbrev empty : AvlAllocator
empty = new_allocator 65536 4096 0

empty-IsValid : IsValid empty
empty-IsValid = new_allocator-IsValid 65536 4096 (omega arith)

add_to_tree-Grows_example : Grows 4096 12288 empty (add_to_tree 4096 8192 empty)
add_to_tree-Grows_example =
    add_to_tree-Grows 4096 8192 empty empty-IsValid (omega arith) (omega arith)
      (λ n low high. unfold covers in refl)

-- The allocator with one free range.
abbrev half_free : AvlAllocator
half_free = record empty {
  range_tree = record { start = 4096; end = 12288 } ∷ [];
  range_size_tree = record { start = 4096; end = 12288 } ∷ [];
  num_free = 8192;
}

half_free-is : add_to_tree 4096 8192 empty ≡ some half_free
unfolding add_to_tree upper_bound range_size_tree_insert size_insert add64 sub64
half_free-is = refl

half_free-IsValid : IsValid half_free
half_free-IsValid =
    let g =
      add_to_tree-Grows 4096 8192 empty empty-IsValid (omega arith) (omega arith)
        (λ n low high. unfold covers in refl) in
    subst IsValid (sym (some-injective half_free g.next (sym half_free-is ∙ g.is))) g.valid

release-allocate_example : GivesBack 8192 half_free (allocate 0 8192 4096 0 half_free)
release-allocate_example =
    release-allocate 0 8192 4096 0 half_free half_free-IsValid (omega arith) (omega arith) refl refl
      (omega arith) (omega arith) (omega arith)

allocate_single-Grants_example : Grants 8192 half_free (allocate_single 0 8192 4096 half_free)
unfolding has_node
allocate_single-Grants_example =
    allocate_single-Grants 0 8192 4096 half_free (record { start = 4096; end = 12288 })
      half_free-IsValid (omega arith) (omega arith) (omega arith) refl (omega arith) refl
      (omega arith)
