-- ===== src/Btier/ExtentMap/Valid/Tests.antt =====
-- A run of btier/extent_map.cc with AVL allocators.
use cxxlab.Prelude.{arith, lookup, nat_eq}
use cxxlab.Btier.Types.{fast}
use cxxlab.Btier.ExtentMap.Migration.{begin_migration, release_source}
use cxxlab.Btier.ExtentMap.Space.{allocate_extent, process_deferred_free}
use cxxlab.Btier.ExtentMap.Valid.{IsValid}
use cxxlab.Btier.ExtentMap.Valid.Run.{here, next, allocate, begin, give_up, process, Reach-IsValid}
use cxxlab.Btier.ExtentMap.Placement.Avl.{avl_ops}
use cxxlab.Btier.ExtentMap.Placement.Tests.{two_tiers, target, two_tiers-GivesExtent}

two_tiers-IsValid : IsValid two_tiers
unfolding lookup
two_tiers-IsValid = record { good = λ id e h. ground arith; fresh = λ id e h. ground arith }

-- An extent is allocated, the old one is claimed, and a place is given back.
Reach-IsValid_example : IsValid (
    process_deferred_free (avl_ops 0) (
      release_source target
        (begin_migration 0 (allocate_extent (avl_ops 0) fast 60000 two_tiers).1).1))
Reach-IsValid_example = Reach-IsValid (avl_ops 0) two_tiers-IsValid (
    next
      (next (next (next here (allocate fast 60000 (omega arith) two_tiers-GivesExtent)) (begin 0))
        (give_up target))
      process)
