-- ===== src/Btier/MigrationEngine/Placement/Tests.antt =====
-- Moves and compactions of btier/migration_engine.cc over AVL allocators, with devices that keep one value for each
-- offset.
use cxxlab.Prelude.{
  ℕ, ◌≡◌, some, none, refl, arith, true, List, [], ◌∷◌, lookup, put, nat_eq, add64, sub64,
}
use mathlib.Core.Path.{subst}
use mathlib.Core.Option.{some-injective}
use cxxlab.Blk.AvlAllocator.{AvlAllocator}
use cxxlab.Btier.Types.{fast, slow, DiskLocation, read}
use cxxlab.Btier.KeyMap.{KeyMap, changes, putting, empty_key_map}
use cxxlab.Btier.ExtentMap.{ExtentEntry, ExtentMap, PerTier, at, set_at, new_entry, find}
use cxxlab.Btier.ExtentMap.Slots.{record_io}
use cxxlab.Btier.ExtentMap.Space.{aligned, round_up_to}
use cxxlab.Btier.ExtentMap.Placement.{Disjoint}
use cxxlab.Btier.ExtentMap.Placement.Avl.{avl_ops, avl_space, Asks}
use cxxlab.Btier.ExtentMap.Placement.Steps.{Reach, here, next, io}
use cxxlab.Btier.ExtentMap.Placement.Tests.{
  two_tiers, two_tiers-Disjoint, two_tiers-blocks, sizes, source, target,
}
use cxxlab.Btier.MigrationEngine.{DeviceOps, Engine, migrate_tier, compact}
use cxxlab.Btier.MigrationEngine.Placement.{Fine}
use cxxlab.Btier.MigrationEngine.Placement.Target.{Settled, allocated, migrate_tier-Settled}
use cxxlab.Btier.MigrationEngine.Compact.{CompactOutcome, compact_lem}
use cxxlab.Btier.Metrics.{state}
use cxxlab.Btier.ExtentMap.Migration.{begin_migration}
use cxxlab.Btier.ExtentMap.Placement.Sized.{avl-GivesExtent}

abbrev Cells : Type 0
Cells = PerTier (List (ℕ × ℕ))

abbrev cells : DeviceOps Cells ℕ
cells = record {
  read = λ t off length d. lookup off (at d t);
  write = λ t off b d. (true, set_at d t (put off b (at d t)));
}

abbrev engine : Engine AvlAllocator ℕ Cells
engine = record {
  extent_map = two_tiers;
  key_map = empty_key_map;
  devices = record { on_fast = (0, 5) ∷ []; on_slow = [] };
  queue = [];
  stats = record {
    promotions_committed = 0;
    demotions_committed = 0;
    compactions_committed = 0;
    interruptions = 0;
    io_errors = 0;
  };
}

-- Another thread reads the extent.
abbrev reader : ExtentMap AvlAllocator → ExtentMap AvlAllocator
reader s = record_io 0 read 5 s

reader-calls :
    (s : ExtentMap AvlAllocator) (l : List DiskLocation)
    → Reach sizes (avl_ops 0) (avl_space 0) s l (reader s) l
reader-calls s l = next here (io 0 read 5)

engine-Fine : Fine (avl_ops 0) (avl_space 0) two_tiers 0
unfolding lookup aligned round_up_to add64 sub64
engine-Fine e h =
    let is = some-injective (new_entry source) e h in
    subst (λ (x : ExtentEntry). Asks (aligned 65536 x.location.length) 65536) is
      (omega arith, omega arith, refl, refl, omega arith)

migrate_tier-Settled_example :
    Disjoint sizes
      (avl_ops 0)
      (avl_space 0)
      (migrate_tier (avl_ops 0) cells reader 0 fast slow engine).1.extent_map
      (target ∷ [])
    × ((dst : DiskLocation) (s : ExtentMap AvlAllocator)
        → allocated (avl_ops 0) cells fast slow (begin_migration 0 two_tiers) engine ≡ some (dst, s)
        → Settled 0 dst (reader s) (migrate_tier (avl_ops 0) cells reader 0 fast slow engine))
migrate_tier-Settled_example =
    migrate_tier-Settled sizes (avl_ops 0) (avl_space 0) (target ∷ []) cells reader 0 fast slow
      engine reader-calls engine-Fine two_tiers-Disjoint

-- An engine whose extent holds two keys.
abbrev keys : KeyMap ℕ
keys =
    changes
      (putting 7 (record { extent_id = 0; offset = 0; length = 100 }) 4096
        ∷ putting 8 (record { extent_id = 0; offset = 300; length = 50 }) 8192
        ∷ [])
      empty_key_map

abbrev with_keys : Engine AvlAllocator ℕ Cells
with_keys = record engine {
  key_map = keys;
  devices = record { on_fast = (4096, 5) ∷ (4396, 6) ∷ []; on_slow = [] };
}

again-Asks : Asks (aligned 65536 65536) 65536
unfolding aligned round_up_to add64 sub64
again-Asks = (omega arith, omega arith, refl, refl, omega arith)

word_is_active : state 0 ≡ 0
unfolding state
word_is_active = refl

there : find two_tiers 0 ≡ some (new_entry source)
unfolding lookup
there = refl

next_unused : find two_tiers two_tiers.next_extent_id ≡ none
unfolding lookup
next_unused = refl

compact_lem_example :
    CompactOutcome cells 0
      (new_entry source)
      with_keys
      (compact (avl_ops 0) cells (λ s. s) 0 with_keys)
compact_lem_example =
    compact_lem (avl_ops 0) cells (λ s. s) 0 (new_entry source) with_keys
      (avl-GivesExtent 0 sizes 65536 two_tiers two_tiers-blocks again-Asks (omega arith))
      (λ s. refl) (λ s. refl) (omega arith) word_is_active there next_unused (omega arith)
      (omega arith)
