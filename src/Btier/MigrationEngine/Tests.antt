-- ===== src/Btier/MigrationEngine/Tests.antt =====
-- Runs of btier/migration_engine.cc with devices that keep one value for each offset, and an allocator
-- that has no space at 0.
use cxxlab.Prelude.{
  ℕ, ◌+◌, ◌≡◌, refl, sym, ap, ◌∙◌, List, [], ◌∷◌, some, none, true, arith, lookup, put, nat_eq,
  lookup-put, ◌==◌, if◌then◌else◌, Bool,
}
use cxxlab.Btier.Types.{Tier, fast, slow}
use cxxlab.Btier.Metrics.{state, generation, pack, access_count, write_count, randomness}
use cxxlab.Btier.ExtentMap.{
  set_entry, mark_dirty, insert_id, add_deferred_free, ExtentEntry, ExtentMap, PerTier, at, set_at,
  new_entry, find,
}
use cxxlab.Btier.ExtentMap.Slots.{get_location}
use cxxlab.Btier.ExtentMap.Space.{
  AllocatorOps, allocate_raw, allocate_on, raw_location, no_space, aligned, round_up_to,
}
use cxxlab.Btier.ExtentMap.Migration.{begin_migration, commit_migration, commit_handle, state_word}
use cxxlab.Btier.KeyMap.{KeyMap, changes, putting, empty_key_map}
use cxxlab.Btier.MigrationEngine.{DeviceOps, Engine, committed, migrate_tier}
use cxxlab.Btier.MigrationEngine.Migrate.{ReadsBack, MoveOutcome, migrate_tier_lem}

abbrev Cells : Type 0
Cells = PerTier (List (ℕ × ℕ))

abbrev cells : DeviceOps Cells ℕ
cells = record {
  read = λ t off length d. lookup off (at d t);
  write = λ t off b d. (true, set_at d t (put off b (at d t)));
}

read_put : (off b : ℕ) (m : List (ℕ × ℕ)) → lookup off (put off b m) ≡ some b
read_put off b m = ground (arith, lookup-put off off b m)

cells-ReadsBack : ReadsBack cells
cells-ReadsBack t fast off off' length b d d1 d2 r w =
    sym (ap (λ (p : Bool × Cells). lookup off' p.1.on_fast) w) ∙ read_put off' b d1.on_fast
cells-ReadsBack t slow off off' length b d d1 d2 r w =
    sym (ap (λ (p : Bool × Cells). lookup off' p.1.on_slow) w) ∙ read_put off' b d1.on_slow

abbrev bump : AllocatorOps ℕ
bump = record {
  allocate = λ want unit most hint a. record {
    got = if a == 0 then none else some want;
    extents = record { offset = a; length = 65536 } ∷ [];
    allocator = a + want;
  };
  release = λ set a. a;
  init_add_free = λ off len a. a;
  get_capacity = λ a. 1048576;
}

word_is_active : state 0 ≡ 0
unfolding state
word_is_active = refl

abbrev entry : Tier → ExtentEntry
entry t = new_entry (record { offset = 131072; length = 65536; tier = t })

abbrev keys : KeyMap ℕ
keys =
    changes
      (putting 7 (record { extent_id = 1; offset = 0; length = 100 }) 4096
        ∷ putting 8 (record { extent_id = 1; offset = 300; length = 50 }) 8192
        ∷ [])
      empty_key_map

-- One extent, on the tier; the free space of the fast tier starts at an offset.
abbrev engine : Tier → ℕ → Engine ℕ ℕ Cells
engine t space = record {
  extent_map = record {
    block_size = 4096;
    entries = (1, entry t) ∷ [];
    next_extent_id = 2;
    allocators = record { on_fast = some space; on_slow = some 524288 };
    free_lists = record { on_fast = []; on_slow = [] };
    deferred_free = [];
    seqno = 7;
    dirty_headers = [];
    devices = record { on_fast = true; on_slow = true };
    written = [];
  };
  key_map = keys;
  devices = record { on_fast = (131072, 5) ∷ []; on_slow = (131072, 5) ∷ [] };
  queue = [];
  stats = record {
    promotions_committed = 0;
    demotions_committed = 0;
    compactions_committed = 0;
    interruptions = 0;
    io_errors = 0;
  };
}

abbrev idle : ExtentMap ℕ → ExtentMap ℕ
idle s = s

engine-found : (t : Tier) (space : ℕ) → find (engine t space).extent_map 1 ≡ some (entry t)
unfolding lookup
engine-found t space = refl

migrate_tier_lem_example :
    MoveOutcome cells 1 fast
      (entry slow)
      (engine slow 65536)
      (migrate_tier bump cells idle 1 slow fast (engine slow 65536))
migrate_tier_lem_example =
    migrate_tier_lem bump cells idle 1 fast (entry slow) (engine slow 65536) cells-ReadsBack
      (λ s. refl) (omega arith) word_is_active (engine-found slow 65536)

-- A promotion onto a full fast tier: the new place is on the slow tier, where nothing was written; the
-- fast device got the bytes at that offset.
lost :
    (g : Engine ℕ ℕ Cells) × (migrate_tier bump cells idle 1 slow fast (engine slow 0)
      ≡ (committed, g))
    × (get_location g.extent_map 1 ≡ some (record { offset = 524288; length = 65536; tier = slow }))
    × (cells.read slow 524288 65536 g.devices ≡ none)
    × (cells.read fast 524288 65536 g.devices ≡ some 5)
unfolding migrate_tier begin_migration commit_migration commit_handle allocate_raw allocate_on
    raw_location no_space aligned round_up_to set_entry mark_dirty insert_id add_deferred_free
    lookup put state generation state_word pack access_count write_count randomness get_location
lost = (_, refl, refl, refl, refl)
