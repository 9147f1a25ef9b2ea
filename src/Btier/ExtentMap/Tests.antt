-- ===== src/Btier/ExtentMap/Tests.antt =====
-- The extent map at concrete values, and instances of the theorems.
use cxxlab.Prelude.{
  ℕ, List, ◌≤◌, ◌≡◌, refl, [], ◌∷◌, some, true, false, arith, lookup, nat_eq, sub32,
}
use cxxlab.Btier.Types.{fast, slow, DiskLocation, read, write}
use cxxlab.Btier.Metrics.{state}
use cxxlab.Btier.FreeList
use cxxlab.Btier.FreeList.{free_entry}
use cxxlab.Btier.ExtentMap.{ExtentEntry, ExtentMap, new_entry, find}
use cxxlab.Btier.ExtentMap.Slots.{
  find_extent_with_space, first_active, mark_dead_slot, get_location,
}
use cxxlab.Btier.ExtentMap.Slots.Append.{HasRoom, append_slots, append_slots-layout}
use cxxlab.Btier.ExtentMap.Slots.Counters.{Io, IoFacts, record_ios, record_ios_lem}
use cxxlab.Btier.ExtentMap.Migration.{begin_migration, commit_migration}
use cxxlab.Btier.ExtentMap.Migration.Protocol.{commit-mark_dead_slot}
use cxxlab.Btier.ExtentMap.Migration.Commit.{commit_stale_free_list}

abbrev on_fast_disk : DiskLocation
on_fast_disk = record { offset = 0; length = 65536; tier = fast }

abbrev on_slow_disk : DiskLocation
on_slow_disk = record { offset = 131072; length = 65536; tier = slow }

-- One extent, active and empty, on the fast tier.
abbrev entry : ExtentEntry
entry = new_entry on_fast_disk

abbrev one : ExtentMap ℕ
one = record {
  block_size = 4096;
  entries = (1, entry) ∷ [];
  next_extent_id = 2;
  allocators = record { on_fast = some 65536; on_slow = some 0 };
  free_lists = record { on_fast = free_entry 61440 1 ∷ []; on_slow = [] };
  deferred_free = [];
  seqno = 7;
  dirty_headers = [];
  devices = record { on_fast = true; on_slow = true };
  written = [];
}

found : find one 1 ≡ some entry
unfolding lookup
found = refl

word_is_active : state entry.raw ≡ 0
unfolding state
word_is_active = refl

room : (n : ℕ) → n ≤ 61440 → HasRoom entry n
unfolding sub32
room n h = record {
  is_active = word_is_active;
  fits = omega arith;
  no_wrap = omega arith;
  live_fits = omega arith;
}

append_slots-layout_example : (append_slots 1 (100 ∷ 50 ∷ 7 ∷ []) one).0 ≡ 0 ∷ 100 ∷ 150 ∷ []
append_slots-layout_example =
    append_slots-layout 1 (100 ∷ 50 ∷ 7 ∷ []) one entry found (room 157 (omega arith))

abbrev ios : List Io
ios = record { op = write; time = 3 } ∷ record { op = read; time = 9 } ∷ []

record_ios_lem_example :
    (e' : ExtentEntry) × (find (record_ios 1 ios one) 1 ≡ some e') × IoFacts ios entry e'
record_ios_lem_example = record_ios_lem 1 ios one entry found (omega arith)

commit-mark_dead_slot_example :
    let (m, s') = begin_migration 1 one in
    let s2 = mark_dead_slot 1 10 s' in commit_migration m on_slow_disk s2 ≡ (false, s2)
commit-mark_dead_slot_example =
    commit-mark_dead_slot 1 one entry found word_is_active (omega arith) 10 on_slow_disk

fast_answer : find_extent_with_space one fast 100 ≡ 1
unfolding find_extent_with_space first_active lookup state FreeList.lower_bound
fast_answer = refl

commit_stale_free_list_example :
    let (m, s') = begin_migration 1 one in
    let s2 = (commit_migration m on_slow_disk s').1 in
    (s2.free_lists ≡ one.free_lists)
    × (find_extent_with_space s2 fast 100 ≡ 1)
    × (get_location s2 1 ≡ some on_slow_disk)
commit_stale_free_list_example =
    commit_stale_free_list 1 one entry found word_is_active (omega arith) on_slow_disk fast 100
      fast_answer
