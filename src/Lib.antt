-- ===== src/Lib.antt =====
-- Verification of cxxlab, a storage engine in C++: a block device layer (blk), a key-value layer
-- (kv), the small file system BlueFS under it (bluefs), the object store BlueStore (bluestore), the
-- tiering engine btier, and the helpers they share (common). This library models the parts named
-- below, definition by definition, and proves what makes them correct.
--
-- The parts and their files
--   Prelude          shared names; Boolean tests; length and get_elem? over the native numbers; the
--                    arithmetic of uint64_t and uint32_t (add64, sub64, add32, sub32: modulo 2^64
--                    and 2^32); bit masks; dictionaries as association lists over any key with a
--                    Boolean equality, with one law for each operation.
--   Common           common/: containers and helpers.
--     IntervalSet    common/interval_set.h: IntervalSet keeps its entries (begin and length) as the
--                    ordered map does; insert and erase are the methods of that name, their loops
--                    by recursion on the entries, their errors as results. Cover says which
--                    numbers a set contains, Insert and Erase what the methods make of them.
--     Throttle       common/throttle.cc: every method holds the lock, so a method is a function of
--                    the state up to where the thread returns or blocks. A thread that waits is the
--                    size of its request in a queue; `notified` is the pending notification of the
--                    first waiter, wake and time_out are what it does when it runs again. Wakeup
--                    has the relation of all steps in any order, Drain the chain of wake-ups, Limit
--                    the requests of at most the limit.
--   Blk              blk/.
--     AvlAllocator   blk/avl_allocator.cc: the two trees as lists of the same nodes, with the number of
--                    free bytes; an iterator is a place in the list, a failed assertion gives none.
--                    Pick has the two searches, Operations the allocation and the release. Trees says
--                    which bytes a tree covers, Change what becomes of the index by length, Grow and
--                    Add of an added range, Remove of a taken one, Searches what the searches find,
--                    Allocate, Loop and Release what an allocation takes and a release gives back.
--                    Lengths has the order of the index by length, Progress the way from a free range
--                    to a grant, Least the length of the first range that an allocation gives.
--   Btier            btier/: slow and fast storage tiers in one space of extents.
--     Types          btier/btier_types.h: tiers, states and locations.
--     Metrics        btier/btier_types.h: the 64-bit word with counters, state and generation.
--     FreeList       the ordered free list of a tier.
--     ExtentMap      btier/extent_map.cc: the table of extents. Slots has append_slot, mark_dead_slot
--                    and record_io; Migration has begin, commit, abort and check; Space has allocation,
--                    deferred frees, recovery and the write-back of headers. An atomic word that is
--                    changed by compare-and-swap is a field, and each operation one step: interleavings
--                    are sequences of whole operations. The children of Valid have the invariant,
--                    operation by operation, and the relation of all steps (Valid.Run); Valid.Same has
--                    the calls that leave the extents alone. The allocator of blk/allocator.h is an
--                    argument of the operations that use it, as any implementation of it may be.
--                    Placement says which bytes are held and which are free, by what it relies on of an
--                    allocator (FreeSpace). Of its children, Sums counts the places that have a byte;
--                    Taken and Allocated follow the bytes through allocation, Freed through release,
--                    Moved through moves and Kept through all other calls, Rounds and Reclaim through
--                    the rounds behind a free; Steps has the relation of all calls with the targets
--                    that callers hold; Avl is the AVL allocator as such an allocator, Sized the size
--                    of an extent that it gives, and Opened a new map with two of them, as
--                    btier/btier.cc puts them together.
--     KeyMap         btier/key_map.cc: the map from keys to locations and its index by extent. Hash
--                    maps are association lists and hash sets lists, of which theorems observe
--                    membership only. The type of keys is a parameter. Sets has the laws of the
--                    index, Consistent its agreement with the map, Runs the sequential runs.
--     MigrationEngine btier/migration_engine.cc: migrate_tier, compact and the task queue over the two
--                    maps. Each function is cut at its calls, so that the early returns are clauses.
--                    The devices are an argument; so is what other threads do to the extent map, which
--                    happens once, between the copy and the commit. Migrate and Compact have what
--                    becomes of the extent by each result, Placement and its child Tasks what becomes
--                    of the bytes of the devices, Placement.Target of the place a move gets.
--     JournalRecord  btier/journal.cc, the records and their bytes; a bufferlist is the list of its
--                    bytes, a read past the end, which throws, is none.
--     Journal        btier/journal.cc: begin_txn, append, commit_txn, checkpoint, recover and trim, on
--                    a device that is an argument; recover, which holds no lock, is one step too.
--                    Recover has the two loops of recover; Scan, Frames and Log follow the one that
--                    parses over what commit_txn and checkpoint write. Disk says what a device that
--                    keeps its bytes is, Holds when a log lies on it, Writes and Commit what the two
--                    writes of a commit leave there, Durable what recover gives behind them. Ledger is
--                    the promise, durable records and open transactions; Refine and History compare the
--                    journal with it, Full is the case of a full device.
--   Bluefs           bluefs/.
--     Fnode          bluefs/bluefs_types.h and bluefs_types.cc: the extents of a file, their index of
--                    start offsets, and the delta between the committed file and the present one.
--                    Locate says on which device and offset a byte of a file lies, by the extents
--                    alone, and what a valid file is; Append, Seek and Delta are stated against it.
--     VolumeSelector bluefs/bluefs_volume_selector.cc: the matrix of bytes in use by level and device
--                    is a function of both; a hint is none for a null pointer, a failed assertion
--                    gives none. Balance compares the total of a device with its levels.
--   Kv               kv/.
--     Bytes          strings as lists of bytes in the order of std::string; the encoding of a prefix
--                    and a key into one string (kv/key_value_db.h).
--     MemDb          kv/mem/mem_db.cc: a transaction is a list of operations, submit_transaction its
--                    loop with the status; std::map is a list in the order of its keys. A merge
--                    operator is a record, whose failed assertion is a status of its own. Ranges has
--                    the loops that erase, Submit the comparison with a store that is a function,
--                    Iterator the iterator over the whole store with its position, Walk what it
--                    visits.
--   Bluestore        bluestore/.
--     ExtentMap      bluestore/extent_map.cc: the logical extents of an object, a std::set as a list in
--                    its order, an iterator as the suffix it points at. Holes says what lies around and
--                    inside a hole, Seek and Parts what the helpers make of it, Loop follows the loop
--                    of punch_hole, which searches again after each change.
--     UseTracker     bluestore/bluestore_types.cc: the bytes referenced by allocation unit. Ranges has
--                    a range over the units as the reference, Refs follows the loops of get and put.
--     Blob           bluestore/blob.cc and bluestore_types.cc: the extents of a blob on the device with
--                    its checksum data, as BlobData, and Blob, which adds the use tracker. Places says
--                    on which device offset a byte of a blob lies, by the extents alone.
--     Lextents       bluestore/extent_map.cc, set_lextent: an object is its extents with the blobs that
--                    they point to, a pointer being a number.
--
-- How they interact
--   btier keeps the location of a key in the key map as an extent number and an offset; the extent
--   map gives an extent its place, on a tier whose allocator it calls: an AVL allocator, as
--   btier/btier.cc creates it (Btier.ExtentMap.Placement.Avl). A migration moves an extent by begin
--   and commit, and frees the old place two rounds later. BlueFS appends to a file what an
--   allocator returns and logs the delta, which a replay appends to the committed file.
--   A write to an object of BlueStore takes a reference to a blob, which the use tracker counts by
--   unit, punches a hole into the extents and adds the new one.
--
-- Bounds
--   Most loops are structural recursion on a list. punch_hole takes (n + 1) (n + 2) rounds for n
--   extents, get and put of the use tracker a round for each byte and one more, the two loops of the
--   journal's recover and the two of the allocation a round for each byte, and theorems prove them
--   enough; none stands for fuel that has run out. Numbers are unbounded and every operation of the
--   code that can wrap is written with its modulus; theorems name the sums that must not wrap. Where
--   the code asserts or throws, the result is none or an error.
--
-- What is not modelled
--   Pure I/O and system calls (blk/kernel_device.cc, blk/aio.cc, common/safe_io.cc), logging and
--   printing, buffers and encodings (common/buffer.cc, common/denc.h), checksums, the RocksDB and
--   spdlog libraries. Memory orders and torn reads of relaxed atomics: operations are atomic. Nor
--   the bitmap and hybrid allocators of blk, the prefix iterators of the key-value store, the rest
--   of BlueFS; of BlueStore the onodes, the caches and the write path; of btier the scores that
--   choose what to migrate, and of the engine all but how its extent map is set up.
pub mod Prelude
pub mod Common
pub mod Blk
pub mod Btier
pub mod Bluefs
pub mod Kv
pub mod Bluestore
