-- ===== src/Btier/ExtentMap/Slots/Counters.antt =====
-- The counters of the metrics word under record_io, set_randomness and bump_generation of
-- btier/extent_map.cc.
use Prim.Native.Nat.{bit_and}
use cxxlab.Prelude.{
  ℕ, ◌+◌, ◌%◌, ◌^◌, ◌<◌, List, [], ◌∷◌, length, ◌≡◌, refl, ap, ◌∙◌, arith, some, nat_eq, min,
  bit_and-mask,
}
use cxxlab.Btier.Types.{IoOp, read, write}
use cxxlab.Btier.Metrics.{access_count, write_count, randomness, state, generation}
use cxxlab.Btier.Metrics.Fields.{pack_fields, fields-lt, generation-lt}
use cxxlab.Btier.ExtentMap.{ExtentMap, ExtentEntry, find, bump_generation}
use cxxlab.Btier.ExtentMap.Find.{find-set_entry_self}
use cxxlab.Btier.ExtentMap.Slots.{io_word, io_writes, random_word, record_io}

-- What the other operations leave of a word when they change one field of it.
pub record SameCounters (v w : ℕ) : Type 0 where
  pub access : access_count w ≡ access_count v
  pub writes : write_count w ≡ write_count v
  pub random : randomness w ≡ randomness v

pub bump_generation_lem :
    (v : ℕ)
    → SameCounters v (bump_generation v)
      × (state (bump_generation v) ≡ state v)
      × (generation (bump_generation v) ≡ (generation v + 1) % 2 ^ 32)
      × (bump_generation v < 2 ^ 64)
unfolding bump_generation
bump_generation_lem v =
    let f =
      pack_fields (access_count v) (write_count v) (randomness v) (state v) (generation v + 1) in
    let b = fields-lt v in
    (
      record {
        access = omega (arith, f.0, b.0);
        writes = omega (arith, f.1, b.1);
        random = omega (arith, f.2, b.2);
      },
      omega (arith, f.3, b.3),
      f.4,
      f.5,
    )

io_word_lem :
    (op : IoOp) (v : ℕ)
    → v < 2 ^ 64
    → (access_count (io_word op v) ≡ min (access_count v + 1) 4095)
      × (write_count (io_word op v) ≡ io_writes op v)
      × (randomness (io_word op v) ≡ randomness v)
      × (state (io_word op v) ≡ state v)
      × (generation (io_word op v) ≡ generation v)
      × (io_word op v < 2 ^ 64)
unfolding io_word
io_word_lem read v h =
    let f =
      pack_fields (min (access_count v + 1) 4095) (write_count v) (randomness v) (state v)
        (generation v) in
    let b = fields-lt v in
    (
      omega (arith, f.0, b.0),
      omega (arith, f.1, b.1),
      omega (arith, f.2, b.2),
      omega (arith, f.3, b.3),
      omega (arith, f.4, generation-lt v h),
      f.5,
    )
io_word_lem write v h =
    let f =
      pack_fields (min (access_count v + 1) 4095) (min (write_count v + 1) 4095) (randomness v)
        (state v) (generation v) in
    let b = fields-lt v in
    (
      omega (arith, f.0, b.0),
      omega (arith, f.1, b.1),
      omega (arith, f.2, b.2),
      omega (arith, f.3, b.3),
      omega (arith, f.4, generation-lt v h),
      f.5,
    )

pub random_word_lem :
    (r v : ℕ)
    → v < 2 ^ 64
    → (randomness (random_word r v) ≡ r % 2 ^ 6)
      × (access_count (random_word r v) ≡ access_count v)
      × (write_count (random_word r v) ≡ write_count v)
      × (state (random_word r v) ≡ state v)
      × (generation (random_word r v) ≡ generation v)
unfolding random_word
random_word_lem r v h =
    let f =
      pack_fields (access_count v) (write_count v) (bit_and r 0x3f) (state v) (generation v) in
    let b = fields-lt v in
    (
      omega (arith, f.2, bit_and-mask 6 r),
      omega (arith, f.0, b.0),
      omega (arith, f.1, b.1),
      omega (arith, f.3, b.3),
      omega (arith, f.4, generation-lt v h),
    )

-- The I/O of one extent, in order: `record_io` by `record_io`.
pub record Io : Type 0 where
  pub op : IoOp
  pub time : ℕ

pub record_ios : {A : Type 0} → ℕ → List Io → ExtentMap A → ExtentMap A
record_ios id [] s = s
record_ios id (x ∷ xs) s = record_ios id xs (record_io id x.op x.time s)

abbrev pub one_write : IoOp → ℕ
one_write read = 0
one_write write = 1

abbrev pub writes_in : List Io → ℕ
writes_in [] = 0
writes_in (x ∷ xs) = one_write x.op + writes_in xs

abbrev pub last_time : ℕ → List Io → ℕ
last_time t [] = t
last_time t (x ∷ xs) = last_time x.time xs

pub record IoFacts (xs : List Io) (e e' : ExtentEntry) : Type 0 where
  pub accesses : access_count e'.raw ≡ min (access_count e.raw + length xs) 4095
  pub writes : write_count e'.raw ≡ min (write_count e.raw + writes_in xs) 4095
  pub random : randomness e'.raw ≡ randomness e.raw
  pub same_state : state e'.raw ≡ state e.raw
  pub same_generation : generation e'.raw ≡ generation e.raw
  pub time : e'.last_access_time ≡ last_time e.last_access_time xs

record_io_lem :
    {A : Type 0} (id : ℕ) (x : Io) (s : ExtentMap A) (e : ExtentEntry)
    → find s id ≡ some e
    → find (record_io id x.op x.time s) id
      ≡ some (record e { last_access_time = x.time; raw = io_word x.op e.raw })
unfolding record_io
record_io_lem id x s e h = rw (h, record_io) (find-set_entry_self s id _)

io_writes_lem :
    (op : IoOp) (v n : ℕ)
    → min (io_writes op v + n) 4095 ≡ min (write_count v + (one_write op + n)) 4095
io_writes_lem read v n = omega arith
io_writes_lem write v n = omega arith

-- After any reads and writes of an extent, its access and write counters stand at what they were
-- plus the number of accesses and of writes, cut off at 4095; its other metrics fields have not
-- changed, and its time is that of the last I/O.
pub record_ios_lem :
    {A : Type 0} (id : ℕ) (xs : List Io) (s : ExtentMap A) (e : ExtentEntry)
    → find s id ≡ some e
    → e.raw < 2 ^ 64
    → (e' : ExtentEntry) × (find (record_ios id xs s) id ≡ some e') × IoFacts xs e e'
unfolding record_ios
record_ios_lem id [] s e h b = (
  e,
  h,
  record {
    accesses = omega (arith, (fields-lt e.raw).0);
    writes = omega (arith, (fields-lt e.raw).1);
    random = refl;
    same_state = refl;
    same_generation = refl;
    time = refl;
  },
)
record_ios_lem id (x ∷ xs) s e h b =
    let e1 : ExtentEntry = record e { last_access_time = x.time; raw = io_word x.op e.raw } in
    let w = io_word_lem x.op e.raw b in
    let next =
      record_ios_lem id xs (record_io id x.op x.time s) e1 (record_io_lem id x s e h) w.5 in
    let f = next.2 in
    (
      next.0,
      next.1,
      record {
        accesses = omega (arith, f.accesses, w.0);
        writes =
            f.writes
            ∙ ap (λ (n : ℕ). min (n + writes_in xs) 4095) w.1
            ∙ io_writes_lem x.op e.raw (writes_in xs);
        random = f.random ∙ w.2;
        same_state = f.same_state ∙ w.3;
        same_generation = f.same_generation ∙ w.4;
        time = f.time;
      },
    )

pub SameCounters-trans : {u v w : ℕ} → SameCounters u v → SameCounters v w → SameCounters u w
SameCounters-trans p q = record {
  access = q.access ∙ p.access;
  writes = q.writes ∙ p.writes;
  random = q.random ∙ p.random;
}
