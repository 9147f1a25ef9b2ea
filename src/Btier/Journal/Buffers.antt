-- ===== src/Btier/Journal/Buffers.antt =====
-- btier/journal.cc, active_txns: the buffers when one of them is stored or erased, and that the writes
-- leave the others alone.
use mathlib.Core.Path.{subst}
use mathlib.Core.Option.{some-injective}
use cxxlab.Prelude.{
  ℕ, ◌^◌, ◌<◌, ◌≡◌, refl, ◌∙◌, arith, Bool, true, false, List, [], Option, none, some, ◌==◌,
  if◌then◌else◌, lookup, erase, put, nat_eq, lookup-put, lookup-erase, ==→eq, Bool-cases, inl, inr,
}
use cxxlab.Btier.JournalRecord.{
  Bytes, JournalRecord, serialize_record, serialize_all, checkpoint_mark,
}
use cxxlab.Btier.Journal.{
  BlockDevice, Journal, TxnBuffer, commit_txn, checkpoint, data_written, pad_and_write,
  commit_written, checkpoint_written, write_superblock, frame, checksum,
}
use cxxlab.Btier.Journal.Ledger.{records_in, AreBuffers}
use cxxlab.Btier.Journal.Durable.{IsBuffer}

module _ (id : ℕ) (t : TxnBuffer) (m : List (ℕ × TxnBuffer))
    (pending : ℕ → Option (List JournalRecord)) where
  pub records_in-put :
      ((i : ℕ) → records_in (lookup i m) ≡ pending i)
      → (i : ℕ)
      → records_in (lookup i (put id t m)) ≡ (if id == i then some t.records else pending i)
  records_in-put h i = elim (Bool-cases (id == i)) [
    | inl same ↦ rw (lookup-put id i t m, same) refl
    | inr other ↦ rw (lookup-put id i t m, other) (h i)
  ]

  pub records_in-erase :
      ((i : ℕ) → records_in (lookup i m) ≡ pending i)
      → (i : ℕ) → records_in (lookup i (erase id m)) ≡ (if id == i then none else pending i)
  records_in-erase h i = elim (Bool-cases (id == i)) [
    | inl same ↦ rw (lookup-erase id i m, same) refl
    | inr other ↦ rw (lookup-erase id i m, other) (h i)
  ]

module _ (id : ℕ) (m : List (ℕ × TxnBuffer)) (h : AreBuffers m) where
  pub put-AreBuffers : (t : TxnBuffer) → IsBuffer t → id < 2 ^ 64 → AreBuffers (put id t m)
  put-AreBuffers t b fits i u found =
      let found' = rw (lookup-put id i t m) at found in
      elim (Bool-cases (id == i)) [
        | inl same ↦
            let is : t ≡ u = some-injective t u (rw same at found') in
            let key : id ≡ i = ==→eq id i same in
            (subst IsBuffer is b, subst (λ (n : ℕ). n < 2 ^ 64) key fits)
        | inr other ↦ h i u (rw other at found')
      ]

  pub erase-AreBuffers : AreBuffers (erase id m)
  erase-AreBuffers i u found =
      let found' = rw (lookup-erase id i m) at found in
      elim (Bool-cases (id == i)) [
        | inl same ↦ let is : none ≡ some u = rw same at found' in absurd (ground (arith, is))
        | inr other ↦ h i u (rw other at found')
      ]

module _ {D : Type 0} (dev : BlockDevice D) where
  -- The buffers and the counter of a journal are those of another.
  abbrev pub SameBuffers : Journal D → Journal D → Type 0
  SameBuffers j k = (j.active_txns ≡ k.active_txns) × (j.next_txn_id ≡ k.next_txn_id)

  data_written-SameBuffers :
      (next : ℕ) (r : Bool × D) (j : Journal D) → SameBuffers (data_written dev next r j).1 j
  data_written-SameBuffers next (false, d) j = (refl, refl)
  data_written-SameBuffers next (true, d) j = (refl, refl)

  pad_and_write-SameBuffers :
      (bl : Bytes) (j : Journal D) → SameBuffers (pad_and_write dev bl j).1 j
  unfolding pad_and_write
  pad_and_write-SameBuffers bl j = data_written-SameBuffers _ _ (record j { write_offset = _ })

  commit_written-SameBuffers : (r : Bool × Journal D) → SameBuffers (commit_written dev r).1 r.1
  unfolding write_superblock
  commit_written-SameBuffers (false, j) = (refl, refl)
  commit_written-SameBuffers (true, j) = (refl, refl)

  checkpoint_written-SameBuffers :
      (calc_crc32 : Bytes → ℕ) (from : ℕ) (r : Bool × Journal D)
      → SameBuffers (checkpoint_written dev calc_crc32 from r).1 r.1
  unfolding write_superblock
  checkpoint_written-SameBuffers calc_crc32 from (false, j) = (refl, refl)
  checkpoint_written-SameBuffers calc_crc32 from (true, j) = (refl, refl)

  pub commit_txn-SameBuffers :
      (calc_crc32 : Bytes → ℕ) (id : ℕ) (t : TxnBuffer) (j : Journal D)
      → lookup id j.active_txns ≡ some t
      → SameBuffers
          (commit_txn dev calc_crc32 id j).1
          (record j { active_txns = erase id j.active_txns })
  unfolding commit_txn
  commit_txn-SameBuffers calc_crc32 id t j found =
      let bl = frame id [] t.serialized (checksum calc_crc32 t.serialized) in
      let j1 : Journal D = record j { active_txns = erase id j.active_txns } in
      let w = commit_written-SameBuffers (pad_and_write dev bl j1) in
      let p = pad_and_write-SameBuffers bl j1 in rw found (w.0 ∙ p.0, w.1 ∙ p.1)

  pub checkpoint-SameBuffers :
      (calc_crc32 : Bytes → ℕ) (rs : List JournalRecord) (j : Journal D)
      → SameBuffers (checkpoint dev calc_crc32 rs j).1 j
  unfolding checkpoint
  checkpoint-SameBuffers calc_crc32 rs j =
      let records = serialize_all rs in
      let bl =
        frame 0 (serialize_record (checkpoint_mark 0)) records (checksum calc_crc32 records) in
      let w = checkpoint_written-SameBuffers calc_crc32 j.write_offset (pad_and_write dev bl j) in
      let p = pad_and_write-SameBuffers bl j in (w.0 ∙ p.0, w.1 ∙ p.1)
