-- ===== src/Btier/Journal/Refine.antt =====
-- btier/journal.cc: every operation of the journal does on the device and the buffers what the ledger says.
use mathlib.Core.List.{append-nil, append_assoc}
use cxxlab.Prelude.{
  ℕ, ◌^◌, ◌<◌, ◌≡◌, refl, sym, ap, ◌∙◌, arith, List, [], ◌∷◌, ◌++◌, Option, none, some, All, add64,
  lookup, nat_eq, Option-cases, inl, inr,
}
use cxxlab.Btier.JournalRecord.{Bytes, JournalRecord, serialize_record, serialize_all}
use cxxlab.Btier.Journal.{
  BlockDevice, Journal, TxnBuffer, begin_txn, append, buffer_of, commit_txn, with_txn_id,
}
use cxxlab.Btier.Journal.Scan.{IsData}
use cxxlab.Btier.Journal.Frames.{entry_frame, records_of}
use cxxlab.Btier.Journal.Disk.{IsMemory}
use cxxlab.Btier.Journal.Writes.{HasRoom, records_of-snoc}
use cxxlab.Btier.Journal.Durable.{IsBuffer, committed, snapshot, commit_txn-Holds, checkpoint-Holds}
use cxxlab.Btier.Journal.Ledger.{
  Op, begin, add, commit, save, Ledger, begun, closed, apply, apply_all, records_in, AreBuffers,
  perform, perform_all, Ready, AreReady, Refines,
}
use cxxlab.Btier.Journal.Buffers.{
  records_in-put, records_in-erase, put-AreBuffers, erase-AreBuffers, commit_txn-SameBuffers,
  checkpoint-SameBuffers,
}

module _ (r : JournalRecord) where
  serialize_all-snoc :
      (rs : List JournalRecord)
      → serialize_all (rs ++ r ∷ []) ≡ serialize_all rs ++ serialize_record r
  unfolding serialize_all
  serialize_all-snoc [] = append-nil (serialize_record r)
  serialize_all-snoc (x ∷ rs) =
      ap (λ (b : Bytes). serialize_record x ++ b) (serialize_all-snoc rs)
      ∙ sym (append_assoc (serialize_record x) (serialize_all rs) (serialize_record r))

  All-snoc : IsData r → (rs : List JournalRecord) → All IsData rs → All IsData (rs ++ r ∷ [])
  All-snoc d [] a = (d, tt)
  All-snoc d (x ∷ rs) a = (a.0, All-snoc d rs a.1)

snoc-IsBuffer :
    (t : TxnBuffer) (r : JournalRecord)
    → IsBuffer t
    → IsData r
    → IsBuffer
        (record { records = t.records ++ r ∷ []; serialized = t.serialized ++ serialize_record r })
snoc-IsBuffer t r h d = record {
  in_bytes = rw h.in_bytes (sym (serialize_all-snoc r t.records));
  are_data = All-snoc r d t.records h.are_data;
}

buffer_of-IsBuffer :
    (m : List (ℕ × TxnBuffer)) (id : ℕ) → AreBuffers m → IsBuffer (buffer_of (lookup id m))
buffer_of-IsBuffer m id h = elim (Option-cases (lookup id m)) [
  | inl missing ↦ rw missing (record { in_bytes = unfold serialize_all in refl; are_data = tt })
  | inr found ↦ rw found.1 (h id found.0 found.1).0
]

begun-records_in : (o : Option TxnBuffer) → (buffer_of o).records ≡ begun (records_in o)
begun-records_in none = refl
begun-records_in (some t) = refl

module _ {D : Type 0} (dev : BlockDevice D) (byte : D → ℕ → ℕ) (size : ℕ)
    (mem : IsMemory dev byte size) (calc_crc32 : Bytes → ℕ) where
  begin-Refines :
      (j : Journal D) (l : Ledger)
      → Refines dev byte size mem calc_crc32 j l
      → Refines dev byte size mem calc_crc32 (perform dev calc_crc32 begin j) (apply begin l)
  unfolding perform apply begin_txn
  begin-Refines j l h =
      let id = j.next_txn_id in
      let t = buffer_of (lookup id j.active_txns) in
      let records = begun-records_in (lookup id j.active_txns) ∙ ap begun (h.buffered id) in
      let stored = records_in-put id t j.active_txns l.pending h.buffered in
      record {
        log = h.log;
        holds = record { on_disk = h.holds.on_disk; head = h.holds.head; sized = h.holds.sized };
        durable = h.durable;
        buffered = rw (sym h.numbered) (rw records at stored);
        buffers =
            put-AreBuffers id j.active_txns h.buffers t
              (buffer_of-IsBuffer j.active_txns id h.buffers) h.next_fits;
        numbered = rw h.numbered refl;
        next_fits = unfold add64 in omega arith;
      }

  add-Refines :
      (id : ℕ) (r : JournalRecord) (j : Journal D) (l : Ledger)
      → Refines dev byte size mem calc_crc32 j l
      → IsData (with_txn_id id r)
      → Refines dev byte size mem calc_crc32
          (perform dev calc_crc32 (add id r) j)
          (apply (add id r) l)
  unfolding perform apply append
  add-Refines id r j l h d = elim (Option-cases (lookup id j.active_txns)) [
    | inl missing ↦
        let none_there = sym (h.buffered id) ∙ ap records_in missing in
        rw (perform, append, missing, apply, none_there) h
    | inr found ↦
        let (t, is) = found in
        let some_there = sym (h.buffered id) ∙ ap records_in is in
        let r' = with_txn_id id r in
        let t' : TxnBuffer = record {
          records = t.records ++ r' ∷ [];
          serialized = t.serialized ++ serialize_record r';
        } in
        let (b, fits) = h.buffers id t is in
        rw (perform, append, is, apply, some_there)
          (record {
            log = h.log;
            holds = record {
              on_disk = h.holds.on_disk;
              head = h.holds.head;
              sized = h.holds.sized;
            };
            durable = h.durable;
            buffered = records_in-put id t' j.active_txns l.pending h.buffered;
            buffers = put-AreBuffers id j.active_txns h.buffers t' (snoc-IsBuffer t r' b d) fits;
            numbered = h.numbered;
            next_fits = h.next_fits;
          })
  ]

  found-Refines :
      (id : ℕ) (t : TxnBuffer) (j : Journal D) (l : Ledger)
      → size < 2 ^ 64
      → Refines dev byte size mem calc_crc32 j l
      → lookup id j.active_txns ≡ some t
      → HasRoom dev byte size mem (entry_frame calc_crc32 (committed id t)) j
      → Refines dev byte size mem calc_crc32
          (commit_txn dev calc_crc32 id j).1
          (closed id (some t.records) l)
  found-Refines id t j l small h is room =
      let (b, fits) = h.buffers id t is in
      let (ok, holds) =
        commit_txn-Holds dev byte size mem calc_crc32 h.log id t j small h.holds is b fits room in
      let same = commit_txn-SameBuffers dev calc_crc32 id t j is in
      record {
        log = h.log ++ committed id t ∷ [];
        holds = holds;
        durable =
            records_of-snoc h.log (committed id t)
            ∙ ap (λ (rs : List JournalRecord). rs ++ t.records) h.durable;
        buffered = rw same.0 (records_in-erase id t j.active_txns l.pending h.buffered);
        buffers = rw same.0 (erase-AreBuffers id j.active_txns h.buffers);
        numbered = same.1 ∙ h.numbered;
        next_fits = rw same.1 h.next_fits;
      }

  commit-Refines :
      (id : ℕ) (j : Journal D) (l : Ledger)
      → size < 2 ^ 64
      → Refines dev byte size mem calc_crc32 j l
      → Ready dev byte size mem calc_crc32 (commit id) j
      → Refines dev byte size mem calc_crc32
          (perform dev calc_crc32 (commit id) j)
          (apply (commit id) l)
  unfolding perform apply commit_txn Ready
  commit-Refines id j l small h ready = elim (Option-cases (lookup id j.active_txns)) [
    | inl missing ↦
        let none_there = sym (h.buffered id) ∙ ap records_in missing in
        rw (perform, commit_txn, missing, apply, none_there) h
    | inr found ↦
        let (t, is) = found in
        let some_there = sym (h.buffered id) ∙ ap records_in is in
        rw (apply, some_there) (found-Refines id t j l small h is (ready t is))
  ]

  save-Refines :
      (rs : List JournalRecord) (j : Journal D) (l : Ledger)
      → size < 2 ^ 64
      → Refines dev byte size mem calc_crc32 j l
      → Ready dev byte size mem calc_crc32 (save rs) j
      → Refines dev byte size mem calc_crc32
          (perform dev calc_crc32 (save rs) j)
          (apply (save rs) l)
  unfolding perform apply Ready records_of
  save-Refines rs j l small h ready =
      let (ok, holds) =
        checkpoint-Holds dev byte size mem calc_crc32 h.log rs j small h.holds ready.0 ready.1 in
      let same = checkpoint-SameBuffers dev calc_crc32 rs j in
      record {
        log = snapshot rs ∷ [];
        holds = holds;
        durable = append-nil rs;
        buffered = rw same.0 h.buffered;
        buffers = rw same.0 h.buffers;
        numbered = same.1 ∙ h.numbered;
        next_fits = rw same.1 h.next_fits;
      }

  perform-Refines :
      (o : Op) (j : Journal D) (l : Ledger)
      → size < 2 ^ 64
      → Refines dev byte size mem calc_crc32 j l
      → Ready dev byte size mem calc_crc32 o j
      → Refines dev byte size mem calc_crc32 (perform dev calc_crc32 o j) (apply o l)
  unfolding Ready
  perform-Refines begin j l small h ready = begin-Refines j l h
  perform-Refines (add id r) j l small h ready = add-Refines id r j l h ready
  perform-Refines (commit id) j l small h ready = commit-Refines id j l small h ready
  perform-Refines (save rs) j l small h ready = save-Refines rs j l small h ready

  pub perform_all-Refines :
      (os : List Op) (j : Journal D) (l : Ledger)
      → size < 2 ^ 64
      → Refines dev byte size mem calc_crc32 j l
      → AreReady dev byte size mem calc_crc32 os j
      → Refines dev byte size mem calc_crc32 (perform_all dev calc_crc32 os j) (apply_all os l)
  unfolding perform_all apply_all AreReady
  perform_all-Refines [] j l small h ready = h
  perform_all-Refines (o ∷ os) j l small h ready =
      perform_all-Refines os (perform dev calc_crc32 o j) (apply o l) small
        (perform-Refines o j l small h ready.0) ready.1
