-- ===== src/Btier/Journal/Ledger.antt =====
-- btier/journal.cc: what the journal promises, a list of durable records and the transactions that are
-- begun, and that begin_txn, append, commit_txn and checkpoint keep it.
use cxxlab.Prelude.{
  ℕ, ◌^◌, ◌<◌, ◌≡◌, List, [], ◌∷◌, ◌++◌, Option, none, some, All, ◌==◌, if◌then◌else◌, add64,
  lookup, nat_eq,
}
use cxxlab.Btier.JournalRecord.{Bytes, JournalRecord}
use cxxlab.Btier.Journal.{
  BlockDevice, Journal, TxnBuffer, begin_txn, append, commit_txn, checkpoint, with_txn_id,
}
use cxxlab.Btier.Journal.Scan.{IsData}
use cxxlab.Btier.Journal.Frames.{Entry, entry_frame, records_of}
use cxxlab.Btier.Journal.Disk.{IsMemory}
use cxxlab.Btier.Journal.Writes.{Holds, HasRoom}
use cxxlab.Btier.Journal.Durable.{IsBuffer, committed, snapshot}

pub data Op : Type 0 where
  begin : Op
  add : (txn_id : ℕ) (rec : JournalRecord) → Op
  commit : (txn_id : ℕ) → Op
  save : (full_state : List JournalRecord) → Op

-- The durable records, and the records of each transaction that is begun.
pub record Ledger : Type 0 where
  pub saved : List JournalRecord
  pub pending : ℕ → Option (List JournalRecord)
  pub next : ℕ

abbrev pub set : ℕ → Option (List JournalRecord) → Ledger → Ledger
set id v l = record l { pending = λ i. if id == i then v else l.pending i }

abbrev pub begun : Option (List JournalRecord) → List JournalRecord
begun none = []
begun (some rs) = rs

abbrev pub added : ℕ → JournalRecord → Option (List JournalRecord) → Ledger → Ledger
added id r none l = l
added id r (some rs) l = set id (some (rs ++ with_txn_id id r ∷ [])) l

abbrev pub closed : ℕ → Option (List JournalRecord) → Ledger → Ledger
closed id none l = l
closed id (some rs) l = set id none (record l { saved = l.saved ++ rs })

unfoldable pub apply : Op → Ledger → Ledger
apply begin l = set l.next (some (begun (l.pending l.next))) (record l { next = add64 l.next 1 })
apply (add id r) l = added id r (l.pending id) l
apply (commit id) l = closed id (l.pending id) l
apply (save rs) l = record l { saved = rs }

unfoldable pub apply_all : List Op → Ledger → Ledger
apply_all [] l = l
apply_all (o ∷ os) l = apply_all os (apply o l)

abbrev pub records_in : Option TxnBuffer → Option (List JournalRecord)
records_in none = none
records_in (some t) = some t.records

module _ {D : Type 0} (dev : BlockDevice D) (calc_crc32 : Bytes → ℕ) where
  unfoldable pub perform : Op → Journal D → Journal D
  perform begin j = (begin_txn j).1
  perform (add id r) j = (append id r j).1
  perform (commit id) j = (commit_txn dev calc_crc32 id j).1
  perform (save rs) j = (checkpoint dev calc_crc32 rs j).1

  unfoldable pub perform_all : List Op → Journal D → Journal D
  perform_all [] j = j
  perform_all (o ∷ os) j = perform_all os (perform o j)

-- Every buffer holds what its records are in bytes, under a number that fits its word.
abbrev pub AreBuffers : List (ℕ × TxnBuffer) → Type 0
AreBuffers m = (id : ℕ) (t : TxnBuffer) → lookup id m ≡ some t → IsBuffer t × (id < 2 ^ 64)

module _ {D : Type 0} (dev : BlockDevice D) (byte : D → ℕ → ℕ) (size : ℕ)
    (mem : IsMemory dev byte size) (calc_crc32 : Bytes → ℕ) where
  -- What an operation asks of its caller: data records, and room on the device.
  unfoldable pub Ready : Op → Journal D → Type 0
  Ready begin j = Unit
  Ready (add id r) j = IsData (with_txn_id id r)
  Ready (commit id) j =
      (t : TxnBuffer)
      → lookup id j.active_txns ≡ some t
      → HasRoom dev byte size mem (entry_frame calc_crc32 (committed id t)) j
  Ready (save rs) j =
      All IsData rs × HasRoom dev byte size mem (entry_frame calc_crc32 (snapshot rs)) j

  unfoldable pub AreReady : List Op → Journal D → Type 0
  AreReady [] j = Unit
  AreReady (o ∷ os) j = Ready o j × AreReady os (perform dev calc_crc32 o j)

  -- The device holds the durable records, and the buffers hold those of the transactions.
  pub record Refines (j : Journal D) (l : Ledger) : Type 0 where
    pub log : List Entry
    pub holds : Holds byte size calc_crc32 log j
    pub durable : records_of log ≡ l.saved
    pub buffered : (id : ℕ) → records_in (lookup id j.active_txns) ≡ l.pending id
    pub buffers : AreBuffers j.active_txns
    pub numbered : j.next_txn_id ≡ l.next
    pub next_fits : j.next_txn_id < 2 ^ 64
