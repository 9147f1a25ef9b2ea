-- ===== src/Btier/Journal/Log.antt =====
-- btier/journal.cc: what Journal::recover makes of the whole range that the journal wrote, entry after
-- entry, each padded to the next boundary.
use mathlib.Core.List.{append-nil, append_assoc}
use cxxlab.Prelude.{
  ℕ, ◌+◌, ◌-◌, ◌%◌, ◌^◌, ◌≤◌, ◌<◌, ◌≡◌, refl, sym, ap, arith, List, [], ◌∷◌, ◌++◌, some, All,
  length, length-append,
}
use cxxlab.Btier.JournalRecord.{Bytes, txn_begin, serialize_record}
use cxxlab.Btier.Journal.{zero_bytes, padded, padded_size}
use cxxlab.Btier.Journal.Recover.{Scan, parse, start}
use cxxlab.Btier.Journal.Scan.{
  Advances, Advances-refl, Advances-trans, Advances-padding, Advances-end, length-zero_bytes,
  length-serialize_record,
}
use cxxlab.Btier.Journal.Frames.{
  Entry, entry_frame, log_bytes, records_of, IsEntry, padded_size_lem, length-padded,
  Advances-frame,
}

module _ (calc_crc32 : Bytes → ℕ) where
  pub length-entry_frame : (e : Entry) → 9 ≤ length (entry_frame calc_crc32 e)
  length-entry_frame e = omega (
    arith,
    length-append (serialize_record (txn_begin e.txn_id)) _,
    length-serialize_record (txn_begin e.txn_id),
  )

  pub length-entry :
      (e : Entry)
      → IsEntry calc_crc32 e
      → length (padded (entry_frame calc_crc32 e)) ≡ padded_size (length (entry_frame calc_crc32 e))
  length-entry e h =
      let n = length-entry_frame e in
      length-padded (entry_frame calc_crc32 e) (omega (arith, n)) h.size_fits

  pub aligned-log_bytes :
      (es : List Entry) → All (IsEntry calc_crc32) es → length (log_bytes calc_crc32 es) % 4096 ≡ 0
  unfolding log_bytes
  aligned-log_bytes [] h = refl
  aligned-log_bytes (e ∷ es) h =
      let n = length-entry_frame e in
      let p =
        padded_size_lem (length (entry_frame calc_crc32 e)) (omega (arith, n)) h.0.size_fits in
      omega (
        arith,
        length-append (padded (entry_frame calc_crc32 e)) (log_bytes calc_crc32 es),
        length-entry e h.0,
        p.2,
        aligned-log_bytes es h.1,
      )

module _ (calc_crc32 : Bytes → ℕ) (crc-lt : (b : Bytes) → calc_crc32 b < 2 ^ 32) where
  module _ (total : ℕ) (aligned : total % 4096 ≡ 0) where
    -- One entry and its padding, in front of a rest that is aligned too.
    Advances-entry :
        (e : Entry) (p : Bytes) (s : Scan)
        → IsEntry calc_crc32 e
        → length p % 4096 ≡ 0
        → length (padded (entry_frame calc_crc32 e)) + length p ≤ total
        → (t : Scan) × (t.result ≡ s.result ++ e.records)
          × Advances calc_crc32 total (padded (entry_frame calc_crc32 e) ++ p) s p t
    unfolding padded
    Advances-entry e p s h a fits =
        let f = entry_frame calc_crc32 e in
        let z = zero_bytes (padded_size (length f) - length f) in
        let n = length-entry_frame calc_crc32 e in
        let b = padded_size_lem (length f) (omega (arith, n)) h.size_fits in
        let zl = length-zero_bytes (padded_size (length f) - length f) in
        let (t, r, go) = Advances-frame calc_crc32 crc-lt total e (z ++ p) s h in
        let pad =
          Advances-padding calc_crc32 total (padded_size (length f) - length f) p t
            (omega (arith, b.0, b.1)) (omega (arith, length-append f z, zl, fits)) aligned a in
        (
          t,
          r,
          rw (append_assoc f z p)
              (Advances-trans calc_crc32 total (f ++ (z ++ p)) (z ++ p) p s t t go pad),
        )

    Advances-log :
        (es : List Entry) (s : Scan)
        → All (IsEntry calc_crc32) es
        → length (log_bytes calc_crc32 es) ≤ total
        → (t : Scan) × (t.result ≡ s.result ++ records_of es)
          × Advances calc_crc32 total (log_bytes calc_crc32 es) s [] t
    unfolding log_bytes records_of
    Advances-log [] s h fits = (s, sym (append-nil s.result), Advances-refl calc_crc32 total [] s)
    Advances-log (e ∷ es) s h fits =
        let p = log_bytes calc_crc32 es in
        let first = padded (entry_frame calc_crc32 e) in
        let n = length-append first p in
        let (t, r, go) =
          Advances-entry e p s h.0 (aligned-log_bytes calc_crc32 es h.1) (omega (arith, n, fits)) in
        let (u, q, on) = Advances-log es t h.1 (omega (arith, n, fits)) in
        (
          u,
          rw (q, r) (append_assoc s.result e.records (records_of es)),
          Advances-trans calc_crc32 total (first ++ p) p [] s t u go on,
        )

  -- For any number of committed transactions and checkpoints, each with its number below 2^64 and its
  -- records fit for their words, and where the checksum is below 2^32: recovery's parsing loop makes of
  -- their bytes, each padded to the boundary, the records of all of them, in the order of the log.
  pub parse-log_bytes :
      (es : List Entry)
      → All (IsEntry calc_crc32) es
      → parse calc_crc32 (log_bytes calc_crc32 es) ≡ some (records_of es)
  unfolding parse
  parse-log_bytes es h =
      let bl = log_bytes calc_crc32 es in
      let (t, r, go) =
        Advances-log (length bl) (aligned-log_bytes calc_crc32 es h) es start h (omega arith) in
      rw (Advances-end calc_crc32 (length bl) bl start t go) (ap some r)
