-- ===== src/Btier/JournalRecord/Tests.antt =====
-- Records of btier/journal.cc in bytes.
use cxxlab.Prelude.{ℕ, ◌≡◌, refl, arith, List, [], ◌∷◌, ◌++◌, some, none}
use cxxlab.Btier.JournalRecord.{
  JournalRecord, key_put, mark_dead, serialize_record, deserialize_record, put_bytes, get_bytes,
}
use cxxlab.Btier.JournalRecord.RoundTrip.{Fits, deserialize_record-serialize_record}

abbrev record_put : JournalRecord
record_put = key_put 3 (97 ∷ 98 ∷ []) (record { extent_id = 7; offset = 4096; length = 300 })

abbrev rest : List ℕ
rest = 1 ∷ 2 ∷ []

dead_bytes :
    serialize_record (mark_dead 1 2 258)
    ≡ 4 ∷ 1 ∷ 0 ∷ 0 ∷ 0 ∷ 0 ∷ 0 ∷ 0 ∷ 0 ∷ 2 ∷ 0 ∷ 0 ∷ 0 ∷ 0 ∷ 0 ∷ 0 ∷ 0 ∷ 2 ∷ 1 ∷ 0 ∷ 0 ∷ []
unfolding serialize_record put_bytes
dead_bytes = refl

too_short : deserialize_record (1 ∷ 2 ∷ 3 ∷ []) ≡ none
unfolding deserialize_record get_bytes
too_short = refl

record_put-Fits : Fits record_put
record_put-Fits = ground arith

deserialize_record-serialize_record_example :
    deserialize_record (serialize_record record_put ++ rest) ≡ some (record_put, rest)
deserialize_record-serialize_record_example =
    deserialize_record-serialize_record record_put rest record_put-Fits
