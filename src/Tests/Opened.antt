-- ===== src/Tests/Opened.antt =====
-- The properties of the database's constructor at a file of one page and logs that are not empty.
use mathlib.Core.Option
use adaptive_query_accelerat.Common.{
  ℕ, ◌≡◌, sym, ap, subst, none, List, [], ◌∷◌, All, length, arith, replicate, length-replicate,
}
use adaptive_query_accelerat.WorkloadHint.{point_lookup}
use adaptive_query_accelerat.MappedFile.{ok, thrown, record_too_large}
use adaptive_query_accelerat.Wal
use adaptive_query_accelerat.Wal.{WalRecord}
use adaptive_query_accelerat.Wal.Round.{Fits}
use adaptive_query_accelerat.Wal.Replay.{encode_all, replay-encode_all}
use adaptive_query_accelerat.StorageWriter
use adaptive_query_accelerat.Index.{lookup}
use adaptive_query_accelerat.Index.Rebuild.{latest, id_of}
use adaptive_query_accelerat.Database.{Database, open_database}
use adaptive_query_accelerat.Database.Start.{records_in}
use adaptive_query_accelerat.Database.Recover.{logged, FitsPage}
use adaptive_query_accelerat.Database.Open.{open-latest}
use adaptive_query_accelerat.Database.TooLarge.{open-poisoned}
use adaptive_query_accelerat.Tests.Storage.{policies, pages, pages-Readable}

logged-encode_all : (rs : List WalRecord) → All Fits rs → logged (encode_all rs) ≡ rs
logged-encode_all rs fits = ap (λ r. r.0) (replay-encode_all rs 0 fits)

-- The record that the page holds, as its `put` logged it.
abbrev stored_record : WalRecord
stored_record = record { lsn = 1; key = 1 ∷ []; value = 2 ∷ 3 ∷ [] }

-- A newer value for its key, and another key, which are in no page.
abbrev newer_records : List WalRecord
newer_records =
    record { lsn = 2; key = 1 ∷ []; value = 7 ∷ [] }
    ∷ record { lsn = 3; key = 9 ∷ []; value = 8 ∷ [] }
    ∷ []

newer_records-Fits : All Fits newer_records
newer_records-Fits = (
  record { lsn = omega arith; key = omega arith; value = omega arith },
  (record { lsn = omega arith; key = omega arith; value = omega arith }, tt),
)

abbrev stored_log : List ℕ
stored_log = encode_all (stored_record ∷ [])

abbrev newer_log : List ℕ
newer_log = encode_all newer_records

open-latest_example :
    (db : Database policies) × (open_database pages newer_log 1 1 none point_lookup ≡ ok tt db)
    × ((key : List ℕ) → lookup key db.index ≡ id_of (latest key (records_in pages)))
open-latest_example =
    open-latest pages newer_log 1 1 none point_lookup (omega arith) (omega arith) (omega arith)
      pages-Readable
      (subst (All FitsPage) (sym (logged-encode_all newer_records newer_records-Fits))
        (omega arith, (omega arith, tt)))
      (omega (arith, ap length (logged-encode_all newer_records newer_records-Fits))) (omega arith)

abbrev large : List ℕ
large = replicate 5000 0

open-poisoned_example :
    (db : Database policies) × (open_database pages
        (Wal.append (record { log = newer_log; current_lsn = 3 }) (1 ∷ []) large).1.log
        1
        1
        none
        point_lookup
      ≡ thrown record_too_large db)
open-poisoned_example =
    open-poisoned pages 1 1 none point_lookup newer_records 3 (1 ∷ []) large newer_records-Fits
      (omega arith, (omega arith, tt)) (omega arith)
      (omega (arith, length-replicate {A = ℕ} 5000 0))
      (omega (arith, length-replicate {A = ℕ} 5000 0)) (omega arith) (omega arith) (omega arith)
      (omega arith) pages-Readable
