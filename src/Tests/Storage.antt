-- ===== src/Tests/Storage.antt =====
-- The properties of the storage layer, the index and the database at concrete inputs.
use mathlib.Core.Option as CoreOption
use adaptive_query_accelerat.Common.{
  ℕ, suc, zero, ◌≡◌, refl, subst, none, some, List, [], ◌∷◌, arith, get_elem?,
}
use adaptive_query_accelerat.WorkloadHint.{point_lookup}
use adaptive_query_accelerat.MappedFile.{ok}
use adaptive_query_accelerat.Page.{RawPage, RecordId}
use adaptive_query_accelerat.StorageEngine.Allocate.{Allocates, allocate_page-Allocates}
use adaptive_query_accelerat.Database.Start.{pages-init}
use adaptive_query_accelerat.PageCache.Interface.{Policies}
use adaptive_query_accelerat.PageCache.Supply.{page_eviction_policies}
use adaptive_query_accelerat.PageCache.View.{content}
use adaptive_query_accelerat.Tests.{whole_numbers}
use adaptive_query_accelerat.PageCache.Progress.{Alike}
use adaptive_query_accelerat.StorageWriter
use adaptive_query_accelerat.StorageWriter.{StorageWriter}
use adaptive_query_accelerat.StorageWriter.Insert.{IsFilled, filled_with, filled_with-IsFilled}
use adaptive_query_accelerat.StorageWriter.Bounds.{Inserts, try_insert-Inserts}
use adaptive_query_accelerat.StorageWriter.Append as Writer
use adaptive_query_accelerat.StorageWriter.Append.{
  Appends, append-Appends, closed_page, closed-reads, Keeps,
}
use adaptive_query_accelerat.StorageWriter.History.{
  init-IsValid, append_all, ReadsAll, session-ReadsAll,
}
use adaptive_query_accelerat.StorageEngine.{StorageEngine, get_total_pages, prefetch_thread}
use adaptive_query_accelerat.StorageEngine.Fetch.{
  EngineFetches, fetch_page-EngineFetches, prefetch_thread-Alike,
}
use adaptive_query_accelerat.StorageReader
use adaptive_query_accelerat.StorageReader.{Record, read_slot}
use adaptive_query_accelerat.StorageReader.Slots.{lowest, used, record_of}
use adaptive_query_accelerat.StorageReader.Read.{Reads, read_record-Reads}
use adaptive_query_accelerat.StorageReader.Listing.{Readable, file_records}
use adaptive_query_accelerat.StorageReader.Scan.{Ready, scan-file_records}
use adaptive_query_accelerat.StorageReader.Lookup.{Holds}
use adaptive_query_accelerat.Index.{Index, rebuild, lookup}
use adaptive_query_accelerat.Index.Rebuild.{latest, id_of, records_of, rebuild-latest}
use adaptive_query_accelerat.Database.Fresh.{IsFresh, AllReadable}
use adaptive_query_accelerat.Database.Start.{engine_of, init-Ready, store_in}
use adaptive_query_accelerat.Database.Open.{opened, opened-IsFresh}

abbrev pub policies : Policies
policies = page_eviction_policies whole_numbers point_lookup

abbrev pub small : Record
small = record { key = 1 ∷ []; value = 2 ∷ 3 ∷ [] }

-- A page that a writer filled with one record.
abbrev pub new_writer : StorageWriter
new_writer = StorageWriter.init []

new_writer-IsValid : Writer.IsValid new_writer
new_writer-IsValid = init-IsValid [] (omega arith)

abbrev pub one_record : StorageWriter
one_record = filled_with new_writer small (lowest (small ∷ []))

new_writer-IsFilled : IsFilled new_writer []
unfolding StorageReader.Slots.Laid used StorageWriter.init
new_writer-IsFilled = record { room = omega arith; laid = tt; counted = refl; free = refl }

pub one_record-IsFilled : IsFilled one_record (small ∷ [])
unfolding used
one_record-IsFilled = filled_with-IsFilled new_writer-IsFilled small (omega arith)

abbrev pub pages : List RawPage
pages = closed_page one_record ∷ []

page-Readable : Readable (closed_page one_record)
page-Readable slot_id h = (record_of (small ∷ []) slot_id, closed-reads one_record-IsFilled slot_id)

pub pages-Readable : (q : ℕ) (p : RawPage) → get_elem? pages q ≡ some p → Readable p
pages-Readable zero p h =
    subst Readable (CoreOption.some-injective (closed_page one_record) p h) page-Readable
pages-Readable (suc q) p h = cc

-- An engine over that page, with a cache of one page.
abbrev engine : StorageEngine policies
engine = engine_of policies pages 1 none

engine-Ready : Ready engine.cache
engine-Ready = init-Ready policies pages 1 none (omega arith) (omega arith)

opened-IsFresh_pages :
    IsFresh (opened {policies = policies} pages [] 1 1 none point_lookup) (store_in pages)
opened-IsFresh_pages =
    opened-IsFresh pages [] 1 1 none point_lookup (omega arith) (omega arith) (omega arith)
      pages-Readable

engine-Readable : AllReadable engine
engine-Readable = opened-IsFresh_pages.served.readable

try_insert-Inserts_example : Inserts new_writer small
try_insert-Inserts_example = try_insert-Inserts small new_writer-IsFilled (omega arith)

append-Appends_example : Appends new_writer small
unfolding StorageWriter.init
append-Appends_example = append-Appends new_writer-IsValid small (omega arith) (omega arith)

session-ReadsAll_example :
    (rids : List RecordId) × (w : StorageWriter) × (append_all
        (small ∷ small ∷ [])
        (StorageWriter.init [])
      ≡ ok rids w)
    × ReadsAll (StorageWriter.flush w).file rids (small ∷ small ∷ [])
    × Keeps [] (StorageWriter.flush w).file
session-ReadsAll_example =
    session-ReadsAll [] (small ∷ small ∷ []) (omega arith, (omega arith, tt)) (omega arith)

fetch_page-EngineFetches_example : EngineFetches engine 0
fetch_page-EngineFetches_example = fetch_page-EngineFetches engine engine-Ready.valid 0

prefetch_thread-Alike_example :
    (e' : StorageEngine policies) × (prefetch_thread 0 engine ≡ some e')
    × Alike engine.cache e'.cache
    × (e'.pending ≡ engine.pending)
prefetch_thread-Alike_example = prefetch_thread-Alike engine engine-Ready.valid 0

allocate_page-Allocates_example : Allocates engine
allocate_page-Allocates_example =
    allocate_page-Allocates engine engine-Ready.valid engine-Ready.room
      (omega (arith, engine-Ready.valid.file.counted, pages-init policies pages 1 none))

abbrev first : RecordId
first = record { page_id = 0; slot_id = 0 }

read_record-Reads_example : Reads engine first
read_record-Reads_example = read_record-Reads engine engine-Ready.valid first

scan-file_records_example :
    (e' : StorageEngine policies) × (StorageReader.scan engine
      ≡ ok (file_records (content engine.cache) (get_total_pages engine) 0) e')
    × Alike engine.cache e'.cache
    × Ready e'.cache
scan-file_records_example = scan-file_records engine engine-Ready engine-Readable

rebuild-latest_example :
    (i : Index) × (e' : StorageEngine policies) × (rebuild engine ≡ ok i e')
    × Alike engine.cache e'.cache
    × Ready e'.cache
    × ((key : List ℕ) → lookup key i ≡ id_of (latest key (records_of engine)))
    × ((key : List ℕ) (v : RecordId × Record)
        → latest key (records_of engine) ≡ some v
        → Holds (content engine.cache) v × (v.1.key ≡ key))
rebuild-latest_example = rebuild-latest engine engine-Ready engine-Readable
