-- ===== src/StorageReader.antt =====
-- src/storage/storage_reader.h and storage_reader.cpp: reading a record by its id, and the scan of
-- all records through the storage engine. The calls of a scan's callback are the list of what it is
-- given; the callback does not throw.
pub mod Slots
pub mod Read
pub mod Listing
pub mod Pages
pub mod Scan
pub mod Lookup
use adaptive_query_accelerat.Common.{
  ℕ, zero, suc, ◌+◌, ◌*◌, [], ◌∷◌, ◌++◌, get_elem?, Option, none, some, List, ltb, leb, ◌==◌, ◌||◌,
  if◌then◌else◌,
}
use adaptive_query_accelerat.Common.Arrays.{load_bytes, load_int}
use adaptive_query_accelerat.MappedFile.{Result, ok, thrown, undefined, ◌>>=◌}
use adaptive_query_accelerat.Page.{RawPage, RecordId, page_size, page_header_size}
use adaptive_query_accelerat.PageCache.Handles.{PageHandle}
use adaptive_query_accelerat.PageCache.Interface.{Policies}
use adaptive_query_accelerat.StorageEngine.{
  StorageEngine, get_total_pages, fetch_page, prefetch_page, release,
}

pub record Record : Type 0 where
  pub key : List ℕ
  pub value : List ℕ

abbrev pub slot_count : RawPage → ℕ
slot_count p = load_int 2 page_header_size p

-- The record behind its header.
abbrev pub record_at : RawPage → ℕ → ℕ → ℕ → Record
record_at p at key_len val_len = record {
  key = load_bytes (at + 5) key_len p;
  value = load_bytes (at + 5 + key_len) val_len p;
}

-- From the deletion mark on. `none` is undefined behaviour: a read behind the end of the page.
abbrev pub read_record_at : RawPage → ℕ → Option (Option Record)
read_record_at p at =
    let key_len = load_int 2 (at + 1) p in
    let val_len = load_int 2 (at + 3) p in
    if p at == 1
    then some none
    else if ltb page_size (at + 5 + key_len + val_len)
    then none
    else some (some (record_at p at key_len val_len))

abbrev pub slot_at : ℕ → ℕ
slot_at slot_id = page_header_size + 2 + slot_id * 4

-- The rest of `read_record`, on the bytes of the page: `some none` is `nullopt`.
unfoldable pub read_slot : RawPage → ℕ → Option (Option Record)
read_slot p slot_id =
    let offset = load_int 2 (slot_at slot_id) p in
    let size = load_int 2 (slot_at slot_id + 2) p in
    if leb (slot_count p) slot_id
    then some none
    else if ltb page_size (slot_at slot_id + 4)
    then none
    else if leb page_size offset || ltb page_size (offset + size)
    then some none
    else read_record_at p offset

abbrev pub prefetch_lookahead : ℕ
prefetch_lookahead = 2

abbrev pub read_frame : Option RawPage → ℕ → Option (Option Record)
read_frame none slot_id = none
read_frame (some p) slot_id = read_slot p slot_id

-- The call of the callback, before those that follow.
abbrev pub visit : RecordId → Option Record → List (RecordId × Record) → List (RecordId × Record)
visit rid none visited = visited
visit rid (some r) visited = (rid, r) ∷ visited

module _ {policies : Policies} where
  -- The page that a handle's pointer leads to.
  abbrev pub page_of : PageHandle → StorageEngine policies → Option RawPage
  page_of h e = get_elem? e.cache.pool h.frame

  -- The return, which drops the handle.
  abbrev pub finish_read :
      PageHandle
      → StorageEngine policies
      → Option (Option Record)
      → Result (StorageEngine policies) (Option Record)
  finish_read h e none = undefined
  finish_read h e (some o) = ok o (release h e)

  abbrev pub read_through :
      ℕ → PageHandle × StorageEngine policies → Result (StorageEngine policies) (Option Record)
  read_through slot_id (h, e) = finish_read h e (read_frame (page_of h e) slot_id)

  unfoldable pub read_record :
      RecordId → StorageEngine policies → Result (StorageEngine policies) (Option Record)
  read_record rid e =
      if leb (get_total_pages e) rid.page_id
      then ok none e
      else fetch_page rid.page_id e >>= read_through rid.slot_id

  -- `for (uint16_t sid = 0; sid < slot_count; ++sid)`, with the rounds left.
  unfoldable pub scan_slots :
      ℕ
      → ℕ
      → ℕ
      → StorageEngine policies
      → Result (StorageEngine policies) (List (RecordId × Record))
  scan_slots zero pid sid e = ok [] e
  scan_slots (suc rounds) pid sid e = do
    (o, e') ← read_record (record { page_id = pid; slot_id = sid }) e
    (visited, e'') ← scan_slots rounds pid (suc sid) e'
    ok (visit (record { page_id = pid; slot_id = sid }) o visited) e''

  -- `for (uint32_t ahead = 1; ahead <= PREFETCH_LOOKAHEAD && pid + ahead < total_pages; ++ahead)`
  unfoldable pub prefetch_ahead : ℕ → ℕ → ℕ → ℕ → StorageEngine policies → StorageEngine policies
  prefetch_ahead zero ahead pid total_pages e = e
  prefetch_ahead (suc rounds) ahead pid total_pages e =
      let more =
        prefetch_ahead rounds (suc ahead) pid total_pages (prefetch_page (pid + ahead) e) in
      if ltb (pid + ahead) total_pages then more else e

  -- The end of a scope that holds a handle, by its end or by an exception.
  abbrev pub scoped :
      {A : Type 0}
      → PageHandle
      → Result (StorageEngine policies) A
      → Result (StorageEngine policies) A
  scoped h (ok a e) = ok a (release h e)
  scoped h (thrown x e) = thrown x (release h e)
  scoped h undefined = undefined

  abbrev pub then_prefetch :
      ℕ
      → ℕ
      → List (RecordId × Record) × StorageEngine policies
      → Result (StorageEngine policies) (List (RecordId × Record))
  then_prefetch pid total_pages (visited, e) =
      ok visited (prefetch_ahead prefetch_lookahead 1 pid total_pages e)

  -- One round of the outer loop, behind the fetch.
  abbrev pub scan_page :
      ℕ
      → ℕ
      → PageHandle
      → StorageEngine policies
      → Option RawPage
      → Result (StorageEngine policies) (List (RecordId × Record))
  scan_page pid total_pages h e none = undefined
  scan_page pid total_pages h e (some p) =
      scoped h (scan_slots (slot_count p) pid 0 e >>= then_prefetch pid total_pages)

  abbrev pub scan_handle :
      ℕ
      → ℕ
      → PageHandle × StorageEngine policies
      → Result (StorageEngine policies) (List (RecordId × Record))
  scan_handle pid total_pages (h, e) = scan_page pid total_pages h e (page_of h e)

  unfoldable pub scan_pages :
      ℕ
      → ℕ
      → ℕ
      → StorageEngine policies
      → Result (StorageEngine policies) (List (RecordId × Record))
  scan_pages zero pid total_pages e = ok [] e
  scan_pages (suc rounds) pid total_pages e = do
    (visited, e') ← fetch_page pid e >>= scan_handle pid total_pages
    (others, e'') ← scan_pages rounds (suc pid) total_pages e'
    ok (visited ++ others) e''

  unfoldable pub scan :
      StorageEngine policies → Result (StorageEngine policies) (List (RecordId × Record))
  scan e = scan_pages (get_total_pages e) 0 (get_total_pages e) e
