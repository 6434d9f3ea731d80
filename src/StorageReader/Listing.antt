-- ===== src/StorageReader/Listing.antt =====
-- The records that pages hold, in the order of a scan.
use adaptive_query_accelerat.Common.{ℕ, zero, suc, ◌<◌, ◌≡◌, Option, none, some, List, [], ◌++◌}
use adaptive_query_accelerat.Page.{RawPage, RecordId}
use adaptive_query_accelerat.StorageReader.{Record, slot_count, read_slot, visit}

-- What the slots of a page give, from a slot on.
abbrev pub visit_slot :
    RecordId → Option (Option Record) → List (RecordId × Record) → List (RecordId × Record)
visit_slot rid none visited = visited
visit_slot rid (some o) visited = visit rid o visited

unfoldable pub slot_records : RawPage → ℕ → ℕ → ℕ → List (RecordId × Record)
slot_records p pid zero sid = []
slot_records p pid (suc rounds) sid =
    visit_slot (record { page_id = pid; slot_id = sid }) (read_slot p sid)
      (slot_records p pid rounds (suc sid))

abbrev pub page_records : ℕ → Option RawPage → List (RecordId × Record)
page_records pid none = []
page_records pid (some p) = slot_records p pid (slot_count p) 0

-- What the pages give, in their order from a page on.
unfoldable pub file_records : (ℕ → Option RawPage) → ℕ → ℕ → List (RecordId × Record)
file_records pages zero pid = []
file_records pages (suc rounds) pid =
    page_records pid (pages pid) ++ file_records pages rounds (suc pid)

-- No slot of the page leads out of it.
abbrev pub Readable : RawPage → Type 0
Readable p = (sid : ℕ) → sid < slot_count p → (o : Option Record) × (read_slot p sid ≡ some o)
