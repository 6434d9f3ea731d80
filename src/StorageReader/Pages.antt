-- ===== src/StorageReader/Pages.antt =====
-- The records of a list of pages, and of pages that hold records.
use adaptive_query_accelerat.Common.{
  ℕ, zero, suc, ◌+◌, ◌<◌, ◌≡◌, refl, sym, ◌∙◌, ap, Option, none, some, List, [], ◌∷◌, ◌++◌,
  append_assoc, length, get_elem?, arith,
}
use adaptive_query_accelerat.Page.{RawPage, RecordId}
use adaptive_query_accelerat.StorageReader.{Record, read_slot}
use adaptive_query_accelerat.StorageReader.Slots.{record_of}
use adaptive_query_accelerat.StorageReader.Listing.{
  visit_slot, slot_records, page_records, file_records,
}

unfoldable pub list_records : List RawPage → ℕ → List (RecordId × Record)
list_records [] pid = []
list_records (p ∷ ps) pid = page_records pid (some p) ++ list_records ps (suc pid)

-- The records that stand in the pages, in the order of a scan.
abbrev pub records_in : List RawPage → List (RecordId × Record)
records_in pages = file_records (λ q. get_elem? pages q) (length pages) 0

file_records-list :
    (f : ℕ → Option RawPage) (ps : List RawPage) (pid : ℕ)
    → ((i : ℕ) → f (pid + i) ≡ get_elem? ps i)
    → file_records f (length ps) pid ≡ list_records ps pid
unfolding file_records list_records
file_records-list f [] pid h = refl
file_records-list f (p ∷ ps) pid h =
    ap (λ o. page_records pid o ++ file_records f (length ps) (suc pid)) (ap f (omega arith) ∙ h 0)
    ∙ ap (λ l. page_records pid (some p) ++ l)
        (file_records-list f ps (suc pid) (λ i. ap f (omega arith) ∙ h (suc i)))

pub records_in-list : (ps : List RawPage) → records_in ps ≡ list_records ps 0
records_in-list ps =
    file_records-list (λ q. get_elem? ps q) ps 0 (λ i. ap (get_elem? ps) (omega arith))

pub list_records-append :
    (ps qs : List RawPage) (pid : ℕ)
    → list_records (ps ++ qs) pid ≡ list_records ps pid ++ list_records qs (pid + length ps)
unfolding list_records
list_records-append [] qs pid = ap (list_records qs) (omega arith)
list_records-append (p ∷ ps) qs pid =
    ap (λ l. page_records pid (some p) ++ l)
      (list_records-append ps qs (suc pid)
        ∙ ap (λ n. list_records ps (suc pid) ++ list_records qs n) (omega arith))
    ∙ sym (
        append_assoc (page_records pid (some p)) (list_records ps (suc pid))
          (list_records qs (pid + suc (length ps))))

-- Records in the order of their slots; the latest is given first.
unfoldable pub in_slots : ℕ → List Record → List (RecordId × Record)
in_slots pid [] = []
in_slots pid (r ∷ rs) = in_slots pid rs ++ (record { page_id = pid; slot_id = length rs }, r) ∷ []

visit_slot-append :
    (rid : RecordId) (o : Option (Option Record)) (vs ws : List (RecordId × Record))
    → visit_slot rid o (vs ++ ws) ≡ visit_slot rid o vs ++ ws
visit_slot-append rid none vs ws = refl
visit_slot-append rid (some none) vs ws = refl
visit_slot-append rid (some (some r)) vs ws = refl

slot_records-suc :
    (p : RawPage) (pid n sid : ℕ)
    → slot_records p pid (suc n) sid
      ≡ slot_records p pid n sid
        ++ visit_slot (record { page_id = pid; slot_id = sid + n }) (read_slot p (sid + n)) []
unfolding slot_records
slot_records-suc p pid zero sid =
    ap (λ s. visit_slot (record { page_id = pid; slot_id = s }) (read_slot p s) []) (omega arith)
slot_records-suc p pid (suc n) sid =
    ap (visit_slot (record { page_id = pid; slot_id = sid }) (read_slot p sid)) (
      slot_records-suc p pid n (suc sid)
      ∙ ap
          (λ s.
            slot_records p pid n (suc sid)
            ++ visit_slot (record { page_id = pid; slot_id = s }) (read_slot p s) [])
          (omega arith))
    ∙ visit_slot-append (record { page_id = pid; slot_id = sid }) (read_slot p sid)
        (slot_records p pid n (suc sid))
        (visit_slot (record { page_id = pid; slot_id = sid + suc n }) (read_slot p (sid + suc n))
          [])

-- A page whose slots read the records lists them in the order of the slots.
pub slot_records-in_slots :
    (p : RawPage) (pid : ℕ) (rs : List Record)
    → ((i : ℕ) → i < length rs → read_slot p i ≡ some (record_of rs i))
    → slot_records p pid (length rs) 0 ≡ in_slots pid rs
unfolding in_slots record_of
slot_records-in_slots p pid [] h = unfold slot_records in refl
slot_records-in_slots p pid (r ∷ rs) h =
    let top : read_slot p (0 + length rs) ≡ some (some r) =
      ap (read_slot p) (omega arith) ∙ h (length rs) (omega arith) ∙ ground arith in
    let at_top : 0 + length rs ≡ length rs = omega arith in
    slot_records-suc p pid (length rs) 0
    ∙ ap
        (λ l.
          l
          ++ visit_slot (record { page_id = pid; slot_id = 0 + length rs })
              (read_slot p (0 + length rs)) [])
        (slot_records-in_slots p pid rs (λ i b. h i (omega arith) ∙ ground arith))
    ∙ ap
        (λ o.
          in_slots pid rs ++ visit_slot (record { page_id = pid; slot_id = 0 + length rs }) o [])
        top
    ∙ ap (λ s. in_slots pid rs ++ (record { page_id = pid; slot_id = s }, r) ∷ []) at_top
