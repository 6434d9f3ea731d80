-- ===== src/StorageWriter/Append.antt =====
-- Appending records, and what the file then reads.
use adaptive_query_accelerat.Common.{
  ℕ, zero, suc, ◌^◌, ◌+◌, ◌≤◌, ◌<◌, ◌≡◌, inl, inr, refl, sym, ◌∙◌, ap, none, some, List, [], ◌∷◌,
  ◌++◌, length, length-append, get_elem?, arith, leb, Bool-cases, Option-cases,
}
use adaptive_query_accelerat.MappedFile.{ok, thrown, record_too_large}
use adaptive_query_accelerat.Page.{RawPage, RecordId, page_size}
use adaptive_query_accelerat.StorageReader.{Record, slot_at, read_slot}
use adaptive_query_accelerat.StorageReader.Slots.{
  read_page, used, lowest, HasRoom, Laid, record_of, record_of-cons,
}
use adaptive_query_accelerat.StorageWriter.{
  StorageWriter, reset_current_page, write_page_to_disk, append, try_insert_in_page,
  insert_or_throw, append_after, start_page,
}
use adaptive_query_accelerat.StorageWriter.Insert.{
  IsFilled, filled_with, try_insert-room, filled_with-IsFilled, try_insert-full,
}
pub use adaptive_query_accelerat.StorageWriter.Written.{
  read_at, closed_page, written, IsValid, closed-reads,
}
use adaptive_query_accelerat.StorageWriter.Written.{written-list}
use adaptive_query_accelerat.StorageReader.Pages.{records_in, in_slots}
use adaptive_query_accelerat.Common.{append-nil, append_assoc, ◌⊎◌, ap₂}

-- What could be read can still be read.
abbrev pub Keeps : List RawPage → List RawPage → Type 0
Keeps pages pages' =
    (rid : RecordId) (x : Record)
    → read_at pages rid ≡ some (some x)
    → read_at pages' rid ≡ some (some x)

get_elem?-prefix :
    (ps qs : List RawPage) (i : ℕ) {p : RawPage}
    → get_elem? ps i ≡ some p
    → get_elem? (ps ++ qs) i ≡ some p
get_elem?-prefix [] qs i h = cc
get_elem?-prefix (p ∷ ps) qs zero h = h
get_elem?-prefix (p ∷ ps) qs (suc i) h = get_elem?-prefix ps qs i h

pub Keeps-prefix : (ps qs : List RawPage) → Keeps ps (ps ++ qs)
Keeps-prefix ps qs rid x h = elim (Option-cases (get_elem? ps rid.page_id)) [
  | inl absent ↦ let e : some none ≡ some (some x) = rw absent at h in cc
  | inr (p, present) ↦ rw (get_elem?-prefix ps qs rid.page_id present) (rw present at h)
]

get_elem?-last : (ps : List RawPage) (p : RawPage) → get_elem? (ps ++ p ∷ []) (length ps) ≡ some p
get_elem?-last [] p = refl
get_elem?-last (q ∷ ps) p = get_elem?-last ps p

-- A last page that reads at least as much.
Keeps-last :
    (ps : List RawPage) (p p' : RawPage)
    → ((i : ℕ) (x : Record) → read_slot p i ≡ some (some x) → read_slot p' i ≡ some (some x))
    → Keeps (ps ++ p ∷ []) (ps ++ p' ∷ [])
Keeps-last ps p p' h rid x e = go ps rid.page_id e
  where
    go :
        (qs : List RawPage) (i : ℕ)
        → read_page (get_elem? (qs ++ p ∷ []) i) rid.slot_id ≡ some (some x)
        → read_page (get_elem? (qs ++ p' ∷ []) i) rid.slot_id ≡ some (some x)
    go [] zero e = h rid.slot_id x e
    go [] (suc i) e = e
    go (q ∷ qs) zero e = e
    go (q ∷ qs) (suc i) e = go qs i e

-- An append of a record: it is stored, or is too large for any page.
pub data Appends (w : StorageWriter) (r : Record) : Type 0 where
  appended :
      (rid : RecordId) (w' : StorageWriter)
      → length r.key + length r.value ≤ 4021
      → append r.key r.value w ≡ ok rid w'
      → IsValid w'
      → read_at (written w') rid ≡ some (some r)
      → Keeps (written w) (written w')
      → length w'.file ≤ length w.file + 1
      → rid.page_id ≡ length w'.file
      → length w.file ≤ length w'.file
      → (w'.file ≡ w.file) ⊎ (w'.file ≡ written w)
      → records_in (written w') ≡ records_in (written w) ++ (rid, r) ∷ []
      → Appends w r
  too_large :
      (w' : StorageWriter)
      → 4021 < length r.key + length r.value
      → append r.key r.value w ≡ thrown record_too_large w'
      → IsValid w'
      → Keeps (written w) (written w')
      → length w.file ≤ length w'.file
      → w'.file ≡ written w
      → records_in (written w') ≡ records_in (written w)
      → Appends w r

-- The writer after a record went into its current page.
record Inserted (w : StorageWriter) (r : Record) : Type 0 where
  slot_id : ℕ
  result : StorageWriter
  inserted : try_insert_in_page r.key r.value w ≡ some (slot_id, result)
  valid : IsValid result
  read :
      read_at (written result) (record { page_id = result.current_page_id; slot_id = slot_id })
      ≡ some (some r)
  keeps : Keeps (written w) (written result)
  same_pages : result.file ≡ w.file
  listed :
      records_in (written result)
      ≡ records_in (written w)
        ++ (record { page_id = result.current_page_id; slot_id = slot_id }, r) ∷ []

insert-Inserted :
    {w : StorageWriter} (r : Record) (v : IsValid w) → HasRoom (r ∷ v.records) → Inserted w r
insert-Inserted {w} r v room =
    let rs = v.records in
    let w' : StorageWriter = filled_with w r (lowest (r ∷ rs)) in
    let filled = filled_with-IsFilled v.filled r room in
    record {
      slot_id = w.current_slot_count;
      result = w';
      inserted = try_insert-room v.filled r room;
      valid = record { records = r ∷ rs; filled = filled; placed = v.placed };
      read =
          ap (λ i. read_page (get_elem? (written w') i) w.current_slot_count) v.placed
          ∙ ap (λ o. read_page o w.current_slot_count) (get_elem?-last w.file (closed_page w'))
          ∙ closed-reads filled w.current_slot_count
          ∙ ap some (unfold record_of in ground (arith, v.filled.counted));
      keeps = Keeps-last w.file (closed_page w) (closed_page w') (λ i x h.
          let old : some (record_of rs i) ≡ some (some x) = sym (closed-reads v.filled i) ∙ h in
          closed-reads filled i ∙ ap some (record_of-cons r rs i (cc)));
      same_pages = refl;
      listed =
          written-list filled
          ∙ unfold in_slots in
            sym (append_assoc (records_in w.file) (in_slots (length w.file) rs) _)
            ∙ ap₂ (λ l rid. l ++ (rid, r) ∷ []) (sym (written-list v.filled))
                (λ i. record { page_id = sym v.placed i; slot_id = sym v.filled.counted i });
    }

-- A new page, behind the one that was current.
started-IsFilled : (w : StorageWriter) → IsFilled (start_page w) []
unfolding write_page_to_disk reset_current_page Laid used
started-IsFilled w = record { room = omega arith; laid = tt; counted = refl; free = refl }

started-placed :
    (w : StorageWriter)
    → length w.file + 1 < 2 ^ 32
    → w.current_page_id ≡ length w.file
    → (start_page w).current_page_id ≡ length (start_page w).file
unfolding write_page_to_disk reset_current_page
started-placed w few placed = omega (arith, length-append w.file (closed_page w ∷ []))

started-Keeps : (w : StorageWriter) → Keeps (written w) (written (start_page w))
unfolding write_page_to_disk reset_current_page
started-Keeps w = Keeps-prefix (written w) (closed_page (start_page w) ∷ [])

started-file : (w : StorageWriter) → (start_page w).file ≡ written w
unfolding write_page_to_disk reset_current_page
started-file w = refl

started-records : (w : StorageWriter) → records_in (written (start_page w)) ≡ records_in (written w)
started-records w =
    written-list (started-IsFilled w)
    ∙ unfold in_slots in append-nil _ ∙ ap records_in (started-file w)

length-started : (w : StorageWriter) → length (start_page w).file ≡ length w.file + 1
unfolding write_page_to_disk reset_current_page
length-started w = length-append w.file (closed_page w ∷ [])

module _ {w : StorageWriter} (v : IsValid w) (r : Record)
    (small : length r.key + length r.value < 2 ^ 62) (few : length w.file + 1 < 2 ^ 32) where
  in_new_page : try_insert_in_page r.key r.value w ≡ none → Appends w r
  unfolding append
  in_new_page full =
      let w' : StorageWriter = start_page w in
      let v' : IsValid w' = record {
        records = [];
        filled = started-IsFilled w;
        placed = started-placed w few v.placed;
      } in
      elim (Bool-cases (leb (length r.key + length r.value) 4021)) [
        | inl fits ↦
            let n = insert-Inserted {w = w'} r v' (unfold used in ground arith) in
            appended (record { page_id = n.result.current_page_id; slot_id = n.slot_id }) n.result
              (ground arith)
              (ap (append_after r.key r.value w) full ∙ ap (insert_or_throw w') n.inserted) n.valid
              n.read (λ rid x h. n.keeps rid x (started-Keeps w rid x h))
              (omega (arith, ap length n.same_pages, length-started w)) n.valid.placed
              (omega (arith, ap length n.same_pages, length-started w))
              (inr (n.same_pages ∙ started-file w))
              (n.listed
                ∙ ap
                    (λ l.
                      l
                      ++ (record { page_id = n.result.current_page_id; slot_id = n.slot_id }, r)
                        ∷ [])
                    (started-records w))
        | inr large ↦
            too_large w' (ground arith)
              (ap (append_after r.key r.value w) full
                ∙ ap (insert_or_throw w')
                    (try_insert-full (started-IsFilled w) r small (unfold used in ground arith)))
              v' (started-Keeps w) (omega (arith, length-started w)) (started-file w)
              (started-records w)
      ]

  -- On a valid writer of fewer than 2^32 - 1 written pages, for a record below 2^62 bytes: an
  -- append of at most 4021 bytes of key and value returns an id that reads the record once the
  -- current page is written, in the page behind those written, takes at most one page more, and
  -- adds the record behind those that the file lists; an append of more bytes throws. Either way
  -- the writer stays valid, and every record that could be read can still be read.
  pub append-Appends : Appends w r
  append-Appends =
      elim (Bool-cases (leb (slot_at (length (r ∷ v.records)) + used (r ∷ v.records)) page_size)) [
        | inr full ↦ in_new_page (try_insert-full v.filled r small (ground arith))
        | inl room ↦
            let n = insert-Inserted r v (ground arith) in
            appended (record { page_id = n.result.current_page_id; slot_id = n.slot_id }) n.result
              (unfold used in ground arith)
              (unfold append in ap (append_after r.key r.value w) n.inserted) n.valid n.read n.keeps
              (omega (arith, ap length n.same_pages)) n.valid.placed
              (omega (arith, ap length n.same_pages)) (inl n.same_pages) n.listed
      ]
