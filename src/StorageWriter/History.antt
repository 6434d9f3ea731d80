-- ===== src/StorageWriter/History.antt =====
-- A whole session of a writer: the records that it appends, and the file that it leaves.
use adaptive_query_accelerat.Common.{
  ℕ, zero, suc, ◌^◌, ◌+◌, ◌≤◌, ◌<◌, ◌≡◌, refl, ◌∙◌, ap, Bool-cases, inl, inr, none, some, List, [],
  ◌∷◌, ◌++◌, length, get_elem?, All, arith, ltb, ◌==◌, ◌||◌,
}
use adaptive_query_accelerat.MappedFile.{Result, ok, ◌>>=◌}
use adaptive_query_accelerat.Page.{RawPage, RecordId}
use adaptive_query_accelerat.StorageReader.{Record, read_slot}
use adaptive_query_accelerat.StorageReader.Slots.{read_page, Laid, used, record_of}
use adaptive_query_accelerat.StorageWriter.{StorageWriter, init, append, flush, write_page_to_disk}
use adaptive_query_accelerat.StorageWriter.Append.{
  IsValid, Keeps, Keeps-prefix, closed_page, closed-reads, read_at, written, appended, too_large,
  append-Appends,
}
use adaptive_query_accelerat.Common.{append-nil, length-append, ◌≤◌, sym}
use adaptive_query_accelerat.StorageReader.Pages.{records_in, in_slots}
use adaptive_query_accelerat.StorageWriter.Written.{written-list, Sound, Sound-prefix}

-- The ids that the calls of `append` return, in order; it stops at one that throws.
unfoldable pub append_all : List Record → StorageWriter → Result StorageWriter (List RecordId)
append_all [] w = ok [] w
append_all (r ∷ rs) w =
    append r.key r.value w >>= λ (rid, w'). append_all rs w' >>= λ (rids, w''). ok (rid ∷ rids) w''

-- Each id reads its record.
abbrev pub ReadsAll : List RawPage → List RecordId → List Record → Type 0
ReadsAll pages [] [] = Unit
ReadsAll pages [] (r ∷ rs) = ⊥
ReadsAll pages (rid ∷ rids) [] = ⊥
ReadsAll pages (rid ∷ rids) (r ∷ rs) = (read_at pages rid ≡ some (some r)) × ReadsAll pages rids rs

abbrev pub FitsPage : Record → Type 0
FitsPage r = length r.key + length r.value ≤ 4021

record AppendsAll (w : StorageWriter) (rs : List Record) : Type 0 where
  rids : List RecordId
  result : StorageWriter
  returned : append_all rs w ≡ ok rids result
  valid : IsValid result
  reads : ReadsAll (written result) rids rs
  keeps : Keeps (written w) (written result)

append_all-AppendsAll :
    (rs : List Record) (w : StorageWriter)
    → IsValid w
    → All FitsPage rs
    → length w.file + length rs < 2 ^ 32
    → AppendsAll w rs
unfolding append_all
append_all-AppendsAll [] w v fit few = record {
  rids = [];
  result = w;
  returned = refl;
  valid = v;
  reads = tt;
  keeps = λ rid x h. h;
}
append_all-AppendsAll (r ∷ rs) w v fit few =
    elim (append-Appends v r (omega (arith, fit.0)) (omega arith)) [
      | too_large w' large e v' k longer grows listed ↦ absurd (omega (arith, fit.0))
      | appended rid w' small e v' reads k grown named longer grows listed ↦
          let rest = append_all-AppendsAll rs w' v' fit.1 (omega arith) in
          record {
            rids = rid ∷ rest.rids;
            result = rest.result;
            returned = rw (e, rest.returned) refl;
            valid = rest.valid;
            reads = (rest.keeps rid r reads, rest.reads);
            keeps = λ q x h. rest.keeps q x (k q x h);
          }
    ]

length-zero : (rs : List Record) → length rs ≡ 0 → rs ≡ []
length-zero [] h = refl
length-zero (r ∷ rs) h = absurd (omega arith)

pub init-IsValid : (pages : List RawPage) → length pages < 2 ^ 32 → IsValid (init pages)
unfolding init Laid used
init-IsValid pages few = record {
  records = [];
  filled = record { room = omega arith; laid = tt; counted = refl; free = refl };
  placed = omega arith;
}

init-Keeps : (pages : List RawPage) → Keeps pages (written (init pages))
unfolding init
init-Keeps pages = Keeps-prefix pages _

-- A last page that reads nothing can be left out.
Keeps-empty :
    (ps : List RawPage) (p : RawPage)
    → ((slot_id : ℕ) → read_slot p slot_id ≡ some none)
    → Keeps (ps ++ p ∷ []) ps
Keeps-empty ps p h rid x e = go ps rid.page_id e
  where
    go :
        (qs : List RawPage) (i : ℕ)
        → read_page (get_elem? (qs ++ p ∷ []) i) rid.slot_id ≡ some (some x)
        → read_page (get_elem? qs i) rid.slot_id ≡ some (some x)
    go [] zero e = let nothing = h rid.slot_id in cc
    go [] (suc i) e = e
    go (q ∷ qs) zero e = e
    go (q ∷ qs) (suc i) e = go qs i e

flush-Keeps : (w : StorageWriter) → IsValid w → Keeps (written w) (flush w).file
unfolding flush
flush-Keeps w v = elim (Bool-cases (ltb 0 w.current_slot_count || w.current_page_id == 0)) [
  | inl writes ↦ rw writes (unfold write_page_to_disk in λ rid x h. h)
  | inr skips ↦
      let none_left : v.records ≡ [] = ground (arith, v.filled.counted, length-zero v.records) in
      rw skips (
        Keeps-empty w.file (closed_page w)
          (λ i. closed-reads v.filled i ∙ ap some (rw none_left (unfold record_of in refl))))
]

ReadsAll-Keeps :
    (pages pages' : List RawPage) (rids : List RecordId) (rs : List Record)
    → Keeps pages pages'
    → ReadsAll pages rids rs
    → ReadsAll pages' rids rs
ReadsAll-Keeps pages pages' [] [] k h = tt
ReadsAll-Keeps pages pages' [] (r ∷ rs) k h = h
ReadsAll-Keeps pages pages' (rid ∷ rids) [] k h = h
ReadsAll-Keeps pages pages' (rid ∷ rids) (r ∷ rs) k h =
    (k rid r h.0, ReadsAll-Keeps pages pages' rids rs k h.1)

-- A session on a file of whole pages, for fewer than 2^32 pages and records together: appending
-- records of at most 4021 bytes each returns an id for each, and in the file that is left after
-- the destructor's `flush` each id reads its record, and every id that read a record of the old
-- pages still reads it.
pub session-ReadsAll :
    (pages : List RawPage) (rs : List Record)
    → All FitsPage rs
    → length pages + length rs < 2 ^ 32
    → (rids : List RecordId) × (w : StorageWriter) × (append_all rs (init pages) ≡ ok rids w)
      × ReadsAll (flush w).file rids rs
      × Keeps pages (flush w).file
session-ReadsAll pages rs fit few =
    let v = init-IsValid pages (omega arith) in
    let s = append_all-AppendsAll rs (init pages) v fit (unfold init in few) in
    let closes = flush-Keeps s.result s.valid in
    (
      s.rids,
      s.result,
      s.returned,
      ReadsAll-Keeps (written s.result) (flush s.result).file s.rids rs closes s.reads,
      λ rid x h. closes rid x (s.keeps rid x (init-Keeps pages rid x h)),
    )

-- The file that `flush` leaves lists the same records, and is readable if the pages were.
pub flush-records :
    (w : StorageWriter) → IsValid w → records_in (flush w).file ≡ records_in (written w)
unfolding flush write_page_to_disk
flush-records w v = elim (Bool-cases (ltb 0 w.current_slot_count || w.current_page_id == 0)) [
  | inl writes ↦ rw writes refl
  | inr skips ↦
      let none_left : v.records ≡ [] = ground (arith, v.filled.counted, length-zero v.records) in
      rw skips (
        sym (
          written-list v.filled
          ∙ ap (λ rs. records_in w.file ++ in_slots (length w.file) rs) none_left
          ∙ unfold in_slots in append-nil _))
]

pub flush-Sound : (w : StorageWriter) → Sound (written w) → Sound (flush w).file
unfolding flush write_page_to_disk
flush-Sound w s = elim (Bool-cases (ltb 0 w.current_slot_count || w.current_page_id == 0)) [
  | inl writes ↦ rw writes s
  | inr skips ↦ rw skips (Sound-prefix w.file (closed_page w ∷ []) s)
]

pub length-flush : (w : StorageWriter) → length (flush w).file ≤ length w.file + 1
unfolding flush write_page_to_disk
length-flush w = elim (Bool-cases (ltb 0 w.current_slot_count || w.current_page_id == 0)) [
  | inl writes ↦ rw writes (omega (arith, length-append w.file (closed_page w ∷ [])))
  | inr skips ↦ rw skips (omega arith)
]
