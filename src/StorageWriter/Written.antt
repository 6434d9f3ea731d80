-- ===== src/StorageWriter/Written.antt =====
-- The file of a writer once its current page is written, and the records in it.
use adaptive_query_accelerat.Common.{
  ℕ, zero, suc, ◌+◌, ◌≡◌, inl, inr, sym, ◌∙◌, ap, Option, some, List, [], ◌∷◌, ◌++◌, length,
  get_elem?, arith,
}
use adaptive_query_accelerat.Common.Arrays.{
  store_int, store_int-behind, load-store_int_self, values_of,
}
use adaptive_query_accelerat.Page.{RawPage, RecordId}
use adaptive_query_accelerat.StorageReader.{Record, read_slot}
use adaptive_query_accelerat.StorageReader.Slots.{read_page, Laid-same, record_of, read_slot-Laid}
use adaptive_query_accelerat.StorageWriter.{StorageWriter}
use adaptive_query_accelerat.StorageWriter.Insert.{IsFilled}
use mathlib.Core.Option as CoreOption
use adaptive_query_accelerat.Common.{subst, ◌⊎◌, inl, inr}
use adaptive_query_accelerat.StorageReader.{slot_count}
use adaptive_query_accelerat.Common.{ap₂, append-nil}
use adaptive_query_accelerat.StorageReader.Listing.{page_records, slot_records, Readable}
use adaptive_query_accelerat.StorageReader.Pages.{
  records_in, list_records, records_in-list, list_records-append, in_slots, slot_records-in_slots,
}

-- What a record id reads in a file's pages.
abbrev pub read_at : List RawPage → RecordId → Option (Option Record)
read_at pages rid = read_page (get_elem? pages rid.page_id) rid.slot_id

abbrev pub closed_page : StorageWriter → RawPage
closed_page w = store_int 2 64 w.current_slot_count w.current_page

-- The file as it is once the current page is written.
abbrev pub written : StorageWriter → List RawPage
written w = w.file ++ closed_page w ∷ []

pub record IsValid (w : StorageWriter) : Type 0 where
  pub records : List Record
  pub filled : IsFilled w records
  pub placed : w.current_page_id ≡ length w.file

closed-slot_count :
    {w : StorageWriter} {rs : List Record} → IsFilled w rs → slot_count (closed_page w) ≡ length rs
unfolding values_of
closed-slot_count {w} {rs} v =
    load-store_int_self 2 64 w.current_slot_count w.current_page (omega (arith, v.room, v.counted))
    ∙ v.counted

pub closed-reads :
    {w : StorageWriter} {rs : List Record}
    → IsFilled w rs
    → (slot_id : ℕ) → read_slot (closed_page w) slot_id ≡ some (record_of rs slot_id)
unfolding values_of
closed-reads {w} {rs} v slot_id =
    read_slot-Laid (closed_page w) rs slot_id v.room
      (Laid-same w.current_page (closed_page w) rs v.room
        (λ i a b. store_int-behind 2 64 w.current_slot_count w.current_page i (omega arith))
        (λ i a b.
          store_int-behind 2 64 w.current_slot_count w.current_page i (omega (arith, v.room)))
        v.laid)
      (load-store_int_self 2 64 w.current_slot_count w.current_page
          (omega (arith, v.room, v.counted))
        ∙ v.counted)

-- Every slot of a closed page reads.
pub closed-Readable :
    {w : StorageWriter} {rs : List Record} → IsFilled w rs → Readable (closed_page w)
closed-Readable {w} {rs} v slot_id h = (record_of rs slot_id, closed-reads v slot_id)

closed-in_slots :
    {w : StorageWriter} {rs : List Record} (pid : ℕ)
    → IsFilled w rs
    → page_records pid (some (closed_page w)) ≡ in_slots pid rs
closed-in_slots {w} {rs} pid v =
    ap (λ n. slot_records (closed_page w) pid n 0) (closed-slot_count v)
    ∙ slot_records-in_slots (closed_page w) pid rs (λ i h. closed-reads v i)

-- The records of the file are those of its pages and then those of the current page.
pub written-list :
    {w : StorageWriter} {rs : List Record}
    → IsFilled w rs
    → records_in (written w) ≡ records_in w.file ++ in_slots (length w.file) rs
unfolding list_records
written-list {w} {rs} v =
    records_in-list (written w)
    ∙ list_records-append w.file (closed_page w ∷ []) 0
    ∙ ap₂ (λ a b. a ++ b) (sym (records_in-list w.file))
        (append-nil _
          ∙ closed-in_slots (0 + length w.file) v
          ∙ ap (λ n. in_slots n rs) (omega arith))

-- Every page of a file is readable.
abbrev pub Sound : List RawPage → Type 0
Sound pages = (q : ℕ) (p : RawPage) → get_elem? pages q ≡ some p → Readable p

pub Sound-append : (ps : List RawPage) (p : RawPage) → Sound ps → Readable p → Sound (ps ++ p ∷ [])
Sound-append [] p s h zero q e = subst Readable (CoreOption.some-injective p q e) h
Sound-append [] p s h (suc i) q e = cc
Sound-append (r ∷ ps) p s h zero q e = s zero q e
Sound-append (r ∷ ps) p s h (suc i) q e = Sound-append ps p (λ j. s (suc j)) h i q e

pub Sound-prefix : (ps qs : List RawPage) → Sound (ps ++ qs) → Sound ps
Sound-prefix [] qs s q p e = cc
Sound-prefix (r ∷ ps) qs s zero p e = s zero p e
Sound-prefix (r ∷ ps) qs s (suc i) p e = Sound-prefix ps qs (λ j. s (suc j)) i p e

-- A writer that fills its page, or starts the next one, keeps its file readable.
pub written-Sound :
    (w w' : StorageWriter)
    → IsValid w'
    → (w'.file ≡ w.file) ⊎ (w'.file ≡ written w)
    → Sound (written w)
    → Sound (written w')
written-Sound w w' v (inl same) s =
    Sound-append w'.file (closed_page w')
      (subst Sound (sym same) (Sound-prefix w.file (closed_page w ∷ []) s))
      (closed-Readable v.filled)
written-Sound w w' v (inr grown) s =
    Sound-append w'.file (closed_page w') (subst Sound (sym grown) s) (closed-Readable v.filled)
