-- ===== src/StorageWriter/Bounds.antt =====
-- Which bytes an insertion writes.
use adaptive_query_accelerat.Common.{
  ℕ, ◌^◌, ◌+◌, ◌≤◌, ◌<◌, ◌≡◌, ◌⊎◌, inl, inr, none, some, List, ◌∷◌, length, arith, leb, Bool-cases,
}
use adaptive_query_accelerat.Page.{page_size}
use adaptive_query_accelerat.StorageReader.{Record, slot_at}
use adaptive_query_accelerat.StorageReader.Slots.{size_of, used, lowest}
use adaptive_query_accelerat.StorageWriter.{StorageWriter, try_insert_in_page}
use adaptive_query_accelerat.StorageWriter.Layout.{with_record-same, with_record-between}
use adaptive_query_accelerat.StorageWriter.Insert.{
  IsFilled, filled_with, try_insert-room, try_insert-full,
}

-- An insertion: the slot is the next one and ends before the record, the record ends where the free
-- space ended, within the page, and no other byte changes; or there is no room for both.
pub data Inserts (w : StorageWriter) (r : Record) : Type 0 where
  inserts :
      (w' : StorageWriter)
      → try_insert_in_page r.key r.value w ≡ some (w.current_slot_count, w')
      → slot_at w.current_slot_count + 4 ≤ w'.free_space_offset
      → w'.free_space_offset + size_of r ≡ w.free_space_offset
      → w.free_space_offset ≤ page_size
      → ((i : ℕ)
          → (i < slot_at w.current_slot_count)
            ⊎ (((slot_at w.current_slot_count + 4 ≤ i) × (i < w'.free_space_offset))
                ⊎ (w.free_space_offset ≤ i))
          → w'.current_page i ≡ w.current_page i)
      → Inserts w r
  no_room :
      try_insert_in_page r.key r.value w ≡ none
      → w.free_space_offset < slot_at w.current_slot_count + 4 + size_of r
      → Inserts w r

-- Into a page that holds records, and for a record below 2^62 bytes, an insertion writes a slot and
-- a record into the free space between the slots and the records, so inside the page, and nothing
-- else; it does so whenever both fit there, and fails only if they do not.
pub try_insert-Inserts :
    {w : StorageWriter} {rs : List Record} (r : Record)
    → IsFilled w rs
    → length r.key + length r.value < 2 ^ 62
    → Inserts w r
unfolding used
try_insert-Inserts {w} {rs} r v small =
    let c = v.counted in
    let f = v.free in
    let o = v.room in
    let at = lowest (r ∷ rs) in
    elim (Bool-cases (leb (slot_at (length (r ∷ rs)) + used (r ∷ rs)) page_size)) [
      | inr full ↦ no_room (try_insert-full v r small (ground arith)) (ground arith)
      | inl room ↦
          let fits : slot_at (length (r ∷ rs)) + used (r ∷ rs) ≤ page_size = ground arith in
          inserts (filled_with w r at) (try_insert-room v r fits) (omega arith) (omega arith)
            (omega arith)
            (λ i. elim [
              | inl below ↦
                  with_record-same w.current_slot_count at r w.current_page (omega arith)
                    (omega arith) i (inl below)
              | inr (inl (behind, before)) ↦
                  with_record-between w.current_slot_count at r w.current_page (omega arith)
                    (omega arith) i behind before
              | inr (inr over) ↦
                  with_record-same w.current_slot_count at r w.current_page (omega arith)
                    (omega arith) i (inr (omega arith))
            ])
    ]
