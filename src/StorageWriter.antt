-- ===== src/StorageWriter.antt =====
-- src/storage/storage_writer.h and storage_writer.cpp: records go into the slots of the current
-- page, and whole pages go to the end of the file. The output stream is the list of pages that the
-- file holds; opening and writing succeed.
pub mod Layout
pub mod Insert
pub mod Bounds
pub mod Written
pub mod Append
pub mod History
use adaptive_query_accelerat.Common.{
  ℕ, suc, ◌+◌, ◌-◌, ◌*◌, ◌^◌, ◌%◌, Bool, ◌||◌, Option, none, some, List, [], ◌∷◌, ◌++◌, ltb, ◌==◌,
  if◌then◌else◌, u16, u32, u64, length,
}
use adaptive_query_accelerat.Common.Arrays.{write, store_bytes, store_int}
use adaptive_query_accelerat.MappedFile.{Result, ok, thrown, record_too_large}
use adaptive_query_accelerat.Page.{
  RawPage, RecordId, page_size, page_header_size, page_magic, set_magic, set_page_id,
  set_next_page_id, cleared,
}

abbrev pub slot_size : ℕ
slot_size = 4

-- `sizeof(RecordHeader)`, which is packed.
abbrev pub record_header_size : ℕ
record_header_size = 5

pub record StorageWriter : Type 0 where
  pub file : List RawPage
  pub current_page : RawPage
  pub current_page_id : ℕ
  pub current_slot_count : ℕ
  pub free_space_offset : ℕ

unfoldable pub reset_current_page : StorageWriter → StorageWriter
reset_current_page w = record w {
  current_page =
      set_next_page_id 0xFFFFFFFF (set_page_id w.current_page_id (set_magic page_magic cleared));
  current_slot_count = 0;
  free_space_offset = page_size;
}

-- The constructor, on the pages that the file holds: `trunc` for an empty file, and `app` else.
unfoldable pub init : List RawPage → StorageWriter
unfolding reset_current_page
init pages = reset_current_page (record {
  file = pages;
  current_page = cleared;
  current_page_id = u32 (length pages);
  current_slot_count = 0;
  free_space_offset = page_size;
})

unfoldable pub write_page_to_disk : StorageWriter → StorageWriter
write_page_to_disk w =
    let page = store_int 2 page_header_size w.current_slot_count w.current_page in
    record w { file = w.file ++ page ∷ []; current_page = page }

-- The destructor's call too.
unfoldable pub flush : StorageWriter → StorageWriter
unfolding write_page_to_disk
flush w = if ltb 0 w.current_slot_count || w.current_page_id == 0 then write_page_to_disk w else w

-- The `memcpy`s of the record's header, field by field, of the key and of the value.
unfoldable pub put_record : ℕ → List ℕ → List ℕ → RawPage → RawPage
put_record at key value p = store_bytes (at + record_header_size + length key) value (
    store_bytes (at + record_header_size) key (
      store_int 2 (at + 3) (u16 (length value))
        (store_int 2 (at + 1) (u16 (length key)) (write at 0 p))))

-- The `memcpy` of the slot, field by field.
unfoldable pub put_slot : ℕ → ℕ → ℕ → RawPage → RawPage
put_slot at offset size p = store_int 2 (at + 2) (u16 size) (store_int 2 at offset p)

abbrev pub record_data_size : List ℕ → List ℕ → ℕ
record_data_size key value = u64 (record_header_size + length key + length value)

-- Where the next slot stands in the payload.
abbrev pub slots_end_offset : StorageWriter → ℕ
slots_end_offset w = 2 + w.current_slot_count * slot_size

-- Subtraction of `size_t`.
abbrev pub sub_u64 : ℕ → ℕ → ℕ
sub_u64 a b = u64 (a + 2 ^ 64 - b)

abbrev pub free_space : StorageWriter → ℕ
free_space w = sub_u64 w.free_space_offset (page_header_size + slots_end_offset w)

-- `none` is `false`; else the slot id, and the writer with the record.
unfoldable pub try_insert_in_page : List ℕ → List ℕ → StorageWriter → Option (ℕ × StorageWriter)
unfolding put_record put_slot
try_insert_in_page key value w =
    if ltb (free_space w) (u64 (slot_size + record_data_size key value))
    then none
    else some (
      w.current_slot_count,
      record w {
        current_page =
            put_slot (page_header_size + slots_end_offset w) new_record_offset
              (record_data_size key value) (put_record new_record_offset key value w.current_page);
        current_slot_count = u16 (w.current_slot_count + 1);
        free_space_offset = new_record_offset;
      },
    )
  where
    new_record_offset : ℕ
    new_record_offset = u16 (sub_u64 w.free_space_offset (record_data_size key value))

abbrev pub start_page : StorageWriter → StorageWriter
start_page w =
    let w' = write_page_to_disk w in
    reset_current_page (record w' { current_page_id = u32 (w'.current_page_id + 1) })

-- The result of the second attempt, which is in a new page.
abbrev pub insert_or_throw :
    StorageWriter → Option (ℕ × StorageWriter) → Result StorageWriter RecordId
insert_or_throw w none = thrown record_too_large w
insert_or_throw w (some (slot_id, w')) =
    ok (record { page_id = w'.current_page_id; slot_id = slot_id }) w'

abbrev pub append_after :
    List ℕ → List ℕ → StorageWriter → Option (ℕ × StorageWriter) → Result StorageWriter RecordId
append_after key value w none =
    insert_or_throw (start_page w) (try_insert_in_page key value (start_page w))
append_after key value w (some (slot_id, w')) =
    ok (record { page_id = w'.current_page_id; slot_id = slot_id }) w'

unfoldable pub append : List ℕ → List ℕ → StorageWriter → Result StorageWriter RecordId
append key value w = append_after key value w (try_insert_in_page key value w)
