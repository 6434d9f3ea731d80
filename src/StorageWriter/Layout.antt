-- ===== src/StorageWriter/Layout.antt =====
-- What the `memcpy`s of `try_insert_in_page` leave in the page.
use adaptive_query_accelerat.Common.{
  ℕ, ◌^◌, ◌+◌, ◌≤◌, ◌<◌, ◌≡◌, ◌⊎◌, inl, inr, ◌∙◌, List, length, arith, u16,
}
use adaptive_query_accelerat.Common.Arrays.{
  write, write_self, write_ne, load_bytes, load_int, values_of, store_bytes-below,
  store_bytes-behind, store_int-below, store_int-behind, load-store_int_self, load_int_same,
  load_bytes_same, load-store_self,
}
use adaptive_query_accelerat.Page.{RawPage, page_size}
use adaptive_query_accelerat.StorageReader.{Record, slot_at}
use adaptive_query_accelerat.StorageReader.Slots.{IsAt, size_of}
use adaptive_query_accelerat.StorageWriter.{put_record, put_slot}

module _ (at : ℕ) (key value : List ℕ) (p : RawPage) where
  put_record-below : (i : ℕ) → i < at → put_record at key value p i ≡ p i
  unfolding put_record
  put_record-below i h =
      store_bytes-below (at + 5 + length key) value _ i (omega arith)
      ∙ store_bytes-below (at + 5) key _ i (omega arith)
      ∙ store_int-below 2 (at + 3) (u16 (length value)) _ i (omega arith)
      ∙ store_int-below 2 (at + 1) (u16 (length key)) _ i (omega arith)
      ∙ write_ne at i 0 p (λ e. omega arith)

  put_record-behind :
      (i : ℕ) → at + 5 + length key + length value ≤ i → put_record at key value p i ≡ p i
  unfolding put_record
  put_record-behind i h =
      store_bytes-behind (at + 5 + length key) value _ i (omega arith)
      ∙ store_bytes-behind (at + 5) key _ i (omega arith)
      ∙ store_int-behind 2 (at + 3) (u16 (length value)) _ i (omega arith)
      ∙ store_int-behind 2 (at + 1) (u16 (length key)) _ i (omega arith)
      ∙ write_ne at i 0 p (λ e. omega arith)

  put_record-live : put_record at key value p at ≡ 0
  unfolding put_record
  put_record-live =
      store_bytes-below (at + 5 + length key) value _ at (omega arith)
      ∙ store_bytes-below (at + 5) key _ at (omega arith)
      ∙ store_int-below 2 (at + 3) (u16 (length value)) _ at (omega arith)
      ∙ store_int-below 2 (at + 1) (u16 (length key)) _ at (omega arith)
      ∙ write_self at 0 p

  put_record-key_len :
      length key < 2 ^ 16 → load_int 2 (at + 1) (put_record at key value p) ≡ length key
  unfolding put_record values_of
  put_record-key_len h =
      load_int_same 2 (at + 1) _ _ (λ i a b.
        store_bytes-below (at + 5 + length key) value _ i (omega arith)
        ∙ store_bytes-below (at + 5) key _ i (omega arith)
        ∙ store_int-below 2 (at + 3) (u16 (length value)) _ i (omega arith))
      ∙ load-store_int_self 2 (at + 1) (u16 (length key)) (write at 0 p) (omega arith)
      ∙ omega arith

  put_record-val_len :
      length value < 2 ^ 16 → load_int 2 (at + 3) (put_record at key value p) ≡ length value
  unfolding put_record values_of
  put_record-val_len h =
      load_int_same 2 (at + 3) _ _ (λ i a b.
        store_bytes-below (at + 5 + length key) value _ i (omega arith)
        ∙ store_bytes-below (at + 5) key _ i (omega arith))
      ∙ load-store_int_self 2 (at + 3) (u16 (length value)) _ (omega arith)
      ∙ omega arith

  put_record-key : load_bytes (at + 5) (length key) (put_record at key value p) ≡ key
  unfolding put_record
  put_record-key =
      load_bytes_same (at + 5) (length key) _ _
        (λ i a b. store_bytes-below (at + 5 + length key) value _ i (omega arith))
      ∙ load-store_self (at + 5) key _

  put_record-value :
      load_bytes (at + 5 + length key) (length value) (put_record at key value p) ≡ value
  unfolding put_record
  put_record-value = load-store_self (at + 5 + length key) value _

module _ (slot at size : ℕ) (p : RawPage) where
  pub put_slot-below : (i : ℕ) → i < slot → put_slot slot at size p i ≡ p i
  unfolding put_slot
  put_slot-below i h =
      store_int-below 2 (slot + 2) (u16 size) _ i (omega arith)
      ∙ store_int-below 2 slot at p i (omega arith)

  pub put_slot-behind : (i : ℕ) → slot + 4 ≤ i → put_slot slot at size p i ≡ p i
  unfolding put_slot
  put_slot-behind i h =
      store_int-behind 2 (slot + 2) (u16 size) _ i (omega arith)
      ∙ store_int-behind 2 slot at p i (omega arith)

  put_slot-offset : at < 2 ^ 16 → load_int 2 slot (put_slot slot at size p) ≡ at
  unfolding put_slot values_of
  put_slot-offset h =
      load_int_same 2 slot _ _ (λ i a b. store_int-below 2 (slot + 2) (u16 size) _ i (omega arith))
      ∙ load-store_int_self 2 slot at p (omega arith)

  put_slot-size : size < 2 ^ 16 → load_int 2 (slot + 2) (put_slot slot at size p) ≡ size
  unfolding put_slot values_of
  put_slot-size h = load-store_int_self 2 (slot + 2) (u16 size) _ (omega arith) ∙ omega arith

-- The page with a record and its slot put in, the slot below the record.
abbrev pub with_record : ℕ → ℕ → Record → RawPage → RawPage
with_record slot_id at r p =
    put_slot (slot_at slot_id) at (size_of r) (put_record at r.key r.value p)

module _ (slot_id at : ℕ) (r : Record) (p : RawPage) (apart : slot_at slot_id + 4 ≤ at)
    (inside : at + size_of r ≤ page_size) where
  pub with_record-IsAt : IsAt (with_record slot_id at r p) slot_id at r
  with_record-IsAt = record {
    offset = put_slot-offset (slot_at slot_id) at (size_of r) q (omega arith);
    size = put_slot-size (slot_at slot_id) at (size_of r) q (omega arith);
    live = slot_ends at (omega arith) ∙ put_record-live at r.key r.value p;
    key_len =
        load_int_same 2 (at + 1) _ _ (λ i a b. slot_ends i (omega arith))
        ∙ put_record-key_len at r.key r.value p (omega arith);
    val_len =
        load_int_same 2 (at + 3) _ _ (λ i a b. slot_ends i (omega arith))
        ∙ put_record-val_len at r.key r.value p (omega arith);
    key =
        load_bytes_same (at + 5) (length r.key) _ _ (λ i a b. slot_ends i (omega arith))
        ∙ put_record-key at r.key r.value p;
    value =
        load_bytes_same (at + 5 + length r.key) (length r.value) _ _
          (λ i a b. slot_ends i (omega arith))
        ∙ put_record-value at r.key r.value p;
  }
    where
      q : RawPage
      q = put_record at r.key r.value p

      slot_ends : (i : ℕ) → at ≤ i → put_slot (slot_at slot_id) at (size_of r) q i ≡ q i
      slot_ends i h = put_slot-behind (slot_at slot_id) at (size_of r) q i (omega (arith, h, apart))

  -- Nothing else in the page changes.
  pub with_record-same :
      (i : ℕ) → (i < slot_at slot_id) ⊎ (at + size_of r ≤ i) → with_record slot_id at r p i ≡ p i
  with_record-same i (inl h) =
      put_slot-below (slot_at slot_id) at (size_of r) _ i h
      ∙ put_record-below at r.key r.value p i (omega arith)
  with_record-same i (inr h) =
      put_slot-behind (slot_at slot_id) at (size_of r) _ i (omega arith)
      ∙ put_record-behind at r.key r.value p i (omega arith)

  pub with_record-between :
      (i : ℕ) → slot_at slot_id + 4 ≤ i → i < at → with_record slot_id at r p i ≡ p i
  with_record-between i behind before =
      put_slot-behind (slot_at slot_id) at (size_of r) _ i (omega arith)
      ∙ put_record-below at r.key r.value p i (omega arith)
