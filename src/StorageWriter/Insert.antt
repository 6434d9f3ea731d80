-- ===== src/StorageWriter/Insert.antt =====
-- The writer's invariant, and insertion into the current page.
use adaptive_query_accelerat.Common.{
  ℕ, ◌^◌, ◌+◌, ◌≤◌, ◌<◌, ◌≡◌, ◌⊎◌, inl, inr, refl, sym, subst, none, some, List, ◌∷◌, length, arith,
  u16, u64, ltb, true, false,
}
use adaptive_query_accelerat.Page.{page_size}
use adaptive_query_accelerat.StorageReader.{Record, slot_at}
use adaptive_query_accelerat.StorageReader.Slots.{
  IsAt, size_of, used, lowest, HasRoom, Laid, Laid-same,
}
use adaptive_query_accelerat.StorageWriter.{
  StorageWriter, try_insert_in_page, free_space, record_data_size, slots_end_offset, sub_u64,
}
use adaptive_query_accelerat.StorageWriter.Layout.{with_record, with_record-IsAt, with_record-same}

-- The current page holds the records, the latest first, and they fit.
pub record IsFilled (w : StorageWriter) (rs : List Record) : Type 0 where
  pub room : HasRoom rs
  pub laid : Laid w.current_page rs
  pub counted : w.current_slot_count ≡ length rs
  pub free : w.free_space_offset ≡ lowest rs

abbrev pub filled_with : StorageWriter → Record → ℕ → StorageWriter
filled_with w r at = record w {
  current_page = with_record w.current_slot_count at r w.current_page;
  current_slot_count = w.current_slot_count + 1;
  free_space_offset = at;
}

module _ {w : StorageWriter} {rs : List Record} (v : IsFilled w rs) (r : Record) where
  pub try_insert-room :
      HasRoom (r ∷ rs)
      → try_insert_in_page r.key r.value w
        ≡ some (w.current_slot_count, filled_with w r (lowest (r ∷ rs)))
  unfolding try_insert_in_page used
  try_insert-room room =
      let c = v.counted in
      let f = v.free in
      let tested : ltb (free_space w) (u64 (4 + record_data_size r.key r.value)) ≡ false =
        ground arith in
      let size : record_data_size r.key r.value ≡ size_of r = omega arith in
      let place : u16 (sub_u64 w.free_space_offset (record_data_size r.key r.value))
          ≡ lowest (r ∷ rs) =
        omega arith in
      let slot : 64 + slots_end_offset w ≡ slot_at w.current_slot_count = omega arith in
      let count : u16 (w.current_slot_count + 1) ≡ w.current_slot_count + 1 = omega arith in
      rw (tested, place, size, slot, count) refl

  pub filled_with-IsFilled :
      HasRoom (r ∷ rs) → IsFilled (filled_with w r (lowest (r ∷ rs))) (r ∷ rs)
  unfolding Laid used
  filled_with-IsFilled room = record {
    room = room;
    laid = (
      subst
          (λ n.
            IsAt (with_record n (lowest (r ∷ rs)) r w.current_page) (length rs) (lowest (r ∷ rs)) r)
          (sym v.counted)
          (with_record-IsAt (length rs) (lowest (r ∷ rs)) r w.current_page (omega arith)
            (omega arith)),
      Laid-same w.current_page (with_record w.current_slot_count (lowest (r ∷ rs)) r w.current_page)
          rs v.room (λ i a b. same i (inl (omega (arith, v.counted))))
          (λ i a b. same i (inr (omega arith))) v.laid,
    );
    counted = let c = v.counted in omega arith;
    free = refl;
  }
    where
      same :
          (i : ℕ)
          → (i < slot_at w.current_slot_count) ⊎ (lowest (r ∷ rs) + size_of r ≤ i)
          → with_record w.current_slot_count (lowest (r ∷ rs)) r w.current_page i ≡ w.current_page i
      same =
          with_record-same w.current_slot_count (lowest (r ∷ rs)) r w.current_page
            (omega (arith, v.counted, room)) (omega (arith, room))

  pub try_insert-full :
      length r.key + length r.value < 2 ^ 62
      → page_size < slot_at (length (r ∷ rs)) + used (r ∷ rs)
      → try_insert_in_page r.key r.value w ≡ none
  unfolding try_insert_in_page used
  try_insert-full small full =
      let c = v.counted in
      let f = v.free in
      let o = v.room in
      let tested : ltb (free_space w) (u64 (4 + record_data_size r.key r.value)) ≡ true =
        ground arith in
      rw tested refl
