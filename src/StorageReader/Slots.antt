-- ===== src/StorageReader/Slots.antt =====
-- Records laid out in a page, and how `read_record` finds them by their slots.
use adaptive_query_accelerat.Common.{
  ℕ, ◌+◌, ◌-◌, ◌≤◌, ◌<◌, ◌≡◌, inl, inr, refl, sym, ◌∙◌, ap, Option, none, some, List, [], ◌∷◌,
  length, arith, ltb, Bool-cases, subst, ◌==◌, if◌then◌else◌,
}
use adaptive_query_accelerat.Common.Arrays.{load_bytes, load_int, load_int_same, load_bytes_same}
use adaptive_query_accelerat.Page.{RawPage, page_size}
use adaptive_query_accelerat.StorageReader.{Record, slot_at, slot_count, record_at, read_slot}

-- What a record id reads in the page that it names, if there is one.
abbrev pub read_page : Option RawPage → ℕ → Option (Option Record)
read_page none slot_id = some none
read_page (some p) slot_id = read_slot p slot_id

abbrev pub size_of : Record → ℕ
size_of r = 5 + length r.key + length r.value

-- The bytes that records take at the end of a page, the latest record first.
unfoldable pub used : List Record → ℕ
used [] = 0
used (r ∷ rs) = used rs + size_of r

abbrev pub lowest : List Record → ℕ
lowest rs = page_size - used rs

-- The records and their slots have room in a page.
abbrev pub HasRoom : List Record → Type 0
HasRoom rs = slot_at (length rs) + used rs ≤ page_size

-- A record that stands at an address, with its slot.
pub record IsAt (p : RawPage) (slot_id at : ℕ) (r : Record) : Type 0 where
  pub offset : load_int 2 (slot_at slot_id) p ≡ at
  pub size : load_int 2 (slot_at slot_id + 2) p ≡ size_of r
  pub live : p at ≡ 0
  pub key_len : load_int 2 (at + 1) p ≡ length r.key
  pub val_len : load_int 2 (at + 3) p ≡ length r.value
  pub key : load_bytes (at + 5) (length r.key) p ≡ r.key
  pub value : load_bytes (at + 5 + length r.key) (length r.value) p ≡ r.value

-- Records that stand one below the other from the end of the page, in the order of their slots.
unfoldable pub Laid : RawPage → List Record → Type 0
unfolding used
Laid p [] = Unit {0}
Laid p (r ∷ rs) = IsAt p (length rs) (lowest (r ∷ rs)) r × Laid p rs

pub IsAt-same :
    (p p' : RawPage) (slot_id at : ℕ) (r : Record)
    → ((i : ℕ) → slot_at slot_id ≤ i → i < slot_at slot_id + 4 → p' i ≡ p i)
    → ((i : ℕ) → at ≤ i → i < at + size_of r → p' i ≡ p i)
    → IsAt p slot_id at r
    → IsAt p' slot_id at r
IsAt-same p p' slot_id at r slots bytes h = record {
  offset =
      load_int_same 2 (slot_at slot_id) p' p (λ i a b. slots i (omega arith) (omega arith))
      ∙ h.offset;
  size =
      load_int_same 2 (slot_at slot_id + 2) p' p (λ i a b. slots i (omega arith) (omega arith))
      ∙ h.size;
  live = bytes at (omega arith) (omega arith) ∙ h.live;
  key_len =
      load_int_same 2 (at + 1) p' p (λ i a b. bytes i (omega arith) (omega arith)) ∙ h.key_len;
  val_len =
      load_int_same 2 (at + 3) p' p (λ i a b. bytes i (omega arith) (omega arith)) ∙ h.val_len;
  key =
      load_bytes_same (at + 5) (length r.key) p' p (λ i a b. bytes i (omega arith) (omega arith))
      ∙ h.key;
  value =
      load_bytes_same (at + 5 + length r.key) (length r.value) p' p
        (λ i a b. bytes i (omega arith) (omega arith))
      ∙ h.value;
}

-- A page whose slots and records have the same bytes holds the same records.
pub Laid-same :
    (p p' : RawPage) (rs : List Record)
    → HasRoom rs
    → ((i : ℕ) → slot_at 0 ≤ i → i < slot_at (length rs) → p' i ≡ p i)
    → ((i : ℕ) → lowest rs ≤ i → i < page_size → p' i ≡ p i)
    → Laid p rs
    → Laid p' rs
unfolding Laid used
Laid-same p p' [] room slots bytes h = tt
Laid-same p p' (r ∷ rs) room slots bytes (here, others) = (
  IsAt-same p p' (length rs) (lowest (r ∷ rs)) r (λ i a b. slots i (omega arith) (omega arith))
      (λ i a b. bytes i a (omega arith)) here,
  Laid-same p p' rs (omega arith) (λ i a b. slots i a (omega arith))
      (λ i a b. bytes i (omega arith) b) others,
)

-- The slot of a record that stands in the page reads it.
pub read_slot-IsAt :
    (p : RawPage) (slot_id at : ℕ) (r : Record)
    → IsAt p slot_id at r
    → slot_id < slot_count p
    → slot_at slot_id + 4 ≤ page_size
    → at + size_of r ≤ page_size
    → read_slot p slot_id ≡ some (some r)
unfolding read_slot
read_slot-IsAt p slot_id at r h counted slot_in record_in =
    let found : record_at p at (length r.key) (length r.value) ≡ r =
      λ i. record { key = h.key i; value = h.value i } in
    rw (h.offset, h.size, h.live, h.key_len, h.val_len) (ground (arith, found))

pub read_slot-absent :
    (p : RawPage) (slot_id : ℕ) → slot_count p ≤ slot_id → read_slot p slot_id ≡ some none
unfolding read_slot
read_slot-absent p slot_id h = ground arith

-- The record in a slot, of records of which the latest is first.
unfoldable pub record_of : List Record → ℕ → Option Record
record_of [] slot_id = none
record_of (r ∷ rs) slot_id =
    let rest = record_of rs slot_id in if slot_id == length rs then some r else rest

pub record_of-behind :
    (rs : List Record) (slot_id : ℕ) → length rs ≤ slot_id → record_of rs slot_id ≡ none
unfolding record_of
record_of-behind [] slot_id h = refl
record_of-behind (r ∷ rs) slot_id h = ground (arith, record_of-behind rs slot_id)

read_slot-below :
    (p : RawPage) (rs : List Record) (slot_id : ℕ)
    → HasRoom rs
    → Laid p rs
    → slot_id < length rs
    → length rs ≤ slot_count p
    → read_slot p slot_id ≡ some (record_of rs slot_id)
unfolding Laid used record_of
read_slot-below p [] slot_id room laid h counted = absurd (omega arith)
read_slot-below p (r ∷ rs) slot_id room (here, others) h counted =
    elim (Bool-cases (slot_id == length rs)) [
      | inl same ↦
          let at_end : slot_id ≡ length rs = ground arith in
          rw same (
            subst (λ i. read_slot p i ≡ some (some r)) (sym at_end)
              (read_slot-IsAt p (length rs) (lowest (r ∷ rs)) r here (omega arith) (omega arith)
                (omega arith)))
      | inr other ↦
          rw other (read_slot-below p rs slot_id (omega arith) others (ground arith) (omega arith))
    ]

-- A page that holds records, and counts them, reads each in its slot and none in any other.
pub read_slot-Laid :
    (p : RawPage) (rs : List Record) (slot_id : ℕ)
    → HasRoom rs
    → Laid p rs
    → slot_count p ≡ length rs
    → read_slot p slot_id ≡ some (record_of rs slot_id)
read_slot-Laid p rs slot_id room laid counted = elim (Bool-cases (ltb slot_id (length rs))) [
  | inl below ↦ read_slot-below p rs slot_id room laid (ground arith) (omega arith)
  | inr behind ↦
      let outside : length rs ≤ slot_id = ground arith in
      read_slot-absent p slot_id (omega arith) ∙ ap some (sym (record_of-behind rs slot_id outside))
]

-- One more record hides none.
pub record_of-cons :
    (r : Record) (rs : List Record) (slot_id : ℕ) {x : Record}
    → record_of rs slot_id ≡ some x
    → record_of (r ∷ rs) slot_id ≡ some x
unfolding record_of
record_of-cons r rs slot_id h = ground (arith, record_of-behind rs slot_id)
