-- ===== src/BPlusTree.antt =====
-- src/storage/page/: the pages of a B+ tree. A page's array is the memory behind its header, a
-- function of the index: the source does not check an index against the end of the page. Page ids
-- and results of type `int` are integers, since -1 marks a missing parent and a refused insertion;
-- sizes never go below zero. Keys, values and the comparator are the template's parameters.
pub mod Search
pub mod Leaf
pub mod Internal
use adaptive_query_accelerat.Common.Arrays.{Array, write}
use adaptive_query_accelerat.Common.{
  ℕ, zero, suc, ◌+◌, ◌-◌, ◌/◌, Bool, true, false, not, ◌&&◌, ltb, leb, ◌==◌, if◌then◌else◌,
}

-- An `int`: `negsuc n` is -(n + 1).
pub data ℤ : Type 0 where
  pos : ℕ → ℤ
  negsuc : ℕ → ℤ

abbrev pub minus_one : ℤ
minus_one = negsuc 0

abbrev pub is_minus_one : ℤ → Bool
is_minus_one (pos n) = false
is_minus_one (negsuc n) = n == 0

pub data IndexPageType : Type 0 where
  invalid_page leaf_page internal_page : IndexPageType

pub record BPlusTreePage : Type 0 where
  pub page_type : IndexPageType
  pub lsn : ℤ
  pub size : ℕ
  pub max_size : ℕ
  pub parent_page_id : ℤ
  pub page_id : ℤ

abbrev pub is_leaf_page : BPlusTreePage → Bool
is_leaf_page p = elim (p.page_type) [ leaf_page ↦ true | _ ↦ false ]

abbrev pub is_root_page : BPlusTreePage → Bool
is_root_page p = is_minus_one p.parent_page_id

unfoldable pub get_min_size : BPlusTreePage → ℕ
get_min_size p = if is_root_page p then (if is_leaf_page p then 1 else 2) else p.max_size / 2

abbrev pub increase_size : ℕ → BPlusTreePage → BPlusTreePage
increase_size amount p = record p { size = p.size + amount }

-- `std::lower_bound` and `std::upper_bound`: the search for the first index from `first` on where
-- the test fails, by halving `len` indices. The fuel is `len`.
unfoldable pub partition_point : (ℕ → Bool) → ℕ → ℕ → ℕ → ℕ
partition_point test zero first len = first
partition_point test (suc fuel) first zero = first
partition_point test (suc fuel) first (suc l) =
    let half = suc l / 2 in
    let mid = first + half in
    let right = partition_point test fuel (suc mid) (suc l - half - 1) in
    let left = partition_point test fuel first half in if test mid then right else left

abbrev leaf_page_header_size : ℕ
leaf_page_header_size = 28

abbrev internal_page_header_size : ℕ
internal_page_header_size = 24

pub record LeafPage (K V : Type 0) : Type 0 where
  pub header : BPlusTreePage
  pub next_page_id : ℤ
  pub array : Array (K × V)

pub record InternalPage (K V : Type 0) : Type 0 where
  pub header : BPlusTreePage
  pub array : Array (K × V)

module _ {K V : Type 0} where
  -- `pair_size` is `sizeof(std::pair<KeyType, ValueType>)`.
  abbrev pub init_leaf : ℕ → ℤ → ℤ → ℕ → LeafPage K V → LeafPage K V
  init_leaf pair_size page_id parent_id max_size p = record p {
    header = record p.header {
      page_type = leaf_page;
      size = 0;
      page_id = page_id;
      parent_page_id = parent_id;
      max_size = if max_size == 0 then (4096 - leaf_page_header_size) / pair_size else max_size;
    };
    next_page_id = minus_one;
  }

  abbrev pub init_internal : ℕ → ℤ → ℤ → ℕ → InternalPage K V → InternalPage K V
  init_internal pair_size page_id parent_id max_size p = record p {
    header = record p.header {
      page_type = internal_page;
      size = 0;
      page_id = page_id;
      parent_page_id = parent_id;
      max_size = if max_size == 0 then (4096 - internal_page_header_size) / pair_size else max_size;
    };
  }

  module _ (comparator : K → K → Bool) where
    unfoldable pub key_index : K → LeafPage K V → ℕ
    key_index key p =
        partition_point (λ i. comparator ((p.array i).0) key) p.header.size 0 p.header.size

    -- `for (int i = current_size; i > index; i--) array_[i] = array_[i - 1];`
    unfoldable pub shift : ℕ → ℕ → Array (K × V) → Array (K × V)
    shift index zero a = a
    shift index (suc i) a = if ltb index (suc i) then shift index i (write (suc i) (a i) a) else a

    abbrev pub is_duplicate : K → ℕ → LeafPage K V → Bool
    is_duplicate key index p =
        ltb index p.header.size
        && not (comparator ((p.array index).0) key)
        && not (comparator key ((p.array index).0))

    -- The value returned, and the page afterwards.
    unfoldable pub insert : K → V → LeafPage K V → ℤ × LeafPage K V
    insert key value p =
        if leb p.header.max_size p.header.size
        then (minus_one, p)
        else if is_duplicate key index p
        then (minus_one, p)
        else (
          pos (suc p.header.size),
          record p {
            header = increase_size 1 p.header;
            array = write index (key, value) (shift index p.header.size p.array);
          },
        )
      where
        index : ℕ
        index = key_index key p

    -- `none_value` is `ValueType{}`. The test of the search is the negation of `upper_bound`'s.
    unfoldable pub lookup : V → K → InternalPage K V → V
    lookup none_value key p = if p.header.size == 0 then none_value else (p.array (index - 1)).1
      where
        index : ℕ
        index =
            partition_point (λ i. not (comparator key ((p.array i).0))) (p.header.size - 1) 1
              (p.header.size - 1)

  unfoldable pub value_index_from : (V → V → Bool) → V → Array (K × V) → ℕ → ℕ → ℤ
  value_index_from same value a zero i = minus_one
  value_index_from same value a (suc n) i =
      let rest = value_index_from same value a n (suc i) in
      if same ((a i).1) value then pos i else rest

  abbrev pub value_index : (V → V → Bool) → V → InternalPage K V → ℤ
  value_index same value p = value_index_from same value p.array p.header.size 0
