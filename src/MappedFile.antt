-- ===== src/MappedFile.antt =====
-- src/storage/mapped_file.h and mapped_file.cpp: a file of whole pages, mapped into memory. The
-- type of a page is a parameter. The system calls' results are arguments: `ftruncate` and `mmap`
-- succeed or fail, and `msync` does. `ok` returns, `thrown` is an exception, `undefined` an access
-- through a pointer that leads nowhere.
pub mod Grow
use adaptive_query_accelerat.Page.{page_size}
use adaptive_query_accelerat.Common.{
  ℕ, ◌-◌, ◌*◌, ◌/◌, Bool, false, Option, none, some, List, ◌++◌, ltb, leb, ◌==◌, if◌then◌else◌, u32,
  length, get_elem?, set, take, replicate,
}

pub data Error : Type 0 where
  resize_failed mmap_failed msync_failed pool_full out_of_bounds record_too_large : Error

pub data Result (S A : Type 0) : Type 0 where
  ok : A → S → Result S A
  thrown : Error → S → Result S A
  undefined : Result S A

infixl 5 ◌>>=◌
abbrev pub ◌>>=◌ : {S A B : Type 0} → Result S A → (A × S → Result S B) → Result S B
ok a s >>= f = f (a, s)
thrown e s >>= f = thrown e s
undefined >>= f = undefined

-- `pages` is what the mapping shows, and `mapped` says that `data_` is no null pointer.
pub record MappedFile (P : Type 0) : Type 0 where
  pub pages : List P
  pub mapped : Bool
  pub file_size : ℕ
  pub page_count : ℕ

-- `RawPage*`: null, or the place of a page in the mapping, which may lie outside.
pub data Pointer : Type 0 where
  null : Pointer
  slot : ℕ → Pointer
  wild : Pointer

module _ {P : Type 0} where
  -- The constructor, on the file's whole pages and its size.
  unfoldable pub open_file : List P → ℕ → MappedFile P
  open_file pages file_size = record {
    pages = pages;
    mapped = ltb 0 file_size;
    file_size = file_size;
    page_count = u32 (file_size / page_size);
  }

  -- `page_id * PAGE_SIZE` is a product of two `uint32_t`, and wraps.
  unfoldable pub get_page : MappedFile P → ℕ → Pointer
  get_page f page_id =
      if f.mapped
      then slot (u32 (page_id * page_size) / page_size)
      else (if u32 (page_id * page_size) == 0 then null else wild)

  -- `memcpy` from a page of the mapping, and to it.
  unfoldable pub load : MappedFile P → Pointer → Option P
  load f null = none
  load f (slot i) = get_elem? f.pages i
  load f wild = none

  unfoldable pub store : MappedFile P → Pointer → P → Option (MappedFile P)
  store f null p = none
  store f (slot i) p =
      if ltb i (length f.pages) then some (record f { pages = set f.pages i p }) else none
  store f wild p = none

  -- What `ftruncate` to a number of whole pages leaves; new pages are zero.
  abbrev pub resize : P → ℕ → List P → List P
  resize zero_page n pages = take n pages ++ replicate (n - length pages) zero_page

  unfoldable pub grow_file : P → Bool → Bool → ℕ → MappedFile P → Result (MappedFile P) (Unit {0})
  grow_file zero_page resized remapped new_page_count f =
      if leb new_page_count f.page_count
      then ok tt f
      else if resized
      then (if remapped then ok tt grown else thrown mmap_failed (record grown { mapped = false }))
      else thrown resize_failed (record f { mapped = false })
    where
      new_size : ℕ
      new_size = u32 (new_page_count * page_size)

      grown : MappedFile P
      grown = record {
        pages = resize zero_page (new_size / page_size) f.pages;
        mapped = ltb 0 new_size;
        file_size = new_size;
        page_count = new_page_count;
      }

  unfoldable pub flush : Bool → MappedFile P → Result (MappedFile P) (Unit {0})
  flush synced f = if f.mapped then (if synced then ok tt f else thrown msync_failed f) else ok tt f

  abbrev pub get_page_count : MappedFile P → ℕ
  get_page_count f = f.page_count
