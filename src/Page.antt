-- ===== src/Page.antt =====
-- src/storage/page.h: the raw page, its header and record ids. A page is its bytes by their address
-- in it; the addresses from `page_size` on belong to nothing.
use adaptive_query_accelerat.Common.{ℕ, Bool, ◌==◌}
use adaptive_query_accelerat.Common.Arrays.{Array, load_int, store_int}

abbrev pub page_size : ℕ
page_size = 4096

abbrev pub page_magic : ℕ
page_magic = 0x41514144

-- `sizeof(PageHeader)`: the payload begins there.
abbrev pub page_header_size : ℕ
page_header_size = 64

pub record RecordId : Type 0 where
  pub page_id : ℕ
  pub slot_id : ℕ

abbrev pub RawPage : Type 0
RawPage = Array ℕ

-- The fields of the header, by their offsets.
abbrev pub set_magic : ℕ → RawPage → RawPage
set_magic = store_int 4 0

abbrev pub set_page_id : ℕ → RawPage → RawPage
set_page_id = store_int 4 4

abbrev pub set_next_page_id : ℕ → RawPage → RawPage
set_next_page_id = store_int 4 8

abbrev pub get_magic : RawPage → ℕ
get_magic = load_int 4 0

abbrev pub get_id : RawPage → ℕ
get_id = load_int 4 4

-- `std::memset(page, 0, PAGE_SIZE)`
abbrev pub cleared : RawPage
cleared address = 0

-- `RawPage::reset`, and the constructor.
abbrev pub reset : RawPage
reset = set_magic page_magic cleared

abbrev pub is_valid : RawPage → Bool
is_valid p = get_magic p == page_magic
