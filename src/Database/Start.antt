-- ===== src/Database/Start.antt =====
-- The engine as its constructor leaves it, and the records and the store in its pages.
use mathlib.Core.Option
use adaptive_query_accelerat.Common.{
  ℕ, ◌*◌, ◌^◌, ◌<◌, ◌≡◌, inl, ◌∙◌, ap, ap₂, Option, none, List, length, arith,
}
use adaptive_query_accelerat.MappedFile
use adaptive_query_accelerat.MappedFile.{MappedFile, Result, ok, thrown, ◌>>=◌, record_too_large}
use adaptive_query_accelerat.Page.{RawPage, page_size, reset}
use adaptive_query_accelerat.Observer.{AccessObserver}
use adaptive_query_accelerat.PageCache.Interface.{Policies}
use adaptive_query_accelerat.PageCache.Valid.{IsMapped}
use adaptive_query_accelerat.PageCache.Init.{
  init-IsValid, pins-init, init-free_frames, content-init, file-init,
}
use adaptive_query_accelerat.StorageEngine
use adaptive_query_accelerat.StorageEngine.{StorageEngine}
use adaptive_query_accelerat.StorageReader.Scan.{Ready}
use adaptive_query_accelerat.StorageEngine.{get_total_pages}
use adaptive_query_accelerat.StorageReader.Listing.{file_records}
use adaptive_query_accelerat.Index.Rebuild.{latest, records_of}
use adaptive_query_accelerat.Database.Fresh.{Store}
pub use adaptive_query_accelerat.StorageReader.Pages.{records_in}

-- The store that the records in the pages make.
abbrev pub store_in : List RawPage → Store
store_in pages key = Option.map (λ v. v.1.value) (latest key (records_in pages))

abbrev pub engine_of :
    (policies : Policies) → List RawPage → ℕ → Option AccessObserver → StorageEngine policies
engine_of policies pages capacity observer =
    StorageEngine.init policies (MappedFile.open_file pages (length pages * page_size)) capacity
      observer

open_file-IsMapped :
    (pages : List RawPage)
    → length pages < 2 ^ 20
    → IsMapped (MappedFile.open_file pages (length pages * page_size))
unfolding MappedFile.open_file
open_file-IsMapped pages few = record {
  mapped = λ h. ground arith;
  counted = omega arith;
  below_4gb = few;
}

-- The engine is ready for a scan as soon as it is built, with a cache of at least one page.
pub init-Ready :
    (policies : Policies) (pages : List RawPage) (capacity : ℕ) (observer : Option AccessObserver)
    → length pages < 2 ^ 20
    → 0 < capacity
    → Ready (engine_of policies pages capacity observer).cache
init-Ready policies pages capacity observer few room = record {
  valid =
      init-IsValid policies reset (MappedFile.open_file pages (length pages * page_size)) capacity
        observer none (open_file-IsMapped pages few);
  idle =
      pins-init policies reset (MappedFile.open_file pages (length pages * page_size)) capacity
        observer none;
  room = inl (
      init-free_frames policies reset (MappedFile.open_file pages (length pages * page_size))
        capacity observer none room);
}

module _ (policies : Policies) (pages : List RawPage) (cache_size_pages : ℕ)
    (observer : Option AccessObserver) where
  pub pages-init :
      length (engine_of policies pages cache_size_pages observer).cache.file.pages ≡ length pages
  unfolding MappedFile.open_file
  pages-init =
      ap (λ f. length f.pages)
        (file-init policies reset (MappedFile.open_file pages (length pages * page_size))
          cache_size_pages observer none)

  pub engine-records :
      length pages < 2 ^ 20
      → 0 < cache_size_pages
      → records_of (engine_of policies pages cache_size_pages observer) ≡ records_in pages
  unfolding MappedFile.open_file
  engine-records few room =
      let ready = init-Ready policies pages cache_size_pages observer few room in
      let count : get_total_pages (engine_of policies pages cache_size_pages observer)
          ≡ length pages =
        ready.valid.file.counted ∙ pages-init in
      ap₂ (λ f n. file_records f n 0)
        (λ i q.
          content-init policies reset (MappedFile.open_file pages (length pages * page_size))
            cache_size_pages observer none q i)
        count
