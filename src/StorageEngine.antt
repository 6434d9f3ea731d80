-- ===== src/StorageEngine.antt =====
-- src/storage/storage_engine.h and storage_engine.cpp: the page cache over its mapped file. The
-- engine builds its cache without an eviction policy; here the policy may be any. `pending` holds
-- the pages of the prefetch threads that have been started and have not run.
pub mod Fetch
pub mod Allocate
use adaptive_query_accelerat.Common.{
  ℕ, ◌+◌, Bool, Option, none, some, List, [], ◌∷◌, ◌++◌, leb, if◌then◌else◌, u32, get_elem?, set,
}
use adaptive_query_accelerat.MappedFile
use adaptive_query_accelerat.MappedFile.{
  MappedFile, Result, ok, thrown, undefined, out_of_bounds, ◌>>=◌,
}
use adaptive_query_accelerat.Page.{
  RawPage, cleared, reset, page_magic, set_magic, set_page_id, set_next_page_id,
}
use adaptive_query_accelerat.Observer.{AccessObserver}
use adaptive_query_accelerat.PageCache
use adaptive_query_accelerat.PageCache.{PageCache}
use adaptive_query_accelerat.PageCache.Handles
use adaptive_query_accelerat.PageCache.Handles.{PageHandle, destroy}
use adaptive_query_accelerat.PageCache.Interface.{Policies}

module _ (policies : Policies) where
  pub record StorageEngine : Type 0 where
    pub cache : PageCache policies RawPage
    pub pending : List ℕ

  -- The constructor, on the file as it is mapped.
  abbrev pub init : MappedFile RawPage → ℕ → Option AccessObserver → StorageEngine
  init file cache_capacity observer = record {
    cache = PageCache.init policies RawPage reset file cache_capacity observer none;
    pending = [];
  }

-- `handle->get_header_mut()` and the assignments to its fields.
abbrev pub write_header : ℕ → RawPage → RawPage
write_header page_id p = set_next_page_id 0xFFFFFFFF (set_magic page_magic (set_page_id page_id p))

module _ {policies : Policies} where
  abbrev pub get_total_pages : StorageEngine policies → ℕ
  get_total_pages e = e.cache.file.page_count

  -- A call of the cache, within the engine.
  abbrev pub in_engine :
      {A : Type 0}
      → List ℕ
      → Result (PageCache policies RawPage) A
      → Result (StorageEngine policies) A
  in_engine pending (ok a c) = ok a (record { cache = c; pending = pending })
  in_engine pending (thrown x c) = thrown x (record { cache = c; pending = pending })
  in_engine pending undefined = undefined

  unfoldable pub fetch_page :
      ℕ → StorageEngine policies → Result (StorageEngine policies) PageHandle
  fetch_page page_id e =
      if leb (get_total_pages e) page_id
      then thrown out_of_bounds e
      else in_engine e.pending (Handles.fetch_page policies page_id e.cache)

  -- The end of a handle's scope.
  unfoldable pub release : PageHandle → StorageEngine policies → StorageEngine policies
  release h e = record e { cache = destroy policies (some h) e.cache }

  -- The call starts a thread.
  unfoldable pub prefetch_page : ℕ → StorageEngine policies → StorageEngine policies
  prefetch_page page_id e =
      if leb (get_total_pages e) page_id
      then e
      else record e { pending = e.pending ++ page_id ∷ [] }

  -- The thread: it fetches the page, drops the handle, and catches every exception. It is one step,
  -- so that no other call meets the pin that it holds while it runs.
  abbrev pub caught : Result (StorageEngine policies) PageHandle → Option (StorageEngine policies)
  caught (ok h e) = some (release h e)
  caught (thrown x e) = some e
  caught undefined = none

  unfoldable pub prefetch_thread : ℕ → StorageEngine policies → Option (StorageEngine policies)
  unfolding release
  prefetch_thread page_id e = caught (fetch_page page_id e)

  -- That, in the frame of the handle.
  abbrev pub write_frame :
      ℕ
      → PageHandle
      → StorageEngine policies
      → Option RawPage
      → Result (StorageEngine policies) PageHandle
  write_frame page_id h e none = undefined
  write_frame page_id h e (some p) = ok h (record e {
    cache = record e.cache { pool = set e.cache.pool h.frame (write_header page_id p) };
  })

  -- The results of the system calls in `grow_file` are arguments.
  unfoldable pub allocate_page :
      Bool → Bool → StorageEngine policies → Result (StorageEngine policies) PageHandle
  allocate_page resized remapped e = do
    (x, e') ←
        grown (MappedFile.grow_file cleared resized remapped (u32 (new_page_id + 1)) e.cache.file)
    (h, e'') ← in_engine e'.pending (Handles.fetch_page policies new_page_id e'.cache)
    write_frame new_page_id h e'' (get_elem? e''.cache.pool h.frame)
    where
      new_page_id : ℕ
      new_page_id = get_total_pages e

      grown : Result (MappedFile RawPage) (Unit {0}) → Result (StorageEngine policies) (Unit {0})
      grown (ok x f) = ok x (record e { cache = record e.cache { file = f } })
      grown (thrown x f) = thrown x (record e { cache = record e.cache { file = f } })
      grown undefined = undefined

  unfoldable pub flush_all :
      Bool → StorageEngine policies → Result (StorageEngine policies) (Unit {0})
  flush_all synced e = in_engine e.pending (PageCache.flush_all policies synced e.cache)
