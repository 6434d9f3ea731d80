-- ===== src/StorageReader/Scan.antt =====
-- The scan visits the records that the contents of the pages hold, in order.
use adaptive_query_accelerat.Common.{
  ℕ, zero, suc, ◌+◌, ◌<◌, ◌≡◌, refl, sym, ◌∙◌, ap, subst, Option, some, List, ◌++◌, inl, inr,
  length, ltb, Bool-cases, arith,
}
use adaptive_query_accelerat.MappedFile.{Result, ok, ◌>>=◌}
use adaptive_query_accelerat.Page.{RawPage, RecordId}
use adaptive_query_accelerat.PageCache.{PageCache, unpin_page}
use adaptive_query_accelerat.PageCache.Handles.{destroy}
use adaptive_query_accelerat.PageCache.Interface.{Policies}
use adaptive_query_accelerat.PageCache.Valid.{Cached, IsValid}
use adaptive_query_accelerat.PageCache.View.{content, pins}
use adaptive_query_accelerat.PageCache.Progress.{
  HasFrame, Alike, Alike-refl, Alike-trans, unpin-Alike, scoped-Alike, content-some, fetch-Returns,
  fetch-Returns_cached, length-Alike,
}
use adaptive_query_accelerat.StorageEngine.{
  StorageEngine, get_total_pages, fetch_page, prefetch_page, release,
}
use adaptive_query_accelerat.StorageEngine.Fetch.{handle, with_cache, fetch_Fetched}
use adaptive_query_accelerat.StorageReader.{
  Record, slot_count, read_slot, finish_read, read_record, scan_slots, prefetch_ahead, scan_handle,
  scan_page, scan_pages, scan, scoped, then_prefetch, prefetch_lookahead,
}
use adaptive_query_accelerat.StorageReader.Read.{Fetched-page, read_Fetched}
use adaptive_query_accelerat.StorageReader.Listing.{
  slot_records, page_records, file_records, Readable,
}

prefetch_page_cache :
    {policies : Policies} (page_id : ℕ) (e : StorageEngine policies)
    → (prefetch_page page_id e).cache ≡ e.cache
unfolding prefetch_page
prefetch_page_cache page_id e = ground arith

pub prefetch_ahead_cache :
    {policies : Policies} (rounds ahead pid total_pages : ℕ) (e : StorageEngine policies)
    → (prefetch_ahead rounds ahead pid total_pages e).cache ≡ e.cache
unfolding prefetch_ahead
prefetch_ahead_cache zero ahead pid total_pages e = refl
prefetch_ahead_cache (suc rounds) ahead pid total_pages e =
    elim (Bool-cases (ltb (pid + ahead) total_pages)) [
      | inl go ↦ rw go (
          prefetch_ahead_cache rounds (suc ahead) pid total_pages (prefetch_page (pid + ahead) e)
          ∙ prefetch_page_cache (pid + ahead) e)
      | inr stop ↦ rw stop refl
    ]

module _ {policies : Policies} where
  -- No page is pinned, and there is a frame.
  pub record Ready (c : PageCache policies RawPage) : Type 0 where
    pub valid : IsValid c
    pub idle : (q : ℕ) → pins c q ≡ 0
    pub room : HasFrame c

  -- A step of a scan, which leaves the page cached.
  pub record Scans (e : StorageEngine policies) (pid : ℕ)
      (r : Result (StorageEngine policies) (List (RecordId × Record)))
      (visited : List (RecordId × Record)) : Type 0 where
    pub after : StorageEngine policies
    pub returned : r ≡ ok visited after
    pub alike : Alike e.cache after.cache
    pub frame : ℕ
    pub cached : Cached after.cache pid frame

  -- One record of a page that is cached.
  read_cached :
      (e : StorageEngine policies) (pid frame sid : ℕ) (p : RawPage) (o : Option Record)
      → IsValid e.cache
      → Cached e.cache pid frame
      → content e.cache pid ≡ some p
      → read_slot p sid ≡ some o
      → (e' : StorageEngine policies) × (frame' : ℕ) × (read_record
            (record { page_id = pid; slot_id = sid })
            e
          ≡ ok o e')
        × Alike e.cache e'.cache
        × Cached e'.cache pid frame'
  unfolding release destroy
  read_cached e pid frame sid p o v cached held found =
      let (frame', c', f) = fetch-Returns_cached pid frame v cached in
      let (alike, still) = unpin-Alike pid frame' f in
      let rid : RecordId = record { page_id = pid; slot_id = sid } in
      (
        release (handle pid frame') (with_cache e c'),
        frame',
        read_Fetched e v rid frame' c' p (v.on_file pid frame cached) f held
            ∙ ap (finish_read (handle pid frame') (with_cache e c')) found,
        alike,
        still,
      )

  -- The inner loop, on a page that is cached.
  slots-Scans :
      (rounds sid pid frame : ℕ) (e : StorageEngine policies) (p : RawPage)
      → IsValid e.cache
      → Cached e.cache pid frame
      → content e.cache pid ≡ some p
      → sid + rounds ≡ slot_count p
      → Readable p
      → Scans e pid (scan_slots rounds pid sid e) (slot_records p pid rounds sid)
  unfolding scan_slots slot_records
  slots-Scans zero sid pid frame e p v cached held counted readable = record {
    after = e;
    returned = refl;
    alike = Alike-refl e.cache v;
    frame = frame;
    cached = cached;
  }
  slots-Scans (suc rounds) sid pid frame e p v cached held counted readable =
      let (o, found) = readable sid (omega arith) in
      let (e', frame', read, alike, still) = read_cached e pid frame sid p o v cached held found in
      let rest =
        slots-Scans rounds (suc sid) pid frame' e' p alike.valid still
          (alike.transparent pid ∙ held) (omega arith) readable in
      record {
        after = rest.after;
        returned = rw (read, rest.returned, found) refl;
        alike = Alike-trans e.cache e'.cache rest.after.cache alike rest.alike;
        frame = rest.frame;
        cached = rest.cached;
      }

  pub Alike-Ready :
      (c c' : PageCache policies RawPage) (pid frame : ℕ)
      → Ready c
      → Alike c c'
      → Cached c' pid frame
      → Ready c'
  Alike-Ready c c' pid frame ready alike cached = record {
    valid = alike.valid;
    idle = λ q. alike.pinned q ∙ ready.idle q;
    room = inr (pid, frame, cached, alike.pinned pid ∙ ready.idle pid);
  }

  -- One round of the outer loop.
  page-Scans :
      (e : StorageEngine policies) (pid total_pages : ℕ) (p : RawPage)
      → Ready e.cache
      → pid < length e.cache.file.pages
      → content e.cache pid ≡ some p
      → Readable p
      → Scans e pid (fetch_page pid e >>= scan_handle pid total_pages) (page_records pid (some p))
  unfolding release destroy
  page-Scans e pid total_pages p ready in_file held readable =
      let (frame, c', f) = fetch-Returns pid ready.valid ready.room in_file in
      let slots =
        slots-Scans (slot_count p) 0 pid frame (with_cache e c') p f.valid f.cached
          (f.transparent pid ∙ held) (omega arith) readable in
      let ahead = prefetch_ahead prefetch_lookahead 1 pid total_pages slots.after in
      let ended =
        subst
          (λ c.
            Alike e.cache (unpin_page policies pid c)
            × Cached (unpin_page policies pid c) pid slots.frame)
          (sym (prefetch_ahead_cache prefetch_lookahead 1 pid total_pages slots.after))
          (scoped-Alike pid frame slots.frame f slots.alike slots.cached) in
      let at_start = with_cache e c' in
      record {
        after = release (handle pid frame) ahead;
        returned =
            ap (λ r. r >>= scan_handle pid total_pages)
              (fetch_Fetched e ready.valid pid frame c' in_file f)
            ∙ ap (scan_page pid total_pages (handle pid frame) at_start)
                (Fetched-page pid frame c' f held)
            ∙ ap (λ r. scoped (handle pid frame) (r >>= then_prefetch pid total_pages))
                slots.returned;
        alike = ended.0;
        frame = slots.frame;
        cached = ended.1;
      }

  pages-scan :
      (rounds pid total_pages : ℕ) (e : StorageEngine policies)
      → Ready e.cache
      → pid + rounds ≡ length e.cache.file.pages
      → ((q : ℕ) (p : RawPage) → content e.cache q ≡ some p → Readable p)
      → (e' : StorageEngine policies) × (scan_pages rounds pid total_pages e
          ≡ ok (file_records (content e.cache) rounds pid) e')
        × Alike e.cache e'.cache
        × Ready e'.cache
  unfolding scan_pages file_records
  pages-scan zero pid total_pages e ready counted readable =
      (e, refl, Alike-refl e.cache ready.valid, ready)
  pages-scan (suc rounds) pid total_pages e ready counted readable =
      let (p, held) = content-some e.cache pid ready.valid (omega arith) in
      let page = page-Scans e pid total_pages p ready (omega arith) held (readable pid p held) in
      let c' = page.after.cache in
      let (e'', returned, alike, ready') =
        pages-scan rounds (suc pid) total_pages page.after
          (Alike-Ready e.cache c' pid page.frame ready page.alike page.cached)
          (omega (
            arith,
            counted,
            length-Alike e.cache c' ready.valid page.alike.valid page.alike.transparent,
          ))
          (λ q r h. readable q r (sym (page.alike.transparent q) ∙ h)) in
      (
        e'',
        rw (page.returned, returned, held)
            (ap (λ pages. ok (page_records pid (some p) ++ file_records pages rounds (suc pid)) e'')
              (λ i q. page.alike.transparent q i)),
        Alike-trans e.cache c' e''.cache page.alike alike,
        ready',
      )

  -- A scan ends: on a valid cache in which nothing is pinned and of which a frame can be had, with
  -- pages of which no slot leads out of its page, it visits, page by page and slot by slot, the
  -- records that the contents of the pages hold, and no others. It leaves the contents and the pins
  -- as they were, and the cache ready for the next scan.
  pub scan-file_records :
      (e : StorageEngine policies)
      → Ready e.cache
      → ((q : ℕ) (p : RawPage) → content e.cache q ≡ some p → Readable p)
      → (e' : StorageEngine policies) × (scan e
          ≡ ok (file_records (content e.cache) (get_total_pages e) 0) e')
        × Alike e.cache e'.cache
        × Ready e'.cache
  unfolding scan
  scan-file_records e ready readable =
      pages-scan (get_total_pages e) 0 (get_total_pages e) e ready
        (omega (arith, ready.valid.file.counted)) readable
