-- ===== src/PageCache/Fetch.antt =====
-- `fetch_page` on every branch: a hit, a free frame, a victim, and a full pool.
use mathlib.Core.Option
use adaptive_query_accelerat.Common.{
  ℕ, ◌+◌, ◌<◌, ◌≡◌, ◌≢◌, inl, inr, refl, sym, ◌∙◌, ap, subst, Option, none, some, List, [], ◌∷◌,
  length, get_or, length-set, get_or-set_self, get_or-set_ne, ℕ_discrete, arith, Option-cases, ◌==◌,
  if◌then◌else◌,
}
use adaptive_query_accelerat.Common.Maps.{
  find, assign, find-assign_self, find-assign_ne, assign-some, find-erase_ne, erase-absent,
}
use adaptive_query_accelerat.Common.Linked.{at?, remove_at, push_front}
use adaptive_query_accelerat.Common.Linked.Shape.{renew-Shape}
use adaptive_query_accelerat.MappedFile.{ok, thrown, pool_full, ◌>>=◌}
use adaptive_query_accelerat.PageCache.{
  PageCache, count_hit, count_miss, touch_at, touch_page, pin, pin_touched, get_at,
  get_page_internal, take_from, admit_page, admit, get_pin_count,
}
use adaptive_query_accelerat.PageCache.Interface.{Policies}
use adaptive_query_accelerat.PageCache.Valid.{Cached, IsValid}
use adaptive_query_accelerat.PageCache.Evict.{
  without_page, Evicts, all_pinned, evicts, evict-Evicts, load_lem, node_of,
}
use adaptive_query_accelerat.PageCache.Frames.{
  IsReady, without_page-IsReady, free-IsReady, with_page, with_page-IsValid,
}
use adaptive_query_accelerat.PageCache.View.{
  content, content_at_same, pin_count_at_same, pins, pins_lem, pins-none, content-without_page,
  pins-without_page, content-with_page, pins-with_page,
}

module _ {policies : Policies} {P : Type 0} where
  -- A fetch that returns: the cache is valid, the page is cached in the frame that the handle gets,
  -- every page has the content that it had, the page has one pin more and the others theirs, and
  -- pinned pages keep their frames.
  pub record Fetched (c : PageCache policies P) (page_id frame : ℕ) (c' : PageCache policies P)
      : Type 0 where
    pub returned : get_page_internal policies page_id c ≡ ok frame c'
    pub valid : IsValid c'
    pub cached : Cached c' page_id frame
    pub transparent : (q : ℕ) → content c' q ≡ content c q
    pub pinned : (q : ℕ) → pins c' q ≡ pins c q + (if page_id == q then 1 else 0)
    pub kept : (q f : ℕ) → Cached c q f → 0 < pins c q → Cached c' q f

  -- What a fetch does: it returns, or throws because the page is not cached, no frame is free and
  -- every page is pinned, and then it has only counted and noted the miss.
  pub data Fetches (c : PageCache policies P) (page_id : ℕ) : Type 0 where
    fetched :
        (frame : ℕ) (c' : PageCache policies P) → Fetched c page_id frame c' → Fetches c page_id
    full :
        get_page_internal policies page_id c ≡ thrown pool_full (count_miss policies page_id c)
        → ((q f : ℕ) → Cached c q f → 0 < get_or c.pin_counts f 0)
        → c.free_frames ≡ []
        → find ℕ_discrete page_id c.page_map ≡ none
        → Fetches c page_id

  module _ {c : PageCache policies P} (v : IsValid c) (page_id : ℕ) where
    -- The counters and the observer do not matter to the invariant.
    pub missed-IsValid : IsValid (count_miss policies page_id c)
    missed-IsValid = record {
      counts = v.counts;
      shape = v.shape;
      listed = v.listed;
      mapped = v.mapped;
      in_pool = v.in_pool;
      injective = v.injective;
      free_in = v.free_in;
      free_unused = v.free_unused;
      free_distinct = v.free_distinct;
      on_file = v.on_file;
      file = v.file;
    }

    -- What a hit leaves: the page's node is renewed at the front, and its count goes up.
    abbrev renewed : ℕ → ℕ → PageCache policies P
    renewed it frame = pin policies frame (record (count_hit policies page_id c) {
      lru_list = push_front page_id (record c.lru_list { nodes = remove_at it c.lru_list.nodes });
      lru_iters = assign ℕ_discrete page_id c.lru_list.fresh c.lru_iters;
    })

    renewed-IsValid :
        (it frame : ℕ)
        → at? it c.lru_list.nodes ≡ some page_id
        → Cached c page_id frame
        → IsValid (renewed it frame)
    renewed-IsValid it frame here cached = record {
      counts = length-set c.pin_counts frame (get_or c.pin_counts frame 0 + 1) ∙ v.counts;
      shape = renew-Shape ℕ_discrete (λ p. p) v.shape it here;
      listed = λ q f h. elim (ℕ_discrete page_id q) [
        | yes p ↦ (
          c.lru_list.fresh,
          subst
              (λ x.
                find ℕ_discrete x (assign ℕ_discrete page_id c.lru_list.fresh c.lru_iters)
                ≡ some c.lru_list.fresh)
              p (find-assign_self ℕ_discrete page_id c.lru_list.fresh c.lru_iters),
        )
        | no p ↦
            let (i, found) = v.listed q f h in
            (i, find-assign_ne ℕ_discrete page_id q c.lru_list.fresh c.lru_iters p ∙ found)
      ];
      mapped = λ q i h. elim (assign-some ℕ_discrete page_id q c.lru_list.fresh c.lru_iters h) [
        | inl (e, _) ↦ (frame, subst (λ x. Cached c x frame) e cached)
        | inr (_, was) ↦ v.mapped q i was
      ];
      in_pool = v.in_pool;
      injective = v.injective;
      free_in = v.free_in;
      free_unused = v.free_unused;
      free_distinct = v.free_distinct;
      on_file = v.on_file;
      file = v.file;
    }

    renewed-pins :
        (it frame q : ℕ)
        → Cached c page_id frame
        → pins (renewed it frame) q ≡ pins c q + (if page_id == q then 1 else 0)
    renewed-pins it frame q cached = elim (ℕ_discrete page_id q) [
      | yes p ↦
          let now : pins (renewed it frame) page_id ≡ get_or c.pin_counts frame 0 + 1 =
            pins_lem (renewed it frame) page_id frame cached
            ∙ get_or-set_self c.pin_counts frame (get_or c.pin_counts frame 0 + 1) 0
                (omega (arith, v.counts, v.in_pool page_id frame cached)) in
          subst (λ x. pins (renewed it frame) x ≡ pins c x + (if page_id == x then 1 else 0)) p
            (ground (arith, now, pins_lem c page_id frame cached))
      | no p ↦ ground (arith, others (find ℕ_discrete q c.page_map) refl p)
    ]
      where
        others :
            (o : Option ℕ)
            → find ℕ_discrete q c.page_map ≡ o
            → page_id ≢ q
            → pins (renewed it frame) q ≡ pins c q
        others none e p = pins-none (renewed it frame) q e ∙ sym (pins-none c q e)
        others (some f) e p =
            pins_lem (renewed it frame) q f e
            ∙ get_or-set_ne c.pin_counts frame f (get_or c.pin_counts frame 0 + 1) 0
                (λ h. p (v.injective page_id q frame cached (e ∙ ap some (sym h))))
            ∙ sym (pins_lem c q f e)

    hit : (frame : ℕ) → Cached c page_id frame → Fetches c page_id
    unfolding get_page_internal touch_page
    hit frame cached =
        let (it, listed, here, _) = node_of v page_id frame cached in
        fetched frame (renewed it frame) (record {
          returned =
              ap (λ o. get_at policies page_id o c) cached
              ∙ ap
                  (λ o.
                    pin_touched policies page_id
                      (touch_at policies page_id o (count_hit policies page_id c)))
                  listed
              ∙ ap (λ f. ok f (renewed it f)) (ap (λ o. Option.get_or o 0) cached);
          valid = renewed-IsValid it frame here cached;
          cached = cached;
          transparent =
              λ q. content_at_same c (renewed it frame) (find ℕ_discrete q c.page_map) q refl refl;
          pinned = λ q. renewed-pins it frame q cached;
          kept = λ q f h _. h;
        })

    -- The page comes into a frame that is ready.
    arrive :
        (frame : ℕ) (d : PageCache policies P)
        → find ℕ_discrete page_id c.page_map ≡ none
        → take_from policies c.free_frames (count_miss policies page_id c) ≡ ok frame d
        → IsReady d frame
        → find ℕ_discrete page_id d.page_map ≡ none
        → page_id < length d.file.pages
        → ((q : ℕ) → content d q ≡ content c q)
        → ((q : ℕ) → pins d q ≡ pins c q)
        → ((q f : ℕ) → Cached c q f → 0 < pins c q → Cached d q f)
        → Fetches c page_id
    unfolding get_page_internal
    arrive frame d miss taken r absent in_file contents counts stay =
        let (page, loaded, on_disk) = load_lem page_id r.valid.file in_file in
        fetched frame (with_page d page_id frame page) (record {
          returned =
              ap (λ o. get_at policies page_id o c) miss
              ∙ ap (λ t. t >>= admit policies page_id) taken
              ∙ ap (admit_page policies page_id frame d) loaded;
          valid = with_page-IsValid page_id frame page r absent in_file;
          cached = find-assign_self ℕ_discrete page_id frame d.page_map;
          transparent = λ q. content-with_page page_id frame page r absent on_disk q ∙ contents q;
          pinned = λ q.
              pins-with_page page_id frame page r absent on_disk q
              ∙ ap (λ n. n + (if page_id == q then 1 else 0)) (counts q);
          kept = λ q f h live.
              let there = stay q f h live in
              find-assign_ne ℕ_discrete page_id q frame d.page_map
                (λ e. cc (absent, subst (λ x. Cached d x f) (sym e) there))
              ∙ there;
        })

    from_free :
        (frames : List ℕ) (frame : ℕ)
        → find ℕ_discrete page_id c.page_map ≡ none
        → page_id < length c.file.pages
        → c.free_frames ≡ frame ∷ frames
        → Fetches c page_id
    from_free frames frame miss in_file e =
        let d : PageCache policies P = record (count_miss policies page_id c) {
          free_frames = frames;
        } in
        arrive frame d miss (ap (λ fs. take_from policies fs (count_miss policies page_id c)) e)
          (free-IsReady missed-IsValid frame frames e) miss in_file
          (λ q. content_at_same c d (find ℕ_discrete q c.page_map) q refl refl)
          (λ q. unfold get_pin_count in pin_count_at_same c d (find ℕ_discrete q c.page_map) refl)
          (λ q f h _. h)

    from_victim :
        find ℕ_discrete page_id c.page_map ≡ none
        → page_id < length c.file.pages
        → c.free_frames ≡ []
        → Evicts (count_miss policies page_id c)
        → Fetches c page_id
    unfolding get_page_internal
    from_victim miss in_file e (all_pinned threw busy) =
        full
          (ap (λ o. get_at policies page_id o c) miss
            ∙ ap
                (λ fs.
                  take_from policies fs (count_miss policies page_id c) >>= admit policies page_id)
                e
            ∙ ap (λ t. t >>= admit policies page_id) threw)
          busy e miss
    from_victim miss in_file e (evicts victim frame it page policy w evicted) =
        let m = count_miss policies page_id c in
        let d = without_page m victim it page policy in
        arrive frame d miss (ap (λ fs. take_from policies fs m) e ∙ evicted)
          (without_page-IsReady missed-IsValid victim frame it page policy w)
          (erase-absent ℕ_discrete victim page_id c.page_map miss)
          (subst (λ n. page_id < n) (sym (length-set c.file.pages victim page)) in_file)
          (λ q.
            content-without_page missed-IsValid victim frame it page policy w q
            ∙ content_at_same c m (find ℕ_discrete q c.page_map) q refl refl)
          (λ q.
            pins-without_page missed-IsValid victim frame it page policy w q
            ∙ unfold get_pin_count in pin_count_at_same c m (find ℕ_discrete q c.page_map) refl)
          (λ q f h live.
            find-erase_ne ℕ_discrete victim q c.page_map (λ same.
              let at : Cached c victim f = subst (λ x. Cached c x f) (sym same) h in
              let one : pins c q ≡ 0 =
                subst (λ x. pins c x ≡ 0) same (pins_lem c victim frame w.cached ∙ w.not_pinned) in
              absurd (omega arith))
            ∙ h)

    -- A fetch of a page of the file from a valid cache either returns a frame that then caches the
    -- page, with the cache valid, the content of every page as before, one more pin on the page and
    -- no other pin changed, and every pinned page still in its frame; or it throws, the page is not
    -- cached, no frame is free, each cached page is pinned, and only the miss has been counted and
    -- observed.
    pub get_page_internal-Fetches : page_id < length c.file.pages → Fetches c page_id
    get_page_internal-Fetches in_file = elim (Option-cases (find ℕ_discrete page_id c.page_map)) [
      | inr (frame, cached) ↦ hit frame cached
      | inl miss ↦ on_free c.free_frames miss refl
    ]
      where
        on_free :
            (fs : List ℕ)
            → find ℕ_discrete page_id c.page_map ≡ none
            → c.free_frames ≡ fs
            → Fetches c page_id
        on_free (frame ∷ frames) miss e = from_free frames frame miss in_file e
        on_free [] miss e = from_victim miss in_file e (evict-Evicts missed-IsValid)
