-- ===== src/PageCache/Handles.antt =====
-- `PageHandle`: a pin that its owner gives back. The variables of a program hold handles, or have
-- been moved from; the steps are those of one thread at a time, in any order.
use adaptive_query_accelerat.Common.{
  ℕ, ◌<◌, ◌≡◌, ◌≢◌, Option, none, some, List, ◌∷◌, length, get_elem?, set,
}
use adaptive_query_accelerat.MappedFile.{Error, Result, ok, thrown}
use adaptive_query_accelerat.PageCache.{PageCache, get_page_internal, unpin_page}
use adaptive_query_accelerat.PageCache.Interface.{Policies}

-- A handle with a cache; `frame` is where its `Page` points.
pub record PageHandle : Type 0 where
  pub page_id : ℕ
  pub frame : ℕ

-- A variable: `none` is a handle whose `cache_` is null.
abbrev pub Variable : Type 0
Variable = Option PageHandle

module _ (policies : Policies) {P : Type 0} where
  -- The destructor.
  unfoldable pub destroy : Variable → PageCache policies P → PageCache policies P
  unfolding unpin_page
  destroy none c = c
  destroy (some h) c = unpin_page policies h.page_id c

  -- `operator=(PageHandle&&)` between two variables: what the target held is given back first.
  unfoldable pub move_assign :
      Variable → Variable → PageCache policies P → Variable × Variable × PageCache policies P
  unfolding destroy
  move_assign target source c = (source, none, destroy target c)

  abbrev pub handle_for :
      ℕ → Result (PageCache policies P) ℕ → Result (PageCache policies P) PageHandle
  handle_for page_id (ok frame c) = ok (record { page_id = page_id; frame = frame }) c
  handle_for page_id (thrown e c) = thrown e c
  handle_for page_id Result.undefined = Result.undefined

  unfoldable pub fetch_page : ℕ → PageCache policies P → Result (PageCache policies P) PageHandle
  unfolding get_page_internal
  fetch_page page_id c = handle_for page_id (get_page_internal policies page_id c)

-- The move constructor: the new handle, and what the old one is left with.
unfoldable pub move_construct : Variable → Variable × Variable
move_construct other = (other, none)

-- The cache and the variables.
pub record Pool (policies : Policies) (P : Type 0) : Type 0 where
  pub cache : PageCache policies P
  pub vars : List Variable

-- The steps of a program that uses the cache through handles. A fetch is of a page of the file; a
-- handle that goes out of scope leaves an empty slot; an assignment is between two variables, since
-- to itself it does nothing.
pub data Step {policies : Policies} {P : Type 0} : Pool policies P → Pool policies P → Type 0 where
  fetches :
      {p : Pool policies P} (page_id : ℕ) (h : PageHandle) (c' : PageCache policies P)
      → page_id < length p.cache.file.pages
      → fetch_page policies page_id p.cache ≡ ok h c'
      → Step p (record { cache = c'; vars = some h ∷ p.vars })
  fails :
      {p : Pool policies P} (page_id : ℕ) (e : Error) (c' : PageCache policies P)
      → page_id < length p.cache.file.pages
      → fetch_page policies page_id p.cache ≡ thrown e c'
      → Step p (record { cache = c'; vars = p.vars })
  destroys :
      {p : Pool policies P} (i : ℕ) (v : Variable)
      → get_elem? p.vars i ≡ some v
      → Step p (record { cache = destroy policies v p.cache; vars = set p.vars i none })
  constructs :
      {p : Pool policies P} (i : ℕ) (v : Variable)
      → get_elem? p.vars i ≡ some v
      → Step p (record {
        cache = p.cache;
        vars = (move_construct v).0 ∷ set p.vars i ((move_construct v).1);
      })
  assigns :
      {p : Pool policies P} (i j : ℕ) (target source target' source' : Variable)
      (c' : PageCache policies P)
      → i ≢ j
      → get_elem? p.vars i ≡ some target
      → get_elem? p.vars j ≡ some source
      → move_assign policies target source p.cache ≡ (target', source', c')
      → Step p (record { cache = c'; vars = set (set p.vars i target') j source' })

-- Any number of steps.
pub data Steps {policies : Policies} {P : Type 0} : Pool policies P → Pool policies P → Type 0 where
  start : {p : Pool policies P} → Steps p p
  then_step : {p q r : Pool policies P} → Steps p q → Step q r → Steps p r
