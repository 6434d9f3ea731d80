-- ===== src/PageCache/Valid.antt =====
-- The invariant of the page cache: the page map, the list, the iterators, the frames and the file
-- agree.
use adaptive_query_accelerat.Common.{
  ℕ, ◌<◌, ◌^◌, ◌≡◌, ◌≢◌, true, some, List, [], ◌∷◌, All, length, ℕ_discrete,
}
use adaptive_query_accelerat.Common.Maps.{find}
use adaptive_query_accelerat.MappedFile.{MappedFile}
use adaptive_query_accelerat.Common.Linked.Shape.{Shape}
use adaptive_query_accelerat.PageCache.{PageCache}
use adaptive_query_accelerat.PageCache.Interface.{Policies}

-- A mapped file below 4 GB, so that no offset wraps.
pub record IsMapped {P : Type 0} (f : MappedFile P) : Type 0 where
  pub mapped : 0 < length f.pages → f.mapped ≡ true
  pub counted : f.page_count ≡ length f.pages
  pub below_4gb : length f.pages < 2 ^ 20

abbrev pub Distinct : List ℕ → Type 0
Distinct [] = Unit
Distinct (x ∷ xs) = All (λ y. y ≢ x) xs × Distinct xs

module _ {policies : Policies} {P : Type 0} where
  -- `page_id` is cached in the frame.
  abbrev pub Cached : PageCache policies P → ℕ → ℕ → Type 0
  Cached c page_id frame = find ℕ_discrete page_id c.page_map ≡ some frame

  pub record IsValid (c : PageCache policies P) : Type 0 where
    pub counts : length c.pin_counts ≡ length c.pool
    pub shape : Shape ℕ_discrete (λ p. p) c.lru_list.fresh c.lru_iters c.lru_list.nodes
    pub listed :
        (page_id frame : ℕ)
        → Cached c page_id frame
        → (it : ℕ) × (find ℕ_discrete page_id c.lru_iters ≡ some it)
    pub mapped :
        (page_id it : ℕ)
        → find ℕ_discrete page_id c.lru_iters ≡ some it
        → (frame : ℕ) × Cached c page_id frame
    pub in_pool : (page_id frame : ℕ) → Cached c page_id frame → frame < length c.pool
    pub injective : (p q frame : ℕ) → Cached c p frame → Cached c q frame → p ≡ q
    pub free_in : All (λ frame. frame < length c.pool) c.free_frames
    pub free_unused : All (λ frame. (page_id : ℕ) → ¬ Cached c page_id frame) c.free_frames
    pub free_distinct : Distinct c.free_frames
    pub on_file : (page_id frame : ℕ) → Cached c page_id frame → page_id < length c.file.pages
    pub file : IsMapped c.file
