-- ===== src/MappedFile/Grow.antt =====
-- What `grow_file` makes of a mapped file.
use adaptive_query_accelerat.Common.{
  ℕ, zero, suc, ◌+◌, ◌-◌, ◌*◌, ◌/◌, ◌^◌, ◌≤◌, ◌<◌, ◌≡◌, ◌⊎◌, refl, sym, ◌∙◌, ap, Bool, true, false,
  List, [], ◌∷◌, ◌++◌, length, length-append, length-replicate, replicate, take, leb, ltb, u32,
  Bool-cases, inl, inr, arith,
}
use adaptive_query_accelerat.MappedFile.{
  MappedFile, Error, ok, thrown, resize_failed, mmap_failed, grow_file, resize,
}
use adaptive_query_accelerat.PageCache.Valid.{IsMapped}

module _ {P : Type 0} where
  take_all : (ps : List P) (n : ℕ) → length ps ≤ n → take n ps ≡ ps
  take_all [] zero h = refl
  take_all [] (suc n) h = refl
  take_all (p ∷ ps) zero h = absurd (omega arith)
  take_all (p ∷ ps) (suc n) h = ap (λ l. p ∷ l) (take_all ps n (omega arith))

  -- A call of `grow_file`: nothing to do; new pages behind the old ones; or an exception, behind
  -- which the file is not mapped.
  pub data Grows (zero_page : P) (resized remapped : Bool) (n : ℕ) (f : MappedFile P) : Type 0 where
    enough :
        n ≤ length f.pages
        → grow_file zero_page resized remapped n f ≡ ok tt f
        → Grows zero_page resized remapped n f
    grown :
        (g : MappedFile P)
        → grow_file zero_page resized remapped n f ≡ ok tt g
        → g.pages ≡ f.pages ++ replicate (n - length f.pages) zero_page
        → g.page_count ≡ n
        → IsMapped g
        → Grows zero_page resized remapped n f
    failed :
        (e : Error) (g : MappedFile P)
        → grow_file zero_page resized remapped n f ≡ thrown e g
        → g.mapped ≡ false
        → (resized ≡ false) ⊎ (remapped ≡ false)
        → Grows zero_page resized remapped n f

  pub grow_file-Grows :
      (zero_page : P) (resized remapped : Bool) (n : ℕ) (f : MappedFile P)
      → IsMapped f
      → n < 2 ^ 20
      → Grows zero_page resized remapped n f
  unfolding grow_file
  grow_file-Grows zero_page resized remapped n f m few = elim (Bool-cases (leb n f.page_count)) [
    | inl has ↦ enough (ground (arith, m.counted)) (rw has refl)
    | inr lacks ↦ go resized remapped lacks
  ]
    where
      wider : MappedFile P
      wider = record {
        pages = resize zero_page (u32 (n * 4096) / 4096) f.pages;
        mapped = ltb 0 (u32 (n * 4096));
        file_size = u32 (n * 4096);
        page_count = n;
      }

      go :
          (resized remapped : Bool)
          → leb n f.page_count ≡ false
          → Grows zero_page resized remapped n f
      go false b lacks =
          failed resize_failed (record f { mapped = false }) (rw lacks refl) refl (inl refl)
      go true false lacks =
          failed mmap_failed (record wider { mapped = false }) (rw lacks refl) refl (inr refl)
      go true true lacks =
          let more : length f.pages < n = ground (arith, m.counted) in
          let size : u32 (n * 4096) / 4096 ≡ n = omega arith in
          let pages : resize zero_page (u32 (n * 4096) / 4096) f.pages
              ≡ f.pages ++ replicate (n - length f.pages) zero_page =
            ap (λ k. resize zero_page k f.pages) size
            ∙ ap (λ l. l ++ replicate (n - length f.pages) zero_page)
                (take_all f.pages n (omega arith)) in
          let long : length (resize zero_page (u32 (n * 4096) / 4096) f.pages) ≡ n =
            ap length pages
            ∙ length-append f.pages (replicate (n - length f.pages) zero_page)
            ∙ ap (λ k. length f.pages + k) (length-replicate (n - length f.pages) zero_page)
            ∙ omega arith in
          grown wider (rw lacks refl) pages refl
            (record { mapped = λ h. ground arith; counted = sym long; below_4gb = omega arith })
