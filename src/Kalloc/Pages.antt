-- ===== src/Kalloc/Pages.antt =====
-- Pages are handed out once: the free list has no page twice and only pages of the range.
use cs202_lab.Prelude.{
  ℕ, zero, suc, ◌+◌, ◌-◌, ◌*◌, ◌/◌, ◌%◌, ◌<◌, ◌≤◌, ◌≡◌, ◌≢◌, ◌⊎◌, inl, inr, refl, Bool, true, false,
  not, List, [], ◌∷◌, ◌==◌, ◌&&◌, ltb, none, some, arith, any_of, all_of, length, Bool-cases, ap,
  ◌∙◌, sym,
}
use cs202_lab.Kalloc.{
  pgsize, phystop, Kmem, is_page, kfree, pg_round_up, free_pages, freerange, kinit, kalloc,
  alloc_from, fill_page,
}

abbrev pub holds : ℕ → List ℕ → Bool
holds pa = any_of (λ q. q == pa)

abbrev pub distinct : List ℕ → Bool
distinct [] = true
distinct (pa ∷ rest) = not (holds pa rest) && distinct rest

module _ (end' : ℕ) where
  -- The free list holds pages of the range, each once.
  pub record IsValid (k : Kmem) : Type 0 where
    pub pages : all_of (is_page end') k.freelist ≡ true
    pub once : distinct k.freelist ≡ true

  -- What an allocation has done.
  abbrev pub Handed : List ℕ → Kmem × ℕ → Type 0
  Handed before (k', pa) =
      IsValid k'
      × (((pa ≡ 0) × (before ≡ []))
          ⊎ ((pa ≢ 0)
              × (is_page end' pa ≡ true)
              × (holds pa k'.freelist ≡ false)
              × (before ≡ pa ∷ k'.freelist)))

  alloc_from-Handed :
      (k : Kmem) (l : List ℕ)
      → 0 < end'
      → k.freelist ≡ l
      → IsValid k
      → Handed k.freelist (alloc_from k l)
  alloc_from-Handed k [] pos e v = (v, inl (refl, e))
  alloc_from-Handed k (pa ∷ rest) pos e v =
      let pages = sym (ap (all_of (is_page end')) e) ∙ v.pages in
      let once = sym (ap distinct e) ∙ v.once in
      (
        record { pages = ground arith; once = ground arith },
        inr ((λ (q : pa ≡ 0). ground arith), ground arith, ground arith, e),
      )

  -- `kalloc` returns the null pointer only when no page is free. A page that it hands out is a page
  -- of the range, was free, and is free no more: no later `kalloc` hands it out before it is freed.
  pub kalloc_lem : (k : Kmem) → 0 < end' → IsValid k → Handed k.freelist (kalloc k)
  unfolding kalloc
  kalloc_lem k pos v = alloc_from-Handed k k.freelist pos refl v

  -- `kfree` panics exactly on an address that is no page of the range. A page that is not free
  -- already goes on the list, which stays valid.
  pub kfree_lem :
      (pa : ℕ) (k : Kmem)
      → IsValid k
      → ((is_page end' pa ≡ false) × (kfree end' pa k ≡ none))
        ⊎ ((is_page end' pa ≡ true)
            × (k' : Kmem) × (kfree end' pa k ≡ some k')
            × (k'.freelist ≡ pa ∷ k.freelist)
            × (holds pa k.freelist ≡ false → IsValid k'))
  unfolding kfree
  kfree_lem pa k v = elim (Bool-cases (is_page end' pa)) [
    | inl e ↦ inr (
      e,
      record k { freelist = pa ∷ k.freelist; fill = fill_page k.fill pa 1 },
      rw e refl,
      refl,
      λ new. record { pages = rw e v.pages; once = rw new v.once },
    )
    | inr e ↦ inl (e, rw e refl)
  ]

  holds-below : (p : ℕ) (l : List ℕ) → all_of (λ q. ltb q p) l ≡ true → holds p l ≡ false
  holds-below p [] h = refl
  holds-below p (q ∷ l) h = ground (arith, holds-below p l)

  below_mono :
      (p r : ℕ) (l : List ℕ)
      → p ≤ r
      → all_of (λ q. ltb q p) l ≡ true
      → all_of (λ q. ltb q r) l ≡ true
  below_mono p r [] le h = refl
  below_mono p r (q ∷ l) le h = ground (arith, below_mono p r l le)

  kfree-page :
      (pa : ℕ) (k : Kmem)
      → is_page end' pa ≡ true
      → kfree end' pa k
        ≡ some (record k { freelist = pa ∷ k.freelist; fill = fill_page k.fill pa 1 })
  unfolding kfree
  kfree-page pa k e = rw e refl

  free_pages-IsValid :
      (n p : ℕ) (k : Kmem)
      → p % pgsize ≡ 0
      → end' ≤ p
      → p + n * pgsize ≤ phystop
      → all_of (λ q. ltb q p) k.freelist ≡ true
      → IsValid k
      → (k' : Kmem) × (free_pages end' n p k ≡ some k')
        × IsValid k'
        × (length k'.freelist ≡ length k.freelist + n)
  unfolding free_pages
  free_pages-IsValid zero p k al lo hi below v = (k, refl, v, omega arith)
  free_pages-IsValid (suc n) p k al lo hi below v =
      let page : is_page end' p ≡ true = ground arith in
      let k1 : Kmem = record k { freelist = p ∷ k.freelist; fill = fill_page k.fill p 1 } in
      let grown = below_mono p (p + pgsize) k.freelist (omega arith) below in
      let new = holds-below p k.freelist below in
      let (k', e, v', len) =
        free_pages-IsValid n (p + pgsize) k1 (omega arith) (omega arith) (omega arith)
          (ground arith) (record { pages = rw page v.pages; once = rw new v.once }) in
      (k', rw (kfree-page p k page, free_pages) e, v', omega (arith, len))

  -- `kinit` never panics: from an empty list it frees every whole page between `end` and PHYSTOP,
  -- each once.
  pub kinit-IsValid :
      (k : Kmem)
      → end' ≤ phystop
      → k.freelist ≡ []
      → (k' : Kmem) × (kinit end' k ≡ some k')
        × IsValid k'
        × (length k'.freelist ≡ (phystop - pg_round_up end' end') / pgsize)
  unfolding kinit freerange
  kinit-IsValid k le e =
      let p = pg_round_up end' end' in
      let (k', run, v, len) =
        free_pages-IsValid ((phystop - p) / pgsize) p k (omega arith) (omega arith) (omega arith)
          (rw e refl) (record { pages = rw e refl; once = rw e refl }) in
      (k', run, v, omega (arith, len, ap length e))
