-- ===== src/Kalloc.antt =====
-- The page allocator of kernel/kalloc.c. The free list is the list of the pages that the `run`
-- links lead through, which lie in the free pages themselves; `end'` is the linker's `end`. The
-- bytes of a page are not modelled, only the junk byte that fills it last.
pub mod Pages
mod Tests
use cs202_lab.Prelude.{
  ℕ, zero, suc, ◌+◌, ◌-◌, ◌*◌, ◌/◌, ◌%◌, Bool, true, false, not, List, [], ◌∷◌, ◌==◌, ◌||◌, ltb,
  leb, Option, none, some, if◌then◌else◌,
}

abbrev pub pgsize : ℕ
pgsize = 4096

-- `PHYSTOP` of kernel/memlayout.h: KERNBASE and 128 MB.
abbrev pub phystop : ℕ
phystop = 0x80000000 + 128 * 1024 * 1024

-- `kmem`, with the byte that last filled each page.
pub record Kmem : Type 0 where
  pub freelist : List ℕ
  pub fill : ℕ → ℕ

abbrev pub fill_page : (ℕ → ℕ) → ℕ → ℕ → ℕ → ℕ
fill_page f pa c a = if a == pa then c else f a

module _ (end' : ℕ) where
  -- The test of `kfree` on its argument.
  abbrev pub is_page : ℕ → Bool
  is_page pa = not (not (pa % pgsize == 0) || (ltb pa end' || leb phystop pa))

  -- `kfree`: `none` is the panic.
  unfoldable pub kfree : ℕ → Kmem → Option Kmem
  kfree pa k =
      if is_page pa
      then some (record k { freelist = pa ∷ k.freelist; fill = fill_page k.fill pa 1 })
      else none

  -- `PGROUNDUP`
  abbrev pub pg_round_up : ℕ → ℕ
  pg_round_up sz = (sz + pgsize - 1) / pgsize * pgsize

  -- The loop of `freerange`, with `n` pages that fit from `p` on.
  unfoldable pub free_pages : ℕ → ℕ → Kmem → Option Kmem
  unfolding kfree
  free_pages zero p k = some k
  free_pages (suc n) p k = elim (kfree p k) [ none ↦ none | some k' ↦ free_pages n (p + pgsize) k' ]

  -- `for(; p + PGSIZE <= pa_end; p += PGSIZE)` takes as many rounds as whole pages fit.
  unfoldable pub freerange : ℕ → ℕ → Kmem → Option Kmem
  unfolding free_pages
  freerange pa_start pa_end k =
      let p = pg_round_up pa_start in free_pages ((pa_end - p) / pgsize) p k

  unfoldable pub kinit : Kmem → Option Kmem
  unfolding freerange
  kinit k = freerange end' phystop k

-- `kalloc`: the page, or the null pointer; `l` is the free list.
abbrev pub alloc_from : Kmem → List ℕ → Kmem × ℕ
alloc_from k [] = (k, 0)
alloc_from k (pa ∷ rest) = (record k { freelist = rest; fill = fill_page k.fill pa 5 }, pa)

unfoldable pub kalloc : Kmem → Kmem × ℕ
kalloc k = alloc_from k k.freelist
