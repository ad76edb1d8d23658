-- ===== src/Kalloc/Tests.antt =====
-- The theorems on the page allocator at a concrete range.
use cs202_lab.Prelude.{ℕ, refl, [], ◌∷◌, arith}
use cs202_lab.Kalloc.{Kmem, kalloc}
use cs202_lab.Kalloc.Pages.{IsValid, Handed, kalloc_lem}

-- The image of the kernel ends in its ninth page.
abbrev image_end : ℕ
image_end = 0x80008020

abbrev no_memory : Kmem
no_memory = record { freelist = []; fill = λ a. 0 }

abbrev two_pages : Kmem
two_pages = record { freelist = 0x8000a000 ∷ 0x80009000 ∷ []; fill = λ a. 1 }

two_pages-IsValid : IsValid image_end two_pages
two_pages-IsValid = record { pages = refl; once = refl }

kalloc_lem_example : Handed image_end (0x8000a000 ∷ 0x80009000 ∷ []) (kalloc two_pages)
kalloc_lem_example = kalloc_lem image_end two_pages (omega arith) two_pages-IsValid
