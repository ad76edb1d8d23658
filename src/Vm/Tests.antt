-- ===== src/Vm/Tests.antt =====
-- Runs on small page tables, and the theorems at them.
use cs202_lab.Prelude.{
  ℕ, zero, suc, ◌+◌, ◌%◌, ◌≡◌, ◌≢◌, ◌<◌, refl, Bool, true, false, [], ◌∷◌, ◌==◌, Option, none, some,
  if◌then◌else◌, arith,
}
use cs202_lab.Kalloc.{kalloc}
use cs202_lab.Vm.{Vm, px}
use cs202_lab.Vm.Table.{walkaddr, mappages, uvmunmap}
use cs202_lab.Vm.Copy.{copyin}
use cs202_lab.Vm.Tree.{Place, IsTree}
use cs202_lab.Vm.Lookup.{look}
use cs202_lab.Vm.Entry.{entry_of}
use cs202_lab.Vm.Map.{Mapped}
use cs202_lab.Vm.Range.{RangeMapped, with_range, mappages_lem}
use cs202_lab.Vm.Unmap.{Unmapped, uvmunmap_lem}
use cs202_lab.Vm.CopyIn.{Apart, CopiedIn, copyin_lem}

abbrev root : ℕ
root = 0x1000

-- Two free pages, and an empty table.
abbrev fresh : Vm
fresh = record {
  ptes = λ a. 0;
  bytes = λ a. a % 256;
  kmem = record { freelist = 0x80002000 ∷ 0x80003000 ∷ []; fill = λ a. 0 };
}

-- Address 0x5000 is a user page at 0x9000.
abbrev one_page : Vm
one_page = record fresh {
  ptes = λ a.
      if a == 0x1000
      then 0x801
      else if a == 0x2000
      then 0xC01
      else if a == 0x3028
      then 0x241F
      else 0;
}

abbrev only_root : ℕ → Place
only_root t = if t == root then Place.table 2 [] else Place.unused

fresh-IsTree : IsTree only_root root fresh
fresh-IsTree = record {
  top = refl;
  below = λ l t i path p lt e. cc;
  aligned = λ t l path p. ground arith;
  free = λ t h. ground arith;
  pages = refl;
  once = refl;
}

blank : (va : ℕ) → entry_of root fresh va ≡ 0
unfolding look
blank va = refl

fresh-Mapped : Mapped root fresh (λ va. 0)
fresh-Mapped = record { place = only_root; tree = fresh-IsTree; entries = λ va lt. blank va }

walkaddr_run : walkaddr root 0x5000 one_page ≡ some (0x9000, one_page)
unfolding walkaddr px
walkaddr_run = refl

-- The state after mapping the page 0x5000.
abbrev state_of : Option (Bool × Vm) → Vm
state_of none = fresh
state_of (some (b, v)) = v

one_mapped :
    RangeMapped root 1 0x5000 0x90000000 6 (λ va. 0) (mappages root 0x5000 4096 0x90000000 6 fresh)
one_mapped =
    mappages_lem root 0x5000 4096 0x90000000 6 (λ va. 0) fresh (omega arith) (omega arith)
      fresh-Mapped

after : Vm
after = state_of (mappages root 0x5000 4096 0x90000000 6 fresh)

mappages_run : mappages root 0x5000 4096 0x90000000 6 fresh ≡ some (true, after)
unfolding mappages px after kalloc
mappages_run = refl

after-Mapped : Mapped root after (with_range 1 0x5000 0x90000000 6 (λ va. 0))
after-Mapped = rw mappages_run at one_mapped

uvmunmap_lem_example :
    Unmapped root 1 0x5000
      (with_range 1 0x5000 0x90000000 6 (λ va. 0))
      (uvmunmap 0x80001000 root 0x5000 1 false after)
uvmunmap_lem_example =
    uvmunmap_lem 0x80001000 root 0x5000 1 (with_range 1 0x5000 0x90000000 6 (λ va. 0)) after refl
      (omega arith) after-Mapped

far : (j : ℕ) → j < 2 → 0x9001 ≢ 0x7000 + j
far j lt e = omega (arith, e)

further : (j : ℕ) → j < 2 → 0x9002 ≢ 0x7000 + j
further j lt e = omega (arith, e)

apart : Apart root 0x7000 0x5001 2 one_page
unfolding look px
apart zero j lt lt' e = absurd (far j lt' e)
apart (suc zero) j lt lt' e = absurd (further j lt' e)
apart (suc (suc i)) j lt lt' e = absurd (omega arith)

copyin_lem_example : CopiedIn root 0x7000 0x5001 2 one_page (copyin root 0x7000 0x5001 2 one_page)
copyin_lem_example = copyin_lem root 0x7000 0x5001 2 one_page apart
