-- ===== src/Vm.antt =====
-- Page tables of kernel/vm.c and kernel/riscv.h. Physical memory is seen in two ways: the 64-bit words
-- of the pages that are tables, by address, and the bytes of all others, as in Strings. A page is
-- used in one of the two ways at a time. `none` is a panic. No range of addresses wraps around 2^64.
pub mod Table
pub mod User
pub mod Copy
pub mod Tree
pub mod Lookup
pub mod Walk
pub mod Entry
pub mod Map
pub mod Range
pub mod Unmap
pub mod Phys
pub mod CopyIn
mod Tests
use Prim.Native.Nat.{bit_or}
use cs202_lab.Prelude.{
  ℕ, zero, suc, ◌+◌, ◌-◌, ◌*◌, ◌/◌, ◌%◌, ◌^◌, Bool, true, false, not, List, [], ◌∷◌, ◌==◌, ◌&&◌,
  ltb, leb, Option, none, some, if◌then◌else◌,
}
use cs202_lab.Kalloc.{Kmem}
use cs202_lab.Strings.{Memory}

-- The words of tables, the bytes of other pages, and the free list.
pub record Vm : Type 0 where
  pub ptes : ℕ → ℕ
  pub bytes : Memory
  pub kmem : Kmem

abbrev pub M : Type 0 → Type 0
M A = Vm → Option (A × Vm)

abbrev pub pure : {A : Type 0} → A → M A
pure a v = some (a, v)

infixl 5 ◌>>=◌ ◌>>◌
abbrev pub ◌>>=◌ : {A B : Type 0} → M A → (A → M B) → M B
◌>>=◌ m f v = elim (m v) [ none ↦ none | some (a, v') ↦ f a v' ]

abbrev pub ◌>>◌ : {A B : Type 0} → M A → M B → M B
m >> k = m >>= λ _. k

abbrev pub panic : {A : Type 0} → M A
panic v = none

-- `MAXVA`
abbrev pub maxva : ℕ
maxva = 2 ^ 38

-- `PGROUNDDOWN`
abbrev pub pg_round_down : ℕ → ℕ
pg_round_down a = a / 4096 * 4096

-- `PX`: the index into a table of the level.
unfoldable pub px : ℕ → ℕ → ℕ
px level va = va / 2 ^ (12 + 9 * level) % 512

-- `PA2PTE` and `PTE2PA`
abbrev pub pa2pte : ℕ → ℕ
pa2pte pa = pa / 2 ^ 12 * 2 ^ 10

abbrev pub pte2pa : ℕ → ℕ
pte2pa pte = pte / 2 ^ 10 * 2 ^ 12 % 2 ^ 64

-- `PTE_FLAGS`
abbrev pub pte_flags : ℕ → ℕ
pte_flags pte = pte % 2 ^ 10

-- A test of a flag bit: `PTE_V` is bit 0, `PTE_R` 1, `PTE_W` 2, `PTE_X` 3 and `PTE_U` 4.
abbrev pub has_flag : ℕ → ℕ → Bool
has_flag bit pte = pte / 2 ^ bit % 2 == 1

abbrev pub is_valid : ℕ → Bool
is_valid pte = pte % 2 == 1

-- `PA2PTE(pa) | perm | PTE_V`
abbrev pub pte_of : ℕ → ℕ → ℕ
pte_of pa perm = bit_or (bit_or (pa2pte pa) perm) 1

abbrev pub in_page : ℕ → ℕ → Bool
in_page pa a = leb pa a && ltb a (pa + 4096)

-- `memset(pa, 0, PGSIZE)`, in both views.
abbrev pub clear_page : ℕ → Vm → Vm
clear_page pa v = record v {
  ptes = λ a. if in_page pa a then 0 else v.ptes a;
  bytes = λ a. if in_page pa a then 0 else v.bytes a;
}

-- `*pte = x`
abbrev pub set_pte : ℕ → ℕ → Vm → Vm
set_pte q x v = record v { ptes = λ a. if a == q then x else v.ptes a }
