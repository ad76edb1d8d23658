-- ===== src/Vm/Range.antt =====
-- `mappages` updates the map of a page table on its range, and nothing else of it.
use cs202_lab.Prelude.{
  ℕ, zero, suc, ◌+◌, ◌-◌, ◌*◌, ◌/◌, ◌<◌, ◌≤◌, ◌≡◌, inl, inr, refl, Bool, true, false, ◌==◌, ◌&&◌,
  leb, ltb, Option, none, some, if◌then◌else◌, arith, ap, ◌∙◌, Bool-cases,
}
use cs202_lab.Vm.{Vm, pa2pte, is_valid, pte_of, maxva, pg_round_down}
use cs202_lab.Vm.Table.{map_one, map_loop, mappages}
use cs202_lab.Vm.Table.{go_on}
use cs202_lab.Vm.Map.{Mapped, OneMapped, with_page, map_one-OneMapped}

-- The map after `n` rounds from address `a`, with physical addresses from `pa`.
abbrev pub with_range : ℕ → ℕ → ℕ → ℕ → (ℕ → ℕ) → ℕ → ℕ
with_range n a pa perm map' va =
    if leb (a / 4096) (va / 4096) && ltb (va / 4096) (a / 4096 + n)
    then pte_of (pa + (va / 4096 - a / 4096) * 4096) perm
    else map' va

-- What `mappages` does in `n` rounds, by its result: `none` is a panic and `some (false, v)` is -1.
abbrev pub RangeMapped : ℕ → ℕ → ℕ → ℕ → ℕ → (ℕ → ℕ) → Option (Bool × Vm) → Type 0
RangeMapped root n a pa perm map' none =
    (va : ℕ) × (a / 4096 ≤ va / 4096) × (va / 4096 < a / 4096 + n) × (is_valid (map' va) ≡ true)
RangeMapped root n a pa perm map' (some (true, v)) = Mapped root v (with_range n a pa perm map')
RangeMapped root n a pa perm map' (some (false, v)) =
    (done : ℕ) × (done < n) × Mapped root v (with_range done a pa perm map')

Mapped-ext :
    (root : ℕ) (v : Vm) (f g : ℕ → ℕ) → ((va : ℕ) → f va ≡ g va) → Mapped root v f → Mapped root v g
Mapped-ext root v f g h m = record {
  place = m.place;
  tree = m.tree;
  entries = λ va lt. m.entries va lt ∙ h va;
}

one_range :
    (a pa perm : ℕ) (map' : ℕ → ℕ) (va : ℕ)
    → with_page a (pte_of pa perm) map' va ≡ with_range 1 a pa perm map' va
one_range a pa perm map' va = elim (Bool-cases (va / 4096 == a / 4096)) [
  | inl e ↦
      let same : pa + (va / 4096 - a / 4096) * 4096 ≡ pa = ground arith in
      ground (arith, ap pa2pte same)
  | inr e ↦ ground arith
]

more_range :
    (n a pa perm : ℕ) (map' : ℕ → ℕ) (va : ℕ)
    → with_range n (a + 4096) (pa + 4096) perm (with_page a (pte_of pa perm) map') va
      ≡ with_range (suc n) a pa perm map' va
more_range n a pa perm map' va = elim (Bool-cases (va / 4096 == a / 4096)) [
  | inl e ↦
      let same : pa + (va / 4096 - a / 4096) * 4096 ≡ pa = ground arith in
      ground (arith, ap pa2pte same)
  | inr e ↦ elim (Bool-cases (leb (a / 4096 + 1) (va / 4096))) [
    | inl le ↦
        let same : pa + 4096 + (va / 4096 - (a + 4096) / 4096) * 4096
            ≡ pa + (va / 4096 - a / 4096) * 4096 =
          ground arith in
        ground (arith, ap pa2pte same)
    | inr gt ↦ ground arith
  ]
]

one-RangeMapped :
    (root a pa perm : ℕ) (map' : ℕ → ℕ) (o : Option (Bool × Vm))
    → OneMapped root a (pte_of pa perm) map' o
    → RangeMapped root 1 a pa perm map' o
one-RangeMapped root a pa perm map' none h = (a, omega arith, omega arith, h)
one-RangeMapped root a pa perm map' (some (false, v)) h =
    (0, omega arith, Mapped-ext root v map' _ (λ va. ground arith) h)
one-RangeMapped root a pa perm map' (some (true, v)) h =
    Mapped-ext root v _ _ (one_range a pa perm map') h.1

shift-RangeMapped :
    (root n a pa perm : ℕ) (map' : ℕ → ℕ) (o : Option (Bool × Vm))
    → RangeMapped root n (a + 4096) (pa + 4096) perm (with_page a (pte_of pa perm) map') o
    → RangeMapped root (suc n) a pa perm map' o
shift-RangeMapped root n a pa perm map' none (va, lo, hi, ok) =
    let other : (va / 4096 == a / 4096) ≡ false = ground arith in
    (va, omega arith, omega arith, rw other at ok)
shift-RangeMapped root n a pa perm map' (some (false, v)) (done, lt, m) =
    (suc done, omega arith, Mapped-ext root v _ _ (more_range done a pa perm map') m)
shift-RangeMapped root n a pa perm map' (some (true, v)) m =
    Mapped-ext root v _ _ (more_range n a pa perm map') m

go_on-RangeMapped :
    (root n a pa perm : ℕ) (map' : ℕ → ℕ) (more : Vm → Option (Bool × Vm)) (o : Option (Bool × Vm))
    → OneMapped root a (pte_of pa perm) map' o
    → ((v : Vm)
        → Mapped root v (with_page a (pte_of pa perm) map')
        → RangeMapped root n
            (a + 4096)
            (pa + 4096)
            perm
            (with_page a (pte_of pa perm) map')
            (more v))
    → RangeMapped root (suc n) a pa perm map' (go_on more o)
go_on-RangeMapped root n a pa perm map' more none h ih = (a, omega arith, omega arith, h)
go_on-RangeMapped root n a pa perm map' more (some (false, v)) h ih =
    (0, omega arith, Mapped-ext root v map' _ (λ va. ground arith) h)
go_on-RangeMapped root n a pa perm map' more (some (true, v)) h ih =
    shift-RangeMapped root n a pa perm map' (more v) (ih v h.1)

map_loop-RangeMapped :
    (n root a pa perm : ℕ) (map' : ℕ → ℕ) (v : Vm)
    → a + n * 4096 < maxva
    → Mapped root v map'
    → RangeMapped root (suc n) a pa perm map' (map_loop n root a pa perm v)
unfolding map_loop
map_loop-RangeMapped zero root a pa perm map' v h m =
    one-RangeMapped root a pa perm map' (map_one root a pa perm v)
      (map_one-OneMapped root a pa perm map' v (omega arith) m)
map_loop-RangeMapped (suc n) root a pa perm map' v h m =
    go_on-RangeMapped root (suc n) a pa perm map' _ (map_one root a pa perm v)
      (map_one-OneMapped root a pa perm map' v (omega arith) m)
      (λ v' m'. map_loop-RangeMapped n root (a + 4096) (pa + 4096) perm _ v' (omega arith) m')

-- The pages that a range of addresses touches.
abbrev pub pages_of : ℕ → ℕ → ℕ
pages_of va size = (va + size - 1) / 4096 - va / 4096 + 1

mappages-step :
    (root va size pa perm : ℕ) (v : Vm)
    → 0 < size
    → mappages root va size pa perm v
      ≡ map_loop
          ((pg_round_down (va + size - 1) - pg_round_down va) / 4096)
          root
          (pg_round_down va)
          pa
          perm
          v
unfolding mappages
mappages-step root va zero pa perm v pos = absurd (omega arith)
mappages-step root va (suc size) pa perm v pos =
    let some_size : (suc size == 0) ≡ false = ground arith in rw some_size refl

pub mappages_lem :
    (root va size pa perm : ℕ) (map' : ℕ → ℕ) (v : Vm)
    → 0 < size
    → va + size ≤ maxva
    → Mapped root v map'
    → RangeMapped root
        (pages_of va size)
        (pg_round_down va)
        pa
        perm
        map'
        (mappages root va size pa perm v)
mappages_lem root va size pa perm map' v pos h m =
    let rounds : suc ((pg_round_down (va + size - 1) - pg_round_down va) / 4096)
        ≡ pages_of va size =
      omega arith in
    let run =
      map_loop-RangeMapped ((pg_round_down (va + size - 1) - pg_round_down va) / 4096) root
        (pg_round_down va) pa perm map' v (omega arith) m in
    let step = mappages-step root va size pa perm v pos in rw step (rw rounds at run)
