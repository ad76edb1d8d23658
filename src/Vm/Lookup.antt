-- ===== src/Vm/Lookup.antt =====
-- What a page table maps: the entry of each virtual address, and what `walk` does to it.
use cs202_lab.Prelude.{
  ℕ, zero, suc, ◌+◌, ◌*◌, ◌<◌, ◌≡◌, inl, inr, refl, Bool, true, false, List, ◌∷◌, ◌==◌, Option,
  none, some, if◌then◌else◌, arith, ap, sym, ◌∙◌, Bool-cases,
}
use cs202_lab.Kalloc.{Kmem, kalloc}
use cs202_lab.Vm.{Vm, px, pa2pte, pte2pa, is_valid}
use cs202_lab.Vm.Table.{hang, descend, next_table, walk_down}
use cs202_lab.Vm.Tree.{Place, IsTree, grown, grown-other, grown-new, entry_eq, pte2pa-pa2pte, good}

-- The entry for an address, below a table of the level; 0 where there is none.
unfoldable pub look : ℕ → Vm → ℕ → ℕ → ℕ
look zero v t va = v.ptes (t + 8 * px 0 va)
look (suc l) v t va =
    let e = v.ptes (t + 8 * px (suc l) va) in
    let more = look l v (pte2pa e) va in if is_valid e then more else 0

-- The address of that entry, where all tables above it exist.
unfoldable pub slot : ℕ → Vm → ℕ → ℕ → Option ℕ
slot zero v t va = some (t + 8 * px 0 va)
slot (suc l) v t va =
    let e = v.ptes (t + 8 * px (suc l) va) in
    let more = slot l v (pte2pa e) va in if is_valid e then more else none

abbrev pub found : Option ℕ → Vm → ℕ
found none v = 0
found (some q) v = v.ptes q

-- The indices that lead to the entry, behind those of `path`.
abbrev pub indices : ℕ → ℕ → List ℕ → List ℕ
indices zero va path = path
indices (suc l) va path = indices l va (px (suc l) va ∷ path)

pub px-lt : (l va : ℕ) → px l va < 512
unfolding px
px-lt l va = omega arith

pub look-slot : (l : ℕ) (v : Vm) (t va : ℕ) → look l v t va ≡ found (slot l v t va) v
unfolding look slot
look-slot zero v t va = refl
look-slot (suc l) v t va = elim (Bool-cases (is_valid (v.ptes (t + 8 * px (suc l) va)))) [
  | inl e ↦ rw e (look-slot l v (pte2pa (v.ptes (t + 8 * px (suc l) va))) va)
  | inr e ↦ rw e refl
]

pub next_table-valid :
    (alloc : Bool) (q : ℕ) (v : Vm)
    → is_valid (v.ptes q) ≡ true
    → next_table alloc q v ≡ (some (pte2pa (v.ptes q)), v)
unfolding next_table
next_table-valid alloc q v e = rw e refl

pub next_table-invalid :
    (alloc : Bool) (q : ℕ) (v : Vm)
    → is_valid (v.ptes q) ≡ false
    → next_table alloc q v ≡ (if alloc then hang q (kalloc v.kmem) v else (none, v))
unfolding next_table
next_table-invalid alloc q v e = rw e refl

-- `walk` without `alloc` changes nothing and finds that entry.
pub walk_down-slot : (l : ℕ) (v : Vm) (t va : ℕ) → walk_down false l t va v ≡ (slot l v t va, v)
unfolding walk_down slot
walk_down-slot zero v t va = refl
walk_down-slot (suc l) v t va =
    let q = t + 8 * px (suc l) va in
    elim (Bool-cases (is_valid (v.ptes q))) [
      | inl e ↦
          ap (descend (λ s. walk_down false l s va)) (next_table-valid false q v e)
          ∙ walk_down-slot l v (pte2pa (v.ptes q)) va
          ∙ rw e refl
      | inr e ↦
          ap (descend (λ s. walk_down false l s va)) (next_table-invalid false q v e) ∙ rw e refl
    ]

-- The entry stands in a table of level 0, at the place that the indices give.
pub slot-place :
    {place : ℕ → Place} {root : ℕ} {v : Vm} (tree : IsTree place root v) (l t va : ℕ)
    (path : List ℕ) {q : ℕ}
    → place t ≡ Place.table l path
    → slot l v t va ≡ some q
    → (s : ℕ) × (place s ≡ Place.table 0 (indices l va path)) × (q ≡ s + 8 * px 0 va)
unfolding slot
slot-place tree zero t va path at e = (t, at, ground arith)
slot-place {v} tree (suc l) t va path at e =
    let pte = v.ptes (t + 8 * px (suc l) va) in
    elim (Bool-cases (is_valid pte)) [
      | inl h ↦
          slot-place tree l (pte2pa pte) va (px (suc l) va ∷ path)
            (tree.below l t (px (suc l) va) path at (px-lt (suc l) va) h) (rw h at e)
      | inr h ↦ absurd (ground arith)
    ]

module _ (place : ℕ → Place) (root : ℕ) (v : Vm) (tree : IsTree place root v) (l t i : ℕ)
    (path : List ℕ) (at : place t ≡ Place.table (suc l) path) (index : i < 512) (c : ℕ) (k : Kmem)
    (given : v.kmem.freelist ≡ c ∷ k.freelist) where
  look-new : (m va : ℕ) → look m (grown (t + 8 * i) c k v) c va ≡ 0
  unfolding look
  look-new zero va =
      grown-new place root v tree l t i path at index c k given (px 0 va) (px-lt 0 va)
  look-new (suc m) va =
      let e =
        grown-new place root v tree l t i path at index c k given (px (suc m) va)
          (px-lt (suc m) va) in
      let bad : is_valid ((grown (t + 8 * i) c k v).ptes (c + 8 * px (suc m) va)) ≡ false =
        ap is_valid e in
      rw bad refl

  -- A new table below an entry that was not valid maps nothing new.
  pub look-grown :
      (m s va : ℕ) (p : List ℕ)
      → is_valid (v.ptes (t + 8 * i)) ≡ false
      → place s ≡ Place.table m p
      → look m (grown (t + 8 * i) c k v) s va ≡ look m v s va
  unfolding look
  look-grown zero s va p blank e = elim (Bool-cases (s + 8 * px 0 va == t + 8 * i)) [
    | inl hit ↦
        let (same, _) =
          entry_eq t s i (px 0 va) (tree.aligned t (suc l) path at) (tree.aligned s 0 p e) index
            (px-lt 0 va) (ground arith) in
        let clash : Place.table 0 p ≡ Place.table (suc l) path = sym e ∙ ap place (sym same) ∙ at in
        cc
    | inr miss ↦
        grown-other place root v tree l t i path at index c k given s 0 (px 0 va) p e (px-lt 0 va)
          miss
  ]
  look-grown (suc m) s va p blank e = elim (Bool-cases (s + 8 * px (suc m) va == t + 8 * i)) [
    | inl hit ↦
        let spot : s + 8 * px (suc m) va ≡ t + 8 * i = ground arith in
        let here : (grown (t + 8 * i) c k v).ptes (s + 8 * px (suc m) va) ≡ pa2pte c + 1 =
          rw hit refl in
        let back = pte2pa-pa2pte c (good place root v tree l t i path at index c k given) in
        let was : is_valid (v.ptes (s + 8 * px (suc m) va)) ≡ false = rw spot blank in
        let now : is_valid ((grown (t + 8 * i) c k v).ptes (s + 8 * px (suc m) va)) ≡ true =
          ap is_valid here ∙ ground arith in
        rw (was, now)
          (ap (λ x. look m (grown (t + 8 * i) c k v) (pte2pa x) va) here
            ∙ ap (λ x. look m (grown (t + 8 * i) c k v) x va) back
            ∙ look-new m va)
    | inr miss ↦
        let kept =
          grown-other place root v tree l t i path at index c k given s (suc m) (px (suc m) va) p e
            (px-lt (suc m) va) miss in
        elim (Bool-cases (is_valid (v.ptes (s + 8 * px (suc m) va)))) [
          | inl h ↦
              rw (ap is_valid kept ∙ h, h)
                (ap (λ x. look m (grown (t + 8 * i) c k v) (pte2pa x) va) kept
                  ∙ look-grown m (pte2pa (v.ptes (s + 8 * px (suc m) va))) va (px (suc m) va ∷ p)
                      blank (tree.below m s (px (suc m) va) p e (px-lt (suc m) va) h))
          | inr h ↦ rw (ap is_valid kept ∙ h, h) refl
        ]
  ]
