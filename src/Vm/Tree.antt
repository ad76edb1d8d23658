-- ===== src/Vm/Tree.antt =====
-- The tables of an address space form a tree: each has a place, no free page has one, and a new table
-- takes a place of its own.
use cs202_lab.Prelude.{
  ℕ, suc, ◌+◌, ◌*◌, ◌%◌, ◌^◌, ◌<◌, ◌≡◌, ◌≢◌, ◌⊎◌, inl, inr, refl, Bool, true, false, List, [], ◌∷◌,
  ◌==◌, ◌&&◌, ltb, if◌then◌else◌, arith, ap, sym, ◌∙◌, Bool-cases, all_of,
}
use cs202_lab.Kalloc.{Kmem}
use cs202_lab.Kalloc.Pages.{holds, distinct}
use cs202_lab.Vm.{Vm, pa2pte, pte2pa, is_valid, in_page, clear_page, set_pte}

-- Where a table stands: its level, and the indices that lead to it, the last first.
pub data Place : Type 0 where
  unused : Place
  table : ℕ → List ℕ → Place

-- A page that a table entry can point to.
abbrev pub good_page : ℕ → Bool
good_page pa = (pa % 4096 == 0) && (ltb 0 pa && ltb pa (2 ^ 56))

pub record IsTree (place : ℕ → Place) (root : ℕ) (v : Vm) : Type 0 where
  pub top : place root ≡ Place.table 2 []
  pub below :
      (l t i : ℕ) (path : List ℕ)
      → place t ≡ Place.table (suc l) path
      → i < 512
      → is_valid (v.ptes (t + 8 * i)) ≡ true
      → place (pte2pa (v.ptes (t + 8 * i))) ≡ Place.table l (i ∷ path)
  pub aligned : (t l : ℕ) (path : List ℕ) → place t ≡ Place.table l path → t % 4096 ≡ 0
  pub free : (t : ℕ) → holds t v.kmem.freelist ≡ true → place t ≡ Place.unused
  pub pages : all_of good_page v.kmem.freelist ≡ true
  pub once : distinct v.kmem.freelist ≡ true

-- A fresh table at `c` below the entry at index `i` of `t`.
abbrev pub place_at : (ℕ → Place) → ℕ → Place → ℕ → Place
place_at place c where' t = if t == c then where' else place t

pub pte2pa-pa2pte : (c : ℕ) → good_page c ≡ true → pte2pa (pa2pte c + 1) ≡ c
pte2pa-pa2pte c g = ground arith

-- Entries of aligned tables do not overlap.
pub entry_ne :
    (t s i j : ℕ)
    → t % 4096 ≡ 0
    → s % 4096 ≡ 0
    → i < 512
    → j < 512
    → t ≢ s
    → (t + 8 * i == s + 8 * j) ≡ false
entry_ne t s i j a b h k ne = elim (Bool-cases (t + 8 * i == s + 8 * j)) [
  | inl e ↦ absurd (ne (ground arith))
  | inr e ↦ e
]

outside :
    (t c i : ℕ) → t % 4096 ≡ 0 → c % 4096 ≡ 0 → i < 512 → t ≢ c → in_page c (t + 8 * i) ≡ false
outside t c i a b h ne = elim (Bool-cases (in_page c (t + 8 * i))) [
  | inl e ↦ absurd (ne (ground arith))
  | inr e ↦ e
]

inside : (c i : ℕ) → i < 512 → in_page c (c + 8 * i) ≡ true
inside c i h = ground arith

-- A new table at `c`, hung below the entry of index `i` of the table `t`.
abbrev pub grown : ℕ → ℕ → Kmem → Vm → Vm
grown q c k v = set_pte q (pa2pte c + 1) (clear_page c (record v { kmem = k }))

holds-all : (t : ℕ) (l : List ℕ) → all_of good_page l ≡ true → holds t l ≡ true → good_page t ≡ true
holds-all t [] a h = cc
holds-all t (x ∷ l) a h = elim (Bool-cases (x == t)) [
  | inl e ↦ let same : x ≡ t = ground arith in ap good_page (sym same) ∙ ground arith
  | inr e ↦ holds-all t l (ground arith) (ground arith)
]

pub entry_eq :
    (t s i j : ℕ)
    → t % 4096 ≡ 0
    → s % 4096 ≡ 0
    → i < 512
    → j < 512
    → s + 8 * j ≡ t + 8 * i
    → (t ≡ s) × (i ≡ j)
entry_eq t s i j a b h k e = omega arith

holds_ne : (s c : ℕ) (l : List ℕ) → holds s l ≡ true → holds c l ≡ false → (s == c) ≡ false
holds_ne s c l h k = elim (Bool-cases (s == c)) [
  | inl e ↦ let same : s ≡ c = ground arith in let w = ap (λ x. holds x l) same in cc
  | inr e ↦ e
]

module _ (place : ℕ → Place) (root : ℕ) (v : Vm) (tree : IsTree place root v) (l t i : ℕ)
    (path : List ℕ) (at : place t ≡ Place.table (suc l) path) (index : i < 512) (c : ℕ) (k : Kmem)
    (given : v.kmem.freelist ≡ c ∷ k.freelist) where
  pub good : good_page c ≡ true
  good = let p = sym (ap (all_of good_page) given) ∙ tree.pages in ground arith

  fresh : place c ≡ Place.unused
  fresh = tree.free c (ap (holds c) given ∙ ground arith)

  used_ne : (s m : ℕ) (p : List ℕ) → place s ≡ Place.table m p → s ≢ c
  used_ne s m p e same =
      let f : Place.table m p ≡ Place.unused = sym e ∙ ap place same ∙ fresh in cc

  aligned_t : t % 4096 ≡ 0
  aligned_t = tree.aligned t (suc l) path at

  aligned_c : c % 4096 ≡ 0
  aligned_c = ground (arith, good)

  -- An entry of another table.
  pub grown-other :
      (s m j : ℕ) (p : List ℕ)
      → place s ≡ Place.table m p
      → j < 512
      → (s + 8 * j == t + 8 * i) ≡ false
      → (grown (t + 8 * i) c k v).ptes (s + 8 * j) ≡ v.ptes (s + 8 * j)
  grown-other s m j p e h ne =
      rw (ne, outside s c j (tree.aligned s m p e) aligned_c h (used_ne s m p e)) refl

  pub grown-here : (grown (t + 8 * i) c k v).ptes (t + 8 * i) ≡ pa2pte c + 1
  grown-here = ground arith

  pub grown-new : (j : ℕ) → j < 512 → (grown (t + 8 * i) c k v).ptes (c + 8 * j) ≡ 0
  grown-new j h =
      rw
        (
          entry_ne c t j i aligned_c aligned_t h index
              (λ (e : c ≡ t). used_ne t (suc l) path at (sym e)),
          inside c j h,
        )
        refl

  abbrev pub next_place : ℕ → Place
  next_place = place_at place c (Place.table l (i ∷ path))

  pub place_kept :
      (s m : ℕ) (p : List ℕ) → place s ≡ Place.table m p → next_place s ≡ Place.table m p
  place_kept s m p e = let ne = used_ne s m p e in ground arith

  pub place_new : next_place c ≡ Place.table l (i ∷ path)
  place_new = ground arith

  -- A used place is the new one or an old one.
  place_cases :
      (s m : ℕ) (p : List ℕ)
      → next_place s ≡ Place.table m p
      → ((s ≡ c) × (m ≡ l) × (p ≡ i ∷ path)) ⊎ ((s ≢ c) × (place s ≡ Place.table m p))
  place_cases s m p e = elim (Bool-cases (s == c)) [
    | inl same ↦ inl (ground arith, ground arith, ground arith)
    | inr other ↦ inr ((λ (q : s ≡ c). ground arith), ground arith)
  ]

  grown-below :
      (m s j : ℕ) (p : List ℕ)
      → next_place s ≡ Place.table (suc m) p
      → j < 512
      → is_valid ((grown (t + 8 * i) c k v).ptes (s + 8 * j)) ≡ true
      → next_place (pte2pa ((grown (t + 8 * i) c k v).ptes (s + 8 * j))) ≡ Place.table m (j ∷ p)
  grown-below m s j p e h valid = elim (place_cases s (suc m) p e) [
    | inl (same, _, _) ↦
        let zero_entry =
          ap (λ x. (grown (t + 8 * i) c k v).ptes (x + 8 * j)) same ∙ grown-new j h in
        absurd (ground arith)
    | inr (ne, old) ↦ elim (Bool-cases (s + 8 * j == t + 8 * i)) [
      | inl hit ↦
          let (same, idx) =
            entry_eq t s i j aligned_t (tree.aligned s (suc m) p old) index h (ground arith) in
          let here : Place.table (suc m) p ≡ Place.table (suc l) path =
            sym old ∙ ap place (sym same) ∙ at in
          let entry : (grown (t + 8 * i) c k v).ptes (s + 8 * j) ≡ pa2pte c + 1 = rw hit refl in
          ap (λ x. next_place (pte2pa x)) entry
          ∙ ap next_place (pte2pa-pa2pte c good)
          ∙ place_new
          ∙ ground arith
      | inr miss ↦
          let kept = grown-other s (suc m) j p old h miss in
          ap (λ x. next_place (pte2pa x)) kept
          ∙ place_kept (pte2pa (v.ptes (s + 8 * j))) m (j ∷ p)
              (tree.below m s j p old h (sym (ap is_valid kept) ∙ valid))
    ]
  ]

  distinct_rest : (distinct k.freelist ≡ true) × (holds c k.freelist ≡ false)
  distinct_rest = let d = sym (ap distinct given) ∙ tree.once in (ground arith, ground arith)

  pub grown-IsTree : IsTree next_place root (grown (t + 8 * i) c k v)
  grown-IsTree = record {
    top = place_kept root 2 [] tree.top;
    below = grown-below;
    aligned = λ s m p e. elim (place_cases s m p e) [
      | inl (same, _, _) ↦ ap (λ x. x % 4096) same ∙ aligned_c
      | inr (_, old) ↦ tree.aligned s m p old
    ];
    free = λ s h.
        let ne = holds_ne s c k.freelist h distinct_rest.1 in
        let old = tree.free s (ap (holds s) given ∙ ground arith) in rw ne old;
    pages = let p = sym (ap (all_of good_page) given) ∙ tree.pages in ground arith;
    once = distinct_rest.0;
  }
