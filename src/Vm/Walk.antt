-- ===== src/Vm/Walk.antt =====
-- `walk` with `alloc` keeps the tree and every mapping.
use cs202_lab.Prelude.{
  ℕ, zero, suc, ◌+◌, ◌*◌, ◌<◌, ◌≡◌, ◌⊎◌, inl, inr, refl, true, false, List, [], ◌∷◌, ◌==◌, Option,
  none, some, arith, ap, ◌∙◌, Bool-cases,
}
use cs202_lab.Kalloc.{Kmem, kalloc, alloc_from}
use cs202_lab.Vm.{Vm, px, pte2pa, is_valid}
use cs202_lab.Vm.Table.{hang, walk_down}
use cs202_lab.Vm.Tree.{
  Place, good_page, IsTree, grown, grown-other, grown-here, next_place, place_kept, place_new,
  grown-IsTree, pte2pa-pa2pte, good,
}
use cs202_lab.Vm.Lookup.{look, slot, px-lt, next_table-valid, next_table-invalid, look-grown}

-- What a walk that allocates has done, started at the table `t` of level `l`.
pub record Walked (place : ℕ → Place) (root l t va : ℕ) (v : Vm) (out : Option ℕ × Vm)
    : Type 0 where
  pub after : ℕ → Place
  pub tree : IsTree after root out.1
  pub keeps : (s m : ℕ) (p : List ℕ) → place s ≡ Place.table m p → after s ≡ Place.table m p
  pub entries :
      (s m j : ℕ) (p : List ℕ)
      → place s ≡ Place.table m p
      → j < 512
      → is_valid (v.ptes (s + 8 * j)) ≡ true
      → out.1.ptes (s + 8 * j) ≡ v.ptes (s + 8 * j)
  pub same :
      (m s va' : ℕ) (p : List ℕ) → place s ≡ Place.table m p → look m out.1 s va' ≡ look m v s va'
  pub ends : (out.0 ≡ none) ⊎ ((q : ℕ) × (out.0 ≡ some q) × (slot l out.1 t va ≡ some q))

kalloc-cases :
    (k : Kmem)
    → (kalloc k ≡ (k, 0))
      ⊎ ((c : ℕ) × (k' : Kmem) × (kalloc k ≡ (k', c)) × (k.freelist ≡ c ∷ k'.freelist))
unfolding kalloc
kalloc-cases k = from k.freelist refl
  where
    from :
        (l : List ℕ)
        → k.freelist ≡ l
        → (alloc_from k l ≡ (k, 0))
          ⊎ ((c : ℕ) × (k' : Kmem) × (alloc_from k l ≡ (k', c)) × (k.freelist ≡ c ∷ k'.freelist))
    from [] e = inl refl
    from (c ∷ l) e = inr (c, (alloc_from k (c ∷ l)).0, refl, e)

hang-page : (q c : ℕ) (k : Kmem) (v : Vm) → 0 < c → hang q (k, c) v ≡ (some c, grown q c k v)
hang-page q zero k v h = absurd (omega arith)
hang-page q (suc c) k v h = refl

Walked-none :
    {place : ℕ → Place} {root : ℕ} {v : Vm} (tree : IsTree place root v) (l t va : ℕ)
    → Walked place root l t va v (none, v)
Walked-none {place} tree l t va = record {
  after = place;
  tree = tree;
  keeps = λ s m p e. e;
  entries = λ s m j p e h ok. refl;
  same = λ m s va' p e. refl;
  ends = inl refl;
}

-- One level down through a valid entry.
Walked-valid :
    {place : ℕ → Place} {root : ℕ} {v : Vm} (l t va : ℕ) (path : List ℕ) (out : Option ℕ × Vm)
    → place t ≡ Place.table (suc l) path
    → is_valid (v.ptes (t + 8 * px (suc l) va)) ≡ true
    → Walked place root l (pte2pa (v.ptes (t + 8 * px (suc l) va))) va v out
    → Walked place root (suc l) t va v out
unfolding slot
Walked-valid l t va path out at ok w = record {
  after = w.after;
  tree = w.tree;
  keeps = w.keeps;
  entries = w.entries;
  same = w.same;
  ends = elim w.ends [
    | inl e ↦ inl e
    | inr (q, e, s) ↦
        let kept = w.entries t (suc l) (px (suc l) va) path at (px-lt (suc l) va) ok in
        inr (q, e, rw (kept, ok) s)
  ];
}

-- One level down through a new table.
Walked-grown :
    {place : ℕ → Place} {root : ℕ} {v : Vm} (tree : IsTree place root v) (l t va : ℕ)
    (path : List ℕ) (c : ℕ) (k : Kmem) (out : Option ℕ × Vm)
    (at : place t ≡ Place.table (suc l) path) (given : v.kmem.freelist ≡ c ∷ k.freelist)
    → is_valid (v.ptes (t + 8 * px (suc l) va)) ≡ false
    → Walked
        (next_place place root v tree l t (px (suc l) va) path at (px-lt (suc l) va) c k given)
        root
        l
        c
        va
        (grown (t + 8 * px (suc l) va) c k v)
        out
    → Walked place root (suc l) t va v out
unfolding slot
Walked-grown {place} {root} {v} tree l t va path c k out at given blank w = record {
  after = w.after;
  tree = w.tree;
  keeps = λ s m p e. w.keeps s m p (kept s m p e);
  entries = λ s m j p e h ok.
      let miss = elsewhere s j ok in
      let kept' =
        grown-other place root v tree l t i path at (px-lt (suc l) va) c k given s m j p e h miss in
      w.entries s m j p (kept s m p e) h (ap is_valid kept' ∙ ok) ∙ kept';
  same = λ m s va' p e.
      w.same m s va' p (kept s m p e)
      ∙ look-grown place root v tree l t i path at (px-lt (suc l) va) c k given m s va' p blank e;
  ends = elim w.ends [
    | inl e ↦ inl e
    | inr (q, e, s) ↦
        let here = grown-here place root v tree l t i path at (px-lt (suc l) va) c k given in
        let now =
          w.entries t (suc l) i path (kept t (suc l) path at) (px-lt (suc l) va)
            (ap is_valid here ∙ ground arith)
          ∙ here in
        let ok : is_valid (out.1.ptes (t + 8 * i)) ≡ true = ap is_valid now ∙ ground arith in
        let back =
          pte2pa-pa2pte c (good place root v tree l t i path at (px-lt (suc l) va) c k given) in
        inr (
          q,
          e,
          rw ok (ap (λ x. slot l out.1 (pte2pa x) va) now ∙ ap (λ x. slot l out.1 x va) back ∙ s),
        )
  ];
}
  where
    i : ℕ
    i = px (suc l) va

    kept :
        (s m : ℕ) (p : List ℕ)
        → place s ≡ Place.table m p
        → next_place place root v tree l t i path at (px-lt (suc l) va) c k given s
          ≡ Place.table m p
    kept = place_kept place root v tree l t i path at (px-lt (suc l) va) c k given

    elsewhere : (s j : ℕ) → is_valid (v.ptes (s + 8 * j)) ≡ true → (s + 8 * j == t + 8 * i) ≡ false
    elsewhere s j ok = elim (Bool-cases (s + 8 * j == t + 8 * i)) [
      | inl e ↦
          let spot : s + 8 * j ≡ t + 8 * i = ground arith in
          let clash = ap (λ x. is_valid (v.ptes x)) spot in cc
      | inr e ↦ e
    ]

positive : (c : ℕ) → good_page c ≡ true → 0 < c
positive c g = ground arith

-- A walk that allocates keeps the tree, the valid entries of its tables, and every mapping. If it
-- does not run out of pages, its address has an entry from then on.
pub walk_down-Walked :
    (l : ℕ) (place : ℕ → Place) (root : ℕ) (v : Vm) (tree : IsTree place root v) (t va : ℕ)
    (path : List ℕ)
    → place t ≡ Place.table l path
    → Walked place root l t va v (walk_down true l t va v)
unfolding walk_down
walk_down-Walked zero place root v tree t va path at = record {
  after = place;
  tree = tree;
  keeps = λ s m p e. e;
  entries = λ s m j p e h ok. refl;
  same = λ m s va' p e. refl;
  ends = inr (t + 8 * px 0 va, refl, unfold slot in refl);
}
walk_down-Walked (suc l) place root v tree t va path at =
    let i = px (suc l) va in
    let q = t + 8 * i in
    elim (Bool-cases (is_valid (v.ptes q))) [
      | inl ok ↦ rw (next_table-valid true q v ok) (
          Walked-valid l t va path _ at ok (
            walk_down-Walked l place root v tree (pte2pa (v.ptes q)) va (i ∷ path)
              (tree.below l t i path at (px-lt (suc l) va) ok)))
      | inr blank ↦ rw (next_table-invalid true q v blank) (elim (kalloc-cases v.kmem) [
        | inl e ↦ rw e (Walked-none tree (suc l) t va)
        | inr (c, k, e, given) ↦
            let g = good place root v tree l t i path at (px-lt (suc l) va) c k given in
            let tree' = grown-IsTree place root v tree l t i path at (px-lt (suc l) va) c k given in
            rw (e, hang-page q c k v (positive c g))
              (Walked-grown tree l t va path c k _ at given blank (
                walk_down-Walked l
                  (next_place place root v tree l t i path at (px-lt (suc l) va) c k given) root
                  (grown q c k v) tree' c va (i ∷ path)
                  (place_new place root v tree l t i path at (px-lt (suc l) va) c k given)))
      ])
    ]
