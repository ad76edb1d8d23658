-- ===== src/Vm/Entry.antt =====
-- A write of one entry changes the map of a page table in one page.
use cs202_lab.Prelude.{
  ℕ, zero, suc, ◌+◌, ◌*◌, ◌/◌, ◌<◌, ◌≤◌, ◌≡◌, inl, inr, refl, List, [], ◌∷◌, ◌==◌, none, some,
  if◌then◌else◌, arith, ap, sym, ◌∙◌, Bool-cases, Option-cases,
}
use cs202_lab.Vm.{Vm, px, pte2pa, is_valid, set_pte, maxva}
use cs202_lab.Vm.Tree.{Place, IsTree, entry_eq}
use cs202_lab.Vm.Lookup.{look, slot, found, indices, px-lt, look-slot, slot-place}

-- One entry of a table of level 0 is written.
module _ (place : ℕ → Place) (root : ℕ) (v : Vm) (tree : IsTree place root v) (t i : ℕ)
    (path : List ℕ) (at : place t ≡ Place.table 0 path) (index : i < 512) (x : ℕ) where
  upper :
      (s m j : ℕ) (p : List ℕ)
      → place s ≡ Place.table (suc m) p
      → j < 512
      → (set_pte (t + 8 * i) x v).ptes (s + 8 * j) ≡ v.ptes (s + 8 * j)
  upper s m j p e h = elim (Bool-cases (s + 8 * j == t + 8 * i)) [
    | inl hit ↦
        let (same, _) =
          entry_eq t s i j (tree.aligned t 0 path at) (tree.aligned s (suc m) p e) index h
            (ground arith) in
        let clash : Place.table (suc m) p ≡ Place.table 0 path = sym e ∙ ap place (sym same) ∙ at in
        cc
    | inr miss ↦ rw miss refl
  ]

  pub set-IsTree : IsTree place root (set_pte (t + 8 * i) x v)
  set-IsTree = record {
    top = tree.top;
    below = λ m s j p e h ok.
        let kept = upper s m j p e h in
        ap (λ y. place (pte2pa y)) kept ∙ tree.below m s j p e h (sym (ap is_valid kept) ∙ ok);
    aligned = tree.aligned;
    free = tree.free;
    pages = tree.pages;
    once = tree.once;
  }

  slot-set :
      (m s va : ℕ) (p : List ℕ)
      → place s ≡ Place.table m p
      → slot m (set_pte (t + 8 * i) x v) s va ≡ slot m v s va
  unfolding slot
  slot-set zero s va p e = refl
  slot-set (suc m) s va p e =
      let kept = upper s m (px (suc m) va) p e (px-lt (suc m) va) in
      elim (Bool-cases (is_valid (v.ptes (s + 8 * px (suc m) va)))) [
        | inl ok ↦
            rw (ap is_valid kept ∙ ok, ok)
              (ap (λ y. slot m (set_pte (t + 8 * i) x v) (pte2pa y) va) kept
                ∙ slot-set m (pte2pa (v.ptes (s + 8 * px (suc m) va))) va (px (suc m) va ∷ p)
                    (tree.below m s (px (suc m) va) p e (px-lt (suc m) va) ok))
        | inr blank ↦ rw (ap is_valid kept ∙ blank, blank) refl
      ]

slot-congr :
    (l : ℕ) (v : Vm) (t va va' : ℕ)
    → ((m : ℕ) → m ≤ l → px m va ≡ px m va')
    → slot l v t va ≡ slot l v t va'
unfolding slot
slot-congr zero v t va va' h = ap (λ j. some (t + 8 * j)) (h 0 (omega arith))
slot-congr (suc l) v t va va' h =
    ap
      (λ j.
        if is_valid (v.ptes (t + 8 * j)) then slot l v (pte2pa (v.ptes (t + 8 * j))) va else none)
      (h (suc l) (omega arith))
    ∙ ap (λ o. if is_valid (v.ptes (t + 8 * px (suc l) va')) then o else none)
        (slot-congr l v (pte2pa (v.ptes (t + 8 * px (suc l) va'))) va va'
          (λ m le. h m (omega arith)))

px_page : (va va' m : ℕ) → va / 4096 ≡ va' / 4096 → m ≤ 2 → px m va ≡ px m va'
unfolding px
px_page va va' zero h le = omega arith
px_page va va' (suc zero) h le = omega arith
px_page va va' (suc (suc zero)) h le = omega arith
px_page va va' (suc (suc (suc m))) h le = absurd (omega arith)

page_px :
    (va va' : ℕ)
    → va < maxva
    → va' < maxva
    → px 0 va ≡ px 0 va'
    → px 1 va ≡ px 1 va'
    → px 2 va ≡ px 2 va'
    → va / 4096 ≡ va' / 4096
unfolding px
page_px va va' h k a b c = omega arith

-- The map of a page table: the entry for an address.
abbrev pub entry_of : ℕ → Vm → ℕ → ℕ
entry_of root v va = look 2 v root va

-- Two addresses with one entry are in one page.
slot-page :
    {place : ℕ → Place} {root : ℕ} {v : Vm} (tree : IsTree place root v) (va va' : ℕ) {q : ℕ}
    → va < maxva
    → va' < maxva
    → slot 2 v root va ≡ some q
    → slot 2 v root va' ≡ some q
    → va / 4096 ≡ va' / 4096
slot-page {place} {root} tree va va' h h' e e' =
    let (s, at, p) = slot-place tree 2 root va [] tree.top e in
    let (s', at', p') = slot-place tree 2 root va' [] tree.top e' in
    let (same, idx) =
      entry_eq s s' (px 0 va) (px 0 va') (tree.aligned s 0 (indices 2 va []) at)
        (tree.aligned s' 0 (indices 2 va' []) at') (px-lt 0 va) (px-lt 0 va') (omega arith) in
    let paths : Place.table 0 (indices 2 va []) ≡ Place.table 0 (indices 2 va' []) =
      sym at ∙ ap place same ∙ at' in
    page_px va va' h h' idx (cc) (cc)

-- The write of an entry changes the map in its page alone.
pub entry_of-set :
    {place : ℕ → Place} {root : ℕ} {v : Vm} (tree : IsTree place root v) (va va' x : ℕ) {q : ℕ}
    → va < maxva
    → va' < maxva
    → slot 2 v root va ≡ some q
    → entry_of root (set_pte q x v) va'
      ≡ (if va' / 4096 == va / 4096 then x else entry_of root v va')
entry_of-set {place} {root} {v} tree va va' x {q} h h' e =
    let (s, at, spot) = slot-place tree 2 root va [] tree.top e in
    let w = set_pte (s + 8 * px 0 va) x v in
    let kept : slot 2 w root va' ≡ slot 2 v root va' =
      slot-set place root v tree s (px 0 va) (indices 2 va []) at (px-lt 0 va) x 2 root va' []
        tree.top in
    rw spot (
      look-slot 2 w root va'
      ∙ ap (λ o. found o w) kept
      ∙ elim (Bool-cases (va' / 4096 == va / 4096)) [
        | inl same ↦
            let pages : va' / 4096 ≡ va / 4096 = ground arith in
            let one : slot 2 v root va' ≡ some (s + 8 * px 0 va) =
              slot-congr 2 v root va' va (λ m le. px_page va' va m pages le) ∙ e ∙ ap some spot in
            rw (one, same) (ground arith)
        | inr other ↦
            rw (other, look-slot 2 v root va')
              (elim (Option-cases (slot 2 v root va')) [
                | inl z ↦ rw z refl
                | inr (q', z) ↦ elim (Bool-cases (q' == s + 8 * px 0 va)) [
                  | inl hit ↦
                      let one : q' ≡ q = ground arith in
                      let pages = slot-page tree va' va h' h (z ∙ ap some one) e in
                      absurd (ground arith)
                  | inr miss ↦ rw (z, miss) refl
                ]
              ])
      ])
