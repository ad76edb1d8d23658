-- ===== src/Vm/Unmap.antt =====
-- `walkaddr` reads the map of a page table, and `uvmunmap` takes a range out of it.
use cs202_lab.Prelude.{
  ℕ, zero, suc, ◌+◌, ◌*◌, ◌/◌, ◌%◌, ◌<◌, ◌≤◌, ◌≡◌, inl, inr, refl, Bool, true, false, not, [], ◌==◌,
  ◌&&◌, ◌||◌, leb, ltb, Option, none, some, if◌then◌else◌, arith, ap, sym, ◌∙◌, Bool-cases,
}
use cs202_lab.Vm.{Vm, px, pte_flags, is_valid, maxva}
use cs202_lab.Vm.Table.{
  walk, walkaddr, user_address, address_of, drop_entry, unmap_one, and_then, unmap_loop, uvmunmap,
}
use cs202_lab.Vm.Lookup.{slot, found, indices, px-lt, look-slot, slot-place, walk_down-slot}
use cs202_lab.Vm.Entry.{entry_of, entry_of-set, set-IsTree}
use cs202_lab.Vm.Map.{Mapped, with_page, walk-below}

pub walk-slot : (root a : ℕ) (v : Vm) → a < maxva → walk root a false v ≡ some (slot 2 v root a, v)
walk-slot root a v h = walk-below root a false v h ∙ ap some (walk_down-slot 2 v root a)

walkaddr-below :
    (root va : ℕ) (v : Vm) → va < maxva → walkaddr root va v ≡ address_of (walk root va false v)
unfolding walkaddr
walkaddr-below root va v h =
    let low : leb maxva va ≡ false = ground arith in rw (low, walkaddr) refl

-- `walkaddr` never panics and changes nothing: it gives the physical page of a valid user entry, and
-- 0 for every other address.
pub walkaddr_lem :
    (root va : ℕ) (v : Vm)
    → walkaddr root va v ≡ some (if ltb va maxva then user_address (entry_of root v va) else 0, v)
unfolding walkaddr
walkaddr_lem root va v = elim (Bool-cases (ltb va maxva)) [
  | inl h ↦
      walkaddr-below root va v (ground arith)
      ∙ ap address_of (walk-slot root va v (ground arith))
      ∙ slots (slot 2 v root va)
      ∙ ap (λ e. some (user_address e, v)) (sym (look-slot 2 v root va))
      ∙ rw h refl
  | inr h ↦ let high : leb maxva va ≡ true = ground arith in rw (h, high, walkaddr) refl
]
  where
    slots : (o : Option ℕ) → address_of (some (o, v)) ≡ some (user_address (found o v), v)
    slots none = refl
    slots (some q) = refl

-- The map without `n` pages from `a`.
abbrev pub without_range : ℕ → ℕ → (ℕ → ℕ) → ℕ → ℕ
without_range n a map' va =
    if leb (a / 4096) (va / 4096) && ltb (va / 4096) (a / 4096 + n) then 0 else map' va

-- An entry that `uvmunmap` refuses: not valid, or one for a table.
abbrev pub no_leaf : ℕ → Bool
no_leaf pte = not (is_valid pte) || (pte_flags pte == 1)

abbrev pub Unmapped : ℕ → ℕ → ℕ → (ℕ → ℕ) → Option (Unit {0} × Vm) → Type 0
Unmapped root n a map' none =
    (va : ℕ) × (a / 4096 ≤ va / 4096) × (va / 4096 < a / 4096 + n) × (no_leaf (map' va) ≡ true)
Unmapped root n a map' (some (_, v)) = Mapped root v (without_range n a map')

abbrev OneUnmapped : ℕ → ℕ → (ℕ → ℕ) → Option (Unit {0} × Vm) → Type 0
OneUnmapped root a map' none = no_leaf (map' a) ≡ true
OneUnmapped root a map' (some (_, v)) = Mapped root v (with_page a 0 map')

module _ (end' : ℕ) where
  drop_entry-OneUnmapped :
      (root a : ℕ) (map' : ℕ → ℕ) (v : Vm) (o : Option ℕ)
      → a < maxva
      → Mapped root v map'
      → slot 2 v root a ≡ o
      → OneUnmapped root a map' (drop_entry end' false o v)
  drop_entry-OneUnmapped root a map' v none h m e =
      let now : map' a ≡ 0 = sym (m.entries a h) ∙ look-slot 2 v root a ∙ ap (λ o. found o v) e in
      ap no_leaf now
  drop_entry-OneUnmapped root a map' v (some q) h m e =
      let now : v.ptes q ≡ map' a =
        sym (look-slot 2 v root a ∙ ap (λ o. found o v) e) ∙ m.entries a h in
      let (t, at, spot) = slot-place m.tree 2 root a [] m.tree.top e in
      elim (Bool-cases (is_valid (v.ptes q))) [
        | inr bad ↦ rw bad (sym (ap no_leaf now) ∙ ground arith)
        | inl ok ↦ elim (Bool-cases (pte_flags (v.ptes q) == 1)) [
          | inl bad ↦ rw (ok, bad) (sym (ap no_leaf now) ∙ ground arith)
          | inr leaf ↦
              rw (ok, leaf)
                (record {
                  place = m.place;
                  tree = rw spot (
                      set-IsTree m.place root v m.tree t (px 0 a) (indices 2 a []) at (px-lt 0 a)
                        0);
                  entries = λ va lt.
                      entry_of-set m.tree a va 0 h lt e
                      ∙ ap (λ y. if va / 4096 == a / 4096 then 0 else y) (m.entries va lt);
                })
        ]
      ]

  abbrev after_walk : Option (Option ℕ × Vm) → Option (Unit {0} × Vm)
  after_walk none = none
  after_walk (some (q, v)) = drop_entry end' false q v

  unmap_one-OneUnmapped :
      (root a : ℕ) (map' : ℕ → ℕ) (v : Vm)
      → a < maxva
      → Mapped root v map'
      → OneUnmapped root a map' (unmap_one end' root a false v)
  unfolding unmap_one
  unmap_one-OneUnmapped root a map' v h m =
      let step : unmap_one end' root a false v ≡ drop_entry end' false (slot 2 v root a) v =
        ap after_walk (walk-slot root a v h) in
      rw step (drop_entry-OneUnmapped root a map' v (slot 2 v root a) h m refl)

  shift-Unmapped :
      (root n a : ℕ) (map' : ℕ → ℕ) (o : Option (Unit {0} × Vm))
      → Unmapped root n (a + 4096) (with_page a 0 map') o
      → Unmapped root (suc n) a map' o
  shift-Unmapped root n a map' none (va, lo, hi, bad) =
      let other : (va / 4096 == a / 4096) ≡ false = ground arith in
      (va, omega arith, omega arith, rw other at bad)
  shift-Unmapped root n a map' (some (_, v)) m = record {
    place = m.place;
    tree = m.tree;
    entries = λ va lt. m.entries va lt ∙ ground arith;
  }

  and_then-Unmapped :
      (root n a : ℕ) (map' : ℕ → ℕ) (more : Vm → Option (Unit {0} × Vm))
      (o : Option (Unit {0} × Vm))
      → OneUnmapped root a map' o
      → ((v : Vm)
          → Mapped root v (with_page a 0 map')
          → Unmapped root n (a + 4096) (with_page a 0 map') (more v))
      → Unmapped root (suc n) a map' (and_then more o)
  and_then-Unmapped root n a map' more none h ih = (a, omega arith, omega arith, h)
  and_then-Unmapped root n a map' more (some (_, v)) h ih =
      shift-Unmapped root n a map' (more v) (ih v h)

  unmap_loop-Unmapped :
      (n root a : ℕ) (map' : ℕ → ℕ) (v : Vm)
      → a + n * 4096 ≤ maxva
      → Mapped root v map'
      → Unmapped root n a map' (unmap_loop end' n root a false v)
  unfolding unmap_loop
  unmap_loop-Unmapped zero root a map' v h m = record {
    place = m.place;
    tree = m.tree;
    entries = λ va lt. m.entries va lt ∙ ground arith;
  }
  unmap_loop-Unmapped (suc n) root a map' v h m =
      and_then-Unmapped root n a map' _ (unmap_one end' root a false v)
        (unmap_one-OneUnmapped root a map' v (omega arith) m)
        (λ v' m'. unmap_loop-Unmapped n root (a + 4096) _ v' (omega arith) m')

  -- `uvmunmap` of whole pages below MAXVA, without freeing them, takes exactly these pages out of the
  -- map. It panics only if one of them is not mapped, or its entry is for a table. The table stays a
  -- tree.
  pub uvmunmap_lem :
      (root a n : ℕ) (map' : ℕ → ℕ) (v : Vm)
      → a % 4096 ≡ 0
      → a + n * 4096 ≤ maxva
      → Mapped root v map'
      → Unmapped root n a map' (uvmunmap end' root a n false v)
  unfolding uvmunmap
  uvmunmap_lem root a n map' v al h m =
      let ok : (a % 4096 == 0) ≡ true = ground arith in
      rw ok (unmap_loop-Unmapped n root a map' v h m)
