-- ===== src/Vm/Map.antt =====
-- A round of `mappages` adds one page to the map, or changes nothing of it.
use cs202_lab.Prelude.{
  ℕ, ◌/◌, ◌<◌, ◌≡◌, ◌⊎◌, inl, inr, refl, Bool, true, false, [], ◌==◌, leb, Option, none, some,
  if◌then◌else◌, arith, ap, sym, ◌∙◌, Bool-cases,
}
use cs202_lab.Vm.{Vm, px, is_valid, pte_of, maxva}
use cs202_lab.Vm.Table.{walk, walk_down, put_entry, map_one}
use cs202_lab.Vm.Tree.{Place, IsTree}
use cs202_lab.Vm.Lookup.{slot, found, indices, px-lt, look-slot, slot-place}
use cs202_lab.Vm.Walk.{walk_down-Walked}
use cs202_lab.Vm.Entry.{entry_of, entry_of-set, set-IsTree}

-- A page table after a round of `mappages`: still a tree, with this map.
pub record Mapped (root : ℕ) (v : Vm) (map' : ℕ → ℕ) : Type 0 where
  pub place : ℕ → Place
  pub tree : IsTree place root v
  pub entries : (va : ℕ) → va < maxva → entry_of root v va ≡ map' va

abbrev pub with_page : ℕ → ℕ → (ℕ → ℕ) → ℕ → ℕ
with_page a x map' va = if va / 4096 == a / 4096 then x else map' va

-- What `map_one` does, by its result.
abbrev pub OneMapped : ℕ → ℕ → ℕ → (ℕ → ℕ) → Option (Bool × Vm) → Type 0
OneMapped root a x map' none = is_valid (map' a) ≡ true
OneMapped root a x map' (some (false, v)) = Mapped root v map'
OneMapped root a x map' (some (true, v)) =
    (is_valid (map' a) ≡ false) × Mapped root v (with_page a x map')

put_entry-OneMapped :
    (root a pa perm : ℕ) (map' : ℕ → ℕ) (v : Vm) (o : Option ℕ)
    → a < maxva
    → Mapped root v map'
    → ((o ≡ none) ⊎ ((q : ℕ) × (o ≡ some q) × (slot 2 v root a ≡ some q)))
    → OneMapped root a (pte_of pa perm) map' (put_entry pa perm o v)
put_entry-OneMapped root a pa perm map' v none h m ends = m
put_entry-OneMapped root a pa perm map' v (some q) h m (inl e) = cc
put_entry-OneMapped root a pa perm map' v (some q) h m (inr (q', e, s)) =
    let s' : slot 2 v root a ≡ some q = s ∙ sym e in
    let now : v.ptes q ≡ map' a =
      sym (look-slot 2 v root a ∙ ap (λ o. found o v) s') ∙ m.entries a h in
    let (t, at, spot) = slot-place m.tree 2 root a [] m.tree.top s' in
    elim (Bool-cases (is_valid (v.ptes q))) [
      | inl ok ↦ rw ok (sym (ap is_valid now) ∙ ok)
      | inr blank ↦ rw blank (
        sym (ap is_valid now) ∙ blank,
        record {
          place = m.place;
          tree = rw spot (
              set-IsTree m.place root v m.tree t (px 0 a) (indices 2 a []) at (px-lt 0 a)
                (pte_of pa perm));
          entries = λ va lt.
              entry_of-set m.tree a va (pte_of pa perm) h lt s'
              ∙ ap (λ y. if va / 4096 == a / 4096 then pte_of pa perm else y) (m.entries va lt);
        },
      )
    ]

pub walk-below :
    (root a : ℕ) (alloc : Bool) (v : Vm)
    → a < maxva
    → walk root a alloc v ≡ some (walk_down alloc 2 root a v)
unfolding walk
walk-below root a alloc v h = let low : leb maxva a ≡ false = ground arith in rw low refl

abbrev after_walk : ℕ → ℕ → Option (Option ℕ × Vm) → Option (Bool × Vm)
after_walk pa perm none = none
after_walk pa perm (some (q, v)) = put_entry pa perm q v

map_one-step :
    (root a pa perm : ℕ) (v : Vm)
    → a < maxva
    → map_one root a pa perm v
      ≡ put_entry pa perm (walk_down true 2 root a v).0 (walk_down true 2 root a v).1
unfolding map_one
map_one-step root a pa perm v h = ap (λ o. after_walk pa perm o) (walk-below root a true v h)

pub map_one-OneMapped :
    (root a pa perm : ℕ) (map' : ℕ → ℕ) (v : Vm)
    → a < maxva
    → Mapped root v map'
    → OneMapped root a (pte_of pa perm) map' (map_one root a pa perm v)
map_one-OneMapped root a pa perm map' v h m =
    let w = walk_down-Walked 2 m.place root v m.tree root a [] m.tree.top in
    let out = walk_down true 2 root a v in
    rw (map_one-step root a pa perm v h) (
      put_entry-OneMapped root a pa perm map' out.1 out.0 h
        (record {
          place = w.after;
          tree = w.tree;
          entries = λ va lt. w.same 2 root va [] m.tree.top ∙ m.entries va lt;
        })
        w.ends)
