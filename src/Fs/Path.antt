-- ===== src/Fs/Path.antt =====
-- `skipelem` takes the first element off a path.
use mathlib.Core.List.{append-nil}
use cs202_lab.Prelude.{
  ℕ, ◌≡◌, ◌⊎◌, inl, inr, refl, Bool, true, false, not, List, [], ◌∷◌, ◌++◌, none, some, all_of,
  take, ap, sym, ◌∙◌, Bool-cases,
}
use cs202_lab.Fs.{dirsiz, is_slash, drop_slashes, element, after_element, skip_from, skipelem}

abbrev pub relative : List ℕ → Bool
relative [] = true
relative (c ∷ path) = not (is_slash c)

pub record Skipped (path : List ℕ) : Type 0 where
  pub slashes : List ℕ
  pub split : path ≡ slashes ++ drop_slashes path
  pub only : all_of is_slash slashes ≡ true
  pub start : relative (drop_slashes path) ≡ true

drop_slashes_lem : (path : List ℕ) → Skipped path
unfolding drop_slashes
drop_slashes_lem [] = record { slashes = []; split = refl; only = refl; start = refl }
drop_slashes_lem (c ∷ path) = elim (Bool-cases (is_slash c)) [
  | inl slash ↦
      let ih = drop_slashes_lem path in
      record {
        slashes = c ∷ ih.slashes;
        split = rw (slash, drop_slashes) (ap (λ p. c ∷ p) ih.split);
        only = rw slash ih.only;
        start = rw (slash, drop_slashes) ih.start;
      }
  | inr other ↦ record {
    slashes = [];
    split = rw (other, drop_slashes) refl;
    only = refl;
    start = rw (other, drop_slashes) (rw other refl);
  }
]

element-split : (path : List ℕ) → path ≡ element path ++ after_element path
unfolding element after_element
element-split [] = refl
element-split (c ∷ path) = elim (Bool-cases (is_slash c)) [
  | inl slash ↦ rw (slash, element, after_element) refl
  | inr other ↦ rw (other, element, after_element) (ap (λ p. c ∷ p) (element-split path))
]

element-plain : (path : List ℕ) → all_of (λ c. not (is_slash c)) (element path) ≡ true
unfolding element
element-plain [] = refl
element-plain (c ∷ path) = elim (Bool-cases (is_slash c)) [
  | inl slash ↦ rw (slash, element) refl
  | inr other ↦ rw (other, element) (rw other (element-plain path))
]

element-cons : (c : ℕ) (path : List ℕ) → is_slash c ≡ false → element (c ∷ path) ≡ c ∷ element path
unfolding element
element-cons c path h = rw (h, element) refl

not-true : (b : Bool) → not b ≡ true → b ≡ false
not-true true h = sym h
not-true false h = refl

-- What `skipelem` does to a path that has an element: the path is slashes, the element, slashes, and
-- the rest that is returned.
pub record Taken (path rest name : List ℕ) : Type 0 where
  pub before : List ℕ
  pub first : ℕ
  pub letters : List ℕ
  pub between : List ℕ
  pub split : path ≡ before ++ ((first ∷ letters) ++ (between ++ rest))
  pub lead : all_of is_slash before ≡ true
  pub gap : all_of is_slash between ≡ true
  pub plain : all_of (λ c. not (is_slash c)) (first ∷ letters) ≡ true
  pub cut : name ≡ take dirsiz (first ∷ letters)
  pub start : relative rest ≡ true

-- `skipelem` returns the null pointer exactly on a path of slashes alone. Else it splits the path:
-- slashes, the first element, slashes, and a rest without a leading slash, which it returns, with
-- the element, cut at DIRSIZ bytes, as the name.
pub skipelem_lem :
    (path : List ℕ)
    → ((skipelem path ≡ none) × (all_of is_slash path ≡ true))
      ⊎ ((rest : List ℕ) × (name : List ℕ) × (skipelem path ≡ some (rest, name))
          × Taken path rest name)
unfolding skipelem
skipelem_lem path = from (drop_slashes path) refl
  where
    front : Skipped path
    front = drop_slashes_lem path

    from :
        (p : List ℕ)
        → drop_slashes path ≡ p
        → ((skip_from (drop_slashes path) ≡ none) × (all_of is_slash path ≡ true))
          ⊎ ((rest : List ℕ) × (name : List ℕ) × (skip_from (drop_slashes path) ≡ some (rest, name))
              × Taken path rest name)
    from [] e = inl (
      rw e refl,
      ap (all_of is_slash) (front.split ∙ ap (λ q. front.slashes ++ q) e ∙ append-nil front.slashes)
          ∙ front.only,
    )
    from (c ∷ p) e =
        let behind = drop_slashes_lem (after_element (c ∷ p)) in
        let plain : is_slash c ≡ false =
          not-true (is_slash c) (ap relative (sym e) ∙ front.start) in
        let head = element-cons c p plain in
        inr (
          drop_slashes (after_element (c ∷ p)),
          take dirsiz (element (c ∷ p)),
          rw e refl,
          record {
            before = front.slashes;
            first = c;
            letters = element p;
            between = behind.slashes;
            split =
                front.split
                ∙ ap (λ q. front.slashes ++ q)
                    (e
                      ∙ element-split (c ∷ p)
                      ∙ ap (λ q. q ++ after_element (c ∷ p)) head
                      ∙ ap (λ q. (c ∷ element p) ++ q) behind.split);
            lead = front.only;
            gap = behind.only;
            plain = ap (all_of (λ x. not (is_slash x))) (sym head) ∙ element-plain (c ∷ p);
            cut = ap (take dirsiz) head;
            start = behind.start;
          },
        )
