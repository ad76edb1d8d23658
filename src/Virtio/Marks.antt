-- ===== src/Virtio/Marks.antt =====
-- The free marks of the descriptors: a search for a free one, and marks that are taken and given back.
use cs202_lab.Prelude.{
  ℕ, zero, suc, ◌+◌, ◌<◌, ◌≤◌, ◌≡◌, ◌≢◌, ◌⊎◌, inl, inr, refl, sym, ap, ◌∙◌, Bool, true, false, List,
  [], ◌∷◌, ◌==◌, ◌||◌, leb, Option, none, some, if◌then◌else◌, arith, Bool-cases,
}
use cs202_lab.Virtio.{num, Driver, store, find_free, freed, free_desc, empty_desc}

-- A search of `n` descriptors from `i` on.
abbrev pub Found : ℕ → ℕ → (ℕ → Bool) → Option ℕ → Type 0
Found n i free none = (j : ℕ) → i ≤ j → j < i + n → free j ≡ false
Found n i free (some j) = (free j ≡ true) × (j < i + n)

pub find_free-Found : (n i : ℕ) (free : ℕ → Bool) → Found n i free (find_free n i free)
unfolding find_free
find_free-Found zero i free = λ j le lt. absurd (omega arith)
find_free-Found (suc n) i free = elim (Bool-cases (free i)) [
  | inl h ↦ rw h (h, omega arith)
  | inr h ↦ rw h (later h (find_free n (suc i) free) (find_free-Found n (suc i) free))
]
  where
    later : free i ≡ false → (o : Option ℕ) → Found n (suc i) free o → Found (suc n) i free o
    later free_here none f = λ j le lt. elim (Bool-cases (j == i)) [
      | inl e ↦ let e' : j ≡ i = ground arith in ap free e' ∙ free_here
      | inr ne ↦ f j (ground arith) (omega arith)
    ]
    later free_here (some j) (h, lt) = (h, omega arith)

-- One of three.
abbrev pub among : ℕ → ℕ → ℕ → ℕ → Bool
among i0 i1 i2 i = (i == i0) || (i == i1) || (i == i2)

pub store_three :
    {A : Type 0} (i0 i1 i2 i : ℕ) (x : A) (f : ℕ → A)
    → store i2 x (store i1 x (store i0 x f)) i ≡ (if among i0 i1 i2 i then x else f i)
store_three i0 i1 i2 i x f = elim (Bool-cases (i == i2)) [
  | inl h ↦ elim (Bool-cases (i == i1)) [
    | inl g ↦ elim (Bool-cases (i == i0)) [ inl k ↦ rw (h, g, k) refl | inr k ↦ rw (h, g, k) refl ]
    | inr g ↦ elim (Bool-cases (i == i0)) [ inl k ↦ rw (h, g, k) refl | inr k ↦ rw (h, g, k) refl ]
  ]
  | inr h ↦ elim (Bool-cases (i == i1)) [
    | inl g ↦ elim (Bool-cases (i == i0)) [ inl k ↦ rw (h, g, k) refl | inr k ↦ rw (h, g, k) refl ]
    | inr g ↦ elim (Bool-cases (i == i0)) [ inl k ↦ rw (h, g, k) refl | inr k ↦ rw (h, g, k) refl ]
  ]
]

-- Three different descriptors that are free.
pub record Trio (s : Driver) (a b c : ℕ) : Type 0 where
  pub low_a : a < num
  pub low_b : b < num
  pub low_c : c < num
  pub free_a : s.free a ≡ true
  pub free_b : s.free b ≡ true
  pub free_c : s.free c ≡ true
  pub ne_ab : a ≢ b
  pub ne_ac : a ≢ c
  pub ne_bc : b ≢ c

-- The driver once these are taken.
abbrev pub taken : ℕ → ℕ → ℕ → Driver → Driver
taken a b c s = record s { free = store c false (store b false (store a false s.free)) }

-- Nothing is taken, and only descriptors that are free have been cleared.
pub record IsBack (s s' : Driver) : Type 0 where
  pub marks : (i : ℕ) → s'.free i ≡ s.free i
  pub descs : (i : ℕ) → s.free i ≡ false → s'.desc i ≡ s.desc i
  pub busy : s'.busy ≡ s.busy
  pub info : s'.info ≡ s.info
  pub avail_idx : s'.avail_idx ≡ s.avail_idx

-- What `alloc3_desc` does: three free descriptors are taken, or there are no three.
abbrev pub Alloced : Driver → Option (Option (List ℕ) × Driver) → Type 0
Alloced s none = ⊥
Alloced s (some (none, s')) = ((a b c : ℕ) → ¬ (Trio s a b c)) × IsBack s s'
Alloced s (some (some idx, s')) =
    (a : ℕ) × (b : ℕ) × (c : ℕ) × Trio s a b c × (idx ≡ a ∷ b ∷ c ∷ []) × (s' ≡ taken a b c s)

-- `free_desc` of a descriptor in use.
pub free_desc_taken :
    (i : ℕ) (s : Driver) → i < num → s.free i ≡ false → free_desc i s ≡ some (freed i s)
unfolding free_desc
free_desc_taken i s lt h = let low : leb num i ≡ false = ground arith in rw (low, h) refl

pub stays-IsBack : (s : Driver) → IsBack s s
stays-IsBack s = record {
  marks = λ i. refl;
  descs = λ i h. refl;
  busy = refl;
  info = refl;
  avail_idx = refl;
}

-- What is still free was so before.
pub still_free :
    (i j : ℕ) (free : ℕ → Bool) → store i false free j ≡ true → (i ≢ j) × (free j ≡ true)
still_free i j free h = elim (Bool-cases (j == i)) [
  | inl e ↦ let z = rw e at h in absurd (ground arith)
  | inr ne ↦ ((λ e. ground arith), rw ne at h)
]

-- What is not free any more has been taken, or was not free.
pub gone : (i j : ℕ) (free : ℕ → Bool) → store i false free j ≡ false → free j ≡ true → j ≡ i
gone i j free h g = elim (Bool-cases (j == i)) [
  | inl e ↦ ground arith
  | inr ne ↦ let z = rw ne at h in absurd (ground arith)
]

-- A descriptor that was taken is given back.
pub given_back :
    (i j : ℕ) (free free' : ℕ → Bool)
    → free i ≡ true
    → ((j ≡ i) ⊎ (free' j ≡ free j))
    → store i true free' j ≡ free j
given_back i j free free' h (inl e) =
    rw e (let self : (i == i) ≡ true = ground arith in rw self (sym h))
given_back i j free free' h (inr e) = elim (Bool-cases (j == i)) [
  | inl z ↦ let at : j ≡ i = ground arith in rw z (sym h ∙ sym (ap free at))
  | inr z ↦ rw z e
]

pub store_cases : {A : Type 0} (i j : ℕ) (x : A) (f : ℕ → A) → (j ≡ i) ⊎ (store i x f j ≡ f j)
store_cases i j x f = elim (Bool-cases (j == i)) [
  | inl e ↦ inl (ground arith)
  | inr e ↦ inr (rw e refl)
]

pub store_ne : {A : Type 0} (i j : ℕ) (x : A) (f : ℕ → A) → j ≢ i → store i x f j ≡ f j
store_ne i j x f ne = let other : (j == i) ≡ false = ground arith in rw other refl

pub store_self : {A : Type 0} (i : ℕ) (x : A) (f : ℕ → A) → store i x f i ≡ x
store_self i x f = let self : (i == i) ≡ true = ground arith in rw self refl

abbrev pub after : ℕ → Driver → Driver
after i s = record s { free = store i false s.free }

pub only_two :
    (a b i : ℕ) (free : ℕ → Bool)
    → store b false (store a false free) i ≡ false
    → free i ≡ true
    → (i ≡ a) ⊎ (i ≡ b)
only_two a b i free h g = elim (Bool-cases (i == b)) [
  | inl e ↦ inr (ground arith)
  | inr e ↦ inl (gone a i free (rw e at h) g)
]

pub two-IsBack :
    (a b : ℕ) (s : Driver)
    → s.free a ≡ true
    → s.free b ≡ true
    → IsBack s (freed b (freed a (after b (after a s))))
two-IsBack a b s fa fb = record {
  marks = λ i. elim (Bool-cases (i == b)) [
    | inl e ↦ let at : i ≡ b = ground arith in rw e (sym fb ∙ sym (ap s.free at))
    | inr e ↦ elim (Bool-cases (i == a)) [
      | inl z ↦ let at : i ≡ a = ground arith in rw (e, z) (sym fa ∙ sym (ap s.free at))
      | inr z ↦ rw (e, z) refl
    ]
  ];
  descs = λ i g.
      store_ne b i empty_desc (store a empty_desc s.desc) (λ e. kept (ap s.free e ∙ fb) g)
      ∙ store_ne a i empty_desc s.desc (λ e. kept (ap s.free e ∙ fa) g);
  busy = refl;
  info = refl;
  avail_idx = refl;
}
  where
    kept : {x : Bool} → x ≡ true → x ≡ false → ⊥
    kept h g = ground arith
