-- ===== src/Fs/Truncate.antt =====
-- `itrunc` frees the blocks of a file, and no others.
use cs202_lab.Prelude.{
  ℕ, zero, suc, ◌+◌, ◌≡◌, inl, inr, refl, sym, ap, ap₂, ◌∙◌, Bool, true, false, not, List, [], ◌∷◌,
  ◌++◌, ◌==◌, ◌&&◌, ◌||◌, Option, none, some, if◌then◌else◌, get_or, take, replicate, any_of, arith,
  Bool-cases,
}
use cs202_lab.Fs.Blocks.{Disk, ndirect, nindirect, is_used, mark_free, bfree}
use cs202_lab.Fs.Bits.{mark_free_lem}
use cs202_lab.Fs.Bmap.{
  Content, and_then, free_if, free_direct, free_words, free_indirect, truncated, itrunc,
}

-- The words of the indirect block `b` from `j`, and the blocks that the file holds, with 0 for a hole.
unfoldable pub words_of : ℕ → ℕ → ℕ → Disk → List ℕ
words_of zero j b d = []
words_of (suc n) j b d = d.words b j ∷ words_of n (suc j) b d

abbrev pub indirect_of : ℕ → Disk → List ℕ
indirect_of b d = if b == 0 then [] else words_of nindirect 0 b d ++ (b ∷ [])

abbrev pub blocks_of : Content → Disk → List ℕ
blocks_of ip d = take ndirect ip.addrs ++ indirect_of (get_or ip.addrs ndirect 0) d

abbrev pub holds_block : ℕ → List ℕ → Bool
holds_block c bs = not (c == 0) && any_of (λ b. b == c) bs

module _ (bmapstart : ℕ) where
  -- Every block of the list is in use, and none is there twice.
  abbrev pub can_free : List ℕ → Disk → Bool
  can_free [] d = true
  can_free (b ∷ bs) d =
      (b == 0 || (is_used bmapstart b d && not (holds_block b bs))) && can_free bs d

  -- What it is to free a list of blocks, seen at block `c`.
  abbrev Freed : List ℕ → ℕ → Disk → Option Disk → Type 0
  Freed bs c d none = can_free bs d ≡ false
  Freed bs c d (some d') =
      (is_used bmapstart c d' ≡ (is_used bmapstart c d && not (holds_block c bs)))
      × (d'.words ≡ d.words)

  can_free-bfree :
      (b : ℕ) (bs : List ℕ) (d : Disk)
      → holds_block b bs ≡ false
      → can_free bs (mark_free bmapstart b d) ≡ can_free bs d
  can_free-bfree b [] d h = refl
  can_free-bfree b (x ∷ bs) d h = elim (Bool-cases (x == 0)) [
    | inl z ↦ rw z (can_free-bfree b bs d (ground arith))
    | inr z ↦
        let other : (x == b) ≡ false = ground arith in
        let mark : is_used bmapstart x (mark_free bmapstart b d) ≡ is_used bmapstart x d =
          mark_free_lem bmapstart b x d ∙ rw other refl in
        rw (z, mark, can_free-bfree b bs d (ground arith)) refl
  ]

  skip-Freed :
      (b c : ℕ) (bs : List ℕ) (d : Disk) (o : Option Disk)
      → (b == 0) ≡ true
      → Freed bs c d o
      → Freed (b ∷ bs) c d o
  skip-Freed b c bs d none z h = rw z h
  skip-Freed b c bs d (some d') z (marks, words) = (marks ∙ rw same refl, words)
    where
      same : holds_block c bs ≡ holds_block c (b ∷ bs)
      same = elim (Bool-cases (c == 0)) [
        | inl e ↦ rw e refl
        | inr e ↦ let other : (b == c) ≡ false = ground arith in rw (e, other) refl
      ]

  used-Freed :
      (b c : ℕ) (bs : List ℕ) (d : Disk) (o : Option Disk)
      → (b == 0) ≡ false
      → is_used bmapstart b d ≡ true
      → Freed bs c (mark_free bmapstart b d) o
      → Freed (b ∷ bs) c d o
  used-Freed b c bs d none z u h = elim (Bool-cases (holds_block b bs)) [
    | inl e ↦ let twice : any_of (λ x. x == b) bs ≡ true = ground arith in rw (z, u, twice) refl
    | inr e ↦
        let once : any_of (λ x. x == b) bs ≡ false = ground arith in
        rw (z, u, once) (sym (can_free-bfree b bs d e) ∙ h)
  ]
  used-Freed b c bs d (some d') z u (marks, words) = elim (Bool-cases (c == b)) [
    | inl e ↦
        let cleared : is_used bmapstart c (mark_free bmapstart b d) ≡ false =
          mark_free_lem bmapstart b c d ∙ rw e refl in
        let zero_c : (c == 0) ≡ false = ground arith in
        let swap : (b == c) ≡ true = ground arith in
        (marks ∙ rw (cleared, zero_c, swap) (ground arith), words)
    | inr e ↦
        let kept : is_used bmapstart c (mark_free bmapstart b d) ≡ is_used bmapstart c d =
          mark_free_lem bmapstart b c d ∙ rw e refl in
        let swap : (b == c) ≡ false = ground arith in (marks ∙ rw (kept, swap) refl, words)
  ]

  -- One block more at the front.
  free_if-Freed :
      (b c : ℕ) (bs : List ℕ) (d : Disk) (more : Disk → Option Disk)
      → ((d' : Disk) → d'.words ≡ d.words → Freed bs c d' (more d'))
      → Freed (b ∷ bs) c d (and_then more (free_if bmapstart b d))
  unfolding bfree
  free_if-Freed b c bs d more k = elim (Bool-cases (b == 0)) [
    | inl z ↦
        let step : and_then more (free_if bmapstart b d) ≡ more d = rw z refl in
        rw step (skip-Freed b c bs d (more d) z (k d refl))
    | inr z ↦ elim (Bool-cases (is_used bmapstart b d)) [
      | inl u ↦
          let step : and_then more (free_if bmapstart b d) ≡ more (mark_free bmapstart b d) =
            rw (z, u) refl in
          rw step (
            used-Freed b c bs d (more (mark_free bmapstart b d)) z u
              (k (mark_free bmapstart b d) refl))
      | inr u ↦
          let step : and_then more (free_if bmapstart b d) ≡ none = rw (z, u) refl in
          rw step (rw (z, u) refl)
    ]
  ]

  and_then_assoc :
      (f g : Disk → Option Disk) (o : Option Disk)
      → and_then g (and_then f o) ≡ and_then (λ d. and_then g (f d)) o
  and_then_assoc f g none = refl
  and_then_assoc f g (some d) = refl

  free_direct-Freed :
      (bs tail : List ℕ) (c : ℕ) (d : Disk) (more : Disk → Option Disk)
      → ((d' : Disk) → d'.words ≡ d.words → Freed tail c d' (more d'))
      → Freed (bs ++ tail) c d (and_then more (free_direct bmapstart bs d))
  unfolding free_direct
  free_direct-Freed [] tail c d more k = k d refl
  free_direct-Freed (b ∷ bs) tail c d more k =
      rw (and_then_assoc (free_direct bmapstart bs) more (free_if bmapstart b d)) (
        free_if-Freed b c (bs ++ tail) d (λ d'. and_then more (free_direct bmapstart bs d'))
          (λ d' w. free_direct-Freed bs tail c d' more (λ d'' w'. k d'' (w' ∙ w))))

  words_of-same :
      (n j b : ℕ) (d d' : Disk) → d'.words ≡ d.words → words_of n j b d' ≡ words_of n j b d
  unfolding words_of
  words_of-same zero j b d d' w = refl
  words_of-same (suc n) j b d d' w =
      ap₂ (λ x xs. x ∷ xs) (ap (λ f. f b j) w) (words_of-same n (suc j) b d d' w)

  free_words-Freed :
      (n j b : ℕ) (tail : List ℕ) (c : ℕ) (d : Disk) (more : Disk → Option Disk)
      → ((d' : Disk) → d'.words ≡ d.words → Freed tail c d' (more d'))
      → Freed (words_of n j b d ++ tail) c d (and_then more (free_words bmapstart n j b d))
  unfolding free_words words_of
  free_words-Freed zero j b tail c d more k = k d refl
  free_words-Freed (suc n) j b tail c d more k =
      rw
        (and_then_assoc (free_words bmapstart n (suc j) b) more (free_if bmapstart (d.words b j) d))
        (free_if-Freed (d.words b j) c (words_of n (suc j) b d ++ tail) d
          (λ d'. and_then more (free_words bmapstart n (suc j) b d'))
          (λ d' w.
            rw (sym (words_of-same n (suc j) b d d' w))
              (free_words-Freed n (suc j) b tail c d' more (λ d'' w'. k d'' (w' ∙ w)))))

  nothing-Freed : (c : ℕ) (d : Disk) → Freed [] c d (some d)
  nothing-Freed c d = (ground arith, refl)

  bfree-Freed : (b c : ℕ) (d : Disk) → (b == 0) ≡ false → Freed (b ∷ []) c d (bfree bmapstart b d)
  bfree-Freed b c d z =
      let step : and_then some (free_if bmapstart b d) ≡ bfree bmapstart b d =
        rw z (and_then_some (bfree bmapstart b d)) in
      rw (sym step) (free_if-Freed b c [] d some (λ d' w. nothing-Freed c d'))
    where
      and_then_some : (o : Option Disk) → and_then some o ≡ o
      and_then_some none = refl
      and_then_some (some d') = refl

  free_indirect-Freed :
      (b c : ℕ) (d : Disk) → Freed (indirect_of b d) c d (free_indirect bmapstart b d)
  unfolding free_indirect
  free_indirect-Freed b c d = elim (Bool-cases (b == 0)) [
    | inl z ↦ rw z (nothing-Freed c d)
    | inr z ↦ rw z (
        free_words-Freed nindirect 0 b (b ∷ []) c d (bfree bmapstart b)
          (λ d' w. bfree-Freed b c d' z))
  ]

  -- What `itrunc` does, seen at block `c`.
  abbrev pub Truncated : Content → ℕ → Disk → Option (Content × Disk) → Type 0
  Truncated ip c d none = can_free (blocks_of ip d) d ≡ false
  Truncated ip c d (some (ip', d')) =
      (is_used bmapstart c d' ≡ (is_used bmapstart c d && not (holds_block c (blocks_of ip d))))
      × (ip' ≡ record { addrs = replicate (ndirect + 1) 0; size = 0 })

  truncated-Truncated :
      (ip : Content) (c : ℕ) (d : Disk) (o : Option Disk)
      → Freed (blocks_of ip d) c d o
      → Truncated ip c d (truncated bmapstart o)
  truncated-Truncated ip c d none h = h
  truncated-Truncated ip c d (some d') h = (h.0, refl)

  -- `itrunc` panics, apart from its `log_write`, only if some block of the file is not in use or the
  -- file holds it twice. Else it frees the blocks that the file held, its indirect block among them, and
  -- no others, and leaves an empty file.
  pub itrunc_lem : (ip : Content) (c : ℕ) (d : Disk) → Truncated ip c d (itrunc bmapstart ip d)
  unfolding itrunc
  itrunc_lem ip c d =
      let b = get_or ip.addrs ndirect 0 in
      truncated-Truncated ip c d _ (
        free_direct-Freed (take ndirect ip.addrs) (indirect_of b d) c d (free_indirect bmapstart b)
          (λ d' w. rw (sym (indirect_same b d d' w)) (free_indirect-Freed b c d')))
    where
      indirect_same :
          (b : ℕ) (d d' : Disk) → d'.words ≡ d.words → indirect_of b d' ≡ indirect_of b d
      indirect_same b d d' w =
          ap (λ ws. if b == 0 then [] else ws ++ (b ∷ [])) (words_of-same nindirect 0 b d d' w)
