-- ===== src/Grep/Matches.antt =====
-- The matcher decides what a regular expression means.
use cs202_lab.Prelude.{
  ℕ, ◌≡◌, ◌↔◌, refl, Bool, true, false, List, [], ◌∷◌, ◌++◌, ◌==◌, ◌&&◌, if◌then◌else◌, arith,
  all_of, Bool-cases, inl, inr, ap, ◌⊎◌, ◌≢◌,
}
use cs202_lab.Grep.{
  fits, is_nil, starred, match_star, match_one, match_here, match_after, match_any, match,
}

-- `Matches re text`: the expression, without a leading '^', describes a beginning of the text.
pub data Matches : List ℕ → List ℕ → Type 0 where
  empty : (text : List ℕ) → Matches [] text
  -- '$' as the last character is the end of the text
  dollar : (c : ℕ) → c ≡ b'$' → Matches (c ∷ []) []
  -- a character, or any character for '.'
  one :
      (c x : ℕ) (re text : List ℕ)
      → starred re ≡ false
      → ((c == b'$') && is_nil re) ≡ false
      → fits c x ≡ true
      → Matches re text
      → Matches (c ∷ re) (x ∷ text)
  -- `c*`: any number of characters that fit `c`
  many :
      (c s : ℕ) (re pre post text : List ℕ)
      → s ≡ b'*'
      → text ≡ pre ++ post
      → all_of (fits c) pre ≡ true
      → Matches re post
      → Matches (c ∷ s ∷ re) text

-- `matchstar` finds a split of the text.
match_star_sound :
    (c : ℕ) (k : List ℕ → Bool) (text : List ℕ)
    → match_star c k text ≡ true
    → (pre : List ℕ) × (post : List ℕ) × (text ≡ pre ++ post)
      × (all_of (fits c) pre ≡ true)
      × (k post ≡ true)
unfolding match_star
match_star_sound c k [] h = ([], [], refl, refl, h)
match_star_sound c k (x ∷ text) h = elim (Bool-cases (k (x ∷ text))) [
  | inl e ↦ ([], x ∷ text, refl, refl, e)
  | inr e ↦
      let (pre, post, split, fit, hit) = match_star_sound c k text (ground arith) in
      (x ∷ pre, post, ap (λ t. x ∷ t) split, ground arith, hit)
]

match_star_complete :
    (c : ℕ) (k : List ℕ → Bool) (pre post : List ℕ)
    → all_of (fits c) pre ≡ true
    → k post ≡ true
    → match_star c k (pre ++ post) ≡ true
unfolding match_star
match_star_complete c k [] [] fit hit = hit
match_star_complete c k [] (x ∷ post) fit hit = rw hit refl
match_star_complete c k (x ∷ pre) post fit hit = ground (arith, match_star_complete c k pre post)

match_one_sound :
    (c : ℕ) (k : List ℕ → Bool) (text : List ℕ)
    → match_one c k text ≡ true
    → (x : ℕ) × (t : List ℕ) × (text ≡ x ∷ t) × (fits c x ≡ true) × (k t ≡ true)
match_one_sound c k [] h = cc
match_one_sound c k (x ∷ t) h = (x, t, refl, ground arith, ground arith)

-- The last two tests of `matchhere`, with `k` for `matchhere(re+1, ·)`.
tail_sound :
    (c : ℕ) (re text : List ℕ)
    → ((t : List ℕ) → match_here re t ≡ true → Matches re t)
    → starred re ≡ false
    → (if (c == b'$') && is_nil re then is_nil text else match_one c (match_here re) text) ≡ true
    → Matches (c ∷ re) text
tail_sound c re text ih plain h = elim (Bool-cases ((c == b'$') && is_nil re)) [
  | inl e ↦ at_end re text e (rw e at h)
  | inr e ↦
      let (x, t, split, fit, hit) = match_one_sound c (match_here re) text (rw e at h) in
      rw split (one c x re t plain e fit (ih t hit))
]
  where
    at_end :
        (re text : List ℕ)
        → ((c == b'$') && is_nil re) ≡ true
        → is_nil text ≡ true
        → Matches (c ∷ re) text
    at_end [] [] e n = dollar c (ground arith)
    at_end [] (x ∷ t) e n = absurd (ground arith)
    at_end (d ∷ re) t e n = absurd (ground arith)

sound : (re text : List ℕ) → match_here re text ≡ true → Matches re text
unfolding match_here match_after
sound [] text h = empty text
sound (c ∷ []) text h = tail_sound c [] text (λ t _. empty t) refl h
sound (c ∷ d ∷ re) text h = elim (Bool-cases (d == b'*')) [
  | inl e ↦
      let (pre, post, split, fit, hit) =
        match_star_sound c (match_here re) text (rw (e, match_here) at h) in
      many c d re pre post text (ground arith) split fit (sound re post hit)
  | inr e ↦ tail_sound c (d ∷ re) text (sound (d ∷ re)) e (rw (e, match_here) at h)
]

complete : {re text : List ℕ} → Matches re text → match_here re text ≡ true
unfolding match_here match_after
complete (empty text) = refl
complete (dollar c e) = rw e refl
complete (one c x re text plain line fit rest) =
    rw (plain, match_here, line) (rw fit (complete rest))
complete (many c s re pre post text e split fit rest) =
    rw (e, match_here, split) (match_star_complete c (match_here re) pre post fit (complete rest))

-- `matchhere` decides whether an expression describes a beginning of the text.
pub match_here_iff : (re text : List ℕ) → (match_here re text ≡ true) ↔ Matches re text
match_here_iff re text = (sound re text, λ m. complete m)

-- An expression without '^' describes some stretch of the text.
abbrev pub MatchesWithin : List ℕ → List ℕ → Type 0
MatchesWithin re text = (pre : List ℕ) × (post : List ℕ) × (text ≡ pre ++ post) × Matches re post

match_any_sound : (re text : List ℕ) → match_any re text ≡ true → MatchesWithin re text
unfolding match_any
match_any_sound re [] h = ([], [], refl, sound re [] h)
match_any_sound re (x ∷ text) h = elim (Bool-cases (match_here re (x ∷ text))) [
  | inl e ↦ ([], x ∷ text, refl, sound re (x ∷ text) e)
  | inr e ↦
      let (pre, post, split, m) = match_any_sound re text (ground arith) in
      (x ∷ pre, post, ap (λ t. x ∷ t) split, m)
]

match_any_complete : (re pre post : List ℕ) → Matches re post → match_any re (pre ++ post) ≡ true
unfolding match_any
match_any_complete re [] [] m = complete m
match_any_complete re [] (x ∷ post) m = rw (complete m) refl
match_any_complete re (x ∷ pre) post m = ground (arith, match_any_complete re pre post m)

-- What `match` decides: behind a leading '^' the text's beginning counts, else any stretch of it.
abbrev pub Meaning : List ℕ → List ℕ → Type 0
Meaning [] text = MatchesWithin [] text
Meaning (c ∷ re) text = ((c ≡ b'^') × Matches re text) ⊎ ((c ≢ b'^') × MatchesWithin (c ∷ re) text)

-- `match` returns 1 exactly when the expression matches the line: from its beginning on behind a
-- leading '^', and anywhere in it without one.
pub match_iff : (re text : List ℕ) → (match re text ≡ true) ↔ Meaning re text
unfolding match
match_iff [] text =
    (match_any_sound [] text, λ (pre, post, split, m). rw split (match_any_complete [] pre post m))
match_iff (c ∷ re) text = elim (Bool-cases (c == b'^')) [
  | inl e ↦ (
    λ h. inl (ground arith, sound re text (rw (e, match) at h)),
    λ d. elim d [
      | inl (_, m) ↦ rw (e, match) (complete m)
      | inr (ne, _) ↦ absurd (ne (ground arith))
    ],
  )
  | inr e ↦ (
    λ h. inr ((λ (q : c ≡ b'^'). ground arith), match_any_sound (c ∷ re) text (rw (e, match) at h)),
    λ d. elim d [
      | inl (q, _) ↦ absurd (ground arith)
      | inr (_, (pre, post, split, m)) ↦
          rw (e, match, split) (match_any_complete (c ∷ re) pre post m)
    ],
  )
]
