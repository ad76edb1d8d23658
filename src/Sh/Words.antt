-- ===== src/Sh/Words.antt =====
-- Tokens: what `gettoken` gives, and how much of the line it takes.
use cs202_lab.Prelude.{
  ℕ, suc, ◌≤◌, ◌<◌, ◌≡◌, ◌≢◌, inl, inr, refl, Bool, true, false, [], ◌∷◌, ◌==◌, if◌then◌else◌,
  length, arith, Bool-cases,
}
use cs202_lab.Sh.{Text, one_of, whitespace}
use cs202_lab.Sh.Token.{
  Token, skip_white, is_plain, word, after_word, greater, token_at, gettoken, next_in, peek,
}

-- A property of both branches.
pub if_intro :
    {A : Type 0} (P : A → Type 0) (b : Bool) {x y : A}
    → (b ≡ true → P x)
    → (b ≡ false → P y)
    → P (if b then x else y)
if_intro P true f g = f refl
if_intro P false f g = g refl

abbrev pub IsPlain : Text → Type 0
IsPlain [] = Unit
IsPlain (c ∷ ts) = (is_plain c ≡ true) × IsPlain ts

-- A word: bytes that are neither white space nor symbols, and at least one.
abbrev pub IsWord : Text → Type 0
IsWord [] = ⊥
IsWord (c ∷ ts) = (is_plain c ≡ true) × IsPlain ts

pub skip_white-length : (ts : Text) → length (skip_white ts) ≤ length ts
unfolding skip_white
skip_white-length [] = omega arith
skip_white-length (c ∷ ts) =
    let below = skip_white-length ts in
    elim (Bool-cases (one_of whitespace c)) [
      | inl h ↦ rw h (omega arith)
      | inr h ↦ rw h (omega arith)
    ]

after_word-length : (ts : Text) → length (after_word ts) ≤ length ts
unfolding after_word
after_word-length [] = omega arith
after_word-length (c ∷ ts) =
    let below = after_word-length ts in
    elim (Bool-cases (is_plain c)) [ inl h ↦ rw h (omega arith) | inr h ↦ rw h (omega arith) ]

word-IsPlain : (ts : Text) → IsPlain (word ts)
unfolding word
word-IsPlain [] = tt
word-IsPlain (c ∷ ts) = if_intro IsPlain (is_plain c) (λ plain. (plain, word-IsPlain ts)) (λ _. tt)

-- What a token taken from a text with `n` bytes is.
abbrev pub Taken : ℕ → Token → Type 0
Taken n (kind, (tok, rest)) = (length rest < n) × (kind ≡ b'a' → IsWord tok)

greater-Taken : (ts : Text) → Taken (suc (length ts)) (greater ts)
unfolding greater
greater-Taken [] = (omega arith, λ e. absurd (omega (arith, e)))
greater-Taken (d ∷ ts) =
    let near = skip_white-length ts in
    let far = skip_white-length (d ∷ ts) in
    if_intro (Taken (suc (suc (length ts)))) (d == b'>')
      (λ _. (omega arith, λ e. absurd (omega (arith, e))))
      (λ _. (omega arith, λ e. absurd (omega (arith, e))))

token_at-Taken :
    (c : ℕ) (ts : Text) → one_of whitespace c ≡ false → Taken (suc (length ts)) (token_at (c ∷ ts))
unfolding token_at word after_word
token_at-Taken c ts black =
    if_intro (Taken (suc (length ts))) (one_of (b'|' ∷ b'(' ∷ b')' ∷ b';' ∷ b'&' ∷ b'<' ∷ []) c)
      (λ s. (let l = skip_white-length ts in omega arith, λ e. absurd (letter s e)))
      (λ s.
        if_intro (Taken (suc (length ts))) (c == b'>') (λ _. greater-Taken ts)
          (λ g.
            let plain : is_plain c ≡ true = ground arith in
            let shorter = after_word-length ts in
            let l = skip_white-length (after_word ts) in
            rw plain (omega arith, λ _. (plain, word-IsPlain ts))))
  where
    letter : one_of (b'|' ∷ b'(' ∷ b')' ∷ b';' ∷ b'&' ∷ b'<' ∷ []) c ≡ true → c ≢ b'a'
    letter s e = ground arith

abbrev pub Black : Text → Type 0
Black [] = Unit
Black (c ∷ ts) = one_of whitespace c ≡ false

skip_white-Black : (ts : Text) → Black (skip_white ts)
unfolding skip_white
skip_white-Black [] = tt
skip_white-Black (c ∷ ts) =
    if_intro Black (one_of whitespace c) (λ _. skip_white-Black ts) (λ black. black)

Taken-mono : (m n : ℕ) (t : Token) → m ≤ n → Taken m t → Taken n t
Taken-mono m n t le (short, w) = (omega (arith, short), w)

abbrev has_more : Text → Bool
has_more [] = false
has_more (c ∷ ts) = true

more-Taken : (ts : Text) → Black ts → has_more ts ≡ true → Taken (length ts) (token_at ts)
more-Taken [] b h = cc
more-Taken (c ∷ ts) b h = token_at-Taken c ts b

gettoken-more : (ts : Text) → has_more (skip_white ts) ≡ true → Taken (length ts) (gettoken ts)
unfolding gettoken
gettoken-more ts h =
    Taken-mono (length (skip_white ts)) (length ts) (gettoken ts) (skip_white-length ts)
      (more-Taken (skip_white ts) (skip_white-Black ts) h)

-- The token that `peek` has seen the start of.
pub peek-Taken : (toks ts : Text) → peek toks ts ≡ true → Taken (length ts) (gettoken ts)
unfolding peek
peek-Taken toks ts h = gettoken-more ts (seen (skip_white ts) h)
  where
    seen : (us : Text) → next_in toks us ≡ true → has_more us ≡ true
    seen [] e = e
    seen (c ∷ us) e = refl

pub word-Taken : (ts : Text) → (gettoken ts).0 ≡ b'a' → Taken (length ts) (gettoken ts)
unfolding gettoken token_at
word-Taken ts h = gettoken-more ts (seen (skip_white ts) h)
  where
    seen : (us : Text) → (token_at us).0 ≡ b'a' → has_more us ≡ true
    seen [] e = absurd (omega (arith, e))
    seen (c ∷ us) e = refl

pub gettoken-length : (ts : Text) → length (gettoken ts).1.1 ≤ length ts
unfolding gettoken token_at
gettoken-length ts = elim (Bool-cases (has_more (skip_white ts))) [
  | inl more ↦ omega (arith, (gettoken-more ts more).0)
  | inr none_left ↦ at_end (skip_white ts) none_left
]
  where
    at_end : (us : Text) → has_more us ≡ false → length (token_at us).1.1 ≤ length ts
    at_end [] e = omega arith
    at_end (c ∷ us) e = cc
