-- ===== src/Sh/Print.antt =====
-- A line for each command, with parentheses around the parts, and how its words are read.
use cs202_lab.Prelude.{
  ℕ, zero, suc, ◌+◌, ◌<◌, ◌≡◌, refl, ap, ◌∙◌, true, false, List, [], ◌∷◌, ◌++◌, ◌==◌, leb,
  if◌then◌else◌, length, arith,
}
use cs202_lab.Sh.{Result, Text, Redir, Cmd, bind, one_of, whitespace, maxargs}
use cs202_lab.Sh.Token.{skip_white, is_plain, word, after_word, token_at, gettoken, peek}
use cs202_lab.Sh.Parse.{redirs, args}
use cs202_lab.Sh.Words.{IsPlain, IsWord, Black}
use cs202_lab.Sh.Simple.{AllWords}

-- Words, each with a space behind it, before a text.
unfoldable pub print_words : List Text → Text → Text
print_words [] ts = ts
print_words (w ∷ ws) ts = w ++ (b' ' ∷ print_words ws ts)

unfoldable pub sign : Redir → Text → Text
sign r ts =
    if r.mode == 0 then b'<' ∷ ts else if r.mode == 0x601 then b'>' ∷ ts else b'>' ∷ b'>' ∷ ts

-- The text of a command before a text.
unfoldable pub print : Cmd → Text → Text
unfolding print_words sign
print (Cmd.exec argv) ts = print_words argv ts
print (Cmd.redir c r) ts = b'(' ∷ print c (b')' ∷ sign r (r.file ++ ts))
print (Cmd.pipe c d) ts = b'(' ∷ print c (b')' ∷ b'|' ∷ b'(' ∷ print d (b')' ∷ ts))
print (Cmd.seq c d) ts = b'(' ∷ print c (b')' ∷ b';' ∷ b'(' ∷ print d (b')' ∷ ts))
print (Cmd.back c) ts = b'(' ∷ print c (b')' ∷ b'&' ∷ ts)

-- What stands behind a word, or behind a command in parentheses.
abbrev pub Stops : Text → Type 0
Stops [] = Unit
Stops (c ∷ ts) = is_plain c ≡ false

word-append : (w ts : Text) → IsPlain w → Stops ts → word (w ++ ts) ≡ w
unfolding word
word-append [] [] p s = refl
word-append [] (c ∷ ts) p s = rw s refl
word-append (c ∷ w) ts p s = rw p.0 (ap (λ v. c ∷ v) (word-append w ts p.1 s))

after_word-append : (w ts : Text) → IsPlain w → Stops ts → after_word (w ++ ts) ≡ ts
unfolding after_word
after_word-append [] [] p s = refl
after_word-append [] (c ∷ ts) p s = rw s refl
after_word-append (c ∷ w) ts p s = rw p.0 (after_word-append w ts p.1 s)

pub skip_white-id : (ts : Text) → Black ts → skip_white ts ≡ ts
unfolding skip_white
skip_white-id [] b = refl
skip_white-id (c ∷ ts) b = rw b refl

pub plain-Black : (c : ℕ) → is_plain c ≡ true → one_of whitespace c ≡ false
plain-Black c h = ground arith

-- A word is read whole.
pub gettoken-word :
    (w ts : Text) → IsWord w → Stops ts → gettoken (w ++ ts) ≡ (b'a', (w, skip_white ts))
unfolding gettoken token_at
gettoken-word [] ts h s = absurd h
gettoken-word (c ∷ w) ts (p, q) s =
    let white = skip_white-id (c ∷ (w ++ ts)) (plain-Black c p) in
    let sym1 : one_of (b'|' ∷ b'(' ∷ b')' ∷ b';' ∷ b'&' ∷ b'<' ∷ []) c ≡ false = ground arith in
    let sym2 : (c == b'>') ≡ false = ground arith in
    rw (white, sym1, sym2, word-append (c ∷ w) ts (p, q) s, after_word-append (c ∷ w) ts (p, q) s)
      refl

-- A set with symbols only.
abbrev pub Symbols : Text → Type 0
Symbols toks = (c : ℕ) → is_plain c ≡ true → one_of toks c ≡ false

pub print_words-Black :
    (ws : List Text) (ts : Text) → AllWords ws → Black ts → Black (print_words ws ts)
unfolding print_words
print_words-Black [] ts h b = b
print_words-Black ([] ∷ ws) ts h b = absurd h.0
print_words-Black ((c ∷ w) ∷ ws) ts h b = plain-Black c h.0.0

pub peek-print_words :
    (toks : Text) (ws : List Text) (ts : Text)
    → Symbols toks
    → AllWords ws
    → peek toks ts ≡ false
    → peek toks (print_words ws ts) ≡ false
unfolding print_words peek
peek-print_words toks [] ts sy h b = b
peek-print_words toks ([] ∷ ws) ts sy h b = absurd h.0
peek-print_words toks ((c ∷ w) ∷ ws) ts sy h b =
    rw (skip_white-id (c ∷ (w ++ (b' ' ∷ print_words ws ts))) (plain-Black c h.0.0)) (sy c h.0.0)

pub redirs-none :
    (f : ℕ) (ts : Text)
    → peek (b'<' ∷ b'>' ∷ []) ts ≡ false
    → redirs (suc f) ts ≡ Result.ok ([], ts)
unfolding redirs
redirs-none f ts h = rw h refl

-- The end of a line, or a closing parenthesis.
pub data Ends : Text → Type 0 where
  stop : Ends []
  close : (ts : Text) → Ends (b')' ∷ ts)

pub ends-Black : {ts : Text} → Ends ts → Black ts
ends-Black stop = tt
ends-Black (close ts) = refl

pub redirs-ends : {ts : Text} → Ends ts → peek (b'<' ∷ b'>' ∷ []) ts ≡ false
unfolding peek skip_white
redirs-ends stop = refl
redirs-ends (close ts) = refl

args-ends : (f argc : ℕ) {ts : Text} → Ends ts → args (suc f) argc ts ≡ Result.ok (([], []), ts)
unfolding args peek skip_white gettoken token_at
args-ends f argc stop = refl
args-ends f argc (close ts) = refl

redir-Symbols : Symbols (b'<' ∷ b'>' ∷ [])
redir-Symbols c h = ground arith

args-Symbols : Symbols (b'|' ∷ b')' ∷ b'&' ∷ b';' ∷ [])
args-Symbols c h = ground arith

peek-word : (toks w ts : Text) → Symbols toks → IsWord w → peek toks (w ++ ts) ≡ false
unfolding peek
peek-word toks [] ts sy h = absurd h
peek-word toks (c ∷ w) ts sy h = rw (skip_white-id (c ∷ (w ++ ts)) (plain-Black c h.0)) (sy c h.0)

pub redirs-words :
    (f : ℕ) (ws : List Text) {ts : Text}
    → AllWords ws
    → Ends ts
    → redirs (suc f) (print_words ws ts) ≡ Result.ok ([], print_words ws ts)
redirs-words f ws h e =
    redirs-none f _ (peek-print_words (b'<' ∷ b'>' ∷ []) ws _ redir-Symbols h (redirs-ends e))

gettoken-spaced :
    (w ts : Text) → IsWord w → Black ts → gettoken (w ++ (b' ' ∷ ts)) ≡ (b'a', (w, ts))
unfolding skip_white
gettoken-spaced w ts h b =
    gettoken-word w (b' ' ∷ ts) h refl ∙ ap (λ r. (b'a', (w, r))) (skip_white-id ts b)

args-word :
    (f argc : ℕ) (w ts : Text)
    → IsWord w
    → Black ts
    → argc + 1 < maxargs
    → args (suc f) argc (w ++ (b' ' ∷ ts))
      ≡ bind (redirs f ts) λ rs rest.
        bind (args f (suc argc) rest) λ o rest'. Result.ok ((w ∷ o.0, rs ++ o.1), rest')
unfolding args
args-word f argc w ts h b room =
    let small : leb maxargs (suc argc) ≡ false = ground arith in
    rw
      (
        peek-word (b'|' ∷ b')' ∷ b'&' ∷ b';' ∷ []) w (b' ' ∷ ts) args-Symbols h,
        gettoken-spaced w ts h b,
        small,
      )
      refl

-- The loop of `parseexec` reads the words up to the end.
pub args-print_words :
    (ws : List Text) (f argc : ℕ) {ts : Text}
    → AllWords ws
    → length ws < f
    → argc + length ws < maxargs
    → Ends ts
    → args f argc (print_words ws ts) ≡ Result.ok ((ws, []), ts)
unfolding print_words
args-print_words ws zero argc h lt room e = absurd (omega arith)
args-print_words [] (suc f) argc h lt room e = args-ends f argc e
args-print_words (w ∷ ws) (suc zero) argc h lt room e = absurd (omega arith)
args-print_words (w ∷ ws) (suc (suc f)) argc {ts} h lt room e =
    args-word (suc f) argc w (print_words ws ts) h.0 (print_words-Black ws ts h.1 (ends-Black e))
      (omega arith)
    ∙ rw
        (
          redirs-words f ws h.1 e,
          args-print_words ws (suc f) (suc argc) h.1 (omega arith) (omega arith) e,
        )
        refl
