-- ===== src/Sh/Pieces.antt =====
-- How the parsers read the pieces of a printed command.
use cs202_lab.Prelude.{
  ℕ, suc, ◌≤◌, ◌≡◌, refl, sym, ap, ap₂, ◌∙◌, true, false, List, [], ◌∷◌, ◌++◌, ◌==◌, length, arith,
  Bool-cases, inl, inr,
}
use cs202_lab.Sh.{Result, Text, Redir, Cmd, bind}
use cs202_lab.Sh.Token.{skip_white, greater, token_at, gettoken, peek}
use cs202_lab.Sh.Parse.{
  redir_of, need_word, redirs, wrap, simple, backs, parse_line, parse_pipe, parse_exec,
}
use cs202_lab.Sh.Words.{IsWord, Black}
use cs202_lab.Sh.Simple.{IsRedir, IsCmd}
use cs202_lab.Sh.Print.{
  print_words, sign, print, Stops, plain-Black, skip_white-id, gettoken-word, Symbols,
  print_words-Black, peek-print_words, redirs-none, Ends, ends-Black, redirs-ends, redirs-words,
  args-print_words,
}

pub print-Black : (c : Cmd) (ts : Text) → IsCmd c → Black ts → Black (print c ts)
unfolding print
print-Black (Cmd.exec argv) ts h b = print_words-Black argv ts h.1 b
print-Black (Cmd.redir c r) ts h b = refl
print-Black (Cmd.pipe c d) ts h b = refl
print-Black (Cmd.seq c d) ts h b = refl
print-Black (Cmd.back c) ts h b = refl

-- The line parser reads the command back, before any end, with this much fuel.
abbrev pub Reads : ℕ → Cmd → Type 0
Reads f c = (ts : Text) → Ends ts → parse_line f (print c ts) ≡ Result.ok (c, ts)

pub block_lem :
    (f : ℕ) (c : Cmd) (ts : Text)
    → IsCmd c
    → Reads f c
    → parse_exec (suc (suc f)) (b'(' ∷ print c (b')' ∷ ts))
      ≡ bind (redirs f (skip_white ts)) λ rs rest. Result.ok (wrap c rs, rest)
unfolding parse_line peek gettoken token_at skip_white
block_lem f c ts h r =
    rw
      (
        skip_white-id (print c (b')' ∷ ts)) (print-Black c (b')' ∷ ts) h refl),
        r (b')' ∷ ts) (Ends.close ts),
      )
      refl

-- A command in parentheses, before something that is no redirection.
pub paren_lem :
    (f : ℕ) (c : Cmd) (ts : Text)
    → IsCmd c
    → Reads (suc f) c
    → Black ts
    → peek (b'<' ∷ b'>' ∷ []) ts ≡ false
    → parse_exec (suc (suc (suc f))) (b'(' ∷ print c (b')' ∷ ts)) ≡ Result.ok (c, ts)
paren_lem f c ts h r b last =
    block_lem (suc f) c ts h r ∙ rw (skip_white-id ts b, redirs-none f ts last) refl

-- One command before an end is a pipeline and a line.
pub pipe_ends :
    {ts : Text} (f : ℕ) (c : Cmd) (us : Text)
    → Ends ts
    → parse_exec f us ≡ Result.ok (c, ts)
    → parse_pipe (suc f) us ≡ Result.ok (c, ts)
unfolding parse_pipe peek skip_white
pipe_ends f c us Ends.stop e = rw e refl
pipe_ends f c us (Ends.close ts) e = rw e refl

pub line_ends :
    {ts : Text} (f : ℕ) (c : Cmd) (us : Text)
    → Ends ts
    → parse_pipe (suc f) us ≡ Result.ok (c, ts)
    → parse_line (suc (suc f)) us ≡ Result.ok (c, ts)
unfolding parse_line peek skip_white backs
line_ends f c us Ends.stop e = rw e refl
line_ends f c us (Ends.close ts) e = rw e refl

-- The other forms of a pipeline and of a line, behind the first command.
pub pipe_more :
    (f : ℕ) (c d : Cmd) (us vs ts : Text)
    → Black vs
    → parse_exec f us ≡ Result.ok (c, b'|' ∷ vs)
    → parse_pipe f vs ≡ Result.ok (d, ts)
    → parse_pipe (suc f) us ≡ Result.ok (Cmd.pipe c d, ts)
unfolding parse_pipe peek gettoken token_at skip_white
pipe_more f c d us vs ts b e e' = rw (e, skip_white-id vs b, e') refl

pub seq_more :
    (f : ℕ) (c d : Cmd) (us vs ts : Text)
    → Black vs
    → parse_exec f us ≡ Result.ok (c, b';' ∷ vs)
    → parse_line (suc f) vs ≡ Result.ok (d, ts)
    → parse_line (suc (suc f)) us ≡ Result.ok (Cmd.seq c d, ts)
unfolding parse_line peek gettoken token_at skip_white backs
seq_more f c d us vs ts b e e' = rw (e, skip_white-id vs b, e') refl

pub back_more :
    (f : ℕ) (c : Cmd) (us ts : Text)
    → Ends ts
    → parse_exec (suc f) us ≡ Result.ok (c, b'&' ∷ ts)
    → parse_line (suc (suc (suc f))) us ≡ Result.ok (Cmd.back c, ts)
unfolding parse_line peek gettoken token_at skip_white backs
back_more f c us [] Ends.stop e = rw e refl
back_more f c us _ (Ends.close ts) e = rw e refl

paren-Symbols : Symbols (b'(' ∷ [])
paren-Symbols c h = ground arith

peek-ends : {ts : Text} → Ends ts → peek (b'(' ∷ []) ts ≡ false
unfolding peek skip_white
peek-ends Ends.stop = refl
peek-ends (Ends.close ts) = refl

pub exec_lem :
    (f : ℕ) (argv : List Text) (ts : Text)
    → IsCmd (Cmd.exec argv)
    → length argv ≤ f
    → Ends ts
    → parse_exec (suc (suc f)) (print_words argv ts) ≡ Result.ok (Cmd.exec argv, ts)
unfolding parse_exec simple
exec_lem f argv ts h le e =
    rw
      (
        peek-print_words (b'(' ∷ []) argv ts paren-Symbols h.1 (peek-ends e),
        redirs-words f argv h.1 e,
        args-print_words argv (suc f) 0 h.1 (omega arith) (omega (arith, h.0)) e,
      )
      refl

ends-Stops : {ts : Text} → Ends ts → Stops ts
ends-Stops Ends.stop = tt
ends-Stops (Ends.close ts) = refl

word-white : (w ts : Text) → IsWord w → skip_white (w ++ ts) ≡ w ++ ts
word-white [] ts h = absurd h
word-white (c ∷ w) ts h = skip_white-id (c ∷ (w ++ ts)) (plain-Black c h.0)

redirs-some :
    (f : ℕ) (us : Text)
    → peek (b'<' ∷ b'>' ∷ []) us ≡ true
    → redirs (suc f) us
      ≡ bind (need_word (gettoken (gettoken us).1.1)) λ file' rest.
        bind (redirs f rest) λ rs rest'. Result.ok (redir_of (gettoken us).0 file' ∷ rs, rest')
unfolding redirs
redirs-some f us p = rw p refl

-- One redirection is read, from the text behind its symbol.
redirs-one :
    (f : ℕ) (us w : Text) {ts : Text}
    → IsWord w
    → Ends ts
    → peek (b'<' ∷ b'>' ∷ []) us ≡ true
    → (gettoken us).1.1 ≡ w ++ ts
    → redirs (suc (suc f)) us ≡ Result.ok (redir_of (gettoken us).0 w ∷ [], ts)
redirs-one f us w {ts} h e p q =
    let token = gettoken-word w ts h (ends-Stops e) in
    redirs-some (suc f) us p
    ∙ rw (q, token, skip_white-id ts (ends-Black e), redirs-none f ts (redirs-ends e)) refl

redir_eq :
    (r : Redir) (m d : ℕ) → r.mode ≡ m → r.fd ≡ d → record { file = r.file; mode = m; fd = d } ≡ r
redir_eq r m d e e' = ap₂ (λ m' d'. record { file = r.file; mode = m'; fd = d' }) (sym e) (sym e')

signed :
    (f : ℕ) (r : Redir) (us : Text) (m d : ℕ) {ts : Text}
    → IsRedir r
    → Ends ts
    → peek (b'<' ∷ b'>' ∷ []) us ≡ true
    → (gettoken us).1.1 ≡ r.file ++ ts
    → r.mode ≡ m
    → r.fd ≡ d
    → redir_of (gettoken us).0 r.file ≡ record { file = r.file; mode = m; fd = d }
    → redirs (suc (suc f)) us ≡ Result.ok (r ∷ [], ts)
signed f r us m d {ts} h e p q em ed k =
    redirs-one f us r.file h.0 e p q ∙ ap (λ x. Result.ok (x ∷ [], ts)) (k ∙ redir_eq r m d em ed)

-- '>' before a word is not ">>".
greater-word : (w ts : Text) → IsWord w → greater (w ++ ts) ≡ (b'>', (b'>' ∷ [], w ++ ts))
unfolding greater
greater-word [] ts h = absurd h
greater-word (c ∷ w) ts h =
    let other : (c == b'>') ≡ false = ground (arith, h.0) in
    rw (other, word-white (c ∷ w) ts h) refl

pub redirs-sign :
    (f : ℕ) (r : Redir) {ts : Text}
    → IsRedir r
    → Ends ts
    → redirs (suc (suc f)) (skip_white (sign r (r.file ++ ts))) ≡ Result.ok (r ∷ [], ts)
unfolding peek gettoken token_at skip_white sign greater
redirs-sign f r {ts} (w, m) e = elim (Bool-cases (r.mode == 0)) [
  | inl z ↦
      let em : r.mode ≡ 0 = ground arith in
      let ed : r.fd ≡ 0 = ground arith in
      rw z
        (signed f r (b'<' ∷ (r.file ++ ts)) 0 0 (w, m) e refl (word-white r.file ts w) em ed refl)
  | inr z ↦ elim (Bool-cases (r.mode == 0x601)) [
    | inl y ↦
        let em : r.mode ≡ 0x601 = ground arith in
        let ed : r.fd ≡ 1 = ground arith in
        let g = greater-word r.file ts w in
        rw (z, y)
          (signed f r (b'>' ∷ (r.file ++ ts)) 0x601 1 (w, m) e refl (ap (λ t. t.1.1) g) em ed
            (ap (λ t. redir_of t.0 r.file) g))
    | inr y ↦
        let em : r.mode ≡ 0x201 = ground arith in
        let ed : r.fd ≡ 1 = ground arith in
        rw (z, y)
          (signed f r (b'>' ∷ b'>' ∷ (r.file ++ ts)) 0x201 1 (w, m) e refl (word-white r.file ts w)
            em ed refl)
  ]
]
