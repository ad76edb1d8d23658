-- ===== src/Sh/RoundTrip.antt =====
-- Parsing gives back the command that was printed.
use cs202_lab.Prelude.{
  ℕ, suc, ◌+◌, ◌*◌, ◌-◌, ◌≤◌, ◌≡◌, refl, ◌∙◌, List, [], ◌∷◌, ◌++◌, ◌==◌, length, length-append,
  arith, Bool-cases, inl, inr,
}
use cs202_lab.Sh.{Result, Text, Redir, Cmd}
use cs202_lab.Sh.Token.{skip_white, peek}
use cs202_lab.Sh.Parse.{parse_line, parse_exec, parsecmd}
use cs202_lab.Sh.Simple.{IsCmd}
use cs202_lab.Sh.Print.{print_words, sign, print, Ends, ends-Black, redirs-ends}
use cs202_lab.Sh.Pieces.{
  Reads, block_lem, paren_lem, pipe_ends, line_ends, pipe_more, seq_more, back_more, exec_lem,
  redirs-sign,
}

-- How deep a command is, for the fuel.
abbrev depth : Cmd → ℕ
depth (Cmd.exec argv) = length argv
depth (Cmd.redir c r) = depth c + 1
depth (Cmd.pipe c d) = depth c + depth d + 2
depth (Cmd.seq c d) = depth c + depth d + 2
depth (Cmd.back c) = depth c + 1

-- Fuel of at least six, with its successors written out.
six : (f : ℕ) → 6 ≤ f → (g : ℕ) × (f ≡ suc (suc (suc (suc (suc (suc g))))))
six f h = (f - 6, omega arith)

four : (f : ℕ) → 4 ≤ f → (g : ℕ) × (f ≡ suc (suc (suc (suc g))))
four f h = (f - 4, omega arith)

line_of :
    {ts : Text} (f : ℕ) (c : Cmd) (us : Text)
    → Ends ts
    → parse_exec f us ≡ Result.ok (c, ts)
    → parse_line (suc (suc f)) us ≡ Result.ok (c, ts)
line_of f c us e h = line_ends f c us e (pipe_ends f c us e h)

last_paren :
    (f : ℕ) (c : Cmd) (ts : Text)
    → IsCmd c
    → Reads (suc f) c
    → Ends ts
    → parse_exec (suc (suc (suc f))) (b'(' ∷ print c (b')' ∷ ts)) ≡ Result.ok (c, ts)
last_paren f c ts h r e = paren_lem f c ts h r (ends-Black e) (redirs-ends e)

print-Reads : (c : Cmd) (f : ℕ) → IsCmd c → 4 * depth c + 4 ≤ f → Reads f c
unfolding print peek skip_white
print-Reads (Cmd.exec argv) f h le ts e =
    let (g, eq) = four f (omega arith) in
    rw eq (
      line_of (suc (suc g)) (Cmd.exec argv) (print_words argv ts) e
        (exec_lem g argv ts h (omega arith) e))
print-Reads (Cmd.redir c r) f (hr, h) le ts e =
    let (g, eq) = six f (omega arith) in
    let us = sign r (r.file ++ ts) in
    rw eq (
      line_of (suc (suc (suc (suc g)))) (Cmd.redir c r) _ e (
        block_lem (suc (suc g)) c us h (print-Reads c (suc (suc g)) h (omega arith))
        ∙ rw (redirs-sign g r hr e) refl))
print-Reads (Cmd.pipe c d) f (h, k) le ts e =
    let (g, eq) = six f (omega arith) in
    let vs = b'(' ∷ print d (b')' ∷ ts) in
    rw eq (
      line_ends (suc (suc (suc (suc g)))) (Cmd.pipe c d) _ e (
        pipe_more (suc (suc (suc (suc g)))) c d _ vs ts refl
          (paren_lem (suc g) c (b'|' ∷ vs) h (print-Reads c (suc (suc g)) h (omega arith)) refl
            refl)
          (pipe_ends (suc (suc (suc g))) d vs e
            (last_paren g d ts k (print-Reads d (suc g) k (omega arith)) e))))
print-Reads (Cmd.seq c d) f (h, k) le ts e =
    let (g, eq) = six f (omega arith) in
    let vs = b'(' ∷ print d (b')' ∷ ts) in
    rw eq (
      seq_more (suc (suc (suc (suc g)))) c d _ vs ts refl
        (paren_lem (suc g) c (b';' ∷ vs) h (print-Reads c (suc (suc g)) h (omega arith)) refl refl)
        (line_of (suc (suc (suc g))) d vs e
          (last_paren g d ts k (print-Reads d (suc g) k (omega arith)) e)))
print-Reads (Cmd.back c) f h le ts e =
    let (g, eq) = six f (omega arith) in
    rw eq (
      back_more (suc (suc (suc g))) c _ ts e
        (paren_lem (suc g) c (b'&' ∷ ts) h (print-Reads c (suc (suc g)) h (omega arith)) refl refl))

words-length : (ws : List Text) (ts : Text) → length ws + length ts ≤ length (print_words ws ts)
unfolding print_words
words-length [] ts = omega arith
words-length (w ∷ ws) ts =
    let below = words-length ws ts in omega (arith, length-append w (b' ' ∷ print_words ws ts))

sign-length : (r : Redir) (ts : Text) → length ts ≤ length (sign r ts)
unfolding sign
sign-length r ts = elim (Bool-cases (r.mode == 0)) [
  | inl z ↦ rw z (omega arith)
  | inr z ↦ elim (Bool-cases (r.mode == 0x601)) [
    | inl y ↦ rw (z, y) (omega arith)
    | inr y ↦ rw (z, y) (omega arith)
  ]
]

depth-length : (c : Cmd) (ts : Text) → depth c + length ts ≤ length (print c ts)
unfolding print
depth-length (Cmd.exec argv) ts = words-length argv ts
depth-length (Cmd.redir c r) ts =
    let inner = depth-length c (b')' ∷ sign r (r.file ++ ts)) in
    omega (arith, inner, sign-length r (r.file ++ ts), length-append r.file ts)
depth-length (Cmd.pipe c d) ts =
    let right = depth-length d (b')' ∷ ts) in
    omega (arith, right, depth-length c (b')' ∷ b'|' ∷ b'(' ∷ print d (b')' ∷ ts)))
depth-length (Cmd.seq c d) ts =
    let right = depth-length d (b')' ∷ ts) in
    omega (arith, right, depth-length c (b')' ∷ b';' ∷ b'(' ∷ print d (b')' ∷ ts)))
depth-length (Cmd.back c) ts = omega (arith, depth-length c (b')' ∷ b'&' ∷ ts))

-- Every well-formed command is the one that `parsecmd` reads in its line: fewer than MAXARGS words in
-- each `argv`, words and files not empty and without white space or symbols, and redirections of one of
-- the three kinds.
pub parsecmd-print : (c : Cmd) → IsCmd c → parsecmd (print c []) ≡ Result.ok c
unfolding parsecmd skip_white
parsecmd-print c h =
    let enough = depth-length c [] in
    rw (print-Reads c (4 * length (print c []) + 4) h (omega (arith, enough)) [] Ends.stop) refl
