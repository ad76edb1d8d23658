-- ===== src/Sh/Simple.antt =====
-- The loops of `parseredirs`, `parseexec` and `parseline` end, and give well-formed pieces.
use cs202_lab.Prelude.{
  ℕ, zero, suc, ◌+◌, ◌≤◌, ◌<◌, ◌≡◌, refl, Bool, true, ◌&&◌, ◌||◌, List, [], ◌∷◌, ◌++◌, ◌==◌, leb,
  length, arith, ==_iff,
}
use cs202_lab.Sh.{Result, Text, Parser, bind, maxargs, Redir, Cmd}
use cs202_lab.Sh.Token.{gettoken, peek}
use cs202_lab.Sh.Parse.{redir_of, need_word, redirs, wrap, args, simple, backs}
use cs202_lab.Sh.Words.{if_intro, IsWord, peek-Taken, word-Taken, gettoken-length}

-- A result that is `panics`, or a value with the property and at most `n` bytes of the line.
abbrev pub Ensures : {A : Type 0} → ℕ → (A → Type 0) → Result (A × Text) → Type 0
Ensures n P (Result.ok (a, rest)) = (length rest ≤ n) × P a
Ensures n P Result.panics = Unit
Ensures n P Result.out_of_fuel = ⊥

pub bind-Ensures :
    {A B : Type 0} (n m : ℕ) (P : A → Type 0) (Q : B → Type 0) (r : Result (A × Text))
    (f : A → Parser B)
    → Ensures n P r
    → ((a : A) (rest : Text) → length rest ≤ n → P a → Ensures m Q (f a rest))
    → Ensures m Q (bind r f)
bind-Ensures n m P Q (Result.ok (a, rest)) f (le, p) k = k a rest le p
bind-Ensures n m P Q Result.panics f e k = tt
bind-Ensures n m P Q Result.out_of_fuel f e k = e

pub Ensures-mono :
    {A : Type 0} (n m : ℕ) (P : A → Type 0) (r : Result (A × Text))
    → n ≤ m
    → Ensures n P r
    → Ensures m P r
Ensures-mono n m P (Result.ok (a, rest)) le (short, p) = (omega (arith, short), p)
Ensures-mono n m P Result.panics le e = tt
Ensures-mono n m P Result.out_of_fuel le e = e

abbrev pub AllWords : List Text → Type 0
AllWords [] = Unit
AllWords (w ∷ ws) = IsWord w × AllWords ws

-- The mode and the descriptor of `<`, `>` or `>>`.
abbrev pub is_mode : Redir → Bool
is_mode r = (r.mode == 0 && (r.fd == 0)) || ((r.mode == 0x601 || (r.mode == 0x201)) && (r.fd == 1))

abbrev pub IsRedir : Redir → Type 0
IsRedir r = IsWord r.file × (is_mode r ≡ true)

abbrev pub AllRedirs : List Redir → Type 0
AllRedirs [] = Unit
AllRedirs (r ∷ rs) = IsRedir r × AllRedirs rs

-- `argv` has room for its words and the null pointer, every word is one, and redirections are of the
-- three kinds.
abbrev pub IsCmd : Cmd → Type 0
IsCmd (Cmd.exec argv) = (length argv < maxargs) × AllWords argv
IsCmd (Cmd.redir c r) = IsRedir r × IsCmd c
IsCmd (Cmd.pipe c d) = IsCmd c × IsCmd d
IsCmd (Cmd.seq c d) = IsCmd c × IsCmd d
IsCmd (Cmd.back c) = IsCmd c

need_word-Ensures :
    {B : Type 0} (ts : Text) (m : ℕ) (Q : B → Type 0) (f : Text → Parser B)
    → ((w rest : Text) → length rest < length ts → IsWord w → Ensures m Q (f w rest))
    → Ensures m Q (bind (need_word (gettoken ts)) f)
need_word-Ensures ts m Q f k =
    if_intro (λ r. Ensures m Q (bind r f)) ((gettoken ts).0 == b'a')
      (λ h.
        let e : (gettoken ts).0 ≡ b'a' = (==_iff (gettoken ts).0 b'a').0 h in
        let t = word-Taken ts e in k (gettoken ts).1.0 (gettoken ts).1.1 t.0 (t.1 e))
      (λ _. tt)

redir_of-IsRedir : (tok : ℕ) (w : Text) → IsWord w → IsRedir (redir_of tok w)
redir_of-IsRedir tok w h =
    if_intro IsRedir (tok == b'<') (λ _. (h, refl))
      (λ _. if_intro IsRedir (tok == b'>') (λ _. (h, refl)) (λ _. (h, refl)))

pub redirs-Ensures :
    (fuel : ℕ) (ts : Text) → length ts < fuel → Ensures (length ts) AllRedirs (redirs fuel ts)
unfolding redirs
redirs-Ensures zero ts h = absurd (omega arith)
redirs-Ensures (suc fuel) ts h =
    if_intro (Ensures (length ts) AllRedirs) (peek (b'<' ∷ b'>' ∷ []) ts)
      (λ p.
        let t = peek-Taken (b'<' ∷ b'>' ∷ []) ts p in
        let us = (gettoken ts).1.1 in
        need_word-Ensures us (length ts) AllRedirs _ (λ w rest le isword.
          bind-Ensures (length rest) (length ts) AllRedirs AllRedirs (redirs fuel rest) _
            (redirs-Ensures fuel rest (omega (arith, t.0)))
            (λ rs rest' le' ok'.
              (omega (arith, t.0), (redir_of-IsRedir (gettoken ts).0 w isword, ok')))))
      (λ _. (omega arith, tt))

AllRedirs-append : (rs ss : List Redir) → AllRedirs rs → AllRedirs ss → AllRedirs (rs ++ ss)
AllRedirs-append [] ss h k = k
AllRedirs-append (r ∷ rs) ss (w, h) k = (w, AllRedirs-append rs ss h k)

pub wrap-IsCmd : (c : Cmd) (rs : List Redir) → IsCmd c → AllRedirs rs → IsCmd (wrap c rs)
wrap-IsCmd c [] h k = h
wrap-IsCmd c (r ∷ rs) h (w, k) = wrap-IsCmd (Cmd.redir c r) rs (w, h) k

-- What the loop of `parseexec` adds behind `argc` arguments.
abbrev ArgsFit : ℕ → List Text × List Redir → Type 0
ArgsFit argc (ws, rs) = (argc + length ws < maxargs) × AllWords ws × AllRedirs rs

args-Ensures :
    (fuel argc : ℕ) (ts : Text)
    → length ts < fuel
    → argc < maxargs
    → Ensures (length ts) (ArgsFit argc) (args fuel argc ts)
unfolding args
args-Ensures zero argc ts h room = absurd (omega arith)
args-Ensures (suc fuel) argc ts h room =
    if_intro (Ensures (length ts) (ArgsFit argc)) (peek (b'|' ∷ b')' ∷ b'&' ∷ b';' ∷ []) ts)
      (λ _. (omega arith, (omega arith, tt, tt)))
      (λ _.
        if_intro (Ensures (length ts) (ArgsFit argc)) ((gettoken ts).0 == 0)
          (λ _. (gettoken-length ts, (omega arith, tt, tt)))
          (λ _. need_word-Ensures ts (length ts) (ArgsFit argc) _ (λ w rest le isword.
            if_intro (Ensures (length ts) (ArgsFit argc)) (leb maxargs (suc argc)) (λ _. tt)
              (λ more.
                bind-Ensures (length rest) (length ts) AllRedirs (ArgsFit argc) (redirs fuel rest) _
                  (redirs-Ensures fuel rest (omega arith))
                  (λ rs rest' le' ok'.
                    bind-Ensures (length rest') (length ts) (ArgsFit (suc argc)) (ArgsFit argc)
                      (args fuel (suc argc) rest') _
                      (args-Ensures fuel (suc argc) rest' (omega arith) (ground arith))
                      (λ (o : List Text × List Redir) rest'' le'' fits. (
                        omega arith,
                        (
                          omega (arith, fits.0),
                          (isword, fits.1),
                          AllRedirs-append rs o.1 ok' fits.2,
                        ),
                      )))))))

pub simple-Ensures :
    (fuel : ℕ) (ts : Text) → length ts < fuel → Ensures (length ts) IsCmd (simple fuel ts)
unfolding simple
simple-Ensures fuel ts h =
    bind-Ensures (length ts) (length ts) AllRedirs IsCmd (redirs fuel ts) _
      (redirs-Ensures fuel ts h)
      (λ rs rest le ok'.
        bind-Ensures (length rest) (length ts) (ArgsFit 0) IsCmd (args fuel 0 rest) _
          (args-Ensures fuel 0 rest (omega arith) (omega arith))
          (λ (o : List Text × List Redir) rest' le' fits. (
            omega arith,
            wrap-IsCmd (Cmd.exec o.0) (rs ++ o.1) (omega (arith, fits.0), fits.1)
                (AllRedirs-append rs o.1 ok' fits.2),
          )))

pub backs-Ensures :
    (fuel : ℕ) (c : Cmd) (ts : Text)
    → length ts < fuel
    → IsCmd c
    → Ensures (length ts) IsCmd (backs fuel c ts)
unfolding backs
backs-Ensures zero c ts h k = absurd (omega arith)
backs-Ensures (suc fuel) c ts h k =
    if_intro (Ensures (length ts) IsCmd) (peek (b'&' ∷ []) ts)
      (λ p.
        let t = peek-Taken (b'&' ∷ []) ts p in
        let us = (gettoken ts).1.1 in
        Ensures-mono (length us) (length ts) IsCmd (backs fuel (Cmd.back c) us) (omega (arith, t.0))
          (backs-Ensures fuel (Cmd.back c) us (omega (arith, t.0)) k))
      (λ _. (omega arith, k))
