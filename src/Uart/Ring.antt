-- ===== src/Uart/Ring.antt =====
-- The transmit buffer as a queue of characters.
use cs202_lab.Prelude.{
  ℕ, zero, suc, ◌+◌, ◌%◌, ◌^◌, ◌<◌, ◌≤◌, ◌≡◌, ◌⊎◌, inl, inr, refl, sym, Bool, true, false, List, [],
  ◌∷◌, ◌++◌, arith, length, get_or, set, ap, ap₂, ◌∙◌, length-set, get_or-set_self, get_or-set_ne,
  ◌==◌, Option, none, some, Bool-cases,
}
use mathlib.Core.Option
use cs202_lab.Uart.{
  Uart, uart_tx_buf_size, add64, sub64, send_one, start_loop, uartstart, is_tx_full, store_char,
  uartputc,
}

-- The `n` characters from counter `r` on.
abbrev pub window : List ℕ → ℕ → ℕ → List ℕ
window chars r zero = []
window chars r (suc n) = get_or chars (r % uart_tx_buf_size) 0 ∷ window chars (r + 1) n

abbrev pub held : Uart → ℕ
held s = sub64 s.uart_tx_w s.uart_tx_r

-- All characters that have come in, sent or not.
abbrev pub stream : Uart → List ℕ
stream s = s.sent ++ window s.uart_tx_buf s.uart_tx_r (held s)

pub record IsValid (s : Uart) : Type 0 where
  pub storage : length s.uart_tx_buf ≡ uart_tx_buf_size
  pub reads : s.uart_tx_r < 2 ^ 64
  pub writes : s.uart_tx_w < 2 ^ 64
  pub bounded : held s ≤ uart_tx_buf_size

window-congr :
    (chars : List ℕ) (r r' n : ℕ)
    → r % uart_tx_buf_size ≡ r' % uart_tx_buf_size
    → window chars r n ≡ window chars r' n
window-congr chars r r' zero e = refl
window-congr chars r r' (suc n) e =
    ap₂ ◌∷◌ (ap (λ i. get_or chars i 0) e) (window-congr chars (r + 1) (r' + 1) n (omega arith))

window-set :
    (chars : List ℕ) (x n r i : ℕ)
    → length chars ≡ uart_tx_buf_size
    → n < uart_tx_buf_size
    → i ≡ (r + n) % uart_tx_buf_size
    → window (set chars i x) r (suc n) ≡ window chars r n ++ (x ∷ [])
window-set chars x zero r i len lt e =
    let at : i ≡ r % uart_tx_buf_size = omega arith in
    rw at (ap (λ c. c ∷ []) (get_or-set_self chars (r % uart_tx_buf_size) x 0 (omega arith)))
window-set chars x (suc n) r i len lt e =
    ap₂ ◌∷◌
      (get_or-set_ne chars {i = i} {j = r % uart_tx_buf_size} x 0
        (λ (q : i ≡ r % uart_tx_buf_size). omega arith))
      (window-set chars x n (r + 1) i len (omega arith) (omega arith))

append_assoc : (xs ys zs : List ℕ) → (xs ++ ys) ++ zs ≡ xs ++ (ys ++ zs)
append_assoc [] ys zs = refl
append_assoc (x ∷ xs) ys zs = ap (λ l. x ∷ l) (append_assoc xs ys zs)

store_char_lem :
    (c : ℕ) (s : Uart)
    → IsValid s
    → is_tx_full s ≡ false
    → IsValid (store_char c s) × (stream (store_char c s) ≡ stream s ++ c % 256 ∷ [])
store_char_lem c s v free =
    let room : held s < uart_tx_buf_size = ground (arith, v.bounded, v.reads, v.writes) in
    let grown : sub64 (add64 s.uart_tx_w 1) s.uart_tx_r ≡ suc (held s) =
      omega (arith, v.reads, v.writes, room) in
    (
      record {
        storage = length-set s.uart_tx_buf (s.uart_tx_w % uart_tx_buf_size) (c % 256) ∙ v.storage;
        reads = v.reads;
        writes = omega arith;
        bounded = rw grown room;
      },
      rw grown (
          ap (λ l. s.sent ++ l)
            (window-set s.uart_tx_buf (c % 256) (held s) s.uart_tx_r
              (s.uart_tx_w % uart_tx_buf_size) v.storage room (omega (arith, v.reads, v.writes)))
          ∙ sym (append_assoc s.sent (window s.uart_tx_buf s.uart_tx_r (held s)) (c % 256 ∷ []))),
    )

send_one_lem :
    (n : ℕ) (s : Uart)
    → IsValid s
    → held s ≡ suc n
    → IsValid (send_one s) × (held (send_one s) ≡ n) × (stream (send_one s) ≡ stream s)
send_one_lem n s v e =
    let less : sub64 s.uart_tx_w (add64 s.uart_tx_r 1) ≡ n = omega (arith, e, v.reads, v.writes) in
    (
      record {
        storage = v.storage;
        reads = omega arith;
        writes = v.writes;
        bounded = omega (arith, v.bounded, less, e);
      },
      less,
      rw (less, e)
          (append_assoc s.sent (get_or s.uart_tx_buf (s.uart_tx_r % uart_tx_buf_size) 0 ∷ []) _
            ∙ ap (λ l. s.sent ++ (get_or s.uart_tx_buf (s.uart_tx_r % uart_tx_buf_size) 0 ∷ l))
                (window-congr s.uart_tx_buf (add64 s.uart_tx_r 1) (s.uart_tx_r + 1) n
                  (omega arith))),
    )

-- What `uartstart` does: it stops at an empty buffer, or where the device is not idle.
abbrev pub Started : (ℕ → Bool) → Uart → Option Uart → Type 0
Started idle s none = ⊥
Started idle s (some s') =
    IsValid s'
    × (stream s' ≡ stream s)
    × ((held s' ≡ 0) ⊎ ((k : ℕ) × (k < uart_tx_buf_size) × (idle k ≡ false)))

start_loop-Started :
    (idle : ℕ → Bool) (n k : ℕ) (s : Uart)
    → IsValid s
    → held s ≡ n
    → k + n ≤ uart_tx_buf_size
    → Started idle s (start_loop idle n k s)
unfolding start_loop
start_loop-Started idle zero k s v e le =
    let done : (s.uart_tx_w == s.uart_tx_r) ≡ true = ground (arith, e, v.reads, v.writes) in
    rw done (v, refl, inl e)
start_loop-Started idle (suc n) k s v e le =
    let more : (s.uart_tx_w == s.uart_tx_r) ≡ false = ground (arith, e, v.reads, v.writes) in
    rw more (elim (Bool-cases (idle k)) [
      | inl h ↦
          let (v', e', same) = send_one_lem n s v e in
          rw h (
            from (start_loop idle n (suc k) (send_one s)) same
              (start_loop-Started idle n (suc k) (send_one s) v' e' (omega arith)))
      | inr h ↦ rw h (v, refl, inr (k, omega arith, h))
    ])
  where
    from :
        (o : Option Uart)
        → stream (send_one s) ≡ stream s
        → Started idle (send_one s) o
        → Started idle s o
    from none same f = f
    from (some s') same (v', e', stop) = (v', e' ∙ same, stop)

-- What a round of `uartputc` does.
abbrev pub Put : (ℕ → Bool) → ℕ → Uart → Option (Bool × Uart) → Type 0
Put idle c s none = ⊥
Put idle c s (some (false, s')) = (held s ≡ uart_tx_buf_size) × (s' ≡ s)
Put idle c s (some (true, s')) =
    IsValid s'
    × (stream s' ≡ stream s ++ c % 256 ∷ [])
    × ((held s' ≡ 0) ⊎ ((k : ℕ) × (k < uart_tx_buf_size) × (idle k ≡ false)))

-- On a valid buffer, a round of `uartputc` sleeps only if the buffer is full, and then changes
-- nothing. Else it returns with a valid buffer, where the low eight bits of the character follow all
-- those that came in before, sent or waiting, in their order; and it leaves characters waiting only
-- if the device was not idle at one of its first 32 answers.
pub uartputc_lem :
    (idle : ℕ → Bool) (c : ℕ) (s : Uart) → IsValid s → Put idle c s (uartputc idle c s)
unfolding uartputc uartstart
uartputc_lem idle c s v = elim (Bool-cases (is_tx_full s)) [
  | inl h ↦ rw h (ground (arith, v.reads, v.writes, v.bounded), refl)
  | inr h ↦
      let (v', same) = store_char_lem c s v h in
      rw h (
        from _ same (
          start_loop-Started idle (held (store_char c s)) 0 (store_char c s) v' refl
            (omega (arith, v'.bounded))))
]
  where
    from :
        (o : Option Uart)
        → stream (store_char c s) ≡ stream s ++ c % 256 ∷ []
        → Started idle (store_char c s) o
        → Put idle c s (Option.map (λ s'. (true, s')) o)
    from none same f = f
    from (some s') same (v', e', stop) = (v', e' ∙ same, stop)
