-- ===== src/Uart.antt =====
-- The transmit buffer of kernel/uart.c: a ring of UART_TX_BUF_SIZE characters with two 64-bit
-- counters. `sent` is what has been written to the register THR, the oldest first, and `wakeups`
-- counts the calls of `wakeup`. What the device answers to the reads of LSR in a call of `uartstart`
-- is an argument: whether it is idle at the read of this number. A machine that has panicked, which
-- `uartputc` hangs on, is left out.
pub mod Ring
mod Tests
use mathlib.Core.Option
use cs202_lab.Prelude.{
  ℕ, zero, suc, ◌+◌, ◌-◌, ◌%◌, ◌^◌, Bool, true, false, not, List, [], ◌∷◌, ◌++◌, ◌==◌, Option, none,
  some, if◌then◌else◌, get_or, set,
}

abbrev pub uart_tx_buf_size : ℕ
uart_tx_buf_size = 32

pub record Uart : Type 0 where
  pub uart_tx_buf : List ℕ
  pub uart_tx_w : ℕ
  pub uart_tx_r : ℕ
  pub sent : List ℕ
  pub wakeups : ℕ

abbrev pub add64 : ℕ → ℕ → ℕ
add64 a b = (a + b) % 2 ^ 64

abbrev pub sub64 : ℕ → ℕ → ℕ
sub64 a b = (a + 2 ^ 64 - b) % 2 ^ 64

-- The oldest character goes to the device.
abbrev pub send_one : Uart → Uart
send_one s = record s {
  uart_tx_r = add64 s.uart_tx_r 1;
  sent = s.sent ++ get_or s.uart_tx_buf (s.uart_tx_r % uart_tx_buf_size) 0 ∷ [];
  wakeups = suc s.wakeups;
}

-- The loop of `uartstart`, at its round `k`.
abbrev pub start_round : (Uart → Option Uart) → Uart → Bool → Bool → Option Uart
start_round more s true idle = some s
start_round more s false false = some s
start_round more s false true = more (send_one s)

unfoldable pub start_loop : (ℕ → Bool) → ℕ → ℕ → Uart → Option Uart
start_loop idle zero k s = if s.uart_tx_w == s.uart_tx_r then some s else none
start_loop idle (suc fuel) k s =
    start_round (start_loop idle fuel (suc k)) s (s.uart_tx_w == s.uart_tx_r) (idle k)

unfoldable pub uartstart : (ℕ → Bool) → Uart → Option Uart
unfolding start_loop
uartstart idle s = start_loop idle (sub64 s.uart_tx_w s.uart_tx_r) 0 s

abbrev pub is_tx_full : Uart → Bool
is_tx_full s = s.uart_tx_w == add64 s.uart_tx_r uart_tx_buf_size

-- The `int` is stored as a `char`.
abbrev pub store_char : ℕ → Uart → Uart
store_char c s = record s {
  uart_tx_buf = set s.uart_tx_buf (s.uart_tx_w % uart_tx_buf_size) (c % 256);
  uart_tx_w = add64 s.uart_tx_w 1;
}

-- A round of `uartputc`, and whether it returns; if not, it sleeps.
unfoldable pub uartputc : (ℕ → Bool) → ℕ → Uart → Option (Bool × Uart)
unfolding uartstart
uartputc idle c s =
    let run = uartstart idle (store_char c s) in
    if is_tx_full s then some (false, s) else Option.map (λ s'. (true, s')) run
