-- ===== src/Uart/Tests.antt =====
-- The theorem on the transmit buffer at a concrete call.
use cs202_lab.Prelude.{ℕ, ◌^◌, ◌-◌, refl, Bool, [], replicate, arith, ◌==◌}
use cs202_lab.Uart.{Uart, uartputc}
use cs202_lab.Uart.Ring.{IsValid, Put, uartputc_lem}

-- An empty buffer whose counters are about to wrap around.
abbrev late : Uart
late = record {
  uart_tx_buf = replicate 32 0;
  uart_tx_w = 2 ^ 64 - 1;
  uart_tx_r = 2 ^ 64 - 1;
  sent = [];
  wakeups = 0;
}

late-IsValid : IsValid late
late-IsValid = record {
  storage = refl;
  reads = omega arith;
  writes = omega arith;
  bounded = omega arith;
}

-- The device takes one character.
abbrev idle_once : ℕ → Bool
idle_once k = k == 0

uartputc_lem_example : Put idle_once 65 late (uartputc idle_once 65 late)
uartputc_lem_example = uartputc_lem idle_once 65 late late-IsValid
