-- ===== src/Uart.antt =====
-- kernel/uart.c: the ring of characters to send. `sent` has what was written to the register THR, the
-- last one first; what the register LSR says each time that it is read is an argument. `wakeups`
-- counts the calls of `wakeup(&uart_tx_r)`. No processor has panicked.
use mitcppos.Prelude.{
  ℕ, zero, suc, ◌+◌, ◌%◌, ◌^◌, Bool, true, false, List, [], ◌∷◌, ◌==◌, if◌then◌else◌,
}
pub mod Fifo
mod Tests

abbrev pub uart_tx_buf_size : ℕ
uart_tx_buf_size = 32

pub record Uart : Type 0 where
  pub tx_buf : ℕ → ℕ
  pub tx_w : ℕ
  pub tx_r : ℕ
  pub sent : List ℕ
  pub wakeups : ℕ

-- The character at `tx_r` goes out.
abbrev pub send_one : Uart → Uart
send_one u = record u {
  tx_r = (u.tx_r + 1) % 2 ^ 64;
  sent = u.tx_buf (u.tx_r % uart_tx_buf_size) ∷ u.sent;
  wakeups = u.wakeups + 1;
}

-- The loop, with the answers of the device: whether it takes another character. It is not asked
-- when the ring is empty, and the last answer is no.
pub uartstart : (idle : List Bool) → Uart → Uart
uartstart [] u = u
uartstart (false ∷ idle) u = u
uartstart (true ∷ idle) u =
    let rest = uartstart idle (send_one u) in if u.tx_w == u.tx_r then u else rest

-- How a turn of `uartputc` ends.
pub data Put : Type 0 where
  returns : Uart → Put
  sleeps : Uart → Put

-- `c` is a byte, so that `char` keeps it.
abbrev pub store_tx : (c : ℕ) → Uart → Uart
store_tx c u = record u {
  tx_buf = λ i. if i == u.tx_w % uart_tx_buf_size then c else u.tx_buf i;
  tx_w = (u.tx_w + 1) % 2 ^ 64;
}

-- `uartputc` from its lock or a sleep on.
pub uartputc : (c : ℕ) (idle : List Bool) → Uart → Put
uartputc c idle u =
    if u.tx_w == (u.tx_r + uart_tx_buf_size) % 2 ^ 64
    then sleeps u
    else returns (uartstart idle (store_tx c u))
