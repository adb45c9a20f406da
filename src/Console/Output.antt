-- ===== src/Console/Output.antt =====
-- `consolewrite` of kernel/console.c over the ring of kernel/uart.c. `c_at` is the address of the
-- local variable `c`; `idle i` is what the device answers in the call of `uartputc` for byte `i`.
pub mod Stream
use mitcppos.Prelude.{ℕ, zero, suc, ◌+◌, ◌%◌, ◌^◌, Bool, List, Outcome, ok, ◌>>=◌}
use mitcppos.Prelude.Int.{ℤ, pos, negsuc, pos_part}
use mitcppos.Kalloc.{Kmem}
use mitcppos.Proc.Memory.{either_copyin}
use mitcppos.Uart.{Uart, Put, returns, sleeps, uartputc}

-- How a turn ends: with a result, or asleep in `uartputc` for byte `i`.
pub data Written : Type 0 where
  done : (i : ℕ) → Uart → Kmem → Written
  asleep : (i : ℕ) → Uart → Kmem → Written

module _ (pagetable c_at : ℕ) (user_src : Bool) (src : ℕ) (idle : ℕ → List Bool) where
  -- Behind `uartputc` for byte `i`.
  pub put_byte : (more : Uart → Kmem → Outcome Written) (i : ℕ) → Kmem → Put → Outcome Written
  put_byte more i k (returns u) = more u k
  put_byte more i k (sleeps u) = ok (asleep i u k)

  -- Behind `either_copyin` for byte `i`.
  pub write_byte :
      (more : Uart → Kmem → Outcome Written) (i : ℕ) → Uart → ℤ × Kmem → Outcome Written
  write_byte more i u (pos _, k) = put_byte more i k (uartputc (k.mem c_at) (idle i) u)
  write_byte more i u (negsuc _, k) = ok (done i u k)

  -- The loop with `left` bytes to write, from byte `i` on.
  pub consolewrite_loop : (left i : ℕ) → Uart → Kmem → Outcome Written
  consolewrite_loop zero i u k = ok (done i u k)
  consolewrite_loop (suc left) i u k =
      either_copyin pagetable c_at user_src ((src + i) % 2 ^ 64) 1 k
      >>= write_byte (consolewrite_loop left (i + 1)) i u

  -- A negative `n` makes no round.
  pub consolewrite : (n : ℤ) → Uart → Kmem → Outcome Written
  consolewrite n u k = consolewrite_loop (pos_part n) 0 u k
