-- ===== src/Console/Input.antt =====
-- `consoleread` of kernel/console.c, as turns between sleeps. `pagetable` is the calling process's,
-- `ch` is where it has `cbuf`.
use mitcppos.Prelude.{
  ℕ, zero, suc, ◌+◌, ◌-◌, ◌%◌, ◌^◌, Bool, ltb, ◌==◌, if◌then◌else◌, Outcome, ok, ◌>>=◌,
}
use mitcppos.Prelude.Int.{ℤ, pos, negsuc, minus_one}
use mitcppos.Mem.{store}
use mitcppos.Kalloc.{Kmem}
use mitcppos.Proc.Memory.{either_copyout}
use mitcppos.Console.{input_buf, newline, ctrl_d, Cons}

-- How a turn ends: `consoleread` returns, or sleeps with `n` bytes still wanted at `dst`.
pub data Turn : Type 0 where
  returns : (r : ℤ) → Cons → Kmem → Turn
  sleeps : (n dst : ℕ) → Cons → Kmem → Turn

module _ (pagetable ch : ℕ) (user_dst killed : Bool) (target : ℕ) where
  -- Behind the copy of character `c` with `n` bytes left behind it; `more` is the next round.
  unfoldable pub read_char : (c n : ℕ) (more : Kmem → Outcome Turn) → Cons → ℤ × Kmem → Outcome Turn
  read_char c n more s (negsuc _, k) = ok (returns (pos (target - suc n)) s k)
  read_char c n more s (pos _, k) =
      if c == newline then ok (returns (pos (target - n)) s k) else more k

  -- The loop, with `n` bytes wanted of `target`.
  unfoldable pub consoleread_loop : (n dst : ℕ) → Cons → Kmem → Outcome Turn
  consoleread_loop zero dst s k = ok (returns (pos target) s k)
  consoleread_loop (suc n) dst s k =
      let c = s.buf (s.r % input_buf) in
      let taken = record s { r = (s.r + 1) % 2 ^ 32 } in
      let more = consoleread_loop n (dst + 1) taken in
      let copied =
        either_copyout pagetable user_dst dst ch 1 (record k { mem = store k.mem ch c })
        >>= read_char c n more taken in
      let back = record taken { r = (taken.r + (2 ^ 32 - 1)) % 2 ^ 32 } in
      let eof = if ltb (suc n) target then back else taken in
      if s.r == s.w
      then ok (if killed then returns minus_one s k else sleeps (suc n) dst s k)
      else (if c == ctrl_d then ok (returns (pos (target - suc n)) eof k) else copied)

-- A turn at the beginning, for `n` bytes.
unfoldable pub consoleread :
    (pagetable ch : ℕ) (user_dst killed : Bool) (dst n : ℕ) → Cons → Kmem → Outcome Turn
consoleread pagetable ch user_dst killed dst n s k =
    consoleread_loop pagetable ch user_dst killed n n dst s k
