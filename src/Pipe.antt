-- ===== src/Pipe.antt =====
-- kernel/pipe.c: a pipe's ring of bytes, and `pipewrite`, `piperead` and `pipeclose` on it. The
-- functions hold the pipe's lock except where they sleep, so that each is a sequence of turns: a
-- turn runs up to the return or to a `sleep`, and a sleeper, woken up, takes another turn.
use mitcppos.Prelude.{
  ℕ, zero, suc, ◌+◌, ◌*◌, ◌%◌, ◌^◌, Bool, true, false, not, ◌&&◌, ◌||◌, List, [], ◌∷◌, ◌==◌,
  if◌then◌else◌, Outcome, ok, ◌>>=◌,
}
use mitcppos.Prelude.Int.{ℤ, pos, negsuc, pos_part, minus_one}
use mitcppos.Mem.{store}
use mitcppos.Kalloc.{Kmem, kfree}
use mitcppos.Vm.User.{copyin, copyout}
pub mod Queue
pub mod Write
pub mod Read
mod Tests

abbrev pub pipesize : ℕ
pipesize = 512

-- The counters are of type `uint`.
abbrev pub uint_size : ℕ
uint_size = 2 ^ 32

-- The addresses of a pipe's two counters, as channels that processes sleep on.
pub data Channel : Type 0 where
  nread_chan nwrite_chan : Channel

-- `buf` is the array `data`.
pub record Pipe : Type 0 where
  pub buf : ℕ → ℕ
  pub nread : ℕ
  pub nwrite : ℕ
  pub readopen : Bool
  pub writeopen : Bool

-- A pipe, the kernel's memory, and the calls of `wakeup`, the last one first.
pub record State : Type 0 where
  pub pipe : Pipe
  pub kmem : Kmem
  pub woken : List Channel

abbrev pub wakeup : Channel → State → State
wakeup c s = record s { woken = c ∷ s.woken }

-- What ends a turn: a return with a result, or a `sleep` after `i` bytes.
pub data Turn : Type 0 where
  returns : (r : ℤ) → State → Turn
  sleeps : (i : ℕ) → State → Turn

-- `pi->data[pi->nwrite++ % PIPESIZE] = ch`
pub put : (ch : ℕ) → Pipe → Pipe
put ch p = record p {
  buf = λ j. if j == p.nwrite % pipesize then ch else p.buf j;
  nwrite = (p.nwrite + 1) % uint_size;
}

-- `pi->data[pi->nread++ % PIPESIZE]`: the byte, and the pipe without it
pub get : Pipe → ℕ × Pipe
get p = (p.buf (p.nread % pipesize), record p { nread = (p.nread + 1) % uint_size })

abbrev pub is_full : Pipe → Bool
is_full p = p.nwrite == (p.nread + pipesize) % uint_size

abbrev pub is_empty : Pipe → Bool
is_empty p = p.nread == p.nwrite

-- `pagetable` and `killed` are those of the calling process, and `ch` is the address of the local
-- variable of that name, on the kernel stack.
module _ (pagetable ch : ℕ) (killed : Bool) (addr : ℕ) where
  -- The loop with `left` bytes to write, `i` of them written.
  pub pipewrite_loop : (left i : ℕ) → State → Outcome Turn
  pipewrite_loop zero i s = ok (returns (pos i) (wakeup nread_chan s))
  pipewrite_loop (suc left) i s =
      let copied : ℤ × Kmem → Outcome Turn = λ (r, k). elim r [
        | negsuc zero ↦ ok (returns (pos i) (wakeup nread_chan (record s { kmem = k })))
        | _ ↦ pipewrite_loop left (i + 1) (record s { pipe = put (k.mem ch) s.pipe; kmem = k })
      ] in
      if not s.pipe.readopen || killed
      then ok (returns minus_one s)
      else (if is_full s.pipe
          then ok (sleeps i (wakeup nread_chan s))
          else (copyin pagetable ch ((addr + i) % 2 ^ 64) 1 s.kmem >>= copied))

  -- A negative `n` makes no round.
  pub pipewrite : (n : ℤ) → State → Outcome Turn
  pipewrite n s = pipewrite_loop (pos_part n) 0 s

  pub piperead_loop : (left i : ℕ) → State → Outcome (ℕ × State)
  piperead_loop zero i s = ok (i, s)
  piperead_loop (suc left) i s =
      let (c, p) = get s.pipe in
      let copied : ℤ × Kmem → Outcome (ℕ × State) = λ (r, k). elim r [
        | negsuc zero ↦ ok (i, record s { pipe = p; kmem = k })
        | _ ↦ piperead_loop left (i + 1) (record s { pipe = p; kmem = k })
      ] in
      let k = record s.kmem { mem = store s.kmem.mem ch c } in
      if is_empty s.pipe
      then ok (i, s)
      else (copyout pagetable ((addr + i) % 2 ^ 64) ch 1 k >>= copied)

  pub piperead : (n : ℤ) → State → Outcome Turn
  piperead n s =
      if is_empty s.pipe && s.pipe.writeopen
      then (if killed then ok (returns minus_one s) else ok (sleeps 0 s))
      else (piperead_loop (pos_part n) 0 s >>= λ (i, s').
          ok (returns (pos i) (wakeup nwrite_chan s')))

-- `pi` is the address of the pipe's page, which goes back to the allocator with the last end.
pub pipeclose : (kernel_end pi : ℕ) (writable : Bool) → State → Outcome State
pipeclose kernel_end pi writable s =
    let s' = record s {
      pipe = record s.pipe {
        readopen = writable && s.pipe.readopen;
        writeopen = not writable && s.pipe.writeopen;
      };
      woken = (if writable then nread_chan else nwrite_chan) ∷ s.woken;
    } in
    if not s'.pipe.readopen && not s'.pipe.writeopen
    then (kfree kernel_end pi s'.kmem >>= λ k. ok (record s' { kmem = k }))
    else ok s'
