-- ===== src/Syscall/Sysproc.antt =====
-- kernel/sysproc.c: the system calls on processes. A result of type `int` or `uint` is given as it is
-- before it becomes the word in the register `a0`.
use mitcppos.Prelude.{
  ℕ, ◌+◌, ◌-◌, ◌%◌, ◌^◌, Bool, Option, ltb, ◌==◌, if◌then◌else◌, Outcome, ok, ◌>>=◌,
}
use mitcppos.Prelude.Int.{ℤ, pos, negsuc, minus_one}
use mitcppos.Kalloc.{Kmem}
use mitcppos.Spinlock.{Spinlock, Cpu}
use mitcppos.Proc.{Proc, kill}
use mitcppos.Proc.Memory.{growproc}
use mitcppos.Proc.Life.{Kernel, FileOps, fork, exit, wait}
use mitcppos.Syscall.{argint, argaddr, to_int}

-- The word of an `int`: sign-extended.
pub word : ℤ → ℕ
word (pos n) = n
word (negsuc n) = 2 ^ 64 - 1 - n

-- How a turn of `sys_sleep` ends: with a result, or asleep on `ticks`.
pub data Rest : Type 0 where
  returns : ℤ → Rest
  sleeps : Rest

-- `ticks - ticks0 < n`, where both sides are taken as `uint`
pub sleep_turn : (killed : Bool) (n : ℤ) (ticks0 ticks : ℕ) → Rest
sleep_turn killed n ticks0 ticks =
    if ltb ((ticks + (2 ^ 32 - ticks0)) % 2 ^ 32) (word n % 2 ^ 32)
    then (if killed then returns minus_one else sleeps)
    else returns (pos 0)

pub sys_uptime : (ticks : ℕ) → ℕ
sys_uptime ticks = ticks

module _ {F : Type 0} where
  -- The arguments are those of process `me`.
  abbrev with_int : {A : Type 0} (me n : ℕ) → Kernel F → (ℤ → Outcome A) → Outcome A
  with_int me n s go = argint n (s.procs me) s.kmem >>= go

  -- `ticks0` is what `ticks` says at the beginning, when the first turn is made.
  pub sys_sleep : (me ticks : ℕ) → Kernel F → Outcome Rest
  sys_sleep me ticks s = with_int me 0 s (λ n. ok (sleep_turn (s.procs me).killed n ticks ticks))

  pub sys_getpid : (me : ℕ) → Kernel F → ℕ
  sys_getpid me s = (s.procs me).pid

  pub sys_kill : (me : ℕ) → Kernel F → Outcome (ℤ × Kernel F)
  sys_kill me s =
      with_int me 0 s
        λ pid. let (r, t) = kill (word pid % 2 ^ 32) s.procs in ok (r, record s { procs = t })

  -- `addr` is an `int`.
  pub sys_sbrk : (kernel_end me : ℕ) → Kernel F → Outcome (ℤ × Kernel F)
  sys_sbrk kernel_end me s = with_int me 0 s λ n.
      let addr = to_int (s.procs me).sz in
      let grown : ℤ × Proc × Kmem → Outcome (ℤ × Kernel F) = λ (r, p, k).
        let s' = record s { procs = λ q. if q == me then p else s.procs q; kmem = k } in
        elim r [ negsuc _ ↦ ok (minus_one, s') | pos _ ↦ ok (addr, s') ] in
      growproc kernel_end n (s.procs me) s.kmem >>= grown

  module _ (ops : FileOps F) (kernel_end trampoline forkret : ℕ) where
    -- `lk` and `c` are the process's lock and the processor when `sched` is called.
    pub sys_exit : (me cpu : ℕ) → Spinlock → Cpu → Kernel F → Outcome (Kernel F)
    sys_exit me cpu lk c s =
        with_int me 0 s λ n. exit ops kernel_end trampoline forkret (word n % 2 ^ 32) me cpu lk c s

    pub sys_fork : (me : ℕ) → Kernel F → Outcome (ℤ × Kernel F)
    sys_fork me s = fork ops kernel_end trampoline forkret me s

    -- none where the process goes to sleep
    pub sys_wait : (xstate_at : ℕ → ℕ) (me : ℕ) → Kernel F → Outcome (Option ℤ × Kernel F)
    sys_wait xstate_at me s = argaddr 0 (s.procs me) s.kmem >>= λ p.
        wait ops kernel_end trampoline forkret xstate_at me p s
