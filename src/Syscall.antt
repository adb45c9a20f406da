-- ===== src/Syscall.antt =====
-- kernel/syscall.c: the arguments of system calls, and which call a number stands for. `k` is the
-- memory, and `p` the calling process, whose trapframe is a page.
pub mod Fetch
pub mod Sysproc
mod Tests
use mitcppos.Prelude.{
  ℕ, zero, suc, ◌+◌, ◌-◌, ◌*◌, ◌%◌, ◌^◌, ◌||◌, Option, none, some, List, [], ◌∷◌, ltb, leb, ◌==◌,
  if◌then◌else◌, get_elem?, Outcome, ok, panic, out_of_fuel, ◌>>=◌,
}
use mitcppos.Prelude.Int.{ℤ, pos, negsuc, minus_one}
use mitcppos.Mem.{load64, store64}
use mitcppos.Str.{strlen}
use mitcppos.Kalloc.{Kmem}
use mitcppos.Vm.User.{copyin, copyinstr}
use mitcppos.Proc.{Proc}
use mitcppos.Proc.Life.{Kernel}

-- `0` or -1, as `copyin` returned 0 or not
pub if_copied : ℤ × Kmem → ℤ × Kmem
if_copied (pos zero, k) = (pos 0, k)
if_copied (_, k) = (minus_one, k)

-- The word at the user address `addr` goes to `ip`.
pub fetchaddr : Proc → (addr ip : ℕ) → Kmem → Outcome (ℤ × Kmem)
fetchaddr p addr ip k =
    if leb p.sz addr || ltb p.sz ((addr + 8) % 2 ^ 64)
    then ok (minus_one, k)
    else (copyin p.pagetable ip addr 8 k >>= λ r. ok (if_copied r))

-- `strlen` looks at `max` bytes at most.
unfoldable pub string_length : (buf max : ℕ) → ℤ × Kmem → Outcome (ℤ × Kmem)
string_length buf max (negsuc n, k) = ok (negsuc n, k)
string_length buf max (pos _, k) = elim (strlen max k.mem buf) [
  | none ↦ out_of_fuel
  | some n ↦ ok (pos n, k)
]

unfoldable pub fetchstr : Proc → (addr buf max : ℕ) → Kmem → Outcome (ℤ × Kmem)
fetchstr p addr buf max k = copyinstr p.pagetable buf addr max k >>= string_length buf max

-- The registers `a0` to `a5`, one behind the other in the trapframe.
pub argraw : (n : ℕ) → Proc → Kmem → Outcome ℕ
argraw n p k = if leb n 5 then ok (load64 k.mem (p.trapframe + 112 + 8 * n)) else panic "argraw"

-- An `int` with the low 32 bits of a register.
pub to_int : ℕ → ℤ
to_int v = let low = v % 2 ^ 32 in if ltb low (2 ^ 31) then pos low else negsuc (2 ^ 32 - 1 - low)

pub argint : (n : ℕ) → Proc → Kmem → Outcome ℤ
argint n p k = argraw n p k >>= λ v. ok (to_int v)

pub argaddr : (n : ℕ) → Proc → Kmem → Outcome ℕ
argaddr n p k = argraw n p k

pub argstr : (n : ℕ) → Proc → (buf max : ℕ) → Kmem → Outcome (ℤ × Kmem)
argstr n p buf max k = argaddr n p k >>= λ addr. fetchstr p addr buf max k

-- The calls, in the order of their numbers from 1 on.
pub data Call : Type 0 where
  call_fork call_exit call_wait call_pipe call_read call_kill call_exec call_fstat call_chdir
        call_dup :
      Call
  call_getpid call_sbrk call_sleep call_uptime call_open call_write call_mknod call_unlink
        call_link :
      Call
  call_mkdir call_close call_mmap call_munmap : Call

-- The array `syscalls`, whose place 0 is empty.
pub syscalls : List Call
syscalls =
    call_fork ∷ call_exit ∷ call_wait ∷ call_pipe ∷ call_read ∷ call_kill ∷ call_exec ∷ call_fstat
    ∷ call_chdir ∷ call_dup ∷ call_getpid ∷ call_sbrk ∷ call_sleep ∷ call_uptime ∷ call_open
    ∷ call_write ∷ call_mknod ∷ call_unlink ∷ call_link ∷ call_mkdir ∷ call_close ∷ call_mmap
    ∷ call_munmap ∷ []

pub call_of : (num : ℤ) → Option Call
call_of (pos (suc n)) = get_elem? syscalls n
call_of _ = none

-- `run` makes the calls; their result is a word. What `printf` says of an unknown number is left out.
module _ {F : Type 0} (run : Call → Kernel F → Outcome (ℕ × Kernel F)) where
  pub put_a0 : (me : ℕ) → ℕ × Kernel F → Outcome (Kernel F)
  put_a0 me (r, s) = ok (record s {
    kmem = record s.kmem { mem = store64 s.kmem.mem ((s.procs me).trapframe + 112) r };
  })

  pub syscall : (me : ℕ) → Kernel F → Outcome (Kernel F)
  syscall me s = elim (call_of (to_int (load64 s.kmem.mem ((s.procs me).trapframe + 168)))) [
    | some c ↦ run c s >>= put_a0 me
    | none ↦ put_a0 me (2 ^ 64 - 1, s)
  ]
