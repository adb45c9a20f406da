-- ===== src/Proc.antt =====
-- kernel/proc.c: the process table and what changes the state of a process. A process is the number
-- of its entry in the array `proc`; `me` is that of `myproc()`. What is done to an entry under its
-- lock is one step of the model.
use mitcppos.Prelude.{
  ℕ, zero, suc, ◌+◌, ◌%◌, ◌^◌, ◌-◌, Bool, true, false, not, ◌&&◌, Option, none, some, List, ◌==◌,
  if◌then◌else◌, Outcome, ok, panic,
}
use mitcppos.Prelude.Int.{ℤ, pos, minus_one}
use mitcppos.Riscv.{nproc, kstack}
use mitcppos.Mmap.{Mmapitem}
use mitcppos.Spinlock.{Spinlock, Cpu, holding}
pub mod Table
pub mod Schedule
pub mod Memory
pub mod Life
mod Tests

pub data Procstate : Type 0 where
  unused sleeping runnable running zombie : Procstate

abbrev pub is_unused : Procstate → Bool
is_unused unused = true
is_unused _ = false

abbrev pub is_sleeping : Procstate → Bool
is_sleeping sleeping = true
is_sleeping _ = false

abbrev pub is_runnable : Procstate → Bool
is_runnable runnable = true
is_runnable _ = false

abbrev pub is_running : Procstate → Bool
is_running running = true
is_running _ = false

abbrev pub is_zombie : Procstate → Bool
is_zombie zombie = true
is_zombie _ = false

-- What a process sleeps on: nothing (0), the address of some object, or an entry of the table.
pub data Chan : Type 0 where
  nowhere : Chan
  address : ℕ → Chan
  process : ℕ → Chan

abbrev pub same_chan : Chan → Chan → Bool
same_chan nowhere nowhere = true
same_chan (address a) (address b) = a == b
same_chan (process p) (process q) = p == q
same_chan _ _ = false

-- a pointer into the table, against an entry
abbrev pub points_to : Option ℕ → ℕ → Bool
points_to none p = false
points_to (some q) p = q == p

-- `saved` are the registers `s0` to `s11`.
pub record Context : Type 0 where
  pub ra : ℕ
  pub sp : ℕ
  pub saved : ℕ → ℕ

-- `pagetable` and `trapframe` are addresses, files and the inode `cwd` are numbers of their tables.
pub record Proc : Type 0 where
  pub state : Procstate
  pub parent : Option ℕ
  pub chan : Chan
  pub killed : Bool
  pub xstate : ℕ
  pub pid : ℕ
  pub kstack : ℕ
  pub sz : ℕ
  pub pagetable : ℕ
  pub trapframe : ℕ
  pub context : Context
  pub ofile : ℕ → Option ℕ
  pub cwd : Option ℕ
  pub name : ℕ → ℕ
  pub vma : List Mmapitem

-- the array `proc`
abbrev pub Procs : Type 0
Procs = ℕ → Proc

abbrev pub put_proc : ℕ → Proc → Procs → Procs
put_proc p v t = λ q. if q == p then v else t q

-- `for(p = proc; p < &proc[NPROC]; p++)` with `n` entries left, from `p` on
pub each : (ℕ → Proc → Proc) → (n p : ℕ) → Procs → Procs
each f zero p t = t
each f (suc n) p t = each f n (p + 1) (put_proc p (f p (t p)) t)

pub procinit : Procs → Procs
procinit t = each (λ p v. record v { kstack = mitcppos.Riscv.kstack p }) nproc 0 t

-- The number, and `nextpid` afterwards: an `int`, as its 32 bits.
pub allocpid : (nextpid : ℕ) → ℕ × ℕ
allocpid nextpid = (nextpid, (nextpid + 1) % 2 ^ 32)

-- `if(p->state == SLEEPING && p->chan == chan) p->state = RUNNABLE;`
pub wake_one : Chan → Proc → Proc
wake_one chan p = record p {
  state = if is_sleeping p.state && same_chan p.chan chan then runnable else p.state;
}

pub wakeup : Chan → Procs → Procs
wakeup chan t = each (λ _. wake_one chan) nproc 0 t

-- `held` is `holding(&p->lock)`.
pub wakeup1 : (held : Bool) (p : ℕ) → Procs → Outcome Procs
wakeup1 held p t =
    if not held then panic "wakeup1" else ok (put_proc p (wake_one (process p) (t p)) t)

-- `p->killed = 1`, and a sleeper wakes
pub kill_one : Proc → Proc
kill_one p = record p { killed = true; state = if is_sleeping p.state then runnable else p.state }

-- `pid` is an `int`; a negative one is no process's.
pub kill_loop : (n p : ℕ) → (pid : ℕ) → Procs → ℤ × Procs
kill_loop zero p pid t = (minus_one, t)
kill_loop (suc n) p pid t =
    let rest = kill_loop n (p + 1) pid t in
    if (t p).pid == pid then (pos 0, put_proc p (kill_one (t p)) t) else rest

pub kill : (pid : ℕ) → Procs → ℤ × Procs
kill pid t = kill_loop nproc 0 pid t

-- `if(pp->parent == p) pp->parent = initproc;`
pub adopt : (initproc p : ℕ) → Proc → Proc
adopt initproc p pp = record pp {
  parent = if points_to pp.parent p then some initproc else pp.parent;
}

pub reparent : (initproc p : ℕ) → Procs → Procs
reparent initproc p t = each (λ _. adopt initproc p) nproc 0 t

-- `sched` up to its `swtch`: the flag that is put back behind it. `cpu` is the processor's number,
-- and `lk` is `p->lock`.
pub sched : (cpu : ℕ) → (lk : Spinlock) → Cpu → Proc → Outcome Bool
sched cpu lk c p =
    if not (holding cpu lk)
    then panic "sched p->lock"
    else (if not (c.noff == 1)
        then panic "sched locks"
        else (if is_running p.state
            then panic "sched running"
            else (if c.intr then panic "sched interruptible" else ok c.intena)))

-- `mycpu()->intena = intena`
pub sched_return : (intena : Bool) → Cpu → Cpu
sched_return intena c = record c { intena = intena }

-- `yield` and `sleep` up to `sched`, and `sleep` behind it
pub yield : Proc → Proc
yield p = record p { state = runnable }

pub sleep_enter : Chan → Proc → Proc
sleep_enter chan p = record p { chan = chan; state = sleeping }

pub sleep_return : Proc → Proc
sleep_return p = record p { chan = nowhere }

-- The scheduler's loop at entry `p`: `none` where the entry is passed over.
pub pick : (cpu p : ℕ) → Procs → (cpu_proc : ℕ → Option ℕ) → Option (Procs × (ℕ → Option ℕ))
pick cpu p t cpu_proc =
    if is_runnable (t p).state
    then some (
      put_proc p (record (t p) { state = running }) t,
      λ c. if c == cpu then some p else cpu_proc c,
    )
    else none

-- `c->proc = 0`, when the process has switched back
pub unpick : (cpu : ℕ) → (cpu_proc : ℕ → Option ℕ) → ℕ → Option ℕ
unpick cpu cpu_proc = λ c. if c == cpu then none else cpu_proc c

-- `nproc` of a pass of the scheduler, which waits for an interrupt if it is 2 at most.
pub count_used : (n p : ℕ) → Procs → ℕ
count_used zero p t = 0
count_used (suc n) p t = (if is_unused (t p).state then 0 else 1) + count_used n (p + 1) t
