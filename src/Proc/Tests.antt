-- ===== src/Proc/Tests.antt =====
-- A table with init at 0, a shell at 1 that waits for its child at 2, and a child of that at 3.
use mitcppos.Prelude.{
  ℕ, zero, suc, ◌+◌, ◌*◌, ◌<◌, ◌≡◌, refl, true, false, Option, none, some, [], ok, arith, ◌==◌,
  if◌then◌else◌, OnOk,
}
use mitcppos.Mem.{Mem, store64}
use mitcppos.Riscv.{nproc}
use mitcppos.Proc.{
  Proc, Procs, unused, sleeping, runnable, running, nowhere, process, points_to, kill, put_proc,
  pick,
}
use mitcppos.Spinlock.{Spinlock, Cpu, holding, held_by}
use mitcppos.Proc.Table.{sleeps_on, Killed, kill-Killed}
use mitcppos.Proc.Schedule.{System, picks, kills, Reach, here, next, Apart, Reach-Apart}
use mitcppos.Proc.Life.{Kernel, FileOps, exit_zombie, wait_scan, fork}
use mitcppos.Proc.Life.Exit.{is_dead_child, exit_zombie-seen}
use mitcppos.Proc.Life.Pids.{Pids, Born, fork-Born}

abbrev blank : Proc
blank = record {
  state = unused;
  parent = none;
  chan = nowhere;
  killed = false;
  xstate = 0;
  pid = 0;
  kstack = 0;
  sz = 0;
  pagetable = 0;
  trapframe = 0;
  context = record { ra = 0; sp = 0; saved = λ _. 0 };
  ofile = λ _. none;
  cwd = none;
  name = λ _. 0;
  vma = [];
}

abbrev shell : Proc
shell = record blank { state = sleeping; parent = some 0; chan = process 1; pid = 2 }

abbrev table : Procs
table = λ p.
    if p == 0
    then record blank { state = runnable; pid = 1 }
    else (if p == 1
        then shell
        else (if p == 2
            then record blank { state = running; parent = some 1; pid = 3 }
            else (if p == 3
                then record blank { state = runnable; parent = some 2; pid = 4 }
                else blank)))

kill-Killed_example : Killed nproc 0 2 table (kill 2 table)
kill-Killed_example = kill-Killed 2 table

abbrev cpus : ℕ → Option ℕ
cpus c = if c == 0 then some 2 else none

abbrev start : System
start = record { procs = table; cpu_proc = cpus }

start-Apart : Apart start
start-Apart = record { one = λ c d p e f. ground (arith, e, f); runs = λ c p e. ground (arith, e) }

abbrev later : System
later = record {
  procs = (kill 2 (put_proc 0 (record (table 0) { state = running }) table)).1;
  cpu_proc = λ d. if d == 1 then some 0 else cpus d;
}

later-Reach : Reach start later
unfolding pick
later-Reach = next (next here (picks 1 0 refl refl)) (kills 2)

Reach-Apart_example : Apart later
Reach-Apart_example = Reach-Apart later-Reach start-Apart

-- Process 2 has read that its parent is 1, and then became a child of init.
abbrev orphaned : Procs
orphaned = put_proc 2 (record (table 2) { parent = some 0 }) table

abbrev own_lock : Spinlock
own_lock = record { locked = true; cpu = some 0 }

abbrev processor : Cpu
processor = record { noff = 1; intena = true; intr = false }

exit_zombie-seen_example :
    (t : Procs) × (c : ℕ) × (exit_zombie 7 2 1 0 0 own_lock processor orphaned ≡ ok t)
    × (sleeps_on (process 1) (t 1) ≡ false)
    × (wait_scan nproc 0 0 false t ≡ (some c, true))
    × (is_dead_child 0 (t c) ≡ true)
    × ((i : ℕ) → i < nproc → points_to (t i).parent 2 ≡ false)
unfolding holding held_by
exit_zombie-seen_example =
    exit_zombie-seen 7 2 1 0 orphaned 0 own_lock processor 0 (omega arith) (omega arith)
      (omega arith) refl (omega arith) refl refl refl refl

-- files that are only counted
abbrev counted : FileOps ℕ
counted = record {
  filedup = λ f n. ok (n + 1);
  fileclose = λ f w. ok w;
  filewrite = λ pagetable f addr n w. ok w;
  idup = λ ip n. ok (n + 1);
  iput = λ ip n. ok n;
  namei_root = λ n. ok (0, n + 1);
}

-- eight free pages, each with the address of the next in its first bytes
abbrev pages : ℕ → Mem
pages zero = λ _. 0
pages (suc n) = store64 (pages n) (0x87ff0000 + n * 0x1000) (0x87ff0000 + (n + 1) * 0x1000)

abbrev parents : Procs
parents = put_proc 2 (record (table 2) { cwd = some 1 }) table

-- Here `fork` of process 2 succeeds, and returns 5.
abbrev kernel : Kernel ℕ
kernel = record {
  procs = parents;
  nextpid = 5;
  initproc = 0;
  kmem = record { mem = pages 7; freelist = 0x87ff0000 };
  files = 0;
}

parents-Pids : Pids 5 parents
parents-Pids = record { below = λ i. ground arith; one = λ i j e f. ground (arith, e, f) }

fork-Born_example :
    OnOk
      (Born counted 0x80020000 0x80007000 0x80001000 2 5)
      (fork counted 0x80020000 0x80007000 0x80001000 2 kernel)
fork-Born_example =
    fork-Born counted 0x80020000 0x80007000 0x80001000 2 kernel (omega arith) parents-Pids
