-- ===== src/Proc/Life.antt =====
-- kernel/proc.c: how a process begins and ends: `userinit`, `fork`, `exit` and `wait`. What these ask
-- of open files and inodes is an interface, `FileOps`.
pub mod Exit
pub mod Pids
use mitcppos.Prelude.{
  ℕ, zero, suc, ◌+◌, ◌-◌, ◌/◌, ◌^◌, Bool, true, false, not, ◌&&◌, ◌||◌, has, ltb, get_or, Option,
  none, some, List, [], ◌∷◌, ◌==◌, if◌then◌else◌, Outcome, ok, panic, ◌>>=◌,
}
use mitcppos.Prelude.Int.{ℤ, pos, negsuc, pos_part, minus_one}
use mitcppos.Mem.{store64, store32}
use mitcppos.Str.{memmove, safestrcpy}
use mitcppos.Riscv.{pgsize, nproc, flag}
use mitcppos.Kalloc.{Kmem}
use mitcppos.Vm.{uvminit, uvmunmap}
use mitcppos.Vm.User.{uvmcopy, copyout}
use mitcppos.Mmap.{Mmapitem, map_shared, prot_write}
use mitcppos.Proc.{
  Proc, Procs, Procstate, unused, runnable, zombie, process, put_proc, allocpid, wakeup1, reparent,
  points_to, is_zombie, sched,
}
use mitcppos.Spinlock.{Spinlock, Cpu}
use mitcppos.Proc.Memory.{freeproc, find_unused, allocproc_entry}

pub record World (F : Type 0) : Type 0 where
  pub kmem : Kmem
  pub files : F

-- What kernel/file.c and kernel/fs.c do for a process. `F` is the state of files and inodes; the
-- memory goes with it, since pipes are pages and `filewrite` reads the process's memory.
pub record FileOps (F : Type 0) : Type 0 where
  pub filedup : (f : ℕ) → F → Outcome F
  pub fileclose : (f : ℕ) → World F → Outcome (World F)
  pub filewrite : (pagetable f addr : ℕ) (n : ℤ) → World F → Outcome (World F)
  pub idup : (ip : ℕ) → F → Outcome F
  -- within `begin_op` and `end_op`
  pub iput : (ip : ℕ) → F → Outcome F
  pub namei_root : F → Outcome (ℕ × F)

pub record Kernel (F : Type 0) : Type 0 where
  pub procs : Procs
  pub nextpid : ℕ
  pub initproc : ℕ
  pub kmem : Kmem
  pub files : F

-- `safestrcpy(np->name, p->name, sizeof(p->name))`, with the two arrays side by side in memory
pub copy_name : (to from : ℕ → ℕ) → ℕ → ℕ
copy_name to from = safestrcpy (λ a. if ltb a 16 then to a else from (a - 16)) 0 16 (pos 16)

-- "initcode"
abbrev pub initcode_name : ℕ → ℕ
initcode_name i = get_or (b'i' ∷ b'n' ∷ b'i' ∷ b't' ∷ b'c' ∷ b'o' ∷ b'd' ∷ b'e' ∷ []) i 0

abbrev pub nofile : ℕ
nofile = 16

-- The last sections of `exit`, each under its own locks: other processes may run in between. The
-- first wakes init.
pub exit_wake_init : (initproc : ℕ) → Procs → Outcome Procs
exit_wake_init initproc t = wakeup1 (has initproc (initproc ∷ [])) initproc t

-- The last section, under the locks of `original_parent`, which an earlier one has read, and of the
-- process itself, up to `sched`. Meanwhile the process may have another parent. `acquire` of a lock
-- that the processor holds panics: the second here, or that of `reparent` for a child. `cpu` is the
-- processor's number; `lk` is `p->lock`, and `c` the processor, when `sched` is called.
pub exit_zombie :
    (status me original_parent initproc : ℕ) (cpu : ℕ) → Spinlock → Cpu → Procs → Outcome Procs
exit_zombie status me original_parent initproc cpu lk c t =
    let locks = me ∷ original_parent ∷ [] in
    if original_parent == me
      || points_to (t me).parent me
      || points_to (t original_parent).parent me
    then panic "acquire"
    else (do
      t₁ ← wakeup1 (has original_parent locks) original_parent (reparent initproc me t)
      let gone = record (t₁ me) { xstate = status; state = zombie }
      _ ← sched cpu lk c gone
      ok (put_proc me gone t₁))

-- A scan of `wait` with `n` entries left, from `np` on: the first child that is a zombie, and
-- whether there was a child.
pub wait_scan : (n np me : ℕ) (havekids : Bool) → Procs → Option ℕ × Bool
wait_scan zero np me havekids t = (none, havekids)
wait_scan (suc n) np me havekids t =
    let rest = wait_scan n (np + 1) me (havekids || points_to (t np).parent me) t in
    if points_to (t np).parent me && is_zombie (t np).state then (some np, true) else rest

module _ {F : Type 0} (ops : FileOps F) (kernel_end trampoline forkret : ℕ) where
  abbrev pub put : ℕ → Proc → Kernel F → Kernel F
  put p v s = record s { procs = put_proc p v s.procs }

  -- `allocproc` with the unused entry that it has found
  pub allocproc_found : Kernel F → Option ℕ → Outcome (Option ℕ × Kernel F)
  allocproc_found s none = ok (none, s)
  allocproc_found s (some p) =
      allocproc_entry kernel_end trampoline forkret (allocpid s.nextpid).0 (s.procs p) s.kmem
      >>= λ (done, v, k). ok (
        if done then some p else none,
        put p v (record s { nextpid = (allocpid s.nextpid).1; kmem = k }),
      )

  pub allocproc : Kernel F → Outcome (Option ℕ × Kernel F)
  allocproc s = allocproc_found s (find_unused nproc 0 s.procs)

  -- `initcode` is the address of the array of that name. If `allocproc` fails, the source goes on
  -- with a null pointer, which the model does not follow.
  pub userinit : (initcode : ℕ) → Kernel F → Outcome (Kernel F)
  userinit initcode s =
      let start : ℕ → Kernel F → Kmem → ℕ × F → Outcome (Kernel F) = λ p s₁ k (ip, files).
        let v = s₁.procs p in
        let m = store64 (store64 k.mem (v.trapframe + 24) 0) (v.trapframe + 48) pgsize in
        let named = record v {
          sz = pgsize;
          name = copy_name v.name initcode_name;
          cwd = some ip;
          state = runnable;
        } in
        ok (put p named (record s₁ { kmem = record k { mem = m }; files = files })) in
      allocproc s >>= λ (o, s₁). elim o [
        | none ↦ panic "null pointer"
        | some p ↦ uvminit (s₁.procs p).pagetable initcode 52 s₁.kmem >>= λ k.
            ops.namei_root s₁.files >>= start p (record s₁ { initproc = p }) k
      ]

  -- The loops of `fork`, with `n` descriptors left from `fd` on, and over the two tables of regions.
  pub dup_files : (n fd : ℕ) (ofile to : ℕ → Option ℕ) → F → Outcome ((ℕ → Option ℕ) × F)
  dup_files zero fd ofile to s = ok (to, s)
  dup_files (suc n) fd ofile to s = elim (ofile fd) [
    | none ↦ dup_files n (fd + 1) ofile to s
    | some f ↦
        ops.filedup f s >>= dup_files n (fd + 1) ofile (λ i. if i == fd then some f else to i)
  ]

  pub dup_vmas : (from to : List Mmapitem) → F → Outcome (List Mmapitem × F)
  dup_vmas (x ∷ xs) (y ∷ ys) s =
      let rest : F → Outcome (List Mmapitem × F) =
        λ s'. dup_vmas xs ys s' >>= λ (zs, s''). ok ((if x.used then x else y) ∷ zs, s'') in
      if x.used then (ops.filedup x.vfile s >>= rest) else rest s
  dup_vmas _ to s = ok (to, s)

  -- The files, the directory and the regions of `p`, each counted once more, for its `child`.
  pub dup_all : (p child : Proc) → F → Outcome ((ℕ → Option ℕ) × List Mmapitem × F)
  dup_all p child s = do
    (ofile, s₁) ← dup_files nofile 0 p.ofile child.ofile s
    s₂ ← elim p.cwd [ none ↦ panic "null pointer" | some ip ↦ ops.idup ip s₁ ]
    (vma, s₃) ← dup_vmas p.vma child.vma s₂
    ok (ofile, vma, s₃)

  pub fork_finish :
      (me np : ℕ) → Kernel F → Kmem → (ℕ → Option ℕ) × List Mmapitem × F → Outcome (ℤ × Kernel F)
  fork_finish me np s k (ofile, vma, files) =
      let child = s.procs np in
      let born = record child {
        sz = (s.procs me).sz;
        parent = some me;
        ofile = ofile;
        cwd = (s.procs me).cwd;
        vma = vma;
        name = copy_name child.name (s.procs me).name;
        state = runnable;
      } in
      ok (pos child.pid, put np born (record s { kmem = k; files = files }))

  -- The child `np` of `me`, when its memory has been copied.
  pub fork_child : (me np : ℕ) → Kernel F → Kmem → Outcome (ℤ × Kernel F)
  fork_child me np s k =
      let child = s.procs np in
      let m = memmove k.mem child.trapframe (s.procs me).trapframe 288 in
      let k' = record k { mem = store64 m (child.trapframe + 112) 0 } in
      dup_all (s.procs me) child s.files >>= fork_finish me np s k'

  -- Behind `uvmcopy`, with its result.
  pub fork_copied : (me np : ℕ) → Kernel F → ℤ × Kmem → Outcome (ℤ × Kernel F)
  fork_copied me np s (pos _, k) = fork_child me np s k
  fork_copied me np s (negsuc _, k) = freeproc kernel_end (s.procs np) k >>= λ (v, k').
      ok (minus_one, put np v (record s { kmem = k' }))

  -- Behind `allocproc`.
  pub fork_allocated : (me : ℕ) → Option ℕ × Kernel F → Outcome (ℤ × Kernel F)
  fork_allocated me (none, s) = ok (minus_one, s)
  fork_allocated me (some np, s) =
      uvmcopy kernel_end (s.procs me).pagetable (s.procs np).pagetable (s.procs me).sz s.kmem
      >>= fork_copied me np s

  pub fork : (me : ℕ) → Kernel F → Outcome (ℤ × Kernel F)
  fork me s = allocproc s >>= fork_allocated me

  -- The loops of `exit`.
  pub close_files : (n fd : ℕ) (ofile : ℕ → Option ℕ) → World F → Outcome ((ℕ → Option ℕ) × World F)
  close_files zero fd ofile s = ok (ofile, s)
  close_files (suc n) fd ofile s = elim (ofile fd) [
    | none ↦ close_files n (fd + 1) ofile s
    | some f ↦ ops.fileclose f s >>= close_files n (fd + 1) (λ i. if i == fd then none else ofile i)
  ]

  pub close_vma : (pagetable : ℕ) → Mmapitem → World F → Outcome (Mmapitem × World F)
  close_vma pagetable x s =
      let shared = x.flags == map_shared && flag x.prot prot_write in
      let unmap : World F → Outcome (Mmapitem × World F) = λ w.
        uvmunmap kernel_end pagetable x.addr (pos_part x.length / pgsize) true w.kmem >>= λ k.
        ok (record x { used = false }, record w { kmem = k }) in
      if not x.used
      then ok (x, s)
      else ((if shared then ops.filewrite pagetable x.vfile x.addr x.length s else ok s)
          >>= ops.fileclose x.vfile
          >>= unmap)

  pub close_vmas : (pagetable : ℕ) → List Mmapitem → World F → Outcome (List Mmapitem × World F)
  close_vmas pagetable [] s = ok ([], s)
  close_vmas pagetable (x ∷ xs) s = do
    (y, s₁) ← close_vma pagetable x s
    (ys, s₂) ← close_vmas pagetable xs s₁
    ok (y ∷ ys, s₂)

  -- All of `exit` with no other process in between.
  pub exit : (status me cpu : ℕ) → Spinlock → Cpu → Kernel F → Outcome (Kernel F)
  exit status me cpu lk c s =
      let p = s.procs me in
      if me == s.initproc then panic "init exiting" else (do
        (ofile, s₁) ← close_files nofile 0 p.ofile (record { kmem = s.kmem; files = s.files })
        (vma, w) ← close_vmas p.pagetable p.vma s₁
        files' ← elim p.cwd [ none ↦ panic "null pointer" | some ip ↦ ops.iput ip w.files ]
        let closed = record p { ofile = ofile; vma = vma; cwd = none }
        t ← exit_wake_init s.initproc (put_proc me closed s.procs)
        t' ← elim (t me).parent [
          | none ↦ panic "null pointer"
          | some q ↦ exit_zombie status me q s.initproc cpu lk c t
        ]
        ok (record s { procs = t'; kmem = w.kmem; files = files' }))

  -- The child's `xstate` lies at `xstate_at np` in the kernel's memory. `none` where the caller
  -- sleeps on its own entry; woken up, it scans again.
  pub wait : (xstate_at : ℕ → ℕ) (me addr : ℕ) → Kernel F → Outcome (Option ℤ × Kernel F)
  wait xstate_at me addr s =
      let p = s.procs me in
      let reap : ℕ → ℤ × Kmem → Outcome (Option ℤ × Kernel F) = λ np (r, k). elim r [
        | negsuc _ ↦ ok (some minus_one, record s { kmem = k })
        | pos _ ↦ freeproc kernel_end (s.procs np) k >>= λ (v, k').
            ok (some (pos (s.procs np).pid), put np v (record s { kmem = k' }))
      ] in
      let told : ℕ → Outcome (ℤ × Kmem) = λ np.
        let m = store32 s.kmem.mem (xstate_at np) (s.procs np).xstate in
        if addr == 0
        then ok (pos 0, s.kmem)
        else copyout p.pagetable addr (xstate_at np) 4 (record s.kmem { mem = m }) in
      let (child, havekids) = wait_scan nproc 0 me false s.procs in
      elim child [
        | some np ↦ told np >>= reap np
        | none ↦ if not havekids || p.killed then ok (some minus_one, s) else ok (none, s)
      ]
