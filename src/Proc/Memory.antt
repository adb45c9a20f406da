-- ===== src/Proc/Memory.antt =====
-- kernel/proc.c: the memory of a process - its page table, its trapframe and its size - over the page
-- allocator and the page tables.
pub mod Entry
use mitcppos.Prelude.{
  ℕ, zero, suc, ◌+◌, ◌-◌, ◌%◌, ◌^◌, Bool, true, false, Option, none, some, ◌==◌, if◌then◌else◌,
  Outcome, ok, panic, ◌>>=◌, [],
}
use mitcppos.Prelude.Int.{ℤ, pos, negsuc, minus_one}
use mitcppos.Str.{memmove}
use mitcppos.Riscv.{
  pgsize, pgroundup, trampoline_va, trapframe_va, kstack, nproc, pte_r, pte_w, pte_x,
}
use mitcppos.Kalloc.{Kmem, kalloc, kfree}
use mitcppos.Vm.{mappages, kvmmap, uvmcreate, uvmunmap, uvmalloc, uvmdealloc}
use mitcppos.Vm.User.{uvmfree, copyout, copyin}
use mitcppos.Mmap.{unmapped}
use mitcppos.Proc.{Proc, Procs, unused, nowhere, put_proc, is_unused}

-- The loop of `proc_mapstacks` with `n` processes left, from `p` on.
pub proc_mapstacks_loop : (n p kpgtbl : ℕ) → Kmem → Outcome Kmem
proc_mapstacks_loop zero p kpgtbl k = ok k
proc_mapstacks_loop (suc n) p kpgtbl k =
    let (pa, k') = kalloc k in
    if pa == 0
    then panic "kalloc"
    else (kvmmap kpgtbl (kstack p) pa pgsize (pte_r + pte_w) k'
        >>= proc_mapstacks_loop n (p + 1) kpgtbl)

pub proc_mapstacks : (kpgtbl : ℕ) → Kmem → Outcome Kmem
proc_mapstacks kpgtbl k = proc_mapstacks_loop nproc 0 kpgtbl k

-- The first unused entry, from `p` on.
pub find_unused : (n p : ℕ) → Procs → Option ℕ
find_unused zero p t = none
find_unused (suc n) p t =
    let rest = find_unused n (p + 1) t in if is_unused (t p).state then some p else rest

-- `kernel_end` is the linker's `end`, `trampoline` the address of the code of trampoline.S.
module _ (kernel_end : ℕ) where
  -- 0 where there is no memory
  pub proc_pagetable : (trampoline trapframe : ℕ) → Kmem → Outcome (ℕ × Kmem)
  proc_pagetable trampoline trapframe k =
      let (pagetable, k₁) = uvmcreate k in
      let fail = λ (k' : Kmem). uvmfree kernel_end pagetable 0 k' >>= λ k''. ok (0, k'') in
      let framed : ℤ × Kmem → Outcome (ℕ × Kmem) = λ (r, k'). elim r [
        | negsuc _ ↦ uvmunmap kernel_end pagetable trampoline_va 1 false k' >>= fail
        | pos _ ↦ ok (pagetable, k')
      ] in
      let mapped : ℤ × Kmem → Outcome (ℕ × Kmem) = λ (r, k'). elim r [
        | negsuc _ ↦ fail k'
        | pos _ ↦ mappages pagetable trapframe_va pgsize trapframe (pte_r + pte_w) k' >>= framed
      ] in
      if pagetable == 0
      then ok (0, k₁)
      else (mappages pagetable trampoline_va pgsize trampoline (pte_r + pte_x) k₁ >>= mapped)

  pub proc_freepagetable : (pagetable sz : ℕ) → Kmem → Outcome Kmem
  proc_freepagetable pagetable sz k =
      uvmunmap kernel_end pagetable trampoline_va 1 false k
      >>= uvmunmap kernel_end pagetable trapframe_va 1 false
      >>= uvmfree kernel_end pagetable sz

  -- The entry's own fields, and its memory. `context`, `ofile`, `cwd`, `kstack` and `vma` stay.
  pub freeproc : Proc → Kmem → Outcome (Proc × Kmem)
  freeproc p k =
      let cleared = record p {
        trapframe = 0;
        pagetable = 0;
        sz = 0;
        pid = 0;
        parent = none;
        name = λ i. if i == 0 then 0 else p.name i;
        chan = nowhere;
        killed = false;
        xstate = 0;
        state = unused;
      } in
      let tables =
        λ (k' : Kmem). if p.pagetable == 0 then ok k' else proc_freepagetable p.pagetable p.sz k' in
      (if p.trapframe == 0 then ok k else kfree kernel_end p.trapframe k) >>= tables >>= λ k'.
      ok (cleared, k')

  -- The part of `allocproc` behind `proc_pagetable`, for the entry `p`; the flag says whether it
  -- succeeded.
  pub allocproc_table : (forkret : ℕ) → Proc → ℕ × Kmem → Outcome (Bool × Proc × Kmem)
  allocproc_table forkret p (pagetable, k) =
      let q = record p { pagetable = pagetable } in
      let ready = record q {
        context = record { ra = forkret; sp = p.kstack + pgsize; saved = λ _. 0 };
        vma = unmapped;
      } in
      if pagetable == 0
      then (freeproc q k >>= λ (v, k'). ok (false, v, k'))
      else ok (true, ready, k)

  -- Behind `found:`, for the entry `p` with its new number.
  pub allocproc_entry : (trampoline forkret pid : ℕ) → Proc → Kmem → Outcome (Bool × Proc × Kmem)
  allocproc_entry trampoline forkret pid p k =
      let (page, k₁) = kalloc k in
      let p₁ = record p { pid = pid; trapframe = page } in
      if page == 0
      then ok (false, p₁, k₁)
      else (proc_pagetable trampoline page k₁ >>= allocproc_table forkret p₁)

  -- `sz` is a `uint`, and `n` an `int`.
  pub growproc : (n : ℤ) → Proc → Kmem → Outcome (ℤ × Proc × Kmem)
  growproc n p k =
      let sz = p.sz % 2 ^ 32 in
      let resized = λ (r : ℕ × Kmem). ok (pos 0, record p { sz = r.0 % 2 ^ 32 }, r.1) in
      let grown : ℕ × Kmem → Outcome (ℤ × Proc × Kmem) =
        λ r. if r.0 % 2 ^ 32 == 0 then ok (minus_one, p, r.1) else resized r in
      elim n [
        | pos zero ↦ resized (sz, k)
        | pos (suc m) ↦ uvmalloc kernel_end p.pagetable sz ((sz + suc m) % 2 ^ 32) k >>= grown
        | negsuc m ↦
            uvmdealloc kernel_end p.pagetable sz ((sz + (2 ^ 32 - suc m)) % 2 ^ 32) k >>= resized
      ]

-- `pagetable` is that of the calling process.
unfoldable pub either_copyout :
    (pagetable : ℕ) (user_dst : Bool) (dst src len : ℕ) → Kmem → Outcome (ℤ × Kmem)
either_copyout pagetable user_dst dst src len k =
    if user_dst
    then copyout pagetable dst src len k
    else ok (pos 0, record k { mem = memmove k.mem dst src len })

unfoldable pub either_copyin :
    (pagetable : ℕ) (dst : ℕ) (user_src : Bool) (src len : ℕ) → Kmem → Outcome (ℤ × Kmem)
either_copyin pagetable dst user_src src len k =
    if user_src
    then copyin pagetable dst src len k
    else ok (pos 0, record k { mem = memmove k.mem dst src len })
