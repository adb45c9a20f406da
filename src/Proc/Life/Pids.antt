-- ===== src/Proc/Life/Pids.antt =====
-- The process numbers that `fork` of kernel/proc.c hands out.
use mitcppos.Prelude.{
  ℕ, ◌+◌, ◌%◌, ◌^◌, ◌<◌, ◌≡◌, ◌≢◌, ◌⊎◌, refl, sym, ◌∙◌, ap, inl, inr, Bool, true, false, List,
  Option, none, some, if◌then◌else◌, arith, OnOk, on_ok, OnOk-bind, OnOk-then,
}
use mitcppos.Prelude.Int.{ℤ, pos, negsuc, minus_one}
use mathlib.Core.Path.{subst}
use mitcppos.Kalloc.{Kmem}
use mitcppos.Riscv.{nproc}
use mitcppos.Mmap.{Mmapitem}
use mitcppos.Proc.{Proc, Procs, is_runnable, allocpid, put_proc}
use mitcppos.Proc.Memory.{find_unused}
use mitcppos.Proc.Table.{put_proc_self}
use mitcppos.Proc.Memory.Entry.{freeproc-pid, Numbered, allocproc_entry-Numbered}
use mitcppos.Proc.Life.{
  Kernel, FileOps, allocproc, allocproc_found, fork, fork_child, fork_finish, fork_copied,
  fork_allocated,
}

-- No two entries have the same number but 0, and all numbers are below the next.
pub record Pids (nextpid : ℕ) (t : Procs) : Type 0 where
  pub below : (i : ℕ) → (t i).pid < nextpid
  pub one : (i j : ℕ) → (t i).pid ≡ (t j).pid → (t i).pid ≢ 0 → i ≡ j

Pids-kept :
    (nextpid p : ℕ) (v : Proc) (t : Procs)
    → (v.pid ≡ (t p).pid) ⊎ (v.pid ≡ 0)
    → Pids nextpid t
    → Pids nextpid (put_proc p v t)
Pids-kept nextpid p v t h d = record {
  below = λ i. ground (arith, h, d.below i, d.below p);
  one = λ i j e f. ground (arith, h, d.one i j, d.one i p, d.one p j, e, f);
}

Pids-new :
    (nextpid p : ℕ) (v : Proc) (t : Procs)
    → (v.pid ≡ nextpid) ⊎ (v.pid ≡ 0)
    → Pids nextpid t
    → Pids (nextpid + 1) (put_proc p v t)
Pids-new nextpid p v t h d = record {
  below = λ i. ground (arith, h, d.below i, d.below p);
  one = λ i j e f. ground (arith, h, d.one i j, d.below i, d.below j, e, f);
}

next-small : (n : ℕ) → n + 1 < 2 ^ 31 → (n + 1) % 2 ^ 32 ≡ n + 1
next-small n h = omega arith

module _ {F : Type 0} (ops : FileOps F) (kernel_end trampoline forkret : ℕ) where
  pub Fresh : (nextpid : ℕ) → Option ℕ × Kernel F → Type 0
  Fresh nextpid (none, s) = Pids s.nextpid s.procs
  Fresh nextpid (some p, s) =
      Pids s.nextpid s.procs × ((s.procs p).pid ≡ nextpid) × (s.nextpid ≡ nextpid + 1)

  entry_made :
      (p : ℕ) (s : Kernel F) (r : Bool × Proc × Kmem)
      → s.nextpid + 1 < 2 ^ 31
      → Pids s.nextpid s.procs
      → Numbered s.nextpid r
      → Fresh s.nextpid (
        if r.0 then some p else none,
        record s { procs = put_proc p r.1 s.procs; nextpid = (s.nextpid + 1) % 2 ^ 32; kmem = r.2 },
      )
  unfolding Fresh Numbered
  entry_made p s (true, v, k) h d (inl e) = (
    subst (λ n. Pids n (put_proc p v s.procs)) (sym (next-small s.nextpid h))
        (Pids-new s.nextpid p v s.procs (inl e) d),
    ap (λ w. w.pid) (put_proc_self p v s.procs) ∙ e,
    next-small s.nextpid h,
  )
  entry_made p s (true, v, k) h d (inr (e, f)) = absurd (ground (arith, f))
  entry_made p s (false, v, k) h d (inl e) =
      subst (λ n. Pids n (put_proc p v s.procs)) (sym (next-small s.nextpid h))
        (Pids-new s.nextpid p v s.procs (inl e) d)
  entry_made p s (false, v, k) h d (inr (e, f)) =
      subst (λ n. Pids n (put_proc p v s.procs)) (sym (next-small s.nextpid h))
        (Pids-new s.nextpid p v s.procs (inr e) d)

  allocproc_found-Fresh :
      (s : Kernel F) (o : Option ℕ)
      → s.nextpid + 1 < 2 ^ 31
      → Pids s.nextpid s.procs
      → OnOk (Fresh s.nextpid) (allocproc_found ops kernel_end trampoline forkret s o)
  unfolding allocproc_found allocpid Fresh
  allocproc_found-Fresh s none h d = on_ok d
  allocproc_found-Fresh s (some p) small d =
      OnOk-bind (Numbered s.nextpid)
        (allocproc_entry-Numbered kernel_end trampoline forkret s.nextpid (s.procs p) s.kmem)
        (λ r h. on_ok (entry_made p s r small d h))

  -- The process that `fork` returns: its number is new, its parent is the caller, and it may run.
  pub Born : (me nextpid : ℕ) → ℤ × Kernel F → Type 0
  Born me nextpid (r, s) =
      Pids s.nextpid s.procs
      × ((r ≡ minus_one)
          ⊎ ((np : ℕ) × (r ≡ pos nextpid)
              × ((s.procs np).pid ≡ nextpid)
              × ((s.procs np).parent ≡ some me)
              × (is_runnable (s.procs np).state ≡ true)))

  fork_finish-Born :
      (me np nextpid : ℕ) (s : Kernel F) (k : Kmem) (r : (ℕ → Option ℕ) × List Mmapitem × F)
      → Fresh nextpid (some np, s)
      → OnOk (Born me nextpid) (fork_finish ops kernel_end trampoline forkret me np s k r)
  unfolding fork_finish Fresh Born
  fork_finish-Born me np nextpid s k (ofile, vma, files) (d, e, f) =
      let born = put_proc_self np _ s.procs in
      on_ok (
        Pids-kept s.nextpid np _ s.procs (inl refl) d,
        inr (
          np,
          ap pos e,
          ap (λ v. v.pid) born ∙ e,
          ap (λ v. v.parent) born,
          ap (λ v. is_runnable v.state) born,
        ),
      )

  fork_copied-Born :
      (me np nextpid : ℕ) (s : Kernel F)
      → Fresh nextpid (some np, s)
      → (r : ℤ × Kmem)
      → OnOk (Born me nextpid) (fork_copied ops kernel_end trampoline forkret me np s r)
  unfolding fork_copied fork_child Fresh Born
  fork_copied-Born me np nextpid s d (pos n, k) =
      OnOk-then _ (λ r. fork_finish-Born me np nextpid s _ r d)
  fork_copied-Born me np nextpid s d (negsuc n, k) =
      OnOk-bind (λ r. r.0.pid ≡ 0) (freeproc-pid kernel_end (s.procs np) k)
        (λ (v, k') e. on_ok (Pids-kept s.nextpid np v s.procs (inr e) d.0, inl refl))

  fork_allocated-Born :
      (me nextpid : ℕ) (r : Option ℕ × Kernel F)
      → Fresh nextpid r
      → OnOk (Born me nextpid) (fork_allocated ops kernel_end trampoline forkret me r)
  unfolding fork_allocated fork_copied fork_child Fresh Born
  fork_allocated-Born me nextpid (none, s) d = on_ok (d, inl refl)
  fork_allocated-Born me nextpid (some np, s) d = OnOk-then _ (fork_copied-Born me np nextpid s d)

  -- With process numbers that are distinct where they are not 0, and below the next one, which is
  -- at most 2^31 - 2, so that the `int` does not overflow: if `fork` returns, they still are; and
  -- it returns -1, or the next number, which then is the number of an entry that may run and whose
  -- parent is the caller.
  pub fork-Born :
      (me : ℕ) (s : Kernel F)
      → s.nextpid + 1 < 2 ^ 31
      → Pids s.nextpid s.procs
      → OnOk (Born me s.nextpid) (fork ops kernel_end trampoline forkret me s)
  unfolding fork allocproc
  fork-Born me s small d =
      OnOk-bind (Fresh s.nextpid) (allocproc_found-Fresh s (find_unused nproc 0 s.procs) small d)
        (fork_allocated-Born me s.nextpid)
