-- ===== src/Proc/Memory/Entry.antt =====
-- What `freeproc` and `allocproc` of kernel/proc.c leave of an entry's number and state.
use mitcppos.Prelude.{
  ℕ, zero, suc, ◌+◌, ◌<◌, ◌≡◌, ◌⊎◌, refl, inl, inr, Bool, true, false, some, ◌==◌, arith,
  Bool-cases, OnOk, on_ok, OnOk-then, OnOk-bind,
}
use mitcppos.Kalloc.{Kmem, kalloc}
use mitcppos.Proc.{Proc, Procs, is_unused}
use mitcppos.Proc.Memory.{freeproc, find_unused, allocproc_entry, allocproc_table}

pub find_unused-less :
    (n p : ℕ) (t : Procs) (q : ℕ)
    → find_unused n p t ≡ some q
    → (q < p + n) × (is_unused (t q).state ≡ true)
unfolding find_unused
find_unused-less zero p t q e = absurd (ground (arith, e))
find_unused-less (suc n) p t q e = elim (Bool-cases (is_unused (t p).state)) [
  | inl f ↦ let same : p ≡ q = ground (arith, e, f) in ground (arith, f, same)
  | inr f ↦
      let (less, free) = find_unused-less n (p + 1) t q (ground (arith, e, f)) in
      (omega (arith, less), free)
]

-- An entry with the new number, or one that `freeproc` has cleared.
unfoldable pub Numbered : (pid : ℕ) → Bool × Proc × Kmem → Type 0
Numbered pid (done, v, k) = (v.pid ≡ pid) ⊎ ((v.pid ≡ 0) × (done ≡ false))

module _ (kernel_end : ℕ) where
  pub freeproc-pid : (p : Proc) (k : Kmem) → OnOk (λ r. r.0.pid ≡ 0) (freeproc kernel_end p k)
  unfolding freeproc
  freeproc-pid p k = OnOk-then _ (λ k'. on_ok refl)

  allocproc_table-Numbered :
      (forkret : ℕ) (p : Proc) (r : ℕ × Kmem)
      → OnOk (Numbered p.pid) (allocproc_table kernel_end forkret p r)
  unfolding allocproc_table Numbered
  allocproc_table-Numbered forkret p (pagetable, k) = elim (Bool-cases (pagetable == 0)) [
    | inl g ↦ rw g (OnOk-bind (λ r. r.0.pid ≡ 0) (freeproc-pid _ k) (λ r e. on_ok (inr (e, refl))))
    | inr g ↦ rw g (on_ok (inl refl))
  ]

  pub allocproc_entry-Numbered :
      (trampoline forkret pid : ℕ) (p : Proc) (k : Kmem)
      → OnOk (Numbered pid) (allocproc_entry kernel_end trampoline forkret pid p k)
  unfolding allocproc_entry Numbered
  allocproc_entry-Numbered trampoline forkret pid p k =
      let (page, k₁) = kalloc k in
      let p₁ = record p { pid = pid; trapframe = page } in
      elim (Bool-cases (page == 0)) [
        | inl f ↦ rw f (on_ok (inl refl))
        | inr f ↦ rw f (OnOk-then _ (allocproc_table-Numbered forkret p₁))
      ]
