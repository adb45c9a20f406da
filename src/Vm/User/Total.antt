-- ===== src/Vm/User/Total.antt =====
-- `copyout` of kernel/vm.c ends.
use mitcppos.Prelude.{
  ℕ, zero, suc, ◌+◌, ◌-◌, ◌<◌, ◌≤◌, ◌≡◌, refl, inl, inr, Outcome, ok, arith, ◌==◌, Bool-cases,
}
use mitcppos.Prelude.Int.{pos, minus_one}
use mitcppos.Str.{memmove}
use mitcppos.Riscv.{pgsize, pgrounddown}
use mitcppos.Kalloc.{Kmem}
use mitcppos.Vm.{walkaddr}
use mitcppos.Vm.User.{copyout, copyout_loop, chunk}

pub chunk-le : (va len : ℕ) → chunk va len ≤ len
chunk-le va len = ground arith

pub chunk-pos : (va len : ℕ) → 0 < len → 0 < chunk va len
chunk-pos va len h = ground (arith, h)

-- A call that returns.
abbrev pub Returns {ℓ} : {A : Type ℓ} → Outcome A → Type ℓ
Returns {A = A} o = (a : A) × (o ≡ ok a)

copyout_loop-Returns :
    (fuel pagetable dstva src len : ℕ) (k : Kmem)
    → len < fuel
    → Returns (copyout_loop fuel pagetable dstva src len k)
unfolding copyout_loop
copyout_loop-Returns zero pagetable dstva src len k h = absurd (omega (arith, h))
copyout_loop-Returns (suc fuel) pagetable dstva src len k h = elim (Bool-cases (len == 0)) [
  | inl e ↦ rw e (((pos 0, k), refl))
  | inr e ↦
      let va0 = pgrounddown dstva in
      let pa0 = walkaddr pagetable va0 k in
      let n = chunk dstva len in
      let k' = record k { mem = memmove k.mem (pa0 + (dstva - va0)) src n } in
      let some_left : 0 < len = ground (arith, e) in
      let fewer : len - n < fuel =
        omega (arith, h, some_left, chunk-le dstva len, chunk-pos dstva len some_left) in
      elim (Bool-cases (pa0 == 0)) [
        | inl f ↦ rw (e, f) (((minus_one, k), refl))
        | inr f ↦
            rw (e, f)
              (copyout_loop-Returns fuel pagetable (va0 + pgsize) (src + n) (len - n) k' fewer)
      ]
]

pub copyout-Returns :
    (pagetable dstva src len : ℕ) (k : Kmem) → Returns (copyout pagetable dstva src len k)
unfolding copyout
copyout-Returns pagetable dstva src len k =
    copyout_loop-Returns (suc len) pagetable dstva src len k (omega arith)
