-- ===== src/Vm/User/Bytes.antt =====
-- A copy of one byte between user and kernel memory, with `copyin` and `copyout` of kernel/vm.c.
use mitcppos.Prelude.{
  ℕ, ◌+◌, ◌-◌, ◌≡◌, refl, ◌∙◌, Option, none, some, ok, arith, ◌==◌, if◌then◌else◌, inl, inr,
  Bool-cases, Option-cases,
}
use mitcppos.Prelude.Int.{pos, minus_one}
use mitcppos.Mem.{store}
use mitcppos.Str.Copy.{memmove_byte}
use mitcppos.Riscv.{pgrounddown}
use mitcppos.Kalloc.{Kmem}
use mitcppos.Vm.{walkaddr}
use mitcppos.Vm.User.{copyin, copyin_loop, copyout, copyout_loop, chunk}

-- the physical address of a user address, if a user page is mapped there
unfoldable pub user_addr : (pagetable va : ℕ) → Kmem → Option ℕ
user_addr pagetable va k =
    let pa = walkaddr pagetable (pgrounddown va) k in
    if pa == 0 then none else some (pa + (va - pgrounddown va))

-- the byte at a user address
unfoldable pub user_byte : (pagetable va : ℕ) → Kmem → Option ℕ
user_byte pagetable va k = elim (user_addr pagetable va k) [ none ↦ none | some a ↦ some (k.mem a) ]

chunk_byte : (va : ℕ) → chunk va 1 ≡ 1
chunk_byte va = ground arith

pub copyin_byte :
    (pagetable ch va : ℕ) (k : Kmem)
    → copyin pagetable ch va 1 k ≡ elim (user_addr pagetable va k) [
      | none ↦ ok (minus_one, k)
      | some a ↦ ok (pos 0, record k { mem = store k.mem ch (k.mem a) })
    ]
unfolding copyin copyin_loop user_addr
copyin_byte pagetable ch va k = elim (Bool-cases (walkaddr pagetable (pgrounddown va) k == 0)) [
  | inl e ↦ rw e refl
  | inr e ↦ rw (e, chunk_byte va, memmove_byte) refl
]

pub copyin-none :
    (pagetable ch va : ℕ) (k : Kmem)
    → user_byte pagetable va k ≡ none
    → copyin pagetable ch va 1 k ≡ ok (minus_one, k)
unfolding user_byte
copyin-none pagetable ch va k h = elim (Option-cases (user_addr pagetable va k)) [
  | inl e ↦ copyin_byte pagetable ch va k ∙ rw e refl
  | inr (a, e) ↦ absurd (ground (arith, e, h))
]

pub copyin-some :
    (pagetable ch va c : ℕ) (k : Kmem)
    → user_byte pagetable va k ≡ some c
    → copyin pagetable ch va 1 k ≡ ok (pos 0, record k { mem = store k.mem ch c })
unfolding user_byte
copyin-some pagetable ch va c k h = elim (Option-cases (user_addr pagetable va k)) [
  | inl e ↦ absurd (ground (arith, e, h))
  | inr (a, e) ↦
      let same : k.mem a ≡ c = ground (arith, e, h) in
      copyin_byte pagetable ch va k ∙ rw (e, same) refl
]

pub copyout_byte :
    (pagetable ch va : ℕ) (k : Kmem)
    → copyout pagetable va ch 1 k ≡ elim (user_addr pagetable va k) [
      | none ↦ ok (minus_one, k)
      | some a ↦ ok (pos 0, record k { mem = store k.mem a (k.mem ch) })
    ]
unfolding copyout copyout_loop user_addr
copyout_byte pagetable ch va k = elim (Bool-cases (walkaddr pagetable (pgrounddown va) k == 0)) [
  | inl e ↦ rw e refl
  | inr e ↦ rw (e, chunk_byte va, memmove_byte) refl
]

pub copyout-none :
    (pagetable ch va : ℕ) (k : Kmem)
    → user_addr pagetable va k ≡ none
    → copyout pagetable va ch 1 k ≡ ok (minus_one, k)
copyout-none pagetable ch va k h = copyout_byte pagetable ch va k ∙ rw h refl

pub copyout-some :
    (pagetable ch va a : ℕ) (k : Kmem)
    → user_addr pagetable va k ≡ some a
    → copyout pagetable va ch 1 k ≡ ok (pos 0, record k { mem = store k.mem a (k.mem ch) })
copyout-some pagetable ch va a k h = copyout_byte pagetable ch va k ∙ rw h refl
