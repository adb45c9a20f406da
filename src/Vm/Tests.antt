-- ===== src/Vm/Tests.antt =====
-- An empty address space over two free pages, and `mappages` there.
use mitcppos.Prelude.{
  ℕ, ◌+◌, ◌*◌, ◌≡◌, refl, ap, arith, none, some, [], ◌∷◌, ok, ◌==◌, if◌then◌else◌,
}
use mitcppos.Prelude.Int.{ℤ}
use mitcppos.Mem.{load64, store64, load_le, store_le, load_le-zero, store_le_outside}
use mitcppos.Riscv.{pgsize, flag, pte_v}
use mitcppos.Kalloc.{Kmem}
use mitcppos.Kalloc.Chain.{IsFree}
use mitcppos.Vm.{mappages}
use mitcppos.Vm.Tree.{Places, Tree, entry-zero, IsZero}
use mitcppos.Vm.Mappages.{Space, Mapped, mappages-Mapped}

abbrev kend : ℕ
kend = 0x87ffd000

abbrev root : ℕ
root = 0x87ffd000

-- the table at `root` is empty
abbrev fresh : Kmem
fresh = record { mem = store64 (λ _. 0) 0x87ffe000 0x87fff000; freelist = 0x87ffe000 }

abbrev only_root : Places
only_root t = if t == root then some (2, 0) else none

root-IsZero : IsZero root fresh.mem
root-IsZero i h =
    load_le-zero 8 fresh.mem (root + 8 * i)
      (λ a lo hi. store_le_outside 8 (λ _. 0) 0x87ffe000 0x87fff000 a (ground arith))

fresh-IsFree : IsFree kend fresh (0x87ffe000 ∷ 0x87fff000 ∷ [])
unfolding load_le store_le
fresh-IsFree = (refl, omega arith, refl, (refl, omega arith, refl, refl))

fresh-Tree : Tree kend fresh (0x87ffe000 ∷ 0x87fff000 ∷ []) only_root
fresh-Tree = record {
  chain = fresh-IsFree;
  page = λ t l p e. ground arith;
  used = λ t l p e. ground arith;
  child = λ t l p i e h valid.
      let here : t ≡ root = ground arith in
      let zero_entry : load64 fresh.mem (t + 8 * i) ≡ 0 = rw here (root-IsZero i h) in
      absurd (ground (arith, zero_entry));
}

fresh-Space : Space kend (omega arith) root fresh
fresh-Space = record {
  free = 0x87ffe000 ∷ 0x87fff000 ∷ [];
  place = only_root;
  tree = fresh-Tree;
  top = refl;
}

-- A page of user memory at 0x4000. The two free pages become the tables on the way.
mappages-Mapped_example :
    (out : ℤ × Kmem) × (mappages root 0x4000 (1 * pgsize) 0x80000000 22 fresh ≡ ok out)
    × Mapped kend (omega arith) root 0x4000 (1 * pgsize) 0x80000000 22 fresh out
mappages-Mapped_example =
    mappages-Mapped kend (omega arith) root 0 0x4000 0x80000000 22 fresh fresh-Space (omega arith)
      (omega arith) (omega arith) (omega arith) (omega arith)
      (λ va lo hi. ap (λ v. flag v pte_v) (entry-zero 2 root va fresh.mem root-IsZero))
