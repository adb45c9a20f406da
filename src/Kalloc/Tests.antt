-- ===== src/Kalloc/Tests.antt =====
-- The allocator on a small memory, and its theorems there.
use mitcppos.Prelude.{ℕ, ◌+◌, ◌≤◌, ◌<◌, ◌≡◌, refl, ◌↔◌, arith, true, List, [], ◌∷◌, has, ok}
use mitcppos.Mem.{store64, load_le, store_le}
use mitcppos.Riscv.{pgsize}
use mitcppos.Kalloc.{Kmem, kalloc, kfree, kinit}
use mitcppos.Kalloc.Chain.{IsPage, IsFree, SameOutside, kfree-Chain, kalloc-Chain}
use mitcppos.Kalloc.Boot.{kinit-IsFree}

-- The kernel ends three pages below the end of memory.
abbrev kend : ℕ
kend = 0x87ffd000

abbrev empty : Kmem
empty = record { mem = λ _. 0; freelist = 0 }

abbrev two_pages : Kmem
two_pages = record { mem = store64 (λ _. 0) 0x87ffe000 0x87fff000; freelist = 0x87ffe000 }

two_pages-IsFree : IsFree kend two_pages (0x87ffe000 ∷ 0x87fff000 ∷ [])
unfolding load_le store_le
two_pages-IsFree = (refl, omega arith, refl, (refl, omega arith, refl, refl))

kfree-Chain_example :
    (k' : Kmem) × (kfree kend 0x87ffd000 two_pages ≡ ok k')
    × IsFree kend k' (0x87ffd000 ∷ 0x87ffe000 ∷ 0x87fff000 ∷ [])
    × SameOutside 0x87ffd000 two_pages.mem k'.mem
kfree-Chain_example =
    kfree-Chain kend 0x87ffd000 two_pages (0x87ffe000 ∷ 0x87fff000 ∷ []) two_pages-IsFree
      (omega arith) refl

kalloc-Chain_example :
    ((kalloc two_pages).0 ≡ 0x87ffe000)
    × IsFree kend (kalloc two_pages).1 (0x87fff000 ∷ [])
    × ((a : ℕ) → 0x87ffe000 ≤ a → a < 0x87ffe000 + pgsize → (kalloc two_pages).1.mem a ≡ 5)
    × SameOutside 0x87ffe000 two_pages.mem (kalloc two_pages).1.mem
kalloc-Chain_example =
    kalloc-Chain kend two_pages 0x87ffe000 (0x87fff000 ∷ []) (omega arith) two_pages-IsFree

kinit-IsFree_example :
    (k' : Kmem) × (ys : List ℕ) × (kinit kend empty ≡ ok k')
    × IsFree kend k' ys
    × ((q : ℕ) → (has q ys ≡ true) ↔ IsPage kend q)
kinit-IsFree_example = kinit-IsFree kend empty (omega arith) refl
