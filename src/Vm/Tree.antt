-- ===== src/Vm/Tree.antt =====
-- The three levels of a page table as a tree of pages. A page of the tree has a place: its level and
-- the part of the virtual address that leads to it.
use mitcppos.Prelude.{
  ℕ, zero, suc, ◌+◌, ◌*◌, ◌<◌, ◌≡◌, refl, ◌⊎◌, inl, inr, true, false, Option, some, List, has,
  arith, if◌then◌else◌, Bool-cases,
}
use mitcppos.Mem.{Mem, load64}
use mitcppos.Riscv.{px, flag, pte2pa, pte_v}
use mitcppos.Kalloc.{Kmem}
use mitcppos.Kalloc.Chain.{IsPage, IsFree}
use mitcppos.Vm.{walk_loop}

-- What the table at `t` holds for `va`: the entry at the end of the walk, or 0 if the walk ends
-- before.
unfoldable pub entry : (level t va : ℕ) → Mem → ℕ
entry zero t va m = load64 m (t + 8 * px 0 va)
entry (suc l) t va m =
    let e = load64 m (t + 8 * px (suc l) va) in
    let down = entry l (pte2pa e) va m in if flag e pte_v then down else 0

abbrev pub Places : Type 0
Places = ℕ → Option (ℕ × ℕ)

pub record Tree (kernel_end : ℕ) (k : Kmem) (free : List ℕ) (place : Places) : Type 0 where
  pub chain : IsFree kernel_end k free
  pub page : (t l p : ℕ) → place t ≡ some (l, p) → IsPage kernel_end t
  pub used : (t l p : ℕ) → place t ≡ some (l, p) → has t free ≡ false
  pub child :
      (t l p i : ℕ)
      → place t ≡ some (suc l, p)
      → i < 512
      → flag (load64 k.mem (t + 8 * i)) pte_v ≡ true
      → place (pte2pa (load64 k.mem (t + 8 * i))) ≡ some (l, p * 512 + i)

-- a page of zeroes
abbrev pub IsZero : ℕ → Mem → Type 0
IsZero t m = (i : ℕ) → i < 512 → load64 m (t + 8 * i) ≡ 0

pub px-lt : (level va : ℕ) → px level va < 512
px-lt level va = omega arith

pub entry-zero : (level t va : ℕ) (m : Mem) → IsZero t m → entry level t va m ≡ 0
unfolding entry
entry-zero zero t va m z = z (px 0 va) (omega arith)
entry-zero (suc l) t va m z = rw (z (px (suc l) va) (px-lt (suc l) va))

pub entry_leaf : (t va : ℕ) (m : Mem) → entry 0 t va m ≡ load64 m (t + 8 * px 0 va)
unfolding entry
entry_leaf t va m = refl

-- One level of the walk, with `v` in the table.
pub entry_valid :
    (l t va : ℕ) (m : Mem) (v : ℕ)
    → load64 m (t + 8 * px (suc l) va) ≡ v
    → flag v pte_v ≡ true
    → entry (suc l) t va m ≡ entry l (pte2pa v) va m
unfolding entry
entry_valid l t va m v e h = rw (e, h)

pub entry_invalid :
    (l t va : ℕ) (m : Mem) (v : ℕ)
    → load64 m (t + 8 * px (suc l) va) ≡ v
    → flag v pte_v ≡ false
    → entry (suc l) t va m ≡ 0
unfolding entry
entry_invalid l t va m v e h = rw (e, h)

-- Without `alloc` the walk changes nothing; it ends at the entry, or at 0 if there is none.
pub walk_loop-entry :
    (level t va : ℕ) (k : Kmem)
    → let (p, k') = walk_loop level t va false k in
      (k' ≡ k)
      × ((p ≡ 0) × (entry level t va k.mem ≡ 0) ⊎ (load64 k.mem p ≡ entry level t va k.mem))
unfolding walk_loop entry
walk_loop-entry zero t va k = (refl, inr refl)
walk_loop-entry (suc l) t va k =
    let e = load64 k.mem (t + 8 * px (suc l) va) in
    elim (Bool-cases (flag e pte_v)) [
      | inl valid ↦ rw valid (walk_loop-entry l (pte2pa e) va k)
      | inr invalid ↦ rw invalid (refl, inl (refl, refl))
    ]
