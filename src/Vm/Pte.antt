-- ===== src/Vm/Pte.antt =====
-- The fields of a page table entry.
use mitcppos.Prelude.{ℕ, ◌+◌, ◌*◌, ◌/◌, ◌%◌, ◌^◌, ◌<◌, ◌≡◌, refl, ap, ◌∙◌, true, arith}
use mitcppos.Bits.{bit_or-disjoint, bit_or-one}
use Prim.Native.Nat.{bit_or}
use mitcppos.Riscv.{pgsize, phystop, flag, pa2pte, pte2pa, pte_flags, pte_v}
use mitcppos.Vm.{make_pte}

pub make_pte_lem :
    (pa perm : ℕ) → perm < 2 ^ 10 → make_pte pa perm ≡ pa / 2 ^ 12 * 2 ^ 10 + perm / 2 * 2 + 1
make_pte_lem pa perm h =
    ap (λ x. bit_or x 1) (bit_or-disjoint 10 (pa / 2 ^ 12) perm (pa2pte pa) h refl)
    ∙ bit_or-one (pa2pte pa + perm)
    ∙ omega arith

-- An entry made from a page address below `PHYSTOP` and flags of ten bits gives back both, with the
-- valid bit set, and fits into 64 bits.
pub make_pte_fields :
    (pa perm : ℕ)
    → pa % pgsize ≡ 0
    → pa < phystop
    → perm < 2 ^ 10
    → (pte2pa (make_pte pa perm) ≡ pa)
      × (pte_flags (make_pte pa perm) ≡ perm / 2 * 2 + 1)
      × (flag (make_pte pa perm) pte_v ≡ true)
      × (make_pte pa perm < 2 ^ 64)
make_pte_fields pa perm al small h =
    rw (make_pte_lem pa perm h) (omega arith, omega arith, ground arith, omega arith)

-- The entry for a new table.
pub table_pte_fields :
    (pg : ℕ)
    → pg % pgsize ≡ 0
    → pg < phystop
    → (pte2pa (bit_or (pa2pte pg) pte_v) ≡ pg)
      × (flag (bit_or (pa2pte pg) pte_v) pte_v ≡ true)
      × (bit_or (pa2pte pg) pte_v < 2 ^ 64)
table_pte_fields pg al small = rw (bit_or-one (pa2pte pg)) (omega arith, ground arith, omega arith)
