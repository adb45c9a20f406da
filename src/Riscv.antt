-- ===== src/Riscv.antt =====
-- Constants and macros of kernel/riscv.h, kernel/memlayout.h and kernel/param.h.
use mitcppos.Prelude.{ℕ, ◌+◌, ◌-◌, ◌*◌, ◌/◌, ◌%◌, ◌^◌, Bool, not, ◌==◌}

abbrev pub pgsize : ℕ
pgsize = 4096

abbrev pub phystop : ℕ
phystop = 0x80000000 + 128 * 1024 * 1024

-- `(a) & ~(PGSIZE-1)`
abbrev pub pgrounddown : ℕ → ℕ
pgrounddown a = a - a % pgsize

-- `((sz)+PGSIZE-1) & ~(PGSIZE-1)`, on `uint64`
abbrev pub pgroundup : ℕ → ℕ
pgroundup sz = pgrounddown ((sz + pgsize - 1) % 2 ^ 64)

-- one beyond the highest virtual address
abbrev pub maxva : ℕ
maxva = 2 ^ 38

abbrev pub trampoline_va : ℕ
trampoline_va = maxva - pgsize

abbrev pub trapframe_va : ℕ
trapframe_va = trampoline_va - pgsize

-- `KSTACK(p)`
abbrev pub kstack : ℕ → ℕ
kstack p = trampoline_va - (p + 1) * 2 * pgsize

abbrev pub nproc : ℕ
nproc = 64

-- flag bits of a page table entry
abbrev pub pte_v : ℕ
pte_v = 1

abbrev pub pte_r : ℕ
pte_r = 2

abbrev pub pte_w : ℕ
pte_w = 4

abbrev pub pte_x : ℕ
pte_x = 8

abbrev pub pte_u : ℕ
pte_u = 16

-- `pte & PTE_V`, and so on for the other flags
abbrev pub flag : (pte bit : ℕ) → Bool
flag pte bit = not (pte / bit % 2 == 0)

abbrev pub pa2pte : ℕ → ℕ
pa2pte pa = pa / 2 ^ 12 * 2 ^ 10

abbrev pub pte2pa : ℕ → ℕ
pte2pa pte = pte / 2 ^ 10 * 2 ^ 12

abbrev pub pte_flags : ℕ → ℕ
pte_flags pte = pte % 2 ^ 10

-- `PX(level, va)`
abbrev pub px : (level va : ℕ) → ℕ
px level va = va / 2 ^ (12 + 9 * level) % 512

abbrev pub nbuf : ℕ
nbuf = 30
