-- ===== src/Kalloc.antt =====
-- kernel/kalloc.c: the page allocator. Free pages are chained through their first eight bytes, in
-- the memory itself. Each function holds `kmem.lock` over what it does to the list, and is one step
-- here; the lock is the one of `Spinlock`.
pub mod Chain
pub mod Boot
mod Tests
use mitcppos.Prelude.{
  ℕ, zero, suc, ◌+◌, ◌%◌, ◌||◌, not, ltb, leb, ◌==◌, if◌then◌else◌, Outcome, ok, panic, out_of_fuel,
  ◌>>=◌,
}
use mitcppos.Mem.{Mem, load64, store64}
use mitcppos.Str.{memset}
use mitcppos.Riscv.{pgsize, phystop, pgroundup}

-- `kmem`, with the memory that the list runs through
pub record Kmem : Type 0 where
  pub mem : Mem
  pub freelist : ℕ

pub kalloc : Kmem → ℕ × Kmem
kalloc k = if k.freelist == 0 then (0, k) else (
  k.freelist,
  record { mem = memset k.mem k.freelist 5 pgsize; freelist = load64 k.mem k.freelist },
)

-- `kernel_end` is the linker's `end`.
module _ (kernel_end : ℕ) where
  pub kfree : (pa : ℕ) → Kmem → Outcome Kmem
  kfree pa k =
      if not (pa % pgsize == 0) || ltb pa kernel_end || leb phystop pa
      then panic "kfree"
      else ok (record { mem = store64 (memset k.mem pa 1 pgsize) pa k.freelist; freelist = pa })

  freerange_loop : (fuel p pa_end : ℕ) → Kmem → Outcome Kmem
  freerange_loop zero p pa_end k = out_of_fuel
  freerange_loop (suc fuel) p pa_end k =
      let rest = kfree p k >>= freerange_loop fuel (p + pgsize) pa_end in
      if leb (p + pgsize) pa_end then rest else ok k

  -- There are fewer rounds than bytes.
  pub freerange : (pa_start pa_end : ℕ) → Kmem → Outcome Kmem
  freerange pa_start pa_end k = freerange_loop (suc pa_end) (pgroundup pa_start) pa_end k

  pub kinit : Kmem → Outcome Kmem
  kinit k = freerange kernel_end phystop k
