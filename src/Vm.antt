-- ===== src/Vm.antt =====
-- kernel/vm.c: page tables. A table is a page of 512 entries in memory; entries are read and written
-- there, and the pages come from `Kalloc`. A function that the source lets return an `int` returns an
-- integer, with the new memory.
pub mod Pte
pub mod Tree
pub mod Grow
pub mod Walk
pub mod Map
pub mod Mappages
pub mod User
mod Tests
use Prim.Native.Nat.{bit_or}
use mitcppos.Prelude.{
  ℕ, zero, suc, ◌+◌, ◌-◌, ◌*◌, ◌/◌, ◌%◌, ◌^◌, Bool, true, false, ◌&&◌, ◌||◌, not, ltb, leb, ◌==◌,
  if◌then◌else◌, Outcome, ok, panic, out_of_fuel, ◌>>=◌,
}
use mitcppos.Prelude.Int.{ℤ, pos, minus_one}
use mitcppos.Mem.{Mem, load64, store64}
use mitcppos.Str.{memset, memmove}
use mitcppos.Riscv.{
  pgsize, phystop, pgroundup, pgrounddown, maxva, trampoline_va, kstack, nproc, pte_v, pte_r, pte_w,
  pte_x, pte_u, flag, pa2pte, pte2pa, pte_flags, px,
}
use mitcppos.Kalloc.{Kmem, kalloc, kfree}

-- `PA2PTE(pa) | perm | PTE_V`
abbrev pub make_pte : (pa perm : ℕ) → ℕ
make_pte pa perm = bit_or (bit_or (pa2pte pa) perm) pte_v

-- `memset(pg, 0, PGSIZE)` and `*pte = PA2PTE(pg) | PTE_V` for a new table `pg`
abbrev pub new_table : (pg pte : ℕ) → Kmem → Kmem
new_table pg pte k = record k {
  mem = store64 (memset k.mem pg 0 pgsize) pte (bit_or (pa2pte pg) pte_v);
}

-- The loop of `walk` from `level` down: the address of the entry, or 0.
unfoldable pub walk_loop : (level pagetable va : ℕ) (alloc : Bool) → Kmem → ℕ × Kmem
walk_loop zero pagetable va alloc k = (pagetable + 8 * px 0 va, k)
walk_loop (suc l) pagetable va alloc k =
    let pte = pagetable + 8 * px (suc l) va in
    let entry = load64 k.mem pte in
    let down = walk_loop l (pte2pa entry) va alloc k in
    let (pg, k') = kalloc k in
    let grown = walk_loop l pg va alloc (new_table pg pte k') in
    if flag entry pte_v
    then down
    else (if not alloc then (0, k) else (if pg == 0 then (0, k') else grown))

pub walk : (pagetable va : ℕ) (alloc : Bool) → Kmem → Outcome (ℕ × Kmem)
walk pagetable va alloc k =
    if leb maxva va then panic "walk" else ok (walk_loop 2 pagetable va alloc k)

unfoldable pub walkaddr : (pagetable va : ℕ) → Kmem → ℕ
walkaddr pagetable va k =
    let pte = (walk_loop 2 pagetable va false k).0 in
    let entry = load64 k.mem pte in
    if leb maxva va || pte == 0 || not (flag entry pte_v) || not (flag entry pte_u)
    then 0
    else pte2pa entry

-- The `for(;;)` of `mappages` with fuel.
pub mappages_loop : (fuel pagetable a last pa perm : ℕ) → Kmem → Outcome (ℤ × Kmem)
mappages_loop zero pagetable a last pa perm k = out_of_fuel
mappages_loop (suc fuel) pagetable a last pa perm k = walk pagetable a true k >>= λ (pte, k').
    let k'' = record k' { mem = store64 k'.mem pte (make_pte pa perm) } in
    let rest = mappages_loop fuel pagetable (a + pgsize) last (pa + pgsize) perm k'' in
    if pte == 0
    then ok (minus_one, k')
    else (if flag (load64 k'.mem pte) pte_v
        then panic "remap"
        else (if a == last then ok (pos 0, k'') else rest))

-- A round for each page from that of `va` to that of `va + size - 1`. For a `size` of 0, which no
-- caller passes, the source runs on behind the end, and the fuel runs out.
pub mappages : (pagetable va size pa perm : ℕ) → Kmem → Outcome (ℤ × Kmem)
mappages pagetable va size pa perm k =
    let a = pgrounddown va in
    let last = pgrounddown (va + size - 1) in
    mappages_loop (suc ((last - a) / pgsize)) pagetable a last pa perm k

-- The boot-time mapping of the kernel's own table.
pub kvmmap : (kpgtbl va pa sz perm : ℕ) → Kmem → Outcome Kmem
kvmmap kpgtbl va pa sz perm k =
    mappages kpgtbl va sz pa perm k >>= λ (r, k'). elim r [ pos zero ↦ ok k' | _ ↦ panic "kvmmap" ]

-- 0 if there is no memory.
pub uvmcreate : Kmem → ℕ × Kmem
uvmcreate k =
    let (pg, k') = kalloc k in
    if pg == 0 then (0, k') else (pg, record k' { mem = memset k'.mem pg 0 pgsize })

pub uvminit : (pagetable src sz : ℕ) → Kmem → Outcome Kmem
uvminit pagetable src sz k =
    let (page, k₁) = kalloc k in
    if leb pgsize sz
    then panic "inituvm: more than a page"
    else mappages pagetable 0 pgsize page 30 (record k₁ { mem = memset k₁.mem page 0 pgsize })
      >>= λ (r, k₂). ok (record k₂ { mem = memmove k₂.mem page src sz })

-- `*pte &= ~PTE_U`
pub uvmclear : (pagetable va : ℕ) → Kmem → Outcome Kmem
uvmclear pagetable va k = walk pagetable va false k >>= λ (pte, k').
    let entry = load64 k'.mem pte in
    if pte == 0
    then panic "uvmclear"
    else ok
        (record k' { mem = store64 k'.mem pte (if flag entry pte_u then entry - pte_u else entry) })

module _ (kernel_end : ℕ) where
  -- One round of `uvmunmap`, at the entry `pte`.
  pub unmap_entry : (pte : ℕ) (do_free : Bool) → Kmem → Outcome Kmem
  unmap_entry pte do_free k =
      let entry = load64 k.mem pte in
      let clear = λ (k' : Kmem). record k' { mem = store64 k'.mem pte 0 } in
      if pte == 0
      then panic "uvmunmap: walk"
      else (if not (flag entry pte_v)
          then ok k
          else (if pte_flags entry == pte_v
              then panic "uvmunmap: not a leaf"
              else (if do_free
                  then (kfree kernel_end (pte2pa entry) k >>= λ k'. ok (clear k'))
                  else ok (clear k))))

  pub unmap_loop : (npages pagetable a : ℕ) (do_free : Bool) → Kmem → Outcome Kmem
  unmap_loop zero pagetable a do_free k = ok k
  unmap_loop (suc n) pagetable a do_free k = walk pagetable a false k >>= λ (pte, k').
      unmap_entry pte do_free k' >>= unmap_loop n pagetable (a + pgsize) do_free

  pub uvmunmap : (pagetable va npages : ℕ) (do_free : Bool) → Kmem → Outcome Kmem
  uvmunmap pagetable va npages do_free k =
      if not (va % pgsize == 0)
      then panic "uvmunmap: not aligned"
      else unmap_loop npages pagetable va do_free k

  pub uvmdealloc : (pagetable oldsz newsz : ℕ) → Kmem → Outcome (ℕ × Kmem)
  uvmdealloc pagetable oldsz newsz k =
      let npages = (pgroundup oldsz - pgroundup newsz) / pgsize in
      if leb oldsz newsz
      then ok (oldsz, k)
      else (if ltb (pgroundup newsz) (pgroundup oldsz)
          then (uvmunmap pagetable (pgroundup newsz) npages true k >>= λ k'. ok (newsz, k'))
          else ok (newsz, k))

  -- The loop of `uvmalloc` with `n` rounds left; 0 on failure.
  pub uvmalloc_loop : (n pagetable a oldsz newsz : ℕ) → Kmem → Outcome (ℕ × Kmem)
  uvmalloc_loop zero pagetable a oldsz newsz k = ok (newsz, k)
  uvmalloc_loop (suc n) pagetable a oldsz newsz k =
      let (page, k₁) = kalloc k in
      let undo = λ (k' : Kmem). uvmdealloc pagetable a oldsz k' >>= λ (_, k''). ok (0, k'') in
      let rest = uvmalloc_loop n pagetable (a + pgsize) oldsz newsz in
      let next : ℤ × Kmem → Outcome (ℕ × Kmem) =
        λ (r, k₂). elim r [ pos zero ↦ rest k₂ | _ ↦ kfree kernel_end page k₂ >>= undo ] in
      if page == 0
      then undo k₁
      else (mappages pagetable a pgsize page 30 (record k₁ { mem = memset k₁.mem page 0 pgsize })
          >>= next)

  -- A round for each page that begins in `[PGROUNDUP(oldsz), newsz)`.
  pub uvmalloc : (pagetable oldsz newsz : ℕ) → Kmem → Outcome (ℕ × Kmem)
  uvmalloc pagetable oldsz newsz k =
      let a = pgroundup oldsz in
      if ltb newsz oldsz
      then ok (oldsz, k)
      else uvmalloc_loop ((newsz - a + pgsize - 1) / pgsize) pagetable a a newsz k
