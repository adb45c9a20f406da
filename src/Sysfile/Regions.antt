-- ===== src/Sysfile/Regions.antt =====
-- kernel/sysfile.c: `mmap_handler` and `sys_munmap`, and the page fault of `usertrap` in kernel/trap.c.
use mitcppos.Prelude.{
  ℕ, suc, ◌+◌, ◌-◌, ◌*◌, ◌/◌, ◌%◌, ◌^◌, true, false, not, ◌&&◌, ◌||◌, Option, none, some, List, [],
  ◌∷◌, set, get_elem?, ltb, leb, ◌==◌, if◌then◌else◌, Outcome, ok, ◌>>=◌,
}
use mitcppos.Prelude.Int.{ℤ, pos, negsuc, minus_one}
use mitcppos.Mem.{load64}
use mitcppos.Str.{memset}
use mitcppos.Riscv.{pgsize, pgroundup, pgrounddown, flag, pte_u, pte_r, pte_w, pte_x}
use mitcppos.Kalloc.{Kmem, kalloc, kfree}
use mitcppos.Vm.{mappages, uvmunmap}
use mitcppos.Mmap.{Mmapitem, munmap_loop, add64, map_shared, prot_write}
use mitcppos.Proc.{Proc}
use mitcppos.Fs.{FsState}
use mitcppos.Fs.Inodes.{ilock, iunlock}
use mitcppos.Fs.Content.{Around, readi}
use mitcppos.Fs.Dir.{is_ℤ}
use mitcppos.Sysfile.Io.{Files, put_fs, put_kmem, close_file, Driver, Io, done, asleep, filewrite}

abbrev pub prot_read : ℕ
prot_read = 1

abbrev pub prot_exec : ℕ
prot_exec = 4

-- The first region in use that has `va`.
pub find_region : (va : ℕ) → List Mmapitem → Option Mmapitem
find_region va [] = none
find_region va (x ∷ xs) =
    let rest = find_region va xs in
    if x.used && leb x.addr va && ltb va (add64 x.addr x.length) then some x else rest

-- An `int` with the low 32 bits of `va`, as `uint64` again.
pub int_word : ℕ → ℕ
int_word va = let low = va % 2 ^ 32 in if ltb low (2 ^ 31) then low else low + (2 ^ 64 - 2 ^ 32)

pub region_flags : (prot : ℕ) → ℕ
region_flags prot =
    pte_u
    + (if flag prot prot_read then pte_r else 0)
    + (if flag prot prot_write then pte_w else 0)
    + (if flag prot prot_exec then pte_x else 0)

-- `length / PGSIZE` pages from `addr` on, as the loop of `uvmunmap` counts them.
pub pages_of : (addr : ℕ) → ℤ → ℕ
pages_of addr (pos n) = n / pgsize
pages_of addr (negsuc n) =
    let back = suc n / pgsize in if leb (back * pgsize) addr then 0 else 2 ^ 52 - back

module _ (env : Around) (kernel_end : ℕ) where
  -- Behind the `readi` in `mmap_handler`, with the file's part in page `pa`.
  pub map_page : (va pa prot pagetable ip : ℕ) → Files → ℤ × FsState → Outcome (ℤ × Files)
  map_page va pa prot pagetable ip w (r, s) = iunlock env.pid ip s >>= λ s'.
      let undo : Kmem → Outcome (ℤ × Files) =
        λ k. kfree kernel_end pa k >>= λ k'. ok (minus_one, put_kmem (put_fs w s') k') in
      let mapped : ℤ × Kmem → Outcome (ℤ × Files) =
        λ (e, k). if is_ℤ e 0 then ok (pos 0, put_kmem (put_fs w s') k) else undo k in
      if is_ℤ r 0
      then undo s'.kmem
      else (mappages pagetable (pgrounddown va) pgsize pa (region_flags prot) s'.kmem >>= mapped)

  -- With the region.
  pub load_page : (va cause pagetable : ℕ) → Files → Mmapitem → Outcome (ℤ × Files)
  load_page va cause pagetable w x =
      let f = w.table x.vfile in
      let (pa, k) = kalloc w.fs.kmem in
      let zeroed = record k { mem = memset k.mem pa 0 pgsize } in
      let offset = (x.offset + pgrounddown (va - x.addr)) % 2 ^ 32 in
      let read = ilock env.sb env.pid f.ip (record w.fs { kmem = zeroed }) >>= λ s.
      readi env f.ip false pa offset pgsize s >>= map_page va pa x.prot pagetable f.ip w in
      if (cause == 13 && not f.readable) || (cause == 15 && not f.writable)
      then ok (minus_one, w)
      else (if pa == 0 then ok (minus_one, put_kmem w k) else read)

  pub mmap_handler : (va cause : ℕ) → Proc → Files → Outcome (ℤ × Files)
  mmap_handler va cause p w = elim (find_region (int_word va) p.vma) [
    | none ↦ ok (minus_one, w)
    | some x ↦ load_page (int_word va) cause p.pagetable w x
  ]

  -- The page fault at `va` in `usertrap`, with `cause` 13 or 15.
  pub page_fault : (va cause : ℕ) → Proc → Files → Outcome (Proc × Files)
  page_fault va cause p w =
      let sp = load64 w.fs.kmem.mem (p.trapframe + 48) in
      let handled : ℤ × Files → Outcome (Proc × Files) =
        λ (r, w'). ok (if is_ℤ r 0 then p else record p { killed = true }, w') in
      if ltb ((pgroundup sp + (2 ^ 64 - 1)) % 2 ^ 64) va && ltb va p.sz
      then (mmap_handler va cause p w >>= handled)
      else ok (record p { killed = true }, w)

  -- The end of `sys_munmap`, for the region `x` at place `i`.
  pub close_region : (i : ℕ) → Mmapitem → Proc → Files → Outcome (Option (ℤ × Proc × Files))
  close_region i x p w =
      let closed = record p { vma = set p.vma i (record x { used = false }) } in
      if is_ℤ x.length 0
      then (close_file env kernel_end x.vfile w >>= λ w'. ok (some (pos 0, closed, w')))
      else ok (some (pos 0, p, w))

  module _ (devsw : ℕ → Driver) (ch : ℕ) where
    -- Behind the loop; none where the file is a pipe, and the write goes to sleep.
    pub munmap_region :
        (addr : ℕ) (length : ℤ) (i : ℕ)
        → Mmapitem
        → Proc
        → Files
        → Outcome (Option (ℤ × Proc × Files))
    munmap_region addr length i x p w =
        let unmap : Files → Outcome (Option (ℤ × Proc × Files)) = λ w'.
          uvmunmap kernel_end p.pagetable addr (pages_of addr length) true w'.fs.kmem >>= λ k.
          close_region i x p (put_kmem w' k) in
        let written : Io → Outcome (Option (ℤ × Proc × Files)) =
          λ t. elim t [ done _ w' ↦ unmap w' | asleep _ _ ↦ ok none ] in
        if x.flags == map_shared && flag x.prot prot_write
        then (filewrite env kernel_end devsw ch p.killed x.vfile addr length w >>= written)
        else unmap w

    pub sys_munmap : (addr : ℕ) (length : ℤ) → Proc → Files → Outcome (Option (ℤ × Proc × Files))
    sys_munmap addr length p w = elim (munmap_loop addr length 0 p.vma) [
      | none ↦ ok (some (minus_one, p, w))
      | some (i, vma) ↦ elim (get_elem? vma i) [
        | none ↦ ok (some (minus_one, p, w))
        | some x ↦ munmap_region addr length i x (record p { vma = vma }) w
      ]
    ]
