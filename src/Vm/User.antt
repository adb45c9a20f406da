-- ===== src/Vm/User.antt =====
-- kernel/vm.c: freeing and copying whole address spaces, and copying between kernel and user memory.
use mitcppos.Prelude.{
  ℕ, zero, suc, ◌+◌, ◌-◌, ◌*◌, ◌/◌, ◌%◌, Bool, true, false, ◌&&◌, not, ltb, ◌==◌, if◌then◌else◌,
  Outcome, ok, panic, out_of_fuel, ◌>>=◌,
}
use mitcppos.Prelude.Int.{ℤ, pos, minus_one}
use mitcppos.Mem.{Mem, store, load64, store64}
use mitcppos.Str.{memmove}
use mitcppos.Riscv.{pgsize, pgroundup, pgrounddown, pte_v, flag, pte2pa, pte_flags}
use mitcppos.Kalloc.{Kmem, kalloc, kfree}
use mitcppos.Vm.{walk, walkaddr, mappages, uvmunmap}
pub mod Bytes
pub mod Total
pub mod Strings
pub mod Fetch

-- `min(room, len)` for the bytes up to the end of the page of `va`
abbrev pub chunk : (va len : ℕ) → ℕ
chunk va len = let room = pgsize - (va - pgrounddown va) in if ltb len room then len else room

-- Each round copies a byte at least.
pub copyout_loop : (fuel pagetable dstva src len : ℕ) → Kmem → Outcome (ℤ × Kmem)
copyout_loop zero pagetable dstva src len k = out_of_fuel
copyout_loop (suc fuel) pagetable dstva src len k =
    let va0 = pgrounddown dstva in
    let pa0 = walkaddr pagetable va0 k in
    let n = chunk dstva len in
    let k' = record k { mem = memmove k.mem (pa0 + (dstva - va0)) src n } in
    let rest = copyout_loop fuel pagetable (va0 + pgsize) (src + n) (len - n) k' in
    if len == 0 then ok (pos 0, k) else (if pa0 == 0 then ok (minus_one, k) else rest)

pub copyout : (pagetable dstva src len : ℕ) → Kmem → Outcome (ℤ × Kmem)
copyout pagetable dstva src len k = copyout_loop (suc len) pagetable dstva src len k

pub copyin_loop : (fuel pagetable dst srcva len : ℕ) → Kmem → Outcome (ℤ × Kmem)
copyin_loop zero pagetable dst srcva len k = out_of_fuel
copyin_loop (suc fuel) pagetable dst srcva len k =
    let va0 = pgrounddown srcva in
    let pa0 = walkaddr pagetable va0 k in
    let n = chunk srcva len in
    let k' = record k { mem = memmove k.mem dst (pa0 + (srcva - va0)) n } in
    let rest = copyin_loop fuel pagetable (dst + n) (va0 + pgsize) (len - n) k' in
    if len == 0 then ok (pos 0, k) else (if pa0 == 0 then ok (minus_one, k) else rest)

pub copyin : (pagetable dst srcva len : ℕ) → Kmem → Outcome (ℤ × Kmem)
copyin pagetable dst srcva len k = copyin_loop (suc len) pagetable dst srcva len k

-- The inner loop of `copyinstr` over `n` bytes from `p`: whether it met the NUL, where it stopped in
-- the destination, and what is left of `max`.
pub copy_chars : (n p dst max : ℕ) → Mem → Bool × ℕ × ℕ × Mem
copy_chars zero p dst max m = (false, dst, max, m)
copy_chars (suc n) p dst max m =
    let rest = copy_chars n (p + 1) (dst + 1) (max - 1) (store m dst (m p)) in
    if m p == 0 then (true, dst, max, store m dst 0) else rest

pub copyinstr_loop : (fuel pagetable dst srcva max : ℕ) → Kmem → Outcome (ℤ × Kmem)
copyinstr_loop zero pagetable dst srcva max k = out_of_fuel
copyinstr_loop (suc fuel) pagetable dst srcva max k =
    let va0 = pgrounddown srcva in
    let pa0 = walkaddr pagetable va0 k in
    let (got_null, dst', max', m) =
      copy_chars (chunk srcva max) (pa0 + (srcva - va0)) dst max k.mem in
    let k' = record k { mem = m } in
    let rest = copyinstr_loop fuel pagetable dst' (va0 + pgsize) max' k' in
    if max == 0
    then ok (minus_one, k)
    else (if pa0 == 0 then ok (minus_one, k) else (if got_null then ok (pos 0, k') else rest))

pub copyinstr : (pagetable dst srcva max : ℕ) → Kmem → Outcome (ℤ × Kmem)
copyinstr pagetable dst srcva max k = copyinstr_loop (suc max) pagetable dst srcva max k

module _ (kernel_end : ℕ) where
  -- The entries of `pagetable` from `i` on, `n` of them, with `free` for the tables below; then the
  -- table itself.
  pub freewalk_entries : (free : ℕ → Kmem → Outcome Kmem) (n pagetable i : ℕ) → Kmem → Outcome Kmem
  freewalk_entries free zero pagetable i k = kfree kernel_end pagetable k
  freewalk_entries free (suc n) pagetable i k =
      let pte = load64 k.mem (pagetable + 8 * i) in
      let rest = freewalk_entries free n pagetable (i + 1) in
      if flag pte pte_v && pte / 2 % 8 == 0
      then (free (pte2pa pte) k >>= λ k'.
          rest (record k' { mem = store64 k'.mem (pagetable + 8 * i) 0 }))
      else (if flag pte pte_v then panic "freewalk: leaf" else rest k)

  -- `depth` bounds the recursion; a page table has three levels.
  pub freewalk : (depth pagetable : ℕ) → Kmem → Outcome Kmem
  freewalk zero pagetable k = out_of_fuel
  freewalk (suc depth) pagetable k = freewalk_entries (freewalk depth) 512 pagetable 0 k

  pub uvmfree : (pagetable sz : ℕ) → Kmem → Outcome Kmem
  uvmfree pagetable sz k =
      (if ltb 0 sz then uvmunmap kernel_end pagetable 0 (pgroundup sz / pgsize) true k else ok k)
      >>= freewalk 3 pagetable

  -- The loop of `uvmcopy` with `n` rounds left.
  pub uvmcopy_loop : (n old new i : ℕ) → Kmem → Outcome (ℤ × Kmem)
  uvmcopy_loop zero old new i k = ok (pos 0, k)
  uvmcopy_loop (suc n) old new i k =
      let rest = uvmcopy_loop n old new (i + pgsize) in
      let fail = λ (k' : Kmem).
        uvmunmap kernel_end new 0 (i / pgsize) true k' >>= λ k''. ok (minus_one, k'') in
      let next : ℕ → ℤ × Kmem → Outcome (ℤ × Kmem) =
        λ page (r, k₂). elim r [ pos zero ↦ rest k₂ | _ ↦ kfree kernel_end page k₂ >>= fail ] in
      let copy : ℕ → Kmem → Outcome (ℤ × Kmem) = λ entry k'.
        let (page, k₁) = kalloc k' in
        let k₂ = record k₁ { mem = memmove k₁.mem page (pte2pa entry) pgsize } in
        if page == 0
        then fail k₁
        else (mappages new i pgsize page (pte_flags entry) k₂ >>= next page) in
      walk old i false k >>= λ (pte, k').
      let entry = load64 k'.mem pte in
      if pte == 0
      then panic "uvmcopy: pte should exist"
      else (if not (flag entry pte_v) then rest k' else copy entry k')

  pub uvmcopy : (old new sz : ℕ) → Kmem → Outcome (ℤ × Kmem)
  uvmcopy old new sz k = uvmcopy_loop ((sz + pgsize - 1) / pgsize) old new 0 k
