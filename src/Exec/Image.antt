-- ===== src/Exec/Image.antt =====
-- kernel/exec.c: `exec` itself and `loadseg`, between `begin_op` and `end_op`. `elf`, `ph` and `ustack`
-- are the addresses of the local variables of these names; `ustack` is filled before it is copied.
-- `fuel` is that of `strlen` and of the walk over the path.
use mitcppos.Prelude.{
  ℕ, zero, suc, ◌+◌, ◌-◌, ◌*◌, ◌/◌, ◌%◌, ◌^◌, Bool, true, false, not, ◌||◌, Option, none, some, ltb,
  ◌==◌, if◌then◌else◌, Outcome, ok, panic, out_of_fuel, ◌>>=◌,
}
use mitcppos.Prelude.Int.{ℤ, pos, negsuc, minus_one}
use mitcppos.Mem.{load_le, store64}
use mitcppos.Str.{safestrcpy}
use mitcppos.Riscv.{pgsize, pgroundup}
use mitcppos.Kalloc.{Kmem}
use mitcppos.Vm.{walkaddr, uvmalloc, uvmclear}
use mitcppos.Vm.User.{copyout}
use mitcppos.Proc.{Proc}
use mitcppos.Proc.Memory.{proc_pagetable, proc_freepagetable}
use mitcppos.Fs.{FsState}
use mitcppos.Fs.Inodes.{ilock, iunlockput}
use mitcppos.Fs.Content.{Around, readi}
use mitcppos.Fs.Dir.{is_ℤ}
use mitcppos.Fs.Path.{namei}
use mitcppos.Exec.{
  maxarg, elf_size, elf_magic, elf_entry, elf_phoff, elf_phnum, elf_prog_load, ph_size, ph_type,
  ph_off, ph_vaddr, ph_filesz, ph_memsz, push, Args, bad, pushed, push_args, store_ustack,
  last_name,
}

abbrev pub put_kmem : FsState → Kmem → FsState
put_kmem s k = record s { kmem = k }

-- With the result of `readi`, which should be `n`.
pub if_read :
    (n : ℕ) (good fail : FsState → Outcome (ℤ × FsState)) → ℤ × FsState → Outcome (ℤ × FsState)
if_read n good fail (r, s) = if is_ℤ r n then good s else fail s

module _ (env : Around) where
  -- The loop of `loadseg`, with fuel; `i` is a `uint`.
  pub loadseg_loop : (fuel pagetable va ip offset sz i : ℕ) → FsState → Outcome (ℤ × FsState)
  loadseg_loop zero pagetable va ip offset sz i s = out_of_fuel
  loadseg_loop (suc fuel) pagetable va ip offset sz i s =
      let pa = walkaddr pagetable ((va + i) % 2 ^ 64) s.kmem in
      let n = if ltb (sz - i) pgsize then sz - i else pgsize in
      let rest = loadseg_loop fuel pagetable va ip offset sz ((i + pgsize) % 2 ^ 32) in
      let read = readi env ip false pa ((offset + i) % 2 ^ 32) n s in
      if ltb i sz
      then (if pa == 0
          then panic "loadseg: address should exist"
          else (read >>= if_read n rest (λ s'. ok (minus_one, s'))))
      else ok (pos 0, s)

  -- `offset` and `sz` are of type `uint`.
  pub loadseg : (pagetable va ip offset sz : ℕ) → FsState → Outcome (ℤ × FsState)
  loadseg pagetable va ip offset sz s =
      if not (va % pgsize == 0)
      then panic "loadseg: va must be page aligned"
      else loadseg_loop (sz / pgsize + 2) pagetable va ip offset sz 0 s

  module _ (kernel_end ph : ℕ) where
    -- A segment of type `ELF_PROG_LOAD`: whether it was loaded, and the size.
    pub load_segment : (pagetable ip sz : ℕ) → FsState → Outcome (Bool × ℕ × FsState)
    load_segment pagetable ip sz s =
        let m = s.kmem.mem in
        let top = (ph_vaddr m ph + ph_memsz m ph) % 2 ^ 64 in
        let off = ph_off m ph % 2 ^ 32 in
        let loaded : ℕ → ℤ × FsState → Outcome (Bool × ℕ × FsState) =
          λ sz1 (r, s'). elim r [ pos _ ↦ ok (true, sz1, s') | negsuc _ ↦ ok (false, sz1, s') ] in
        let grown : ℕ × Kmem → Outcome (Bool × ℕ × FsState) = λ (sz1, k).
          if sz1 == 0
          then ok (false, sz, put_kmem s k)
          else (if not (ph_vaddr m ph % pgsize == 0)
              then ok (false, sz1, put_kmem s k)
              else (loadseg pagetable (ph_vaddr m ph) ip off (ph_filesz m ph % 2 ^ 32)
                    (put_kmem s k)
                  >>= loaded sz1)) in
        if ltb (ph_memsz m ph) (ph_filesz m ph) || ltb top (ph_vaddr m ph)
        then ok (false, sz, s)
        else (uvmalloc kernel_end pagetable sz top s.kmem >>= grown)

    -- The loop over the program headers, with `n` left.
    pub load_program : (n pagetable ip off sz : ℕ) → FsState → Outcome (Bool × ℕ × FsState)
    load_program zero pagetable ip off sz s = ok (true, sz, s)
    load_program (suc n) pagetable ip off sz s =
        let next = load_program n pagetable ip ((off + ph_size) % 2 ^ 32) in
        let after : Bool × ℕ × FsState → Outcome (Bool × ℕ × FsState) =
          λ (good, sz', s'). if good then next sz' s' else ok (false, sz', s') in
        let read : ℤ × FsState → Outcome (Bool × ℕ × FsState) = λ (r, s').
          if not (is_ℤ r ph_size)
          then ok (false, sz, s')
          else (if ph_type s'.kmem.mem ph == elf_prog_load
              then (load_segment pagetable ip sz s' >>= after)
              else next sz s') in
        readi env ip false ph off ph_size s >>= read

    module _ (trampoline elf ustack fuel : ℕ) where
      -- `bad:` with a page table, and without the inode.
      pub bad_table : (pagetable sz : ℕ) → Proc → FsState → Outcome (ℤ × Proc × FsState)
      bad_table pagetable sz p s =
          proc_freepagetable kernel_end pagetable sz s.kmem >>= λ k. ok (minus_one, p, put_kmem s k)

      -- `bad:` with the inode; there may be no page table.
      pub bad_inode : (pagetable sz ip : ℕ) → Proc → FsState → Outcome (ℤ × Proc × FsState)
      bad_inode pagetable sz ip p s =
          (if pagetable == 0 then ok s.kmem else proc_freepagetable kernel_end pagetable sz s.kmem)
          >>= λ k. iunlockput env.sb env.pid ip (put_kmem s k) >>= λ s'. ok (minus_one, p, s')

      -- From the saving of the program's name on.
      pub exec_commit : (path pagetable sz argc sp : ℕ) → Proc → Kmem → Outcome (ℤ × Proc × Kmem)
      exec_commit path pagetable sz argc sp p k = last_name fuel k.mem path path >>= λ last.
          let name : ℕ → ℕ = λ i.
            safestrcpy (λ a. if ltb a 16 then p.name a else k.mem (last + (a - 16))) 0 16 (pos 16)
              i in
          let entry = store64 k.mem (p.trapframe + 24) (elf_entry k.mem elf) in
          let k' = record k { mem = store64 entry (p.trapframe + 48) sp } in
          proc_freepagetable kernel_end p.pagetable p.sz k' >>= λ k''.
          ok (pos argc, record p { name = name; pagetable = pagetable; sz = sz }, k'')

      -- With where the loop over the arguments stopped; `sz` is the new size.
      pub exec_args :
          (path pagetable sz stackbase : ℕ) → Proc → FsState → Args → Outcome (ℤ × Proc × FsState)
      exec_args path pagetable sz stackbase p s (bad k) = bad_table pagetable sz p (put_kmem s k)
      exec_args path pagetable sz stackbase p s (pushed argc sp us k) =
          let sp' = push sp ((argc + 1) * 8) in
          let filled = record k { mem = store_ustack argc ustack us k.mem } in
          let commit : Kmem → Outcome (ℤ × Proc × FsState) = λ k'.
            let arg1 = record k' { mem = store64 k'.mem (p.trapframe + 120) sp' } in
            exec_commit path pagetable sz argc sp' p arg1 >>= λ (r, p', k'').
            ok (r, p', put_kmem s k'') in
          let copied : ℤ × Kmem → Outcome (ℤ × Proc × FsState) = λ (r, k'). elim r [
            | pos _ ↦ commit k'
            | negsuc _ ↦ bad_table pagetable sz p (put_kmem s k')
          ] in
          if ltb sp' stackbase
          then bad_table pagetable sz p (put_kmem s filled)
          else (copyout pagetable sp' ustack ((argc + 1) * 8) filled >>= copied)

      -- From the allocation of the stack on.
      pub exec_stack : (path argv pagetable sz : ℕ) → Proc → FsState → Outcome (ℤ × Proc × FsState)
      exec_stack path argv pagetable sz p s =
          let low = pgroundup sz in
          let stack : ℕ × Kmem → Outcome (ℤ × Proc × FsState) = λ (sz1, k).
            let base = sz1 - pgsize in
            let cleared =
              uvmclear pagetable (sz1 - 2 * pgsize) k
              >>= push_args maxarg fuel pagetable argv base 0 sz1 (λ _. 0) in
            if sz1 == 0
            then bad_table pagetable low p (put_kmem s k)
            else (cleared >>= exec_args path pagetable sz1 base p s) in
          uvmalloc kernel_end pagetable low (low + 2 * pgsize) s.kmem >>= stack

      -- Behind the loop over the program headers.
      pub exec_loaded :
          (path argv pagetable ip : ℕ) → Proc → Bool × ℕ × FsState → Outcome (ℤ × Proc × FsState)
      exec_loaded path argv pagetable ip p (false, sz, s) = bad_inode pagetable sz ip p s
      exec_loaded path argv pagetable ip p (true, sz, s) =
          iunlockput env.sb env.pid ip s >>= exec_stack path argv pagetable sz p

      -- Behind `ilock`.
      pub exec_image : (path argv ip : ℕ) → Proc → FsState → Outcome (ℤ × Proc × FsState)
      exec_image path argv ip p s =
          let load : FsState → ℕ × Kmem → Outcome (ℤ × Proc × FsState) = λ s' (pagetable, k).
            let m = k.mem in
            let off = elf_phoff m elf % 2 ^ 32 in
            let loaded = load_program (elf_phnum m elf) pagetable ip off 0 (put_kmem s' k) in
            if pagetable == 0
            then bad_inode 0 0 ip p (put_kmem s' k)
            else (loaded >>= exec_loaded path argv pagetable ip p) in
          let header : ℤ × FsState → Outcome (ℤ × Proc × FsState) = λ (r, s').
            if not (is_ℤ r elf_size) || not (load_le 4 s'.kmem.mem elf == elf_magic)
            then bad_inode 0 0 ip p s'
            else (proc_pagetable kernel_end trampoline p.trapframe s'.kmem >>= load s') in
          readi env ip false elf 0 elf_size s >>= header

      -- `cwd` is the calling process's; `name` is the array in `namei`.
      pub exec : (cwd name path argv : ℕ) → Proc → FsState → Outcome (ℤ × Proc × FsState)
      exec cwd name path argv p s =
          let found : Option ℕ × FsState → Outcome (ℤ × Proc × FsState) = λ (ip, s'). elim ip [
            | none ↦ ok (minus_one, p, s')
            | some i ↦ ilock env.sb env.pid i s' >>= exec_image path argv i p
          ] in
          namei env fuel cwd path name s >>= found
