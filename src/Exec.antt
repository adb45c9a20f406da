-- ===== src/Exec.antt =====
-- kernel/elf.h, and what kernel/exec.c pushes on the new stack. `fuel` is that of `strlen`.
pub mod Image
pub mod Stack
mod Tests
use mitcppos.Prelude.{
  ℕ, zero, suc, ◌+◌, ◌-◌, ◌*◌, ◌/◌, ◌%◌, ◌^◌, Bool, true, false, not, ◌||◌, Option, none, some, ltb,
  ◌==◌, if◌then◌else◌, Outcome, ok, panic, out_of_fuel, ◌>>=◌,
}
use mitcppos.Prelude.Int.{ℤ, pos, negsuc, minus_one}
use mitcppos.Mem.{Mem, load_le, load64, store64}
use mitcppos.Str.{strlen, safestrcpy}
use mitcppos.Riscv.{pgsize, pgroundup}
use mitcppos.Kalloc.{Kmem}
use mitcppos.Vm.{walkaddr, uvmalloc, uvmclear}
use mitcppos.Vm.User.{copyout}
use mitcppos.Proc.{Proc}
use mitcppos.Proc.Memory.{proc_pagetable, proc_freepagetable}
use mitcppos.Fs.{FsState}
use mitcppos.Fs.Inodes.{ilock, iunlockput}
use mitcppos.Fs.Content.{Around, readi}
use mitcppos.Fs.Dir.{is_ℤ}
use mitcppos.Fs.Path.{slash, put_mem, namei}

abbrev pub maxarg : ℕ
maxarg = 32

-- 0x464C457F
abbrev pub elf_magic : ℕ
elf_magic = 1179403647

abbrev pub elf_prog_load : ℕ
elf_prog_load = 1

-- The fields of `struct elfhdr` at `elf` and of `struct proghdr` at `ph`.
abbrev pub elf_size : ℕ
elf_size = 64

abbrev pub elf_entry : Mem → (elf : ℕ) → ℕ
elf_entry m elf = load64 m (elf + 24)

abbrev pub elf_phoff : Mem → (elf : ℕ) → ℕ
elf_phoff m elf = load64 m (elf + 32)

abbrev pub elf_phnum : Mem → (elf : ℕ) → ℕ
elf_phnum m elf = load_le 2 m (elf + 56)

abbrev pub ph_size : ℕ
ph_size = 56

abbrev pub ph_type : Mem → (ph : ℕ) → ℕ
ph_type m ph = load_le 4 m ph

abbrev pub ph_off : Mem → (ph : ℕ) → ℕ
ph_off m ph = load64 m (ph + 8)

abbrev pub ph_vaddr : Mem → (ph : ℕ) → ℕ
ph_vaddr m ph = load64 m (ph + 16)

abbrev pub ph_filesz : Mem → (ph : ℕ) → ℕ
ph_filesz m ph = load64 m (ph + 32)

abbrev pub ph_memsz : Mem → (ph : ℕ) → ℕ
ph_memsz m ph = load64 m (ph + 40)

-- The stack pointer below `n` more bytes, a multiple of 16.
abbrev pub push : (sp n : ℕ) → ℕ
push sp n = let sp' = (sp + (2 ^ 64 - n)) % 2 ^ 64 in sp' - sp' % 16

-- Where the loop over the arguments stops: `bad`, or with `argc`, `sp` and `ustack`.
pub data Args : Type 0 where
  bad : Kmem → Args
  pushed : (argc sp : ℕ) → (ℕ → ℕ) → Kmem → Args

-- Behind the `copyout` of an argument to `sp`.
unfoldable pub copied_arg :
    (more : (sp : ℕ) → (ℕ → ℕ) → Kmem → Outcome Args) (argc sp : ℕ) (ustack : ℕ → ℕ)
    → ℤ × Kmem
    → Outcome Args
copied_arg more argc sp ustack (negsuc _, k) = ok (bad k)
copied_arg more argc sp ustack (pos _, k) = more sp (λ i. if i == argc then sp else ustack i) k

-- With the result of `strlen`.
unfoldable pub push_arg :
    (more : (sp : ℕ) → (ℕ → ℕ) → Kmem → Outcome Args) (pagetable stackbase arg argc sp : ℕ)
    (ustack : ℕ → ℕ)
    → Kmem
    → Option ℕ
    → Outcome Args
push_arg more pagetable stackbase arg argc sp ustack k none = out_of_fuel
push_arg more pagetable stackbase arg argc sp ustack k (some len) =
    let sp' = push sp (len + 1) in
    if ltb sp' stackbase
    then ok (bad k)
    else (copyout pagetable sp' arg (len + 1) k >>= copied_arg more argc sp' ustack)

-- The loop over `argv` with room for `n` more arguments.
unfoldable pub push_args :
    (n fuel pagetable argv stackbase argc sp : ℕ) (ustack : ℕ → ℕ) → Kmem → Outcome Args
push_args zero fuel pagetable argv stackbase argc sp ustack k =
    if load64 k.mem (argv + 8 * argc) == 0 then ok (pushed argc sp ustack k) else ok (bad k)
push_args (suc n) fuel pagetable argv stackbase argc sp ustack k =
    let arg = load64 k.mem (argv + 8 * argc) in
    let more = push_args n fuel pagetable argv stackbase (argc + 1) in
    let next = push_arg more pagetable stackbase arg argc sp ustack k (strlen fuel k.mem arg) in
    if arg == 0 then ok (pushed argc sp ustack k) else next

-- `ustack[0..n)` at `at`, and a 0 behind it
pub store_ustack : (n at : ℕ) → (ℕ → ℕ) → Mem → Mem
store_ustack zero at ustack m = store64 m at 0
store_ustack (suc n) at ustack m =
    store_ustack n (at + 8) (λ i. ustack (i + 1)) (store64 m at (ustack 0))

-- The last element of a path: behind the last `/` from `s` on.
pub last_name : (fuel : ℕ) → Mem → (s last : ℕ) → Outcome ℕ
last_name zero m s last = out_of_fuel
last_name (suc fuel) m s last =
    let rest = last_name fuel m (s + 1) (if m s == slash then s + 1 else last) in
    if m s == 0 then ok last else rest
