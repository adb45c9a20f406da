-- ===== src/Sysfile/Open.antt =====
-- kernel/sysfile.c: `sys_open`, `sys_read`, `sys_write`, `sys_fstat` and `sys_exec`. `omode` is its 32
-- bits.
use mitcppos.Prelude.{
  ℕ, zero, suc, ◌+◌, ◌*◌, ◌%◌, ◌^◌, Bool, true, false, not, ◌&&◌, ◌||◌, Option, none, some, leb,
  ◌==◌, if◌then◌else◌, Outcome, ok, ◌>>=◌,
}
use mitcppos.Prelude.Int.{ℤ, pos, negsuc, minus_one}
use mitcppos.Mem.{load64, store64}
use mitcppos.Str.{memset}
use mitcppos.Riscv.{pgsize, flag}
use mitcppos.Kalloc.{Kmem, kalloc, kfree}
use mitcppos.File.{File, fd_inode, fd_device, Ftable, put_file, filealloc}
use mitcppos.Proc.{Proc}
use mitcppos.Fs.{FsState, t_dir, t_file, t_device}
use mitcppos.Fs.Inodes.{ilock, iunlock, iunlockput, itrunc}
use mitcppos.Fs.Content.{Around}
use mitcppos.Fs.Path.{namei}
use mitcppos.Exec.{maxarg}
use mitcppos.Exec.Image.{exec}
use mitcppos.Syscall.{fetchaddr, fetchstr}
use mitcppos.Sysfile.Names.{create}
use mitcppos.Sysfile.Descriptors.{argfd, fdalloc}
use mitcppos.Sysfile.Io.{
  Files, put_fs, close_file, ndev, Driver, Io, done, fileread, filewrite, filestat,
}

abbrev pub o_wronly : ℕ
o_wronly = 1

abbrev pub o_rdwr : ℕ
o_rdwr = 2

abbrev pub o_create : ℕ
o_create = 512

abbrev pub o_trunc : ℕ
o_trunc = 1024

-- What `sys_open` writes to the entry of the table, for an inode of type `type`.
pub opened : (omode type major ip : ℕ) → File → File
opened omode type major ip f =
    let kind =
      if type == t_device
      then record f { type = fd_device; major = major }
      else record f { type = fd_inode; off = 0 } in
    record kind {
      ip = ip;
      readable = not (flag omode o_wronly);
      writable = flag omode o_wronly || flag omode o_rdwr;
    }

module _ (env : Around) (kernel_end : ℕ) where
  -- The ways in which `sys_open` fails with the inode locked.
  pub open_bad : (ip : ℕ) → Proc → Files → Outcome (ℤ × Proc × Files)
  open_bad ip p w = iunlockput env.sb env.pid ip w.fs >>= λ s. ok (minus_one, p, put_fs w s)

  -- From the writing of the entry `f` on.
  pub open_file : (omode ip f fd : ℕ) → Proc → Files → Outcome (ℤ × Proc × Files)
  open_file omode ip f fd p w =
      let i = w.fs.inode ip in
      let t = put_file f (opened omode i.type i.major ip (w.table f)) w.table in
      (if flag omode o_trunc && i.type == t_file then itrunc env.sb ip w.fs else ok w.fs) >>= λ s.
      iunlock env.pid ip s >>= λ s'. ok (pos fd, p, record w { table = t; fs = s' })

  -- With the result of `fdalloc`.
  pub open_fd : (omode ip f : ℕ) → Proc → Files → Option (ℕ × Proc) → Outcome (ℤ × Proc × Files)
  open_fd omode ip f p w none = close_file env kernel_end f w >>= open_bad ip p
  open_fd omode ip f p w (some (fd, p')) = open_file omode ip f fd p' w

  -- With the result of `filealloc`.
  pub open_entry : (omode ip : ℕ) → Proc → Files → Option (ℕ × Ftable) → Outcome (ℤ × Proc × Files)
  open_entry omode ip p w none = open_bad ip p w
  open_entry omode ip p w (some (f, t)) =
      open_fd omode ip f p (record w { table = t }) (fdalloc f p)

  -- With the inode locked.
  pub open_inode : (omode ip : ℕ) → Proc → Files → Outcome (ℤ × Proc × Files)
  open_inode omode ip p w =
      let i = w.fs.inode ip in
      if i.type == t_device && leb ndev i.major
      then open_bad ip p w
      else open_entry omode ip p w (filealloc w.table)

  -- Behind `create`.
  pub open_created : (omode : ℕ) → Proc → Files → Option ℕ × FsState → Outcome (ℤ × Proc × Files)
  open_created omode p w (none, s) = ok (minus_one, p, put_fs w s)
  open_created omode p w (some ip, s) = open_inode omode ip p (put_fs w s)

  -- Behind `namei`.
  pub open_found : (omode : ℕ) → Proc → Files → Option ℕ × FsState → Outcome (ℤ × Proc × Files)
  open_found omode p w (none, s) = ok (minus_one, p, put_fs w s)
  open_found omode p w (some ip, s) = ilock env.sb env.pid ip s >>= λ s'.
      if (s'.inode ip).type == t_dir && not (omode == 0)
      then open_bad ip p (put_fs w s')
      else open_inode omode ip p (put_fs w s')

  pub sys_open :
      (dot dotdot fuel cwd path name omode : ℕ) → Proc → Files → Outcome (ℤ × Proc × Files)
  sys_open dot dotdot fuel cwd path name omode p w =
      if flag omode o_create
      then (create env dot dotdot fuel cwd path name t_file 0 0 w.fs >>= open_created omode p w)
      else (namei env fuel cwd path name w.fs >>= open_found omode p w)

  module _ (devsw : ℕ → Driver) (ch : ℕ) (killed : Bool) where
    pub sys_read : (fd : ℤ) (addr : ℕ) (n : ℤ) → Proc → Files → Outcome Io
    sys_read fd addr n p w = elim (argfd fd p) [
      | none ↦ ok (done minus_one w)
      | some (_, f) ↦ fileread env kernel_end devsw ch killed f addr n w
    ]

    pub sys_write : (fd : ℤ) (addr : ℕ) (n : ℤ) → Proc → Files → Outcome Io
    sys_write fd addr n p w = elim (argfd fd p) [
      | none ↦ ok (done minus_one w)
      | some (_, f) ↦ filewrite env kernel_end devsw ch killed f addr n w
    ]

  pub sys_fstat : (st : ℕ) (fd : ℤ) (addr : ℕ) → Proc → Files → Outcome (ℤ × Files)
  sys_fstat st fd addr p w = elim (argfd fd p) [
    | none ↦ ok (minus_one, w)
    | some (_, f) ↦ filestat env kernel_end st f addr w
  ]

  -- The loop over `argv` that frees its pages, with `n` entries left; it stops at a null pointer.
  pub free_args : (n argv : ℕ) → Kmem → Outcome Kmem
  free_args zero argv k = ok k
  free_args (suc n) argv k =
      let page = load64 k.mem argv in
      if page == 0 then ok k else (kfree kernel_end page k >>= free_args n (argv + 8))

  -- The loop of `sys_exec` with `n` entries of `argv` left, the next one at `argv`: whether all
  -- arguments were fetched. `uarg` is the address of the local variable of that name.
  pub fetch_args : (n uargv uarg argv : ℕ) → Proc → Kmem → Outcome (Bool × Kmem)
  fetch_args zero uargv uarg argv p k = ok (false, k)
  fetch_args (suc n) uargv uarg argv p k =
      let rest = fetch_args n ((uargv + 8) % 2 ^ 64) uarg (argv + 8) p in
      let fetched : ℤ × Kmem → Outcome (Bool × Kmem) =
        λ (r, k'). elim r [ pos _ ↦ rest k' | negsuc _ ↦ ok (false, k') ] in
      let page_for : Kmem → Outcome (Bool × Kmem) = λ k'.
        let (page, k₁) = kalloc k' in
        let k₂ = record k₁ { mem = store64 k₁.mem argv page } in
        if page == 0
        then ok (false, k₂)
        else (fetchstr p (load64 k₂.mem uarg) page pgsize k₂ >>= fetched) in
      let next : ℤ × Kmem → Outcome (Bool × Kmem) = λ (r, k'). elim r [
        | negsuc _ ↦ ok (false, k')
        | pos _ ↦
            if load64 k'.mem uarg == 0
            then ok (true, record k' { mem = store64 k'.mem argv 0 })
            else page_for k'
      ] in
      fetchaddr p uargv uarg k >>= next

  -- `sys_exec` with the path fetched: `argv` is its array, `elf`, `ph` and `ustack` are those of `exec`.
  pub sys_exec :
      (trampoline ph elf ustack fuel cwd name path uargv uarg argv : ℕ)
      → Proc
      → FsState
      → Outcome (ℤ × Proc × FsState)
  sys_exec trampoline ph elf ustack fuel cwd name path uargv uarg argv p s =
      let freed : ℤ × Proc × FsState → Outcome (ℤ × Proc × FsState) =
        λ (r, p', s'). free_args maxarg argv s'.kmem >>= λ k. ok (r, p', record s' { kmem = k }) in
      let run : Bool × Kmem → Outcome (ℤ × Proc × FsState) = λ (good, k).
        let s' = record s { kmem = k } in
        let ran = exec env kernel_end ph trampoline elf ustack fuel cwd name path argv p s' in
        if good then (ran >>= freed) else freed (minus_one, p, s') in
      let zeroed = record s.kmem { mem = memset s.kmem.mem argv 0 (8 * maxarg) } in
      fetch_args maxarg uargv uarg argv p zeroed >>= run
