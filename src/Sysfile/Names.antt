-- ===== src/Sysfile/Names.antt =====
-- kernel/sysfile.c: the system calls on names, from `begin_op` to `end_op`. `path` is the array
-- that `argstr` has filled, `name` that for the last element, and `dot` and `dotdot` are the
-- addresses of the constants "." and "..". `fuel` is that of the walk over the path.
use mitcppos.Prelude.{
  ℕ, zero, suc, ◌+◌, ◌-◌, ◌*◌, ◌/◌, ◌^◌, ◌%◌, String, Bool, true, false, not, ◌&&◌, ◌||◌, Option,
  none, some, ltb, ◌==◌, if◌then◌else◌, Outcome, ok, panic, out_of_fuel, ◌>>=◌,
}
use mitcppos.Prelude.Int.{ℤ, pos, negsuc, minus_one}
use mitcppos.Mem.{load_le}
use mitcppos.Str.{memset}
use mitcppos.Fs.{FsState, t_dir, t_file, t_device, dirent_size, put_inode}
use mitcppos.Fs.Inodes.{ialloc, iupdate, ilock, iunlock, iput, iunlockput}
use mitcppos.Fs.Content.{Around, readi, writei}
use mitcppos.Fs.Dir.{is_ℤ, namecmp, dirlookup, dirlink}
use mitcppos.Fs.Path.{namei, nameiparent}

module _ (env : Around) (dot dotdot : ℕ) where
  -- Behind the `readi` in the loop of `isdirempty`.
  pub empty_at :
      (more : FsState → Outcome (Bool × FsState)) → ℤ × FsState → Outcome (Bool × FsState)
  empty_at more (r, s) =
      if not (is_ℤ r dirent_size)
      then panic "isdirempty: readi"
      else (if load_le 2 s.kmem.mem env.de == 0 then more s else ok (false, s))

  pub isdirempty_loop : (fuel dp off : ℕ) → FsState → Outcome (Bool × FsState)
  isdirempty_loop zero dp off s = out_of_fuel
  isdirempty_loop (suc fuel) dp off s =
      if ltb off (s.inode dp).size
      then (readi env dp false env.de off dirent_size s
          >>= empty_at (isdirempty_loop fuel dp ((off + dirent_size) % 2 ^ 32)))
      else ok (true, s)

  pub isdirempty : (dp : ℕ) → FsState → Outcome (Bool × FsState)
  isdirempty dp s = isdirempty_loop ((s.inode dp).size / dirent_size + 2) dp (2 * dirent_size) s

  -- `ip->nlink` plus or minus 1, of 16 bits, with `iupdate`
  pub add_link : (ip by : ℕ) → FsState → FsState
  add_link ip by s =
      iupdate env.sb ip
        (put_inode ip (record (s.inode ip) { nlink = ((s.inode ip).nlink + by) % 2 ^ 16 }) s)

  abbrev pub minus : ℕ
  minus = 2 ^ 16 - 1

  -- `bad:` of `sys_link`
  pub unlink_again : (ip : ℕ) → FsState → Outcome (ℤ × FsState)
  unlink_again ip s = ilock env.sb env.pid ip s >>= λ s₁.
      iunlockput env.sb env.pid ip (add_link ip minus s₁) >>= λ s₂. ok (minus_one, s₂)

  -- Behind `dirlink` in `sys_link`.
  pub linked : (ip dp : ℕ) → ℤ × FsState → Outcome (ℤ × FsState)
  linked ip dp (pos _, s) =
      iunlockput env.sb env.pid dp s >>= λ s₁. iput env.sb env.pid ip s₁ >>= λ s₂. ok (pos 0, s₂)
  linked ip dp (negsuc _, s) = iunlockput env.sb env.pid dp s >>= unlink_again ip

  -- Behind `nameiparent`.
  pub link_in : (ip name : ℕ) → Option ℕ × FsState → Outcome (ℤ × FsState)
  link_in ip name (none, s) = unlink_again ip s
  link_in ip name (some dp, s) = ilock env.sb env.pid dp s >>= λ s₁.
      if not ((s₁.inode dp).dev == (s₁.inode ip).dev)
      then linked ip dp (minus_one, s₁)
      else (dirlink env dp name (s₁.inode ip).inum s₁ >>= linked ip dp)

  -- Behind `namei`.
  pub link_from : (fuel cwd new name : ℕ) → Option ℕ × FsState → Outcome (ℤ × FsState)
  link_from fuel cwd new name (none, s) = ok (minus_one, s)
  link_from fuel cwd new name (some ip, s) = ilock env.sb env.pid ip s >>= λ s₁.
      if (s₁.inode ip).type == t_dir
      then (iunlockput env.sb env.pid ip s₁ >>= λ s₂. ok (minus_one, s₂))
      else (iunlock env.pid ip (add_link ip 1 s₁)
          >>= nameiparent env fuel cwd new name
          >>= link_in ip name)

  -- `scratch` is the `name` of `namei`.
  pub sys_link : (fuel cwd old new name scratch : ℕ) → FsState → Outcome (ℤ × FsState)
  sys_link fuel cwd old new name scratch s =
      namei env fuel cwd old scratch s >>= link_from fuel cwd new name

  -- `bad:` of `sys_unlink`
  pub unlink_bad : (dp : ℕ) → FsState → Outcome (ℤ × FsState)
  unlink_bad dp s = iunlockput env.sb env.pid dp s >>= λ s'. ok (minus_one, s')

  -- Behind the `writei` of `sys_unlink`.
  pub unlinked : (dp ip : ℕ) → ℤ × FsState → Outcome (ℤ × FsState)
  unlinked dp ip (r, s) =
      let s₁ = if (s.inode ip).type == t_dir then add_link dp minus s else s in
      if not (is_ℤ r dirent_size)
      then panic "unlink: writei"
      else (iunlockput env.sb env.pid dp s₁ >>= λ s₂.
          iunlockput env.sb env.pid ip (add_link ip minus s₂) >>= λ s₃. ok (pos 0, s₃))

  -- Behind `isdirempty`, or where it is not called; `de` is the entry of `sys_unlink`.
  pub unlink_entry : (dp ip off : ℕ) → Bool × FsState → Outcome (ℤ × FsState)
  unlink_entry dp ip off (false, s) = iunlockput env.sb env.pid ip s >>= unlink_bad dp
  unlink_entry dp ip off (true, s) =
      let cleared = memset s.kmem.mem env.de 0 dirent_size in
      writei env dp false env.de off dirent_size
        (record s { kmem = record s.kmem { mem = cleared } })
      >>= unlinked dp ip

  -- Behind `dirlookup`.
  pub unlink_found : (dp : ℕ) → Option (ℕ × ℕ) × FsState → Outcome (ℤ × FsState)
  unlink_found dp (none, s) = unlink_bad dp s
  unlink_found dp (some (ip, off), s) = ilock env.sb env.pid ip s >>= λ s₁.
      if ltb (s₁.inode ip).nlink 1 || ltb (2 ^ 15 - 1) (s₁.inode ip).nlink
      then panic "unlink: nlink < 1"
      else ((if (s₁.inode ip).type == t_dir then isdirempty ip s₁ else ok (true, s₁))
          >>= unlink_entry dp ip off)

  -- Behind `nameiparent`.
  pub unlink_in : (name : ℕ) → Option ℕ × FsState → Outcome (ℤ × FsState)
  unlink_in name (none, s) = ok (minus_one, s)
  unlink_in name (some dp, s) = ilock env.sb env.pid dp s >>= λ s₁.
      let m = s₁.kmem.mem in
      if is_ℤ (namecmp m name dot) 0 || is_ℤ (namecmp m name dotdot) 0
      then unlink_bad dp s₁
      else (dirlookup env dp name s₁ >>= unlink_found dp)

  pub sys_unlink : (fuel cwd path name : ℕ) → FsState → Outcome (ℤ × FsState)
  sys_unlink fuel cwd path name s = nameiparent env fuel cwd path name s >>= unlink_in name

  -- The name is there already, for inode `ip`.
  pub create_existing : (type dp ip : ℕ) → FsState → Outcome (Option ℕ × FsState)
  create_existing type dp ip s = iunlockput env.sb env.pid dp s >>= λ s₁.
      ilock env.sb env.pid ip s₁ >>= λ s₂.
      let its = (s₂.inode ip).type in
      if type == t_file && (its == t_file || its == t_device)
      then ok (some ip, s₂)
      else (iunlockput env.sb env.pid ip s₂ >>= λ s₃. ok (none, s₃))

  -- The result of `dirlink`, which may not fail.
  pub must : (message : String) → ℤ × FsState → Outcome FsState
  must message (pos _, s) = ok s
  must message (negsuc _, s) = panic message

  -- The entries "." and ".." of a new directory.
  pub create_dots : (dp ip : ℕ) → FsState → Outcome FsState
  create_dots dp ip s =
      dirlink env ip dot (s.inode ip).inum (add_link dp 1 s) >>= must "create dots" >>= λ s₁.
      dirlink env ip dotdot (s₁.inode dp).inum s₁ >>= must "create dots"

  -- Behind `ialloc`.
  pub create_new : (type major minor name dp : ℕ) → ℕ × FsState → Outcome (Option ℕ × FsState)
  create_new type major minor name dp (ip, s) = ilock env.sb env.pid ip s >>= λ s₁.
      let v = record (s₁.inode ip) { major = major; minor = minor; nlink = 1 } in
      let s₂ = iupdate env.sb ip (put_inode ip v s₁) in
      (if type == t_dir then create_dots dp ip s₂ else ok s₂) >>= λ s₃.
      dirlink env dp name (s₃.inode ip).inum s₃
      >>= must "create: dirlink"
      >>= iunlockput env.sb env.pid dp
      >>= λ s₄. ok (some ip, s₄)

  -- Behind `dirlookup`.
  pub create_at :
      (type major minor name dp : ℕ) → Option (ℕ × ℕ) × FsState → Outcome (Option ℕ × FsState)
  create_at type major minor name dp (some (ip, _), s) = create_existing type dp ip s
  create_at type major minor name dp (none, s) =
      ialloc env.sb (s.inode dp).dev type s >>= create_new type major minor name dp

  -- Behind `nameiparent`.
  pub create_in : (type major minor name : ℕ) → Option ℕ × FsState → Outcome (Option ℕ × FsState)
  create_in type major minor name (none, s) = ok (none, s)
  create_in type major minor name (some dp, s) =
      ilock env.sb env.pid dp s >>= dirlookup env dp name >>= create_at type major minor name dp

  -- `type`, `major` and `minor` are their 16 bits.
  pub create : (fuel cwd path name type major minor : ℕ) → FsState → Outcome (Option ℕ × FsState)
  create fuel cwd path name type major minor s =
      nameiparent env fuel cwd path name s >>= create_in type major minor name

  -- The end of `sys_mkdir` and `sys_mknod`.
  pub made : Option ℕ × FsState → Outcome (ℤ × FsState)
  made (none, s) = ok (minus_one, s)
  made (some ip, s) = iunlockput env.sb env.pid ip s >>= λ s'. ok (pos 0, s')

  pub sys_mkdir : (fuel cwd path name : ℕ) → FsState → Outcome (ℤ × FsState)
  sys_mkdir fuel cwd path name s = create fuel cwd path name t_dir 0 0 s >>= made

  pub sys_mknod : (fuel cwd path name major minor : ℕ) → FsState → Outcome (ℤ × FsState)
  sys_mknod fuel cwd path name major minor s =
      create fuel cwd path name t_device (major % 2 ^ 16) (minor % 2 ^ 16) s >>= made

  -- Behind `namei` of `sys_chdir`; with the new `cwd`.
  pub chdir_to : (cwd : ℕ) → Option ℕ × FsState → Outcome (ℤ × ℕ × FsState)
  chdir_to cwd (none, s) = ok (minus_one, cwd, s)
  chdir_to cwd (some ip, s) = ilock env.sb env.pid ip s >>= λ s₁.
      if not ((s₁.inode ip).type == t_dir)
      then (iunlockput env.sb env.pid ip s₁ >>= λ s₂. ok (minus_one, cwd, s₂))
      else (iunlock env.pid ip s₁ >>= iput env.sb env.pid cwd >>= λ s₂. ok (pos 0, ip, s₂))

  pub sys_chdir : (fuel cwd path name : ℕ) → FsState → Outcome (ℤ × ℕ × FsState)
  sys_chdir fuel cwd path name s = namei env fuel cwd path name s >>= chdir_to cwd
