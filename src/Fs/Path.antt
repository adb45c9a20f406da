-- ===== src/Fs/Path.antt =====
-- kernel/fs.c: path names. Addresses are of the kernel's memory; each function takes fuel for its
-- loops.
use mitcppos.Prelude.{
  ℕ, zero, suc, ◌+◌, ◌-◌, Bool, true, false, not, ◌&&◌, ◌||◌, Option, none, some, ltb, ◌==◌,
  if◌then◌else◌, Outcome, ok, out_of_fuel, ◌>>=◌,
}
use mitcppos.Mem.{Mem, store}
use mitcppos.Str.{memmove}
use mitcppos.Fs.{Superblock, Inode, FsState, t_dir, dirsiz, rootdev, rootino}
use mitcppos.Fs.Inodes.{iget, idup, ilock, iunlock, iput, iunlockput}
use mitcppos.Fs.Content.{Around}
use mitcppos.Fs.Dir.{dirlookup}
pub mod Skip

abbrev pub slash : ℕ
slash = 47

-- `while(*path == '/') path++;`
pub skip_slashes : (fuel : ℕ) → Mem → (path : ℕ) → Outcome ℕ
skip_slashes zero m path = out_of_fuel
skip_slashes (suc fuel) m path =
    let rest = skip_slashes fuel m (path + 1) in if m path == slash then rest else ok path

-- `while(*path != '/' && *path != 0) path++;`
pub skip_name : (fuel : ℕ) → Mem → (path : ℕ) → Outcome ℕ
skip_name zero m path = out_of_fuel
skip_name (suc fuel) m path =
    let rest = skip_name fuel m (path + 1) in
    if not (m path == slash) && not (m path == 0) then rest else ok path

-- The element from `s` up to `path` at `name`.
pub copy_name : Mem → (name s path : ℕ) → Mem
copy_name m name s path =
    let len = path - s in
    if not (ltb len dirsiz)
    then memmove m name s dirsiz
    else store (memmove m name s len) (name + len) 0

-- Behind the first loop of `skipelem`. The path that is left, or none for a null pointer, with the
-- memory.
pub skipelem_from : (fuel : ℕ) → Mem → (name s : ℕ) → Outcome (Option ℕ × Mem)
skipelem_from fuel m name s =
    if m s == 0
    then ok (none, m)
    else (skip_name fuel m s >>= λ path.
        let m' = copy_name m name s path in
        skip_slashes fuel m' path >>= λ rest. ok (some rest, m'))

pub skipelem : (fuel : ℕ) → Mem → (path name : ℕ) → Outcome (Option ℕ × Mem)
skipelem fuel m path name = skip_slashes fuel m path >>= skipelem_from fuel m name

abbrev pub put_mem : Mem → FsState → FsState
put_mem m s = record s { kmem = record s.kmem { mem = m } }

module _ (env : Around) where
  -- After the path's last element: `nameiparent` has no parent to return.
  pub namex_end : (parent : Bool) (ip : ℕ) → FsState → Outcome (Option ℕ × FsState)
  namex_end parent ip s =
      if parent then (iput env.sb env.pid ip s >>= λ s'. ok (none, s')) else ok (some ip, s)

  -- Behind `dirlookup`, for the path that is left.
  pub namex_next :
      (more : ℕ → FsState → Outcome (Option ℕ × FsState)) (ip : ℕ)
      → Option (ℕ × ℕ) × FsState
      → Outcome (Option ℕ × FsState)
  namex_next more ip (none, s) = iunlockput env.sb env.pid ip s >>= λ s'. ok (none, s')
  namex_next more ip (some (next, _), s) = iunlockput env.sb env.pid ip s >>= more next

  -- The body of the loop, behind `ilock`.
  pub namex_step :
      (more : ℕ → FsState → Outcome (Option ℕ × FsState)) (parent : Bool) (ip path name : ℕ)
      → FsState
      → Outcome (Option ℕ × FsState)
  namex_step more parent ip path name s =
      if not ((s.inode ip).type == t_dir)
      then (iunlockput env.sb env.pid ip s >>= λ s'. ok (none, s'))
      else (if parent && s.kmem.mem path == 0
          then (iunlock env.pid ip s >>= λ s'. ok (some ip, s'))
          else (dirlookup env ip name s >>= namex_next more ip))

  -- With the result of `skipelem`.
  pub namex_at :
      (more : (path ip : ℕ) → FsState → Outcome (Option ℕ × FsState)) (parent : Bool) (name ip : ℕ)
      → FsState
      → Option ℕ × Mem
      → Outcome (Option ℕ × FsState)
  namex_at more parent name ip s (none, m) = namex_end parent ip (put_mem m s)
  namex_at more parent name ip s (some path, m) =
      ilock env.sb env.pid ip (put_mem m s) >>= namex_step (more path) parent ip path name

  pub namex_loop :
      (fuel : ℕ) (parent : Bool) (name path ip : ℕ) → FsState → Outcome (Option ℕ × FsState)
  namex_loop zero parent name path ip s = out_of_fuel
  namex_loop (suc fuel) parent name path ip s =
      skipelem (suc fuel) s.kmem.mem path name
      >>= namex_at (namex_loop fuel parent name) parent name ip s

  -- `cwd` is the calling process's.
  pub namex :
      (fuel : ℕ) (cwd path : ℕ) (parent : Bool) (name : ℕ) → FsState → Outcome (Option ℕ × FsState)
  namex fuel cwd path parent name s =
      let walk : ℕ × FsState → Outcome (Option ℕ × FsState) =
        λ (ip, s'). namex_loop fuel parent name path ip s' in
      (if s.kmem.mem path == slash then iget rootdev rootino s else ok (cwd, idup cwd s)) >>= walk

  -- `name` is the array on the stack.
  pub namei : (fuel cwd path name : ℕ) → FsState → Outcome (Option ℕ × FsState)
  namei fuel cwd path name s = namex fuel cwd path false name s

  pub nameiparent : (fuel cwd path name : ℕ) → FsState → Outcome (Option ℕ × FsState)
  nameiparent fuel cwd path name s = namex fuel cwd path true name s
