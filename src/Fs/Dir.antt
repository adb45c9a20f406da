-- ===== src/Fs/Dir.antt =====
-- kernel/fs.c: directories. A `struct dirent` in memory is its number of 2 bytes, then its name.
use mitcppos.Prelude.{
  ℕ, zero, suc, ◌+◌, ◌/◌, ◌%◌, ◌^◌, Bool, false, not, Option, none, some, ltb, ◌==◌, if◌then◌else◌,
  Outcome, ok, panic, out_of_fuel, ◌>>=◌,
}
use mitcppos.Prelude.Int.{ℤ, pos, negsuc, minus_one}
use mitcppos.Mem.{Mem, load_le, store_le}
use mitcppos.Str.{strncmp, strncpy}
use mitcppos.Fs.{FsState, t_dir, dirsiz, dirent_size}
use mitcppos.Fs.Inodes.{iget, iput}
use mitcppos.Fs.Content.{Around, readi, writei}

pub namecmp : Mem → (s t : ℕ) → ℤ
namecmp m s t = strncmp m dirsiz s t

abbrev pub is_ℤ : ℤ → ℕ → Bool
is_ℤ (pos n) m = n == m
is_ℤ (negsuc _) m = false

module _ (env : Around) where
  -- Behind the `readi` of the entry at `off` in the loop of `dirlookup`; `more` is the next round.
  pub dirlookup_at :
      (dp name off : ℕ) (more : FsState → Outcome (Option (ℕ × ℕ) × FsState))
      → ℤ × FsState
      → Outcome (Option (ℕ × ℕ) × FsState)
  dirlookup_at dp name off more (r, s) =
      let m = s.kmem.mem in
      let inum = load_le 2 m env.de in
      if not (is_ℤ r dirent_size)
      then panic "dirlookup read"
      else (if inum == 0
          then more s
          else (if is_ℤ (namecmp m name (env.de + 2)) 0
              then (iget (s.inode dp).dev inum s >>= λ (ip, s'). ok (some (ip, off), s'))
              else more s))

  pub dirlookup_loop : (fuel dp name off : ℕ) → FsState → Outcome (Option (ℕ × ℕ) × FsState)
  dirlookup_loop zero dp name off s = out_of_fuel
  dirlookup_loop (suc fuel) dp name off s =
      let more = dirlookup_loop fuel dp name ((off + dirent_size) % 2 ^ 32) in
      if ltb off (s.inode dp).size
      then (readi env dp false env.de off dirent_size s >>= dirlookup_at dp name off more)
      else ok (none, s)

  -- The inode, and the offset for `poff`.
  pub dirlookup : (dp name : ℕ) → FsState → Outcome (Option (ℕ × ℕ) × FsState)
  dirlookup dp name s =
      if not ((s.inode dp).type == t_dir)
      then panic "dirlookup not DIR"
      else dirlookup_loop ((s.inode dp).size / dirent_size + 2) dp name 0 s

  -- Behind the `readi` in the loop of `dirlink`.
  pub free_slot_at :
      (off : ℕ) (more : FsState → Outcome (ℕ × FsState)) → ℤ × FsState → Outcome (ℕ × FsState)
  free_slot_at off more (r, s) =
      if not (is_ℤ r dirent_size)
      then panic "dirlink read"
      else (if load_le 2 s.kmem.mem env.de == 0 then ok (off, s) else more s)

  -- The offset of the first empty entry from `off` on, or the end.
  pub free_slot : (fuel dp off : ℕ) → FsState → Outcome (ℕ × FsState)
  free_slot zero dp off s = out_of_fuel
  free_slot (suc fuel) dp off s =
      if ltb off (s.inode dp).size
      then (readi env dp false env.de off dirent_size s
          >>= free_slot_at off (free_slot fuel dp ((off + dirent_size) % 2 ^ 32)))
      else ok (off, s)

  -- The end of `dirlink`, at offset `off`.
  pub put_dirent : (dp name inum : ℕ) → ℕ × FsState → Outcome (ℤ × FsState)
  put_dirent dp name inum (off, s) =
      let named = strncpy s.kmem.mem (env.de + 2) name (pos dirsiz) in
      let m = store_le 2 named env.de inum in
      writei env dp false env.de off dirent_size (record s { kmem = record s.kmem { mem = m } })
      >>= λ (r, s'). if is_ℤ r dirent_size then ok (pos 0, s') else panic "dirlink"

  pub dirlink_at : (dp name inum : ℕ) → Option (ℕ × ℕ) × FsState → Outcome (ℤ × FsState)
  dirlink_at dp name inum (some (ip, _), s) = iput env.sb env.pid ip s >>= λ s'. ok (minus_one, s')
  dirlink_at dp name inum (none, s) =
      free_slot ((s.inode dp).size / dirent_size + 2) dp 0 s >>= put_dirent dp name inum

  pub dirlink : (dp name inum : ℕ) → FsState → Outcome (ℤ × FsState)
  dirlink dp name inum s = dirlookup dp name s >>= dirlink_at dp name inum
