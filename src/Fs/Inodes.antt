-- ===== src/Fs/Inodes.antt =====
-- kernel/fs.c: inodes - the table of those in memory, and their copies on the disk.
use mitcppos.Prelude.{
  ℕ, zero, suc, ◌+◌, ◌-◌, ◌*◌, ◌/◌, ◌%◌, ◌^◌, Bool, true, false, not, ◌&&◌, ◌||◌, Option, none,
  some, ltb, leb, ◌==◌, if◌then◌else◌, Outcome, ok, panic, out_of_fuel, ◌>>=◌,
}
use mitcppos.Mem.{Mem, store_le, load_le, load32, store32}
use mitcppos.Str.{memset}
use mitcppos.Sleeplock.{acquiresleep, releasesleep, holdingsleep, initsleeplock}
use mitcppos.Fs.{
  Superblock, Inode, FsState, ninode, ndirect, nindirect, dinode_size, ipb, iblock, log_block,
  put_inode, set_addr,
}
use mitcppos.Fs.Blocks.{balloc, bfree}
pub mod Cache
pub mod Dinode
pub mod Map

-- `iinit`: only the locks
pub iinit : FsState → FsState
iinit s = record s {
  inode = λ i. if ltb i ninode then record (s.inode i) { lock = initsleeplock } else s.inode i;
}

-- an entry in use, for this inode
unfoldable pub holds : (dev inum : ℕ) → Inode → Bool
holds dev inum v = ltb 0 v.ref && v.dev == dev && v.inum == inum

-- `empty` behind entry `ip`
unfoldable pub or_empty : Option ℕ → (ip ref : ℕ) → Option ℕ
or_empty (some e) ip ref = some e
or_empty none ip ref = if ref == 0 then some ip else none

-- What the loop of `iget` has found from entry `ip` on: the inode's entry, or else the first that is
-- not in use.
pub iget_loop : (n ip dev inum : ℕ) (empty : Option ℕ) → (ℕ → Inode) → Option ℕ × Option ℕ
iget_loop zero ip dev inum empty t = (none, empty)
iget_loop (suc n) ip dev inum empty t =
    let rest = iget_loop n (ip + 1) dev inum (or_empty empty ip (t ip).ref) t in
    if holds dev inum (t ip) then (some ip, empty) else rest

-- What `iget` does with it.
pub iget_entry : (dev inum : ℕ) → FsState → Option ℕ × Option ℕ → Outcome (ℕ × FsState)
iget_entry dev inum s (some ip, _) =
    ok (ip, put_inode ip (record (s.inode ip) { ref = (s.inode ip).ref + 1 }) s)
iget_entry dev inum s (none, none) = panic "iget: no inodes"
iget_entry dev inum s (none, some ip) =
    ok (ip, put_inode ip (record (s.inode ip) { dev = dev; inum = inum; ref = 1; valid = false }) s)

pub iget : (dev inum : ℕ) → FsState → Outcome (ℕ × FsState)
iget dev inum s = iget_entry dev inum s (iget_loop ninode 0 dev inum none s.inode)

pub idup : (ip : ℕ) → FsState → FsState
idup ip s = put_inode ip (record (s.inode ip) { ref = (s.inode ip).ref + 1 }) s

-- The copy `i` numbers behind in the block, from and to memory. `short` is 2 bytes, `uint` 4.
pub read_dinode : Mem → (i : ℕ) → Inode → Inode
read_dinode bytes i v =
    let dip = i * dinode_size in
    record v {
      type = load_le 2 bytes dip;
      major = load_le 2 bytes (dip + 2);
      minor = load_le 2 bytes (dip + 4);
      nlink = load_le 2 bytes (dip + 6);
      size = load_le 4 bytes (dip + 8);
      addrs = λ j. load_le 4 bytes (dip + 12 + 4 * j);
    }

-- `memmove(dip->addrs, ip->addrs, sizeof(ip->addrs))`, with `n` numbers left from `j` on
pub write_addrs : (n j dip : ℕ) → (ℕ → ℕ) → Mem → Mem
write_addrs zero j dip addrs bytes = bytes
write_addrs (suc n) j dip addrs bytes =
    write_addrs n (j + 1) dip addrs (store_le 4 bytes (dip + 12 + 4 * j) (addrs j))

pub write_dinode : Mem → (i : ℕ) → Inode → Mem
write_dinode bytes i v =
    let dip = i * dinode_size in
    let b₁ = store_le 2 bytes dip v.type in
    let b₂ = store_le 2 b₁ (dip + 2) v.major in
    let b₃ = store_le 2 b₂ (dip + 4) v.minor in
    let b₄ = store_le 2 b₃ (dip + 6) v.nlink in
    let b₅ = store_le 4 b₄ (dip + 8) v.size in write_addrs (ndirect + 1) 0 dip v.addrs b₅

pub iunlock : (pid ip : ℕ) → FsState → Outcome FsState
iunlock pid ip s =
    let v = s.inode ip in
    if not (holdingsleep pid v.lock) || ltb v.ref 1
    then panic "iunlock"
    else ok (put_inode ip (record v { lock = releasesleep v.lock }) s)

module _ (sb : Superblock) where
  pub iupdate : (ip : ℕ) → FsState → FsState
  iupdate ip s =
      let v = s.inode ip in
      let bp = iblock sb v.inum in log_block bp (write_dinode (s.block bp) (v.inum % ipb) v) s

  -- The loop of `ialloc` with `n` numbers left, from `inum` on.
  pub ialloc_loop : (n inum dev type : ℕ) → FsState → Outcome (ℕ × FsState)
  ialloc_loop zero inum dev type s = panic "ialloc: no inodes"
  ialloc_loop (suc n) inum dev type s =
      let bp = iblock sb inum in
      let dip = inum % ipb * dinode_size in
      let cleared = memset (s.block bp) dip 0 dinode_size in
      let rest = ialloc_loop n (inum + 1) dev type s in
      if load_le 2 (s.block bp) dip == 0
      then iget dev inum (log_block bp (store_le 2 cleared dip type) s)
      else rest

  pub ialloc : (dev type : ℕ) → FsState → Outcome (ℕ × FsState)
  ialloc dev type s = ialloc_loop (sb.ninodes - 1) 1 dev type s

  -- Behind the `acquiresleep` of `ilock`.
  pub ilock_read : (ip : ℕ) → FsState → Outcome FsState
  ilock_read ip s =
      let v = s.inode ip in
      let read = read_dinode (s.block (iblock sb v.inum)) (v.inum % ipb) v in
      let s' = put_inode ip (record read { valid = true }) s in
      if v.valid then ok s else (if read.type == 0 then panic "ilock: no type" else ok s')

  -- `pid` is that of the calling process; the source's test for a null pointer is the caller's.
  pub ilock : (pid ip : ℕ) → FsState → Outcome FsState
  ilock pid ip s =
      let v = s.inode ip in
      if ltb v.ref 1 then panic "ilock" else elim (acquiresleep pid v.lock) [
        | none ↦ out_of_fuel
        | some lk ↦ ilock_read ip (put_inode ip (record v { lock = lk }) s)
      ]

  -- The first loop of `itrunc` with `n` numbers left, from `i` on.
  pub free_direct : (n i ip : ℕ) → FsState → Outcome FsState
  free_direct zero i ip s = ok s
  free_direct (suc n) i ip s =
      let next : FsState → Outcome FsState =
        λ s'. free_direct n (i + 1) ip (put_inode ip (set_addr i 0 (s'.inode ip)) s') in
      if (s.inode ip).addrs i == 0
      then free_direct n (i + 1) ip s
      else (bfree sb ((s.inode ip).addrs i) s >>= next)

  -- The second, over the numbers in block `bp`.
  pub free_indirect : (n j bp : ℕ) → FsState → Outcome FsState
  free_indirect zero j bp s = ok s
  free_indirect (suc n) j bp s =
      let a = load_le 4 (s.block bp) (4 * j) in
      let rest = free_indirect n (j + 1) bp in if a == 0 then rest s else (bfree sb a s >>= rest)

  pub itrunc : (ip : ℕ) → FsState → Outcome FsState
  itrunc ip s =
      let clear = λ (s' : FsState). put_inode ip (set_addr ndirect 0 (s'.inode ip)) s' in
      let indirect = λ (s' : FsState).
        let bp = (s'.inode ip).addrs ndirect in
        if bp == 0
        then ok s'
        else (free_indirect nindirect 0 bp s' >>= bfree sb bp >>= λ s''. ok (clear s'')) in
      free_direct ndirect 0 ip s >>= indirect >>= λ s'.
      ok (iupdate ip (put_inode ip (record (s'.inode ip) { size = 0 }) s'))

  -- `ip->ref--`
  pub drop_ref : (ip : ℕ) → FsState → FsState
  drop_ref ip s = put_inode ip (record (s.inode ip) { ref = (s.inode ip).ref - 1 }) s

  -- The inode is locked over `itrunc`, and nobody else has it.
  pub iput : (pid ip : ℕ) → FsState → Outcome FsState
  iput pid ip s =
      let v = s.inode ip in
      let freed = λ (s' : FsState).
        let s₁ = iupdate ip (put_inode ip (record (s'.inode ip) { type = 0 }) s') in
        let w = s₁.inode ip in
        put_inode ip (record w { valid = false; lock = releasesleep w.lock }) s₁ in
      if v.ref == 1 && v.valid && v.nlink == 0
      then elim (acquiresleep pid v.lock) [
        | none ↦ out_of_fuel
        | some lk ↦ itrunc ip (put_inode ip (record v { lock = lk }) s) >>= λ s'.
            ok (drop_ref ip (freed s'))
      ]
      else ok (drop_ref ip s)

  pub iunlockput : (pid ip : ℕ) → FsState → Outcome FsState
  iunlockput pid ip s = iunlock pid ip s >>= iput pid ip

  -- The number in entry `bn` of the indirect block `addr`.
  pub bmap_indirect : (addr bn : ℕ) → FsState → Outcome (ℕ × FsState)
  bmap_indirect addr bn s =
      let old = load32 (s.block addr) (4 * bn) in
      if old == 0
      then (balloc sb s >>= λ (new, s').
          ok (new, log_block addr (store32 (s'.block addr) (4 * bn) new) s'))
      else ok (old, s)

  -- The number in place `i` of the inode itself.
  pub bmap_direct : (ip i : ℕ) → FsState → Outcome (ℕ × FsState)
  bmap_direct ip i s =
      let old = (s.inode ip).addrs i in
      if old == 0
      then (balloc sb s >>= λ (new, s'). ok (new, put_inode ip (set_addr i new (s'.inode ip)) s'))
      else ok (old, s)

  pub bmap : (ip bn : ℕ) → FsState → Outcome (ℕ × FsState)
  bmap ip bn s =
      if ltb bn ndirect
      then bmap_direct ip bn s
      else (if ltb (bn - ndirect) nindirect
          then (bmap_direct ip ndirect s >>= λ (addr, s'). bmap_indirect addr (bn - ndirect) s')
          else panic "bmap: out of range")
