-- ===== src/Fs/Tests.antt =====
-- kernel/fs.c on a disk of 16 blocks, of which those before block 9 are used.
use mitcppos.Prelude.{
  ℕ, ◌+◌, ◌*◌, ◌/◌, ◌<◌, ◌≡◌, refl, sym, ap, ◌∙◌, inl, inr, true, false, [], ◌==◌, ◌||◌,
  if◌then◌else◌, arith, ok,
}
use mitcppos.Mem.{Mem}
use mitcppos.Sleeplock.{initsleeplock}
use mitcppos.Fs.{Superblock, Inode, FsState, log_block}
use mitcppos.Fs.Blocks.{bzero, set_bit, balloc, bfree, clear_from, balloc_loop, balloc_at}
use mitcppos.Fs.Blocks.Alloc.{used, Guarded, Ends, balloc-Ends, bfree-balloc}
use mitcppos.Fs.Inodes.{iget, iupdate, bmap, holds}
use mitcppos.Fs.Inodes.Cache
use mitcppos.Fs.Inodes.Cache.{Unique, iget-Ends}
use mitcppos.Fs.Inodes.Dinode.{Fits, SameDinode, on_disk, iupdate-SameDinode}
use mitcppos.Fs.Inodes.Map.{Stable, bmap-Stable}
use mitcppos.Prelude.Int.{pos}
use mitcppos.Fs.Inodes.Map.{IsBlock}
use mitcppos.Fs.Content.{Around, readi}
use mitcppos.Fs.Content.Read.{Copied, readable, readi-Copied}
use mitcppos.Fs.Path.{skipelem}
use mitcppos.Fs.Path.Skip.{Skips, skipelem-Skips}

abbrev small_sb : Superblock
small_sb = record {
  magic = 0x10203040;
  size = 16;
  nblocks = 7;
  ninodes = 16;
  nlog = 0;
  logstart = 2;
  inodestart = 2;
  bmapstart = 3;
}

abbrev root : Inode
root = record {
  dev = 1;
  inum = 1;
  ref = 1;
  lock = initsleeplock;
  valid = true;
  type = 1;
  major = 0;
  minor = 0;
  nlink = 1;
  size = 32;
  addrs = λ j. if j == 0 then 8 else 0;
}

abbrev no_inode : Inode
no_inode = record {
  dev = 0;
  inum = 0;
  ref = 0;
  lock = initsleeplock;
  valid = false;
  type = 0;
  major = 0;
  minor = 0;
  nlink = 0;
  size = 0;
  addrs = λ j. 0;
}

abbrev bitmap : Mem
bitmap = λ i. if i == 0 then 255 else (if i == 1 then 1 else 0)

abbrev small : FsState
small = record {
  block = λ b. if b == 3 then bitmap else λ i. 0;
  logged = [];
  inode = λ i. if i == 0 then root else no_inode;
  kmem = record { mem = λ a. 0; freelist = 0 };
}

small-Guarded : Guarded small_sb small
unfolding Guarded used
small-Guarded b c hb hc free e =
    let at : b ≡ 3 = omega (arith, e, hc) in
    absurd (ground (arith, sym free ∙ ap (used small_sb small) at))

balloc-Ends_example : Ends small_sb small (balloc small_sb small)
balloc-Ends_example = balloc-Ends small_sb small small-Guarded

abbrev with_9 : FsState
with_9 = bzero 9 (log_block 3 (set_bit (small.block 3) 9) small)

balloc_9 : balloc small_sb small ≡ ok (9, with_9)
unfolding balloc balloc_loop balloc_at clear_from
balloc_9 = refl

bfree-balloc_example :
    (used small_sb small 9 ≡ false)
    × ((s : FsState) × (bfree small_sb 9 with_9 ≡ ok s)
        × ((c : ℕ) → c < 16 → used small_sb s c ≡ used small_sb small c))
bfree-balloc_example = bfree-balloc small_sb 9 small with_9 small-Guarded balloc_9

small-Unique : Unique small
unfolding Unique holds
small-Unique a b ha hb hr h = ground (arith, hr, h)

iget-Ends_example : Cache.Ends 1 2 small (iget 1 2 small)
iget-Ends_example = iget-Ends 1 2 small small-Unique

root-Fits : Fits root
root-Fits = record {
  type = omega arith;
  major = omega arith;
  minor = omega arith;
  nlink = omega arith;
  size = omega arith;
  addrs = λ j h. ground arith;
}

iupdate-SameDinode_example :
    SameDinode (on_disk small_sb 1 (iupdate small_sb 0 small) no_inode) root
iupdate-SameDinode_example = iupdate-SameDinode small_sb 0 small root-Fits 1 no_inode

bmap-Stable_example : Stable small_sb 0 12 (bmap small_sb 0 12 small)
unfolding used
bmap-Stable_example =
    bmap-Stable small_sb 0 12 small
      (record { guarded = small-Guarded; zero_used = refl; small = omega arith }) (omega arith)

-- "a/bb"
abbrev path : Mem
path = λ a.
    if a == 100 then 97 else (if a == 101 then 47 else (if a == 102 || a == 103 then 98 else 0))

skipelem-Skips_example : (from : ℕ) × Skips path 100 10 104 from (skipelem 5 path 100 10)
skipelem-Skips_example =
    skipelem-Skips 5 path 100 10 104 refl (omega arith) (omega arith) (inr (omega arith))

abbrev around : Around
around = record { sb = small_sb; pid = 1; pagetable = 0; data_at = λ b. 65536 + b * 1024; de = 0 }

readi-Copied_example :
    (s : FsState) × (readi around 0 false 100 8 40 small ≡ ok (pos (readable 32 8 40), s))
    × Copied around (λ _. 8) 100 8 (readable 32 8 40) small s
unfolding IsBlock
readi-Copied_example =
    readi-Copied around 0 (λ _. 8) 100 8 40 small (omega arith) (omega arith)
      (λ i h.
        let first : i / 1024 ≡ 0 = omega (arith, h) in
        rw first ((omega arith, inl (omega arith, refl))))
      (λ bn a lo hi. inl (omega (arith, hi)))
