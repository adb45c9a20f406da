-- ===== src/Fs/Inodes/Dinode.antt =====
-- The copy of an inode in its block: `iupdate` and `ilock` of kernel/fs.c.
use mitcppos.Prelude.{
  ℕ, zero, suc, ◌+◌, ◌*◌, ◌%◌, ◌^◌, ◌<◌, ◌≤◌, ◌≡◌, ◌≢◌, ◌⊎◌, refl, sym, ◌∙◌, inl, inr, true, ◌==◌,
  if◌then◌else◌, arith, Bool-cases,
}
use mitcppos.Mem.{
  Mem, store_le, load_le, load-store_self, load-store_outside, store_le_outside, load_le_same,
}
use mitcppos.Fs.{Superblock, Inode, FsState, ndirect, dinode_size, ipb, iblock}
use mitcppos.Fs.Inodes.{read_dinode, write_addrs, write_dinode, iupdate}

-- The fields as the disk has room for them.
pub record Fits (v : Inode) : Type 0 where
  pub type : v.type < 2 ^ 16
  pub major : v.major < 2 ^ 16
  pub minor : v.minor < 2 ^ 16
  pub nlink : v.nlink < 2 ^ 16
  pub size : v.size < 2 ^ 32
  pub addrs : (j : ℕ) → j < ndirect + 1 → v.addrs j < 2 ^ 32

-- The same in all that the disk has.
pub record SameDinode (v w : Inode) : Type 0 where
  pub type : v.type ≡ w.type
  pub major : v.major ≡ w.major
  pub minor : v.minor ≡ w.minor
  pub nlink : v.nlink ≡ w.nlink
  pub size : v.size ≡ w.size
  pub addrs : (j : ℕ) → j < ndirect + 1 → v.addrs j ≡ w.addrs j

write_addrs_outside :
    (n j dip : ℕ) (addrs : ℕ → ℕ) (b : Mem) (a : ℕ)
    → (a < dip + 12 + 4 * j) ⊎ (dip + 12 + 4 * (j + n) ≤ a)
    → write_addrs n j dip addrs b a ≡ b a
unfolding write_addrs
write_addrs_outside zero j dip addrs b a h = refl
write_addrs_outside (suc n) j dip addrs b a h =
    write_addrs_outside n (j + 1) dip addrs _ a (ground (arith, h))
    ∙ store_le_outside 4 b (dip + 12 + 4 * j) (addrs j) a (ground (arith, h))

load-write_addrs :
    (n j dip : ℕ) (addrs : ℕ → ℕ) (b : Mem) (i : ℕ)
    → j ≤ i
    → i < j + n
    → addrs i < 2 ^ 32
    → load_le 4 (write_addrs n j dip addrs b) (dip + 12 + 4 * i) ≡ addrs i
unfolding write_addrs
load-write_addrs zero j dip addrs b i lo hi fits = absurd (omega (arith, lo, hi))
load-write_addrs (suc n) j dip addrs b i lo hi fits = elim (Bool-cases (i == j)) [
  | inl h ↦
      let same : i ≡ j = ground (arith, h) in
      load_le_same 4 _ (store_le 4 b (dip + 12 + 4 * j) (addrs j)) _
        (λ a p q. write_addrs_outside n (j + 1) dip addrs _ a (inl (omega (arith, q, same))))
      ∙ rw same (load-store_self 4 b (dip + 12 + 4 * j) (addrs j) (rw (sym same) fits))
  | inr h ↦
      load-write_addrs n (j + 1) dip addrs _ i (ground (arith, h, lo)) (omega (arith, hi)) fits
]

load-header :
    (n j dip : ℕ) (addrs : ℕ → ℕ) (b : Mem) (k a : ℕ)
    → a + k ≤ dip + 12
    → load_le k (write_addrs n j dip addrs b) a ≡ load_le k b a
load-header n j dip addrs b k a h =
    load_le_same k _ b a
      (λ c p q. write_addrs_outside n j dip addrs b c (inl (omega (arith, q, h))))

-- Bytes outside the copy stay.
write_dinode_outside :
    (bytes : Mem) (i : ℕ) (v : Inode) (a : ℕ)
    → (a < i * dinode_size) ⊎ ((i + 1) * dinode_size ≤ a)
    → write_dinode bytes i v a ≡ bytes a
unfolding write_dinode
write_dinode_outside bytes i v a h =
    write_addrs_outside (ndirect + 1) 0 (i * dinode_size) v.addrs _ a (ground (arith, h))
    ∙ store_le_outside 4 _ (i * dinode_size + 8) v.size a (ground (arith, h))
    ∙ store_le_outside 2 _ (i * dinode_size + 6) v.nlink a (ground (arith, h))
    ∙ store_le_outside 2 _ (i * dinode_size + 4) v.minor a (ground (arith, h))
    ∙ store_le_outside 2 _ (i * dinode_size + 2) v.major a (ground (arith, h))
    ∙ store_le_outside 2 bytes (i * dinode_size) v.type a (ground (arith, h))

read-write_dinode :
    (bytes : Mem) (i : ℕ) (v w : Inode)
    → Fits v
    → SameDinode (read_dinode (write_dinode bytes i v) i w) v
unfolding read_dinode write_dinode
read-write_dinode bytes i v w f = record {
  type =
      load-header (ndirect + 1) 0 (i * dinode_size) v.addrs _ 2 (i * dinode_size) (omega arith)
      ∙ load-store_outside 2 4 _ (i * dinode_size + 8) _ v.size (inl (omega arith))
      ∙ load-store_outside 2 2 _ (i * dinode_size + 6) _ v.nlink (inl (omega arith))
      ∙ load-store_outside 2 2 _ (i * dinode_size + 4) _ v.minor (inl (omega arith))
      ∙ load-store_outside 2 2 _ (i * dinode_size + 2) _ v.major (inl (omega arith))
      ∙ load-store_self 2 bytes (i * dinode_size) v.type f.type;
  major =
      load-header (ndirect + 1) 0 (i * dinode_size) v.addrs _ 2 (i * dinode_size + 2) (omega arith)
      ∙ load-store_outside 2 4 _ (i * dinode_size + 8) _ v.size (inl (omega arith))
      ∙ load-store_outside 2 2 _ (i * dinode_size + 6) _ v.nlink (inl (omega arith))
      ∙ load-store_outside 2 2 _ (i * dinode_size + 4) _ v.minor (inl (omega arith))
      ∙ load-store_self 2 _ (i * dinode_size + 2) v.major f.major;
  minor =
      load-header (ndirect + 1) 0 (i * dinode_size) v.addrs _ 2 (i * dinode_size + 4) (omega arith)
      ∙ load-store_outside 2 4 _ (i * dinode_size + 8) _ v.size (inl (omega arith))
      ∙ load-store_outside 2 2 _ (i * dinode_size + 6) _ v.nlink (inl (omega arith))
      ∙ load-store_self 2 _ (i * dinode_size + 4) v.minor f.minor;
  nlink =
      load-header (ndirect + 1) 0 (i * dinode_size) v.addrs _ 2 (i * dinode_size + 6) (omega arith)
      ∙ load-store_outside 2 4 _ (i * dinode_size + 8) _ v.size (inl (omega arith))
      ∙ load-store_self 2 _ (i * dinode_size + 6) v.nlink f.nlink;
  size =
      load-header (ndirect + 1) 0 (i * dinode_size) v.addrs _ 4 (i * dinode_size + 8) (omega arith)
      ∙ load-store_self 4 _ (i * dinode_size + 8) v.size f.size;
  addrs = λ j h.
      load-write_addrs (ndirect + 1) 0 (i * dinode_size) v.addrs _ j (omega arith) h (f.addrs j h);
}

-- Where the bytes of the copy are the same.
read_dinode_same :
    (b b' : Mem) (i : ℕ) (w : Inode)
    → ((a : ℕ) → i * dinode_size ≤ a → a < (i + 1) * dinode_size → b a ≡ b' a)
    → SameDinode (read_dinode b i w) (read_dinode b' i w)
unfolding read_dinode
read_dinode_same b b' i w h =
    let same : (n off : ℕ)
        → off + n ≤ 64
        → load_le n b (i * 64 + off) ≡ load_le n b' (i * 64 + off) =
      λ n off short.
        load_le_same n b b' (i * 64 + off)
          (λ a p q. h a (omega (arith, p)) (omega (arith, q, short))) in
    record {
      type = load_le_same 2 b b' (i * 64) (λ a p q. h a p (omega (arith, q)));
      major = same 2 2 (omega arith);
      minor = same 2 4 (omega arith);
      nlink = same 2 6 (omega arith);
      size = same 4 8 (omega arith);
      addrs = λ j f.
          load_le_same 4 b b' (i * 64 + 12 + 4 * j)
            (λ a p q. h a (omega (arith, p)) (omega (arith, q, f)));
    }

-- inode `inum` as the disk has it
pub on_disk : Superblock → (inum : ℕ) → FsState → Inode → Inode
on_disk sb inum s w = read_dinode (s.block (iblock sb inum)) (inum % ipb) w

-- The copy of `v` as number `n`.
written :
    (sb : Superblock) (v : Inode) (n : ℕ) (block : ℕ → Mem)
    → Fits v
    → (inum : ℕ) (w : Inode)
    → SameDinode
        (read_dinode
          (if iblock sb inum == iblock sb n
            then write_dinode (block (iblock sb n)) (n % ipb) v
            else block (iblock sb inum))
          (inum % ipb)
          w)
        (if inum == n then v else read_dinode (block (iblock sb inum)) (inum % ipb) w)
written sb v n block f inum w = elim (Bool-cases (inum == n)) [
  | inl e ↦
      let same : n ≡ inum = ground (arith, e) in
      let self : (iblock sb inum == iblock sb inum) ≡ true = ground arith in
      let self' : (inum == inum) ≡ true = ground arith in
      rw (same, self, self') (read-write_dinode (block (iblock sb inum)) (inum % ipb) v w f)
  | inr e ↦ rw e (
      read_dinode_same _ _ (inum % ipb) w λ a p q.
        elim (Bool-cases (iblock sb inum == iblock sb n)) [
          | inl h ↦
              let same : iblock sb inum ≡ iblock sb n = ground (arith, h) in
              let apart : inum % ipb ≢ n % ipb = λ k. absurd (ground (arith, e, same, k)) in
              rw (h, same)
                (write_dinode_outside (block (iblock sb n)) (n % ipb) v a
                  (ground (arith, apart, p, q)))
          | inr h ↦ rw h refl
        ])
]

-- After `iupdate` of an inode whose fields fit the disk, what `ilock` reads for its number is the
-- inode, field by field, and what it reads for any other number is what it was before.
pub iupdate-SameDinode :
    (sb : Superblock) (ip : ℕ) (s : FsState)
    → Fits (s.inode ip)
    → (inum : ℕ) (w : Inode)
    → SameDinode
        (on_disk sb inum (iupdate sb ip s) w)
        (if inum == (s.inode ip).inum then s.inode ip else on_disk sb inum s w)
unfolding on_disk iupdate
iupdate-SameDinode sb ip s f inum w = written sb (s.inode ip) (s.inode ip).inum s.block f inum w
