-- ===== src/Fs/Inodes/Map.antt =====
-- `bmap` of kernel/fs.c: the disk block for each block of a file.
use mitcppos.Prelude.{
  ℕ, ◌-◌, ◌*◌, ◌<◌, ◌≤◌, ◌^◌, ◌≡◌, ◌≢◌, ◌⊎◌, refl, ap, ◌∙◌, inl, inr, true, false, ltb, ◌==◌, arith,
  Bool-cases, Outcome, ok, panic,
}
use mitcppos.Mem.{Mem, load32, store32, load-store_self}
use mitcppos.Fs.{
  Inode, Superblock, FsState, ndirect, nindirect, maxfile, log_block, put_inode, set_addr,
}
use mitcppos.Fs.Blocks.Alloc.{used, Guarded, Taken, Ends, balloc-Ends}
use mitcppos.Fs.Inodes.{bmap_indirect, bmap_direct, bmap}

-- Block `bn` of the file of `v` is block `b`.
unfoldable pub IsBlock : (block : ℕ → Mem) → Inode → (bn b : ℕ) → Type 0
IsBlock block v bn b =
    (b ≢ 0)
    × (((bn < ndirect) × (v.addrs bn ≡ b))
        ⊎ ((ndirect ≤ bn)
            × (bn < maxfile)
            × (v.addrs ndirect ≢ 0)
            × (load32 (block (v.addrs ndirect)) (4 * (bn - ndirect)) ≡ b)))

module _ (sb : Superblock) where
  pub bmap-IsBlock :
      (ip bn b : ℕ) (s : FsState) → IsBlock s.block (s.inode ip) bn b → bmap sb ip bn s ≡ ok (b, s)
  unfolding bmap bmap_direct bmap_indirect IsBlock
  bmap-IsBlock ip bn b s (nz, inl (h, e)) =
      let small : ltb bn ndirect ≡ true = ground (arith, h) in
      let is : (b == 0) ≡ false = ground (arith, nz) in simp (small, e, is) refl
  bmap-IsBlock ip bn b s (nz, inr (lo, hi, nz', e)) =
      let large : ltb bn ndirect ≡ false = ground (arith, lo) in
      let inside : ltb (bn - ndirect) nindirect ≡ true = ground (arith, hi, lo) in
      let is : (b == 0) ≡ false = ground (arith, nz) in
      let is' : ((s.inode ip).addrs ndirect == 0) ≡ false = ground (arith, nz') in
      simp (large, inside, is', e, is) refl

  -- The bitmap marks block 0 and its own blocks, and block numbers are 32-bit words.
  pub record Kept (s : FsState) : Type 0 where
    pub guarded : Guarded sb s
    pub zero_used : used sb s 0 ≡ true
    pub small : sb.size ≤ 2 ^ 32

  -- `bmap` gives a block, and the same one when called again; or no block is free.
  pub Stable : (ip bn : ℕ) → Outcome (ℕ × FsState) → Type 0
  Stable ip bn r =
      ((b : ℕ) × (s' : FsState) × (r ≡ ok (b, s')) × (b ≢ 0) × (bmap sb ip bn s' ≡ ok (b, s')))
      ⊎ (r ≡ panic "balloc: out of blocks")

  Kept-Taken : (b : ℕ) (s s' : FsState) → Taken sb b s s' → Kept s → Kept s'
  unfolding Guarded
  Kept-Taken b s s' t k = record {
    guarded = λ c d hc hd free. k.guarded c d hc hd (ground (arith, t.marked c hc, free));
    zero_used = ground (arith, t.marked 0 (omega (arith, t.inside)), k.zero_used);
    small = k.small;
  }

  not_zero : (b : ℕ) (s s' : FsState) → Taken sb b s s' → Kept s → b ≢ 0
  not_zero b s s' t k = λ e. absurd (ground (arith, t.was_free, k.zero_used, ap (used sb s) e))

  Placed : (ip i : ℕ) → Outcome (ℕ × FsState) → Type 0
  Placed ip i r =
      ((b : ℕ) × (s' : FsState) × (r ≡ ok (b, s'))
        × (b ≢ 0)
        × ((s'.inode ip).addrs i ≡ b)
        × Kept s')
      ⊎ (r ≡ panic "balloc: out of blocks")

  bmap_direct-Placed : (ip i : ℕ) (s : FsState) → Kept s → Placed ip i (bmap_direct sb ip i s)
  unfolding bmap_direct Placed Ends used Guarded
  bmap_direct-Placed ip i s k = elim (Bool-cases ((s.inode ip).addrs i == 0)) [
    | inr e ↦ inl ((s.inode ip).addrs i, s, simp (e) refl, ground (arith, e), refl, k)
    | inl e ↦ elim (balloc-Ends sb s k.guarded) [
      | inl (b, t, run, taken) ↦
          let k' = Kept-Taken b s t taken k in
          inl (
            b,
            put_inode ip (set_addr i b (t.inode ip)) t,
            simp (e, run) refl,
            not_zero b s t taken k,
            ground arith,
            record { guarded = k'.guarded; zero_used = k'.zero_used; small = k'.small },
          )
      | inr (run, _) ↦ inr (simp (e, run) refl)
    ]
  ]

  bmap_direct_again :
      (ip i b : ℕ) (s : FsState)
      → b ≢ 0
      → (s.inode ip).addrs i ≡ b
      → bmap_direct sb ip i s ≡ ok (b, s)
  unfolding bmap_direct
  bmap_direct_again ip i b s nz e =
      let is : (b == 0) ≡ false = ground (arith, nz) in simp (e, is) refl

  bmap_indirect-Stable :
      (addr bn : ℕ) (s : FsState)
      → Kept s
      → ((b : ℕ) × (s' : FsState) × (bmap_indirect sb addr bn s ≡ ok (b, s'))
          × (b ≢ 0)
          × (bmap_indirect sb addr bn s' ≡ ok (b, s'))
          × (s'.inode ≡ s.inode))
        ⊎ (bmap_indirect sb addr bn s ≡ panic "balloc: out of blocks")
  unfolding bmap_indirect Ends
  bmap_indirect-Stable addr bn s k = elim (Bool-cases (load32 (s.block addr) (4 * bn) == 0)) [
    | inr e ↦
        inl
          (load32 (s.block addr) (4 * bn), s, simp (e) refl, ground (arith, e), simp (e) refl, refl)
    | inl e ↦ elim (balloc-Ends sb s k.guarded) [
      | inl (b, t, run, taken) ↦
          let is : (b == 0) ≡ false = ground (arith, not_zero b s t taken k) in
          let self : (addr == addr) ≡ true = ground arith in
          let kept : load32 (store32 (t.block addr) (4 * bn) b) (4 * bn) ≡ b =
            load-store_self 4 (t.block addr) (4 * bn) b (omega (arith, taken.inside, k.small)) in
          inl (
            b,
            log_block addr (store32 (t.block addr) (4 * bn) b) t,
            simp (e, run) refl,
            not_zero b s t taken k,
            simp (self, kept, is) refl,
            taken.same_inodes,
          )
      | inr (run, _) ↦ inr (simp (e, run) refl)
    ]
  ]

  -- `bmap` for a block within the largest file, where the bitmap marks block 0 and its own blocks
  -- and the disk has at most 2^32 blocks: it gives a block other than 0, and in the state that it
  -- leaves it gives the same block again and changes nothing; or it panics for want of a free
  -- block.
  pub bmap-Stable :
      (ip bn : ℕ) (s : FsState) → Kept s → bn < maxfile → Stable ip bn (bmap sb ip bn s)
  unfolding bmap Stable Placed
  bmap-Stable ip bn s k h = elim (Bool-cases (ltb bn ndirect)) [
    | inl e ↦ elim (bmap_direct-Placed ip bn s k) [
      | inl (b, t, run, nz, at, _) ↦
          inl (b, t, simp (e, run) refl, nz, simp (e, bmap_direct_again ip bn b t nz at) refl)
      | inr run ↦ inr (simp (e, run) refl)
    ]
    | inr e ↦
        let inside : ltb (bn - ndirect) nindirect ≡ true = ground (arith, h, e) in
        elim (bmap_direct-Placed ip ndirect s k) [
          | inl (addr, t, run, nz, at, k') ↦ elim (bmap_indirect-Stable addr (bn - ndirect) t k') [
            | inl (b, u, run', nz', again, same) ↦
                let at' : (u.inode ip).addrs ndirect ≡ addr =
                  ap (λ f. (f ip).addrs ndirect) same ∙ at in
                inl (
                  b,
                  u,
                  simp (e, inside, run, run') refl,
                  nz',
                  simp (e, inside, bmap_direct_again ip ndirect addr u nz at', again) refl,
                )
            | inr run' ↦ inr (simp (e, inside, run, run') refl)
          ]
          | inr run ↦ inr (simp (e, inside, run) refl)
        ]
  ]
