-- ===== src/Fs/Content/Read.antt =====
-- What `readi` of kernel/fs.c copies to the kernel's memory.
use mitcppos.Prelude.{
  ℕ, zero, suc, ◌+◌, ◌-◌, ◌/◌, ◌%◌, ◌^◌, ◌<◌, ◌≤◌, ◌≡◌, ◌⊎◌, refl, sym, ◌∙◌, inl, inr, true, false,
  ◌||◌, ltb, ◌==◌, if◌then◌else◌, arith, Bool-cases, Outcome, ok, ◌>>=◌,
}
use mitcppos.Prelude.Int.{ℤ, pos}
use mitcppos.Mem.{Mem}
use mitcppos.Kalloc.{Kmem}
use mitcppos.Str.{memmove}
use mitcppos.Str.Copy.{memmove_lem}
use mitcppos.Log.{bsize}
use mathlib.Core.Path.{subst}
use mitcppos.Proc.Memory.{either_copyout}
use mitcppos.Fs.{FsState}
use mitcppos.Fs.Inodes.Map.{IsBlock, bmap-IsBlock}
use mitcppos.Fs.Content.{Around, fill_buf, chunk, read_on, readi_loop, readi}

-- the number of bytes that `readi` can read
pub readable : (size off n : ℕ) → ℕ
readable size off n = if ltb size (off + n) then size - off else n

module _ (env : Around) where
  -- Outside the buffers of the blocks of `file`.
  pub Clear : (file : ℕ → ℕ) → ℕ → Type 0
  Clear file a = (bn : ℕ) → (a < env.data_at (file bn)) ⊎ (env.data_at (file bn) + bsize ≤ a)

  -- The `n` bytes of the file from `off` on stand at `dst`; besides, only buffers changed.
  pub record Copied (file : ℕ → ℕ) (dst off n : ℕ) (s s' : FsState) : Type 0 where
    pub bytes :
        (i : ℕ)
        → i < n
        → s'.kmem.mem (dst + i) ≡ s.block (file ((off + i) / bsize)) ((off + i) % bsize)
    pub others : (a : ℕ) → (a < dst) ⊎ (dst + n ≤ a) → Clear file a → s'.kmem.mem a ≡ s.kmem.mem a
    pub same_blocks : s'.block ≡ s.block
    pub same_inodes : s'.inode ≡ s.inode
    pub same_log : s'.logged ≡ s.logged

  -- Memory after one round.
  one_round : (at dst off m : ℕ) → Mem → Kmem → Mem
  one_round at dst off m bytes k = memmove (fill_buf at bytes k).mem dst (at + off % bsize) m

  one_round_bytes :
      (at dst off m i : ℕ) (bytes : Mem) (k : Kmem)
      → i < m
      → m + off % bsize ≤ bsize
      → one_round at dst off m bytes k (dst + i) ≡ bytes (off % bsize + i)
  unfolding one_round fill_buf
  one_round_bytes at dst off m i bytes k h short =
      ground
        (arith, memmove_lem (fill_buf at bytes k).mem dst (at + off % bsize) m (dst + i), h, short)

  one_round_others :
      (at dst off m a : ℕ) (bytes : Mem) (k : Kmem)
      → (a < dst) ⊎ (dst + m ≤ a)
      → (a < at) ⊎ (at + bsize ≤ a)
      → one_round at dst off m bytes k a ≡ k.mem a
  unfolding one_round fill_buf
  one_round_others at dst off m a bytes k h apart =
      ground (arith, memmove_lem (fill_buf at bytes k).mem dst (at + off % bsize) m a, h, apart)

  -- The chunk of a round, with bytes left.
  chunk_lem :
      (left off : ℕ)
      → 0 < left
      → (0 < chunk left off) × (chunk left off ≤ left) × (chunk left off + off % bsize ≤ bsize)
  chunk_lem left off h = (ground (arith, h), ground (arith, h), ground (arith, h))

  -- A byte of the round lies in the block of its offset.
  in_block :
      (off i : ℕ)
      → i + off % bsize < bsize
      → ((off + i) / bsize ≡ off / bsize) × ((off + i) % bsize ≡ off % bsize + i)
  in_block off i h = (omega (arith, h), omega (arith, h))

  -- The state after one round.
  round : (off dst m b : ℕ) → FsState → FsState
  round off dst m b s = record s {
    kmem = record s.kmem { mem = one_round (env.data_at b) dst off m (s.block b) s.kmem };
  }

  read_on-round :
      (more : FsState → Outcome (ℤ × FsState)) (off dst m b : ℕ) (s : FsState)
      → (either_copyout env.pagetable false dst
            (env.data_at b + off % bsize)
            m
            (fill_buf (env.data_at b) (s.block b) s.kmem)
          >>= read_on env more s)
        ≡ more (round off dst m b s)
  unfolding either_copyout read_on round one_round fill_buf
  read_on-round more off dst m b s = refl

  Copied-none : (file : ℕ → ℕ) (dst off n : ℕ) (s : FsState) → n ≡ 0 → Copied file dst off n s s
  Copied-none file dst off n s z = record {
    bytes = λ i h. absurd (omega (arith, h, z));
    others = λ a h clear. refl;
    same_blocks = refl;
    same_inodes = refl;
    same_log = refl;
  }

  Copied-more :
      (file : ℕ → ℕ) (dst off n m : ℕ) (s s' : FsState)
      → 0 < m
      → m ≤ n
      → m + off % bsize ≤ bsize
      → ((bn a : ℕ)
          → dst ≤ a
          → a < dst + n
          → (a < env.data_at (file bn)) ⊎ (env.data_at (file bn) + bsize ≤ a))
      → Copied file (dst + m) (off + m) (n - m) (round off dst m (file (off / bsize)) s) s'
      → Copied file dst off n s s'
  unfolding round Clear
  Copied-more file dst off n m s s' some_left le short apart c = record {
    bytes = λ i h. elim (Bool-cases (ltb i m)) [
      | inl e ↦
          let early : i < m = ground (arith, e) in
          let (blk, place) = in_block off i (omega (arith, early, short)) in
          c.others (dst + i) (inl (omega (arith, early)))
            (λ bn. apart bn (dst + i) (omega arith) (omega (arith, h)))
          ∙ one_round_bytes _ dst off m i _ s.kmem early short
          ∙ rw (blk, place) refl
      | inr e ↦
          let late : m ≤ i = ground (arith, e) in
          let at : dst + m + (i - m) ≡ dst + i = omega (arith, late) in
          let from : off + m + (i - m) ≡ off + i = omega (arith, late) in
          let got = c.bytes (i - m) (omega (arith, h, late)) in rw (sym at, sym from) got
    ];
    others = λ a h clear.
        c.others a (ground (arith, h, le)) clear
        ∙ one_round_others _ dst off m a _ s.kmem (ground (arith, h, le)) (clear (off / bsize));
    same_blocks = c.same_blocks;
    same_inodes = c.same_inodes;
    same_log = c.same_log;
  }

  readi_loop-Copied :
      (fuel ip : ℕ) (file : ℕ → ℕ) (dst off left n : ℕ) (s : FsState)
      → left ≤ fuel
      → ((i : ℕ)
          → i < left
          → IsBlock s.block (s.inode ip) ((off + i) / bsize) (file ((off + i) / bsize)))
      → ((bn a : ℕ)
          → dst ≤ a
          → a < dst + left
          → (a < env.data_at (file bn)) ⊎ (env.data_at (file bn) + bsize ≤ a))
      → (s' : FsState) × (readi_loop env fuel ip false dst off left n s ≡ ok (pos n, s'))
        × Copied file dst off left s s'
  unfolding readi_loop round
  readi_loop-Copied zero ip file dst off left n s enough mapped apart =
      let none_left : (left == 0) ≡ true = ground (arith, enough) in
      (s, rw none_left refl, Copied-none file dst off left s (ground (arith, none_left)))
  readi_loop-Copied (suc fuel) ip file dst off left n s enough mapped apart =
      elim (Bool-cases (left == 0)) [
        | inl e ↦ (s, rw e refl, Copied-none file dst off left s (ground (arith, e)))
        | inr e ↦
            let m = chunk left off in
            let (pos_m, le, short) = chunk_lem left off (ground (arith, e)) in
            let b = file (off / bsize) in
            let first : (off + 0) / bsize ≡ off / bsize = omega arith in
            let its : IsBlock s.block (s.inode ip) (off / bsize) b =
              subst (λ k. IsBlock s.block (s.inode ip) k (file k)) first
                (mapped 0 (ground (arith, e))) in
            let s₁ = round off dst m b s in
            let (s', run, c) =
              readi_loop-Copied fuel ip file (dst + m) (off + m) (left - m) n s₁
                (omega (arith, enough, pos_m))
                (λ i h.
                  let at : off + m + i ≡ off + (m + i) = omega arith in
                  subst (λ k. IsBlock s.block (s.inode ip) (k / bsize) (file (k / bsize))) (sym at)
                    (mapped (m + i) (omega (arith, h, le))))
                (λ bn a lo hi. apart bn a (omega (arith, lo)) (omega (arith, hi, le))) in
            (
              s',
              simp
                  (
                    e,
                    bmap-IsBlock env.sb ip (off / bsize) b s its,
                    read_on-round (readi_loop env fuel ip false (dst + m) (off + m) (left - m) n)
                        off dst m b s,
                    run,
                  )
                  refl,
              Copied-more file dst off left m s s' pos_m le short apart c,
            )
      ]

  -- `readi` of `n` bytes from an offset within the file to kernel memory, where the file's blocks
  -- are all there and neither the offset nor its sum with `n` leaves 32 bits, and no buffer of them
  -- overlaps the destination: it returns the number of bytes up to the end of the file or `n`; the
  -- bytes of the file stand at the destination, each from the block and the place of its offset;
  -- besides them only buffers change, and neither the disk nor an inode.
  pub readi-Copied :
      (ip : ℕ) (file : ℕ → ℕ) (dst off n : ℕ) (s : FsState)
      → off ≤ (s.inode ip).size
      → off + n < 2 ^ 32
      → ((i : ℕ)
          → i < (s.inode ip).size
          → IsBlock s.block (s.inode ip) (i / bsize) (file (i / bsize)))
      → ((bn a : ℕ)
          → dst ≤ a
          → a < dst + n
          → (a < env.data_at (file bn)) ⊎ (env.data_at (file bn) + bsize ≤ a))
      → (s' : FsState) × (readi env ip false dst off n s
          ≡ ok (pos (readable (s.inode ip).size off n), s'))
        × Copied file dst off (readable (s.inode ip).size off n) s s'
  unfolding readi readable
  readi-Copied ip file dst off n s inside short mapped apart =
      let few : readable (s.inode ip).size off n ≤ n = ground (arith, inside) in
      let within : off + readable (s.inode ip).size off n ≤ (s.inode ip).size =
        ground (arith, inside) in
      let runs : (ltb (s.inode ip).size off || ltb ((off + n) % 2 ^ 32) off) ≡ false =
        ground (arith, inside, short) in
      let (s', run, c) =
        readi_loop-Copied (readable (s.inode ip).size off n) ip file dst off
          (readable (s.inode ip).size off n) (readable (s.inode ip).size off n) s (omega arith)
          (λ i h. mapped (off + i) (omega (arith, h, within)))
          (λ bn a lo hi. apart bn a lo (omega (arith, hi, few))) in
      (s', simp (runs) run, c)
