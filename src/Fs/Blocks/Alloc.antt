-- ===== src/Fs/Blocks/Alloc.antt =====
-- `balloc` and `bfree` of kernel/fs.c on the set of used blocks.
use mitcppos.Prelude.{
  ℕ, zero, suc, ◌+◌, ◌-◌, ◌*◌, ◌/◌, ◌%◌, ◌≤◌, ◌<◌, ◌≡◌, ◌≢◌, ◌⊎◌, refl, sym, ◌∙◌, ap, inl, inr,
  Bool, true, false, Option, none, some, ◌∷◌, ltb, ◌==◌, if◌then◌else◌, arith, Bool-cases, Outcome,
  ok, panic, ok_inj,
}
use mitcppos.Str.Copy.{memset_lem, within}
use mitcppos.Log.{bsize}
use mitcppos.Fs.{Superblock, FsState, bpb, bblock, log_block}
use mitcppos.Fs.Blocks.{
  bzero, test_bit, set_bit, clear_bit, bits_here, balloc_at, balloc_loop, balloc, bfree,
}
use mitcppos.Fs.Blocks.Search.{test_bit-set_bit, test_bit-clear_bit, Searched, clear_from-Searched}
use mathlib.Core.Path.{subst}

module _ (sb : Superblock) where
  unfoldable pub used : FsState → (b : ℕ) → Bool
  used s b = test_bit (s.block (bblock sb b)) (b % bpb)

  -- The blocks of the bitmap are marked as used themselves.
  unfoldable pub Guarded : FsState → Type 0
  Guarded s = (b c : ℕ) → b < sb.size → c < sb.size → used s b ≡ false → b ≢ bblock sb c

  -- `b` was free, the first such, and is used now and all zero; nothing else changes but its bit.
  pub record Taken (b : ℕ) (s s' : FsState) : Type 0 where
    pub inside : b < sb.size
    pub was_free : used s b ≡ false
    pub first : (c : ℕ) → c < b → used s c ≡ true
    pub marked : (c : ℕ) → c < sb.size → used s' c ≡ (if c == b then true else used s c)
    pub zeroed : (i : ℕ) → i < bsize → s'.block b i ≡ 0
    pub others : (c : ℕ) → c ≢ b → c ≢ bblock sb b → s'.block c ≡ s.block c
    pub writes : s'.logged ≡ b ∷ bblock sb b ∷ s.logged
    pub same_inodes : s'.inode ≡ s.inode

  unfoldable pub Ends : FsState → Outcome (ℕ × FsState) → Type 0
  Ends s r =
      ((b : ℕ) × (s' : FsState) × (r ≡ ok (b, s')) × Taken b s s')
      ⊎ ((r ≡ panic "balloc: out of blocks") × ((c : ℕ) → c < sb.size → used s c ≡ true))

  -- `balloc` at the bit `bi` of the block of the bitmap that begins with bit `b`.
  taking : (b bi : ℕ) → FsState → FsState
  taking b bi s = bzero (b + bi) (log_block (bblock sb b) (set_bit (s.block (bblock sb b)) bi) s)

  module _ (b bi : ℕ) (s : FsState) (at : b % bpb ≡ 0) (short : bi < bpb) where
    bit_of : (b + bi) % bpb ≡ bi
    bit_of = omega (arith, at, short)

    block_of : bblock sb (b + bi) ≡ bblock sb b
    block_of = ap (◌+ sb.bmapstart) (omega (arith, at, short))

    used_at : used s (b + bi) ≡ test_bit (s.block (bblock sb b)) bi
    unfolding used
    used_at = rw (bit_of, block_of) refl

    -- a block of the bitmap behind it, which is not the new block
    map_after :
        (c : ℕ)
        → b + bi ≢ c
        → (taking b bi s).block c
          ≡ (if c == bblock sb b then set_bit (s.block (bblock sb b)) bi else s.block c)
    unfolding taking bzero
    map_after c ne = let other : (c == b + bi) ≡ false = ground (arith, ne) in rw other refl

    marked_after :
        (c : ℕ)
        → b + bi ≢ bblock sb c
        → used (taking b bi s) c ≡ (if c == b + bi then true else used s c)
    unfolding used
    marked_after c ne = elim (Bool-cases (bblock sb c == bblock sb b)) [
      | inl e ↦
          let same : bblock sb c ≡ bblock sb b = ground (arith, e) in
          let which : (c % bpb == bi) ≡ (c == b + bi) = ground (arith, same, at, short) in
          rw (map_after (bblock sb c) ne, e)
            (test_bit-set_bit (s.block (bblock sb b)) bi (c % bpb) ∙ rw (which, same) refl)
      | inr e ↦
          let apart : (c == b + bi) ≡ false = ground (arith, e, block_of) in
          rw (map_after (bblock sb c) ne, e, apart) refl
    ]

    zeroed_after : (i : ℕ) → i < bsize → (taking b bi s).block (b + bi) i ≡ 0
    unfolding taking bzero
    zeroed_after i h =
        let self : (b + bi == b + bi) ≡ true = ground arith in
        let inside : within 0 bsize i ≡ true = ground (arith, h) in
        rw self (memset_lem _ 0 0 bsize i ∙ rw inside refl)

  -- With the blocks before `b` used, and the bits from there on up to `n`.
  used_up_to :
      (b n : ℕ) (s : FsState)
      → b % bpb ≡ 0
      → n ≤ bpb
      → ((c : ℕ) → c < b → c < sb.size → used s c ≡ true)
      → ((i : ℕ) → 0 ≤ i → i < n → test_bit (s.block (bblock sb b)) i ≡ true)
      → (c : ℕ) → c < b + n
      → c < sb.size
      → used s c ≡ true
  used_up_to b n s at short all before c h size = elim (Bool-cases (ltb c b)) [
    | inl e ↦ all c (ground (arith, e)) size
    | inr e ↦
        let later : b ≤ c = ground (arith, e) in
        let split : b + (c - b) ≡ c = omega (arith, later) in
        ap (used s) (sym split)
        ∙ used_at b (c - b) s at (omega (arith, h, later, short))
        ∙ before (c - b) (omega arith) (omega (arith, h, later))
  ]

  -- `b` begins a block of the bitmap, and all blocks before are used.
  found :
      (b bi : ℕ) (s : FsState)
      → b % bpb ≡ 0
      → Guarded s
      → ((c : ℕ) → c < b → c < sb.size → used s c ≡ true)
      → Searched (bits_here sb b) 0 (s.block (bblock sb b)) (some bi)
      → Taken (b + bi) s (taking b bi s)
  unfolding Searched Guarded taking bzero
  found b bi s at g all (lo, hi, free, before) =
      let inside : b + bi < sb.size = ground (arith, hi) in
      let short : bi < bpb = ground (arith, hi) in
      let was : used s (b + bi) ≡ false = used_at b bi s at short ∙ free in
      record {
        inside = inside;
        was_free = was;
        first = λ c h.
            used_up_to b bi s at (omega (arith, short)) all before c h (omega (arith, h, inside));
        marked = λ c h. marked_after b bi s at short c (g (b + bi) c inside h was);
        zeroed = zeroed_after b bi s at short;
        others = λ c ne ne'.
            let not_new : (c == b + bi) ≡ false = ground (arith, ne) in
            let not_map : (c == bblock sb b) ≡ false =
              ground (arith, ne', block_of b bi s at short) in
            rw (not_new, not_map) refl;
        writes = ap (λ x. (b + bi) ∷ x ∷ s.logged) (sym (block_of b bi s at short));
        same_inodes = refl;
      }

  balloc_at-Ends :
      (b : ℕ) (s : FsState) (rest : Outcome (ℕ × FsState)) (o : Option ℕ)
      → b % bpb ≡ 0
      → Guarded s
      → ((c : ℕ) → c < b → c < sb.size → used s c ≡ true)
      → (((c : ℕ) → c < b + bpb → c < sb.size → used s c ≡ true) → Ends s rest)
      → Searched (bits_here sb b) 0 (s.block (bblock sb b)) o
      → Ends s (balloc_at sb b s rest o)
  unfolding balloc_at Ends taking Searched
  balloc_at-Ends b s rest none at g all later whole =
      let few : bits_here sb b ≤ bpb = ground arith in
      later (λ c h size.
        let here : c < b + bits_here sb b = ground (arith, h, size) in
        used_up_to b (bits_here sb b) s at few all (λ i lo hi. whole i lo (omega (arith, hi))) c
          here size)
  balloc_at-Ends b s rest (some bi) at g all later hit =
      inl (b + bi, taking b bi s, refl, found b bi s at g all hit)

  balloc_loop-Ends :
      (n b : ℕ) (s : FsState)
      → b % bpb ≡ 0
      → sb.size ≤ b + n * bpb
      → Guarded s
      → ((c : ℕ) → c < b → c < sb.size → used s c ≡ true)
      → Ends s (balloc_loop sb n b s)
  unfolding balloc_loop Ends
  balloc_loop-Ends zero b s at enough g all = inr (refl, λ c h. all c (omega (arith, enough, h)) h)
  balloc_loop-Ends (suc n) b s at enough g all =
      balloc_at-Ends b s (balloc_loop sb n (b + bpb) s) _ at g all
        (balloc_loop-Ends n (b + bpb) s (omega (arith, at)) (omega (arith, enough)) g)
        (clear_from-Searched (bits_here sb b) 0 (s.block (bblock sb b)))

  -- `balloc` on a disk whose bitmap marks its own blocks as used: it ends. Either it returns the
  -- first block that was free, now marked as used, with all its bytes 0, no other mark and no other
  -- block but its part of the bitmap changed, and exactly these two blocks logged; or it panics,
  -- and then every block is used.
  pub balloc-Ends : (s : FsState) → Guarded s → Ends s (balloc sb s)
  unfolding balloc
  balloc-Ends s g =
      balloc_loop-Ends ((sb.size + bpb - 1) / bpb) 0 s refl (omega arith) g
        (λ c h size. absurd (omega (arith, h)))

  bfree-used :
      (b : ℕ) (s : FsState)
      → used s b ≡ true
      → (s' : FsState) × (bfree sb b s ≡ ok s')
        × ((c : ℕ) → used s' c ≡ (if c == b then false else used s c))
  unfolding bfree used
  bfree-used b s h = (
    log_block (bblock sb b) (clear_bit (s.block (bblock sb b)) (b % bpb)) s,
    rw h refl,
    λ c. elim (Bool-cases (bblock sb c == bblock sb b)) [
      | inl e ↦
          let same : bblock sb c ≡ bblock sb b = ground (arith, e) in
          let which : (c % bpb == b % bpb) ≡ (c == b) = ground (arith, same) in
          rw e (
            test_bit-clear_bit (s.block (bblock sb b)) (b % bpb) (c % bpb) h
            ∙ rw (which, same) refl)
      | inr e ↦ let apart : (c == b) ≡ false = ground (arith, e) in rw (e, apart) refl
    ],
  )

  bfree-Taken :
      (b : ℕ) (s s' : FsState)
      → Taken b s s'
      → (s'' : FsState) × (bfree sb b s' ≡ ok s'') × ((c : ℕ) → c < sb.size → used s'' c ≡ used s c)
  bfree-Taken b s s' t =
      let marked : used s' b ≡ true = ground (arith, t.marked b t.inside) in
      let (s'', run, after) = bfree-used b s' marked in
      (
        s'',
        run,
        λ c h. elim (Bool-cases (c == b)) [
          | inl e ↦
              let same : c ≡ b = ground (arith, e) in
              after c ∙ rw e (sym (ap (used s) same ∙ t.was_free))
          | inr e ↦ after c ∙ rw e (t.marked c h ∙ rw e refl)
        ],
      )

  freed :
      (b c : ℕ) (s t s' : FsState)
      → Taken c s t
      → ◌≡◌ {A = ℕ × FsState} (c, t) (b, s')
      → (used s b ≡ false)
        × ((s'' : FsState) × (bfree sb b s' ≡ ok s'')
            × ((i : ℕ) → i < sb.size → used s'' i ≡ used s i))
  freed b c s t s' taken e =
      subst
        (λ (r : ℕ × FsState).
          (used s r.0 ≡ false)
          × ((s'' : FsState) × (bfree sb r.0 r.1 ≡ ok s'')
              × ((i : ℕ) → i < sb.size → used s'' i ≡ used s i)))
        e (taken.was_free, bfree-Taken c s t taken)

  -- On a disk whose bitmap marks its own blocks as used, the block that `balloc` returns was free;
  -- `bfree` of it afterwards does not panic, and leaves the marks of all blocks as they were
  -- before.
  pub bfree-balloc :
      (b : ℕ) (s s' : FsState)
      → Guarded s
      → balloc sb s ≡ ok (b, s')
      → (used s b ≡ false)
        × ((s'' : FsState) × (bfree sb b s' ≡ ok s'')
            × ((c : ℕ) → c < sb.size → used s'' c ≡ used s c))
  unfolding Ends
  bfree-balloc b s s' g e = elim (balloc-Ends s g) [
    | inl (c, t, run, taken) ↦
        let same : ok (c, t) ≡ ok (b, s') = sym run ∙ e in freed b c s t s' taken (ok_inj same)
    | inr (run, full) ↦ absurd (ground (arith, run, e))
  ]
