-- ===== src/Log/Total.antt =====
-- With enough power for its writes, `commit` and the recovery come to their end.
use mitcppos.Prelude.{
  ℕ, suc, ◌+◌, ◌-◌, ◌*◌, ◌≤◌, ◌<◌, ◌≡◌, refl, ap, ◌∙◌, arith, Bool, true, false, List, [], ◌∷◌,
  length, Bool-cases, inl, inr, ltb, if◌then◌else◌,
}
use mitcppos.Log.{
  Disk, Log, Run, done, write_block, bwrite, install_loop, install_trans, write_log_loop, write_log,
  write_head, header, read_head, recover_from_log, commit, reboot, copy_block, bunpin_unless,
}
use mitcppos.Log.Loops.{Written}

-- The run returns after `k` writes, and leaves `lh` as it was.
abbrev Returns : (k : ℕ) → Log → Run → Type 0
Returns k s r = (s' : Log) × (r ≡ done s') × (s'.budget + k ≡ s.budget) × (s'.blocks ≡ s.blocks)

bwrite-done : (b : ℕ) (s : Log) → 0 < s.budget → bwrite b s ≡ done (Written b s (s.budget - 1))
unfolding bwrite
bwrite-done b s h =
    let e : s.budget ≡ suc (s.budget - 1) = omega arith in ap (λ k. write_block k b s) e

-- The disk writes of a `commit` of `n` blocks: each block in the log and at home, and the header
-- before and after the installation.
pub commit_writes : (n : ℕ) → ℕ
commit_writes n = if ltb 0 n then 2 * n + 2 else 0

module _ (start : ℕ) where
  install_loop-Returns :
      (recovering : Bool) (tail : ℕ) (bs : List ℕ) (s : Log)
      → length bs ≤ s.budget
      → Returns (length bs) s (install_loop start recovering tail bs s)
  unfolding install_loop
  install_loop-Returns recovering tail [] s h = (s, refl, omega arith, refl)
  install_loop-Returns recovering tail (b ∷ bs) s h =
      let s₁ = copy_block b (start + tail + 1) s in
      let s₂ = bunpin_unless recovering b (Written b s₁ (s.budget - 1)) in
      let (s', run, left, same) = install_loop-Returns recovering (tail + 1) bs s₂ (omega arith) in
      (s', rw (bwrite-done b s₁ (omega arith)) run, omega arith, same)

  write_log_loop-Returns :
      (tail : ℕ) (bs : List ℕ) (s : Log)
      → length bs ≤ s.budget
      → Returns (length bs) s (write_log_loop start tail bs s)
  unfolding write_log_loop
  write_log_loop-Returns tail [] s h = (s, refl, omega arith, refl)
  write_log_loop-Returns tail (b ∷ bs) s h =
      let s₁ = copy_block (start + tail + 1) b s in
      let s₂ = Written (start + tail + 1) s₁ (s.budget - 1) in
      let (s', run, left, same) = write_log_loop-Returns (tail + 1) bs s₂ (omega arith) in
      (s', rw (bwrite-done (start + tail + 1) s₁ (omega arith)) run, omega arith, same)

  write_head-Returns : (s : Log) → 0 < s.budget → Returns 1 s (write_head start s)
  unfolding write_head
  write_head-Returns s h = (_, bwrite-done start _ h, omega arith, refl)

  -- A recovery that can make one write for each block that the header names, and one more, returns.
  pub recover_from_log-Returns :
      (d : Disk) (n : ℕ)
      → length (header (d start)) < n
      → (s' : Log) × (recover_from_log start (reboot d n) ≡ done s')
  unfolding recover_from_log install_trans read_head reboot
  recover_from_log-Returns d n h =
      let (s₁, run₁, left₁, _) =
        install_loop-Returns true 0 (header (d start)) (read_head start (reboot d n))
          (omega arith) in
      let (s₂, run₂, _, _) = write_head-Returns (record s₁ { blocks = [] }) (omega arith) in
      (s₂, rw run₁ run₂)

  -- A `commit` that can make two writes for each block of the transaction, and two more, returns
  -- with no block left in the transaction; it has made just these writes, or none where the
  -- transaction was empty.
  pub commit-Returns :
      (s : Log)
      → 2 * length s.blocks + 2 ≤ s.budget
      → (s' : Log) × (commit start s ≡ done s')
        × (s'.blocks ≡ [])
        × (s'.budget + commit_writes (length s.blocks) ≡ s.budget)
  unfolding commit commit_writes install_trans write_log
  commit-Returns s h = elim (Bool-cases (ltb 0 (length s.blocks))) [
    | inl some_blocks ↦
        let (s₁, run₁, left₁, same₁) = write_log_loop-Returns 0 s.blocks s (omega arith) in
        let (s₂, run₂, left₂, same₂) = write_head-Returns s₁ (omega arith) in
        let e : s₂.blocks ≡ s.blocks = same₂ ∙ same₁ in
        let (s₃, run₃, left₃, same₃) =
          install_loop-Returns false 0 s₂.blocks s₂ (omega (arith, ap length e)) in
        let (s₄, run₄, left₄, empty) =
          write_head-Returns (record s₃ { blocks = [] }) (omega (arith, ap length e)) in
        (
          s₄,
          rw (some_blocks, run₁, run₂, run₃) run₄,
          empty,
          rw some_blocks (omega (arith, ap length e, left₁, left₂, left₃, left₄)),
        )
    | inr no_blocks ↦ (s, rw no_blocks refl, ground (arith, no_blocks), rw no_blocks (omega arith))
  ]
