-- ===== src/Log/Kept.antt =====
-- What `commit` does to the counters of the log.
use mitcppos.Prelude.{
  ℕ, ◌+◌, ◌≡◌, refl, Bool, false, List, [], ◌∷◌, length, ltb, Bool-cases, inl, inr, arith,
}
use mitcppos.Log.{
  Log, Run, done, install_loop, install_trans, write_log_loop, write_log, write_head, commit,
  copy_block, bunpin_unless,
}
use mitcppos.Log.Loops.{Ensures, Ensures-bind, Written, bwrite_then, bwrite_last}

eq_nil : (bs : List ℕ) → ltb 0 (length bs) ≡ false → bs ≡ []
eq_nil [] h = refl
eq_nil (b ∷ bs) h = ground arith

-- The two fields of `log` are these in the end, if the run returns.
abbrev Keeps : List ℕ → ℕ → Run → Type 0
Keeps l n r = Ensures (λ d. Unit {0}) (λ s'. (s'.blocks ≡ l) × (s'.outstanding ≡ n)) r

module _ (start : ℕ) where
  install_loop-Keeps :
      (recovering : Bool) (tail : ℕ) (bs : List ℕ) (s : Log)
      → Keeps s.blocks s.outstanding (install_loop start recovering tail bs s)
  unfolding install_loop
  install_loop-Keeps recovering tail [] s = (refl, refl)
  install_loop-Keeps recovering tail (b ∷ bs) s =
      let s₁ = copy_block b (start + tail + 1) s in
      bwrite_then (λ d. Unit {0}) _ b s₁ _ tt
        λ n.
          install_loop-Keeps recovering (tail + 1) bs (bunpin_unless recovering b (Written b s₁ n))

  write_log_loop-Keeps :
      (tail : ℕ) (bs : List ℕ) (s : Log)
      → Keeps s.blocks s.outstanding (write_log_loop start tail bs s)
  unfolding write_log_loop
  write_log_loop-Keeps tail [] s = (refl, refl)
  write_log_loop-Keeps tail (b ∷ bs) s =
      let s₁ = copy_block (start + tail + 1) b s in
      bwrite_then (λ d. Unit {0}) _ (start + tail + 1) s₁ _ tt
        λ n. write_log_loop-Keeps (tail + 1) bs (Written (start + tail + 1) s₁ n)

  write_head-Keeps : (s : Log) → Keeps s.blocks s.outstanding (write_head start s)
  unfolding write_head
  write_head-Keeps s = bwrite_last (λ d. Unit {0}) _ start _ tt λ n. (refl, refl)

  commit-Keeps : (s : Log) → Keeps [] s.outstanding (commit start s)
  unfolding commit install_trans write_log
  commit-Keeps s = elim (Bool-cases (ltb 0 (length s.blocks))) [
    | inl some_blocks ↦ rw some_blocks (
        Ensures-bind Q (write_log_loop start 0 s.blocks s) _ (write_log_loop-Keeps 0 s.blocks s)
          (λ d u. u)
          λ s₁ (_, n₁).
            Ensures-bind Q (write_head start s₁) _ (write_head-Keeps s₁) (λ d u. u)
              λ s₂ (_, n₂).
                Ensures-bind Q (install_loop start false 0 s₂.blocks s₂) _
                  (install_loop-Keeps false 0 s₂.blocks s₂) (λ d u. u)
                  λ s₃ (_, n₃).
                    rw (← n₁, ← n₂, ← n₃) (write_head-Keeps (record s₃ { blocks = [] })))
    | inr no_blocks ↦ rw no_blocks (eq_nil s.blocks no_blocks, refl)
  ]
    where
      Q : Log → Type 0
      Q s' = (s'.blocks ≡ []) × (s'.outstanding ≡ s.outstanding)

  -- A `commit` that returns has emptied the log.
  pub blocks-commit :
      (s s' : Log) → commit start s ≡ done s' → (s'.blocks ≡ []) × (s'.outstanding ≡ s.outstanding)
  blocks-commit s s' e = rw e at (commit-Keeps s)
