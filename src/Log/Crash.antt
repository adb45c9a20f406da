-- ===== src/Log/Crash.antt =====
-- Crash safety: wherever the power fails in `commit`, or in the recovery after it, the recovery that
-- ends leaves the file system's blocks all as they were before the transaction or all as it made
-- them.
use mitcppos.Prelude.{
  ℕ, ◌<◌, ◌^◌, ◌≡◌, ◌≢◌, refl, ap, ◌∙◌, ◌⊎◌, inl, inr, arith, false, List, [], ◌∷◌, length, has,
  ltb, if◌then◌else◌, Bool-cases,
}
use mitcppos.Log.{
  Disk, Log, done, crashed, ◌>>=◌, install_loop, install_trans, write_log_loop, write_log,
  write_head, header, recover_from_log, commit, reboot,
}
use mitcppos.Log.Header.{AreWords}
use mitcppos.Log.Loops.{
  Ensures, Ensures-mono, Ensures-bind, Logged, Logged-same, Logged-target, Copied, OutsideSlots,
  write_log_loop_lem,
}
use mitcppos.Log.Recover.{
  in_log, Home, Agree, Recoverable, Clean, finish_lem, recover_lem, write_head_lem,
}

not-has-empty : (c : ℕ) (bs : List ℕ) → ltb 0 (length bs) ≡ false → has c bs ≡ false
not-has-empty c [] h = refl
not-has-empty c (b ∷ bs) h = ground arith

module _ (start size : ℕ) where
  -- What holds when `commit` is called: the header on the disk is empty, and the transaction's blocks
  -- lie outside the log and fit into it.
  pub record Ready (s : Log) : Type 0 where
    pub empty : header (s.disk start) ≡ []
    pub home : Home start size s.blocks
    pub words : AreWords s.blocks
    pub fits : length s.blocks < size
    pub small : length s.blocks < 2 ^ 32

  -- the disk with the transaction's blocks as the buffers have them
  abbrev pub after : Log → Disk
  after s = λ c. if has c s.blocks then s.view c else s.disk c

  pub Either : Log → Disk → Type 0
  Either s d = Recoverable start size s.disk d ⊎ Recoverable start size (after s) d

  -- While the header is empty, the disk makes up the old contents.
  Recoverable-empty :
      (T d : Disk)
      → header (d start) ≡ []
      → Agree start size d T
      → 0 < size
      → Recoverable start size T d
  Recoverable-empty T d e agree pos = record {
    blocks = [];
    named = e;
    logged = tt;
    rest = λ c out absent. agree c out;
    home = λ c h. cc;
    fits = pos;
  }

  old_of_OutsideSlots :
      (s : Log) (d : Disk)
      → Ready s
      → OutsideSlots start 0 (length s.blocks) s.disk d
      → Recoverable start size s.disk d
  old_of_OutsideSlots s d r only =
      Recoverable-empty s.disk d (ap header (only start (ground arith)) ∙ r.empty)
        (λ c out. only c (ground (arith, r.fits))) (omega (arith, r.fits))

  -- What holds once `write_head` has committed the transaction.
  record Committed (s s' : Log) : Type 0 where
    named : header (s'.disk start) ≡ s.blocks
    logged : Logged start s'.disk (after s) 0 s.blocks
    in_view : Logged start s'.view (after s) 0 s.blocks
    rest : (c : ℕ) → in_log start size c ≡ false → has c s.blocks ≡ false → s'.disk c ≡ after s c
    blocks_same : s'.blocks ≡ s.blocks

  committed :
      (s s₁ : Log)
      → Ready s
      → Copied start 0 s.blocks s s₁
      → (s₂ : Log) → header (s₂.disk start) ≡ s₁.blocks
      → ((c : ℕ) → c ≢ start → s₂.disk c ≡ s₁.disk c)
      → ((c : ℕ) → c ≢ start → s₂.view c ≡ s₁.view c)
      → s₂.blocks ≡ s₁.blocks
      → Committed s s₂
  committed s s₁ r copied s₂ e disk view blocks = record {
    named = e ∙ copied.blocks_same;
    logged =
        Logged-same start s₁.disk s₂.disk (after s) 0 s.blocks (λ c h. disk c (ground arith))
          (Logged-target start s₁.disk s.view (after s) 0 s.blocks (λ c h. ground arith)
            copied.on_disk);
    in_view =
        Logged-same start s₁.view s₂.view (after s) 0 s.blocks (λ c h. view c (ground arith))
          (Logged-target start s₁.view s.view (after s) 0 s.blocks (λ c h. ground arith)
            copied.in_view);
    rest = λ c out absent.
        disk c (ground (arith, r.fits)) ∙ copied.disk_else c (ground (arith, r.fits)) ∙ (rw absent);
    blocks_same = blocks ∙ copied.blocks_same;
  }

  abbrev recoverable_of_Committed :
      (s s₂ : Log) → Ready s → Committed s s₂ → Recoverable start size (after s) s₂.disk
  recoverable_of_Committed s s₂ r c = record {
    blocks = s.blocks;
    named = c.named;
    logged = c.logged;
    rest = c.rest;
    home = r.home;
    fits = r.fits;
  }

  finish-Committed :
      (s s₂ : Log)
      → Ready s
      → Committed s s₂
      → Ensures
          (Either s)
          (λ s'. Clean start size (after s) s'.disk)
          (install_loop start false 0 s.blocks s₂ >>= λ s'.
            write_head start (record s' { blocks = [] }))
  unfolding Either
  finish-Committed s s₂ r c =
      Ensures-mono {C = Recoverable start size (after s)}
        {P = λ s'. Clean start size (after s) s'.disk}
        {Q = λ s'. Clean start size (after s) s'.disk}
        (install_loop start false 0 s.blocks s₂ >>= λ s'.
          write_head start (record s' { blocks = [] }))
        (finish_lem start size false (after s) s₂ (recoverable_of_Committed s s₂ r c) c.in_view)
        (λ d e. inr e) (λ s' clean. clean)

  -- `commit` leaves, if it returns, the transaction's blocks on the disk and an empty log; if the
  -- power fails, a disk that makes up all of the old or all of the new contents. It does not panic.
  -- The condition is that of `Ready`: an empty header on the disk before, and a transaction whose
  -- blocks lie outside the log and fit into it.
  pub commit_lem :
      (s : Log)
      → Ready s
      → Ensures (Either s) (λ s'. Clean start size (after s) s'.disk) (commit start s)
  unfolding commit write_log install_trans Either
  commit_lem s r = elim (Bool-cases (ltb 0 (length s.blocks))) [
    | inl some_blocks ↦ rw some_blocks (
        Ensures-bind Q (write_log_loop start 0 s.blocks s) _
          (write_log_loop_lem start 0 s.blocks s (λ c h. ground (arith, r.home c, r.fits)))
          (λ d only. inl (old_of_OutsideSlots s d r only))
          λ s₁ copied.
            Ensures-bind Q (write_head start s₁) _
              (write_head_lem start size (Either s) (Committed s) s₁
                (inl (old_of_OutsideSlots s s₁.disk r copied.disk_else)) (committed s s₁ r copied)
                (rw copied.blocks_same r.words) (rw copied.blocks_same r.small))
              (λ d e. e) λ s₂ c. simp c.blocks_same (finish-Committed s s₂ r c))
    | inr no_blocks ↦
        rw no_blocks
          (record { empty = r.empty; agree = λ c out. rw (not-has-empty c s.blocks no_blocks) })
  ]
    where
      Q : Log → Type 0
      Q s' = Clean start size (after s) s'.disk

  -- What recovery, interrupted any number of times and started again, makes of a disk.
  pub data Recovers : Disk → Disk → Type 0 where
    finished :
        {d : Disk} {s : Log} (n : ℕ)
        → recover_from_log start (reboot d n) ≡ done s
        → Recovers d s.disk
    again :
        {d d₁ d₂ : Disk} (n : ℕ)
        → recover_from_log start (reboot d n) ≡ crashed d₁
        → Recovers d₁ d₂
        → Recovers d d₂

  Recovers-Clean :
      (T : Disk) {d d' : Disk} → Recovers d d' → Recoverable start size T d → Clean start size T d'
  Recovers-Clean T (finished {d} n e) r = rw e at (recover_lem start size T d n r)
  Recovers-Clean T (again {d} n e next) r =
      Recovers-Clean T next (rw e at (recover_lem start size T d n r))

  -- If the power fails anywhere in `commit`, and any number of times in the recoveries after it,
  -- then the disk that a recovery at last leaves has, outside the log, everywhere the old contents
  -- or everywhere the new, and an empty log. The condition is that of `Ready`: an empty header on
  -- the disk before, and a transaction whose blocks lie outside the log and fit into it.
  pub crash_atomicity :
      (s : Log) (d d' : Disk)
      → Ready s
      → commit start s ≡ crashed d
      → Recovers d d'
      → Clean start size s.disk d' ⊎ Clean start size (after s) d'
  unfolding Either
  crash_atomicity s d d' r e next =
      let either : Either s d = rw e at (commit_lem s r) in
      elim either [
        | inl old ↦ inl (Recovers-Clean s.disk next old)
        | inr new ↦ inr (Recovers-Clean (after s) next new)
      ]
