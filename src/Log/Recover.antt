-- ===== src/Log/Recover.antt =====
-- Recovery: a disk whose header names blocks of the log stands for the contents that recovery
-- installs, also where an earlier recovery was interrupted.
use mitcppos.Prelude.{
  ℕ, ◌+◌, ◌<◌, ◌^◌, ◌≡◌, ◌≢◌, refl, ap, ◌∙◌, inl, inr, arith, Bool, true, false, ◌&&◌, List, [],
  length, has, ltb, leb, Bool-cases,
}
use mitcppos.Log.{
  Disk, Log, ◌>>=◌, update, install_loop, install_trans, write_head, set_header, header, read_head,
  recover_from_log, reboot,
}
use mitcppos.Log.Header.{AreWords, header-set_header}
use mitcppos.Log.Loops.{
  Ensures, Ensures-bind, Written, bwrite_last, Logged, Logged-same, OnlyAt, install_loop_lem,
}

module _ (start size : ℕ) where
  -- the blocks of the log: the header and those behind it
  abbrev pub in_log : ℕ → Bool
  in_log c = leb start c && ltb c (start + size)

  abbrev pub Home : List ℕ → Type 0
  Home bs = (c : ℕ) → has c bs ≡ true → in_log c ≡ false

  -- outside the log the two disks hold the same
  abbrev pub Agree : Disk → Disk → Type 0
  Agree d T = (c : ℕ) → in_log c ≡ false → d c ≡ T c

  -- The header and the blocks that it names make up `T`.
  pub record Recoverable (T d : Disk) : Type 0 where
    pub blocks : List ℕ
    pub named : header (d start) ≡ blocks
    pub logged : Logged start d T 0 blocks
    pub rest : (c : ℕ) → in_log c ≡ false → has c blocks ≡ false → d c ≡ T c
    pub home : Home blocks
    pub fits : length blocks < size

  -- an empty header, and `T` outside the log
  pub record Clean (T d : Disk) : Type 0 where
    pub empty : header (d start) ≡ []
    pub agree : Agree d T

  -- Writes to the named blocks alone leave the log as it is.
  Recoverable-OnlyAt :
      (T d d' : Disk) (r : Recoverable T d) → OnlyAt start r.blocks d d' → Recoverable T d'
  Recoverable-OnlyAt T d d' r only = record {
    blocks = r.blocks;
    named = ap header (only start (ground (arith, r.home start))) ∙ r.named;
    logged =
        Logged-same start d d' T 0 r.blocks (λ c h. only c (ground (arith, r.home c, r.fits)))
          r.logged;
    rest = λ c out absent. only c absent ∙ r.rest c out absent;
    home = r.home;
    fits = r.fits;
  }

  -- the header that `write_head` writes, with its block number's buffer
  pub write_head_lem :
      (C : Disk → Type 0) (P : Log → Type 0) (s : Log)
      → C s.disk
      → ((s' : Log)
          → header (s'.disk start) ≡ s.blocks
          → ((c : ℕ) → c ≢ start → s'.disk c ≡ s.disk c)
          → ((c : ℕ) → c ≢ start → s'.view c ≡ s.view c)
          → s'.blocks ≡ s.blocks
          → P s')
      → AreWords s.blocks
      → length s.blocks < 2 ^ 32
      → Ensures C P (write_head start s)
  unfolding write_head
  write_head_lem C P s c p words small =
      let h = set_header s.blocks (s.view start) in
      let s₁ = record s { view = update s.view start h } in
      bwrite_last C P start s₁ c λ n.
        p (Written start s₁ n)
          (let e : (Written start s₁ n).disk start ≡ h = ground arith in
            ap header e ∙ header-set_header s.blocks (s.view start) words small)
          (λ c ne. ground arith) (λ c ne. ground arith) refl

  write_head_empty :
      (T : Disk) (s : Log)
      → Recoverable T s.disk
      → Agree s.disk T
      → Ensures
          (Recoverable T)
          (λ s'. Clean T s'.disk)
          (write_head start (record s { blocks = [] }))
  write_head_empty T s r agree =
      write_head_lem (Recoverable T) (λ s'. Clean T s'.disk) (record s { blocks = [] }) r
        (λ s' e others _ _. record {
          empty = e;
          agree = λ c out. others c (ground (arith, r.fits)) ∙ agree c out;
        })
        tt (omega arith)

  -- Installing what the header names, and then clearing the header.
  pub finish_lem :
      (recovering : Bool) (T : Disk) (s : Log) (r : Recoverable T s.disk)
      → Logged start s.view T 0 r.blocks
      → Ensures
          (Recoverable T)
          (λ s'. Clean T s'.disk)
          (install_loop start recovering 0 r.blocks s >>= λ s'.
            write_head start (record s' { blocks = [] }))
  finish_lem recovering T s r l =
      Ensures-bind (λ s'. Clean T s'.disk) (install_loop start recovering 0 r.blocks s) _
        (install_loop_lem start recovering T 0 r.blocks s l
          (λ c h. ground (arith, r.home c, r.fits)))
        (λ d only. Recoverable-OnlyAt T s.disk d r only)
        λ s' ins. write_head_empty T s' (Recoverable-OnlyAt T s.disk s'.disk r ins.others) (λ c out.
          elim (Bool-cases (has c r.blocks)) [
            | inl here ↦ ins.written c here
            | inr absent ↦ ins.others c absent ∙ r.rest c out absent
          ])

  -- Recovery from a disk that makes up `T` ends with `T`; interrupted, it leaves such a disk.
  pub recover_lem :
      (T d : Disk) (n : ℕ)
      → Recoverable T d
      → Ensures (Recoverable T) (λ s'. Clean T s'.disk) (recover_from_log start (reboot d n))
  unfolding recover_from_log install_trans read_head reboot
  recover_lem T d n r = rw r.named (finish_lem true T _ r r.logged)
