-- ===== src/Log/Loops.antt =====
-- What `install_trans`, `write_log` and `write_head` have done to the disk when they return, and
-- when the power fails inside them.
use mitcppos.Prelude.{
  ℕ, zero, suc, ◌+◌, ◌≡◌, refl, ◌∙◌, arith, Bool, true, false, ◌&&◌, List, [], ◌∷◌, length, has,
  ltb, leb,
}
use mitcppos.Log.{
  Disk, Log, Run, done, asleep, crashed, panicked, ◌>>=◌, update, write_block, bwrite, install_loop,
  write_log_loop, copy_block, bunpin_unless,
}

-- The power failed with `C` true of the disk, or the call returned with `P` true of the state.
abbrev pub Ensures : (C : Disk → Type 0) (P : Log → Type 0) → Run → Type 0
Ensures C P (done s) = P s
Ensures C P (asleep s) = ⊥
Ensures C P (crashed d) = C d
Ensures C P (panicked p) = ⊥

pub Ensures-mono :
    {C D : Disk → Type 0} {P Q : Log → Type 0} (r : Run)
    → Ensures C P r
    → ((d : Disk) → C d → D d)
    → ((s : Log) → P s → Q s)
    → Ensures D Q r
Ensures-mono (done s) h weaken next = next s h
Ensures-mono (asleep s) h weaken next = h
Ensures-mono (crashed d) h weaken next = weaken d h
Ensures-mono (panicked p) h weaken next = h

pub Ensures-bind :
    {C D : Disk → Type 0} {P : Log → Type 0} (Q : Log → Type 0) (r : Run) (f : Log → Run)
    → Ensures C P r
    → ((d : Disk) → C d → D d)
    → ((s : Log) → P s → Ensures D Q (f s))
    → Ensures D Q (r >>= f)
Ensures-bind Q (done s) f h weaken next = next s h
Ensures-bind Q (asleep s) f h weaken next = h
Ensures-bind Q (crashed d) f h weaken next = weaken d h
Ensures-bind Q (panicked p) f h weaken next = h

-- The state after the disk has block `b` from its buffer, with `n` writes left.
abbrev pub Written : (b : ℕ) → Log → ℕ → Log
Written b s n = record s { disk = update s.disk b (s.view b); budget = n }

-- One write happens, or the disk stays as it was.
pub bwrite_then :
    (C : Disk → Type 0) (P : Log → Type 0) (b : ℕ) (s : Log) (f : Log → Run)
    → C s.disk
    → ((n : ℕ) → Ensures C P (f (Written b s n)))
    → Ensures C P (bwrite b s >>= f)
unfolding bwrite
bwrite_then C P b s f c p = go s.budget
  where
    go : (n : ℕ) → Ensures C P (write_block n b s >>= f)
    go zero = c
    go (suc n) = p n

pub bwrite_last :
    (C : Disk → Type 0) (P : Log → Type 0) (b : ℕ) (s : Log)
    → C s.disk
    → ((n : ℕ) → P (Written b s n))
    → Ensures C P (bwrite b s)
unfolding bwrite
bwrite_last C P b s c p = go s.budget
  where
    go : (n : ℕ) → Ensures C P (write_block n b s)
    go zero = c
    go (suc n) = p n

module _ (start : ℕ) where
  -- The log blocks from `tail` on hold what `T` has at the block numbers `bs`.
  abbrev pub Logged : Disk → (T : Disk) → (tail : ℕ) → List ℕ → Type 0
  Logged d T tail [] = Unit
  Logged d T tail (b ∷ bs) = (d (start + tail + 1) ≡ T b) × Logged d T (tail + 1) bs

  -- the `n` log blocks from `tail` on
  abbrev pub slot : (tail n c : ℕ) → Bool
  slot tail n c = leb (start + tail + 1) c && ltb c (start + tail + 1 + n)

  pub Logged-same :
      (d d' T : Disk) (tail : ℕ) (bs : List ℕ)
      → ((c : ℕ) → slot tail (length bs) c ≡ true → d' c ≡ d c)
      → Logged d T tail bs
      → Logged d' T tail bs
  Logged-same d d' T tail [] same l = tt
  Logged-same d d' T tail (b ∷ bs) same (e, l) = (
    same (start + tail + 1) (ground arith) ∙ e,
    Logged-same d d' T (tail + 1) bs (λ c h. same c (ground arith)) l,
  )

  pub Logged-target :
      (d T T' : Disk) (tail : ℕ) (bs : List ℕ)
      → ((c : ℕ) → has c bs ≡ true → T c ≡ T' c)
      → Logged d T tail bs
      → Logged d T' tail bs
  Logged-target d T T' tail [] same l = tt
  Logged-target d T T' tail (b ∷ bs) same (e, l) = (
    e ∙ same b (ground arith),
    Logged-target d T T' (tail + 1) bs (λ c h. same c (ground arith)) l,
  )

  -- no number of `bs` names one of the `n` log blocks from `tail` on
  abbrev pub Clear : (tail n : ℕ) → List ℕ → Type 0
  Clear tail n bs = (c : ℕ) → has c bs ≡ true → slot tail n c ≡ false

  -- What `install_trans` has done: it wrote `T` to the blocks `bs`, and nothing else.
  pub record Installed (T : Disk) (bs : List ℕ) (s s' : Log) : Type 0 where
    pub written : (c : ℕ) → has c bs ≡ true → s'.disk c ≡ T c
    pub others : (c : ℕ) → has c bs ≡ false → s'.disk c ≡ s.disk c

  abbrev pub OnlyAt : List ℕ → Disk → Disk → Type 0
  OnlyAt bs d d' = (c : ℕ) → has c bs ≡ false → d' c ≡ d c

  pub install_loop_lem :
      (recovering : Bool) (T : Disk) (tail : ℕ) (bs : List ℕ) (s : Log)
      → Logged s.view T tail bs
      → Clear tail (length bs) bs
      → Ensures (OnlyAt bs s.disk) (Installed T bs s) (install_loop start recovering tail bs s)
  unfolding install_loop
  install_loop_lem recovering T tail [] s l clear = record {
    written = λ c h. cc;
    others = λ c h. refl;
  }
  install_loop_lem recovering T tail (b ∷ bs) s (e, l) clear =
      bwrite_then (OnlyAt (b ∷ bs) s.disk) (Installed T (b ∷ bs) s) b
        (copy_block b (start + tail + 1) s) _ (λ c h. refl)
        λ n.
          let s' = bunpin_unless recovering b (Written b (copy_block b (start + tail + 1) s) n) in
          let l' : Logged s'.view T (tail + 1) bs =
            Logged-same s.view s'.view T (tail + 1) bs (λ c h. ground (arith, clear b)) l in
          Ensures-mono (install_loop start recovering (tail + 1) bs s')
            (install_loop_lem recovering T (tail + 1) bs s' l' (λ c h. ground (arith, clear c)))
            (λ d only c h. ground (arith, only c))
            (λ s'' ins. record {
              written = λ c h. ground (arith, ins.written c, ins.others c);
              others = λ c h. ground (arith, ins.others c);
            })

  -- What `write_log` has done: the log blocks hold the buffers of `bs`, on the disk and in the
  -- cache, and nothing else has changed.
  pub record Copied (tail : ℕ) (bs : List ℕ) (s s' : Log) : Type 0 where
    pub on_disk : Logged s'.disk s.view tail bs
    pub in_view : Logged s'.view s.view tail bs
    pub disk_else : (c : ℕ) → slot tail (length bs) c ≡ false → s'.disk c ≡ s.disk c
    pub view_else : (c : ℕ) → slot tail (length bs) c ≡ false → s'.view c ≡ s.view c
    pub blocks_same : s'.blocks ≡ s.blocks

  abbrev pub OutsideSlots : (tail n : ℕ) → Disk → Disk → Type 0
  OutsideSlots tail n d d' = (c : ℕ) → slot tail n c ≡ false → d' c ≡ d c

  pub write_log_loop_lem :
      (tail : ℕ) (bs : List ℕ) (s : Log)
      → Clear tail (length bs) bs
      → Ensures
          (OutsideSlots tail (length bs) s.disk)
          (Copied tail bs s)
          (write_log_loop start tail bs s)
  unfolding write_log_loop
  write_log_loop_lem tail [] s clear = record {
    on_disk = tt;
    in_view = tt;
    disk_else = λ c h. refl;
    view_else = λ c h. refl;
    blocks_same = refl;
  }
  write_log_loop_lem tail (b ∷ bs) s clear =
      bwrite_then (OutsideSlots tail (suc (length bs)) s.disk) (Copied tail (b ∷ bs) s)
        (start + tail + 1) (copy_block (start + tail + 1) b s) _ (λ c h. refl)
        λ n.
          let s' = Written (start + tail + 1) (copy_block (start + tail + 1) b s) n in
          let back : (c : ℕ) → has c bs ≡ true → s'.view c ≡ s.view c =
            λ c h. ground (arith, clear c) in
          Ensures-mono (write_log_loop start (tail + 1) bs s')
            (write_log_loop_lem (tail + 1) bs s' (λ c h. ground (arith, clear c)))
            (λ d only c h. ground (arith, only c))
            (λ s'' ins. record {
              on_disk = (
                ground (arith, ins.disk_else (start + tail + 1)),
                Logged-target s''.disk s'.view s.view (tail + 1) bs back ins.on_disk,
              );
              in_view = (
                ground (arith, ins.view_else (start + tail + 1)),
                Logged-target s''.view s'.view s.view (tail + 1) bs back ins.in_view,
              );
              disk_else = λ c h. ground (arith, ins.disk_else c);
              view_else = λ c h. ground (arith, ins.view_else c);
              blocks_same = ins.blocks_same;
            })
