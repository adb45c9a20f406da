-- ===== src/Proc/Life/Exit.antt =====
-- `exit` and `wait` of kernel/proc.c together: an exit is not missed by the parent.
use mitcppos.Prelude.{
  ℕ, zero, suc, ◌+◌, ◌≤◌, ◌<◌, ◌≡◌, ◌≢◌, refl, sym, ◌∙◌, ap, inl, inr, Bool, true, false, ◌&&◌,
  ◌||◌, some, [], ◌∷◌, has, ◌==◌, if◌then◌else◌, arith, Bool-cases, ok,
}
use mitcppos.Riscv.{nproc}
use mitcppos.Proc.{
  Proc, Procs, zombie, process, is_zombie, points_to, put_proc, wake_one, wakeup1, adopt, reparent,
  sched,
}
use mitcppos.Spinlock.{Spinlock, Cpu, holding}
use mitcppos.Proc.Table.{sleeps_on, wake_one_lem, reparent_at, put_proc_self}
use mitcppos.Proc.Life.{exit_zombie, wait_scan}

-- a zombie whose parent is `me`
pub is_dead_child : (me : ℕ) → Proc → Bool
is_dead_child me p = points_to p.parent me && is_zombie p.state

-- The scan finds a dead child, if there is one.
wait_scan-some :
    (n np me c : ℕ) (havekids : Bool) (t : Procs)
    → np ≤ c
    → c < np + n
    → is_dead_child me (t c) ≡ true
    → (d : ℕ) × (wait_scan n np me havekids t ≡ (some d, true))
      × (d < np + n)
      × (is_dead_child me (t d) ≡ true)
unfolding wait_scan is_dead_child
wait_scan-some zero np me c havekids t lo hi e = absurd (omega (arith, lo, hi))
wait_scan-some (suc n) np me c havekids t lo hi e = elim (Bool-cases (is_dead_child me (t np))) [
  | inl f ↦ (np, rw f refl, omega arith, f)
  | inr f ↦
      let later : np + 1 ≤ c = elim (Bool-cases (np == c)) [
        | inl g ↦ let same : np ≡ c = ground (arith, g) in absurd (ground (arith, f, e, same))
        | inr g ↦ ground (arith, g, lo)
      ] in
      let (d, run, less, found) =
        wait_scan-some n (np + 1) me c (havekids || points_to (t np).parent me) t later
          (omega (arith, hi)) e in
      (d, rw f run, omega (arith, less), found)
]

wake_one-parent : (p : Proc) (q : ℕ) → (wake_one (process q) p).parent ≡ p.parent
unfolding wake_one
wake_one-parent p q = refl

-- `wakeup1` leaves all parents.
wakeup1-parent :
    (q : ℕ) (t : Procs) (i : ℕ)
    → (put_proc q (wake_one (process q) (t q)) t i).parent ≡ (t i).parent
unfolding wake_one
wakeup1-parent q t i = elim (Bool-cases (i == q)) [
  | inl e ↦ let same : i ≡ q = ground (arith, e) in rw e (ap (λ j. (t j).parent) (sym same))
  | inr e ↦ rw e refl
]

module _ (status me q initproc : ℕ) (t : Procs) where
  abbrev children_gone : Procs
  children_gone = reparent initproc me t

  abbrev parent_woken : Procs
  parent_woken = put_proc q (wake_one (process q) (children_gone q)) children_gone

  abbrev left : Procs
  left = put_proc me (record (parent_woken me) { xstate = status; state = zombie }) parent_woken

  exit_zombie-left :
      (cpu : ℕ) (lk : Spinlock) (c : Cpu) (parent : ℕ)
      → q ≢ me
      → (t me).parent ≡ some parent
      → parent ≢ me
      → points_to (t q).parent me ≡ false
      → holding cpu lk ≡ true
      → c.noff ≡ 1
      → c.intr ≡ false
      → exit_zombie status me q initproc cpu lk c t ≡ ok left
  unfolding exit_zombie wakeup1 sched
  exit_zombie-left cpu lk c parent ne e np nq held noff intr =
      let free : (q == me || points_to (t me).parent me || points_to (t q).parent me) ≡ false =
        ground (arith, ne, e, np, nq) in
      let taken : has q (me ∷ q ∷ []) ≡ true = ground arith in
      rw (free, taken, held, noff, intr) refl

  left-parent : (i : ℕ) → (left i).parent ≡ (children_gone i).parent
  left-parent i = elim (Bool-cases (i == me)) [
    | inl e ↦
        let same : i ≡ me = ground (arith, e) in
        rw e (wakeup1-parent q children_gone me ∙ ap (λ j. (children_gone j).parent) (sym same))
    | inr e ↦ rw e (wakeup1-parent q children_gone i)
  ]

  children_gone-parent :
      (i : ℕ)
      → i < nproc
      → (children_gone i).parent
        ≡ (if points_to (t i).parent me then some initproc else (t i).parent)
  unfolding adopt
  children_gone-parent i h = ap (λ v. v.parent) (reparent_at initproc me t i h)

  no_child_left : (i : ℕ) → initproc ≢ me → i < nproc → points_to (left i).parent me ≡ false
  no_child_left i ne h = ground (arith, left-parent i, children_gone-parent i h, ne)

  left-dead :
      (parent : ℕ)
      → parent ≢ me
      → me < nproc
      → (t me).parent ≡ some parent
      → is_dead_child parent (left me) ≡ true
  unfolding is_dead_child
  left-dead parent ne h e =
      let self : left me ≡ record (parent_woken me) { xstate = status; state = zombie } =
        put_proc_self me _ parent_woken in
      let kept : (left me).parent ≡ some parent =
        left-parent me ∙ ground (arith, children_gone-parent me h, e, ne) in
      let dead : is_zombie (left me).state ≡ true = ap (λ v. is_zombie v.state) self in
      rw (kept, dead) (ground arith)

  parent_awake : q ≢ me → sleeps_on (process q) (left q) ≡ false
  parent_awake ne =
      let other : (q == me) ≡ false = ground (arith, ne) in
      rw (other, put_proc_self q (wake_one (process q) (children_gone q)) children_gone)
        ((wake_one_lem (process q) (children_gone q)).0)

  -- The last section of `exit`, by a process other than init, which has read some time before that
  -- its parent was `q` and has the parent `parent` now, perhaps another; neither is the process
  -- itself, and `q` is no child of it; `sched` is called with the lock of the process and no other,
  -- and without interrupts. It comes to its switch without a panic. Then `q` is not asleep on its
  -- own entry, where `wait` sleeps; a scan of `wait` by `parent` finds a zombie that is its child;
  -- and no process has the one that exited as its parent.
  pub exit_zombie-seen :
      (cpu : ℕ) (lk : Spinlock) (c : Cpu) (parent : ℕ)
      → me < nproc
      → q ≢ me
      → initproc ≢ me
      → (t me).parent ≡ some parent
      → parent ≢ me
      → points_to (t q).parent me ≡ false
      → holding cpu lk ≡ true
      → c.noff ≡ 1
      → c.intr ≡ false
      → (t' : Procs) × (child : ℕ) × (exit_zombie status me q initproc cpu lk c t ≡ ok t')
        × (sleeps_on (process q) (t' q) ≡ false)
        × (wait_scan nproc 0 parent false t' ≡ (some child, true))
        × (is_dead_child parent (t' child) ≡ true)
        × ((i : ℕ) → i < nproc → points_to (t' i).parent me ≡ false)
  exit_zombie-seen cpu lk c parent h ne ni e np nq held noff intr =
      let (child, run, less, found) =
        wait_scan-some nproc 0 parent me false left (omega arith) (omega (arith, h))
          (left-dead parent np h e) in
      (
        left,
        child,
        exit_zombie-left cpu lk c parent ne e np nq held noff intr,
        parent_awake ne,
        run,
        found,
        λ i b. no_child_left i ni b,
      )
