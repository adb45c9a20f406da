-- ===== src/Proc/Table.antt =====
-- What `wakeup`, `kill` and `reparent` of kernel/proc.c leave in the process table.
use mitcppos.Prelude.{
  ℕ, zero, suc, ◌+◌, ◌≤◌, ◌<◌, ◌≡◌, ◌≢◌, ◌⊎◌, refl, ◌∙◌, ap, inl, inr, Bool, true, false, ◌&&◌,
  some, ltb, leb, ◌==◌, if◌then◌else◌, arith, Bool-cases,
}
use mitcppos.Prelude.Int.{ℤ, pos, minus_one}
use mitcppos.Riscv.{nproc}
use mitcppos.Proc.{
  Proc, Procs, Chan, is_sleeping, is_running, same_chan, points_to, put_proc, each, wake_one,
  wakeup, kill_one, kill_loop, kill, adopt, reparent, Procstate, unused, sleeping, runnable,
  running, zombie,
}

each_lem :
    (f : ℕ → Proc → Proc) (n p : ℕ) (t : Procs) (q : ℕ)
    → each f n p t q ≡ (if leb p q && ltb q (p + n) then f q (t q) else t q)
unfolding each
each_lem f zero p t q = ground arith
each_lem f (suc n) p t q = ground (arith, each_lem f n (p + 1) (put_proc p (f p (t p)) t) q)

-- `p` sleeps on `chan`
pub sleeps_on : Chan → Proc → Bool
sleeps_on chan p = is_sleeping p.state && same_chan p.chan chan

pub wake_one_lem :
    (chan : Chan) (p : Proc)
    → (sleeps_on chan (wake_one chan p) ≡ false)
      × (sleeps_on chan p ≡ true → wake_one chan p ≡ record p { state = runnable })
      × (sleeps_on chan p ≡ false → wake_one chan p ≡ p)
unfolding sleeps_on wake_one
wake_one_lem chan p = (ground arith, λ e. rw e refl, λ e. rw e refl)

wakeup_at : (chan : Chan) (t : Procs) (q : ℕ) → q < nproc → wakeup chan t q ≡ wake_one chan (t q)
unfolding wakeup
wakeup_at chan t q h =
    let here : (leb 0 q && ltb q (0 + nproc)) ≡ true = ground (arith, h) in
    each_lem (λ _. wake_one chan) nproc 0 t q ∙ rw here refl

-- After `wakeup` no process of the table sleeps on the channel; those that did may run, with
-- nothing else changed, and all others are as before.
pub wakeup_lem :
    (chan : Chan) (t : Procs) (q : ℕ)
    → q < nproc
    → (sleeps_on chan (wakeup chan t q) ≡ false)
      × (sleeps_on chan (t q) ≡ true → wakeup chan t q ≡ record (t q) { state = runnable })
      × (sleeps_on chan (t q) ≡ false → wakeup chan t q ≡ t q)
wakeup_lem chan t q h = rw (wakeup_at chan t q h) (wake_one_lem chan (t q))

pub reparent_at :
    (initproc p : ℕ) (t : Procs) (q : ℕ)
    → q < nproc
    → reparent initproc p t q ≡ adopt initproc p (t q)
unfolding reparent
reparent_at initproc p t q h =
    let here : (leb 0 q && ltb q (0 + nproc)) ≡ true = ground (arith, h) in
    each_lem (λ _. adopt initproc p) nproc 0 t q ∙ rw here refl

pub adopt_lem :
    (initproc p : ℕ) (v : Proc)
    → initproc ≢ p
    → (points_to (adopt initproc p v).parent p ≡ false)
      × (points_to v.parent p ≡ true → adopt initproc p v ≡ record v { parent = some initproc })
      × (points_to v.parent p ≡ false → adopt initproc p v ≡ v)
unfolding adopt
adopt_lem initproc p v h = (ground (arith, h), λ e. rw e refl, λ e. rw e refl)

-- t
pub reparent_lem :
    (initproc p : ℕ) (t : Procs) (q : ℕ)
    → initproc ≢ p
    → q < nproc
    → (points_to (reparent initproc p t q).parent p ≡ false)
      × (points_to (t q).parent p ≡ true
          → reparent initproc p t q ≡ record (t q) { parent = some initproc })
      × (points_to (t q).parent p ≡ false → reparent initproc p t q ≡ t q)
reparent_lem initproc p t q ne h = rw (reparent_at initproc p t q h) (adopt_lem initproc p (t q) ne)

-- A process that sleeps may run, any other is as it was.
abbrev pub roused : Procstate → Procstate
roused unused = unused
roused sleeping = runnable
roused runnable = runnable
roused running = running
roused zombie = zombie

-- What `kill` finds: the first process with that number, from `p` on; or none.
pub Killed : (n p pid : ℕ) (t : Procs) → ℤ × Procs → Type 0
Killed n p pid t (r, t') =
    ((q : ℕ) × (p ≤ q)
      × (q < p + n)
      × ((t q).pid ≡ pid)
      × (r ≡ pos 0)
      × ((i : ℕ) → p ≤ i → i < q → (t i).pid ≢ pid)
      × (t' q ≡ record (t q) { killed = true; state = roused (t q).state })
      × ((i : ℕ) → i ≢ q → t' i ≡ t i))
    ⊎ ((r ≡ minus_one) × (t' ≡ t) × ((q : ℕ) → p ≤ q → q < p + n → (t q).pid ≢ pid))

roused-if : (st : Procstate) → (if is_sleeping st then runnable else st) ≡ roused st
roused-if unused = refl
roused-if sleeping = refl
roused-if runnable = refl
roused-if running = refl
roused-if zombie = refl

kill_one_lem : (p : Proc) → kill_one p ≡ record p { killed = true; state = roused p.state }
unfolding kill_one
kill_one_lem p = ap (λ st. record p { killed = true; state = st }) (roused-if p.state)

pub put_proc_self : (p : ℕ) (v : Proc) (t : Procs) → put_proc p v t p ≡ v
put_proc_self p v t = ground arith

Killed-suc :
    (n p pid : ℕ) (t : Procs) (r : ℤ × Procs)
    → (t p).pid ≢ pid
    → Killed n (p + 1) pid t r
    → Killed (suc n) p pid t r
unfolding Killed
Killed-suc n p pid t r ne (inl (q, lo, hi, its, zero_r, before, dead, others)) = inl (
  q,
  omega (arith, lo),
  omega (arith, hi),
  its,
  zero_r,
  λ i a b. elim (Bool-cases (i == p)) [
    | inl f ↦ let here : i ≡ p = ground (arith, f) in rw here ne
    | inr f ↦ before i (ground (arith, f, a)) b
  ],
  dead,
  others,
)
Killed-suc n p pid t r ne (inr (e, same, none_has)) = inr (
  e,
  same,
  λ q lo hi. elim (Bool-cases (q == p)) [
    | inl f ↦ let here : q ≡ p = ground (arith, f) in rw here ne
    | inr f ↦ none_has q (ground (arith, f, lo)) (omega (arith, hi))
  ],
)

kill_loop-Killed : (n p pid : ℕ) (t : Procs) → Killed n p pid t (kill_loop n p pid t)
unfolding kill_loop Killed
kill_loop-Killed zero p pid t = inr (refl, refl, λ q lo hi. absurd (omega (arith, lo, hi)))
kill_loop-Killed (suc n) p pid t = elim (Bool-cases ((t p).pid == pid)) [
  | inl e ↦
      let self = put_proc_self p (kill_one (t p)) t in
      rw e (
        inl (
          p,
          omega arith,
          omega arith,
          ground (arith, e),
          refl,
          λ i a b. absurd (omega (arith, a, b)),
          self ∙ kill_one_lem (t p),
          λ i other. ground (arith, other),
        ))
  | inr e ↦ rw e (
      Killed-suc n p pid t (kill_loop n (p + 1) pid t) (ground (arith, e))
        (kill_loop-Killed n (p + 1) pid t))
]

-- `kill` of a number that an entry of the table has returns 0: the first such entry is killed, and
-- may run if it was asleep, and else keeps its state; the rest of it and all other entries are as
-- before. Of a number that none has it returns -1 and changes nothing.
pub kill-Killed : (pid : ℕ) (t : Procs) → Killed nproc 0 pid t (kill pid t)
unfolding kill
kill-Killed pid t = kill_loop-Killed nproc 0 pid t

wake_one-running :
    (chan : Chan) (p : Proc) → is_running p.state ≡ true → is_running (wake_one chan p).state ≡ true
unfolding wake_one
wake_one-running chan p e = ground (arith, e)

-- Who runs goes on running.
pub wakeup-running :
    (chan : Chan) (t : Procs) (q : ℕ)
    → is_running (t q).state ≡ true
    → is_running (wakeup chan t q).state ≡ true
unfolding wakeup
wakeup-running chan t q e = elim (Bool-cases (leb 0 q && ltb q (0 + nproc))) [
  | inl h ↦ rw (each_lem (λ _. wake_one chan) nproc 0 t q) (rw h (wake_one-running chan (t q) e))
  | inr h ↦ rw (each_lem (λ _. wake_one chan) nproc 0 t q) (rw h e)
]

kill_loop-running :
    (n p pid : ℕ) (t : Procs) (q : ℕ)
    → is_running (t q).state ≡ true
    → is_running ((kill_loop n p pid t).1 q).state ≡ true
unfolding kill_loop kill_one
kill_loop-running zero p pid t q e = e
kill_loop-running (suc n) p pid t q e = ground (arith, kill_loop-running n (p + 1) pid t q e, e)

pub kill-running :
    (pid : ℕ) (t : Procs) (q : ℕ)
    → is_running (t q).state ≡ true
    → is_running ((kill pid t).1 q).state ≡ true
unfolding kill
kill-running pid t q e = kill_loop-running nproc 0 pid t q e
