-- ===== src/Proc/Schedule.antt =====
-- The processors and the processes of kernel/proc.c: every change of a process's state, in any order.
use mitcppos.Prelude.{ℕ, ◌≡◌, true, Option, none, some, ◌==◌, if◌then◌else◌, arith}
use mitcppos.Proc.{
  Procs, unused, runnable, running, zombie, Chan, process, is_running, is_runnable, is_unused,
  is_zombie, put_proc, wakeup, wake_one, kill, yield, sleep_enter, pick, unpick,
}
use mitcppos.Proc.Table.{wakeup-running, kill-running}

pub record System : Type 0 where
  pub procs : Procs
  pub cpu_proc : ℕ → Option ℕ

abbrev system : Procs → (ℕ → Option ℕ) → System
system t c = record { procs = t; cpu_proc = c }

-- A processor takes a process or is given back by its process; or a process, wherever it runs,
-- changes the table: `wakeup`, `wakeup1`, `kill`, the last line of `fork`, and `freeproc` of a zombie.
pub data Step : System → System → Type 0 where
  picks :
      {t t' : Procs} {c c' : ℕ → Option ℕ} (cpu p : ℕ)
      → c cpu ≡ none
      → pick cpu p t c ≡ some (t', c')
      → Step (system t c) (system t' c')
  yields :
      {t : Procs} {c : ℕ → Option ℕ} (cpu p : ℕ)
      → c cpu ≡ some p
      → Step (system t c) (system (put_proc p (yield (t p)) t) (unpick cpu c))
  sleeps :
      {t : Procs} {c : ℕ → Option ℕ} (cpu p : ℕ) (chan : Chan)
      → c cpu ≡ some p
      → Step (system t c) (system (put_proc p (sleep_enter chan (t p)) t) (unpick cpu c))
  exits :
      {t : Procs} {c : ℕ → Option ℕ} (cpu p : ℕ)
      → c cpu ≡ some p
      → Step (system t c) (system (put_proc p (record (t p) { state = zombie }) t) (unpick cpu c))
  wakes :
      {t : Procs} {c : ℕ → Option ℕ} (chan : Chan) → Step (system t c) (system (wakeup chan t) c)
  wakes_parent :
      {t : Procs} {c : ℕ → Option ℕ} (p : ℕ)
      → Step (system t c) (system (put_proc p (wake_one (process p) (t p)) t) c)
  kills : {t : Procs} {c : ℕ → Option ℕ} (pid : ℕ) → Step (system t c) (system (kill pid t).1 c)
  forks :
      {t : Procs} {c : ℕ → Option ℕ} (p : ℕ)
      → is_unused (t p).state ≡ true
      → Step (system t c) (system (put_proc p (record (t p) { state = runnable }) t) c)
  frees :
      {t : Procs} {c : ℕ → Option ℕ} (p : ℕ)
      → is_zombie (t p).state ≡ true
      → Step (system t c) (system (put_proc p (record (t p) { state = unused }) t) c)

pub data Reach (s : System) : System → Type 0 where
  here : Reach s s
  next : {t u : System} → Reach s t → Step t u → Reach s u

-- A processor's process is RUNNING, and no other processor's.
pub record Apart (s : System) : Type 0 where
  pub one : (c d p : ℕ) → s.cpu_proc c ≡ some p → s.cpu_proc d ≡ some p → c ≡ d
  pub runs : (c p : ℕ) → s.cpu_proc c ≡ some p → is_running (s.procs p).state ≡ true

pick-some :
    (cpu p : ℕ) (t t' : Procs) (c c' : ℕ → Option ℕ)
    → pick cpu p t c ≡ some (t', c')
    → (is_runnable (t p).state ≡ true)
      × (t' ≡ put_proc p (record (t p) { state = running }) t)
      × (c' ≡ λ d. if d == cpu then some p else c d)
unfolding pick
pick-some cpu p t t' c c' e = ground (arith, e)

Step-Apart : {s u : System} → Step s u → Apart s → Apart u
unfolding pick unpick yield sleep_enter wake_one
Step-Apart (picks {t = t} {t' = t'} {c = c} {c' = c'} cpu p idle e) v =
    let (ready, new_procs, new_cpus) = pick-some cpu p t t' c c' e in
    rw (new_procs, new_cpus)
      (record {
        one = λ a b q f g. ground (arith, ready, v.one a b q, v.runs a p, v.runs b p, f, g);
        runs = λ a q f. ground (arith, v.runs a q, f);
      })
Step-Apart (yields {t = t} {c = c} cpu p e) v = record {
  one = λ a b q f g. ground (arith, v.one a b q, f, g);
  runs = λ a q f. ground (arith, v.runs a q, v.one a cpu q, e, f);
}
Step-Apart (sleeps {t = t} {c = c} cpu p chan e) v = record {
  one = λ a b q f g. ground (arith, v.one a b q, f, g);
  runs = λ a q f. ground (arith, v.runs a q, v.one a cpu q, e, f);
}
Step-Apart (exits {t = t} {c = c} cpu p e) v = record {
  one = λ a b q f g. ground (arith, v.one a b q, f, g);
  runs = λ a q f. ground (arith, v.runs a q, v.one a cpu q, e, f);
}
Step-Apart (wakes {t = t} {c = c} chan) v = record {
  one = v.one;
  runs = λ a q f. wakeup-running chan t q (v.runs a q f);
}
Step-Apart (wakes_parent {t = t} {c = c} p) v = record {
  one = v.one;
  runs = λ a q f. ground (arith, v.runs a q f);
}
Step-Apart (kills {t = t} {c = c} pid) v = record {
  one = v.one;
  runs = λ a q f. kill-running pid t q (v.runs a q f);
}
Step-Apart (forks {t = t} {c = c} p e) v = record {
  one = v.one;
  runs = λ a q f. ground (arith, v.runs a q f, e);
}
Step-Apart (frees {t = t} {c = c} p e) v = record {
  one = v.one;
  runs = λ a q f. ground (arith, v.runs a q f, e);
}

-- However processors pick processes and processes yield, sleep, exit, wake, kill, fork and free one
-- another: if at first no two processors run the same process and all that they run are in state
-- RUNNING, then so it stays.
pub Reach-Apart : {s u : System} → Reach s u → Apart s → Apart u
Reach-Apart here v = v
Reach-Apart (next r step) v = Step-Apart step (Reach-Apart r v)
