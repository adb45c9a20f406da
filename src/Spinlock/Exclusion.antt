-- ===== src/Spinlock/Exclusion.antt =====
-- Mutual exclusion: processors that take and leave one lock, in any interleaving of their
-- instructions.
use mitcppos.Prelude.{
  ℕ, ◌≡◌, ◌↔◌, refl, ◌∙◌, Bool, true, false, none, some, ◌==◌, if◌then◌else◌, arith, ok,
}
use mitcppos.Spinlock.{
  Spinlock, initlock, holding, held_by, test_and_set, acquire_done, release_enter, lock_release,
}

-- Where a processor is: without the lock; in the loop of `acquire`; behind it, but not yet the
-- recorded holder; the holder; in `release`, no longer the recorded holder.
pub data Place : Type 0 where
  away spinning taken inside leaving : Place

-- the lock's word is this processor's
unfoldable pub owns : Place → Bool
owns away = false
owns spinning = false
owns taken = true
owns inside = true
owns leaving = true

pub records : Place → Bool
records inside = true
records _ = false

pub record System : Type 0 where
  pub lock : Spinlock
  pub place : ℕ → Place

abbrev pub move : (me : ℕ) → Place → (ℕ → Place) → ℕ → Place
move me p place = λ c. if c == me then p else place c

pub data Step : System → System → Type 0 where
  enters :
      {s : System} (me : ℕ)
      → s.place me ≡ away
      → holding me s.lock ≡ false
      → Step s (record s { place = move me spinning s.place })
  spins :
      {s : System} (me : ℕ)
      → s.place me ≡ spinning
      → (test_and_set s.lock).0 ≡ true
      → Step s (record s { lock = (test_and_set s.lock).1 })
  takes :
      {s : System} (me : ℕ)
      → s.place me ≡ spinning
      → (test_and_set s.lock).0 ≡ false
      → Step s (record { lock = (test_and_set s.lock).1; place = move me taken s.place })
  gets_in :
      {s : System} (me : ℕ)
      → s.place me ≡ taken
      → Step s (record { lock = acquire_done me s.lock; place = move me inside s.place })
  leaves :
      {s : System} {lock : Spinlock} (me : ℕ)
      → s.place me ≡ inside
      → release_enter me s.lock ≡ ok lock
      → Step s (record { lock = lock; place = move me leaving s.place })
  gets_out :
      {s : System} (me : ℕ)
      → s.place me ≡ leaving
      → Step s (record { lock = lock_release s.lock; place = move me away s.place })

abbrev pub start : System
start = record { lock = initlock; place = λ c. away }

pub data Reach : System → Type 0 where
  here : Reach start
  next : {s t : System} → Reach s → Step s t → Reach t

record Inv (s : System) : Type 0 where
  one : (c d : ℕ) → owns (s.place c) ≡ true → owns (s.place d) ≡ true → c ≡ d
  word : (c : ℕ) → owns (s.place c) ≡ true → s.lock.locked ≡ true
  named : (c : ℕ) → records (s.place c) ≡ true → s.lock.cpu ≡ some c
  only : (c : ℕ) → s.lock.cpu ≡ some c → records (s.place c) ≡ true

owns_of_records : (p : Place) → records p ≡ true → owns p ≡ true
unfolding owns records
owns_of_records p e = ground (arith, e)

inside_of_records : (p : Place) → (records p ≡ true) ↔ (p ≡ inside)
unfolding records
inside_of_records p = ground arith

after_leave :
    (me : ℕ) (lk lk' : Spinlock)
    → release_enter me lk ≡ ok lk'
    → (lk'.locked ≡ lk.locked) × (lk'.cpu ≡ none)
unfolding release_enter
after_leave me lk lk' e = ground (arith, e)

Step-Inv : {s t : System} → Step s t → Inv s → Inv t
unfolding owns records acquire_done test_and_set lock_release release_enter holding held_by
Step-Inv (enters {s = s} me at free) v = record {
  one = λ c d e f. ground (arith, at, v.one c d, e, f);
  word = λ c e. ground (arith, at, v.word c, e);
  named = λ c e. ground (arith, at, v.named c, e);
  only = λ c e. ground (arith, at, v.only c, e);
}
Step-Inv (spins {s = s} me at busy) v = record {
  one = v.one;
  word = λ c e. refl;
  named = v.named;
  only = v.only;
}
Step-Inv (takes {s = s} me at free) v = record {
  one = λ c d e f. ground (arith, at, free, v.word c, v.word d, e, f);
  word = λ c e. refl;
  named = λ c e. ground (arith, at, v.named c, e);
  only = λ c e. ground (arith, at, v.only c, e);
}
Step-Inv (gets_in {s = s} me at) v = record {
  one = λ c d e f. ground (arith, at, v.one c d, v.one c me, v.one me d, e, f);
  word = λ c e. ground (arith, at, v.word c, v.word me, e);
  named = λ c e. ground (arith, at, v.one c me, owns_of_records (s.place c), e);
  only = λ c e. ground (arith, e);
}
Step-Inv (leaves {s = s} {lock = lock} me at e) v =
    let (same_word, nobody) = after_leave me s.lock lock e in
    record {
      one = λ c d f g. ground (arith, at, v.one c d, v.one c me, v.one me d, f, g);
      word = λ c f. same_word ∙ ground (arith, at, v.word c, v.word me, f);
      named = λ c f. ground (arith, at, v.one c me, owns_of_records (s.place c), f);
      only = λ c f. ground (arith, nobody, f);
    }
Step-Inv (gets_out {s = s} me at) v = record {
  one = λ c d e f. ground (arith, at, v.one c d, e, f);
  word = λ c e. ground (arith, at, v.one c me, e);
  named = λ c e. ground (arith, at, v.named c, e);
  only = λ c e. ground (arith, at, v.only c, e);
}

Reach-Inv : {s : System} → Reach s → Inv s
unfolding initlock owns records
Reach-Inv here = record {
  one = λ c d e f. ground (arith, e);
  word = λ c e. ground (arith, e);
  named = λ c e. ground (arith, e);
  only = λ c e. ground (arith, e);
}
Reach-Inv (next r step) = Step-Inv step (Reach-Inv r)

-- In every state that processors reach from a free lock, each taking and releasing it in any
-- interleaving of the instructions of `acquire` and `release`, at most one processor is between its
-- `test_and_set` and its `lock_release`.
pub mutual_exclusion :
    {s : System} → Reach s → (c d : ℕ) → owns (s.place c) ≡ true → owns (s.place d) ≡ true → c ≡ d
mutual_exclusion r = (Reach-Inv r).one

-- In every such state `holding` is true for a processor exactly when it is the recorded holder, so
-- that neither an `acquire` from outside nor a `release` from inside panics.
pub holding_iff :
    {s : System} → Reach s → (me : ℕ) → (holding me s.lock ≡ true) ↔ (s.place me ≡ inside)
unfolding holding held_by owns records
holding_iff {s = s} r me =
    let v = Reach-Inv r in
    ground (arith, v.only me, v.named me, v.word me, inside_of_records (s.place me))
