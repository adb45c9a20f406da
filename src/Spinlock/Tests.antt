-- ===== src/Spinlock/Tests.antt =====
-- Two processors at one lock, and a nest of three calls of `push_off`.
use mitcppos.Prelude.{ℕ, ◌≡◌, refl, true, false, arith}
use mitcppos.Spinlock.{Cpu, initlock, holding, test_and_set, acquire_done}
use mitcppos.Spinlock.Nesting.{Quiet}
use mitcppos.Spinlock.Exclusion.{
  System, Reach, here, next, start, enters, takes, gets_in, spinning, taken, inside, move, owns,
  mutual_exclusion,
}

abbrev both_spin : System
both_spin = record start { place = move 1 spinning (move 0 spinning start.place) }

abbrev zero_inside : System
zero_inside = record {
  lock = acquire_done 0 (test_and_set both_spin.lock).1;
  place = move 0 inside (move 0 taken both_spin.place);
}

zero_inside-Reach : Reach zero_inside
unfolding initlock holding test_and_set
zero_inside-Reach =
    next (next (next (next here (enters 0 refl refl)) (enters 1 refl refl)) (takes 0 refl refl))
      (gets_in 0 refl)

abbrev zero_cpu : ℕ
zero_cpu = 0

mutual_exclusion_example : zero_cpu ≡ zero_cpu
unfolding owns
mutual_exclusion_example = mutual_exclusion zero_inside-Reach zero_cpu zero_cpu refl refl

abbrev enabled : Cpu
enabled = record { noff = 0; intena = false; intr = true }

enabled-Quiet : Quiet enabled
unfolding Quiet
enabled-Quiet = λ h. absurd (omega (arith, h))
