-- ===== src/Spinlock/Nesting.antt =====
-- `push_off` and `pop_off` are matched: as many calls of the one undo those of the other.
use mitcppos.Prelude.{
  ap, ℕ, zero, suc, ◌+◌, ◌-◌, ◌<◌, ◌&&◌, ◌≡◌, refl, ◌∙◌, false, arith, Outcome, ok, ◌>>=◌,
  if◌then◌else◌, ltb, ◌==◌,
}
use mitcppos.Spinlock.{Cpu, push_off, pop_off}

unfoldable pub push_n : ℕ → Cpu → Cpu
push_n zero c = c
push_n (suc n) c = push_off (push_n n c)

unfoldable pub pop_n : ℕ → Cpu → Outcome Cpu
pop_n zero c = ok c
pop_n (suc n) c = pop_off c >>= pop_n n

-- Within a nest of calls the interrupts are off.
unfoldable pub Quiet : Cpu → Type 0
Quiet c = 0 < c.noff → c.intr ≡ false

push_n-Quiet : (n : ℕ) (c : Cpu) → Quiet c → Quiet (push_n n c)
unfolding Quiet push_n push_off
push_n-Quiet zero c q = q
push_n-Quiet (suc n) c q = λ h. refl

-- one pair of calls
pub settled : Cpu → Cpu
settled c = record c { intena = if c.noff == 0 then c.intr else c.intena }

settled-push_off : (c : Cpu) → settled (push_off c) ≡ push_off c
unfolding settled push_off
settled-push_off c = let deep : (c.noff + 1 == 0) ≡ false = ground arith in rw deep refl

pair_undone : (c : Cpu) → Quiet c → pop_off (push_off c) ≡ ok (settled c)
unfolding Quiet pop_off push_off settled
pair_undone c q =
    let enough : ltb (c.noff + 1) 1 ≡ false = ground arith in
    let back : c.noff + 1 - 1 ≡ c.noff = omega arith in
    let enabled : ((c.noff + 1 == 1) && (if c.noff == 0 then c.intr else c.intena)) ≡ c.intr =
      ground (arith, q) in
    rw (enough, back, enabled) refl

-- On a processor whose interrupts are off within a nest of calls, `n` calls of `push_off` and then
-- `n` of `pop_off` do not panic, and leave the depth and the interrupt flag as they were.
pub pop_n-push_n :
    (n : ℕ) (c : Cpu)
    → Quiet c
    → (c' : Cpu) × (pop_n n (push_n n c) ≡ ok c') × (c'.noff ≡ c.noff) × (c'.intr ≡ c.intr)
unfolding pop_n push_n settled
pop_n-push_n zero c q = (c, refl, refl, refl)
pop_n-push_n (suc zero) c q = (settled c, ap (◌>>= pop_n zero) (pair_undone c q), refl, refl)
pop_n-push_n (suc (suc n)) c q =
    let (c', run, same, intr) = pop_n-push_n (suc n) c q in
    (
      c',
      ap (◌>>= pop_n (suc n)) (pair_undone (push_n (suc n) c) (push_n-Quiet (suc n) c q))
          ∙ ap (pop_n (suc n)) (settled-push_off (push_n n c))
          ∙ run,
      same,
      intr,
    )
