-- ===== src/Str/Length.antt =====
-- What `strlen` of kernel/string.c counts.
use mitcppos.Prelude.{
  ℕ, zero, suc, ◌+◌, ◌<◌, ◌≡◌, ◌≢◌, refl, ◌∙◌, true, false, some, arith, ◌==◌, Bool-cases, inl, inr,
}
use mitcppos.Mem.{Mem}
use mitcppos.Str.{strlen, strlen_from}

-- The bytes at `s` are a string of `n` characters and its NUL.
pub record IsString (m : Mem) (s n : ℕ) : Type 0 where
  pub nul : m (s + n) ≡ 0
  pub chars : (i : ℕ) → i < n → m (s + i) ≢ 0

strlen_from-some :
    (fuel : ℕ) (m : Mem) (s n j : ℕ)
    → n < fuel
    → m (s + (j + n)) ≡ 0
    → ((i : ℕ) → i < n → m (s + (j + i)) ≢ 0)
    → strlen_from fuel m s j ≡ some (j + n)
unfolding strlen_from
strlen_from-some zero m s n j h nul chars = absurd (omega (arith, h))
strlen_from-some (suc fuel) m s zero j h nul chars =
    let at : j + 0 ≡ j = omega arith in
    let e : (m (s + j) == 0) ≡ true = ground (arith, at, nul) in rw (e, at) refl
strlen_from-some (suc fuel) m s (suc n) j h nul chars =
    let at : j + 0 ≡ j = omega arith in
    let e : (m (s + j) == 0) ≡ false = let c = chars 0 (omega arith) in ground (arith, at, c) in
    let next : j + suc n ≡ j + 1 + n = omega arith in
    rw (e, next)
      (strlen_from-some fuel m s n (j + 1) (omega (arith, h)) (rw (← next) nul) (λ i lt.
        let up : j + 1 + i ≡ j + suc i = omega arith in rw up (chars (suc i) (omega (arith, lt)))))

pub strlen-some :
    (fuel : ℕ) (m : Mem) (s n : ℕ) → n < fuel → IsString m s n → strlen fuel m s ≡ some n
unfolding strlen
strlen-some fuel m s n h str =
    let from : (i : ℕ) → 0 + i ≡ i = λ i. omega arith in
    strlen_from-some fuel m s n 0 h (rw (from n) str.nul) (λ i lt. rw (from i) (str.chars i lt))
    ∙ rw (from n) refl

strlen_from-lt : (fuel : ℕ) (m : Mem) (s j n : ℕ) → strlen_from fuel m s j ≡ some n → n < j + fuel
unfolding strlen_from
strlen_from-lt zero m s j n h = absurd (ground (arith, h))
strlen_from-lt (suc fuel) m s j n h = elim (Bool-cases (m (s + j) == 0)) [
  | inl e ↦ let its : j ≡ n = ground (arith, e, h) in omega (arith, its)
  | inr e ↦ let l = strlen_from-lt fuel m s (j + 1) n (ground (arith, e, h)) in omega (arith, l)
]

pub strlen-lt : (fuel : ℕ) (m : Mem) (s n : ℕ) → strlen fuel m s ≡ some n → n < fuel
unfolding strlen
strlen-lt fuel m s n h = let l = strlen_from-lt fuel m s 0 n h in omega (arith, l)
