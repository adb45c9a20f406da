-- ===== src/Fs/Blocks/Search.antt =====
-- The bitmap of kernel/fs.c as a set: what one bit does, and the search for a clear one.
use mitcppos.Prelude.{
  ℕ, zero, suc, ◌+◌, ◌/◌, ◌%◌, ◌≤◌, ◌<◌, ◌≡◌, refl, ◌∙◌, ap, inl, inr, true, false, Option, none,
  some, ◌==◌, if◌then◌else◌, arith, Bool-cases,
}
use mitcppos.Mem.{Mem}
use mitcppos.Fs.Blocks.{test_bit, set_bit, clear_bit, clear_from}
use mitcppos.Fs.Blocks.Bits.{flag-or, flag-sub}

pub test_bit-set_bit :
    (bytes : Mem) (i j : ℕ)
    → test_bit (set_bit bytes i) j ≡ (if j == i then true else test_bit bytes j)
test_bit-set_bit bytes i j = elim (Bool-cases (j / 8 == i / 8)) [
  | inl e ↦
      let same : j / 8 ≡ i / 8 = ground (arith, e) in
      let which : (j % 8 == i % 8) ≡ (j == i) = ground (arith, same) in
      rw e (flag-or (j % 8) (i % 8) (bytes (i / 8)) ∙ rw (which, same) refl)
  | inr e ↦ let other : (j == i) ≡ false = ground (arith, e) in rw (e, other) refl
]

pub test_bit-clear_bit :
    (bytes : Mem) (i j : ℕ)
    → test_bit bytes i ≡ true
    → test_bit (clear_bit bytes i) j ≡ (if j == i then false else test_bit bytes j)
test_bit-clear_bit bytes i j h = elim (Bool-cases (j / 8 == i / 8)) [
  | inl e ↦
      let same : j / 8 ≡ i / 8 = ground (arith, e) in
      let which : (j % 8 == i % 8) ≡ (j == i) = ground (arith, same) in
      rw e (flag-sub (j % 8) (i % 8) (bytes (i / 8)) h ∙ rw (which, same) refl)
  | inr e ↦ let other : (j == i) ≡ false = ground (arith, e) in rw (e, other) refl
]

-- What the search finds: the first clear bit, or that all are set.
unfoldable pub Searched : (n bi : ℕ) → Mem → Option ℕ → Type 0
Searched n bi bytes none = (i : ℕ) → bi ≤ i → i < bi + n → test_bit bytes i ≡ true
Searched n bi bytes (some j) =
    (bi ≤ j)
    × (j < bi + n)
    × (test_bit bytes j ≡ false)
    × ((i : ℕ) → bi ≤ i → i < j → test_bit bytes i ≡ true)

from_first :
    (bi : ℕ) (bytes : Mem) (end : ℕ)
    → test_bit bytes bi ≡ true
    → ((i : ℕ) → bi + 1 ≤ i → i < end → test_bit bytes i ≡ true)
    → (i : ℕ) → bi ≤ i
    → i < end
    → test_bit bytes i ≡ true
from_first bi bytes end e h i lo hi = elim (Bool-cases (i == bi)) [
  | inl f ↦ let same : i ≡ bi = ground (arith, f) in ap (test_bit bytes) same ∙ e
  | inr f ↦ h i (ground (arith, f, lo)) hi
]

Searched-suc :
    (n bi : ℕ) (bytes : Mem) (o : Option ℕ)
    → test_bit bytes bi ≡ true
    → Searched n (bi + 1) bytes o
    → Searched (suc n) bi bytes o
unfolding Searched
Searched-suc n bi bytes none e h =
    from_first bi bytes (bi + suc n) e (λ i lo hi. h i lo (omega (arith, hi)))
Searched-suc n bi bytes (some j) e (lo, hi, free, before) =
    (omega (arith, lo), omega (arith, hi), free, from_first bi bytes j e before)

pub clear_from-Searched : (n bi : ℕ) (bytes : Mem) → Searched n bi bytes (clear_from n bi bytes)
unfolding clear_from Searched
clear_from-Searched zero bi bytes = λ i lo hi. absurd (omega (arith, lo, hi))
clear_from-Searched (suc n) bi bytes = elim (Bool-cases (test_bit bytes bi)) [
  | inl e ↦ rw e (
      Searched-suc n bi bytes (clear_from n (bi + 1) bytes) e
        (clear_from-Searched n (bi + 1) bytes))
  | inr e ↦ rw e (omega arith, omega arith, e, λ i lo hi. absurd (omega (arith, lo, hi)))
]
