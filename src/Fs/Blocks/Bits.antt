-- ===== src/Fs/Blocks/Bits.antt =====
-- Bits of a byte: what `|=` and `&= ~` with one bit do to the tests of each.
use Prim.Native.Nat.{bit_or}
use native.Mathlib.Nat.{pow-suc, div-div-eq-div-mul}
use mitcppos.Prelude.{
  ℕ, zero, suc, ◌-◌, ◌/◌, ◌%◌, ◌^◌, ◌≤◌, ◌≡◌, ◌≢◌, sym, ◌∙◌, ap, true, false, not, ◌==◌,
  if◌then◌else◌, arith,
}
use mitcppos.Riscv.{flag}
use mitcppos.Bits.{bit_or_step, bit_or-zero}

-- the bit `k` of `x`, by halving
bit : (k x : ℕ) → ℕ
bit zero x = x % 2
bit (suc k) x = bit k (x / 2)

halve : (k x : ℕ) → x / 2 ^ suc k ≡ x / 2 / 2 ^ k
halve k x = ap (x /◌) (pow-suc 2 k ∙ omega arith) ∙ sym (div-div-eq-div-mul x 2 (2 ^ k))

flag-bit : (k x : ℕ) → flag x (2 ^ k) ≡ not (bit k x == 0)
unfolding bit
flag-bit zero x = ground arith
flag-bit (suc k) x = rw (halve k x) (flag-bit k (x / 2))

bit-or : (j k x : ℕ) → bit j (bit_or x (2 ^ k)) ≡ (if j == k then 1 else bit j x)
unfolding bit
bit-or zero zero x = ground (arith, bit_or_step x 1)
bit-or zero (suc k) x = ground (arith, bit_or_step x (2 ^ suc k), pow-suc 2 k)
bit-or (suc j) zero x =
    let half : bit_or x 1 / 2 ≡ x / 2 = omega (arith, bit_or_step x 1, bit_or-zero (x / 2)) in
    rw half (ground arith)
bit-or (suc j) (suc k) x =
    let whole : 2 ^ suc k / 2 ≡ 2 ^ k = omega (arith, pow-suc 2 k) in
    let step = bit_or_step x (2 ^ suc k) in
    let half : bit_or x (2 ^ suc k) / 2 ≡ bit_or (x / 2) (2 ^ k) =
      omega (arith, step, pow-suc 2 k) ∙ ap (bit_or (x / 2)) whole in
    rw half (ground (arith, bit-or j k (x / 2)))

bit-le : (k x : ℕ) → bit k x ≢ 0 → 2 ^ k ≤ x
unfolding bit
bit-le zero x h = omega (arith, h)
bit-le (suc k) x h = omega (arith, pow-suc 2 k, bit-le k (x / 2) h)

bit-sub : (j k x : ℕ) → bit k x ≢ 0 → bit j (x - 2 ^ k) ≡ (if j == k then 0 else bit j x)
unfolding bit
bit-sub zero zero x h = ground (arith, h)
bit-sub zero (suc k) x h = ground (arith, pow-suc 2 k, bit-le (suc k) x h)
bit-sub (suc j) zero x h =
    let half : (x - 1) / 2 ≡ x / 2 = omega (arith, h) in rw half (ground arith)
bit-sub (suc j) (suc k) x h =
    let half : (x - 2 ^ suc k) / 2 ≡ x / 2 - 2 ^ k = omega (arith, pow-suc 2 k) in
    rw half (ground (arith, bit-sub j k (x / 2) h))

pub flag-or :
    (j k x : ℕ) → flag (bit_or x (2 ^ k)) (2 ^ j) ≡ (if j == k then true else flag x (2 ^ j))
flag-or j k x = rw (flag-bit j (bit_or x (2 ^ k)), flag-bit j x, bit-or j k x) (ground arith)

pub flag-sub :
    (j k x : ℕ)
    → flag x (2 ^ k) ≡ true
    → flag (x - 2 ^ k) (2 ^ j) ≡ (if j == k then false else flag x (2 ^ j))
flag-sub j k x h =
    let here : bit k x ≢ 0 = ground (arith, flag-bit k x, h) in
    rw (flag-bit j (x - 2 ^ k), flag-bit j x, bit-sub j k x here) (ground arith)
