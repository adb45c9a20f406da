-- ===== src/Prelude/Rings.antt =====
-- What stands in a ring buffer: its characters between two indices that only grow, each at its
-- remainder by the size.
use Prim.Native.Nat.{ℕ, zero, suc, ◌+◌, ◌%◌, ◌≤◌, ◌<◌}
use mathlib.Core.Path.{◌≡◌, refl, ap, ◌∙◌}
use mathlib.Core.Bool.{false}
use mathlib.Core.List.{List, [], ◌∷◌, ◌++◌}
use native.Mathlib.Omega.{arith}
use mitcppos.Prelude.Tests.{◌==◌, if◌then◌else◌}
use mitcppos.Prelude.Lists.{length}

module _ (size : ℕ) where
  -- The `n` characters of the ring from `i` on.
  unfoldable pub slice : (n i : ℕ) → (ℕ → ℕ) → List ℕ
  slice zero i buf = []
  slice (suc n) i buf = buf (i % size) ∷ slice n (i + 1) buf

  pub slice_more :
      (n i : ℕ) (buf : ℕ → ℕ) → slice (suc n) i buf ≡ slice n i buf ++ buf ((i + n) % size) ∷ []
  unfolding slice
  slice_more zero i buf = let at : i + 0 ≡ i = omega arith in rw at refl
  slice_more (suc n) i buf =
      let at : i + 1 + n ≡ i + suc n = omega arith in
      ap (buf (i % size) ∷◌) (slice_more n (i + 1) buf ∙ rw at refl)

  pub slice_join :
      (m n i : ℕ) (buf : ℕ → ℕ) → slice (m + n) i buf ≡ slice m i buf ++ slice n (i + m) buf
  unfolding slice
  slice_join zero n i buf =
      let at : i + 0 ≡ i = omega arith in
      let none_more : 0 + n ≡ n = omega arith in rw (at, none_more) refl
  slice_join (suc m) n i buf =
      let at : i + 1 + m ≡ i + suc m = omega arith in
      let more : suc m + n ≡ suc (m + n) = omega arith in
      rw more (ap (buf (i % size) ∷◌) (slice_join m n (i + 1) buf ∙ rw at refl))

  pub length-slice : (n i : ℕ) (buf : ℕ → ℕ) → length (slice n i buf) ≡ n
  unfolding slice
  length-slice zero i buf = refl
  length-slice (suc n) i buf = ap suc (length-slice n (i + 1) buf)

  -- Indices within one turn of the ring have different places.
  unfoldable pub Turning : Type 0
  Turning = (i j : ℕ) → i < j → j < i + size → (i % size == j % size) ≡ false

  -- A store behind the slice, in the same turn.
  pub slice_store :
      Turning
      → (n i j c : ℕ) (buf : ℕ → ℕ) → i + n ≤ j
      → j < i + size
      → slice n i (λ k. if k == j % size then c else buf k) ≡ slice n i buf
  unfolding slice Turning
  slice_store turning zero i j c buf a b = refl
  slice_store turning (suc n) i j c buf a b = rw (turning i j (omega (arith, a)) b) (
      ap (buf (i % size) ∷◌)
        (slice_store turning n (i + 1) j c buf (omega (arith, a)) (omega (arith, b))))
