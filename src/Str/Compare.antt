-- ===== src/Str/Compare.antt =====
-- What `memcmp`, `strncmp` and `strlen` compute.
use mitcppos.Prelude.{
  ℕ, zero, suc, ◌+◌, ◌≤◌, ◌<◌, ◌≡◌, ◌≢◌, refl, ◌↔◌, arith, some, List, [], ◌∷◌, length, ◌==◌,
  if◌then◌else◌,
}
use mitcppos.Prelude.Int.{pos}
use mitcppos.Mem.{Mem}
use mitcppos.Str.{memcmp, strncmp, strlen_from, strlen}

-- The C string at `s`: its bytes up to the first NUL, `n` of them at most.
unfoldable pub c_string : (n : ℕ) → Mem → (s : ℕ) → List ℕ
c_string zero m s = []
c_string (suc n) m s = let rest = c_string n m (s + 1) in if m s == 0 then [] else m s ∷ rest

-- the `n` bytes from `a` on
unfoldable pub bytes : (n : ℕ) → Mem → (a : ℕ) → List ℕ
bytes zero m a = []
bytes (suc n) m a = m a ∷ bytes n m (a + 1)

-- `memcmp` returns 0 exactly when the two ranges of `n` bytes hold the same bytes.
pub memcmp-eq-zero :
    (m : Mem) (n s1 s2 : ℕ) → (memcmp m n s1 s2 ≡ pos 0) ↔ (bytes n m s1 ≡ bytes n m s2)
unfolding memcmp bytes
memcmp-eq-zero m zero s1 s2 = ground arith
memcmp-eq-zero m (suc n) s1 s2 = ground (arith, memcmp-eq-zero m n (s1 + 1) (s2 + 1))

-- `strncmp` returns 0 exactly when the C strings at `p` and `q`, cut at `n` bytes, are the same.
pub strncmp-eq-zero :
    (m : Mem) (n p q : ℕ) → (strncmp m n p q ≡ pos 0) ↔ (c_string n m p ≡ c_string n m q)
unfolding strncmp c_string
strncmp-eq-zero m zero p q = ground arith
strncmp-eq-zero m (suc n) p q = ground (arith, strncmp-eq-zero m n (p + 1) (q + 1))

strlen_from_lem :
    (fuel : ℕ) (m : Mem) (s n k : ℕ)
    → ((a : ℕ) → s + n ≤ a → a < s + n + k → m a ≢ 0)
    → m (s + n + k) ≡ 0
    → k < fuel
    → strlen_from fuel m s n ≡ some (n + k)
unfolding strlen_from
strlen_from_lem zero m s n k h e f = absurd (omega arith)
strlen_from_lem (suc fuel) m s n zero h e f = ground arith
strlen_from_lem (suc fuel) m s n (suc k) h e f = ground (
  arith,
  h (s + n),
  strlen_from_lem fuel m s (n + 1) k (λ a p q. h a (omega arith) (omega arith)) (ground arith)
      (omega arith),
)

-- With the first NUL `k` bytes behind `s`, and more than `k` rounds of fuel, `strlen` returns `k`.
pub strlen_lem :
    (fuel : ℕ) (m : Mem) (s k : ℕ)
    → ((a : ℕ) → s ≤ a → a < s + k → m a ≢ 0)
    → m (s + k) ≡ 0
    → k < fuel
    → strlen fuel m s ≡ some k
unfolding strlen
strlen_lem fuel m s k h e f = ground (
  arith,
  strlen_from_lem fuel m s 0 k (λ a p q. h a (omega arith) (omega arith)) (ground arith) f,
)

-- The C string depends only on the bytes that it is read from.
pub c_string_same :
    (n : ℕ) (m m' : Mem) (s : ℕ)
    → ((a : ℕ) → s ≤ a → a < s + n → m' a ≡ m a)
    → c_string n m' s ≡ c_string n m s
unfolding c_string
c_string_same zero m m' s h = refl
c_string_same (suc n) m m' s h =
    ground (arith, h s, c_string_same n m m' (s + 1) (λ a p q. h a (omega arith) (omega arith)))

pub length-c_string-le : (n : ℕ) (m : Mem) (s : ℕ) → length (c_string n m s) ≤ n
unfolding c_string
length-c_string-le zero m s = omega arith
length-c_string-le (suc n) m s = ground (arith, length-c_string-le n m (s + 1))
