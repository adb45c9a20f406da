-- ===== src/Mem.antt =====
-- Byte-addressed memory, and the little-endian words that the kernel keeps in it. The source reads
-- and writes through pointers; a pointer is an address, and a byte is a number below 256.
use native.Mathlib.Nat.{pow-suc}
use mitcppos.Prelude.{
  ℕ, zero, suc, ◌+◌, ◌*◌, ◌/◌, ◌%◌, ◌^◌, ◌≤◌, ◌<◌, ◌≡◌, refl, ◌⊎◌, arith, ◌==◌, if◌then◌else◌,
}

abbrev pub Mem : Type 0
Mem = ℕ → ℕ

-- `*a = v` for a byte `v`
abbrev pub store : Mem → ℕ → ℕ → Mem
store m a v = λ b. if b == a then v else m b

pub store_self : (m : Mem) (a v : ℕ) → store m a v a ≡ v
store_self m a v = ground arith

-- The number that the `n` bytes from `a` on stand for, lowest byte first.
unfoldable pub load_le : ℕ → Mem → ℕ → ℕ
load_le zero m a = 0
load_le (suc n) m a = m a + 256 * load_le n m (a + 1)

unfoldable pub store_le : ℕ → Mem → ℕ → ℕ → Mem
store_le zero m a v = m
store_le (suc n) m a v = store_le n (store m a (v % 256)) (a + 1) (v / 256)

-- `uint64` and `uint` accesses
abbrev pub load64 : Mem → ℕ → ℕ
load64 m a = load_le 8 m a

abbrev pub store64 : Mem → ℕ → ℕ → Mem
store64 m a v = store_le 8 m a v

abbrev pub load32 : Mem → ℕ → ℕ
load32 m a = load_le 4 m a

abbrev pub store32 : Mem → ℕ → ℕ → Mem
store32 m a v = store_le 4 m a v

-- A store changes only its own bytes.
pub store_le_outside :
    (n : ℕ) (m : Mem) (a v b : ℕ) → (b < a) ⊎ (a + n ≤ b) → store_le n m a v b ≡ m b
unfolding store_le
store_le_outside zero m a v b h = refl
store_le_outside (suc n) m a v b h =
    ground (arith, store_le_outside n (store m a (v % 256)) (a + 1) (v / 256) b)

-- A load depends only on its own bytes.
pub load_le_same :
    (n : ℕ) (m m' : Mem) (a : ℕ)
    → ((b : ℕ) → a ≤ b → b < a + n → m b ≡ m' b)
    → load_le n m a ≡ load_le n m' a
unfolding load_le
load_le_same zero m m' a h = refl
load_le_same (suc n) m m' a h = omega (
  arith,
  h a (omega arith) (omega arith),
  load_le_same n m m' (a + 1) (λ b p q. h b (omega arith) (omega arith)),
)

pub load-store_outside :
    (n k : ℕ) (m : Mem) (a b v : ℕ)
    → (b + n ≤ a) ⊎ (a + k ≤ b)
    → load_le n (store_le k m a v) b ≡ load_le n m b
load-store_outside n k m a b v h =
    load_le_same n (store_le k m a v) m b λ c p q. store_le_outside k m a v c (ground arith)

-- What is stored is loaded again, if it fits.
pub load-store_self : (n : ℕ) (m : Mem) (a v : ℕ) → v < 256 ^ n → load_le n (store_le n m a v) a ≡ v
unfolding load_le store_le
load-store_self zero m a v h = omega arith
load-store_self (suc n) m a v h =
    let m' = store m a (v % 256) in
    omega (
      arith,
      store_le_outside n m' (a + 1) (v / 256) a (omega arith),
      load-store_self n m' (a + 1) (v / 256) (omega (arith, pow-suc 256 n)),
      store_self m a (v % 256),
    )

pub load_le-zero :
    (n : ℕ) (m : Mem) (a : ℕ) → ((b : ℕ) → a ≤ b → b < a + n → m b ≡ 0) → load_le n m a ≡ 0
unfolding load_le
load_le-zero zero m a h = refl
load_le-zero (suc n) m a h = omega (
  arith,
  h a (omega arith) (omega arith),
  load_le-zero n m (a + 1) (λ b p q. h b (omega arith) (omega arith)),
)
