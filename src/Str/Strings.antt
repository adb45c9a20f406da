-- ===== src/Str/Strings.antt =====
-- What `strncpy` and `safestrcpy` leave at the destination, if the two ranges do not overlap.
use mitcppos.Prelude.{
  ℕ, zero, suc, ◌+◌, ◌-◌, ◌≤◌, ◌<◌, ◌≡◌, false, ap, ◌⊎◌, arith, ltb, length, Bool-cases, inl, inr,
  ◌==◌, if◌then◌else◌,
}
use mitcppos.Prelude.Int.{ℤ, pos, negsuc, pos_part}
use mitcppos.Mem.{Mem, store}
use mitcppos.Str.{pad, strncpy_loop, strncpy, safestrcpy_loop, safestrcpy}
use mitcppos.Str.Copy.{within}
use mitcppos.Str.Compare.{c_string, c_string_same, length-c_string-le}

pad_lem : (n : ℕ) (m : Mem) (s a : ℕ) → pad n m s a ≡ (if within s n a then 0 else m a)
unfolding pad
pad_lem zero m s a = ground arith
pad_lem (suc n) m s a = ground (arith, pad_lem n (store m s 0) (s + 1) a)

-- the `n` bytes from `s` on and those from `t` on
abbrev pub Apart : (s t n : ℕ) → Type 0
Apart s t n = (s + n ≤ t) ⊎ (t + n ≤ s)

strncpy_loop_lem :
    (n : ℕ) (m : Mem) (s t a : ℕ)
    → Apart s t n
    → strncpy_loop n m s t a ≡ (
        if within s n a
        then (if ltb (a - s) (length (c_string n m t)) then m (t + (a - s)) else 0)
        else m a)
unfolding strncpy_loop c_string
strncpy_loop_lem zero m s t a h = ground arith
strncpy_loop_lem (suc n) m s t a h = elim (Bool-cases (m t == 0)) [
  | inl e ↦ rw e (ground (arith, pad_lem n (store m s (m t)) (s + 1) a))
  | inr e ↦
      let same = c_string_same n m (store m s (m t)) (t + 1) (λ b p q. ground arith) in
      let rest = strncpy_loop_lem n (store m s (m t)) (s + 1) (t + 1) a (ground arith) in
      rw e (rw rest (rw same (ground arith)))
]

-- For ranges that do not overlap, `strncpy` fills the `n` bytes from `s` on: first the C string at
-- `t`, cut at `n` bytes, then NULs. It writes nowhere else, and nothing at all for a negative `n`.
pub strncpy_lem :
    (m : Mem) (s t : ℕ) (n : ℤ) (a : ℕ)
    → Apart s t (pos_part n)
    → strncpy m s t n a ≡ (
        if within s (pos_part n) a
        then (if ltb (a - s) (length (c_string (pos_part n) m t)) then m (t + (a - s)) else 0)
        else m a)
unfolding strncpy
strncpy_lem m s t n a h = strncpy_loop_lem (pos_part n) m s t a h

safestrcpy_loop_outside :
    (n : ℕ) (m : Mem) (s t a : ℕ) → within s (suc n) a ≡ false → safestrcpy_loop n m s t a ≡ m a
unfolding safestrcpy_loop
safestrcpy_loop_outside zero m s t a h = ground arith
safestrcpy_loop_outside (suc n) m s t a h =
    ground (arith, safestrcpy_loop_outside n (store m s (m t)) (s + 1) (t + 1) a)

safestrcpy_loop_lem :
    (n : ℕ) (m : Mem) (s t : ℕ)
    → Apart s t (suc n)
    → c_string (suc n) (safestrcpy_loop n m s t) s ≡ c_string n m t
unfolding safestrcpy_loop c_string
safestrcpy_loop_lem zero m s t h = ground arith
safestrcpy_loop_lem (suc n) m s t h = ground (
  arith,
  safestrcpy_loop_outside n (store m s (m t)) (s + 1) (t + 1) s,
  safestrcpy_loop_lem n (store m s (m t)) (s + 1) (t + 1) (ground arith),
  c_string_same n m (store m s (m t)) (t + 1) (λ b p q. ground arith),
)

-- For `n` above 0, and ranges of `n` bytes that do not overlap, `safestrcpy` leaves at `s` the C
-- string at `t`, cut at `n - 1` bytes and ended by a NUL within the `n` bytes, and writes nowhere
-- else.
pub safestrcpy_lem :
    (m : Mem) (s t : ℕ) (n : ℤ)
    → 0 < pos_part n
    → Apart s t (pos_part n)
    → (c_string (pos_part n) (safestrcpy m s t n) s ≡ c_string (pos_part n - 1) m t)
      × (length (c_string (pos_part n) (safestrcpy m s t n) s) < pos_part n)
      × ((a : ℕ) → within s (pos_part n) a ≡ false → safestrcpy m s t n a ≡ m a)
unfolding safestrcpy
safestrcpy_lem m s t (negsuc _) p h = absurd (omega arith)
safestrcpy_lem m s t (pos zero) p h = absurd (omega arith)
safestrcpy_lem m s t (pos (suc k)) p h =
    let e : suc k - 1 ≡ k = omega arith in
    let nonzero : (suc k == 0) ≡ false = ground arith in
    let same : c_string (suc k) (safestrcpy_loop k m s t) s ≡ c_string k m t =
      safestrcpy_loop_lem k m s t h in
    rw (e, nonzero)
      (
        same,
        omega (arith, ap length same, length-c_string-le k m t),
        λ a out. safestrcpy_loop_outside k m s t a out,
      )
