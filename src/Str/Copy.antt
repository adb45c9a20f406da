-- ===== src/Str/Copy.antt =====
-- What `memset` and `memmove` leave in memory.
use mitcppos.Prelude.{
  ℕ, zero, suc, ◌+◌, ◌-◌, ◌%◌, ◌≤◌, ◌<◌, ◌≡◌, ◌⊎◌, inl, inr, arith, Bool, ◌&&◌, ltb, leb,
  if◌then◌else◌, Bool-cases,
}
use mitcppos.Mem.{Mem, store}
use mitcppos.Str.{memset_loop, memset, move_down, move_up, memmove}

-- `a` is one of the `n` addresses from `lo` on
abbrev pub within : (lo n a : ℕ) → Bool
within lo n a = leb lo a && ltb a (lo + n)

memset_loop_lem :
    (k : ℕ) (m : Mem) (d c i a : ℕ)
    → memset_loop k m d c i a ≡ (if within (d + i) k a then c % 256 else m a)
unfolding memset_loop
memset_loop_lem zero m d c i a = ground arith
memset_loop_lem (suc k) m d c i a =
    ground (arith, memset_loop_lem k (store m (d + i) (c % 256)) d c (i + 1) a)

-- `memset` sets the `n` bytes from `dst` on to the low byte of `c`, and no other byte.
pub memset_lem :
    (m : Mem) (dst c n a : ℕ) → memset m dst c n a ≡ (if within dst n a then c % 256 else m a)
unfolding memset
memset_lem m dst c n a = ground (arith, memset_loop_lem n m dst c 0 a)

move_up_lem :
    (n : ℕ) (m : Mem) (d s a : ℕ)
    → (d ≤ s) ⊎ (s + n ≤ d)
    → move_up n m d s a ≡ (if within d n a then m (s + (a - d)) else m a)
unfolding move_up
move_up_lem zero m d s a h = ground arith
move_up_lem (suc n) m d s a h = ground (arith, move_up_lem n (store m d (m s)) (d + 1) (s + 1) a)

move_down_lem :
    (n : ℕ) (m : Mem) (d s a : ℕ)
    → s < d
    → move_down n m (d + n) (s + n) a ≡ (if within d n a then m (s + (a - d)) else m a)
unfolding move_down
move_down_lem zero m d s a h = ground arith
move_down_lem (suc n) m d s a h =
    let e : d + suc n - 1 ≡ d + n = omega arith in
    let e' : s + suc n - 1 ≡ s + n = omega arith in
    rw (e, e') (ground (arith, move_down_lem n (store m (d + n) (m (s + n))) d s a))

-- After `memmove` the `n` bytes from `dst` on are what the `n` bytes from `src` on were before,
-- however the two ranges overlap; no other byte changes.
pub memmove_lem :
    (m : Mem) (dst src n a : ℕ)
    → memmove m dst src n a ≡ (if within dst n a then m (src + (a - dst)) else m a)
unfolding memmove
memmove_lem m dst src n a = elim (Bool-cases (ltb src dst && ltb dst (src + n))) [
  | inl e ↦ rw e (move_down_lem n m dst src a (ground arith))
  | inr e ↦ rw e (move_up_lem n m dst src a (ground arith))
]

pub memmove_byte : (m : Mem) (dst src : ℕ) → memmove m dst src 1 ≡ store m dst (m src)
unfolding memmove move_up
memmove_byte m dst src = ground arith
