-- ===== src/Str.antt =====
-- kernel/string.c: byte-string routines over memory. `n` of type `int` is an integer, `uint` a
-- natural number; the loops run on the number of rounds that are left.
pub mod Copy
pub mod Compare
pub mod Strings
pub mod Length
mod Tests
use mitcppos.Prelude.{
  ℕ, zero, suc, ◌+◌, ◌-◌, ◌%◌, Bool, true, false, ◌&&◌, Option, none, some, ltb, ◌==◌,
  if◌then◌else◌,
}
use mitcppos.Prelude.Int.{ℤ, pos, pos_part, sub_ℕ}
use mitcppos.Mem.{Mem, store}

memset_loop : (k : ℕ) → Mem → (cdst c i : ℕ) → Mem
memset_loop zero m cdst c i = m
memset_loop (suc k) m cdst c i = memset_loop k (store m (cdst + i) (c % 256)) cdst c (i + 1)

-- `char` keeps the low byte of `c`.
pub memset : Mem → (dst c n : ℕ) → Mem
unfolding memset_loop
memset m dst c n = memset_loop n m dst c 0

-- `return *s1 - *s2` at the first difference
unfoldable pub memcmp : Mem → (n s1 s2 : ℕ) → ℤ
memcmp m zero s1 s2 = pos 0
memcmp m (suc n) s1 s2 =
    let rest = memcmp m n (s1 + 1) (s2 + 1) in if m s1 == m s2 then rest else sub_ℕ (m s1) (m s2)

-- `while(n-- > 0) *--d = *--s;`
move_down : (n : ℕ) → Mem → (d s : ℕ) → Mem
move_down zero m d s = m
move_down (suc n) m d s = move_down n (store m (d - 1) (m (s - 1))) (d - 1) (s - 1)

-- `while(n-- > 0) *d++ = *s++;`
move_up : (n : ℕ) → Mem → (d s : ℕ) → Mem
move_up zero m d s = m
move_up (suc n) m d s = move_up n (store m d (m s)) (d + 1) (s + 1)

pub memmove : Mem → (dst src n : ℕ) → Mem
memmove m dst src n =
    if ltb src dst && ltb dst (src + n)
    then move_down n m (dst + n) (src + n)
    else move_up n m dst src

pub memcpy : Mem → (dst src n : ℕ) → Mem
memcpy m dst src n = memmove m dst src n

-- `n == 0` after the loop, or the difference at the place where it stopped
pub strncmp : Mem → (n p q : ℕ) → ℤ
strncmp m zero p q = pos 0
strncmp m (suc n) p q =
    let rest = strncmp m n (p + 1) (q + 1) in
    if (if m p == 0 then false else m p == m q) then rest else sub_ℕ (m p) (m q)

-- `while(n-- > 0) *s++ = 0;`
pad : (n : ℕ) → Mem → (s : ℕ) → Mem
pad zero m s = m
pad (suc n) m s = pad n (store m s 0) (s + 1)

-- The copying loop, and the padding that follows it.
strncpy_loop : (n : ℕ) → Mem → (s t : ℕ) → Mem
strncpy_loop zero m s t = m
strncpy_loop (suc n) m s t =
    let rest = strncpy_loop n (store m s (m t)) (s + 1) (t + 1) in
    if m t == 0 then pad n (store m s (m t)) (s + 1) else rest

-- A negative `n` makes no round.
pub strncpy : Mem → (s t : ℕ) → ℤ → Mem
strncpy m s t n = strncpy_loop (pos_part n) m s t

-- `while(--n > 0 && (*s++ = *t++) != 0)` with `n` rounds, then `*s = 0`
safestrcpy_loop : (n : ℕ) → Mem → (s t : ℕ) → Mem
safestrcpy_loop zero m s t = store m s 0
safestrcpy_loop (suc n) m s t =
    let rest = safestrcpy_loop n (store m s (m t)) (s + 1) (t + 1) in
    if m t == 0 then store (store m s (m t)) (s + 1) 0 else rest

pub safestrcpy : Mem → (s t : ℕ) → ℤ → Mem
safestrcpy m s t n = if pos_part n == 0 then m else safestrcpy_loop (pos_part n - 1) m s t

-- `for(n = 0; s[n]; n++)` with fuel; `none` means that the fuel ran out.
strlen_from : (fuel : ℕ) → Mem → (s n : ℕ) → Option ℕ
strlen_from zero m s n = none
strlen_from (suc fuel) m s n =
    let rest = strlen_from fuel m s (n + 1) in if m (s + n) == 0 then some n else rest

pub strlen : (fuel : ℕ) → Mem → (s : ℕ) → Option ℕ
strlen fuel m s = strlen_from fuel m s 0
