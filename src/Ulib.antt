-- ===== src/Ulib.antt =====
-- user/ulib.c: the user library's routines on strings and bytes, over memory as for kernel/string.c.
-- Routines that run to the end of a string take fuel; `gets` reads from a list of the characters that
-- are typed, and fails where they end.
use mitcppos.Prelude.{
  ℕ, zero, suc, ◌+◌, ◌-◌, ◌*◌, ◌%◌, ◌^◌, Bool, true, false, not, ◌&&◌, ◌||◌, Option, none, some,
  List, [], ◌∷◌, ltb, leb, ◌==◌, if◌then◌else◌,
}
use mitcppos.Prelude.Int.{ℤ, pos, pos_part, sub_ℕ}
use mitcppos.Mem.{Mem, store}
pub mod Bytes
pub mod Numbers
mod Tests

pub strcpy : (fuel : ℕ) → Mem → (s t : ℕ) → Option Mem
strcpy zero m s t = none
strcpy (suc fuel) m s t =
    let m' = store m s (m t) in
    let rest = strcpy fuel m' (s + 1) (t + 1) in if m t == 0 then some m' else rest

unfoldable pub strcmp : (fuel : ℕ) → Mem → (p q : ℕ) → Option ℤ
strcmp zero m p q = none
strcmp (suc fuel) m p q =
    let rest = strcmp fuel m (p + 1) (q + 1) in
    if not (m p == 0) && m p == m q then rest else some (sub_ℕ (m p) (m q))

-- The loop of `strlen`, from the count `n` on.
strlen_from : (fuel : ℕ) → Mem → (s n : ℕ) → Option ℕ
strlen_from zero m s n = none
strlen_from (suc fuel) m s n =
    let rest = strlen_from fuel m s (n + 1) in if m (s + n) == 0 then some n else rest

pub strlen : (fuel : ℕ) → Mem → (s : ℕ) → Option ℕ
unfolding strlen_from
strlen fuel m s = strlen_from fuel m s 0

memset_loop : (k : ℕ) → Mem → (cdst c i : ℕ) → Mem
memset_loop zero m cdst c i = m
memset_loop (suc k) m cdst c i = memset_loop k (store m (cdst + i) (c % 256)) cdst c (i + 1)

pub memset : Mem → (dst c n : ℕ) → Mem
unfolding memset_loop
memset m dst c n = memset_loop n m dst c 0

-- The address, or none for a null pointer.
pub strchr : (fuel : ℕ) → Mem → (s c : ℕ) → Option (Option ℕ)
strchr zero m s c = none
strchr (suc fuel) m s c =
    let rest = strchr fuel m (s + 1) c in
    if m s == 0 then some none else (if m s == c then some (some s) else rest)

-- The loop of `gets` with room for `n` characters besides the 0, from place `i` on, and what is left
-- of the input.
unfoldable pub gets_loop : (n : ℕ) → Mem → (buf i : ℕ) → List ℕ → Mem × List ℕ
gets_loop zero m buf i input = (store m (buf + i) 0, input)
gets_loop (suc n) m buf i [] = (store m (buf + i) 0, [])
gets_loop (suc n) m buf i (c ∷ input) =
    let m' = store m (buf + i) c in
    let rest = gets_loop n m' buf (i + 1) input in
    if c == 10 || c == 13 then (store m' (buf + (i + 1)) 0, input) else rest

unfoldable pub gets : Mem → (buf : ℕ) → (max : ℤ) → List ℕ → Mem × List ℕ
gets m buf max input = gets_loop (pos_part max - 1) m buf 0 input

-- `n` is a word of 32 bits.
unfoldable pub atoi_from : (fuel : ℕ) → Mem → (s n : ℕ) → Option ℕ
atoi_from zero m s n = none
atoi_from (suc fuel) m s n =
    let rest = atoi_from fuel m (s + 1) ((n * 10 + m s - 48) % 2 ^ 32) in
    if leb 48 (m s) && leb (m s) 57 then rest else some n

unfoldable pub atoi : (fuel : ℕ) → Mem → (s : ℕ) → Option ℕ
atoi fuel m s = atoi_from fuel m s 0

move_down : (n : ℕ) → Mem → (d s : ℕ) → Mem
move_down zero m d s = m
move_down (suc n) m d s = move_down n (store m (d - 1) (m (s - 1))) (d - 1) (s - 1)

move_up : (n : ℕ) → Mem → (d s : ℕ) → Mem
move_up zero m d s = m
move_up (suc n) m d s = move_up n (store m d (m s)) (d + 1) (s + 1)

pub memmove : Mem → (vdst vsrc : ℕ) → ℤ → Mem
unfolding move_down move_up
memmove m vdst vsrc n =
    let k = pos_part n in
    if ltb vdst vsrc then move_up k m vdst vsrc else move_down k m (vdst + k) (vsrc + k)

pub memcmp : Mem → (s1 s2 n : ℕ) → ℤ
memcmp m s1 s2 zero = pos 0
memcmp m s1 s2 (suc n) =
    let rest = memcmp m (s1 + 1) (s2 + 1) n in if m s1 == m s2 then rest else sub_ℕ (m s1) (m s2)

pub memcpy : Mem → (dst src n : ℕ) → Mem
memcpy m dst src n = memmove m dst src (pos n)
