-- ===== src/Ulib/Bytes.antt =====
-- `memmove`, `memset` and `memcmp` of user/ulib.c against those of kernel/string.c.
use mitcppos.Prelude.{
  ℕ, zero, suc, ◌+◌, ◌-◌, ◌%◌, ◌<◌, ◌≤◌, ◌≡◌, refl, sym, ◌∙◌, inl, inr, ltb, if◌then◌else◌, arith,
  Bool-cases,
}
use mitcppos.Prelude.Int.{ℤ, pos_part}
use mitcppos.Mem.{Mem, store}
use mitcppos.Str
use mitcppos.Str.Copy.{within, memset_lem, memmove_lem}
use mitcppos.Ulib.{memset_loop, memset, move_up, move_down, memmove, memcmp}

memset_loop_lem :
    (k : ℕ) (m : Mem) (d c i a : ℕ)
    → memset_loop k m d c i a ≡ (if within (d + i) k a then c % 256 else m a)
unfolding memset_loop
memset_loop_lem zero m d c i a = ground arith
memset_loop_lem (suc k) m d c i a =
    ground (arith, memset_loop_lem k (store m (d + i) (c % 256)) d c (i + 1) a)

move_up_lem :
    (n : ℕ) (m : Mem) (d s a : ℕ)
    → d < s
    → move_up n m d s a ≡ (if within d n a then m (s + (a - d)) else m a)
unfolding move_up
move_up_lem zero m d s a h = ground arith
move_up_lem (suc n) m d s a h = ground (arith, move_up_lem n (store m d (m s)) (d + 1) (s + 1) a)

move_down_lem :
    (n : ℕ) (m : Mem) (d s a : ℕ)
    → s ≤ d
    → move_down n m (d + n) (s + n) a ≡ (if within d n a then m (s + (a - d)) else m a)
unfolding move_down
move_down_lem zero m d s a h = ground arith
move_down_lem (suc n) m d s a h =
    let e : d + suc n - 1 ≡ d + n = omega arith in
    let e' : s + suc n - 1 ≡ s + n = omega arith in
    rw (e, e') (ground (arith, move_down_lem n (store m (d + n) (m (s + n))) d s a))

memmove-kernel :
    (m : Mem) (dst src : ℕ) (n : ℤ) (a : ℕ)
    → memmove m dst src n a ≡ Str.memmove m dst src (pos_part n) a
unfolding memmove
memmove-kernel m dst src n a = elim (Bool-cases (ltb dst src)) [
  | inl e ↦ rw e (
      move_up_lem (pos_part n) m dst src a (ground (arith, e))
      ∙ sym (memmove_lem m dst src (pos_part n) a))
  | inr e ↦ rw e (
      move_down_lem (pos_part n) m dst src a (ground (arith, e))
      ∙ sym (memmove_lem m dst src (pos_part n) a))
]

memset-kernel : (m : Mem) (dst c n a : ℕ) → memset m dst c n a ≡ Str.memset m dst c n a
unfolding memset
memset-kernel m dst c n a =
    let at : dst + 0 ≡ dst = omega arith in
    memset_loop_lem n m dst c 0 a ∙ rw at (sym (memset_lem m dst c n a))

memcmp-kernel : (n : ℕ) (m : Mem) (s1 s2 : ℕ) → memcmp m s1 s2 n ≡ Str.memcmp m n s1 s2
unfolding memcmp Str.memcmp
memcmp-kernel zero m s1 s2 = refl
memcmp-kernel (suc n) m s1 s2 = rw (memcmp-kernel n m (s1 + 1) (s2 + 1)) refl

-- `memmove`, `memset` and `memcmp` of the user library, for any ranges of memory, however they
-- overlap, leave and return what those of the kernel do; `memmove` of a negative count moves
-- nothing.
pub memmove-same :
    (m : Mem) (dst src c k : ℕ) (n : ℤ)
    → ((a : ℕ) → memmove m dst src n a ≡ Str.memmove m dst src (pos_part n) a)
      × ((a : ℕ) → memset m dst c k a ≡ Str.memset m dst c k a)
      × (memcmp m dst src k ≡ Str.memcmp m k dst src)
memmove-same m dst src c k n =
    (memmove-kernel m dst src n, memset-kernel m dst c k, memcmp-kernel k m dst src)
