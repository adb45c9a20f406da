-- ===== src/Str/Tests.antt =====
-- The string routines on a small memory, and their theorems there.
use mitcppos.Prelude.{ℕ, ◌<◌, ◌≡◌, refl, false, arith, inr, length, [], ◌∷◌}
use mitcppos.Prelude.Int.{pos, negsuc}
use mitcppos.Mem.{Mem, store}
use mitcppos.Str.{memmove, memcmp, safestrcpy, move_down}
use mitcppos.Str.Copy.{within, memmove_lem}
use mitcppos.Str.Compare.{c_string, bytes}
use mitcppos.Str.Strings.{safestrcpy_lem}

-- "abc" at 10, "abd" at 20
abbrev words : Mem
words =
    store (store (store (store (store (store (λ _. 0) 10 b'a') 11 b'b') 12 b'c') 20 b'a') 21 b'b')
      22 b'd'

bytes_of_move : bytes 5 (memmove words 11 10 3) 10 ≡ b'a' ∷ b'a' ∷ b'b' ∷ b'c' ∷ 0 ∷ []
unfolding bytes memmove move_down
bytes_of_move = refl

compare_words : memcmp words 3 10 20 ≡ negsuc 0
unfolding memcmp
compare_words = refl

memmove_lem_example : memmove words 11 10 3 13 ≡ b'c'
memmove_lem_example = memmove_lem words 11 10 3 13

safestrcpy_lem_example :
    (c_string 3 (safestrcpy words 30 10 (pos 3)) 30 ≡ c_string 2 words 10)
    × (length (c_string 3 (safestrcpy words 30 10 (pos 3)) 30) < 3)
    × ((a : ℕ) → within 30 3 a ≡ false → safestrcpy words 30 10 (pos 3) a ≡ words a)
safestrcpy_lem_example = safestrcpy_lem words 30 10 (pos 3) (omega arith) (inr (omega arith))
