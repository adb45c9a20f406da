-- ===== src/Ulib/Tests.antt =====
-- The user library's routines at concrete strings.
use mitcppos.Prelude.{ℕ, ◌≡◌, refl, true, some, [], ◌∷◌, ◌==◌, if◌then◌else◌, arith}
use mitcppos.Prelude.Int.{pos}
use mitcppos.Mem.{Mem}
use mitcppos.Str
use mitcppos.Printf.{printint, add_sign, digit_loop}
use mitcppos.Ulib.{memmove, memset, memcmp, atoi, gets, gets_loop}
use mitcppos.Ulib.Bytes.{memmove-same}
use mitcppos.Ulib.Numbers.{Holds, atoi-printint}

-- "42" at 10
abbrev words : Mem
words = λ a. if a == 10 then 52 else (if a == 11 then 50 else 0)

memmove-same_example :
    ((a : ℕ) → memmove words 11 10 (pos 2) a ≡ Str.memmove words 11 10 2 a)
    × ((a : ℕ) → memset words 11 7 3 a ≡ Str.memset words 11 7 3 a)
    × (memcmp words 11 10 3 ≡ Str.memcmp words 3 11 10)
memmove-same_example = memmove-same words 11 10 7 3 (pos 2)

printed_42 : printint 97 (pos 42) 10 true ≡ some (52 ∷ 50 ∷ [])
unfolding printint add_sign digit_loop
printed_42 = refl

words-Holds : Holds words 10 (52 ∷ 50 ∷ [])
unfolding Holds
words-Holds = (refl, (refl, refl))

atoi-printint_example : atoi 5 words 10 ≡ some 42
atoi-printint_example =
    atoi-printint 97 42 5 words 10 (52 ∷ 50 ∷ []) (omega arith) (omega arith) printed_42 words-Holds
      (omega arith)

-- "hi", then the line's end, and what is left
gets_line : (gets words 20 (pos 8) (104 ∷ 105 ∷ 10 ∷ 120 ∷ [])).1 ≡ 120 ∷ []
unfolding gets gets_loop
gets_line = refl
