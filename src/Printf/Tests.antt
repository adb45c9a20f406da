-- ===== src/Printf/Tests.antt =====
-- `printint` and `printf` at concrete arguments.
use mitcppos.Prelude.{◌≡◌, refl, true, some, [], ◌∷◌, arith}
use mitcppos.Prelude.Int.{pos, negsuc}
use mitcppos.Printf.{
  digit_loop, add_sign, printint, int_arg, also, take_arg, convert, printf_loop, printf,
}
use mitcppos.Printf.Digits.{Prints, printint-Prints}

-- "-42"
minus_42 : printint 97 (negsuc 41) 10 true ≡ some (45 ∷ 52 ∷ 50 ∷ [])
unfolding printint add_sign digit_loop
minus_42 = refl

-- "a=%d%%" with 7
a_is_7 :
    printf (97 ∷ 61 ∷ 37 ∷ 100 ∷ 37 ∷ 37 ∷ []) (int_arg (pos 7) ∷ [])
    ≡ some (97 ∷ 61 ∷ 55 ∷ 37 ∷ [])
unfolding printf printf_loop also take_arg convert printint add_sign digit_loop
a_is_7 = refl

printint-Prints_example : Prints 97 (negsuc 41) 16 true
printint-Prints_example =
    printint-Prints 97 (negsuc 41) 16 true (omega arith) (omega arith) (omega arith)
