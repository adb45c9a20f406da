-- ===== src/Uprintf.antt =====
-- user/printf.c: the characters that `vprintf` writes. Its `printint` and `printptr` are those of
-- `Printf` with the capital letters as digits.
use mitcppos.Prelude.{
  ℕ, ◌%◌, ◌^◌, Bool, true, false, Option, none, some, List, [], ◌∷◌, ◌-◌, ◌||◌, ◌==◌, if◌then◌else◌,
}
use mitcppos.Prelude.Int.{ℤ, pos, negsuc}
use mitcppos.Printf.{Arg, int_arg, ptr_arg, str_arg, null_string, percent, also}
use mitcppos.Printf
pub mod Same
mod Tests

abbrev pub upper_a : ℕ
upper_a = 65

abbrev pub printint : (xx : ℤ) (base : ℕ) (sgn : Bool) → Option (List ℕ)
printint xx base sgn = Printf.printint upper_a xx base sgn

abbrev pub printptr : (x : ℕ) → List ℕ
printptr x = Printf.printptr upper_a x

-- A `char` argument, passed as an `int`.
abbrev pub to_char : ℤ → ℕ
to_char (pos n) = n % 256
to_char (negsuc n) = 255 - n % 256

-- The conversion `c` of the first argument, as in `Printf.take_arg`. `%l` passes a `uint64` to
-- `printint`, which takes an `int`.
unfoldable pub take_arg : (c : ℕ) → List Arg → Option (Option (List ℕ) × List Arg)
take_arg c [] = none
take_arg c (int_arg x ∷ args) =
    if c == 100
    then some (printint x 10 true, args)
    else (if c == 120
        then some (printint x 16 false, args)
        else (if c == 99 then some (some (to_char x ∷ []), args) else none))
take_arg c (ptr_arg x ∷ args) =
    if c == 108
    then some (printint (pos (x % 2 ^ 32)) 10 false, args)
    else (if c == 112 then some (some (printptr x), args) else none)
take_arg c (str_arg s ∷ args) =
    let text : List ℕ = elim s [ none ↦ null_string | some t ↦ t ] in
    if c == 115 then some (some text, args) else none

-- The cases of state `%`.
unfoldable pub convert : (c : ℕ) → List Arg → Option (Option (List ℕ) × List Arg)
convert c args =
    let literal = if c == percent then percent ∷ [] else percent ∷ c ∷ [] in
    if c == 100 || c == 108 || c == 120 || c == 112 || c == 115 || c == 99
    then take_arg c args
    else some (some literal, args)

-- The loop over the format; `state` says whether it is `%`.
unfoldable pub vprintf_loop : (fmt : List ℕ) (state : Bool) → List Arg → Option (List ℕ)
vprintf_loop [] state args = some []
vprintf_loop (c ∷ fmt) false args =
    let plain = also (some (c ∷ [])) (vprintf_loop fmt false args) in
    let conversion = vprintf_loop fmt true args in if c == percent then conversion else plain
vprintf_loop (c ∷ fmt) true args = elim (convert c args) [
  | none ↦ none
  | some (out, args') ↦ also out (vprintf_loop fmt false args')
]

unfoldable pub vprintf : (fmt : List ℕ) → List Arg → Option (List ℕ)
vprintf fmt args = vprintf_loop fmt false args
