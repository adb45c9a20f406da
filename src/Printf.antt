-- ===== src/Printf.antt =====
-- kernel/printf.c: the characters that are given to `consputc`. Strings are the lists of their
-- characters before the 0.
use mitcppos.Prelude.{
  ℕ, zero, suc, ◌+◌, ◌-◌, ◌*◌, ◌/◌, ◌%◌, ◌^◌, Bool, true, false, ◌||◌, ◌&&◌, Option, none, some,
  List, [], ◌∷◌, ◌++◌, length, ltb, ◌==◌, if◌then◌else◌,
}
use mitcppos.Prelude.Int.{ℤ, pos, negsuc}
pub mod Digits
mod Tests

-- `char buf[16]`
abbrev pub buf_size : ℕ
buf_size = 16

abbrev pub minus_sign : ℕ
minus_sign = 45

-- `digits[d]`, with `a` the digit ten
abbrev pub digit : (a d : ℕ) → ℕ
digit a d = if ltb d 10 then 48 + d else a + (d - 10)

-- The loop of `printint` with room for `n` characters, and those that it has stored, the last one
-- first; none if the room is not enough.
unfoldable pub digit_loop : (n a base x : ℕ) → List ℕ → Option (List ℕ)
digit_loop zero a base x buf = none
digit_loop (suc n) a base x buf =
    let buf' = digit a (x % base) ∷ buf in
    let rest = digit_loop n a base (x / base) buf' in if x / base == 0 then some buf' else rest

-- `xx` as an `uint`
abbrev pub to_uint : ℤ → ℕ
to_uint (pos n) = n % 2 ^ 32
to_uint (negsuc n) = (2 ^ 32 - (n + 1) % 2 ^ 32) % 2 ^ 32

abbrev pub is_negative : ℤ → Bool
is_negative (pos n) = false
is_negative (negsuc n) = true

abbrev pub magnitude : (sign : Bool) → ℤ → ℕ
magnitude sign (pos n) = n % 2 ^ 32
magnitude sign (negsuc n) = if sign then (n + 1) % 2 ^ 32 else to_uint (negsuc n)

-- `if(sign) buf[i++] = '-';`
unfoldable pub add_sign : Bool → Option (List ℕ) → Option (List ℕ)
add_sign false buf = buf
add_sign true none = none
add_sign true (some buf) = if ltb (length buf) buf_size then some (minus_sign ∷ buf) else none

-- What is printed; none if `buf` would overflow.
unfoldable pub printint : (a : ℕ) (xx : ℤ) (base : ℕ) (sign : Bool) → Option (List ℕ)
printint a xx base sign =
    add_sign (sign && is_negative xx) (digit_loop buf_size a base (magnitude sign xx) [])

-- The loop of `printptr` with `n` rounds left.
pub ptr_loop : (n a x : ℕ) → List ℕ
ptr_loop zero a x = []
ptr_loop (suc n) a x = digit a (x / 2 ^ 60) ∷ ptr_loop n a (x * 2 ^ 4 % 2 ^ 64)

pub printptr : (a x : ℕ) → List ℕ
printptr a x = 48 ∷ 120 ∷ ptr_loop 16 a x

-- An argument of `printf`, as its type in the call: `int`, `uint64` or `char*`, where none is a null
-- pointer.
pub data Arg : Type 0 where
  int_arg : ℤ → Arg
  ptr_arg : ℕ → Arg
  str_arg : Option (List ℕ) → Arg

abbrev lower_a : ℕ
lower_a = 97

-- "(null)"
abbrev pub null_string : List ℕ
null_string = 40 ∷ 110 ∷ 117 ∷ 108 ∷ 108 ∷ 41 ∷ []

abbrev pub percent : ℕ
percent = 37

-- Two pieces of output.
unfoldable pub also : Option (List ℕ) → Option (List ℕ) → Option (List ℕ)
also none _ = none
also (some _) none = none
also (some xs) (some ys) = some (xs ++ ys)

-- The conversion `c` of the first argument, and the arguments that are left; none if there is none of
-- its type, which `va_arg` leaves undefined.
unfoldable pub take_arg : (c : ℕ) → List Arg → Option (Option (List ℕ) × List Arg)
take_arg c [] = none
take_arg c (int_arg x ∷ args) =
    if c == 100
    then some (printint lower_a x 10 true, args)
    else (if c == 120 then some (printint lower_a x 16 true, args) else none)
take_arg c (ptr_arg x ∷ args) = if c == 112 then some (some (printptr lower_a x), args) else none
take_arg c (str_arg s ∷ args) =
    let text : List ℕ = elim s [ none ↦ null_string | some t ↦ t ] in
    if c == 115 then some (some text, args) else none

-- The cases of the `switch`.
unfoldable pub convert : (c : ℕ) → List Arg → Option (Option (List ℕ) × List Arg)
convert c args =
    let literal = if c == percent then percent ∷ [] else percent ∷ c ∷ [] in
    if c == 100 || c == 120 || c == 112 || c == 115
    then take_arg c args
    else some (some literal, args)

-- The loop of `printf` over the format. `waiting` says whether a `%` has just been read.
unfoldable pub printf_loop : (fmt : List ℕ) (waiting : Bool) → List Arg → Option (List ℕ)
printf_loop [] waiting args = some []
printf_loop (c ∷ fmt) false args =
    let plain = also (some (c ∷ [])) (printf_loop fmt false args) in
    let conversion = printf_loop fmt true args in if c == percent then conversion else plain
printf_loop (c ∷ fmt) true args = elim (convert c args) [
  | none ↦ none
  | some (out, args') ↦ also out (printf_loop fmt false args')
]

unfoldable pub printf : (fmt : List ℕ) → List Arg → Option (List ℕ)
printf fmt args = printf_loop fmt false args
