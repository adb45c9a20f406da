-- ===== src/Uprintf/Same.antt =====
-- Where `vprintf` of user/printf.c and `printf` of kernel/printf.c print the same.
use mitcppos.Prelude.{
  ℕ, zero, suc, ◌%◌, ◌/◌, ◌≡◌, refl, sym, ap, ◌∙◌, Bool, true, false, not, ◌&&◌, ◌||◌, Option, none,
  some, List, [], ◌∷◌, ◌==◌, inl, inr, Bool-cases, and_left, and_right, arith,
}
use mitcppos.Prelude.Int.{ℤ}
use mitcppos.Printf.{
  Arg, int_arg, ptr_arg, str_arg, digit, digit_loop, printint, percent, also, printf, printf_loop,
}
use mitcppos.Printf
use mitcppos.Uprintf.{upper_a, convert, take_arg, vprintf, vprintf_loop}

-- No conversion of the format is one of `%l`, `%x`, `%p` and `%c`.
unfoldable pub is_shared : (fmt : List ℕ) (state : Bool) → Bool
is_shared [] state = true
is_shared (c ∷ fmt) false = is_shared fmt (c == percent)
is_shared (c ∷ fmt) true = not (c == 108 || c == 120 || c == 112 || c == 99) && is_shared fmt false

digits_same : (n x : ℕ) (buf : List ℕ) → digit_loop n upper_a 10 x buf ≡ digit_loop n 97 10 x buf
unfolding digit_loop
digits_same zero x buf = refl
digits_same (suc n) x buf =
    let one : digit upper_a (x % 10) ≡ digit 97 (x % 10) = ground arith in
    rw (one, digits_same n (x / 10) (digit 97 (x % 10) ∷ buf)) refl

printint_same : (x : ℤ) → printint upper_a x 10 true ≡ printint 97 x 10 true
unfolding printint
printint_same x = rw (digits_same 16 _ []) refl

take_arg_same :
    (c : ℕ) (args : List Arg)
    → not (c == 108 || c == 120 || c == 112 || c == 99) ≡ true
    → take_arg c args ≡ Printf.take_arg c args
unfolding take_arg Printf.take_arg
take_arg_same c [] h = refl
take_arg_same c (int_arg x ∷ args) h = elim (Bool-cases (c == 100)) [
  | inl e ↦ rw (e, printint_same x) refl
  | inr e ↦
      let no_x : (c == 120) ≡ false = ground (arith, h) in
      let no_c : (c == 99) ≡ false = ground (arith, h) in rw (e, no_x, no_c) refl
]
take_arg_same c (ptr_arg x ∷ args) h = ground (arith, h)
take_arg_same c (str_arg s ∷ args) h = refl

convert_same :
    (c : ℕ) (args : List Arg)
    → not (c == 108 || c == 120 || c == 112 || c == 99) ≡ true
    → convert c args ≡ Printf.convert c args
unfolding convert Printf.convert
convert_same c args h =
    let no_l : (c == 108) ≡ false = ground (arith, h) in
    let no_x : (c == 120) ≡ false = ground (arith, h) in
    let no_p : (c == 112) ≡ false = ground (arith, h) in
    let no_c : (c == 99) ≡ false = ground (arith, h) in
    rw (no_l, no_x, no_p, no_c, take_arg_same c args h)
      (elim (Bool-cases (c == 100)) [
        | inl e ↦ rw e refl
        | inr e ↦ elim (Bool-cases (c == 115)) [ inl f ↦ rw (e, f) refl | inr f ↦ rw (e, f) refl ]
      ])

after_same :
    (fmt : List ℕ) (r : Option (Option (List ℕ) × List Arg))
    → ((args : List Arg) → vprintf_loop fmt false args ≡ printf_loop fmt false args)
    → (elim r as (λ _. Option (List ℕ)) [
      | none ↦ none
      | some (out, args') ↦ also out (vprintf_loop fmt false args')
    ])
      ≡ (elim r as (λ _. Option (List ℕ)) [
        | none ↦ none
        | some (out, args') ↦ also out (printf_loop fmt false args')
      ])
after_same fmt none same = refl
after_same fmt (some (out, args')) same = ap (also out) (same args')

loop_same :
    (fmt : List ℕ) (state : Bool) (args : List Arg)
    → is_shared fmt state ≡ true
    → vprintf_loop fmt state args ≡ printf_loop fmt state args
unfolding is_shared vprintf_loop printf_loop
loop_same [] state args h = refl
loop_same (c ∷ fmt) false args h = elim (Bool-cases (c == percent)) [
  | inl e ↦ rw e (loop_same fmt true args (ap (is_shared fmt) (sym e) ∙ h))
  | inr e ↦
      rw e (ap (also (some (c ∷ []))) (loop_same fmt false args (ap (is_shared fmt) (sym e) ∙ h)))
]
loop_same (c ∷ fmt) true args h =
    let fine = and_left _ (is_shared fmt false) h in
    let rest = and_right (not (c == 108 || c == 120 || c == 112 || c == 99)) _ h in
    ap
      (λ (r : Option (Option (List ℕ) × List Arg)). elim r as (λ _. Option (List ℕ)) [
        | none ↦ none
        | some (out, args') ↦ also out (vprintf_loop fmt false args')
      ])
      (convert_same c args fine)
    ∙ after_same fmt (Printf.convert c args) (λ args'. loop_same fmt false args' rest)

-- On a format without these conversions the two print the same.
vprintf-printf :
    (fmt : List ℕ) (args : List Arg)
    → is_shared fmt false ≡ true
    → vprintf fmt args ≡ printf fmt args
unfolding vprintf printf
vprintf-printf fmt args h = loop_same fmt false args h
