-- ===== src/Printf/Digits.antt =====
-- What `printint` of kernel/printf.c and user/printf.c prints.
use mitcppos.Prelude.{
  ℕ, zero, suc, ◌+◌, ◌-◌, ◌*◌, ◌/◌, ◌%◌, ◌^◌, ◌<◌, ◌≤◌, ◌≡◌, refl, ap, ◌∙◌, inl, inr, Bool, true,
  false, ◌&&◌, Option, some, List, [], ◌∷◌, ltb, length, ◌==◌, if◌then◌else◌, arith, Bool-cases,
}
use native.Mathlib.Nat.{pow-suc, pow-zero, div-add-mod', mod-lt, pow-le-pow_left, div-lt_iff_lt-mul}
use mitcppos.Prelude.Int.{ℤ, pos, negsuc}
use mitcppos.Printf.{
  buf_size, minus_sign, digit, digit_loop, magnitude, is_negative, add_sign, printint,
}

-- The number that digits in base `base` stand for, behind those that stand for `acc`.
unfoldable pub value : (a base acc : ℕ) → List ℕ → ℕ
value a base acc [] = acc
value a base acc (c ∷ cs) = value a base (acc * base + (if ltb c 58 then c - 48 else c - a + 10)) cs

-- digits of base `base`
unfoldable pub AreDigits : (a base : ℕ) → List ℕ → Type 0
AreDigits a base [] = Unit
AreDigits a base (c ∷ cs) = ((d : ℕ) × (d < base) × (c ≡ digit a d)) × AreDigits a base cs

digit_value :
    (a d : ℕ) → 58 ≤ a → (if ltb (digit a d) 58 then digit a d - 48 else digit a d - a + 10) ≡ d
digit_value a d h = ground (arith, h)

record Printed (a base x n : ℕ) (buf : List ℕ) (o : Option (List ℕ)) : Type 0 where
  out : List ℕ
  stored : o ≡ some out
  its_value : value a base 0 out ≡ value a base x buf
  digits : AreDigits a base buf → AreDigits a base out
  room : length out ≤ n + length buf

quotient_small : (base x n : ℕ) → 0 < base → x < base ^ suc n → x / base < base ^ n
quotient_small base x n pos_base h = (div-lt_iff_lt-mul pos_base).1 (rw (← pow-suc base n) h)

digit_loop_last :
    (n a base x : ℕ) (buf : List ℕ)
    → 58 ≤ a
    → 1 < base
    → x / base ≡ 0
    → Printed a base x (suc n) buf (some (digit a (x % base) ∷ buf))
unfolding value AreDigits
digit_loop_last n a base x buf ha hb e =
    let last : x % base ≡ x = omega (arith, ap (λ q. q * base + x % base) e, div-add-mod' x base) in
    record {
      out = digit a (x % base) ∷ buf;
      stored = refl;
      its_value =
          ap (λ v. value a base v buf)
            (ap (0 * base +◌) (digit_value a (x % base) ha) ∙ omega (arith, last));
      digits = λ ds. ((x % base, mod-lt x (omega (arith, hb)), refl), ds);
      room = omega arith;
    }

digit_loop_more :
    (n a base x : ℕ) (buf : List ℕ) (o : Option (List ℕ))
    → 58 ≤ a
    → 1 < base
    → Printed a base (x / base) n (digit a (x % base) ∷ buf) o
    → Printed a base x (suc n) buf o
unfolding value AreDigits
digit_loop_more n a base x buf o ha hb p = record {
  out = p.out;
  stored = p.stored;
  its_value =
      p.its_value
      ∙ ap (λ v. value a base v buf)
          (ap (x / base * base +◌) (digit_value a (x % base) ha) ∙ div-add-mod' x base);
  digits = λ ds. p.digits ((x % base, mod-lt x (omega (arith, hb)), refl), ds);
  room = omega (arith, p.room);
}

-- Room for more characters than `x` has digits.
digit_loop-Printed :
    (n more a base x : ℕ) (buf : List ℕ)
    → 58 ≤ a
    → 1 < base
    → x < base ^ suc n
    → Printed a base x (suc n) buf (digit_loop (suc (n + more)) a base x buf)
unfolding digit_loop
digit_loop-Printed zero more a base x buf ha hb h =
    let none_left : x / base ≡ 0 =
      omega (arith, quotient_small base x 0 (omega (arith, hb)) h, pow-zero base) in
    let test : (x / base == 0) ≡ true = ground (arith, none_left) in
    rw test (digit_loop_last zero a base x buf ha hb none_left)
digit_loop-Printed (suc n) more a base x buf ha hb h = elim (Bool-cases (x / base == 0)) [
  | inl e ↦ rw e (digit_loop_last (suc n) a base x buf ha hb (ground (arith, e)))
  | inr e ↦
      let fuel : suc n + more ≡ suc (n + more) = omega arith in
      rw (e, fuel)
        (digit_loop_more (suc n) a base x buf _ ha hb (
          digit_loop-Printed n more a base (x / base) (digit a (x % base) ∷ buf) ha hb
            (quotient_small base x (suc n) (omega (arith, hb)) h)))
]

-- What `printint` prints of `x`: its digits, behind a minus sign where it is negative.
pub record Prints (a : ℕ) (xx : ℤ) (base : ℕ) (sign : Bool) : Type 0 where
  pub digits : List ℕ
  pub are_digits : AreDigits a base digits
  pub stand_for : value a base 0 digits ≡ magnitude sign xx
  pub prints :
      printint a xx base sign
      ≡ some (if sign && is_negative xx then minus_sign ∷ digits else digits)
  pub room : length digits < buf_size

magnitude_small : (sign : Bool) (xx : ℤ) → magnitude sign xx < 2 ^ 32
magnitude_small sign (pos n) = ground arith
magnitude_small true (negsuc n) = ground arith
magnitude_small false (negsuc n) = ground arith

add_sign_lem :
    (negative : Bool) (o : Option (List ℕ)) (out : List ℕ)
    → o ≡ some out
    → length out < buf_size
    → add_sign negative o ≡ some (if negative then minus_sign ∷ out else out)
unfolding add_sign
add_sign_lem false o out e h = e
add_sign_lem true o out e h =
    let short : ltb (length out) buf_size ≡ true = ground (arith, h) in rw (e, short) refl

-- `printint` in a base from 5 to 16 never stores more than the 16 characters for which it has room:
-- it prints fewer than 16 digits of that base, which stand for the number, or for what is behind
-- the sign where it is negative and printed with one, and then a minus sign in front.
pub printint-Prints :
    (a : ℕ) (xx : ℤ) (base : ℕ) (sign : Bool)
    → 58 ≤ a
    → 5 ≤ base
    → base ≤ 16
    → Prints a xx base sign
unfolding printint AreDigits value
printint-Prints a xx base sign ha hb hc =
    let enough : magnitude sign xx < base ^ 15 =
      omega (arith, magnitude_small sign xx, pow-le-pow_left hb 15) in
    let p = digit_loop-Printed 14 1 a base (magnitude sign xx) [] ha (omega (arith, hb)) enough in
    record {
      digits = p.out;
      are_digits = p.digits tt;
      stand_for = p.its_value;
      prints = add_sign_lem (sign && is_negative xx) _ p.out p.stored (omega (arith, p.room));
      room = omega (arith, p.room);
    }
