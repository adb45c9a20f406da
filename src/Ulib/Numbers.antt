-- ===== src/Ulib/Numbers.antt =====
-- `atoi` of user/ulib.c on what `printint` prints.
use mathlib.Core.Path.{subst}
use mitcppos.Prelude.{
  ℕ, zero, suc, ◌+◌, ◌-◌, ◌*◌, ◌%◌, ◌^◌, ◌<◌, ◌≤◌, ◌≡◌, refl, sym, ap, ◌∙◌, true, false, Option,
  none, some, List, [], ◌∷◌, length, ltb, leb, ◌&&◌, if◌then◌else◌, arith,
}
use mitcppos.Prelude.Int.{pos}
use mitcppos.Mem.{Mem}
use mitcppos.Printf.{printint}
use mitcppos.Printf.Digits.{value, AreDigits, printint-Prints}
use mitcppos.Ulib.{atoi_from, atoi}

-- The characters stand in memory from `s` on, and a 0 behind them.
unfoldable pub Holds : Mem → (s : ℕ) → List ℕ → Type 0
Holds m s [] = m s ≡ 0
Holds m s (c ∷ cs) = (m s ≡ c) × Holds m (s + 1) cs

value_grows : (a n : ℕ) (ds : List ℕ) → n ≤ value a 10 n ds
unfolding value
value_grows a n [] = omega arith
value_grows a n (c ∷ cs) =
    let step = (if ltb c 58 then c - 48 else c - a + 10) in
    omega (arith, value_grows a (n * 10 + step) cs)

atoi_from-value :
    (a fuel : ℕ) (m : Mem) (s n : ℕ) (ds : List ℕ)
    → AreDigits a 10 ds
    → Holds m s ds
    → value a 10 n ds < 2 ^ 32
    → length ds < fuel
    → atoi_from fuel m s n ≡ some (value a 10 n ds)
unfolding AreDigits Holds value atoi_from
atoi_from-value a zero m s n ds d h small enough = absurd (omega (arith, enough))
atoi_from-value a (suc fuel) m s n [] d h small enough =
    let stop : (leb 48 (m s) && leb (m s) 57) ≡ false = ground (arith, h) in rw stop refl
atoi_from-value a (suc fuel) m s n (c ∷ cs) ((k, below, is), more) (here, h) small enough =
    let char : c ≡ 48 + k = ground (arith, is, below) in
    let go : (leb 48 (m s) && leb (m s) 57) ≡ true = ground (arith, here, char, below) in
    let its : (if ltb c 58 then c - 48 else c - a + 10) ≡ k = ground (arith, char, below) in
    let bound = value_grows a (n * 10 + (if ltb c 58 then c - 48 else c - a + 10)) cs in
    let step : (n * 10 + m s - 48) % 2 ^ 32 ≡ n * 10 + (if ltb c 58 then c - 48 else c - a + 10) =
      omega (arith, here, char, its, bound, small) in
    rw (go, step)
      (atoi_from-value a fuel m (s + 1) (n * 10 + (if ltb c 58 then c - 48 else c - a + 10)) cs more
        h small (omega (arith, enough)))

some_value : Option (List ℕ) → List ℕ
some_value none = []
some_value (some xs) = xs

-- If `printint` prints a number from 0 to below 2^31 in base 10, and its characters stand in memory
-- as a string shorter than the fuel, then `atoi` of it returns the number.
pub atoi-printint :
    (a x fuel : ℕ) (m : Mem) (s : ℕ) (cs : List ℕ)
    → 58 ≤ a
    → x < 2 ^ 31
    → printint a (pos x) 10 true ≡ some cs
    → Holds m s cs
    → length cs < fuel
    → atoi fuel m s ≡ some x
unfolding atoi some_value
atoi-printint a x fuel m s cs ha small run h enough =
    let p = printint-Prints a (pos x) 10 true ha (omega arith) (omega arith) in
    let same : p.digits ≡ cs = ap some_value (sym p.prints ∙ run) in
    let its : value a 10 0 cs ≡ x =
      subst (λ ds. value a 10 0 ds ≡ x) same (p.stand_for ∙ omega (arith, small)) in
    let digits : AreDigits a 10 cs = subst (AreDigits a 10) same p.are_digits in
    atoi_from-value a fuel m s 0 cs digits h (omega (arith, its, small)) enough ∙ ap some its
