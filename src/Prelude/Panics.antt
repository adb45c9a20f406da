-- ===== src/Prelude/Panics.antt =====
-- The outcome of kernel code: a value, `panic` (kernel/printf.c) with its message, or, where a loop
-- of the source is modelled on fuel, that the fuel ran out.
use Prim.Native.String.{String}
use mathlib.Core.Path.{◌≡◌, ap}

pub data Outcome {ℓ} (A : Type ℓ) : Type ℓ where
  ok : A → Outcome A
  panic : String → Outcome A
  out_of_fuel : Outcome A

infixl 5 ◌>>=◌
abbrev pub ◌>>=◌ {ℓ κ} : {A : Type ℓ} {B : Type κ} → Outcome A → (A → Outcome B) → Outcome B
ok a >>= f = f a
panic s >>= f = panic s
out_of_fuel >>= f = out_of_fuel

-- `P` holds of the value, if there is one.
pub data OnOk {ℓ} {A : Type ℓ} (P : A → Type 0) : Outcome A → Type ℓ where
  on_ok : {a : A} → P a → OnOk P (ok a)
  on_panic : {s : String} → OnOk P (panic s)
  on_fuel : OnOk P out_of_fuel

pub OnOk-bind {ℓ κ} :
    {A : Type ℓ} {B : Type κ} (Q : A → Type 0) {P : B → Type 0} {m : Outcome A} {f : A → Outcome B}
    → OnOk Q m
    → ((a : A) → Q a → OnOk P (f a))
    → OnOk P (m >>= f)
OnOk-bind Q (on_ok q) h = h _ q
OnOk-bind Q on_panic h = on_panic
OnOk-bind Q on_fuel h = on_fuel

-- Where nothing is known of the first value.
pub OnOk-then {ℓ κ} :
    {A : Type ℓ} {B : Type κ} {P : B → Type 0} (m : Outcome A) {f : A → Outcome B}
    → ((a : A) → OnOk P (f a))
    → OnOk P (m >>= f)
OnOk-then (ok a) h = h a
OnOk-then (panic s) h = on_panic
OnOk-then out_of_fuel h = on_fuel

ok_value {ℓ} : {A : Type ℓ} → A → Outcome A → A
ok_value d (ok a) = a
ok_value d (panic _) = d
ok_value d out_of_fuel = d

pub ok_inj {ℓ} : {A : Type ℓ} {a b : A} → ok a ≡ ok b → a ≡ b
unfolding ok_value
ok_inj {a = a} e = ap (ok_value a) e

pub OnOk-ok {ℓ} : {A : Type ℓ} {P : A → Type 0} {a : A} → OnOk P (ok a) → P a
OnOk-ok (on_ok h) = h
