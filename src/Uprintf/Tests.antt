-- ===== src/Uprintf/Tests.antt =====
-- The format "%d%%" and the number 7.
use mitcppos.Prelude.{◌≡◌, refl, some, [], ◌∷◌}
use mitcppos.Prelude.Int.{pos}
use mitcppos.Printf.{int_arg, also, printint, digit_loop, add_sign}
use mitcppos.Uprintf.{vprintf, vprintf_loop, convert, take_arg}

seven_percent : vprintf (37 ∷ 100 ∷ 37 ∷ 37 ∷ []) (int_arg (pos 7) ∷ []) ≡ some (55 ∷ 37 ∷ [])
unfolding vprintf vprintf_loop convert take_arg also printint digit_loop add_sign
seven_percent = refl
