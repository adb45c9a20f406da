-- ===== src/Grep/Tests.antt =====
-- Patterns of user/grep.c at concrete texts.
use mitcppos.Prelude.{ℕ, ◌≡◌, ◌↔◌, true, false, refl, List, [], ◌∷◌}
use mitcppos.Grep.{caret, dot, star, dollar, matchstar, match_char, matchhere, match_loop, match_re}
use mitcppos.Grep.Meaning.{Matches, match_re-Matches}

-- "^a*b$"
abbrev some_then_b : List ℕ
some_then_b = caret ∷ 97 ∷ star ∷ 98 ∷ dollar ∷ []

-- "aab"
abbrev aab : List ℕ
aab = 97 ∷ 97 ∷ 98 ∷ []

matches_aab : match_re some_then_b aab ≡ true
unfolding match_re matchhere matchstar match_char
matches_aab = refl

no_dot_at_end : match_re (98 ∷ dot ∷ []) aab ≡ false
unfolding match_re match_loop matchhere matchstar match_char
no_dot_at_end = refl

match_re-Matches_example : (match_re some_then_b aab ≡ true) ↔ Matches some_then_b aab
match_re-Matches_example = match_re-Matches some_then_b aab
