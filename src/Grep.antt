-- ===== src/Grep.antt =====
-- user/grep.c: the matcher of patterns with `^`, `.`, `*` and `$`. A C string is the list of its
-- characters before the 0, and a pointer into it the rest of the list.
use mitcppos.Prelude.{ℕ, Bool, true, false, ◌&&◌, ◌||◌, List, [], ◌∷◌, ◌==◌, if◌then◌else◌}
pub mod Meaning
mod Tests

abbrev pub caret : ℕ
caret = 94

abbrev pub dot : ℕ
dot = 46

abbrev pub star : ℕ
star = 42

abbrev pub dollar : ℕ
dollar = 36

-- `matchstar(c, re, text)`, with `here` for `matchhere(re, ...)`
unfoldable pub matchstar : (c : ℕ) (here : List ℕ → Bool) → (text : List ℕ) → Bool
matchstar c here [] = here []
matchstar c here (t ∷ text) =
    let rest = matchstar c here text in
    if here (t ∷ text) then true else (if t == c || c == dot then rest else false)

-- The last two tests of `matchhere`, for a pattern that begins with `c`; `next` is `matchhere(re+1,
-- ...)`.
unfoldable pub match_char : (c : ℕ) (next : List ℕ → Bool) → (text : List ℕ) → Bool
match_char c next [] = false
match_char c next (t ∷ text) = if c == dot || c == t then next text else false

abbrev pub is_end : List ℕ → Bool
is_end [] = true
is_end (_ ∷ _) = false

unfoldable pub matchhere : (re text : List ℕ) → Bool
matchhere [] text = true
matchhere (c ∷ []) text = if c == dollar then is_end text else match_char c (matchhere []) text
matchhere (c ∷ d ∷ re) text =
    if d == star then matchstar c (matchhere re) text else match_char c (matchhere (d ∷ re)) text

-- The loop of `match`.
unfoldable pub match_loop : (re text : List ℕ) → Bool
match_loop re [] = matchhere re []
match_loop re (t ∷ text) =
    let rest = match_loop re text in if matchhere re (t ∷ text) then true else rest

-- `match`
unfoldable pub match_re : (re text : List ℕ) → Bool
match_re [] text = match_loop [] text
match_re (c ∷ re) text = if c == caret then matchhere re text else match_loop (c ∷ re) text
