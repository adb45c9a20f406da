-- ===== src/Grep/Meaning.antt =====
-- What the patterns of user/grep.c mean.
use mitcppos.Prelude.{
  ℕ, ◌≡◌, ◌≢◌, ◌⊎◌, ◌↔◌, refl, sym, ap, ◌∙◌, inl, inr, Bool, true, false, ◌||◌, List, [], ◌∷◌, ◌++◌,
  ◌==◌, if◌then◌else◌, arith, Bool-cases,
}
use mitcppos.Grep.{caret, dot, star, dollar, matchstar, match_char, matchhere, match_loop, match_re}

pub Stands : (c t : ℕ) → Type 0
Stands c t = (c ≡ dot) ⊎ (c ≡ t)

-- The text begins with something that the pattern stands for. A `*` behind a character counts any
-- number of it, also a `*` at the second place; a `$` counts as the end where it is last.
pub data Here : (re text : List ℕ) → Type 0 where
  here_none : {text : List ℕ} → Here [] text
  here_end : Here (dollar ∷ []) []
  here_last : {c t : ℕ} {text : List ℕ} → c ≢ dollar → Stands c t → Here (c ∷ []) (t ∷ text)
  here_char :
      {c d t : ℕ} {re text : List ℕ}
      → d ≢ star
      → Stands c t
      → Here (d ∷ re) text
      → Here (c ∷ d ∷ re) (t ∷ text)
  here_zero : {c : ℕ} {re text : List ℕ} → Here re text → Here (c ∷ star ∷ re) text
  here_more :
      {c t : ℕ} {re text : List ℕ}
      → Stands c t
      → Here (c ∷ star ∷ re) text
      → Here (c ∷ star ∷ re) (t ∷ text)

Stands-test : (c t : ℕ) → (c == dot || c == t) ≡ true → Stands c t
unfolding Stands
Stands-test c t e = ground (arith, e)

test-Stands : (c t : ℕ) → Stands c t → (c == dot || c == t) ≡ true
unfolding Stands
test-Stands c t s = ground (arith, s)

same_test : (c t : ℕ) → (t == c || c == dot) ≡ (c == dot || c == t)
same_test c t = ground arith

second_of :
    (a b r : Bool)
    → (if a then true else (if b then r else false)) ≡ true
    → a ≡ false
    → (b ≡ true) × (r ≡ true)
second_of a b r e f = (ground (arith, e, f), ground (arith, e, f))

matchstar-true :
    (c : ℕ) (re text : List ℕ)
    → ((u : List ℕ) → matchhere re u ≡ true → Here re u)
    → matchstar c (matchhere re) text ≡ true
    → Here (c ∷ star ∷ re) text
unfolding matchstar
matchstar-true c re [] h e = here_zero (h [] e)
matchstar-true c re (t ∷ text) h e = elim (Bool-cases (matchhere re (t ∷ text))) [
  | inl f ↦ here_zero (h (t ∷ text) f)
  | inr f ↦
      let (test, rest) = second_of _ _ _ e f in
      here_more (Stands-test c t (sym (same_test c t) ∙ test)) (matchstar-true c re text h rest)
]

matchstar_zero :
    (c : ℕ) (here : List ℕ → Bool) (text : List ℕ) → here text ≡ true → matchstar c here text ≡ true
unfolding matchstar
matchstar_zero c here [] e = e
matchstar_zero c here (t ∷ text) e = rw e refl

true_either : (a : Bool) → (if a then true else true) ≡ true
true_either true = refl
true_either false = refl

matchstar-Here :
    (c : ℕ) (re text : List ℕ)
    → ((u : List ℕ) → Here re u → matchhere re u ≡ true)
    → Here (c ∷ star ∷ re) text
    → matchstar c (matchhere re) text ≡ true
unfolding matchstar
matchstar-Here c re text h (here_zero e) = matchstar_zero c (matchhere re) text (h text e)
matchstar-Here c re (t ∷ text) h (here_more s e) =
    let test : (t == c || c == dot) ≡ true = same_test c t ∙ test-Stands c t s in
    rw (test, matchstar-Here c re text h e) (true_either (matchhere re (t ∷ text)))
matchstar-Here c re text h (here_char n s e) = absurd (n refl)

unstarred :
    (c d : ℕ) (re text : List ℕ)
    → d ≢ star
    → ((u : List ℕ) → matchhere (d ∷ re) u ≡ true → Here (d ∷ re) u)
    → match_char c (matchhere (d ∷ re)) text ≡ true
    → Here (c ∷ d ∷ re) text
unfolding match_char
unstarred c d re [] n h e = absurd (ground (arith, e))
unstarred c d re (t ∷ text) n h e =
    here_char n (Stands-test c t (ground (arith, e))) (h text (ground (arith, e)))

matchhere-true : (re text : List ℕ) → matchhere re text ≡ true → Here re text
unfolding matchhere match_char
matchhere-true [] text e = here_none
matchhere-true (c ∷ []) [] e = elim (Bool-cases (c == dollar)) [
  | inl f ↦ let last : c ≡ dollar = ground (arith, f) in rw last here_end
  | inr f ↦ absurd (ground (arith, e, f))
]
matchhere-true (c ∷ []) (t ∷ text) e = elim (Bool-cases (c == dollar)) [
  | inl f ↦ absurd (ground (arith, e, f))
  | inr f ↦ here_last (ground (arith, f)) (Stands-test c t (ground (arith, e, f)))
]
matchhere-true (c ∷ d ∷ re) text e = elim (Bool-cases (d == star)) [
  | inl f ↦
      let starred : d ≡ star = ground (arith, f) in
      rw starred (matchstar-true c re text (matchhere-true re) (ground (arith, e, f)))
  | inr f ↦
      unstarred c d re text (ground (arith, f)) (matchhere-true (d ∷ re)) (ground (arith, e, f))
]

matchhere-Here : (re text : List ℕ) → Here re text → matchhere re text ≡ true
unfolding matchhere match_char
matchhere-Here [] text h = refl
matchhere-Here (c ∷ []) text here_end = refl
matchhere-Here (c ∷ []) (t ∷ text) (here_last n s) = ground (arith, n, test-Stands c t s)
matchhere-Here (c ∷ d ∷ re) (t ∷ text) (here_char n s e) =
    ground (arith, n, test-Stands c t s, matchhere-Here (d ∷ re) text e)
matchhere-Here (c ∷ d ∷ re) text (here_zero e) =
    matchstar-Here c re text (matchhere-Here re) (here_zero e)
matchhere-Here (c ∷ d ∷ re) text (here_more s e) =
    matchstar-Here c re text (matchhere-Here re) (here_more s e)

-- Without `^` in front, the pattern stands for something anywhere in the text.
Anywhere : (re text : List ℕ) → Type 0
Anywhere re text = (before : List ℕ) × (rest : List ℕ) × (text ≡ before ++ rest) × Here re rest

pub Matches : (re text : List ℕ) → Type 0
Matches re text =
    ((re' : List ℕ) × (re ≡ caret ∷ re') × Here re' text)
    ⊎ (((re' : List ℕ) → re ≢ caret ∷ re') × Anywhere re text)

match_loop-true : (re text : List ℕ) → match_loop re text ≡ true → Anywhere re text
unfolding match_loop Anywhere
match_loop-true re [] e = ([], [], refl, matchhere-true re [] e)
match_loop-true re (t ∷ text) e = elim (Bool-cases (matchhere re (t ∷ text))) [
  | inl f ↦ ([], t ∷ text, refl, matchhere-true re (t ∷ text) f)
  | inr f ↦
      let (before, rest, split, h) = match_loop-true re text (ground (arith, e, f)) in
      (t ∷ before, rest, ap (t ∷◌) split, h)
]

match_loop_self : (re text : List ℕ) → matchhere re text ≡ true → match_loop re text ≡ true
unfolding match_loop
match_loop_self re [] e = e
match_loop_self re (t ∷ text) e = rw e refl

match_loop-Here : (re before rest : List ℕ) → Here re rest → match_loop re (before ++ rest) ≡ true
unfolding match_loop
match_loop-Here re [] rest h = match_loop_self re rest (matchhere-Here re rest h)
match_loop-Here re (t ∷ before) rest h =
    rw (match_loop-Here re before rest h) (true_either (matchhere re (t ∷ before ++ rest)))

match_re-true : (re text : List ℕ) → match_re re text ≡ true → Matches re text
unfolding match_re Matches
match_re-true [] text e = inr (λ re' f. absurd (ground (arith, f)), match_loop-true [] text e)
match_re-true (c ∷ re) text e = elim (Bool-cases (c == caret)) [
  | inl f ↦
      let first : c ≡ caret = ground (arith, f) in
      inl (re, ap (◌∷ re) first, matchhere-true re text (ground (arith, e, f)))
  | inr f ↦
      inr (
        λ re' g. absurd (ground (arith, f, g)),
        match_loop-true (c ∷ re) text (ground (arith, e, f)),
      )
]

match_re_anywhere :
    (re text : List ℕ)
    → ((re' : List ℕ) → re ≢ caret ∷ re')
    → match_loop re text ≡ true
    → match_re re text ≡ true
unfolding match_re
match_re_anywhere [] text n e = e
match_re_anywhere (c ∷ re) text n e =
    let other : (c == caret) ≡ false = elim (Bool-cases (c == caret)) [
      | inl f ↦ let first : c ≡ caret = ground (arith, f) in absurd (n re (ap (◌∷ re) first))
      | inr f ↦ f
    ] in
    rw other e

match_re-Here : (re text : List ℕ) → Matches re text → match_re re text ≡ true
unfolding match_re Matches Anywhere
match_re-Here re text (inl (re', e, h)) = rw e (matchhere-Here re' text h)
match_re-Here re text (inr (n, (before, rest, split, h))) =
    match_re_anywhere re text n (rw split (match_loop-Here re before rest h))

-- `match` returns 1 exactly when the text matches the pattern: behind a `^` in front, at its
-- beginning, else anywhere in it. A pattern matches character by character, where `.` stands for
-- any one, a character with `*` behind it for any number of it, and a `$` that is last for the end.
pub match_re-Matches : (re text : List ℕ) → (match_re re text ≡ true) ↔ Matches re text
match_re-Matches re text = (match_re-true re text, match_re-Here re text)
