-- ===== src/Log/Allowance.antt =====
-- What each operation in progress may still write to the log, as a list of numbers.
use mitcppos.Prelude.{
  ℕ, zero, suc, ◌+◌, ◌*◌, ◌≤◌, ◌<◌, ◌≡◌, arith, List, [], ◌∷◌, length, set, get_elem?, some,
}

unfoldable pub sum : List ℕ → ℕ
sum [] = 0
sum (x ∷ xs) = x + sum xs

-- the list without its element `i`
unfoldable pub remove : List ℕ → ℕ → List ℕ
remove [] i = []
remove (x ∷ xs) zero = xs
remove (x ∷ xs) (suc i) = x ∷ remove xs i

abbrev pub AllAtMost : ℕ → List ℕ → Type 0
AllAtMost n [] = Unit
AllAtMost n (x ∷ xs) = (x ≤ n) × AllAtMost n xs

pub sum-le : (n : ℕ) (l : List ℕ) → AllAtMost n l → sum l ≤ n * length l
unfolding sum
sum-le n [] h = omega arith
sum-le n (x ∷ xs) (h, hs) = grind (arith, sum-le n xs hs)

pub sum-set : (l : List ℕ) (i r : ℕ) → get_elem? l i ≡ some (suc r) → sum (set l i r) + 1 ≡ sum l
unfolding sum
sum-set [] i r h = cc
sum-set (x ∷ xs) zero r h = ground arith
sum-set (x ∷ xs) (suc i) r h = omega (arith, sum-set xs i r h)

pub each-set :
    (n : ℕ) (l : List ℕ) (i r : ℕ)
    → get_elem? l i ≡ some (suc r)
    → AllAtMost n l
    → AllAtMost n (set l i r)
each-set n [] i r h a = a
each-set n (x ∷ xs) zero r h (a, rest) = (ground arith, rest)
each-set n (x ∷ xs) (suc i) r h (a, rest) = (a, each-set n xs i r h rest)

pub sum-remove : (l : List ℕ) (i : ℕ) → sum (remove l i) ≤ sum l
unfolding sum remove
sum-remove [] i = omega arith
sum-remove (x ∷ xs) zero = omega arith
sum-remove (x ∷ xs) (suc i) = omega (arith, sum-remove xs i)

pub length-remove :
    (l : List ℕ) (i r : ℕ) → get_elem? l i ≡ some r → length (remove l i) + 1 ≡ length l
unfolding remove
length-remove [] i r h = cc
length-remove (x ∷ xs) zero r h = omega arith
length-remove (x ∷ xs) (suc i) r h = omega (arith, length-remove xs i r h)

pub each-remove : (n : ℕ) (l : List ℕ) (i : ℕ) → AllAtMost n l → AllAtMost n (remove l i)
unfolding remove
each-remove n [] i a = a
each-remove n (x ∷ xs) zero (a, rest) = rest
each-remove n (x ∷ xs) (suc i) (a, rest) = (a, each-remove n xs i rest)

pub get-length : (l : List ℕ) (i r : ℕ) → get_elem? l i ≡ some r → 0 < length l
get-length [] i r e = cc
get-length (x ∷ xs) i r e = omega arith

pub get-sum : (l : List ℕ) (i r : ℕ) → get_elem? l i ≡ some r → r ≤ sum l
unfolding sum
get-sum [] i r e = cc
get-sum (x ∷ xs) zero r e = ground arith
get-sum (x ∷ xs) (suc i) r e = omega (arith, get-sum xs i r e)
