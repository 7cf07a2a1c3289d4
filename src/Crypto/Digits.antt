-- ===== src/Crypto/Digits.antt =====
-- The decimal digits of a number, as a template string prints an integer, and their reading.
-- The recursion is on fuel; a number is more fuel than it has digits.
use vigor3912s_mcp.Common.{
  ℕ, zero, suc, ◌+◌, ◌-◌, ◌*◌, ◌/◌, ◌%◌, ◌<◌, ◌≡◌, [], ◌∷◌, arith, Text, ltb, if◌then◌else◌, All,
  Bool-cases, inl, inr, ap, sym, ◌∙◌,
}

decimal_from : ℕ → ℕ → Text → Text
decimal_from zero n rest = rest
decimal_from (suc f) n rest =
    let longer = decimal_from f (n / 10) ((48 + n % 10) ∷ rest) in
    if ltb n 10 then (48 + n) ∷ rest else longer

unfoldable pub decimal : ℕ → Text
unfolding decimal_from
decimal n = decimal_from (suc n) n []

decimal_from-below :
    (f n : ℕ) (rest : Text) → All (λ c. c < 58) rest → All (λ c. c < 58) (decimal_from f n rest)
unfolding decimal_from
decimal_from-below zero n rest h = h
decimal_from-below (suc f) n rest h = elim (Bool-cases (ltb n 10)) [
  | inl small ↦ rw small (ground arith, h)
  | inr big ↦ rw big (decimal_from-below f (n / 10) ((48 + n % 10) ∷ rest) (omega arith, h))
]

pub decimal-below : (n : ℕ) → All (λ c. c < 58) (decimal n)
unfolding decimal
decimal-below n = decimal_from-below (suc n) n [] tt

-- Reading digits from the left.
number_from : ℕ → Text → ℕ
number_from acc [] = acc
number_from acc (c ∷ s) = number_from (acc * 10 + (c - 48)) s

pub number : Text → ℕ
unfolding number_from
number s = number_from 0 s

number_from-decimal_from :
    (f n : ℕ) (rest : Text) → n < f → number_from 0 (decimal_from f n rest) ≡ number_from n rest
unfolding number_from decimal_from
number_from-decimal_from zero n rest h = elim h [ ]
number_from-decimal_from (suc f) n rest h = elim (Bool-cases (ltb n 10)) [
  | inl small ↦ rw small (ap (λ a. number_from a rest) (omega arith))
  | inr big ↦ rw big (
      number_from-decimal_from f (n / 10) ((48 + n % 10) ∷ rest) (ground arith)
      ∙ ap (λ a. number_from a rest) (omega arith))
]

pub number-decimal : (n : ℕ) → number (decimal n) ≡ n
unfolding number decimal
number-decimal n = number_from-decimal_from (suc n) n [] (omega arith)

pub decimal-injective : (n m : ℕ) → decimal n ≡ decimal m → n ≡ m
decimal-injective n m e = sym (number-decimal n) ∙ ap number e ∙ number-decimal m
