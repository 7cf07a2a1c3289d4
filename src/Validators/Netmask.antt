-- ===== src/Validators/Netmask.antt =====
-- src/commands/validators.ts: which masks the test for contiguous ones accepts.
use vigor3912s_mcp.Common.{
  ℕ, zero, suc, ◌+◌, ◌-◌, ◌*◌, ◌/◌, ◌%◌, ◌^◌, ◌≤◌, ◌<◌, ◌≡◌, refl, ap, ◌∙◌, subst, ◌↔◌, true, Text,
  List, [], ◌∷◌, eqb, Bool-cases, ◌⊎◌, inl, inr, arith,
}
use vigor3912s_mcp.Validators.{
  bit_or, is_contiguous, reduce_octets, octet_value, mask_of, split_dots,
}

double_pow : (w : ℕ) → 2 ^ suc w ≡ 2 * 2 ^ w
double_pow w = omega arith

even_digit : (a : ℕ) → (2 * a % 2 ≡ 0) × (2 * a / 2 ≡ a)
even_digit a = (omega arith, omega arith)

odd_digit : (a : ℕ) → ((2 * a + 1) % 2 ≡ 1) × ((2 * a + 1) / 2 ≡ a)
odd_digit a = (omega arith, omega arith)

-- `|` digit by digit: the last digits, and the rest.
bit_or-even : (w a b : ℕ) → bit_or (suc w) (2 * a) (2 * b + 1) ≡ 1 + 2 * bit_or w a b
unfolding bit_or
bit_or-even w a b = rw ((even_digit a).0, (even_digit a).1, (odd_digit b).0, (odd_digit b).1) refl

bit_or-odd : (w a b : ℕ) → bit_or (suc w) (2 * a + 1) (2 * b) ≡ 1 + 2 * bit_or w a b
unfolding bit_or
bit_or-odd w a b = rw ((odd_digit a).0, (odd_digit a).1, (even_digit b).1) refl

bit_or-both : (w a : ℕ) → bit_or (suc w) (2 * a + 1) (2 * a + 1) ≡ 1 + 2 * bit_or w a a
unfolding bit_or
bit_or-both w a = rw ((odd_digit a).0, (odd_digit a).1) refl

bit_or-neither : (w a : ℕ) → bit_or (suc w) (2 * a) (2 * a) ≡ 2 * bit_or w a a
unfolding bit_or
bit_or-neither w a = rw ((even_digit a).0, (even_digit a).1) (omega arith)

-- A number by its last digit.
last_digit : (n : ℕ) → ((q : ℕ) × (n ≡ 2 * q)) ⊎ ((q : ℕ) × (n ≡ 2 * q + 1))
last_digit n = elim (Bool-cases (eqb (n % 2) 0)) [
  | inl even ↦ inl (n / 2, ground arith)
  | inr odd ↦ inr (n / 2, ground arith)
]

bit_or_idem : (w a : ℕ) → a < 2 ^ w → bit_or w a a ≡ a
unfolding bit_or
bit_or_idem zero a h = omega arith
bit_or_idem (suc w) a h = elim (last_digit a) [
  | inl (q, even) ↦
      rw even (bit_or-neither w q ∙ ap (λ x. 2 * x) (bit_or_idem w q (omega (arith, double_pow w))))
  | inr (q, odd) ↦
      rw odd (bit_or-both w q ∙ omega (arith, bit_or_idem w q (omega (arith, double_pow w))))
]

-- The number before an even one ends in a set bit.
bit_or-before_even :
    (w m q : ℕ) → 0 < m → m ≡ 2 * q → bit_or (suc w) m (m - 1) ≡ 1 + 2 * bit_or w q (q - 1)
bit_or-before_even w m q p even =
    let before : m - 1 ≡ 2 * (q - 1) + 1 = omega arith in
    ap (λ y. bit_or (suc w) m y) before
    ∙ ap (λ x. bit_or (suc w) x (2 * (q - 1) + 1)) even
    ∙ bit_or-even w q (q - 1)

bit_or-before_odd : (w m q : ℕ) → q < 2 ^ w → m ≡ 2 * q + 1 → bit_or (suc w) m (m - 1) ≡ 1 + 2 * q
bit_or-before_odd w m q h odd =
    let before : m - 1 ≡ 2 * q = omega arith in
    ap (λ y. bit_or (suc w) m y) before
    ∙ ap (λ x. bit_or (suc w) x (2 * q)) odd
    ∙ bit_or-odd w q q
    ∙ ap (λ x. 1 + 2 * x) (bit_or_idem w q h)

-- A number of w bits with all of them set when it is joined with the number before it has its set
-- bits in front, and the other way round.
full→mask :
    (w m : ℕ)
    → 0 < m
    → m < 2 ^ w
    → bit_or w m (m - 1) ≡ 2 ^ w - 1
    → (k : ℕ) × (k < w) × (m + 2 ^ k ≡ 2 ^ w)
full→mask zero m p h e = ground arith
full→mask (suc w) m p h e = elim (last_digit m) [
  | inl (q, even) ↦
      let full : bit_or w q (q - 1) ≡ 2 ^ w - 1 =
        omega (arith, double_pow w, e, bit_or-before_even w m q p even) in
      let (k, lt, sum) = full→mask w q (omega arith) (omega (arith, double_pow w)) full in
      (suc k, omega arith, omega (arith, double_pow w, double_pow k))
  | inr (q, odd) ↦
      let low : q < 2 ^ w = omega (arith, double_pow w) in
      (0, omega arith, omega (arith, double_pow w, e, bit_or-before_odd w m q low odd))
]

mask→full : (w m k : ℕ) → 0 < m → k < w → m + 2 ^ k ≡ 2 ^ w → bit_or w m (m - 1) ≡ 2 ^ w - 1
mask→full zero m k p lt sum = omega arith
mask→full (suc w) m zero p lt sum =
    let odd : m ≡ 2 * (2 ^ w - 1) + 1 = omega (arith, double_pow w) in
    omega (arith, double_pow w, bit_or-before_odd w m (2 ^ w - 1) (omega (arith, double_pow w)) odd)
mask→full (suc w) m (suc k) p lt sum =
    let even : m ≡ 2 * (2 ^ w - 2 ^ k) = omega (arith, double_pow w, double_pow k) in
    let half =
      mask→full w (2 ^ w - 2 ^ k) k (omega (arith, double_pow w, double_pow k)) (omega arith)
        (omega (arith, double_pow w, double_pow k)) in
    omega (arith, double_pow w, half, bit_or-before_even w m (2 ^ w - 2 ^ k) p even)

bit_or-lt : (w a b : ℕ) → bit_or w a b < 2 ^ w
unfolding bit_or
bit_or-lt zero a b = omega arith
bit_or-lt (suc w) a b = ground (arith, double_pow w, bit_or-lt w (a / 2) (b / 2))

reduce_octets-lt :
    (number : Text → ℕ) (octets : List Text) (result : ℕ)
    → result < 2 ^ 32
    → reduce_octets number result octets < 2 ^ 32
unfolding reduce_octets
reduce_octets-lt number [] result h = h
reduce_octets-lt number (octet ∷ octets) result h =
    reduce_octets-lt number octets (bit_or 32 ((result * 256) % 2 ^ 32) (octet_value number octet))
      (bit_or-lt 32 ((result * 256) % 2 ^ 32) (octet_value number octet))

mask_of-lt : (number : Text → ℕ) (value : Text) → mask_of number value < 2 ^ 32
unfolding mask_of
mask_of-lt number value = reduce_octets-lt number (split_dots value) 0 (omega arith)

is_contiguous-mask :
    (mask : ℕ)
    → mask < 2 ^ 32
    → is_contiguous mask ≡ true
    → (k : ℕ) × (k ≤ 32) × (mask + 2 ^ k ≡ 2 ^ 32)
unfolding is_contiguous
is_contiguous-mask zero h e = (32, omega arith, refl)
is_contiguous-mask (suc m) h e =
    let (k, lt, sum) = full→mask 32 (suc m) (omega arith) h (ground arith) in (k, omega arith, sum)

mask-is_contiguous : (mask k : ℕ) → k ≤ 32 → mask + 2 ^ k ≡ 2 ^ 32 → is_contiguous mask ≡ true
unfolding is_contiguous
mask-is_contiguous zero k h e = refl
mask-is_contiguous (suc m) k h e = elim (Bool-cases (eqb k 32)) [
  | inl whole ↦
      let all_bits : k ≡ 32 = ground arith in
      let sum : suc m + 2 ^ 32 ≡ 2 ^ 32 = subst (λ x. suc m + 2 ^ x ≡ 2 ^ 32) all_bits e in
      ground arith
  | inr part ↦ ground (arith, mask→full 32 (suc m) k)
]

-- A text passes the refinement of `ipv4Mask` exactly if the 32 bits that it stands for are ones
-- followed by k zeros, for some k up to 32, whatever
-- `Number` makes of an octet that is not decimal.
pub is_contiguous_iff :
    (number : Text → ℕ) (value : Text)
    → (is_contiguous (mask_of number value) ≡ true)
      ↔ ((k : ℕ) × (k ≤ 32) × (mask_of number value + 2 ^ k ≡ 2 ^ 32))
is_contiguous_iff number value = (
  is_contiguous-mask (mask_of number value) (mask_of-lt number value),
  λ (k, h, e). mask-is_contiguous (mask_of number value) k h e,
)
