-- ===== src/Lighting/Decimal.antt =====
-- The decimal digits of a number, and the number that they stand for.
use stagepilot_beta.Common.{
  ℕ, zero, suc, ◌+◌, ◌*◌, ◌/◌, ◌%◌, ◌<◌, leb, ◌==◌, true, [], ◌∷◌, all, length, ◌≡◌, refl, ap, ◌∙◌,
  Bool-cases, inl, inr, arith,
}
use stagepilot_beta.Registry.Names.{is_digit}
use stagepilot_beta.Registry.Sources.{Text, number_from, digits_from, digit_char, digit_value}
use stagepilot_beta.Lighting.{decimal_text, pad_two}

-- The numbers of at most so many digits.
unfoldable pub reach : ℕ → ℕ
reach zero = 1
reach (suc left) = 10 * reach left

reach-le : (n : ℕ) → n < reach n
unfolding reach
reach-le zero = omega arith
reach-le (suc n) = omega (arith, reach-le n)

value-digit : (d : ℕ) → d < 10 → digit_value (digit_char d) ≡ d
value-digit d h = ground arith

first-digit : (n : ℕ) → (n / 10 == 0) ≡ true → 0 * 10 + digit_value (digit_char (n % 10)) ≡ n
first-digit n small = ground (arith, value-digit (n % 10) (omega arith))

last-digit : (n : ℕ) → n / 10 * 10 + digit_value (digit_char (n % 10)) ≡ n
last-digit n = omega (arith, value-digit (n % 10) (omega arith))

pub read-digits :
    (left n : ℕ) (behind : Text)
    → n < reach left
    → number_from 10 0 (digits_from left 10 n behind) ≡ number_from 10 n behind
unfolding number_from digits_from reach
read-digits zero n behind h = ap (λ k. number_from 10 k behind) (omega arith)
read-digits (suc left) n behind h = elim (Bool-cases (n / 10 == 0)) [
  | inl small ↦ rw small (ap (λ k. number_from 10 k behind) (first-digit n small))
  | inr large ↦ rw large (
      read-digits left (n / 10) (digit_char (n % 10) ∷ behind) (omega arith)
      ∙ ap (λ k. number_from 10 k behind) (last-digit n))
]

pub digits-all :
    (left n : ℕ) (behind : Text)
    → all is_digit behind ≡ true
    → all is_digit (digits_from left 10 n behind) ≡ true
unfolding digits_from
digits-all zero n behind h = h
digits-all (suc left) n behind h =
    ground (arith, digits-all left (n / 10) (digit_char (n % 10) ∷ behind))

-- Three digits stand for less than a thousand.
pub read-lt :
    (text : Text)
    → leb (length text) 3 ≡ true
    → all is_digit text ≡ true
    → number_from 10 0 text < 1000
unfolding number_from
read-lt [] short h = omega arith
read-lt (a ∷ []) short h = ground arith
read-lt (a ∷ b ∷ []) short h = ground arith
read-lt (a ∷ b ∷ c ∷ []) short h = ground arith
read-lt (a ∷ b ∷ c ∷ d ∷ text) short h = ground arith

pub decimal-read : (n : ℕ) → number_from 10 0 (decimal_text n) ≡ n
unfolding decimal_text number_from
decimal-read n = read-digits (suc n) n [] (omega (arith, reach-le (suc n)))

pub decimal-all : (n : ℕ) → all is_digit (decimal_text n) ≡ true
unfolding decimal_text
decimal-all n = digits-all (suc n) n [] refl

-- The digits of a number below a hundred, padded.
pub pad-eq : (n : ℕ) → n < 100 → pad_two (decimal_text n) ≡ ((n / 10 + 48) ∷ (n % 10 + 48) ∷ [])
unfolding decimal_text digits_from
pad-eq zero h = refl
pad-eq (suc n) h = ground arith
