-- ===== src/Lighting/Parts.antt =====
-- The minutes and the seconds of a time, and the text around them.
use stagepilot_beta.Common.{
  ℕ, zero, suc, ◌+◌, ◌*◌, ◌/◌, ◌%◌, ◌≤◌, ◌<◌, ltb, leb, ltb→lt, ◌==◌, Bool, true, false, not, [],
  ◌∷◌, ◌++◌, all, length, some, ◌≡◌, refl, ◌∙◌, Bool-cases, inl, inr, arith,
}
use stagepilot_beta.Registry.Names.{is_digit, is_space}
use stagepilot_beta.Registry.Sources.{
  Text, number_from, digits_from, digit_char, split, drop_space, cons_solid, drop_space_end,
}
use stagepilot_beta.Lighting.{decimal_text, pad_two, is_minutes, read_seconds}
use stagepilot_beta.Lighting.Decimal.{reach, read-lt, decimal-read, decimal-all, pad-eq}

pub all-parts :
    (p : ℕ → Bool) (c : ℕ) (cs : Text) → all p (c ∷ cs) ≡ true → (p c ≡ true) × (all p cs ≡ true)
all-parts p c cs h = ground arith

pub all-append :
    (p : ℕ → Bool) (xs ys : Text) → all p xs ≡ true → all p ys ≡ true → all p (xs ++ ys) ≡ true
all-append p [] ys h k = k
all-append p (x ∷ xs) ys h k = ground (arith, all-append p xs ys)

digits-length :
    (left places n : ℕ) (behind : Text)
    → n < reach (suc places)
    → length (digits_from left 10 n behind) ≤ suc places + length behind
unfolding digits_from reach
digits-length zero places n behind h = omega arith
digits-length (suc left) zero n behind h = ground (arith, h)
digits-length (suc left) (suc places) n behind h =
    ground
      (arith, h, digits-length left places (n / 10) (digit_char (n % 10) ∷ behind) (omega arith))

decimal-length : (n : ℕ) → n < 1000 → length (decimal_text n) ≤ 3
unfolding decimal_text reach
decimal-length n h = digits-length (suc n) 2 n [] h

pad-read : (text : Text) → number_from 10 0 (pad_two text) ≡ number_from 10 0 text
unfolding number_from
pad-read [] = refl
pad-read (c ∷ []) = refl
pad-read (c ∷ d ∷ cs) = refl

pad-all : (text : Text) → all is_digit text ≡ true → all is_digit (pad_two text) ≡ true
pad-all [] h = refl
pad-all (c ∷ []) h = h
pad-all (c ∷ d ∷ cs) h = h

pad-length :
    (text : Text) → (length text ≤ 3 → length (pad_two text) ≤ 3) × (1 ≤ length (pad_two text))
pad-length [] = (λ h. omega arith, omega arith)
pad-length (c ∷ []) = (λ h. omega arith, omega arith)
pad-length (c ∷ d ∷ cs) = (λ h. h, omega arith)

pub minutes-read : (m : ℕ) → number_from 10 0 (pad_two (decimal_text m)) ≡ m
minutes-read m = pad-read (decimal_text m) ∙ decimal-read m

pub minutes-all : (m : ℕ) → all is_digit (pad_two (decimal_text m)) ≡ true
minutes-all m = pad-all (decimal_text m) (decimal-all m)

-- The pattern takes the minutes exactly when they are less than a thousand.
pub is_minutes-eq : (m : ℕ) → is_minutes (pad_two (decimal_text m)) ≡ ltb m 1000
unfolding is_minutes
is_minutes-eq m =
    let (most, least) = pad-length (decimal_text m) in
    elim (Bool-cases (ltb m 1000)) [
      | inl small ↦
          ground (arith, small, minutes-all m, least, most (decimal-length m (ltb→lt m 1000 small)))
      | inr large ↦ elim (Bool-cases (leb (length (pad_two (decimal_text m))) 3)) [
        | inl short ↦
            ground (
              arith,
              large,
              minutes-read m,
              read-lt (pad_two (decimal_text m)) short (minutes-all m),
            )
        | inr long ↦ ground (arith, large, long)
      ]
    ]

pub digit-eq : (d : ℕ) → d < 10 → decimal_text d ≡ ((d + 48) ∷ [])
unfolding decimal_text digits_from
digit-eq zero h = refl
digit-eq (suc d) h = ground arith

pub seconds-read : (s : ℕ) → s < 60 → read_seconds (pad_two (decimal_text s)) ≡ some (s * 10)
unfolding read_seconds
seconds-read s h = rw (pad-eq s (omega (arith, h))) (ground (arith, h))

pub tenths-read :
    (s d : ℕ)
    → s < 60
    → d < 10
    → read_seconds (pad_two (decimal_text s) ++ (b'.' ∷ decimal_text d)) ≡ some (s * 10 + d)
unfolding read_seconds
tenths-read s d h k = rw (pad-eq s (omega (arith, h)), digit-eq d k) (ground (arith, h, k))

not-colon : (c : ℕ) → is_digit c ≡ true → (c == b':') ≡ false
not-colon c h = ground arith

pub split-digits :
    (digits rest : Text)
    → all is_digit digits ≡ true
    → split b':' (digits ++ (b':' ∷ rest)) ≡ digits ∷ split b':' rest
unfolding split
split-digits [] rest h = refl
split-digits (c ∷ cs) rest h =
    let (digit, digits) = all-parts is_digit c cs h in
    rw (split-digits cs rest digits, not-colon c digit) refl

abbrev pub is_solid : ℕ → Bool
is_solid c = not (is_space c)

pub not-true : (b : Bool) → not b ≡ true → b ≡ false
not-true b h = ground arith

not-space : (c : ℕ) → is_solid c ≡ true → is_space c ≡ false
not-space c h = not-true (is_space c) h

pub drop-solid : (text : Text) → all is_solid text ≡ true → drop_space text ≡ text
unfolding drop_space
drop-solid [] h = refl
drop-solid (c ∷ cs) h = rw (not-space c (all-parts is_solid c cs h).0) refl

cons-solid : (c : ℕ) (cs : Text) → is_space c ≡ false → cons_solid c cs ≡ c ∷ cs
cons-solid c [] h = rw h refl
cons-solid c (d ∷ ds) h = refl

pub drop_end-solid : (text : Text) → all is_solid text ≡ true → drop_space_end text ≡ text
unfolding drop_space_end
drop_end-solid [] h = refl
drop_end-solid (c ∷ cs) h =
    let (solid, rest) = all-parts is_solid c cs h in
    rw (drop_end-solid cs rest) (cons-solid c cs (not-space c solid))

digit-solid : (c : ℕ) → is_digit c ≡ true → is_solid c ≡ true
digit-solid c h = ground arith

pub digits-solid : (text : Text) → all is_digit text ≡ true → all is_solid text ≡ true
digits-solid [] h = refl
digits-solid (c ∷ cs) h =
    let (digit, digits) = all-parts is_digit c cs h in
    rw (digit-solid c digit) (digits-solid cs digits)
