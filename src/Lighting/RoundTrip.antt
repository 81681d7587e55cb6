-- ===== src/Lighting/RoundTrip.antt =====
-- A time that is written and typed again.
use stagepilot_beta.Common.{
  ℕ, ◌/◌, ◌%◌, ltb, ◌==◌, Bool, true, not, [], ◌∷◌, ◌++◌, all, Option, none, some, ◌≡◌, refl, ap,
  Bool-cases, inl, inr, arith, if◌then◌else◌,
}
use stagepilot_beta.Registry.Names.{is_digit}
use stagepilot_beta.Registry.Sources.{Text, split}
use stagepilot_beta.Lighting.{
  decimal_text, pad_two, clock_text, format_elapsed, read_seconds, with_minutes, match_elapsed,
  parse_elapsed,
}
use stagepilot_beta.Lighting.Decimal.{decimal-all}
use stagepilot_beta.Lighting.Parts.{
  all-parts, not-true, all-append, minutes-read, minutes-all, is_minutes-eq, seconds-read,
  tenths-read, split-digits, is_solid, drop-solid, drop_end-solid, digits-solid,
}

abbrev is_plain : ℕ → Bool
is_plain c = not (c == b':')

plain-digit : (c : ℕ) → is_digit c ≡ true → is_plain c ≡ true
plain-digit c h = ground arith

plain-digits : (text : Text) → all is_digit text ≡ true → all is_plain text ≡ true
plain-digits [] h = refl
plain-digits (c ∷ cs) h =
    let (digit, digits) = all-parts is_digit c cs h in
    rw (plain-digit c digit) (plain-digits cs digits)

split-plain : (text : Text) → all is_plain text ≡ true → split b':' text ≡ text ∷ []
unfolding split
split-plain [] h = refl
split-plain (c ∷ cs) h =
    let (plain, rest) = all-parts is_plain c cs h in
    rw (split-plain cs rest, not-true (c == b':') plain) refl

append-cons : (xs : Text) (c : ℕ) (ys zs : Text) → (xs ++ (c ∷ ys)) ++ zs ≡ xs ++ (c ∷ (ys ++ zs))
append-cons [] c ys zs = refl
append-cons (x ∷ xs) c ys zs = ap (λ t. x ∷ t) (append-cons xs c ys zs)

abbrev read_again : ℕ → Text → Option ℕ
read_again m seconds = if ltb m 1000 then with_minutes m (read_seconds seconds) else none

-- A text of minutes, a colon and what has neither a colon nor space.
parse-parts :
    (m : ℕ) (seconds : Text)
    → all is_solid seconds ≡ true
    → all is_plain seconds ≡ true
    → parse_elapsed (pad_two (decimal_text m) ++ (b':' ∷ seconds)) ≡ read_again m seconds
unfolding parse_elapsed match_elapsed
parse-parts m seconds solid plain =
    let minutes = pad_two (decimal_text m) in
    let text = minutes ++ (b':' ∷ seconds) in
    let text-solid =
      all-append is_solid minutes (b':' ∷ seconds) (digits-solid minutes (minutes-all m)) solid in
    rw
      (
        drop-solid text text-solid,
        drop_end-solid text text-solid,
        split-digits minutes seconds (minutes-all m),
        split-plain seconds plain,
        is_minutes-eq m,
        minutes-read m,
      )
      refl

tenths-solid :
    (s d : ℕ)
    → (all is_solid (pad_two (decimal_text s) ++ (b'.' ∷ decimal_text d)) ≡ true)
      × (all is_plain (pad_two (decimal_text s) ++ (b'.' ∷ decimal_text d)) ≡ true)
tenths-solid s d = (
  all-append is_solid (pad_two (decimal_text s)) _
      (digits-solid (pad_two (decimal_text s)) (minutes-all s))
      (digits-solid (decimal_text d) (decimal-all d)),
  all-append is_plain (pad_two (decimal_text s)) _
      (plain-digits (pad_two (decimal_text s)) (minutes-all s))
      (plain-digits (decimal_text d) (decimal-all d)),
)

-- The text of a time is read as the same number of tenths of a second if it has less than a
-- thousand minutes, and is refused otherwise.
pub parse-format :
    (tenths : ℕ)
    → parse_elapsed (format_elapsed tenths) ≡ (if ltb tenths 600000 then some tenths else none)
unfolding format_elapsed clock_text with_minutes
parse-format tenths =
    let m = tenths / 10 / 60 in
    let s = tenths / 10 % 60 in
    let d = tenths % 10 in
    let pm = pad_two (decimal_text m) in
    let ps = pad_two (decimal_text s) in
    elim (Bool-cases (d == 0)) [
      | inl whole ↦
          rw
            (
              whole,
              parse-parts m ps (digits-solid ps (minutes-all s)) (plain-digits ps (minutes-all s)),
              seconds-read s (omega arith),
            )
            (ground (arith, whole))
      | inr rest ↦
          rw
            (
              rest,
              append-cons pm b':' ps (b'.' ∷ decimal_text d),
              parse-parts m (ps ++ (b'.' ∷ decimal_text d)) (tenths-solid s d).0
                  (tenths-solid s d).1,
              tenths-read s d (omega arith) (omega arith),
            )
            (ground (arith, rest))
    ]
