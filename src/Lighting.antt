-- ===== src/Lighting.antt =====
-- frontend/src/components/lightingOsc.ts: the times of cues, in tenths of a second, as a person
-- reads and types them, on the code points of a text.
mod Decimal
mod Parts
pub mod Osc
pub mod RoundTrip
use stagepilot_beta.Common.{
  ℕ, zero, suc, ◌+◌, ◌-◌, ◌*◌, ◌/◌, ◌%◌, ltb, leb, ◌==◌, Bool, true, false, ◌&&◌, List, [], ◌∷◌,
  ◌++◌, all, length, Option, none, some, if◌then◌else◌,
}
use stagepilot_beta.Registry.Names.{is_digit}
use stagepilot_beta.Registry.Sources.{
  Text, split, number_from, digits_from, drop_space, drop_space_end,
}

-- `String(n)`
unfoldable pub decimal_text : ℕ → Text
unfolding digits_from
decimal_text n = digits_from (suc n) 10 n []

-- `padStart(2, "0")`
abbrev pub pad_two : Text → Text
pad_two [] = b'0' ∷ b'0' ∷ []
pad_two (c ∷ []) = b'0' ∷ c ∷ []
pad_two (c ∷ d ∷ cs) = c ∷ d ∷ cs

unfoldable pub clock_text : ℕ → Text
unfolding decimal_text
clock_text whole =
    pad_two (decimal_text (whole / 60)) ++ (b':' ∷ pad_two (decimal_text (whole % 60)))

-- `formatElapsed` of a time that is rounded to tenths of a second.
unfoldable pub format_elapsed : ℕ → Text
unfolding clock_text decimal_text
format_elapsed tenths =
    if tenths % 10 == 0
    then clock_text (tenths / 10)
    else clock_text (tenths / 10) ++ (b'.' ∷ decimal_text (tenths % 10))

-- `\d{1,3}`
unfoldable pub is_minutes : Text → Bool
is_minutes text = leb 1 (length text) && leb (length text) 3 && all is_digit text

-- `[0-5]\d(?:\.(\d))?$`, in tenths of a second.
unfoldable pub read_seconds : Text → Option ℕ
read_seconds (a ∷ b ∷ []) =
    if leb b'0' a && leb a b'5' && is_digit b then some (((a - 48) * 10 + (b - 48)) * 10) else none
read_seconds (a ∷ b ∷ c ∷ d ∷ []) =
    if leb b'0' a && leb a b'5' && is_digit b && c == b'.' && is_digit d
    then some (((a - 48) * 10 + (b - 48)) * 10 + (d - 48))
    else none
read_seconds _ = none

unfoldable pub with_minutes : ℕ → Option ℕ → Option ℕ
with_minutes minutes none = none
with_minutes minutes (some tenths) = some (minutes * 600 + tenths)

unfoldable pub match_elapsed : List Text → Option ℕ
unfolding is_minutes number_from read_seconds with_minutes
match_elapsed (minutes ∷ seconds ∷ []) =
    if is_minutes minutes
    then with_minutes (number_from 10 0 minutes) (read_seconds seconds)
    else none
match_elapsed _ = none

-- The minutes have no colon, so the first colon is the one of the pattern.
unfoldable pub parse_elapsed : Text → Option ℕ
unfolding match_elapsed split drop_space drop_space_end
parse_elapsed text = match_elapsed (split b':' (drop_space_end (drop_space text)))
