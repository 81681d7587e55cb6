-- ===== src/Registry/Names.antt =====
-- The texts of control-plane/src/index.ts: the forms of identifiers and generations, the tunnel's
-- name, and the device name that an installation reports of itself.
use Prim.Native.Char.{code}
use stagepilot_beta.Common.{
  ℕ, zero, suc, ◌+◌, String, List, [], ◌∷◌, Bool, true, false, ◌&&◌, ◌||◌, Option, none, some, leb,
  ◌<>◌, ltb, ◌==◌, if◌then◌else◌,
}

abbrev pub codes : String → List ℕ
codes String.[] = []
codes (String.◌∷◌ c s) = code c ∷ codes s

-- The rest of a text behind a prefix, if it starts with it: `startsWith` and `slice`.
unfoldable pub strip_prefix : String → String → Option String
strip_prefix String.[] s = some s
strip_prefix (String.◌∷◌ c p) String.[] = none
strip_prefix (String.◌∷◌ c p) (String.◌∷◌ d s) = if code c == code d then strip_prefix p s else none

abbrev pub is_digit : ℕ → Bool
is_digit c = leb b'0' c && leb c b'9'

-- `[0-9a-f]` under the flag `i`
abbrev pub is_hex : ℕ → Bool
is_hex c = is_digit c || (leb b'a' c && leb c b'f') || (leb b'A' c && leb c b'F')

abbrev pub is_dash : ℕ → Bool
is_dash c = c == b'-'

abbrev pub is_version_digit : ℕ → Bool
is_version_digit c = leb b'1' c && leb c b'5'

abbrev pub is_variant_digit : ℕ → Bool
is_variant_digit c = c == b'8' || c == b'9' || c == b'a' || c == b'b' || c == b'A' || c == b'B'

-- One class for each character of a text of fixed length.
unfoldable pub fits : List (ℕ → Bool) → List ℕ → Bool
fits [] [] = true
fits [] (_ ∷ _) = false
fits (_ ∷ _) [] = false
fits (p ∷ ps) (c ∷ cs) = p c && fits ps cs

unfoldable pub times : ℕ → (ℕ → Bool) → List (ℕ → Bool) → List (ℕ → Bool)
times zero p ps = ps
times (suc n) p ps = p ∷ times n p ps

-- `/^[0-9a-f-]{36}$/i`
unfoldable pub is_tunnel_id : String → Bool
unfolding fits times
is_tunnel_id s = fits (times 36 (λ c. is_hex c || is_dash c) []) (codes s)

-- `/^[0-9a-f]{8}-[0-9a-f]{4}-[1-5][0-9a-f]{3}-[89ab][0-9a-f]{3}-[0-9a-f]{12}$/i`
unfoldable pub generation_form : List (ℕ → Bool)
unfolding times
generation_form = times 8 is_hex (
    is_dash
    ∷ times 4 is_hex (
        is_dash
        ∷ is_version_digit
        ∷ times 3 is_hex
            (is_dash ∷ is_variant_digit ∷ times 3 is_hex (is_dash ∷ times 12 is_hex []))))

unfoldable pub is_generation : String → Bool
unfolding fits generation_form
is_generation s = fits generation_form (codes s)

abbrev lower : ℕ → ℕ
lower c = if leb b'A' c && leb c b'Z' then c + 32 else c

same_codes : List ℕ → List ℕ → Bool
same_codes [] [] = true
same_codes [] (_ ∷ _) = false
same_codes (_ ∷ _) [] = false
same_codes (c ∷ cs) (d ∷ ds) = lower c == lower d && same_codes cs ds

-- `a.toLowerCase() === b.toLowerCase()`, of texts in ASCII
unfoldable pub same_generation : String → String → Bool
unfolding same_codes
same_generation a b = same_codes (codes a) (codes b)

unfoldable pub tunnel_prefix : String → String
tunnel_prefix id = "stagepilot-" <> id <> "-"

unfoldable pub tunnel_name : String → String → String
unfolding tunnel_prefix
tunnel_name id generation = tunnel_prefix id <> generation

unfoldable pub tunnel_target : String → String
tunnel_target tunnel_id = tunnel_id <> ".cfargotunnel.com"

-- `/\s/`, and what `trim` takes off
abbrev pub is_space : ℕ → Bool
is_space c =
    (leb 9 c && leb c 13)
    || c == 32
    || c == 160
    || c == 0x1680
    || (leb 0x2000 c && leb c 0x200a)
    || c == 0x2028
    || c == 0x2029
    || c == 0x202f
    || c == 0x205f
    || c == 0x3000
    || c == 0xfeff

-- UTF-16 units, which `length` and `slice` count
abbrev pub units : ℕ → ℕ
units c = if ltb c 0x10000 then 1 else 2

unfoldable pub utf16_length : String → ℕ
utf16_length String.[] = 0
utf16_length (String.◌∷◌ c s) = units (code c) + utf16_length s

unfoldable pub has_space : String → Bool
has_space String.[] = false
has_space (String.◌∷◌ c s) = is_space (code c) || has_space s

unfoldable pub same_bytes : List ℕ → List ℕ → Bool
same_bytes [] [] = true
same_bytes [] (_ ∷ _) = false
same_bytes (_ ∷ _) [] = false
same_bytes (a ∷ as') (b ∷ bs) = a == b && same_bytes as' bs
