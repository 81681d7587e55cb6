-- ===== src/Examples/Lighting.antt =====
-- Times and arguments of frontend/src/components/lightingOsc.ts, with numbers for the floats.
use stagepilot_beta.Common.{true, List, [], ◌∷◌, map, All, Option, none, some, ◌≡◌, refl, arith}
use stagepilot_beta.Registry.Sources.{Text}
use stagepilot_beta.Lighting.{format_elapsed, parse_elapsed}
use stagepilot_beta.Lighting.RoundTrip.{parse-format}
use stagepilot_beta.Lighting.Osc.{
  negsuc, OscArgument, int, float, bool, string, Draft, int_type, bool_type, argument_to_draft,
  parse_osc_arguments,
}
use stagepilot_beta.Lighting.Osc.Drafts.{Fits, Shows, drafts-read, typed-Fits}

-- One minute, one and a half seconds.
parse-format_example : parse_elapsed (format_elapsed 615) ≡ some 615
parse-format_example = parse-format 615

-- Floats of which there is one, 0.5.
abbrev half : Text
half = b'0' ∷ b'.' ∷ b'5' ∷ []

abbrev show_half : Unit {0} → Text
show_half tt = half

abbrev read_half : Text → Option (Unit {0})
read_half text = some tt

half-Shows : Shows (Unit {0}) show_half read_half
half-Shows = record { solid = λ f. refl; filled = λ f. refl; read = λ f. refl }

abbrev args : List (OscArgument (Unit {0}))
args = int (negsuc 41) ∷ float tt ∷ bool true ∷ string (b'g' ∷ b'o' ∷ []) ∷ []

drafts-read_example :
    parse_osc_arguments read_half (map (argument_to_draft show_half) args) ≡ (args, none)
drafts-read_example =
    drafts-read show_half read_half half-Shows args (omega arith, (tt, (tt, (omega arith, tt))))

abbrev drafts : List Draft
drafts =
    record { type_of = int_type; text = b'4' ∷ b'2' ∷ [] }
    ∷ record { type_of = bool_type; text = b't' ∷ b'r' ∷ b'u' ∷ b'e' ∷ [] }
    ∷ []

typed-Fits_example : All Fits (parse_osc_arguments read_half drafts).0
typed-Fits_example = typed-Fits (Unit {0}) read_half drafts
