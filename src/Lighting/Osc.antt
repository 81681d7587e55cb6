-- ===== src/Lighting/Osc.antt =====
-- frontend/src/components/lightingOsc.ts: addresses and arguments of messages, on the UTF-16 units
-- of a text. `show` is `String(value)` of a float, and `number` is `Number(text)` where it is finite.
pub mod Drafts
use stagepilot_beta.Common.{
  ℕ, zero, suc, ◌-◌, ltb, leb, ◌==◌, Bool, true, false, not, ◌&&◌, ◌||◌, List, [], ◌∷◌, all, any,
  map, length, String, Option, none, some, if◌then◌else◌,
}
use stagepilot_beta.Registry.Names.{is_digit, is_space}
use stagepilot_beta.Registry.Sources.{Text, text_eq, number_from, drop_space, drop_space_end}
use stagepilot_beta.Lighting.{decimal_text}

pub data ℤ : Type 0 where
  pos negsuc : ℕ → ℤ

pub data ArgumentType : Type 0 where
  int_type float_type bool_type string_type : ArgumentType

pub data OscArgument (F : Type 0) : Type 0 where
  int : ℤ → OscArgument F
  float : F → OscArgument F
  bool : Bool → OscArgument F
  string : Text → OscArgument F

pub record Draft : Type 0 where
  pub type_of : ArgumentType
  pub text : Text

-- An argument, or a message.
pub data Parsed (A : Type 0) : Type 0 where
  accepted : A → Parsed A
  rejected : String → Parsed A

unfoldable pub trim_text : Text → Text
unfolding drop_space drop_space_end
trim_text text = drop_space_end (drop_space text)

abbrev pub is_empty : Text → Bool
is_empty [] = true
is_empty (_ ∷ _) = false

abbrev pub starts_with_slash : Text → Bool
starts_with_slash [] = false
starts_with_slash (c ∷ _) = c == b'/'

unfoldable pub address_error : Text → Option String
address_error value =
    if is_empty value
    then some "Enter an OSC address."
    else if not (starts_with_slash value)
    then some "Start the address with /."
    else if any is_space value
    then some "Remove spaces from the address."
    else if ltb 256 (length value)
    then some "Use 256 characters or fewer."
    else none

unfoldable pub osc_address_error : Text → Option String
unfolding trim_text address_error
osc_address_error address = address_error (trim_text address)

unfoldable pub osc_host_error : Text → Option String
unfolding trim_text
osc_host_error host =
    if not (is_empty (trim_text host)) && not (any is_space (trim_text host))
    then none
    else some "Enter a host name or IP address without spaces."

abbrev pub true_text : Text
true_text = b't' ∷ b'r' ∷ b'u' ∷ b'e' ∷ []

abbrev pub false_text : Text
false_text = b'f' ∷ b'a' ∷ b'l' ∷ b's' ∷ b'e' ∷ []

unfoldable pub show_int : ℤ → Text
unfolding decimal_text
show_int (pos n) = decimal_text n
show_int (negsuc n) = b'-' ∷ decimal_text (suc n)

abbrev pub show_bool : Bool → Text
show_bool true = true_text
show_bool false = false_text

abbrev pub magnitude : ℤ → ℕ
magnitude (pos n) = n
magnitude (negsuc n) = suc n

abbrev pub negate : ℕ → ℤ
negate zero = pos 0
negate (suc n) = negsuc n

-- `/^-?\d+$/`, and the number.
unfoldable pub read_digits : Text → Option ℕ
unfolding number_from
read_digits text =
    if not (is_empty text) && all is_digit text then some (number_from 10 0 text) else none

abbrev pub signed : Bool → Option ℕ → Option ℤ
signed negative none = none
signed true (some n) = some (negate n)
signed false (some n) = some (pos n)

unfoldable pub read_int : Text → Option ℤ
unfolding read_digits
read_int [] = none
read_int (c ∷ cs) =
    if c == b'-' then signed true (read_digits cs) else signed false (read_digits (c ∷ cs))

module _ {F : Type 0} where
  unfoldable pub bounded_int : Option ℤ → Parsed (OscArgument F)
  bounded_int none = rejected "Enter a whole number."
  bounded_int (some v) =
      if ltb (magnitude v) 2147483648
      then accepted (int v)
      else rejected "Enter a whole number below 2147483648."

  abbrev pub read_float : Option F → Parsed (OscArgument F)
  read_float none = rejected "Enter a number."
  read_float (some f) = accepted (float f)

  unfoldable pub read_bool : Text → Parsed (OscArgument F)
  unfolding text_eq
  read_bool text =
      if text_eq text true_text || text_eq text false_text
      then accepted (bool (text_eq text true_text))
      else rejected "Choose true or false."

  unfoldable pub read_string : Text → Parsed (OscArgument F)
  read_string text =
      if leb (length text) 512
      then accepted (string text)
      else rejected "Use 512 characters or fewer."

  unfoldable pub argument_to_draft : (F → Text) → OscArgument F → Draft
  unfolding show_int
  argument_to_draft show (int v) = record { type_of = int_type; text = show_int v }
  argument_to_draft show (float f) = record { type_of = float_type; text = show f }
  argument_to_draft show (bool b) = record { type_of = bool_type; text = show_bool b }
  argument_to_draft show (string text) = record { type_of = string_type; text = text }

  unfoldable pub parse_text : (Text → Option F) → ArgumentType → Text → Parsed (OscArgument F)
  unfolding trim_text read_int bounded_int read_bool read_string
  parse_text number int_type text = bounded_int (read_int (trim_text text))
  parse_text number float_type text =
      if is_empty (trim_text text)
      then rejected "Enter a number."
      else read_float (number (trim_text text))
  parse_text number bool_type text = read_bool (trim_text text)
  parse_text number string_type text = read_string text

  unfoldable pub parse_osc_argument : (Text → Option F) → Draft → Parsed (OscArgument F)
  unfolding parse_text
  parse_osc_argument number draft = parse_text number draft.type_of draft.text

  -- The arguments before are kept only if all are accepted.
  abbrev pub after_argument :
      Parsed (OscArgument F)
      → List (OscArgument F) × Option String
      → List (OscArgument F) × Option String
  after_argument (rejected message) rest = ([], some message)
  after_argument (accepted a) (args, none) = (a ∷ args, none)
  after_argument (accepted a) (args, some message) = ([], some message)

  unfoldable pub parse_osc_arguments :
      (Text → Option F) → List Draft → List (OscArgument F) × Option String
  unfolding parse_osc_argument
  parse_osc_arguments number [] = ([], none)
  parse_osc_arguments number (draft ∷ drafts) =
      after_argument (parse_osc_argument number draft) (parse_osc_arguments number drafts)
