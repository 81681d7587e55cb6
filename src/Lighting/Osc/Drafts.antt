-- ===== src/Lighting/Osc/Drafts.antt =====
-- Arguments that are shown and typed again, and the bounds of those that are typed.
use stagepilot_beta.Common.{
  ℕ, zero, suc, ◌/◌, ◌%◌, ◌≤◌, ◌<◌, ltb, leb, leb→le, ltb→lt, ◌==◌, Bool, Bool-cases, inl, inr,
  String, true, false, ◌||◌, List, [], ◌∷◌, all, map, length, All, Option, none, some, ◌≡◌, refl,
  ap, ◌∙◌, arith,
}
use stagepilot_beta.Registry.Names.{is_digit}
use stagepilot_beta.Registry.Sources.{
  Text, text_eq, digits_from, digit_char, drop_space, drop_space_end,
}
use stagepilot_beta.Lighting.{decimal_text}
use stagepilot_beta.Lighting.Decimal.{decimal-all, decimal-read}
use stagepilot_beta.Lighting.Parts.{all-parts, is_solid, drop-solid, drop_end-solid, digits-solid}
use stagepilot_beta.Lighting.Osc.{
  ℤ, pos, negsuc, OscArgument, int, float, bool, string, Draft, Parsed, accepted, rejected,
  trim_text, is_empty, show_int, show_bool, true_text, false_text, ArgumentType, int_type,
  float_type, bool_type, string_type, magnitude, signed, read_digits, read_int, bounded_int,
  read_float, read_bool, read_string, argument_to_draft, parse_text, parse_osc_argument,
  after_argument, parse_osc_arguments,
}

trim-solid : (text : Text) → all is_solid text ≡ true → trim_text text ≡ text
unfolding trim_text
trim-solid text h = rw (drop-solid text h) (drop_end-solid text h)

digits-filled : (left n c : ℕ) (cs : Text) → is_empty (digits_from left 10 n (c ∷ cs)) ≡ false
unfolding digits_from
digits-filled zero n c cs = refl
digits-filled (suc left) n c cs =
    ground (arith, digits-filled left (n / 10) (digit_char (n % 10)) (c ∷ cs))

decimal-filled : (n : ℕ) → is_empty (decimal_text n) ≡ false
unfolding decimal_text digits_from
decimal-filled n = ground (arith, digits-filled n (n / 10) (digit_char (n % 10)) [])

digits-read : (n : ℕ) → read_digits (decimal_text n) ≡ some n
unfolding read_digits
digits-read n = rw (decimal-filled n, decimal-all n, decimal-read n) refl

not-dash : (c : ℕ) → is_digit c ≡ true → (c == b'-') ≡ false
not-dash c h = ground arith

unsigned-read :
    (text : Text)
    → is_empty text ≡ false
    → all is_digit text ≡ true
    → read_int text ≡ signed false (read_digits text)
unfolding read_int
unsigned-read [] filled h = ground arith
unsigned-read (c ∷ cs) filled h = rw (not-dash c (all-parts is_digit c cs h).0) refl

int-read : (v : ℤ) → read_int (show_int v) ≡ some v
unfolding read_int show_int
int-read (pos n) =
    unsigned-read (decimal_text n) (decimal-filled n) (decimal-all n)
    ∙ ap (signed false) (digits-read n)
int-read (negsuc n) = rw (digits-read (suc n)) refl

int-solid : (v : ℤ) → all is_solid (show_int v) ≡ true
unfolding show_int
int-solid (pos n) = digits-solid (decimal_text n) (decimal-all n)
int-solid (negsuc n) = digits-solid (decimal_text (suc n)) (decimal-all (suc n))

-- What a message can carry.
abbrev pub Fits : {F : Type 0} → OscArgument F → Type 0
Fits (int v) = magnitude v < 2147483648
Fits (float f) = Unit
Fits (bool b) = Unit
Fits (string text) = length text ≤ 512

bool-read :
    (F : Type 0) (b : Bool) → read_bool {F = F} (trim_text (show_bool b)) ≡ accepted (bool b)
unfolding read_bool trim_text drop_space drop_space_end text_eq
bool-read F true = refl
bool-read F false = refl

-- A float that is shown is read as itself.
pub record Shows (F : Type 0) (show : F → Text) (number : Text → Option F) : Type 0 where
  pub solid : (f : F) → all is_solid (show f) ≡ true
  pub filled : (f : F) → is_empty (show f) ≡ false
  pub read : (f : F) → number (show f) ≡ some f

module _ {F : Type 0} (show : F → Text) (number : Text → Option F)
    (shows : Shows F show number) where
  draft-read :
      (a : OscArgument F)
      → Fits a
      → parse_osc_argument number (argument_to_draft show a) ≡ accepted a
  unfolding parse_osc_argument parse_text argument_to_draft bounded_int read_string
  draft-read (int v) fits =
      rw (trim-solid (show_int v) (int-solid v), int-read v) (ground (arith, fits))
  draft-read (float f) fits =
      rw (trim-solid (show f) (shows.solid f), shows.filled f, shows.read f) refl
  draft-read (bool b) fits = bool-read F b
  draft-read (string text) fits = ground (arith, fits)

  -- Arguments that a message can carry are read back from their texts, in their order and without
  -- an error, where a float is read back from its own text.
  pub drafts-read :
      (args : List (OscArgument F))
      → All Fits args
      → parse_osc_arguments number (map (argument_to_draft show) args) ≡ (args, none)
  unfolding parse_osc_arguments
  drafts-read [] fit = refl
  drafts-read (a ∷ args) (fits, fit) = rw (draft-read a fits, drafts-read args fit) refl

module _ (F : Type 0) where
  abbrev AcceptedFits : Parsed (OscArgument F) → Type 0
  AcceptedFits (rejected message) = Unit
  AcceptedFits (accepted a) = Fits a

  int-Fits : (o : Option ℤ) → AcceptedFits (bounded_int {F = F} o)
  unfolding bounded_int
  int-Fits none = tt
  int-Fits (some v) = elim (Bool-cases (ltb (magnitude v) 2147483648)) [
    | inl small ↦ rw small (ltb→lt _ _ small)
    | inr large ↦ rw large tt
  ]

  string-Fits : (text : Text) → AcceptedFits (read_string {F = F} text)
  unfolding read_string
  string-Fits text = elim (Bool-cases (leb (length text) 512)) [
    | inl short ↦ rw short (leb→le _ _ short)
    | inr long ↦ rw long tt
  ]

  float-Fits : (o : Option F) → AcceptedFits (read_float o)
  float-Fits none = tt
  float-Fits (some f) = tt

  bool-Fits : (text : Text) → AcceptedFits (read_bool {F = F} text)
  unfolding read_bool
  bool-Fits text = elim (Bool-cases (text_eq text true_text || text_eq text false_text)) [
    | inl known ↦ rw known tt
    | inr other ↦ rw other tt
  ]

  text-Fits :
      (number : Text → Option F) (t : ArgumentType) (text : Text)
      → AcceptedFits (parse_text number t text)
  unfolding parse_text
  text-Fits number int_type text = int-Fits (read_int (trim_text text))
  text-Fits number float_type text = elim (Bool-cases (is_empty (trim_text text))) [
    | inl empty ↦ rw empty tt
    | inr filled ↦ rw filled (float-Fits (number (trim_text text)))
  ]
  text-Fits number bool_type text = bool-Fits (trim_text text)
  text-Fits number string_type text = string-Fits text

  after-Fits :
      (p : Parsed (OscArgument F)) (args : List (OscArgument F)) (error : Option String)
      → AcceptedFits p
      → All Fits args
      → All Fits (after_argument p (args, error)).0
  after-Fits (rejected message) args error fits fit = tt
  after-Fits (accepted a) args none fits fit = (fits, fit)
  after-Fits (accepted a) args (some message) fits fit = tt

  -- Whatever is typed, the arguments that are given on are integers of less than 2^31, texts of at
  -- most 512 units, floats and truth values.
  pub typed-Fits :
      (number : Text → Option F) (drafts : List Draft)
      → All Fits (parse_osc_arguments number drafts).0
  unfolding parse_osc_arguments parse_osc_argument
  typed-Fits number [] = tt
  typed-Fits number (draft ∷ drafts) =
      after-Fits (parse_text number draft.type_of draft.text) (parse_osc_arguments number drafts).0
        (parse_osc_arguments number drafts).1 (text-Fits number draft.type_of draft.text)
        (typed-Fits number drafts)
