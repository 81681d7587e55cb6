-- ===== src/Registry/Forms.antt =====
-- control-plane/src/index.ts: the body of a request, and the checks of its fields.
use stagepilot_beta.Common.{
  ℕ, zero, suc, leb, String, Bool, true, ◌&&◌, ◌||◌, all, Option, none, some, ◌==◌, if◌then◌else◌,
  length,
}
use stagepilot_beta.Registry.Names.{codes, utf16_length, is_digit}
use stagepilot_beta.Registry.Fleet.{Severity}

-- The JSON object of a body, as far as it is read: a field is `none` for a value of another type.
-- `severity` is one of the two texts and `count` a whole number that is not negative;
-- `is_enrollment` says that there is no key but `nonce` and `deviceName`.
pub record Input : Type 0 where
  pub generation : Option String
  pub device_name : Option String
  pub nonce : Option String
  pub is_enrollment : Bool
  pub reason : Option String
  pub approved : Option Bool
  pub label : Option String
  pub archived : Option Bool
  pub category : Option String
  pub subject : Option String
  pub message : Option String
  pub severity : Option Severity
  pub first_seen : Option String
  pub last_seen : Option String
  pub count : Option ℕ

-- `{}`
abbrev pub empty_input : Input
empty_input = record {
  generation = none;
  device_name = none;
  nonce = none;
  is_enrollment = true;
  reason = none;
  approved = none;
  label = none;
  archived = none;
  category = none;
  subject = none;
  message = none;
  severity = none;
  first_seen = none;
  last_seen = none;
  count = none;
}

-- A text of 1 to `limit` units.
unfoldable pub bounded_text : ℕ → Option String → Option String
unfolding utf16_length
bounded_text limit none = none
bounded_text limit (some s) =
    if leb 1 (utf16_length s) && leb (utf16_length s) limit then some s else none

abbrev is_key_char : ℕ → Bool
is_key_char c =
    is_digit c
    || (leb b'a' c && leb c b'z')
    || (leb b'A' c && leb c b'Z')
    || c == b'.'
    || c == b'_'
    || c == b':'
    || c == b'-'

-- `/^[A-Za-z0-9._:-]{8,128}$/`
unfoldable pub is_idempotency_key : String → Bool
is_idempotency_key s =
    leb 8 (length (codes s)) && leb (length (codes s)) 128 && all is_key_char (codes s)

unfoldable pub enrollment_key : Input → Option String
unfolding is_idempotency_key
enrollment_key given =
    if given.is_enrollment
    then elim given.nonce [
      | none ↦ none
      | some nonce ↦ if is_idempotency_key nonce then some nonce else none
    ]
    else none

-- What an alert's body holds once it is checked.
pub record AlertForm : Type 0 where
  pub category : String
  pub subject : String
  pub message : String
  pub severity : Severity
  pub first_seen : String
  pub last_seen : String
  pub count : ℕ

infixl 5 ◌>>=◌
abbrev ◌>>=◌ {ℓ κ} : {A : Type ℓ} {B : Type κ} → Option A → (A → Option B) → Option B
none >>= f = none
some a >>= f = f a

abbrev positive : Option ℕ → Option ℕ
positive none = none
positive (some zero) = none
positive (some (suc n)) = some (suc n)

unfoldable pub alert_form : Input → Option AlertForm
unfolding bounded_text
alert_form given = do
  category ← bounded_text 200 given.category
  subject ← bounded_text 500 given.subject
  message ← bounded_text 4000 given.message
  severity ← given.severity
  first_seen ← given.first_seen
  last_seen ← given.last_seen
  count ← positive given.count
  some (record {
    category = category;
    subject = subject;
    message = message;
    severity = severity;
    first_seen = first_seen;
    last_seen = last_seen;
    count = count;
  })

-- A label of at most 200 units.
unfoldable pub label_form : Option String → Option String
unfolding utf16_length
label_form none = none
label_form (some s) = if leb (utf16_length s) 200 then some s else none
