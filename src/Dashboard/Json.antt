-- ===== src/Dashboard/Json.antt =====
-- What `JSON.parse` gives: a number is a natural number, or one that is negative or no integer.
use stagepilot_beta.Common.{
  ℕ, String, Bool, Option, none, some, List, [], ◌∷◌, str_eq, leb, if◌then◌else◌,
}

mutual
  pub data Json : Type 0 where
    null : Json
    boolean : Bool → Json
    natural : ℕ → Json
    other_number : Json
    text : String → Json
    array : Elements → Json
    object : Members → Json

  pub data Elements : Type 0 where
    no_elements : Elements
    element : Json → Elements → Elements

  pub data Members : Type 0 where
    no_members : Members
    member : String → Json → Members → Members

unfoldable pub elements : Elements → List Json
elements no_elements = []
elements (element j js) = j ∷ elements js

unfoldable pub members : Members → List (String × Json)
members no_members = []
members (member key j ms) = (key, j) ∷ members ms

-- `value[key]` of an object whose keys are distinct; `undefined` and other values read as `none`.
unfoldable pub property : String → Members → Option Json
property key no_members = none
property key (member k j ms) = if str_eq k key then some j else property key ms

unfoldable pub field_of : String → Json → Option Json
unfolding property
field_of key (object ms) = property key ms
field_of key j = none

abbrev pub as_text : Option Json → Option String
as_text (some (text s)) = some s
as_text o = none

-- `Number.isInteger(value) && value >= minimum`
abbrev pub valid_integer : ℕ → Option Json → Option ℕ
valid_integer minimum (some (natural n)) = if leb minimum n then some n else none
valid_integer minimum o = none
