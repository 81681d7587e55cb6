-- ===== src/Registry/Sources.antt =====
-- control-plane/src/index.ts: `normalizeSourceAddress` and `exemptSources`, on the code points of a
-- text.
use stagepilot_beta.Common.{
  ℕ, zero, suc, ◌+◌, ◌-◌, ◌*◌, ◌/◌, ◌%◌, ltb, leb, ◌==◌, Bool, true, false, ◌&&◌, ◌||◌, List, [],
  ◌∷◌, ◌++◌, all, any, map, keep, length, Option, none, some, if◌then◌else◌,
}
use stagepilot_beta.Registry.Names.{is_digit, is_space}

abbrev pub Text : Type 0
Text = List ℕ

unfoldable pub text_eq : Text → Text → Bool
text_eq [] [] = true
text_eq [] (_ ∷ _) = false
text_eq (_ ∷ _) [] = false
text_eq (c ∷ cs) (d ∷ ds) = c == d && text_eq cs ds

-- A character before the first part of a split.
abbrev pub extend : ℕ → List Text → List Text
extend c [] = (c ∷ []) ∷ []
extend c (part ∷ parts) = (c ∷ part) ∷ parts

-- `split(separator)` at one character
unfoldable pub split : ℕ → Text → List Text
split separator [] = [] ∷ []
split separator (c ∷ cs) =
    let parts = split separator cs in if c == separator then [] ∷ parts else extend c parts

-- `split('::')`
unfoldable pub split_double : Text → List Text
split_double [] = [] ∷ []
split_double (c ∷ []) = (c ∷ []) ∷ []
split_double (c ∷ d ∷ cs) =
    let behind = split_double cs in
    let alone = split_double (d ∷ cs) in
    if c == b':' && d == b':' then [] ∷ behind else extend c alone

abbrev pub digit_value : ℕ → ℕ
digit_value c = if is_digit c then c - 48 else c - 87

unfoldable pub number_from : (base acc : ℕ) → Text → ℕ
number_from base acc [] = acc
number_from base acc (c ∷ cs) = number_from base (acc * base + digit_value c) cs

-- A digit below sixteen, in lowered_char case.
abbrev pub digit_char : ℕ → ℕ
digit_char d = if ltb d 10 then d + 48 else d + 87

-- `n.toString(base)`, of at most `left` digits more
unfoldable pub digits_from : (left base n : ℕ) → Text → Text
digits_from zero base n behind = behind
digits_from (suc left) base n behind =
    let more = digits_from left base (n / base) (digit_char (n % base) ∷ behind) in
    if n / base == 0 then digit_char (n % base) ∷ behind else more

unfoldable pub join : Text → List Text → Text
join separator [] = []
join separator (part ∷ []) = part
join separator (part ∷ next ∷ parts) = part ++ (separator ++ join separator (next ∷ parts))

-- `/^\d{1,3}$/`, and at most 255
unfoldable pub is_byte : Text → Bool
unfolding number_from
is_byte part =
    leb 1 (length part)
    && leb (length part) 3
    && all is_digit part
    && leb (number_from 10 0 part) 255

abbrev pub is_hex_digit : ℕ → Bool
is_hex_digit c = is_digit c || (leb b'a' c && leb c b'f')

-- `/^[0-9a-f]{1,4}$/`
unfoldable pub is_hex_word : Text → Bool
is_hex_word part = leb 1 (length part) && leb (length part) 4 && all is_hex_digit part

abbrev pub lowered_char : ℕ → ℕ
lowered_char c = if leb b'A' c && leb c b'Z' then c + 32 else c

-- `split('%', 1)[0]`
unfoldable pub before_zone : Text → Text
before_zone [] = []
before_zone (c ∷ cs) = if c == b'%' then [] else c ∷ before_zone cs

-- `side ? side.split(':') : []`
unfoldable pub groups : Text → List Text
unfolding split
groups [] = []
groups (c ∷ cs) = split b':' (c ∷ cs)

unfoldable pub zeros : ℕ → List Text
zeros zero = []
zeros (suc n) = (b'0' ∷ []) ∷ zeros n

abbrev pub first_four : List ℕ → List ℕ
first_four (a ∷ b ∷ c ∷ d ∷ _) = a ∷ b ∷ c ∷ d ∷ []
first_four ws = ws

unfoldable pub network : List ℕ → Text
unfolding join digits_from
network words =
    join (b':' ∷ []) (map (λ n. digits_from 4 16 n []) (first_four words))
    ++ (b':' ∷ b':' ∷ b'/' ∷ b'6' ∷ b'4' ∷ [])

-- The words of both sides of a `::`, with zeros between.
unfoldable pub network_of : List Text → List Text → ℕ → Option Text
unfolding is_hex_word zeros number_from network
network_of left right missing =
    if all is_hex_word left && all is_hex_word right
    then some (network (map (number_from 16 0) (left ++ (zeros missing ++ right))))
    else none

-- An address without `::` has eight words, and one with it at most seven; a second `::` is refused.
unfoldable pub read_sides : List Text → Option Text
unfolding groups network_of
read_sides [] = none
read_sides (side ∷ []) = if length (groups side) == 8 then network_of (groups side) [] 0 else none
read_sides (left ∷ right ∷ []) =
    let given = length (groups left) + length (groups right) in
    if leb given 7 then network_of (groups left) (groups right) (8 - given) else none
read_sides (_ ∷ _ ∷ _ ∷ _) = none

abbrev pub is_address_char : ℕ → Bool
is_address_char c = is_hex_digit c || c == b':'

unfoldable pub normalize_network : Text → Option Text
unfolding before_zone split_double read_sides
normalize_network text =
    let lowered = before_zone (map lowered_char text) in
    if any (λ c. c == b':') lowered && all is_address_char lowered
    then read_sides (split_double lowered)
    else none

unfoldable pub normalize_source_address : Text → Option Text
unfolding split is_byte join digits_from number_from normalize_network
normalize_source_address text =
    let parts = split b'.' text in
    if length parts == 4 && all is_byte parts
    then some (join (b'.' ∷ []) (map (λ part. digits_from 3 10 (number_from 10 0 part) []) parts))
    else normalize_network text

unfoldable pub drop_space : Text → Text
drop_space [] = []
drop_space (c ∷ cs) = if is_space c then drop_space cs else c ∷ cs

abbrev pub cons_solid : ℕ → Text → Text
cons_solid c [] = if is_space c then [] else c ∷ []
cons_solid c (d ∷ ds) = c ∷ d ∷ ds

unfoldable pub drop_space_end : Text → Text
drop_space_end [] = []
drop_space_end (c ∷ cs) = cons_solid c (drop_space_end cs)

-- `trimmed.endsWith('::/64')`, with what stands before it
unfoldable pub strip_network : Text → Option Text
unfolding text_eq
strip_network [] = none
strip_network (c ∷ cs) =
    let rest = strip_network cs in
    if text_eq (c ∷ cs) (b':' ∷ b':' ∷ b'/' ∷ b'6' ∷ b'4' ∷ [])
    then some []
    else elim rest [ none ↦ none | some before ↦ some (c ∷ before) ]

unfoldable pub normalize_entry : Text → Option Text
unfolding strip_network normalize_source_address
normalize_entry trimmed = elim (strip_network trimmed) [
  | none ↦ normalize_source_address trimmed
  | some before ↦ normalize_source_address (before ++ (b':' ∷ b':' ∷ []))
]

-- An entry counts only if it is written in the normal form.
abbrev pub is_canonical : Text → Option Text → Bool
is_canonical trimmed none = false
is_canonical trimmed (some normalized) = text_eq normalized trimmed

abbrev pub is_entry : Text → Bool
is_entry trimmed = leb 1 (length trimmed) && is_canonical trimmed (normalize_entry trimmed)

abbrev pub trim : Text → Text
trim text = drop_space_end (drop_space text)

-- `none` is an absent setting. A set is the list of its elements.
unfoldable pub exempt_set : Option Text → List Text
unfolding split drop_space drop_space_end normalize_entry text_eq
exempt_set none = []
exempt_set (some setting) = keep is_entry (map trim (split b',' setting))
