-- ===== src/Dashboard/Parse.antt =====
-- frontend/src/components/dashboard/dashboardLayout.ts: the reading of a stored layout.
use stagepilot_beta.Common.{
  ℕ, ◌-◌, min, max, leb, ◌==◌, String, Bool, true, false, not, ◌&&◌, ◌||◌, Option, none, some, List,
  [], ◌∷◌, keep, any, all, length, or_else, str_eq, if◌then◌else◌,
}
use stagepilot_beta.Registry.Names.{codes, strip_prefix}
use stagepilot_beta.Dashboard.Json.{
  Json, boolean, array, object, elements, field_of, as_text, valid_integer,
}
use stagepilot_beta.Dashboard.Widgets.{
  WidgetId, widget_ids, same_id, widget_of, GridMode, columns, LayoutItem, widget_item,
}

abbrev is_word : ℕ → Bool
is_word c =
    (leb b'a' c && leb c b'z')
    || (leb b'A' c && leb c b'Z')
    || (leb b'0' c && leb c b'9')
    || c == b'_'
    || c == b'-'

abbrev is_suffix : List ℕ → Bool
is_suffix [] = false
is_suffix (c ∷ cs) = all is_word (c ∷ cs)

-- `/^spacer-[a-zA-Z0-9_-]+$/`
unfoldable pub is_spacer_name : String → Bool
unfolding strip_prefix
is_spacer_name s = elim (strip_prefix "spacer-" s) [
  | none ↦ false
  | some rest ↦ is_suffix (codes rest)
]

-- The `id` of a record, and any other value itself.
abbrev id_or_self : Json → Option String
id_or_self (object ms) = as_text (field_of "id" (object ms))
id_or_self j = as_text (some j)

unfoldable pub is_legacy_spacer : Json → Bool
unfolding is_spacer_name field_of
is_legacy_spacer j = elim (id_or_self j) [ none ↦ false | some s ↦ is_spacer_name s ]

-- The elements of an array without the old spacers; `none` is no array.
unfoldable pub without_spacers : Option Json → Option (List Json)
unfolding is_legacy_spacer elements
without_spacers (some (array js)) = some (keep (λ j. not (is_legacy_spacer j)) (elements js))
without_spacers o = none

abbrev pub is_text_of : String → Option Json → Bool
is_text_of s o = elim (as_text o) [ none ↦ false | some t ↦ str_eq t s ]

abbrev pub has_field : String → String → Json → Bool
has_field key s j = is_text_of s (field_of key j)

abbrev bounded : Option ℕ → ℕ → ℕ
bounded none h = h
bounded (some limit) h = min h limit

-- A limit of 0 is none.
abbrev real_limit : Option ℕ → Option ℕ
real_limit none = none
real_limit (some n) = if n == 0 then none else some n

unfoldable pub fit_item : WidgetId → GridMode → (x y w h : ℕ) → Bool → LayoutItem
fit_item id mode x y w h locked =
    let constraints = widget_item id mode in
    let min_w = min (or_else constraints.min_w 1) (columns mode) in
    let min_h = or_else constraints.min_h 1 in
    let max_w = min (or_else constraints.max_w (columns mode)) (columns mode) in
    let max_h = real_limit constraints.max_h in
    let width = min (max w min_w) max_w in
    record {
      id = id;
      x = min x (columns mode - width);
      y = y;
      w = width;
      h = bounded max_h (max h min_h);
      min_w = some min_w;
      min_h = some min_h;
      max_w = some max_w;
      max_h = max_h;
      locked = if locked then some true else none;
    }

abbrev is_true : Option Json → Bool
is_true (some (boolean b)) = b
is_true o = false

unfoldable pub normalize_item : GridMode → Json → Option LayoutItem
normalize_item mode j =
    if not (has_field "kind" "widget" j) then none else elim (as_text (field_of "id" j)) [
      | none ↦ none
      | some name ↦ elim (widget_of name) [
        | none ↦ none
        | some id ↦ elim (valid_integer 0 (field_of "x" j)) [
          | none ↦ none
          | some x ↦ elim (valid_integer 0 (field_of "y" j)) [
            | none ↦ none
            | some y ↦ elim (valid_integer 1 (field_of "w" j)) [
              | none ↦ none
              | some w ↦ elim (valid_integer 1 (field_of "h" j)) [
                | none ↦ none
                | some h ↦ some (fit_item id mode x y w h (is_true (field_of "locked" j)))
              ]
            ]
          ]
        ]
      ]
    ]

abbrev pub both {ℓ} : {A : Type ℓ} → Option A → Option (List A) → Option (List A)
both none rest = none
both (some a) none = none
both (some a) (some rest) = some (a ∷ rest)

-- All the items, if every one is valid.
unfoldable pub normalize_items : GridMode → List Json → Option (List LayoutItem)
normalize_items mode [] = some []
normalize_items mode (j ∷ js) = both (normalize_item mode j) (normalize_items mode js)

abbrev pub occurrences : WidgetId → List WidgetId → ℕ
occurrences id ids = length (keep (same_id id) ids)

-- `new Set(ids).size === ids.length`
unfoldable pub all_distinct : List WidgetId → Bool
all_distinct [] = true
all_distinct (id ∷ ids) = not (any (same_id id) ids) && all_distinct ids

abbrev pub item_ids : List LayoutItem → List WidgetId
item_ids [] = []
item_ids (item ∷ items) = item.id ∷ item_ids items

unfoldable pub has_each_once : List WidgetId → Bool
unfolding all_distinct
has_each_once ids = all_distinct ids && all (λ id. occurrences id ids == 1) widget_ids

abbrev pub checked_items : Option (List LayoutItem) → Option (List LayoutItem)
checked_items none = none
checked_items (some items) = if has_each_once (item_ids items) then some items else none

unfoldable pub valid_items : GridMode → Option (List Json) → Option (List LayoutItem)
valid_items mode none = none
valid_items mode (some js) = checked_items (
    normalize_items mode
      (keep (λ j. not (has_field "id" "readiness" j && has_field "kind" "widget" j)) js))
