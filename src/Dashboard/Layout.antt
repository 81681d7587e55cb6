-- ===== src/Dashboard/Layout.antt =====
-- frontend/src/components/dashboard/dashboardLayout.ts: a whole layout, the migration of an old
-- order, and the order of the items.
use stagepilot_beta.Common.{
  ℕ, ◌+◌, min, max, ltb, ◌==◌, String, Bool, false, not, ◌&&◌, ◌||◌, Option, none, some, List, [],
  ◌∷◌, keep, any, all, length, if◌then◌else◌,
}
use stagepilot_beta.Dashboard.Json.{
  Json, boolean, natural, array, object, elements, members, field_of, as_text, valid_integer,
}
use stagepilot_beta.Dashboard.Widgets.{
  WidgetId, widget_ids, same_id, widget_of, GridMode, desktop_grid, tablet_grid, columns,
  LayoutItem, LayoutState, widget_item,
}
use stagepilot_beta.Dashboard.Parse.{without_spacers, valid_items, all_distinct, is_text_of, both}

abbrev as_widget : Json → Option WidgetId
as_widget j = elim (as_text (some j)) [ none ↦ none | some s ↦ widget_of s ]

unfoldable pub widgets_of : List Json → Option (List WidgetId)
widgets_of [] = some []
widgets_of (j ∷ js) = both (as_widget j) (widgets_of js)

-- Distinct identifiers, every one of them among these.
unfoldable pub is_full_order : List WidgetId → Bool
unfolding all_distinct
is_full_order ids = all_distinct ids && all (λ id. any (same_id id) ids) widget_ids

abbrev pub full_order : Option (List WidgetId) → Option (List WidgetId)
full_order none = none
full_order (some ids) = if is_full_order ids then some ids else none

abbrev pub not_readiness : Json → Bool
not_readiness j = not (is_text_of "readiness" (some j))

unfoldable pub mobile_order_of : Option (List Json) → Option (List WidgetId)
mobile_order_of none = none
mobile_order_of (some js) = full_order (widgets_of (keep not_readiness js))

-- The identifiers are valid if they are in the order; every entry that is not is dropped.
unfoldable pub heights_of : List WidgetId → List (String × Json) → List (WidgetId × ℕ)
heights_of ids [] = []
heights_of ids ((key, j) ∷ entries) =
    let rest = heights_of ids entries in
    elim (widget_of key) [
      | none ↦ rest
      | some id ↦ elim (valid_integer 1 (some j)) [
        | none ↦ rest
        | some height ↦ if any (same_id id) ids then (id, height) ∷ rest else rest
      ]
    ]

unfoldable pub valid_mobile_heights : List WidgetId → Option Json → List (WidgetId × ℕ)
unfolding heights_of members
valid_mobile_heights ids (some (object ms)) = heights_of ids (members ms)
valid_mobile_heights ids o = []

abbrev hidden_of : Option Json → Bool
hidden_of (some (boolean b)) = b
hidden_of o = false

abbrev is_number : ℕ → Option Json → Bool
is_number n (some (natural m)) = m == n
is_number n o = false

abbrev pub assemble :
    Json
    → Option (List LayoutItem)
    → Option (List LayoutItem)
    → Option (List WidgetId)
    → Option LayoutState
assemble j (some desktop) (some tablet) (some order) = some (record {
  desktop = desktop;
  tablet = tablet;
  mobile_order = order;
  mobile_heights = valid_mobile_heights order (field_of "mobileHeights" j);
  events_hidden = hidden_of (field_of "eventsHidden" j);
})
assemble j _ _ _ = none

unfoldable pub parse_dashboard_layout : Json → Option LayoutState
parse_dashboard_layout j =
    if is_number 2 (field_of "version" j)
    then assemble j (valid_items desktop_grid (without_spacers (field_of "desktop" j)))
        (valid_items tablet_grid (without_spacers (field_of "tablet" j)))
        (mobile_order_of (without_spacers (field_of "mobileOrder" j)))
    else none

-- The next free place of a row by row packing.
pub record Cursor : Type 0 where
  pub x : ℕ
  pub y : ℕ
  pub row_height : ℕ

unfoldable pub wrap : ℕ → ℕ → Cursor → Cursor
wrap width w c =
    if ltb width (c.x + w) then record { x = 0; y = c.y + c.row_height; row_height = 0 } else c

unfoldable pub pack_from : GridMode → Cursor → List WidgetId → List LayoutItem
unfolding wrap widget_item
pack_from mode c [] = []
pack_from mode c (id ∷ ids) =
    let item = widget_item id mode in
    let w = min item.w (columns mode) in
    let at = wrap (columns mode) w c in
    record item { x = at.x; y = at.y; w = w }
    ∷ pack_from mode (record { x = at.x + w; y = at.y; row_height = max at.row_height item.h }) ids

unfoldable pub pack_widgets_in_order : List WidgetId → GridMode → List LayoutItem
unfolding pack_from
pack_widgets_in_order order mode = pack_from mode (record { x = 0; y = 0; row_height = 0 }) order

abbrev pub migrated : List WidgetId → LayoutState
migrated order = record {
  desktop = pack_widgets_in_order order desktop_grid;
  tablet = pack_widgets_in_order order tablet_grid;
  mobile_order = order;
  mobile_heights = [];
  events_hidden = false;
}

abbrev pub from_order : Option (List WidgetId) → Option LayoutState
from_order none = none
from_order (some ids) =
    if length ids == length widget_ids && is_full_order ids then some (migrated ids) else none

unfoldable pub migrate_dashboard_order : Json → Option LayoutState
unfolding elements widgets_of
migrate_dashboard_order (array js) = from_order (widgets_of (keep not_readiness (elements js)))
migrate_dashboard_order j = none

-- The order of the items on the screen; `compare` is the `localeCompare` of two identifiers.
module _ (before : WidgetId → WidgetId → Bool) where
  abbrev pub comes_first : LayoutItem → LayoutItem → Bool
  comes_first a b = ltb a.y b.y || (a.y == b.y && (ltb a.x b.x || (a.x == b.x && before a.id b.id)))

  unfoldable pub insert_item : LayoutItem → List LayoutItem → List LayoutItem
  insert_item i [] = i ∷ []
  insert_item i (j ∷ js) = if comes_first j i then j ∷ insert_item i js else i ∷ j ∷ js

  unfoldable pub ordered_layout_items : List LayoutItem → List LayoutItem
  unfolding insert_item
  ordered_layout_items [] = []
  ordered_layout_items (i ∷ is) = insert_item i (ordered_layout_items is)
