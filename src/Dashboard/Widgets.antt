-- ===== src/Dashboard/Widgets.antt =====
-- frontend/src/components/dashboard: dashboardLayoutTypes.ts and dashboardWidgetRegistry.ts.
use stagepilot_beta.Common.{
  ℕ, String, Bool, true, false, Option, none, some, List, [], ◌∷◌, str_eq, map, if◌then◌else◌,
}

pub data WidgetId : Type 0 where
  service_plan now_playing manual_controls events : WidgetId

abbrev pub widget_ids : List WidgetId
widget_ids = service_plan ∷ now_playing ∷ manual_controls ∷ events ∷ []

abbrev pub id_text : WidgetId → String
id_text service_plan = "service-plan"
id_text now_playing = "now-playing"
id_text manual_controls = "manual-controls"
id_text events = "events"

abbrev pub same_id : WidgetId → WidgetId → Bool
same_id service_plan service_plan = true
same_id now_playing now_playing = true
same_id manual_controls manual_controls = true
same_id events events = true
same_id _ _ = false

-- `isDashboardWidgetId`, with the identifier that it finds.
unfoldable pub widget_of : String → Option WidgetId
widget_of s =
    if str_eq s "service-plan"
    then some service_plan
    else if str_eq s "now-playing"
    then some now_playing
    else if str_eq s "manual-controls"
    then some manual_controls
    else if str_eq s "events"
    then some events
    else none

pub data GridMode : Type 0 where
  desktop_grid tablet_grid : GridMode

abbrev pub columns : GridMode → ℕ
columns desktop_grid = 12
columns tablet_grid = 6

pub record LayoutItem : Type 0 where
  pub id : WidgetId
  pub x : ℕ
  pub y : ℕ
  pub w : ℕ
  pub h : ℕ
  pub min_w : Option ℕ
  pub min_h : Option ℕ
  pub max_w : Option ℕ
  pub max_h : Option ℕ
  pub locked : Option Bool

pub record LayoutState : Type 0 where
  pub desktop : List LayoutItem
  pub tablet : List LayoutItem
  pub mobile_order : List WidgetId
  pub mobile_heights : List (WidgetId × ℕ)
  pub events_hidden : Bool

abbrev pub placed : WidgetId → (x y w h min_w min_h max_w : ℕ) → LayoutItem
placed id x y w h min_w min_h max_w = record {
  id = id;
  x = x;
  y = y;
  w = w;
  h = h;
  min_w = some min_w;
  min_h = some min_h;
  max_w = some max_w;
  max_h = none;
  locked = none;
}

-- `widgetItem`: the entry of `DASHBOARD_WIDGETS` with the identifier.
unfoldable pub widget_item : WidgetId → GridMode → LayoutItem
widget_item service_plan desktop_grid = placed service_plan 0 0 7 35 5 9 12
widget_item service_plan tablet_grid = placed service_plan 0 0 6 28 4 9 6
widget_item now_playing desktop_grid = placed now_playing 7 0 5 13 4 11 12
widget_item now_playing tablet_grid = placed now_playing 0 14 6 12 4 11 6
widget_item manual_controls desktop_grid = placed manual_controls 7 13 5 10 3 7 12
widget_item manual_controls tablet_grid = placed manual_controls 0 26 3 12 3 8 6
widget_item events desktop_grid = placed events 7 23 5 12 4 7 12
widget_item events tablet_grid = placed events 0 38 6 11 4 7 6

unfoldable pub default_layout : LayoutState
unfolding widget_item
default_layout = record {
  desktop = map (λ id. widget_item id desktop_grid) widget_ids;
  tablet = map (λ id. widget_item id tablet_grid) widget_ids;
  mobile_order = now_playing ∷ service_plan ∷ manual_controls ∷ events ∷ [];
  mobile_heights = [];
  events_hidden = false;
}
