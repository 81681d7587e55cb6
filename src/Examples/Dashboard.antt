-- ===== src/Examples/Dashboard.antt =====
-- Layouts that a browser stores.
use stagepilot_beta.Common.{
  ℕ, String, Option, none, some, [], ◌∷◌, Dict, lookup, insert, ◌≡◌, refl, str_eq, if◌then◌else◌,
}
use stagepilot_beta.Registry.Names.{strip_prefix}
use stagepilot_beta.Dashboard.Json.{
  Json, natural, text, array, object, no_elements, element, no_members, member, elements, members,
  property, field_of,
}
use stagepilot_beta.Dashboard.Widgets.{widget_of, widget_item, default_layout}
use stagepilot_beta.Dashboard.Parse.{
  is_spacer_name, is_legacy_spacer, without_spacers, fit_item, normalize_item, normalize_items,
  all_distinct, has_each_once, valid_items,
}
use stagepilot_beta.Dashboard.Layout.{
  widgets_of, is_full_order, mobile_order_of, heights_of, valid_mobile_heights,
  parse_dashboard_layout, wrap, pack_from, pack_widgets_in_order, migrate_dashboard_order,
}
use stagepilot_beta.Dashboard.Storage.{
  LoadSource, saved, migrated, default, Codec, get_item, set_item, layout_key, order_key,
  invalid_key, parsed, save_dashboard_layout, fall_back, finish_migration, migration_of, migrate,
  finish_load, load_saved, load_dashboard_layout_result,
}
use stagepilot_beta.Dashboard.Loading.{IsUsable}
use stagepilot_beta.Dashboard.Loaded.{working, load-IsUsable, load-invalid}

layout_opened : Unit {0}
unfolding strip_prefix elements members property field_of widget_of widget_item default_layout
    is_spacer_name is_legacy_spacer without_spacers fit_item normalize_item normalize_items
    all_distinct has_each_once valid_items widgets_of is_full_order mobile_order_of heights_of
    valid_mobile_heights parse_dashboard_layout wrap pack_from pack_widgets_in_order
    migrate_dashboard_order get_item set_item save_dashboard_layout fall_back finish_migration
    migration_of migrate finish_load load_saved load_dashboard_layout_result lookup insert
layout_opened = tt

abbrev old_order : Json
old_order = array (
    element (text "events") (
      element (text "readiness") (
        element (text "service-plan")
          (element (text "now-playing") (element (text "manual-controls") no_elements)))))

abbrev grid_item : String → ℕ → Json
grid_item id x = object (
    member "id" (text id) (
      member "kind" (text "widget") (
        member "x" (natural x)
          (member "y" (natural 0) (member "w" (natural 20) (member "h" (natural 1) no_members))))))

abbrev saved_items : Json
saved_items = array (
    element (grid_item "spacer-1" 0) (
      element (grid_item "service-plan" 3) (
        element (grid_item "now-playing" 0)
          (element (grid_item "manual-controls" 9) (element (grid_item "events" 0) no_elements)))))

abbrev saved_layout : Json
saved_layout = object (
    member "version" (natural 2) (
      member "desktop" saved_items
        (member "tablet" saved_items (member "mobileOrder" old_order no_members))))

abbrev read_text : String → Option Json
read_text s =
    if str_eq s "order"
    then some old_order
    else if str_eq s "layout"
    then some saved_layout
    else none

abbrev codec : Codec
codec = record { parse = read_text; show = λ layout. "written" }

abbrev source_after : Dict String → LoadSource
source_after rows = (load_dashboard_layout_result codec (working rows)).0.source

load_tests :
    (source_after ((layout_key, "layout") ∷ []) ≡ saved)
    × ((source_after ((layout_key, "broken") ∷ (order_key, "order") ∷ []) ≡ migrated)
        × (source_after [] ≡ default))
unfolding layout_opened
load_tests = (refl, (refl, refl))

load-IsUsable_example :
    IsUsable (load_dashboard_layout_result codec (working ((layout_key, "layout") ∷ []))).0.layout
load-IsUsable_example = load-IsUsable codec (working ((layout_key, "layout") ∷ []))

abbrev broken_rows : Dict String
broken_rows = (layout_key, "broken") ∷ []

broken_there : lookup layout_key broken_rows ≡ some "broken"
unfolding layout_opened
broken_there = refl

broken_invalid : parsed parse_dashboard_layout (codec.parse "broken") ≡ none
unfolding layout_opened
broken_invalid = refl

load-invalid_example :
    (lookup invalid_key (load_dashboard_layout_result codec (working broken_rows)).1.rows
      ≡ some "broken")
    × (lookup layout_key (load_dashboard_layout_result codec (working broken_rows)).1.rows
        ≡ some (codec.show (load_dashboard_layout_result codec (working broken_rows)).0.layout))
load-invalid_example = load-invalid codec broken_rows "broken" broken_there refl broken_invalid
