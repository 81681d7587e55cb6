-- ===== src/Dashboard/Packing.antt =====
-- The packing of widgets in an order, and the default layout.
use stagepilot_beta.Common.{
  ◌≤◌, min, ◌==◌, true, ◌&&◌, Option, none, some, List, [], ◌∷◌, All, length, map, ◌≡◌, refl, ap,
  keep, arith, Bool-cases, inl, inr,
}
use stagepilot_beta.Dashboard.Json.{Json, array, elements}
use stagepilot_beta.Dashboard.Widgets.{
  WidgetId, service_plan, now_playing, manual_controls, events, widget_ids, GridMode, desktop_grid,
  tablet_grid, columns, widget_item, default_layout,
}
use stagepilot_beta.Dashboard.Parse.{has_each_once, item_ids}
use stagepilot_beta.Dashboard.Layout.{
  is_full_order, not_readiness, from_order, widgets_of, Cursor, wrap, pack_from,
  pack_widgets_in_order, migrate_dashboard_order,
}
use stagepilot_beta.Dashboard.Fits.{IsFitting, OnSome, IsArranged}
use stagepilot_beta.Dashboard.Loading.{IsUsable, once_of_full}

place-IsFitting :
    (mode : GridMode) (c : Cursor) (id : WidgetId)
    → c.x ≤ columns mode
    → IsFitting mode (record (widget_item id mode) {
      x = (wrap (columns mode) (min (widget_item id mode).w (columns mode)) c).x;
      y = (wrap (columns mode) (min (widget_item id mode).w (columns mode)) c).y;
      w = min (widget_item id mode).w (columns mode);
    })
unfolding wrap widget_item
place-IsFitting desktop_grid c service_plan within = record {
  inside = ground arith;
  wide = omega arith;
  tall = omega arith;
  shown = omega arith;
}
place-IsFitting desktop_grid c now_playing within = record {
  inside = ground arith;
  wide = omega arith;
  tall = omega arith;
  shown = omega arith;
}
place-IsFitting desktop_grid c manual_controls within = record {
  inside = ground arith;
  wide = omega arith;
  tall = omega arith;
  shown = omega arith;
}
place-IsFitting desktop_grid c events within = record {
  inside = ground arith;
  wide = omega arith;
  tall = omega arith;
  shown = omega arith;
}
place-IsFitting tablet_grid c service_plan within = record {
  inside = ground arith;
  wide = omega arith;
  tall = omega arith;
  shown = omega arith;
}
place-IsFitting tablet_grid c now_playing within = record {
  inside = ground arith;
  wide = omega arith;
  tall = omega arith;
  shown = omega arith;
}
place-IsFitting tablet_grid c manual_controls within = record {
  inside = ground arith;
  wide = omega arith;
  tall = omega arith;
  shown = omega arith;
}
place-IsFitting tablet_grid c events within = record {
  inside = ground arith;
  wide = omega arith;
  tall = omega arith;
  shown = omega arith;
}

pack-IsFitting :
    (mode : GridMode) (ids : List WidgetId) (c : Cursor)
    → c.x ≤ columns mode
    → All (IsFitting mode) (pack_from mode c ids)
unfolding pack_from
pack-IsFitting mode [] c within = tt
pack-IsFitting mode (id ∷ ids) c within =
    let placed = place-IsFitting mode c id within in
    (placed, pack-IsFitting mode ids _ placed.inside)

widget_item-id : (id : WidgetId) (mode : GridMode) → (widget_item id mode).id ≡ id
unfolding widget_item
widget_item-id service_plan desktop_grid = refl
widget_item-id now_playing desktop_grid = refl
widget_item-id manual_controls desktop_grid = refl
widget_item-id events desktop_grid = refl
widget_item-id service_plan tablet_grid = refl
widget_item-id now_playing tablet_grid = refl
widget_item-id manual_controls tablet_grid = refl
widget_item-id events tablet_grid = refl

pack-ids :
    (mode : GridMode) (ids : List WidgetId) (c : Cursor) → item_ids (pack_from mode c ids) ≡ ids
unfolding pack_from
pack-ids mode [] c = refl
pack-ids mode (id ∷ ids) c = rw (widget_item-id id mode) (ap (λ js. id ∷ js) (pack-ids mode ids _))

pack-IsArranged :
    (mode : GridMode) (ids : List WidgetId)
    → is_full_order ids ≡ true
    → IsArranged mode (pack_widgets_in_order ids mode)
unfolding pack_widgets_in_order
pack-IsArranged mode ids full = record {
  fitting = pack-IsFitting mode ids _ (omega arith);
  complete = rw (pack-ids mode ids _) (once_of_full ids full);
}

from_order-OnSome : (o : Option (List WidgetId)) → OnSome IsUsable (from_order o)
from_order-OnSome none = tt
from_order-OnSome (some ids) =
    elim (Bool-cases (length ids == length widget_ids && is_full_order ids)) [
      | inl e ↦
          let full : is_full_order ids ≡ true = ground (arith, e) in
          rw e (record {
            on_desktop = pack-IsArranged desktop_grid ids full;
            on_tablet = pack-IsArranged tablet_grid ids full;
            on_mobile = full;
          })
      | inr e ↦ rw e tt
    ]

pub widget_item-IsFitting : (id : WidgetId) (mode : GridMode) → IsFitting mode (widget_item id mode)
unfolding widget_item
widget_item-IsFitting service_plan desktop_grid = record {
  inside = omega arith;
  wide = omega arith;
  tall = omega arith;
  shown = omega arith;
}
widget_item-IsFitting now_playing desktop_grid = record {
  inside = omega arith;
  wide = omega arith;
  tall = omega arith;
  shown = omega arith;
}
widget_item-IsFitting manual_controls desktop_grid = record {
  inside = omega arith;
  wide = omega arith;
  tall = omega arith;
  shown = omega arith;
}
widget_item-IsFitting events desktop_grid = record {
  inside = omega arith;
  wide = omega arith;
  tall = omega arith;
  shown = omega arith;
}
widget_item-IsFitting service_plan tablet_grid = record {
  inside = omega arith;
  wide = omega arith;
  tall = omega arith;
  shown = omega arith;
}
widget_item-IsFitting now_playing tablet_grid = record {
  inside = omega arith;
  wide = omega arith;
  tall = omega arith;
  shown = omega arith;
}
widget_item-IsFitting manual_controls tablet_grid = record {
  inside = omega arith;
  wide = omega arith;
  tall = omega arith;
  shown = omega arith;
}
widget_item-IsFitting events tablet_grid = record {
  inside = omega arith;
  wide = omega arith;
  tall = omega arith;
  shown = omega arith;
}

pub migrate-OnSome : (j : Json) → OnSome IsUsable (migrate_dashboard_order j)
unfolding migrate_dashboard_order
migrate-OnSome (array js) = from_order-OnSome (widgets_of (keep not_readiness (elements js)))
migrate-OnSome _ = tt

All-IsFitting :
    (mode : GridMode) (ids : List WidgetId)
    → All (IsFitting mode) (map (λ id. widget_item id mode) ids)
All-IsFitting mode [] = tt
All-IsFitting mode (id ∷ ids) = (widget_item-IsFitting id mode, All-IsFitting mode ids)

pub default-IsUsable : IsUsable default_layout
unfolding default_layout is_full_order has_each_once
default-IsUsable = record {
  on_desktop = record { fitting = All-IsFitting desktop_grid widget_ids; complete = refl };
  on_tablet = record { fitting = All-IsFitting tablet_grid widget_ids; complete = refl };
  on_mobile = refl;
}
