-- ===== src/Dashboard/Loading.antt =====
-- What `parseDashboardLayout`, `migrateDashboardOrder` and the loading of a layout give.
use stagepilot_beta.Common.{
  true, false, Option, none, some, List, [], ◌∷◌, any, ◌≡◌, refl, arith, Bool-cases, inl, inr,
}
use stagepilot_beta.Dashboard.Json.{Json}
use stagepilot_beta.Dashboard.Widgets.{
  WidgetId, service_plan, now_playing, manual_controls, events, same_id, desktop_grid, tablet_grid,
  LayoutItem, LayoutState,
}
use stagepilot_beta.Dashboard.Parse.{all_distinct, has_each_once, occurrences}
use stagepilot_beta.Dashboard.Layout.{
  is_full_order, full_order, mobile_order_of, assemble, parse_dashboard_layout,
}
use stagepilot_beta.Dashboard.Fits.{OnSome, OnSome-if, IsArranged, valid_items-IsArranged}

pub record IsUsable (layout : LayoutState) : Type 0 where
  pub on_desktop : IsArranged desktop_grid layout.desktop
  pub on_tablet : IsArranged tablet_grid layout.tablet
  pub on_mobile : is_full_order layout.mobile_order ≡ true

abbrev FullOrder : List WidgetId → Type 0
FullOrder ids = is_full_order ids ≡ true

full_order-OnSome : (o : Option (List WidgetId)) → OnSome FullOrder (full_order o)
full_order-OnSome none = tt
full_order-OnSome (some ids) = elim (Bool-cases (is_full_order ids)) [
  | inl e ↦ rw e e
  | inr e ↦ rw e tt
]

order-OnSome : (o : Option (List Json)) → OnSome FullOrder (mobile_order_of o)
unfolding mobile_order_of
order-OnSome none = tt
order-OnSome (some js) = full_order-OnSome _

assemble-OnSome :
    (j : Json) (d t : Option (List LayoutItem)) (o : Option (List WidgetId))
    → OnSome (IsArranged desktop_grid) d
    → OnSome (IsArranged tablet_grid) t
    → OnSome (λ ids. is_full_order ids ≡ true) o
    → OnSome IsUsable (assemble j d t o)
assemble-OnSome j none t o hd ht ho = tt
assemble-OnSome j (some d) none o hd ht ho = tt
assemble-OnSome j (some d) (some t) none hd ht ho = tt
assemble-OnSome j (some d) (some t) (some o) hd ht ho = record {
  on_desktop = hd;
  on_tablet = ht;
  on_mobile = ho;
}

pub parse-OnSome : (j : Json) → OnSome IsUsable (parse_dashboard_layout j)
unfolding parse_dashboard_layout
parse-OnSome j =
    OnSome-if IsUsable _ _ none
      (assemble-OnSome j _ _ _ (valid_items-IsArranged desktop_grid _)
        (valid_items-IsArranged tablet_grid _) (order-OnSome _))
      tt

same_id_eq : (a b : WidgetId) → same_id a b ≡ true → a ≡ b
same_id_eq service_plan service_plan e = refl
same_id_eq service_plan _ e = ground (arith, e)
same_id_eq now_playing now_playing e = refl
same_id_eq now_playing _ e = ground (arith, e)
same_id_eq manual_controls manual_controls e = refl
same_id_eq manual_controls _ e = ground (arith, e)
same_id_eq events events e = refl
same_id_eq events _ e = ground (arith, e)

none_occurs :
    (id : WidgetId) (ids : List WidgetId) → any (same_id id) ids ≡ false → occurrences id ids ≡ 0
none_occurs id [] e = refl
none_occurs id (j ∷ js) e = ground (arith, none_occurs id js, e)

occurs_once :
    (id : WidgetId) (ids : List WidgetId)
    → all_distinct ids ≡ true
    → any (same_id id) ids ≡ true
    → occurrences id ids ≡ 1
unfolding all_distinct
occurs_once id [] distinct there = ground (arith, there)
occurs_once id (j ∷ js) distinct there = elim (Bool-cases (same_id id j)) [
  | inl e ↦
      let same = same_id_eq id j e in
      let later : any (same_id id) js ≡ false = rw same (ground (arith, distinct)) in
      rw e (ground (arith, none_occurs id js later))
  | inr e ↦ rw e (occurs_once id js (ground (arith, distinct)) (ground (arith, there, e)))
]

pub once_of_full : (ids : List WidgetId) → is_full_order ids ≡ true → has_each_once ids ≡ true
unfolding is_full_order has_each_once
once_of_full ids full = ground (
  arith,
  full,
  occurs_once service_plan ids,
  occurs_once now_playing ids,
  occurs_once manual_controls ids,
  occurs_once events ids,
)
