-- ===== src/Dashboard/Fits.antt =====
-- frontend/src/components/dashboard/dashboardLayout.ts: the items that `validItems` gives.
use stagepilot_beta.Common.{
  ℕ, ◌+◌, ◌≤◌, Bool, true, false, not, Option, none, some, List, [], ◌∷◌, All, or_else, ◌≡◌, arith,
  Bool-cases, inl, inr, if◌then◌else◌,
}
use stagepilot_beta.Dashboard.Json.{Json, field_of, as_text, valid_integer}
use stagepilot_beta.Dashboard.Widgets.{
  WidgetId, service_plan, now_playing, manual_controls, events, GridMode, desktop_grid, tablet_grid,
  columns, LayoutItem, widget_item, widget_of,
}
use stagepilot_beta.Dashboard.Parse.{
  fit_item, normalize_item, both, normalize_items, item_ids, has_each_once, checked_items,
  valid_items, has_field,
}

-- Inside the columns, and no narrower or lower than the widget allows.
pub record IsFitting (mode : GridMode) (item : LayoutItem) : Type 0 where
  pub inside : item.x + item.w ≤ columns mode
  pub wide : or_else (widget_item item.id mode).min_w 1 ≤ item.w
  pub tall : or_else (widget_item item.id mode).min_h 1 ≤ item.h
  pub shown : 1 ≤ item.w

fit_item-IsFitting :
    (id : WidgetId) (mode : GridMode) (x y w h : ℕ) (locked : Bool)
    → IsFitting mode (fit_item id mode x y w h locked)
unfolding fit_item widget_item
fit_item-IsFitting service_plan desktop_grid x y w h locked = record {
  inside = ground arith;
  wide = ground arith;
  tall = ground arith;
  shown = ground arith;
}
fit_item-IsFitting service_plan tablet_grid x y w h locked = record {
  inside = ground arith;
  wide = ground arith;
  tall = ground arith;
  shown = ground arith;
}
fit_item-IsFitting now_playing desktop_grid x y w h locked = record {
  inside = ground arith;
  wide = ground arith;
  tall = ground arith;
  shown = ground arith;
}
fit_item-IsFitting now_playing tablet_grid x y w h locked = record {
  inside = ground arith;
  wide = ground arith;
  tall = ground arith;
  shown = ground arith;
}
fit_item-IsFitting manual_controls desktop_grid x y w h locked = record {
  inside = ground arith;
  wide = ground arith;
  tall = ground arith;
  shown = ground arith;
}
fit_item-IsFitting manual_controls tablet_grid x y w h locked = record {
  inside = ground arith;
  wide = ground arith;
  tall = ground arith;
  shown = ground arith;
}
fit_item-IsFitting events desktop_grid x y w h locked = record {
  inside = ground arith;
  wide = ground arith;
  tall = ground arith;
  shown = ground arith;
}
fit_item-IsFitting events tablet_grid x y w h locked = record {
  inside = ground arith;
  wide = ground arith;
  tall = ground arith;
  shown = ground arith;
}

-- `P` of a value that is there.
abbrev pub OnSome {ℓ} : {A : Type ℓ} → (A → Type ℓ) → Option A → Type ℓ
OnSome P none = Unit
OnSome P (some a) = P a

pub OnSome-elim :
    {A B : Type 0} (P : B → Type 0) (o : Option A) (f : A → Option B)
    → ((a : A) → OnSome P (f a))
    → OnSome P (elim o [ none ↦ none | some a ↦ f a ])
OnSome-elim P none f h = tt
OnSome-elim P (some a) f h = h a

pub OnSome-if :
    {B : Type 0} (P : B → Type 0) (b : Bool) (o p : Option B)
    → OnSome P o
    → OnSome P p
    → OnSome P (if b then o else p)
OnSome-if P true o p ho hp = ho
OnSome-if P false o p ho hp = hp

normalize_item-OnSome :
    (mode : GridMode) (j : Json) → OnSome (IsFitting mode) (normalize_item mode j)
unfolding normalize_item
normalize_item-OnSome mode j =
    OnSome-if (IsFitting mode) (not (has_field "kind" "widget" j)) none _ tt (
      OnSome-elim (IsFitting mode) (as_text (field_of "id" j)) _ λ name.
        OnSome-elim (IsFitting mode) (widget_of name) _ λ id.
          OnSome-elim (IsFitting mode) (valid_integer 0 (field_of "x" j)) _ λ x.
            OnSome-elim (IsFitting mode) (valid_integer 0 (field_of "y" j)) _ λ y.
              OnSome-elim (IsFitting mode) (valid_integer 1 (field_of "w" j)) _ λ w.
                OnSome-elim (IsFitting mode) (valid_integer 1 (field_of "h" j)) _
                  λ h. fit_item-IsFitting id mode x y w h _)

both-OnSome :
    {A : Type 0} (P : A → Type 0) (o : Option A) (rest : Option (List A))
    → OnSome P o
    → OnSome (All P) rest
    → OnSome (All P) (both o rest)
both-OnSome P none rest h t = tt
both-OnSome P (some a) none h t = tt
both-OnSome P (some a) (some as') h t = (h, t)

normalize_items-OnSome :
    (mode : GridMode) (js : List Json) → OnSome (All (IsFitting mode)) (normalize_items mode js)
unfolding normalize_items
normalize_items-OnSome mode [] = tt
normalize_items-OnSome mode (j ∷ js) =
    both-OnSome (IsFitting mode) (normalize_item mode j) (normalize_items mode js)
      (normalize_item-OnSome mode j) (normalize_items-OnSome mode js)

-- Every item fits the grid, and each widget is there once.
pub record IsArranged (mode : GridMode) (items : List LayoutItem) : Type 0 where
  pub fitting : All (IsFitting mode) items
  pub complete : has_each_once (item_ids items) ≡ true

checked-IsArranged :
    (mode : GridMode) (o : Option (List LayoutItem))
    → OnSome (All (IsFitting mode)) o
    → OnSome (IsArranged mode) (checked_items o)
checked-IsArranged mode none h = tt
checked-IsArranged mode (some items) h = elim (Bool-cases (has_each_once (item_ids items))) [
  | inl e ↦ rw e (record { fitting = h; complete = e })
  | inr e ↦ rw e tt
]

pub valid_items-IsArranged :
    (mode : GridMode) (o : Option (List Json)) → OnSome (IsArranged mode) (valid_items mode o)
unfolding valid_items
valid_items-IsArranged mode none = tt
valid_items-IsArranged mode (some js) = checked-IsArranged mode _ (normalize_items-OnSome mode _)
