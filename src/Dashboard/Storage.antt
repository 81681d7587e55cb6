-- ===== src/Dashboard/Storage.antt =====
-- frontend/src/components/dashboard/dashboardLayoutStorage.ts. The browser's storage may refuse to
-- read or to write; `JSON` is the reading and the writing of a text.
use stagepilot_beta.Common.{
  String, Bool, Option, none, some, Dict, lookup, insert, str_eq, if◌then◌else◌,
}
use stagepilot_beta.Dashboard.Json.{Json}
use stagepilot_beta.Dashboard.Widgets.{LayoutState, default_layout}
use stagepilot_beta.Dashboard.Layout.{parse_dashboard_layout, migrate_dashboard_order}

pub data LoadSource : Type 0 where
  saved migrated default : LoadSource

pub record LoadResult : Type 0 where
  pub layout : LayoutState
  pub source : LoadSource

-- What the browser stores, and whether it can be read and written.
pub record Storage : Type 0 where
  pub rows : Dict String
  pub readable : Bool
  pub writable : Bool

-- `none` is a text that is no JSON.
pub record Codec : Type 0 where
  pub parse : String → Option Json
  pub show : LayoutState → String

-- `getItem`: no storage, or the row if there is one.
pub data Reading : Type 0 where
  thrown : Reading
  row : Option String → Reading

unfoldable pub get_item : String → Storage → Reading
unfolding lookup
get_item key s = if s.readable then row (lookup key s.rows) else thrown

unfoldable pub set_item : String → String → Storage → Storage
unfolding insert
set_item key value s = if s.writable then record s { rows = insert key value s.rows } else s

abbrev pub layout_key : String
layout_key = "stagepilot.dashboard-layout.v2"

abbrev pub order_key : String
order_key = "stagepilot.dashboard-widget-order.v1"

abbrev pub invalid_key : String
invalid_key = "stagepilot.dashboard-layout.invalid"

-- An item that is there and is not the empty text.
abbrev pub truthy : Reading → Option String
truthy thrown = none
truthy (row none) = none
truthy (row (some s)) = if str_eq s "" then none else some s

abbrev pub parsed {ℓ} : {A : Type ℓ} → (Json → Option A) → Option Json → Option A
parsed f none = none
parsed f (some j) = f j

module _ (c : Codec) where
  -- Whether it was stored, and the storage after it.
  unfoldable pub save_dashboard_layout : LayoutState → Storage → Bool × Storage
  save_dashboard_layout layout s = (s.writable, set_item layout_key (c.show layout) s)

  unfoldable pub fall_back : Storage → LoadResult × Storage
  unfolding save_dashboard_layout
  fall_back s =
      let (_, s') = save_dashboard_layout default_layout s in
      (record { layout = default_layout; source = default }, s')

  unfoldable pub finish_migration : Option LayoutState → Storage → LoadResult × Storage
  unfolding save_dashboard_layout fall_back
  finish_migration none s = fall_back s
  finish_migration (some layout) s =
      let (_, s') = save_dashboard_layout layout s in
      (record { layout = layout; source = migrated }, s')

  unfoldable pub migration_of : Option String → Option LayoutState
  migration_of none = none
  migration_of (some old) = parsed migrate_dashboard_order (c.parse old)

  unfoldable pub migrate : Storage → LoadResult × Storage
  unfolding get_item
  migrate s = finish_migration (migration_of (truthy (get_item order_key s))) s

  unfoldable pub finish_load : String → Option LayoutState → Storage → LoadResult × Storage
  unfolding set_item
  finish_load text (some layout) s = (record { layout = layout; source = saved }, s)
  finish_load text none s = migrate (set_item invalid_key text s)

  unfoldable pub load_saved : Option String → Storage → LoadResult × Storage
  load_saved none s = migrate s
  load_saved (some text) s = finish_load text (parsed parse_dashboard_layout (c.parse text)) s

  unfoldable pub load_dashboard_layout_result : Storage → LoadResult × Storage
  unfolding get_item
  load_dashboard_layout_result s = load_saved (truthy (get_item layout_key s)) s
