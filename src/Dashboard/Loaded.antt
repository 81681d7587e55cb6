-- ===== src/Dashboard/Loaded.antt =====
-- What the loading of a layout gives and stores.
use stagepilot_beta.Common.{
  String, true, false, Option, none, some, Dict, lookup, insert, lookup-insert, str_eq, ◌≡◌, refl,
}
use stagepilot_beta.Dashboard.Json.{Json}
use stagepilot_beta.Dashboard.Widgets.{LayoutState, default_layout}
use stagepilot_beta.Dashboard.Layout.{parse_dashboard_layout, migrate_dashboard_order}
use stagepilot_beta.Dashboard.Storage.{
  LoadResult, Storage, Codec, get_item, set_item, layout_key, order_key, invalid_key, truthy,
  parsed, save_dashboard_layout, fall_back, finish_migration, migration_of, migrate, finish_load,
  load_saved, load_dashboard_layout_result,
}
use stagepilot_beta.Dashboard.Fits.{OnSome}
use stagepilot_beta.Dashboard.Loading.{IsUsable, parse-OnSome}
use stagepilot_beta.Dashboard.Packing.{migrate-OnSome, default-IsUsable}

parsed-OnSome :
    (f : Json → Option LayoutState) (o : Option Json)
    → ((j : Json) → OnSome IsUsable (f j))
    → OnSome IsUsable (parsed f o)
parsed-OnSome f none h = tt
parsed-OnSome f (some j) h = h j

-- A storage that can be read and written.
abbrev pub working : Dict String → Storage
working rows = record { rows = rows; readable = true; writable = true }

module _ (c : Codec) where
  migration-OnSome : (o : Option String) → OnSome IsUsable (migration_of c o)
  unfolding migration_of
  migration-OnSome none = tt
  migration-OnSome (some old) = parsed-OnSome migrate_dashboard_order (c.parse old) migrate-OnSome

  finish-IsUsable :
      (o : Option LayoutState) (s : Storage)
      → OnSome IsUsable o
      → IsUsable (finish_migration c o s).0.layout
  unfolding finish_migration fall_back
  finish-IsUsable none s h = default-IsUsable
  finish-IsUsable (some layout) s h = h

  migrate-IsUsable : (s : Storage) → IsUsable (migrate c s).0.layout
  unfolding migrate
  migrate-IsUsable s =
      finish-IsUsable (migration_of c (truthy (get_item order_key s))) s (migration-OnSome _)

  finish_load-IsUsable :
      (text : String) (o : Option LayoutState) (s : Storage)
      → OnSome IsUsable o
      → IsUsable (finish_load c text o s).0.layout
  unfolding finish_load
  finish_load-IsUsable text none s h = migrate-IsUsable _
  finish_load-IsUsable text (some layout) s h = h

  saved-IsUsable : (o : Option String) (s : Storage) → IsUsable (load_saved c o s).0.layout
  unfolding load_saved
  saved-IsUsable none s = migrate-IsUsable s
  saved-IsUsable (some text) s =
      finish_load-IsUsable text (parsed parse_dashboard_layout (c.parse text)) s
        (parsed-OnSome parse_dashboard_layout (c.parse text) parse-OnSome)

  -- Whatever the browser stores under any key, and whether it can be read or written or not, the
  -- layout that is loaded has on the desktop and on the tablet every widget exactly once, each
  -- inside the columns and no narrower or lower than the widget allows, and in its mobile order
  -- every widget once.
  pub load-IsUsable : (s : Storage) → IsUsable (load_dashboard_layout_result c s).0.layout
  unfolding load_dashboard_layout_result
  load-IsUsable s = saved-IsUsable (truthy (get_item layout_key s)) s

  -- After a failed reading of the layout the text is kept, and a layout is stored.
  abbrev Keeps : String → LoadResult × Storage → Type 0
  Keeps text (r, s) =
      (lookup invalid_key s.rows ≡ some text) × (lookup layout_key s.rows ≡ some (c.show r.layout))

  finish_migration-Keeps :
      (text : String) (o : Option LayoutState) (rows : Dict String)
      → lookup invalid_key rows ≡ some text
      → Keeps text (finish_migration c o (working rows))
  unfolding finish_migration fall_back save_dashboard_layout set_item
  finish_migration-Keeps text none rows kept = (
    rw (lookup-insert layout_key invalid_key (c.show default_layout) rows) kept,
    rw (lookup-insert layout_key layout_key (c.show default_layout) rows) refl,
  )
  finish_migration-Keeps text (some layout) rows kept = (
    rw (lookup-insert layout_key invalid_key (c.show layout) rows) kept,
    rw (lookup-insert layout_key layout_key (c.show layout) rows) refl,
  )

  migrate-Keeps :
      (text : String) (rows : Dict String)
      → Keeps text (migrate c (set_item invalid_key text (working rows)))
  unfolding migrate set_item
  migrate-Keeps text rows =
      finish_migration-Keeps text _ (insert invalid_key text rows)
        (rw (lookup-insert invalid_key invalid_key text rows) refl)

  -- A stored text that is no layout is not lost: where the storage can be read and written, it
  -- stands afterwards under the key for invalid layouts, and the layout that is loaded in its
  -- place is stored under the layout's key; the text is not the empty one.
  pub load-invalid :
      (rows : Dict String) (text : String)
      → lookup layout_key rows ≡ some text
      → str_eq text "" ≡ false
      → parsed parse_dashboard_layout (c.parse text) ≡ none
      → (lookup invalid_key (load_dashboard_layout_result c (working rows)).1.rows ≡ some text)
        × (lookup layout_key (load_dashboard_layout_result c (working rows)).1.rows
            ≡ some (c.show (load_dashboard_layout_result c (working rows)).0.layout))
  unfolding load_dashboard_layout_result get_item load_saved finish_load
  load-invalid rows text there full invalid = rw (there, full, invalid) (migrate-Keeps text rows)
