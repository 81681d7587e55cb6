-- ===== src/Registry/Bundles.antt =====
-- control-plane/src/index.ts: the operator's view of uploaded diagnostics.
use Prim.Native.Char.{code}
use stagepilot_beta.Common.{
  ◌<>◌, ℕ, String, str_eq, Bool, true, not, ◌==◌, ◌∷◌, any, map, Option, none, some, if◌then◌else◌,
}
use stagepilot_beta.Registry.Names.{codes}
use stagepilot_beta.Registry.Fleet.{DiagnosticsBundleMeta}
use stagepilot_beta.Registry.Data.{Env, Installation, failure, bundles, download, Response}
use stagepilot_beta.Registry.Action.{Action, pure, gets, ◌>>=◌, load}
use stagepilot_beta.Registry.Replies.{reply}
use stagepilot_beta.Registry.Rows.{listed, find_row, with_prefix, values, sort_list}

-- `text.endsWith(suffix)`
unfoldable pub ends_with : String → String → Bool
ends_with suffix String.[] = str_eq suffix ""
ends_with suffix (String.◌∷◌ c s) =
    if str_eq suffix (String.◌∷◌ c s) then true else ends_with suffix s

abbrev pub slash : ℕ → Bool
slash c = c == b'/'

-- `text.split('/').at(-1)`
unfoldable pub last_segment : String → String
last_segment String.[] = String.[]
last_segment (String.◌∷◌ c s) =
    if any slash (code c ∷ codes s) then last_segment s else String.◌∷◌ c s

abbrev pub bundle_row : DiagnosticsBundleMeta → String × String × ℕ
bundle_row meta = (last_segment meta.key, meta.uploaded_at, meta.size)

module _ (env : Env) where
  abbrev pub uploaded_later : DiagnosticsBundleMeta → DiagnosticsBundleMeta → Bool
  uploaded_later a b = env.locale_before b.uploaded_at a.uploaded_at

  unfoldable pub list_found : String → Option Installation → Action Response
  list_found id none = pure (reply 404 (failure "not found"))
  list_found id (some i) = do
    rows ← gets (λ w. with_prefix (id <> ":") (listed w.bundles))
    pure (reply 200 (bundles (map bundle_row (sort_list uploaded_later (values rows)))))

  unfoldable pub admin_list_diagnostics : String → Action Response
  admin_list_diagnostics id = do found ← load id; list_found id found

  unfoldable pub bundle_found : Option (String × DiagnosticsBundleMeta) → Response
  bundle_found none = reply 404 (failure "not found")
  bundle_found (some (key, meta)) =
      if env.bucket_holds meta.key
      then reply 200 (download meta)
      else reply 404 (failure "not found")

  unfoldable pub admin_get_diagnostic : String → String → Action Response
  unfolding bundle_found
  admin_get_diagnostic id segment =
      if not env.has_bucket
      then pure (reply 503 (failure "diagnostics storage unavailable"))
      else (do
        found ← gets (λ w.
            find_row (λ meta. ends_with ("/" <> segment) meta.key)
              (with_prefix (id <> ":") (listed w.bundles)))
        pure (bundle_found found))
