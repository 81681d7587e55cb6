-- ===== src/Registry/Access.antt =====
-- control-plane/src/index.ts: a request with its path taken apart, and the checks of its token.
use stagepilot_beta.Common.{◌<>◌, ℕ, List, leb, String, Bool, true, false, ◌&&◌, Option, is_some}
use stagepilot_beta.Registry.Names.{strip_prefix, same_bytes, utf16_length}
use stagepilot_beta.Registry.Data.{Env, Installation}
use stagepilot_beta.Registry.Replies.{credential_of}
use stagepilot_beta.Registry.Forms.{Input}

pub data Method : Type 0 where
  get post patch other_method : Method

pub data RouteAction : Type 0 where
  to_status to_provision to_disable to_revoke to_reconcile : RouteAction

pub data Route : Type 0 where
  on_installation : RouteAction → Route
  to_reenroll to_reactivate to_admin_revoke to_queue_reset : Route
  to_acknowledge : (action_id : String) → Route
  to_enroll to_own_approvals to_ingest to_upload : Route
  to_metrics to_cities to_installations to_label to_archive : Route
  to_alerts to_bundles to_approvals : Route
  to_acknowledge_alert to_bundle to_decide : (id : String) → Route

-- The id in the path, the bearer token, the body (`none` if it cannot be read), the edge's
-- location (a text that is not empty, or `none`), the query's `deviceName` and `status`, the address
-- that the edge saw, and the declared and the real length of the body.
pub record Request : Type 0 where
  pub method : Method
  pub route : Route
  pub id : String
  pub bearer : String
  pub input : Option Input
  pub city : Option String
  pub region : Option String
  pub country : Option String
  pub device_query : Option String
  pub status_query : Option String
  pub source : List ℕ
  pub declared_length : ℕ
  pub body_length : ℕ

abbrev pub is_get : Method → Bool
is_get get = true
is_get _ = false

abbrev pub is_post : Method → Bool
is_post post = true
is_post _ = false

abbrev pub is_patch : Method → Bool
is_patch patch = true
is_patch _ = false

module _ (env : Env) where
  unfoldable pub equal_secret : String → String → Bool
  unfolding same_bytes
  equal_secret a b = same_bytes (env.digest a) (env.digest b)

  unfoldable pub is_admin : Request → Bool
  unfolding equal_secret utf16_length
  is_admin r = leb 32 (utf16_length r.bearer) && equal_secret r.bearer env.admin_token

  unfoldable pub is_installation : Request → Installation → Bool
  unfolding equal_secret strip_prefix credential_of
  is_installation r i =
      is_some (strip_prefix ("spi_" <> i.id <> ".") r.bearer)
      && equal_secret r.bearer (credential_of env i)
