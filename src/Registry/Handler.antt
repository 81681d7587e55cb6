-- ===== src/Registry/Handler.antt =====
-- control-plane/src/index.ts: `handle` for the routes of the installation lifecycle. A request
-- comes with its path taken apart.
use stagepilot_beta.Common.{
  String, str_eq, Bool, true, false, not, ◌&&◌, ◌||◌, Option, none, some, if◌then◌else◌,
}
use stagepilot_beta.Registry.Data.{
  Env, Installation, failure, with_actions, Response, normal, recovery, Lane,
}
use stagepilot_beta.Registry.Action.{Action, pure, ◌>>=◌, ◌>>◌, save, load, with_lane}
use stagepilot_beta.Registry.Limits.{status, mutation, take_installation_rate}
use stagepilot_beta.Registry.Pending.{pending_actions, acknowledge_action}
use stagepilot_beta.Registry.Replies.{public_installation, reply}
use stagepilot_beta.Registry.Approvals.{installation_approval_requests, create_approval_request}
use stagepilot_beta.Registry.Alerts.{ingest_alert}
use stagepilot_beta.Registry.Diagnostics.{upload_diagnostics}
use stagepilot_beta.Registry.Limits.{take_diagnostics_rate}
use stagepilot_beta.Registry.Access.{
  RouteAction, to_status, to_provision, to_disable, to_revoke, to_reconcile, Request, is_get,
  is_post, is_admin, is_installation,
}
use stagepilot_beta.Registry.Provision.{note_device, provision, reconcile}
use stagepilot_beta.Registry.Revocation.{disable, reactivate, reenroll}

abbrev pub same_text : Option String → Option String → Bool
same_text none none = true
same_text none (some _) = false
same_text (some _) none = false
same_text (some s) (some t) = str_eq s t

abbrev pub is_status : RouteAction → Bool
is_status to_status = true
is_status _ = false

abbrev pub unauthorized : Response
unauthorized = record { status = 401; body = failure "unauthorized"; retry_after = none }

abbrev method_not_allowed : Response
method_not_allowed = record {
  status = 405;
  body = failure "method not allowed";
  retry_after = none;
}

module _ (env : Env) where
  unfoldable pub record_geo : Request → Installation → Action Installation
  record_geo r i =
      if same_text i.last_city r.city
        && same_text i.last_region r.region
        && same_text i.last_country r.country
      then pure i
      else (do
        let moved = record i {
          last_city = r.city;
          last_region = r.region;
          last_country = r.country;
        }
        save moved
        pure moved)

  abbrev pub locates : RouteAction → Bool
  locates to_status = true
  locates to_provision = true
  locates to_reconcile = true
  locates _ = false

  unfoldable pub answer_status : Request → Installation → Action Response
  answer_status r i = do
    charged ← take_installation_rate env i status
    named ← note_device env charged r.device_query
    actions ← pending_actions named.id
    pure (reply 200 (with_actions (public_installation named) actions))

  abbrev pub reconcile_lane : Bool → Lane
  reconcile_lane true = normal
  reconcile_lane false = recovery

  unfoldable pub mutate : RouteAction → Request → Installation → Action Response
  mutate to_provision r i = provision env r.input i
  mutate to_disable r i = with_lane recovery (disable env i false)
  mutate to_revoke r i = with_lane recovery (disable env i true)
  mutate to_reconcile r i = with_lane (reconcile_lane i.desired_enabled) (reconcile env r.input i)
  mutate to_status r i = pure method_not_allowed

  unfoldable pub charge_and_mutate : RouteAction → Request → Installation → Action Response
  charge_and_mutate action r i = do
    charged ← take_installation_rate env i mutation
    mutate action r charged

  unfoldable pub on_route : RouteAction → Request → Installation → Action Response
  on_route action r i = do
    located ← (if locates action then record_geo r i else pure i)
    (if is_status action && is_get r.method
        then answer_status r located
        else if is_post r.method
        then charge_and_mutate action r located
        else pure method_not_allowed)

  abbrev pub admits : Bool → Request → Installation → Bool
  admits revoked_too r i = (revoked_too || not i.revoked) && is_installation env r i

  unfoldable pub admit :
      Bool → Request → (Installation → Action Response) → Option Installation → Action Response
  admit revoked_too r f none = pure unauthorized
  admit revoked_too r f (some i) = if admits revoked_too r i then f i else pure unauthorized

  -- The installation of the path, if the caller owns it; a revoked one only where that is said.
  unfoldable pub authorized : Bool → Request → (Installation → Action Response) → Action Response
  authorized revoked_too r f = do found ← load r.id; admit revoked_too r f found

  unfoldable pub charged_reenroll : Installation → Action Response
  charged_reenroll i = do
    charged ← take_installation_rate env i mutation
    with_lane recovery (reenroll env charged)

  unfoldable pub charged_reactivate : Installation → Action Response
  charged_reactivate i = do
    charged ← take_installation_rate env i mutation
    with_lane recovery (reactivate env charged)

  unfoldable pub charged_acknowledge : String → Installation → Action Response
  charged_acknowledge action_id i = do
    charged ← take_installation_rate env i mutation
    acknowledge_action env charged action_id

  unfoldable pub charged_approvals : Request → Installation → Action Response
  charged_approvals r i =
      if is_get r.method
      then (do
        charged ← take_installation_rate env i status
        installation_approval_requests env charged)
      else (do
        charged ← take_installation_rate env i mutation
        create_approval_request env r.input charged)

  unfoldable pub charged_alert : Request → Installation → Action Response
  charged_alert r i = do
    charged ← take_installation_rate env i mutation
    ingest_alert env r.input charged

  unfoldable pub charged_upload : Request → Installation → Action Response
  charged_upload r i = do
    charged ← take_diagnostics_rate env i
    upload_diagnostics env r.declared_length r.body_length charged

  unfoldable pub as_admin : Request → Action Response → Action Response
  as_admin r m = if is_admin env r then m else pure unauthorized
