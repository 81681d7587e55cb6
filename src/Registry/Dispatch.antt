-- ===== src/Registry/Dispatch.antt =====
-- control-plane/src/index.ts: `handle` and `fetch`. A request comes with its path taken apart.
use stagepilot_beta.Common.{
  ◌<>◌, suc, String, str_eq, List, [], ◌∷◌, any, Bool, true, false, ◌||◌, Option, none, some,
  if◌then◌else◌,
}
use stagepilot_beta.Registry.Data.{World, Env, failure, incomplete, Response, recovery}
use stagepilot_beta.Registry.Action.{
  Action, Outcome, ok, thrown, Thrown, limited, http_failure, invalid_response, rejected, error,
  Operation, dns, tunnel_token, tunnel_configuration, tunnel_lifecycle, pure, with_lane,
}
use stagepilot_beta.Registry.Pending.{queue_reset}
use stagepilot_beta.Registry.Access.{
  Route, on_installation, to_reenroll, to_reactivate, to_admin_revoke, to_queue_reset,
  to_acknowledge, Request, is_get, is_post,
}
use stagepilot_beta.Registry.Revocation.{admin_revoke}
use stagepilot_beta.Registry.Access.{
  to_enroll, to_own_approvals, to_ingest, to_upload, to_metrics, to_cities, to_installations,
  to_label, to_archive, to_alerts, to_bundles, to_approvals, to_acknowledge_alert, to_bundle,
  to_decide, is_patch,
}
use stagepilot_beta.Registry.Enrollment.{enroll}
use stagepilot_beta.Registry.Approvals.{admin_list_approval_requests, admin_decide_approval_request}
use stagepilot_beta.Registry.Alerts.{admin_list_alerts, admin_acknowledge_alert}
use stagepilot_beta.Registry.Panel.{
  admin_metrics, admin_list_cities, admin_list_installations, admin_set_label, admin_set_archived,
}
use stagepilot_beta.Registry.Bundles.{admin_list_diagnostics, admin_get_diagnostic}
use stagepilot_beta.Registry.Handler.{
  on_route, authorized, charged_reenroll, charged_reactivate, charged_acknowledge,
  charged_approvals, charged_alert, charged_upload, as_admin,
}

abbrev safe_diagnostics : List String
safe_diagnostics =
    "missing generation" ∷ "hostname ownership conflict" ∷ "tunnel creation not confirmed"
    ∷ "hostname route not confirmed" ∷ "installation credential unavailable"
    ∷ "hostname removal not confirmed" ∷ "tunnel revocation not confirmed"
    ∷ "ambiguous tunnel ownership" ∷ "invalid tunnel ownership" ∷ "ambiguous hostname ownership"
    ∷ "tunnel configuration not confirmed" ∷ []

abbrev operation_name : Operation → String
operation_name dns = "DNS"
operation_name tunnel_token = "tunnel-token"
operation_name tunnel_configuration = "tunnel-configuration"
operation_name tunnel_lifecycle = "tunnel-lifecycle"

module _ (env : Env) where
  -- A route with a method that it does not take is not found.
  unfoldable pub by_method : Bool → Action Response → Action Response
  by_method fits m =
      if fits
      then m
      else pure (record { status = 404; body = failure "not found"; retry_after = none })

  abbrev pub posted : Request → Action Response → Action Response
  posted r m = by_method (is_post r.method) m

  abbrev pub asked : Request → Action Response → Action Response
  asked r m = by_method (is_get r.method) (as_admin env r m)

  abbrev pub patched : Request → Action Response → Action Response
  patched r m = by_method (is_patch r.method) (as_admin env r m)

  unfoldable pub route_request : Route → Request → Action Response
  route_request (on_installation action) r = authorized env false r (on_route env action r)
  route_request to_reenroll r = posted r (authorized env false r (charged_reenroll env))
  route_request to_reactivate r = posted r (authorized env true r (charged_reactivate env))
  route_request (to_acknowledge action_id) r =
      posted r (authorized env false r (charged_acknowledge env action_id))
  route_request to_admin_revoke r =
      posted r (as_admin env r (with_lane recovery (admin_revoke env r.id)))
  route_request to_queue_reset r = posted r (as_admin env r (queue_reset env r.id))
  route_request to_enroll r = posted r (enroll env r.source r.input)
  route_request to_own_approvals r =
      by_method (is_get r.method || is_post r.method)
        (authorized env false r (charged_approvals env r))
  route_request to_ingest r = posted r (authorized env false r (charged_alert env r))
  route_request to_upload r = posted r (authorized env false r (charged_upload env r))
  route_request to_metrics r = asked r admin_metrics
  route_request to_cities r = asked r (admin_list_cities env)
  route_request to_installations r = asked r (admin_list_installations env)
  route_request to_label r = patched r (admin_set_label env r.input r.id)
  route_request to_archive r = patched r (admin_set_archived env r.input r.id)
  route_request to_alerts r = asked r (admin_list_alerts env r.status_query)
  route_request to_bundles r = asked r (admin_list_diagnostics env r.id)
  route_request to_approvals r = asked r (admin_list_approval_requests env r.status_query)
  route_request (to_acknowledge_alert id) r =
      posted r (as_admin env r (admin_acknowledge_alert env id))
  route_request (to_bundle segment) r = asked r (admin_get_diagnostic env r.id segment)
  route_request (to_decide id) r =
      posted r (as_admin env r (admin_decide_approval_request env r.input id))

  diagnostic : Thrown → Option String
  diagnostic (limited code retry message) = none
  diagnostic (http_failure op code) =
      some ("provider " <> operation_name op <> " request failed (HTTP " <> env.decimal code <> ")")
  diagnostic (invalid_response op) =
      some ("provider " <> operation_name op <> " returned invalid response")
  diagnostic (rejected op) = some ("provider rejected " <> operation_name op <> " request")
  diagnostic (error message) = if any (str_eq message) safe_diagnostics then some message else none

  failed : Thrown → Response
  unfolding diagnostic
  failed (limited code retry message) = record {
    status = code;
    body = failure message;
    retry_after = some retry;
  }
  failed t = record { status = 503; body = incomplete (diagnostic t); retry_after = none }

  unfoldable pub respond : Outcome Response → Response
  unfolding failed
  respond (ok r) = r
  respond (thrown t) = failed t

  -- The answer to a request, and the world after it.
  unfoldable pub serve : Request → World → Response × World
  serve r w = let (outcome, w') = route_request r.route r w in (respond outcome, w')

  -- Time passes between two requests.
  abbrev pub later : World → World
  later w = record w { moment = suc w.moment }

  unfoldable pub run : List Request → World → World
  run [] w = w
  run (r ∷ rs) w = run rs (later (serve r w).1)
