-- ===== src/Registry/Slots/Fleet.antt =====
-- The slots across the alerts, the approval requests and the operator's lists.
use stagepilot_beta.Common.{ℕ, String, Bool, Option, none, some, refl}
use stagepilot_beta.Registry.Fleet.{ApprovalRequest, AlertRecord}
use stagepilot_beta.Registry.Forms.{Input, AlertForm}
use stagepilot_beta.Registry.Data.{World, Env, Installation}
use stagepilot_beta.Registry.Action.{load}
use stagepilot_beta.Registry.Approvals.{
  read_body, draw, put_approval, request_approval, create_approval_request,
  installation_approval_requests, admin_list_approval_requests, decide_found, decide_request,
  admin_decide_approval_request,
}
use stagepilot_beta.Registry.Alerts.{
  put_alert, store_alert, ingest_alert, admin_list_alerts, acknowledge_found,
  admin_acknowledge_alert,
}
use stagepilot_beta.Registry.Panel.{admin_list_installations, admin_list_cities}
use stagepilot_beta.Registry.Bundles.{list_found, admin_list_diagnostics, admin_get_diagnostic}
use stagepilot_beta.Registry.Rules.Basic.{Keeps, keeps_rules, Keeps-gets}
use stagepilot_beta.Registry.Slots.Invariant.{IsSound, steady-IsSound}
use stagepilot_beta.Registry.Slots.Revoking.{now_text-Keeps}

module _ (env : Env) where
  abbrev limit : ℕ
  limit = env.installation_limit

  abbrev Sound : World → Type 0
  Sound = IsSound limit 0

  pub read_body-Keeps : (P : World → Type 0) (input : Option Input) → Keeps P (read_body input)
  unfolding read_body
  read_body-Keeps P none = search keeps_rules
  read_body-Keeps P (some given) = search keeps_rules

  pub draw-Keeps : (bytes : ℕ) → Keeps Sound (draw env bytes)
  unfolding draw
  draw-Keeps bytes = record {
    at = λ w s. steady-IsSound limit s (record { same = refl; counted = s.stored });
  }

  put_approval-Keeps : (key : String) (a : ApprovalRequest) → Keeps Sound (put_approval key a)
  unfolding put_approval
  put_approval-Keeps key a = record {
    at = λ w s. steady-IsSound limit s (record { same = refl; counted = s.stored });
  }

  put_alert-Keeps : (key : String) (a : AlertRecord) → Keeps Sound (put_alert key a)
  unfolding put_alert
  put_alert-Keeps key a = record {
    at = λ w s. steady-IsSound limit s (record { same = refl; counted = s.stored });
  }

  request-Keeps :
      (i : Installation) (reason : Option String) → Keeps Sound (request_approval env i reason)
  unfolding request_approval
  request-Keeps i none = search keeps_rules
  request-Keeps i (some reason) =
      search (keeps_rules, now_text-Keeps env, draw-Keeps, put_approval-Keeps)

  pub create-Keeps :
      (input : Option Input) (i : Installation) → Keeps Sound (create_approval_request env input i)
  unfolding create_approval_request
  create-Keeps input i = search (keeps_rules, read_body-Keeps Sound, request-Keeps)

  pub own_approvals-Keeps : (i : Installation) → Keeps Sound (installation_approval_requests env i)
  unfolding installation_approval_requests
  own_approvals-Keeps i = search keeps_rules

  pub approvals-Keeps :
      (query : Option String) → Keeps Sound (admin_list_approval_requests env query)
  unfolding admin_list_approval_requests
  approvals-Keeps query = search keeps_rules

  decide_found-Keeps :
      (b : Bool) (o : Option (String × ApprovalRequest)) → Keeps Sound (decide_found env b o)
  unfolding decide_found
  decide_found-Keeps b none = search keeps_rules
  decide_found-Keeps b (some (key, a)) =
      search (keeps_rules, now_text-Keeps env, put_approval-Keeps)

  decide_request-Keeps : (id : String) (o : Option Bool) → Keeps Sound (decide_request env id o)
  unfolding decide_request
  decide_request-Keeps id none = search keeps_rules
  decide_request-Keeps id (some b) = search (keeps_rules, decide_found-Keeps)

  pub admin_decide-Keeps :
      (input : Option Input) (id : String)
      → Keeps Sound (admin_decide_approval_request env input id)
  unfolding admin_decide_approval_request
  admin_decide-Keeps input id = search (keeps_rules, read_body-Keeps Sound, decide_request-Keeps)

  store_alert-Keeps : (i : Installation) (o : Option AlertForm) → Keeps Sound (store_alert env i o)
  unfolding store_alert
  store_alert-Keeps i none = search keeps_rules
  store_alert-Keeps i (some form) = search (keeps_rules, now_text-Keeps env, put_alert-Keeps)

  pub ingest-Keeps :
      (input : Option Input) (i : Installation) → Keeps Sound (ingest_alert env input i)
  unfolding ingest_alert
  ingest-Keeps input i = search (keeps_rules, read_body-Keeps Sound, store_alert-Keeps)

  pub alerts-Keeps : (filter : Option String) → Keeps Sound (admin_list_alerts env filter)
  unfolding admin_list_alerts
  alerts-Keeps filter = search keeps_rules

  acknowledge_found-Keeps :
      (o : Option (String × AlertRecord)) → Keeps Sound (acknowledge_found env o)
  unfolding acknowledge_found
  acknowledge_found-Keeps none = search keeps_rules
  acknowledge_found-Keeps (some (key, a)) =
      search (keeps_rules, now_text-Keeps env, put_alert-Keeps)

  pub acknowledge_alert-Keeps : (id : String) → Keeps Sound (admin_acknowledge_alert env id)
  unfolding admin_acknowledge_alert
  acknowledge_alert-Keeps id = search (keeps_rules, acknowledge_found-Keeps)

  pub installations-Keeps : Keeps Sound (admin_list_installations env)
  unfolding admin_list_installations
  installations-Keeps = search keeps_rules

  pub cities-Keeps : Keeps Sound (admin_list_cities env)
  unfolding admin_list_cities
  cities-Keeps = search keeps_rules

  list_found-Keeps : (id : String) (o : Option Installation) → Keeps Sound (list_found env id o)
  unfolding list_found
  list_found-Keeps id none = search keeps_rules
  list_found-Keeps id (some i) = search keeps_rules

  pub load-Keeps : (P : World → Type 0) (id : String) → Keeps P (load id)
  unfolding load
  load-Keeps P id = Keeps-gets _

  pub bundles-Keeps : (id : String) → Keeps Sound (admin_list_diagnostics env id)
  unfolding admin_list_diagnostics
  bundles-Keeps id = search (keeps_rules, load-Keeps Sound, list_found-Keeps)

  pub bundle-Keeps : (id segment : String) → Keeps Sound (admin_get_diagnostic env id segment)
  unfolding admin_get_diagnostic
  bundle-Keeps id segment = search keeps_rules
