-- ===== src/Registry/Alerts.antt =====
-- control-plane/src/index.ts: the alerts that installations forward. A row's key is the
-- installation's id, the category and a keyed hash of category and subject, joined by colons.
pub mod Again
use stagepilot_beta.Common.{
  ◌<>◌, String, str_eq, Bool, true, false, keep, Option, none, some, or_else, insert, lookup,
  is_some, if◌then◌else◌,
}
use stagepilot_beta.Registry.Fleet.{AlertStatus, opened, acknowledged, AlertRecord}
use stagepilot_beta.Registry.Forms.{Input, AlertForm, alert_form}
use stagepilot_beta.Registry.Data.{Env, Installation, failure, alert, alerts, Response}
use stagepilot_beta.Registry.Action.{Action, pure, gets, modify, ◌>>=◌, ◌>>◌}
use stagepilot_beta.Registry.Replies.{reply, now_text}
use stagepilot_beta.Registry.Rows.{listed, find_row, values, sort_list}
use stagepilot_beta.Registry.Approvals.{read_body}

unfoldable pub format_location : Installation → String
format_location i = or_else i.last_city (or_else i.last_region (or_else i.last_country "Unknown"))

unfoldable pub put_alert : String → AlertRecord → Action (Unit {0})
unfolding modify insert
put_alert key a = modify (λ w. record w { alerts = insert key a w.alerts })

-- A stored alert that is forwarded again, and a new one.
unfoldable pub renewed : AlertForm → String → String → AlertRecord → AlertRecord
renewed form now place existing = record existing {
  message = form.message;
  severity = form.severity;
  first_seen = form.first_seen;
  last_seen = form.last_seen;
  count = form.count;
  status = opened;
  updated_at = now;
  location = place;
}

unfoldable pub fresh_alert : AlertForm → String → String → String → String → AlertRecord
fresh_alert form key owner now place = record {
  id = key;
  installation_id = owner;
  category = form.category;
  subject = form.subject;
  message = form.message;
  severity = form.severity;
  first_seen = form.first_seen;
  last_seen = form.last_seen;
  count = form.count;
  status = opened;
  created_at = now;
  updated_at = now;
  location = place;
}

abbrev pub alert_status_name : AlertStatus → String
alert_status_name opened = "open"
alert_status_name acknowledged = "acknowledged"

-- Whether a filter is none of the two states.
abbrev pub is_bad_filter : Option String → Bool
is_bad_filter none = false
is_bad_filter (some s) =
    if str_eq s "open" then false else if str_eq s "acknowledged" then false else true

-- `!statusFilter || alert.status === statusFilter`
abbrev pub passes : Option String → AlertRecord → Bool
passes none a = true
passes (some s) a = str_eq (alert_status_name a.status) s

module _ (env : Env) where
  unfoldable pub alert_key : String → String → String
  alert_key category subject = env.signature (category <> "\0" <> subject)

  unfoldable pub record_of :
      Installation → AlertForm → String → String → Option AlertRecord → AlertRecord
  unfolding renewed fresh_alert format_location
  record_of i form key now (some existing) = renewed form now (format_location i) existing
  record_of i form key now none = fresh_alert form key i.id now (format_location i)

  unfoldable pub store_alert : Installation → Option AlertForm → Action Response
  store_alert i none = pure (reply 400 (failure "invalid request"))
  store_alert i (some form) = do
    let key = i.id <> ":" <> form.category <> ":" <> alert_key form.category form.subject
    now ← now_text env
    existing ← gets (λ w. lookup key w.alerts)
    let kept = record_of i form key now existing
    put_alert key kept
    pure (reply (if is_some existing then 200 else 201) (alert kept))

  unfoldable pub ingest_alert : Option Input → Installation → Action Response
  ingest_alert input i = do given ← read_body input; store_alert i (alert_form given)

  abbrev pub alert_precedes : AlertRecord → AlertRecord → Bool
  alert_precedes a b = env.locale_before b.updated_at a.updated_at

  unfoldable pub admin_list_alerts : Option String → Action Response
  admin_list_alerts filter =
      if is_bad_filter filter then pure (reply 400 (failure "invalid status filter")) else (do
        rows ← gets (λ w. listed w.alerts)
        pure (reply 200 (alerts (sort_list alert_precedes (keep (passes filter) (values rows))))))

  unfoldable pub acknowledge_found : Option (String × AlertRecord) → Action Response
  acknowledge_found none = pure (reply 404 (failure "not found"))
  acknowledge_found (some (key, a)) = do
    now ← now_text env
    let updated = record a { status = acknowledged; updated_at = now }
    put_alert key updated
    pure (reply 200 (alert updated))

  unfoldable pub admin_acknowledge_alert : String → Action Response
  admin_acknowledge_alert id = do
    found ← gets (λ w. find_row (λ a. str_eq a.id id) (listed w.alerts))
    acknowledge_found found
