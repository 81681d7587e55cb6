-- ===== src/Registry/Panel.antt =====
-- control-plane/src/index.ts: what the operator's panel reads and sets of the installations.
use stagepilot_beta.Common.{
  ℕ, ◌+◌, String, Bool, false, ◌&&◌, ◌||◌, ltb, ◌==◌, List, [], ◌∷◌, map, Dict, Option, none, some,
  or_else, lookup, insert, if◌then◌else◌,
}
use stagepilot_beta.Registry.Forms.{Input, label_form}
use stagepilot_beta.Registry.Data.{
  Env, Installation, PublicInstallation, Description, failure, described, fleet, cities, statistics,
  Response,
}
use stagepilot_beta.Registry.Action.{Action, pure, gets, ◌>>=◌, ◌>>◌, save, load}
use stagepilot_beta.Registry.Limits.{stats}
use stagepilot_beta.Registry.Replies.{public_installation, reply, now_text}
use stagepilot_beta.Registry.Rows.{listed, values, sort_list}
use stagepilot_beta.Registry.Approvals.{read_body}
use stagepilot_beta.Registry.Alerts.{format_location}

unfoldable pub admin_metrics : Action Response
admin_metrics = do s ← stats; pure (reply 200 (statistics s))

abbrev pub listing : Installation → PublicInstallation × Description
listing i = (
  public_installation i,
  record {
    label = i.label;
    location = format_location i;
    archived = some (or_else i.archived false);
    ever_provisioned = some (or_else i.ever_provisioned false);
  },
)

-- `counts.set(location, (counts.get(location) ?? 0) + 1)` for what is not revoked
unfoldable pub count_cities : List Installation → Dict ℕ → Dict ℕ
unfolding format_location lookup insert
count_cities [] counts = counts
count_cities (i ∷ is') counts = count_cities is' (
    if i.revoked
    then counts
    else insert (format_location i) (or_else (lookup (format_location i) counts) 0 + 1) counts)

module _ (env : Env) where
  abbrev pub updated_later : Installation → Installation → Bool
  updated_later a b = env.locale_before b.updated_at a.updated_at

  unfoldable pub admin_list_installations : Action Response
  admin_list_installations = do
    rows ← gets (λ w. listed w.installations)
    pure (reply 200 (fleet (map listing (sort_list updated_later (values rows)))))

  abbrev pub city_precedes : String × ℕ → String × ℕ → Bool
  city_precedes (s, n) (t, m) = ltb m n || (n == m && env.locale_before s t)

  unfoldable pub admin_list_cities : Action Response
  admin_list_cities = do
    rows ← gets (λ w. listed w.installations)
    pure (reply 200 (cities (sort_list city_precedes (count_cities (values rows) []))))

  unfoldable pub set_label : Installation → Option String → Action Response
  set_label i none = pure (reply 400 (failure "invalid request"))
  set_label i (some label) = do
    now ← now_text env
    let updated = record i { label = label; updated_at = now }
    save updated
    pure (
        reply 200 (
          described (public_installation updated) (record {
            label = label;
            location = format_location updated;
            archived = none;
            ever_provisioned = none;
          })))

  unfoldable pub label_found : Option Input → Option Installation → Action Response
  label_found input none = pure (reply 404 (failure "not found"))
  label_found input (some i) = do given ← read_body input; set_label i (label_form given.label)

  unfoldable pub admin_set_label : Option Input → String → Action Response
  admin_set_label input id = do found ← load id; label_found input found

  unfoldable pub set_archived : Installation → Option Bool → Action Response
  set_archived i none = pure (reply 400 (failure "invalid request"))
  set_archived i (some archived) = do
    now ← now_text env
    let updated = record i { archived = some archived; updated_at = now }
    save updated
    pure (
        reply 200 (
          described (public_installation updated) (record {
            label = updated.label;
            location = format_location updated;
            archived = some archived;
            ever_provisioned = none;
          })))

  unfoldable pub archived_found : Option Input → Option Installation → Action Response
  archived_found input none = pure (reply 404 (failure "not found"))
  archived_found input (some i) = do given ← read_body input; set_archived i given.archived

  unfoldable pub admin_set_archived : Option Input → String → Action Response
  admin_set_archived input id = do found ← load id; archived_found input found
