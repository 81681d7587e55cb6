-- ===== src/Dashboard/Readiness/Checks.antt =====
-- frontend/src/components/dashboard/dashboardReadiness.ts: the entries of the
-- system check.
use stagepilot_beta.Common.{
  ℕ, zero, suc, String, str_eq, Bool, true, false, not, ◌&&◌, Option, none, some, List, [], ◌∷◌,
  all, ◌<>◌, if◌then◌else◌,
}
use stagepilot_beta.Dashboard.Readiness.{
  ConnectionStatus, connecting, connected, disconnected, error, ServiceSource, demo_source,
  planning_center_source, MidiSource, simulated_midi, real_midi, playback_api_midi,
  ServiceLoadStatus, idle, loading, loaded, not_found, ambiguous, load_error, Song, ServicePlan,
  ServiceLoad, ApplicationState, Settings, ProPresenterAnswer,
}
use stagepilot_beta.Dashboard.Readiness.Cards.{Card, CardMode, real, simulated, demo, off}

pub data CheckSeverity : Type 0 where
  info warning blocking : CheckSeverity

pub data CheckStatus : Type 0 where
  check_connected check_disconnected check_error : CheckStatus

pub record Check : Type 0 where
  pub id : String
  pub label : String
  pub passed : Bool
  pub required : Bool
  pub severity : CheckSeverity
  pub status : CheckStatus
  pub detail : Option String

abbrev pub is_online : ConnectionStatus → Bool
is_online connected = true
is_online connecting = false
is_online disconnected = false
is_online error = false

abbrev pub check_status : ConnectionStatus → CheckStatus
check_status connecting = check_disconnected
check_status connected = check_connected
check_status disconnected = check_disconnected
check_status error = check_error

abbrev pub flag_status : Bool → CheckStatus
flag_status true = check_connected
flag_status false = check_disconnected

-- `connectionWord[status].toLowerCase()` of frontend/src/components/ui/statusWord.ts
abbrev pub lower_word : ConnectionStatus → String
lower_word connecting = "connecting"
lower_word connected = "connected"
lower_word disconnected = "disconnected"
lower_word error = "error"

abbrev pub connected_word : Bool → String
connected_word true = "connected"
connected_word false = "disconnected"

abbrev pub blocking_check : String → String → Bool → CheckStatus → Option String → Check
blocking_check id label passed status detail = record {
  id = id;
  label = label;
  passed = passed;
  required = true;
  severity = blocking;
  status = status;
  detail = detail;
}

unfoldable pub card_check : String → String → Card → Check
card_check id label view =
    blocking_check id (label <> " " <> connected_word (is_online view.status))
      (is_online view.status) (check_status view.status) (some view.detail)

-- The check of a card that a viewer sees.
unfoldable pub reported_check : String → String → Card → Check
reported_check id label view = record {
  id = id;
  label = label <> " " <> lower_word view.status;
  passed = is_online view.status;
  required = true;
  severity = info;
  status = check_status view.status;
  detail = some "Live status reported by StagePilot. Configuration is not available in this view.";
}

unfoldable pub backend_check : CheckSeverity → Bool → Check
backend_check severity live = record {
  id = "backend";
  label = "StagePilot " <> connected_word live;
  passed = live;
  required = true;
  severity = severity;
  status = flag_status live;
  detail = none;
}

abbrev pub is_loaded : ServiceLoadStatus → Bool
is_loaded loaded = true
is_loaded idle = false
is_loaded loading = false
is_loaded not_found = false
is_loaded ambiguous = false
is_loaded load_error = false

abbrev pub is_production : ServiceSource → Bool
is_production planning_center_source = true
is_production demo_source = false

unfoldable pub production_plan : Option Settings → Bool
production_plan none = false
production_plan (some s) = is_production s.modes.service_source

abbrev pub is_date : String → Option String → Bool
is_date date none = false
is_date date (some target) = str_eq date target

unfoldable pub service_plan_ready : Bool → Option ServicePlan → ServiceLoad → Bool
service_plan_ready production none load = false
service_plan_ready production (some plan) load =
    production && is_date plan.date load.target_date && is_loaded load.status && not load.is_stale

abbrev pub is_positive : Option ℕ → Bool
is_positive none = false
is_positive (some zero) = false
is_positive (some (suc n)) = true

abbrev pub has_duration : Song → Bool
has_duration song = is_positive song.duration_seconds

abbrev pub is_filled : List Song → Bool
is_filled [] = false
is_filled (_ ∷ _) = true

abbrev pub songs_of : Option ServicePlan → List Song
songs_of none = []
songs_of (some plan) = plan.songs

unfoldable pub duration_ready : Bool → Option ServicePlan → Bool
duration_ready plan_ready plan =
    plan_ready && is_filled (songs_of plan) && all has_duration (songs_of plan)

abbrev pub missing_status : Bool → Bool → CheckStatus
missing_status true plan_filled = check_connected
missing_status false true = check_error
missing_status false false = check_disconnected

abbrev pub names_interface : MidiSource → Bool
names_interface playback_api_midi = true
names_interface simulated_midi = false
names_interface real_midi = false

unfoldable pub playback_label : Option Settings → String
playback_label none = "Playback MIDI"
playback_label (some s) =
    if names_interface s.modes.midi_source then "Playback API" else "Playback MIDI"

abbrev pub timer_found_in : Option ProPresenterAnswer → Bool
timer_found_in none = false
timer_found_in (some p) = p.timer_found

abbrev pub is_real : CardMode → Bool
is_real real = true
is_real simulated = false
is_real demo = false
is_real off = false

abbrev pub timer_label : Bool → String
timer_label true = "Presentation timer found"
timer_label false = "Presentation timer not found"

unfoldable pub timer_checks : Option ProPresenterAnswer → Card → List Check
timer_checks answer view =
    if is_real view.mode && view.configured
    then blocking_check "propresenter-timer" (timer_label (timer_found_in answer))
        (timer_found_in answer) (missing_status (timer_found_in answer) (is_online view.status))
        none
      ∷ []
    else []

unfoldable pub order_checks : Option String → List Check
order_checks none = []
order_checks (some notice) =
    if str_eq notice ""
    then []
    else blocking_check "playback-order" notice false check_disconnected (
        some
          "Connection is healthy. Discover Song Order in the Playback panel before starting songs.")
      ∷ []

abbrev pub plan_label : Bool → String
plan_label true = "Service plan loaded"
plan_label false = "Service plan not loaded"

abbrev pub durations_label : Bool → String
durations_label true = "Song durations valid"
durations_label false = "Song durations invalid"

abbrev pub plan_detail : Bool → Option String
plan_detail true = none
plan_detail false = some "Demo service plan is available for testing."

unfoldable pub plan_checks : Option Settings → ApplicationState → List Check
unfolding production_plan service_plan_ready duration_ready
plan_checks settings state =
    let production = production_plan settings in
    let plan_ready = service_plan_ready production state.plan state.service_load in
    let durations = duration_ready plan_ready state.plan in
    blocking_check "service-plan" (plan_label plan_ready) plan_ready (flag_status plan_ready)
      (plan_detail production)
    ∷ blocking_check "durations" (durations_label durations) durations
        (missing_status durations (plan_ready && is_filled (songs_of state.plan))) none
    ∷ []
