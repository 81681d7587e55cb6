-- ===== src/Dashboard/Readiness/Cards.antt =====
-- frontend/src/components/dashboard/dashboardReadiness.ts: the cards of the four integrations.
-- `clock_text` is the browser's text for a moment of the day.
use stagepilot_beta.Common.{
  ◌<>◌, String, str_eq, Bool, true, false, not, ◌&&◌, Option, none, some, is_some, lookup, List, [],
  ◌∷◌, ◌<>◌, if◌then◌else◌,
}
use stagepilot_beta.Dashboard.Readiness.{
  ConnectionStatus, connecting, connected, disconnected, error, ServiceSource, demo_source,
  planning_center_source, MidiSource, simulated_midi, real_midi, playback_api_midi, TimerOutput,
  simulated_timer, propresenter_timer, ConnectionMethod, oauth, manual, ApplicationState, Settings,
  PlanningCenterAnswer, MidiInput, is_full_text,
}

pub data CardMode : Type 0 where
  real simulated demo off : CardMode

pub record Card : Type 0 where
  pub status : ConnectionStatus
  pub detail : String
  pub configured : Bool
  pub mode : CardMode
  pub action_notice : Option String

abbrev pub card : ConnectionStatus → String → Bool → CardMode → Card
card status detail configured mode = record {
  status = status;
  detail = detail;
  configured = configured;
  mode = mode;
  action_notice = none;
}

unfoldable pub status_text : ConnectionStatus → String
status_text connecting = "Connecting"
status_text error = "Connection failed"
status_text connected = "Connected"
status_text disconnected = "Disconnected"

unfoldable pub status_detail : ConnectionStatus → Option String → String
unfolding status_text
status_detail status none = status_text status
status_detail status (some detail) = if str_eq detail "" then status_text status else detail

unfoldable pub has_demo : ApplicationState → Bool
unfolding lookup
has_demo state = is_some (lookup "demo" state.plugins)

abbrev pub is_demo_source : ServiceSource → Bool
is_demo_source demo_source = true
is_demo_source planning_center_source = false

unfoldable pub service_is_demo : Option Settings → ApplicationState → Bool
unfolding has_demo
service_is_demo none state = has_demo state
service_is_demo (some s) state = is_demo_source s.modes.service_source

abbrev pub is_simulated_midi : MidiSource → Bool
is_simulated_midi simulated_midi = true
is_simulated_midi real_midi = false
is_simulated_midi playback_api_midi = false

unfoldable pub midi_is_simulated : Option Settings → ApplicationState → Bool
unfolding has_demo
midi_is_simulated none state = has_demo state
midi_is_simulated (some s) state = is_simulated_midi s.modes.midi_source

abbrev pub is_simulated_timer : TimerOutput → Bool
is_simulated_timer simulated_timer = true
is_simulated_timer propresenter_timer = false

unfoldable pub timer_is_simulated : Option Settings → ApplicationState → Bool
unfolding has_demo
timer_is_simulated none state = has_demo state
timer_is_simulated (some s) state = is_simulated_timer s.modes.timer_output

-- The credentials in the settings.
unfoldable pub manual_configured : Option Settings → Bool
manual_configured none = false
manual_configured (some s) = is_full_text s.app_id && s.secret_saved

abbrev pub configured_by : ConnectionMethod → Bool → Bool → Bool
configured_by oauth signed_in credentials = signed_in
configured_by manual signed_in credentials = credentials

unfoldable pub planning_auth_configured : Option PlanningCenterAnswer → Option Settings → Bool
unfolding manual_configured
planning_auth_configured none settings = manual_configured settings
planning_auth_configured (some answer) settings =
    configured_by answer.connection_method
      (answer.oauth_connected && not answer.oauth_needs_reconnect) (manual_configured settings)

unfoldable pub planning_configured : Option PlanningCenterAnswer → Option Settings → Bool
unfolding planning_auth_configured
planning_configured answer none = false
planning_configured answer (some s) =
    planning_auth_configured answer (some s) && is_full_text s.service_type_id

unfoldable pub connected_input : List MidiInput → Option MidiInput
connected_input [] = none
connected_input (input ∷ inputs) = if input.is_connected then some input else connected_input inputs

abbrev pub synced_at : (String → String) → Option String → String
synced_at clock_text none = "Services API connected"
synced_at clock_text (some at) =
    if str_eq at "" then "Services API connected" else "Last plan sync " <> clock_text at

abbrev pub synced : (String → String) → Option String → ConnectionStatus → Option String
synced clock_text at connected = some (synced_at clock_text at)
synced clock_text at connecting = none
synced clock_text at disconnected = none
synced clock_text at error = none

unfoldable pub planning_center_card : (String → String) → Bool → Bool → ApplicationState → Card
unfolding status_detail
planning_center_card clock_text true is_configured state =
    card disconnected "Demo service plan loaded — configure Services" false demo
planning_center_card clock_text false false state =
    card disconnected "Configure Services credentials" false off
planning_center_card clock_text false true state =
    card state.planning_center_status
      (status_detail state.planning_center_status
        (synced clock_text state.last_successful_plan_reload_at state.planning_center_status))
      true real
