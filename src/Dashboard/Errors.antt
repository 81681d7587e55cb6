-- ===== src/Dashboard/Errors.antt =====
-- frontend/src/components/dashboard/dashboardActiveError.ts: the latest error that still stands.
use stagepilot_beta.Common.{
  ℕ, zero, suc, String, str_eq, Bool, true, false, Option, none, some, List, [], ◌∷◌, Dict, lookup,
  length, if◌then◌else◌,
}
use stagepilot_beta.Dashboard.Readiness.{
  ConnectionStatus, connecting, connected, disconnected, error, PluginStatus, plugin_stopped,
  plugin_starting, plugin_running, plugin_stopping, plugin_error,
}

pub data TimerStatus : Type 0 where
  timer_idle timer_running timer_stopped timer_error : TimerStatus

pub record ErrorSummary : Type 0 where
  pub component : String
  pub message : String

-- What is read of the application's state.
pub record ErrorState : Type 0 where
  pub timer_status : TimerStatus
  pub planning_center_status : ConnectionStatus
  pub midi_status : ConnectionStatus
  pub propresenter_status : ConnectionStatus
  pub lights_status : ConnectionStatus
  pub plugins : Dict PluginStatus
  pub recent_errors : List ErrorSummary

abbrev pub timer_failed : TimerStatus → Bool
timer_failed timer_error = true
timer_failed timer_idle = false
timer_failed timer_running = false
timer_failed timer_stopped = false

abbrev pub connection_failed : ConnectionStatus → Bool
connection_failed error = true
connection_failed connecting = false
connection_failed connected = false
connection_failed disconnected = false

abbrev pub plugin_failed : Option PluginStatus → Bool
plugin_failed (some plugin_error) = true
plugin_failed (some plugin_stopped) = false
plugin_failed (some plugin_starting) = false
plugin_failed (some plugin_running) = false
plugin_failed (some plugin_stopping) = false
plugin_failed none = false

unfoldable pub error_is_active : ErrorSummary → ErrorState → Bool
unfolding lookup
error_is_active e state =
    if str_eq e.component "timer"
    then timer_failed state.timer_status
    else if str_eq e.component "planning_center"
    then connection_failed state.planning_center_status
    else if str_eq e.component "midi"
    then connection_failed state.midi_status
    else if str_eq e.component "propresenter"
    then connection_failed state.propresenter_status
    else if str_eq e.component "lights"
    then connection_failed state.lights_status
    else plugin_failed (lookup e.component state.plugins)

unfoldable pub error_at : ℕ → List ErrorSummary → Option ErrorSummary
error_at i [] = none
error_at zero (e ∷ errors) = some e
error_at (suc i) (e ∷ errors) = error_at i errors

-- The error of a round, or those of the rounds after it.
unfoldable pub active_or :
    ErrorState → Option ErrorSummary → Option ErrorSummary → Option ErrorSummary
unfolding error_is_active
active_or state none earlier = earlier
active_or state (some e) earlier = if error_is_active e state then some e else earlier

-- The rounds left, downwards.
unfoldable pub latest_below : ErrorState → ℕ → Option ErrorSummary
unfolding active_or error_at
latest_below state zero = none
latest_below state (suc i) =
    let earlier = latest_below state i in active_or state (error_at i state.recent_errors) earlier

unfoldable pub latest_active_error : ErrorState → Option ErrorSummary
unfolding latest_below
latest_active_error state = latest_below state (length state.recent_errors)
