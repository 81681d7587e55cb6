-- ===== src/Examples/Shell.antt =====
-- The access, the errors and a start of the page.
use stagepilot_beta.Common.{◌≤◌, Bool, true, false, none, some, List, [], ◌∷◌, ◌≡◌, refl, arith}
use stagepilot_beta.Access.{
  DashboardAccess, remote, AccessState, AccessCall, set_call, invalidate_call, no_capabilities,
  set_api_access, invalidate_access, run_access, invalidate-late,
}
use stagepilot_beta.Dashboard.Readiness.{connected, error}
use stagepilot_beta.Dashboard.Errors.{
  timer_idle, ErrorSummary, ErrorState, error_is_active, error_at, active_or, latest_below,
  latest_active_error,
}
use stagepilot_beta.Dashboard.ActiveError.{IsLatest, latest_active_error-IsLatest}
use stagepilot_beta.Startup.{
  supervisor_ready, StartupInput, derive_startup_phase, phase_ceiling, startup-monotone,
}

abbrev access : DashboardAccess
access = record {
  mode = remote;
  authenticated = true;
  capabilities = no_capabilities;
  user_email = some "a@b.org";
  expires_at = none;
  csrf_token = some "t";
}

abbrev signed_out : AccessState
signed_out = record { held_access = none; generation = 3; notified = 0 }

abbrev calls : List AccessCall
calls = invalidate_call 4 ∷ set_call (some access) ∷ []

invalidate-late_example :
    invalidate_access 3 (run_access calls (set_api_access (some access) signed_out))
    ≡ run_access calls (set_api_access (some access) signed_out)
invalidate-late_example = invalidate-late (some access) calls signed_out

abbrev midi_error : ErrorSummary
midi_error = record { component = "midi"; message = "The input is gone." }

abbrev timer_fault : ErrorSummary
timer_fault = record { component = "timer"; message = "The timer did not start." }

abbrev error_state : ErrorState
error_state = record {
  timer_status = timer_idle;
  planning_center_status = connected;
  midi_status = error;
  propresenter_status = connected;
  lights_status = connected;
  plugins = [];
  recent_errors = midi_error ∷ timer_fault ∷ [];
}

latest_tests : latest_active_error error_state ≡ some midi_error
unfolding latest_active_error latest_below active_or error_at error_is_active
latest_tests = refl

latest_active_error-IsLatest_example : IsLatest error_state (latest_active_error error_state)
latest_active_error-IsLatest_example = latest_active_error-IsLatest error_state

abbrev input_at : Bool → StartupInput
input_at linked = record {
  supervisor_state = some supervisor_ready;
  application_state_loaded = false;
  connection_established = linked;
  retrying = false;
}

startup-monotone_example :
    phase_ceiling (derive_startup_phase (input_at false) 500)
    ≤ phase_ceiling (derive_startup_phase (input_at true) 600)
startup-monotone_example =
    startup-monotone (input_at false) (input_at true) 500 600 refl refl
      (record { loads = λ h. h; links = λ h. refl; readies = λ h. h; starts = λ h. refl })
      (omega arith)
