-- ===== src/Examples/Readiness.antt =====
-- A system check of frontend/src/components/dashboard/dashboardReadiness.ts on a Sunday's plan.
use stagepilot_beta.Common.{String, Bool, true, false, none, some, List, [], ◌∷◌, ◌≡◌, refl}
use stagepilot_beta.Dashboard.Readiness.{
  connected, loaded, planning_center_source, real_midi, propresenter_timer, oauth, Song,
  ServicePlan, ServiceLoad, ApplicationState, IntegrationModes, Settings, PlanningCenterAnswer,
  MidiInput, MidiAnswer, ProPresenterAnswer,
}
use stagepilot_beta.Dashboard.Readiness.Views.{Answers, build_connection_card_views}
use stagepilot_beta.Dashboard.Readiness.Checks.{service_plan_ready, production_plan, duration_ready}
use stagepilot_beta.Dashboard.Readiness.System.{
  build_readiness_checks, readiness_passed, readiness_has_error,
}
use stagepilot_beta.Dashboard.Readiness.Passed.{IsReady, passed-IsReady}
use stagepilot_beta.Dashboard.Readiness.Viewers.{viewer-passed, has_error-causes}

abbrev clock_text : String → String
clock_text at = "9:30:00"

abbrev opener : Song
opener = record { id = "s1"; title = "Opener"; duration_seconds = some 241 }

abbrev sunday : ServicePlan
sunday = record { id = "p1"; title = "Sunday"; date = "2026-10-18"; songs = opener ∷ [] }

abbrev sunday_load : ServiceLoad
sunday_load = record { status = loaded; target_date = some "2026-10-18"; is_stale = false }

abbrev state : ApplicationState
state = record {
  plan = some sunday;
  planning_center_status = connected;
  midi_status = connected;
  propresenter_status = connected;
  lights_status = connected;
  service_load = sunday_load;
  plugins = [];
  last_successful_plan_reload_at = some "2026-10-18T09:30:00Z";
}

abbrev modes : IntegrationModes
modes = record {
  service_source = planning_center_source;
  midi_source = real_midi;
  timer_output = propresenter_timer;
}

abbrev settings : Settings
settings = record {
  modes = modes;
  app_id = none;
  service_type_id = some "42";
  secret_saved = false;
  midi_enabled = true;
  midi_input_name = some "Playback";
  playback_api_enabled = none;
  lights_enabled = false;
  lights_method = none;
  lights_output_name = none;
  propresenter_enabled = true;
}

abbrev inputs : List MidiInput
inputs = record { name = "Playback"; is_connected = true } ∷ []

abbrev midi_answer : MidiAnswer
midi_answer = record { enabled = true; selected_input_name = none; inputs = inputs }

abbrev services_answer : PlanningCenterAnswer
services_answer = record {
  connection_method = oauth;
  oauth_connected = true;
  oauth_needs_reconnect = false;
}

abbrev timer_answer : Bool → ProPresenterAnswer
timer_answer found = record { enabled = true; detail = none; timer_found = found }

abbrev answers : Bool → Answers
answers found = record {
  settings = some settings;
  planning_center = some services_answer;
  midi = some midi_answer;
  playback = none;
  propresenter = some (timer_answer found);
  lights = none;
}

passed-IsReady_example : IsReady (answers true) state true
unfolding readiness_passed build_readiness_checks build_connection_card_views
passed-IsReady_example = passed-IsReady clock_text (answers true) state true refl

viewer-passed_example :
    (readiness_passed (
        build_readiness_checks true state
          (some settings)
          (some (timer_answer false))
          false
          (build_connection_card_views clock_text true (answers false) state))
      ≡ false)
    × (readiness_has_error (
          build_readiness_checks true state
            (some settings)
            (some (timer_answer false))
            false
            (build_connection_card_views clock_text true (answers false) state))
        ≡ false)
viewer-passed_example = viewer-passed clock_text (answers false) state false

-- The presentation has no timer.
has_error-causes_example :
    readiness_has_error (
      build_readiness_checks false state
        (some settings)
        (some (timer_answer false))
        true
        (build_connection_card_views clock_text false (answers false) state))
    ≡ true
unfolding build_connection_card_views service_plan_ready production_plan duration_ready
has_error-causes_example =
    has_error-causes state (some settings) (some (timer_answer false)) true
      (build_connection_card_views clock_text false (answers false) state)
