-- ===== src/Dashboard/Readiness/Views.antt =====
-- frontend/src/components/dashboard/dashboardReadiness.ts: the four cards together. `clock_text` is
-- the browser's text for a moment of the day.
use stagepilot_beta.Common.{String, Bool, true, false, Option, none}
use stagepilot_beta.Dashboard.Readiness.{
  ConnectionStatus, ApplicationState, Settings, PlanningCenterAnswer, MidiAnswer, PlaybackAnswer,
  ProPresenterAnswer, LightsAnswer,
}
use stagepilot_beta.Dashboard.Readiness.Cards.{
  card, status_detail, service_is_demo, planning_configured, planning_center_card, real, Card,
}
use stagepilot_beta.Dashboard.Readiness.Midi.{midi_card}
use stagepilot_beta.Dashboard.Readiness.Outputs.{propresenter_card, lights_card}

pub record Views : Type 0 where
  pub planning_center : Card
  pub midi : Card
  pub propresenter : Card
  pub lights : Card

-- What the dashboard has been told; `none` is an answer that has not come.
pub record Answers : Type 0 where
  pub settings : Option Settings
  pub planning_center : Option PlanningCenterAnswer
  pub midi : Option MidiAnswer
  pub playback : Option PlaybackAnswer
  pub propresenter : Option ProPresenterAnswer
  pub lights : Option LightsAnswer

unfoldable pub reported_card : ConnectionStatus → Card
unfolding status_detail
reported_card status = card status (status_detail status none) false real

-- A viewer, who may not see the settings, is shown the state alone.
unfoldable pub build_connection_card_views :
    (String → String) → Bool → Answers → ApplicationState → Views
unfolding reported_card planning_center_card service_is_demo planning_configured midi_card
    propresenter_card lights_card
build_connection_card_views clock_text true a state = record {
  planning_center = reported_card state.planning_center_status;
  midi = reported_card state.midi_status;
  propresenter = reported_card state.propresenter_status;
  lights = reported_card state.lights_status;
}
build_connection_card_views clock_text false a state = record {
  planning_center =
      planning_center_card clock_text (service_is_demo a.settings state)
        (planning_configured a.planning_center a.settings) state;
  midi = midi_card a.settings a.midi a.playback state;
  propresenter = propresenter_card a.settings a.propresenter state;
  lights = lights_card a.settings a.lights state;
}
