-- ===== src/Dashboard/Readiness.antt =====
-- frontend/src/types.ts: what the readiness of the dashboard reads of the application's state, of
-- the settings and of the integrations' answers.
pub mod Cards
pub mod Midi
pub mod Outputs
pub mod Views
pub mod Checks
pub mod System
mod Facts
pub mod Passed
pub mod Viewers
use stagepilot_beta.Common.{ℕ, String, Bool, false, not, Option, none, some, List, Dict, str_eq}

pub data ConnectionStatus : Type 0 where
  connecting connected disconnected error : ConnectionStatus

pub data PluginStatus : Type 0 where
  plugin_stopped plugin_starting plugin_running plugin_stopping plugin_error : PluginStatus

pub data ServiceLoadStatus : Type 0 where
  idle loading loaded not_found ambiguous load_error : ServiceLoadStatus

pub data ServiceSource : Type 0 where
  demo_source planning_center_source : ServiceSource

pub data MidiSource : Type 0 where
  simulated_midi real_midi playback_api_midi : MidiSource

pub data TimerOutput : Type 0 where
  simulated_timer propresenter_timer : TimerOutput

pub data LightingMethod : Type 0 where
  midi_method osc_method : LightingMethod

pub data ConnectionMethod : Type 0 where
  oauth manual : ConnectionMethod

pub data ActiveSource : Type 0 where
  playback_api_active midi_active none_active : ActiveSource

pub record Song : Type 0 where
  pub id : String
  pub title : String
  pub duration_seconds : Option ℕ

pub record ServicePlan : Type 0 where
  pub id : String
  pub title : String
  pub date : String
  pub songs : List Song

pub record ServiceLoad : Type 0 where
  pub status : ServiceLoadStatus
  pub target_date : Option String
  pub is_stale : Bool

pub record ApplicationState : Type 0 where
  pub plan : Option ServicePlan
  pub planning_center_status : ConnectionStatus
  pub midi_status : ConnectionStatus
  pub propresenter_status : ConnectionStatus
  pub lights_status : ConnectionStatus
  pub service_load : ServiceLoad
  pub plugins : Dict PluginStatus
  pub last_successful_plan_reload_at : Option String

pub record IntegrationModes : Type 0 where
  pub service_source : ServiceSource
  pub midi_source : MidiSource
  pub timer_output : TimerOutput

pub record Settings : Type 0 where
  pub modes : IntegrationModes
  pub app_id : Option String
  pub service_type_id : Option String
  pub secret_saved : Bool
  pub midi_enabled : Bool
  pub midi_input_name : Option String
  pub playback_api_enabled : Option Bool
  pub lights_enabled : Bool
  pub lights_method : Option LightingMethod
  pub lights_output_name : Option String
  pub propresenter_enabled : Bool

pub record PlanningCenterAnswer : Type 0 where
  pub connection_method : ConnectionMethod
  pub oauth_connected : Bool
  pub oauth_needs_reconnect : Bool

pub record MidiInput : Type 0 where
  pub name : String
  pub is_connected : Bool

pub record MidiAnswer : Type 0 where
  pub enabled : Bool
  pub selected_input_name : Option String
  pub inputs : List MidiInput

pub record PlaybackAnswer : Type 0 where
  pub is_connected : Bool
  pub active_source : ActiveSource
  pub reason : String
  pub selected : Bool
  pub enabled : Bool
  pub song_order : List ℕ
  pub stale : Bool
  pub plan_changed : Option Bool

pub record ProPresenterAnswer : Type 0 where
  pub enabled : Bool
  pub detail : Option String
  pub timer_found : Bool

pub record LightsAnswer : Type 0 where
  pub enabled : Bool
  pub method : Option LightingMethod
  pub output_name : Option String
  pub detail : Option String

-- A text that is there and is not empty.
abbrev pub is_full_text : Option String → Bool
is_full_text none = false
is_full_text (some text) = not (str_eq text "")

-- An optional flag, read as a test.
abbrev pub holds : Option Bool → Bool
holds none = false
holds (some b) = b
