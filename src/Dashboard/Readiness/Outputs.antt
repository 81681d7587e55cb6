-- ===== src/Dashboard/Readiness/Outputs.antt =====
-- frontend/src/components/dashboard/dashboardReadiness.ts: the cards of the presentation and of the
-- lights.
use stagepilot_beta.Common.{
  ◌<>◌, String, str_eq, Bool, true, false, Option, none, some, or_else, ◌<>◌, if◌then◌else◌,
}
use stagepilot_beta.Dashboard.Readiness.{
  disconnected, LightingMethod, midi_method, osc_method, ApplicationState, Settings,
  ProPresenterAnswer, LightsAnswer, is_full_text,
}
use stagepilot_beta.Dashboard.Readiness.Cards.{
  card, status_detail, timer_is_simulated, real, simulated, off, Card,
}
use stagepilot_beta.Dashboard.Readiness.Midi.{or_option}

unfoldable pub propresenter_enabled_in : Option Settings → Option ProPresenterAnswer → Bool
propresenter_enabled_in (some s) answer = s.propresenter_enabled
propresenter_enabled_in none (some p) = p.enabled
propresenter_enabled_in none none = false

unfoldable pub propresenter_detail : Option ProPresenterAnswer → String
propresenter_detail none = "Timer not selected"
propresenter_detail (some p) =
    or_else p.detail (if p.timer_found then "Timer ready" else "Timer not selected")

abbrev pub simulated_timer_text : Bool → String
simulated_timer_text true = "Simulated timer active — configure Presentation to connect"
simulated_timer_text false = "Presentation disabled"

unfoldable pub propresenter_card :
    Option Settings → Option ProPresenterAnswer → ApplicationState → Card
unfolding timer_is_simulated propresenter_enabled_in status_detail propresenter_detail
propresenter_card settings answer state =
    if timer_is_simulated settings state
    then card disconnected (simulated_timer_text (propresenter_enabled_in settings answer)) false
        simulated
    else if propresenter_enabled_in settings answer
    then card state.propresenter_status
        (status_detail state.propresenter_status (some (propresenter_detail answer))) true real
    else card disconnected "Presentation disabled" false off

unfoldable pub lights_enabled_in : Option Settings → Option LightsAnswer → Bool
lights_enabled_in (some s) answer = s.lights_enabled
lights_enabled_in none (some l) = l.enabled
lights_enabled_in none none = false

abbrev pub saved_method : Option Settings → LightingMethod
saved_method none = midi_method
saved_method (some s) = or_else s.lights_method midi_method

unfoldable pub lighting_method : Option Settings → Option LightsAnswer → LightingMethod
lighting_method settings none = saved_method settings
lighting_method settings (some l) = or_else l.method (saved_method settings)

abbrev pub saved_output : Option Settings → Option String
saved_output none = none
saved_output (some s) = s.lights_output_name

unfoldable pub light_output : Option Settings → Option LightsAnswer → Option String
light_output settings none = saved_output settings
light_output settings (some l) = or_option l.output_name (saved_output settings)

abbrev pub output_text : Option String → String
output_text none = "No Lighting output selected"
output_text (some name) =
    if str_eq name "" then "No Lighting output selected" else "Waiting for " <> name

abbrev pub untold : LightingMethod → Option String → String
untold osc_method output = "OSC not sent yet"
untold midi_method output = output_text output

abbrev pub told : Option LightsAnswer → String → String
told none otherwise = otherwise
told (some l) otherwise = or_else l.detail otherwise

abbrev pub is_set_up : LightingMethod → Option String → Bool
is_set_up osc_method output = true
is_set_up midi_method output = is_full_text output

abbrev pub set_up_text : LightingMethod → String
set_up_text osc_method = "Configure Lighting OSC"
set_up_text midi_method = "Configure a Lighting MIDI output"

unfoldable pub lights_card : Option Settings → Option LightsAnswer → ApplicationState → Card
unfolding lights_enabled_in lighting_method light_output status_detail
lights_card settings answer state =
    let method = lighting_method settings answer in
    let output = light_output settings answer in
    if lights_enabled_in settings answer
    then card state.lights_status
        (status_detail state.lights_status (some (told answer (untold method output))))
        (is_set_up method output) real
    else card disconnected (set_up_text method) false off
