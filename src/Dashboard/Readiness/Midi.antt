-- ===== src/Dashboard/Readiness/Midi.antt =====
-- frontend/src/components/dashboard/dashboardReadiness.ts and
-- frontend/src/components/playbackStatus.ts: the card of the playback.
use stagepilot_beta.Common.{
  ◌<>◌, ℕ, String, str_eq, Bool, true, false, Option, none, some, List, [], ◌∷◌, ◌<>◌,
  if◌then◌else◌,
}
use stagepilot_beta.Dashboard.Readiness.{
  ConnectionStatus, connecting, connected, disconnected, error, MidiSource, simulated_midi,
  real_midi, playback_api_midi, ActiveSource, playback_api_active, midi_active, none_active,
  ApplicationState, Settings, MidiInput, MidiAnswer, PlaybackAnswer, is_full_text, holds,
}
use stagepilot_beta.Dashboard.Readiness.Cards.{
  card, status_detail, midi_is_simulated, connected_input, real, simulated, off, Card,
}

unfoldable pub order_notice : Bool → Bool → List ℕ → Option String
order_notice stale plan_changed [] = some "Song order isn't set up yet."
order_notice true plan_changed (_ ∷ _) =
    some "Your Playback setlist changed. Scan the setlist again before updating Planning Center."
order_notice false true (_ ∷ _) =
    some
      "Your Services plan changed since the last scan. Scan the setlist again before updating Planning Center."
order_notice false false (_ ∷ _) = none

unfoldable pub playback_order_notice : PlaybackAnswer → Option String
unfolding order_notice
playback_order_notice p = order_notice p.stale (holds p.plan_changed) p.song_order

abbrev pub noticed : ActiveSource → Option String → Option String
noticed playback_api_active notice = notice
noticed midi_active notice = none
noticed none_active notice = none

unfoldable pub playback_card : Option String → PlaybackAnswer → Card
unfolding playback_order_notice
playback_card selected_midi p = record {
  status = if p.is_connected then connected else disconnected;
  detail = p.reason;
  configured = if p.selected then p.enabled else is_full_text selected_midi;
  mode = real;
  action_notice = noticed p.active_source (playback_order_notice p);
}

unfoldable pub simulated_midi_card : Bool → Card
simulated_midi_card true =
    card disconnected "MIDI simulation active — select a real input to connect" false simulated
simulated_midi_card false = card disconnected "MIDI Playback disabled" false simulated

abbrev pub inputs_of : Option MidiAnswer → List MidiInput
inputs_of none = []
inputs_of (some m) = m.inputs

abbrev pub of_inputs : List MidiInput → String
of_inputs [] = "No MIDI inputs found"
of_inputs (_ ∷ _) = "No MIDI input selected"

-- No input is connected and none is selected.
abbrev pub no_input_text : Option MidiAnswer → String
no_input_text none = "No MIDI input selected"
no_input_text (some m) = of_inputs m.inputs

abbrev pub waiting_text : Option MidiAnswer → Option String → String
waiting_text answer none = no_input_text answer
waiting_text answer (some name) =
    if str_eq name "" then no_input_text answer else "Waiting for " <> name

abbrev pub unheard_status : Bool → ConnectionStatus → ConnectionStatus
unheard_status is_selected error = if is_selected then error else disconnected
unheard_status is_selected connected = disconnected
unheard_status is_selected connecting = disconnected
unheard_status is_selected disconnected = disconnected

-- `heard` is the first input that is connected.
unfoldable pub real_midi_card :
    Option String → Option MidiAnswer → Option MidiInput → ConnectionStatus → Card
real_midi_card selected answer (some heard) status =
    card status ("Connected to " <> heard.name) (is_full_text selected) real
real_midi_card selected answer none status =
    card (unheard_status (is_full_text selected) status) (waiting_text answer selected)
      (is_full_text selected) real

unfoldable pub midi_enabled_in : Option Settings → Option MidiAnswer → Bool
midi_enabled_in (some s) answer = s.midi_enabled
midi_enabled_in none (some m) = m.enabled
midi_enabled_in none none = false

abbrev pub saved_input : Option Settings → Option String
saved_input none = none
saved_input (some s) = s.midi_input_name

abbrev pub or_option : Option String → Option String → Option String
or_option none other = other
or_option (some text) other = some text

unfoldable pub selected_midi_in : Option Settings → Option MidiAnswer → Option String
selected_midi_in settings none = saved_input settings
selected_midi_in settings (some m) = or_option m.selected_input_name (saved_input settings)

-- Neither an answer of Playback nor its interface is used.
unfoldable pub input_card : Option Settings → Option MidiAnswer → ApplicationState → Card
unfolding simulated_midi_card real_midi_card midi_enabled_in selected_midi_in midi_is_simulated
    connected_input
input_card settings answer state =
    if midi_is_simulated settings state
    then simulated_midi_card (midi_enabled_in settings answer)
    else if midi_enabled_in settings answer
    then real_midi_card (selected_midi_in settings answer) answer
        (connected_input (inputs_of answer)) state.midi_status
    else card disconnected "MIDI Playback disabled" false off

abbrev pub by_source : MidiSource → Card → Card → Card
by_source playback_api_midi interface input = interface
by_source simulated_midi interface input = input
by_source real_midi interface input = input

unfoldable pub saved_card : Option Settings → Option MidiAnswer → ApplicationState → Card
unfolding input_card status_detail
saved_card none answer state = input_card none answer state
saved_card (some s) answer state =
    by_source s.modes.midi_source
      (card state.midi_status (status_detail state.midi_status none) (holds s.playback_api_enabled)
        real)
      (input_card (some s) answer state)

unfoldable pub midi_card :
    Option Settings → Option MidiAnswer → Option PlaybackAnswer → ApplicationState → Card
unfolding playback_card saved_card midi_is_simulated selected_midi_in
midi_card settings answer none state = saved_card settings answer state
midi_card settings answer (some p) state =
    if midi_is_simulated settings state
    then saved_card settings answer state
    else playback_card (selected_midi_in settings answer) p
