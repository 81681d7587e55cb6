-- ===== src/Dashboard/Readiness/Passed.antt =====
-- frontend/src/components/dashboard/dashboardReadiness.ts: what a passed system check says of the
-- state and of the settings.
use stagepilot_beta.Common.{
  String, Bool, true, false, Option, none, some, List, [], all, ◌≡◌, ◌≢◌, refl, arith, eq_iff,
}
use stagepilot_beta.Dashboard.Readiness.{
  ConnectionStatus, connected, disconnected, connecting, error, planning_center_source,
  simulated_midi, propresenter_timer, loaded, ServiceLoadStatus, Song, ServicePlan,
  ApplicationState, Settings, MidiAnswer, PlaybackAnswer, ProPresenterAnswer,
}
use stagepilot_beta.Dashboard.Readiness.Cards.{
  planning_center_card, planning_configured, timer_is_simulated, midi_is_simulated,
}
use stagepilot_beta.Dashboard.Readiness.Midi.{
  midi_card, saved_card, input_card, playback_card, simulated_midi_card, real_midi_card,
}
use stagepilot_beta.Dashboard.Readiness.Outputs.{propresenter_card, propresenter_enabled_in}
use stagepilot_beta.Dashboard.Readiness.Views.{Answers, build_connection_card_views}
use stagepilot_beta.Dashboard.Readiness.Checks.{
  Check, is_online, production_plan, service_plan_ready, duration_ready, is_real, has_duration,
  is_date, is_loaded, is_filled, timer_found_in,
}
use stagepilot_beta.Dashboard.Readiness.System.{build_readiness_checks, readiness_passed}
use stagepilot_beta.Dashboard.Readiness.Facts.{both, passed-Facts}

-- The plan of the day is loaded, current, and every one of its songs has a length.
pub record IsPlanned (state : ApplicationState) (plan : ServicePlan) : Type 0 where
  pub there : state.plan ≡ some plan
  pub current : state.service_load.target_date ≡ some plan.date
  pub loads : state.service_load.status ≡ loaded
  pub fresh : state.service_load.is_stale ≡ false
  pub filled : plan.songs ≢ []
  pub timed : all has_duration plan.songs ≡ true

-- Playback is connected, by its own answer where there is one.
abbrev pub Heard : Option PlaybackAnswer → ApplicationState → Type 0
Heard none state = state.midi_status ≡ connected
Heard (some p) state = p.is_connected ≡ true

-- No integration of the service is a simulated one, and each is connected.
pub record IsReady (a : Answers) (state : ApplicationState) (live : Bool) : Type 0 where
  pub settings : Settings
  pub saved : a.settings ≡ some settings
  pub services_real : settings.modes.service_source ≡ planning_center_source
  pub playback_real : settings.modes.midi_source ≢ simulated_midi
  pub timer_real : settings.modes.timer_output ≡ propresenter_timer
  pub presentation_enabled : settings.propresenter_enabled ≡ true
  pub services_configured : planning_configured a.planning_center a.settings ≡ true
  pub services : state.planning_center_status ≡ connected
  pub playback : Heard a.playback state
  pub presentation : state.propresenter_status ≡ connected
  pub timer : timer_found_in a.propresenter ≡ true
  pub plan : ServicePlan
  pub planned : IsPlanned state plan
  pub backend : live ≡ true

connected-eq : (s : ConnectionStatus) → is_online s ≡ true → s ≡ connected
connected-eq connected h = refl
connected-eq connecting h = ground arith
connected-eq disconnected h = ground arith
connected-eq error h = ground arith

services-Card :
    (clock_text : String → String) (is_demo is_configured : Bool) (state : ApplicationState)
    → is_online (planning_center_card clock_text is_demo is_configured state).status ≡ true
    → (is_demo ≡ false) × (is_configured ≡ true) × (state.planning_center_status ≡ connected)
unfolding planning_center_card
services-Card clock_text true is_configured state h = ground arith
services-Card clock_text false false state h = ground arith
services-Card clock_text false true state h = (refl, refl, connected-eq _ h)

abbrev Presents : Option Settings → Settings → Option ProPresenterAnswer → ApplicationState → Type 0
Presents o settings answer state =
    (settings.modes.timer_output ≡ propresenter_timer)
    × (settings.propresenter_enabled ≡ true)
    × (state.propresenter_status ≡ connected)
    × (is_real (propresenter_card o answer state).mode ≡ true)
    × ((propresenter_card o answer state).configured ≡ true)

saved-Presents :
    (settings : Settings) (answer : Option ProPresenterAnswer) (state : ApplicationState)
    → is_online (propresenter_card (some settings) answer state).status ≡ true
    → Presents (some settings) settings answer state
unfolding propresenter_card propresenter_enabled_in timer_is_simulated
saved-Presents settings answer state h = ground (arith, connected-eq state.propresenter_status)

presentation-Card :
    (o : Option Settings) (settings : Settings) (answer : Option ProPresenterAnswer)
    (state : ApplicationState)
    → o ≡ some settings
    → is_online (propresenter_card o answer state).status ≡ true
    → Presents o settings answer state
presentation-Card o settings answer state saved = rw saved (saved-Presents settings answer state)

saved-Heard :
    (settings : Settings) (answer : Option MidiAnswer) (playback : Option PlaybackAnswer)
    (state : ApplicationState)
    → is_online (midi_card (some settings) answer playback state).status ≡ true
    → (settings.modes.midi_source ≢ simulated_midi) × Heard playback state
unfolding midi_card saved_card input_card playback_card simulated_midi_card real_midi_card
    midi_is_simulated
saved-Heard settings answer none state h = ground (arith, connected-eq state.midi_status)
saved-Heard settings answer (some p) state h = ground arith

playback-Card :
    (o : Option Settings) (settings : Settings) (answer : Option MidiAnswer)
    (playback : Option PlaybackAnswer) (state : ApplicationState)
    → o ≡ some settings
    → is_online (midi_card o answer playback state).status ≡ true
    → (settings.modes.midi_source ≢ simulated_midi) × Heard playback state
playback-Card o settings answer playback state saved =
    rw saved (saved-Heard settings answer playback state)

date-eq : (date : String) (target : Option String) → is_date date target ≡ true → target ≡ some date
date-eq date none h = ground arith
date-eq date (some target) h = ground (arith, eq_iff date target)

loaded-eq : (status : ServiceLoadStatus) → is_loaded status ≡ true → status ≡ loaded
loaded-eq status h = ground arith

filled-ne : (songs : List Song) → is_filled songs ≡ true → songs ≢ []
filled-ne songs h = ground arith

plan-IsPlanned :
    (production : Bool) (o : Option ServicePlan) (state : ApplicationState)
    → state.plan ≡ o
    → service_plan_ready production o state.service_load ≡ true
    → duration_ready true o ≡ true
    → (production ≡ true) × (plan : ServicePlan) × IsPlanned state plan
unfolding service_plan_ready duration_ready
plan-IsPlanned production none state there h d = ground arith
plan-IsPlanned production (some plan) state there h d =
    let (h2, e) = both _ _ h in
    let (h1, c) = both _ _ h2 in
    let (a, b) = both _ _ h1 in
    let (f, g) = both (is_filled plan.songs) (all has_duration plan.songs) d in
    (
      a,
      plan,
      record {
        there = there;
        current = date-eq plan.date state.service_load.target_date b;
        loads = loaded-eq state.service_load.status c;
        fresh = ground (arith, e);
        filled = filled-ne plan.songs f;
        timed = g;
      },
    )

production-eq :
    (o : Option Settings)
    → production_plan o ≡ true
    → (s : Settings) × (o ≡ some s) × (s.modes.service_source ≡ planning_center_source)
unfolding production_plan
production-eq none h = ground arith
production-eq (some s) h = (s, refl, ground arith)

module _ (clock_text : String → String) (a : Answers) (state : ApplicationState) where
  abbrev pub checks : Bool → List Check
  checks live =
      build_readiness_checks false state a.settings a.propresenter live
        (build_connection_card_views clock_text false a state)

  -- Where the system check of a page with the settings passes, the settings are saved and name no
  -- demo and no simulated source; the services are configured and connected; playback is connected,
  -- by its own answer where there is one; the presentation is enabled and connected, and its timer
  -- found; the plan is that of the target date, loaded, not stale, not empty, and every song of it
  -- has a length; and the backend is live.
  pub passed-IsReady : (live : Bool) → readiness_passed (checks live) ≡ true → IsReady a state live
  unfolding build_connection_card_views
  passed-IsReady live h =
      let views = build_connection_card_views clock_text false a state in
      let facts = passed-Facts state a.settings a.propresenter live views h in
      let (production, plan, planned) =
        plan-IsPlanned (production_plan a.settings) state.plan state refl facts.plan
          facts.durations in
      let (settings, saved, services_real) = production-eq a.settings production in
      let (_, configured, services) = services-Card clock_text _ _ state facts.services in
      let (timer_real, enabled, presentation, is_real_card, timer_configured) =
        presentation-Card a.settings settings a.propresenter state saved facts.presentation in
      let (playback_real, playback) =
        playback-Card a.settings settings a.midi a.playback state saved facts.playback in
      record {
        settings = settings;
        saved = saved;
        services_real = services_real;
        playback_real = playback_real;
        timer_real = timer_real;
        presentation_enabled = enabled;
        services_configured = configured;
        services = services;
        playback = playback;
        presentation = presentation;
        timer = facts.timer is_real_card timer_configured;
        plan = plan;
        planned = planned;
        backend = facts.backend;
      }
