-- ===== src/Dashboard/Readiness/Viewers.antt =====
-- frontend/src/components/dashboard/dashboardReadiness.ts: the system check as a viewer sees it, and
-- the causes of an error.
use stagepilot_beta.Common.{
  String, Bool, true, false, not, ◌&&◌, ◌||◌, Option, none, some, List, [], ◌∷◌, ◌++◌, keep, ◌≡◌,
  refl, arith,
}
use stagepilot_beta.Dashboard.Readiness.{ApplicationState, Settings, ProPresenterAnswer}
use stagepilot_beta.Dashboard.Readiness.Cards.{Card}
use stagepilot_beta.Dashboard.Readiness.Views.{
  Answers, Views, reported_card, build_connection_card_views,
}
use stagepilot_beta.Dashboard.Readiness.Checks.{
  Check, check_status, is_online, card_check, reported_check, backend_check, blocking,
  production_plan, service_plan_ready, duration_ready, is_filled, songs_of, timer_found_in,
  timer_checks, order_checks, plan_checks, is_real, playback_label,
}
use stagepilot_beta.Dashboard.Readiness.System.{
  build_readiness_checks, is_cause, is_error, is_nonempty, readiness_passed, readiness_error_causes,
  readiness_has_error,
}

-- Whatever the settings and the answers are, the check that a viewer sees passes exactly when the
-- services, playback and the presentation are connected by the state and the backend is live, and
-- it is never in error.
pub viewer-passed :
    (clock_text : String → String) (a : Answers) (state : ApplicationState) (live : Bool)
    → (readiness_passed (
          build_readiness_checks true state a.settings a.propresenter live
            (build_connection_card_views clock_text true a state))
        ≡ (is_online state.planning_center_status
            && is_online state.midi_status
            && is_online state.propresenter_status
            && live))
      × (readiness_has_error (
            build_readiness_checks true state a.settings a.propresenter live
              (build_connection_card_views clock_text true a state))
          ≡ false)
unfolding readiness_passed readiness_has_error readiness_error_causes build_readiness_checks
    build_connection_card_views reported_card reported_check backend_check
viewer-passed clock_text a state live = (ground arith, refl)

abbrev has_failed : Card → Bool
has_failed view = is_error (check_status view.status)

-- The plan of the day is ready and one of its songs has no length.
abbrev lacks_length : Option Settings → ApplicationState → Bool
lacks_length settings state =
    let ready = service_plan_ready (production_plan settings) state.plan state.service_load in
    ready && is_filled (songs_of state.plan) && not (duration_ready ready state.plan)

-- The presentation is connected and set up, and its timer is not there.
abbrev lacks_timer : Option ProPresenterAnswer → Card → Bool
lacks_timer answer view =
    is_real view.mode && view.configured && is_online view.status && not (timer_found_in answer)

abbrev causes : List Check → Bool
causes checks = is_nonempty (keep is_cause checks)

causes-append : (xs ys : List Check) → causes (xs ++ ys) ≡ (causes xs || causes ys)
causes-append [] ys = refl
causes-append (x ∷ xs) ys = ground (arith, causes-append xs ys)

causes-plan :
    (settings : Option Settings) (state : ApplicationState)
    → causes (plan_checks settings state) ≡ lacks_length settings state
unfolding plan_checks
causes-plan settings state = ground arith

causes-timer :
    (answer : Option ProPresenterAnswer) (view : Card)
    → causes (timer_checks answer view) ≡ lacks_timer answer view
unfolding timer_checks
causes-timer answer view = ground arith

causes-order : (notice : Option String) → causes (order_checks notice) ≡ false
unfolding order_checks
causes-order none = refl
causes-order (some text) = ground arith

causes-card :
    (id label : String) (view : Card) (rest : List Check)
    → causes (card_check id label view ∷ rest) ≡ (has_failed view || causes rest)
unfolding card_check
causes-card id label view rest = ground arith

causes-backend : (live : Bool) → causes (backend_check blocking live ∷ []) ≡ false
unfolding backend_check
causes-backend live = ground arith

causes-tail :
    (answer : Option ProPresenterAnswer) (view : Card) (notice : Option String) (live : Bool)
    → causes
        (timer_checks answer view ++ (order_checks notice ++ (backend_check blocking live ∷ [])))
      ≡ lacks_timer answer view
causes-tail answer view notice live =
    rw
      (
        causes-append (timer_checks answer view) _,
        causes-append (order_checks notice) _,
        causes-timer answer view,
        causes-order notice,
        causes-backend live,
      )
      (ground arith)

-- The system check is in error exactly when one of the cards of the services, of playback and of
-- the presentation is, when a song of the ready plan has no length, or when the presentation is
-- connected and set up without a timer; a backend that is not live, a plan that is not ready and a
-- missing song order are no errors.
pub has_error-causes :
    (state : ApplicationState) (settings : Option Settings) (answer : Option ProPresenterAnswer)
    (live : Bool) (views : Views)
    → readiness_has_error (build_readiness_checks false state settings answer live views) ≡ (
        has_failed views.planning_center
        || (lacks_length settings state
            || (has_failed views.midi
                || (has_failed views.propresenter || lacks_timer answer views.propresenter))))
unfolding readiness_has_error readiness_error_causes build_readiness_checks
has_error-causes state settings answer live views =
    rw
      (
        causes-card "planning-center" "Services" views.planning_center _,
        causes-append (plan_checks settings state) _,
        causes-plan settings state,
        causes-card "midi" (playback_label settings) views.midi _,
        causes-card "propresenter" "Presentation" views.propresenter _,
        causes-tail answer views.propresenter views.midi.action_notice live,
      )
      refl
