-- ===== src/Dashboard/Readiness/System.antt =====
-- frontend/src/components/dashboard/dashboardReadiness.ts: the system check.
use stagepilot_beta.Common.{Bool, true, false, ◌&&◌, Option, List, [], ◌∷◌, ◌++◌, keep, all}
use stagepilot_beta.Dashboard.Readiness.{ApplicationState, Settings, ProPresenterAnswer}
use stagepilot_beta.Dashboard.Readiness.Views.{Views}
use stagepilot_beta.Dashboard.Readiness.Checks.{
  CheckSeverity, info, warning, blocking, CheckStatus, check_connected, check_disconnected,
  check_error, Check, card_check, reported_check, backend_check, playback_label, timer_checks,
  order_checks, plan_checks,
}

unfoldable pub build_readiness_checks :
    Bool
    → ApplicationState
    → Option Settings
    → Option ProPresenterAnswer
    → Bool
    → Views
    → List Check
unfolding reported_check backend_check card_check plan_checks playback_label timer_checks
    order_checks
build_readiness_checks true state settings answer live views =
    reported_check "planningCenter" "Services" views.planning_center
    ∷ reported_check "midi" "Playback" views.midi
    ∷ reported_check "propresenter" "Presentation" views.propresenter
    ∷ backend_check info live
    ∷ []
build_readiness_checks false state settings answer live views =
    card_check "planning-center" "Services" views.planning_center
    ∷ (plan_checks settings state
        ++ (card_check "midi" (playback_label settings) views.midi
            ∷ card_check "propresenter" "Presentation" views.propresenter
            ∷ (timer_checks answer views.propresenter
                ++ (order_checks views.midi.action_notice ++ (backend_check blocking live ∷ [])))))

abbrev pub is_required : Check → Bool
is_required check = check.required

abbrev pub has_passed : Check → Bool
has_passed check = check.passed

unfoldable pub readiness_passed : List Check → Bool
readiness_passed checks = all has_passed (keep is_required checks)

abbrev pub blocks : CheckSeverity → Bool
blocks blocking = true
blocks info = false
blocks warning = false

abbrev pub is_error : CheckStatus → Bool
is_error check_error = true
is_error check_connected = false
is_error check_disconnected = false

abbrev pub is_cause : Check → Bool
is_cause check = check.required && blocks check.severity && is_error check.status

unfoldable pub readiness_error_causes : List Check → List Check
readiness_error_causes checks = keep is_cause checks

abbrev pub is_nonempty : List Check → Bool
is_nonempty [] = false
is_nonempty (_ ∷ _) = true

unfoldable pub readiness_has_error : List Check → Bool
unfolding readiness_error_causes
readiness_has_error checks = is_nonempty (readiness_error_causes checks)
