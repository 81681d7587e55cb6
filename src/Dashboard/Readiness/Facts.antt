-- ===== src/Dashboard/Readiness/Facts.antt =====
-- frontend/src/components/dashboard/dashboardReadiness.ts: what the entries of a passed system check
-- say of the cards and of the plan.
use stagepilot_beta.Common.{
  String, Bool, true, false, ◌&&◌, Option, none, some, List, [], ◌∷◌, ◌++◌, keep, all, ◌≡◌, refl,
  arith,
}
use stagepilot_beta.Dashboard.Readiness.{
  ApplicationState, Settings, ServicePlan, ProPresenterAnswer, is_full_text,
}
use stagepilot_beta.Dashboard.Readiness.Cards.{Card}
use stagepilot_beta.Dashboard.Readiness.Views.{Views}
use stagepilot_beta.Dashboard.Readiness.Checks.{
  Check, playback_label, is_online, card_check, backend_check, blocking, production_plan,
  service_plan_ready, duration_ready, timer_found_in, timer_checks, order_checks, plan_checks,
  is_real,
}
use stagepilot_beta.Dashboard.Readiness.System.{
  build_readiness_checks, is_required, has_passed, readiness_passed,
}

pub record Facts (state : ApplicationState) (settings : Option Settings)
    (answer : Option ProPresenterAnswer) (live : Bool) (views : Views) : Type 0 where
  pub services : is_online views.planning_center.status ≡ true
  pub plan : service_plan_ready (production_plan settings) state.plan state.service_load ≡ true
  pub durations : duration_ready true state.plan ≡ true
  pub playback : is_online views.midi.status ≡ true
  pub presentation : is_online views.propresenter.status ≡ true
  pub timer :
      is_real views.propresenter.mode ≡ true
      → views.propresenter.configured ≡ true
      → timer_found_in answer ≡ true
  pub order : is_full_text views.midi.action_notice ≡ false
  pub backend : live ≡ true

abbrev all_passed : List Check → Bool
all_passed checks = all has_passed (keep is_required checks)

passes-append :
    (xs ys : List Check)
    → all_passed (xs ++ ys) ≡ true
    → (all_passed xs ≡ true) × (all_passed ys ≡ true)
passes-append [] ys h = (refl, h)
passes-append (x ∷ xs) ys h = ground (arith, passes-append xs ys)

timer-passed :
    (answer : Option ProPresenterAnswer) (view : Card)
    → all_passed (timer_checks answer view) ≡ true
    → is_real view.mode ≡ true
    → view.configured ≡ true
    → timer_found_in answer ≡ true
unfolding timer_checks
timer-passed answer view h is_real_card is_configured = ground arith

order-passed :
    (notice : Option String) → all_passed (order_checks notice) ≡ true → is_full_text notice ≡ false
unfolding order_checks
order-passed none h = refl
order-passed (some text) h = ground arith

duration_ready-true :
    (b : Bool) (plan : Option ServicePlan)
    → duration_ready b plan ≡ true
    → duration_ready true plan ≡ true
unfolding duration_ready
duration_ready-true b plan h = ground arith

pub both : (a b : Bool) → a && b ≡ true → (a ≡ true) × (b ≡ true)
both a b h = ground arith

-- The list of the entries, taken apart.
parts-passed :
    (services : Check) (plan : List Check) (playback presentation : Check)
    (timer order : List Check) (backend : Check)
    → all_passed
        (services ∷ (plan ++ (playback ∷ presentation ∷ (timer ++ (order ++ (backend ∷ []))))))
      ≡ true
    → (all_passed (services ∷ []) ≡ true)
      × (all_passed plan ≡ true)
      × (all_passed (playback ∷ []) ≡ true)
      × (all_passed (presentation ∷ []) ≡ true)
      × (all_passed timer ≡ true)
      × (all_passed order ≡ true)
      × (all_passed (backend ∷ []) ≡ true)
parts-passed services plan playback presentation timer order backend h =
    let rest = timer ++ (order ++ (backend ∷ [])) in
    let (a, h1) = passes-append (services ∷ []) (plan ++ (playback ∷ presentation ∷ rest)) h in
    let (b, h2) = passes-append plan (playback ∷ presentation ∷ rest) h1 in
    let (c, h3) = passes-append (playback ∷ []) (presentation ∷ rest) h2 in
    let (d, h4) = passes-append (presentation ∷ []) rest h3 in
    let (e, h5) = passes-append timer (order ++ (backend ∷ [])) h4 in
    let (f, g) = passes-append order (backend ∷ []) h5 in (a, b, c, d, e, f, g)

card-passed :
    (id label : String) (view : Card)
    → all_passed (card_check id label view ∷ []) ≡ true
    → is_online view.status ≡ true
unfolding card_check
card-passed id label view h = (both (is_online view.status) true h).0

plan-passed :
    (settings : Option Settings) (state : ApplicationState)
    → all_passed (plan_checks settings state) ≡ true
    → (service_plan_ready (production_plan settings) state.plan state.service_load ≡ true)
      × (duration_ready true state.plan ≡ true)
unfolding plan_checks
plan-passed settings state h =
    let ready = service_plan_ready (production_plan settings) state.plan state.service_load in
    let durations = duration_ready ready state.plan in
    let (a, h1) = both ready (durations && true) h in
    (a, duration_ready-true ready state.plan (both durations true h1).0)

pub passed-Facts :
    (state : ApplicationState) (settings : Option Settings) (answer : Option ProPresenterAnswer)
    (live : Bool) (views : Views)
    → readiness_passed (build_readiness_checks false state settings answer live views) ≡ true
    → Facts state settings answer live views
unfolding readiness_passed build_readiness_checks backend_check
passed-Facts state settings answer live views h =
    let (a, b, c, d, e, f, g) =
      parts-passed (card_check "planning-center" "Services" views.planning_center)
        (plan_checks settings state) (card_check "midi" (playback_label settings) views.midi)
        (card_check "propresenter" "Presentation" views.propresenter)
        (timer_checks answer views.propresenter) (order_checks views.midi.action_notice)
        (backend_check blocking live) h in
    let (plan, durations) = plan-passed settings state b in
    record {
      services = card-passed "planning-center" "Services" views.planning_center a;
      plan = plan;
      durations = durations;
      playback = card-passed "midi" (playback_label settings) views.midi c;
      presentation = card-passed "propresenter" "Presentation" views.propresenter d;
      timer = timer-passed answer views.propresenter e;
      order = order-passed views.midi.action_notice f;
      backend = (both live true g).0;
    }
