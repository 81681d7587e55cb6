-- ===== src/Registry/Slots/Serve.antt =====
-- The slots across whole requests, and across a run of them.
use stagepilot_beta.Common.{ℕ, Bool, true, false, Option, none, some, lookup, List, [], ◌∷◌, ◌≡◌}
use stagepilot_beta.Registry.Data.{World, Env, Installation, Response, recovery}
use stagepilot_beta.Registry.Action.{Action, Outcome, ok, thrown}
use stagepilot_beta.Registry.Access.{
  Route, on_installation, to_reenroll, to_reactivate, to_admin_revoke, to_queue_reset,
  to_acknowledge, Request, is_post, is_admin,
}
use stagepilot_beta.Registry.Handler.{authorized, as_admin, admit, admits}
use stagepilot_beta.Registry.Dispatch.{posted, route_request, serve, later, run}
use stagepilot_beta.Registry.Rules.Leads.{
  Leads, Leads-bind, Leads-pure, Leads-if, Leads-strengthen, Ends,
}
use stagepilot_beta.Registry.Slots.Invariant.{IsSound}
use stagepilot_beta.Registry.Slots.Renewal.{admin_revoke-IsSound, load-Holds, found-Holds}
use stagepilot_beta.Registry.Slots.Requests.{lane-Leads, lane-IsSound, keep-IsSound}
use stagepilot_beta.Registry.Slots.Provisioning.{Held}
use stagepilot_beta.Registry.Rules.Basic.{Keeps}
use stagepilot_beta.Registry.Access.{
  to_enroll, to_own_approvals, to_ingest, to_upload, to_metrics, to_cities, to_installations,
  to_label, to_archive, to_alerts, to_bundles, to_approvals, to_acknowledge_alert, to_bundle,
  to_decide,
}
use stagepilot_beta.Registry.Dispatch.{by_method}
use stagepilot_beta.Registry.Slots.Enrolling.{enroll-IsSound}
use stagepilot_beta.Registry.Slots.Uploads.{metrics-IsSound, label-IsSound, archived-IsSound}
use stagepilot_beta.Registry.Slots.Fleet.{
  approvals-Keeps, admin_decide-Keeps, alerts-Keeps, acknowledge_alert-Keeps, installations-Keeps,
  cities-Keeps, bundles-Keeps, bundle-Keeps,
}
use stagepilot_beta.Registry.Slots.Routes.{
  route-IsSound, reenroll_route-IsSound, reactivate_route-IsSound, acknowledge_route-IsSound,
  approvals_route-IsSound, alert_route-IsSound, upload_route-IsSound,
}
use stagepilot_beta.Registry.Slots.Pending.{queue-Keeps}

module _ (env : Env) where
  abbrev limit : ℕ
  limit = env.installation_limit

  admit-IsSound :
      (b : Bool) (r : Request) (f : Installation → Action Response) (o : Option Installation)
      → ((i : Installation) → Leads (IsSound limit 0) (Held env i) (f i) (λ _. IsSound limit 0))
      → Leads
          (IsSound limit 0)
          (λ w. IsSound limit 0 w × (lookup r.id w.installations ≡ o))
          (admit env b r f o)
          (λ _. IsSound limit 0)
  unfolding admit
  admit-IsSound b r f none lf = Leads-pure (IsSound limit 0) _ (λ w h. h.0)
  admit-IsSound b r f (some i) lf =
      Leads-if (IsSound limit 0) (admits env b r i) _ _
        (Leads-strengthen (IsSound limit 0) _ (found-Holds env r.id i) (lf i))
        (Leads-pure (IsSound limit 0) _ (λ w h. h.0))

  authorized-IsSound :
      (b : Bool) (r : Request) (f : Installation → Action Response)
      → ((i : Installation) → Leads (IsSound limit 0) (Held env i) (f i) (λ _. IsSound limit 0))
      → Leads (IsSound limit 0) (IsSound limit 0) (authorized env b r f) (λ _. IsSound limit 0)
  unfolding authorized
  authorized-IsSound b r f lf =
      Leads-bind (IsSound limit 0) _ _ (load-Holds env r.id) λ o. admit-IsSound b r f o lf

  as_admin-IsSound :
      (r : Request) (m : Action Response)
      → Leads (IsSound limit 0) (IsSound limit 0) m (λ _. IsSound limit 0)
      → Leads (IsSound limit 0) (IsSound limit 0) (as_admin env r m) (λ _. IsSound limit 0)
  unfolding as_admin
  as_admin-IsSound r m lm =
      Leads-if (IsSound limit 0) (is_admin env r) _ _ lm (Leads-pure (IsSound limit 0) _ (λ w s. s))

  method-IsSound :
      (fits : Bool) (m : Action Response)
      → Leads (IsSound limit 0) (IsSound limit 0) m (λ _. IsSound limit 0)
      → Leads (IsSound limit 0) (IsSound limit 0) (by_method env fits m) (λ _. IsSound limit 0)
  unfolding by_method
  method-IsSound fits m lm =
      Leads-if (IsSound limit 0) fits _ _ lm (Leads-pure (IsSound limit 0) _ (λ w s. s))

  posted-IsSound :
      (r : Request) (m : Action Response)
      → Leads (IsSound limit 0) (IsSound limit 0) m (λ _. IsSound limit 0)
      → Leads (IsSound limit 0) (IsSound limit 0) (posted env r m) (λ _. IsSound limit 0)
  posted-IsSound r m lm = method-IsSound (is_post r.method) m lm

  -- A request of the operator that keeps the invariant whatever is stored.
  asked-IsSound :
      (r : Request) (fits : Bool) (m : Action Response)
      → Keeps (IsSound limit 0) m
      → Leads
          (IsSound limit 0)
          (IsSound limit 0)
          (by_method env fits (as_admin env r m))
          (λ _. IsSound limit 0)
  asked-IsSound r fits m k = method-IsSound fits _ (as_admin-IsSound r m (keep-IsSound env m k))

  request-IsSound :
      (route : Route) (r : Request)
      → Leads (IsSound limit 0) (IsSound limit 0) (route_request env route r) (λ _. IsSound limit 0)
  unfolding route_request
  request-IsSound (on_installation a) r = authorized-IsSound false r _ (route-IsSound env a r)
  request-IsSound to_reenroll r =
      posted-IsSound r _ (authorized-IsSound false r _ (reenroll_route-IsSound env))
  request-IsSound to_reactivate r =
      posted-IsSound r _ (authorized-IsSound true r _ (reactivate_route-IsSound env))
  request-IsSound (to_acknowledge id) r =
      posted-IsSound r _ (authorized-IsSound false r _ (acknowledge_route-IsSound env id))
  request-IsSound to_admin_revoke r = posted-IsSound r _ (
      as_admin-IsSound r _
        (lane-Leads env recovery _ (lane-IsSound env recovery) (admin_revoke-IsSound env r.id)))
  request-IsSound to_queue_reset r =
      posted-IsSound r _ (as_admin-IsSound r _ (keep-IsSound env _ (queue-Keeps env r.id)))
  request-IsSound to_enroll r = posted-IsSound r _ (enroll-IsSound env r.source r.input)
  request-IsSound to_own_approvals r =
      method-IsSound _ _ (authorized-IsSound false r _ (approvals_route-IsSound env r))
  request-IsSound to_ingest r =
      posted-IsSound r _ (authorized-IsSound false r _ (alert_route-IsSound env r))
  request-IsSound to_upload r =
      posted-IsSound r _ (authorized-IsSound false r _ (upload_route-IsSound env r))
  request-IsSound to_metrics r = method-IsSound _ _ (as_admin-IsSound r _ (metrics-IsSound env))
  request-IsSound to_cities r = asked-IsSound r _ _ (cities-Keeps env)
  request-IsSound to_installations r = asked-IsSound r _ _ (installations-Keeps env)
  request-IsSound to_label r =
      method-IsSound _ _ (as_admin-IsSound r _ (label-IsSound env r.input r.id))
  request-IsSound to_archive r =
      method-IsSound _ _ (as_admin-IsSound r _ (archived-IsSound env r.input r.id))
  request-IsSound to_alerts r = asked-IsSound r _ _ (alerts-Keeps env r.status_query)
  request-IsSound to_bundles r = asked-IsSound r _ _ (bundles-Keeps env r.id)
  request-IsSound to_approvals r = asked-IsSound r _ _ (approvals-Keeps env r.status_query)
  request-IsSound (to_acknowledge_alert id) r = asked-IsSound r _ _ (acknowledge_alert-Keeps env id)
  request-IsSound (to_bundle segment) r = asked-IsSound r _ _ (bundle-Keeps env r.id segment)
  request-IsSound (to_decide id) r = asked-IsSound r _ _ (admin_decide-Keeps env r.input id)

  Ends-IsSound :
      {A : Type 0} (r : Outcome A) (w : World)
      → Ends (IsSound limit 0) (λ _. IsSound limit 0) r w
      → IsSound limit 0 w
  Ends-IsSound (ok a) w s = s
  Ends-IsSound (thrown t) w s = s

  serve-IsSound : (r : Request) (w : World) → IsSound limit 0 w → IsSound limit 0 (serve env r w).1
  unfolding serve
  serve-IsSound r w s =
      let (outcome, w') = route_request env r.route r w in
      Ends-IsSound outcome w' ((request-IsSound r.route r).at w s)

  later-IsSound : (w : World) → IsSound limit 0 w → IsSound limit 0 (later env w)
  later-IsSound w s = record {
    counter = s.counter;
    stored = s.stored;
    covered = s.covered;
    bounded = s.bounded;
    keyed = s.keyed;
  }

  -- Whatever requests arrive and whatever the provider answers to them, failures at any step
  -- included, the stored counter of active installations stays at or above the number of
  -- installations that are not revoked, that number stays within the configured limit, and every
  -- installation stays under its own id, if all of this holds at the start.
  pub run-IsSound :
      (requests : List Request) (w : World)
      → IsSound limit 0 w
      → IsSound limit 0 (run env requests w)
  unfolding run
  run-IsSound [] w s = s
  run-IsSound (r ∷ rs) w s =
      run-IsSound rs _ (later-IsSound (serve env r w).1 (serve-IsSound r w s))
