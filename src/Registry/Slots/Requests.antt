-- ===== src/Registry/Slots/Requests.antt =====
-- The slots across the steps that a request takes.
use stagepilot_beta.Common.{ℕ, String, true, false, ◌&&◌, refl}
use stagepilot_beta.Registry.Windows.{RateWindow, Admission, refused, admitted}
use stagepilot_beta.Registry.Data.{World, Env, Installation, Response, Lane, recovery}
use stagepilot_beta.Registry.Action.{Action, Outcome, ok, thrown, save, with_lane}
use stagepilot_beta.Registry.Limits.{
  Kind, status, mutation, kind_denied, set_kind_window, settle_installation_rate,
  take_installation_rate, settle_diagnostics_rate, take_diagnostics_rate,
}
use stagepilot_beta.Registry.Pending.{pending_action_of, pending_actions}
use stagepilot_beta.Registry.Access.{
  RouteAction, to_status, to_provision, to_disable, to_revoke, to_reconcile, Request,
}
use stagepilot_beta.Registry.Handler.{record_geo, answer_status, mutate, reconcile_lane, same_text}
use stagepilot_beta.Registry.Rules.Basic.{Keeps, Keeps-pure, Keeps-gets, Keeps-bind}
use stagepilot_beta.Registry.Rules.Leads.{
  Leads, Leads-bind, Leads-pure, Leads-throw, Leads-if, Leads-keep, Leads-strengthen, Ends,
}
use stagepilot_beta.Registry.Slots.Invariant.{IsSound, save-Holds}
use stagepilot_beta.Registry.Slots.Revoking.{stats-IsSound, disable-IsSound}
use stagepilot_beta.Registry.Slots.Renewal.{deny-IsSound}
use stagepilot_beta.Registry.Slots.Provisioning.{
  Held, Held-IsSound, note-Held, provision-IsSound, reconcile-IsSound,
}

module _ (env : Env) where
  abbrev limit : ℕ
  limit = env.installation_limit

  set_kind-Held :
      (i : Installation) (kind : Kind) (w : RateWindow)
      → Leads
          (IsSound limit 0)
          (Held env i)
          (save (set_kind_window kind i w))
          (λ _. Held env (set_kind_window kind i w))
  set_kind-Held i status w = save-Holds limit {i = i} (set_kind_window status i w) refl refl
  set_kind-Held i mutation w = save-Holds limit {i = i} (set_kind_window mutation i w) refl refl

  settle_rate-Held :
      (i : Installation) (kind : Kind) (a : Admission)
      → Leads (IsSound limit 0) (Held env i) (settle_installation_rate env i kind a) (Held env)
  unfolding settle_installation_rate
  settle_rate-Held i kind (refused retry) =
      Leads-strengthen (IsSound limit 0) _ (Held-IsSound env i) (
        Leads-bind (IsSound limit 0) _ _ (stats-IsSound env)
          λ s. deny-IsSound env s (kind_denied kind) _ _)
  settle_rate-Held i kind (admitted window) =
      Leads-bind (IsSound limit 0) _ _ (set_kind-Held i kind window)
        λ _. Leads-pure (IsSound limit 0) (set_kind_window kind i window) (λ w h. h)

  pub rate-Held :
      (i : Installation) (kind : Kind)
      → Leads (IsSound limit 0) (Held env i) (take_installation_rate env i kind) (Held env)
  unfolding take_installation_rate
  rate-Held i kind = record { at = λ w h. (settle_rate-Held i kind _).at w h }

  settle_diagnostics-Held :
      (i : Installation) (a : Admission)
      → Leads (IsSound limit 0) (Held env i) (settle_diagnostics_rate env i a) (Held env)
  unfolding settle_diagnostics_rate
  settle_diagnostics-Held i (refused retry) = Leads-throw (IsSound limit 0) _ (Held-IsSound env i)
  settle_diagnostics-Held i (admitted window) =
      Leads-bind (IsSound limit 0) _ _ (save-Holds limit {i = i} _ refl refl)
        λ _. Leads-pure (IsSound limit 0) _ (λ w h. h)

  pub diagnostics_rate-Held :
      (i : Installation)
      → Leads (IsSound limit 0) (Held env i) (take_diagnostics_rate env i) (Held env)
  unfolding take_diagnostics_rate
  diagnostics_rate-Held i = record { at = λ w h. (settle_diagnostics-Held i _).at w h }

  pub geo-Held :
      (r : Request) (i : Installation)
      → Leads (IsSound limit 0) (Held env i) (record_geo env r i) (Held env)
  unfolding record_geo
  geo-Held r i =
      Leads-if (IsSound limit 0)
        (same_text i.last_city r.city
          && same_text i.last_region r.region
          && same_text i.last_country r.country)
        _ _ (Leads-pure (IsSound limit 0) i (λ w h. h))
        (Leads-bind (IsSound limit 0) _ _ (save-Holds limit {i = i} _ refl refl)
          λ _. Leads-pure (IsSound limit 0) _ (λ w h. h))

  pub lane-IsSound :
      (l : Lane) (w : World) → IsSound limit 0 w → IsSound limit 0 (record w { lane = l })
  lane-IsSound l w s = record {
    counter = s.counter;
    stored = s.stored;
    covered = s.covered;
    bounded = s.bounded;
    keyed = s.keyed;
  }

  lane-Ends :
      {A : Type 0} (r : Outcome A) (l : Lane) (w : World)
      → Ends (IsSound limit 0) (λ _. IsSound limit 0) r w
      → Ends (IsSound limit 0) (λ _. IsSound limit 0) r (record w { lane = l })
  lane-Ends (ok a) l w s = lane-IsSound l w s
  lane-Ends (thrown t) l w s = lane-IsSound l w s

  pub lane-Leads :
      {P : World → Type 0} (l : Lane) (m : Action Response)
      → ((w : World) → P w → P (record w { lane = l }))
      → Leads (IsSound limit 0) P m (λ _. IsSound limit 0)
      → Leads (IsSound limit 0) P (with_lane l m) (λ _. IsSound limit 0)
  unfolding with_lane
  lane-Leads l m keep lm = record {
    at = λ w h.
        let (r, w') = m (record w { lane = l }) in
        lane-Ends r w.lane w' (lm.at (record w { lane = l }) (keep w h));
  }

  pub lane-Held :
      (i : Installation) (l : Lane) (w : World) → Held env i w → Held env i (record w { lane = l })
  lane-Held i l w h = record {
    sound = lane-IsSound l w h.sound;
    old = h.old;
    known = h.known;
    same = h.same;
  }

  pub mutate-IsSound :
      (a : RouteAction) (r : Request) (i : Installation)
      → Leads (IsSound limit 0) (Held env i) (mutate env a r i) (λ _. IsSound limit 0)
  unfolding mutate
  mutate-IsSound to_provision r i = provision-IsSound env r.input i
  mutate-IsSound to_disable r i =
      lane-Leads recovery _ (lane-Held i recovery) (disable-IsSound env i false)
  mutate-IsSound to_revoke r i =
      lane-Leads recovery _ (lane-Held i recovery) (disable-IsSound env i true)
  mutate-IsSound to_reconcile r i =
      let l = reconcile_lane env i.desired_enabled in
      lane-Leads l _ (lane-Held i l) (reconcile-IsSound env r.input i)
  mutate-IsSound to_status r i = Leads-pure (IsSound limit 0) _ (Held-IsSound env i)

  pub keep-IsSound :
      {A : Type 0} (m : Action A)
      → Keeps (IsSound limit 0) m
      → Leads (IsSound limit 0) (IsSound limit 0) m (λ _. IsSound limit 0)
  keep-IsSound m k = Leads-keep (IsSound limit 0) m (λ w s. s) k

  pending_actions-Keeps : (P : World → Type 0) (id : String) → Keeps P (pending_actions id)
  unfolding pending_actions pending_action_of
  pending_actions-Keeps P id = Keeps-bind _ _ (Keeps-gets _) λ found. Keeps-pure _

  pub status-IsSound :
      (r : Request) (i : Installation)
      → Leads (IsSound limit 0) (Held env i) (answer_status env r i) (λ _. IsSound limit 0)
  unfolding answer_status
  status-IsSound r i = Leads-bind (IsSound limit 0) _ _ (rate-Held i status) λ charged.
      Leads-bind (IsSound limit 0) _ _ (note-Held env charged r.device_query) λ named.
        Leads-bind (IsSound limit 0) _ _
          (Leads-keep (IsSound limit 0) (pending_actions named.id) (Held-IsSound env named)
            (pending_actions-Keeps _ named.id))
          λ actions. Leads-pure (IsSound limit 0) _ (Held-IsSound env named)
