-- ===== src/Registry/Slots/Routes.antt =====
-- The slots across the handlers of an installation's own routes.
use stagepilot_beta.Common.{ℕ, String, ◌&&◌}
use stagepilot_beta.Registry.Data.{Env, Installation, recovery}
use stagepilot_beta.Registry.Limits.{mutation}
use stagepilot_beta.Registry.Access.{RouteAction, Request, is_get, is_post}
use stagepilot_beta.Registry.Handler.{
  charge_and_mutate, on_route, charged_reenroll, charged_reactivate, charged_acknowledge, locates,
  is_status,
}
use stagepilot_beta.Registry.Rules.Leads.{Leads, Leads-bind, Leads-pure, Leads-if, Leads-strengthen}
use stagepilot_beta.Registry.Slots.Invariant.{IsSound}
use stagepilot_beta.Registry.Slots.Renewal.{reactivate-IsSound, reenroll-IsSound}
use stagepilot_beta.Registry.Slots.Requests.{
  rate-Held, geo-Held, lane-Leads, lane-Held, mutate-IsSound, keep-IsSound, status-IsSound,
}
use stagepilot_beta.Registry.Slots.Provisioning.{Held, Held-IsSound}
use stagepilot_beta.Registry.Limits.{status}
use stagepilot_beta.Registry.Handler.{charged_approvals, charged_alert, charged_upload}
use stagepilot_beta.Registry.Slots.Requests.{diagnostics_rate-Held}
use stagepilot_beta.Registry.Slots.Uploads.{upload-IsSound}
use stagepilot_beta.Registry.Slots.Fleet.{create-Keeps, own_approvals-Keeps, ingest-Keeps}
use stagepilot_beta.Registry.Slots.Pending.{acknowledge-Keeps}

module _ (env : Env) where
  abbrev limit : ℕ
  limit = env.installation_limit

  charge-IsSound :
      (a : RouteAction) (r : Request) (i : Installation)
      → Leads (IsSound limit 0) (Held env i) (charge_and_mutate env a r i) (λ _. IsSound limit 0)
  unfolding charge_and_mutate
  charge-IsSound a r i =
      Leads-bind (IsSound limit 0) _ _ (rate-Held env i mutation)
        λ charged. mutate-IsSound env a r charged

  pub route-IsSound :
      (a : RouteAction) (r : Request) (i : Installation)
      → Leads (IsSound limit 0) (Held env i) (on_route env a r i) (λ _. IsSound limit 0)
  unfolding on_route
  route-IsSound a r i =
      Leads-bind (IsSound limit 0) _ _
        (Leads-if (IsSound limit 0) (locates env a) _ _ (geo-Held env r i)
          (Leads-pure (IsSound limit 0) i (λ w h. h)))
        λ j.
          Leads-if (IsSound limit 0) (is_status a && is_get r.method) _ _ (status-IsSound env r j) (
            Leads-if (IsSound limit 0) (is_post r.method) _ _ (charge-IsSound a r j)
              (Leads-pure (IsSound limit 0) _ (Held-IsSound env j)))

  pub reenroll_route-IsSound :
      (i : Installation)
      → Leads (IsSound limit 0) (Held env i) (charged_reenroll env i) (λ _. IsSound limit 0)
  unfolding charged_reenroll
  reenroll_route-IsSound i = Leads-bind (IsSound limit 0) _ _ (rate-Held env i mutation) λ charged.
      lane-Leads env recovery _ (lane-Held env charged recovery) (reenroll-IsSound env charged)

  pub reactivate_route-IsSound :
      (i : Installation)
      → Leads (IsSound limit 0) (Held env i) (charged_reactivate env i) (λ _. IsSound limit 0)
  unfolding charged_reactivate
  reactivate_route-IsSound i =
      Leads-bind (IsSound limit 0) _ _ (rate-Held env i mutation) λ charged.
        lane-Leads env recovery _ (lane-Held env charged recovery) (
          Leads-strengthen (IsSound limit 0) _ (Held-IsSound env charged)
            (reactivate-IsSound env charged))

  pub acknowledge_route-IsSound :
      (id : String) (i : Installation)
      → Leads (IsSound limit 0) (Held env i) (charged_acknowledge env id i) (λ _. IsSound limit 0)
  unfolding charged_acknowledge
  acknowledge_route-IsSound id i =
      Leads-bind (IsSound limit 0) _ _ (rate-Held env i mutation) λ charged.
        Leads-strengthen (IsSound limit 0) _ (Held-IsSound env charged)
          (keep-IsSound env _ (acknowledge-Keeps env charged id))

  pub approvals_route-IsSound :
      (r : Request) (i : Installation)
      → Leads (IsSound limit 0) (Held env i) (charged_approvals env r i) (λ _. IsSound limit 0)
  unfolding charged_approvals
  approvals_route-IsSound r i =
      Leads-if (IsSound limit 0) (is_get r.method) _ _
        (Leads-bind (IsSound limit 0) _ _ (rate-Held env i status) λ charged.
          Leads-strengthen (IsSound limit 0) _ (Held-IsSound env charged)
            (keep-IsSound env _ (own_approvals-Keeps env charged)))
        (Leads-bind (IsSound limit 0) _ _ (rate-Held env i mutation) λ charged.
          Leads-strengthen (IsSound limit 0) _ (Held-IsSound env charged)
            (keep-IsSound env _ (create-Keeps env r.input charged)))

  pub alert_route-IsSound :
      (r : Request) (i : Installation)
      → Leads (IsSound limit 0) (Held env i) (charged_alert env r i) (λ _. IsSound limit 0)
  unfolding charged_alert
  alert_route-IsSound r i = Leads-bind (IsSound limit 0) _ _ (rate-Held env i mutation) λ charged.
      Leads-strengthen (IsSound limit 0) _ (Held-IsSound env charged)
        (keep-IsSound env _ (ingest-Keeps env r.input charged))

  pub upload_route-IsSound :
      (r : Request) (i : Installation)
      → Leads (IsSound limit 0) (Held env i) (charged_upload env r i) (λ _. IsSound limit 0)
  unfolding charged_upload
  upload_route-IsSound r i =
      Leads-bind (IsSound limit 0) _ _ (diagnostics_rate-Held env i) λ charged.
        Leads-strengthen (IsSound limit 0) _ (Held-IsSound env charged)
          (upload-IsSound env r.declared_length r.body_length charged)
