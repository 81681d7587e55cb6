-- ===== src/Registry/Slots/Provisioning.antt =====
-- The slots across `provision` and `reconcile`.
use stagepilot_beta.Common.{ℕ, String, false, not, ◌&&◌, Option, none, some, refl, is_some}
use stagepilot_beta.Registry.Data.{World, Env, Installation, CachedToken, Tunnel, Body, failure}
use stagepilot_beta.Registry.Action.{pure, modify, remember_token}
use stagepilot_beta.Registry.Device.{
  apply_device_name, apply_device_name-id, apply_device_name-revoked,
}
use stagepilot_beta.Registry.Names.{is_generation}
use stagepilot_beta.Registry.Provider.{is_text}
use stagepilot_beta.Registry.Replies.{
  now_seconds, cached_provision, is_revoking, is_provisioned, is_disabled, reply,
}
use stagepilot_beta.Registry.Forms.{Input}
use stagepilot_beta.Registry.Provision.{
  other_text, device_of, mark_enabling, mark_provisioned, provision_resources, finish_provision,
  ensure_generation, ensure_provisioned, start_provision, accept_generation, check_generation,
  provision, note_device, settle, reconcile,
}
use stagepilot_beta.Registry.Rules.Basic.{Keeps}
use stagepilot_beta.Registry.Rules.Calls.{provision_resources-Keeps}
use stagepilot_beta.Registry.Rules.Leads.{
  Leads, Leads-bind, Leads-pure, Leads-if, Leads-elim, Leads-keep, Leads-throw,
}
use stagepilot_beta.Registry.Slots.Invariant.{IsSound, Holds, save-Holds}
use stagepilot_beta.Registry.Slots.Revoking.{disable-IsSound, keep_now, cf-Holds}

module _ (env : Env) where
  abbrev limit : ℕ
  limit = env.installation_limit

  -- What a handler returns as its installation, and the invariant for it.
  abbrev pub Held : Installation → World → Type 0
  Held i w = Holds limit 0 i w

  pub Held-IsSound : (i : Installation) (w : World) → Held i w → IsSound limit 0 w
  Held-IsSound i w h = h.sound

  remember-Held :
      (i : Installation) (id : String) (t : CachedToken) → Keeps (Held i) (remember_token id t)
  unfolding remember_token modify
  remember-Held i id t = record {
    at = λ w h. record {
      sound = record {
        counter = h.sound.counter;
        stored = h.sound.stored;
        covered = h.sound.covered;
        bounded = h.sound.bounded;
        keyed = h.sound.keyed;
      };
      old = h.old;
      known = h.known;
      same = h.same;
    };
  }

  finish-IsSound :
      (i : Installation) (r : Tunnel × String)
      → Leads (IsSound limit 0) (Held i) (finish_provision env i r) (λ _. IsSound limit 0)
  unfolding finish_provision mark_provisioned now_seconds
  finish-IsSound i (t, token) =
      Leads-bind (IsSound limit 0) _ _
        (Leads-keep (IsSound limit 0) (now_seconds env) (Held-IsSound i) (now_seconds-Keeps _))
        λ seconds. Leads-bind (IsSound limit 0) _ _ (keep_now env (Held-IsSound i)) λ at.
          let ready = mark_provisioned t.id seconds at i in
          Leads-bind (IsSound limit 0) _ _ (save-Holds limit {i = i} ready refl refl) λ _.
            Leads-bind (IsSound limit 0) _ _
              (Leads-keep (IsSound limit 0) (remember_token i.id _) (Held-IsSound ready)
                (remember-Held ready i.id _))
              λ _. Leads-pure (IsSound limit 0) _ (λ w h. h.sound)
    where
      now_seconds-Keeps : (P : World → Type 0) → Keeps P (now_seconds env)
      now_seconds-Keeps P = record { at = λ w h. h }

  cached-Keeps : (P : World → Type 0) (i : Installation) → Keeps P (cached_provision env i)
  unfolding cached_provision
  cached-Keeps P i = record { at = λ w h. h }

  keep_cached :
      (i j : Installation) → Leads (IsSound limit 0) (Held i) (cached_provision env j) (λ _. Held i)
  keep_cached i j =
      Leads-keep (IsSound limit 0) (cached_provision env j) (Held-IsSound i) (cached-Keeps _ j)

  generation-IsSound :
      (i : Installation) (generation : Option String)
      → Leads (IsSound limit 0) (Held i) (ensure_generation env i generation) (λ _. IsSound limit 0)
  unfolding ensure_generation
  generation-IsSound i none = Leads-throw (IsSound limit 0) _ (Held-IsSound i)
  generation-IsSound i (some g) = Leads-bind (IsSound limit 0) _ _ (keep_cached i i) λ cached.
      Leads-elim (IsSound limit 0) cached _ _
        (Leads-bind (IsSound limit 0) _ _
          (Leads-keep (IsSound limit 0) (provision_resources env i g) (Held-IsSound i)
            (provision_resources-Keeps env _ (cf-Holds env 0 i) i g))
          λ r. finish-IsSound i r)
        (λ response. Leads-pure (IsSound limit 0) response (Held-IsSound i))

  pub ensure_provisioned-IsSound :
      (i : Installation)
      → Leads (IsSound limit 0) (Held i) (ensure_provisioned env i) (λ _. IsSound limit 0)
  unfolding ensure_provisioned
  ensure_provisioned-IsSound i = generation-IsSound i i.generation

  start-IsSound :
      (i : Installation) (g : String) (device : Option String)
      → Leads (IsSound limit 0) (Held i) (start_provision env i g device) (λ _. IsSound limit 0)
  unfolding start_provision mark_enabling
  start-IsSound i g device = Leads-bind (IsSound limit 0) _ _ (keep_now env (Held-IsSound i)) λ at.
      let marked = mark_enabling g at i in
      Leads-bind (IsSound limit 0) _ _
        (save-Holds limit {i = i} (apply_device_name marked device).0
          (apply_device_name-id marked device) (apply_device_name-revoked marked device))
        λ _. ensure_provisioned-IsSound (apply_device_name marked device).0

  accept-IsSound :
      (i : Installation) (g : String) (device : Option String)
      → Leads (IsSound limit 0) (Held i) (accept_generation env i g device) (λ _. IsSound limit 0)
  unfolding accept_generation
  accept-IsSound i g device =
      Leads-if (IsSound limit 0) (is_revoking i.phase) _ _
        (refuse i (failure "disable must finish first"))
        (Leads-if (IsSound limit 0) (other_text i.generation g) _ _
          (refuse i (failure "generation conflict"))
          (Leads-bind (IsSound limit 0) _ _
            (Leads-if (IsSound limit 0) (is_text i.generation g && is_provisioned i.phase) _ _
              (keep_cached i i) (Leads-pure (IsSound limit 0) none (λ w h. h)))
            λ cached.
              Leads-elim (IsSound limit 0) cached _ _
                (Leads-if (IsSound limit 0)
                  (not (is_some i.generation) && is_text i.last_generation g) _ _
                  (refuse i (failure "a new generation is required")) (start-IsSound i g device))
                (λ response. Leads-pure (IsSound limit 0) response (Held-IsSound i))))
    where
      refuse :
          (i : Installation) (b : Body)
          → Leads (IsSound limit 0) (Held i) (pure (reply 409 b)) (λ _. IsSound limit 0)
      refuse i b = Leads-pure (IsSound limit 0) (reply 409 b) (Held-IsSound i)

  check-IsSound :
      (g device : Option String) (i : Installation)
      → Leads (IsSound limit 0) (Held i) (check_generation env g device i) (λ _. IsSound limit 0)
  unfolding check_generation
  check-IsSound none device i = Leads-pure (IsSound limit 0) _ (Held-IsSound i)
  check-IsSound (some g) device i =
      Leads-if (IsSound limit 0) (is_generation g) _ _ (accept-IsSound i g device)
        (Leads-pure (IsSound limit 0) _ (Held-IsSound i))

  pub provision-IsSound :
      (input : Option Input) (i : Installation)
      → Leads (IsSound limit 0) (Held i) (provision env input i) (λ _. IsSound limit 0)
  unfolding provision
  provision-IsSound none i = Leads-throw (IsSound limit 0) _ (Held-IsSound i)
  provision-IsSound (some input) i = check-IsSound input.generation input.device_name i

  pub note-Held :
      (i : Installation) (device : Option String)
      → Leads (IsSound limit 0) (Held i) (note_device env i device) Held
  unfolding note_device
  note-Held i device =
      Leads-if (IsSound limit 0) (apply_device_name i device).1 _ _
        (Leads-bind (IsSound limit 0) _ _ (keep_now env (Held-IsSound i)) λ at.
          let dated = record ((apply_device_name i device).0) { updated_at = at } in
          Leads-bind (IsSound limit 0) _ _
            (save-Holds limit {i = i} dated (apply_device_name-id i device)
              (apply_device_name-revoked i device))
            λ _. Leads-pure (IsSound limit 0) dated (λ w h. h))
        (Leads-pure (IsSound limit 0) i (λ w h. h))

  pub settle-IsSound :
      (i : Installation) → Leads (IsSound limit 0) (Held i) (settle env i) (λ _. IsSound limit 0)
  unfolding settle
  settle-IsSound i =
      Leads-if (IsSound limit 0) (is_disabled i.phase) _ _
        (Leads-pure (IsSound limit 0) _ (Held-IsSound i)) (disable-IsSound env i false)

  pub reconcile-IsSound :
      (input : Option Input) (i : Installation)
      → Leads (IsSound limit 0) (Held i) (reconcile env input i) (λ _. IsSound limit 0)
  unfolding reconcile
  reconcile-IsSound input i =
      Leads-bind (IsSound limit 0) _ _ (note-Held i (device_of env input)) λ named.
        Leads-if (IsSound limit 0) (named.desired_enabled && is_some named.generation) _ _
          (Leads-bind (IsSound limit 0) _ _ (keep_cached named named) λ cached.
            Leads-elim (IsSound limit 0) cached _ _ (ensure_provisioned-IsSound named)
              (λ response. Leads-pure (IsSound limit 0) response (Held-IsSound named)))
          (settle-IsSound named)
