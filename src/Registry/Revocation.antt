-- ===== src/Registry/Revocation.antt =====
-- control-plane/src/index.ts: `disable`, `adminRevoke`, `reactivate` and `reenroll`.
use stagepilot_beta.Common.{
  ◌<>◌, ℕ, zero, suc, ◌+◌, ◌-◌, leb, String, Bool, true, false, not, ◌&&◌, ◌||◌, Option, none, some,
  or_else, if◌then◌else◌,
}
use stagepilot_beta.Registry.Data.{
  Env, disabled, revoking, Installation, RegistryStats, failure, installation, with_credential,
  Response,
}
use stagepilot_beta.Registry.Action.{
  Action, limited, pure, throw, gets, ◌>>=◌, ◌>>◌, save, put_stats, forget_token, load,
}
use stagepilot_beta.Registry.Limits.{stats, bump_denied, enrollment_denied}
use stagepilot_beta.Registry.Cleanup.{teardown}
use stagepilot_beta.Registry.Replies.{
  public_installation, reply, is_disabled, now_text, credential_of,
}

-- `revoke && !wasRevoked`: the slot of the installation is given back.
unfoldable pub release_slot : Bool → Action (Unit {0})
release_slot false = pure tt
release_slot true = do
  s ← stats
  put_stats (record s { active_installations = s.active_installations - 1 })

unfoldable pub mark_revoking : Bool → String → Installation → Installation
mark_revoking revoke at i = record i {
  desired_enabled = false;
  phase = revoking;
  revoked = i.revoked || revoke;
  updated_at = at;
}

unfoldable pub mark_disabled : String → Installation → Installation
mark_disabled at i = record i {
  phase = disabled;
  last_generation = i.generation;
  generation = none;
  tunnel_id = none;
  provider_confirmed_at = none;
  updated_at = at;
}

unfoldable pub mark_active : String → Installation → Installation
mark_active at i = record i {
  revoked = false;
  phase = disabled;
  desired_enabled = false;
  generation = none;
  tunnel_id = none;
  provider_confirmed_at = none;
  credential_generation = some (or_else i.credential_generation 0 + 1);
  updated_at = at;
}

module _ (env : Env) where
  unfoldable pub disable : Installation → Bool → Action Response
  disable i revoke = do
    started ← now_text env
    let marked = mark_revoking revoke started i
    save marked
    teardown env marked
    finished ← now_text env
    let done = mark_disabled finished marked
    forget_token i.id
    save done
    release_slot (revoke && not i.revoked)
    pure (reply 200 (installation (public_installation done)))

  unfoldable pub revoke_found : Option Installation → Action Response
  revoke_found none = pure (reply 404 (failure "not found"))
  revoke_found (some i) =
      if i.revoked && is_disabled i.phase
      then pure (reply 200 (installation (public_installation i)))
      else disable i true

  unfoldable pub admin_revoke : String → Action Response
  admin_revoke id = do found ← load id; revoke_found found

  unfoldable pub unavailable : RegistryStats → Action (Unit {0})
  unavailable s = do
    bump_denied s enrollment_denied
    throw (limited 503 300 "enrollment unavailable")

  -- The guards before a slot is taken: enrollment is on, and a slot is free.
  unfoldable pub require_slot : RegistryStats → Action (Unit {0})
  require_slot s =
      if not env.enrollment_enabled
      then unavailable s
      else if leb env.installation_limit s.active_installations
      then unavailable s
      else pure tt

  unfoldable pub store_active : RegistryStats → Installation → Action (Unit {0})
  store_active s i = do save i; put_stats s

  unfoldable pub reactivate : Installation → Action Response
  reactivate i =
      if not i.revoked
      then pure (reply 200 (with_credential (public_installation i) (credential_of env i)))
      else (do
        s ← stats
        require_slot s
        at ← now_text env
        let active = mark_active at i
        store_active (record s { active_installations = s.active_installations + 1 }) active
        pure (reply 200 (with_credential (public_installation active) (credential_of env active))))

  -- `generateUniqueInstallationId`, with the attempts left.
  unfoldable pub unused_id : ℕ → Action String
  unused_id zero = throw (limited 503 5 "installation id allocation failed")
  unused_id (suc n) = do
    candidate ← gets (λ w. env.random_id w.log w.moment n)
    found ← load candidate
    elim found [ none ↦ pure candidate | some _ ↦ unused_id n ]

  unfoldable pub unique_id : Action String
  unique_id = unused_id 5

  unfoldable pub fresh_installation : String → String → Installation
  fresh_installation id now = record {
    id = id;
    hostname = "sp-" <> id <> "." <> env.host_suffix;
    label = "";
    phase = disabled;
    desired_enabled = false;
    generation = none;
    last_generation = none;
    tunnel_id = none;
    revoked = false;
    created_at = now;
    updated_at = now;
    status_rate = none;
    mutation_rate = none;
    provider_confirmed_at = none;
    credential_generation = none;
    last_city = none;
    last_region = none;
    last_country = none;
    archived = none;
    device_name = none;
    ever_provisioned = none;
    diagnostics_rate = none;
  }

  unfoldable pub reenroll : Installation → Action Response
  reenroll i = do
    disable i true
    s ← stats
    require_slot s
    id ← unique_id
    now ← now_text env
    let fresh = fresh_installation id now
    store_active
        (record s {
          active_installations = s.active_installations + 1;
          enrollments = s.enrollments + 1;
        })
        fresh
    pure (reply 201 (with_credential (public_installation fresh) (credential_of env fresh)))
