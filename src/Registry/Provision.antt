-- ===== src/Registry/Provision.antt =====
-- control-plane/src/index.ts: `provision`, `reconcile` and `ensureProvisioned`.
use stagepilot_beta.Common.{
  ℕ, ◌+◌, String, str_eq, Bool, true, false, not, ◌&&◌, Option, none, some, is_some, if◌then◌else◌,
}
use stagepilot_beta.Registry.Names.{is_generation, tunnel_name, tunnel_target}
use stagepilot_beta.Registry.Device.{apply_device_name}
use stagepilot_beta.Registry.Forms.{Input}
use stagepilot_beta.Registry.Data.{
  Env, enabling, provisioned, Installation, Tunnel, DnsRecord, create_tunnel, create_record,
  get_token, failure, installation, with_tunnel, Response,
}
use stagepilot_beta.Registry.Action.{Action, error, pure, throw, ◌>>=◌, ◌>>◌, save, remember_token}
use stagepilot_beta.Registry.Provider.{is_text, owned, cf, tunnel, dns_record, configure}
use stagepilot_beta.Registry.Cleanup.{replace_stale}
use stagepilot_beta.Registry.Revocation.{disable}
use stagepilot_beta.Registry.Replies.{
  public_installation, reply, is_provisioned, is_disabled, is_revoking, read_token, now_seconds,
  now_text, cached_provision, reconcile_cache_seconds,
}

unfoldable pub mark_provisioned : String → ℕ → String → Installation → Installation
mark_provisioned tunnel_id at_seconds at i = record i {
  tunnel_id = some tunnel_id;
  phase = provisioned;
  provider_confirmed_at = some at_seconds;
  updated_at = at;
  ever_provisioned = some true;
}

unfoldable pub mark_enabling : String → String → Installation → Installation
mark_enabling generation at i = record i {
  generation = some generation;
  desired_enabled = true;
  phase = enabling;
  updated_at = at;
}

abbrev pub other_text : Option String → String → Bool
other_text none s = false
other_text (some t) s = not (str_eq t s)

abbrev pub owns_entry : Option Tunnel → DnsRecord → String → String → Bool
owns_entry none entry name hostname = false
owns_entry (some t) entry name hostname = owned entry name hostname t.id

module _ (env : Env) where
  unfoldable pub clear_stale :
      Installation → String → String → Option Tunnel → Option DnsRecord → Action (Option DnsRecord)
  clear_stale i generation name found none = pure none
  clear_stale i generation name found (some entry) =
      if owns_entry found entry name i.hostname
      then pure (some entry)
      else (do replace_stale env i entry generation; pure none)

  unfoldable pub confirm_tunnel : Option Tunnel → Action Tunnel
  confirm_tunnel none = throw (error "tunnel creation not confirmed")
  confirm_tunnel (some t) = pure t

  unfoldable pub ensure_tunnel : String → Option Tunnel → Action Tunnel
  ensure_tunnel name (some t) = pure t
  ensure_tunnel name none = do
    cf env (create_tunnel name)
    found ← tunnel env name
    confirm_tunnel found

  unfoldable pub ensure_entry :
      String → String → Tunnel → Option DnsRecord → Action (Option DnsRecord)
  ensure_entry name hostname t (some entry) = pure (some entry)
  ensure_entry name hostname t none = do
    cf env (create_record hostname (tunnel_target t.id) name)
    dns_record env hostname

  unfoldable pub confirm_entry : String → String → Tunnel → Option DnsRecord → Action (Unit {0})
  confirm_entry name hostname t none = throw (error "hostname route not confirmed")
  confirm_entry name hostname t (some entry) =
      if owned entry name hostname t.id
      then pure tt
      else throw (error "hostname route not confirmed")

  -- What `ensureProvisioned` asks of the provider: the tunnel and its token.
  unfoldable pub provision_resources : Installation → String → Action (Tunnel × String)
  provision_resources i generation = do
    let name = tunnel_name i.id generation
    found ← tunnel env name
    entry ← dns_record env i.hostname
    kept ← clear_stale i generation name found entry
    t ← ensure_tunnel name found
    configure env t.id (some i.hostname)
    routed ← ensure_entry name i.hostname t kept
    confirm_entry name i.hostname t routed
    answer ← cf env (get_token t.id)
    token ← read_token answer
    pure (t, token)

  unfoldable pub finish_provision : Installation → Tunnel × String → Action Response
  finish_provision i (t, token) = do
    seconds ← now_seconds env
    at ← now_text env
    let ready = mark_provisioned t.id seconds at i
    save ready
    remember_token i.id (record { token = token; expires_at = seconds + reconcile_cache_seconds })
    pure (reply 200 (with_tunnel (public_installation ready) t.id token))

  unfoldable pub ensure_generation : Installation → Option String → Action Response
  ensure_generation i none = throw (error "missing generation")
  ensure_generation i (some generation) = do
    cached ← cached_provision env i
    elim cached [
      | none ↦ do resources ← provision_resources i generation; finish_provision i resources
      | some response ↦ pure response
    ]

  unfoldable pub ensure_provisioned : Installation → Action Response
  ensure_provisioned i = ensure_generation i i.generation

  unfoldable pub start_provision : Installation → String → Option String → Action Response
  start_provision i generation device = do
    at ← now_text env
    let (enabled, _) = apply_device_name (mark_enabling generation at i) device
    save enabled
    ensure_provisioned enabled

  unfoldable pub accept_generation : Installation → String → Option String → Action Response
  accept_generation i generation device =
      if is_revoking i.phase
      then pure (reply 409 (failure "disable must finish first"))
      else if other_text i.generation generation
      then pure (reply 409 (failure "generation conflict"))
      else (do
        cached ←
            (if is_text i.generation generation && is_provisioned i.phase
              then cached_provision env i
              else pure none)
        elim cached [
          | none ↦
              if not (is_some i.generation) && is_text i.last_generation generation
              then pure (reply 409 (failure "a new generation is required"))
              else start_provision i generation device
          | some response ↦ pure response
        ])

  unfoldable pub check_generation : Option String → Option String → Installation → Action Response
  check_generation none device i = pure (reply 400 (failure "invalid generation"))
  check_generation (some generation) device i =
      if is_generation generation
      then accept_generation i generation device
      else pure (reply 400 (failure "invalid generation"))

  -- `none` is a body that cannot be read.
  unfoldable pub provision : Option Input → Installation → Action Response
  provision none i = throw (error "invalid request")
  provision (some input) i = check_generation input.generation input.device_name i

  unfoldable pub note_device : Installation → Option String → Action Installation
  note_device i device =
      let (named, changed) = apply_device_name i device in
      if changed
      then (do
        at ← now_text env
        let dated = record named { updated_at = at }
        save dated
        pure dated)
      else pure i

  abbrev pub device_of : Option Input → Option String
  device_of none = none
  device_of (some input) = input.device_name

  unfoldable pub settle : Installation → Action Response
  settle i =
      if is_disabled i.phase
      then pure (reply 200 (installation (public_installation i)))
      else disable env i false

  unfoldable pub reconcile : Option Input → Installation → Action Response
  reconcile input i = do
    named ← note_device i (device_of input)
    if named.desired_enabled && is_some named.generation
        then (do
          cached ← cached_provision env named
          elim cached [ none ↦ ensure_provisioned named | some response ↦ pure response ])
        else settle named
