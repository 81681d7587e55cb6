-- ===== src/Registry/Provider.antt =====
-- control-plane/src/index.ts: the requests to the provider's API and the checks of what it holds.
use stagepilot_beta.Common.{
  ◌<>◌, max, String, List, [], ◌∷◌, Bool, true, false, not, ◌&&◌, Option, none, some, length,
  lookup, keep, ◌==◌, or_else, str_eq, if◌then◌else◌,
}
use stagepilot_beta.Registry.Names.{is_tunnel_id, tunnel_target}
use stagepilot_beta.Registry.Data.{
  Env, Tunnel, DnsRecord, IngressRule, CfCall, list_tunnels, get_token, get_config, put_config,
  list_records, create_record, delete_record, CfResult, tunnels, records, config, Fetched,
  unreachable, throttled, http_error, no_json, unsuccessful, result,
}
use stagepilot_beta.Registry.Action.{
  Action, Outcome, Operation, dns, tunnel_token, tunnel_configuration, tunnel_lifecycle, limited,
  http_failure, invalid_response, rejected, error, pure, throw, ◌>>=◌, ◌>>◌,
}
use stagepilot_beta.Registry.Limits.{take_provider_budget}

-- An optional text that is exactly the given one.
abbrev pub is_text : Option String → String → Bool
is_text none t = false
is_text (some s) t = str_eq s t

unfoldable pub owned : DnsRecord → String → String → String → Bool
unfolding tunnel_target
owned r name hostname tunnel_id =
    is_text r.comment name
    && is_text r.name hostname
    && is_text r.kind "CNAME"
    && is_text r.content (tunnel_target tunnel_id)
    && r.proxied

abbrev pub operation : CfCall → Operation
operation (list_records _) = dns
operation (create_record _ _ _) = dns
operation (delete_record _) = dns
operation (get_token _) = tunnel_token
operation (get_config _) = tunnel_configuration
operation (put_config _ _) = tunnel_configuration
operation _ = tunnel_lifecycle

unfoldable pub receive : Operation → Fetched → Action CfResult
receive op unreachable = throw (error "unknown")
receive op (throttled retry) =
    throw (limited 503 (max 1 (or_else retry 60)) "provider capacity unavailable")
receive op (http_error status) = throw (http_failure op status)
receive op no_json = throw (invalid_response op)
receive op unsuccessful = throw (rejected op)
receive op (result r) = pure r

-- The caller's `filter` fails on a value that is no array, with a message that is not shown.
unfoldable pub as_tunnels : CfResult → Action (List Tunnel)
as_tunnels (tunnels rows) = pure rows
as_tunnels _ = throw (error "unknown")

unfoldable pub as_records : CfResult → Action (List DnsRecord)
as_records (records rows) = pure rows
as_records _ = throw (error "unknown")

unfoldable pub single_tunnel : List Tunnel → Action (Option Tunnel)
single_tunnel [] = pure none
single_tunnel (t ∷ []) =
    if str_eq t.config_src "cloudflare" && is_tunnel_id t.id
    then pure (some t)
    else throw (error "invalid tunnel ownership")
single_tunnel (_ ∷ _ ∷ _) = throw (error "ambiguous tunnel ownership")

unfoldable pub single_record : List DnsRecord → Action (Option DnsRecord)
single_record [] = pure none
single_record (r ∷ []) = pure (some r)
single_record (_ ∷ _ ∷ _) = throw (error "ambiguous hostname ownership")

-- The comparison of one rule, by the number of keys and the value of each expected key.
unfoldable pub same_values : IngressRule → IngressRule → Bool
unfolding lookup
same_values [] received = true
same_values ((key, none) ∷ rest) received = same_values rest received
same_values ((key, some value) ∷ rest) received =
    is_text (or_else (lookup key received) none) value && same_values rest received

unfoldable pub same_rule : IngressRule → Option IngressRule → Bool
unfolding same_values
same_rule expected none = false
same_rule expected (some received) =
    length received == length expected && same_values expected received

unfoldable pub same_ingress : List IngressRule → List (Option IngressRule) → Bool
unfolding same_rule
same_ingress [] [] = true
same_ingress [] (_ ∷ _) = false
same_ingress (_ ∷ _) [] = false
same_ingress (e ∷ es) (r ∷ rs) = same_rule e r && same_ingress es rs

unfoldable pub confirms : List IngressRule → CfResult → Bool
unfolding same_ingress
confirms expected (config (some received) warp_disabled) =
    same_ingress expected received && warp_disabled
confirms expected _ = false

module _ (env : Env) where
  unfoldable pub fetch : CfCall → Action Fetched
  fetch call w = (Outcome.ok (env.answer w.log call), record w { log = call ∷ w.log })

  unfoldable pub cf : CfCall → Action CfResult
  cf call = do take_provider_budget env; fetched ← fetch call; receive (operation call) fetched

  unfoldable pub tunnel : String → Action (Option Tunnel)
  tunnel name = do
    found ← cf (list_tunnels name)
    rows ← as_tunnels found
    single_tunnel (keep (λ t. str_eq t.name name && not t.is_deleted) rows)

  unfoldable pub dns_record : String → Action (Option DnsRecord)
  dns_record hostname = do
    found ← cf (list_records hostname)
    rows ← as_records found
    single_record (keep (λ r. is_text r.name hostname) rows)

  abbrev pub fallback_rule : IngressRule
  fallback_rule = ("service", some "http_status:404") ∷ []

  unfoldable pub ingress : Option String → List IngressRule
  ingress none = fallback_rule ∷ []
  ingress (some hostname) =
      (("hostname", some hostname)
        ∷ ("service", some ("http://127.0.0.1:" <> env.remote_port))
        ∷ [])
      ∷ fallback_rule
      ∷ []

  unfoldable pub configure : String → Option String → Action (Unit {0})
  configure tunnel_id hostname = do
    let expected = ingress hostname
    cf (put_config tunnel_id expected)
    actual ← cf (get_config tunnel_id)
    if confirms expected actual then pure tt else throw (error "tunnel configuration not confirmed")
