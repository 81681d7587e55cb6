-- ===== src/Registry/Rules/Calls.antt =====
-- control-plane/src/index.ts: rules for the actions that ask the provider.
use stagepilot_beta.Common.{String, List, [], ◌∷◌, Option, none, some, Bool, true, false}
use stagepilot_beta.Registry.Data.{
  World, Env, Installation, Tunnel, DnsRecord, CfCall, CfResult, tunnels, records, text,
}
use stagepilot_beta.Registry.Provider.{
  cf, as_tunnels, as_records, single_tunnel, single_record, tunnel, dns_record, configure,
}
use stagepilot_beta.Registry.Cleanup.{
  Stale, older_tunnel, stale_own_generation, fail_if, delete_entry, delete_whole_tunnel,
  remove_stale, replace_stale, teardown_record, teardown_tunnel, teardown_generation, teardown,
}
use stagepilot_beta.Registry.Replies.{read_token}
use stagepilot_beta.Registry.Provision.{
  clear_stale, confirm_tunnel, ensure_tunnel, ensure_entry, confirm_entry, provision_resources,
}
use stagepilot_beta.Registry.Rules.Basic.{Keeps, Keeps-bind, Keeps-elim, keeps_rules}

module _ (P : World → Type 0) where
  as_tunnels-Keeps : (r : CfResult) → Keeps P (as_tunnels r)
  unfolding as_tunnels
  as_tunnels-Keeps (tunnels rows) = search keeps_rules
  as_tunnels-Keeps _ = search keeps_rules

  as_records-Keeps : (r : CfResult) → Keeps P (as_records r)
  unfolding as_records
  as_records-Keeps (records rows) = search keeps_rules
  as_records-Keeps _ = search keeps_rules

  single_tunnel-Keeps : (ts : List Tunnel) → Keeps P (single_tunnel ts)
  unfolding single_tunnel
  single_tunnel-Keeps [] = search keeps_rules
  single_tunnel-Keeps (t ∷ []) = search keeps_rules
  single_tunnel-Keeps (_ ∷ _ ∷ _) = search keeps_rules

  single_record-Keeps : (rs : List DnsRecord) → Keeps P (single_record rs)
  unfolding single_record
  single_record-Keeps [] = search keeps_rules
  single_record-Keeps (r ∷ []) = search keeps_rules
  single_record-Keeps (_ ∷ _ ∷ _) = search keeps_rules

module _ (env : Env) (P : World → Type 0) (cf_keeps : (call : CfCall) → Keeps P (cf env call)) where
  tunnel-Keeps : (name : String) → Keeps P (tunnel env name)
  unfolding tunnel
  tunnel-Keeps name = search (keeps_rules, cf_keeps, as_tunnels-Keeps, single_tunnel-Keeps)

  dns_record-Keeps : (hostname : String) → Keeps P (dns_record env hostname)
  unfolding dns_record
  dns_record-Keeps hostname = search (keeps_rules, cf_keeps, as_records-Keeps, single_record-Keeps)

  configure-Keeps : (id : String) (hostname : Option String) → Keeps P (configure env id hostname)
  unfolding configure
  configure-Keeps id hostname = search (keeps_rules, cf_keeps)

  older_tunnel-Keeps : (e : DnsRecord) (t : Option Tunnel) → Keeps P (older_tunnel env e t)
  unfolding older_tunnel
  older_tunnel-Keeps e none = search keeps_rules
  older_tunnel-Keeps e (some t) = search (keeps_rules, cf_keeps)

  stale-Keeps :
      (i : Installation) (e : DnsRecord) (g : String) → Keeps P (stale_own_generation env i e g)
  unfolding stale_own_generation
  stale-Keeps i e g = search (keeps_rules, tunnel-Keeps, older_tunnel-Keeps)

  fail_if-Keeps : (b : Bool) (m : String) → Keeps P (fail_if env b m)
  unfolding fail_if
  fail_if-Keeps true m = search keeps_rules
  fail_if-Keeps false m = search keeps_rules

  delete_entry-Keeps : (h : String) (e : DnsRecord) → Keeps P (delete_entry env h e)
  unfolding delete_entry
  delete_entry-Keeps h e = search (keeps_rules, cf_keeps, dns_record-Keeps, fail_if-Keeps)

  delete_whole_tunnel-Keeps : (id name : String) → Keeps P (delete_whole_tunnel env id name)
  unfolding delete_whole_tunnel
  delete_whole_tunnel-Keeps id name =
      search (keeps_rules, cf_keeps, configure-Keeps, tunnel-Keeps, fail_if-Keeps)

  remove_stale-Keeps : (i : Installation) (s : Stale) → Keeps P (remove_stale env i s)
  unfolding remove_stale
  remove_stale-Keeps i s = search (keeps_rules, delete_entry-Keeps, delete_whole_tunnel-Keeps)

  replace_stale-Keeps :
      (i : Installation) (e : DnsRecord) (g : String) → Keeps P (replace_stale env i e g)
  unfolding replace_stale
  replace_stale-Keeps i e g =
      Keeps-bind _ _ (stale-Keeps i e g)
        λ found. Keeps-elim found _ _ (search keeps_rules) (λ s. remove_stale-Keeps i s)

  teardown_record-Keeps :
      (i : Installation) (g name : String) (id : Option String) (e : Option DnsRecord)
      → Keeps P (teardown_record env i g name id e)
  unfolding teardown_record
  teardown_record-Keeps i g name id none = search keeps_rules
  teardown_record-Keeps i g name id (some e) =
      search (keeps_rules, delete_entry-Keeps, replace_stale-Keeps)

  teardown_tunnel-Keeps : (name : String) (t : Option Tunnel) → Keeps P (teardown_tunnel env name t)
  unfolding teardown_tunnel
  teardown_tunnel-Keeps name none = search keeps_rules
  teardown_tunnel-Keeps name (some t) = search (keeps_rules, delete_whole_tunnel-Keeps)

  teardown_generation-Keeps :
      (i : Installation) (g : String) → Keeps P (teardown_generation env i g)
  unfolding teardown_generation
  teardown_generation-Keeps i g =
      search
        (keeps_rules, tunnel-Keeps, dns_record-Keeps, teardown_record-Keeps, teardown_tunnel-Keeps)

  pub teardown-Keeps : (i : Installation) → Keeps P (teardown env i)
  unfolding teardown
  teardown-Keeps i =
      Keeps-elim i.generation _ _ (search keeps_rules) (λ g. teardown_generation-Keeps i g)

  clear_stale-Keeps :
      (i : Installation) (g name : String) (t : Option Tunnel) (e : Option DnsRecord)
      → Keeps P (clear_stale env i g name t e)
  unfolding clear_stale
  clear_stale-Keeps i g name t none = search keeps_rules
  clear_stale-Keeps i g name t (some e) = search (keeps_rules, replace_stale-Keeps)

  confirm_tunnel-Keeps : (t : Option Tunnel) → Keeps P (confirm_tunnel env t)
  unfolding confirm_tunnel
  confirm_tunnel-Keeps none = search keeps_rules
  confirm_tunnel-Keeps (some t) = search keeps_rules

  ensure_tunnel-Keeps : (name : String) (t : Option Tunnel) → Keeps P (ensure_tunnel env name t)
  unfolding ensure_tunnel
  ensure_tunnel-Keeps name none = search (keeps_rules, cf_keeps, tunnel-Keeps, confirm_tunnel-Keeps)
  ensure_tunnel-Keeps name (some t) = search keeps_rules

  ensure_entry-Keeps :
      (name h : String) (t : Tunnel) (e : Option DnsRecord) → Keeps P (ensure_entry env name h t e)
  unfolding ensure_entry
  ensure_entry-Keeps name h t none = search (keeps_rules, cf_keeps, dns_record-Keeps)
  ensure_entry-Keeps name h t (some e) = search keeps_rules

  confirm_entry-Keeps :
      (name h : String) (t : Tunnel) (e : Option DnsRecord) → Keeps P (confirm_entry env name h t e)
  unfolding confirm_entry
  confirm_entry-Keeps name h t none = search keeps_rules
  confirm_entry-Keeps name h t (some e) = search keeps_rules

  read_token-Keeps : (r : CfResult) → Keeps P (read_token r)
  unfolding read_token
  read_token-Keeps (text s) = search keeps_rules
  read_token-Keeps _ = search keeps_rules

  pub provision_resources-Keeps :
      (i : Installation) (g : String) → Keeps P (provision_resources env i g)
  unfolding provision_resources
  provision_resources-Keeps i g =
      search
        (
          keeps_rules, cf_keeps, tunnel-Keeps, dns_record-Keeps, clear_stale-Keeps,
          ensure_tunnel-Keeps, configure-Keeps, ensure_entry-Keeps, confirm_entry-Keeps,
          read_token-Keeps,
        )
        depth 12
