-- ===== src/Registry/Cleanup.antt =====
-- control-plane/src/index.ts: the resources of an older generation of an installation, and the
-- removal of those of the current one.
use stagepilot_beta.Common.{
  ltb, str_eq, String, Bool, true, false, not, ◌&&◌, Option, none, some, is_some, if◌then◌else◌,
}
use stagepilot_beta.Registry.Names.{
  strip_prefix, is_generation, same_generation, tunnel_prefix, tunnel_target, tunnel_name,
}
use stagepilot_beta.Registry.Data.{
  Env, Installation, Tunnel, DnsRecord, CfResult, connections, list_connections, delete_connections,
  delete_tunnel, delete_record,
}
use stagepilot_beta.Registry.Action.{Action, error, pure, throw, ◌>>=◌, ◌>>◌}
use stagepilot_beta.Registry.Provider.{is_text, owned, cf, tunnel, dns_record, configure}

pub record Stale : Type 0 where
  pub entry : DnsRecord
  pub tunnel : Tunnel

abbrev pub no_connections : CfResult → Bool
no_connections (connections n) = not (ltb 0 n)
no_connections _ = false

-- The comment names another generation of this installation.
unfoldable pub names_older : Option String → String → String → Bool
unfolding strip_prefix is_generation same_generation tunnel_prefix
names_older none id requested = false
names_older (some comment) id requested = elim (strip_prefix (tunnel_prefix id) comment) [
  | none ↦ false
  | some old ↦ is_generation old && not (same_generation old requested)
]

abbrev pub text_of : Option String → String
text_of none = ""
text_of (some s) = s

module _ (env : Env) where
  unfoldable pub older_tunnel : DnsRecord → Option Tunnel → Action (Option Stale)
  older_tunnel entry none = pure none
  older_tunnel entry (some t) =
      if is_text entry.content (tunnel_target t.id)
      then (do
        connected ← cf env (list_connections t.id)
        pure (
            if no_connections connected then some (record { entry = entry; tunnel = t }) else none))
      else pure none

  unfoldable pub stale_own_generation : Installation → DnsRecord → String → Action (Option Stale)
  stale_own_generation i entry requested =
      if names_older entry.comment i.id requested
        && is_text entry.name i.hostname
        && is_text entry.kind "CNAME"
        && entry.proxied
      then (do found ← tunnel env (text_of entry.comment); older_tunnel entry found)
      else pure none

  unfoldable pub fail_if : Bool → String → Action (Unit {0})
  fail_if true message = throw (error message)
  fail_if false message = pure tt

  -- The deletion of a record, and the check that the hostname has none left.
  unfoldable pub delete_entry : String → DnsRecord → Action (Unit {0})
  delete_entry hostname entry = do
    cf env (delete_record entry.id)
    left ← dns_record env hostname
    fail_if (is_some left) "hostname removal not confirmed"

  -- The deletion of a tunnel, and the check that none of its name is left.
  unfoldable pub delete_whole_tunnel : String → String → Action (Unit {0})
  delete_whole_tunnel id name = do
    configure env id none
    cf env (delete_connections id)
    cf env (delete_tunnel id)
    left ← tunnel env name
    fail_if (is_some left) "tunnel revocation not confirmed"

  unfoldable pub remove_stale : Installation → Stale → Action (Unit {0})
  remove_stale i stale = do
    delete_entry i.hostname stale.entry
    delete_whole_tunnel stale.tunnel.id stale.tunnel.name

  unfoldable pub replace_stale : Installation → DnsRecord → String → Action (Unit {0})
  replace_stale i entry generation = do
    stale ← stale_own_generation i entry generation
    elim stale [ none ↦ throw (error "hostname ownership conflict") | some s ↦ remove_stale i s ]

  abbrev pub owns : Option DnsRecord → String → String → Option String → Bool
  owns none name hostname id = false
  owns (some r) name hostname none = false
  owns (some r) name hostname (some id) = not (str_eq id "") && owned r name hostname id

  abbrev pub tunnel_id_of : Option Tunnel → Option String → Option String
  tunnel_id_of none stored = stored
  tunnel_id_of (some t) stored = some t.id

  unfoldable pub teardown_record :
      Installation → String → String → Option String → Option DnsRecord → Action (Unit {0})
  teardown_record i generation name id none = pure tt
  teardown_record i generation name id (some entry) =
      if owns (some entry) name i.hostname id
      then delete_entry i.hostname entry
      else replace_stale i entry generation

  unfoldable pub teardown_tunnel : String → Option Tunnel → Action (Unit {0})
  teardown_tunnel name none = pure tt
  teardown_tunnel name (some t) = delete_whole_tunnel t.id name

  unfoldable pub teardown_generation : Installation → String → Action (Unit {0})
  teardown_generation i generation = do
    let name = tunnel_name i.id generation
    found ← tunnel env name
    entry ← dns_record env i.hostname
    teardown_record i generation name (tunnel_id_of found i.tunnel_id) entry
    teardown_tunnel name found

  -- The provider's part of `disable`.
  unfoldable pub teardown : Installation → Action (Unit {0})
  teardown i = elim i.generation [
    | none ↦ pure tt
    | some generation ↦ teardown_generation i generation
  ]
