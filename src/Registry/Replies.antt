-- ===== src/Registry/Replies.antt =====
-- control-plane/src/index.ts: what the registry answers about an installation, its credential, and
-- the cached token of a provisioned tunnel.
use stagepilot_beta.Common.{
  ◌<>◌, ℕ, ◌+◌, ltb, leb, String, str_eq, Bool, true, false, not, ◌&&◌, Option, none, some, or_else,
  lookup, if◌then◌else◌,
}
use stagepilot_beta.Registry.Names.{utf16_length, has_space}
use stagepilot_beta.Registry.Data.{
  Env, Phase, disabled, provisioned, revoking, Installation, CachedToken, CfResult, text,
  PublicInstallation, with_tunnel, Body, Response,
}
use stagepilot_beta.Registry.Action.{Action, ok, error, pure, throw, gets}

unfoldable pub public_installation : Installation → PublicInstallation
public_installation i = record {
  installation_id = i.id;
  hostname = i.hostname;
  phase = i.phase;
  generation = i.generation;
  revoked = i.revoked;
  created_at = i.created_at;
  updated_at = i.updated_at;
  device_name = i.device_name;
}

unfoldable pub reply : ℕ → Body → Response
reply status body = record { status = status; body = body; retry_after = none }

abbrev pub reconcile_cache_seconds : ℕ
reconcile_cache_seconds = 30

abbrev pub is_provisioned : Phase → Bool
is_provisioned provisioned = true
is_provisioned _ = false

abbrev pub is_disabled : Phase → Bool
is_disabled disabled = true
is_disabled _ = false

abbrev pub is_revoking : Phase → Bool
is_revoking revoking = true
is_revoking _ = false

-- An absent number and zero are false.
abbrev pub recent : Option ℕ → ℕ → Bool
recent none now = false
recent (some at) now = ltb 0 at && leb now (at + reconcile_cache_seconds)

unfoldable pub usable_token : Option CachedToken → ℕ → Option String
usable_token none now = none
usable_token (some c) now = if ltb c.expires_at now then none else some c.token

unfoldable pub cached_reply : Installation → ℕ → Option String → Option String → Option Response
unfolding public_installation reply
cached_reply i now (some id) (some token) =
    if is_provisioned i.phase && recent i.provider_confirmed_at now
    then some (reply 200 (with_tunnel (public_installation i) id token))
    else none
cached_reply i now _ _ = none

-- A stored text that is not empty.
abbrev pub some_text : Option String → Option String
some_text none = none
some_text (some s) = if str_eq s "" then none else some s

is_token : String → Bool
unfolding utf16_length has_space
is_token s = leb 20 (utf16_length s) && not (has_space s)

unfoldable pub read_token : CfResult → Action String
unfolding is_token pure throw
read_token (text s) =
    if is_token s then pure s else throw (error "installation credential unavailable")
read_token _ = throw (error "installation credential unavailable")

module _ (env : Env) where
  unfoldable pub now_seconds : Action ℕ
  unfolding gets
  now_seconds = gets (λ w. env.seconds w.log w.moment)

  unfoldable pub now_text : Action String
  unfolding gets
  now_text = gets (λ w. env.timestamp w.log w.moment)

  unfoldable pub credential : String → ℕ → String
  credential id generation =
      "spi_"
      <> id
      <> "."
      <> env.signature ("stagepilot-installation:" <> id <> ":" <> env.decimal generation)

  unfoldable pub credential_of : Installation → String
  unfolding credential
  credential_of i = credential i.id (or_else i.credential_generation 0)

  unfoldable pub cached_provision : Installation → Action (Option Response)
  unfolding cached_reply usable_token lookup
  cached_provision i w =
      let now = env.seconds w.log w.moment in
      (
        ok (
            cached_reply i now (some_text i.tunnel_id)
              (usable_token (lookup i.id w.token_cache) now)),
        w,
      )
