-- ===== src/Registry/Enrollment.antt =====
-- control-plane/src/index.ts: `enroll`, with the quotas of the sources of enrolments.
pub mod Counted
pub mod Quota
pub mod Replay
use stagepilot_beta.Common.{
  ◌<>◌, ℕ, ◌+◌, ◌-◌, max, leb, ltb, String, str_eq, Bool, false, not, ◌&&◌, List, [], ◌∷◌, ◌++◌,
  any, length, Option, none, some, is_some, lookup, insert, erase, if◌then◌else◌,
}
use stagepilot_beta.Registry.Sources.{Text, text_eq, normalize_source_address, exempt_set}
use stagepilot_beta.Registry.Fleet.{SourceQuota}
use stagepilot_beta.Registry.Forms.{Input, enrollment_key}
use stagepilot_beta.Registry.Device.{apply_device_name}
use stagepilot_beta.Registry.Data.{
  Env, Installation, RegistryStats, failure, with_credential, Response,
}
use stagepilot_beta.Registry.Action.{Action, limited, pure, throw, gets, modify, ◌>>=◌, ◌>>◌, load}
use stagepilot_beta.Registry.Limits.{stats, bump_denied, enrollment_denied}
use stagepilot_beta.Registry.Replies.{
  public_installation, reply, now_seconds, now_text, credential_of,
}
use stagepilot_beta.Registry.Revocation.{
  mark_active, unavailable, require_slot, store_active, unique_id, fresh_installation,
}
use stagepilot_beta.Registry.Provision.{note_device}
use stagepilot_beta.Registry.Approvals.{read_body}

abbrev pub enrollments_per_source : ℕ
enrollments_per_source = 3

abbrev pub max_source_quotas : ℕ
max_source_quotas = 2000

-- A quota whose window is over counts as none.
unfoldable pub current_quota : (span now : ℕ) → Option SourceQuota → Option SourceQuota
current_quota span now none = none
current_quota span now (some q) = if leb (q.started_at + span) now then none else some q

unfoldable pub next_quota : ℕ → Option SourceQuota → SourceQuota
next_quota now none = record { started_at = now; count = 1; last_seen_at = now }
next_quota now (some q) = record {
  started_at = q.started_at;
  count = q.count + 1;
  last_seen_at = now;
}

abbrev pub is_fresh : (span now : ℕ) → Option SourceQuota → Bool
is_fresh span now none = false
is_fresh span now (some q) = ltb now (q.last_seen_at + span)

unfoldable pub forget_quota : String → Action (Unit {0})
unfolding modify erase
forget_quota hash = modify (λ w. record w { quotas = erase hash w.quotas })

abbrev pub index_of : Option (List String) → List String
index_of none = []
index_of (some index) = index

abbrev pub with_hash : String → List String → List String
with_hash hash index = if any (str_eq hash) index then index else index ++ (hash ∷ [])

unfoldable pub put_enrollment :
    (nonce hash : String) → SourceQuota → List String → Installation → Action (Unit {0})
unfolding modify insert
put_enrollment nonce hash quota index i = modify (λ w. record w {
  enrollments = insert nonce i.id w.enrollments;
  quotas = insert hash quota w.quotas;
  quota_index = some (with_hash hash index);
})

module _ (env : Env) where
  abbrev pub span : ℕ
  span = env.enrollment_window

  -- The loop of `pruneSourceQuotas`: what is left of the index.
  unfoldable pub prune : ℕ → List String → Action (List String)
  prune now [] = pure []
  prune now (hash ∷ hashes) = do
    quota ← gets (λ w. lookup hash w.quotas)
    (if is_fresh span now quota
        then (do rest ← prune now hashes; pure (hash ∷ rest))
        else (do forget_quota hash; prune now hashes))

  unfoldable pub prune_source_quotas : ℕ → Action (List String)
  prune_source_quotas now = do index ← gets (λ w. index_of w.quota_index); prune now index

  unfoldable pub check_quota : RegistryStats → Bool → ℕ → Option SourceQuota → Action (Unit {0})
  check_quota s exempt now none = pure tt
  check_quota s exempt now (some q) =
      if not exempt && leb enrollments_per_source q.count
      then (do
        bump_denied s enrollment_denied
        throw (limited 429 (max 1 (q.started_at + span - now)) "enrollment rate limited"))
      else pure tt

  unfoldable pub check_index :
      RegistryStats → Option SourceQuota → String → List String → Action (Unit {0})
  check_index s quota hash index =
      if not (is_some quota)
        && (not (any (str_eq hash) index) && leb max_source_quotas (length index))
      then unavailable env s
      else pure tt

  unfoldable pub is_exempt : Text → Bool
  unfolding exempt_set text_eq
  is_exempt source = any (text_eq source) (exempt_set env.exempt_sources)

  unfoldable pub source_hash : Text → String
  source_hash source = env.signature ("enrollment-source:" <> env.written source)

  -- A new installation for a source.
  unfoldable pub mint_from : RegistryStats → Text → String → Option String → Action Installation
  mint_from s source nonce device = do
    let hash = source_hash source
    now ← now_seconds env
    quota ← gets (λ w. current_quota span now (lookup hash w.quotas))
    check_quota s (is_exempt source) now quota
    index ← prune_source_quotas now
    check_index s quota hash index
    id ← unique_id env
    at ← now_text env
    let fresh = (apply_device_name (fresh_installation env id at) device).0
    put_enrollment nonce hash (next_quota now quota) index fresh
    store_active env
        (record s {
          active_installations = s.active_installations + 1;
          enrollments = s.enrollments + 1;
        })
        fresh
    pure fresh

  unfoldable pub mint_at :
      RegistryStats → Option Text → String → Option String → Action (Option Installation)
  mint_at s none nonce device = pure none
  mint_at s (some source) nonce device = do i ← mint_from s source nonce device; pure (some i)

  -- `none` is an address that cannot be read.
  unfoldable pub mint : Text → String → Option String → Action (Option Installation)
  unfolding normalize_source_address
  mint address nonce device = do
    s ← stats
    require_slot env s
    mint_at s (normalize_source_address address) nonce device

  -- The installation of a known nonce that was revoked.
  unfoldable pub reopen : Installation → Option String → Action Installation
  reopen i device = do
    s ← stats
    require_slot env s
    at ← now_text env
    let active = (apply_device_name (mark_active at i) device).0
    store_active env (record s { active_installations = s.active_installations + 1 }) active
    pure active

  unfoldable pub enrolled :
      Text → String → Option String → Option Installation → Action (Option Installation)
  enrolled address nonce device none = mint address nonce device
  enrolled address nonce device (some i) =
      if i.revoked then (do active ← reopen i device; pure (some active)) else pure (some i)

  unfoldable pub find_enrolled : Option String → Action (Option Installation)
  find_enrolled none = pure none
  find_enrolled (some id) = load id

  unfoldable pub admit_enrolled : Option String → Option Installation → Action Response
  admit_enrolled device none = pure (reply 400 (failure "invalid request"))
  admit_enrolled device (some i) = do
    named ← note_device env i device
    pure (reply 201 (with_credential (public_installation named) (credential_of env named)))

  unfoldable pub enroll_as : Text → Option String → Option String → Action Response
  enroll_as address device none = pure (reply 400 (failure "invalid request"))
  enroll_as address device (some nonce) = do
    id ← gets (λ w. lookup nonce w.enrollments)
    known ← find_enrolled id
    installation ← enrolled address nonce device known
    admit_enrolled device installation

  unfoldable pub enroll : Text → Option Input → Action Response
  enroll address input = do
    given ← read_body input
    enroll_as address given.device_name (enrollment_key given)
