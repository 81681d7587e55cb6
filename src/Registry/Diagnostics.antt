-- ===== src/Registry/Diagnostics.antt =====
-- control-plane/src/index.ts: the upload of diagnostics under a cap on what is stored. A row's key
-- is the installation's id, the time of the upload and a random text, joined by colons.
pub mod Capped
pub mod Metered
pub mod Refused
use Prim.Native.Char.{code}
use stagepilot_beta.Common.{
  ◌<>◌, ℕ, zero, suc, ◌+◌, ◌-◌, ◌*◌, String, Bool, true, false, not, ◌&&◌, ◌||◌, ltb, leb, str_eq,
  ◌==◌, [], ◌∷◌, Dict, Option, none, some, or_else, insert, erase, if◌then◌else◌,
}
use stagepilot_beta.Registry.Names.{is_digit}
use stagepilot_beta.Registry.Fleet.{DiagnosticsBundleMeta}
use stagepilot_beta.Registry.Data.{Env, Installation, RegistryStats, failure, uploaded, Response}
use stagepilot_beta.Registry.Action.{
  Action, error, pure, throw, gets, modify, ◌>>=◌, ◌>>◌, put_stats,
}
use stagepilot_beta.Registry.Limits.{stats}
use stagepilot_beta.Registry.Replies.{reply, now_text}
use stagepilot_beta.Registry.Rows.{listed}
use stagepilot_beta.Registry.Approvals.{draw}

abbrev pub max_bundle_bytes : ℕ
max_bundle_bytes = 2 * 1024 * 1024

-- 8 GiB
abbrev pub storage_cap_bytes : ℕ
storage_cap_bytes = 8589934592

-- 30 days in milliseconds
abbrev pub retention : ℕ
retention = 2592000000

-- `sizedBody`: the declared length (0 if there is none) and the length of what came.
unfoldable pub sized_body : (declared size : ℕ) → Option ℕ
sized_body declared size =
    if leb 1 declared && leb declared max_bundle_bytes && leb size max_bundle_bytes
    then some size
    else none

-- `replace(/[-:]/g, '')`
unfoldable pub drop_marks : String → String
drop_marks String.[] = String.[]
drop_marks (String.◌∷◌ c s) =
    if code c == b'-' || code c == b':' then drop_marks s else String.◌∷◌ c (drop_marks s)

-- `/^\d*Z$/` and `/^\d+Z$/`
unfoldable pub ends_fraction : String → Bool
ends_fraction String.[] = false
ends_fraction (String.◌∷◌ c s) =
    if code c == b'Z' then str_eq s "" else is_digit (code c) && ends_fraction s

unfoldable pub is_fraction : String → Bool
unfolding ends_fraction
is_fraction String.[] = false
is_fraction (String.◌∷◌ c s) = is_digit (code c) && ends_fraction s

-- `replace(/\.\d+Z$/, 'Z')`
unfoldable pub drop_fraction : String → String
unfolding is_fraction
drop_fraction String.[] = String.[]
drop_fraction (String.◌∷◌ c s) =
    if code c == b'.' && is_fraction s then "Z" else String.◌∷◌ c (drop_fraction s)

unfoldable pub diagnostics_key : String → String → String → String
unfolding drop_marks drop_fraction
diagnostics_key id at suffix =
    "diagnostics/" <> id <> "/" <> drop_fraction (drop_marks at) <> "-" <> suffix

abbrev pub bytes_used : RegistryStats → ℕ
bytes_used s = or_else s.diagnostics_bytes_used 0

unfoldable pub forget_bundle : String → Action (Unit {0})
unfolding modify erase
forget_bundle key = modify (λ w. record w { bundles = erase key w.bundles })

unfoldable pub put_bundle : String → DiagnosticsBundleMeta → Action (Unit {0})
unfolding modify insert
put_bundle key meta = modify (λ w. record w { bundles = insert key meta w.bundles })

module _ (env : Env) where
  -- A `put` or a `delete` of the bucket, which may fail.
  unfoldable pub bucket_call : String → Action (Unit {0})
  bucket_call key = if env.bucket_takes key then pure tt else throw (error "bucket")

  -- `expireOldDiagnostics`: at most `left` rows that are past the retention are deleted. The
  -- statistics are the caller's, and are not stored here. A difference of times below zero is
  -- written as a sum on the other side.
  unfoldable pub sweep :
      (left now : ℕ) → Dict DiagnosticsBundleMeta → RegistryStats → Action RegistryStats
  sweep left now [] s = pure s
  sweep zero now (_ ∷ _) s = pure s
  sweep (suc left) now ((key, meta) ∷ rows) s =
      elim (ltb now (env.time_of meta.uploaded_at + retention)) [
        | true ↦ sweep (suc left) now rows s
        | false ↦ do
          bucket_call meta.key
          forget_bundle key
          sweep left now rows
              (record s { diagnostics_bytes_used = some (bytes_used s - meta.size) })
      ]

  unfoldable pub expire_old_diagnostics : RegistryStats → Action RegistryStats
  expire_old_diagnostics s = do
    now ← gets (λ w. env.milliseconds w.log w.moment)
    rows ← gets (λ w. listed w.bundles)
    sweep 25 now rows s

  unfoldable pub store_bundle : Installation → ℕ → RegistryStats → Action Response
  store_bundle i size s = do
    at ← now_text env
    suffix ← draw env 4
    let object_key = diagnostics_key i.id at suffix
    bucket_call object_key
    put_bundle (i.id <> ":" <> at <> ":" <> suffix)
        (record { installation_id = i.id; key = object_key; uploaded_at = at; size = size })
    put_stats (record s { diagnostics_bytes_used = some (bytes_used s + size) })
    pure (reply 201 (uploaded at size))

  unfoldable pub upload_sized : Installation → Option ℕ → Action Response
  upload_sized i none = pure (reply 400 (failure "invalid request"))
  upload_sized i (some size) = do
    read ← stats
    s ← expire_old_diagnostics read
    (if ltb storage_cap_bytes (bytes_used s + size)
        then pure (reply 503 (failure "diagnostics storage cap reached; try again later"))
        else store_bundle i size s)

  unfoldable pub upload_diagnostics : (declared size : ℕ) → Installation → Action Response
  upload_diagnostics declared size i =
      if not env.has_bucket
      then pure (reply 503 (failure "diagnostics storage unavailable"))
      else upload_sized i (sized_body declared size)
