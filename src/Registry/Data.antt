-- ===== src/Registry/Data.antt =====
-- The records of control-plane/src/index.ts: what the registry stores, what the provider's API
-- holds, and the replies. An absent optional field is `none`; times are strings or whole seconds.
use stagepilot_beta.Common.{ℕ, Bool, String, Option, List, Dict}
use stagepilot_beta.Registry.Windows.{RateWindow}
use stagepilot_beta.Registry.Fleet.{
  ApprovalRequest, AlertRecord, DiagnosticsBundleMeta, SourceQuota,
}

pub data Phase : Type 0 where
  disabled enabling provisioned revoking : Phase

pub record Installation : Type 0 where
  pub id : String
  pub hostname : String
  pub label : String
  pub phase : Phase
  pub desired_enabled : Bool
  pub generation : Option String
  pub last_generation : Option String
  pub tunnel_id : Option String
  pub revoked : Bool
  pub created_at : String
  pub updated_at : String
  pub status_rate : Option RateWindow
  pub mutation_rate : Option RateWindow
  pub provider_confirmed_at : Option ℕ
  pub credential_generation : Option ℕ
  pub last_city : Option String
  pub last_region : Option String
  pub last_country : Option String
  pub archived : Option Bool
  pub device_name : Option String
  pub ever_provisioned : Option Bool
  pub diagnostics_rate : Option RateWindow

-- `diagnosticsBytesUsed` is missing in what older versions stored.
pub record RegistryStats : Type 0 where
  pub active_installations : ℕ
  pub enrollments : ℕ
  pub enrollment_denied : ℕ
  pub status_denied : ℕ
  pub mutation_denied : ℕ
  pub provider_denied : ℕ
  pub diagnostics_bytes_used : Option ℕ

pub record CachedToken : Type 0 where
  pub token : String
  pub expires_at : ℕ

pub data Lane : Type 0 where
  normal recovery : Lane

-- A tunnel as the provider lists it; `is_deleted` says that `deleted_at` is set.
pub record Tunnel : Type 0 where
  pub id : String
  pub name : String
  pub config_src : String
  pub is_deleted : Bool

-- A DNS record as the provider lists it: a field is `none` where it is no text, and `proxied`
-- says that it is exactly `true`.
pub record DnsRecord : Type 0 where
  pub id : String
  pub name : Option String
  pub kind : Option String
  pub content : Option String
  pub comment : Option String
  pub proxied : Bool

-- One rule of a tunnel's ingress: the object's keys with their texts, `none` for another value.
abbrev pub IngressRule : Type 0
IngressRule = Dict (Option String)

-- The requests to the provider: a method and a path of each, with the body.
pub data CfCall : Type 0 where
  list_tunnels : (name : String) → CfCall
  create_tunnel : (name : String) → CfCall
  list_connections delete_connections delete_tunnel get_token get_config : (id : String) → CfCall
  put_config : (id : String) → List IngressRule → CfCall
  list_records : (hostname : String) → CfCall
  create_record : (hostname content comment : String) → CfCall
  delete_record : (id : String) → CfCall

-- The `result` of an envelope, by what the caller reads of it. `other` is a value of another shape.
-- In `config`, a rule that is no object is `none`, and the flag says that warp routing is `false`.
pub data CfResult : Type 0 where
  tunnels : List Tunnel → CfResult
  records : List DnsRecord → CfResult
  text : String → CfResult
  connections : ℕ → CfResult
  config : Option (List (Option IngressRule)) → Bool → CfResult
  other : CfResult

-- What `fetch` brings: no response, a 429 with its finite `retry-after`, another failure, a body
-- that is no JSON, an envelope without success or result, or the result.
pub data Fetched : Type 0 where
  unreachable : Fetched
  throttled : Option ℕ → Fetched
  http_error : ℕ → Fetched
  no_json : Fetched
  unsuccessful : Fetched
  result : CfResult → Fetched

pub record PublicInstallation : Type 0 where
  pub installation_id : String
  pub hostname : String
  pub phase : Phase
  pub generation : Option String
  pub revoked : Bool
  pub created_at : String
  pub updated_at : String
  pub device_name : Option String

-- Of one kind: a reset of the installation's own rate limit.
pub record PendingAction : Type 0 where
  pub id : String
  pub installation_id : String
  pub requested_at : String

-- What the operator sees of an installation besides: a field is `none` where the reply has it not.
pub record Description : Type 0 where
  pub label : String
  pub location : String
  pub archived : Option Bool
  pub ever_provisioned : Option Bool

pub data Body : Type 0 where
  incomplete : (diagnostic : Option String) → Body
  with_actions : PublicInstallation → List PendingAction → Body
  pending_action : PendingAction → Body
  acknowledged : String → Body
  failure : String → Body
  installation : PublicInstallation → Body
  with_credential : PublicInstallation → String → Body
  with_tunnel : PublicInstallation → String → String → Body
  statistics : RegistryStats → Body
  described : PublicInstallation → Description → Body
  fleet : List (PublicInstallation × Description) → Body
  cities : List (String × ℕ) → Body
  approval : ApprovalRequest → Body
  approvals : List ApprovalRequest → Body
  alert : AlertRecord → Body
  alerts : List AlertRecord → Body
  bundles : List (String × String × ℕ) → Body
  download : DiagnosticsBundleMeta → Body
  uploaded : (at : String) (size : ℕ) → Body
  flow : (flow_id ticket : String) → Body

pub record Response : Type 0 where
  pub status : ℕ
  pub body : Body
  pub retry_after : Option ℕ

-- The storage, by the kinds of its keys, without the prefix that is common to a kind; the object's
-- memory; the requests made to the provider, latest first; and a count of the requests served and
-- of the random texts drawn, on which the clock and the next random text may depend.
pub record World : Type 0 where
  pub installations : Dict Installation
  pub stats : Option RegistryStats
  pub provider_budget : Option RateWindow
  pub pending : Dict PendingAction
  pub token_cache : Dict CachedToken
  pub lane : Lane
  pub log : List CfCall
  pub moment : ℕ
  pub enrollments : Dict String
  pub quotas : Dict SourceQuota
  pub quota_index : Option (List String)
  pub approvals : Dict ApprovalRequest
  pub alerts : Dict AlertRecord
  pub bundles : Dict DiagnosticsBundleMeta

-- The configuration, and what the program does not compute: the provider's answer to each
-- request after those made before, the clock, the signatures, the random identifiers, and whether
-- the bucket of the diagnostics is there and takes what is put or deleted. `written` is the text of
-- code points, `time_of` reads a date, and `locale_before` is `localeCompare`.
pub record Env : Type 0 where
  pub installation_limit : ℕ
  pub enrollment_enabled : Bool
  pub remote_port : String
  pub host_suffix : String
  pub answer : List CfCall → CfCall → Fetched
  pub seconds : List CfCall → ℕ → ℕ
  pub timestamp : List CfCall → ℕ → String
  pub admin_token : String
  pub signature : String → String
  pub digest : String → List ℕ
  pub random_id : List CfCall → ℕ → ℕ → String
  pub decimal : ℕ → String
  pub random_hex : (bytes moment : ℕ) → String
  pub locale_before : String → String → Bool
  pub enrollment_window : ℕ
  pub exempt_sources : Option (List ℕ)
  pub written : List ℕ → String
  pub has_bucket : Bool
  pub bucket_takes : (key : String) → Bool
  pub bucket_holds : (key : String) → Bool
  pub milliseconds : List CfCall → ℕ → ℕ
  pub time_of : String → ℕ
