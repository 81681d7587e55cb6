-- ===== src/Registry/Fleet.antt =====
-- The records of control-plane/src/index.ts that the operator's panel shows: alerts, approval
-- requests and uploaded diagnostics; and the quota of a source of enrolments.
use stagepilot_beta.Common.{ℕ, String}

-- The outcome of an approval request.
pub data Decision : Type 0 where
  pending approved denied : Decision

pub record ApprovalRequest : Type 0 where
  pub id : String
  pub installation_id : String
  pub reason : String
  pub status : Decision
  pub created_at : String
  pub updated_at : String

pub data Severity : Type 0 where
  warning critical : Severity

-- `opened` is the source's `open`.
pub data AlertStatus : Type 0 where
  opened acknowledged : AlertStatus

pub record AlertRecord : Type 0 where
  pub id : String
  pub installation_id : String
  pub category : String
  pub subject : String
  pub message : String
  pub severity : Severity
  pub first_seen : String
  pub last_seen : String
  pub count : ℕ
  pub status : AlertStatus
  pub created_at : String
  pub updated_at : String
  pub location : String

pub record DiagnosticsBundleMeta : Type 0 where
  pub installation_id : String
  pub key : String
  pub uploaded_at : String
  pub size : ℕ

pub record SourceQuota : Type 0 where
  pub started_at : ℕ
  pub count : ℕ
  pub last_seen_at : ℕ
