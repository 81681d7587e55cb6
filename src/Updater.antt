-- ===== src/Updater.antt =====
-- frontend/src/services/updater.ts and frontend/src/hooks/useUpdater.ts: the download and the
-- installation of an update, and the marker that survives the relaunch. `Platform` holds what the
-- shell, the network and the clock answer in one run; a failure is its message.
pub mod Install
mod Known
pub mod Blocks
pub mod Recovery
pub mod Relaunch
use stagepilot_beta.Common.{
  ℕ, zero, suc, ◌+◌, ◌*◌, ◌/◌, min, ltb, String, str_eq, starts_with, Bool, true, false, not, ◌||◌,
  Option, none, some, List, if◌then◌else◌,
}
use stagepilot_beta.Common.Exec.{Result, Exec, step, done}

pub data UpdaterStatus : Type 0 where
  idle checking available confirmation : UpdaterStatus
  downloading installing restarting current update_error : UpdaterStatus

pub data Stage : Type 0 where
  preparing_stage downloading_stage verifying_stage installing_stage : Stage

pub record UpdateProgress : Type 0 where
  pub downloaded_bytes : ℕ
  pub total_bytes : Option ℕ
  pub percentage : Option ℕ
  pub stage : Stage

pub data DownloadEvent : Type 0 where
  started : Option ℕ → DownloadEvent
  chunk : ℕ → DownloadEvent
  finished : DownloadEvent

-- `created_at` is `none` where it is no time.
pub record RelaunchMarker : Type 0 where
  pub target_version : String
  pub route : Option String
  pub created_at : Option ℕ

-- The row of the marker in the browser's storage; a text that is no marker is `bad_row`.
pub data MarkerRow : Type 0 where
  no_row bad_row : MarkerRow
  marker_row : RelaunchMarker → MarkerRow

-- What `installEnvironment` gives: nothing, or whether updates are blocked, and the guidance.
pub data Environment : Type 0 where
  unknown_environment : Environment
  environment : (updates_blocked : Bool) → (guidance : Option String) → Environment

pub record Platform : Type 0 where
  pub environment_now : Result String Environment
  pub marker_stored : Result String (Unit {0})
  pub window_state : Result String (Unit {0})
  pub events : List DownloadEvent
  pub download : Result String (Unit {0})
  pub prepare : Result String (Unit {0})
  pub running_after_prepare : Bool
  pub install_package : Result String (Unit {0})
  pub relaunch : Result String (Unit {0})
  pub restart : Result String Bool
  pub window_shown : Result String (Unit {0})
  pub now : ℕ
  pub route : Option String
  pub version : String

-- The state and the references of the hook, the marker, whether the backend runs, and the number of
-- downloads that were started. `backend_stopped` is a variable of the run.
pub record Updater : Type 0 where
  pub status : UpdaterStatus
  pub progress : Option UpdateProgress
  pub error : Option String
  pub dialog_open : Bool
  pub blocked_reason : Option String
  pub candidate : Option String
  pub is_installing : Bool
  pub install_blocked : Option String
  pub backend_stopped : Bool
  pub marker : MarkerRow
  pub is_running : Bool
  pub downloads : ℕ

abbrev pub Task : Type 0 → Type 0
Task A = Exec Updater String A

unfoldable pub modify : (Updater → Updater) → Task (Unit {0})
unfolding step
modify f = step (λ u. (done tt, f u))

-- A call of the shell that changes nothing here.
unfoldable pub call : {A : Type 0} → Result String A → Task A
unfolding step
call r = step (λ u. (r, u))

abbrev pub day : ℕ
day = 86400000

-- `total && total > 0`, and the rounded percentage, at most 100.
unfoldable pub percentage_of : ℕ → Option ℕ → Option ℕ
percentage_of downloaded none = none
percentage_of downloaded (some zero) = none
percentage_of downloaded (some (suc n)) = some (min 100 ((200 * downloaded + suc n) / (2 * suc n)))

unfoldable pub normalize_progress : DownloadEvent → ℕ → Option ℕ → ℕ × Option ℕ
normalize_progress (started total) downloaded before = (downloaded, total)
normalize_progress (chunk n) downloaded total = (downloaded + n, total)
normalize_progress finished downloaded total = (downloaded, total)

abbrev pub stage_of : DownloadEvent → Stage
stage_of (started total) = downloading_stage
stage_of (chunk n) = downloading_stage
stage_of finished = verifying_stage
