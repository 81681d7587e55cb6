-- ===== src/Updater/Install.antt =====
-- frontend/src/hooks/useUpdater.ts: `install` and `closeError`, with the candidate's `install` and
-- the marker of frontend/src/services/updater.ts.
use stagepilot_beta.Common.{
  ℕ, suc, ltb, String, str_eq, Bool, true, false, ◌||◌, Option, none, some, or_else, List, [], ◌∷◌,
  ◌<>◌, if◌then◌else◌,
}
use stagepilot_beta.Common.Exec.{Result, done, failed, return, ◌>>=◌, ◌>>◌, attempt}
use stagepilot_beta.Updater.{
  UpdaterStatus, idle, available, downloading, installing, restarting, update_error, Stage,
  preparing_stage, installing_stage, downloading_stage, verifying_stage, UpdateProgress,
  DownloadEvent, no_row, marker_row, Environment, unknown_environment, environment, Platform, Task,
  modify, call, percentage_of, normalize_progress, stage_of,
}

abbrev pub is_installing_stage : Stage → Bool
is_installing_stage installing_stage = true
is_installing_stage preparing_stage = false
is_installing_stage downloading_stage = false
is_installing_stage verifying_stage = false

unfoldable pub on_progress : UpdateProgress → Task (Unit {0})
unfolding modify
on_progress p = modify (λ u. record u {
  backend_stopped = is_installing_stage p.stage || u.backend_stopped;
  progress = some p;
  status = if is_installing_stage p.stage then installing else downloading;
})

-- The bytes so far and the total, after all events.
unfoldable pub download_events : List DownloadEvent → ℕ → Option ℕ → Task (ℕ × Option ℕ)
unfolding normalize_progress
download_events [] downloaded total = return (downloaded, total)
download_events (event ∷ events) downloaded total =
    let (bytes, size) = normalize_progress event downloaded total in
    do
      on_progress (record {
        downloaded_bytes = bytes;
        total_bytes = size;
        percentage = percentage_of bytes size;
        stage = stage_of event;
      })
      download_events events bytes size

-- `totalBytes ? 100 : null`
abbrev pub whole : Option ℕ → Option ℕ
whole none = none
whole (some n) = if ltb 0 n then some 100 else none

module _ (p : Platform) where
  -- The row is stored, where the browser takes it, before the window's state is saved.
  unfoldable pub prepare_relaunch : String → Task (Unit {0})
  unfolding modify
  prepare_relaunch version = do
    call p.marker_stored
    modify (λ u. record u {
      marker =
          marker_row
            (record { target_version = version; route = p.route; created_at = some p.now });
    })
    call p.window_state

  unfoldable pub prepare_for_update : Task (Unit {0})
  unfolding modify
  prepare_for_update = do
    modify (λ u. record u { is_running = p.running_after_prepare })
    call p.prepare

  unfoldable pub candidate_install : Task (Unit {0})
  unfolding modify
  candidate_install = do
    on_progress (record {
      downloaded_bytes = 0;
      total_bytes = none;
      percentage = none;
      stage = preparing_stage;
    })
    modify (λ u. record u { downloads = suc u.downloads })
    sizes ← download_events p.events 0 none
    call p.download
    prepare_for_update
    on_progress (record {
      downloaded_bytes = sizes.0;
      total_bytes = sizes.1;
      percentage = whole sizes.1;
      stage = installing_stage;
    })
    call p.install_package

  unfoldable pub install_update : String → Task (Unit {0})
  unfolding modify
  install_update version = do
    prepare_relaunch version
    candidate_install
    modify (λ u. record u { status = restarting })
    call p.relaunch

  abbrev pub has_restarted : Result String Bool → Bool
  has_restarted (done b) = b
  has_restarted (failed e) = false

  abbrev pub recovery_text : Bool → String
  recovery_text true = " The local backend was restarted — you are still on the old version."
  recovery_text false = " The local backend could not be restarted — restart StagePilot manually."

  abbrev pub recovery_of : Bool → String
  recovery_of true = recovery_text (has_restarted p.restart)
  recovery_of false = ""

  -- The `catch` of `install`.
  unfoldable pub recover : String → Task (Unit {0})
  unfolding modify
  recover reason = modify (λ u. record u {
    marker = no_row;
    is_installing = false;
    is_running = u.is_running || (if u.backend_stopped then has_restarted p.restart else false);
    status = update_error;
    error = some (reason <> recovery_of u.backend_stopped);
    dialog_open = true;
  })

  abbrev pub blocked_text : Bool → Option String → Option String
  blocked_text true guidance =
      some (or_else guidance "StagePilot cannot install updates from its current location.")
  blocked_text false guidance = none

  -- The reason that is known, and what the shell says now where it answers.
  abbrev pub blocked_now : Result String Environment → Option String → Option String
  blocked_now (failed e) known = known
  blocked_now (done unknown_environment) known = known
  blocked_now (done (environment blocked guidance)) known = blocked_text blocked guidance

  -- `if (blockedReason)`
  abbrev pub reason_of : Option String → Option String
  reason_of none = none
  reason_of (some text) = if str_eq text "" then none else some text

  unfoldable pub refuse_install : String → Option String → Task (Unit {0})
  unfolding modify
  refuse_install reason blocked = modify (λ u. record u {
    install_blocked = blocked;
    status = update_error;
    error = some reason;
    dialog_open = true;
    progress = none;
    blocked_reason = some reason;
  })

  unfoldable pub begin : String → Option String → Option String → Task (Unit {0})
  unfolding modify
  begin version blocked (some reason) = refuse_install reason blocked
  begin version blocked none = do
    modify (λ u. record u {
      install_blocked = blocked;
      is_installing = true;
      backend_stopped = false;
      status = downloading;
      error = none;
    })
    attempt (install_update version) (λ _. return tt) recover

  unfoldable pub install_from : Option String → Bool → Option String → Task (Unit {0})
  install_from none busy known = return tt
  install_from (some version) true known = return tt
  install_from (some version) false known =
      let blocked = blocked_now p.environment_now known in begin version blocked (reason_of blocked)

  unfoldable pub install : Task (Unit {0})
  install u = install_from u.candidate u.is_installing u.install_blocked u

abbrev pub status_after : Option String → UpdaterStatus
status_after none = idle
status_after (some version) = available

unfoldable pub close_error : Task (Unit {0})
unfolding modify
close_error = modify (λ u. record u {
  is_installing = false;
  status = status_after u.candidate;
  error = none;
  dialog_open = false;
  progress = none;
})
