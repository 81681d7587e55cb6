-- ===== src/Examples/Updater.antt =====
-- An update whose installation fails after the backend was stopped, and a relaunch.
use stagepilot_beta.Common.{true, false, none, some, [], ◌∷◌, ◌≡◌, ◌⊎◌, refl, arith}
use stagepilot_beta.Common.Exec.{done, failed, return, step, resume, ◌>>=◌, caught, attempt}
use stagepilot_beta.Updater.{
  idle, restarting, started, chunk, finished, no_row, Environment, environment, unknown_environment,
  Platform, Updater, modify, call, percentage_of, normalize_progress,
}
use stagepilot_beta.Updater.Install.{
  on_progress, download_events, prepare_relaunch, prepare_for_update, candidate_install,
  install_update, recover, begin, install_from, install,
}
use stagepilot_beta.Updater.Recovery.{IsRecovered, install-recovers}
use stagepilot_beta.Updater.Relaunch.{
  restore_after_relaunch, IsTakenOver, IsHidden, IsDropped, IsUsedUp, relaunch-restored,
}

abbrev platform : Environment → Platform
platform seen = record {
  environment_now = done seen;
  marker_stored = done tt;
  window_state = done tt;
  events = started (some 200) ∷ chunk 100 ∷ chunk 100 ∷ finished ∷ [];
  download = done tt;
  prepare = done tt;
  running_after_prepare = false;
  install_package = failed "The image is read-only.";
  relaunch = done tt;
  restart = done true;
  window_shown = done tt;
  now = 1000;
  route = some "#/lights";
  version = "1.4.0";
}

abbrev ready : Updater
ready = record {
  status = idle;
  progress = none;
  error = none;
  dialog_open = false;
  blocked_reason = none;
  candidate = some "1.5.0";
  is_installing = false;
  install_blocked = none;
  backend_stopped = false;
  marker = no_row;
  is_running = true;
  downloads = 0;
}

-- The backend was restarted, and the message says so.
install_tests :
    ((install (platform unknown_environment) ready).1.is_running ≡ true)
    × ((install (platform unknown_environment) ready).1.error
        ≡ some
            "The image is read-only. The local backend was restarted — you are still on the old version.")
    × ((install (platform unknown_environment) ready).1.downloads ≡ 1)
unfolding install install_from begin attempt caught modify call step return resume ◌>>=◌
    install_update prepare_relaunch prepare_for_update candidate_install download_events
    normalize_progress percentage_of on_progress recover
install_tests = (refl, refl, refl)

install-recovers_example :
    ((install (platform unknown_environment) ready).1.status ≡ restarting)
    ⊎ IsRecovered (install (platform unknown_environment) ready).1
install-recovers_example =
    install-recovers (platform unknown_environment) (λ e h. ground (arith, h)) ready "1.5.0" refl
      refl refl refl

-- A shell that says that updates are blocked, and later does not answer.
abbrev guarded : Platform
guarded = platform (environment true none)

abbrev silent : Platform
silent = record guarded { environment_now = failed "The shell is gone." }

abbrev before_relaunch : Platform
before_relaunch = platform unknown_environment

abbrev next : Platform
next = record before_relaunch { now = 86401000; version = "1.5.0" }

abbrev later : Platform
later = record before_relaunch { now = 86402000; version = "1.5.0" }

relaunch-restored_example :
    (IsTakenOver before_relaunch next "1.5.0" ready
        (prepare_relaunch before_relaunch "1.5.0" ready).1
      × IsUsedUp later
          (restore_after_relaunch next (prepare_relaunch before_relaunch "1.5.0" ready).1).1)
    ⊎ (IsHidden before_relaunch next "1.5.0" ready
          (prepare_relaunch before_relaunch "1.5.0" ready).1
        ⊎ (IsDropped before_relaunch next "1.5.0" ready
              (prepare_relaunch before_relaunch "1.5.0" ready).1
            × IsUsedUp later
                (restore_after_relaunch next (prepare_relaunch before_relaunch "1.5.0" ready).1).1))
relaunch-restored_example = relaunch-restored before_relaunch next later "1.5.0" ready refl
