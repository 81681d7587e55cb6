-- ===== src/Updater/Known.antt =====
-- frontend/src/hooks/useUpdater.ts: a backend that an installation has stopped is known to be.
use stagepilot_beta.Common.{
  ℕ, String, Bool, true, false, ◌||◌, Option, none, List, [], ◌∷◌, ◌≡◌, refl, arith,
}
use stagepilot_beta.Common.Exec.{Result, done, failed, step, resume, ◌>>=◌}
use stagepilot_beta.Common.Exec.Gives.{Gives, OnDone-any, Gives-return, Gives-bind}
use stagepilot_beta.Updater.{UpdateProgress, DownloadEvent, Platform, Updater, Task, modify, call}
use stagepilot_beta.Updater.Install.{
  is_installing_stage, on_progress, download_events, prepare_relaunch, prepare_for_update,
  candidate_install, install_update,
}

-- A backend that does not run is known to be stopped.
abbrev pub Known : Updater → Type 0
Known u = u.backend_stopped ≡ false → u.is_running ≡ true

or-false : (a b : Bool) → a || b ≡ false → b ≡ false
or-false a b h = ground arith

progress-Gives : (q : UpdateProgress) → Gives Known (on_progress q) (λ _. Unit)
unfolding on_progress modify step
progress-Gives q = record { run = λ u known. (λ h. known (or-false _ u.backend_stopped h), tt) }

call-Gives : {A : Type 0} (r : Result String A) → Gives Known (call r) (λ _. Unit)
unfolding call step
call-Gives r = record { run = λ u known. (known, OnDone-any r) }

events-Gives :
    (events : List DownloadEvent) (downloaded : ℕ) (total : Option ℕ)
    → Gives Known (download_events events downloaded total) (λ _. Unit)
unfolding download_events
events-Gives [] downloaded total = Gives-return _ tt
events-Gives (event ∷ events) downloaded total =
    Gives-bind _ _ (progress-Gives _) λ _ _. events-Gives events _ _

-- The stop of the backend and the note of it, in one.
stop-Gives :
    (r : Result String (Unit {0})) (running : Bool) (q : UpdateProgress) (rest : Task (Unit {0}))
    → is_installing_stage q.stage ≡ true
    → ((e : String) → r ≡ failed e → running ≡ true)
    → Gives Known rest (λ _. Unit)
    → Gives Known
        ((modify (λ u. record u { is_running = running }) >>= λ _. call r) >>= λ _.
          on_progress q >>= λ _. rest)
        (λ _. Unit)
unfolding modify call step ◌>>=◌ resume on_progress
stop-Gives (failed e) running q rest stage honest g = record {
  run = λ u known. (λ h. honest e refl, tt);
}
stop-Gives (done v) running q rest stage honest g = record {
  run = λ u known. g.run _ (λ h. ground (arith, stage, h));
}

modify-Gives :
    (f : Updater → Updater)
    → ((u : Updater) → Known u → Known (f u))
    → Gives Known (modify f) (λ _. Unit)
unfolding modify step
modify-Gives f h = record { run = λ u known. (h u known, tt) }

-- A preparation that fails leaves the backend running.
abbrev pub IsHonest : Platform → Type 0
IsHonest p = (e : String) → p.prepare ≡ failed e → p.running_after_prepare ≡ true

module _ (p : Platform) (honest : IsHonest p) where
  candidate-Gives : Gives Known (candidate_install p) (λ _. Unit)
  unfolding candidate_install prepare_for_update
  candidate-Gives = Gives-bind _ _ (progress-Gives _) λ _ _.
      Gives-bind _ _ (modify-Gives _ (λ u known. known)) λ _ _.
        Gives-bind _ _ (events-Gives p.events 0 none) λ sizes _.
          Gives-bind _ _ (call-Gives p.download) λ _ _.
            stop-Gives p.prepare p.running_after_prepare _ _ refl honest
              (call-Gives p.install_package)

  pub update-Gives : (version : String) → Gives Known (install_update p version) (λ _. Unit)
  unfolding install_update prepare_relaunch
  update-Gives version =
      Gives-bind _ _
        (Gives-bind _ _ (call-Gives p.marker_stored) λ _ _.
          Gives-bind _ _ (modify-Gives _ (λ u known. known)) λ _ _. call-Gives p.window_state)
        λ _ _.
          Gives-bind _ _ candidate-Gives
            λ _ _. Gives-bind _ _ (modify-Gives _ (λ u known. known)) λ _ _. call-Gives p.relaunch
