-- ===== src/Updater/Recovery.antt =====
-- How an installation ends.
use stagepilot_beta.Common.{
  String, Bool, Bool-cases, true, false, ◌||◌, Option, none, some, ◌≡◌, ◌⊎◌, inl, inr, refl, arith,
  ◌<>◌, if◌then◌else◌,
}
use stagepilot_beta.Common.Exec.{Result, done, failed, return, step, resume, ◌>>=◌, caught, attempt}
use stagepilot_beta.Updater.{
  restarting, update_error, downloading, no_row, Platform, Updater, Task, modify, call,
}
use stagepilot_beta.Updater.Install.{
  install_update, has_restarted, recovery_of, recover, reason_of, blocked_now, begin, install_from,
  install,
}
use stagepilot_beta.Updater.Blocks.{Blocks}
use stagepilot_beta.Updater.Known.{Known, IsHonest, update-Gives}

-- An end without an error leaves the status of a restart.
abbrev Restarts : Result String (Unit {0}) × Updater → Type 0
Restarts (failed e, u) = Unit
Restarts (done v, u) = u.status ≡ restarting

resume-Restarts :
    {A : Type 0} (f : A → Task (Unit {0})) (r : Result String A) (u : Updater)
    → ((a : A) (after : Updater) → Restarts (f a after))
    → Restarts (resume f r u)
unfolding resume
resume-Restarts f (failed e) u h = tt
resume-Restarts f (done a) u h = h a u

bind-Restarts :
    {A : Type 0} (m : Task A) (f : A → Task (Unit {0})) (u : Updater)
    → ((a : A) (after : Updater) → Restarts (f a after))
    → Restarts ((m >>= f) u)
unfolding ◌>>=◌
bind-Restarts m f u h = resume-Restarts f (m u).0 (m u).1 h

relaunch-Restarts :
    (r : Result String (Unit {0})) (u : Updater)
    → Restarts ((modify (λ u'. record u' { status = restarting }) >>= λ _. call r) u)
unfolding modify call step ◌>>=◌ resume
relaunch-Restarts (failed e) u = tt
relaunch-Restarts (done v) u = refl

update-Restarts :
    (p : Platform) (version : String) (u : Updater) → Restarts (install_update p version u)
unfolding install_update
update-Restarts p version u =
    bind-Restarts _ _ u
      λ _ prepared. bind-Restarts _ _ prepared λ _ installed. relaunch-Restarts p.relaunch installed

-- The error is shown and a new attempt is possible; the backend runs, or the error says that it
-- could not be restarted.
pub record IsRecovered (u : Updater) : Type 0 where
  pub shown : u.status ≡ update_error
  pub open_dialog : u.dialog_open ≡ true
  pub unmarked : u.marker ≡ no_row
  pub free : u.is_installing ≡ false
  pub backend :
      (u.is_running ≡ true)
      ⊎ ((reason : String) × (u.error
            ≡ some (
                reason
                <> " The local backend could not be restarted — restart StagePilot manually.")))

recovery-told :
    (p : Platform) (running stopped : Bool) (reason : String)
    → (stopped ≡ false → running ≡ true)
    → ((running || (if stopped then has_restarted p p.restart else false)) ≡ true)
      ⊎ ((told_reason : String) × (some (reason <> recovery_of p stopped)
            ≡ some (
                told_reason
                <> " The local backend could not be restarted — restart StagePilot manually.")))
recovery-told p running false reason known = inl (ground (arith, known refl))
recovery-told p running true reason known = elim (Bool-cases (has_restarted p p.restart)) [
  | inl back ↦ rw back (inl (ground arith))
  | inr lost ↦ rw lost (inr (reason, refl))
]

recover-IsRecovered :
    (p : Platform) (reason : String) (u : Updater) → Known u → IsRecovered (recover p reason u).1
unfolding recover modify step
recover-IsRecovered p reason u known = record {
  shown = refl;
  open_dialog = refl;
  unmarked = refl;
  free = refl;
  backend = recovery-told p u.is_running u.backend_stopped reason known;
}

module _ (p : Platform) (honest : IsHonest p) where
  abbrev Ends : Updater → Type 0
  Ends u = (u.status ≡ restarting) ⊎ IsRecovered u

  caught-Ends :
      (r : Result String (Unit {0})) (u : Updater)
      → Known u
      → Restarts (r, u)
      → Ends (caught (λ _. return tt) (recover p) r u).1
  unfolding caught return
  caught-Ends (failed e) u known restarts = inr (recover-IsRecovered p e u known)
  caught-Ends (done v) u known restarts = inl restarts

  begun-Ends :
      (version : String) (blocked : Option String) (u : Updater)
      → u.is_running ≡ true
      → Ends (begin p version blocked none u).1
  unfolding begin attempt modify step ◌>>=◌ resume
  begun-Ends version blocked u running =
      let before = record u {
        install_blocked = blocked;
        is_installing = true;
        backend_stopped = false;
        status = downloading;
        error = none;
      } in
      let ended = install_update p version before in
      caught-Ends ended.0 ended.1 ((update-Gives p honest version).run before (λ h. running)).0
        (update-Restarts p version before)

  from-Ends :
      (o : Option String) (version : String) (busy : Bool) (known : Option String) (u : Updater)
      → o ≡ some version
      → busy ≡ false
      → u.is_running ≡ true
      → reason_of p (blocked_now p p.environment_now known) ≡ none
      → Ends (install_from p o busy known u).1
  unfolding install_from
  from-Ends o version busy known u candidate free running unblocked =
      rw (candidate, free, unblocked) (begun-Ends version _ u running)

  -- An installation that is not blocked, started while the backend runs and none is under way, ends
  -- in one of two ways, whatever fails in it, if a preparation that fails leaves the backend
  -- running: the application restarts, or the error is shown, the marker of the relaunch is gone, a
  -- new attempt is possible, and the backend runs unless the error says that it could not be
  -- restarted.
  pub install-recovers :
      (u : Updater) (version : String)
      → u.candidate ≡ some version
      → u.is_installing ≡ false
      → u.is_running ≡ true
      → reason_of p (blocked_now p p.environment_now u.install_blocked) ≡ none
      → ((install p u).1.status ≡ restarting) ⊎ IsRecovered (install p u).1
  unfolding install
  install-recovers u version candidate free running unblocked =
      from-Ends u.candidate version u.is_installing u.install_blocked u candidate free running
        unblocked
