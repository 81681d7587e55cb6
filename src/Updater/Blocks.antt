-- ===== src/Updater/Blocks.antt =====
-- frontend/src/hooks/useUpdater.ts: what blocks an installation.
use stagepilot_beta.Common.{String, Bool, true, false, Option, none, some, ◌≡◌, refl, str_eq}
use stagepilot_beta.Common.Exec.{Result, done, failed, step}
use stagepilot_beta.Updater.{
  update_error, Environment, unknown_environment, environment, Platform, Updater, modify,
}
use stagepilot_beta.Updater.Install.{blocked_now, refuse_install, begin, install_from}

-- The reason of a block: what the shell answers, or, where it fails or gives no answer, what is
-- remembered.
pub data Blocks (answer : Result String Environment) (remembered : Option String) (reason : String)
    : Type 0 where
  guided : answer ≡ done (environment true (some reason)) → Blocks answer remembered reason
  unguided :
      answer ≡ done (environment true none)
      → reason ≡ "StagePilot cannot install updates from its current location."
      → Blocks answer remembered reason
  unanswered :
      answer ≡ done unknown_environment → remembered ≡ some reason → Blocks answer remembered reason
  unreached :
      (e : String) → answer ≡ failed e → remembered ≡ some reason → Blocks answer remembered reason

pub blocked-Blocks :
    (p : Platform) (answer : Result String Environment) (remembered : Option String)
    (reason : String)
    → Blocks answer remembered reason
    → blocked_now p answer remembered ≡ some reason
blocked-Blocks p answer remembered reason (guided e) = rw e refl
blocked-Blocks p answer remembered reason (unguided e r) = rw (e, r) refl
blocked-Blocks p answer remembered reason (unanswered e r) = rw (e, r) refl
blocked-Blocks p answer remembered reason (unreached x e r) = rw (e, r) refl

-- The state that shows the reason and remembers it.
abbrev pub blocked_by : String → Updater → Updater
blocked_by reason u = record u {
  install_blocked = some reason;
  status = update_error;
  error = some reason;
  dialog_open = true;
  progress = none;
  blocked_reason = some reason;
}

pub from-blocked :
    (p : Platform) (o : Option String) (busy : Bool) (remembered : Option String)
    (version reason : String) (u : Updater)
    → o ≡ some version
    → busy ≡ false
    → blocked_now p p.environment_now remembered ≡ some reason
    → str_eq reason "" ≡ false
    → install_from p o busy remembered u ≡ (done tt, blocked_by reason u)
unfolding install_from begin refuse_install modify step
from-blocked p o busy remembered version reason u candidate free blocked text =
    rw (candidate, free, blocked, text) refl

pub refused-again :
    (q : Platform) (candidate : Option String) (version reason : String) (u : Updater)
    → candidate ≡ some version
    → u.is_installing ≡ false
    → Blocks q.environment_now (some reason) reason
    → str_eq reason "" ≡ false
    → install_from q candidate u.is_installing (some reason) (blocked_by reason u)
      ≡ (done tt, blocked_by reason u)
refused-again q o version reason u candidate free blocks text =
    from-blocked q o u.is_installing (some reason) version reason (blocked_by reason u) candidate
      free (blocked-Blocks q q.environment_now (some reason) reason blocks) text
