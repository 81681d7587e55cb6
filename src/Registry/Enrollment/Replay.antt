-- ===== src/Registry/Enrollment/Replay.antt =====
-- control-plane/src/index.ts: an enrolment that is asked for again.
use stagepilot_beta.Common.{String, false, some, lookup, ◌≡◌}
use stagepilot_beta.Registry.Sources.{Text}
use stagepilot_beta.Registry.Forms.{Input, enrollment_key}
use stagepilot_beta.Registry.Device.{apply_device_name}
use stagepilot_beta.Registry.Data.{World, Env, Installation, with_credential}
use stagepilot_beta.Registry.Action.{ok, pure, gets, load, ◌>>=◌}
use stagepilot_beta.Registry.Replies.{public_installation, reply, credential_of}
use stagepilot_beta.Registry.Approvals.{read_body}
use stagepilot_beta.Registry.Provision.{note_device}
use stagepilot_beta.Registry.Enrollment.{enrolled, find_enrolled, admit_enrolled, enroll_as, enroll}

module _ (env : Env) where
  -- Enrolling again with the nonce of an installation that is not revoked, and with no new device
  -- name, is answered by 201 with that installation and its current credential, from any address,
  -- and changes nothing: no quota is charged and no slot is taken.
  pub enroll_replay :
      (address : Text) (given : Input) (nonce id : String) (i : Installation) (w : World)
      → enrollment_key given ≡ some nonce
      → lookup nonce w.enrollments ≡ some id
      → lookup id w.installations ≡ some i
      → i.revoked ≡ false
      → (apply_device_name i given.device_name).1 ≡ false
      → enroll env address (some given) w
        ≡ (ok (reply 201 (with_credential (public_installation i) (credential_of env i))), w)
  unfolding enroll read_body enroll_as find_enrolled enrolled admit_enrolled note_device load pure
      gets ◌>>=◌
  enroll_replay address given nonce id i w valid known stored live same =
      simp (valid, known, stored, live, same)
