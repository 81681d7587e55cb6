-- ===== src/Registry/Pending/Queue.antt =====
-- control-plane/src/index.ts: the queueing of a reset for an installation.
use stagepilot_beta.Common.{◌<>◌, String, false, none, some, lookup, lookup-insert_self, ◌≡◌}
use stagepilot_beta.Registry.Data.{World, Env, Installation, PendingAction, pending_action}
use stagepilot_beta.Registry.Action.{ok, pure, gets, modify, ◌>>=◌, load}
use stagepilot_beta.Registry.Replies.{reply, now_text}
use stagepilot_beta.Registry.Pending.{pending_action_of, queue_for, queue_found, queue_reset}

-- A reset that the operator queues for an installation that is not revoked and has none pending is
-- answered by 201, and queueing it again is answered by 200 with the same action and changes
-- nothing.
pub queue_reset_twice :
    (env : Env) (id : String) (i : Installation) (w : World)
    → lookup id w.installations ≡ some i
    → i.revoked ≡ false
    → lookup i.id w.pending ≡ none
    → (a : PendingAction) × (((queue_reset env id w).0 ≡ ok (reply 201 (pending_action a)))
        × (queue_reset env id (queue_reset env id w).1
            ≡ (ok (reply 200 (pending_action a)), (queue_reset env id w).1)))
unfolding queue_reset queue_found queue_for pending_action_of load gets ◌>>=◌ pure modify now_text
queue_reset_twice env id i w known here none_yet =
    let action : PendingAction = record {
      id = i.id <> ":rate_limit_reset:" <> env.random_id w.log w.moment 0;
      installation_id = i.id;
      requested_at = env.timestamp w.log w.moment;
    } in
    (
      action,
      (
        simp (known, here, none_yet),
        simp (known, here, none_yet, lookup-insert_self i.id action w.pending),
      ),
    )
