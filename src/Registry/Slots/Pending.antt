-- ===== src/Registry/Slots/Pending.antt =====
-- The slots across the actions that the operator queues.
use stagepilot_beta.Common.{ℕ, String, Option, none, some, insert, erase, str_eq, Dict}
use stagepilot_beta.Registry.Data.{World, Env, Installation, PendingAction}
use stagepilot_beta.Registry.Action.{load, modify}
use stagepilot_beta.Registry.Pending.{
  pending_action_of, queue_for, queue_found, queue_reset, clear_found, acknowledge_action,
}
use stagepilot_beta.Registry.Rules.Basic.{Keeps, Keeps-pure, Keeps-gets, Keeps-if, Keeps-bind}
use stagepilot_beta.Registry.Slots.Invariant.{IsSound}
use stagepilot_beta.Registry.Slots.Revoking.{now_text-Keeps}

module _ (env : Env) where
  abbrev limit : ℕ
  limit = env.installation_limit

  pending-IsSound :
      (f : World → Dict PendingAction)
      → Keeps (IsSound limit 0) (modify (λ w. record w { pending = f w }))
  unfolding modify
  pending-IsSound f = record {
    at = λ w s. record {
      counter = s.counter;
      stored = s.stored;
      covered = s.covered;
      bounded = s.bounded;
      keyed = s.keyed;
    };
  }

  pending_action_of-Keeps : (P : World → Type 0) (id : String) → Keeps P (pending_action_of id)
  unfolding pending_action_of
  pending_action_of-Keeps P id = Keeps-gets _

  clear-Keeps :
      (i : Installation) (id : String) (o : Option PendingAction)
      → Keeps (IsSound limit 0) (clear_found env i id o)
  unfolding clear_found
  clear-Keeps i id none = Keeps-pure _
  clear-Keeps i id (some a) =
      Keeps-if (str_eq a.id id) _ _
        (Keeps-bind _ _ (pending-IsSound (λ w. erase i.id w.pending)) (λ _. Keeps-pure _))
        (Keeps-pure _)

  queue_for-Keeps :
      (i : Installation) (o : Option PendingAction) → Keeps (IsSound limit 0) (queue_for env i o)
  unfolding queue_for
  queue_for-Keeps i (some a) = Keeps-pure _
  queue_for-Keeps i none = Keeps-bind _ _ (Keeps-gets _) λ suffix.
      Keeps-bind _ _ (now_text-Keeps env _)
        λ at. Keeps-bind _ _ (pending-IsSound (λ w. insert i.id _ w.pending)) (λ _. Keeps-pure _)

  queue_found-Keeps : (o : Option Installation) → Keeps (IsSound limit 0) (queue_found env o)
  unfolding queue_found
  queue_found-Keeps none = Keeps-pure _
  queue_found-Keeps (some i) =
      Keeps-if i.revoked _ _ (Keeps-pure _)
        (Keeps-bind _ _ (pending_action_of-Keeps _ i.id) (queue_for-Keeps i))

  load-Keeps : (id : String) → Keeps (IsSound limit 0) (load id)
  unfolding load
  load-Keeps id = Keeps-gets _

  pub acknowledge-Keeps :
      (i : Installation) (id : String) → Keeps (IsSound limit 0) (acknowledge_action env i id)
  unfolding acknowledge_action
  acknowledge-Keeps i id = Keeps-bind _ _ (pending_action_of-Keeps _ i.id) (clear-Keeps i id)

  pub queue-Keeps : (id : String) → Keeps (IsSound limit 0) (queue_reset env id)
  unfolding queue_reset
  queue-Keeps id = Keeps-bind _ _ (load-Keeps id) queue_found-Keeps
