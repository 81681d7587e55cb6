-- ===== src/Registry/Pending.antt =====
-- control-plane/src/index.ts: the actions that the operator queues for an installation. The
-- storage key of an action is made of the installation's id and of the one kind that there is, so
-- the dictionary is keyed by the id.
pub mod Queue
use stagepilot_beta.Common.{
  ◌<>◌, String, List, [], ◌∷◌, Option, none, some, insert, erase, lookup, str_eq, if◌then◌else◌,
}
use stagepilot_beta.Registry.Data.{
  Env, Installation, PendingAction, failure, pending_action, acknowledged, Response,
}
use stagepilot_beta.Registry.Action.{Action, pure, gets, modify, load, ◌>>=◌, ◌>>◌}
use stagepilot_beta.Registry.Replies.{reply, now_text}

unfoldable pub pending_action_of : String → Action (Option PendingAction)
pending_action_of id = gets (λ w. lookup id w.pending)

abbrev pub to_list : Option PendingAction → List PendingAction
to_list none = []
to_list (some a) = a ∷ []

unfoldable pub pending_actions : String → Action (List PendingAction)
pending_actions id = do found ← pending_action_of id; pure (to_list found)

module _ (env : Env) where
  unfoldable pub queue_for : Installation → Option PendingAction → Action Response
  queue_for i (some existing) = pure (reply 200 (pending_action existing))
  queue_for i none = do
    suffix ← gets (λ w. env.random_id w.log w.moment 0)
    at ← now_text env
    let action : PendingAction = record {
      id = i.id <> ":rate_limit_reset:" <> suffix;
      installation_id = i.id;
      requested_at = at;
    }
    modify (λ w. record w { pending = insert i.id action w.pending })
    pure (reply 201 (pending_action action))

  unfoldable pub queue_found : Option Installation → Action Response
  queue_found none = pure (reply 404 (failure "not found"))
  queue_found (some i) =
      if i.revoked
      then pure (reply 404 (failure "not found"))
      else (do existing ← pending_action_of i.id; queue_for i existing)

  unfoldable pub queue_reset : String → Action Response
  queue_reset id = do found ← load id; queue_found found

  unfoldable pub clear_found : Installation → String → Option PendingAction → Action Response
  clear_found i action_id none = pure (reply 404 (failure "not found"))
  clear_found i action_id (some action) =
      if str_eq action.id action_id
      then (do
        modify (λ w. record w { pending = erase i.id w.pending })
        pure (reply 200 (acknowledged action_id)))
      else pure (reply 404 (failure "not found"))

  unfoldable pub acknowledge_action : Installation → String → Action Response
  acknowledge_action i action_id = do found ← pending_action_of i.id; clear_found i action_id found
