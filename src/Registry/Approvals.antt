-- ===== src/Registry/Approvals.antt =====
-- control-plane/src/index.ts: the requests of an installation for the operator's approval. A row's
-- key is the installation's id, a colon and the id of the request.
pub mod Final
use stagepilot_beta.Common.{
  ◌<>◌, ℕ, suc, ◌||◌, String, str_eq, Bool, true, false, [], ◌∷◌, any, keep, Option, none, some,
  or_else, insert, if◌then◌else◌,
}
use stagepilot_beta.Registry.Fleet.{Decision, pending, approved, denied, ApprovalRequest}
use stagepilot_beta.Registry.Forms.{Input, bounded_text}
use stagepilot_beta.Registry.Data.{Env, Installation, failure, approval, approvals, Response}
use stagepilot_beta.Registry.Action.{Action, ok, error, pure, throw, gets, modify, ◌>>=◌, ◌>>◌}
use stagepilot_beta.Registry.Replies.{reply, now_text}
use stagepilot_beta.Registry.Rows.{listed, find_row, with_prefix, values, sort_list}

-- `none` is a body that cannot be read.
unfoldable pub read_body : Option Input → Action Input
read_body none = throw (error "invalid request")
read_body (some input) = pure input

abbrev pub is_pending : Decision → Bool
is_pending pending = true
is_pending _ = false

abbrev pub decision_name : Decision → String
decision_name pending = "pending"
decision_name approved = "approved"
decision_name denied = "denied"

abbrev pub decision_of : Bool → Decision
decision_of true = approved
decision_of false = denied

abbrev pub approval_key : ApprovalRequest → String
approval_key a = a.installation_id <> ":" <> a.id

unfoldable pub put_approval : String → ApprovalRequest → Action (Unit {0})
unfolding modify insert
put_approval key a = modify (λ w. record w { approvals = insert key a w.approvals })

module _ (env : Env) where
  -- `randomHex`
  unfoldable pub draw : ℕ → Action String
  draw bytes w = (ok (env.random_hex bytes w.moment), record w { moment = suc w.moment })

  abbrev pub later_first : ApprovalRequest → ApprovalRequest → Bool
  later_first a b = env.locale_before b.updated_at a.updated_at

  unfoldable pub request_approval : Installation → Option String → Action Response
  request_approval i none = pure (reply 400 (failure "invalid request"))
  request_approval i (some reason) = do
    now ← now_text env
    suffix ← draw 8
    let fresh : ApprovalRequest = record {
      id = i.id <> ":" <> suffix;
      installation_id = i.id;
      reason = reason;
      status = pending;
      created_at = now;
      updated_at = now;
    }
    put_approval (approval_key fresh) fresh
    pure (reply 201 (approval fresh))

  unfoldable pub create_approval_request : Option Input → Installation → Action Response
  create_approval_request input i = do
    given ← read_body input
    request_approval i (bounded_text 1000 given.reason)

  unfoldable pub installation_approval_requests : Installation → Action Response
  installation_approval_requests i = do
    rows ← gets (λ w. with_prefix (i.id <> ":") (listed w.approvals))
    pure (reply 200 (approvals (sort_list later_first (values rows))))

  abbrev pub has_status : String → ApprovalRequest → Bool
  has_status filter a = str_eq filter "all" || str_eq (decision_name a.status) filter

  unfoldable pub admin_list_approval_requests : Option String → Action Response
  admin_list_approval_requests query =
      let filter = or_else query "pending" in
      if any (str_eq filter) ("pending" ∷ "approved" ∷ "denied" ∷ "all" ∷ [])
      then (do
        rows ← gets (λ w. listed w.approvals)
        pure (
            reply 200 (approvals (sort_list later_first (keep (has_status filter) (values rows))))))
      else pure (reply 400 (failure "invalid status filter"))

  unfoldable pub decide_found : Bool → Option (String × ApprovalRequest) → Action Response
  decide_found approves none = pure (reply 404 (failure "not found"))
  decide_found approves (some (key, a)) =
      if is_pending a.status
      then (do
        now ← now_text env
        let updated = record a { status = decision_of approves; updated_at = now }
        put_approval key updated
        pure (reply 200 (approval updated)))
      else pure (reply 409 (failure "already decided"))

  unfoldable pub decide_request : String → Option Bool → Action Response
  decide_request id none = pure (reply 400 (failure "invalid request"))
  decide_request id (some approves) = do
    found ← gets (λ w. find_row (λ a. str_eq a.id id) (listed w.approvals))
    decide_found approves found

  unfoldable pub admin_decide_approval_request : Option Input → String → Action Response
  admin_decide_approval_request input id = do
    given ← read_body input
    decide_request id given.approved
