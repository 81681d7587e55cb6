-- ===== src/Registry/Approvals/Final.antt =====
-- control-plane/src/index.ts: the decisions of the operator on approval requests.
use stagepilot_beta.Common.{
  String, str_eq, Bool, true, false, Bool-cases, inl, inr, List, [], ◌∷◌, Option, none, some,
  lookup, lookup-insert, lookup-insert_self, eq_iff, ◌≡◌, refl, arith,
}
use stagepilot_beta.Registry.Fleet.{pending, approved, denied, ApprovalRequest}
use stagepilot_beta.Registry.Forms.{Input}
use stagepilot_beta.Registry.Data.{World, Env}
use stagepilot_beta.Registry.Action.{pure, throw, gets, modify, ◌>>=◌}
use stagepilot_beta.Registry.Replies.{now_text}
use stagepilot_beta.Registry.Rows.{listed, find_row}
use stagepilot_beta.Registry.Rows.Distinct.{
  IsDistinct, listed-IsDistinct, lookup-listed, insert-IsDistinct, find_row-lookup,
}
use stagepilot_beta.Registry.Approvals.{
  read_body, is_pending, decision_of, put_approval, decide_found, decide_request,
  admin_decide_approval_request,
}

abbrev pub has_id : String → ApprovalRequest → Bool
has_id id a = str_eq a.id id

module _ (env : Env) where
  -- The world after a series of decisions, each with its body and the id in its path.
  pub decide_all : List (Option Input × String) → World → World
  decide_all [] w = w
  decide_all ((input, id) ∷ rest) w =
      decide_all rest (admin_decide_approval_request env input id w).1

  -- The request after its decision, as it is computed and as it has to be.
  abbrev computed : Bool → World → ApprovalRequest → ApprovalRequest
  computed approves w a = record a {
    status = decision_of approves;
    updated_at = env.timestamp w.log w.moment;
  }

  abbrev pub decided : Bool → World → ApprovalRequest → ApprovalRequest
  decided true w a = record a { status = approved; updated_at = env.timestamp w.log w.moment }
  decided false w a = record a { status = denied; updated_at = env.timestamp w.log w.moment }

  computed-decided :
      (approves : Bool) (w : World) (a : ApprovalRequest)
      → computed approves w a ≡ decided approves w a
  computed-decided true w a = refl
  computed-decided false w a = refl

  module _ (key : String) (a : ApprovalRequest) (settled : is_pending a.status ≡ false) where
    -- The request is stored with its outcome.
    record IsSettled (w : World) : Type 0 where
      stored : lookup key w.approvals ≡ some a
      distinct : IsDistinct w.approvals

    found-IsSettled :
        (approves : Bool) (o : Option (String × ApprovalRequest)) (w : World)
        → ((k : String) (b : ApprovalRequest) → o ≡ some (k, b) → lookup k w.approvals ≡ some b)
        → IsSettled w
        → IsSettled (decide_found env approves o w).1
    unfolding decide_found pure put_approval modify now_text gets ◌>>=◌
    found-IsSettled approves none w known h = h
    found-IsSettled approves (some (k, b)) w known h = elim (Bool-cases (is_pending b.status)) [
      | inl open' ↦ rw open' (record {
        stored = ground (
          arith,
          lookup-insert k key (computed approves w b) w.approvals,
          eq_iff k key,
          known k b refl,
          h.stored,
          open',
          settled,
        );
        distinct = insert-IsDistinct k (computed approves w b) w.approvals h.distinct;
      })
      | inr decided ↦ rw decided h
    ]

    listed-lookup :
        (id k : String) (b : ApprovalRequest) (w : World)
        → IsDistinct w.approvals
        → find_row (has_id id) (listed w.approvals) ≡ some (k, b)
        → lookup k w.approvals ≡ some b
    listed-lookup id k b w d found = rw (← lookup-listed k w.approvals d) (
        find_row-lookup (has_id id) (listed w.approvals) k b (listed-IsDistinct w.approvals d)
          found)

    decide_request-IsSettled :
        (id : String) (o : Option Bool) (w : World)
        → IsSettled w
        → IsSettled (decide_request env id o w).1
    unfolding decide_request gets pure ◌>>=◌
    decide_request-IsSettled id none w h = h
    decide_request-IsSettled id (some approves) w h =
        found-IsSettled approves _ w (λ k b e. listed-lookup id k b w h.distinct e) h

    step-IsSettled :
        (input : Option Input) (id : String) (w : World)
        → IsSettled w
        → IsSettled (admin_decide_approval_request env input id w).1
    unfolding admin_decide_approval_request read_body pure throw ◌>>=◌
    step-IsSettled none id w h = h
    step-IsSettled (some given) id w h = decide_request-IsSettled id given.approved w h

    all-IsSettled :
        (ds : List (Option Input × String)) (w : World) → IsSettled w → IsSettled (decide_all ds w)
    unfolding decide_all
    all-IsSettled [] w h = h
    all-IsSettled ((input, id) ∷ rest) w h = all-IsSettled rest _ (step-IsSettled input id w h)

  decision-settled : (approves : Bool) → is_pending (decision_of approves) ≡ false
  decision-settled true = refl
  decision-settled false = refl

  -- Where an id names a pending request, the operator's decision on it is stored, and stays stored
  -- unchanged whatever decisions on whatever ids follow, if the keys of the storage differ.
  pub decide_final :
      (given : Input) (approves : Bool) (id key : String) (a : ApprovalRequest) (w : World)
      (later : List (Option Input × String))
      → IsDistinct w.approvals
      → given.approved ≡ some approves
      → find_row (has_id id) (listed w.approvals) ≡ some (key, a)
      → a.status ≡ pending
      → lookup key
          (decide_all later (admin_decide_approval_request env (some given) id w).1).approvals
        ≡ some (decided approves w a)
  unfolding admin_decide_approval_request read_body pure ◌>>=◌ decide_request decide_found gets
      put_approval modify now_text
  decide_final given approves id key a w later d says found waiting =
      let first : IsSettled key (computed approves w a) (decision-settled approves)
          (admin_decide_approval_request env (some given) id w).1 =
        simp (says, found, waiting)
          (record {
            stored = lookup-insert_self key _ w.approvals;
            distinct = insert-IsDistinct key _ w.approvals d;
          }) in
      rw⁻¹ (computed-decided approves w a)
        (all-IsSettled key (computed approves w a) (decision-settled approves) later _ first).stored
