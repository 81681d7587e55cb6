-- ===== src/Cues/Proposals/Agent.antt =====
-- tools/multitracks-cues/src/agent/tools.ts and runner.ts: the tools that propose, and the run of a
-- proposal. `Host` holds the hash, the random identifiers and the clock.
use stagepilot_beta.Common.{
  ℕ, ◌==◌, String, str_eq, starts_with, Bool, true, false, not, ◌||◌, Option, none, some, List, [],
  ◌∷◌, any, map, keep, length, if◌then◌else◌,
}
use stagepilot_beta.Common.Exec.{done, failed, Exec, return, fail, step, ◌>>=◌}
use stagepilot_beta.Cues.Data.{CuePlanItem, CuePlan, Fault, plain_error}
use stagepilot_beta.Cues.Plan.{ordinal_profile, build_cue_plan}
use stagepilot_beta.Cues.Applier.{is_unsafe, creates, ApplyResult, apply_cue_plan}
use stagepilot_beta.Cues.Service.{Gateway, Desk, Task}
use stagepilot_beta.Cues.Proposals.{
  ActionProposal, CanonicalPlan, Store, digest_plan, proposal_of, store_proposal, invalidate,
}

pub record Host : Type 0 where
  pub digest : CanonicalPlan → String
  pub random_id : Desk → String
  pub now : Desk → ℕ

pub record Agent : Type 0 where
  pub desk : Desk
  pub store : Store

abbrev pub AgentTask : Type 0 → Type 0
AgentTask A = Exec Agent Fault A

-- The service's part of a step.
unfoldable pub on_desk : {A : Type 0} → Task A → AgentTask A
unfolding step
on_desk m = step (λ a. let (result, desk) = m a.desk in (result, record a { desk = desk }))

abbrev pub is_risky : CuePlanItem → Bool
is_risky item = any is_unsafe item.operations

abbrev pub is_none : List ℕ → Bool
is_none [] = true
is_none (_ ∷ _) = false

abbrev pub position_of : CuePlanItem → ℕ
position_of item = item.setlist_position

-- How a run ends without an error.
pub data RunOutcome : Type 0 where
  answered declined : RunOutcome
  applied : ApplyResult → RunOutcome

module _ (host : Host) (g : Gateway) (bus : Option String) where
  unfoldable pub create : CuePlan → List ℕ → AgentTask ActionProposal
  unfolding step proposal_of store_proposal
  create plan positions = step (λ a.
      let p = proposal_of host.digest plan positions (host.random_id a.desk) (host.now a.desk) in
      (done p, record a { store = store_proposal p a.store }))

  unfoldable pub propose_one : ℕ → CuePlan → AgentTask ActionProposal
  propose_one position plan =
      if not (length (keep creates plan.items) == 1) || any is_risky plan.items
      then fail (plain_error "Exactly one safe create operation was not available.")
      else create plan (position ∷ [])

  unfoldable pub propose_apply_one : String → ℕ → AgentTask ActionProposal
  propose_apply_one setlist_id position = do
    plan ← on_desk (build_cue_plan g bus setlist_id ordinal_profile (some (position ∷ [])))
    propose_one position plan

  unfoldable pub propose_all : CuePlan → AgentTask ActionProposal
  propose_all plan =
      if any is_risky plan.items
      then fail (plain_error "The full-setlist plan contains unresolved risks.")
      else if is_none (map position_of (keep creates plan.items))
      then fail (plain_error "The plan contains no missing cues to apply.")
      else create plan (map position_of (keep creates plan.items))

  unfoldable pub propose_apply_all : String → AgentTask ActionProposal
  propose_apply_all setlist_id = do
    plan ← on_desk (build_cue_plan g bus setlist_id ordinal_profile none)
    propose_all plan

  abbrev pub positions_for : ActionProposal → Option (List ℕ)
  positions_for p = if starts_with p.confirmation "APPLY ALL" then none else some p.positions

  unfoldable pub discard : {A : Type 0} → ActionProposal → AgentTask A
  unfolding step invalidate
  discard p = step (λ a. (
    failed (
        plain_error
          "The deterministic plan changed after proposal creation. Prepare a new proposal."),
    record a { store = invalidate p.id a.store },
  ))

  unfoldable pub conclude_run : ApplyResult → AgentTask RunOutcome
  conclude_run result =
      if not result.success
      then fail (plain_error "StagePilot could not verify every requested cue.")
      else return (applied result)

  -- `typed` is what the operator types at the question.
  unfoldable pub run_planned : String → ActionProposal → CuePlan → AgentTask RunOutcome
  unfolding digest_plan
  run_planned typed p fresh =
      if not (str_eq (digest_plan host.digest fresh) p.plan_digest)
      then discard p
      else if not (str_eq typed p.confirmation)
      then return declined
      else (do
        result ← on_desk (apply_cue_plan g bus p.setlist_id ordinal_profile (positions_for p))
        conclude_run result)

  unfoldable pub run_latest : String → Option ActionProposal → AgentTask RunOutcome
  run_latest typed none = return answered
  run_latest typed (some p) = do
    fresh ← on_desk (build_cue_plan g bus p.setlist_id ordinal_profile (positions_for p))
    run_planned typed p fresh

  unfoldable pub run_proposal : String → AgentTask RunOutcome
  run_proposal typed a = run_latest typed a.store.latest a
