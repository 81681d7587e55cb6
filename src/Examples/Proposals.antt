-- ===== src/Examples/Proposals.antt =====
-- Proposals for a small setlist of one song and a header.
use stagepilot_beta.Common.{
  ◌≤◌, ◌<◌, [], ◌∷◌, Bool, true, false, none, some, ◌≡◌, refl, All, length, lookup,
}
use stagepilot_beta.Common.Exec.{Result, done, failed}
use stagepilot_beta.Cues.Data.{Fault}
use stagepilot_beta.Cues.Writes.{IsAllowed}
use stagepilot_beta.Cues.Proposals.{
  ActionProposal, Store, canonical_item, canonical_plan, number_behind, number_text,
  confirmation_of, digest_plan, proposal_of, store_proposal, invalidate, get_found, get_proposal,
  unknown_proposal, expired_proposal,
}
use stagepilot_beta.Cues.Proposals.Agent.{
  Host, Agent, AgentTask, RunOutcome, applied, on_desk, create, propose_one, propose_apply_one,
  propose_all, propose_apply_all, discard, conclude_run, run_planned, run_latest, run_proposal,
}
use stagepilot_beta.Cues.Proposals.Guarded.{written, run-Unwritten, run-Allowed}
use stagepilot_beta.Cues.Proposals.Proposing.{Ends, propose-Ends, get-expiry}
use stagepilot_beta.Examples.Cues.{desk_opened, gateway, empty_desk}

agent_opened : Unit {0}
unfolding desk_opened canonical_item canonical_plan number_behind number_text confirmation_of
    digest_plan proposal_of store_proposal invalidate get_found get_proposal on_desk create
    propose_one propose_apply_one propose_all propose_apply_all discard conclude_run run_planned
    run_latest run_proposal
agent_opened = tt

-- A hash that tells plans by the number of their items.
abbrev host : Host
host = record {
  digest = λ plan. number_text (length plan.items);
  random_id = λ d. "p1";
  now = λ d. 1000;
}

abbrev agent : Agent
agent = record { desk = empty_desk; store = record { proposals = []; latest = none } }

abbrev after : {A : Type 0} → AgentTask A → Agent
after m = (m agent).1

abbrev one_proposed : Agent
one_proposed = after (propose_apply_one host gateway (some "bus") "s1" 2)

abbrev all_proposed : Agent
all_proposed = after (propose_apply_all host gateway (some "bus") "s1")

abbrev is_applied : Result Fault RunOutcome → Bool
is_applied (done (applied result)) = result.success
is_applied _ = false

-- A proposal of one song is applied when its confirmation is typed, and writes once. A proposal of
-- the whole setlist in which one cue is missing is never applied: it is planned again for the one
-- song, and the header is gone from the plan.
run_tests :
    (is_applied (run_proposal host gateway (some "bus") "APPLY s1 2" one_proposed).0 ≡ true)
    × (length (written (run_proposal host gateway (some "bus") "APPLY s1 2" one_proposed).1.desk)
        ≡ 1)
    × (is_applied (run_proposal host gateway (some "bus") "APPLY s1 2" all_proposed).0 ≡ false)
    × (is_applied (run_proposal host gateway (some "bus") "APPLY ALL s1" all_proposed).0 ≡ false)
unfolding agent_opened
run_tests = (refl, refl, refl, refl)

-- The operator declines.
run-Unwritten_example :
    written (run_proposal host gateway (some "bus") "no" one_proposed).1.desk
    ≡ written one_proposed.desk
unfolding agent_opened
run-Unwritten_example = run-Unwritten host gateway "bus" "no" one_proposed refl

run-Allowed_example :
    All
      (IsAllowed "bus")
      (run_proposal host gateway (some "bus") "APPLY s1 2" one_proposed).1.desk.log
unfolding agent_opened
run-Allowed_example =
    run-Allowed host gateway "bus" "APPLY s1 2" one_proposed (tt, (tt, (tt, (tt, tt))))

propose-Ends_example :
    Ends (λ n. n ≡ 1) agent (propose_apply_one host gateway (some "bus") "s1" 2 agent)
    × Ends (λ n. 1 ≤ n) agent (propose_apply_all host gateway (some "bus") "s1" agent)
propose-Ends_example = propose-Ends host gateway "bus" "s1" 2 agent

abbrev proposal : ActionProposal
proposal = record {
  id = "p1";
  created_at = 1000;
  expires_at = 301000;
  setlist_id = "s1";
  positions = 2 ∷ [];
  plan_digest = "1";
  expected_operations = 1;
  confirmation = "APPLY s1 2";
}

abbrev store : Store
store = record { proposals = ("p1", proposal) ∷ []; latest = some proposal }

get-expiry_example :
    (301000 < 301000 → get_proposal "p1" 301000 store ≡ (done proposal, store))
    × (301000 ≤ 301000
        → ((get_proposal "p1" 301000 store).0 ≡ failed expired_proposal)
          × (get_proposal "p1" 301001 (get_proposal "p1" 301000 store).1
              ≡ (failed unknown_proposal, (get_proposal "p1" 301000 store).1)))
unfolding lookup
get-expiry_example = get-expiry "p1" 301000 301001 proposal store refl
