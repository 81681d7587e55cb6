-- ===== src/Cues/Proposals.antt =====
-- tools/multitracks-cues/src/agent/proposals.ts: the proposals of the agent. `digest` is the hash of
-- the canonical form of a plan; times are milliseconds.
pub mod Agent
pub mod Guarded
pub mod Proposing
use stagepilot_beta.Common.{
  ℕ, zero, suc, ◌+◌, ◌/◌, ◌%◌, leb, ◌==◌, String, Bool, true, false, Option, none, some, List, [],
  ◌∷◌, map, length, keep, Dict, lookup, insert, erase, ◌<>◌, if◌then◌else◌,
}
use stagepilot_beta.Common.Exec.{Result, done, failed}
use stagepilot_beta.Cues.Data.{TargetType, PlanOperation, CuePlanItem, CuePlan, Fault, plain_error}
use stagepilot_beta.Cues.Applier.{creates}
use stagepilot_beta.Cues.Plan.{ordinal_profile}

pub record ActionProposal : Type 0 where
  pub id : String
  pub created_at : ℕ
  pub expires_at : ℕ
  pub setlist_id : String
  pub positions : List ℕ
  pub plan_digest : String
  pub expected_operations : ℕ
  pub confirmation : String

pub record CanonicalItem : Type 0 where
  pub setlist_position : ℕ
  pub song_ordinal : Option ℕ
  pub velocity : Option ℕ
  pub target : TargetType
  pub target_id : Option String
  pub bank_id : Option String
  pub resolved_position : Option (Dict ℕ)
  pub operations : List PlanOperation

pub record CanonicalPlan : Type 0 where
  pub setlist_id : String
  pub cue_profile : String
  pub bus_id : String
  pub items : List CanonicalItem

unfoldable pub canonical_item : CuePlanItem → CanonicalItem
canonical_item item = record {
  setlist_position = item.setlist_position;
  song_ordinal = item.song_ordinal;
  velocity = item.velocity;
  target = item.target;
  target_id = item.target_id;
  bank_id = item.bank_id;
  resolved_position = item.resolved_position;
  operations = item.operations;
}

-- A plan is built for one profile only.
unfoldable pub canonical_plan : CuePlan → CanonicalPlan
unfolding canonical_item
canonical_plan plan = record {
  setlist_id = plan.setlist.id;
  cue_profile = ordinal_profile;
  bus_id = plan.bus_id;
  items = map canonical_item plan.items;
}

pub record Store : Type 0 where
  pub proposals : Dict ActionProposal
  pub latest : Option ActionProposal

abbrev pub digit_text : ℕ → String
digit_text d =
    if d == 0
    then "0"
    else if d == 1
    then "1"
    else if d == 2
    then "2"
    else if d == 3
    then "3"
    else if d == 4
    then "4"
    else if d == 5
    then "5"
    else if d == 6
    then "6"
    else if d == 7
    then "7"
    else if d == 8
    then "8"
    else "9"

unfoldable pub number_behind : (left n : ℕ) → String → String
number_behind zero n behind = behind
number_behind (suc left) n behind =
    let more = number_behind left (n / 10) (digit_text (n % 10) <> behind) in
    if n / 10 == 0 then digit_text (n % 10) <> behind else more

-- A number inside a text.
unfoldable pub number_text : ℕ → String
unfolding number_behind
number_text n = number_behind (suc n) n ""

unfoldable pub confirmation_of : String → List ℕ → String
unfolding number_text
confirmation_of setlist_id (position ∷ []) = "APPLY " <> setlist_id <> " " <> number_text position
confirmation_of setlist_id positions = "APPLY ALL " <> setlist_id

abbrev pub time_to_live : ℕ
time_to_live = 300000

module _ (digest : CanonicalPlan → String) where
  unfoldable pub digest_plan : CuePlan → String
  unfolding canonical_plan
  digest_plan plan = digest (canonical_plan plan)

  unfoldable pub proposal_of : CuePlan → List ℕ → String → ℕ → ActionProposal
  unfolding digest_plan confirmation_of
  proposal_of plan positions id now = record {
    id = id;
    created_at = now;
    expires_at = now + time_to_live;
    setlist_id = plan.setlist.id;
    positions = positions;
    plan_digest = digest_plan plan;
    expected_operations = length (keep creates plan.items);
    confirmation = confirmation_of plan.setlist.id positions;
  }

unfoldable pub store_proposal : ActionProposal → Store → Store
unfolding insert
store_proposal p store = record { proposals = insert p.id p store.proposals; latest = some p }

unfoldable pub invalidate : String → Store → Store
unfolding erase
invalidate id store = record store { proposals = erase id store.proposals }

abbrev pub unknown_proposal : Fault
unknown_proposal = plain_error "Unknown action proposal. Prepare a new proposal."

abbrev pub expired_proposal : Fault
expired_proposal = plain_error "Action proposal expired. Prepare a new proposal."

unfoldable pub get_found :
    String → ℕ → Option ActionProposal → Store → Result Fault ActionProposal × Store
unfolding invalidate
get_found id now none store = (failed unknown_proposal, store)
get_found id now (some p) store =
    if leb p.expires_at now then (failed expired_proposal, invalidate id store) else (done p, store)

unfoldable pub get_proposal : String → ℕ → Store → Result Fault ActionProposal × Store
unfolding get_found lookup
get_proposal id now store = get_found id now (lookup id store.proposals) store
