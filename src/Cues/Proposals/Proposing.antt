-- ===== src/Cues/Proposals/Proposing.antt =====
-- What the tools that propose do to the store and to the service, and the expiry of proposals.
use stagepilot_beta.Common.{
  ℕ, ◌≤◌, ◌<◌, leb, ◌==◌, String, Bool, true, false, not, ◌||◌, Option, none, some, List, [], ◌∷◌,
  any, map, keep, length, lookup, lookup-erase, lookup-insert_self, eq_refl, ◌≡◌, refl, ◌∙◌, arith,
  if◌then◌else◌,
}
use stagepilot_beta.Common.Exec.{Result, done, failed, fail, step, resume, ◌>>=◌}
use stagepilot_beta.Cues.Data.{CuePlanItem, CuePlan, Fault}
use stagepilot_beta.Cues.Plan.{ordinal_profile, build_cue_plan}
use stagepilot_beta.Cues.Applier.{creates}
use stagepilot_beta.Cues.Service.{Gateway}
use stagepilot_beta.Cues.Proposals.{
  ActionProposal, Store, proposal_of, store_proposal, invalidate, get_proposal, get_found,
  unknown_proposal, expired_proposal,
}
use stagepilot_beta.Cues.Proposals.Agent.{
  Host, Agent, AgentTask, on_desk, is_risky, is_none, position_of, create, propose_one, propose_all,
  propose_apply_one, propose_apply_all,
}
use stagepilot_beta.Cues.Proposals.Guarded.{written, build-Unwritten}

-- A proposal that was made: the store knows it, and it expects so many operations.
abbrev pub Proposed : (ℕ → Type 0) → Result Fault ActionProposal → Agent → Type 0
Proposed Count (failed e) a = Unit
Proposed Count (done p) a =
    Count p.expected_operations
    × (a.store.latest ≡ some p)
    × (lookup p.id a.store.proposals ≡ some p)

-- An end of a proposing tool: the proposal as above, and the writes as before.
abbrev pub Ends : (ℕ → Type 0) → Agent → Result Fault ActionProposal × Agent → Type 0
Ends Count before (result, after) =
    Proposed Count result after × (written after.desk ≡ written before.desk)

Ends-if :
    (Count : ℕ → Type 0) (before a : Agent) (b : Bool) (m n : AgentTask ActionProposal)
    → (b ≡ true → Ends Count before (m a))
    → (b ≡ false → Ends Count before (n a))
    → Ends Count before ((if b then m else n) a)
Ends-if Count before a true m n hm hn = hm refl
Ends-if Count before a false m n hm hn = hn refl

filled-count :
    (items : List CuePlanItem) → is_none (map position_of items) ≡ false → 1 ≤ length items
filled-count [] h = ground arith
filled-count (item ∷ items) h = omega arith

single : (n : ℕ) (risky : Bool) → not (n == 1) || risky ≡ false → n ≡ 1
single n risky h = ground arith

module _ (host : Host) (g : Gateway) (bus_id : String) where
  create-Ends :
      (Count : ℕ → Type 0) (plan : CuePlan) (positions : List ℕ) (a : Agent)
      → Count (length (keep creates plan.items))
      → Ends Count a (create host g (some bus_id) plan positions a)
  unfolding create step proposal_of store_proposal
  create-Ends Count plan positions a counted =
      ((counted, refl, lookup-insert_self _ _ a.store.proposals), refl)

  one-Ends :
      (position : ℕ) (plan : CuePlan) (a : Agent)
      → Ends (λ n. n ≡ 1) a (propose_one host g (some bus_id) position plan a)
  unfolding propose_one fail
  one-Ends position plan a =
      Ends-if (λ n. n ≡ 1) a a
        (not (length (keep creates plan.items) == 1) || any is_risky plan.items) _ _
        (λ refused. (tt, refl))
        (λ safe. create-Ends (λ n. n ≡ 1) plan _ a (single _ (any is_risky plan.items) safe))

  all-Ends :
      (plan : CuePlan) (a : Agent) → Ends (λ n. 1 ≤ n) a (propose_all host g (some bus_id) plan a)
  unfolding propose_all fail
  all-Ends plan a =
      Ends-if (λ n. 1 ≤ n) a a (any is_risky plan.items) _ _ (λ refused. (tt, refl))
        (λ safe.
          Ends-if (λ n. 1 ≤ n) a a (is_none (map position_of (keep creates plan.items))) _ _
            (λ refused. (tt, refl))
            (λ filled.
              create-Ends (λ n. 1 ≤ n) plan _ a (filled-count (keep creates plan.items) filled)))

  -- A step after a plan that wrote nothing.
  resumed-Ends :
      (Count : ℕ → Type 0) (before : Agent) (f : CuePlan → AgentTask ActionProposal)
      (r : Result Fault CuePlan) (a : Agent)
      → ((plan : CuePlan) → Ends Count a (f plan a))
      → written a.desk ≡ written before.desk
      → Ends Count before (resume f r a)
  unfolding resume
  resumed-Ends Count before f (failed e) a h same = (tt, same)
  resumed-Ends Count before f (done plan) a h same = ((h plan).0, (h plan).1 ∙ same)

  desk-Ends :
      (Count : ℕ → Type 0) (setlist_id : String) (positions : Option (List ℕ))
      (f : CuePlan → AgentTask ActionProposal) (a : Agent)
      → ((plan : CuePlan) (after : Agent) → Ends Count after (f plan after))
      → Ends Count a
          ((on_desk (build_cue_plan g (some bus_id) setlist_id ordinal_profile positions) >>= f) a)
  unfolding on_desk step ◌>>=◌
  desk-Ends Count setlist_id positions f a h =
      let planned = build_cue_plan g (some bus_id) setlist_id ordinal_profile positions a.desk in
      let after = record a { desk = planned.1 } in
      resumed-Ends Count a f planned.0 after (λ plan. h plan after)
        (build-Unwritten host g bus_id setlist_id ordinal_profile positions a.desk)

  -- The tools that propose write nothing. A proposal that `propose_apply_one` gives expects one
  -- operation, one of `propose_apply_all` at least one, and each is stored by its identifier and
  -- is the latest.
  pub propose-Ends :
      (setlist_id : String) (position : ℕ) (a : Agent)
      → Ends (λ n. n ≡ 1) a (propose_apply_one host g (some bus_id) setlist_id position a)
        × Ends (λ n. 1 ≤ n) a (propose_apply_all host g (some bus_id) setlist_id a)
  unfolding propose_apply_one propose_apply_all
  propose-Ends setlist_id position a = (
    desk-Ends (λ n. n ≡ 1) setlist_id (some (position ∷ []))
        (propose_one host g (some bus_id) position) a (one-Ends position),
    desk-Ends (λ n. 1 ≤ n) setlist_id none (propose_all host g (some bus_id)) a all-Ends,
  )

late-leb : (expires now : ℕ) → expires ≤ now → leb expires now ≡ true
late-leb expires now h = ground arith

-- A stored proposal is given until it expires; asked for at its expiry or later it is refused and
-- forgotten, so that it is unknown whenever it is asked for again.
pub get-expiry :
    (id : String) (now later : ℕ) (p : ActionProposal) (store : Store)
    → lookup id store.proposals ≡ some p
    → (now < p.expires_at → get_proposal id now store ≡ (done p, store))
      × (p.expires_at ≤ now
          → ((get_proposal id now store).0 ≡ failed expired_proposal)
            × (get_proposal id later (get_proposal id now store).1
                ≡ (failed unknown_proposal, (get_proposal id now store).1)))
unfolding get_proposal get_found invalidate
get-expiry id now later p store there = (
  λ early. rw there (ground (arith, early)),
  λ late.
      rw (there, late-leb p.expires_at now late)
        (refl, rw (lookup-erase id id store.proposals, eq_refl id) refl),
)
