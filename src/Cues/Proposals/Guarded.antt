-- ===== src/Cues/Proposals/Guarded.antt =====
-- What the tools that propose and the run of a proposal write.
use stagepilot_beta.Common.{
  ℕ, String, str_eq, Bool, true, false, ◌&&◌, Option, none, some, List, keep, All, ◌≡◌, refl, ◌∙◌,
  arith, Bool-cases, inl, inr,
}
use stagepilot_beta.Common.Exec.{Result, done, failed, return, fail, step, resume, ◌>>=◌}
use stagepilot_beta.Cues.Data.{CuePlan, Fault}
use stagepilot_beta.Cues.Plan.{ordinal_profile, build_cue_plan}
use stagepilot_beta.Cues.Applier.{ApplyResult}
use stagepilot_beta.Cues.Service.{Call, Gateway, Desk}
use stagepilot_beta.Cues.Writes.{is_write, IsAllowed}
use stagepilot_beta.Cues.Writes.Plans.{build-Gives, build-Allowed}
use stagepilot_beta.Cues.Writes.Applying.{apply-Allowed}
use stagepilot_beta.Cues.Proposals.{ActionProposal, digest_plan}
use stagepilot_beta.Cues.Proposals.Agent.{
  Host, Agent, on_desk, positions_for, discard, conclude_run, run_planned, run_latest, run_proposal,
}

-- The calls that write, latest first.
abbrev pub written : Desk → List Call
written d = keep is_write d.log

and-false : (a b : Bool) → a ≡ true → a && b ≡ false → b ≡ false
and-false a b t f = ground arith

module _ (host : Host) (g : Gateway) (bus_id : String) where
  pub build-Unwritten :
      (setlist_id profile : String) (positions : Option (List ℕ)) (d : Desk)
      → written (build_cue_plan g (some bus_id) setlist_id profile positions d).1 ≡ written d
  build-Unwritten setlist_id profile positions d =
      ((build-Gives g bus_id (λ after. written after ≡ written d)
          (λ call after reads same. rw reads same) setlist_id profile positions).run
        d refl).0

  abbrev goes_on : String → ActionProposal → Result Fault CuePlan → Bool
  goes_on typed p (failed e) = false
  goes_on typed p (done fresh) =
      str_eq (digest_plan host.digest fresh) p.plan_digest && str_eq typed p.confirmation

  -- The plan that the service gives now has the digest of the proposal, and its confirmation is
  -- typed.
  abbrev pub is_confirmed : String → Option ActionProposal → Desk → Bool
  is_confirmed typed none d = false
  is_confirmed typed (some p) d =
      goes_on typed p
        (build_cue_plan g (some bus_id) p.setlist_id ordinal_profile
          (positions_for host g (some bus_id) p) d).0

  other :
      (typed : String) (p : ActionProposal) (fresh : CuePlan)
      → str_eq (digest_plan host.digest fresh) p.plan_digest ≡ true
      → goes_on typed p (done fresh) ≡ false
      → str_eq typed p.confirmation ≡ false
  other typed p fresh same h = and-false _ _ same h

  planned-Unwritten :
      (typed : String) (p : ActionProposal) (fresh : CuePlan) (a : Agent)
      → goes_on typed p (done fresh) ≡ false
      → written (run_planned host g (some bus_id) typed p fresh a).1.desk ≡ written a.desk
  unfolding run_planned discard step return
  planned-Unwritten typed p fresh a h =
      elim (Bool-cases (str_eq (digest_plan host.digest fresh) p.plan_digest)) [
        | inl same ↦ rw (same, other typed p fresh same h) refl
        | inr changed ↦ rw changed refl
      ]

  resumed-Unwritten :
      (typed : String) (p : ActionProposal) (r : Result Fault CuePlan) (a : Agent)
      → goes_on typed p r ≡ false
      → written (resume (run_planned host g (some bus_id) typed p) r a).1.desk ≡ written a.desk
  unfolding resume
  resumed-Unwritten typed p (failed e) a h = refl
  resumed-Unwritten typed p (done fresh) a h = planned-Unwritten typed p fresh a h

  latest-Unwritten :
      (typed : String) (o : Option ActionProposal) (a : Agent)
      → is_confirmed typed o a.desk ≡ false
      → written (run_latest host g (some bus_id) typed o a).1.desk ≡ written a.desk
  unfolding run_latest on_desk step ◌>>=◌ return
  latest-Unwritten typed none a h = refl
  latest-Unwritten typed (some p) a h =
      resumed-Unwritten typed p _ (record a { desk = _ }) h ∙ build-Unwritten _ _ _ a.desk

  -- A run writes nothing unless the plan that the service gives now has the digest of the latest
  -- proposal and the operator types that proposal's confirmation: otherwise the calls that write are
  -- the ones made before.
  pub run-Unwritten :
      (typed : String) (a : Agent)
      → is_confirmed typed a.store.latest a.desk ≡ false
      → written (run_proposal host g (some bus_id) typed a).1.desk ≡ written a.desk
  unfolding run_proposal
  run-Unwritten typed a h = latest-Unwritten typed a.store.latest a h

  concluded-Allowed :
      (r : Result Fault ApplyResult) (a : Agent)
      → All (IsAllowed bus_id) a.desk.log
      → All (IsAllowed bus_id) (resume (conclude_run host g (some bus_id)) r a).1.desk.log
  unfolding resume conclude_run fail return
  concluded-Allowed (failed e) a h = h
  concluded-Allowed (done result) a h = elim (Bool-cases result.success) [
    | inl whole ↦ rw whole h
    | inr part ↦ rw part h
  ]

  planned-Allowed :
      (typed : String) (p : ActionProposal) (fresh : CuePlan) (a : Agent)
      → All (IsAllowed bus_id) a.desk.log
      → All (IsAllowed bus_id) (run_planned host g (some bus_id) typed p fresh a).1.desk.log
  unfolding run_planned discard step return on_desk ◌>>=◌ conclude_run
  planned-Allowed typed p fresh a h =
      elim (Bool-cases (str_eq (digest_plan host.digest fresh) p.plan_digest)) [
        | inl same ↦ elim (Bool-cases (str_eq typed p.confirmation)) [
          | inl confirmed ↦
              rw (same, confirmed)
                (concluded-Allowed _ _ (
                  apply-Allowed g bus_id p.setlist_id ordinal_profile
                    (positions_for host g (some bus_id) p) a.desk h))
          | inr not_typed ↦ rw (same, not_typed) h
        ]
        | inr changed ↦ rw changed h
      ]

  resumed-Allowed :
      (typed : String) (p : ActionProposal) (r : Result Fault CuePlan) (a : Agent)
      → All (IsAllowed bus_id) a.desk.log
      → All (IsAllowed bus_id) (resume (run_planned host g (some bus_id) typed p) r a).1.desk.log
  unfolding resume
  resumed-Allowed typed p (failed e) a h = h
  resumed-Allowed typed p (done fresh) a h = planned-Allowed typed p fresh a h

  latest-Allowed :
      (typed : String) (o : Option ActionProposal) (a : Agent)
      → All (IsAllowed bus_id) a.desk.log
      → All (IsAllowed bus_id) (run_latest host g (some bus_id) typed o a).1.desk.log
  unfolding run_latest on_desk step ◌>>=◌ return
  latest-Allowed typed none a h = h
  latest-Allowed typed (some p) a h =
      resumed-Allowed typed p _ (record a { desk = _ })
        ((build-Allowed g bus_id p.setlist_id ordinal_profile
            (positions_for host g (some bus_id) p)).run
          a.desk h).0

  -- Whatever is typed and whatever the service answers, if all calls made before read, or write an
  -- ordinal cue on the configured bus, so do all calls made after a run of a proposal.
  pub run-Allowed :
      (typed : String) (a : Agent)
      → All (IsAllowed bus_id) a.desk.log
      → All (IsAllowed bus_id) (run_proposal host g (some bus_id) typed a).1.desk.log
  unfolding run_proposal
  run-Allowed typed a h = latest-Allowed typed a.store.latest a h
