-- ===== src/Cues/Duplicates.antt =====
-- What `verifyCuePlan` counts as duplicated.
use stagepilot_beta.Common.{
  ℕ, String, true, false, Option, some, List, [], ◌∷◌, any, All, ◌≡◌, refl, arith,
}
use stagepilot_beta.Common.Exec.{Result, done, failed}
use stagepilot_beta.Common.Exec.Gives.{Gives, OnDone, Gives-return, Gives-bind}
use stagepilot_beta.Cues.Data.{CuePlanItem, CuePlan, Fault, PlanOperation}
use stagepilot_beta.Cues.Applier.{is_present}
use stagepilot_beta.Cues.Service.{Gateway, Desk}
use stagepilot_beta.Cues.Verifier.{
  says_multiple, VerificationSummary, nothing, count_item, summarize, verify_cue_plan,
}
use stagepilot_beta.Cues.Writes.{IsPlanned, IsAllowed, is_there}
use stagepilot_beta.Cues.Writes.Plans.{build-Allowed}

present_there : (ops : List PlanOperation) → any is_present ops ≡ any is_there ops
present_there [] = refl
present_there (op ∷ ops) = ground (arith, present_there ops)

single_reason : says_multiple "The exact ordinal cue already exists." ≡ false
unfolding says_multiple
single_reason = refl

module _ (bus_id : String) where
  not_multiple :
      (item : CuePlanItem)
      → IsPlanned bus_id item
      → any is_present item.operations ≡ true
      → says_multiple item.reason ≡ false
  not_multiple item planned there =
      let settled = planned.settled in
      let reason : item.reason ≡ "The exact ordinal cue already exists." =
        settled (rw⁻¹ (present_there item.operations) there) in
      rw reason single_reason

  count_item-duplicated :
      (item : CuePlanItem) (s : VerificationSummary)
      → IsPlanned bus_id item
      → (count_item item s).duplicated ≡ s.duplicated
  unfolding count_item
  count_item-duplicated item s planned = ground (arith, not_multiple item planned)

  summarize-duplicated :
      (items : List CuePlanItem) (s : VerificationSummary)
      → All (IsPlanned bus_id) items
      → (summarize items s).duplicated ≡ s.duplicated
  unfolding summarize
  summarize-duplicated [] s planned = refl
  summarize-duplicated (item ∷ items) s planned = ground (
    arith,
    summarize-duplicated items (count_item item s) planned.1,
    count_item-duplicated item s planned.0,
  )

module _ (g : Gateway) (bus_id setlist_id profile : String) (positions : Option (List ℕ)) where
  verify-Gives :
      Gives
        (λ d. All (IsAllowed bus_id) d.log)
        (verify_cue_plan g (some bus_id) setlist_id profile positions)
        (λ r. r.1.duplicated ≡ 0)
  unfolding verify_cue_plan
  verify-Gives =
      Gives-bind _ _ (build-Allowed g bus_id setlist_id profile positions)
        λ plan planned. Gives-return _ (summarize-duplicated bus_id plan.items nothing planned)

duplicated_of :
    (r : Result Fault (CuePlan × VerificationSummary)) (plan : CuePlan) (s : VerificationSummary)
    → OnDone (λ p. p.1.duplicated ≡ 0) r
    → r ≡ done (plan, s)
    → s.duplicated ≡ 0
duplicated_of (done p) plan s h e = ground (arith, h, e)
duplicated_of (failed fault) plan s h e = ground (arith, e)

-- The verification of a setlist for a configured bus counts no cue as duplicated, whatever events
-- the service has, when it starts with no calls made.
pub verify-duplicated :
    (g : Gateway) (bus_id setlist_id profile : String) (positions : Option (List ℕ)) (d : Desk)
    (plan : CuePlan) (s : VerificationSummary)
    → d.log ≡ []
    → (verify_cue_plan g (some bus_id) setlist_id profile positions d).0 ≡ done (plan, s)
    → s.duplicated ≡ 0
verify-duplicated g bus_id setlist_id profile positions d plan s fresh returned =
    let start : All (IsAllowed bus_id) d.log = rw fresh tt in
    duplicated_of _ plan s ((verify-Gives g bus_id setlist_id profile positions).run d start).1
      returned
