-- ===== src/Cues/Writes/Applying.antt =====
-- The calls that `applyCuePlan` makes.
use stagepilot_beta.Common.{
  ℕ, ◌≤◌, String, Option, none, some, List, [], ◌∷◌, All, Dict, ◌≡◌, refl, arith,
}
use stagepilot_beta.Common.Exec.{fail, step}
use stagepilot_beta.Common.Exec.Gives.{
  Gives, Gives-return, Gives-fail, Gives-if, Gives-bind, Gives-attempt,
}
use stagepilot_beta.Cues.Data.{
  library, cloud, ResolvedCue, CuePlanItem, CuePlan, plain_error, present,
}
use stagepilot_beta.Cues.Service
use stagepilot_beta.Cues.Service.{
  Call, Gateway, Desk, Task, ask, JournalOutcome, JournalEntry, record_entry, skipped,
  failed_outcome,
}
use stagepilot_beta.Cues.Applier.{
  creates, conclude, nonzero, planned_cue, send_library, send, apply_one, plan_again, read_back,
  write_item, reinspect, apply_item, apply_items, apply_safe, apply_cue_plan, first_item,
}
use stagepilot_beta.Cues.Writes.{
  IsPlanned, IsOrdinalCue, IsAllowed, Allowed, ask-Allowed, Within127,
}
use stagepilot_beta.Cues.Writes.Plans.{build-Allowed}

module _ (g : Gateway) (bus_id : String) where
  abbrev I : Desk → Type 0
  I d = Allowed g bus_id d

  journal-Gives : (entry : JournalEntry) → Gives I (record_entry entry) (λ _. Unit)
  unfolding record_entry step
  journal-Gives entry = record { run = λ d i. (i, tt) }

  conclude-Gives :
      (item : CuePlanItem) (outcome : JournalOutcome) (message : String) (event_id : Option String)
      → Gives I (conclude item outcome message event_id) (λ _. Unit)
  unfolding conclude
  conclude-Gives item outcome message event_id =
      Gives-bind _ _ (journal-Gives _) λ _ _. Gives-return _ tt

  abbrev OrdinalOrNone : Option ResolvedCue → Type 0
  OrdinalOrNone none = Unit
  OrdinalOrNone (some cue) = IsOrdinalCue cue

  built-OrdinalOrNone :
      (o v : Option ℕ) (position : Option (Dict ℕ))
      → ((m n : ℕ) → o ≡ some m → v ≡ some n → (n ≡ m) × ((1 ≤ n) × (n ≤ 127)))
      → OrdinalOrNone (planned_cue o v position)
  built-OrdinalOrNone none v position h = tt
  built-OrdinalOrNone (some m) none position h = tt
  built-OrdinalOrNone (some m) (some n) none h = tt
  built-OrdinalOrNone (some m) (some n) (some at) h =
      let (same, bounds) = h m n refl refl in
      record {
        on_channel = refl;
        on_note = refl;
        by_ordinal = same;
        least = bounds.0;
        most = bounds.1;
      }

  nonzero_lem : (o : Option ℕ) (n : ℕ) → nonzero o ≡ some n → (o ≡ some n) × (1 ≤ n)
  nonzero_lem none n e = ground (arith, e)
  nonzero_lem (some k) n e = ground (arith, e)

  within_of : (o : Option ℕ) (m : ℕ) → o ≡ some m → Within127 o → m ≤ 127
  within_of none m e h = ground (arith, e)
  within_of (some k) m e h = ground (arith, e, h)

  planned_cue-OrdinalOrNone :
      (ordinal velocity : Option ℕ) (position : Option (Dict ℕ))
      → Within127 ordinal
      → ((n : ℕ) → velocity ≡ some n → ordinal ≡ some n)
      → OrdinalOrNone (planned_cue (nonzero ordinal) (nonzero velocity) position)
  planned_cue-OrdinalOrNone ordinal velocity position within scaled =
      built-OrdinalOrNone (nonzero ordinal) (nonzero velocity) position λ m n em en.
        let (os, om) = nonzero_lem ordinal m em in
        let (vs, vm) = nonzero_lem velocity n en in
        let so = scaled n vs in (ground (arith, so, os), (vm, within_of ordinal n so within))

  library-Gives :
      (item : CuePlanItem) (cue : ResolvedCue) (o : Option String)
      → item.bus_id ≡ bus_id
      → IsOrdinalCue cue
      → Gives I (send_library g item cue o) (λ _. Unit)
  unfolding send_library
  library-Gives item cue none same h = Gives-fail _
  library-Gives item cue (some bank_id) same h = ask-Allowed g bus_id _ _ (same, h)

  send-Gives :
      (item : CuePlanItem) (o : Option ResolvedCue)
      → item.bus_id ≡ bus_id
      → OrdinalOrNone o
      → Gives I (send g item o) (λ _. Unit)
  unfolding send
  send-Gives item none same h = Gives-fail _
  send-Gives item (some cue) same h =
      elim item.target
        as (λ t.
          Gives I
            (elim t [
              | library ↦ send_library g item cue (present item.bank_id)
              | cloud ↦
                  ask (Service.create_cloud_event item.bus_id item.arrangement_id cue) g.created
              | _ ↦ fail (plain_error "Ambiguous target reached the apply boundary.")
            ])
            (λ _. Unit)) [
              | library ↦ library-Gives item cue _ same h
              | cloud ↦ ask-Allowed g bus_id _ _ (same, h)
              | _ ↦ Gives-fail _
            ]

  apply_one-Gives :
      (item : CuePlanItem) → IsPlanned bus_id item → Gives I (apply_one g item) (λ _. Unit)
  unfolding apply_one
  apply_one-Gives item planned = send-Gives item _ planned.on_bus (
      planned_cue-OrdinalOrNone item.song_ordinal item.velocity item.resolved_position
        planned.numbered planned.scaled)

  module _ (setlist_id profile : String) where
    abbrev PlannedOrNone : Option CuePlanItem → Type 0
    PlannedOrNone none = Unit
    PlannedOrNone (some item) = IsPlanned bus_id item

    first_item-PlannedOrNone :
        (items : List CuePlanItem) → All (IsPlanned bus_id) items → PlannedOrNone (first_item items)
    first_item-PlannedOrNone [] planned = tt
    first_item-PlannedOrNone (item ∷ items) planned = planned.0

    again-Gives :
        (item : CuePlanItem)
        → Gives I (plan_again g (some bus_id) setlist_id profile item) PlannedOrNone
    unfolding plan_again
    again-Gives item =
        Gives-bind _ _ (build-Allowed g bus_id setlist_id profile _)
          λ plan planned. Gives-return _ (first_item-PlannedOrNone plan.items planned)

    read_back-Gives :
        (item : CuePlanItem) (found missing : String)
        → Gives I (read_back g (some bus_id) setlist_id profile item found missing) (λ _. Unit)
    unfolding read_back
    read_back-Gives item found missing =
        Gives-bind _ _ (again-Gives item) λ again _. conclude-Gives item _ _ _

    write-Gives :
        (initial fresh : CuePlanItem)
        → IsPlanned bus_id fresh
        → Gives I (write_item g (some bus_id) setlist_id profile initial fresh) (λ _. Unit)
    unfolding write_item
    write-Gives initial fresh planned =
        Gives-attempt _ _ _ (apply_one-Gives fresh planned) (λ _ _. read_back-Gives initial _ _)
          (λ e. read_back-Gives initial _ _)

    reinspect-Gives :
        (initial : CuePlanItem) (o : Option CuePlanItem)
        → PlannedOrNone o
        → Gives I (reinspect g (some bus_id) setlist_id profile initial o) (λ _. Unit)
    unfolding reinspect
    reinspect-Gives initial none planned = conclude-Gives initial _ _ _
    reinspect-Gives initial (some fresh) planned =
        Gives-if (creates fresh) _ _ (λ _. write-Gives initial fresh planned)
          (λ _. conclude-Gives initial _ _ _)

    item-Gives :
        (initial : CuePlanItem)
        → Gives I (apply_item g (some bus_id) setlist_id profile initial) (λ _. Unit)
    unfolding apply_item
    item-Gives initial =
        Gives-if (creates initial) _ _
          (λ _.
            Gives-bind _ _ (again-Gives initial)
              λ fresh planned. reinspect-Gives initial fresh planned)
          (λ _. conclude-Gives initial _ _ _)

    items-Gives :
        (items : List CuePlanItem)
        → Gives I (apply_items g (some bus_id) setlist_id profile items) (λ _. Unit)
    unfolding apply_items
    items-Gives [] = Gives-return [] tt
    items-Gives (item ∷ items) =
        Gives-bind _ _ (item-Gives item)
          λ result _. Gives-bind _ _ (items-Gives items) λ results _. Gives-return _ tt

    safe-Gives :
        (plan : CuePlan) (o : Option CuePlanItem)
        → Gives I (apply_safe g (some bus_id) setlist_id profile plan o) (λ _. Unit)
    unfolding apply_safe
    safe-Gives plan (some item) = Gives-fail _
    safe-Gives plan none = Gives-bind _ _ (items-Gives plan.items) λ results _. Gives-return _ tt

    apply-Gives :
        (positions : Option (List ℕ))
        → Gives I (apply_cue_plan g (some bus_id) setlist_id profile positions) (λ _. Unit)
    unfolding apply_cue_plan
    apply-Gives positions =
        Gives-bind _ _ (build-Allowed g bus_id setlist_id profile positions)
          λ plan planned. safe-Gives plan _

-- Applying a plan calls the service to write nothing but ordinal cues, on channel 1, note 112, with
-- the ordinal as the velocity, from 1 to 127, and on the configured bus: if all calls made before
-- are so, all calls made after it are, whatever the service answers and at whatever step it fails.
pub apply-Allowed :
    (g : Gateway) (bus_id setlist_id profile : String) (positions : Option (List ℕ)) (d : Desk)
    → All (IsAllowed bus_id) d.log
    → All (IsAllowed bus_id) (apply_cue_plan g (some bus_id) setlist_id profile positions d).1.log
apply-Allowed g bus_id setlist_id profile positions d allowed =
    ((apply-Gives g bus_id setlist_id profile positions).run d allowed).0
