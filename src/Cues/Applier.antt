-- ===== src/Cues/Applier.antt =====
-- tools/multitracks-cues/src/cues/applier.ts: the writing of the planned cues.
use stagepilot_beta.Common.{
  ◌<>◌, ℕ, ◌==◌, String, Bool, true, false, not, Option, none, some, List, [], ◌∷◌, any, all,
  if◌then◌else◌,
}
use stagepilot_beta.Common.Exec.{return, fail, ◌>>=◌, ◌>>◌, attempt}
use stagepilot_beta.Cues.Data.{
  library, cloud, ResolvedCue, PlanOperation, skip_non_song, skip_already_present, skip_ambiguous,
  skip_conflict, create_library_event, create_cloud_event, error_operation, CuePlanItem, CuePlan,
  Fault, ambiguity_error, plain_error, present,
}
use stagepilot_beta.Cues.Plan.{build_cue_plan}
use stagepilot_beta.Cues.Service
use stagepilot_beta.Cues.Service.{
  Gateway, Task, ask, JournalOutcome, verified, skipped, failed_outcome, JournalEntry, record_entry,
}

abbrev pub is_unsafe : PlanOperation → Bool
is_unsafe skip_ambiguous = true
is_unsafe skip_conflict = true
is_unsafe error_operation = true
is_unsafe _ = false

-- `startsWith("CREATE_")`
abbrev pub is_create : PlanOperation → Bool
is_create create_library_event = true
is_create create_cloud_event = true
is_create _ = false

abbrev pub is_present : PlanOperation → Bool
is_present skip_already_present = true
is_present _ = false

abbrev pub is_safe_skip : PlanOperation → Bool
is_safe_skip skip_non_song = true
is_safe_skip skip_already_present = true
is_safe_skip _ = false

abbrev pub creates : CuePlanItem → Bool
creates item = any is_create item.operations

unfoldable pub find_unsafe : List CuePlanItem → Option CuePlanItem
find_unsafe [] = none
find_unsafe (item ∷ items) = if any is_unsafe item.operations then some item else find_unsafe items

pub record ItemResult : Type 0 where
  pub setlist_position : ℕ
  pub song_title : String
  pub outcome : JournalOutcome
  pub message : String
  pub event_id : Option String

pub record ApplyResult : Type 0 where
  pub plan : CuePlan
  pub results : List ItemResult
  pub success : Bool

abbrev pub is_failed : JournalOutcome → Bool
is_failed failed_outcome = true
is_failed _ = false

abbrev pub first_item : List CuePlanItem → Option CuePlanItem
first_item [] = none
first_item (item ∷ items) = some item

abbrev pub is_found : Option CuePlanItem → Bool
is_found none = false
is_found (some item) = any is_present item.operations

abbrev pub found_event : Option CuePlanItem → Option String
found_event none = none
found_event (some item) = item.existing_event_id

abbrev pub outcome_of : Bool → JournalOutcome
outcome_of true = verified
outcome_of false = failed_outcome

abbrev pub text_of : Fault → String
text_of (ambiguity_error message exit_code) = message
text_of (plain_error message) = message

-- A result is reported, and written to the journal.
unfoldable pub conclude : CuePlanItem → JournalOutcome → String → Option String → Task ItemResult
conclude item outcome message event_id = do
  record_entry (record {
    setlist_position = item.setlist_position;
    target_id = item.target_id;
    outcome = outcome;
    message = message;
    event_id = event_id;
  })
  return (record {
    setlist_position = item.setlist_position;
    song_title = item.song_title;
    outcome = outcome;
    message = message;
    event_id = event_id;
  })

-- A number that is truthy: present, and not zero.
abbrev pub nonzero : Option ℕ → Option ℕ
nonzero none = none
nonzero (some n) = if n == 0 then none else some n

abbrev pub planned_cue : Option ℕ → Option ℕ → Option (List (String × ℕ)) → Option ResolvedCue
planned_cue (some song_ordinal) (some velocity) (some position) = some (record {
  channel = 1;
  note = 112;
  velocity = velocity;
  position = position;
  song_ordinal = song_ordinal;
})
planned_cue _ _ _ = none

module _ (g : Gateway) where
  unfoldable pub send_library : CuePlanItem → ResolvedCue → Option String → Task (Unit {0})
  send_library item cue none = fail (plain_error "No verified Default MIDI Bank ID is available.")
  send_library item cue (some bank_id) =
      ask (Service.create_library_event item.bus_id item.library_id bank_id cue) g.created

  unfoldable pub send : CuePlanItem → Option ResolvedCue → Task (Unit {0})
  send item none = fail (
      plain_error
        "The planned cue is missing its resolved ordinal, velocity, or one-beat position.")
  send item (some cue) = elim item.target [
    | library ↦ send_library item cue (present item.bank_id)
    | cloud ↦ ask (Service.create_cloud_event item.bus_id item.arrangement_id cue) g.created
    | _ ↦ fail (plain_error "Ambiguous target reached the apply boundary.")
  ]

  unfoldable pub apply_one : CuePlanItem → Task (Unit {0})
  apply_one item =
      send item
        (planned_cue (nonzero item.song_ordinal) (nonzero item.velocity) item.resolved_position)

module _ (g : Gateway) (selected_bus : Option String) (setlist_id profile : String) where
  unfoldable pub plan_again : CuePlanItem → Task (Option CuePlanItem)
  plan_again item = do
    plan ← build_cue_plan g selected_bus setlist_id profile (some (item.setlist_position ∷ []))
    return (first_item plan.items)

  -- What a plan made after the write says of the item.
  unfoldable pub read_back : CuePlanItem → String → String → Task ItemResult
  read_back item found_message missing_message = do
    again ← plan_again item
    conclude item (outcome_of (is_found again))
        (if is_found again then found_message else missing_message) (found_event again)

  unfoldable pub write_item : CuePlanItem → CuePlanItem → Task ItemResult
  write_item initial fresh =
      attempt (apply_one g fresh)
        (λ _.
          read_back initial "Created event was read back and verified."
            "Created event could not be verified by read-back.")
        (λ e.
          read_back initial
            "The create response was uncertain, but read-back proved the exact cue exists."
            ("Write failed and read-back did not prove creation: " <> text_of e))

  unfoldable pub reinspect : CuePlanItem → Option CuePlanItem → Task ItemResult
  reinspect initial none =
      conclude initial failed_outcome "The song disappeared during the fresh pre-write inspection."
        none
  reinspect initial (some fresh) =
      if creates fresh
      then write_item initial fresh
      else conclude initial (outcome_of (any is_present fresh.operations)) fresh.reason
          fresh.existing_event_id

  unfoldable pub apply_item : CuePlanItem → Task ItemResult
  apply_item initial =
      if creates initial
      then (do fresh ← plan_again initial; reinspect initial fresh)
      else conclude initial
          (if all is_safe_skip initial.operations then skipped else failed_outcome) initial.reason
          none

  unfoldable pub apply_items : List CuePlanItem → Task (List ItemResult)
  apply_items [] = return []
  apply_items (item ∷ items) = do
    result ← apply_item item
    results ← apply_items items
    return (result ∷ results)

  -- The message is shortened to the reason.
  unfoldable pub apply_safe : CuePlan → Option CuePlanItem → Task ApplyResult
  apply_safe plan (some item) = fail (ambiguity_error item.reason 5)
  apply_safe plan none = do
    results ← apply_items plan.items
    return (record {
      plan = plan;
      results = results;
      success = all (λ result. not (is_failed result.outcome)) results;
    })

  unfoldable pub apply_cue_plan : Option (List ℕ) → Task ApplyResult
  apply_cue_plan positions = do
    plan ← build_cue_plan g selected_bus setlist_id profile positions
    apply_safe plan (find_unsafe plan.items)
