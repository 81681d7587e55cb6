-- ===== src/Cues/Inspect.antt =====
-- tools/multitracks-cues/src/cues/planner.ts: `inspectLibrary` and `inspectCloud`, which compare
-- the cue of a song with the events on the service.
use stagepilot_beta.Common.{
  ℕ, String, Bool, true, false, not, ◌&&◌, ◌||◌, Option, none, some, List, [], ◌∷◌, keep, any,
  str_eq, if◌then◌else◌,
}
use stagepilot_beta.Cues.Data.{
  TargetType, library, SetlistItem, MidiBus, MidiBank, MidiEvent, ResolvedCue, PlanOperation,
  skip_already_present, skip_conflict, create_library_event, create_cloud_event, error_operation,
  CuePlanItem,
}
use stagepilot_beta.Cues.Matching.{
  EventMatch, exact, conflict, other_position, malformed_event, compare_event,
}

abbrev pub is_skip : PlanOperation → Bool
is_skip create_library_event = false
is_skip create_cloud_event = false
is_skip error_operation = false
is_skip _ = true

abbrev pub is_library : TargetType → Bool
is_library library = true
is_library _ = false

unfoldable pub risk_of : TargetType → List PlanOperation → String → Option String
risk_of target operations reason =
    if any is_skip operations
    then some reason
    else if is_library target
    then some
        "Velocity is stored on a reusable Library asset and is specific to this test setlist order."
    else none

abbrev pub cue_velocity : Option ResolvedCue → Option ℕ
cue_velocity none = none
cue_velocity (some cue) = some cue.velocity

abbrev pub cue_position : Option ResolvedCue → Option (List (String × ℕ))
cue_position none = none
cue_position (some cue) = some cue.position

abbrev pub first_text : Option String → Option String → Option String
first_text none b = b
first_text (some a) b = some a

unfoldable pub base :
    SetlistItem
    → MidiBus
    → Option ℕ
    → Option ResolvedCue
    → List PlanOperation
    → String
    → List MidiBank
    → CuePlanItem
unfolding risk_of
base item bus song_ordinal cue operations reason banks = record {
  setlist_position = item.position;
  song_ordinal = song_ordinal;
  velocity = cue_velocity cue;
  song_title = item.title;
  target = item.target;
  target_id = first_text item.library_entry_id item.arrangement_id;
  library_id = item.library_entry_id;
  arrangement_id = item.arrangement_id;
  bank_id = none;
  resolved_position = cue_position cue;
  bus_id = bus.id;
  bus_kind = bus.kind;
  existing_event_id = none;
  operations = operations;
  reason = reason;
  risk = risk_of item.target operations reason;
  existing_banks = banks;
  selected_bus_events = [];
}

-- The events of one bus, in one bank of a Library target.
pub record RemoteEventScope : Type 0 where
  pub bank : Option MidiBank
  pub bus : MidiBus
  pub events : List MidiEvent

abbrev pub is_exact : EventMatch → Bool
is_exact exact = true
is_exact _ = false

-- `["conflict", "other-position", "malformed"].includes`
abbrev pub is_blocking : EventMatch → Bool
is_blocking conflict = true
is_blocking other_position = true
is_blocking malformed_event = true
is_blocking _ = false

unfoldable pub exact_matches : MidiEvent → String → List MidiEvent → List MidiEvent
exact_matches expected bus_id events =
    keep (λ event. is_exact (compare_event event expected bus_id)) events

unfoldable pub has_conflict : MidiEvent → String → List MidiEvent → Bool
has_conflict expected bus_id events =
    any (λ event. is_blocking (compare_event event expected bus_id)) events

-- The exact cue, or a malformed event, on a bus that is not the selected one.
unfoldable pub occupies : MidiEvent → RemoteEventScope → Bool
occupies expected scope =
    any
      (λ event.
        event.malformed
        || is_exact
            (compare_event event (record expected { bus_id = some scope.bus.id }) scope.bus.id))
      scope.events

abbrev pub is_bank : String → Option MidiBank → Bool
is_bank id none = false
is_bank id (some bank) = str_eq bank.id id

abbrev pub in_scope : Option String → String → RemoteEventScope → Bool
in_scope none bus_id scope = str_eq scope.bus.id bus_id
in_scope (some bank_id) bus_id scope = is_bank bank_id scope.bank && str_eq scope.bus.id bus_id

unfoldable pub occupied_outside : Option String → String → MidiEvent → List RemoteEventScope → Bool
unfolding occupies
occupied_outside bank_id bus_id expected scopes =
    any (λ scope. not (in_scope bank_id bus_id scope) && occupies expected scope) scopes

unfoldable pub find_scope : Option String → String → List RemoteEventScope → Option RemoteEventScope
find_scope bank_id bus_id [] = none
find_scope bank_id bus_id (scope ∷ scopes) =
    if in_scope bank_id bus_id scope then some scope else find_scope bank_id bus_id scopes

-- What the comparison asks for: the operation, the reason and the event that is there.
pub record Verdict : Type 0 where
  pub operation : PlanOperation
  pub reason : String
  pub event_id : Option String

unfoldable pub decide : PlanOperation → String → String → List MidiEvent → Bool → Bool → Verdict
decide create create_reason outside_reason (event ∷ _ ∷ _) conflicting outside = record {
  operation = skip_conflict;
  reason = "Multiple exact ordinal cues already exist.";
  event_id = event.id;
}
decide create create_reason outside_reason (event ∷ []) conflicting outside = record {
  operation = skip_already_present;
  reason = "The exact ordinal cue already exists.";
  event_id = event.id;
}
decide create create_reason outside_reason [] conflicting outside =
    if conflicting || outside
    then record {
      operation = skip_conflict;
      reason =
          if outside
          then outside_reason
          else "An existing E7 cue conflicts in velocity, position, or shape.";
      event_id = none;
    }
    else record { operation = create; reason = create_reason; event_id = none }
