-- ===== src/Cues/Data.antt =====
-- tools/multitracks-cues/src: multitracks/models.ts and cues/models.ts. The fields `raw` and those
-- that only a report prints are left out; MIDI numbers and positions are natural numbers.
use stagepilot_beta.Common.{
  ℕ, String, Option, none, some, List, Bool, true, false, Dict, str_eq, ◌==◌, if◌then◌else◌,
}

pub data TargetType : Type 0 where
  library cloud ambiguous non_song : TargetType

pub record SetlistItem : Type 0 where
  pub position : ℕ
  pub title : String
  pub target : TargetType
  pub library_entry_id : Option String
  pub arrangement_id : Option String
  pub ambiguity : Option String

pub record Setlist : Type 0 where
  pub id : String
  pub name : String
  pub items : List SetlistItem

pub record MidiBus : Type 0 where
  pub id : String
  pub kind : Option String

pub record MidiBank : Type 0 where
  pub id : String
  pub name : String
  pub is_default : Option Bool

-- A position is an object of numbers, by their keys.
pub record MidiEvent : Type 0 where
  pub id : Option String
  pub bus_id : Option String
  pub channel : Option ℕ
  pub note : Option ℕ
  pub velocity : Option ℕ
  pub position : Option (Dict ℕ)
  pub malformed : Bool

pub record ResolvedCue : Type 0 where
  pub channel : ℕ
  pub note : ℕ
  pub velocity : ℕ
  pub position : Dict ℕ
  pub song_ordinal : ℕ

pub data PlanOperation : Type 0 where
  skip_non_song skip_already_present skip_ambiguous skip_conflict : PlanOperation
  create_library_event create_cloud_event error_operation : PlanOperation

pub record CuePlanItem : Type 0 where
  pub setlist_position : ℕ
  pub song_ordinal : Option ℕ
  pub velocity : Option ℕ
  pub song_title : String
  pub target : TargetType
  pub target_id : Option String
  pub library_id : Option String
  pub arrangement_id : Option String
  pub bank_id : Option String
  pub resolved_position : Option (Dict ℕ)
  pub bus_id : String
  pub bus_kind : Option String
  pub existing_event_id : Option String
  pub operations : List PlanOperation
  pub reason : String
  pub risk : Option String
  pub existing_banks : List MidiBank
  pub selected_bus_events : List MidiEvent

pub record CuePlan : Type 0 where
  pub setlist : Setlist
  pub items : List CuePlanItem
  pub bus_id : String
  pub bus_kind : Option String

-- `AmbiguityError` with its exit code, or another error, by the message.
pub data Fault : Type 0 where
  ambiguity_error : (message : String) (exit_code : ℕ) → Fault
  plain_error : (message : String) → Fault

-- Equality as `===` has it on values that may be undefined.
abbrev pub same_text : Option String → Option String → Bool
same_text none none = true
same_text none (some t) = false
same_text (some s) none = false
same_text (some s) (some t) = str_eq s t

abbrev pub same_number : Option ℕ → Option ℕ → Bool
same_number none none = true
same_number none (some b) = false
same_number (some a) none = false
same_number (some a) (some b) = a == b

-- An identifier that is truthy: present, and not the empty text.
abbrev pub present : Option String → Option String
present none = none
present (some s) = if str_eq s "" then none else some s
