-- ===== src/Examples/Cues.antt =====
-- Cues on a small setlist.
use stagepilot_beta.Common.{
  ℕ, List, [], ◌∷◌, Bool, true, false, Option, none, some, ◌≡◌, ◌↔◌, refl, All, leb, is_some,
  lookup,
}
use stagepilot_beta.Common.Exec.{
  Result, done, failed, return, fail, step, resume, ◌>>=◌, caught, attempt,
}
use stagepilot_beta.Cues.Data.{
  library, non_song, SetlistItem, MidiEvent, ResolvedCue, Fault, create_library_event, CuePlan,
}
use stagepilot_beta.Cues.Ordinals.{
  OrdinalAssignment, insert_by_position, sort_by_position, assign_from, assign_song_ordinals,
}
use stagepilot_beta.Cues.Ordinals.Numbers.{
  items_of, ordinals, count_up, count_songs, IsMatched, assign_song_ordinals-count,
}
use stagepilot_beta.Cues.Ordinals.Order.{IsOrdered, at_position}
use stagepilot_beta.Cues.Matching.{equal_position, expected_event, compare_event}
use stagepilot_beta.Cues.Banks.{tidy, is_default_name, resolve_default_bank}
use stagepilot_beta.Cues.Inspect.{
  RemoteEventScope, risk_of, base, exact_matches, has_conflict, occupies, occupied_outside,
  find_scope, decide,
}
use stagepilot_beta.Cues.Planner.{
  item_of, refused, cloud_scopes, bank_scopes, library_scopes, selected_scope, judge, inspect_bank,
  inspect_library, inspect_cloud,
}
use stagepilot_beta.Cues.Plan.{
  count_library, count_cloud, the_bus, validate_bus, unnumbered, plan_library, plan_cloud,
  plan_item, plan_items, plan_assigned, build_cue_plan,
}
use stagepilot_beta.Cues.Applier.{
  find_unsafe, conclude, send_library, send, apply_one, plan_again, read_back, write_item,
  reinspect, apply_item, apply_items, apply_safe, apply_cue_plan, ApplyResult,
}
use stagepilot_beta.Cues.Verifier.{
  says_multiple, count_item, summarize, is_success, verify_cue_plan, VerificationSummary,
}
use stagepilot_beta.Cues.Service
use stagepilot_beta.Cues.Service.{
  Call, Gateway, Desk, ask, given, resolve_cue, record_entry, Identity, CueTarget,
}
use stagepilot_beta.Cues.Writes.{IsAllowed}
use stagepilot_beta.Cues.Writes.Applying.{apply-Allowed}
use stagepilot_beta.Cues.Duplicates.{verify-duplicated}
use stagepilot_beta.Cues.Clear.{IsClear, decide-create}
use stagepilot_beta.Cues.Outside.{IsFreeElsewhere}

unfoldable pub desk_opened : Unit {0}
unfolding return fail step resume ◌>>=◌ caught attempt insert_by_position sort_by_position
    assign_from assign_song_ordinals equal_position expected_event compare_event tidy
    is_default_name resolve_default_bank risk_of base exact_matches has_conflict occupies
    occupied_outside find_scope decide item_of refused cloud_scopes bank_scopes library_scopes
    selected_scope judge inspect_bank inspect_library inspect_cloud count_library count_cloud
    the_bus validate_bus unnumbered plan_library plan_cloud plan_item plan_items plan_assigned
    build_cue_plan find_unsafe conclude send_library send apply_one plan_again read_back write_item
    reinspect apply_item apply_items apply_safe apply_cue_plan says_multiple count_item summarize
    is_success verify_cue_plan ask given resolve_cue record_entry lookup
desk_opened = tt

abbrev song : SetlistItem
song = record {
  position = 2;
  title = "Song";
  target = library;
  library_entry_id = some "lib";
  arrangement_id = none;
  ambiguity = none;
}

abbrev header_item : SetlistItem
header_item = record {
  position = 1;
  title = "Welcome";
  target = non_song;
  library_entry_id = none;
  arrangement_id = none;
  ambiguity = none;
}

abbrev cue_event : ResolvedCue → MidiEvent
cue_event cue = record {
  id = some "e1";
  bus_id = none;
  channel = some cue.channel;
  note = some cue.note;
  velocity = some cue.velocity;
  position = some cue.position;
  malformed = false;
}

-- The events that the writes of a log have left.
abbrev written : List Call → List MidiEvent
written [] = []
written (Service.create_library_event bus_id library_id bank_id cue ∷ log) =
    cue_event cue ∷ written log
written (_ ∷ log) = written log

abbrev pub gateway : Gateway
gateway = record {
  setlist = λ log id. done (record { id = id; name = "Sunday"; items = song ∷ header_item ∷ [] });
  buses = λ log. done (record { id = "bus"; kind = none } ∷ []);
  banks =
      λ log id. done (record { id = "bank"; name = " Default  MIDI Bank"; is_default = none } ∷ []);
  library_events = λ log library_id bank_id bus_id. done (written log);
  cloud_events = λ log id bus_id. done [];
  created = λ log. done tt;
  one_beat = λ target. done (("beat", 1) ∷ []);
  event_arguments = λ target identity bus_id cue. done (cue_event cue);
}

abbrev pub empty_desk : Desk
empty_desk = record { log = []; journal = [] }

succeeded : Result Fault ApplyResult → Option Bool
succeeded (done r) = some r.success
succeeded (failed e) = none

verified_count : Result Fault (CuePlan × VerificationSummary) → Option ℕ
verified_count (done r) = some r.1.verified
verified_count (failed e) = none

-- The cue is written once; a second run finds it and writes none.
apply_tests :
    (succeeded (apply_cue_plan gateway (some "bus") "s1" "setlist-ordinal-test" none empty_desk).0
      ≡ some true)
    × ((verified_count
            (verify_cue_plan gateway
              (some "bus")
              "s1"
              "setlist-ordinal-test"
              none
              (apply_cue_plan gateway (some "bus") "s1" "setlist-ordinal-test" none empty_desk).1).0
          ≡ some 1)
        × (succeeded
              (apply_cue_plan gateway (some "other") "s1" "setlist-ordinal-test" none empty_desk).0
            ≡ none))
unfolding desk_opened succeeded verified_count
apply_tests = (refl, (refl, refl))

apply-Allowed_example :
    All
      (IsAllowed "bus")
      (apply_cue_plan gateway (some "bus") "s1" "setlist-ordinal-test" none empty_desk).1.log
apply-Allowed_example = apply-Allowed gateway "bus" "s1" "setlist-ordinal-test" none empty_desk tt

abbrev nothing_verified : VerificationSummary
nothing_verified = record {
  verified = 0;
  missing = 1;
  conflicting = 0;
  duplicated = 0;
  skipped = 1;
}

abbrev seen_plan : Result Fault (CuePlan × VerificationSummary) → CuePlan
seen_plan (done r) = r.0
seen_plan (failed e) = record {
  setlist = record { id = ""; name = ""; items = [] };
  items = [];
  bus_id = "";
  bus_kind = none;
}

abbrev verified_first : Result Fault (CuePlan × VerificationSummary)
verified_first =
    (verify_cue_plan gateway (some "bus") "s1" "setlist-ordinal-test" none empty_desk).0

verify_returns : verified_first ≡ done (seen_plan verified_first, nothing_verified)
unfolding desk_opened
verify_returns = refl

verify-duplicated_example : nothing_verified.duplicated ≡ 0
verify-duplicated_example =
    verify-duplicated gateway "bus" "s1" "setlist-ordinal-test" none empty_desk
      (seen_plan verified_first) nothing_verified refl verify_returns

assign_song_ordinals-count_example :
    ((as' : List OrdinalAssignment)
      → assign_song_ordinals (song ∷ header_item ∷ []) ≡ some as'
      → IsOrdered (items_of as')
        × ((position : ℕ)
            → at_position position (items_of as') ≡ at_position position (song ∷ header_item ∷ []))
        × IsMatched as'
        × (ordinals as' ≡ count_up 1 (count_songs (song ∷ header_item ∷ []))))
    × (is_some (assign_song_ordinals (song ∷ header_item ∷ []))
        ≡ leb (count_songs (song ∷ header_item ∷ [])) 127)
assign_song_ordinals-count_example = assign_song_ordinals-count (song ∷ header_item ∷ [])

abbrev cue_1 : ResolvedCue
cue_1 = record {
  channel = 1;
  note = 112;
  velocity = 1;
  position = ("beat", 1) ∷ [];
  song_ordinal = 1;
}

-- The note of another song, on the same bus.
abbrev other_note : MidiEvent
other_note = record (cue_event cue_1) { note = some 60 }

abbrev elsewhere : List RemoteEventScope
elsewhere =
    record { bank = none; bus = record { id = "other"; kind = none }; events = other_note ∷ [] }
    ∷ []

decide-create_example :
    ((decide create_library_event "create" "outside"
        (exact_matches (expected_event (cue_event cue_1) "bus") "bus" (other_note ∷ []))
        (has_conflict (expected_event (cue_event cue_1) "bus") "bus" (other_note ∷ []))
        (occupied_outside none "bus" (expected_event (cue_event cue_1) "bus") elsewhere)).operation
      ≡ create_library_event)
    ↔ (All (IsClear "bus" (expected_event (cue_event cue_1) "bus")) (other_note ∷ [])
        × All (IsFreeElsewhere none "bus" (expected_event (cue_event cue_1) "bus")) elsewhere)
decide-create_example =
    decide-create create_library_event "create" "outside" (expected_event (cue_event cue_1) "bus")
      none "bus" (other_note ∷ []) elsewhere refl
