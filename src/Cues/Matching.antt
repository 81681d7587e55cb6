-- ===== src/Cues/Matching.antt =====
-- tools/multitracks-cues/src/cues/compare.ts: how an event on the service stands to the cue.
pub mod Meaning
use stagepilot_beta.Common.{
  ℕ, String, Bool, false, not, ◌&&◌, ◌||◌, Option, none, some, Dict, lookup, length, all, or_else,
  ◌==◌, if◌then◌else◌,
}
use stagepilot_beta.Cues.Data.{MidiEvent, same_text, same_number}

pub data EventMatch : Type 0 where
  exact conflict other_position unrelated malformed_event : EventMatch

abbrev pub has_number : Dict ℕ → String × ℕ → Bool
has_number other (key, value) = same_number (lookup key other) (some value)

-- The same keys with the same numbers; the keys of an object are distinct.
unfoldable pub equal_position : Option (Dict ℕ) → Option (Dict ℕ) → Bool
unfolding lookup
equal_position none right = false
equal_position (some left) none = false
equal_position (some left) (some right) = length left == length right && all (has_number right) left

-- The arguments of the create call, read as an event; the bus is implied where they name none.
unfoldable pub expected_event : MidiEvent → String → MidiEvent
expected_event arguments implied_bus_id = record arguments {
  bus_id = some (or_else arguments.bus_id implied_bus_id);
}

unfoldable pub compare_event : MidiEvent → MidiEvent → String → EventMatch
unfolding equal_position
compare_event actual expected implied_bus_id =
    if actual.malformed
    then malformed_event
    else if not (same_text (some (or_else actual.bus_id implied_bus_id)) expected.bus_id)
        || not (same_number actual.channel expected.channel)
        || not (same_number actual.note expected.note)
    then unrelated
    else if not (equal_position actual.position expected.position)
    then other_position
    else if same_number actual.velocity expected.velocity
    then exact
    else conflict
