-- ===== src/Cues/Service.antt =====
-- tools/multitracks-cues/src/multitracks/gateway.ts: the gateway to the cue service as an
-- interface. The service answers as it will, by the calls that were made before, latest first.
use stagepilot_beta.Common.{ℕ, String, List, ◌∷◌, Option, Dict}
use stagepilot_beta.Common.Exec.{Result, done, failed, Exec, return, fail, step, ◌>>=◌}
use stagepilot_beta.Cues.Data.{Setlist, MidiBus, MidiBank, MidiEvent, ResolvedCue, Fault}

pub data Call : Type 0 where
  get_setlist : (setlist_id : String) → Call
  list_buses : Call
  list_banks : (library_id : String) → Call
  list_library_events : (library_id bank_id bus_id : String) → Call
  list_cloud_events : (arrangement_id bus_id : String) → Call
  create_library_event : (bus_id : String) → Option String → (bank_id : String) → ResolvedCue → Call
  create_cloud_event : (bus_id : String) → Option String → ResolvedCue → Call

pub data CueTarget : Type 0 where
  library_cue cloud_cue : CueTarget

-- What an event is attached to; the fields that a call does not send are `none`.
pub record Identity : Type 0 where
  pub library_entry_id : Option String
  pub bank_id : Option String
  pub arrangement_id : Option String

pub record Gateway : Type 0 where
  pub setlist : List Call → String → Result Fault Setlist
  pub buses : List Call → Result Fault (List MidiBus)
  pub banks : List Call → String → Result Fault (List MidiBank)
  pub library_events : List Call → String → String → String → Result Fault (List MidiEvent)
  pub cloud_events : List Call → String → String → Result Fault (List MidiEvent)
  pub created : List Call → Result Fault (Unit {0})
  pub one_beat : CueTarget → Result Fault (Dict ℕ)
  pub event_arguments : CueTarget → Identity → String → ResolvedCue → Result Fault MidiEvent

pub data JournalOutcome : Type 0 where
  verified skipped failed_outcome : JournalOutcome

pub record JournalEntry : Type 0 where
  pub setlist_position : ℕ
  pub target_id : Option String
  pub outcome : JournalOutcome
  pub message : String
  pub event_id : Option String

-- The calls made so far and the journal, both latest first.
pub record Desk : Type 0 where
  pub log : List Call
  pub journal : List JournalEntry

abbrev pub Task : Type 0 → Type 0
Task A = Exec Desk Fault A

unfoldable pub ask : {A : Type 0} → Call → (List Call → Result Fault A) → Task A
unfolding step
ask call answer = step (λ d. (answer d.log, record d { log = call ∷ d.log }))

unfoldable pub given : {A : Type 0} → Result Fault A → Task A
unfolding return fail
given (done a) = return a
given (failed e) = fail e

-- The first number that the one-beat position is for: `resolveCue`.
unfoldable pub resolve_cue : Gateway → CueTarget → ℕ → Task ResolvedCue
resolve_cue g target song_ordinal = do
  position ← given (g.one_beat target)
  return (record {
    channel = 1;
    note = 112;
    velocity = song_ordinal;
    position = position;
    song_ordinal = song_ordinal;
  })

unfoldable pub record_entry : JournalEntry → Task (Unit {0})
unfolding step
record_entry entry = step (λ d. (done tt, record d { journal = entry ∷ d.journal }))
