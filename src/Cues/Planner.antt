-- ===== src/Cues/Planner.antt =====
-- tools/multitracks-cues/src/cues/planner.ts: what to do for each item of a setlist.
use stagepilot_beta.Common.{String, Option, none, some, List, [], ◌∷◌, ◌++◌}
use stagepilot_beta.Common.Exec.{return, fail, ◌>>=◌}
use stagepilot_beta.Cues.Data.{
  SetlistItem, MidiBus, MidiBank, MidiEvent, ResolvedCue, PlanOperation, skip_ambiguous,
  create_library_event, create_cloud_event, CuePlanItem, plain_error,
}
use stagepilot_beta.Cues.Matching.{expected_event}
use stagepilot_beta.Cues.Banks.{resolve_default_bank}
use stagepilot_beta.Cues.Inspect.{
  base, RemoteEventScope, exact_matches, has_conflict, occupied_outside, find_scope, Verdict,
  decide,
}
use stagepilot_beta.Cues.Service.{
  CueTarget, library_cue, cloud_cue, Identity, Gateway, Task, ask, given, list_banks,
  list_library_events, list_cloud_events,
}

-- `libraryItem` and `cloudItem`, by the bank that the first has.
unfoldable pub item_of :
    SetlistItem → MidiBus → Option MidiBank → List MidiEvent → ResolvedCue → Verdict → CuePlanItem
unfolding base
item_of item bus none events cue v =
    record (base item bus (some cue.song_ordinal) (some cue) (v.operation ∷ []) v.reason []) {
      selected_bus_events = events;
      existing_event_id = v.event_id;
    }
item_of item bus (some bank) events cue v =
    record (base item bus (some cue.song_ordinal) (some cue) (v.operation ∷ []) v.reason
      (bank ∷ [])) {
        bank_id = some bank.id;
        selected_bus_events = events;
        existing_event_id = v.event_id;
      }

unfoldable pub refused : SetlistItem → MidiBus → ResolvedCue → String → List MidiBank → CuePlanItem
unfolding base
refused item bus cue reason banks =
    base item bus (some cue.song_ordinal) (some cue) (skip_ambiguous ∷ []) reason banks

module _ (g : Gateway) where
  unfoldable pub cloud_scopes : String → List MidiBus → Task (List RemoteEventScope)
  cloud_scopes arrangement [] = return []
  cloud_scopes arrangement (bus ∷ buses) = do
    events ←
        ask (list_cloud_events arrangement bus.id) (λ log. g.cloud_events log arrangement bus.id)
    rest ← cloud_scopes arrangement buses
    return (record { bank = none; bus = bus; events = events } ∷ rest)

  unfoldable pub bank_scopes : String → MidiBank → List MidiBus → Task (List RemoteEventScope)
  bank_scopes library_id bank [] = return []
  bank_scopes library_id bank (bus ∷ buses) = do
    events ←
        ask (list_library_events library_id bank.id bus.id)
          (λ log. g.library_events log library_id bank.id bus.id)
    rest ← bank_scopes library_id bank buses
    return (record { bank = some bank; bus = bus; events = events } ∷ rest)

  unfoldable pub library_scopes :
      String → List MidiBank → List MidiBus → Task (List RemoteEventScope)
  library_scopes library_id [] buses = return []
  library_scopes library_id (bank ∷ banks) buses = do
    scopes ← bank_scopes library_id bank buses
    rest ← library_scopes library_id banks buses
    return (scopes ++ rest)

  -- `scopes.find(...)!`
  unfoldable pub selected_scope : Option RemoteEventScope → Task RemoteEventScope
  selected_scope none = fail (plain_error "undefined")
  selected_scope (some scope) = return scope

  unfoldable pub judge :
      CueTarget
      → Identity
      → SetlistItem
      → MidiBus
      → Option MidiBank
      → Option String
      → PlanOperation
      → String
      → String
      → ResolvedCue
      → List RemoteEventScope
      → Task CuePlanItem
  judge target identity item bus bank bank_id create create_reason outside_reason cue scopes = do
    arguments ← given (g.event_arguments target identity bus.id cue)
    let expected = expected_event arguments bus.id
    selected ← selected_scope (find_scope bank_id bus.id scopes)
    let verdict =
        decide create create_reason outside_reason (exact_matches expected bus.id selected.events)
          (has_conflict expected bus.id selected.events)
          (occupied_outside bank_id bus.id expected scopes)
    return (item_of item bus bank selected.events cue verdict)

  unfoldable pub inspect_bank :
      String
      → SetlistItem
      → MidiBus
      → List MidiBus
      → ResolvedCue
      → List MidiBank
      → Option MidiBank
      → Task CuePlanItem
  inspect_bank library_id item bus buses cue banks none = return (
      refused item bus cue
        "The existing Default MIDI Bank is missing or ambiguous; no bank will be created." banks)
  inspect_bank library_id item bus buses cue banks (some bank) = do
    scopes ← library_scopes library_id banks buses
    judge library_cue
        (record {
          library_entry_id = some library_id;
          bank_id = some bank.id;
          arrangement_id = none;
        })
        item bus (some bank) (some bank.id) create_library_event
        "Create the ordinal cue in the existing Default MIDI Bank."
        "An exact cue exists in another bank or on another bus." cue scopes

  unfoldable pub inspect_library :
      SetlistItem → MidiBus → List MidiBus → ResolvedCue → Option String → Task CuePlanItem
  inspect_library item bus buses cue none =
      return (refused item bus cue "Library target has no stable library entry ID." [])
  inspect_library item bus buses cue (some library_id) = do
    banks ← ask (list_banks library_id) (λ log. g.banks log library_id)
    inspect_bank library_id item bus buses cue banks (resolve_default_bank banks)

  unfoldable pub inspect_cloud :
      SetlistItem → MidiBus → List MidiBus → ResolvedCue → Option String → Task CuePlanItem
  inspect_cloud item bus buses cue none =
      return (refused item bus cue "Cloud target has no writable arrangement ID." [])
  inspect_cloud item bus buses cue (some arrangement) = do
    scopes ← cloud_scopes arrangement buses
    judge cloud_cue
        (record { library_entry_id = none; bank_id = none; arrangement_id = some arrangement }) item
        bus none none create_cloud_event "Create the ordinal cue on the proven Cloud Arrangement."
        "An exact cue exists on another bus." cue scopes
