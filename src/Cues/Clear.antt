-- ===== src/Cues/Clear.antt =====
-- When the comparison with the service's events asks for a new cue.
use stagepilot_beta.Common.{
  String, Bool, true, false, Option, List, [], ◌∷◌, All, ◌≡◌, ◌↔◌, refl, arith,
}
use stagepilot_beta.Cues.Data.{MidiEvent, PlanOperation}
use stagepilot_beta.Cues.Matching.{
  EventMatch, exact, conflict, other_position, unrelated, malformed_event, compare_event,
}
use stagepilot_beta.Cues.Matching.Meaning.{IsSameNote, compare-unrelated}
use stagepilot_beta.Cues.Outside.{IsFreeElsewhere, outside_iff}
use stagepilot_beta.Cues.Inspect.{
  RemoteEventScope, is_skip, is_exact, is_blocking, exact_matches, has_conflict, occupied_outside,
  decide,
}

unrelated_of : (m : EventMatch) → is_exact m ≡ false → is_blocking m ≡ false → m ≡ unrelated
unrelated_of exact e b = ground (arith, e)
unrelated_of conflict e b = ground (arith, b)
unrelated_of other_position e b = ground (arith, b)
unrelated_of unrelated e b = refl
unrelated_of malformed_event e b = ground (arith, b)

-- An event that leaves the cue its place.
abbrev pub IsClear : String → MidiEvent → MidiEvent → Type 0
IsClear bus_id cue event = (event.malformed ≡ false) × ¬ IsSameNote bus_id cue event

module _ (cue : MidiEvent) (bus_id : String) where
  All-IsClear :
      (events : List MidiEvent)
      → exact_matches cue bus_id events ≡ []
      → has_conflict cue bus_id events ≡ false
      → All (IsClear bus_id cue) events
  unfolding exact_matches has_conflict
  All-IsClear [] e c = tt
  All-IsClear (event ∷ events) e c =
      let m = compare_event event cue bus_id in
      let here : m ≡ unrelated = unrelated_of m (ground (arith, e)) (ground (arith, c)) in
      (
        (compare-unrelated bus_id cue event).0 here,
        All-IsClear events (ground (arith, e)) (ground (arith, c)),
      )

  none_exact :
      (events : List MidiEvent)
      → All (IsClear bus_id cue) events
      → exact_matches cue bus_id events ≡ []
  unfolding exact_matches
  none_exact [] h = refl
  none_exact (event ∷ events) h =
      rw ((compare-unrelated bus_id cue event).1 h.0) (none_exact events h.1)

  none_blocking :
      (events : List MidiEvent)
      → All (IsClear bus_id cue) events
      → has_conflict cue bus_id events ≡ false
  unfolding has_conflict
  none_blocking [] h = refl
  none_blocking (event ∷ events) h =
      rw ((compare-unrelated bus_id cue event).1 h.0) (none_blocking events h.1)

decide_clear :
    (create : PlanOperation) (create_reason outside_reason : String) (matches : List MidiEvent)
    (conflicting outside : Bool)
    → is_skip create ≡ false
    → (decide create create_reason outside_reason matches conflicting outside).operation ≡ create
    → (matches ≡ []) × (conflicting ≡ false) × (outside ≡ false)
unfolding decide
decide_clear create cr or [] true outside other e = ground (arith, other, e)
decide_clear create cr or [] false true other e = ground (arith, other, e)
decide_clear create cr or [] false false other e = (refl, refl, refl)
decide_clear create cr or (event ∷ []) conflicting outside other e = ground (arith, other, e)
decide_clear create cr or (event ∷ _ ∷ _) conflicting outside other e = ground (arith, other, e)

-- A new cue is asked for exactly if none of the selected events is malformed or is a note of the
-- cue's bus, channel and number, at whatever position and velocity, and in every scope that is not
-- of the selected bus (and bank, where one is given) no event is malformed or is the cue itself on
-- that scope's bus, with its position and velocity. An event that names no bus is one of the bus
-- that was asked for; `create` is an operation that skips nothing.
pub decide-create :
    (create : PlanOperation) (create_reason outside_reason : String) (cue : MidiEvent)
    (bank_id : Option String) (bus_id : String) (events : List MidiEvent)
    (scopes : List RemoteEventScope)
    → is_skip create ≡ false
    → ((decide create create_reason outside_reason
          (exact_matches cue bus_id events)
          (has_conflict cue bus_id events)
          (occupied_outside bank_id bus_id cue scopes)).operation
        ≡ create)
      ↔ (All (IsClear bus_id cue) events × All (IsFreeElsewhere bank_id bus_id cue) scopes)
unfolding decide
decide-create create cr or cue bank_id bus_id events scopes other =
    let matches = exact_matches cue bus_id events in
    let conflicting = has_conflict cue bus_id events in
    let outside = occupied_outside bank_id bus_id cue scopes in
    let free = outside_iff bank_id bus_id cue scopes in
    (
      (λ e.
          let (none_same, clear, apart) =
            decide_clear create cr or matches conflicting outside other e in
          (All-IsClear cue bus_id events none_same clear, free.0 apart)),
      (λ (clear, elsewhere).
          rw
            (
              none_exact cue bus_id events clear,
              none_blocking cue bus_id events clear,
              free.1 elsewhere,
            )
            refl),
    )
