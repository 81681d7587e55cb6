-- ===== src/Cues/Matching/Meaning.antt =====
-- tools/multitracks-cues/src/cues/compare.ts: what the comparison of an event with a cue tests, on
-- the fields themselves.
use stagepilot_beta.Common.{
  ℕ, String, Bool, Bool-cases, true, false, ◌&&◌, Option, none, some, [], ◌∷◌, Dict, lookup, length,
  all, or_else, All, eq_iff, ◌≡◌, ◌↔◌, inl, inr, refl, arith,
}
use stagepilot_beta.Cues.Data.{MidiEvent, same_text, same_number}
use stagepilot_beta.Cues.Matching.{exact, unrelated, has_number, equal_position, compare_event}

-- The same keys with the same numbers.
abbrev pub IsSamePosition : Option (Dict ℕ) → Option (Dict ℕ) → Type 0
IsSamePosition left right =
    (l : Dict ℕ) × (r : Dict ℕ) × (left ≡ some l)
    × (right ≡ some r)
    × (length l ≡ length r)
    × All (λ e. lookup e.0 r ≡ some e.1) l

-- An event of a bus that may be implied, on the cue's bus, with its channel and its number.
abbrev pub IsSameNote : String → MidiEvent → MidiEvent → Type 0
IsSameNote bus_id cue event =
    (some (or_else event.bus_id bus_id) ≡ cue.bus_id)
    × (event.channel ≡ cue.channel)
    × (event.note ≡ cue.note)

abbrev pub IsSameCue : String → MidiEvent → MidiEvent → Type 0
IsSameCue bus_id cue event =
    IsSameNote bus_id cue event
    × IsSamePosition event.position cue.position
    × (event.velocity ≡ cue.velocity)

text_iff : (a b : Option String) → (same_text a b ≡ true) ↔ (a ≡ b)
text_iff none none = ((λ e. refl), (λ e. refl))
text_iff none (some t) = ((λ e. ground (arith, e)), (λ e. ground (arith, e)))
text_iff (some s) none = ((λ e. ground (arith, e)), (λ e. ground (arith, e)))
text_iff (some s) (some t) = ground (arith, eq_iff s t)

number_iff : (a b : Option ℕ) → (same_number a b ≡ true) ↔ (a ≡ b)
number_iff none none = ((λ e. refl), (λ e. refl))
number_iff none (some t) = ((λ e. ground (arith, e)), (λ e. ground (arith, e)))
number_iff (some s) none = ((λ e. ground (arith, e)), (λ e. ground (arith, e)))
number_iff (some s) (some t) = ground arith

all_iff : (r l : Dict ℕ) → (all (has_number r) l ≡ true) ↔ All (λ e. lookup e.0 r ≡ some e.1) l
all_iff r [] = ((λ e. tt), (λ e. refl))
all_iff r ((key, value) ∷ l) =
    let head = number_iff (lookup key r) (some value) in
    let rest = all_iff r l in
    (
      (λ e. (head.0 (ground (arith, e)), rest.0 (ground (arith, e)))),
      (λ h. let a = head.1 h.0 in let b = rest.1 h.1 in rw (a, b) refl),
    )

position_iff :
    (left right : Option (Dict ℕ)) → (equal_position left right ≡ true) ↔ IsSamePosition left right
unfolding equal_position
position_iff none right =
    ((λ e. ground (arith, e)), (λ (l, r, el, er, same, h). ground (arith, el)))
position_iff (some l) none =
    ((λ e. ground (arith, e)), (λ (l', r, el, er, same, h). ground (arith, er)))
position_iff (some l) (some r) =
    let each = all_iff r l in
    (
      (λ e. (l, r, refl, refl, ground (arith, e), each.0 (ground (arith, e)))),
      (λ (l', r', el, er, same, h).
          let left_same : l ≡ l' = cc el in
          let right_same : r ≡ r' = cc er in
          let found = (all_iff r' l').1 h in
          rw (left_same, right_same, found) (ground (arith, same))),
    )

-- The three tests of a note, as one.
same_note : String → MidiEvent → MidiEvent → Bool
same_note bus_id cue event =
    same_text (some (or_else event.bus_id bus_id)) cue.bus_id
    && (same_number event.channel cue.channel && same_number event.note cue.note)

note_iff :
    (bus_id : String) (cue event : MidiEvent)
    → (same_note bus_id cue event ≡ true) ↔ IsSameNote bus_id cue event
unfolding same_note
note_iff bus_id cue event =
    let bus = text_iff (some (or_else event.bus_id bus_id)) cue.bus_id in
    let channel = number_iff event.channel cue.channel in
    let note = number_iff event.note cue.note in
    (
      (λ e. (bus.0 (ground (arith, e)), channel.0 (ground (arith, e)), note.0 (ground (arith, e)))),
      (λ h. let a = bus.1 h.0 in let b = channel.1 h.1 in let c = note.1 h.2 in rw (a, b, c) refl),
    )

compare-note :
    (bus_id : String) (cue event : MidiEvent)
    → (compare_event event cue bus_id ≡ unrelated)
      ↔ ((event.malformed ≡ false) × (same_note bus_id cue event ≡ false))
unfolding compare_event same_note
compare-note bus_id cue event = ground arith

pub compare-unrelated :
    (bus_id : String) (cue event : MidiEvent)
    → (compare_event event cue bus_id ≡ unrelated)
      ↔ ((event.malformed ≡ false) × ¬ IsSameNote bus_id cue event)
compare-unrelated bus_id cue event =
    let note = note_iff bus_id cue event in
    let test = compare-note bus_id cue event in
    (
      (λ e.
          let (fine, other) = test.0 e in
          (fine, (λ same. let h = note.1 same in ground (arith, h, other)))),
      (λ (fine, other). test.1 (
        fine,
        elim (Bool-cases (same_note bus_id cue event)) [
          | inl same ↦ absurd (other (note.0 same))
          | inr differs ↦ differs
        ],
      )),
    )

compare-tests :
    (bus_id : String) (cue event : MidiEvent)
    → (compare_event event cue bus_id ≡ exact) ↔ (
        (event.malformed ≡ false)
        × (same_note bus_id cue event ≡ true)
        × (equal_position event.position cue.position ≡ true)
        × (same_number event.velocity cue.velocity ≡ true))
unfolding compare_event same_note
compare-tests bus_id cue event = ground arith

pub compare-exact :
    (bus_id : String) (cue event : MidiEvent)
    → (compare_event event cue bus_id ≡ exact)
      ↔ ((event.malformed ≡ false) × IsSameCue bus_id cue event)
compare-exact bus_id cue event =
    let note = note_iff bus_id cue event in
    let position = position_iff event.position cue.position in
    let velocity = number_iff event.velocity cue.velocity in
    let test = compare-tests bus_id cue event in
    (
      (λ e. let h = test.0 e in (h.0, (note.0 h.1, position.0 h.2, velocity.0 h.3))),
      (λ (fine, h). test.1 (fine, note.1 h.0, position.1 h.1, velocity.1 h.2)),
    )
