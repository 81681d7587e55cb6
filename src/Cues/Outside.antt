-- ===== src/Cues/Outside.antt =====
-- tools/multitracks-cues/src/cues/planner.ts: when nothing outside of the selected bus and bank
-- stands in the way of a new cue.
use stagepilot_beta.Common.{
  String, Bool, Bool-cases, true, false, not, ◌&&◌, ◌||◌, Option, none, some, List, [], ◌∷◌, All,
  any, eq_iff, ◌≡◌, ◌↔◌, inl, inr, refl, arith,
}
use stagepilot_beta.Cues.Data.{MidiBank, MidiEvent}
use stagepilot_beta.Cues.Matching.{
  EventMatch, exact, conflict, other_position, unrelated, malformed_event, compare_event,
}
use stagepilot_beta.Cues.Matching.Meaning.{IsSameCue, compare-exact}
use stagepilot_beta.Cues.Inspect.{
  RemoteEventScope, is_exact, occupies, is_bank, in_scope, occupied_outside,
}

exact_of : (m : EventMatch) → is_exact m ≡ true → m ≡ exact
exact_of exact e = refl
exact_of conflict e = ground (arith, e)
exact_of other_position e = ground (arith, e)
exact_of unrelated e = ground (arith, e)
exact_of malformed_event e = ground (arith, e)

exact_differs : (m : EventMatch) → is_exact m ≡ false → ¬ (m ≡ exact)
exact_differs m other same = ground (arith, same, other)

-- The events of another scope leave it, unless they are the cue itself on the scope's bus.
abbrev pub IsFree : MidiEvent → RemoteEventScope → Type 0
IsFree cue scope =
    let there = record cue { bus_id = some scope.bus.id } in
    All (λ event. (event.malformed ≡ false) × ¬ IsSameCue scope.bus.id there event) scope.events

abbrev pub bank_name : Option MidiBank → Option String
bank_name none = none
bank_name (some bank) = some bank.id

-- The scope of the bus, in the bank where one is given.
abbrev pub IsSelected : Option String → String → RemoteEventScope → Type 0
IsSelected none bus_id scope = scope.bus.id ≡ bus_id
IsSelected (some bank_id) bus_id scope =
    (bank_name scope.bank ≡ some bank_id) × (scope.bus.id ≡ bus_id)

bank_iff :
    (id : String) (bank : Option MidiBank) → (is_bank id bank ≡ true) ↔ (bank_name bank ≡ some id)
bank_iff id none = ((λ e. ground (arith, e)), (λ e. ground (arith, e)))
bank_iff id (some bank) = ground (arith, eq_iff bank.id id)

in_scope-IsSelected :
    (bank_id : Option String) (bus_id : String) (scope : RemoteEventScope)
    → (in_scope bank_id bus_id scope ≡ true) ↔ IsSelected bank_id bus_id scope
in_scope-IsSelected none bus_id scope = eq_iff scope.bus.id bus_id
in_scope-IsSelected (some bank_id) bus_id scope =
    let bank = bank_iff bank_id scope.bank in
    let bus = eq_iff scope.bus.id bus_id in
    (
      (λ e. (bank.0 (ground (arith, e)), bus.0 (ground (arith, e)))),
      (λ h. let a = bank.1 h.0 in let b = bus.1 h.1 in rw (a, b) refl),
    )

either_false : (a b : Bool) → a ≡ false → b ≡ false → a || b ≡ false
either_false a b ha hb = ground (arith, ha, hb)

apart_of :
    (bus_id : String) (cue event : MidiEvent)
    → event.malformed || is_exact (compare_event event cue bus_id) ≡ false
    → (event.malformed ≡ false) × ¬ IsSameCue bus_id cue event
apart_of bus_id cue event e =
    let m = compare_event event cue bus_id in
    let fine : event.malformed ≡ false = ground (arith, e) in
    let other : is_exact m ≡ false = ground (arith, e) in
    (fine, (λ same. exact_differs m other ((compare-exact bus_id cue event).1 (fine, same))))

of_apart :
    (bus_id : String) (cue event : MidiEvent)
    → (event.malformed ≡ false) × ¬ IsSameCue bus_id cue event
    → event.malformed || is_exact (compare_event event cue bus_id) ≡ false
of_apart bus_id cue event (fine, other) =
    let m = compare_event event cue bus_id in
    either_false event.malformed (is_exact m) fine (elim (Bool-cases (is_exact m)) [
      | inl same ↦ absurd (other ((compare-exact bus_id cue event).0 (exact_of m same)).1)
      | inr differs ↦ differs
    ])

-- A test that fails on every element, and what its failure means.
module _ {A : Type 0} (test : A → Bool) (Means : A → Type 0) where
  All-none :
      ((a : A) → test a ≡ false → Means a) → (as' : List A) → any test as' ≡ false → All Means as'
  All-none h [] e = tt
  All-none h (a ∷ as') e = (h a (ground (arith, e)), All-none h as' (ground (arith, e)))

  none-All :
      ((a : A) → Means a → test a ≡ false) → (as' : List A) → All Means as' → any test as' ≡ false
  none-All h [] e = refl
  none-All h (a ∷ as') e = either_false (test a) (any test as') (h a e.0) (none-All h as' e.1)

occupies-IsFree :
    (cue : MidiEvent) (scope : RemoteEventScope) → (occupies cue scope ≡ false) ↔ IsFree cue scope
unfolding occupies
occupies-IsFree cue scope =
    let bus_id = scope.bus.id in
    let there = record cue { bus_id = some bus_id } in
    (
      All-none _ _ (apart_of bus_id there) scope.events,
      none-All _ _ (of_apart bus_id there) scope.events,
    )

-- Every other scope leaves the cue its place.
abbrev pub IsFreeElsewhere : Option String → String → MidiEvent → RemoteEventScope → Type 0
IsFreeElsewhere bank_id bus_id cue scope = ¬ IsSelected bank_id bus_id scope → IsFree cue scope

outside_of :
    (bank_id : Option String) (bus_id : String) (cue : MidiEvent) (scope : RemoteEventScope)
    → not (in_scope bank_id bus_id scope) && occupies cue scope ≡ false
    → IsFreeElsewhere bank_id bus_id cue scope
outside_of bank_id bus_id cue scope e other =
    (occupies-IsFree cue scope).0 (elim (Bool-cases (in_scope bank_id bus_id scope)) [
      | inl inside ↦ absurd (other ((in_scope-IsSelected bank_id bus_id scope).0 inside))
      | inr outside ↦ ground (arith, e, outside)
    ])

of_outside :
    (bank_id : Option String) (bus_id : String) (cue : MidiEvent) (scope : RemoteEventScope)
    → IsFreeElsewhere bank_id bus_id cue scope
    → not (in_scope bank_id bus_id scope) && occupies cue scope ≡ false
of_outside bank_id bus_id cue scope h = elim (Bool-cases (in_scope bank_id bus_id scope)) [
  | inl inside ↦ rw inside refl
  | inr outside ↦
      let test = (in_scope-IsSelected bank_id bus_id scope).1 in
      let free =
        (occupies-IsFree cue scope).1
          (h (λ inside. let e = test inside in ground (arith, e, outside))) in
      ground (arith, free, outside)
]

pub outside_iff :
    (bank_id : Option String) (bus_id : String) (cue : MidiEvent) (scopes : List RemoteEventScope)
    → (occupied_outside bank_id bus_id cue scopes ≡ false)
      ↔ All (IsFreeElsewhere bank_id bus_id cue) scopes
unfolding occupied_outside
outside_iff bank_id bus_id cue scopes = (
  All-none _ _ (outside_of bank_id bus_id cue) scopes,
  none-All _ _ (of_outside bank_id bus_id cue) scopes,
)
