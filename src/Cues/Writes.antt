-- ===== src/Cues/Writes.antt =====
-- tools/multitracks-cues/src/cues: the items of a plan, and the calls to the service.
pub mod Planning
pub mod Plans
pub mod Applying
use stagepilot_beta.Common.{
  ℕ, suc, ◌+◌, ◌≤◌, ltb, ltb→lt, leb, String, Bool, true, false, not, ◌&&◌, ◌||◌, Option, none,
  some, List, [], ◌∷◌, ◌++◌, any, keep, All, ◌≡◌, refl, sym, arith, is_some, str_eq, eq_iff,
  if◌then◌else◌, or_else,
}
use stagepilot_beta.Common.Exec.{Result, done, failed, return, fail, step, ◌>>=◌}
use stagepilot_beta.Common.Exec.Gives.{
  Gives, OnDone, OnDone-any, Gives-return, Gives-fail, Gives-if, Gives-bind, Gives-elim,
  Gives-weaken,
}
use stagepilot_beta.Cues.Data.{
  TargetType, library, cloud, ambiguous, non_song, SetlistItem, Setlist, MidiBus, MidiBank,
  MidiEvent, ResolvedCue, PlanOperation, skip_non_song, skip_already_present, skip_ambiguous,
  skip_conflict, CuePlanItem, CuePlan, Fault, present,
}
use stagepilot_beta.Cues.Ordinals.{
  OrdinalAssignment, is_song, prepend, assign_from, assign_song_ordinals, sort_by_position,
}
use stagepilot_beta.Cues.Inspect.{base, RemoteEventScope, Verdict, decide, find_scope}
use stagepilot_beta.Cues.Banks.{resolve_default_bank}
use stagepilot_beta.Cues.Planner.{
  item_of, refused, cloud_scopes, bank_scopes, library_scopes, selected_scope, judge, inspect_bank,
  inspect_library, inspect_cloud,
}
use stagepilot_beta.Cues.Plan.{
  validate_bus, unnumbered, plan_library, plan_cloud, plan_item, plan_items, plan_assigned,
  build_cue_plan, is_reused, count_library, count_cloud, is_selected,
}
use stagepilot_beta.Cues.Service.{
  Call, get_setlist, list_buses, list_banks, list_library_events, list_cloud_events,
  create_library_event, create_cloud_event, CueTarget, library_cue, cloud_cue, Identity, Gateway,
  Desk, Task, ask, given, resolve_cue,
}

-- A cue on channel 1, note 112, whose velocity is its ordinal, from 1 to 127.
pub record IsOrdinalCue (cue : ResolvedCue) : Type 0 where
  pub on_channel : cue.channel ≡ 1
  pub on_note : cue.note ≡ 112
  pub by_ordinal : cue.velocity ≡ cue.song_ordinal
  pub least : 1 ≤ cue.velocity
  pub most : cue.velocity ≤ 127

-- A call that reads, or that writes such a cue on the given bus.
abbrev pub IsAllowed : String → Call → Type 0
IsAllowed bus_id (create_library_event b library_id bank_id cue) = (b ≡ bus_id) × IsOrdinalCue cue
IsAllowed bus_id (create_cloud_event b arrangement_id cue) = (b ≡ bus_id) × IsOrdinalCue cue
IsAllowed bus_id call = Unit

abbrev pub is_write : Call → Bool
is_write (create_library_event b library_id bank_id cue) = true
is_write (create_cloud_event b arrangement_id cue) = true
is_write call = false

pub read-IsAllowed : (bus_id : String) (call : Call) → is_write call ≡ false → IsAllowed bus_id call
read-IsAllowed bus_id (get_setlist setlist_id) h = tt
read-IsAllowed bus_id list_buses h = tt
read-IsAllowed bus_id (list_banks library_id) h = tt
read-IsAllowed bus_id (list_library_events library_id bank_id b) h = tt
read-IsAllowed bus_id (list_cloud_events arrangement_id b) h = tt
read-IsAllowed bus_id (create_library_event b library_id bank_id cue) h = ground arith
read-IsAllowed bus_id (create_cloud_event b arrangement_id cue) h = ground arith

abbrev pub Within127 : Option ℕ → Type 0
Within127 none = Unit
Within127 (some n) = n ≤ 127

abbrev pub is_there : PlanOperation → Bool
is_there skip_already_present = true
is_there _ = false

pub record IsPlanned (bus_id : String) (item : CuePlanItem) : Type 0 where
  pub on_bus : item.bus_id ≡ bus_id
  pub numbered : Within127 item.song_ordinal
  pub scaled : (n : ℕ) → item.velocity ≡ some n → item.song_ordinal ≡ some n
  pub settled :
      any is_there item.operations ≡ true → item.reason ≡ "The exact ordinal cue already exists."

-- A cue whose velocity is its ordinal.
abbrev pub IsScaled : ResolvedCue → Type 0
IsScaled cue = (cue.velocity ≡ cue.song_ordinal) × (cue.song_ordinal ≤ 127)

-- A call that reads keeps what its place in the log keeps.
pub ask-Keeps :
    {A : Type 0} (I : Desk → Type 0)
    → ((call : Call) (d : Desk) → is_write call ≡ false → I d → I (record d { log = call ∷ d.log }))
    → (call : Call) (answer : List Call → Result Fault A) → is_write call ≡ false
    → Gives I (ask call answer) (λ _. Unit)
unfolding ask step
ask-Keeps I logs call answer reads = record {
  run = λ d i. (logs call d reads i, OnDone-any (answer d.log));
}

module _ (g : Gateway) (bus_id : String) where
  abbrev pub Allowed : Desk → Type 0
  Allowed d = All (IsAllowed bus_id) d.log

  pub ask-Allowed :
      {A : Type 0} (call : Call) (answer : List Call → Result Fault A)
      → IsAllowed bus_id call
      → Gives Allowed (ask call answer) (λ _. Unit)
  unfolding ask step
  ask-Allowed call answer allowed = record {
    run = λ d i. ((allowed, i), OnDone-any (answer d.log));
  }

  pub refused-IsPlanned :
      (item : SetlistItem) (bus : MidiBus) (cue : ResolvedCue) (reason : String)
      (banks : List MidiBank)
      → bus.id ≡ bus_id
      → IsScaled cue
      → IsPlanned bus_id (refused item bus cue reason banks)
  unfolding refused base
  refused-IsPlanned item bus cue reason banks same scaled = record {
    on_bus = same;
    numbered = scaled.1;
    scaled = λ n e. ground (arith, e, scaled.0);
    settled = λ e. ground (arith, e);
  }

  pub item_of-IsPlanned :
      (item : SetlistItem) (bus : MidiBus) (bank : Option MidiBank) (events : List MidiEvent)
      (cue : ResolvedCue) (v : Verdict)
      → bus.id ≡ bus_id
      → IsScaled cue
      → (is_there v.operation ≡ true → v.reason ≡ "The exact ordinal cue already exists.")
      → IsPlanned bus_id (item_of item bus bank events cue v)
  unfolding item_of base
  item_of-IsPlanned item bus none events cue v same scaled settled = record {
    on_bus = same;
    numbered = scaled.1;
    scaled = λ n e. ground (arith, e, scaled.0);
    settled = λ e. ground (arith, e, settled);
  }
  item_of-IsPlanned item bus (some bank) events cue v same scaled settled = record {
    on_bus = same;
    numbered = scaled.1;
    scaled = λ n e. ground (arith, e, scaled.0);
    settled = λ e. ground (arith, e, settled);
  }

  pub decide-settled :
      (create : PlanOperation) (create_reason outside_reason : String) (events : List MidiEvent)
      (conflicting outside : Bool)
      → is_there create ≡ false
      → is_there (decide create create_reason outside_reason events conflicting outside).operation
        ≡ true
      → (decide create create_reason outside_reason events conflicting outside).reason
        ≡ "The exact ordinal cue already exists."
  unfolding decide
  decide-settled create create_reason outside_reason [] conflicting outside other e = ground arith
  decide-settled create create_reason outside_reason (event ∷ []) conflicting outside other e = refl
  decide-settled create create_reason outside_reason (event ∷ _ ∷ _) conflicting outside other e =
      ground arith
