-- ===== src/Cues/Writes/Planning.antt =====
-- tools/multitracks-cues/src/cues/planner.ts: the items and the calls of an inspection.
use stagepilot_beta.Common.{ℕ, ◌≤◌, String, false, Option, none, some, List, [], ◌∷◌, ◌≡◌, refl}
use stagepilot_beta.Common.Exec.{Result, done, failed}
use stagepilot_beta.Common.Exec.Gives.{Gives, Gives-return, Gives-fail, Gives-bind}
use stagepilot_beta.Cues.Data.{SetlistItem, MidiBus, MidiBank, ResolvedCue, PlanOperation, Fault}
use stagepilot_beta.Cues.Inspect.{RemoteEventScope}
use stagepilot_beta.Cues.Planner.{
  cloud_scopes, bank_scopes, library_scopes, selected_scope, judge, inspect_bank, inspect_library,
  inspect_cloud,
}
use stagepilot_beta.Cues.Service.{Call, CueTarget, Identity, Gateway, Desk, given, resolve_cue}
use stagepilot_beta.Cues.Writes.{
  is_there, IsPlanned, IsScaled, is_write, ask-Keeps, refused-IsPlanned, item_of-IsPlanned,
  decide-settled,
}

-- `I` is kept by every call that reads.
module _ (g : Gateway) (bus_id : String) (I : Desk → Type 0)
    (logs : (call : Call) (d : Desk)
      → is_write call ≡ false
      → I d
      → I (record d { log = call ∷ d.log })) where
  given-Gives : {A : Type 0} (r : Result Fault A) → Gives I (given r) (λ _. Unit)
  unfolding given
  given-Gives (done a) = Gives-return a tt
  given-Gives (failed e) = Gives-fail e

  cloud_scopes-Gives :
      (arrangement : String) (buses : List MidiBus)
      → Gives I (cloud_scopes g arrangement buses) (λ _. Unit)
  unfolding cloud_scopes
  cloud_scopes-Gives arrangement [] = Gives-return [] tt
  cloud_scopes-Gives arrangement (bus ∷ buses) =
      Gives-bind _ _ (ask-Keeps I logs _ _ refl) λ events _.
        Gives-bind _ _ (cloud_scopes-Gives arrangement buses) λ rest _. Gives-return _ tt

  bank_scopes-Gives :
      (library_id : String) (bank : MidiBank) (buses : List MidiBus)
      → Gives I (bank_scopes g library_id bank buses) (λ _. Unit)
  unfolding bank_scopes
  bank_scopes-Gives library_id bank [] = Gives-return [] tt
  bank_scopes-Gives library_id bank (bus ∷ buses) =
      Gives-bind _ _ (ask-Keeps I logs _ _ refl) λ events _.
        Gives-bind _ _ (bank_scopes-Gives library_id bank buses) λ rest _. Gives-return _ tt

  library_scopes-Gives :
      (library_id : String) (banks : List MidiBank) (buses : List MidiBus)
      → Gives I (library_scopes g library_id banks buses) (λ _. Unit)
  unfolding library_scopes
  library_scopes-Gives library_id [] buses = Gives-return [] tt
  library_scopes-Gives library_id (bank ∷ banks) buses =
      Gives-bind _ _ (bank_scopes-Gives library_id bank buses) λ scopes _.
        Gives-bind _ _ (library_scopes-Gives library_id banks buses) λ rest _. Gives-return _ tt

  selected-Gives : (o : Option RemoteEventScope) → Gives I (selected_scope g o) (λ _. Unit)
  unfolding selected_scope
  selected-Gives none = Gives-fail _
  selected-Gives (some scope) = Gives-return scope tt

  judge-Gives :
      (target : CueTarget) (identity : Identity) (item : SetlistItem) (bus : MidiBus)
      (bank : Option MidiBank) (bank_id : Option String) (create : PlanOperation)
      (create_reason outside_reason : String) (cue : ResolvedCue) (scopes : List RemoteEventScope)
      → bus.id ≡ bus_id
      → IsScaled cue
      → is_there create ≡ false
      → Gives I
          (judge g target identity item bus bank bank_id create create_reason outside_reason cue
            scopes)
          (IsPlanned bus_id)
  unfolding judge
  judge-Gives target identity item bus bank bank_id create create_reason outside_reason cue scopes
        same scaled other =
      Gives-bind _ _ (given-Gives _) λ arguments _. Gives-bind _ _ (selected-Gives _) λ selected _.
        Gives-return _ (
          item_of-IsPlanned g bus_id item bus bank selected.events cue _ same scaled
            (decide-settled g bus_id create create_reason outside_reason _ _ _ other))

  inspect_bank-Gives :
      (library_id : String) (item : SetlistItem) (bus : MidiBus) (buses : List MidiBus)
      (cue : ResolvedCue) (banks : List MidiBank) (o : Option MidiBank)
      → bus.id ≡ bus_id
      → IsScaled cue
      → Gives I (inspect_bank g library_id item bus buses cue banks o) (IsPlanned bus_id)
  unfolding inspect_bank
  inspect_bank-Gives library_id item bus buses cue banks none same scaled =
      Gives-return _ (refused-IsPlanned g bus_id item bus cue _ banks same scaled)
  inspect_bank-Gives library_id item bus buses cue banks (some bank) same scaled =
      Gives-bind _ _ (library_scopes-Gives library_id banks buses)
        λ scopes _. judge-Gives _ _ item bus _ _ _ _ _ cue scopes same scaled refl

  pub inspect_library-Gives :
      (item : SetlistItem) (bus : MidiBus) (buses : List MidiBus) (cue : ResolvedCue)
      (o : Option String)
      → bus.id ≡ bus_id
      → IsScaled cue
      → Gives I (inspect_library g item bus buses cue o) (IsPlanned bus_id)
  unfolding inspect_library
  inspect_library-Gives item bus buses cue none same scaled =
      Gives-return _ (refused-IsPlanned g bus_id item bus cue _ [] same scaled)
  inspect_library-Gives item bus buses cue (some library_id) same scaled =
      Gives-bind _ _ (ask-Keeps I logs _ _ refl)
        λ banks _. inspect_bank-Gives library_id item bus buses cue banks _ same scaled

  pub inspect_cloud-Gives :
      (item : SetlistItem) (bus : MidiBus) (buses : List MidiBus) (cue : ResolvedCue)
      (o : Option String)
      → bus.id ≡ bus_id
      → IsScaled cue
      → Gives I (inspect_cloud g item bus buses cue o) (IsPlanned bus_id)
  unfolding inspect_cloud
  inspect_cloud-Gives item bus buses cue none same scaled =
      Gives-return _ (refused-IsPlanned g bus_id item bus cue _ [] same scaled)
  inspect_cloud-Gives item bus buses cue (some arrangement) same scaled =
      Gives-bind _ _ (cloud_scopes-Gives arrangement buses)
        λ scopes _. judge-Gives _ _ item bus _ _ _ _ _ cue scopes same scaled refl

  pub resolve_cue-Gives :
      (target : CueTarget) (n : ℕ) → n ≤ 127 → Gives I (resolve_cue g target n) IsScaled
  unfolding resolve_cue
  resolve_cue-Gives target n most =
      Gives-bind _ _ (given-Gives _) λ position _. Gives-return _ (refl, most)
