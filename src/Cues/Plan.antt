-- ===== src/Cues/Plan.antt =====
-- tools/multitracks-cues/src/cues/planner.ts: `buildCuePlan`.
use stagepilot_beta.Common.{
  ℕ, suc, ltb, ◌==◌, String, Bool, true, false, not, ◌&&◌, Option, none, some, List, [], ◌∷◌, keep,
  any, or_else, is_some, str_eq, if◌then◌else◌,
}
use stagepilot_beta.Common.Exec.{return, fail, ◌>>=◌}
use stagepilot_beta.Cues.Data.{
  library, cloud, non_song, SetlistItem, Setlist, MidiBus, skip_non_song, skip_ambiguous,
  CuePlanItem, CuePlan, Fault, ambiguity_error, present,
}
use stagepilot_beta.Cues.Ordinals.{OrdinalAssignment, assign_song_ordinals}
use stagepilot_beta.Cues.Inspect.{base}
use stagepilot_beta.Cues.Planner.{refused, inspect_library, inspect_cloud}
use stagepilot_beta.Cues.Service.{
  library_cue, cloud_cue, Gateway, Task, ask, resolve_cue, get_setlist, list_buses,
}

abbrev pub ordinal_profile : String
ordinal_profile = "setlist-ordinal-test"

abbrev pub has_id : String → Option String → Bool
has_id id none = false
has_id id (some other) = str_eq other id

-- The entry of the map of Library targets at `id`, and of the map of Cloud targets.
unfoldable pub count_library : String → List OrdinalAssignment → ℕ
count_library id [] = 0
count_library id (a ∷ rest) =
    let counted = count_library id rest in
    elim a.item.target [
      | library ↦
          if is_some a.song_ordinal && has_id id (present a.item.library_entry_id)
          then suc counted
          else counted
      | _ ↦ counted
    ]

unfoldable pub count_cloud : String → List OrdinalAssignment → ℕ
count_cloud id [] = 0
count_cloud id (a ∷ rest) =
    let counted = count_cloud id rest in
    elim a.item.target [
      | cloud ↦
          if is_some a.song_ordinal && has_id id (present a.item.arrangement_id)
          then suc counted
          else counted
      | _ ↦ counted
    ]

abbrev pub is_reused : (String → ℕ) → Option String → Bool
is_reused count none = false
is_reused count (some id) = ltb 1 (count id)

abbrev lost_bus : Fault
lost_bus = ambiguity_error "The saved MIDI bus no longer exists or is ambiguous; select it again." 5

unfoldable pub the_bus : List MidiBus → Task MidiBus
the_bus [] = fail lost_bus
the_bus (bus ∷ []) = return bus
the_bus (_ ∷ _ ∷ _) = fail lost_bus

unfoldable pub validate_bus : Option String → List MidiBus → Task MidiBus
validate_bus none buses =
    fail (ambiguity_error "No MIDI bus is selected. Run 'stagepilot-cues configure'." 5)
validate_bus (some id) buses = the_bus (keep (λ bus. str_eq bus.id id) buses)

-- An item without an ordinal.
unfoldable pub unnumbered : SetlistItem → MidiBus → CuePlanItem
unfolding base
unnumbered item bus = elim item.target [
  | non_song ↦
      base item bus none none (skip_non_song ∷ []) "This setlist item is explicitly not a song." []
  | _ ↦
      base item bus none none (skip_ambiguous ∷ [])
        (or_else item.ambiguity "Target type is ambiguous.") []
]

abbrev pub contains : ℕ → List ℕ → Bool
contains n ns = any (λ m. m == n) ns

abbrev pub is_selected : Option (List ℕ) → ℕ → Bool
is_selected none position = true
is_selected (some positions) position = contains position positions

module _ (g : Gateway) (bus : MidiBus) (buses : List MidiBus)
    (assignments : List OrdinalAssignment) where
  unfoldable pub plan_library : SetlistItem → ℕ → Task CuePlanItem
  plan_library item song_ordinal = do
    cue ← resolve_cue g library_cue song_ordinal
    (if is_reused (λ id. count_library id assignments) (present item.library_entry_id)
        then return (
            refused item bus cue
              "This reusable Library target occurs more than once with different ordinal velocities; one shared event cannot represent each occurrence."
              [])
        else inspect_library g item bus buses cue (present item.library_entry_id))

  unfoldable pub plan_cloud : SetlistItem → ℕ → Task CuePlanItem
  plan_cloud item song_ordinal = do
    cue ← resolve_cue g cloud_cue song_ordinal
    (if is_reused (λ id. count_cloud id assignments) (present item.arrangement_id)
        then return (
            refused item bus cue
              "This Cloud Arrangement identity is reused for multiple occurrences with different ordinal velocities; occurrence-specific writable targets are not proven."
              [])
        else inspect_cloud g item bus buses cue (present item.arrangement_id))

  unfoldable pub plan_item : SetlistItem → Option ℕ → Task CuePlanItem
  plan_item item none = return (unnumbered item bus)
  plan_item item (some song_ordinal) = elim item.target [
    | library ↦ plan_library item song_ordinal
    | _ ↦ plan_cloud item song_ordinal
  ]

  unfoldable pub plan_items : Option (List ℕ) → List OrdinalAssignment → Task (List CuePlanItem)
  plan_items positions [] = return []
  plan_items positions (a ∷ rest) =
      let others = plan_items positions rest in
      if is_selected positions a.item.position
      then (do item ← plan_item a.item a.song_ordinal; items ← others; return (item ∷ items))
      else others

module _ (g : Gateway) (selected_bus : Option String) where
  unfoldable pub plan_assigned :
      Setlist
      → MidiBus
      → List MidiBus
      → Option (List ℕ)
      → Option (List OrdinalAssignment)
      → Task CuePlan
  plan_assigned setlist bus buses positions none = fail (
      ambiguity_error
        "The setlist contains more than 127 qualifying songs; MIDI velocity cannot represent every ordinal."
        5)
  plan_assigned setlist bus buses positions (some assignments) = do
    items ← plan_items g bus buses assignments positions assignments
    return (record { setlist = setlist; items = items; bus_id = bus.id; bus_kind = bus.kind })

  unfoldable pub build_cue_plan : String → String → Option (List ℕ) → Task CuePlan
  build_cue_plan setlist_id profile positions =
      if not (str_eq profile ordinal_profile)
      then fail (ambiguity_error "An explicit supported cue profile is required." 2)
      else (do
        setlist ← ask (get_setlist setlist_id) (λ log. g.setlist log setlist_id)
        buses ← ask list_buses g.buses
        bus ← validate_bus selected_bus buses
        plan_assigned setlist bus buses positions (assign_song_ordinals setlist.items))
