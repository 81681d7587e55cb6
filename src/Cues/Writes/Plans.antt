-- ===== src/Cues/Writes/Plans.antt =====
-- tools/multitracks-cues/src/cues/planner.ts: the items and the calls of `buildCuePlan`.
use stagepilot_beta.Common.{
  ℕ, suc, ◌≤◌, ltb, String, Bool, true, false, not, Option, none, some, List, [], ◌∷◌, keep, All,
  ◌≡◌, refl, arith, str_eq, eq_iff, if◌then◌else◌, or_else, Bool-cases, inl, inr,
}
use stagepilot_beta.Common.Exec.Gives.{Gives, Gives-return, Gives-fail, Gives-if, Gives-bind}
use stagepilot_beta.Cues.Data.{
  library, non_song, SetlistItem, Setlist, MidiBus, PlanOperation, skip_non_song, skip_ambiguous,
  CuePlan, present,
}
use stagepilot_beta.Cues.Ordinals.{
  OrdinalAssignment, is_song, prepend, assign_from, assign_song_ordinals, sort_by_position,
}
use stagepilot_beta.Cues.Inspect.{base}
use stagepilot_beta.Cues.Plan.{
  validate_bus, the_bus, unnumbered, plan_library, plan_cloud, plan_item, plan_items, plan_assigned,
  build_cue_plan, is_reused, count_library, count_cloud, is_selected,
}
use stagepilot_beta.Cues.Service.{Call, library_cue, cloud_cue, Gateway, Desk}
use stagepilot_beta.Cues.Writes.{
  Allowed, read-IsAllowed, Within127, is_there, IsPlanned, is_write, ask-Keeps, refused-IsPlanned,
}
use stagepilot_beta.Cues.Writes.Planning.{
  inspect_library-Gives, inspect_cloud-Gives, resolve_cue-Gives,
}

abbrev IsBounded : Option (List OrdinalAssignment) → Type 0
IsBounded none = Unit
IsBounded (some as') = All (λ a. Within127 a.song_ordinal) as'

prepend-IsBounded :
    (a : OrdinalAssignment) (o : Option (List OrdinalAssignment))
    → Within127 a.song_ordinal
    → IsBounded o
    → IsBounded (prepend a o)
prepend-IsBounded a none first rest = tt
prepend-IsBounded a (some as') first rest = (first, rest)

if-IsBounded :
    (b : Bool) (o p : Option (List OrdinalAssignment))
    → (b ≡ true → IsBounded o)
    → (b ≡ false → IsBounded p)
    → IsBounded (if b then o else p)
if-IsBounded true o p ho hp = ho refl
if-IsBounded false o p ho hp = hp refl

assign_from-IsBounded : (last : ℕ) (is : List SetlistItem) → IsBounded (assign_from last is)
unfolding assign_from
assign_from-IsBounded last [] = tt
assign_from-IsBounded last (i ∷ is) =
    if-IsBounded (is_song i.target) _ _
      (λ song.
        if-IsBounded (ltb 127 (suc last)) none _ (λ over. tt)
          (λ fits.
            prepend-IsBounded _ _ (ground (arith, fits)) (assign_from-IsBounded (suc last) is)))
      (λ other. prepend-IsBounded _ _ tt (assign_from-IsBounded last is))

-- `I` is kept by every call that reads.
module _ (g : Gateway) (bus_id : String) (I : Desk → Type 0)
    (logs : (call : Call) (d : Desk)
      → is_write call ≡ false
      → I d
      → I (record d { log = call ∷ d.log })) where
  base-IsPlanned :
      (item : SetlistItem) (bus : MidiBus) (op : PlanOperation) (reason : String)
      → bus.id ≡ bus_id
      → is_there op ≡ false
      → IsPlanned bus_id (base item bus none none (op ∷ []) reason [])
  unfolding base
  base-IsPlanned item bus op reason same other = record {
    on_bus = same;
    numbered = tt;
    scaled = λ n e. ground (arith, e);
    settled = λ e. ground (arith, e, other);
  }

  unnumbered-IsPlanned :
      (item : SetlistItem) (bus : MidiBus)
      → bus.id ≡ bus_id
      → IsPlanned bus_id (unnumbered item bus)
  unfolding unnumbered
  unnumbered-IsPlanned item bus same =
      elim item.target
        as (λ t. IsPlanned bus_id (elim t [
          | non_song ↦
              base item bus none none (skip_non_song ∷ [])
                "This setlist item is explicitly not a song." []
          | _ ↦
              base item bus none none (skip_ambiguous ∷ [])
                (or_else item.ambiguity "Target type is ambiguous.") []
        ])) [
          | non_song ↦ base-IsPlanned item bus skip_non_song _ same refl
          | _ ↦ base-IsPlanned item bus skip_ambiguous _ same refl
        ]

  module _ (bus : MidiBus) (buses : List MidiBus) (assignments : List OrdinalAssignment)
      (same : bus.id ≡ bus_id) where
    library-Gives :
        (item : SetlistItem) (n : ℕ)
        → n ≤ 127
        → Gives I (plan_library g bus buses assignments item n) (IsPlanned bus_id)
    unfolding plan_library
    library-Gives item n most =
        Gives-bind _ _ (resolve_cue-Gives g bus_id I logs library_cue n most) λ cue scaled.
          Gives-if (is_reused (λ id. count_library id assignments) (present item.library_entry_id))
            _ _ (λ _. Gives-return _ (refused-IsPlanned g bus_id item bus cue _ [] same scaled))
            (λ _. inspect_library-Gives g bus_id I logs item bus buses cue _ same scaled)

    cloud-Gives :
        (item : SetlistItem) (n : ℕ)
        → n ≤ 127
        → Gives I (plan_cloud g bus buses assignments item n) (IsPlanned bus_id)
    unfolding plan_cloud
    cloud-Gives item n most =
        Gives-bind _ _ (resolve_cue-Gives g bus_id I logs cloud_cue n most) λ cue scaled.
          Gives-if (is_reused (λ id. count_cloud id assignments) (present item.arrangement_id)) _ _
            (λ _. Gives-return _ (refused-IsPlanned g bus_id item bus cue _ [] same scaled))
            (λ _. inspect_cloud-Gives g bus_id I logs item bus buses cue _ same scaled)

    item-Gives :
        (item : SetlistItem) (o : Option ℕ)
        → Within127 o
        → Gives I (plan_item g bus buses assignments item o) (IsPlanned bus_id)
    unfolding plan_item
    item-Gives item none most = Gives-return _ (unnumbered-IsPlanned item bus same)
    item-Gives item (some n) most =
        elim item.target
          as (λ t.
            Gives I
              (elim t [
                | library ↦ plan_library g bus buses assignments item n
                | _ ↦ plan_cloud g bus buses assignments item n
              ])
              (IsPlanned bus_id)) [
                | library ↦ library-Gives item n most
                | _ ↦ cloud-Gives item n most
              ]

    items-Gives :
        (positions : Option (List ℕ)) (as' : List OrdinalAssignment)
        → All (λ a. Within127 a.song_ordinal) as'
        → Gives I (plan_items g bus buses assignments positions as') (All (IsPlanned bus_id))
    unfolding plan_items
    items-Gives positions [] bounded = Gives-return [] tt
    items-Gives positions (a ∷ rest) bounded =
        Gives-if (is_selected positions a.item.position) _ _
          (λ _. Gives-bind _ _ (item-Gives a.item a.song_ordinal bounded.0) λ item planned.
            Gives-bind _ _ (items-Gives positions rest bounded.1)
              λ items all_planned. Gives-return _ (planned, all_planned))
          (λ _. items-Gives positions rest bounded.1)

  -- The plan's items, and its bus.
  abbrev pub IsPlan : CuePlan → Type 0
  IsPlan plan = All (IsPlanned bus_id) plan.items

  assigned-Gives :
      (setlist : Setlist) (bus : MidiBus) (buses : List MidiBus) (positions : Option (List ℕ))
      (o : Option (List OrdinalAssignment))
      → bus.id ≡ bus_id
      → IsBounded o
      → Gives I (plan_assigned g (some bus_id) setlist bus buses positions o) IsPlan
  unfolding plan_assigned
  assigned-Gives setlist bus buses positions none same bounded = Gives-fail _
  assigned-Gives setlist bus buses positions (some as') same bounded =
      Gives-bind _ _ (items-Gives bus buses as' same positions as' bounded)
        λ items planned. Gives-return _ planned

  -- The buses that the filter keeps have the configured identifier.
  kept-same :
      (buses : List MidiBus)
      → All (λ bus. bus.id ≡ bus_id) (keep (λ bus. str_eq bus.id bus_id) buses)
  kept-same [] = tt
  kept-same (bus ∷ buses) = elim (Bool-cases (str_eq bus.id bus_id)) [
    | inl e ↦ rw e (ground (arith, eq_iff bus.id bus_id, e), kept-same buses)
    | inr e ↦ rw e (kept-same buses)
  ]

  the_bus-Gives :
      (buses : List MidiBus)
      → All (λ bus. bus.id ≡ bus_id) buses
      → Gives I (the_bus buses) (λ bus. bus.id ≡ bus_id)
  unfolding the_bus
  the_bus-Gives [] h = Gives-fail _
  the_bus-Gives (bus ∷ []) h = Gives-return bus h.0
  the_bus-Gives (_ ∷ _ ∷ _) h = Gives-fail _

  validate-Gives :
      (buses : List MidiBus) → Gives I (validate_bus (some bus_id) buses) (λ bus. bus.id ≡ bus_id)
  unfolding validate_bus
  validate-Gives buses = the_bus-Gives _ (kept-same buses)

  pub build-Gives :
      (setlist_id profile : String) (positions : Option (List ℕ))
      → Gives I (build_cue_plan g (some bus_id) setlist_id profile positions) IsPlan
  unfolding build_cue_plan assign_song_ordinals
  build-Gives setlist_id profile positions =
      Gives-if (not (str_eq profile "setlist-ordinal-test")) _ _ (λ _. Gives-fail _)
        λ _. Gives-bind _ _ (ask-Keeps I logs _ _ refl) λ setlist _.
          Gives-bind _ _ (ask-Keeps I logs _ _ refl) λ buses _.
            Gives-bind _ _ (validate-Gives buses) λ bus same.
              assigned-Gives setlist bus buses positions _ same
                (assign_from-IsBounded 0 (sort_by_position setlist.items))

pub build-Allowed :
    (g : Gateway) (bus_id setlist_id profile : String) (positions : Option (List ℕ))
    → Gives
        (Allowed g bus_id)
        (build_cue_plan g (some bus_id) setlist_id profile positions)
        (λ plan. All (IsPlanned bus_id) plan.items)
build-Allowed g bus_id setlist_id profile positions =
    build-Gives g bus_id (Allowed g bus_id) (λ call d h i. (read-IsAllowed bus_id call h, i))
      setlist_id profile positions
