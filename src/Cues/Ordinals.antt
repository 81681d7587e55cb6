-- ===== src/Cues/Ordinals.antt =====
-- tools/multitracks-cues/src/cues/ordinal.ts: the ordinals of a setlist's songs.
use stagepilot_beta.Common.{
  ℕ, zero, suc, ◌+◌, ◌≤◌, ltb, leb, Bool, true, false, Option, none, some, List, [], ◌∷◌, map, ◌≡◌,
  refl, arith, if◌then◌else◌, is_some, length,
}
use stagepilot_beta.Cues.Data.{SetlistItem, TargetType, library, cloud, ambiguous, non_song}
pub mod Numbers
pub mod Order

pub record OrdinalAssignment : Type 0 where
  pub item : SetlistItem
  pub song_ordinal : Option ℕ

abbrev pub is_song : TargetType → Bool
is_song library = true
is_song cloud = true
is_song _ = false

-- The stable sort by position.
unfoldable pub insert_by_position : SetlistItem → List SetlistItem → List SetlistItem
insert_by_position i [] = i ∷ []
insert_by_position i (j ∷ js) =
    if leb i.position j.position then i ∷ j ∷ js else j ∷ insert_by_position i js

unfoldable pub sort_by_position : List SetlistItem → List SetlistItem
unfolding insert_by_position
sort_by_position [] = []
sort_by_position (i ∷ is) = insert_by_position i (sort_by_position is)

abbrev pub prepend :
    OrdinalAssignment → Option (List OrdinalAssignment) → Option (List OrdinalAssignment)
prepend a none = none
prepend a (some as') = some (a ∷ as')

-- `none` is the error that more than 127 songs raise; the number is the last ordinal given.
unfoldable pub assign_from : ℕ → List SetlistItem → Option (List OrdinalAssignment)
assign_from last [] = some []
assign_from last (i ∷ is) =
    let numbered = assign_from (suc last) is in
    let skipped = assign_from last is in
    if is_song i.target
    then (if ltb 127 (suc last)
        then none
        else prepend (record { item = i; song_ordinal = some (suc last) }) numbered)
    else prepend (record { item = i; song_ordinal = none }) skipped

unfoldable pub assign_song_ordinals : List SetlistItem → Option (List OrdinalAssignment)
unfolding assign_from sort_by_position
assign_song_ordinals items = assign_from 0 (sort_by_position items)
