-- ===== src/Pairing.antt =====
-- frontend/src/components/songPairing.ts: which Playback song goes with which song of the service plan. A
-- run of the loop is one unit of fuel; there are at most as many as songs on both sides.
use stagepilot_beta.Common.{
  ℕ, zero, suc, ◌+◌, ◌-◌, ltb, String, Bool, true, false, Option, none, some, List, [], ◌∷◌, length,
  if◌then◌else◌,
}
pub mod Complete

pub data ArrangementLine : Type 0 where
  pair : (plan playback : ℕ) → ArrangementLine
  plan_skip : (plan : ℕ) → ArrangementLine
  playback_skip : (playback : ℕ) → ArrangementLine
  plan_alone : (plan : ℕ) → ArrangementLine
  playback_alone : (playback : ℕ) → ArrangementLine

module _ (plan_skips : String → Bool) (playback_skips : ℕ → Bool) where
  -- A Playback song without an identifier is not skipped.
  abbrev pub is_skipped : List ℕ → Bool
  is_skipped [] = false
  is_skipped (id ∷ order) = playback_skips id

  abbrev pub rest_of : List ℕ → List ℕ
  rest_of [] = []
  rest_of (id ∷ order) = order

  abbrev pub plan_left : Bool → ℕ → ArrangementLine
  plan_left true plan = plan_skip plan
  plan_left false plan = plan_alone plan

  abbrev pub playback_left : Bool → ℕ → ArrangementLine
  playback_left true playback = playback_skip playback
  playback_left false playback = playback_alone playback

  -- From the `plan`th song of the plan and the `playback`th of Playback, of which `ids`, and
  -- `count` with `order`, are left.
  unfoldable pub arrange_from : ℕ → ℕ → List String → ℕ → ℕ → List ℕ → List ArrangementLine
  arrange_from zero plan ids playback count order = []
  arrange_from (suc fuel) plan [] playback zero order = []
  arrange_from (suc fuel) plan [] playback (suc count) order =
      playback_left (is_skipped order) playback
      ∷ arrange_from fuel plan [] (suc playback) count (rest_of order)
  arrange_from (suc fuel) plan (id ∷ ids) playback zero order =
      plan_left (plan_skips id) plan ∷ arrange_from fuel (suc plan) ids playback zero order
  arrange_from (suc fuel) plan (id ∷ ids) playback (suc count) order = elim (plan_skips id) [
    | true ↦ plan_skip plan ∷ arrange_from fuel (suc plan) ids playback (suc count) order
    | false ↦ elim (is_skipped order) [
      | true ↦
          playback_skip playback
          ∷ arrange_from fuel plan (id ∷ ids) (suc playback) count (rest_of order)
      | false ↦
          pair plan playback ∷ arrange_from fuel (suc plan) ids (suc playback) count (rest_of order)
    ]
  ]

  unfoldable pub arrange_songs : List String → ℕ → List ℕ → List ArrangementLine
  unfolding arrange_from
  arrange_songs ids count order = arrange_from (length ids + count) 0 ids 0 count order

-- `Math.abs(plan - Math.floor(playback + 0.5))`, by the rounded length of the Playback song.
unfoldable pub seconds_apart : Option ℕ → Option ℕ → Option ℕ
seconds_apart none playback = none
seconds_apart (some plan) none = none
seconds_apart (some plan) (some playback) =
    some (if ltb plan playback then playback - plan else plan - playback)
