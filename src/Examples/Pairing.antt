-- ===== src/Examples/Pairing.antt =====
-- Songs of a small plan and of Playback.
use stagepilot_beta.Common.{ℕ, String, Bool, some, List, [], ◌∷◌, length, ◌≡◌, refl, str_eq, ◌==◌}
use stagepilot_beta.Pairing.{
  pair, plan_skip, playback_skip, plan_alone, arrange_songs, seconds_apart,
}
use stagepilot_beta.Pairing.Complete.{
  plan_songs, playback_songs, pairs, numbers, zip, plan_kept, playback_kept, arrange_songs_complete,
}

abbrev skips_plan : String → Bool
skips_plan id = str_eq id "b"

abbrev two_ids : List String
two_ids = "a" ∷ "b" ∷ []

abbrev skips_playback : ℕ → Bool
skips_playback id = id == 7

pairing_tests :
    (arrange_songs skips_plan skips_playback ("a" ∷ "b" ∷ "c" ∷ []) 3 (7 ∷ 8 ∷ [])
      ≡ playback_skip 0 ∷ pair 0 1 ∷ plan_skip 1 ∷ pair 2 2 ∷ [])
    × ((arrange_songs skips_plan skips_playback ("a" ∷ "b" ∷ []) 0 []
          ≡ plan_alone 0 ∷ plan_skip 1 ∷ [])
        × (seconds_apart (some 200) (some 320) ≡ some 120))
unfolding arrange_songs seconds_apart
pairing_tests = (refl, (refl, refl))

arrange_songs_complete_example :
    (plan_songs (arrange_songs skips_plan skips_playback two_ids 1 (7 ∷ []))
      ≡ numbers 0 (length two_ids))
    × ((playback_songs (arrange_songs skips_plan skips_playback two_ids 1 (7 ∷ [])) ≡ numbers 0 1)
        × (pairs (arrange_songs skips_plan skips_playback two_ids 1 (7 ∷ []))
            ≡ zip
                (plan_kept skips_plan skips_playback 0 two_ids)
                (playback_kept skips_plan skips_playback 0 1 (7 ∷ []))))
arrange_songs_complete_example = arrange_songs_complete skips_plan skips_playback two_ids 1 (7 ∷ [])
