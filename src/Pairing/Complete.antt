-- ===== src/Pairing/Complete.antt =====
-- frontend/src/components/songPairing.ts: the songs that an arrangement names, and its pairs.
use stagepilot_beta.Common.{
  ℕ, zero, suc, ◌+◌, ◌≤◌, String, Bool, List, [], ◌∷◌, length, ◌≡◌, refl, arith, if◌then◌else◌,
}
use stagepilot_beta.Pairing.{
  ArrangementLine, pair, plan_skip, playback_skip, plan_alone, playback_alone, is_skipped, rest_of,
  arrange_from, arrange_songs,
}

pub plan_songs : List ArrangementLine → List ℕ
plan_songs [] = []
plan_songs (pair p q ∷ lines) = p ∷ plan_songs lines
plan_songs (plan_skip p ∷ lines) = p ∷ plan_songs lines
plan_songs (plan_alone p ∷ lines) = p ∷ plan_songs lines
plan_songs (playback_skip q ∷ lines) = plan_songs lines
plan_songs (playback_alone q ∷ lines) = plan_songs lines

pub playback_songs : List ArrangementLine → List ℕ
playback_songs [] = []
playback_songs (pair p q ∷ lines) = q ∷ playback_songs lines
playback_songs (playback_skip q ∷ lines) = q ∷ playback_songs lines
playback_songs (playback_alone q ∷ lines) = q ∷ playback_songs lines
playback_songs (plan_skip p ∷ lines) = playback_songs lines
playback_songs (plan_alone p ∷ lines) = playback_songs lines

pub pairs : List ArrangementLine → List (ℕ × ℕ)
pairs [] = []
pairs (pair p q ∷ lines) = (p, q) ∷ pairs lines
pairs (plan_skip p ∷ lines) = pairs lines
pairs (plan_alone p ∷ lines) = pairs lines
pairs (playback_skip q ∷ lines) = pairs lines
pairs (playback_alone q ∷ lines) = pairs lines

-- The numbers from `first` on, `n` of them.
pub numbers : ℕ → ℕ → List ℕ
numbers first zero = []
numbers first (suc n) = first ∷ numbers (suc first) n

pub zip : List ℕ → List ℕ → List (ℕ × ℕ)
zip [] qs = []
zip (p ∷ ps) [] = []
zip (p ∷ ps) (q ∷ qs) = (p, q) ∷ zip ps qs

module _ (plan_skips : String → Bool) (playback_skips : ℕ → Bool) where
  -- The places of the songs that are not skipped.
  pub plan_kept : ℕ → List String → List ℕ
  plan_kept p [] = []
  plan_kept p (id ∷ ids) =
      if plan_skips id then plan_kept (suc p) ids else p ∷ plan_kept (suc p) ids

  pub playback_kept : ℕ → ℕ → List ℕ → List ℕ
  playback_kept q zero order = []
  playback_kept q (suc count) order =
      let later = playback_kept (suc q) count (rest_of plan_skips playback_skips order) in
      if is_skipped plan_skips playback_skips order then later else q ∷ later

  abbrev lines_from : ℕ → ℕ → List String → ℕ → ℕ → List ℕ → List ArrangementLine
  lines_from = arrange_from plan_skips playback_skips

  plan_complete :
      (fuel p : ℕ) (ids : List String) (q count : ℕ) (order : List ℕ)
      → length ids + count ≤ fuel
      → plan_songs (lines_from fuel p ids q count order) ≡ numbers p (length ids)
  unfolding arrange_from plan_songs numbers
  plan_complete zero p [] q count order enough = refl
  plan_complete zero p (id ∷ ids) q count order enough = ground (arith, enough)
  plan_complete (suc fuel) p [] q zero order enough = refl
  plan_complete (suc fuel) p [] q (suc count) order enough =
      ground
        (arith, plan_complete fuel p [] (suc q) count (rest_of plan_skips playback_skips order))
  plan_complete (suc fuel) p (id ∷ ids) q zero order enough =
      ground (arith, plan_complete fuel (suc p) ids q zero order)
  plan_complete (suc fuel) p (id ∷ ids) q (suc count) order enough = ground (
    arith,
    plan_complete fuel (suc p) ids q (suc count) order,
    plan_complete fuel p (id ∷ ids) (suc q) count (rest_of plan_skips playback_skips order),
    plan_complete fuel (suc p) ids (suc q) count (rest_of plan_skips playback_skips order),
  )

  playback_complete :
      (fuel p : ℕ) (ids : List String) (q count : ℕ) (order : List ℕ)
      → length ids + count ≤ fuel
      → playback_songs (lines_from fuel p ids q count order) ≡ numbers q count
  unfolding arrange_from playback_songs numbers
  playback_complete zero p [] q zero order enough = refl
  playback_complete zero p [] q (suc count) order enough = ground (arith, enough)
  playback_complete zero p (id ∷ ids) q count order enough = ground (arith, enough)
  playback_complete (suc fuel) p [] q zero order enough = refl
  playback_complete (suc fuel) p [] q (suc count) order enough =
      ground
        (arith, playback_complete fuel p [] (suc q) count (rest_of plan_skips playback_skips order))
  playback_complete (suc fuel) p (id ∷ ids) q zero order enough =
      ground (arith, playback_complete fuel (suc p) ids q zero order)
  playback_complete (suc fuel) p (id ∷ ids) q (suc count) order enough = ground (
    arith,
    playback_complete fuel (suc p) ids q (suc count) order,
    playback_complete fuel p (id ∷ ids) (suc q) count (rest_of plan_skips playback_skips order),
    playback_complete fuel (suc p) ids (suc q) count (rest_of plan_skips playback_skips order),
  )

  zip_none : (ps : List ℕ) → zip ps [] ≡ []
  unfolding zip
  zip_none [] = refl
  zip_none (p ∷ ps) = refl

  pairs_match :
      (fuel p : ℕ) (ids : List String) (q count : ℕ) (order : List ℕ)
      → length ids + count ≤ fuel
      → pairs (lines_from fuel p ids q count order)
        ≡ zip (plan_kept p ids) (playback_kept q count order)
  unfolding arrange_from pairs zip plan_kept playback_kept
  pairs_match zero p [] q zero order enough = refl
  pairs_match zero p [] q (suc count) order enough = ground (arith, enough)
  pairs_match zero p (id ∷ ids) q count order enough = ground (arith, enough)
  pairs_match (suc fuel) p [] q zero order enough = refl
  pairs_match (suc fuel) p [] q (suc count) order enough =
      ground (arith, pairs_match fuel p [] (suc q) count (rest_of plan_skips playback_skips order))
  pairs_match (suc fuel) p (id ∷ ids) q zero order enough = ground (
    arith,
    pairs_match fuel (suc p) ids q zero order,
    zip_none (plan_kept (suc p) ids),
    zip_none (p ∷ plan_kept (suc p) ids),
  )
  pairs_match (suc fuel) p (id ∷ ids) q (suc count) order enough = ground (
    arith,
    pairs_match fuel (suc p) ids q (suc count) order,
    pairs_match fuel p (id ∷ ids) (suc q) count (rest_of plan_skips playback_skips order),
    pairs_match fuel (suc p) ids (suc q) count (rest_of plan_skips playback_skips order),
  )

-- The arrangement names every song of the plan once, in its order, and every song of Playback
-- likewise, and it pairs the songs that are not skipped: the first of one side with the first of
-- the other, the second with the second, as far as both go.
pub arrange_songs_complete :
    (plan_skips : String → Bool) (playback_skips : ℕ → Bool) (ids : List String) (count : ℕ)
    (order : List ℕ)
    → (plan_songs (arrange_songs plan_skips playback_skips ids count order)
        ≡ numbers 0 (length ids))
      × ((playback_songs (arrange_songs plan_skips playback_skips ids count order)
            ≡ numbers 0 count)
          × (pairs (arrange_songs plan_skips playback_skips ids count order)
              ≡ zip
                  (plan_kept plan_skips playback_skips 0 ids)
                  (playback_kept plan_skips playback_skips 0 count order)))
unfolding arrange_songs
arrange_songs_complete plan_skips playback_skips ids count order =
    let enough : length ids + count ≤ length ids + count = omega arith in
    (
      plan_complete plan_skips playback_skips _ 0 ids 0 count order enough,
      (
        playback_complete plan_skips playback_skips _ 0 ids 0 count order enough,
        pairs_match plan_skips playback_skips _ 0 ids 0 count order enough,
      ),
    )
