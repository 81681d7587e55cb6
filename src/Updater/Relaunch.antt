-- ===== src/Updater/Relaunch.antt =====
-- frontend/src/services/updater.ts: `restoreAfterRelaunch`, and the marker from one run to the next.
use stagepilot_beta.Common.{
  ℕ, ◌+◌, ◌≤◌, ltb, String, str_eq, starts_with, Bool, Bool, Bool-cases, true, false, not, ◌||◌,
  Option, none, some, ◌≡◌, ◌⊎◌, inl, inr, refl, eq_iff, arith, if◌then◌else◌,
}
use stagepilot_beta.Common.Exec.{Result, done, failed, return, step, resume, ◌>>=◌, ◌>>◌}
use stagepilot_beta.Updater.{
  RelaunchMarker, MarkerRow, no_row, bad_row, marker_row, Platform, Updater, Task, modify, call,
  day,
}
use stagepilot_beta.Updater.Install.{prepare_relaunch}

-- The version, the route of the marker, and the route that the page is sent to.
pub record Restored : Type 0 where
  pub updated_version : String
  pub route : Option String
  pub hash : Option String

abbrev pub hash_of : Option String → Option String
hash_of none = none
hash_of (some route) = if starts_with route "#" then some route else none

abbrev pub is_outdated : ℕ → Option ℕ → Bool
is_outdated now none = true
is_outdated now (some at) = ltb (at + day) now

unfoldable pub clear_marker : Task (Unit {0})
unfolding modify
clear_marker = modify (λ u. record u { marker = no_row })

module _ (p : Platform) where
  unfoldable pub show_restored : RelaunchMarker → Task (Option Restored)
  show_restored m = do
    call p.window_shown
    clear_marker
    return (some (record { updated_version = p.version; route = m.route; hash = hash_of m.route }))

  unfoldable pub restore_marker : RelaunchMarker → Task (Option Restored)
  restore_marker m =
      if is_outdated p.now m.created_at || not (str_eq p.version m.target_version)
      then (do clear_marker; return none)
      else show_restored m

  unfoldable pub restore_row : MarkerRow → Task (Option Restored)
  restore_row no_row = return none
  restore_row bad_row = return none
  restore_row (marker_row m) = restore_marker m

  unfoldable pub restore_after_relaunch : Task (Option Restored)
  restore_after_relaunch u = restore_row u.marker u

abbrev pub stored_row : Platform → String → Updater → Updater
stored_row p version u = record u {
  marker =
      marker_row (record { target_version = version; route = p.route; created_at = some p.now });
}

-- The marker is used up.
abbrev pub cleared : Updater → Updater
cleared u = record u { marker = no_row }

prepare-stored :
    (p : Platform) (version : String) (u : Updater)
    → p.marker_stored ≡ done tt
    → (prepare_relaunch p version u).1 ≡ stored_row p version u
unfolding prepare_relaunch modify call step ◌>>=◌ resume
prepare-stored p version u stored = rw stored refl

-- The page is sent to a route that is one of its own, which starts with #.
abbrev pub IsSentTo : Option String → Option String → Type 0
IsSentTo none page = page ≡ none
IsSentTo (some route) page =
    (starts_with route "#" ≡ true → page ≡ some route)
    × (starts_with route "#" ≡ false → page ≡ none)

hash-IsSentTo : (route : Option String) → IsSentTo route (hash_of route)
hash-IsSentTo none = refl
hash-IsSentTo (some route) = (λ own. rw own refl, λ other. rw other refl)

-- The ways in which the start `next` can end after a relaunch that `p` prepared for `version`.
module _ (p next : Platform) (version : String) (u : Updater) where
  abbrev pub IsMeant : Type 0
  IsMeant = (next.version ≡ version) × (next.now ≤ p.now + day)

  abbrev pub IsTakenOver : Updater → Type 0
  IsTakenOver before =
      IsMeant
      × (next.window_shown ≡ done tt)
      × ((page : Option String) × IsSentTo p.route page
          × (restore_after_relaunch next before ≡ (
            done (some (record { updated_version = version; route = p.route; hash = page })),
            cleared u,
          )))

  abbrev pub IsHidden : Updater → Type 0
  IsHidden before =
      IsMeant
      × ((e : String) × (next.window_shown ≡ failed e)
          × (restore_after_relaunch next before ≡ (failed e, before)))

  abbrev pub IsDropped : Updater → Type 0
  IsDropped before = (¬ IsMeant) × (restore_after_relaunch next before ≡ (done none, cleared u))

  shown-Ends :
      (r : Result String (Unit {0}))
      → next.window_shown ≡ r
      → IsMeant
      → IsTakenOver (stored_row p version u) ⊎ IsHidden (stored_row p version u)
  unfolding restore_after_relaunch restore_row restore_marker show_restored clear_marker modify call
      step return ◌>>=◌ resume
  shown-Ends (done v) shown (same, fresh) =
      let on_time : ltb (p.now + day) next.now ≡ false = ground (arith, fresh) in
      let equal : str_eq next.version version ≡ true = (eq_iff next.version version).1 same in
      inl (
        (same, fresh),
        shown,
        (hash_of p.route, hash-IsSentTo p.route, rw (on_time, equal, shown, same) refl),
      )
  shown-Ends (failed e) shown (same, fresh) =
      let on_time : ltb (p.now + day) next.now ≡ false = ground (arith, fresh) in
      let equal : str_eq next.version version ≡ true = (eq_iff next.version version).1 same in
      inr ((same, fresh), (e, shown, rw (on_time, equal, shown) refl))

  dropped :
      (late other : Bool)
      → ltb (p.now + day) next.now ≡ late
      → not (str_eq next.version version) ≡ other
      → late || other ≡ true
      → restore_after_relaunch next (stored_row p version u) ≡ (done none, cleared u)
  unfolding restore_after_relaunch restore_row restore_marker clear_marker modify step return ◌>>=◌
      resume
  dropped late other e f either = rw (e, f, either) refl

  Ends-IsMeant :
      IsMeant
      ⊎ ((¬ IsMeant) × (ltb (p.now + day) next.now || not (str_eq next.version version) ≡ true))
  Ends-IsMeant = elim (Bool-cases (ltb (p.now + day) next.now)) [
    | inl late ↦ inr ((λ (same, fresh). ground (arith, late, fresh)), ground (arith, late))
    | inr on_time ↦ elim (Bool-cases (str_eq next.version version)) [
      | inl same ↦ inl ((eq_iff next.version version).0 same, ground (arith, on_time))
      | inr other ↦ inr (
        (λ (same, fresh). let e = (eq_iff next.version version).1 same in ground (arith, e, other)),
        ground (arith, on_time, other),
      )
    ]
  ]

  row-Ends :
      IsTakenOver (stored_row p version u)
      ⊎ (IsHidden (stored_row p version u) ⊎ IsDropped (stored_row p version u))
  row-Ends = elim Ends-IsMeant [
    | inl meant ↦ elim (shown-Ends next.window_shown refl meant) [
      | inl restored ↦ inl restored
      | inr hidden ↦ inr (inl hidden)
    ]
    | inr (stray, either) ↦ inr (inr (stray, dropped _ _ refl refl either))
  ]

-- A start that finds no marker and changes nothing.
abbrev pub IsUsedUp : Platform → Updater → Type 0
IsUsedUp later u = restore_after_relaunch later u ≡ (done none, u)

cleared-IsUsedUp : (later : Platform) (u : Updater) → IsUsedUp later (cleared u)
unfolding restore_after_relaunch restore_row return step
cleared-IsUsedUp later u = refl

-- Where the browser takes the marker of a relaunch, the next start ends in one of three ways. A
-- start of the version that it names, at most a day after it, shows the window, takes the route over
-- and sends the page there, if the route starts with #; or showing the window fails, which fails the
-- start and leaves the marker to a further one.
-- Any other start finds nothing. In the first and the last case the marker is used up: whatever
-- start comes then finds nothing.
pub relaunch-restored :
    (p next later : Platform) (version : String) (u : Updater)
    → p.marker_stored ≡ done tt
    → (IsTakenOver p next version u (prepare_relaunch p version u).1
        × IsUsedUp later (restore_after_relaunch next (prepare_relaunch p version u).1).1)
      ⊎ (IsHidden p next version u (prepare_relaunch p version u).1
          ⊎ (IsDropped p next version u (prepare_relaunch p version u).1
              × IsUsedUp later (restore_after_relaunch next (prepare_relaunch p version u).1).1))
relaunch-restored p next later version u stored =
    let used = cleared-IsUsedUp later u in
    rw (prepare-stored p version u stored) (elim (row-Ends p next version u) [
      | inl restored ↦ inl (restored, rw restored.2.2 used)
      | inr (inl hidden) ↦ inr (inl hidden)
      | inr (inr lost) ↦ inr (inr (lost, rw lost.1 used))
    ])
