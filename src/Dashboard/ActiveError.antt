-- ===== src/Dashboard/ActiveError.antt =====
-- frontend/src/components/dashboard/dashboardActiveError.ts: the latest error that still stands.
use stagepilot_beta.Common.{
  ℕ, zero, suc, ◌≤◌, true, false, Option, none, some, List, [], ◌∷◌, length, ◌==◌, or_else, sym, ap,
  ◌∙◌, Bool-cases, inl, inr, ◌⊎◌, ◌≡◌, refl, arith,
}
use stagepilot_beta.Dashboard.Errors.{
  ErrorSummary, ErrorState, error_is_active, error_at, active_or, latest_below, latest_active_error,
}
use stagepilot_beta.Dashboard.Standing.{IsStanding, active-IsStanding, standing-active}

abbrev Silent : ErrorState → ℕ → Type 0
Silent state from =
    (j : ℕ) (e : ErrorSummary)
    → from ≤ j
    → error_at j state.recent_errors ≡ some e
    → error_is_active e state ≡ false

abbrev IsFound : ErrorState → Option ErrorSummary → Type 0
IsFound state none = Silent state 0
IsFound state (some e) =
    (i : ℕ) × (error_at i state.recent_errors ≡ some e)
    × (error_is_active e state ≡ true)
    × Silent state (suc i)

le-cases : (k j : ℕ) → k ≤ j → (k ≡ j) ⊎ (suc k ≤ j)
le-cases k j h = elim (Bool-cases (k == j)) [
  | inl same ↦ inl (ground (arith, same))
  | inr other ↦ inr (ground (arith, other, h))
]

extend-Silent :
    (state : ErrorState) (k : ℕ)
    → ((e : ErrorSummary)
        → error_at k state.recent_errors ≡ some e
        → error_is_active e state ≡ false)
    → Silent state (suc k)
    → Silent state k
extend-Silent state k here silent j e from there = elim (le-cases k j from) [
  | inl same ↦ here e (ap (λ n. error_at n state.recent_errors) same ∙ there)
  | inr later ↦ silent j e later there
]

some-inj : (e e' : ErrorSummary) → some e ≡ some e' → e ≡ e'
some-inj e e' h = ap (λ o. or_else o e) h

same-Active :
    (state : ErrorState) (e e' : ErrorSummary)
    → e ≡ e'
    → error_is_active e state ≡ false
    → error_is_active e' state ≡ false
same-Active state e e' same over = ap (λ x. error_is_active x state) (sym same) ∙ over

round-IsFound :
    (state : ErrorState) (k : ℕ) (o earlier : Option ErrorSummary)
    → error_at k state.recent_errors ≡ o
    → Silent state (suc k)
    → (Silent state k → IsFound state earlier)
    → IsFound state (active_or state o earlier)
unfolding active_or
round-IsFound state k none earlier at silent below =
    below (extend-Silent state k (λ e there. ground (arith, sym at ∙ there)) silent)
round-IsFound state k (some e) earlier at silent below =
    elim (Bool-cases (error_is_active e state)) [
      | inl stands ↦ rw stands (k, at, stands, silent)
      | inr over ↦ rw over (
          below (
            extend-Silent state k
              (λ e' there. same-Active state e e' (some-inj e e' (sym at ∙ there)) over) silent))
    ]

below-IsFound : (state : ErrorState) (k : ℕ) → Silent state k → IsFound state (latest_below state k)
unfolding latest_below
below-IsFound state zero silent = silent
below-IsFound state (suc k) silent =
    round-IsFound state k (error_at k state.recent_errors) (latest_below state k) refl silent
      (below-IsFound state k)

past-the-end : (i : ℕ) (errors : List ErrorSummary) → length errors ≤ i → error_at i errors ≡ none
unfolding error_at
past-the-end i [] h = refl
past-the-end zero (e ∷ errors) h = ground arith
past-the-end (suc i) (e ∷ errors) h = past-the-end i errors (omega (arith, h))

-- From a place of the list on, no error stands.
abbrev pub IsSilent : ErrorState → ℕ → Type 0
IsSilent state from =
    (j : ℕ) (e : ErrorSummary)
    → from ≤ j
    → error_at j state.recent_errors ≡ some e
    → ¬ IsStanding e.component state

-- The error that is found, its place, and that those behind it no longer stand; or no error stands.
abbrev pub IsLatest : ErrorState → Option ErrorSummary → Type 0
IsLatest state none = IsSilent state 0
IsLatest state (some e) =
    (i : ℕ) × (error_at i state.recent_errors ≡ some e)
    × IsStanding e.component state
    × IsSilent state (suc i)

Silent-IsSilent : (state : ErrorState) (from : ℕ) → Silent state from → IsSilent state from
Silent-IsSilent state from silent j e after there stands =
    let active = standing-active e state stands in
    let over = silent j e after there in ground (arith, active, over)

found-IsLatest : (state : ErrorState) (o : Option ErrorSummary) → IsFound state o → IsLatest state o
found-IsLatest state none silent = Silent-IsSilent state 0 silent
found-IsLatest state (some e) (i, there, active, silent) =
    (i, there, active-IsStanding e state active, Silent-IsSilent state (suc i) silent)

-- The error that is shown is the last in the list that still stands: its component is in error, and
-- of no later entry is the component in error; and where none is shown, no entry still stands. The
-- timer, Planning Center, MIDI, ProPresenter and the lights have a status of their own; any other
-- component is a plugin, and is in error only where its plugin is.
pub latest_active_error-IsLatest : (state : ErrorState) → IsLatest state (latest_active_error state)
unfolding latest_active_error
latest_active_error-IsLatest state = found-IsLatest state _ (
    below-IsFound state (length state.recent_errors)
      λ j e from there. ground (arith, sym (past-the-end j state.recent_errors from) ∙ there))
