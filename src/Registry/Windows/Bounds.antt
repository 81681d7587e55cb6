-- ===== src/Registry/Windows/Bounds.antt =====
-- How many requests the fixed windows of the registry admit.
use stagepilot_beta.Common.{
  ℕ, ◌+◌, ◌-◌, ◌*◌, ◌≤◌, ◌<◌, ◌≡◌, List, [], ◌∷◌, Option, none, some, All, arith,
}
use stagepilot_beta.Registry.Windows.{RateWindow, Admission, refused, admitted, take_rate}

-- What is stored after a decision: a refusal stores nothing.
abbrev pub stored_window : Admission → Option RateWindow → Option RateWindow
stored_window (refused retry) current = current
stored_window (admitted w) current = some w

abbrev pub admits : Admission → ℕ
admits (refused retry) = 0
admits (admitted w) = 1

-- The requests that are admitted of those that arrive at the given times, in their order.
unfoldable pub count_admitted : ℕ → ℕ → Option RateWindow → List ℕ → ℕ
count_admitted span limit current [] = 0
count_admitted span limit current (t ∷ ts) =
    let decision = take_rate span limit t current in
    admits decision + count_admitted span limit (stored_window decision current) ts

module _ (span limit a : ℕ) where
  abbrev pub Within : ℕ → Type 0
  Within t = (a ≤ t) × (t < a + span)

  -- A window that opened inside the interval is not replaced before its end.
  late_bound :
      (w : RateWindow) (ts : List ℕ)
      → a ≤ w.started_at
      → All Within ts
      → count_admitted span limit (some w) ts ≤ limit - w.count
  unfolding count_admitted take_rate
  late_bound w [] late inside = omega arith
  late_bound w (t ∷ ts) late inside = ground (
    arith,
    late_bound w ts late inside.1,
    late_bound (record w { count = w.count + 1 }) ts late inside.1,
  )

  some_bound :
      (w : RateWindow) (ts : List ℕ)
      → All Within ts
      → count_admitted span limit (some w) ts ≤ limit - w.count + limit
  unfolding count_admitted take_rate
  some_bound w [] inside = omega arith
  some_bound w (t ∷ ts) inside = ground (
    arith,
    some_bound w ts inside.1,
    some_bound (record w { count = w.count + 1 }) ts inside.1,
    late_bound (record { started_at = t; count = 1 }) ts inside.0.0 inside.1,
  )

-- In any interval as long as a window, and from any stored window, at most twice the limit of
-- requests is admitted, in whatever order their times are read.
pub sliding_bound :
    (span limit a : ℕ) (current : Option RateWindow) (times : List ℕ)
    → All (λ t. (a ≤ t) × (t < a + span)) times
    → count_admitted span limit current times ≤ 2 * limit
unfolding count_admitted take_rate
sliding_bound span limit a (some w) ts inside = omega (arith, some_bound span limit a w ts inside)
sliding_bound span limit a none [] inside = omega arith
sliding_bound span limit a none (t ∷ ts) inside = ground (
  arith,
  sliding_bound span limit a none ts inside.1,
  late_bound span limit a (record { started_at = t; count = 1 }) ts inside.0.0 inside.1,
)

-- What is stored after requests at the given times.
unfoldable pub after : ℕ → ℕ → Option RateWindow → List ℕ → Option RateWindow
after span limit current [] = current
after span limit current (t ∷ ts) =
    after span limit (stored_window (take_rate span limit t current) current) ts

-- Requests under the lower ceiling leave the rest of the window's budget to those under the
-- higher one: in a window whose count is within the lower ceiling, however many of them are made
-- before it ends, a request under the higher ceiling is still admitted.
pub reserve_kept :
    (span low high : ℕ) (w : RateWindow) (times : List ℕ) (now : ℕ)
    → low < high
    → w.count ≤ low
    → All (λ t. t < w.started_at + span) times
    → now < w.started_at + span
    → admits (take_rate span high now (after span low (some w) times)) ≡ 1
unfolding after take_rate
reserve_kept span low high w [] now less within inside last = ground arith
reserve_kept span low high w (t ∷ ts) now less within inside last = ground (
  arith,
  reserve_kept span low high w ts now less within inside.1 last,
  reserve_kept span low high (record w { count = w.count + 1 }) ts now less,
)
