-- ===== src/Registry/Windows.antt =====
-- The fixed request windows of the registry: `RateWindow` and the step that every rate limiter
-- of control-plane/src/index.ts takes.
pub mod Bounds
use stagepilot_beta.Common.{ℕ, ◌+◌, ◌-◌, max, Option, none, some, leb, if◌then◌else◌}

pub record RateWindow : Type 0 where
  pub started_at : ℕ
  pub count : ℕ

-- `now - startedAt >= span` is read as `startedAt + span <= now`, which is the same where the
-- clock has gone back.
unfoldable pub open_window : ℕ → ℕ → Option RateWindow → RateWindow
open_window span now none = record { started_at = now; count = 0 }
open_window span now (some w) =
    if leb (w.started_at + span) now then record { started_at = now; count = 0 } else w

-- `Math.max(1, span - (now - startedAt))`
unfoldable pub retry_after : ℕ → ℕ → RateWindow → ℕ
retry_after span now w = max 1 (w.started_at + span - now)

pub data Admission : Type 0 where
  refused : ℕ → Admission
  admitted : RateWindow → Admission

unfoldable pub take_rate : ℕ → ℕ → ℕ → Option RateWindow → Admission
unfolding open_window retry_after
take_rate span limit now current =
    let w = open_window span now current in
    if leb limit w.count
    then refused (retry_after span now w)
    else admitted (record w { count = w.count + 1 })
