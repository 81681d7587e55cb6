-- ===== src/Registry/Limits.antt =====
-- control-plane/src/index.ts: the statistics of the registry and its three stored rate limits
-- (per installation, per installation's diagnostics, and the budget of provider requests).
use stagepilot_beta.Common.{ℕ, suc, ◌+◌, [], ◌∷◌, Option, none, some, Dict, length, if◌then◌else◌}
use stagepilot_beta.Registry.Windows.{RateWindow, Admission, refused, admitted, take_rate}
use stagepilot_beta.Registry.Data.{Env, Installation, RegistryStats, Lane, normal, recovery}
use stagepilot_beta.Registry.Action.{
  Action, limited, pure, throw, modify, ◌>>=◌, ◌>>◌, save, put_stats,
}

-- `[...rows.values()].filter((row) => !row.revoked).length`
unfoldable pub count_live : Dict Installation → ℕ
count_live [] = 0
count_live ((_, i) ∷ rows) = if i.revoked then count_live rows else suc (count_live rows)

unfoldable pub initial_stats : Dict Installation → RegistryStats
unfolding count_live
initial_stats rows = record {
  active_installations = count_live rows;
  enrollments = length rows;
  enrollment_denied = 0;
  status_denied = 0;
  mutation_denied = 0;
  provider_denied = 0;
  diagnostics_bytes_used = some 0;
}

unfoldable pub read_stats : Option RegistryStats → Dict Installation → Action RegistryStats
unfolding initial_stats put_stats ◌>>=◌
read_stats none rows = do let fresh = initial_stats rows; put_stats fresh; pure fresh
read_stats (some s) rows = elim s.diagnostics_bytes_used [
  | none ↦ do
    let patched = record s { diagnostics_bytes_used = some 0 }
    put_stats patched
    pure patched
  | some _ ↦ pure s
]

unfoldable pub stats : Action RegistryStats
unfolding read_stats
stats w = read_stats w.stats w.installations w

pub data Denied : Type 0 where
  enrollment_denied status_denied mutation_denied provider_denied : Denied

unfoldable pub count_denied : Denied → RegistryStats → RegistryStats
count_denied enrollment_denied s = record s { enrollment_denied = s.enrollment_denied + 1 }
count_denied status_denied s = record s { status_denied = s.status_denied + 1 }
count_denied mutation_denied s = record s { mutation_denied = s.mutation_denied + 1 }
count_denied provider_denied s = record s { provider_denied = s.provider_denied + 1 }

unfoldable pub bump_denied : RegistryStats → Denied → Action (Unit {0})
unfolding count_denied put_stats
bump_denied s field = put_stats (count_denied field s)

pub data Kind : Type 0 where
  status mutation : Kind

abbrev pub kind_limit : Kind → ℕ
kind_limit status = 120
kind_limit mutation = 20

abbrev pub kind_window : Kind → Installation → Option RateWindow
kind_window status i = i.status_rate
kind_window mutation i = i.mutation_rate

abbrev pub set_kind_window : Kind → Installation → RateWindow → Installation
set_kind_window status i w = record i { status_rate = some w }
set_kind_window mutation i w = record i { mutation_rate = some w }

abbrev pub kind_denied : Kind → Denied
kind_denied status = status_denied
kind_denied mutation = mutation_denied

abbrev pub kind_message : Kind → Prim.Native.String.String
kind_message status = "status rate limited"
kind_message mutation = "mutation rate limited"

abbrev pub diagnostics_uploads_per_hour : ℕ
diagnostics_uploads_per_hour = 6

abbrev pub provider_window_seconds : ℕ
provider_window_seconds = 300

abbrev pub ceiling : Lane → ℕ
ceiling recovery = 600
ceiling normal = 480

module _ (env : Env) where
  unfoldable pub settle_installation_rate : Installation → Kind → Admission → Action Installation
  unfolding stats bump_denied save ◌>>=◌
  settle_installation_rate i kind (refused retry) = do
    s ← stats
    bump_denied s (kind_denied kind)
    throw (limited 429 retry (kind_message kind))
  settle_installation_rate i kind (admitted window) = do
    let charged = set_kind_window kind i window
    save charged
    pure charged

  unfoldable pub take_installation_rate : Installation → Kind → Action Installation
  unfolding settle_installation_rate take_rate
  take_installation_rate i kind w =
      settle_installation_rate i kind
        (take_rate 60 (kind_limit kind) (env.seconds w.log w.moment) (kind_window kind i)) w

  unfoldable pub settle_diagnostics_rate : Installation → Admission → Action Installation
  unfolding save ◌>>=◌
  settle_diagnostics_rate i (refused retry) =
      throw (limited 429 retry "diagnostics upload rate limited")
  settle_diagnostics_rate i (admitted window) = do
    let charged = record i { diagnostics_rate = some window }
    save charged
    pure charged

  unfoldable pub take_diagnostics_rate : Installation → Action Installation
  unfolding settle_diagnostics_rate take_rate
  take_diagnostics_rate i w =
      settle_diagnostics_rate i
        (take_rate 3600 diagnostics_uploads_per_hour (env.seconds w.log w.moment)
          i.diagnostics_rate)
        w

  unfoldable pub settle_provider_budget : Admission → Action (Unit {0})
  unfolding stats bump_denied ◌>>=◌
  settle_provider_budget (refused retry) = do
    s ← stats
    bump_denied s provider_denied
    throw (limited 503 retry "provider capacity unavailable")
  settle_provider_budget (admitted window) =
      modify (λ w. record w { provider_budget = some window })

  unfoldable pub take_provider_budget : Action (Unit {0})
  unfolding settle_provider_budget take_rate
  take_provider_budget w =
      settle_provider_budget
        (take_rate provider_window_seconds (ceiling w.lane) (env.seconds w.log w.moment)
          w.provider_budget)
        w
