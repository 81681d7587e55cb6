-- ===== src/Registry/Slots/Steady.antt =====
-- control-plane/src/index.ts: the installations and the counter of active ones across `cf`.
use stagepilot_beta.Common.{ℕ, Option, none, some, Dict, ◌≡◌, arith}
use stagepilot_beta.Registry.Data.{
  World, Env, Installation, RegistryStats, Fetched, unreachable, CfCall,
}
use stagepilot_beta.Registry.Action.{Operation}
use stagepilot_beta.Registry.Limits.{stats, take_provider_budget}
use stagepilot_beta.Registry.Provider.{cf, fetch, receive}
use stagepilot_beta.Registry.Rules.Basic.{Keeps, keeps_rules}

abbrev pub active : Option RegistryStats → Option ℕ
active none = none
active (some s) = some s.active_installations

module _ (rows : Dict Installation) (n : ℕ) where
  pub record IsSteady (w : World) : Type 0 where
    pub same : w.installations ≡ rows
    pub counted : active w.stats ≡ some n

  pub stats-IsSteady : Keeps IsSteady stats
  unfolding stats
  stats-IsSteady = record { at = λ w h. record { same = ground arith; counted = ground arith } }

  budget-IsSteady : (env : Env) → Keeps IsSteady (take_provider_budget env)
  unfolding take_provider_budget
  budget-IsSteady env = record {
    at = λ w h. record { same = ground arith; counted = ground arith };
  }

  fetch-IsSteady : (env : Env) (call : CfCall) → Keeps IsSteady (fetch env call)
  unfolding fetch
  fetch-IsSteady env call = record { at = λ w h. record { same = h.same; counted = h.counted } }

  receive-IsSteady : (op : Operation) (f : Fetched) → Keeps IsSteady (receive op f)
  unfolding receive
  receive-IsSteady op unreachable = search keeps_rules
  receive-IsSteady op _ = search keeps_rules

  pub cf-IsSteady : (env : Env) (call : CfCall) → Keeps IsSteady (cf env call)
  unfolding cf
  cf-IsSteady env call = search (keeps_rules, budget-IsSteady, fetch-IsSteady, receive-IsSteady)
