-- ===== src/Registry/Action.antt =====
-- The handlers of control-plane/src/index.ts as actions on the registry's world. What was stored
-- before an exception stays stored.
use stagepilot_beta.Common.{ℕ, String, insert, erase, lookup, Option}
use stagepilot_beta.Registry.Data.{World, Installation, RegistryStats, CachedToken, Lane}

-- The requests of `cf` as its error messages name them.
pub data Operation : Type 0 where
  dns tunnel_token tunnel_configuration tunnel_lifecycle : Operation

-- `Limited`, or an `Error` by its message.
pub data Thrown : Type 0 where
  limited : (status retry_after : ℕ) (message : String) → Thrown
  http_failure : Operation → ℕ → Thrown
  invalid_response rejected : Operation → Thrown
  error : (message : String) → Thrown

pub data Outcome (A : Type 0) : Type 0 where
  ok : A → Outcome A
  thrown : Thrown → Outcome A

abbrev pub Action : Type 0 → Type 0
Action A = World → Outcome A × World

module _ {A : Type 0} where
  unfoldable pub pure : A → Action A
  pure a w = (ok a, w)

  unfoldable pub throw : Thrown → Action A
  throw t w = (thrown t, w)

  unfoldable pub gets : (World → A) → Action A
  gets f w = (ok (f w), w)

unfoldable pub modify : (World → World) → Action (Unit {0})
modify f w = (ok tt, f w)

module _ {A B : Type 0} where
  unfoldable pub continue : Outcome A → (A → Action B) → Action B
  continue (ok a) f w = f a w
  continue (thrown t) f w = (thrown t, w)

  infixl 10 ◌>>=◌ ◌>>◌
  unfoldable pub ◌>>=◌ : Action A → (A → Action B) → Action B
  unfolding pure throw gets modify continue
  ◌>>=◌ m f w = let (r, w') = m w in continue r f w'

  abbrev pub ◌>>◌ : Action A → Action B → Action B
  m >> n = m >>= λ _. n

-- `this.save`
unfoldable pub save : Installation → Action (Unit {0})
unfolding modify insert
save i = modify (λ w. record w { installations = insert i.id i w.installations })

unfoldable pub put_stats : RegistryStats → Action (Unit {0})
unfolding modify
put_stats s = modify (λ w. record w { stats = Option.some s })

unfoldable pub forget_token : String → Action (Unit {0})
unfolding modify erase
forget_token id = modify (λ w. record w { token_cache = erase id w.token_cache })

unfoldable pub remember_token : String → CachedToken → Action (Unit {0})
unfolding modify insert
remember_token id t = modify (λ w. record w { token_cache = insert id t w.token_cache })

unfoldable pub load : String → Action (Option Installation)
unfolding gets lookup
load id = gets (λ w. lookup id w.installations)

-- `withProviderLane`: the previous lane comes back also after an exception.
unfoldable pub with_lane : {A : Type 0} → Lane → Action A → Action A
with_lane lane m w = let (r, w') = m (record w { lane = lane }) in (r, record w' { lane = w.lane })
