-- ===== src/Registry/Rules/Basic.antt =====
-- What an action keeps, whether it returns or throws: a rule for each way to build an action.
use stagepilot_beta.Common.{Bool, true, false, Option, none, some, if◌then◌else◌}
use stagepilot_beta.Registry.Data.{World}
use stagepilot_beta.Registry.Action.{
  Action, Outcome, ok, thrown, Thrown, pure, throw, gets, continue, ◌>>=◌,
}

pub record Keeps {A : Type 0} (P : World → Type 0) (m : Action A) : Type 0 where
  pub at : (w : World) → P w → P (m w).1

module _ {A : Type 0} {P : World → Type 0} where
  pub Keeps-pure : (a : A) → Keeps P (pure a)
  unfolding pure
  Keeps-pure a = record { at = λ w h. h }

  pub Keeps-throw : (t : Thrown) → Keeps P (throw {A = A} t)
  unfolding throw
  Keeps-throw t = record { at = λ w h. h }

  pub Keeps-gets : (f : World → A) → Keeps P (gets f)
  unfolding gets
  Keeps-gets f = record { at = λ w h. h }

  pub Keeps-if : (b : Bool) (m n : Action A) → Keeps P m → Keeps P n → Keeps P (if b then m else n)
  Keeps-if true m n km kn = km
  Keeps-if false m n km kn = kn

module _ {A B : Type 0} {P : World → Type 0} where
  Keeps-continue :
      (r : Outcome A) (f : A → Action B) → ((a : A) → Keeps P (f a)) → Keeps P (continue r f)
  unfolding continue
  Keeps-continue (ok a) f kf = kf a
  Keeps-continue (thrown t) f kf = record { at = λ w h. h }

  pub Keeps-bind :
      (m : Action A) (f : A → Action B) → Keeps P m → ((a : A) → Keeps P (f a)) → Keeps P (m >>= f)
  unfolding ◌>>=◌
  Keeps-bind m f km kf = record {
    at = λ w h. let (r, w') = m w in (Keeps-continue r f kf).at w' (km.at w h);
  }

  pub Keeps-elim :
      (o : Option A) (m : Action B) (f : A → Action B)
      → Keeps P m
      → ((a : A) → Keeps P (f a))
      → Keeps P (elim o [ none ↦ m | some a ↦ f a ])
  Keeps-elim none m f km kf = km
  Keeps-elim (some a) m f km kf = kf a

pub ruleset keeps_rules = (Keeps-pure, Keeps-throw, Keeps-gets, Keeps-if, Keeps-bind, Keeps-elim)
