-- ===== src/Registry/Rules/Leads.antt =====
-- What an action leads to: of the result that it returns, and after an exception.
use stagepilot_beta.Common.{Bool, true, false, Option, none, some, if◌then◌else◌}
use stagepilot_beta.Registry.Data.{World}
use stagepilot_beta.Registry.Action.{
  Action, Outcome, ok, thrown, Thrown, pure, throw, continue, ◌>>=◌,
}
use stagepilot_beta.Registry.Rules.Basic.{Keeps}

module _ (E : World → Type 0) where
  -- `Q` of what is returned, and `E` of the world after an exception.
  abbrev pub Ends : {A : Type 0} → (A → World → Type 0) → Outcome A → World → Type 0
  Ends Q (ok a) w = Q a w
  Ends Q (thrown t) w = E w

  pub record Leads {A : Type 0} (P : World → Type 0) (m : Action A) (Q : A → World → Type 0)
      : Type 0 where
    pub at : (w : World) → P w → Ends Q (m w).0 (m w).1

  module _ {A B : Type 0} {Q : A → World → Type 0} {R : B → World → Type 0} where
    Leads-continue :
        (r : Outcome A) (f : A → Action B) (w : World)
        → ((a : A) → Leads (Q a) (f a) R)
        → Ends Q r w
        → Ends R (continue r f w).0 (continue r f w).1
    unfolding continue
    Leads-continue (ok a) f w lf h = (lf a).at w h
    Leads-continue (thrown t) f w lf h = h

    pub Leads-bind :
        {P : World → Type 0} (m : Action A) (f : A → Action B)
        → Leads P m Q
        → ((a : A) → Leads (Q a) (f a) R)
        → Leads P (m >>= f) R
    unfolding ◌>>=◌
    Leads-bind m f lm lf = record {
      at = λ w h. let (r, w') = m w in Leads-continue r f w' lf (lm.at w h);
    }

  module _ {A : Type 0} {P : World → Type 0} {Q : A → World → Type 0} where
    pub Leads-pure : (a : A) → ((w : World) → P w → Q a w) → Leads P (pure a) Q
    unfolding pure
    Leads-pure a h = record { at = h }

    pub Leads-throw : (t : Thrown) → ((w : World) → P w → E w) → Leads P (throw t) Q
    unfolding throw
    Leads-throw t h = record { at = h }

    pub Leads-if :
        (b : Bool) (m n : Action A) → Leads P m Q → Leads P n Q → Leads P (if b then m else n) Q
    Leads-if true m n lm ln = lm
    Leads-if false m n lm ln = ln

    pub Leads-strengthen :
        {P' : World → Type 0} (m : Action A)
        → ((w : World) → P' w → P w)
        → Leads P m Q
        → Leads P' m Q
    Leads-strengthen m h l = record { at = λ w p. l.at w (h w p) }

  module _ {A B : Type 0} {P : World → Type 0} {Q : B → World → Type 0} where
    pub Leads-elim :
        (o : Option A) (m : Action B) (f : A → Action B)
        → Leads P m Q
        → ((a : A) → Leads P (f a) Q)
        → Leads P (elim o [ none ↦ m | some a ↦ f a ]) Q
    Leads-elim none m f lm lf = lm
    Leads-elim (some a) m f lm lf = lf a

  module _ {A : Type 0} {P : World → Type 0} where
    Ends-any : (r : Outcome A) (w : World) → ((w : World) → P w → E w) → P w → Ends (λ _. P) r w
    Ends-any (ok a) w sound h = h
    Ends-any (thrown t) w sound h = sound w h

    -- An action that keeps `P` whatever happens.
    pub Leads-keep : (m : Action A) → ((w : World) → P w → E w) → Keeps P m → Leads P m (λ _. P)
    Leads-keep m sound k = record {
      at = λ w h. let (r, w') = m w in Ends-any r w' sound (k.at w h);
    }
