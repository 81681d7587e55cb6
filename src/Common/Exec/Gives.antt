-- ===== src/Common/Exec/Gives.antt =====
-- An invariant of the state that code keeps however it ends, with what holds of its result.
use mathlib.Core.Option.{Option, none, some}
use mathlib.Core.Bool.{Bool, true, false}
use mathlib.Core.Path.{◌≡◌, refl}
use stagepilot_beta.Common.Tests.{if◌then◌else◌}
use stagepilot_beta.Common.Exec.{
  Result, done, failed, Exec, return, fail, resume, ◌>>=◌, caught, attempt,
}

module _ {ℓ} {E A : Type ℓ} where
  -- `P` of a result that is no error.
  abbrev pub OnDone : (A → Type ℓ) → Result E A → Type ℓ
  OnDone P (done a) = P a
  OnDone P (failed e) = Unit

  OnDone-map : {P Q : A → Type ℓ} (r : Result E A) → ((a : A) → P a → Q a) → OnDone P r → OnDone Q r
  OnDone-map (done a) f p = f a p
  OnDone-map (failed e) f p = tt

  pub OnDone-any : (r : Result E A) → OnDone (λ _. Unit) r
  OnDone-any (done a) = tt
  OnDone-any (failed e) = tt

module _ {ℓ} {S E A : Type ℓ} where
  pub record Gives (I : S → Type ℓ) (m : Exec S E A) (P : A → Type ℓ) : Type ℓ where
    pub run : (s : S) → I s → I (m s).1 × OnDone P (m s).0

module _ {ℓ} {S E A : Type ℓ} {I : S → Type ℓ} {P : A → Type ℓ} where
  pub Gives-return : (a : A) → P a → Gives {E = E} I (return a) P
  unfolding return
  Gives-return a p = record { run = λ s i. (i, p) }

  pub Gives-fail : (e : E) → Gives I (fail {A = A} e) P
  unfolding fail
  Gives-fail e = record { run = λ s i. (i, tt) }

  pub Gives-if :
      (b : Bool) (m n : Exec S E A)
      → (b ≡ true → Gives I m P)
      → (b ≡ false → Gives I n P)
      → Gives I (if b then m else n) P
  Gives-if true m n gm gn = gm refl
  Gives-if false m n gm gn = gn refl

  pub Gives-weaken :
      {Q : A → Type ℓ} (m : Exec S E A) → ((a : A) → P a → Q a) → Gives I m P → Gives I m Q
  Gives-weaken m f g = record { run = λ s i. ((g.run s i).0, OnDone-map (m s).0 f (g.run s i).1) }

module _ {ℓ} {S E A B : Type ℓ} {I : S → Type ℓ} {P : A → Type ℓ} {Q : B → Type ℓ} where
  Gives-resume :
      (f : A → Exec S E B) (r : Result E A) (s : S)
      → ((a : A) → P a → Gives I (f a) Q)
      → I s
      → OnDone P r
      → I (resume f r s).1 × OnDone Q (resume f r s).0
  unfolding resume
  Gives-resume f (done a) s gf i p = (gf a p).run s i
  Gives-resume f (failed e) s gf i p = (i, tt)

  pub Gives-bind :
      (m : Exec S E A) (f : A → Exec S E B)
      → Gives I m P
      → ((a : A) → P a → Gives I (f a) Q)
      → Gives I (m >>= f) Q
  unfolding ◌>>=◌
  Gives-bind m f gm gf = record {
    run = λ s i. let (before, p) = gm.run s i in Gives-resume f (m s).0 (m s).1 gf before p;
  }

  Gives-caught :
      (f : A → Exec S E B) (h : E → Exec S E B) (r : Result E A) (s : S)
      → ((a : A) → P a → Gives I (f a) Q)
      → ((e : E) → Gives I (h e) Q)
      → I s
      → OnDone P r
      → I (caught f h r s).1 × OnDone Q (caught f h r s).0
  unfolding caught
  Gives-caught f h (done a) s gf gh i p = (gf a p).run s i
  Gives-caught f h (failed e) s gf gh i p = (gh e).run s i

  pub Gives-attempt :
      (m : Exec S E A) (f : A → Exec S E B) (h : E → Exec S E B)
      → Gives I m P
      → ((a : A) → P a → Gives I (f a) Q)
      → ((e : E) → Gives I (h e) Q)
      → Gives I (attempt m f h) Q
  unfolding attempt
  Gives-attempt m f h gm gf gh = record {
    run = λ s i. let (before, p) = gm.run s i in Gives-caught f h (m s).0 (m s).1 gf gh before p;
  }

module _ {ℓ} {S E A B : Type ℓ} {I : S → Type ℓ} {Q : B → Type ℓ} where
  pub Gives-elim :
      (o : Option A) (m : Exec S E B) (f : A → Exec S E B)
      → (o ≡ none → Gives I m Q)
      → ((a : A) → o ≡ some a → Gives I (f a) Q)
      → Gives I (elim o [ none ↦ m | some a ↦ f a ]) Q
  Gives-elim none m f gm gf = gm refl
  Gives-elim (some a) m f gm gf = gf a refl
