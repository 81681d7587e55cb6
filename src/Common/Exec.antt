-- ===== src/Common/Exec.antt =====
-- Code that changes a state and may stop with an error, which keeps the changes made before it.
pub mod Gives

pub data Result {ℓ} (E A : Type ℓ) : Type ℓ where
  done : A → Result E A
  failed : E → Result E A

abbrev pub Exec {ℓ} : Type ℓ → Type ℓ → Type ℓ → Type ℓ
Exec S E A = S → Result E A × S

module _ {ℓ} {S E A : Type ℓ} where
  unfoldable pub return : A → Exec S E A
  return a s = (done a, s)

  unfoldable pub fail : E → Exec S E A
  fail e s = (failed e, s)

  -- A step that reads the state and stores another one.
  unfoldable pub step : (S → Result E A × S) → Exec S E A
  step f s = f s

module _ {ℓ} {S E A B : Type ℓ} where
  unfoldable pub resume : (A → Exec S E B) → Result E A → Exec S E B
  resume f (done a) s = f a s
  resume f (failed e) s = (failed e, s)

  infixl 10 ◌>>=◌ ◌>>◌
  unfoldable pub ◌>>=◌ : Exec S E A → (A → Exec S E B) → Exec S E B
  unfolding resume
  ◌>>=◌ m f s = let (result, after) = m s in resume f result after

  abbrev pub ◌>>◌ : Exec S E A → Exec S E B → Exec S E B
  m >> n = m >>= λ _. n

  -- `try { m } catch (e) { h(e) }`, then `f` with what `m` gave.
  unfoldable pub caught : (A → Exec S E B) → (E → Exec S E B) → Result E A → Exec S E B
  caught f h (done a) s = f a s
  caught f h (failed e) s = h e s

  unfoldable pub attempt : Exec S E A → (A → Exec S E B) → (E → Exec S E B) → Exec S E B
  unfolding caught
  attempt m f h s = let (result, after) = m s in caught f h result after
