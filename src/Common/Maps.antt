-- ===== src/Common/Maps.antt =====
-- A key-value store as an association list: `get`, `put` and `delete` of one key.
use Prim.Native.String.{String}
use mathlib.Core.Path.{◌≡◌, refl}
use mathlib.Core.Option.{Option, none, some}
use mathlib.Core.List.{List, [], ◌∷◌}
use native.Mathlib.Omega.{arith}
use text.Mathlib.Text.{◌==◌}
use text.Mathlib.TextEquality.{eq_iff}
use text.Mathlib.TextPositions.{eq_refl}
use stagepilot_beta.Common.Tests.{if◌then◌else◌}

abbrev pub Dict {ℓ} : Type ℓ → Type ℓ
Dict V = List (String × V)

module _ {ℓ} {V : Type ℓ} where
  unfoldable pub lookup : String → Dict V → Option V
  lookup key [] = none
  lookup key ((at, value) ∷ rows) = if at == key then some value else lookup key rows

  unfoldable pub erase : String → Dict V → Dict V
  erase key [] = []
  erase key ((at, value) ∷ rows) =
      if at == key then erase key rows else (at, value) ∷ erase key rows

  -- A key that is there keeps its place.
  unfoldable pub insert : String → V → Dict V → Dict V
  insert key new [] = (key, new) ∷ []
  insert key new ((at, old) ∷ rows) =
      if at == key then (key, new) ∷ rows else (at, old) ∷ insert key new rows

  pub lookup-erase :
      (gone key : String) (rows : Dict V)
      → lookup key (erase gone rows) ≡ (if gone == key then none else lookup key rows)
  unfolding lookup erase
  lookup-erase gone key [] = ground arith
  lookup-erase gone key ((at, value) ∷ rows) =
      ground (arith, eq_iff gone key, eq_iff at gone, eq_iff at key, lookup-erase gone key rows)

  pub lookup-insert :
      (put key : String) (new : V) (rows : Dict V)
      → lookup key (insert put new rows) ≡ (if put == key then some new else lookup key rows)
  unfolding lookup insert
  lookup-insert put key new [] = refl
  lookup-insert put key new ((at, old) ∷ rows) =
      ground (arith, eq_iff put key, eq_iff at put, eq_iff at key, lookup-insert put key new rows)

  pub lookup-insert_self :
      (key : String) (new : V) (rows : Dict V) → lookup key (insert key new rows) ≡ some new
  lookup-insert_self key new rows = simp (lookup-insert key key new rows, eq_refl key)
