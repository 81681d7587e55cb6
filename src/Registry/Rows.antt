-- ===== src/Registry/Rows.antt =====
-- control-plane/src/index.ts: what `storage.list` gives, rows in the order of their keys, and the
-- lists that are made of it.
pub mod Distinct
use stagepilot_beta.Common.{
  ℕ, String, Bool, true, false, List, [], ◌∷◌, Option, none, some, is_some, Dict, ltb, ◌==◌,
  if◌then◌else◌,
}
use stagepilot_beta.Registry.Names.{codes, strip_prefix}

-- The order of code points, which is that of the keys' bytes.
unfoldable pub code_before : List ℕ → List ℕ → Bool
code_before [] [] = false
code_before [] (_ ∷ _) = true
code_before (_ ∷ _) [] = false
code_before (c ∷ cs) (d ∷ ds) = if c == d then code_before cs ds else ltb c d

module _ {ℓ} {V : Type ℓ} where
  unfoldable pub place : String → V → Dict V → Dict V
  place key value [] = (key, value) ∷ []
  place key value ((at, old) ∷ rows) =
      if code_before (codes key) (codes at)
      then (key, value) ∷ (at, old) ∷ rows
      else (at, old) ∷ place key value rows

  -- `storage.list`
  unfoldable pub listed : Dict V → Dict V
  unfolding place code_before
  listed [] = []
  listed ((key, value) ∷ rows) = place key value (listed rows)

  -- `[...rows.entries()].find(([, value]) => p(value))`
  unfoldable pub find_row : (V → Bool) → Dict V → Option (String × V)
  find_row p [] = none
  find_row p ((key, value) ∷ rows) = if p value then some (key, value) else find_row p rows

  unfoldable pub with_prefix : String → Dict V → Dict V
  unfolding strip_prefix
  with_prefix prefix [] = []
  with_prefix prefix ((key, value) ∷ rows) =
      if is_some (strip_prefix prefix key)
      then (key, value) ∷ with_prefix prefix rows
      else with_prefix prefix rows

  -- `rows.values()`
  unfoldable pub values : Dict V → List V
  values [] = []
  values ((key, value) ∷ rows) = value ∷ values rows

module _ {ℓ} {A : Type ℓ} (precedes : A → A → Bool) where
  unfoldable pub insert_sorted : A → List A → List A
  insert_sorted x [] = x ∷ []
  insert_sorted x (y ∷ ys) = if precedes y x then y ∷ insert_sorted x ys else x ∷ y ∷ ys

  -- `xs.sort`, which is stable
  unfoldable pub sort_list : List A → List A
  unfolding insert_sorted
  sort_list [] = []
  sort_list (x ∷ xs) = insert_sorted x (sort_list xs)
