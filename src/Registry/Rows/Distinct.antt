-- ===== src/Registry/Rows/Distinct.antt =====
-- Rows whose keys differ, as those of a storage do.
use stagepilot_beta.Common.{
  String, str_eq, Bool, Bool-cases, inl, inr, [], ◌∷◌, none, some, Dict, lookup, insert, erase,
  lookup-erase, lookup-insert, eq_iff, eq_refl, ◌≡◌, refl, arith, if◌then◌else◌,
}
use stagepilot_beta.Registry.Names.{codes}
use stagepilot_beta.Registry.Rows.{code_before, place, listed, find_row}

module _ {ℓ} {V : Type ℓ} where
  abbrev pub IsDistinct : Dict V → Type ℓ
  IsDistinct [] = Unit
  IsDistinct ((key, value) ∷ rows) = (lookup key rows ≡ none) × IsDistinct rows

  -- What is found in the first rows is found in the second ones.
  abbrev pub Agrees : Dict V → Dict V → Type ℓ
  Agrees xs ys =
      (key : String) (value : V) → lookup key xs ≡ some value → lookup key ys ≡ some value

  lookup-place :
      (key at : String) (value : V) (rows : Dict V)
      → lookup key rows ≡ none
      → lookup at (place key value rows) ≡ (if str_eq key at then some value else lookup at rows)
  unfolding place lookup
  lookup-place key at value [] absent = refl
  lookup-place key at value ((k, v) ∷ rows) absent =
      ground (arith, eq_iff k key, eq_iff k at, eq_iff key at, lookup-place key at value rows)

  place-IsDistinct :
      (key : String) (value : V) (rows : Dict V)
      → lookup key rows ≡ none
      → IsDistinct rows
      → IsDistinct (place key value rows)
  unfolding place lookup
  place-IsDistinct key value [] absent d = (refl, tt)
  place-IsDistinct key value ((k, v) ∷ rows) absent d =
      elim (Bool-cases (code_before (codes key) (codes k))) [
        | inl first ↦ rw first (absent, d)
        | inr behind ↦ rw behind (
          ground (arith, eq_iff k key, eq_iff key k, lookup-place key k value rows, absent, d),
          place-IsDistinct key value rows (ground (arith, absent)) d.1,
        )
      ]

  pub lookup-listed :
      (at : String) (rows : Dict V) → IsDistinct rows → lookup at (listed rows) ≡ lookup at rows
  unfolding listed lookup
  lookup-listed at [] d = refl
  lookup-listed at ((k, v) ∷ rows) d = ground (
    arith,
    lookup-place k at v (listed rows),
    lookup-listed k rows d.1,
    lookup-listed at rows d.1,
    d,
  )

  pub listed-IsDistinct : (rows : Dict V) → IsDistinct rows → IsDistinct (listed rows)
  unfolding listed
  listed-IsDistinct [] d = tt
  listed-IsDistinct ((k, v) ∷ rows) d =
      place-IsDistinct k v (listed rows) (rw (lookup-listed k rows d.1) d.0)
        (listed-IsDistinct rows d.1)

  pub listed-Agrees : (rows : Dict V) → IsDistinct rows → Agrees (listed rows) rows
  listed-Agrees rows d key value found = rw (← lookup-listed key rows d) found

  pub erase-IsDistinct :
      (gone : String) (rows : Dict V) → IsDistinct rows → IsDistinct (erase gone rows)
  unfolding erase
  erase-IsDistinct gone [] d = tt
  erase-IsDistinct gone ((k, v) ∷ rows) d = elim (Bool-cases (str_eq k gone)) [
    | inl same ↦ rw same (erase-IsDistinct gone rows d.1)
    | inr other ↦
        rw other (ground (arith, lookup-erase gone k rows, d), erase-IsDistinct gone rows d.1)
  ]

  pub insert-IsDistinct :
      (put : String) (new : V) (rows : Dict V) → IsDistinct rows → IsDistinct (insert put new rows)
  unfolding insert lookup
  insert-IsDistinct put new [] d = (refl, tt)
  insert-IsDistinct put new ((k, v) ∷ rows) d = elim (Bool-cases (str_eq k put)) [
    | inl same ↦ rw same (ground (arith, eq_iff k put, same, d), d.1)
    | inr other ↦ rw other (
      ground (arith, lookup-insert put k new rows, eq_iff k put, eq_iff put k, other, d),
      insert-IsDistinct put new rows d.1,
    )
  ]

  pub erase_absent :
      (gone : String) (rows : Dict V) → lookup gone rows ≡ none → erase gone rows ≡ rows
  unfolding erase lookup
  erase_absent gone [] absent = refl
  erase_absent gone ((k, v) ∷ rows) absent = elim (Bool-cases (str_eq k gone)) [
    | inl same ↦ ground (arith, same, absent)
    | inr other ↦ rw (other, erase_absent gone rows (ground (arith, other, absent))) refl
  ]

  -- The rows behind the first still agree once its key is erased.
  pub tail-Agrees :
      (key : String) (value : V) (rows all_rows : Dict V)
      → lookup key rows ≡ none
      → Agrees ((key, value) ∷ rows) all_rows
      → Agrees rows (erase key all_rows)
  unfolding lookup
  tail-Agrees key value rows all_rows absent agrees at v found =
      ground (arith, lookup-erase key at all_rows, eq_iff key at, agrees at v, absent, found)

  pub head-Agrees :
      (key : String) (value : V) (rows all_rows : Dict V)
      → Agrees ((key, value) ∷ rows) all_rows
      → lookup key all_rows ≡ some value
  unfolding lookup
  head-Agrees key value rows all_rows agrees = agrees key value (rw (eq_refl key) refl)

  -- What is found by its value is found by its key.
  pub find_row-lookup :
      (p : V → Bool) (rows : Dict V) (key : String) (value : V)
      → IsDistinct rows
      → find_row p rows ≡ some (key, value)
      → lookup key rows ≡ some value
  unfolding find_row lookup
  find_row-lookup p [] key value d found = ground (arith, found)
  find_row-lookup p ((k, v) ∷ rows) key value d found = elim (Bool-cases (p v)) [
    | inl yes' ↦ ground (arith, eq_refl k, yes', found)
    | inr no' ↦ ground (arith, eq_iff k key, find_row-lookup p rows key value d.1, no', d, found)
  ]
