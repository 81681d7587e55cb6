-- ===== src/Cues/Ordinals/Order.antt =====
-- tools/multitracks-cues/src/cues/ordinal.ts: the sort of the setlist's items by their positions.
use stagepilot_beta.Common.{
  ℕ, ◌≤◌, leb, List, [], ◌∷◌, ◌≡◌, refl, ◌∙◌, arith, keep, All, ◌==◌, Bool-cases, inl, inr,
}
use stagepilot_beta.Cues.Data.{SetlistItem}
use stagepilot_beta.Cues.Ordinals.{insert_by_position, sort_by_position}

-- No item stands before one of a smaller position.
abbrev pub IsOrdered : List SetlistItem → Type 0
IsOrdered [] = Unit
IsOrdered (i ∷ is) = All (λ j. i.position ≤ j.position) is × IsOrdered is

-- The items of one position, in the order of the list.
abbrev pub at_position : ℕ → List SetlistItem → List SetlistItem
at_position position is = keep (λ i. i.position == position) is

All-insert :
    (n : ℕ) (i : SetlistItem) (is : List SetlistItem)
    → n ≤ i.position
    → All (λ j. n ≤ j.position) is
    → All (λ j. n ≤ j.position) (insert_by_position i is)
unfolding insert_by_position
All-insert n i [] first rest = (first, tt)
All-insert n i (j ∷ js) first rest = elim (Bool-cases (leb i.position j.position)) [
  | inl before ↦ rw before (first, rest)
  | inr after ↦ rw after (rest.0, All-insert n i js first rest.1)
]

All-weaken :
    (m n : ℕ) (is : List SetlistItem)
    → m ≤ n
    → All (λ j. n ≤ j.position) is
    → All (λ j. m ≤ j.position) is
All-weaken m n [] less h = tt
All-weaken m n (j ∷ js) less h = (omega (arith, less, h.0), All-weaken m n js less h.1)

insert-IsOrdered :
    (i : SetlistItem) (is : List SetlistItem) → IsOrdered is → IsOrdered (insert_by_position i is)
unfolding insert_by_position
insert-IsOrdered i [] h = (tt, tt)
insert-IsOrdered i (j ∷ js) h = elim (Bool-cases (leb i.position j.position)) [
  | inl before ↦
      let less : i.position ≤ j.position = ground (arith, before) in
      rw before ((less, All-weaken i.position j.position js less h.0), h)
  | inr after ↦
      let less : j.position ≤ i.position = ground (arith, after) in
      rw after (All-insert j.position i js less h.0, insert-IsOrdered i js h.1)
]

pub sort-IsOrdered : (is : List SetlistItem) → IsOrdered (sort_by_position is)
unfolding sort_by_position
sort-IsOrdered [] = tt
sort-IsOrdered (i ∷ is) = insert-IsOrdered i (sort_by_position is) (sort-IsOrdered is)

at_position-insert :
    (position : ℕ) (i : SetlistItem) (is : List SetlistItem)
    → at_position position (insert_by_position i is) ≡ at_position position (i ∷ is)
unfolding insert_by_position
at_position-insert position i [] = refl
at_position-insert position i (j ∷ js) = ground (arith, at_position-insert position i js)

-- The sort is stable and loses nothing.
pub at_position-sort :
    (position : ℕ) (is : List SetlistItem)
    → at_position position (sort_by_position is) ≡ at_position position is
unfolding sort_by_position
at_position-sort position [] = refl
at_position-sort position (i ∷ is) =
    at_position-insert position i (sort_by_position is) ∙ rw (at_position-sort position is) refl
