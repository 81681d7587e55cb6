-- ===== src/Cues/Ordinals/Numbers.antt =====
-- tools/multitracks-cues/src/cues/ordinal.ts: the ordinals against the number of songs.
use stagepilot_beta.Common.{
  ℕ, zero, suc, ◌+◌, ◌≤◌, ◌<◌, ltb, leb, true, false, Option, none, some, List, [], ◌∷◌, ◌≡◌, refl,
  sym, ap, arith, All, ltb→lt, is_some, inl, inr, Bool-cases,
}
use stagepilot_beta.Cues.Data.{SetlistItem, TargetType, library, cloud, ambiguous, non_song}
use stagepilot_beta.Cues.Ordinals.{
  OrdinalAssignment, is_song, insert_by_position, sort_by_position, prepend, assign_from,
  assign_song_ordinals,
}
use stagepilot_beta.Cues.Ordinals.Order.{IsOrdered, at_position, sort-IsOrdered, at_position-sort}

-- What an item counts for: a Library or a Cloud target is a song, any other is not.
abbrev pub songs_in : TargetType → ℕ
songs_in library = 1
songs_in cloud = 1
songs_in ambiguous = 0
songs_in non_song = 0

pub count_songs : List SetlistItem → ℕ
count_songs [] = 0
count_songs (i ∷ is) = songs_in i.target + count_songs is

song_one : (t : TargetType) → is_song t ≡ true → songs_in t ≡ 1
song_one library e = refl
song_one cloud e = refl
song_one ambiguous e = ground (arith, e)
song_one non_song e = ground (arith, e)

other_none : (t : TargetType) → is_song t ≡ false → songs_in t ≡ 0
other_none library e = ground (arith, e)
other_none cloud e = ground (arith, e)
other_none ambiguous e = refl
other_none non_song e = refl

abbrev pub given : Option ℕ → ℕ
given none = 0
given (some n) = 1

abbrev pub add_ordinal : Option ℕ → List ℕ → List ℕ
add_ordinal none ns = ns
add_ordinal (some n) ns = n ∷ ns

pub ordinals : List OrdinalAssignment → List ℕ
ordinals [] = []
ordinals (a ∷ as') = add_ordinal a.song_ordinal (ordinals as')

pub items_of : List OrdinalAssignment → List SetlistItem
items_of [] = []
items_of (a ∷ as') = a.item ∷ items_of as'

-- The songs have an ordinal, and no other item has.
abbrev pub IsMatched : List OrdinalAssignment → Type 0
IsMatched as' = All (λ a. given a.song_ordinal ≡ songs_in a.item.target) as'

-- `n` numbers from `first` on.
pub count_up : ℕ → ℕ → List ℕ
count_up first zero = []
count_up first (suc n) = first ∷ count_up (suc first) n

IsNumbered : ℕ → List SetlistItem → Option (List OrdinalAssignment) → Type 0
IsNumbered last is none = 127 < last + count_songs is
IsNumbered last is (some as') =
    (items_of as' ≡ is)
    × (ordinals as' ≡ count_up (suc last) (count_songs is))
    × IsMatched as'
    × (last + count_songs is ≤ 127)

count-song :
    (i : SetlistItem) (is : List SetlistItem)
    → is_song i.target ≡ true
    → count_songs (i ∷ is) ≡ suc (count_songs is)
unfolding count_songs
count-song i is song = let one = song_one i.target song in omega (arith, one)

count-other :
    (i : SetlistItem) (is : List SetlistItem)
    → is_song i.target ≡ false
    → count_songs (i ∷ is) ≡ count_songs is
unfolding count_songs
count-other i is other = let nothing = other_none i.target other in omega (arith, nothing)

-- One song more, with the next number.
song-IsNumbered :
    (last : ℕ) (i : SetlistItem) (is : List SetlistItem) (o : Option (List OrdinalAssignment))
    → is_song i.target ≡ true
    → suc last ≤ 127
    → IsNumbered (suc last) is o
    → IsNumbered last (i ∷ is) (prepend (record { item = i; song_ordinal = some (suc last) }) o)
unfolding IsNumbered ordinals items_of count_up
song-IsNumbered last i is none song within h = rw (count-song i is song) (omega (arith, h))
song-IsNumbered last i is (some as') song within h = rw (count-song i is song) (
  ap (λ js. i ∷ js) h.0,
  ap (λ ns. suc last ∷ ns) h.1,
  (sym (song_one i.target song), h.2),
  omega (arith, h.3),
)

other-IsNumbered :
    (last : ℕ) (i : SetlistItem) (is : List SetlistItem) (o : Option (List OrdinalAssignment))
    → is_song i.target ≡ false
    → IsNumbered last is o
    → IsNumbered last (i ∷ is) (prepend (record { item = i; song_ordinal = none }) o)
unfolding IsNumbered ordinals items_of
other-IsNumbered last i is none other h = rw (count-other i is other) h
other-IsNumbered last i is (some as') other h =
    rw (count-other i is other)
      (ap (λ js. i ∷ js) h.0, h.1, (sym (other_none i.target other), h.2), h.3)

over-IsNumbered :
    (last : ℕ) (i : SetlistItem) (is : List SetlistItem)
    → is_song i.target ≡ true
    → 127 < suc last
    → IsNumbered last (i ∷ is) none
unfolding IsNumbered
over-IsNumbered last i is song over = rw (count-song i is song) (omega (arith, over))

assign_from-IsNumbered :
    (last : ℕ) (is : List SetlistItem) → last ≤ 127 → IsNumbered last is (assign_from last is)
unfolding assign_from IsNumbered count_songs ordinals items_of count_up
assign_from-IsNumbered last [] within = (refl, refl, tt, omega (arith, within))
assign_from-IsNumbered last (i ∷ is) within = elim (Bool-cases (is_song i.target)) [
  | inr other ↦
      rw other (other-IsNumbered last i is _ other (assign_from-IsNumbered last is within))
  | inl song ↦ elim (Bool-cases (ltb 127 (suc last))) [
    | inl over ↦ rw (song, over) (over-IsNumbered last i is song (ltb→lt 127 (suc last) over))
    | inr fits ↦
        let room : suc last ≤ 127 = ground (arith, fits) in
        rw (song, fits)
          (song-IsNumbered last i is _ song room (assign_from-IsNumbered (suc last) is room))
  ]
]

-- Sorting moves the items only.
insert-count :
    (i : SetlistItem) (is : List SetlistItem)
    → count_songs (insert_by_position i is) ≡ count_songs (i ∷ is)
unfolding insert_by_position count_songs
insert-count i [] = refl
insert-count i (j ∷ js) = ground (arith, insert-count i js)

sort-count : (is : List SetlistItem) → count_songs (sort_by_position is) ≡ count_songs is
unfolding sort_by_position count_songs
sort-count [] = refl
sort-count (i ∷ is) = ground (arith, insert-count i (sort_by_position is), sort-count is)

-- What is numbered is a sort of `items`.
abbrev pub IsArranged : List SetlistItem → List OrdinalAssignment → Type 0
IsArranged items as' =
    IsOrdered (items_of as')
    × ((position : ℕ) → at_position position (items_of as') ≡ at_position position items)
    × IsMatched as'
    × (ordinals as' ≡ count_up 1 (count_songs items))

assigned_of :
    (items is : List SetlistItem) (o : Option (List OrdinalAssignment))
    → IsOrdered is
    → ((position : ℕ) → at_position position is ≡ at_position position items)
    → count_songs is ≡ count_songs items
    → IsNumbered 0 is o
    → ((as' : List OrdinalAssignment) → o ≡ some as' → IsArranged items as')
      × (is_some o ≡ leb (count_songs items) 127)
unfolding IsNumbered
assigned_of items is none sorted same counted h =
    (λ as' e. ground (arith, e), ground (arith, h, counted))
assigned_of items is (some bs) sorted same counted h = (
  λ as' e.
      let same_list : bs ≡ as' = cc e in
      rw⁻¹ same_list (rw h.0 sorted, λ position. rw h.0 (same position), h.2, rw⁻¹ counted h.1),
  ground (arith, h, counted),
)

-- The items of a setlist that has at most 127 songs (Library or Cloud targets) are put in the order
-- of their positions, those of one position in the order of the setlist; the songs, and no other
-- items, have ordinals, which are 1, 2, 3 and so on in that order. A setlist with more songs, and no
-- other, is refused.
pub assign_song_ordinals-count :
    (items : List SetlistItem)
    → ((as' : List OrdinalAssignment)
        → assign_song_ordinals items ≡ some as'
        → IsOrdered (items_of as')
          × ((position : ℕ) → at_position position (items_of as') ≡ at_position position items)
          × IsMatched as'
          × (ordinals as' ≡ count_up 1 (count_songs items)))
      × (is_some (assign_song_ordinals items) ≡ leb (count_songs items) 127)
unfolding assign_song_ordinals
assign_song_ordinals-count items =
    let sorted = sort_by_position items in
    assigned_of items sorted (assign_from 0 sorted) (sort-IsOrdered items)
      (λ position. at_position-sort position items) (sort-count items)
      (assign_from-IsNumbered 0 sorted (omega arith))
