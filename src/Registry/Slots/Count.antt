-- ===== src/Registry/Slots/Count.antt =====
-- How a write to the storage changes the number of installations that are not revoked.
use stagepilot_beta.Common.{
  ℕ, ◌+◌, String, Bool, true, false, Option, none, some, Dict, [], ◌∷◌, lookup, insert, ◌≡◌, arith,
  eq_iff, lookup-insert,
}
use stagepilot_beta.Registry.Data.{Installation}
use stagepilot_beta.Registry.Limits.{count_live}

abbrev pub live : Bool → ℕ
live true = 0
live false = 1

abbrev pub live_at : Option Installation → ℕ
live_at none = 0
live_at (some i) = live i.revoked

-- The row that is written over leaves the count, and the new one enters it.
pub count_live-insert :
    (k : String) (i : Installation) (rows : Dict Installation)
    → count_live (insert k i rows) + live_at (lookup k rows) ≡ count_live rows + live i.revoked
unfolding count_live insert lookup
count_live-insert k i [] = ground arith
count_live-insert k i ((j, old) ∷ rows) = ground (arith, count_live-insert k i rows)

-- Each installation is stored under its own id.
pub record IsKeyed (rows : Dict Installation) : Type 0 where
  pub own : (id : String) (i : Installation) → lookup id rows ≡ some i → i.id ≡ id

pub insert-IsKeyed :
    (i : Installation) (rows : Dict Installation) → IsKeyed rows → IsKeyed (insert i.id i rows)
insert-IsKeyed i rows k = record {
  own =
      λ id j found. ground (arith, lookup-insert i.id id i rows, eq_iff i.id id, k.own id j, found);
}
