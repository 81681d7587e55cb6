-- ===== src/Access.antt =====
-- frontend/src/access/accessState.ts: what the page may do, and the generation that tells a late
-- answer from a current one. `notified` counts the rounds in which all listeners are called.
use stagepilot_beta.Common.{
  ℕ, suc, ◌≤◌, ◌<◌, ◌==◌, String, Bool, false, Option, none, some, List, [], ◌∷◌, ◌≡◌, refl, arith,
  if◌then◌else◌,
}

pub record Capabilities : Type 0 where
  pub can_read : Bool
  pub can_operate : Bool
  pub can_configure : Bool
  pub can_activate_services : Bool

pub data AccessMode : Type 0 where
  desktop lan remote : AccessMode

pub record DashboardAccess : Type 0 where
  pub mode : AccessMode
  pub authenticated : Bool
  pub capabilities : Capabilities
  pub user_email : Option String
  pub expires_at : Option ℕ
  pub csrf_token : Option String

pub record AccessState : Type 0 where
  pub held_access : Option DashboardAccess
  pub generation : ℕ
  pub notified : ℕ

abbrev pub no_capabilities : Capabilities
no_capabilities = record {
  can_read = false;
  can_operate = false;
  can_configure = false;
  can_activate_services = false;
}

unfoldable pub revoked_access : Option DashboardAccess → Option DashboardAccess
revoked_access none = none
revoked_access (some a) =
    some (record a { authenticated = false; capabilities = no_capabilities; csrf_token = none })

unfoldable pub set_api_access : Option DashboardAccess → AccessState → AccessState
set_api_access a s = record s { held_access = a; generation = suc s.generation }

unfoldable pub invalidate_access : ℕ → AccessState → AccessState
unfolding revoked_access
invalidate_access expected s =
    if expected == s.generation
    then record {
      held_access = revoked_access s.held_access;
      generation = suc s.generation;
      notified = suc s.notified;
    }
    else s

pub data AccessCall : Type 0 where
  set_call : Option DashboardAccess → AccessCall
  invalidate_call : ℕ → AccessCall

unfoldable pub run_access : List AccessCall → AccessState → AccessState
unfolding set_api_access invalidate_access
run_access [] s = s
run_access (set_call a ∷ calls) s = run_access calls (set_api_access a s)
run_access (invalidate_call expected ∷ calls) s = run_access calls (invalidate_access expected s)

invalidated-le :
    (expected : ℕ) (s : AccessState) → s.generation ≤ (invalidate_access expected s).generation
unfolding invalidate_access
invalidated-le expected s = ground arith

generation-le :
    (calls : List AccessCall) (s : AccessState) → s.generation ≤ (run_access calls s).generation
unfolding run_access set_api_access
generation-le [] s = omega arith
generation-le (set_call a ∷ calls) s = omega (arith, generation-le calls (set_api_access a s))
generation-le (invalidate_call expected ∷ calls) s =
    omega (arith, generation-le calls (invalidate_access expected s), invalidated-le expected s)

unequal : (a b : ℕ) → a < b → (a == b) ≡ false
unequal a b h = ground arith

late-ignored :
    (expected : ℕ) (s : AccessState) → expected < s.generation → invalidate_access expected s ≡ s
unfolding invalidate_access
late-ignored expected s late = rw (unequal expected s.generation late) refl

later :
    (a : Option DashboardAccess) (calls : List AccessCall) (s : AccessState)
    → s.generation < (run_access calls (set_api_access a s)).generation
unfolding set_api_access
later a calls s = omega (arith, generation-le calls (set_api_access a s))

-- An answer that comes late does not take the access away: once the access was set anew, an
-- invalidation with the generation of before changes nothing, whatever was set and invalidated in
-- between.
pub invalidate-late :
    (a : Option DashboardAccess) (calls : List AccessCall) (s : AccessState)
    → invalidate_access s.generation (run_access calls (set_api_access a s))
      ≡ run_access calls (set_api_access a s)
invalidate-late a calls s =
    late-ignored s.generation (run_access calls (set_api_access a s)) (later a calls s)
