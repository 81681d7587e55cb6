-- ===== src/Startup.antt =====
-- frontend/src/startup/startupProgress.ts: the phases of a start. Times are whole milliseconds.
use stagepilot_beta.Common.{
  ℕ, ◌≤◌, ltb, Bool, true, false, not, ◌&&◌, ◌||◌, Option, none, some, ◌≡◌, refl, arith,
  if◌then◌else◌,
}

pub data StartupPhase : Type 0 where
  initializing starting_backend backend_ready loading_state : StartupPhase
  preparing_dashboard complete_phase failed_phase : StartupPhase

pub data SupervisorState : Type 0 where
  supervisor_starting supervisor_ready supervisor_external : SupervisorState
  supervisor_failed supervisor_stopped : SupervisorState

pub record StartupInput : Type 0 where
  pub supervisor_state : Option SupervisorState
  pub application_state_loaded : Bool
  pub connection_established : Bool
  pub retrying : Bool

-- `STARTUP_PHASE_CEILINGS`
unfoldable pub phase_ceiling : StartupPhase → ℕ
phase_ceiling initializing = 10
phase_ceiling starting_backend = 88
phase_ceiling backend_ready = 92
phase_ceiling loading_state = 94
phase_ceiling preparing_dashboard = 100
phase_ceiling complete_phase = 100
phase_ceiling failed_phase = 99

abbrev pub has_failed_supervisor : Option SupervisorState → Bool
has_failed_supervisor none = false
has_failed_supervisor (some supervisor_failed) = true
has_failed_supervisor (some supervisor_stopped) = true
has_failed_supervisor (some supervisor_starting) = false
has_failed_supervisor (some supervisor_ready) = false
has_failed_supervisor (some supervisor_external) = false

abbrev pub is_ready_supervisor : Option SupervisorState → Bool
is_ready_supervisor none = false
is_ready_supervisor (some supervisor_ready) = true
is_ready_supervisor (some supervisor_external) = true
is_ready_supervisor (some supervisor_starting) = false
is_ready_supervisor (some supervisor_failed) = false
is_ready_supervisor (some supervisor_stopped) = false

abbrev pub is_starting_supervisor : Option SupervisorState → Bool
is_starting_supervisor none = false
is_starting_supervisor (some supervisor_starting) = true
is_starting_supervisor (some supervisor_ready) = false
is_starting_supervisor (some supervisor_external) = false
is_starting_supervisor (some supervisor_failed) = false
is_starting_supervisor (some supervisor_stopped) = false

unfoldable pub phase_by : (gone loaded linked ready starting : Bool) → ℕ → StartupPhase
phase_by gone loaded linked ready starting elapsed =
    if gone
    then failed_phase
    else if loaded
    then preparing_dashboard
    else if linked
    then loading_state
    else if ready
    then backend_ready
    else if starting
    then starting_backend
    else if ltb elapsed 400
    then initializing
    else starting_backend

unfoldable pub derive_startup_phase : StartupInput → ℕ → StartupPhase
unfolding phase_by
derive_startup_phase i elapsed =
    phase_by (not i.retrying && has_failed_supervisor i.supervisor_state) i.application_state_loaded
      i.connection_established (is_ready_supervisor i.supervisor_state)
      (i.retrying || is_starting_supervisor i.supervisor_state) elapsed

-- What holds before holds after.
abbrev pub Implies : Bool → Bool → Type 0
Implies a b = a ≡ true → b ≡ true

-- A later input: nothing that was reached is lost.
pub record IsLater (i j : StartupInput) : Type 0 where
  pub loads : Implies i.application_state_loaded j.application_state_loaded
  pub links : Implies i.connection_established j.connection_established
  pub readies :
      Implies (is_ready_supervisor i.supervisor_state) (is_ready_supervisor j.supervisor_state)
  pub starts : Implies (i.retrying || is_starting_supervisor i.supervisor_state) (
      is_ready_supervisor j.supervisor_state
      || (j.retrying || is_starting_supervisor j.supervisor_state))

by-le :
    (gone loaded linked ready starting loaded' linked' ready' starting' : Bool) (now later : ℕ)
    → gone ≡ false
    → Implies loaded loaded'
    → Implies linked linked'
    → Implies ready ready'
    → Implies starting (ready' || starting')
    → now ≤ later
    → phase_ceiling (phase_by gone loaded linked ready starting now)
      ≤ phase_ceiling (phase_by false loaded' linked' ready' starting' later)
unfolding phase_by phase_ceiling
by-le true loaded linked ready starting loaded' linked' ready' starting' now later a b c d e f =
    ground (arith, a)
by-le false true linked ready starting loaded' linked' ready' starting' now later a b c d e f =
    rw (b refl) (omega arith)
by-le false false true ready starting loaded' linked' ready' starting' now later a b c d e f =
    ground (arith, c refl)
by-le false false false true starting loaded' linked' ready' starting' now later a b c d e f =
    ground (arith, d refl)
by-le false false false false true loaded' linked' ready' starting' now later a b c d e f =
    ground (arith, e refl)
by-le false false false false false loaded' linked' ready' starting' now later a b c d e f =
    ground (arith, f)

-- The end that the progress of a start runs to never goes back: while the supervisor has neither
-- failed nor stopped, or a retry is under way, a later time with nothing lost of what was reached
-- has a phase whose ceiling is at least that of the phase before.
pub startup-monotone :
    (i j : StartupInput) (now later : ℕ)
    → (not i.retrying && has_failed_supervisor i.supervisor_state) ≡ false
    → (not j.retrying && has_failed_supervisor j.supervisor_state) ≡ false
    → IsLater i j
    → now ≤ later
    → phase_ceiling (derive_startup_phase i now) ≤ phase_ceiling (derive_startup_phase j later)
unfolding derive_startup_phase
startup-monotone i j now later before after grown passed = rw after (
    by-le (not i.retrying && has_failed_supervisor i.supervisor_state) i.application_state_loaded
      i.connection_established (is_ready_supervisor i.supervisor_state)
      (i.retrying || is_starting_supervisor i.supervisor_state) j.application_state_loaded
      j.connection_established (is_ready_supervisor j.supervisor_state)
      (j.retrying || is_starting_supervisor j.supervisor_state) now later before grown.loads
      grown.links grown.readies grown.starts passed)
