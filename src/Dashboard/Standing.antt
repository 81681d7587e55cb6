-- ===== src/Dashboard/Standing.antt =====
-- frontend/src/components/dashboard/dashboardActiveError.ts: which errors still stand.
use stagepilot_beta.Common.{
  String, str_eq, eq_iff, Bool-cases, true, false, Option, none, some, lookup, inl, inr, ◌≢◌, ◌≡◌,
  refl, arith,
}
use stagepilot_beta.Dashboard.Readiness.{
  ConnectionStatus, connecting, connected, disconnected, error, PluginStatus, plugin_stopped,
  plugin_starting, plugin_running, plugin_stopping, plugin_error,
}
use stagepilot_beta.Dashboard.Errors.{
  TimerStatus, timer_idle, timer_running, timer_stopped, timer_error, ErrorSummary, ErrorState,
  timer_failed, connection_failed, plugin_failed, error_is_active,
}

-- The component of an error is in error: one of the five by its own status, any other as a plugin.
pub data IsStanding (name : String) (state : ErrorState) : Type 0 where
  timer : name ≡ "timer" → state.timer_status ≡ timer_error → IsStanding name state
  planning_center :
      name ≡ "planning_center" → state.planning_center_status ≡ error → IsStanding name state
  midi : name ≡ "midi" → state.midi_status ≡ error → IsStanding name state
  propresenter : name ≡ "propresenter" → state.propresenter_status ≡ error → IsStanding name state
  lights : name ≡ "lights" → state.lights_status ≡ error → IsStanding name state
  plugin :
      name ≢ "timer"
      → name ≢ "planning_center"
      → name ≢ "midi"
      → name ≢ "propresenter"
      → name ≢ "lights"
      → lookup name state.plugins ≡ some plugin_error
      → IsStanding name state

timer_of : (t : TimerStatus) → timer_failed t ≡ true → t ≡ timer_error
timer_of timer_error h = refl
timer_of timer_idle h = ground (arith, h)
timer_of timer_running h = ground (arith, h)
timer_of timer_stopped h = ground (arith, h)

connection_of : (c : ConnectionStatus) → connection_failed c ≡ true → c ≡ error
connection_of error h = refl
connection_of connecting h = ground (arith, h)
connection_of connected h = ground (arith, h)
connection_of disconnected h = ground (arith, h)

plugin_of : (p : Option PluginStatus) → plugin_failed p ≡ true → p ≡ some plugin_error
plugin_of (some plugin_error) h = refl
plugin_of (some plugin_stopped) h = ground (arith, h)
plugin_of (some plugin_starting) h = ground (arith, h)
plugin_of (some plugin_running) h = ground (arith, h)
plugin_of (some plugin_stopping) h = ground (arith, h)
plugin_of none h = ground (arith, h)

differs : (a b : String) → str_eq a b ≡ false → a ≢ b
differs a b other same = let e = (eq_iff a b).1 same in ground (arith, e, other)

str_eq-differs : (a b : String) → a ≢ b → str_eq a b ≡ false
str_eq-differs a b other = elim (Bool-cases (str_eq a b)) [
  | inl same ↦ absurd (other ((eq_iff a b).0 same))
  | inr apart ↦ apart
]

pub active-IsStanding :
    (e : ErrorSummary) (s : ErrorState) → error_is_active e s ≡ true → IsStanding e.component s
unfolding error_is_active
active-IsStanding e s h =
    let n = e.component in
    elim (Bool-cases (str_eq n "timer")) [
      | inl t ↦ timer ((eq_iff n "timer").0 t) (timer_of s.timer_status (ground (arith, h, t)))
      | inr nt ↦ elim (Bool-cases (str_eq n "planning_center")) [
        | inl c ↦
            planning_center ((eq_iff n "planning_center").0 c)
              (connection_of s.planning_center_status (ground (arith, h, nt, c)))
        | inr nc ↦ elim (Bool-cases (str_eq n "midi")) [
          | inl m ↦
              midi ((eq_iff n "midi").0 m)
                (connection_of s.midi_status (ground (arith, h, nt, nc, m)))
          | inr nm ↦ elim (Bool-cases (str_eq n "propresenter")) [
            | inl p ↦
                propresenter ((eq_iff n "propresenter").0 p)
                  (connection_of s.propresenter_status (ground (arith, h, nt, nc, nm, p)))
            | inr np ↦ elim (Bool-cases (str_eq n "lights")) [
              | inl l ↦
                  lights ((eq_iff n "lights").0 l)
                    (connection_of s.lights_status (ground (arith, h, nt, nc, nm, np, l)))
              | inr nl ↦
                  plugin (differs n _ nt) (differs n _ nc) (differs n _ nm) (differs n _ np)
                    (differs n _ nl)
                    (plugin_of (lookup n s.plugins) (ground (arith, h, nt, nc, nm, np, nl)))
            ]
          ]
        ]
      ]
    ]

pub standing-active :
    (e : ErrorSummary) (s : ErrorState) → IsStanding e.component s → error_is_active e s ≡ true
unfolding error_is_active
standing-active e s (timer n h) = rw (n, h) refl
standing-active e s (planning_center n h) = rw (n, h) refl
standing-active e s (midi n h) = rw (n, h) refl
standing-active e s (propresenter n h) = rw (n, h) refl
standing-active e s (lights n h) = rw (n, h) refl
standing-active e s (plugin nt nc nm np nl h) =
    let n = e.component in
    rw
      (
        str_eq-differs n _ nt,
        str_eq-differs n _ nc,
        str_eq-differs n _ nm,
        str_eq-differs n _ np,
        str_eq-differs n _ nl,
        h,
      )
      refl
