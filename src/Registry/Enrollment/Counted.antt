-- ===== src/Registry/Enrollment/Counted.antt =====
-- control-plane/src/index.ts: what the quota of a source is after one enrolment more.
use stagepilot_beta.Common.{
  ℕ, ◌+◌, ◌≤◌, ◌<◌, leb, Bool-cases, inl, inr, Option, none, some, ◌≡◌, refl, arith,
}
use stagepilot_beta.Registry.Fleet.{SourceQuota}
use stagepilot_beta.Registry.Enrollment.{current_quota, next_quota}

-- The quota `q` counts one enrolment more than `old`, in the same window where that is open.
abbrev pub IsCounted : (window now : ℕ) → Option SourceQuota → SourceQuota → Type 0
IsCounted window now none q = q ≡ record { started_at = now; count = 1; last_seen_at = now }
IsCounted window now (some old) q =
    (now < old.started_at + window
      → q ≡ record { started_at = old.started_at; count = old.count + 1; last_seen_at = now })
    × (old.started_at + window ≤ now
        → q ≡ record { started_at = now; count = 1; last_seen_at = now })

pub next-IsCounted :
    (window now : ℕ) (stored : Option SourceQuota)
    → IsCounted window now stored (next_quota now (current_quota window now stored))
unfolding next_quota current_quota
next-IsCounted window now none = refl
next-IsCounted window now (some old) = elim (Bool-cases (leb (old.started_at + window) now)) [
  | inl ended ↦ rw ended (λ running. ground (arith, ended, running), λ _. refl)
  | inr running ↦ rw running (λ _. refl, λ ended. ground (arith, running, ended))
]
