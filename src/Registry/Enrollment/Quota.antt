-- ===== src/Registry/Enrollment/Quota.antt =====
-- control-plane/src/index.ts: the quota of a source across an enrolment.
use stagepilot_beta.Common.{
  ℕ, leb, String, Bool, Bool-cases, inl, inr, false, not, ◌&&◌, List, Option, none, some, lookup,
  lookup-insert_self, ◌≡◌, ◌≤◌, refl, arith,
}
use stagepilot_beta.Registry.Sources.{Text, normalize_source_address}
use stagepilot_beta.Registry.Fleet.{SourceQuota}
use stagepilot_beta.Registry.Forms.{Input, enrollment_key}
use stagepilot_beta.Registry.Device.{apply_device_name}
use stagepilot_beta.Registry.Data.{World, Env, Installation, RegistryStats, Response}
use stagepilot_beta.Registry.Action.{
  Action, Outcome, ok, thrown, pure, throw, gets, modify, ◌>>=◌, save, put_stats,
}
use stagepilot_beta.Registry.Limits.{stats, read_stats, bump_denied}
use stagepilot_beta.Registry.Replies.{now_seconds, now_text}
use stagepilot_beta.Registry.Revocation.{require_slot, unavailable, store_active}
use stagepilot_beta.Registry.Approvals.{read_body}
use stagepilot_beta.Registry.Provision.{note_device}
use stagepilot_beta.Registry.Enrollment.{
  enrollments_per_source, current_quota, next_quota, put_enrollment, span, check_quota, mint_from,
  mint_at, mint, enrolled, find_enrolled, admit_enrolled, enroll_as, enroll, source_hash, is_exempt,
}
use stagepilot_beta.Registry.Enrollment.Counted.{IsCounted, next-IsCounted}
use stagepilot_beta.Registry.Rules.Basic.{Keeps, Keeps-if, Keeps-pure}
use stagepilot_beta.Registry.Rules.Leads.{Ends, Leads, Leads-bind, Leads-pure, Leads-keep}

abbrev Anything : World → Type 0
Anything w = Unit {0}

-- What does not speak of the world holds after any action.
Ends-fact : {A : Type 0} {C : Type 0} (o : Outcome A) (w : World) → C → Ends Anything (λ _ _. C) o w
Ends-fact (ok a) w c = c
Ends-fact (thrown t) w c = tt

fact : {A : Type 0} {C : Type 0} (m : Action A) → Leads Anything (λ _. C) m (λ _ _. C)
fact m = record { at = λ w c. let (o, w') = m w in Ends-fact o w' c }

module _ (env : Env) (source : Text) (start : World) where
  abbrev pub hash : String
  hash = source_hash env source

  abbrev pub moment_of : ℕ
  moment_of = env.seconds start.log start.moment

  abbrev before : Option SourceQuota
  before = current_quota (span env) moment_of (lookup hash start.quotas)

  -- The quota that is stored after an enrolment.
  abbrev after : SourceQuota
  after = next_quota moment_of before

  -- The clock and the quota are those of the start.
  abbrev Started : World → Type 0
  Started w =
      (w.log ≡ start.log)
      × (w.moment ≡ start.moment)
      × (lookup hash w.quotas ≡ lookup hash start.quotas)

  abbrev IsCharged : World → Type 0
  IsCharged w =
      (lookup hash w.quotas ≡ some after)
      × (is_exempt env source ≡ false → after.count ≤ enrollments_per_source)

  keep-Started :
      {A : Type 0} (m : Action A) → Keeps Started m → Leads Anything Started m (λ _. Started)
  keep-Started m k = Leads-keep Anything m (λ w h. tt) k

  keep-IsCharged :
      {A : Type 0} (m : Action A) → Keeps IsCharged m → Leads Anything IsCharged m (λ _. IsCharged)
  keep-IsCharged m k = Leads-keep Anything m (λ w h. tt) k

  stats-Started : Keeps Started stats
  unfolding stats read_stats
  stats-Started = record { at = λ w h. ground (arith, h) }

  unavailable-Started : (s : RegistryStats) → Keeps Started (unavailable env s)
  unfolding unavailable bump_denied put_stats modify throw ◌>>=◌
  unavailable-Started s = record { at = λ w h. h }

  require-Started : (s : RegistryStats) → Keeps Started (require_slot env s)
  unfolding require_slot
  require-Started s = Keeps-if (not env.enrollment_enabled) _ _ (unavailable-Started s) (
      Keeps-if (leb env.installation_limit s.active_installations) _ _ (unavailable-Started s)
        (Keeps-pure tt))

  abbrev IsNow : ℕ → Type 0
  IsNow now = now ≡ moment_of

  seconds-Leads : Leads Anything Started (now_seconds env) (λ now w. Started w × IsNow now)
  unfolding now_seconds gets
  seconds-Leads = record { at = λ w h. (h, rw (h.0, h.1) refl) }

  quota-Leads :
      (now : ℕ)
      → Leads Anything
          (λ w. Started w × IsNow now)
          (gets (λ w. current_quota (span env) now (lookup hash w.quotas)))
          (λ q w. IsNow now × (q ≡ before))
  unfolding gets
  quota-Leads now = record { at = λ w h. (h.1, rw (h.1, h.0.2) refl) }

  -- Where the check passes, one more enrolment is within the limit.
  abbrev Fits : ℕ → Option SourceQuota → Type 0
  Fits now q = is_exempt env source ≡ false → (next_quota now q).count ≤ enrollments_per_source

  check-Leads :
      (s : RegistryStats) (exempt : Bool) (now : ℕ) (q : Option SourceQuota)
      → is_exempt env source ≡ exempt
      → Leads Anything
          (λ w. IsNow now × (q ≡ before))
          (check_quota env s exempt now q)
          (λ _ w. IsNow now × (q ≡ before) × Fits now q)
  unfolding check_quota bump_denied put_stats modify throw pure ◌>>=◌ next_quota
  check-Leads s exempt now none e = record { at = λ w h. (h.0, h.1, λ x. omega arith) }
  check-Leads s exempt now (some q) e =
      elim (Bool-cases (not exempt && leb enrollments_per_source q.count)) [
        | inl full ↦ rw (full, check_quota) (record { at = λ w h. tt })
        | inr free ↦
            rw (free, check_quota)
              (record { at = λ w h. (h.0, h.1, λ x. ground (arith, free, e, x)) })
      ]

  put-IsCharged :
      (nonce : String) (now : ℕ) (q : Option SourceQuota) (index : List String) (i : Installation)
      → Leads Anything
          (λ w. IsNow now × (q ≡ before) × Fits now q)
          (put_enrollment nonce hash (next_quota now q) index i)
          (λ _. IsCharged)
  unfolding put_enrollment modify
  put-IsCharged nonce now q index i = record {
    at = λ w h. (
      rw (lookup-insert_self hash (next_quota now q) w.quotas, h.0, h.1) refl,
      rw (h.0, h.1) at h.2,
    );
  }

  active-IsCharged : (s : RegistryStats) (i : Installation) → Keeps IsCharged (store_active env s i)
  unfolding store_active save put_stats modify ◌>>=◌
  active-IsCharged s i = record { at = λ w h. h }

  note-IsCharged :
      (i : Installation) (device : Option String) → Keeps IsCharged (note_device env i device)
  unfolding note_device now_text gets save modify pure ◌>>=◌
  note-IsCharged i device = elim (Bool-cases (apply_device_name i device).1) [
    | inl changed ↦ rw (changed, note_device) (record { at = λ w h. h })
    | inr same ↦ rw (same, note_device) (record { at = λ w h. h })
  ]

  mint_from-IsCharged :
      (s : RegistryStats) (nonce : String) (device : Option String)
      → Leads Anything Started (mint_from env s source nonce device) (λ _. IsCharged)
  unfolding mint_from
  mint_from-IsCharged s nonce device = Leads-bind Anything _ _ seconds-Leads λ now.
      Leads-bind Anything _ _ (quota-Leads now) λ quota.
        Leads-bind Anything _ _ (check-Leads s (is_exempt env source) now quota refl) λ _.
          Leads-bind Anything _ _ (fact _) λ index. Leads-bind Anything _ _ (fact _) λ _.
            Leads-bind Anything _ _ (fact _) λ id. Leads-bind Anything _ _ (fact _) λ at.
              Leads-bind Anything _ _ (put-IsCharged nonce now quota index _) λ _.
                Leads-bind Anything _ _ (keep-IsCharged _ (active-IsCharged _ _))
                  λ _. Leads-pure Anything _ (λ w h. h)

  mint-IsCharged :
      (address : Text) (nonce : String) (device : Option String)
      → normalize_source_address address ≡ some source
      → Leads Anything Started (mint env address nonce device) (λ _. IsCharged)
  unfolding mint mint_at
  mint-IsCharged address nonce device reads =
      Leads-bind Anything _ _ (keep-Started _ stats-Started) λ s.
        Leads-bind Anything _ _ (keep-Started _ (require-Started s)) λ _.
          rw (reads, mint_at)
            (Leads-bind Anything _ _ (mint_from-IsCharged s nonce device)
              λ i. Leads-pure Anything _ (λ w h. h))

  admit-IsCharged :
      (device : Option String) (o : Option Installation)
      → Leads Anything IsCharged (admit_enrolled env device o) (λ _. IsCharged)
  unfolding admit_enrolled
  admit-IsCharged device none = Leads-pure Anything _ (λ w h. h)
  admit-IsCharged device (some i) =
      Leads-bind Anything _ _ (keep-IsCharged _ (note-IsCharged i device))
        λ named. Leads-pure Anything _ (λ w h. h)

  new_nonce :
      (address : Text) (given : Input) (nonce : String)
      → enrollment_key given ≡ some nonce
      → lookup nonce start.enrollments ≡ none
      → enroll env address (some given) start
        ≡ (mint env address nonce given.device_name >>= admit_enrolled env given.device_name) start
  unfolding enroll read_body enroll_as find_enrolled enrolled pure gets ◌>>=◌
  new_nonce address given nonce valid unknown = simp (valid, unknown)

  Ends-IsCharged :
      (o : Outcome Response) (w : World) (r : Response)
      → Ends Anything (λ _. IsCharged) o w
      → o ≡ ok r
      → IsCharged w
  Ends-IsCharged (ok a) w r h e = h
  Ends-IsCharged (thrown t) w r h e = ground (arith, e)

  enroll-IsCharged :
      (address : Text) (given : Input) (nonce : String) (r : Response)
      → enrollment_key given ≡ some nonce
      → lookup nonce start.enrollments ≡ none
      → normalize_source_address address ≡ some source
      → (enroll env address (some given) start).0 ≡ ok r
      → IsCharged (enroll env address (some given) start).1
  enroll-IsCharged address given nonce r valid unknown reads answered =
      let whole : Leads Anything Started
          (mint env address nonce given.device_name >>= admit_enrolled env given.device_name)
          (λ _. IsCharged) =
        Leads-bind Anything _ _ (mint-IsCharged address nonce given.device_name reads)
          (admit-IsCharged given.device_name) in
      let same = new_nonce address given nonce valid unknown in
      rw same (Ends-IsCharged _ _ r (whole.at start (refl, refl, refl)) (rw same at answered))

  -- An enrolment with a new nonce and an address that can be read, if it is answered, stores a quota
  -- for the network of the address.
  -- Where one was stored whose window, of the configured length, is still open, the new one has the
  -- same start and a count of one more; where none was, or its window has ended, a window starts now
  -- with a count of 1. Both note the time, and the count is at most 3 unless the network is exempt.
  pub enroll_quota :
      (address : Text) (given : Input) (nonce : String) (r : Response)
      → enrollment_key given ≡ some nonce
      → lookup nonce start.enrollments ≡ none
      → normalize_source_address address ≡ some source
      → (enroll env address (some given) start).0 ≡ ok r
      → (q : SourceQuota) × (lookup hash (enroll env address (some given) start).1.quotas ≡ some q)
        × IsCounted env.enrollment_window moment_of (lookup hash start.quotas) q
        × (is_exempt env source ≡ false → q.count ≤ 3)
  enroll_quota address given nonce r valid unknown reads answered =
      let charged = enroll-IsCharged address given nonce r valid unknown reads answered in
      (after, charged.0, next-IsCounted (span env) moment_of (lookup hash start.quotas), charged.1)
