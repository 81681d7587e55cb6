-- ===== src/Registry/Slots/Enrolling.antt =====
-- The slots across `enroll`.
use stagepilot_beta.Common.{
  ℕ, ◌+◌, String, Bool, not, ◌&&◌, leb, List, [], ◌∷◌, any, length, str_eq, Option, none, some,
  is_some, lookup, lookup-insert_self, ◌≡◌, refl,
}
use stagepilot_beta.Registry.Sources.{Text, normalize_source_address}
use stagepilot_beta.Registry.Fleet.{SourceQuota}
use stagepilot_beta.Registry.Forms.{Input, enrollment_key}
use stagepilot_beta.Registry.Device.{apply_device_name}
use stagepilot_beta.Registry.Data.{World, Env, Installation, RegistryStats}
use stagepilot_beta.Registry.Action.{Action, ◌>>=◌, save, put_stats, modify, load}
use stagepilot_beta.Registry.Limits.{enrollment_denied}
use stagepilot_beta.Registry.Replies.{now_seconds}
use stagepilot_beta.Registry.Revocation.{mark_active, store_active, fresh_installation}
use stagepilot_beta.Registry.Enrollment.{
  is_fresh, forget_quota, put_enrollment, span, prune, prune_source_quotas, check_quota,
  check_index, next_quota, enrollments_per_source, max_source_quotas, mint_from, mint_at, mint,
  reopen, enrolled, find_enrolled, admit_enrolled, enroll_as, enroll, source_hash, is_exempt,
}
use stagepilot_beta.Registry.Rules.Basic.{Keeps, Keeps-pure, Keeps-gets, Keeps-bind, Keeps-if}
use stagepilot_beta.Registry.Rules.Leads.{
  Leads, Leads-bind, Leads-pure, Leads-if, Leads-keep, Leads-strengthen,
}
use stagepilot_beta.Registry.Slots.Invariant.{IsSound, steady-IsSound}
use stagepilot_beta.Registry.Slots.Revoking.{stats-IsSound, keep_now, now_text-Keeps}
use stagepilot_beta.Registry.Slots.Provisioning.{Held, Held-IsSound, note-Held}
use stagepilot_beta.Registry.Slots.Renewal.{
  IsFree, deny-IsSound, unavailable-IsSound, require_slot-IsFree, store_active-IsSound,
  unique_id-Keeps, load-Holds, found-Holds,
}
use stagepilot_beta.Registry.Slots.Fleet.{read_body-Keeps}

module _ (env : Env) where
  abbrev limit : ℕ
  limit = env.installation_limit

  abbrev Sound : World → Type 0
  Sound = IsSound limit 0

  -- What was found or made is stored.
  abbrev Found : Option Installation → World → Type 0
  Found none w = Sound w
  Found (some i) w = Held env i w

  module _ (n : ℕ) where
    forget_quota-Keeps : (hash : String) → Keeps (IsFree env n) (forget_quota hash)
    unfolding forget_quota
    forget_quota-Keeps hash = record {
      at = λ w h. record {
        sound = steady-IsSound limit h.sound (record { same = refl; counted = h.sound.stored });
        read = h.read;
        free = h.free;
      };
    }

    put_enrollment-Keeps :
        (nonce hash : String) (q : SourceQuota) (index : List String) (i : Installation)
        → Keeps (IsFree env n) (put_enrollment nonce hash q index i)
    unfolding put_enrollment
    put_enrollment-Keeps nonce hash q index i = record {
      at = λ w h. record {
        sound = steady-IsSound limit h.sound (record { same = refl; counted = h.sound.stored });
        read = h.read;
        free = h.free;
      };
    }

    prune-Keeps : (now : ℕ) (hashes : List String) → Keeps (IsFree env n) (prune env now hashes)
    unfolding prune
    prune-Keeps now [] = Keeps-pure []
    prune-Keeps now (hash ∷ hashes) = Keeps-bind _ _ (Keeps-gets _) λ quota.
        Keeps-if (is_fresh (span env) now quota) _ _
          (Keeps-bind _ _ (prune-Keeps now hashes) λ rest. Keeps-pure (hash ∷ rest))
          (Keeps-bind _ _ (forget_quota-Keeps hash) λ _. prune-Keeps now hashes)

    prune_all-Keeps : (now : ℕ) → Keeps (IsFree env n) (prune_source_quotas env now)
    unfolding prune_source_quotas
    prune_all-Keeps now = Keeps-bind _ _ (Keeps-gets _) (prune-Keeps now)

    keep-IsFree :
        {A : Type 0} (m : Action A)
        → Keeps (IsFree env n) m
        → Leads Sound (IsFree env n) m (λ _. IsFree env n)
    keep-IsFree m k = Leads-keep Sound m (λ w h. h.sound) k

  module _ (s : RegistryStats) where
    abbrev Free : World → Type 0
    Free = IsFree env s.active_installations

    check_quota-IsFree :
        (exempt : Bool) (now : ℕ) (q : Option SourceQuota)
        → Leads Sound Free (check_quota env s exempt now q) (λ _. Free)
    unfolding check_quota
    check_quota-IsFree exempt now none = Leads-pure Sound tt (λ w h. h)
    check_quota-IsFree exempt now (some q) =
        Leads-if Sound (not exempt && leb enrollments_per_source q.count) _ _
          (Leads-strengthen Sound _ (λ w h. (h.sound, h.read))
            (deny-IsSound env s enrollment_denied _ _))
          (Leads-pure Sound tt (λ w h. h))

    check_index-IsFree :
        (q : Option SourceQuota) (hash : String) (index : List String)
        → Leads Sound Free (check_index env s q hash index) (λ _. Free)
    unfolding check_index
    check_index-IsFree q hash index =
        Leads-if Sound
          (not (is_some q)
            && (not (any (str_eq hash) index) && leb max_source_quotas (length index)))
          _ _ (Leads-strengthen Sound _ (λ w h. (h.sound, h.read)) (unavailable-IsSound env s _))
          (Leads-pure Sound tt (λ w h. h))

  store_active-Held :
      (n : ℕ) (s : RegistryStats) (i : Installation)
      → s.active_installations ≡ n + 1
      → Leads Sound (IsFree env n) (store_active env s i) (λ _. Held env i)
  unfolding store_active ◌>>=◌ save put_stats modify
  store_active-Held n s i more = record {
    at = λ w h. record {
      sound = (store_active-IsSound env n s i more).at w h;
      old = i;
      known = lookup-insert_self i.id i w.installations;
      same = refl;
    };
  }

  seconds-Keeps : (P : World → Type 0) → Keeps P (now_seconds env)
  unfolding now_seconds
  seconds-Keeps P = Keeps-gets _

  mint_from-Held :
      (s : RegistryStats) (source : Text) (nonce : String) (device : Option String)
      → Leads Sound (Free s) (mint_from env s source nonce device) (Held env)
  unfolding mint_from
  mint_from-Held s source nonce device =
      let n = s.active_installations in
      let hash = source_hash env source in
      Leads-bind Sound _ _ (keep-IsFree n _ (seconds-Keeps _)) λ now.
        Leads-bind Sound _ _ (keep-IsFree n _ (Keeps-gets _)) λ quota.
          Leads-bind Sound _ _ (check_quota-IsFree s (is_exempt env source) now quota) λ _.
            Leads-bind Sound _ _ (keep-IsFree n _ (prune_all-Keeps n now)) λ index.
              Leads-bind Sound _ _ (check_index-IsFree s quota hash index) λ _.
                Leads-bind Sound _ _ (keep-IsFree n _ (unique_id-Keeps env _)) λ id.
                  Leads-bind Sound _ _ (keep-IsFree n _ (now_text-Keeps env _)) λ at.
                    let fresh = (apply_device_name (fresh_installation env id at) device).0 in
                    Leads-bind Sound _ _
                      (keep-IsFree n _
                        (put_enrollment-Keeps n nonce hash (next_quota now quota) index fresh))
                      λ _.
                        Leads-bind Sound _ _ (store_active-Held n _ fresh refl)
                          λ _. Leads-pure Sound fresh (λ w h. h)

  mint_at-Found :
      (s : RegistryStats) (o : Option Text) (nonce : String) (device : Option String)
      → Leads Sound (Free s) (mint_at env s o nonce device) Found
  unfolding mint_at
  mint_at-Found s none nonce device = Leads-pure Sound none (λ w h. h.sound)
  mint_at-Found s (some source) nonce device =
      Leads-bind Sound _ _ (mint_from-Held s source nonce device)
        λ i. Leads-pure Sound (some i) (λ w h. h)

  mint-Found :
      (address : Text) (nonce : String) (device : Option String)
      → Leads Sound Sound (mint env address nonce device) Found
  unfolding mint
  mint-Found address nonce device = Leads-bind Sound _ _ (stats-IsSound env) λ s.
      Leads-bind Sound _ _ (require_slot-IsFree env s)
        λ _. mint_at-Found s (normalize_source_address address) nonce device

  reopen-Held :
      (i : Installation) (device : Option String)
      → Leads Sound Sound (reopen env i device) (Held env)
  unfolding reopen
  reopen-Held i device = Leads-bind Sound _ _ (stats-IsSound env) λ s.
      Leads-bind Sound _ _ (require_slot-IsFree env s) λ _.
        Leads-bind Sound _ _ (keep_now env (λ w h. h.sound)) λ at.
          let active = (apply_device_name (mark_active at i) device).0 in
          Leads-bind Sound _ _ (store_active-Held s.active_installations _ active refl)
            λ _. Leads-pure Sound active (λ w h. h)

  enrolled-Found :
      (address : Text) (nonce : String) (device : Option String) (o : Option Installation)
      → Leads Sound (Found o) (enrolled env address nonce device o) Found
  unfolding enrolled
  enrolled-Found address nonce device none = mint-Found address nonce device
  enrolled-Found address nonce device (some i) =
      Leads-if Sound i.revoked _ _
        (Leads-strengthen Sound _ (Held-IsSound env i) (
          Leads-bind Sound _ _ (reopen-Held i device)
            λ active. Leads-pure Sound (some active) (λ w h. h)))
        (Leads-pure Sound (some i) (λ w h. h))

  loaded-Found :
      (id : String) (o : Option Installation) (w : World)
      → Sound w × (lookup id w.installations ≡ o)
      → Found o w
  loaded-Found id none w h = h.0
  loaded-Found id (some i) w h = found-Holds env id i w h

  find-Found : (o : Option String) → Leads Sound Sound (find_enrolled env o) Found
  unfolding find_enrolled load
  find-Found none = Leads-pure Sound none (λ w h. h)
  find-Found (some id) = record { at = λ w h. loaded-Found id _ w ((load-Holds env id).at w h) }

  admit-IsSound :
      (device : Option String) (o : Option Installation)
      → Leads Sound (Found o) (admit_enrolled env device o) (λ _. Sound)
  unfolding admit_enrolled
  admit-IsSound device none = Leads-pure Sound _ (λ w h. h)
  admit-IsSound device (some i) =
      Leads-bind Sound _ _ (note-Held env i device)
        λ named. Leads-pure Sound _ (Held-IsSound env named)

  enroll_as-IsSound :
      (address : Text) (device nonce : Option String)
      → Leads Sound Sound (enroll_as env address device nonce) (λ _. Sound)
  unfolding enroll_as
  enroll_as-IsSound address device none = Leads-pure Sound _ (λ w h. h)
  enroll_as-IsSound address device (some nonce) =
      Leads-bind Sound _ _ (Leads-keep Sound _ (λ w h. h) (Keeps-gets _)) λ id.
        Leads-bind Sound _ _ (find-Found id) λ known.
          Leads-bind Sound _ _ (enrolled-Found address nonce device known)
            λ installation. admit-IsSound device installation

  -- An enrolment takes a slot only where one is free.
  pub enroll-IsSound :
      (address : Text) (input : Option Input)
      → Leads Sound Sound (enroll env address input) (λ _. Sound)
  unfolding enroll
  enroll-IsSound address input =
      Leads-bind Sound _ _ (Leads-keep Sound _ (λ w h. h) (read_body-Keeps env Sound input))
        λ given. enroll_as-IsSound address given.device_name (enrollment_key given)
