-- ===== src/Registry/Slots/Renewal.antt =====
-- The slots across `reactivate`, `reenroll` and `adminRevoke`.
use stagepilot_beta.Common.{
  ℕ, zero, suc, ◌+◌, String, Bool, true, false, not, Option, none, some, lookup, insert, ◌≡◌, ◌≤◌,
  ◌<◌, refl, arith, leb, if◌then◌else◌,
}
use stagepilot_beta.Registry.Data.{World, Env, Installation, RegistryStats}
use stagepilot_beta.Registry.Action.{
  Thrown, pure, throw, gets, ◌>>=◌, save, put_stats, load, modify,
}
use stagepilot_beta.Registry.Limits.{count_live, bump_denied, Denied, enrollment_denied}
use stagepilot_beta.Registry.Revocation.{
  mark_active, require_slot, unavailable, store_active, reactivate, unique_id, unused_id,
  fresh_installation, reenroll, revoke_found, admin_revoke,
}
use stagepilot_beta.Registry.Rules.Basic.{
  Keeps, Keeps-pure, Keeps-gets, Keeps-bind, Keeps-elim, keeps_rules,
}
use stagepilot_beta.Registry.Slots.Count.{count_live-insert, insert-IsKeyed}
use stagepilot_beta.Registry.Slots.Steady.{active}
use stagepilot_beta.Registry.Rules.Leads.{
  Leads, Leads-bind, Leads-pure, Leads-if, Leads-keep, Leads-strengthen,
}
use stagepilot_beta.Registry.Slots.Invariant.{IsSound, Holds, IsRead}
use stagepilot_beta.Registry.Slots.Revoking.{stats-IsSound, disable-IsSound, keep_now}

module _ (env : Env) where
  abbrev limit : ℕ
  limit = env.installation_limit

  -- The counter that was read is still stored, and a slot is free.
  pub record IsFree (n : ℕ) (w : World) : Type 0 where
    pub sound : IsSound limit 0 w
    pub read : active w.stats ≡ some n
    pub free : n < limit

  -- A refusal that is counted.
  pub deny-IsSound :
      {A : Type 0} (s : RegistryStats) (field : Denied) (t : Thrown) (Q : A → World → Type 0)
      → Leads
          (IsSound limit 0)
          (IsRead limit (IsSound limit 0) s)
          (bump_denied s field >>= λ _. throw t)
          Q
  unfolding ◌>>=◌ throw bump_denied put_stats modify
  deny-IsSound s field t Q = record {
    at = λ w h. record {
      counter = h.0.counter;
      stored = ground (arith, h.0.stored, h.1);
      covered = h.0.covered;
      bounded = h.0.bounded;
      keyed = h.0.keyed;
    };
  }

  pub unavailable-IsSound :
      (s : RegistryStats) (Q : Unit {0} → World → Type 0)
      → Leads (IsSound limit 0) (IsRead limit (IsSound limit 0) s) (unavailable env s) Q
  unfolding unavailable
  unavailable-IsSound s Q = deny-IsSound s enrollment_denied _ Q

  slot-IsFree :
      (s : RegistryStats) (b : Bool)
      → leb limit s.active_installations ≡ b
      → Leads
          (IsSound limit 0)
          (IsRead limit (IsSound limit 0) s)
          (if b then unavailable env s else pure tt)
          (λ _. IsFree s.active_installations)
  slot-IsFree s true full = unavailable-IsSound s _
  slot-IsFree s false space =
      Leads-pure (IsSound limit 0) tt
        λ w h. record { sound = h.0; read = h.1; free = ground (arith, space) }

  pub require_slot-IsFree :
      (s : RegistryStats)
      → Leads
          (IsSound limit 0)
          (IsRead limit (IsSound limit 0) s)
          (require_slot env s)
          (λ _. IsFree s.active_installations)
  unfolding require_slot
  require_slot-IsFree s =
      Leads-if (IsSound limit 0) (not env.enrollment_enabled) _ _ (unavailable-IsSound s _)
        (slot-IsFree s _ refl)

  pub store_active-IsSound :
      (n : ℕ) (s : RegistryStats) (i : Installation)
      → s.active_installations ≡ n + 1
      → Leads (IsSound limit 0) (IsFree n) (store_active env s i) (λ _. IsSound limit 0)
  unfolding store_active ◌>>=◌ save put_stats modify
  store_active-IsSound n s i more = record {
    at = λ w h.
        let counts = count_live-insert i.id i w.installations in
        let same : h.sound.counter ≡ n = ground (arith, h.sound.stored, h.read) in
        let one_more : count_live (insert i.id i w.installations) ≤ count_live w.installations + 1 =
          ground (arith, counts) in
        record {
          counter = s.active_installations;
          stored = refl;
          covered = omega (arith, one_more, h.sound.covered, same, more);
          bounded = omega (arith, one_more, h.sound.covered, same, h.free);
          keyed = insert-IsKeyed i w.installations h.sound.keyed;
        };
  }

  -- Reactivation takes a slot only where one is free.
  pub reactivate-IsSound :
      (i : Installation)
      → Leads (IsSound limit 0) (IsSound limit 0) (reactivate env i) (λ _. IsSound limit 0)
  unfolding reactivate
  reactivate-IsSound i =
      Leads-if (IsSound limit 0) _ _ _ (Leads-pure (IsSound limit 0) _ (λ w h. h)) (
        Leads-bind (IsSound limit 0) _ _ (stats-IsSound env) λ s.
          Leads-bind (IsSound limit 0) _ _ (require_slot-IsFree s) λ _.
            Leads-bind (IsSound limit 0) _ _ (keep_now env (λ w h. h.sound)) λ at.
              Leads-bind (IsSound limit 0) _ _
                (store_active-IsSound s.active_installations _ (mark_active at i) refl)
                λ _. Leads-pure (IsSound limit 0) _ (λ w h. h))

  unused_id-Keeps : (P : World → Type 0) (n : ℕ) → Keeps P (unused_id env n)
  unfolding unused_id load gets
  unused_id-Keeps P zero = search keeps_rules
  unused_id-Keeps P (suc n) = Keeps-bind _ _ (Keeps-gets _) λ candidate.
      Keeps-bind _ _ (load-Keeps P candidate)
        λ found. Keeps-elim found _ _ (Keeps-pure candidate) (λ _. unused_id-Keeps P n)
    where
      load-Keeps : (P : World → Type 0) (id : String) → Keeps P (load id)
      load-Keeps P id = record { at = λ w h. h }

  pub unique_id-Keeps : (P : World → Type 0) → Keeps P (unique_id env)
  unfolding unique_id
  unique_id-Keeps P = unused_id-Keeps P 5

  -- The installation that takes over needs a free slot, behind the one that is given back.
  pub reenroll-IsSound :
      (i : Installation)
      → Leads (IsSound limit 0) (Holds limit 0 i) (reenroll env i) (λ _. IsSound limit 0)
  unfolding reenroll
  reenroll-IsSound i = Leads-bind (IsSound limit 0) _ _ (disable-IsSound env i true) λ _.
      Leads-bind (IsSound limit 0) _ _ (stats-IsSound env) λ s.
        Leads-bind (IsSound limit 0) _ _ (require_slot-IsFree s) λ _.
          Leads-bind (IsSound limit 0) _ _
            (Leads-keep (IsSound limit 0) (unique_id env) (λ w h. h.sound) (unique_id-Keeps _))
            λ id. Leads-bind (IsSound limit 0) _ _ (keep_now env (λ w h. h.sound)) λ now.
              Leads-bind (IsSound limit 0) _ _
                (store_active-IsSound s.active_installations _ (fresh_installation env id now) refl)
                λ _. Leads-pure (IsSound limit 0) _ (λ w h. h)

  -- What is loaded is stored.
  pub load-Holds :
      (id : String)
      → Leads
          (IsSound limit 0)
          (IsSound limit 0)
          (load id)
          (λ o w. IsSound limit 0 w × (lookup id w.installations ≡ o))
  unfolding load gets
  load-Holds id = record { at = λ w h. (h, refl) }

  pub found-Holds :
      (id : String) (i : Installation) (w : World)
      → IsSound limit 0 w × (lookup id w.installations ≡ some i)
      → Holds limit 0 i w
  found-Holds id i w (sound, found) = record {
    sound = sound;
    old = i;
    known = simp (sound.keyed.own id i found) found;
    same = refl;
  }

  admin_revoke_found :
      (id : String) (o : Option Installation)
      → Leads
          (IsSound limit 0)
          (λ w. IsSound limit 0 w × (lookup id w.installations ≡ o))
          (revoke_found env o)
          (λ _. IsSound limit 0)
  unfolding revoke_found
  admin_revoke_found id none = Leads-pure (IsSound limit 0) _ (λ w h. h.0)
  admin_revoke_found id (some i) =
      Leads-if (IsSound limit 0) _ _ _ (Leads-pure (IsSound limit 0) _ (λ w h. h.0))
        (Leads-strengthen (IsSound limit 0) _ (found-Holds id i) (disable-IsSound env i true))

  pub admin_revoke-IsSound :
      (id : String)
      → Leads (IsSound limit 0) (IsSound limit 0) (admin_revoke env id) (λ _. IsSound limit 0)
  unfolding admin_revoke
  admin_revoke-IsSound id =
      Leads-bind (IsSound limit 0) _ _ (load-Holds id) λ o. admin_revoke_found id o
