-- ===== src/Registry/Slots/Revoking.antt =====
-- The slots across `disable`, `reactivate` and `reenroll`.
use stagepilot_beta.Common.{
  ℕ, ◌+◌, ◌-◌, String, Bool, true, false, not, ◌&&◌, insert, lookup-insert_self, ◌≡◌, refl, arith,
}
use stagepilot_beta.Registry.Data.{World, Env, Installation, RegistryStats, CfCall}
use stagepilot_beta.Registry.Action.{pure, save, put_stats, forget_token}
use stagepilot_beta.Registry.Limits.{count_live, stats}
use stagepilot_beta.Registry.Provider.{cf}
use stagepilot_beta.Registry.Cleanup.{teardown}
use stagepilot_beta.Registry.Replies.{now_text}
use stagepilot_beta.Registry.Revocation.{release_slot, mark_revoking, mark_disabled, disable}
use stagepilot_beta.Registry.Rules.Basic.{Keeps, keeps_rules}
use stagepilot_beta.Registry.Rules.Calls.{teardown-Keeps}
use stagepilot_beta.Registry.Slots.Count.{count_live-insert, insert-IsKeyed}
use stagepilot_beta.Registry.Slots.Steady.{stats-IsSteady, cf-IsSteady}
use stagepilot_beta.Registry.Rules.Leads.{
  Leads, Leads-bind, Leads-pure, Leads-keep, Leads-strengthen,
}
use stagepilot_beta.Registry.Slots.Invariant.{
  IsSound, Holds, weaken, steady-IsSound, steady-Holds, save-Holds, IsRead, stats-Leads,
}

abbrev pub spare_of : Bool → ℕ
spare_of true = 1
spare_of false = 0

module _ (env : Env) where
  abbrev pub limit : ℕ
  limit = env.installation_limit

  pub cf-Holds :
      (spare : ℕ) (i : Installation) (call : CfCall) → Keeps (Holds limit spare i) (cf env call)
  cf-Holds spare i call = record {
    at = λ w h. steady-Holds limit h (
        (cf-IsSteady w.installations h.sound.counter env call).at w
          (record { same = refl; counted = h.sound.stored }));
  }

  pub Holds-IsSound :
      (spare : ℕ) (i : Installation) (w : World) → Holds limit spare i w → IsSound limit 0 w
  Holds-IsSound spare i w h = weaken limit h.sound

  forget_token-Holds :
      (spare : ℕ) (i : Installation) (id : String) → Keeps (Holds limit spare i) (forget_token id)
  unfolding forget_token
  forget_token-Holds spare i id = record {
    at = λ w h. record {
      sound = record {
        counter = h.sound.counter;
        stored = h.sound.stored;
        covered = h.sound.covered;
        bounded = h.sound.bounded;
        keyed = h.sound.keyed;
      };
      old = h.old;
      known = h.known;
      same = h.same;
    };
  }

  pub now_text-Keeps : (P : World → Type 0) → Keeps P (now_text env)
  unfolding now_text
  now_text-Keeps P = search keeps_rules

  -- Marking an installation as revoked frees the slot that it held.
  mark-Holds :
      (i : Installation) (revoke : Bool) (at : String)
      → Leads
          (IsSound limit 0)
          (Holds limit 0 i)
          (save (mark_revoking revoke at i))
          (λ _. Holds limit (spare_of (revoke && not i.revoked)) (mark_revoking revoke at i))
  unfolding save mark_revoking
  mark-Holds i revoke at = record {
    at = λ w h.
        let j = mark_revoking revoke at i in
        let counts = count_live-insert i.id j w.installations in
        let known = h.known in
        let fewer : count_live (insert i.id j w.installations) + spare_of (revoke && not i.revoked)
            ≡ count_live w.installations =
          ground (arith, counts, known, h.same) in
        record {
          sound = record {
            counter = h.sound.counter;
            stored = h.sound.stored;
            covered = omega (arith, fewer, h.sound.covered);
            bounded = omega (arith, fewer, h.sound.bounded);
            keyed = insert-IsKeyed j w.installations h.sound.keyed;
          };
          old = j;
          known = lookup-insert_self i.id j w.installations;
          same = refl;
        };
  }

  pub stats-IsSound :
      Leads (IsSound limit 0) (IsSound limit 0) stats (IsRead limit (IsSound limit 0))
  stats-IsSound = stats-Leads limit (IsSound limit 0) (record {
    at = λ w h. steady-IsSound limit h (
        (stats-IsSteady w.installations h.counter).at w
          (record { same = refl; counted = h.stored }));
  })

  stats-spare :
      (spare : ℕ)
      → Leads (IsSound limit 0) (IsSound limit spare) stats (IsRead limit (IsSound limit spare))
  stats-spare spare = stats-Leads limit (IsSound limit spare) (record {
    at = λ w h. steady-IsSound limit h (
        (stats-IsSteady w.installations h.counter).at w
          (record { same = refl; counted = h.stored }));
  })

  give_back :
      (s : RegistryStats)
      → Leads
          (IsSound limit 0)
          (IsRead limit (IsSound limit 1) s)
          (put_stats (record s { active_installations = s.active_installations - 1 }))
          (λ _. IsSound limit 0)
  unfolding put_stats
  give_back s = record {
    at = λ w h. record {
      counter = s.active_installations - 1;
      stored = refl;
      covered = ground (arith, h.0.covered, h.0.stored, h.1);
      bounded = h.0.bounded;
      keyed = h.0.keyed;
    };
  }

  release-IsSound :
      (b : Bool)
      → Leads (IsSound limit 0) (IsSound limit (spare_of b)) (release_slot b) (λ _. IsSound limit 0)
  unfolding release_slot pure
  release-IsSound false = record { at = λ w h. h }
  release-IsSound true = Leads-bind (IsSound limit 0) _ _ (stats-spare 1) λ s. give_back s

  pub keep_now :
      {P : World → Type 0}
      → ((w : World) → P w → IsSound limit 0 w)
      → Leads (IsSound limit 0) P (now_text env) (λ _. P)
  keep_now sound = Leads-keep (IsSound limit 0) (now_text env) sound (now_text-Keeps _)

  -- Revoking or disabling an installation keeps the invariant, wherever the provider fails.
  pub disable-IsSound :
      (i : Installation) (revoke : Bool)
      → Leads (IsSound limit 0) (Holds limit 0 i) (disable env i revoke) (λ _. IsSound limit 0)
  unfolding disable mark_revoking mark_disabled
  disable-IsSound i revoke =
      let spare = spare_of (revoke && not i.revoked) in
      Leads-bind (IsSound limit 0) _ _ (keep_now (Holds-IsSound 0 i)) λ started.
        let marked = mark_revoking revoke started i in
        Leads-bind (IsSound limit 0) _ _ (mark-Holds i revoke started) λ _.
          Leads-bind (IsSound limit 0) _ _
            (Leads-keep (IsSound limit 0) (teardown env marked) (Holds-IsSound spare marked)
              (teardown-Keeps env _ (cf-Holds spare marked) marked))
            λ _.
              Leads-bind (IsSound limit 0) _ _ (keep_now (Holds-IsSound spare marked)) λ finished.
                Leads-bind (IsSound limit 0) _ _
                  (Leads-keep (IsSound limit 0) (forget_token i.id) (Holds-IsSound spare marked)
                    (forget_token-Holds spare marked i.id))
                  λ _.
                    Leads-bind (IsSound limit 0) _ _
                      (save-Holds limit {i = marked} (mark_disabled finished marked) refl refl)
                      λ _.
                        Leads-bind (IsSound limit 0) _ _
                          (Leads-strengthen (IsSound limit 0) _ (λ w h. h.sound)
                            (release-IsSound (revoke && not i.revoked)))
                          λ _. Leads-pure (IsSound limit 0) _ (λ w h. h)
