-- ===== src/Registry/Slots/Leak.antt =====
-- What a failed revocation makes of the slot counter.
use stagepilot_beta.Common.{
  ℕ, String, Bool, true, false, not, ◌&&◌, some, lookup, lookup-insert_self, ◌≡◌, refl, arith,
}
use stagepilot_beta.Registry.Data.{World, Env, Installation, Response, CfCall, RegistryStats}
use stagepilot_beta.Registry.Action.{
  Action, Outcome, ok, thrown, Thrown, ◌>>=◌, save, put_stats, forget_token, load, gets,
}
use stagepilot_beta.Registry.Limits.{stats}
use stagepilot_beta.Registry.Provider.{cf}
use stagepilot_beta.Registry.Cleanup.{teardown}
use stagepilot_beta.Registry.Replies.{now_text, is_disabled}
use stagepilot_beta.Registry.Revocation.{
  release_slot, mark_revoking, mark_disabled, disable, revoke_found, admin_revoke,
}
use stagepilot_beta.Registry.Rules.Basic.{Keeps, Keeps-bind, Keeps-pure, Keeps-if}
use stagepilot_beta.Registry.Rules.Calls.{teardown-Keeps}
use stagepilot_beta.Registry.Rules.Leads.{Ends, Leads, Leads-bind, Leads-pure, Leads-keep}
use stagepilot_beta.Registry.Slots.Steady.{active, stats-IsSteady, cf-IsSteady}
use stagepilot_beta.Registry.Slots.Revoking.{now_text-Keeps}

module _ (env : Env) (i : Installation) (n : ℕ) where
  -- `i` is stored as revoked, and the counter is `n`.
  pub record IsMarked (w : World) : Type 0 where
    pub old : Installation
    pub known : lookup i.id w.installations ≡ some old
    pub taken : old.revoked ≡ true
    pub counted : active w.stats ≡ some n

  abbrev IsCounted : World → Type 0
  IsCounted w = active w.stats ≡ some n

  abbrev Anything : {A : Type 0} → A → World → Type 0
  Anything a w = Unit

  cf-IsMarked : (call : CfCall) → Keeps IsMarked (cf env call)
  cf-IsMarked call = record {
    at = λ w h.
        let s =
          (cf-IsSteady w.installations n env call).at w
            (record { same = refl; counted = h.counted }) in
        record { old = h.old; known = rw s.same h.known; taken = h.taken; counted = s.counted };
  }

  cf-IsCounted : (call : CfCall) → Keeps IsCounted (cf env call)
  cf-IsCounted call = record {
    at = λ w h.
        ((cf-IsSteady w.installations n env call).at w
          (record { same = refl; counted = h })).counted;
  }

  save-IsCounted : (j : Installation) → Keeps IsCounted (save j)
  unfolding save
  save-IsCounted j = record { at = λ w h. h }

  forget-IsCounted : (id : String) → Keeps IsCounted (forget_token id)
  unfolding forget_token
  forget-IsCounted id = record { at = λ w h. h }

  save-IsMarked :
      (j : Installation)
      → j.id ≡ i.id
      → j.revoked ≡ true
      → Leads IsMarked IsCounted (save j) (λ _. IsMarked)
  unfolding save
  save-IsMarked j same taken = record {
    at = λ w h. record {
      old = j;
      known = simp (← same, lookup-insert_self j.id j w.installations);
      taken = taken;
      counted = h;
    };
  }

  -- A second `disable` finds the installation revoked and gives no slot back.
  disable-IsCounted : (j : Installation) → j.revoked ≡ true → Keeps IsCounted (disable env j true)
  unfolding disable release_slot
  disable-IsCounted j taken = Keeps-bind _ _ (now_text-Keeps env _) λ started.
      Keeps-bind _ _ (save-IsCounted _) λ _.
        Keeps-bind _ _ (teardown-Keeps env _ cf-IsCounted _) λ _.
          Keeps-bind _ _ (now_text-Keeps env _) λ finished. Keeps-bind _ _ (forget-IsCounted _) λ _.
            Keeps-bind _ _ (save-IsCounted _)
              λ _. Keeps-bind _ _ (rw taken (Keeps-pure tt)) λ _. Keeps-pure _

  found-IsCounted :
      (j : Installation) → j.revoked ≡ true → Keeps IsCounted (revoke_found env (some j))
  unfolding revoke_found
  found-IsCounted j taken =
      Keeps-if (j.revoked && is_disabled j.phase) _ _ (Keeps-pure _) (disable-IsCounted j taken)

  revoke-IsCounted : (w : World) → IsMarked w → active (admin_revoke env i.id w).1.stats ≡ some n
  unfolding admin_revoke load gets ◌>>=◌
  revoke-IsCounted w h = rw h.known ((found-IsCounted h.old h.taken).at w h.counted)

  stats-IsMarked : Keeps IsMarked stats
  stats-IsMarked = record {
    at = λ w h.
        let s =
          (stats-IsSteady w.installations n).at w (record { same = refl; counted = h.counted }) in
        record { old = h.old; known = rw s.same h.known; taken = h.taken; counted = s.counted };
  }

  forget-IsMarked : (id : String) → Keeps IsMarked (forget_token id)
  unfolding forget_token
  forget-IsMarked id = record {
    at = λ w h. record { old = h.old; known = h.known; taken = h.taken; counted = h.counted };
  }

  put_stats-Leads : (s : RegistryStats) → Leads IsMarked IsMarked (put_stats s) Anything
  unfolding put_stats
  put_stats-Leads s = record { at = λ w h. tt }

  release-Leads : (b : Bool) → Leads IsMarked IsMarked (release_slot b) Anything
  unfolding release_slot
  release-Leads false = Leads-pure IsMarked tt (λ w h. tt)
  release-Leads true =
      Leads-bind IsMarked _ _ (Leads-keep IsMarked stats (λ w h. h) stats-IsMarked)
        λ s. put_stats-Leads _

  keep : {A : Type 0} (m : Action A) → Keeps IsMarked m → Leads IsMarked IsMarked m (λ _. IsMarked)
  keep m k = Leads-keep IsMarked m (λ w h. h) k

  mark-Leads :
      (at : String) → Leads IsMarked IsCounted (save (mark_revoking true at i)) (λ _. IsMarked)
  unfolding mark_revoking
  mark-Leads at = save-IsMarked (mark_revoking true at i) refl (ground arith)

  now-Leads :
      {A : Type 0} (f : String → Action A)
      → ((at : String) → Leads IsMarked IsCounted (f at) Anything)
      → Leads IsMarked IsCounted (now_text env >>= f) Anything
  unfolding now_text ◌>>=◌ gets
  now-Leads f lf = record { at = λ w h. (lf (env.timestamp w.log w.moment)).at w h }

  resave :
      (finished started : String)
      → Keeps IsMarked (save (mark_disabled finished (mark_revoking true started i)))
  unfolding save mark_disabled mark_revoking
  resave finished started = record {
    at = λ w h. record {
      old = mark_disabled finished (mark_revoking true started i);
      known = lookup-insert_self i.id _ w.installations;
      taken = ground arith;
      counted = h.counted;
    };
  }

  first-Leads : Leads IsMarked IsCounted (disable env i true) Anything
  unfolding disable mark_disabled mark_revoking
  first-Leads = now-Leads _ λ started. Leads-bind IsMarked _ _ (mark-Leads started) λ _.
      Leads-bind IsMarked _ _ (keep (teardown env _) (teardown-Keeps env _ cf-IsMarked _)) λ _.
        Leads-bind IsMarked _ _ (keep (now_text env) (now_text-Keeps env _)) λ finished.
          Leads-bind IsMarked _ _ (keep (forget_token i.id) (forget-IsMarked i.id)) λ _.
            Leads-bind IsMarked _ _ (keep (save _) (resave finished started)) λ _.
              Leads-bind IsMarked _ _ (release-Leads (not i.revoked))
                λ _. Leads-pure IsMarked _ (λ w h. tt)

  marked_of :
      (r : Outcome Response) (w : World) (t : Thrown)
      → Ends IsMarked Anything r w
      → r ≡ thrown t
      → IsMarked w
  marked_of (ok answer) w t h e = ground arith
  marked_of (thrown u) w t h e = h

-- When a revocation fails, at whatever step and for whatever reason, the counter of active
-- installations is what it was, and the operator's revocation that is made next of the same
-- installation, whether it then succeeds or fails, leaves the counter there as well: the slot of
-- an installation that was active is not given back by the retry.
pub retry_leaks :
    (env : Env) (i : Installation) (n : ℕ) (w : World) (t : Thrown)
    → active w.stats ≡ some n
    → (disable env i true w).0 ≡ thrown t
    → (active (disable env i true w).1.stats ≡ some n)
      × (active (admin_revoke env i.id (disable env i true w).1).1.stats ≡ some n)
retry_leaks env i n w t counted failed =
    let (r, w') = disable env i true w in
    let h : IsMarked env i n w' =
      marked_of env i n r w' t ((first-Leads env i n).at w counted) failed in
    (h.counted, revoke-IsCounted env i n w' h)
