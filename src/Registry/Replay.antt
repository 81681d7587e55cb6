-- ===== src/Registry/Replay.antt =====
-- What a completed `disable` leaves behind, and the generation that it retires.
use stagepilot_beta.Common.{
  String, Bool, true, false, ◌||◌, Option, none, some, lookup, lookup-insert_self, lookup-erase,
  eq_refl, ◌≡◌, refl, arith, Dict,
}
use stagepilot_beta.Registry.Names.{is_generation}
use stagepilot_beta.Registry.Data.{
  World, Env, disabled, Installation, RegistryStats, Response, failure,
}
use stagepilot_beta.Registry.Action.{
  Action, Outcome, ok, thrown, pure, ◌>>=◌, save, put_stats, modify, forget_token,
}
use stagepilot_beta.Registry.Limits.{stats, read_stats, initial_stats}
use stagepilot_beta.Registry.Cleanup.{teardown}
use stagepilot_beta.Registry.Replies.{now_text, reply}
use stagepilot_beta.Registry.Forms.{Input, empty_input}
use stagepilot_beta.Registry.Provision.{accept_generation, check_generation, provision}
use stagepilot_beta.Registry.Revocation.{release_slot, mark_revoking, mark_disabled, disable}
use stagepilot_beta.Registry.Rules.Basic.{Keeps, Keeps-pure, Keeps-bind, Keeps-elim}
use stagepilot_beta.Registry.Rules.Leads.{Ends, Leads, Leads-bind, Leads-pure, Leads-keep}

-- The stored installation after a completed `disable` of `i`.
pub record IsCleared (i : Installation) (revoke : Bool) (w : World) : Type 0 where
  pub stored : Installation
  pub found : lookup i.id w.installations ≡ some stored
  pub off : stored.phase ≡ disabled
  pub unwanted : stored.desired_enabled ≡ false
  pub gone : stored.generation ≡ none
  pub retired : stored.last_generation ≡ i.generation
  pub unbound : stored.tunnel_id ≡ none
  pub access : stored.revoked ≡ (i.revoked || revoke)
  pub forgotten : lookup i.id w.token_cache ≡ none

abbrev Anything : World → Type 0
Anything w = Unit

module _ (env : Env) (i : Installation) (revoke : Bool) where
  anything : {A : Type 0} (m : Action A) → Leads Anything Anything m (λ _. Anything)
  anything m = Leads-keep Anything m (λ w h. tt) (record { at = λ w h. tt })

  forget-Leads :
      Leads Anything Anything (forget_token i.id) (λ _ w. lookup i.id w.token_cache ≡ none)
  unfolding forget_token modify
  forget-Leads = record { at = λ w h. simp (lookup-erase, eq_refl) }

  save-IsCleared :
      (started finished : String)
      → Leads Anything
          (λ w. lookup i.id w.token_cache ≡ none)
          (save (mark_disabled finished (mark_revoking revoke started i)))
          (λ _. IsCleared i revoke)
  unfolding save modify mark_disabled mark_revoking
  save-IsCleared started finished = record {
    at = λ w h. record {
      stored = mark_disabled finished (mark_revoking revoke started i);
      found = lookup-insert_self i.id _ w.installations;
      off = refl;
      unwanted = refl;
      gone = refl;
      retired = refl;
      unbound = refl;
      access = refl;
      forgotten = h;
    };
  }

  put_stats-IsCleared : (s : RegistryStats) → Keeps (IsCleared i revoke) (put_stats s)
  unfolding put_stats modify
  put_stats-IsCleared s = record {
    at = λ w h. record {
      stored = h.stored;
      found = h.found;
      off = h.off;
      unwanted = h.unwanted;
      gone = h.gone;
      retired = h.retired;
      unbound = h.unbound;
      access = h.access;
      forgotten = h.forgotten;
    };
  }

  read_stats-IsCleared :
      (o : Option RegistryStats) (rows : Dict Installation)
      → Keeps (IsCleared i revoke) (read_stats o rows)
  unfolding read_stats
  read_stats-IsCleared none rows =
      Keeps-bind _ _ (put_stats-IsCleared _) (λ _. Keeps-pure (initial_stats rows))
  read_stats-IsCleared (some s) rows =
      let patched = record s { diagnostics_bytes_used = some 0 } in
      Keeps-elim s.diagnostics_bytes_used _ _
        (Keeps-bind _ _ (put_stats-IsCleared patched) (λ _. Keeps-pure patched)) (λ _. Keeps-pure s)

  stats-IsCleared : Keeps (IsCleared i revoke) stats
  unfolding stats
  stats-IsCleared = record { at = λ w h. (read_stats-IsCleared w.stats w.installations).at w h }

  release-IsCleared : (b : Bool) → Keeps (IsCleared i revoke) (release_slot b)
  unfolding release_slot
  release-IsCleared false = Keeps-pure _
  release-IsCleared true = Keeps-bind _ _ stats-IsCleared (λ s. put_stats-IsCleared _)

  pub disable-IsCleared : Leads Anything Anything (disable env i revoke) (λ _. IsCleared i revoke)
  unfolding disable mark_revoking
  disable-IsCleared = Leads-bind Anything _ _ (anything (now_text env)) λ started.
      Leads-bind Anything _ _ (anything (save _)) λ _.
        Leads-bind Anything _ _ (anything (teardown env _)) λ _.
          Leads-bind Anything _ _ (anything (now_text env)) λ finished.
            Leads-bind Anything _ _ forget-Leads λ _.
              Leads-bind Anything _ _ (save-IsCleared started finished) λ _.
                Leads-bind Anything _ _
                  (Leads-keep Anything (release_slot _) (λ w h. tt) (release-IsCleared _))
                  λ _. Leads-pure Anything _ (λ w h. h)

  -- What is stored of `i` if `disable` returned.
  Ends-IsCleared :
      (r : Outcome Response) (w : World) (response : Response)
      → Ends Anything (λ _. IsCleared i revoke) r w
      → r ≡ ok response
      → IsCleared i revoke w
  Ends-IsCleared (ok answer) w response h e = h
  Ends-IsCleared (thrown t) w response h e = ground arith

-- The body of a `provision` with the generation `g`.
abbrev pub again : String → Option String → Option Input
again g device = some (record empty_input { generation = some g; device_name = device })

abbrev pub needs_new : Response
needs_new = reply 409 (failure "a new generation is required")

module _ (env : Env) (stored : Installation) (g : String) (device : Option String) where
  provision_retired :
      (w : World)
      → is_generation g ≡ true
      → stored.phase ≡ disabled
      → stored.generation ≡ none
      → stored.last_generation ≡ some g
      → provision env (again g device) stored w ≡ (ok needs_new, w)
  unfolding provision check_generation accept_generation ◌>>=◌ pure
  provision_retired w form off gone retired = simp (form, off, gone, retired, eq_refl g)

-- Once `disable` of an installation whose generation `g` is well-formed has returned, the
-- installation is stored as disabled, without a generation, a tunnel or a cached token, and a
-- `provision` of what is stored with the same `g` is answered by 409 and changes nothing.
pub disable_retires :
    (env : Env) (i : Installation) (revoke : Bool) (g : String) (device : Option String) (w : World)
    (response : Response)
    → i.generation ≡ some g
    → is_generation g ≡ true
    → (disable env i revoke w).0 ≡ ok response
    → (stored : Installation) × (lookup i.id (disable env i revoke w).1.installations ≡ some stored)
      × (stored.phase ≡ disabled)
      × (stored.generation ≡ none)
      × (stored.tunnel_id ≡ none)
      × (lookup i.id (disable env i revoke w).1.token_cache ≡ none)
      × (provision env (again g device) stored (disable env i revoke w).1
          ≡ (ok needs_new, (disable env i revoke w).1))
disable_retires env i revoke g device w response had form returned =
    let (r, w') = disable env i revoke w in
    let h : IsCleared i revoke w' =
      Ends-IsCleared env i revoke r w' response ((disable-IsCleared env i revoke).at w tt)
        returned in
    (
      h.stored,
      h.found,
      h.off,
      h.gone,
      h.unbound,
      h.forgotten,
      provision_retired env h.stored g device w' form h.off h.gone (rw (h.retired, had) refl),
    )
