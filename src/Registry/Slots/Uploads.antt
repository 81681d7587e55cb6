-- ===== src/Registry/Slots/Uploads.antt =====
-- The slots across the uploads of diagnostics and the operator's changes of an installation.
use stagepilot_beta.Common.{
  ℕ, zero, suc, ◌+◌, ltb, String, Bool, Bool-cases, inl, inr, not, [], ◌∷◌, Dict, Option, none,
  some, lookup, ◌≡◌, refl, arith,
}
use stagepilot_beta.Registry.Fleet.{DiagnosticsBundleMeta}
use stagepilot_beta.Registry.Forms.{Input, label_form}
use stagepilot_beta.Registry.Data.{World, Env, Installation, RegistryStats}
use stagepilot_beta.Registry.Action.{Action, put_stats, modify}
use stagepilot_beta.Registry.Diagnostics.{
  storage_cap_bytes, sized_body, bytes_used, forget_bundle, put_bundle, bucket_call, sweep,
  expire_old_diagnostics, store_bundle, upload_sized, upload_diagnostics, retention,
}
use stagepilot_beta.Registry.Panel.{
  admin_metrics, set_label, label_found, admin_set_label, set_archived, archived_found,
  admin_set_archived,
}
use stagepilot_beta.Registry.Rules.Basic.{Keeps, Keeps-pure, Keeps-throw, Keeps-if, Keeps-gets}
use stagepilot_beta.Registry.Rules.Leads.{
  Leads, Leads-bind, Leads-pure, Leads-if, Leads-keep, Leads-strengthen,
}
use stagepilot_beta.Registry.Slots.Invariant.{IsSound, IsRead, steady-IsSound, save-Holds}
use stagepilot_beta.Registry.Slots.Revoking.{stats-IsSound, keep_now, now_text-Keeps}
use stagepilot_beta.Registry.Slots.Provisioning.{Held, Held-IsSound}
use stagepilot_beta.Registry.Slots.Renewal.{load-Holds, found-Holds}
use stagepilot_beta.Registry.Slots.Fleet.{read_body-Keeps}
use stagepilot_beta.Registry.Approvals.{draw}

module _ (env : Env) where
  abbrev limit : ℕ
  limit = env.installation_limit

  abbrev Sound : World → Type 0
  Sound = IsSound limit 0

  -- The invariant holds, and the stored counter of active installations is that of `s`.
  abbrev Read : RegistryStats → World → Type 0
  Read s = IsRead limit Sound s

  module _ (s : RegistryStats) where
    keep-Read :
        {A : Type 0} (m : Action A) → Keeps (Read s) m → Leads Sound (Read s) m (λ _. Read s)
    keep-Read m k = Leads-keep Sound m (λ w h. h.0) k

    forget-Keeps : (key : String) → Keeps (Read s) (forget_bundle key)
    unfolding forget_bundle
    forget-Keeps key = record {
      at = λ w h. (steady-IsSound limit h.0 (record { same = refl; counted = h.0.stored }), h.1);
    }

    put_bundle-Keeps :
        (key : String) (meta : DiagnosticsBundleMeta) → Keeps (Read s) (put_bundle key meta)
    unfolding put_bundle
    put_bundle-Keeps key meta = record {
      at = λ w h. (steady-IsSound limit h.0 (record { same = refl; counted = h.0.stored }), h.1);
    }

    draw-Keeps : (bytes : ℕ) → Keeps (Read s) (draw env bytes)
    unfolding draw
    draw-Keeps bytes = record {
      at = λ w h. (steady-IsSound limit h.0 (record { same = refl; counted = h.0.stored }), h.1);
    }

    bucket-Keeps : (key : String) → Keeps (Read s) (bucket_call env key)
    unfolding bucket_call
    bucket-Keeps key = Keeps-if (env.bucket_takes key) _ _ (Keeps-pure tt) (Keeps-throw _)

  -- Statistics with the same counter are stored.
  put_stats-IsSound :
      (s t : RegistryStats)
      → t.active_installations ≡ s.active_installations
      → Leads Sound (Read s) (put_stats t) (λ _. Sound)
  unfolding put_stats modify
  put_stats-IsSound s t same = record {
    at = λ w h.
        steady-IsSound limit h.0
          (record { same = refl; counted = ground (arith, h.1, h.0.stored, same) });
  }

  sweep-Read :
      (left now : ℕ) (rows : Dict DiagnosticsBundleMeta) (s : RegistryStats)
      → Leads Sound (Read s) (sweep env left now rows s) Read
  unfolding sweep
  sweep-Read left now [] s = Leads-pure Sound s (λ w h. h)
  sweep-Read zero now (_ ∷ _) s = Leads-pure Sound s (λ w h. h)
  sweep-Read (suc left) now ((key, meta) ∷ rows) s =
      elim (Bool-cases (ltb now (env.time_of meta.uploaded_at + retention))) [
        | inl young ↦ rw (young, sweep) (sweep-Read (suc left) now rows s)
        | inr old ↦
            rw (old, sweep)
              (Leads-bind Sound _ _ (keep-Read s _ (bucket-Keeps s meta.key)) λ _.
                Leads-bind Sound _ _ (keep-Read s _ (forget-Keeps s key))
                  λ _. sweep-Read left now rows _)
      ]

  expire-Read : (s : RegistryStats) → Leads Sound (Read s) (expire_old_diagnostics env s) Read
  unfolding expire_old_diagnostics
  expire-Read s =
      Leads-bind Sound _ _ (keep-Read s _ (Keeps-gets _))
        λ now. Leads-bind Sound _ _ (keep-Read s _ (Keeps-gets _)) λ rows. sweep-Read 25 now rows s

  store-IsSound :
      (i : Installation) (size : ℕ) (s : RegistryStats)
      → Leads Sound (Read s) (store_bundle env i size s) (λ _. Sound)
  unfolding store_bundle
  store-IsSound i size s = Leads-bind Sound _ _ (keep-Read s _ (now_text-Keeps env _)) λ at.
      Leads-bind Sound _ _ (keep-Read s _ (draw-Keeps s 4)) λ suffix.
        Leads-bind Sound _ _ (keep-Read s _ (bucket-Keeps s _)) λ _.
          Leads-bind Sound _ _ (keep-Read s _ (put_bundle-Keeps s _ _)) λ _.
            Leads-bind Sound _ _ (put_stats-IsSound s _ refl) λ _. Leads-pure Sound _ (λ w h. h)

  upload_sized-IsSound :
      (i : Installation) (o : Option ℕ) → Leads Sound Sound (upload_sized env i o) (λ _. Sound)
  unfolding upload_sized
  upload_sized-IsSound i none = Leads-pure Sound _ (λ w h. h)
  upload_sized-IsSound i (some size) = Leads-bind Sound _ _ (stats-IsSound env) λ read.
      Leads-bind Sound _ _ (expire-Read read) λ s.
        Leads-if Sound (ltb storage_cap_bytes (bytes_used s + size)) _ _
          (Leads-pure Sound _ (λ w h. h.0)) (store-IsSound i size s)

  pub upload-IsSound :
      (declared size : ℕ) (i : Installation)
      → Leads Sound Sound (upload_diagnostics env declared size i) (λ _. Sound)
  unfolding upload_diagnostics
  upload-IsSound declared size i =
      Leads-if Sound (not env.has_bucket) _ _ (Leads-pure Sound _ (λ w h. h))
        (upload_sized-IsSound i (sized_body declared size))

  pub metrics-IsSound : Leads Sound Sound admin_metrics (λ _. Sound)
  unfolding admin_metrics
  metrics-IsSound = Leads-bind Sound _ _ (stats-IsSound env) λ s. Leads-pure Sound _ (λ w h. h.0)

  -- A change of a stored installation that leaves its id and its access alone.
  module _ (input : Option Input) where
    set_label-IsSound :
        (i : Installation) (o : Option String)
        → Leads Sound (Held env i) (set_label env i o) (λ _. Sound)
    unfolding set_label
    set_label-IsSound i none = Leads-pure Sound _ (Held-IsSound env i)
    set_label-IsSound i (some label) =
        Leads-bind Sound _ _ (keep_now env (Held-IsSound env i)) λ now.
          Leads-bind Sound _ _ (save-Holds limit {i = i} _ refl refl)
            λ _. Leads-pure Sound _ (λ w h. h.sound)

    set_archived-IsSound :
        (i : Installation) (o : Option Bool)
        → Leads Sound (Held env i) (set_archived env i o) (λ _. Sound)
    unfolding set_archived
    set_archived-IsSound i none = Leads-pure Sound _ (Held-IsSound env i)
    set_archived-IsSound i (some archived) =
        Leads-bind Sound _ _ (keep_now env (Held-IsSound env i)) λ now.
          Leads-bind Sound _ _ (save-Holds limit {i = i} _ refl refl)
            λ _. Leads-pure Sound _ (λ w h. h.sound)

    module _ (id : String) where
      abbrev Loaded : Option Installation → World → Type 0
      Loaded o w = Sound w × (lookup id w.installations ≡ o)

      label_found-IsSound :
          (o : Option Installation) → Leads Sound (Loaded o) (label_found env input o) (λ _. Sound)
      unfolding label_found
      label_found-IsSound none = Leads-pure Sound _ (λ w h. h.0)
      label_found-IsSound (some i) = Leads-strengthen Sound _ (found-Holds env id i) (
          Leads-bind Sound _ _
            (Leads-keep Sound _ (Held-IsSound env i) (read_body-Keeps env _ input))
            λ given. set_label-IsSound i (label_form given.label))

      pub label-IsSound : Leads Sound Sound (admin_set_label env input id) (λ _. Sound)
      unfolding admin_set_label
      label-IsSound = Leads-bind Sound _ _ (load-Holds env id) label_found-IsSound

      archived_found-IsSound :
          (o : Option Installation)
          → Leads Sound (Loaded o) (archived_found env input o) (λ _. Sound)
      unfolding archived_found
      archived_found-IsSound none = Leads-pure Sound _ (λ w h. h.0)
      archived_found-IsSound (some i) = Leads-strengthen Sound _ (found-Holds env id i) (
          Leads-bind Sound _ _
            (Leads-keep Sound _ (Held-IsSound env i) (read_body-Keeps env _ input))
            λ given. set_archived-IsSound i given.archived)

      pub archived-IsSound : Leads Sound Sound (admin_set_archived env input id) (λ _. Sound)
      unfolding admin_set_archived
      archived-IsSound = Leads-bind Sound _ _ (load-Holds env id) archived_found-IsSound
