-- ===== src/Registry/Diagnostics/Capped.antt =====
-- control-plane/src/index.ts: `uploadDiagnostics` under the cap.
use stagepilot_beta.Common.{
  ℕ, ◌+◌, ltb, String, Bool, true, false, inl, inr, not, Option, none, some, Option-cases, ◌≡◌, ◌≤◌,
  refl, arith, if◌then◌else◌,
}
use stagepilot_beta.Registry.Fleet.{DiagnosticsBundleMeta}
use stagepilot_beta.Registry.Data.{World, Env, Installation, RegistryStats, Response}
use stagepilot_beta.Registry.Action.{
  Action, Outcome, ok, thrown, pure, ◌>>=◌, put_stats, modify, gets,
}
use stagepilot_beta.Registry.Limits.{stats, read_stats}
use stagepilot_beta.Registry.Rows.{listed}
use stagepilot_beta.Registry.Rows.Distinct.{listed-IsDistinct, listed-Agrees, insert-IsDistinct}
use stagepilot_beta.Registry.Diagnostics.{
  storage_cap_bytes, sized_body, bytes_used, put_bundle, expire_old_diagnostics, store_bundle,
  upload_sized, upload_diagnostics,
}
use stagepilot_beta.Registry.Diagnostics.Metered.{
  IsMetered, Covers, total, used, total-insert, none-Agrees, now_text-Keeps, bucket-Keeps,
  draw-Covers, sweep-Covers,
}
use stagepilot_beta.Registry.Rules.Leads.{Ends, Leads, Leads-bind, Leads-pure, Leads-if, Leads-keep}

read-Covers :
    (o : Option RegistryStats) (w : World)
    → w.stats ≡ o
    → IsMetered w
    → Ends IsMetered Covers (read_stats o w.installations w).0 (read_stats o w.installations w).1
unfolding read_stats
read-Covers none w e m =
    let nothing : used w.stats ≡ 0 = rw e refl in
    let empty : total w.bundles ≤ 0 = omega (arith, m.covered, nothing) in
    record {
      metered = record { covered = empty; capped = omega arith; distinct = m.distinct };
      enough = empty;
      below = omega arith;
      present = none-Agrees w.bundles;
      apart = tt;
    }
read-Covers (some s) w e m =
    let stored : used w.stats ≡ bytes_used s = rw e refl in
    let enough : total w.bundles ≤ bytes_used s = omega (arith, m.covered, stored) in
    let below : bytes_used s ≤ storage_cap_bytes = omega (arith, m.capped, stored) in
    elim (Option-cases s.diagnostics_bytes_used) [
      | inl missing ↦
          rw (missing, read_stats)
            (record {
              metered = record {
                covered = rw missing at enough;
                capped = omega arith;
                distinct = m.distinct;
              };
              enough = rw missing at enough;
              below = omega arith;
              present = none-Agrees w.bundles;
              apart = tt;
            })
      | inr (n, given) ↦
          rw (given, read_stats)
            (record {
              metered = m;
              enough = enough;
              below = below;
              present = none-Agrees w.bundles;
              apart = tt;
            })
    ]

stats-Covers : Leads IsMetered IsMetered stats Covers
unfolding stats
stats-Covers = record { at = λ w m. read-Covers w.stats w refl m }

-- The record of an upload and the new counter are stored together.
record_upload-IsMetered :
    (key : String) (meta : DiagnosticsBundleMeta) (s : RegistryStats) (r : Response)
    → bytes_used s + meta.size ≤ storage_cap_bytes
    → Leads IsMetered
        (Covers s)
        (put_bundle key meta >>= λ _.
          put_stats (record s { diagnostics_bytes_used = some (bytes_used s + meta.size) }) >>= λ _.
          pure r)
        (λ _. IsMetered)
unfolding put_bundle put_stats modify pure ◌>>=◌
record_upload-IsMetered key meta s r fits = record {
  at = λ w h. record {
    covered = omega (arith, total-insert key meta w.bundles, h.enough);
    capped = fits;
    distinct = insert-IsDistinct key meta w.bundles h.metered.distinct;
  };
}

module _ (env : Env) where
  expire-Covers :
      (s : RegistryStats) → Leads IsMetered (Covers s) (expire_old_diagnostics env s) Covers
  unfolding expire_old_diagnostics gets ◌>>=◌
  expire-Covers s = record {
    at = λ w h.
        (sweep-Covers env 25 (env.milliseconds w.log w.moment) (listed w.bundles) s).at w (record {
          metered = h.metered;
          enough = h.enough;
          below = h.below;
          present = listed-Agrees w.bundles h.metered.distinct;
          apart = listed-IsDistinct w.bundles h.metered.distinct;
        });
  }

  store-IsMetered :
      (i : Installation) (size : ℕ) (s : RegistryStats)
      → bytes_used s + size ≤ storage_cap_bytes
      → Leads IsMetered (Covers s) (store_bundle env i size s) (λ _. IsMetered)
  unfolding store_bundle
  store-IsMetered i size s fits =
      Leads-bind IsMetered _ _
        (Leads-keep IsMetered _ (λ w h. h.metered) (now_text-Keeps env (Covers s)))
        λ at.
          Leads-bind IsMetered _ _ (Leads-keep IsMetered _ (λ w h. h.metered) (draw-Covers env 4 s))
            λ suffix.
              Leads-bind IsMetered _ _
                (Leads-keep IsMetered _ (λ w h. h.metered) (bucket-Keeps env (Covers s) _))
                λ _. record_upload-IsMetered _ _ s _ fits

  fit-IsMetered :
      (i : Installation) (size : ℕ) (s : RegistryStats) (m : Action Response) (full : Bool)
      → ltb storage_cap_bytes (bytes_used s + size) ≡ full
      → Leads IsMetered (Covers s) m (λ _. IsMetered)
      → Leads IsMetered (Covers s) (if full then m else store_bundle env i size s) (λ _. IsMetered)
  fit-IsMetered i size s m true e lm = lm
  fit-IsMetered i size s m false e lm = store-IsMetered i size s (ground (arith, e))

  upload_sized-IsMetered :
      (i : Installation) (o : Option ℕ)
      → Leads IsMetered IsMetered (upload_sized env i o) (λ _. IsMetered)
  unfolding upload_sized
  upload_sized-IsMetered i none = Leads-pure IsMetered _ (λ w m. m)
  upload_sized-IsMetered i (some size) = Leads-bind IsMetered _ _ stats-Covers λ read.
      Leads-bind IsMetered _ _ (expire-Covers read)
        λ s. fit-IsMetered i size s _ _ refl (Leads-pure IsMetered _ (λ w h. h.metered))

  Ends-IsMetered :
      {A : Type 0} (r : Outcome A) (w : World) → Ends IsMetered (λ _. IsMetered) r w → IsMetered w
  Ends-IsMetered (ok a) w m = m
  Ends-IsMetered (thrown t) w m = m

  -- Whatever an upload declares and holds, and wherever the bucket fails, the counter stays at or
  -- above the sum of the recorded sizes and within the cap of 8 GiB, and no two records share a
  -- key, if all of this holds before; old records may be swept on the way.
  pub upload-IsMetered :
      (declared size : ℕ) (i : Installation) (w : World)
      → IsMetered w
      → IsMetered (upload_diagnostics env declared size i w).1
  unfolding upload_diagnostics
  upload-IsMetered declared size i w m =
      let (r, after) = upload_diagnostics env declared size i w in
      Ends-IsMetered r after (
        (Leads-if IsMetered (not env.has_bucket) _ _ (Leads-pure IsMetered _ (λ w m. m))
            (upload_sized-IsMetered i (sized_body declared size))).at
          w m)
