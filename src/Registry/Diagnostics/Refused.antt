-- ===== src/Registry/Diagnostics/Refused.antt =====
-- control-plane/src/index.ts: an upload that is not taken, after the sweep of old diagnostics.
use stagepilot_beta.Common.{
  ℕ, zero, suc, ◌+◌, ltb, String, Bool-cases, ◌⊎◌, inl, inr, not, [], ◌∷◌, Dict, Option, none, some,
  erase, ◌≡◌, ◌≢◌, ◌≤◌, refl, arith, Option-cases,
}
use stagepilot_beta.Registry.Fleet.{DiagnosticsBundleMeta}
use stagepilot_beta.Registry.Data.{World, Env, Installation, RegistryStats, Response}
use stagepilot_beta.Registry.Action.{Action, Outcome, ok, thrown, ◌>>=◌, pure, put_stats, modify}
use stagepilot_beta.Registry.Limits.{stats, read_stats}
use stagepilot_beta.Registry.Replies.{reply}
use stagepilot_beta.Registry.Diagnostics.{
  storage_cap_bytes, retention, sized_body, bytes_used, forget_bundle, put_bundle, sweep,
  expire_old_diagnostics, store_bundle, upload_sized, upload_diagnostics,
}
use stagepilot_beta.Registry.Approvals.{draw}
use stagepilot_beta.Registry.Diagnostics.Metered.{total, used, now_text-Keeps, bucket-Keeps}
use stagepilot_beta.Registry.Rules.Basic.{Keeps, Keeps-gets}
use stagepilot_beta.Registry.Rules.Leads.{Ends, Leads, Leads-bind, Leads-pure, Leads-if, Leads-keep}

total-erase-le :
    (gone : String) (rows : Dict DiagnosticsBundleMeta) → total (erase gone rows) ≤ total rows
unfolding total erase
total-erase-le gone [] = omega arith
total-erase-le gone ((k, m) ∷ rows) = ground (arith, total-erase-le gone rows)

module _ (counter recorded : ℕ) where
  -- The stored counter is as before, and nothing is recorded anew.
  abbrev Kept : World → Type 0
  Kept w = (used w.stats ≡ counter) × (total w.bundles ≤ recorded)

  -- An upload is taken, or the counter is kept.
  abbrev TakenOrKept : Response → World → Type 0
  TakenOrKept r w = (r.status ≡ 201) ⊎ Kept w

  read_stats-Kept :
      (o : Option RegistryStats) (w : World)
      → w.stats ≡ o
      → Kept w
      → Ends Kept (λ _. Kept) (read_stats o w.installations w).0 (read_stats o w.installations w).1
  unfolding read_stats
  read_stats-Kept none w e k = (rw e at k.0, k.1)
  read_stats-Kept (some s) w e k =
      let stored : bytes_used s ≡ counter = rw e at k.0 in
      elim (Option-cases s.diagnostics_bytes_used) [
        | inl missing ↦ rw (missing, read_stats) (rw missing at stored, k.1)
        | inr (n, given) ↦ rw (given, read_stats) k
      ]

  stats-Kept : Leads Kept Kept stats (λ _. Kept)
  unfolding stats
  stats-Kept = record { at = λ w k. read_stats-Kept w.stats w refl k }

  forget-Kept : (key : String) → Keeps Kept (forget_bundle key)
  unfolding forget_bundle
  forget-Kept key = record { at = λ w k. (k.0, omega (arith, k.1, total-erase-le key w.bundles)) }

  draw-Kept : (env : Env) (bytes : ℕ) → Keeps Kept (draw env bytes)
  unfolding draw
  draw-Kept env bytes = record { at = λ w k. k }

  keep-Kept : {A : Type 0} (m : Action A) → Keeps Kept m → Leads Kept Kept m (λ _. Kept)
  keep-Kept m k = Leads-keep Kept m (λ w h. h) k

  taken :
      (key : String) (meta : DiagnosticsBundleMeta) (s : RegistryStats) (r : Response)
      → r.status ≡ 201
      → Leads Kept Kept (put_bundle key meta >>= λ _. put_stats s >>= λ _. pure r) TakenOrKept
  unfolding put_bundle put_stats modify pure ◌>>=◌
  taken key meta s r created = record { at = λ w k. inl created }

  module _ (env : Env) where
    sweep-Kept :
        (left now : ℕ) (rows : Dict DiagnosticsBundleMeta) (s : RegistryStats)
        → Leads Kept Kept (sweep env left now rows s) (λ _. Kept)
    unfolding sweep
    sweep-Kept left now [] s = Leads-pure Kept s (λ w k. k)
    sweep-Kept zero now (_ ∷ _) s = Leads-pure Kept s (λ w k. k)
    sweep-Kept (suc left) now ((key, meta) ∷ rows) s =
        elim (Bool-cases (ltb now (env.time_of meta.uploaded_at + retention))) [
          | inl young ↦ rw (young, sweep) (sweep-Kept (suc left) now rows s)
          | inr old ↦
              rw (old, sweep)
                (Leads-bind Kept _ _ (keep-Kept _ (bucket-Keeps env Kept meta.key)) λ _.
                  Leads-bind Kept _ _ (keep-Kept _ (forget-Kept key))
                    λ _. sweep-Kept left now rows _)
        ]

    expire-Kept : (s : RegistryStats) → Leads Kept Kept (expire_old_diagnostics env s) (λ _. Kept)
    unfolding expire_old_diagnostics
    expire-Kept s =
        Leads-bind Kept _ _ (keep-Kept _ (Keeps-gets _))
          λ now. Leads-bind Kept _ _ (keep-Kept _ (Keeps-gets _)) λ rows. sweep-Kept 25 now rows s

    store-Kept :
        (i : Installation) (size : ℕ) (s : RegistryStats)
        → Leads Kept Kept (store_bundle env i size s) TakenOrKept
    unfolding store_bundle reply
    store-Kept i size s = Leads-bind Kept _ _ (keep-Kept _ (now_text-Keeps env Kept)) λ at.
        Leads-bind Kept _ _ (keep-Kept _ (draw-Kept env 4)) λ suffix.
          Leads-bind Kept _ _ (keep-Kept _ (bucket-Keeps env Kept _)) λ _. taken _ _ _ _ refl

    upload_sized-Kept :
        (i : Installation) (o : Option ℕ) → Leads Kept Kept (upload_sized env i o) TakenOrKept
    unfolding upload_sized
    upload_sized-Kept i none = Leads-pure Kept _ (λ w k. inr k)
    upload_sized-Kept i (some size) = Leads-bind Kept _ _ stats-Kept λ read.
        Leads-bind Kept _ _ (expire-Kept read) λ s.
          Leads-if Kept (ltb storage_cap_bytes (bytes_used s + size)) _ _
            (Leads-pure Kept _ (λ w k. inr k)) (store-Kept i size s)

    upload-Kept :
        (declared size : ℕ) (i : Installation)
        → Leads Kept Kept (upload_diagnostics env declared size i) TakenOrKept
    unfolding upload_diagnostics
    upload-Kept declared size i =
        Leads-if Kept (not env.has_bucket) _ _ (Leads-pure Kept _ (λ w k. inr k))
          (upload_sized-Kept i (sized_body declared size))

  not_taken :
      (o : Outcome Response) (w : World)
      → ((r : Response) → o ≡ ok r → r.status ≢ 201)
      → Ends Kept TakenOrKept o w
      → Kept w
  not_taken (ok r) w other (inl created) = absurd (other r refl created)
  not_taken (ok r) w other (inr kept) = kept
  not_taken (thrown t) w other kept = kept

-- An upload that is not answered by 201 leaves the stored counter as it was, while what is recorded
-- may shrink by the sweep: the bytes that are swept on the way to a refusal are never given back.
pub upload_refused :
    (env : Env) (declared size : ℕ) (i : Installation) (w : World)
    → ((r : Response) → (upload_diagnostics env declared size i w).0 ≡ ok r → r.status ≢ 201)
    → (used (upload_diagnostics env declared size i w).1.stats ≡ used w.stats)
      × (total (upload_diagnostics env declared size i w).1.bundles ≤ total w.bundles)
upload_refused env declared size i w other =
    let (o, after) = upload_diagnostics env declared size i w in
    not_taken (used w.stats) (total w.bundles) o after other
      ((upload-Kept (used w.stats) (total w.bundles) env declared size i).at w (refl, omega arith))
