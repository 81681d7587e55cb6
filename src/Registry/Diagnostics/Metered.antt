-- ===== src/Registry/Diagnostics/Metered.antt =====
-- control-plane/src/index.ts: the counter of the bytes that diagnostics take.
use stagepilot_beta.Common.{
  ℕ, zero, suc, ◌+◌, ◌-◌, ltb, String, Bool-cases, inl, inr, [], ◌∷◌, Dict, Option, none, some,
  lookup, insert, erase, eq_iff, ◌≡◌, ◌≤◌, arith,
}
use stagepilot_beta.Registry.Fleet.{DiagnosticsBundleMeta}
use stagepilot_beta.Registry.Data.{World, Env, RegistryStats}
use stagepilot_beta.Registry.Rows.Distinct.{
  IsDistinct, Agrees, erase-IsDistinct, erase_absent, tail-Agrees, head-Agrees,
}
use stagepilot_beta.Registry.Diagnostics.{
  storage_cap_bytes, retention, bytes_used, forget_bundle, bucket_call, sweep,
}
use stagepilot_beta.Registry.Approvals.{draw}
use stagepilot_beta.Registry.Replies.{now_text}
use stagepilot_beta.Registry.Rules.Basic.{Keeps, Keeps-gets, Keeps-if, Keeps-pure, Keeps-throw}
use stagepilot_beta.Registry.Rules.Leads.{
  Leads, Leads-bind, Leads-pure, Leads-keep, Leads-strengthen,
}

-- The sizes that are recorded.
unfoldable pub total : Dict DiagnosticsBundleMeta → ℕ
total [] = 0
total ((key, meta) ∷ rows) = meta.size + total rows

abbrev pub size_at : Option DiagnosticsBundleMeta → ℕ
size_at none = 0
size_at (some meta) = meta.size

abbrev pub used : Option RegistryStats → ℕ
used none = 0
used (some s) = bytes_used s

-- The counter covers what is recorded and is within the cap.
pub record IsMetered (w : World) : Type 0 where
  pub covered : total w.bundles ≤ used w.stats
  pub capped : used w.stats ≤ storage_cap_bytes
  pub distinct : IsDistinct w.bundles

total-erase :
    (gone : String) (rows : Dict DiagnosticsBundleMeta)
    → IsDistinct rows
    → total (erase gone rows) + size_at (lookup gone rows) ≡ total rows
unfolding total erase lookup
total-erase gone [] d = omega arith
total-erase gone ((k, m) ∷ rows) d =
    ground (arith, eq_iff k gone, total-erase gone rows d.1, erase_absent gone rows, d)

pub total-insert :
    (key : String) (meta : DiagnosticsBundleMeta) (rows : Dict DiagnosticsBundleMeta)
    → total (insert key meta rows) + size_at (lookup key rows) ≡ total rows + meta.size
unfolding total insert lookup
total-insert key meta [] = omega arith
total-insert key meta ((k, m) ∷ rows) = ground (arith, total-insert key meta rows)

-- The statistics `s` of a running upload cover what is recorded, and are no more than what is
-- stored; the rows that are left to look at are recorded.
pub record InHand (rows : Dict DiagnosticsBundleMeta) (s : RegistryStats) (w : World) : Type 0 where
  pub metered : IsMetered w
  pub enough : total w.bundles ≤ bytes_used s
  pub below : bytes_used s ≤ storage_cap_bytes
  pub present : Agrees rows w.bundles
  pub apart : IsDistinct rows

abbrev pub Covers : RegistryStats → World → Type 0
Covers s w = InHand [] s w

pub none-Agrees : (rows : Dict DiagnosticsBundleMeta) → Agrees [] rows
unfolding lookup
none-Agrees rows key value found = cc

covers :
    (rows : Dict DiagnosticsBundleMeta) (s : RegistryStats) (w : World)
    → InHand rows s w
    → Covers s w
covers rows s w h = record {
  metered = h.metered;
  enough = h.enough;
  below = h.below;
  present = none-Agrees w.bundles;
  apart = tt;
}

module _ (env : Env) where
  pub now_text-Keeps : (P : World → Type 0) → Keeps P (now_text env)
  unfolding now_text
  now_text-Keeps P = Keeps-gets _

  pub bucket-Keeps : (P : World → Type 0) (key : String) → Keeps P (bucket_call env key)
  unfolding bucket_call
  bucket-Keeps P key = Keeps-if (env.bucket_takes key) _ _ (Keeps-pure tt) (Keeps-throw _)

  pub draw-Covers : (bytes : ℕ) (s : RegistryStats) → Keeps (Covers s) (draw env bytes)
  unfolding draw
  draw-Covers bytes s = record {
    at = λ w h. record {
      metered = record {
        covered = h.metered.covered;
        capped = h.metered.capped;
        distinct = h.metered.distinct;
      };
      enough = h.enough;
      below = h.below;
      present = h.present;
      apart = h.apart;
    };
  }

  -- A row that is swept leaves what is recorded and the statistics in hand at once.
  forget-InHand :
      (key : String) (meta : DiagnosticsBundleMeta) (rows : Dict DiagnosticsBundleMeta)
      (s : RegistryStats)
      → Leads IsMetered
          (InHand ((key, meta) ∷ rows) s)
          (forget_bundle key)
          (λ _. InHand rows (record s { diagnostics_bytes_used = some (bytes_used s - meta.size) }))
  unfolding forget_bundle
  forget-InHand key meta rows s = record {
    at = λ w h.
        let found = head-Agrees key meta rows w.bundles h.present in
        let less = total-erase key w.bundles h.metered.distinct in
        let fewer : total (erase key w.bundles) + meta.size ≡ total w.bundles =
          ground (arith, found, less) in
        record {
          metered = record {
            covered = omega (arith, fewer, h.metered.covered);
            capped = h.metered.capped;
            distinct = erase-IsDistinct key w.bundles h.metered.distinct;
          };
          enough = omega (arith, fewer, h.enough);
          below = omega (arith, h.below);
          present = tail-Agrees key meta rows w.bundles h.apart.0 h.present;
          apart = h.apart.1;
        };
  }

  skip-InHand :
      (key : String) (meta : DiagnosticsBundleMeta) (rows : Dict DiagnosticsBundleMeta)
      (s : RegistryStats) (w : World)
      → InHand ((key, meta) ∷ rows) s w
      → InHand rows s w
  unfolding lookup
  skip-InHand key meta rows s w h = record {
    metered = h.metered;
    enough = h.enough;
    below = h.below;
    present = λ at v found. h.present at v (ground (arith, eq_iff key at, h.apart, found));
    apart = h.apart.1;
  }

  pub sweep-Covers :
      (left now : ℕ) (rows : Dict DiagnosticsBundleMeta) (s : RegistryStats)
      → Leads IsMetered (InHand rows s) (sweep env left now rows s) Covers
  unfolding sweep
  sweep-Covers left now [] s = Leads-pure IsMetered s (λ w h. h)
  sweep-Covers zero now ((key, meta) ∷ rows) s =
      Leads-pure IsMetered s (λ w h. covers ((key, meta) ∷ rows) s w h)
  sweep-Covers (suc left) now ((key, meta) ∷ rows) s =
      elim (Bool-cases (ltb now (env.time_of meta.uploaded_at + retention))) [
        | inl young ↦
            rw (young, sweep)
              (Leads-strengthen IsMetered _ (skip-InHand key meta rows s)
                (sweep-Covers (suc left) now rows s))
        | inr old ↦
            rw (old, sweep)
              (Leads-bind IsMetered _ _
                (Leads-keep IsMetered (bucket_call env meta.key) (λ w h. h.metered)
                  (bucket-Keeps (InHand ((key, meta) ∷ rows) s) meta.key))
                λ _.
                  Leads-bind IsMetered _ _ (forget-InHand key meta rows s)
                    λ _. sweep-Covers left now rows _)
      ]
