-- ===== src/Registry/Alerts/Again.antt =====
-- control-plane/src/index.ts: an alert that is forwarded again.
use stagepilot_beta.Common.{
  ◌<>◌, String, str_eq, Bool-cases, inl, inr, [], ◌∷◌, some, Dict, lookup, insert,
  lookup-insert_self, length, ◌≡◌, refl, arith,
}
use stagepilot_beta.Registry.Fleet.{AlertRecord, opened}
use stagepilot_beta.Registry.Forms.{Input, AlertForm, alert_form}
use stagepilot_beta.Registry.Data.{World, Env, Installation, alert}
use stagepilot_beta.Registry.Action.{ok, pure, gets, modify, ◌>>=◌}
use stagepilot_beta.Registry.Replies.{reply, now_text}
use stagepilot_beta.Registry.Approvals.{read_body}
use stagepilot_beta.Registry.Alerts.{
  format_location, put_alert, renewed, alert_key, record_of, store_alert, ingest_alert,
}

module _ {ℓ} {V : Type ℓ} where
  -- A key that is there keeps the number of rows.
  length-insert :
      (key : String) (new old : V) (rows : Dict V)
      → lookup key rows ≡ some old
      → length (insert key new rows) ≡ length rows
  unfolding lookup insert
  length-insert key new old [] found = ground (arith, found)
  length-insert key new old ((k, v) ∷ rows) found = elim (Bool-cases (str_eq k key)) [
    | inl same ↦ rw same (omega arith)
    | inr other ↦
        rw other (omega (arith, length-insert key new old rows (ground (arith, other, found))))
  ]

module _ (env : Env) where
  abbrev pub row_key : Installation → AlertForm → String
  row_key i form = i.id <> ":" <> form.category <> ":" <> alert_key env form.category form.subject

  -- An alert that an installation forwards while one of the same category and subject is stored is
  -- answered by 200 and replaces it: no row is added, its id and its time of creation stay, it is
  -- open again whatever it was, and its message, severity, count and times are those reported.
  pub ingest_again :
      (given : Input) (form : AlertForm) (i : Installation) (old : AlertRecord) (w : World)
      → alert_form given ≡ some form
      → lookup (row_key i form) w.alerts ≡ some old
      → (kept : AlertRecord) × ((ingest_alert env (some given) i w).0 ≡ ok (reply 200 (alert kept)))
        × (lookup (row_key i form) (ingest_alert env (some given) i w).1.alerts ≡ some kept)
        × (length (ingest_alert env (some given) i w).1.alerts ≡ length w.alerts)
        × (kept.id ≡ old.id)
        × (kept.created_at ≡ old.created_at)
        × (kept.status ≡ opened)
        × (kept.message ≡ form.message)
        × (kept.severity ≡ form.severity)
        × (kept.count ≡ form.count)
        × (kept.first_seen ≡ form.first_seen)
        × (kept.last_seen ≡ form.last_seen)
  unfolding ingest_alert read_body store_alert put_alert modify record_of renewed pure gets ◌>>=◌
      now_text
  ingest_again given form i old w reads known =
      let new = renewed form (env.timestamp w.log w.moment) (format_location i) old in
      (
        new,
        simp (reads, known),
        simp (reads, known, lookup-insert_self (row_key i form) new w.alerts),
        simp (reads, known) (length-insert (row_key i form) new old w.alerts known),
        refl,
        refl,
        refl,
        refl,
        refl,
        refl,
        refl,
        refl,
      )
