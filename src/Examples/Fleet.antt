-- ===== src/Examples/Fleet.antt =====
-- Approvals, alerts and diagnostics of control-plane/src/index.ts on concrete inputs.
use stagepilot_beta.Common.{
  [], ◌∷◌, true, false, some, lookup, insert, erase, length, ◌≡◌, ◌≤◌, ◌≢◌, refl, arith,
}
use stagepilot_beta.Registry.Names.{strip_prefix, utf16_length}
use stagepilot_beta.Registry.Windows.{take_rate, open_window, retry_after}
use stagepilot_beta.Registry.Fleet.{
  pending, ApprovalRequest, warning, opened, acknowledged, AlertRecord,
}
use stagepilot_beta.Registry.Forms.{
  Input, empty_input, AlertForm, bounded_text, is_idempotency_key, enrollment_key, alert_form,
  label_form,
}
use stagepilot_beta.Registry.Rows.{
  code_before, place, listed, find_row, with_prefix, values, insert_sorted, sort_list,
}
use stagepilot_beta.Registry.Rows.Distinct.{IsDistinct}
use stagepilot_beta.Registry.Data.{World, Response, alert}
use stagepilot_beta.Registry.Action.{
  ok, pure, throw, gets, modify, continue, ◌>>=◌, save, put_stats, load,
}
use stagepilot_beta.Registry.Device.{
  drop_controls, trim_start, trim_end, take_units, sanitize_device_name, name_device,
  apply_device_name,
}
use stagepilot_beta.Registry.Limits.{count_live, initial_stats, read_stats, stats, bump_denied}
use stagepilot_beta.Registry.Replies.{
  public_installation, reply, now_seconds, now_text, credential, credential_of,
}
use stagepilot_beta.Registry.Revocation.{
  unavailable, require_slot, store_active, unused_id, unique_id, fresh_installation,
}
use stagepilot_beta.Registry.Provision.{note_device}
use stagepilot_beta.Registry.Approvals.{
  read_body, draw, put_approval, decide_found, decide_request, admin_decide_approval_request,
}
use stagepilot_beta.Registry.Approvals.Final.{has_id, decide_all, decided, decide_final}
use stagepilot_beta.Registry.Alerts.{alert_key, ingest_alert, format_location}
use stagepilot_beta.Registry.Alerts.Again.{row_key, ingest_again}
use stagepilot_beta.Registry.Diagnostics.{
  sized_body, drop_marks, ends_fraction, is_fraction, drop_fraction, diagnostics_key, forget_bundle,
  put_bundle, bucket_call, sweep, expire_old_diagnostics, store_bundle, upload_sized,
  upload_diagnostics,
}
use stagepilot_beta.Registry.Diagnostics.Metered.{IsMetered, total, used}
use stagepilot_beta.Registry.Diagnostics.Capped.{upload-IsMetered}
use stagepilot_beta.Registry.Diagnostics.Refused.{upload_refused}
use stagepilot_beta.Registry.Sources.{
  text_eq, split, split_double, number_from, digits_from, join, is_byte, is_hex_word, before_zone,
  groups, zeros, network, network_of, read_sides, normalize_network, normalize_source_address,
  drop_space, drop_space_end, strip_network, normalize_entry, exempt_set,
}
use stagepilot_beta.Registry.Enrollment.{
  current_quota, next_quota, forget_quota, put_enrollment, prune, prune_source_quotas, check_quota,
  check_index, is_exempt, source_hash, mint_from, mint_at, mint, reopen, enrolled, find_enrolled,
  admit_enrolled, enroll_as, enroll,
}
use stagepilot_beta.Examples.Fixtures.{env_1, booth, counts_1, world_of}

runs : Unit {0}
unfolding lookup insert erase strip_prefix utf16_length take_rate open_window retry_after
    bounded_text is_idempotency_key enrollment_key alert_form label_form code_before place listed
    find_row with_prefix values insert_sorted sort_list pure throw gets modify continue ◌>>=◌ save
    put_stats load drop_controls trim_start trim_end take_units sanitize_device_name name_device
    apply_device_name count_live initial_stats read_stats stats bump_denied public_installation
    reply now_seconds now_text credential credential_of unavailable require_slot store_active
    unused_id unique_id fresh_installation note_device read_body draw put_approval decide_found
    decide_request admin_decide_approval_request alert_key ingest_alert format_location sized_body
    drop_marks ends_fraction is_fraction drop_fraction diagnostics_key forget_bundle put_bundle
    bucket_call sweep expire_old_diagnostics store_bundle upload_sized upload_diagnostics total
    text_eq split split_double number_from digits_from join is_byte is_hex_word before_zone groups
    zeros network network_of read_sides normalize_network normalize_source_address drop_space
    drop_space_end strip_network normalize_entry exempt_set current_quota next_quota forget_quota
    put_enrollment prune prune_source_quotas check_quota check_index is_exempt source_hash mint_from
    mint_at mint reopen enrolled find_enrolled admit_enrolled enroll_as enroll
runs = tt

abbrev idle : World
idle = world_of booth

-- One bundle of five bytes is past its retention, and the cap is reached.
abbrev full : World
full = record idle {
  stats = some (record counts_1 { diagnostics_bytes_used = some 8589934592 });
  bundles =
      (
        "booth:then:0a",
        record {
          installation_id = "booth";
          key = "diagnostics/booth/then-0a";
          uploaded_at = "then";
          size = 5;
        },
      )
      ∷ [];
}

full-refused :
    (r : Response) → (upload_diagnostics env_1 10 10 booth full).0 ≡ ok r → r.status ≢ 201
unfolding runs
full-refused r e = ground (arith, e)

upload_refused_example :
    (used (upload_diagnostics env_1 10 10 booth full).1.stats ≡ used full.stats)
    × (total (upload_diagnostics env_1 10 10 booth full).1.bundles ≤ total full.bundles)
upload_refused_example = upload_refused env_1 10 10 booth full full-refused

idle-IsMetered : IsMetered idle
unfolding total
idle-IsMetered = record { covered = omega arith; capped = omega arith; distinct = tt }

upload-IsMetered_example : IsMetered (upload_diagnostics env_1 10 10 booth idle).1
upload-IsMetered_example = upload-IsMetered env_1 10 10 booth idle idle-IsMetered

abbrev asked_for : ApprovalRequest
asked_for = record {
  id = "booth:0a";
  installation_id = "booth";
  reason = "a second stage";
  status = pending;
  created_at = "then";
  updated_at = "then";
}

abbrev waiting : World
waiting = record idle { approvals = ("booth:booth:0a", asked_for) ∷ [] }

waiting-IsDistinct : IsDistinct waiting.approvals
unfolding runs
waiting-IsDistinct = (refl, tt)

waiting_found :
    find_row (has_id "booth:0a") (listed waiting.approvals) ≡ some ("booth:booth:0a", asked_for)
unfolding runs
waiting_found = refl

abbrev approves : Input
approves = record empty_input { approved = some true }

abbrev denies : Input
denies = record empty_input { approved = some false }

decide_final_example :
    lookup "booth:booth:0a"
      (decide_all env_1
        ((some denies, "booth:0a") ∷ [])
        (admin_decide_approval_request env_1 (some approves) "booth:0a" waiting).1).approvals
    ≡ some (decided env_1 true waiting asked_for)
decide_final_example =
    decide_final env_1 approves true "booth:0a" "booth:booth:0a" asked_for waiting
      ((some denies, "booth:0a") ∷ []) waiting-IsDistinct refl waiting_found refl

abbrev reported : AlertForm
reported = record {
  category = "playback";
  subject = "track 1";
  message = "stopped";
  severity = warning;
  first_seen = "then";
  last_seen = "now";
  count = 2;
}

abbrev report : Input
report = record empty_input {
  category = some "playback";
  subject = some "track 1";
  message = some "stopped";
  severity = some warning;
  first_seen = some "then";
  last_seen = some "now";
  count = some 2;
}

abbrev seen : AlertRecord
seen = record {
  id = "booth:playback:x";
  installation_id = "booth";
  category = "playback";
  subject = "track 1";
  message = "paused";
  severity = warning;
  first_seen = "then";
  last_seen = "then";
  count = 1;
  status = acknowledged;
  created_at = "then";
  updated_at = "then";
  location = "Unknown";
}

abbrev alerted : World
alerted = record idle { alerts = (row_key env_1 booth reported, seen) ∷ [] }

report_form : alert_form report ≡ some reported
unfolding runs
report_form = refl

seen_known : lookup (row_key env_1 booth reported) alerted.alerts ≡ some seen
unfolding runs
seen_known = refl

ingest_again_example :
    (kept : AlertRecord) × ((ingest_alert env_1 (some report) booth alerted).0
      ≡ ok (reply 200 (alert kept)))
    × (lookup
          (row_key env_1 booth reported)
          (ingest_alert env_1 (some report) booth alerted).1.alerts
        ≡ some kept)
    × (length (ingest_alert env_1 (some report) booth alerted).1.alerts ≡ length alerted.alerts)
    × (kept.id ≡ seen.id)
    × (kept.created_at ≡ seen.created_at)
    × (kept.status ≡ opened)
    × (kept.message ≡ reported.message)
    × (kept.severity ≡ reported.severity)
    × (kept.count ≡ reported.count)
    × (kept.first_seen ≡ reported.first_seen)
    × (kept.last_seen ≡ reported.last_seen)
ingest_again_example = ingest_again env_1 report reported booth seen alerted report_form seen_known
