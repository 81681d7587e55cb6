-- ===== src/Examples/Enrolling.antt =====
-- Enrolments of control-plane/src/index.ts on concrete inputs.
use stagepilot_beta.Common.{
  ℕ, String, [], ◌∷◌, List, false, none, some, lookup, insert, erase, ◌≡◌, ◌≤◌, refl,
}
use stagepilot_beta.Registry.Names.{codes, strip_prefix, utf16_length}
use stagepilot_beta.Registry.Windows.{take_rate, open_window, retry_after}
use stagepilot_beta.Registry.Forms.{
  Input, empty_input, bounded_text, is_idempotency_key, enrollment_key, alert_form, label_form,
}
use stagepilot_beta.Registry.Rows.{
  code_before, place, listed, find_row, with_prefix, values, insert_sorted, sort_list,
}
use stagepilot_beta.Registry.Data.{World, Installation, Response, with_credential}
use stagepilot_beta.Registry.Action.{
  ok, pure, throw, gets, modify, continue, ◌>>=◌, save, put_stats, load,
}
use stagepilot_beta.Registry.Device.{
  drop_controls, trim_start, trim_end, take_units, sanitize_device_name, name_device,
  apply_device_name,
}
use stagepilot_beta.Registry.Limits.{count_live, initial_stats, read_stats, stats, bump_denied}
use stagepilot_beta.Registry.Replies.{
  public_installation, reply, now_seconds, now_text, credential, credential_of,
}
use stagepilot_beta.Registry.Revocation.{
  unavailable, require_slot, store_active, unused_id, unique_id, fresh_installation,
}
use stagepilot_beta.Registry.Provision.{note_device}
use stagepilot_beta.Registry.Approvals.{
  read_body, draw, put_approval, decide_found, decide_request, admin_decide_approval_request,
}
use stagepilot_beta.Registry.Alerts.{alert_key, ingest_alert, format_location}
use stagepilot_beta.Registry.Diagnostics.{
  sized_body, drop_marks, ends_fraction, is_fraction, drop_fraction, diagnostics_key, forget_bundle,
  put_bundle, bucket_call, sweep, expire_old_diagnostics, store_bundle, upload_sized,
  upload_diagnostics,
}
use stagepilot_beta.Registry.Diagnostics.Metered.{total}
use stagepilot_beta.Registry.Sources.{
  text_eq, split, split_double, number_from, digits_from, join, is_byte, is_hex_word, before_zone,
  groups, zeros, network, network_of, read_sides, normalize_network, normalize_source_address,
  drop_space, drop_space_end, strip_network, normalize_entry, exempt_set,
}
use stagepilot_beta.Registry.Enrollment.{
  current_quota, next_quota, forget_quota, put_enrollment, prune, prune_source_quotas, check_quota,
  check_index, is_exempt, source_hash, mint_from, mint_at, mint, reopen, enrolled, find_enrolled,
  admit_enrolled, enroll_as, enroll,
}
use stagepilot_beta.Registry.Enrollment.Replay.{enroll_replay}
use stagepilot_beta.Registry.Enrollment.Quota.{moment_of, enroll_quota}
use stagepilot_beta.Registry.Enrollment.Counted.{IsCounted}
use stagepilot_beta.Registry.Fleet.{SourceQuota}
use stagepilot_beta.Examples.Fixtures.{env_1, booth, world_of}

runs : Unit {0}
unfolding lookup insert erase strip_prefix utf16_length take_rate open_window retry_after
    bounded_text is_idempotency_key enrollment_key alert_form label_form code_before place listed
    find_row with_prefix values insert_sorted sort_list pure throw gets modify continue ◌>>=◌ save
    put_stats load drop_controls trim_start trim_end take_units sanitize_device_name name_device
    apply_device_name count_live initial_stats read_stats stats bump_denied public_installation
    reply now_seconds now_text credential credential_of unavailable require_slot store_active
    unused_id unique_id fresh_installation note_device read_body draw put_approval decide_found
    decide_request admin_decide_approval_request alert_key ingest_alert format_location sized_body
    drop_marks ends_fraction is_fraction drop_fraction diagnostics_key forget_bundle put_bundle
    bucket_call sweep expire_old_diagnostics store_bundle upload_sized upload_diagnostics total
    text_eq split split_double number_from digits_from join is_byte is_hex_word before_zone groups
    zeros network network_of read_sides normalize_network normalize_source_address drop_space
    drop_space_end strip_network normalize_entry exempt_set current_quota next_quota forget_quota
    put_enrollment prune prune_source_quotas check_quota check_index is_exempt source_hash mint_from
    mint_at mint reopen enrolled find_enrolled admit_enrolled enroll_as enroll
runs = tt

network_form :
    normalize_source_address (codes "2001:DB8::7%eth0") ≡ some (codes "2001:db8:0:0::/64")
unfolding runs
network_form = refl

address_form : normalize_source_address (codes "203.000.113.9") ≡ some (codes "203.0.113.9")
unfolding runs
address_form = refl

exempt_form :
    exempt_set (some (codes "10.0.0.1, 2001:db8:0:0::/64,010.0.0.1"))
    ≡ (codes "10.0.0.1" ∷ codes "2001:db8:0:0::/64" ∷ [])
unfolding runs
exempt_form = refl

abbrev idle : World
idle = world_of booth

abbrev enrolls : String → Input
enrolls nonce = record empty_input { nonce = some nonce }

booth_key : enrollment_key (enrolls "a-nonce-of-booth") ≡ some "a-nonce-of-booth"
unfolding runs
booth_key = refl

booth_nonce : lookup "a-nonce-of-booth" idle.enrollments ≡ some "booth"
unfolding runs
booth_nonce = refl

booth_stored : lookup "booth" idle.installations ≡ some booth
unfolding runs
booth_stored = refl

booth_unnamed : (apply_device_name booth none).1 ≡ false
unfolding runs
booth_unnamed = refl

enroll_replay_example : enroll env_1 (codes "?") (some (enrolls "a-nonce-of-booth")) idle ≡ (
  ok (reply 201 (with_credential (public_installation booth) (credential_of env_1 booth))),
  idle,
)
enroll_replay_example =
    enroll_replay env_1 (codes "?") (enrolls "a-nonce-of-booth") "a-nonce-of-booth" "booth" booth
      idle booth_key booth_nonce booth_stored refl booth_unnamed

abbrev address : List ℕ
address = codes "203.0.113.9"

new_key : enrollment_key (enrolls "another-nonce") ≡ some "another-nonce"
unfolding runs
new_key = refl

new_unknown : lookup "another-nonce" idle.enrollments ≡ none
unfolding runs
new_unknown = refl

address_read : normalize_source_address address ≡ some address
unfolding runs
address_read = refl

-- A new installation by its id.
abbrev new_one : Installation
new_one = fresh_installation env_1 "mixer" "now"

abbrev welcome : Response
welcome = reply 201 (with_credential (public_installation new_one) (credential_of env_1 new_one))

new_answered : (enroll env_1 address (some (enrolls "another-nonce")) idle).0 ≡ ok welcome
unfolding runs
new_answered = refl

enroll_quota_example :
    (q : SourceQuota) × (lookup
        (source_hash env_1 address)
        (enroll env_1 address (some (enrolls "another-nonce")) idle).1.quotas
      ≡ some q)
    × IsCounted env_1.enrollment_window
        (moment_of env_1 address idle)
        (lookup (source_hash env_1 address) idle.quotas)
        q
    × (is_exempt env_1 address ≡ false → q.count ≤ 3)
enroll_quota_example =
    enroll_quota env_1 address idle address (enrolls "another-nonce") "another-nonce" welcome
      new_key new_unknown address_read new_answered
