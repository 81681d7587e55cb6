-- ===== src/Examples/Registry.antt =====
-- The registry of control-plane/src/index.ts on concrete requests.
use stagepilot_beta.Common.{
  ℕ, String, [], ◌∷◌, true, false, none, some, lookup, insert, erase, ◌≡◌, ◌≤◌, ◌*◌, refl, arith,
  eq_iff,
}
use stagepilot_beta.Registry.Windows.{take_rate, open_window, retry_after}
use stagepilot_beta.Registry.Windows.Bounds.{
  count_admitted, after, admits, sliding_bound, reserve_kept,
}
use stagepilot_beta.Registry.Names.{
  strip_prefix, fits, times, is_tunnel_id, generation_form, is_generation, same_generation,
  tunnel_prefix, tunnel_name, tunnel_target, utf16_length, has_space, same_bytes,
}
use stagepilot_beta.Registry.Device.{
  drop_controls, trim_start, trim_end, take_units, sanitize_device_name, name_device,
  apply_device_name,
}
use stagepilot_beta.Registry.Limits.{
  count_live, initial_stats, read_stats, stats, count_denied, bump_denied, settle_installation_rate,
  take_installation_rate, settle_diagnostics_rate, take_diagnostics_rate, settle_provider_budget,
  take_provider_budget,
}
use stagepilot_beta.Registry.Provider.{
  owned, receive, as_tunnels, as_records, single_tunnel, single_record, same_values, same_rule,
  same_ingress, confirms, fetch, cf, tunnel, dns_record, ingress, configure,
}
use stagepilot_beta.Registry.Cleanup.{
  names_older, older_tunnel, stale_own_generation, fail_if, delete_entry, delete_whole_tunnel,
  remove_stale, replace_stale, teardown_record, teardown_tunnel, teardown_generation, teardown,
}
use stagepilot_beta.Registry.Replies.{
  public_installation, reply, usable_token, cached_reply, read_token, now_seconds, now_text,
  credential, credential_of, cached_provision,
}
use stagepilot_beta.Registry.Revocation.{
  release_slot, mark_revoking, mark_disabled, mark_active, disable, revoke_found, admin_revoke,
  unavailable, require_slot, store_active, reactivate, unused_id, unique_id, fresh_installation,
  reenroll,
}
use stagepilot_beta.Registry.Provision.{
  mark_provisioned, mark_enabling, clear_stale, confirm_tunnel, ensure_tunnel, ensure_entry,
  confirm_entry, provision_resources, finish_provision, ensure_generation, ensure_provisioned,
  start_provision, accept_generation, check_generation, provision, note_device, settle, reconcile,
}
use stagepilot_beta.Registry.Pending.{
  pending_action_of, pending_actions, queue_for, queue_found, queue_reset, clear_found,
  acknowledge_action,
}
use stagepilot_beta.Registry.Access.{
  equal_secret, is_admin, is_installation, Request, on_installation, to_revoke, to_reenroll,
  to_reactivate,
}
use stagepilot_beta.Registry.Handler.{
  record_geo, answer_status, mutate, charge_and_mutate, on_route, admit, authorized,
  charged_reenroll, charged_reactivate, charged_acknowledge, as_admin,
}
use stagepilot_beta.Registry.Dispatch.{by_method, route_request, respond, serve, run}
use stagepilot_beta.Registry.Action.{
  pure, throw, gets, modify, continue, ◌>>=◌, save, put_stats, forget_token, remember_token, load,
  with_lane, ok, thrown, error,
}
use stagepilot_beta.Registry.Data.{World, disabled, Installation, installation, Response}
use stagepilot_beta.Registry.Slots.Serve.{run-IsSound}
use stagepilot_beta.Registry.Slots.Invariant.{IsSound}
use stagepilot_beta.Registry.Slots.Leak.{retry_leaks}
use stagepilot_beta.Registry.Slots.Steady.{active}
use stagepilot_beta.Registry.Refusals.{Foreign, IsTurnedAway, serve-Foreign}
use stagepilot_beta.Registry.Replay.{again, needs_new, disable_retires}
use stagepilot_beta.Examples.Fixtures.{
  generation_1, env_1, env_down, booth_token, booth, booth_on, world_of, ask, ask_provision,
}

opened : Unit {0}
unfolding strip_prefix fits times is_tunnel_id generation_form is_generation same_generation
    tunnel_prefix tunnel_name tunnel_target utf16_length has_space same_bytes drop_controls
    trim_start trim_end take_units sanitize_device_name name_device apply_device_name count_live
    initial_stats read_stats stats count_denied bump_denied settle_installation_rate
    take_installation_rate settle_diagnostics_rate take_diagnostics_rate settle_provider_budget
    take_provider_budget owned receive as_tunnels as_records single_tunnel single_record same_values
    same_rule same_ingress confirms fetch cf tunnel dns_record ingress configure names_older
    older_tunnel stale_own_generation fail_if delete_entry delete_whole_tunnel remove_stale
    replace_stale teardown_record teardown_tunnel teardown_generation teardown public_installation
    reply usable_token cached_reply read_token now_seconds now_text credential credential_of
    cached_provision release_slot mark_revoking mark_disabled mark_active disable revoke_found
    admin_revoke unavailable require_slot store_active reactivate unused_id unique_id
    fresh_installation reenroll mark_provisioned mark_enabling clear_stale confirm_tunnel
    ensure_tunnel ensure_entry confirm_entry provision_resources finish_provision ensure_generation
    ensure_provisioned start_provision accept_generation check_generation provision note_device
    settle reconcile pending_action_of pending_actions queue_for queue_found queue_reset clear_found
    acknowledge_action equal_secret is_admin is_installation record_geo answer_status mutate
    charge_and_mutate on_route admit authorized charged_reenroll charged_reactivate
    charged_acknowledge as_admin by_method route_request respond serve run pure throw gets modify
    continue ◌>>=◌ save put_stats forget_token remember_token load with_lane take_rate open_window
    retry_after lookup insert erase count_admitted after
opened = tt

status_of : Response × World → ℕ
status_of (r, w) = r.status

-- A tunnel is made, a second provision is served from the cache, and a revocation takes it down.
run_tests :
    (status_of (serve env_1 ask_provision (world_of booth)) ≡ 200)
    × (status_of (
          serve env_1
            (ask (on_installation to_revoke) booth_token none)
            (run env_1 (ask_provision ∷ []) (world_of booth)))
        ≡ 200)
    × (status_of (serve env_1 (ask to_reactivate booth_token none) (world_of booth)) ≡ 200)
    × (status_of (serve env_1 (ask to_reenroll booth_token none) (world_of booth)) ≡ 201)
    × (status_of (serve env_down ask_provision (world_of booth)) ≡ 503)
unfolding opened status_of
run_tests = (refl, refl, refl, refl, refl)

booth-IsKeyed :
    (id : String) (i : Installation) → lookup id (world_of booth).installations ≡ some i → i.id ≡ id
unfolding lookup
booth-IsKeyed id i e = ground (arith, eq_iff "booth" id)

world-IsSound : IsSound 2 0 (world_of booth)
unfolding opened
world-IsSound = record {
  counter = 1;
  stored = refl;
  covered = omega arith;
  bounded = omega arith;
  keyed = record { own = booth-IsKeyed };
}

run-IsSound_example : IsSound 2 0 (
    run env_1
      (ask_provision ∷ ask (on_installation to_revoke) booth_token none ∷ [])
      (world_of booth))
run-IsSound_example =
    run-IsSound env_1 (ask_provision ∷ ask (on_installation to_revoke) booth_token none ∷ [])
      (world_of booth) world-IsSound

sliding_bound_example : count_admitted 60 2 none (10 ∷ 12 ∷ 30 ∷ 69 ∷ []) ≤ 2 * 2
sliding_bound_example = sliding_bound 60 2 10 none (10 ∷ 12 ∷ 30 ∷ 69 ∷ []) (
  (omega arith, omega arith),
  ((omega arith, omega arith), ((omega arith, omega arith), ((omega arith, omega arith), tt))),
)

reserve_kept_example :
    admits (
      take_rate 60 3 50 (after 60 2 (some (record { started_at = 0; count = 1 })) (5 ∷ 6 ∷ 7 ∷ [])))
    ≡ 1
reserve_kept_example =
    reserve_kept 60 2 3 (record { started_at = 0; count = 1 }) (5 ∷ 6 ∷ 7 ∷ []) 50 (omega arith)
      (omega arith) (omega arith, (omega arith, (omega arith, tt))) (omega arith)

abbrev stranger : Request
stranger = ask (on_installation to_revoke) "x" none

stranger-Foreign : Foreign env_1 stranger (lookup "booth" (world_of booth).installations)
unfolding opened
stranger-Foreign = λ e. ground (arith, e)

serve-Foreign_example :
    IsTurnedAway env_1 stranger (world_of booth) (serve env_1 stranger (world_of booth))
serve-Foreign_example = serve-Foreign env_1 stranger (world_of booth) tt stranger-Foreign

disable_returns :
    (disable env_1 booth_on false (world_of booth_on)).0
    ≡ ok (
        reply 200 (
          installation
            (public_installation (mark_disabled "now" (mark_revoking false "now" booth_on)))))
unfolding opened
disable_returns = refl

is_form : is_generation generation_1 ≡ true
unfolding opened
is_form = refl

disable_fails : (disable env_down booth_on true (world_of booth_on)).0 ≡ thrown (error "unknown")
unfolding opened
disable_fails = refl

disable_retires_example :
    (stored : Installation) × (lookup "booth"
        (disable env_1 booth_on false (world_of booth_on)).1.installations
      ≡ some stored)
    × (stored.phase ≡ disabled)
    × (stored.generation ≡ none)
    × (stored.tunnel_id ≡ none)
    × (lookup "booth" (disable env_1 booth_on false (world_of booth_on)).1.token_cache ≡ none)
    × (provision env_1
          (again generation_1 none)
          stored
          (disable env_1 booth_on false (world_of booth_on)).1
        ≡ (ok needs_new, (disable env_1 booth_on false (world_of booth_on)).1))
disable_retires_example =
    disable_retires env_1 booth_on false generation_1 none (world_of booth_on) _ refl (is_form)
      disable_returns

retry_leaks_example :
    (active (disable env_down booth_on true (world_of booth_on)).1.stats ≡ some 1)
    × (active
          (admin_revoke env_down "booth"
            (disable env_down booth_on true (world_of booth_on)).1).1.stats
        ≡ some 1)
retry_leaks_example =
    retry_leaks env_down booth_on 1 (world_of booth_on) (error "unknown") refl disable_fails
