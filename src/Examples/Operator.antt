-- ===== src/Examples/Operator.antt =====
-- The device names and the queued actions of control-plane/src/index.ts on concrete inputs.
use stagepilot_beta.Common.{true, some, none, lookup, ◌≡◌, ◌≤◌, refl}
use stagepilot_beta.Registry.Names.{utf16_length}
use stagepilot_beta.Registry.Data.{PendingAction, pending_action}
use stagepilot_beta.Registry.Action.{ok}
use stagepilot_beta.Registry.Replies.{reply}
use stagepilot_beta.Registry.Device.{
  drop_controls, trim_start, trim_end, take_units, sanitize_device_name,
}
use stagepilot_beta.Registry.Device.Clean.{has_no_controls, sanitize_device_name-clean}
use stagepilot_beta.Registry.Pending.{queue_reset}
use stagepilot_beta.Registry.Pending.Queue.{queue_reset_twice}
use stagepilot_beta.Examples.Fixtures.{env_1, booth, world_of}

desk_name : sanitize_device_name (some " Front\tdesk ") ≡ some "Frontdesk"
unfolding sanitize_device_name drop_controls trim_start trim_end take_units
desk_name = refl

sanitize_device_name-clean_example :
    (has_no_controls "Frontdesk" ≡ true) × (utf16_length "Frontdesk" ≤ 253)
sanitize_device_name-clean_example =
    sanitize_device_name-clean (some " Front\tdesk ") "Frontdesk" desk_name

booth_known : lookup "booth" (world_of booth).installations ≡ some booth
unfolding lookup
booth_known = refl

booth_idle : lookup "booth" (world_of booth).pending ≡ none
unfolding lookup
booth_idle = refl

queue_reset_twice_example :
    (a : PendingAction) × (((queue_reset env_1 "booth" (world_of booth)).0
        ≡ ok (reply 201 (pending_action a)))
      × (queue_reset env_1 "booth" (queue_reset env_1 "booth" (world_of booth)).1
          ≡ (ok (reply 200 (pending_action a)), (queue_reset env_1 "booth" (world_of booth)).1)))
queue_reset_twice_example =
    queue_reset_twice env_1 "booth" booth (world_of booth) booth_known refl booth_idle
