-- ===== src/Peer/Events.antt =====
-- WgPeer::CheckAndUpdateTimeOfNextKeyEvent: keypairs age, and die after REJECT_AFTER_TIME_MS.
use tun_safe.Base.{ℕ, ◌+◌, ◌-◌, ◌%◌, ◌^◌, min, Bool, Option, none, some, leb, if◌then◌else◌}
use tun_safe.Keys.{
  WgDevice, WgKeypair, KeyState, key_invalid, key_valid, key_want_refresh, key_did_refresh,
  put_keypair, rekey_timeout_ms, keepalive_timeout_ms, rekey_after_time_ms, reject_after_time_ms,
}
use tun_safe.Peer.{WgPeer}
use tun_safe.Peer.Slots.{delete_keypair}

-- The age at which a key that was only received with wants a refresh.
abbrev pub refresh_after_ms : ℕ
refresh_after_ms = reject_after_time_ms - keepalive_timeout_ms - rekey_timeout_ms

-- uint64 addition
abbrev pub add64 : ℕ → ℕ → ℕ
add64 a b = (a + b) % 2 ^ 64

-- `if (state == KEY_VALID) state = KEY_WANT_REFRESH`
unfoldable pub want_refresh : KeyState → KeyState
want_refresh key_invalid = key_invalid
want_refresh key_valid = key_want_refresh
want_refresh key_want_refresh = key_want_refresh
want_refresh key_did_refresh = key_did_refresh

-- The states of the current keypair, and the time of its next event.
unfoldable pub age_current : WgKeypair → ℕ → WgKeypair × ℕ
unfolding want_refresh
age_current kp now =
    if kp.is_initiator
    then if leb (add64 kp.key_timestamp refresh_after_ms) now
      then (
        record kp { recv_key_state = want_refresh kp.recv_key_state },
        add64 kp.key_timestamp reject_after_time_ms,
      )
      else if leb (add64 kp.key_timestamp rekey_after_time_ms) now
      then (
        record kp { send_key_state = want_refresh kp.send_key_state },
        add64 kp.key_timestamp refresh_after_ms,
      )
      else (kp, add64 kp.key_timestamp rekey_after_time_ms)
    else (kp, add64 kp.key_timestamp reject_after_time_ms)

abbrev pub is_expired : WgDevice → ℕ → ℕ → Bool
is_expired dev k now = leb (add64 (dev.keypairs k).key_timestamp reject_after_time_ms) now

-- The first `if`: the device, the slot and `next_time`.
unfoldable pub update_current : WgDevice → Option ℕ → ℕ → WgDevice × Option ℕ × ℕ
unfolding age_current
update_current dev none now = (dev, none, 2 ^ 64 - 1)
update_current dev (some k) now =
    let (kp, next_time) = age_current (dev.keypairs k) now in
    if is_expired dev k now
    then (delete_keypair dev (some k), none, 2 ^ 64 - 1)
    else (put_keypair dev k kp, some k, next_time)

-- The two others, for prev and next.
unfoldable pub update_other : WgDevice → Option ℕ → ℕ → ℕ → WgDevice × Option ℕ × ℕ
update_other dev none now next_time = (dev, none, next_time)
update_other dev (some k) now next_time =
    if is_expired dev k now
    then (delete_keypair dev (some k), none, next_time)
    else (dev, some k, min next_time (add64 (dev.keypairs k).key_timestamp reject_after_time_ms))

unfoldable pub check_and_update_time_of_next_key_event : WgDevice → WgPeer → ℕ → WgDevice × WgPeer
unfolding update_current update_other
check_and_update_time_of_next_key_event dev p now =
    let (dev₁, curr, time₁) = update_current dev p.curr_keypair now in
    let (dev₂, prev, time₂) = update_other dev₁ p.prev_keypair now time₁ in
    let (dev₃, next, time₃) = update_other dev₂ p.next_keypair now time₂ in
    (
      dev₃,
      record p {
        curr_keypair = curr;
        prev_keypair = prev;
        next_keypair = next;
        time_of_next_key_event = time₃;
      },
    )
