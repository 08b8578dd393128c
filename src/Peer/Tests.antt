-- ===== src/Peer/Tests.antt =====
-- A peer with one keypair, and the theorems at inputs that meet their hypotheses.
use tun_safe.Base.{
  ℕ, ◌<◌, ◌≡◌, ◌≢◌, refl, true, false, none, some, [], ◌∷◌, ◌++◌, replicate, arith, ◌==◌,
  if◌then◌else◌,
}
use tun_safe.Replay.{init}
use tun_safe.Keys.{WgDevice, WgKeypair, IpPort, key_valid, key_invalid, v4, unset}
use tun_safe.Keys.AddrEntries.{new_addr_entry}
use tun_safe.Peer.{WgPeer, Packet, new_peer}
use tun_safe.Peer.Queue.{
  IsQueueValid, add_packet_to_peer_queue, add_packet_to_peer_queue_lem, newest,
}
use tun_safe.Peer.Timers.{is_timer_active}
use tun_safe.Peer.Bounds.{handle_timers, data_sent, handle, effect, apply_effect}
use tun_safe.Peer.Slots.{delete_keypair, insert_keypair_in_peer, check_switch_to_next_key}
use tun_safe.Peer.Delete.{delete_keypair_lem}
use tun_safe.Peer.Events.{check_and_update_time_of_next_key_event}
use tun_safe.Peer.Settled.{check_again, IsSlotsApart}
use tun_safe.Peer.Safety.{IsSafe, IsFresh, Run, done, step, insert, switch, run-IsSafe}
use tun_safe.Peer.Check.{Tick, fire_timers, has}
use tun_safe.Peer.Rate.{allowed_times, Spaced, allowed_times-Spaced}
use tun_safe.Peer.Steps.{IsSmall}
use tun_safe.Peer.Actions.{fire_timers_actions, wants_handshake, wants_keepalive}

abbrev pub some_keypair : WgKeypair
some_keypair = record {
  peer = some 0;
  addr_entry = none;
  addr_entry_slot = 0;
  is_initiator = true;
  did_attempt_remember_ip_port = false;
  enabled_features = replicate 6 false;
  broadcast_short_key = 0;
  can_use_short_key_for_outgoing = 0;
  recv_key_state = key_valid;
  send_key_state = key_valid;
  auth_tag_length = 16;
  cipher_suite = 0;
  local_key_id = 7;
  remote_key_id = 9;
  send_ack_ctr = 0;
  key_timestamp = 1000;
  send_ctr_acked = 0;
  incoming_packet_count = 0;
  send_ctr = 5;
  send_key = [];
  recv_key = [];
  replay_detector = init;
}

abbrev no_address : IpPort
no_address = record { low = 0; high = 0; tail = 0 }

-- Every index of the store holds the same keypair; the table knows key id 7.
abbrev pub some_device : WgDevice
some_device = record {
  keypairs = λ k. some_keypair;
  addr_entries = λ e. new_addr_entry no_address;
  next_entry = 0;
  addr_entry_lookup = λ a. none;
  key_id_lookup = λ id. if id == 7 then some (0, some 1) else none;
  next_keypair = 10;
  peer_id_lookup = λ key. none;
  delayed_delete = [];
  low_resolution_timestamp = 0;
  is_private_key_initialized = true;
  s_priv = [];
  s_pub = [];
  precomputed_mac1_key = [];
  precomputed_cookie_key = [];
  cookie_secret = [];
  cookie_secret_timestamp = 0;
}

abbrev pub some_peer : WgPeer
some_peer = record new_peer { curr_keypair = some 1; endpoint = v4 3 4 }

abbrev some_packet : Packet
some_packet = record { bytes = 1 ∷ 2 ∷ []; protocol = 0; addr = unset }

new_peer-IsQueueValid : IsQueueValid new_peer
new_peer-IsQueueValid = record { counted = refl; bounded = omega arith }

add_packet_to_peer_queue_lem_example :
    let q = add_packet_to_peer_queue new_peer some_packet in
    IsQueueValid q × (q.queued_packets ≡ newest 127 [] ++ (some_packet ∷ []))
add_packet_to_peer_queue_lem_example =
    add_packet_to_peer_queue_lem new_peer some_packet new_peer-IsQueueValid

handle_timers_example :
    ((handle data_sent new_peer 0).timers < 1024)
    × (is_timer_active 2 (handle data_sent new_peer 0).timers
        ≡ apply_effect (effect data_sent 2) (is_timer_active 2 0))
handle_timers_example = handle_timers data_sent new_peer 0 2 (omega arith) (omega arith)

delete_keypair_lem_example :
    let dev' = delete_keypair some_device (some 1) in
    let key_id : ℕ = 7 in
    ((dev'.keypairs 1).recv_key_state ≡ key_invalid)
    × ((dev'.keypairs 1).local_key_id ≡ 0)
    × (key_id ≢ 0 → dev'.key_id_lookup 7 ≡ none)
    × ((id : ℕ) → id ≢ key_id → dev'.key_id_lookup id ≡ some_device.key_id_lookup id)
    × ((j : ℕ) → j ≢ 1 → dev'.keypairs j ≡ some_keypair)
    × (dev'.delayed_delete ≡ 1 ∷ [])
delete_keypair_lem_example = delete_keypair_lem some_device 1

some_peer-IsSlotsApart : IsSlotsApart some_peer
some_peer-IsSlotsApart = record { curr_prev = tt; curr_next = tt; prev_next = tt }

abbrev checked : WgDevice × WgPeer
checked = check_and_update_time_of_next_key_event some_device some_peer 2000

later_checked : 3000 < checked.1.time_of_next_key_event
unfolding check_and_update_time_of_next_key_event
later_checked = omega arith

check_again_example :
    check_and_update_time_of_next_key_event checked.0 checked.1 3000 ≡ (checked.0, checked.1)
check_again_example =
    check_again some_device some_peer 2000 3000 some_peer-IsSlotsApart (omega arith) (omega arith)
      later_checked

abbrev started : WgDevice × WgPeer
started = (some_device, some_peer)

abbrev inserted : WgDevice × WgPeer
inserted = insert_keypair_in_peer some_device 0 some_peer 2

abbrev taken : WgDevice × WgPeer
taken = (
  (check_switch_to_next_key inserted.0 inserted.1 2).0,
  (check_switch_to_next_key inserted.0 inserted.1 2).1,
)

some_peer-IsFresh : IsFresh some_device some_peer 2
some_peer-IsFresh = record { not_curr = omega arith; not_prev = tt; not_next = tt; live = tt }

two_steps : Run started taken
two_steps = step (insert started 0 2 some_peer-IsFresh) (step (switch inserted 2) done)

run-IsSafe_example : IsSafe taken.0 taken.1
run-IsSafe_example = run-IsSafe two_steps (record {
  curr_prev = tt;
  curr_next = tt;
  prev_next = tt;
  curr_live = tt;
  prev_live = tt;
  next_live = tt;
})

-- The keepalive timer of the peer is running since time 0.
abbrev some_tick : Tick
some_tick = record { dev = some_device; peer = some_peer; t = 2; rv = 0 }

some_tick-IsSmall : IsSmall some_tick
some_tick-IsSmall = record { flags = omega arith; actions = omega arith }

fire_timers_actions_example :
    (has (fire_timers 20000 some_tick).rv 1 ≡ wants_handshake 20000 some_tick some_tick-IsSmall)
    × (has (fire_timers 20000 some_tick).rv 0 ≡ wants_keepalive 20000 some_tick some_tick-IsSmall)
fire_timers_actions_example = fire_timers_actions 20000 some_tick some_tick-IsSmall refl

-- Its last handshake was at time 1000.
abbrev waiting_peer : WgPeer
waiting_peer = record some_peer { last_handshake_init_timestamp = 1000 }

allowed_times-Spaced_example :
    Spaced 1000 (allowed_times waiting_peer (2000 ∷ 6000 ∷ 6001 ∷ 12000 ∷ []))
allowed_times-Spaced_example =
    allowed_times-Spaced waiting_peer (2000 ∷ 6000 ∷ 6001 ∷ 12000 ∷ []) (omega arith)

allowed_times-waiting_peer :
    allowed_times waiting_peer (2000 ∷ 6000 ∷ 6001 ∷ 12000 ∷ []) ≡ 6000 ∷ 12000 ∷ []
unfolding allowed_times
allowed_times-waiting_peer = refl
