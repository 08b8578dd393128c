-- ===== src/Handshake/Keypair.antt =====
-- WgPeer::CreateNewKeypair.
use tun_safe.Base.{ℕ, suc, Bool, false, none, List, [], if◌then◌else◌, replicate}
use tun_safe.Replay.{init}
use tun_safe.Keys.{WgKeypair, WgDevice, key_valid, update}
use tun_safe.Handshake.{Crypto}

-- The keypair at its creation: memset to 0, the roles, and the keys from the chaining key, which the
-- initiator uses to send and to receive in this order, and the responder in the other.
unfoldable pub create_new_keypair : Crypto → Bool → List ℕ → ℕ → ℕ → WgKeypair
create_new_keypair c is_initiator chaining_key remote_key_id now =
    let (first_key, second_key, _) = c.hkdf [] chaining_key in
    record {
      peer = none;
      addr_entry = none;
      addr_entry_slot = 0;
      is_initiator = is_initiator;
      did_attempt_remember_ip_port = false;
      enabled_features = replicate 6 false;
      broadcast_short_key = 0;
      can_use_short_key_for_outgoing = 0;
      recv_key_state = key_valid;
      send_key_state = key_valid;
      auth_tag_length = 16;
      cipher_suite = 0;
      local_key_id = 0;
      remote_key_id = remote_key_id;
      send_ack_ctr = 0;
      key_timestamp = now;
      send_ctr_acked = 0;
      incoming_packet_count = 0;
      send_ctr = 0;
      send_key = if is_initiator then first_key else second_key;
      recv_key = if is_initiator then second_key else first_key;
      replay_detector = init;
    }

-- `new WgKeypair`: the next index of the store.
unfoldable pub store_keypair : WgDevice → WgKeypair → WgDevice × ℕ
store_keypair dev kp =
    let k = dev.next_keypair in
    (record dev { keypairs = update dev.keypairs k kp; next_keypair = suc k }, k)
