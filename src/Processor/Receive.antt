-- ===== src/Processor/Receive.antt =====
-- HandleDataPacket and HandleAuthenticatedDataPacket: data from the network to the tunnel.
use tun_safe.Base.{
  ℕ, ◌+◌, Bool, true, false, not, ◌&&◌, ◌||◌, Option, none, some, List, ◌∷◌, ltb, leb, ◌==◌,
  if◌then◌else◌, length, take, drop,
}
use tun_safe.Base.Bytes.{read_le}
use tun_safe.Replay.{check_replay}
use tun_safe.Keys.{WgDevice, KeyState, key_invalid, key_did_refresh, update}
use tun_safe.Keys.Table.{lookup_keypair_by_key_id}
use tun_safe.Peer.{WgPeer, Packet}
use tun_safe.Peer.Slots.{check_switch_to_next_key, is_slot}
use tun_safe.Peer.Timers.{on_handshake_fully_complete, on_keepalive_received, on_data_received}
use tun_safe.Processor.{
  Processor, Env, Stats, Route, bad_header, route, put_peer, put_key, source_route, same_ip_addr,
  schedule_new_handshake, reject_after_messages,
}
use tun_safe.Processor.Send.{send_queued_packets, wants_refresh}

-- "Remember the endpoint of the peer"
unfoldable pub remember_endpoint : WgPeer → Packet → WgPeer
unfolding same_ip_addr
remember_endpoint p packet =
    if p.allow_endpoint_change
      && not (same_ip_addr p.endpoint packet.addr && (p.endpoint_protocol == packet.protocol))
    then record p { endpoint = packet.addr; endpoint_protocol = packet.protocol }
    else p

-- WireguardProcessor::NotifyHandshakeComplete
unfoldable pub notify_handshake_complete : Stats → ℕ → Stats
notify_handshake_complete st now = record st {
  last_complete_handshake_timestamp = now;
  first_complete_handshake_timestamp =
      if st.first_complete_handshake_timestamp == 0
      then now
      else st.first_complete_handshake_timestamp;
}

-- "Promote the next key to the current key when we receive a data packet"
-- The handshake is complete: the new slots, the timers and the counts.
unfoldable pub after_switch : Processor → ℕ → ℕ → WgDevice → WgPeer → Processor
unfolding notify_handshake_complete
after_switch s i now dev p =
    let st = record (s.stats) { handshakes_in_success = s.stats.handshakes_in_success + 1 } in
    record s {
      dev = dev;
      stats = notify_handshake_complete st now;
      peers = update s.peers i (on_handshake_fully_complete p now);
    }

unfoldable pub switched : Env → Processor → ℕ → ℕ → WgDevice × WgPeer × Bool → Processor
unfolding send_queued_packets after_switch
switched env s i now (dev, p, true) = send_queued_packets env (after_switch s i now dev p) i
switched env s i now (dev, p, false) = s

unfoldable pub promote : Env → Processor → ℕ → ℕ → ℕ → Processor
unfolding check_switch_to_next_key switched
promote env s i k now = switched env s i now (check_switch_to_next_key s.dev (s.peers i) k)

-- "Refresh when current key gets too old"
unfoldable pub refresh_key : Processor → ℕ → Option ℕ → Processor
unfolding wants_refresh schedule_new_handshake
refresh_key s i none = s
refresh_key s i (some c) =
    let kp = s.dev.keypairs c in
    if wants_refresh kp.recv_key_state
    then schedule_new_handshake (put_key s c (record kp { recv_key_state = key_did_refresh })) i
    else s

unfoldable pub refresh_current : Processor → ℕ → Processor
unfolding refresh_key
refresh_current s i = refresh_key s i (s.peers i).curr_keypair

unfoldable pub count_header_error : Processor → Processor
count_header_error s = record s {
  stats = record (s.stats) { error_header = s.stats.error_header + 1 };
}

-- The state changes before the packet's own header is looked at.
unfoldable pub note_authenticated : Env → Processor → ℕ → ℕ → ℕ → Packet → Processor
unfolding remember_endpoint promote refresh_current
note_authenticated env s i k now packet =
    let kp = s.dev.keypairs k in
    let s₁ = put_peer s i (remember_endpoint (s.peers i) packet) in
    let s₂ = put_key s₁ k (record kp { incoming_packet_count = kp.incoming_packet_count + 1 }) in
    let s₃ = refresh_current (promote env s₂ i k now) i in
    let p = s₃.peers i in
    put_peer s₃ i (if length packet.bytes == 0 then on_keepalive_received p else on_data_received p)

-- What the header says decides; the source address must belong to the peer `i`.
unfoldable pub deliver_route : Processor → ℕ → Packet → Route → Processor
unfolding is_slot count_header_error
deliver_route s i packet bad_header = count_header_error s
deliver_route s i packet (route peer size) =
    let st = s.stats in
    if not (is_slot peer i) || ltb (length packet.bytes) size
    then count_header_error s
    else record s {
      tun = record packet { bytes = take size packet.bytes } ∷ s.tun;
      stats = record st {
        tun_bytes_out = st.tun_bytes_out + size;
        tun_packets_out = st.tun_packets_out + 1;
      };
    }

unfoldable pub deliver : Env → Processor → ℕ → Packet → Processor
unfolding source_route deliver_route
deliver env s i packet = deliver_route s i packet (source_route env packet.bytes)

-- WireguardProcessor::HandleAuthenticatedDataPacket_WillUnlock for the keypair `k` of the peer `i`.
unfoldable pub handle_authenticated_data_packet : Env → Processor → ℕ → ℕ → ℕ → Packet → Processor
unfolding note_authenticated deliver
handle_authenticated_data_packet env s i k now packet =
    let s' = note_authenticated env s i k now packet in
    if length packet.bytes == 0 then s' else deliver env s' i packet

unfoldable pub is_invalid : KeyState → Bool
is_invalid key_invalid = true
is_invalid _ = false

-- From the lock of the peer on: the key may have been deleted, and the counter may be old.
unfoldable pub accept : Env → Processor → ℕ → ℕ → ℕ → ℕ → ℕ → Packet → Processor
unfolding is_invalid handle_authenticated_data_packet
accept env s i k now counter data_size packet =
    let p = s.peers i in
    let kp = s.dev.keypairs k in
    let st = s.stats in
    let s₁ = put_peer s i (record p { rx_bytes = p.rx_bytes + data_size }) in
    let (detector, fresh) = check_replay kp.replay_detector counter in
    let s₂ = put_key s₁ k (record kp { replay_detector = detector }) in
    if is_invalid kp.recv_key_state
    then record s₁ { stats = record st { error_key_id = st.error_key_id + 1 } }
    else if fresh
    then handle_authenticated_data_packet env s₂ i k now packet
    else record s₂ { stats = record st { error_duplicate = st.error_duplicate + 1 } }

-- The fields of MessageData.
abbrev pub receiver_id : List ℕ → ℕ
receiver_id bytes = read_le (take 4 (drop 4 bytes))

abbrev pub counter_of : List ℕ → ℕ
counter_of bytes = read_le (take 8 (drop 8 bytes))

-- The keypair that a data packet is for.
unfoldable pub find_keypair : Processor → List ℕ → Option ℕ
unfolding lookup_keypair_by_key_id
find_keypair s bytes =
    if leb reject_after_messages (counter_of bytes)
    then none
    else lookup_keypair_by_key_id s.dev (receiver_id bytes)

-- A text that was decrypted by a keypair of the table. Every such keypair has its peer; the code
-- dereferences the pointer without a test.
unfoldable pub decrypted : Env → Processor → ℕ → Option ℕ → ℕ → Packet → List ℕ → Processor
unfolding accept
decrypted env s k none now packet text = s
decrypted env s k (some i) now packet text =
    accept env s i k now (counter_of packet.bytes) (length packet.bytes)
      (record packet { bytes = text })

unfoldable pub check_mac : Env → Processor → ℕ → ℕ → Packet → Option (List ℕ) → Processor
unfolding decrypted
check_mac env s k now packet none = record s {
  stats = record (s.stats) { error_mac = s.stats.error_mac + 1 };
}
check_mac env s k now packet (some text) = decrypted env s k (s.dev.keypairs k).peer now packet text

unfoldable pub check_key_id : Env → Processor → ℕ → Packet → Option ℕ → Processor
unfolding check_mac
check_key_id env s now packet none = record s {
  stats = record (s.stats) { error_key_id = s.stats.error_key_id + 1 };
}
check_key_id env s now packet (some k) =
    check_mac env s k now packet
      (env.decrypt (s.dev.keypairs k) (counter_of packet.bytes) (drop 16 packet.bytes))

-- WireguardProcessor::HandleDataPacket
unfoldable pub handle_data_packet : Env → Processor → ℕ → Packet → Processor
unfolding find_keypair check_key_id
handle_data_packet env s now packet = check_key_id env s now packet (find_keypair s packet.bytes)
