-- ===== src/Processor/Main.antt =====
-- The entry points on the main thread: HandleUdpPacket, RunAllMainThreadScheduled and SecondLoop in
-- wireguard.cpp, and WgDevice::SecondLoop.
use tun_safe.Base.{
  ℕ, ◌+◌, Bool, true, false, not, ◌||◌, Option, none, some, List, [], ◌∷◌, ltb, leb, ◌==◌,
  if◌then◌else◌, length, take, bit_and,
}
use tun_safe.Base.Bytes.{read_le}
use tun_safe.Peer.{Packet}
use tun_safe.Peer.Check.{check_timeouts, action_send_keepalive, action_send_handshake}
use tun_safe.RateLimit.{WgRateLimit, periodic, packets_per_sec_limit}
use tun_safe.Handshake.{Crypto}
use tun_safe.Processor.{Processor, Env, put_peer, put_key}
use tun_safe.Processor.Send.{send_keepalive_packet}
use tun_safe.Processor.Receive.{handle_data_packet}
use tun_safe.Processor.Handshakes.{
  Chance, send_handshake_initiation, handle_handshake_initiation_packet,
  handle_handshake_response_packet, handle_handshake_cookie_packet,
  check_incoming_handshake_rate_limit,
}

-- What a packet from the network is, by its type and its size; the size of a message of a handshake
-- is exact, and such a message needs a private key.
pub data UdpType : Type 0 where
  data_type cookie_type initiation_type response_type invalid_type : UdpType

unfoldable pub udp_type : Bool → List ℕ → UdpType
udp_type initialized bytes =
    let type = read_le (take 4 bytes) in
    let size = length bytes in
    if ltb size 4
    then invalid_type
    else if type == 4
    then (if ltb size 16 then invalid_type else data_type)
    else if type == 3
    then (if not (size == 64) || not initialized then invalid_type else cookie_type)
    else if type == 1
    then (if not (size == 148) || not initialized then invalid_type else initiation_type)
    else if type == 2
    then (if not (size == 92) || not initialized then invalid_type else response_type)
    else invalid_type

-- `if (CheckIncomingHandshakeRateLimit(packet, overload)) HandleHandshake…Packet(packet);`
unfoldable pub admit_initiation : Crypto → Packet → Chance → Processor × Bool → Processor
unfolding handle_handshake_initiation_packet
admit_initiation c packet x (s, false) = s
admit_initiation c packet x (s, true) = handle_handshake_initiation_packet c s packet x

unfoldable pub admit_response : Crypto → Env → Packet → Chance → Processor × Bool → Processor
unfolding handle_handshake_response_packet
admit_response c env packet x (s, false) = s
admit_response c env packet x (s, true) = handle_handshake_response_packet c env s packet x

unfoldable pub dispatch_udp :
    Crypto → Env → Processor → Packet → Bool → Chance → UdpType → Processor
unfolding handle_data_packet handle_handshake_cookie_packet check_incoming_handshake_rate_limit
    admit_initiation admit_response
dispatch_udp c env s packet overload x data_type = handle_data_packet env s x.now packet
dispatch_udp c env s packet overload x cookie_type = handle_handshake_cookie_packet c s packet x
dispatch_udp c env s packet overload x initiation_type =
    let s₁ = record s { stats = record (s.stats) { handshakes_in = s.stats.handshakes_in + 1 } } in
    admit_initiation c packet x (check_incoming_handshake_rate_limit c s₁ packet overload x)
dispatch_udp c env s packet overload x response_type =
    admit_response c env packet x (check_incoming_handshake_rate_limit c s packet overload x)
dispatch_udp c env s packet overload x invalid_type = s

-- WireguardProcessor::HandleUdpPacket
unfoldable pub handle_udp_packet : Crypto → Env → Processor → Packet → Bool → Chance → Processor
unfolding udp_type dispatch_udp
handle_udp_packet c env s packet overload x =
    let st = s.stats in
    let s₁ = record s {
      stats = record st {
        udp_bytes_in = st.udp_bytes_in + length packet.bytes;
        udp_packets_in = st.udp_packets_in + 1;
      };
    } in
    dispatch_udp c env s₁ packet overload x (udp_type s.dev.is_private_key_initialized packet.bytes)

-- One peer of the list in RunAllMainThreadScheduled.
unfoldable pub run_scheduled : Crypto → Processor → ℕ → Chance → Processor
unfolding send_handshake_initiation
run_scheduled c s i x =
    let p = s.peers i in
    let taken = put_peer s i (record p { main_thread_scheduled = 0 }) in
    let ready = put_peer s i (record p { main_thread_scheduled = 0; handshake_attempts = 0 }) in
    if p.marked_for_delete
    then s
    else if bit_and p.main_thread_scheduled 1 == 0
    then taken
    else send_handshake_initiation c ready i x

unfoldable pub run_each : Crypto → Processor → List ℕ → (ℕ → Chance) → Processor
unfolding run_scheduled
run_each c s [] x = s
run_each c s (i ∷ rest) x = run_each c (run_scheduled c s i (x i)) rest x

-- WireguardProcessor::RunAllMainThreadScheduled; `x` is what each peer's call gets.
unfoldable pub run_all_main_thread_scheduled : Crypto → Processor → (ℕ → Chance) → Processor
unfolding run_each
run_all_main_thread_scheduled c s x = run_each c (record s { scheduled = [] }) s.scheduled x

-- The actions that CheckTimeouts asks for.
unfoldable pub act : Crypto → Env → Processor → ℕ → Chance → ℕ → Processor
unfolding send_handshake_initiation send_keepalive_packet
act c env s i x mask =
    let s₁ = if bit_and mask action_send_keepalive == 0 then s else send_keepalive_packet env s i in
    if bit_and mask action_send_handshake == 0 then s₁ else send_handshake_initiation c s₁ i x

-- "Allow ip/port to be remembered again for this keypair"
unfoldable pub forget_attempt : Processor → Option ℕ → Processor
forget_attempt s none = s
forget_attempt s (some k) =
    put_key s k (record (s.dev.keypairs k) { did_attempt_remember_ip_port = false })

-- One peer of the list in SecondLoop.
unfoldable pub check_peer_timeouts : Crypto → Env → Processor → ℕ → Chance → Processor
unfolding forget_attempt act check_timeouts
check_peer_timeouts c env s i x =
    let p = s.peers i in
    let s₁ = forget_attempt s p.curr_keypair in
    let (dev, q, mask) = check_timeouts s₁.dev p x.now in
    if leb p.time_of_next_key_event x.now || not (p.timers == 0)
    then act c env (put_peer (record s₁ { dev = dev }) i q) i x mask
    else s₁

unfoldable pub check_each : Crypto → Env → Processor → List ℕ → (ℕ → Chance) → Processor
unfolding check_peer_timeouts
check_each c env s [] x = s
check_each c env s (i ∷ rest) x = check_each c env (check_peer_timeouts c env s i (x i)) rest x

-- WgRateLimit::is_used
abbrev pub is_used : WgRateLimit → Bool
is_used r = not (r.used_rate_limit == 0) || not (r.packets_per_sec == packets_per_sec_limit)

-- WgDevice::SecondLoop with the five numbers drawn for Periodic.
unfoldable pub device_second_loop : Processor → ℕ → ℕ × ℕ → ℕ → Processor
unfolding periodic
device_second_loop s now key seed = record s {
  dev = record (s.dev) { low_resolution_timestamp = now };
  rate_limiter =
      if is_used s.rate_limiter then periodic s.rate_limiter key seed else s.rate_limiter;
}

-- WireguardProcessor::SecondLoop over the list of peers, but for the rates of the display.
unfoldable pub second_loop :
    Crypto → Env → Processor → List ℕ → (ℕ → Chance) → ℕ → ℕ × ℕ → ℕ → Processor
unfolding check_each device_second_loop
second_loop c env s list x now key seed =
    device_second_loop (check_each c env s list x) now key seed
