-- ===== src/Processor/Handshakes.antt =====
-- The handshake messages in WireguardProcessor: SendHandshakeInitiation, HandleHandshakeInitiationPacket,
-- HandleHandshakeResponsePacket, HandleHandshakeCookiePacket and CheckIncomingHandshakeRateLimit.
use tun_safe.Base.{
  ℕ, ◌+◌, ◌/◌, ◌%◌, ◌^◌, Bool, true, false, not, ◌&&◌, ◌||◌, Option, none, some, List, leb, ◌==◌,
  if◌then◌else◌, length,
}
use tun_safe.Base.Bytes.{read_le}
use tun_safe.Keys.{WgDevice, IpAddr, unset, v4, v6, has_family}
use tun_safe.Peer.{WgPeer, Packet, check_handshake_rate_limit}
use tun_safe.Peer.Timers.{
  on_handshake_init_sent, on_handshake_auth_complete, on_handshake_fully_complete,
}
use tun_safe.RateLimit.{check_rate_limit, commit_result}
use tun_safe.Handshake.{Crypto, Initiation, Response}
use tun_safe.Handshake.Initiator.{
  create_message_handshake_initiation, parse_message_handshake_response,
}
use tun_safe.Handshake.Responder.{parse_message_handshake_initiation}
use tun_safe.Handshake.Cookie.{
  check_cookie_mac1, check_cookie_mac2, create_cookie_message, parse_message_handshake_cookie,
}
use tun_safe.Handshake.Wire.{
  field, read_initiation, read_response, read_cookie, write_initiation, write_response,
  write_cookie,
}
use tun_safe.Processor.{Processor, Env, put_peer, do_write_udp_packet}
use tun_safe.Processor.Send.{send_keepalive_packet}
use tun_safe.Processor.Receive.{notify_handshake_complete}

-- What a call gets from the operating system: random bytes for an ephemeral key, a cookie secret and
-- a nonce, the TAI64N timestamp, the time, and the numbers that GetRandomNumber returns.
pub record Chance : Type 0 where
  pub random : List ℕ
  pub secret : List ℕ
  pub nonce : List ℕ
  pub timestamp : List ℕ
  pub now : ℕ
  pub draws : List ℕ

-- `endpoint_protocol_ & kPacketProtocolIncomingConnection`
abbrev pub is_incoming : ℕ → Bool
is_incoming protocol = (protocol / 128 % 2) == 1

-- The peer after the message was made: attempts, timers, bytes, and an endpoint that is forgotten
-- after three attempts when it came from an incoming connection. 148 is the size of the packet.
unfoldable pub after_initiation : WgPeer → WgPeer
after_initiation p =
    let attempts = (p.total_handshake_attempts + 1) % 2 ^ 32 in
    let q = on_handshake_init_sent (record p { total_handshake_attempts = attempts }) in
    let sent = record q { tx_bytes = p.tx_bytes + 148 } in
    if leb 3 attempts && (p.allow_endpoint_change && is_incoming p.endpoint_protocol)
    then record sent { endpoint_protocol = 0; endpoint = unset }
    else sent

-- From the creation of the message on; without enough draws nothing is sent.
unfoldable pub write_initiation_packet :
    Processor → ℕ → Option (WgDevice × WgPeer × Initiation) → Processor
unfolding after_initiation
write_initiation_packet s i none = s
write_initiation_packet s i (some (dev, p, m)) =
    let packet : Packet = record {
      bytes = write_initiation m;
      protocol = p.endpoint_protocol;
      addr = p.endpoint;
    } in
    do_write_udp_packet (put_peer (record s { dev = dev }) i (after_initiation p)) packet

-- After the checks.
unfoldable pub start_handshake : Crypto → Processor → ℕ → Chance → Processor
unfolding write_initiation_packet
start_handshake c s i x =
    let s₁ = record s {
      stats = record (s.stats) { handshakes_out = s.stats.handshakes_out + 1 };
    } in
    write_initiation_packet s₁ i
      (create_message_handshake_initiation c s.dev i (s.peers i) x.random x.timestamp x.now x.draws)

-- WireguardProcessor::SendHandshakeInitiation
unfoldable pub send_handshake_initiation : Crypto → Processor → ℕ → Chance → Processor
unfolding start_handshake
send_handshake_initiation c s i x =
    let (p, allowed) = check_handshake_rate_limit (s.peers i) x.now in
    let s₁ = put_peer s i p in
    if allowed && has_family p.endpoint then start_handshake c s₁ i x else s₁

-- WireguardProcessor::HandleHandshakeInitiationPacket
unfoldable pub answer_initiation :
    Processor → Packet → Option (ℕ × WgDevice × WgPeer × Response) → Processor
answer_initiation s packet none = s
answer_initiation s packet (some (i, dev, p, m)) =
    do_write_udp_packet (put_peer (record s { dev = dev }) i p)
      (record packet { bytes = write_response m })

unfoldable pub handle_handshake_initiation_packet : Crypto → Processor → Packet → Chance → Processor
unfolding answer_initiation
handle_handshake_initiation_packet c s packet x = answer_initiation s packet (
    parse_message_handshake_initiation c s.dev s.peers (read_initiation packet.bytes) x.random
      (length packet.bytes) x.now x.draws)

-- WireguardProcessor::HandleHandshakeResponsePacket
unfoldable pub complete_peer : WgPeer → Packet → ℕ → WgPeer
complete_peer p packet now =
    let moved = record p { endpoint = packet.addr } in
    let p₁ = if p.allow_endpoint_change && has_family packet.addr then moved else p in
    on_handshake_fully_complete (on_handshake_auth_complete p₁) now

unfoldable pub complete_handshake :
    Env → Processor → Packet → ℕ → Option (ℕ × WgDevice × WgPeer) → Processor
unfolding complete_peer
complete_handshake env s packet now none = s
complete_handshake env s packet now (some (i, dev, p)) =
    let st = record (s.stats) { handshakes_out_success = s.stats.handshakes_out_success + 1 } in
    let s₁ = record s { dev = dev; stats = notify_handshake_complete st now } in
    send_keepalive_packet env (put_peer s₁ i (complete_peer p packet now)) i

unfoldable pub handle_handshake_response_packet :
    Crypto → Env → Processor → Packet → Chance → Processor
unfolding complete_handshake
handle_handshake_response_packet c env s packet x = complete_handshake env s packet x.now (
    parse_message_handshake_response c s.dev s.peers (read_response packet.bytes) packet.addr
      packet.protocol (length packet.bytes) x.now)

-- WireguardProcessor::HandleHandshakeCookiePacket
unfoldable pub put_cookie : Processor → Option (ℕ × WgPeer) → Processor
put_cookie s none = s
put_cookie s (some (i, p)) = put_peer s i p

unfoldable pub handle_handshake_cookie_packet : Crypto → Processor → Packet → Chance → Processor
unfolding put_cookie
handle_handshake_cookie_packet c s packet x =
    put_cookie s (parse_message_handshake_cookie c s.dev s.peers (read_cookie packet.bytes) x.now)

-- GetIpForRateLimit; 0 for an address without a family.
unfoldable pub get_ip_for_rate_limit : IpAddr → ℕ
get_ip_for_rate_limit unset = 0
get_ip_for_rate_limit (v4 a p) = a
get_ip_for_rate_limit (v6 a p) = a % 2 ^ 64

-- The second mac under load, from `rr.is_first_ip()` on: a cookie is the answer to a wrong one.
unfoldable pub demand_cookie : Crypto → Processor → Packet → Chance → Processor × Bool
demand_cookie c s packet x =
    let (dev, passes) = check_cookie_mac2 c s.dev packet x.secret x.now in
    let (dev', m) =
      create_cookie_message c dev packet (read_le (field 4 4 packet.bytes)) x.secret x.nonce
        x.now in
    if passes then (record s { dev = dev }, true) else (
      do_write_udp_packet (record s { dev = dev' }) (record packet { bytes = write_cookie m }),
      false,
    )

-- WireguardProcessor::CheckIncomingHandshakeRateLimit
unfoldable pub check_incoming_handshake_rate_limit :
    Crypto → Processor → Packet → Bool → Chance → Processor × Bool
unfolding demand_cookie
check_incoming_handshake_rate_limit c s packet overload x =
    let (limiter, rr) = check_rate_limit s.rate_limiter (get_ip_for_rate_limit packet.addr) in
    let s₁ = record s { rate_limiter = limiter } in
    let s₂ = record s { rate_limiter = commit_result limiter rr } in
    if (overload && not rr.is_ok) || not (check_cookie_mac1 c s.dev packet)
    then (s₁, false)
    else if overload && not (rr.new_value == 1)
    then demand_cookie c s₂ packet x
    else (s₂, true)
