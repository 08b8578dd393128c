-- ===== src/Processor.antt =====
-- WireguardProcessor (wireguard.h and wireguard.cpp): packets from the tunnel to the network and
-- back. The build is the default of tunsafe_config.h: no handshake extensions, no short headers and
-- no header obfuscation.
pub mod Send
pub mod Receive
pub mod Quiet
pub mod Deliver
pub mod Counter
pub mod Handshakes
pub mod Main
pub mod Admit
pub mod Limited
pub mod Sending
pub mod Start
pub mod Meeting
pub mod KeptKeys
pub mod Exchange
pub mod Mirrored
pub mod Transit
pub mod Tunnel
pub mod RoundTrip
pub mod Neighbor
pub mod Checksum
pub mod Advertised
pub mod Short
pub mod Tests
use tun_safe.Base.{
  ℕ, ◌+◌, ◌-◌, ◌*◌, ◌/◌, ◌%◌, ◌^◌, Bool, true, false, ◌&&◌, Option, none, some, List, [], ◌∷◌, ◌++◌,
  ◌==◌, if◌then◌else◌, length, take, drop, get_or, leb, bit_or,
}
use tun_safe.Base.Bytes.{read_be}
pub use tun_safe.Replay.{reject_after_messages}
use tun_safe.Keys.{WgDevice, WgKeypair, IpAddr, unset, v4, v6, update, put_keypair}
use tun_safe.Peer.{WgPeer, Packet}
use tun_safe.RateLimit.{WgRateLimit}

abbrev pub rekey_after_messages : ℕ
rekey_after_messages = 2 ^ 64 - 1 - 0xffff

-- WgProcessorStats, without the rates and the timestamps of the display.
pub record Stats : Type 0 where
  pub udp_bytes_in : ℕ
  pub udp_packets_in : ℕ
  pub udp_bytes_out : ℕ
  pub udp_packets_out : ℕ
  pub tun_bytes_in : ℕ
  pub tun_packets_in : ℕ
  pub tun_bytes_out : ℕ
  pub tun_packets_out : ℕ
  pub error_header : ℕ
  pub error_key_id : ℕ
  pub error_mac : ℕ
  pub error_duplicate : ℕ
  pub handshakes_in : ℕ
  pub handshakes_in_success : ℕ
  pub handshakes_out : ℕ
  pub handshakes_out_success : ℕ
  pub last_complete_handshake_timestamp : ℕ
  pub first_complete_handshake_timestamp : ℕ

-- The processor: `udp` and `tun` are what was written to the two interfaces, the latest first, and
-- `scheduled` is the list main_thread_scheduled_.
pub record Processor : Type 0 where
  pub dev : WgDevice
  pub peers : ℕ → WgPeer
  pub stats : Stats
  pub mtu : ℕ
  pub scheduled : List ℕ
  pub rate_limiter : WgRateLimit
  pub udp : List Packet
  pub tun : List Packet

-- What the processor calls: the two ciphers of wireguard_proto.cpp (key, counter and text), the
-- lookups of ip_to_peer_map.h, and kPacketCapacity, which depends on the size of a pointer.
pub record Env : Type 0 where
  pub encrypt : WgKeypair → ℕ → List ℕ → List ℕ
  pub decrypt : WgKeypair → ℕ → List ℕ → Option (List ℕ)
  pub lookup_v4 : ℕ → Option ℕ
  pub lookup_v6 : ℕ → Option ℕ
  pub packet_capacity : ℕ

abbrev pub put_peer : Processor → ℕ → WgPeer → Processor
put_peer s i p = record s { peers = update s.peers i p }

abbrev pub put_key : Processor → ℕ → WgKeypair → Processor
put_key s k kp = record s { dev = put_keypair s.dev k kp }

-- `CompareIpAddr(a, b) == 0`
unfoldable pub same_ip_addr : IpAddr → IpAddr → Bool
same_ip_addr unset unset = true
same_ip_addr (v4 a p) (v4 b q) = (a == b) && (p == q)
same_ip_addr (v6 a p) (v6 b q) = (a == b) && (p == q)
same_ip_addr _ _ = false

-- The bytes of a field as a big endian number: ReadBE16, ReadBE32 and an IPv6 address.
abbrev pub field_be : List ℕ → ℕ → ℕ → ℕ
field_be bytes from size = read_be 0 (take size (drop from bytes))

-- What an IP header says: the peer that an address belongs to, and the size of the packet.
pub data Route : Type 0 where
  bad_header : Route
  route : (peer : Option ℕ) (size : ℕ) → Route

-- The header of a decrypted packet, with the source address looked up.
unfoldable pub source_route : Env → List ℕ → Route
source_route env bytes =
    let version = get_or bytes 0 0 / 16 in
    let size = length bytes in
    let size_v4 = field_be bytes 2 2 in
    if version == 4
    then if leb 20 size
      then if leb 20 size_v4
        then route (env.lookup_v4 (field_be bytes 12 4)) size_v4
        else bad_header
      else bad_header
    else if version == 6
    then if leb 40 size
      then route (env.lookup_v6 (field_be bytes 8 16)) (40 + field_be bytes 4 2)
      else bad_header
    else bad_header

-- WgPeer::ScheduleNewHandshake: the bit is set, and the peer that had none joins the list.
unfoldable pub schedule_new_handshake : Processor → ℕ → Processor
schedule_new_handshake s i =
    let p = s.peers i in
    let marked =
      put_peer s i (record p { main_thread_scheduled = bit_or p.main_thread_scheduled 1 }) in
    if p.main_thread_scheduled == 0
    then record marked { scheduled = s.scheduled ++ (i ∷ []) }
    else marked

-- WireguardProcessor::DoWriteUdpPacket
unfoldable pub do_write_udp_packet : Processor → Packet → Processor
do_write_udp_packet s packet =
    let st = s.stats in
    record s {
      udp = packet ∷ s.udp;
      stats = record st {
        udp_packets_out = st.udp_packets_out + 1;
        udp_bytes_out = st.udp_bytes_out + length packet.bytes;
      };
    }
