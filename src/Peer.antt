-- ===== src/Peer.antt =====
-- WgPeer (wireguard_proto.h and wireguard_proto.cpp): one remote end of the tunnel, with its three
-- keypair slots, its timers and its queue of packets.
pub mod Slots
pub mod Queue
pub mod Timers
pub mod Check
pub mod Events
pub mod Delete
pub mod Aging
pub mod Settled
pub mod Safety
pub mod Rate
pub mod Bounds
pub mod Flags
pub mod Steps
pub mod Actions
pub mod Tests
use tun_safe.Base.{
  ℕ, ◌+◌, ◌-◌, ◌*◌, ◌%◌, ◌^◌, Bool, true, false, not, ◌&&◌, ◌||◌, Option, none, some, List, [], ◌∷◌,
  ◌++◌, ltb, ◌==◌, if◌then◌else◌, length, set, replicate,
}
use tun_safe.Keys.{IpAddr, unset, rekey_timeout_ms}

-- A packet: the bytes from `data` on, `size` of them, and where it is from or goes to.
pub record Packet : Type 0 where
  pub bytes : List ℕ
  pub protocol : ℕ
  pub addr : IpAddr

-- WgCidrAddr: the address, big endian, as a number of `size` bits.
pub record WgCidrAddr : Type 0 where
  pub addr : ℕ
  pub size : ℕ
  pub cidr : ℕ

-- WgPeer::HandshakeState: the hash, the chaining key and the private ephemeral key.
pub record HandshakeState : Type 0 where
  pub hi : List ℕ
  pub ci : List ℕ
  pub e_priv : List ℕ

pub record WgPeer : Type 0 where
  pub curr_keypair : Option ℕ
  pub prev_keypair : Option ℕ
  pub next_keypair : Option ℕ
  pub time_of_next_key_event : ℕ
  pub timers : ℕ
  pub timer_value : List ℕ
  pub local_key_id_during_hs : ℕ
  pub main_thread_scheduled : ℕ
  pub ipv4_broadcast_addr : ℕ
  pub supports_handshake_extensions : Bool
  pub pending_keepalive : Bool
  pub allow_endpoint_change : Bool
  pub expect_cookie_reply : Bool
  pub allow_multicast_through_peer : Bool
  pub has_mac2_cookie : Bool
  pub marked_for_delete : Bool
  pub handshake_attempts : ℕ
  pub endpoint_protocol : ℕ
  pub features : List ℕ
  pub num_queued_packets : ℕ
  pub queued_packets : List Packet
  pub endpoint : IpAddr
  pub last_handshake_init_timestamp : ℕ
  pub last_complete_handshake_timestamp : ℕ
  pub last_handshake_init_recv_timestamp : ℕ
  pub total_handshake_attempts : ℕ
  pub cipher_prio : ℕ
  pub ciphers : List ℕ
  pub rx_bytes : ℕ
  pub tx_bytes : ℕ
  pub s_remote : List ℕ
  pub preshared_key : List ℕ
  pub last_timestamp : List ℕ
  pub hs : HandshakeState
  pub s_priv_pub : List ℕ
  pub precomputed_cookie_key : List ℕ
  pub precomputed_mac1_key : List ℕ
  pub sent_mac1 : List ℕ
  pub mac2_cookie : List ℕ
  pub mac2_cookie_timestamp : ℕ
  pub persistent_keepalive_ms : ℕ
  pub allowed_ips : List WgCidrAddr

-- The constructor WgPeer::WgPeer. What it leaves unset is 0 here.
abbrev pub new_peer : WgPeer
new_peer = record {
  curr_keypair = none;
  prev_keypair = none;
  next_keypair = none;
  time_of_next_key_event = 0;
  timers = 0;
  timer_value = replicate 5 0;
  local_key_id_during_hs = 0;
  main_thread_scheduled = 0;
  ipv4_broadcast_addr = 0xffff_ffff;
  supports_handshake_extensions = true;
  pending_keepalive = false;
  allow_endpoint_change = true;
  expect_cookie_reply = false;
  allow_multicast_through_peer = false;
  has_mac2_cookie = false;
  marked_for_delete = false;
  handshake_attempts = 0;
  endpoint_protocol = 0;
  features = replicate 6 0;
  num_queued_packets = 0;
  queued_packets = [];
  endpoint = unset;
  last_handshake_init_timestamp = 2 ^ 64 - 1000000;
  last_complete_handshake_timestamp = 0;
  last_handshake_init_recv_timestamp = 0;
  total_handshake_attempts = 0;
  cipher_prio = 0;
  ciphers = [];
  rx_bytes = 0;
  tx_bytes = 0;
  s_remote = replicate 32 0;
  preshared_key = replicate 32 0;
  last_timestamp = replicate 12 0;
  hs = record { hi = replicate 32 0; ci = replicate 32 0; e_priv = replicate 32 0 };
  s_priv_pub = replicate 32 0;
  precomputed_cookie_key = replicate 32 0;
  precomputed_mac1_key = replicate 32 0;
  sent_mac1 = replicate 16 0;
  mac2_cookie = replicate 16 0;
  mac2_cookie_timestamp = 0;
  persistent_keepalive_ms = 0;
  allowed_ips = [];
}

-- WgPeer::SetPersistentKeepalive for a number of seconds that is not negative.
unfoldable pub set_persistent_keepalive : WgPeer → ℕ → Option WgPeer
set_persistent_keepalive p secs =
    if ltb 65535 secs then none else some (record p { persistent_keepalive_ms = secs * 1000 })

-- WgPeer::CheckHandshakeRateLimit: REKEY_TIMEOUT_MS between two handshakes; uint64 difference.
unfoldable pub check_handshake_rate_limit : WgPeer → ℕ → WgPeer × Bool
check_handshake_rate_limit p now =
    if ltb ((now + 2 ^ 64 - p.last_handshake_init_timestamp) % 2 ^ 64) rekey_timeout_ms
    then (p, false)
    else (record p { last_handshake_init_timestamp = now }, true)

-- WgPeer::AddCipher; the flag is whether the machine has AES instructions.
unfoldable pub add_cipher : Bool → WgPeer → ℕ → WgPeer × Bool
add_cipher aes p cipher =
    if length p.ciphers == 4
    then (p, false)
    else if (cipher == 1 || cipher == 2) && not aes
    then (p, true)
    else (record p { ciphers = p.ciphers ++ (cipher ∷ []) }, true)

-- WgPeer::SetFeature
unfoldable pub set_feature : WgPeer → ℕ → ℕ → WgPeer
set_feature p feature value = record p { features = set p.features feature value }
