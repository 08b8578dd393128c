-- ===== src/Keys.antt =====
-- Keypairs (WgKeypair), the key id table, and the three slots of a peer (curr, prev, next):
-- wireguard_proto.h and wireguard_proto.cpp. Keypairs are shared between the slots, the key id
-- table and the address entries, so they stand in a store, and a pointer is an index into it.
pub mod Table
pub mod AddrEntries
pub mod Ids
pub mod Tests
use tun_safe.Base.{
  ℕ, suc, ◌+◌, ◌-◌, ◌%◌, ◌^◌, ◌*◌, min, Bool, true, false, ◌&&◌, not, Option, none, some, List, [],
  ◌∷◌, ltb, leb, ◌==◌, if◌then◌else◌, get_or, set, replicate,
}
use tun_safe.Replay.{ReplayDetector}

abbrev pub rekey_timeout_ms : ℕ
rekey_timeout_ms = 5000

abbrev pub keepalive_timeout_ms : ℕ
keepalive_timeout_ms = 10000

abbrev pub rekey_after_time_ms : ℕ
rekey_after_time_ms = 120000

abbrev pub reject_after_time_ms : ℕ
reject_after_time_ms = 180000

pub data KeyState : Type 0 where
  key_invalid key_valid key_want_refresh key_did_refresh : KeyState

-- An endpoint: sin_family 0, AF_INET, AF_INET6. Addresses and ports are the stored numbers.
pub data IpAddr : Type 0 where
  unset : IpAddr
  v4 : ℕ → ℕ → IpAddr
  v6 : ℕ → ℕ → IpAddr

-- `endpoint_.sin.sin_family != 0`
abbrev pub has_family : IpAddr → Bool
has_family unset = false
has_family (v4 a p) = true
has_family (v6 a p) = true

pub record WgKeypair : Type 0 where
  pub peer : Option ℕ
  pub addr_entry : Option ℕ
  pub addr_entry_slot : ℕ
  pub is_initiator : Bool
  pub did_attempt_remember_ip_port : Bool
  pub enabled_features : List Bool
  pub broadcast_short_key : ℕ
  pub can_use_short_key_for_outgoing : ℕ
  pub recv_key_state : KeyState
  pub send_key_state : KeyState
  pub auth_tag_length : ℕ
  pub cipher_suite : ℕ
  pub local_key_id : ℕ
  pub remote_key_id : ℕ
  pub send_ack_ctr : ℕ
  pub key_timestamp : ℕ
  pub send_ctr_acked : ℕ
  pub incoming_packet_count : ℕ
  pub send_ctr : ℕ
  pub send_key : List ℕ
  pub recv_key : List ℕ
  pub replay_detector : ReplayDetector

-- A store, or a hash table, as a function; and a write to it.
abbrev pub update {ℓ} : {A : Type ℓ} → (ℕ → A) → ℕ → A → ℕ → A
update f k v j = if j == k then v else f j

-- The bytes of an address and port in the table of address entries: three words of IpPort.
pub record IpPort : Type 0 where
  pub low : ℕ
  pub high : ℕ
  pub tail : ℕ

abbrev pub ip_port_eq : IpPort → IpPort → Bool
ip_port_eq a b = (a.low == b.low) && ((a.high == b.high) && (a.tail == b.tail))

abbrev pub update_addr {ℓ} : {A : Type ℓ} → (IpPort → A) → IpPort → A → IpPort → A
update_addr f k v j = if ip_port_eq j k then v else f j

pub record WgAddrEntry : Type 0 where
  pub addr_entry_id : IpPort
  pub ref_count : ℕ
  pub next_slot : ℕ
  pub time_of_last_insertion : ℕ
  pub keys : List (Option ℕ)

-- What the keypairs share: their store, the store of address entries (`next_entry` is where the
-- next one goes), the two hash tables, and the objects handed to `delayed_delete_`.
pub record WgDevice : Type 0 where
  pub keypairs : ℕ → WgKeypair
  pub addr_entries : ℕ → WgAddrEntry
  pub next_entry : ℕ
  pub addr_entry_lookup : IpPort → Option ℕ
  pub key_id_lookup : ℕ → Option (ℕ × Option ℕ)
  pub next_keypair : ℕ
  pub peer_id_lookup : List ℕ → Option ℕ
  pub delayed_delete : List ℕ
  pub low_resolution_timestamp : ℕ
  pub is_private_key_initialized : Bool
  pub s_priv : List ℕ
  pub s_pub : List ℕ
  pub precomputed_mac1_key : List ℕ
  pub precomputed_cookie_key : List ℕ
  pub cookie_secret : List ℕ
  pub cookie_secret_timestamp : ℕ

abbrev pub put_keypair : WgDevice → ℕ → WgKeypair → WgDevice
put_keypair dev k kp = record dev { keypairs = update dev.keypairs k kp }
