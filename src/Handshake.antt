-- ===== src/Handshake.antt =====
-- The handshake of WireGuard (wireguard_proto.cpp): a Noise IK exchange of two messages, which
-- leaves a keypair on each side. The ciphers are parameters; handshake extensions are off.
pub mod Keypair
pub mod Initiator
pub mod Responder
pub mod Agree
pub mod Kept
pub mod Created
pub mod Complete
pub mod Accepted
pub mod Exchange
pub mod Config
pub mod SameDevice
pub mod Ready
pub mod Cookie
pub mod Macs
pub mod Retry
pub mod Answered
pub mod Once
pub mod Wire
pub mod OnWire
pub mod OnWireBack
pub mod Tests
use tun_safe.Base.{
  ℕ, ◌+◌, ◌-◌, ◌*◌, ◌%◌, ◌^◌, ◌≡◌, Bool, true, false, ◌&&◌, Option, none, some, List, [], ◌∷◌, ◌++◌,
  ltb, if◌then◌else◌, replicate, length,
}
use tun_safe.Base.Bytes.{write_le}
use tun_safe.Peer.{WgPeer}

-- What is called of crypto/: curve25519_donna (private key, public key) and curve25519_normalize,
-- blake2s (size of the result, text, key), blake2s_hkdf (data, key; three results, of which a null
-- pointer drops some), chacha20poly1305 (key, nonce, text, additional data), and its variant for
-- cookies with a nonce of bytes.
pub record Crypto : Type 0 where
  pub dh : List ℕ → List ℕ → List ℕ
  pub basepoint : List ℕ
  pub normalize : List ℕ → List ℕ
  pub blake2s : ℕ → List ℕ → List ℕ → List ℕ
  pub hkdf : List ℕ → List ℕ → List ℕ × List ℕ × List ℕ
  pub encrypt : List ℕ → ℕ → List ℕ → List ℕ → List ℕ
  pub decrypt : List ℕ → ℕ → List ℕ → List ℕ → Option (List ℕ)
  pub xencrypt : List ℕ → List ℕ → List ℕ → List ℕ → List ℕ
  pub xdecrypt : List ℕ → List ℕ → List ℕ → List ℕ → Option (List ℕ)

-- What the handshake relies on: the key exchange commutes, and decryption undoes encryption.
pub record Laws (c : Crypto) : Type 0 where
  pub dh_comm : (a b : List ℕ) → c.dh a (c.dh b c.basepoint) ≡ c.dh b (c.dh a c.basepoint)
  pub decrypt-encrypt :
      (k : List ℕ) (n : ℕ) (text ad : List ℕ) → c.decrypt k n (c.encrypt k n text ad) ad ≡ some text
  pub xdecrypt-xencrypt :
      (k n text ad : List ℕ) → c.xdecrypt k n (c.xencrypt k n text ad) ad ≡ some text

-- The result of blake2s has the size asked for.
abbrev pub IsSized : Crypto → Type 0
IsSized c = (n : ℕ) (text key : List ℕ) → length (c.blake2s n text key) ≡ n

abbrev pub min_handshake_interval_ms : ℕ
min_handshake_interval_ms = 20

abbrev pub cookie_secret_max_age_ms : ℕ
cookie_secret_max_age_ms = 120000

abbrev pub cookie_secret_latency_ms : ℕ
cookie_secret_latency_ms = 5000

-- kLabelCookie, kLabelMac1, kWgInitHash, kWgInitChainingKey
abbrev pub label_cookie : List ℕ
label_cookie = 99 ∷ 111 ∷ 111 ∷ 107 ∷ 105 ∷ 101 ∷ 45 ∷ 45 ∷ []

abbrev pub label_mac1 : List ℕ
label_mac1 = 109 ∷ 97 ∷ 99 ∷ 49 ∷ 45 ∷ 45 ∷ 45 ∷ 45 ∷ []

abbrev pub init_hash : List ℕ
init_hash =
    34 ∷ 17 ∷ 179 ∷ 97 ∷ 8 ∷ 26 ∷ 197 ∷ 102 ∷ 105 ∷ 18 ∷ 67 ∷ 219 ∷ 69 ∷ 138 ∷ 213 ∷ 50 ∷ 45 ∷ 156
    ∷ 108 ∷ 102 ∷ 34 ∷ 147 ∷ 232 ∷ 183 ∷ 14 ∷ 225 ∷ 156 ∷ 101 ∷ 186 ∷ 7 ∷ 158 ∷ 243 ∷ []

abbrev pub init_chaining_key : List ℕ
init_chaining_key =
    96 ∷ 226 ∷ 109 ∷ 174 ∷ 243 ∷ 39 ∷ 239 ∷ 192 ∷ 46 ∷ 195 ∷ 53 ∷ 226 ∷ 160 ∷ 37 ∷ 210 ∷ 208 ∷ 22
    ∷ 235 ∷ 66 ∷ 6 ∷ 248 ∷ 114 ∷ 119 ∷ 245 ∷ 45 ∷ 56 ∷ 209 ∷ 152 ∷ 139 ∷ 120 ∷ 205 ∷ 54 ∷ []

-- BlakeX2 and BlakeMix
abbrev pub blake_x2 : Crypto → ℕ → List ℕ → List ℕ → List ℕ
blake_x2 c size a b = c.blake2s size (a ++ b) []

abbrev pub blake_mix : Crypto → List ℕ → List ℕ → List ℕ
blake_mix c h a = blake_x2 c 32 h a

-- ComputeHKDF2DH: the chaining key and the key.
abbrev pub compute_hkdf2_dh : Crypto → List ℕ → List ℕ → List ℕ → List ℕ × List ℕ
compute_hkdf2_dh c ci priv pub_key = let (ci', k, _) = c.hkdf (c.dh priv pub_key) ci in (ci', k)

-- MessageHandshakeInitiation and MessageHandshakeResponse; the type is in the bytes.
pub record Initiation : Type 0 where
  pub sender_key_id : ℕ
  pub ephemeral : List ℕ
  pub static_enc : List ℕ
  pub timestamp_enc : List ℕ
  pub mac1 : List ℕ
  pub mac2 : List ℕ

pub record Response : Type 0 where
  pub sender_key_id : ℕ
  pub receiver_key_id : ℕ
  pub ephemeral : List ℕ
  pub empty_enc : List ℕ
  pub mac1 : List ℕ
  pub mac2 : List ℕ

-- The bytes before `mac`.
unfoldable pub initiation_bytes : Initiation → List ℕ
initiation_bytes m =
    write_le 4 1
    ++ (write_le 4 m.sender_key_id ++ (m.ephemeral ++ (m.static_enc ++ m.timestamp_enc)))

unfoldable pub response_bytes : Response → List ℕ
response_bytes m =
    write_le 4 2
    ++ (write_le 4 m.sender_key_id
        ++ (write_le 4 m.receiver_key_id ++ (m.ephemeral ++ m.empty_enc)))

-- WgPeer::WriteMacToPacket: the peer, mac1 and mac2 for the bytes before them.
unfoldable pub write_mac_to_packet : Crypto → WgPeer → ℕ → List ℕ → WgPeer × List ℕ × List ℕ
write_mac_to_packet c p now bytes =
    let mac1 = c.blake2s 16 bytes p.precomputed_mac1_key in
    let age = (now + 2 ^ 64 - p.mac2_cookie_timestamp) % 2 ^ 64 in
    let fresh = ltb age (cookie_secret_max_age_ms - cookie_secret_latency_ms) in
    let sent = record p { expect_cookie_reply = true; sent_mac1 = mac1 } in
    if p.has_mac2_cookie && fresh
    then (sent, mac1, c.blake2s 16 (bytes ++ mac1) p.mac2_cookie)
    else (record sent { has_mac2_cookie = false }, mac1, replicate 16 0)
