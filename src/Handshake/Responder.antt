-- ===== src/Handshake/Responder.antt =====
-- The responder: WgPeer::ParseMessageHandshakeInitiation, which also makes the answer.
use tun_safe.Base.{
  ℕ, ◌+◌, ◌%◌, ◌^◌, Bool, true, false, not, ◌&&◌, Option, none, some, List, [], ◌∷◌, if◌then◌else◌,
  ltb, ◌==◌,
}
use tun_safe.Keys.{WgDevice, put_keypair}
use tun_safe.Keys.Table.{insert_in_key_id_lookup}
use tun_safe.Peer.{WgPeer}
use tun_safe.Peer.Slots.{insert_keypair_in_peer}
use tun_safe.Peer.Timers.{on_handshake_auth_complete}
use tun_safe.Handshake.{
  Crypto, Initiation, Response, init_hash, init_chaining_key, blake_mix, compute_hkdf2_dh,
  response_bytes, write_mac_to_packet, min_handshake_interval_ms,
}
use tun_safe.Handshake.Keypair.{create_new_keypair, store_keypair}

-- The first half: the initiator's public key, with the hash and the chaining key after it.
pub record Opened : Type 0 where
  pub spubi : List ℕ
  pub hi : List ℕ
  pub ci : List ℕ

unfoldable pub open_static : Crypto → List ℕ → List ℕ → List ℕ → List ℕ → Option Opened
open_static c s_priv s_pub ephemeral static_enc =
    let hi₀ = blake_mix c init_hash s_pub in
    let (ci₀, _, _) = c.hkdf ephemeral init_chaining_key in
    let hi₁ = blake_mix c hi₀ ephemeral in
    let (ci₁, k₁) = compute_hkdf2_dh c ci₀ s_priv ephemeral in
    elim (c.decrypt k₁ 0 static_enc hi₁) [
      | none ↦ none
      | some spubi ↦ some (record { spubi = spubi; hi = blake_mix c hi₁ static_enc; ci = ci₁ })
    ]

-- The second half, with the peer's product of the static keys: the timestamp, the hash and the
-- chaining key.
unfoldable pub open_timestamp :
    Crypto → List ℕ → Opened → List ℕ → Option (List ℕ × List ℕ × List ℕ)
open_timestamp c s_priv_pub o timestamp_enc =
    let (ci₂, k₂, _) = c.hkdf s_priv_pub o.ci in
    elim (c.decrypt k₂ 0 timestamp_enc o.hi) [
      | none ↦ none
      | some timestamp ↦ some (timestamp, blake_mix c o.hi timestamp_enc, ci₂)
    ]

-- The answer: its two fields, and the chaining key.
pub record Answer : Type 0 where
  pub ephemeral : List ℕ
  pub empty_enc : List ℕ
  pub ci : List ℕ

unfoldable pub respond : Crypto → List ℕ → List ℕ → List ℕ → List ℕ → List ℕ → List ℕ → Answer
respond c hi ci e_priv e_remote s_remote preshared_key =
    let ephemeral = c.dh e_priv c.basepoint in
    let hi₁ = blake_mix c hi ephemeral in
    let (ci₁, _, _) = c.hkdf ephemeral ci in
    let (ci₂, _) = compute_hkdf2_dh c ci₁ e_priv e_remote in
    let (ci₃, _) = compute_hkdf2_dh c ci₂ e_priv s_remote in
    let (ci₄, t, k) = c.hkdf preshared_key ci₃ in
    record { ephemeral = ephemeral; empty_enc = c.encrypt k 0 [] (blake_mix c hi₁ t); ci = ci₄ }

-- `memcmp(a, b, n) > 0` for lists of one length.
unfoldable pub is_later : List ℕ → List ℕ → Bool
is_later [] b = false
is_later (x ∷ a) [] = true
is_later (x ∷ a) (y ∷ b) = let rest = is_later a b in if x == y then rest else ltb y x

-- "Replay attack?" and "Flood attack?": the timestamp must be later than the last, and the last
-- message MIN_HANDSHAKE_INTERVAL_MS ago.
unfoldable pub is_acceptable : WgPeer → List ℕ → ℕ → Bool
unfolding is_later
is_acceptable p timestamp now =
    is_later timestamp p.last_timestamp
    && not (ltb now ((p.last_handshake_init_recv_timestamp + min_handshake_interval_ms) % 2 ^ 64))

-- The keypair `k` with its id goes into the peer's slots, and the answer is made. 92 is the size of a
-- response, `size` that of the packet.
unfoldable pub answer_message :
    Crypto
    → WgDevice
    → ℕ
    → WgPeer
    → ℕ
    → ℕ
    → ℕ
    → List ℕ
    → Answer
    → ℕ
    → ℕ
    → WgDevice × WgPeer × Response
unfolding write_mac_to_packet
answer_message c dev self p k id remote_key_id timestamp a size now =
    let q = record p {
      last_handshake_init_recv_timestamp = now;
      last_timestamp = timestamp;
      rx_bytes = p.rx_bytes + size;
      tx_bytes = p.tx_bytes + 92;
    } in
    let (dev', q₁) = insert_keypair_in_peer dev self q k in
    let r : Response = record {
      sender_key_id = id;
      receiver_key_id = remote_key_id;
      ephemeral = a.ephemeral;
      empty_enc = a.empty_enc;
      mac1 = [];
      mac2 = [];
    } in
    let (q₂, mac1, mac2) =
      write_mac_to_packet c (on_handshake_auth_complete q₁) now (response_bytes r) in
    (dev', q₂, record r { mac1 = mac1; mac2 = mac2 })

-- From "Remember all the information" on: a new keypair gets an id.
unfoldable pub establish :
    Crypto
    → WgDevice
    → ℕ
    → WgPeer
    → Initiation
    → List ℕ
    → Answer
    → ℕ
    → ℕ
    → List ℕ
    → Option (WgDevice × WgPeer × Response)
unfolding create_new_keypair store_keypair answer_message
establish c dev self p m timestamp a size now draws =
    let kp = create_new_keypair c false a.ci m.sender_key_id now in
    let (dev₁, k) = store_keypair dev kp in
    elim (insert_in_key_id_lookup dev₁ self (some k) 0 draws) [
      | none ↦ none
      | some (id, dev₂) ↦ some (
          answer_message c (put_keypair dev₂ k (record kp { local_key_id = id })) self p k id
            m.sender_key_id timestamp a size now)
    ]

-- The checks of the second half, on the decrypted timestamp.
unfoldable pub check_timestamp :
    Crypto
    → WgDevice
    → ℕ
    → WgPeer
    → Initiation
    → List ℕ
    → ℕ
    → ℕ
    → List ℕ
    → Option (List ℕ × List ℕ × List ℕ)
    → Option (WgDevice × WgPeer × Response)
unfolding respond is_acceptable establish
check_timestamp c dev self p m random size now draws none = none
check_timestamp c dev self p m random size now draws (some (timestamp, hi, ci)) =
    let a = respond c hi ci (c.normalize random) m.ephemeral p.s_remote p.preshared_key in
    if is_acceptable p timestamp now
    then establish c dev self p m timestamp a size now draws
    else none

-- The second half, for the peer that the public key belongs to.
unfoldable pub check_peer :
    Crypto
    → WgDevice
    → (ℕ → WgPeer)
    → Initiation
    → List ℕ
    → ℕ
    → ℕ
    → List ℕ
    → Opened
    → Option ℕ
    → Option (ℕ × WgDevice × WgPeer × Response)
unfolding open_timestamp check_timestamp
check_peer c dev peers m random size now draws o none = none
check_peer c dev peers m random size now draws o (some self) =
    let p = peers self in
    elim (check_timestamp c dev self p m random size now draws
      (open_timestamp c p.s_priv_pub o m.timestamp_enc)) [
        | none ↦ none
        | some (dev', q, r) ↦ some (self, dev', q, r)
      ]

unfoldable pub check_static :
    Crypto
    → WgDevice
    → (ℕ → WgPeer)
    → Initiation
    → List ℕ
    → ℕ
    → ℕ
    → List ℕ
    → Option Opened
    → Option (ℕ × WgDevice × WgPeer × Response)
unfolding check_peer
check_static c dev peers m random size now draws none = none
check_static c dev peers m random size now draws (some o) =
    check_peer c dev peers m random size now draws o (dev.peer_id_lookup o.spubi)

-- WgPeer::ParseMessageHandshakeInitiation without a delegate: the peer and the new state, with the
-- answer; none where the code returns NULL and changes nothing, and where more numbers are wanted for
-- the key id.
unfoldable pub parse_message_handshake_initiation :
    Crypto
    → WgDevice
    → (ℕ → WgPeer)
    → Initiation
    → List ℕ
    → ℕ
    → ℕ
    → List ℕ
    → Option (ℕ × WgDevice × WgPeer × Response)
unfolding open_static check_static
parse_message_handshake_initiation c dev peers m random size now draws =
    check_static c dev peers m random size now draws
      (open_static c dev.s_priv dev.s_pub m.ephemeral m.static_enc)
