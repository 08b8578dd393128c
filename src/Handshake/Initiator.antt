-- ===== src/Handshake/Initiator.antt =====
-- The initiator: WgPeer::CreateMessageHandshakeInitiation and ParseMessageHandshakeResponse.
use tun_safe.Base.{ℕ, ◌+◌, true, Option, none, some, List, [], if◌then◌else◌}
use tun_safe.Keys.{WgDevice, IpAddr, update}
use tun_safe.Keys.Table.{insert_in_key_id_lookup, lookup_peer_in_key_id_lookup}
use tun_safe.Peer.{WgPeer, HandshakeState}
use tun_safe.Peer.Slots.{insert_keypair_in_peer}
use tun_safe.Handshake.{
  Crypto, Initiation, Response, init_hash, init_chaining_key, blake_mix, compute_hkdf2_dh,
  initiation_bytes, write_mac_to_packet,
}
use tun_safe.Handshake.Keypair.{create_new_keypair, store_keypair}

-- The first message before its key id and macs, and the state that waits for the answer.
pub record Opening : Type 0 where
  pub hs : HandshakeState
  pub ephemeral : List ℕ
  pub static_enc : List ℕ
  pub timestamp_enc : List ℕ

-- From "Ci := HASH(CONSTRUCTION)" to the last BlakeMix; the two public keys, the product of the
-- static keys, the private ephemeral key and the timestamp are the arguments.
unfoldable pub initiate : Crypto → List ℕ → List ℕ → List ℕ → List ℕ → List ℕ → Opening
initiate c s_pub s_remote s_priv_pub e_priv timestamp =
    let hi₀ = blake_mix c init_hash s_remote in
    let ephemeral = c.dh e_priv c.basepoint in
    let (ci₀, _, _) = c.hkdf ephemeral init_chaining_key in
    let hi₁ = blake_mix c hi₀ ephemeral in
    let (ci₁, k₁) = compute_hkdf2_dh c ci₀ e_priv s_remote in
    let static_enc = c.encrypt k₁ 0 s_pub hi₁ in
    let hi₂ = blake_mix c hi₁ static_enc in
    let (ci₂, k₂, _) = c.hkdf s_priv_pub ci₁ in
    let timestamp_enc = c.encrypt k₂ 0 timestamp hi₂ in
    record {
      hs = record { hi = blake_mix c hi₂ timestamp_enc; ci = ci₂; e_priv = e_priv };
      ephemeral = ephemeral;
      static_enc = static_enc;
      timestamp_enc = timestamp_enc;
    }

-- The peer that waits with the key id `id`, and its message.
unfoldable pub initiation_message : Crypto → WgPeer → Opening → ℕ → ℕ → WgPeer × Initiation
unfolding write_mac_to_packet
initiation_message c p o id now =
    let m : Initiation = record {
      sender_key_id = id;
      ephemeral = o.ephemeral;
      static_enc = o.static_enc;
      timestamp_enc = o.timestamp_enc;
      mac1 = [];
      mac2 = [];
    } in
    let q = record p { hs = o.hs; local_key_id_during_hs = id } in
    let (q', mac1, mac2) = write_mac_to_packet c q now (initiation_bytes m) in
    (q', record m { mac1 = mac1; mac2 = mac2 })

-- WgPeer::CreateMessageHandshakeInitiation for the peer `self`. The random bytes, the TAI64N
-- timestamp, the time and the numbers drawn for the key id are arguments; the result is none when
-- more numbers are wanted.
unfoldable pub create_message_handshake_initiation :
    Crypto
    → WgDevice
    → ℕ
    → WgPeer
    → List ℕ
    → List ℕ
    → ℕ
    → List ℕ
    → Option (WgDevice × WgPeer × Initiation)
unfolding initiate initiation_message
create_message_handshake_initiation c dev self p random timestamp now draws =
    let o = initiate c dev.s_pub p.s_remote p.s_priv_pub (c.normalize random) timestamp in
    elim (insert_in_key_id_lookup dev self none p.local_key_id_during_hs draws) [
      | none ↦ none
      | some (id, dev') ↦ let (q, m) = initiation_message c p o id now in some (dev', q, m)
    ]

-- The answer's part of the exchange: the chaining key, where the answer is authentic.
unfoldable pub finish :
    Crypto → HandshakeState → List ℕ → List ℕ → List ℕ → List ℕ → Option (List ℕ)
finish c hs s_priv preshared_key ephemeral empty_enc =
    let hi₁ = blake_mix c hs.hi ephemeral in
    let (ci₁, _, _) = c.hkdf ephemeral hs.ci in
    let (ci₂, _) = compute_hkdf2_dh c ci₁ hs.e_priv ephemeral in
    let (ci₃, _) = compute_hkdf2_dh c ci₂ s_priv ephemeral in
    let (ci₄, t, k) = c.hkdf preshared_key ci₃ in
    elim (c.decrypt k 0 empty_enc (blake_mix c hi₁ t)) [ none ↦ none | some _ ↦ some ci₄ ]

-- The rest of ParseMessageHandshakeResponse: the keypair takes over the id of the handshake.
unfoldable pub take_response :
    Crypto → WgDevice → ℕ → WgPeer → Response → List ℕ → IpAddr → ℕ → ℕ → ℕ → WgDevice × WgPeer
unfolding create_new_keypair store_keypair
take_response c dev self p m ci addr protocol size now =
    let id = p.local_key_id_during_hs in
    let kp = create_new_keypair c true ci m.sender_key_id now in
    let (dev₁, k) = store_keypair dev (record kp { local_key_id = id }) in
    let dev₂ = record dev₁ {
      key_id_lookup = update dev₁.key_id_lookup m.receiver_key_id (some (self, some k));
    } in
    let q = record p { local_key_id_during_hs = 0; rx_bytes = p.rx_bytes + size } in
    let q' =
      if p.allow_endpoint_change
      then record q { endpoint = addr; endpoint_protocol = protocol }
      else q in
    insert_keypair_in_peer dev₂ self q' k

unfoldable pub check_empty :
    Crypto
    → WgDevice
    → ℕ
    → WgPeer
    → Response
    → IpAddr
    → ℕ
    → ℕ
    → ℕ
    → Option (List ℕ)
    → Option (ℕ × WgDevice × WgPeer)
unfolding take_response
check_empty c dev self p m addr protocol size now none = none
check_empty c dev self p m addr protocol size now (some ci) =
    let (dev', q) = take_response c dev self p m ci addr protocol size now in some (self, dev', q)

unfoldable pub check_receiver :
    Crypto
    → WgDevice
    → (ℕ → WgPeer)
    → Response
    → IpAddr
    → ℕ
    → ℕ
    → ℕ
    → Option ℕ
    → Option (ℕ × WgDevice × WgPeer)
unfolding finish check_empty
check_receiver c dev peers m addr protocol size now none = none
check_receiver c dev peers m addr protocol size now (some self) =
    let p = peers self in
    check_empty c dev self p m addr protocol size now
      (finish c p.hs dev.s_priv p.preshared_key m.ephemeral m.empty_enc)

-- WgPeer::ParseMessageHandshakeResponse: the peer, with the new state; none where the code
-- returns NULL and changes nothing.
unfoldable pub parse_message_handshake_response :
    Crypto
    → WgDevice
    → (ℕ → WgPeer)
    → Response
    → IpAddr
    → ℕ
    → ℕ
    → ℕ
    → Option (ℕ × WgDevice × WgPeer)
unfolding check_receiver
parse_message_handshake_response c dev peers m addr protocol size now =
    check_receiver c dev peers m addr protocol size now
      (lookup_peer_in_key_id_lookup dev m.receiver_key_id)
