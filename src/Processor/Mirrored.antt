-- ===== src/Processor/Mirrored.antt =====
-- The handshake of Processor/Exchange ends with keypairs that mirror each other.
use tun_safe.Base.{
  ℕ, ◌^◌, ◌≡◌, ◌∙◌, refl, sym, ap, ap₂, subst, true, false, some, none, ◌∷◌, length, if-both,
}
use tun_safe.Keys.{WgDevice, WgKeypair, has_family, update}
use tun_safe.Peer.{WgPeer, Packet}
use tun_safe.Peer.Timers.{on_handshake_init_sent}
use tun_safe.Keys.Table.{insert_in_key_id_lookup}
use tun_safe.Handshake.{Crypto, Laws, Initiation, Response}
use tun_safe.Handshake.Kept.{SameKeys}
use tun_safe.Handshake.Keypair.{create_new_keypair, store_keypair}
use tun_safe.Handshake.Initiator.{
  Opening, initiate, initiation_message, create_message_handshake_initiation,
  parse_message_handshake_response,
}
use tun_safe.Handshake.Responder.{Answer}
use tun_safe.Handshake.Complete.{Mirror, reply}
use tun_safe.Handshake.Cookie.{check_cookie_mac1}
use tun_safe.Handshake.Wire.{IsInitiationSized, IsResponseSized}
use tun_safe.Handshake.Exchange.{IsUnderWay, under_way, Waits, IsEnded}
use tun_safe.Handshake.OnWire.{
  Sizes, inserted_id-lt, inserted-keys, create-some, initiation-IsInitiationSized, initiate-sizes,
  initiation-mac1,
}
use tun_safe.Handshake.OnWireBack.{
  establish-some, answer-IsResponseSized, respond-sizes, answer-mac1,
}
use tun_safe.Processor.{Processor, Env}
use tun_safe.Processor.Handshakes.{complete_handshake, after_initiation}
use tun_safe.Processor.Main.{handle_udp_packet}
use tun_safe.Processor.Meeting.{
  initiation_packet, response_packet, send_initiation_lem, handle_initiation_lem,
  handle_response_lem,
}
use tun_safe.Processor.KeptKeys.{keepalive-KeepsKeys}
use tun_safe.Processor.Exchange.{
  Meeting, CanMeet, initiated, answered, finished, arriving, exchange, exchange-CanComplete,
  checked, checked_lem, checked_here,
}

-- After the message was sent, the peer waits as before.
after_initiation-Waits : (p : WgPeer) → Waits (after_initiation p) p
unfolding after_initiation on_handshake_init_sent
after_initiation-Waits p =
    if-both (λ q. Waits q p) _
      (record { hs = refl; psk = refl; waiting = refl; curr = refl; prev = refl; next = refl })
      (record { hs = refl; psk = refl; waiting = refl; curr = refl; prev = refl; next = refl })

-- The keepalive that ends the handshake leaves the keypairs.
complete-keys :
    (env : Env) (s : Processor) (packet : Packet) (now i : ℕ) (dev : WgDevice) (p : WgPeer) (j : ℕ)
    → SameKeys
        ((complete_handshake env s packet now (some (i, dev, p))).dev.keypairs j)
        (dev.keypairs j)
unfolding complete_handshake
complete-keys env s packet now i dev p j = keepalive-KeepsKeys env _ i j

Mirror-left : (a a' b : WgKeypair) → SameKeys a' a → Mirror a b → Mirror a' b
Mirror-left a a' b s m = record {
  there = s.send_key ∙ m.there;
  back = s.recv_key ∙ m.back;
  id_there = s.remote_key_id ∙ m.id_there;
  id_back = m.id_back ∙ sym s.local_key_id;
}

module _ (c : Crypto) (laws : Laws c) (sizes : Sizes c) (x : Meeting) (can : CanMeet c x) where
  u : IsUnderWay c (exchange x)
  u = under_way c laws (exchange x) (exchange-CanComplete c x can)

  abbrev waiting : WgPeer
  waiting = update x.a.peers x.i (checked x) x.i

  abbrev opened : Opening
  opened =
      initiate c x.a.dev.s_pub waiting.s_remote waiting.s_priv_pub (c.normalize x.start.random)
        x.start.timestamp

  -- The initiation with its id.
  made :
      (id : ℕ) × (insert_in_key_id_lookup x.a.dev x.i none waiting.local_key_id_during_hs
          x.start.draws
        ≡ some (id, u.dev_i₁))
      × (initiation_message c waiting opened id x.start.now ≡ (u.peer_i₁, u.initiation))
  made =
      create-some c x.a.dev x.i waiting x.start.random x.start.timestamp x.start.now x.start.draws
        u.dev_i₁ u.peer_i₁ u.initiation u.created

  message : (initiation_message c waiting opened made.0 x.start.now).1 ≡ u.initiation
  message = ap (λ (t : WgPeer × Initiation). t.1) made.2

  initiation_sized : IsInitiationSized u.initiation
  initiation_sized =
      let point = ap length can.initiator.s_pub ∙ sizes.point x.s_i c.basepoint in
      let (he, hs, ht) =
        initiate-sizes c sizes x.a.dev.s_pub waiting.s_remote waiting.s_priv_pub
          (c.normalize x.start.random) x.start.timestamp point can.timestamp in
      subst IsInitiationSized message (
        initiation-IsInitiationSized c sizes waiting opened made.0 x.start.now
          (inserted_id-lt (2 ^ 32) x.a.dev x.i none waiting.local_key_id_during_hs x.start.draws
            made.0 u.dev_i₁ can.words_i made.1)
          he hs ht)

  initiation_mac :
      check_cookie_mac1 c x.b.dev (initiation_packet u.initiation x.protocol_a x.addr_a) ≡ true
  initiation_mac =
      subst (λ m. check_cookie_mac1 c x.b.dev (initiation_packet m x.protocol_a x.addr_a) ≡ true)
        message
        (initiation-mac1 c sizes x.b.dev waiting opened made.0 x.start.now x.protocol_a x.addr_a
          (ap (λ (p : WgPeer). p.precomputed_mac1_key) (checked_here x) ∙ can.mac_there))

  -- The first step.
  sent :
      let t = initiated c x in
      (t.dev ≡ u.dev_i₁)
      × (t.peers ≡ update (update x.a.peers x.i (checked x)) x.i (after_initiation u.peer_i₁))
      × (t.udp ≡ (
          initiation_packet u.initiation u.peer_i₁.endpoint_protocol u.peer_i₁.endpoint ∷ x.a.udp))
  sent =
      let same = checked_lem (x.a.peers x.i) x.start.now can.allowed in
      let (dev, peers, udp) =
        send_initiation_lem c x.a x.i x.start u.dev_i₁ u.peer_i₁ u.initiation can.allowed
          (ap (λ (p : WgPeer). has_family p.endpoint) same ∙ can.family)
          (ap
              (λ p.
                create_message_handshake_initiation c x.a.dev x.i (update x.a.peers x.i p x.i)
                  x.start.random x.start.timestamp x.start.now x.start.draws)
              same
            ∙ u.created) in
      (
        dev,
        peers ∙ ap (λ p. update (update x.a.peers x.i p) x.i (after_initiation u.peer_i₁)) same,
        udp,
      )

  -- The second step.
  replied :
      let t = answered c x in
      (t.dev ≡ u.dev_r₁) × (t.udp ≡ (response_packet u.response x.protocol_a x.addr_a ∷ x.b.udp))
  replied =
      let packet = initiation_packet u.initiation x.protocol_a x.addr_a in
      let here : answered c x ≡ handle_udp_packet c x.env_b x.b packet false x.answer =
        ap (λ l. handle_udp_packet c x.env_b x.b (arriving l x.protocol_a x.addr_a) false x.answer)
          sent.2 in
      let (dev, udp) =
        handle_initiation_lem c x.env_b x.b x.answer x.protocol_a x.addr_a can.keyed_b u.initiation
          x.r u.dev_r₁ u.peer_r₁ u.response initiation_sized initiation_mac u.parsed in
      (ap (λ (t : Processor). t.dev) here ∙ dev, ap (λ (t : Processor). t.udp) here ∙ udp)

  -- The device of the initiator in between.
  same_keys :
      let dev = (initiated c x).dev in
      (dev.is_private_key_initialized ≡ true)
      × (dev.precomputed_mac1_key ≡ x.a.dev.precomputed_mac1_key)
  same_keys =
      let (initialized, mac1) =
        inserted-keys x.a.dev x.i none waiting.local_key_id_during_hs x.start.draws made.0 u.dev_i₁
          made.1 in
      (
        ap (λ (d : WgDevice). d.is_private_key_initialized) sent.0 ∙ initialized ∙ can.keyed_a,
        ap (λ (d : WgDevice). d.precomputed_mac1_key) sent.0 ∙ mac1,
      )

  abbrev answer : Answer
  answer =
      reply c x.s_i x.s_r (c.normalize x.start.random) (c.normalize x.answer.random)
        x.start.timestamp (x.b.peers x.r).preshared_key

  response_lem :
      IsResponseSized u.response
      × (check_cookie_mac1 c (initiated c x).dev (response_packet u.response x.protocol_b x.addr_b)
          ≡ true)
  response_lem =
      let p = x.b.peers x.r in
      let kp = create_new_keypair c false answer.ci u.initiation.sender_key_id x.answer.now in
      let stored = store_keypair x.b.dev kp in
      let (id, dev, inserted, eq) =
        establish-some c x.b.dev x.r p u.initiation x.start.timestamp answer 148 x.answer.now
          x.answer.draws u.dev_r₁ u.peer_r₁ u.response u.answer in
      let id_small =
        inserted_id-lt (2 ^ 32) stored.0 x.r (some stored.1) 0 x.answer.draws id dev can.words_r
          inserted in
      let (he, hm) = respond-sizes c sizes _ _ _ _ _ _ in
      let same = ap (λ (t : WgDevice × WgPeer × Response). t.2) eq in
      (
        subst IsResponseSized same (
            answer-IsResponseSized c sizes _ x.r p _ id u.initiation.sender_key_id x.start.timestamp
              answer 148 x.answer.now id_small initiation_sized.sender_key_id he hm),
        subst
            (λ m.
              check_cookie_mac1 c (initiated c x).dev (response_packet m x.protocol_b x.addr_b)
              ≡ true)
            same
            (answer-mac1 c sizes _ (initiated c x).dev x.r p _ id u.initiation.sender_key_id
              x.start.timestamp answer 148 x.answer.now x.protocol_b x.addr_b
              (can.mac_back ∙ sym same_keys.1)),
      )

  ended : IsEnded (exchange x) c u.dev_i₁ u.dev_r₁ u.response (after_initiation u.peer_i₁)
  ended = u.ends (after_initiation u.peer_i₁) (after_initiation-Waits u.peer_i₁)

  parsed :
      parse_message_handshake_response c
        (initiated c x).dev
        (initiated c x).peers
        u.response
        x.addr_b
        x.protocol_b
        92
        x.ending.now
      ≡ some (x.i, ended.dev_i₂, ended.peer_i₂)
  parsed =
      ap₂
        (λ d l.
          parse_message_handshake_response c d l u.response x.addr_b x.protocol_b 92 x.ending.now)
        sent.0 sent.1
      ∙ ended.completed

  -- The third step.
  final_keys : (j : ℕ) → SameKeys ((finished c x).dev.keypairs j) (ended.dev_i₂.keypairs j)
  final_keys j =
      let t = initiated c x in
      let packet = response_packet u.response x.protocol_b x.addr_b in
      let here : finished c x ≡ handle_udp_packet c x.env_a t packet false x.ending =
        ap (λ l. handle_udp_packet c x.env_a t (arriving l x.protocol_b x.addr_b) false x.ending)
          replied.1 in
      let done =
        handle_response_lem c x.env_a t x.ending x.protocol_b x.addr_b same_keys.0 u.response x.i
          ended.dev_i₂ ended.peer_i₂ response_lem.0 response_lem.1 parsed in
      subst (λ (s : Processor). SameKeys (s.dev.keypairs j) (ended.dev_i₂.keypairs j))
        (sym (here ∙ done))
        (complete-keys x.env_a _ packet x.ending.now x.i ended.dev_i₂ ended.peer_i₂ j)

-- When two processors are configured for each other with private keys and one preshared key, the
-- initiator may send and has an endpoint, the timestamp has 12 bytes and is acceptable, the ids drawn
-- have 32 bits and one is free on each side, and no slot holds the index of the next keypair, then
-- after three steps the two sides have new keypairs of which each sends with the key, and to
-- the key id, that the other receives with: the initiator sends its packet, the responder handles the
-- bytes of it, and the initiator handles those of the answer. Neither side is overloaded, the key exchange
-- commutes, decryption undoes encryption, and the results of the ciphers have their sizes.
pub finished-Mirror :
    (c : Crypto)
    → Laws c
    → Sizes c
    → (x : Meeting) → CanMeet c x
    → Mirror
        ((finished c x).dev.keypairs x.a.dev.next_keypair)
        ((answered c x).dev.keypairs x.b.dev.next_keypair)
finished-Mirror c laws sizes x can =
    let e = ended c laws sizes x can in
    subst
      (λ (d : WgDevice).
        Mirror ((finished c x).dev.keypairs x.a.dev.next_keypair) (d.keypairs x.b.dev.next_keypair))
      (sym (replied c laws sizes x can).0)
      (Mirror-left (e.dev_i₂.keypairs x.a.dev.next_keypair)
        ((finished c x).dev.keypairs x.a.dev.next_keypair)
        ((u c laws sizes x can).dev_r₁.keypairs x.b.dev.next_keypair)
        (final_keys c laws sizes x can x.a.dev.next_keypair) e.mirror)
