-- ===== src/Processor/Tunnel.antt =====
-- The two ends of a tunnel: what the one sends for a packet, and what the other makes of the message.
use tun_safe.Base.{
  ℕ, ◌+◌, ◌-◌, ◌≤◌, ◌<◌, ◌≡◌, ◌∙◌, refl, ap, Bool, true, false, ◌==◌, ==_refl, ltb, lt→leb, some,
  List, ◌∷◌, ◌++◌, length, take, drop, replicate, arith, if-both,
}
use tun_safe.Replay.{check_replay}
use tun_safe.Keys.{has_family}
use tun_safe.Keys.Table.{lookup_keypair_by_key_id}
use tun_safe.Peer.{Packet}
use tun_safe.Peer.Slots.{is_slot}
use tun_safe.Processor.{
  Processor, Env, route, source_route, put_peer, put_key, reject_after_messages,
  do_write_udp_packet, schedule_new_handshake,
}
use tun_safe.Processor.Send.{
  message_data, padding, destination_route, handle_tun_packet, write_and_encrypt_packet_to_udp,
  write_with_key, transmit, encrypt_packet,
}
use tun_safe.Processor.Receive.{
  handle_data_packet, check_key_id, check_mac, decrypted, accept, is_invalid, find_keypair,
  handle_authenticated_data_packet, note_authenticated, deliver, deliver_route, receiver_id,
  counter_of,
}
use tun_safe.Processor.Quiet.{tun-note}
use tun_safe.Processor.Deliver.{data_eq}

-- The message of a packet, under the keypair `k` of the sender.
abbrev pub sealed : Env → Processor → ℕ → List ℕ → List ℕ
sealed env s k bytes =
    let kp = s.dev.keypairs k in
    message_data kp.remote_key_id kp.send_ctr
      (env.encrypt kp kp.send_ctr (bytes ++ replicate (padding s.mtu (length bytes)) 0))

-- A packet that can be sent: it is routed to the peer `i`, whose current keypair `k` may be used.
pub record CanSend (env : Env) (s : Processor) (answered : Bool) (packet : Packet) (i k size : ℕ)
    : Type 0 where
  pub routed : destination_route env s answered packet.bytes ≡ route (some i) size
  pub whole : size ≤ length packet.bytes
  pub endpoint : has_family (s.peers i).endpoint ≡ true
  pub room : length packet.bytes ≤ env.packet_capacity - 15 - 16
  pub current : (s.peers i).curr_keypair ≡ some k
  pub counter : (s.dev.keypairs k).send_ctr < reject_after_messages

udp-schedule : (s : Processor) (i : ℕ) → (schedule_new_handshake s i).udp ≡ s.udp
unfolding schedule_new_handshake
udp-schedule s i = ground arith

-- The packet with the message, to the endpoint of the peer.
abbrev pub sent : Env → Processor → ℕ → ℕ → Packet → Packet
sent env s i k packet = record {
  bytes = sealed env s k packet.bytes;
  protocol = (s.peers i).endpoint_protocol;
  addr = (s.peers i).endpoint;
}

udp-transmit :
    (env : Env) (s : Processor) (i k : ℕ) (packet : Packet)
    → (transmit env s i k packet).udp ≡ (sent env s i k packet ∷ s.udp)
unfolding transmit encrypt_packet do_write_udp_packet
udp-transmit env s i k packet =
    let t = encrypt_packet env s i k packet in
    if-both (λ (v : Processor). v.udp ≡ (sent env s i k packet ∷ s.udp)) _
      {x = schedule_new_handshake t i} {y = t} (udp-schedule t i) refl

pub le→ltb : (a b : ℕ) → b ≤ a → ltb a b ≡ false
le→ltb a b h = ground arith

-- What HandleTunPacket sends.
pub handle_tun_packet-sends :
    (env : Env) (s : Processor) (answered : Bool) (packet : Packet) (i k size : ℕ)
    → CanSend env s answered packet i k size
    → (handle_tun_packet env s answered packet).udp ≡ (sent env s i k packet ∷ s.udp)
unfolding handle_tun_packet write_and_encrypt_packet_to_udp write_with_key
handle_tun_packet-sends env s answered packet i k size can =
    let n = length packet.bytes in
    let fits : ltb n size ≡ false = le→ltb n size can.whole in
    let room : ltb (env.packet_capacity - 15 - 16) n ≡ false =
      le→ltb (env.packet_capacity - 15 - 16) n can.room in
    let small = lt→leb reject_after_messages (s.dev.keypairs k).send_ctr can.counter in
    rw (can.routed, handle_tun_packet)
      (rw (fits, can.endpoint, room, can.current, small) (udp-transmit env s i k packet))

-- A message that can be received: it is for the keypair `k` of the peer `j`, which decrypts it to
-- `text`, with a counter that the keypair has not seen.
pub record CanReceive (env : Env) (s : Processor) (id counter : ℕ) (sealed_text text : List ℕ)
    (k j : ℕ) : Type 0 where
  pub found : lookup_keypair_by_key_id s.dev id ≡ some k
  pub owned : (s.dev.keypairs k).peer ≡ some j
  pub valid : is_invalid (s.dev.keypairs k).recv_key_state ≡ false
  pub fresh : (check_replay (s.dev.keypairs k).replay_detector counter).1 ≡ true
  pub opened : env.decrypt (s.dev.keypairs k) counter sealed_text ≡ some text

-- The end of the path: the text goes to the tunnel, cut to its size.
deliver_route-tun :
    (s : Processor) (j size : ℕ) (packet : Packet)
    → size ≤ length packet.bytes
    → (deliver_route s j packet (route (some j) size)).tun
      ≡ (record packet { bytes = take size packet.bytes } ∷ s.tun)
unfolding deliver_route is_slot
deliver_route-tun s j size packet whole =
    let fits : ltb (length packet.bytes) size ≡ false = le→ltb (length packet.bytes) size whole in
    rw (==_refl j, fits) refl

deliver-tun :
    (env : Env) (s : Processor) (j size : ℕ) (packet : Packet)
    → source_route env packet.bytes ≡ route (some j) size
    → size ≤ length packet.bytes
    → (deliver env s j packet).tun ≡ (record packet { bytes = take size packet.bytes } ∷ s.tun)
unfolding deliver
deliver-tun env s j size packet routed whole =
    ap (λ r. (deliver_route s j packet r).tun) routed ∙ deliver_route-tun s j size packet whole

nonzero : (n : ℕ) → 0 < n → (n == 0) ≡ false
nonzero n h = ground arith

-- What the packet is to be, and the tunnel that gets it.
abbrev pub out : Packet → ℕ → Processor → List Packet
out packet size s = record packet { bytes = take size packet.bytes } ∷ s.tun

authenticated-tun :
    (env : Env) (s : Processor) (j k now size : ℕ) (packet : Packet)
    → source_route env packet.bytes ≡ route (some j) size
    → size ≤ length packet.bytes
    → 0 < length packet.bytes
    → (handle_authenticated_data_packet env s j k now packet).tun ≡ out packet size s
authenticated-tun env s j k now size packet routed whole some_bytes =
    let t = note_authenticated env s j k now packet in
    ap (λ (v : Processor). v.tun)
      (data_eq env s j k now packet (nonzero (length packet.bytes) some_bytes))
    ∙ deliver-tun env t j size packet routed whole
    ∙ ap (λ l. record packet { bytes = take size packet.bytes } ∷ l) (tun-note env s j k now packet)

accept-tun :
    (env : Env) (s : Processor) (j k now counter data_size size : ℕ) (packet : Packet)
    → is_invalid (s.dev.keypairs k).recv_key_state ≡ false
    → (check_replay (s.dev.keypairs k).replay_detector counter).1 ≡ true
    → source_route env packet.bytes ≡ route (some j) size
    → size ≤ length packet.bytes
    → 0 < length packet.bytes
    → (accept env s j k now counter data_size packet).tun ≡ out packet size s
unfolding accept
accept-tun env s j k now counter data_size size packet valid fresh routed whole some_bytes =
    let kp = s.dev.keypairs k in
    let p = s.peers j in
    let s₁ = put_peer s j (record p { rx_bytes = p.rx_bytes + data_size }) in
    let s₂ =
      put_key s₁ k (record kp { replay_detector = (check_replay kp.replay_detector counter).0 }) in
    rw (valid, fresh) (authenticated-tun env s₂ j k now size packet routed whole some_bytes)

module _ (env : Env) (s : Processor) (k j now size : ℕ) (packet : Packet) (text : List ℕ) where
  -- HandleDataPacket for a message that can be received.
  pub handle_data_packet-tun :
      CanReceive env s
        (receiver_id packet.bytes)
        (counter_of packet.bytes)
        (drop 16 packet.bytes)
        text
        k
        j
      → counter_of packet.bytes < reject_after_messages
      → source_route env text ≡ route (some j) size
      → size ≤ length text
      → 0 < length text
      → (handle_data_packet env s now packet).tun ≡ out (record packet { bytes = text }) size s
  unfolding handle_data_packet check_key_id check_mac decrypted find_keypair
  handle_data_packet-tun can small routed whole some_bytes =
      let counter = counter_of packet.bytes in
      let found : find_keypair s packet.bytes ≡ some k =
        rw (lt→leb reject_after_messages counter small) can.found in
      ap (λ o. (check_key_id env s now packet o).tun) found
      ∙ ap (λ o. (check_mac env s k now packet o).tun) can.opened
      ∙ ap (λ o. (decrypted env s k o now packet text).tun) can.owned
      ∙ accept-tun env s j k now counter (length packet.bytes) size (record packet { bytes = text })
          can.valid can.fresh routed whole some_bytes
