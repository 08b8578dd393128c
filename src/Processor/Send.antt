-- ===== src/Processor/Send.antt =====
-- WriteAndEncryptPacketToUdp, HandleTunPacket, SendQueuedPackets and SendKeepalive.
use tun_safe.Base.{
  ℕ, ◌+◌, ◌-◌, ◌*◌, ◌/◌, ◌%◌, ◌^◌, min, Bool, true, false, not, ◌&&◌, ◌||◌, Option, none, some,
  List, [], ◌∷◌, ◌++◌, ltb, leb, ◌==◌, if◌then◌else◌, length, get_or, replicate,
}
use tun_safe.Base.Bytes.{write_le}
use tun_safe.Keys.{KeyState, key_want_refresh, put_keypair, update, has_family}
use tun_safe.Peer.{Packet}
use tun_safe.Peer.Queue.{add_packet_to_peer_queue, clear_packet_queue}
use tun_safe.Peer.Timers.{on_data_sent, on_keepalive_sent}
use tun_safe.Processor.{
  Processor, Env, Route, bad_header, route, put_peer, field_be, schedule_new_handshake,
  do_write_udp_packet, reject_after_messages, rekey_after_messages,
}

-- MessageData: the type, the receiver's key id and the counter, before the ciphertext.
unfoldable pub message_data : ℕ → ℕ → List ℕ → List ℕ
message_data receiver_id counter text =
    write_le 4 4 ++ (write_le 4 receiver_id ++ (write_le 8 counter ++ text))

-- The padding: up to a multiple of 16, but not over the MTU; unsigned arithmetic.
unfoldable pub padding : ℕ → ℕ → ℕ
padding mtu size =
    if size == 0 then 0 else min ((2 ^ 32 - size) % 16) ((mtu + 2 ^ 32 - size) % 2 ^ 32)

-- `send_key_state == KEY_WANT_REFRESH`
unfoldable pub wants_refresh : KeyState → Bool
wants_refresh key_want_refresh = true
wants_refresh _ = false

-- Without a usable keypair the packet waits for a handshake.
unfoldable pub queue_packet : Processor → ℕ → Packet → Processor
queue_packet s i packet =
    if (s.peers i).marked_for_delete
    then s
    else schedule_new_handshake (put_peer s i (add_packet_to_peer_queue (s.peers i) packet)) i

-- The message for a packet, with the keypair `k` and its counter.
unfoldable pub encrypt_packet : Env → Processor → ℕ → ℕ → Packet → Processor
unfolding padding message_data
encrypt_packet env s i k packet =
    let p = s.peers i in
    let kp = s.dev.keypairs k in
    let size = length packet.bytes in
    let padded = packet.bytes ++ replicate (padding s.mtu size) 0 in
    let bytes = message_data kp.remote_key_id kp.send_ctr (env.encrypt kp kp.send_ctr padded) in
    let noted = if size == 0 then on_keepalive_sent p else on_data_sent p in
    let st = s.stats in
    do_write_udp_packet
      (record s {
        stats = record st {
          tun_bytes_in = st.tun_bytes_in + size;
          tun_packets_in = st.tun_packets_in + 1;
        };
        dev = put_keypair s.dev k (record kp { send_ctr = kp.send_ctr + 1 });
        peers = update s.peers i (record noted { tx_bytes = p.tx_bytes + length bytes });
      })
      (record { bytes = bytes; protocol = p.endpoint_protocol; addr = p.endpoint })

-- The rest of the function, with `want_handshake` at its end.
unfoldable pub transmit : Env → Processor → ℕ → ℕ → Packet → Processor
unfolding encrypt_packet wants_refresh
transmit env s i k packet =
    let kp = s.dev.keypairs k in
    let sent = encrypt_packet env s i k packet in
    if leb rekey_after_messages kp.send_ctr || wants_refresh kp.send_key_state
    then schedule_new_handshake sent i
    else sent

unfoldable pub write_with_key : Env → Processor → ℕ → Packet → Option ℕ → Processor
unfolding transmit queue_packet
write_with_key env s i packet none = queue_packet s i packet
write_with_key env s i packet (some k) =
    if leb reject_after_messages (s.dev.keypairs k).send_ctr
    then queue_packet s i packet
    else transmit env s i k packet

-- WireguardProcessor::WriteAndEncryptPacketToUdp_WillUnlock for the peer `i`.
unfoldable pub write_and_encrypt_packet_to_udp : Env → Processor → ℕ → Packet → Processor
unfolding write_with_key
write_and_encrypt_packet_to_udp env s i packet =
    if not (has_family (s.peers i).endpoint)
      || ltb (env.packet_capacity - 15 - 16) (length packet.bytes)
    then s
    else write_with_key env s i packet (s.peers i).curr_keypair

-- The loop of SendQueuedPackets_Locked.
unfoldable pub write_all : Env → Processor → ℕ → List Packet → Processor
unfolding write_and_encrypt_packet_to_udp
write_all env s i [] = s
write_all env s i (packet ∷ rest) =
    write_all env (write_and_encrypt_packet_to_udp env s i packet) i rest

-- WireguardProcessor::SendQueuedPackets_Locked: the queue is emptied first.
unfoldable pub send_queued_packets : Env → Processor → ℕ → Processor
unfolding write_all
send_queued_packets env s i =
    let p = s.peers i in write_all env (put_peer s i (clear_packet_queue p)) i p.queued_packets

-- WireguardProcessor::SendKeepalive_Locked. The packet that it links in is not counted.
unfoldable pub send_keepalive_packet : Env → Processor → ℕ → Processor
unfolding send_queued_packets
send_keepalive_packet env s i =
    let p = s.peers i in
    if not (has_family p.endpoint) then s else elim p.queued_packets [
      | [] ↦
          let empty : Packet = record { bytes = []; protocol = 0; addr = p.endpoint } in
          send_queued_packets env (put_peer s i (record p { queued_packets = empty ∷ [] })) i
      | _ ∷ _ ↦ send_queued_packets env s i
    ]

-- HandleTunPacket up to the choice of the peer. `answered` is the result of
-- HandleIcmpv6NeighborSolicitation, which replies to the tunnel itself.
unfoldable pub destination_route : Env → Processor → Bool → List ℕ → Route
destination_route env s answered bytes =
    let version = get_or bytes 0 0 / 16 in
    let size = length bytes in
    let ip = field_be bytes 16 4 in
    let size_v4 = field_be bytes 2 2 in
    if ltb size 20
    then bad_header
    else if version == 4
    then elim (env.lookup_v4 ip) [
      | none ↦ bad_header
      | some i ↦
          let p = s.peers i in
          if (leb (224 * 2 ^ 24) ip || (ip == p.ipv4_broadcast_addr))
            && not p.allow_multicast_through_peer
          then bad_header
          else if ltb size_v4 20
          then bad_header
          else route (some i) size_v4
    ]
    else if version == 6
    then if ltb size 40
      then bad_header
      else if (get_or bytes 6 0 == 58) && answered
      then bad_header
      else elim (env.lookup_v6 (field_be bytes 24 16)) [
        | none ↦ bad_header
        | some i ↦
            if (get_or bytes 24 0 == 255) && not (s.peers i).allow_multicast_through_peer
            then bad_header
            else route (some i) (40 + field_be bytes 4 2)
      ]
    else bad_header

-- WireguardProcessor::HandleTunPacket
unfoldable pub handle_tun_packet : Env → Processor → Bool → Packet → Processor
unfolding destination_route write_and_encrypt_packet_to_udp
handle_tun_packet env s answered packet = elim (destination_route env s answered packet.bytes) [
  | bad_header ↦ s
  | route peer size ↦ elim peer [
    | none ↦ s
    | some i ↦
        if ltb (length packet.bytes) size then s else write_and_encrypt_packet_to_udp env s i packet
  ]
]
