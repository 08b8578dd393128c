-- ===== src/Processor/RoundTrip.antt =====
-- A packet that enters one end of a tunnel leaves the other.
use tun_safe.Base.{
  ℕ, ◌^◌, ◌≤◌, ◌<◌, ◌≡◌, ◌∙◌, refl, sym, ap, subst, Bool, true, false, Option, some, List, [], ◌∷◌,
  ◌++◌, length, length-append, take, drop, replicate, arith,
}
use tun_safe.Base.Bytes.{write_le, read_le}
use tun_safe.Replay.{check_replay}
use tun_safe.Keys.{WgKeypair, IpAddr}
use tun_safe.Keys.Table.{lookup_keypair_by_key_id}
use tun_safe.Peer.{Packet}
use tun_safe.Handshake.{Crypto}
use tun_safe.Processor.{Processor, Env, route, source_route, reject_after_messages}
use tun_safe.Processor.Send.{message_data, padding, handle_tun_packet}
use tun_safe.Processor.Receive.{is_invalid, receiver_id, counter_of}
use tun_safe.Processor.Counter.{message_data_lem}
use tun_safe.Processor.Handshakes.{Chance}
use tun_safe.Processor.Main.{handle_udp_packet, udp_type, data_type, dispatch_udp}
use tun_safe.Processor.Transit.{source_route-append, take-append, route_not_bad}
use tun_safe.Handshake.Complete.{Mirror}
use tun_safe.Processor.Exchange.{arriving}
use tun_safe.Processor.Meeting.{counted}
use tun_safe.Processor.Tunnel.{
  CanSend, CanReceive, le→ltb, out, handle_tun_packet-sends, handle_data_packet-tun,
}

sized_data :
    (initialized : Bool) (bytes : List ℕ)
    → 16 ≤ length bytes
    → read_le (take 4 bytes) ≡ 4
    → udp_type initialized bytes ≡ data_type
unfolding udp_type
sized_data initialized bytes h t =
    let past_type = le→ltb (length bytes) 4 (omega arith) in
    let past_header = le→ltb (length bytes) 16 h in rw (past_type, t, past_header) refl

udp_type-message_data :
    (initialized : Bool) (id counter : ℕ) (text : List ℕ)
    → udp_type initialized (message_data id counter text) ≡ data_type
udp_type-message_data initialized id counter text =
    sized_data initialized (message_data id counter text)
      (unfold message_data in unfold write_le in omega arith)
      (unfold message_data in unfold write_le in unfold read_le in refl)

-- A packet with a route is not empty.
routed-nonempty :
    (env : Env) (bytes : List ℕ) (peer : Option ℕ) (size : ℕ)
    → source_route env bytes ≡ route peer size
    → 0 < length bytes
unfolding source_route
routed-nonempty env [] peer size h = absurd (route_not_bad peer size h)
routed-nonempty env (x ∷ rest) peer size h = omega arith

-- Decryption undoes encryption for two keypairs with the same key, cipher and size of a tag.
abbrev pub Undoes : Env → Env → Type 0
Undoes env_a env_b =
    (kp kp' : WgKeypair)
    → kp.send_key ≡ kp'.recv_key
    → kp.cipher_suite ≡ kp'.cipher_suite
    → kp.auth_tag_length ≡ kp'.auth_tag_length
    → (n : ℕ) (text : List ℕ) → env_b.decrypt kp' n (env_a.encrypt kp n text) ≡ some text

-- The receiver's side of a tunnel: its keypair `k'` of the peer `j` mirrors the sender's, is in the
-- table and valid, and has not seen the counter; the source address belongs to the peer.
pub record CanArrive (env : Env) (s : Processor) (kp : WgKeypair) (bytes : List ℕ) (k' j size : ℕ)
    : Type 0 where
  pub mirror : Mirror kp (s.dev.keypairs k')
  pub suite : kp.cipher_suite ≡ (s.dev.keypairs k').cipher_suite
  pub tag : kp.auth_tag_length ≡ (s.dev.keypairs k').auth_tag_length
  pub word : kp.remote_key_id < 2 ^ 32
  pub found : lookup_keypair_by_key_id s.dev (s.dev.keypairs k').local_key_id ≡ some k'
  pub owned : (s.dev.keypairs k').peer ≡ some j
  pub valid : is_invalid (s.dev.keypairs k').recv_key_state ≡ false
  pub fresh : (check_replay (s.dev.keypairs k').replay_detector kp.send_ctr).1 ≡ true
  pub from : source_route env bytes ≡ route (some j) size

-- A message that HandleUdpPacket can receive.
message-tun :
    (c : Crypto) (env : Env) (s : Processor) (id counter : ℕ) (sealed_text text : List ℕ)
    (k j size protocol : ℕ) (addr : IpAddr) (overload : Bool) (x : Chance)
    → id < 2 ^ 32
    → counter < reject_after_messages
    → CanReceive env s id counter sealed_text text k j
    → source_route env text ≡ route (some j) size
    → size ≤ length text
    → let packet : Packet = record {
      bytes = message_data id counter sealed_text;
      protocol = protocol;
      addr = addr;
    } in
      (handle_udp_packet c env s packet overload x).tun
      ≡ out (record packet { bytes = text }) size s
unfolding handle_udp_packet dispatch_udp
message-tun c env s id counter sealed_text text k j size protocol addr overload x word small can
      routed whole =
    let packet : Packet = record {
      bytes = message_data id counter sealed_text;
      protocol = protocol;
      addr = addr;
    } in
    let (same_id, same_counter, same_text) =
      message_data_lem id counter sealed_text word (omega arith) in
    let s₁ = counted s packet in
    let can' : CanReceive env s₁ (receiver_id packet.bytes) (counter_of packet.bytes)
        (drop 16 packet.bytes) text k j =
      rw (same_id, same_counter, same_text)
        (record {
          found = can.found;
          owned = can.owned;
          valid = can.valid;
          fresh = can.fresh;
          opened = can.opened;
        }) in
    ap (λ t. (dispatch_udp c env s₁ packet overload x t).tun)
      (udp_type-message_data s.dev.is_private_key_initialized id counter sealed_text)
    ∙ handle_data_packet-tun env s₁ k j x.now size packet text can'
        (subst (λ n. n < reject_after_messages) (sym same_counter) small) routed whole
        (routed-nonempty env text (some j) size routed)

-- A packet that is routed to a peer, whole by its IP header and not too large, when the peer has an
-- endpoint and a current keypair with a counter under REJECT_AFTER_MESSAGES, is sent in a message from
-- which another processor gets it back: when the keypair there mirrors the sender's, is in the table of
-- key ids, valid, owned by a peer that the source address is routed to, and has not seen the counter,
-- then HandleUdpPacket writes to its tunnel the packet as it went in, cut to the size in its IP header,
-- and nothing else. Decryption undoes encryption for keypairs with the same key, cipher and tag size,
-- and the remote key id has 32 bits.
pub handle_udp_packet-handle_tun_packet :
    (c : Crypto) (env_a env_b : Env) (a b : Processor) (answered overload : Bool) (packet : Packet)
    (i k k' j size protocol : ℕ) (addr : IpAddr) (x : Chance)
    → Undoes env_a env_b
    → CanSend env_a a answered packet i k size
    → CanArrive env_b b (a.dev.keypairs k) packet.bytes k' j size
    → let wire = (handle_tun_packet env_a a answered packet).udp in
      (handle_udp_packet c env_b b (arriving wire protocol addr) overload x).tun
      ≡ (record { bytes = take size packet.bytes; protocol = protocol; addr = addr } ∷ b.tun)
handle_udp_packet-handle_tun_packet c env_a env_b a b answered overload packet i k k' j size
      protocol addr x undoes send arrive =
    let kp = a.dev.keypairs k in
    let more : List ℕ = replicate (padding a.mtu (length packet.bytes)) 0 in
    let text = packet.bytes ++ more in
    let opened =
      undoes kp (b.dev.keypairs k') arrive.mirror.there arrive.suite arrive.tag kp.send_ctr text in
    let whole : size ≤ length text = omega (arith, send.whole, length-append packet.bytes more) in
    ap (λ l. (handle_udp_packet c env_b b (arriving l protocol addr) overload x).tun)
      (handle_tun_packet-sends env_a a answered packet i k size send)
    ∙ message-tun c env_b b kp.remote_key_id kp.send_ctr (env_a.encrypt kp kp.send_ctr text) text k'
        j size protocol addr overload x arrive.word send.counter
        (record {
          found = ap (lookup_keypair_by_key_id b.dev) arrive.mirror.id_there ∙ arrive.found;
          owned = arrive.owned;
          valid = arrive.valid;
          fresh = arrive.fresh;
          opened = opened;
        })
        (source_route-append env_b packet.bytes more (some j) size arrive.from) whole
    ∙ ap (λ l. record { bytes = l; protocol = protocol; addr = addr } ∷ b.tun)
        (take-append size packet.bytes more send.whole)
