-- ===== src/Processor/Counter.antt =====
-- The counters that WriteAndEncryptPacketToUdp puts on the wire.
use tun_safe.Base.{
  ℕ, ◌+◌, ◌^◌, ◌<◌, ◌≡◌, ◌∙◌, refl, sym, if-both, subst, dec_le, le→leb, lt→leb, zero, suc, Bool,
  true, false, some, List, [], ◌∷◌, ◌++◌, arith, length, drop, if◌then◌else◌, ◌==◌, ==_refl,
  replicate,
}
use tun_safe.Base.Bytes.{write_le, read_le-write_le}
use tun_safe.Peer.{WgPeer, Packet}
use tun_safe.Peer.Queue.{make_room, drop_first, add_packet_to_peer_queue}
use tun_safe.Peer.Timers.{on_keepalive_sent, on_data_sent}
use tun_safe.Processor.{
  Processor, Env, put_peer, reject_after_messages, schedule_new_handshake, do_write_udp_packet,
}
use tun_safe.Processor.Send.{
  message_data, padding, write_and_encrypt_packet_to_udp, write_all, transmit, encrypt_packet,
  write_with_key, queue_packet,
}
use tun_safe.Processor.Receive.{receiver_id, counter_of}

-- A message with a key id of 32 bits and a counter of 64 bits is read back: HandleDataPacket finds the
-- key id, the counter and the ciphertext.
pub message_data_lem :
    (id counter : ℕ) (text : List ℕ)
    → id < 2 ^ 32
    → counter < 2 ^ 64
    → let bytes = message_data id counter text in
      (receiver_id bytes ≡ id) × (counter_of bytes ≡ counter) × (drop 16 bytes ≡ text)
unfolding message_data write_le
message_data_lem id counter text hi hc = (
  unfold write_le in read_le-write_le 4 id hi,
  unfold write_le in read_le-write_le 8 counter hc,
  refl,
)

-- The counter of the current keypair, and what was sent.
abbrev ctr : Processor → ℕ → ℕ
ctr s k = (s.dev.keypairs k).send_ctr

-- From the count `c` to the count `d`, messages with the counters between were put before `old`,
-- one for each counter, in order.
pub data Sent (c : ℕ) (old : List Packet) : ℕ → List Packet → Type 0 where
  none_sent : Sent c old c old
  one_sent :
      (d : ℕ) (new : List Packet) (packet : Packet)
      → Sent c old d new
      → counter_of packet.bytes ≡ d
      → d < reject_after_messages
      → Sent c old (d + 1) (packet ∷ new)

Sent-trans :
    {c d : ℕ} {a b : List Packet} {e : ℕ} {l : List Packet}
    → Sent c a d b
    → Sent d b e l
    → Sent c a e l
Sent-trans s none_sent = s
Sent-trans s (one_sent d new packet t h small) = one_sent d new packet (Sent-trans s t) h small

-- What a step keeps for the next: the slot, and how the counter moved.
record Moved (s s' : Processor) (i k : ℕ) : Type 0 where
  same_slot : (s'.peers i).curr_keypair ≡ (s.peers i).curr_keypair
  same_id : (s'.dev.keypairs k).remote_key_id ≡ (s.dev.keypairs k).remote_key_id
  sent : Sent (ctr s k) s.udp (ctr s' k) s'.udp

module _ (s : Processor) (i : ℕ) where
  schedule_same :
      ((schedule_new_handshake s i).dev ≡ s.dev)
      × ((schedule_new_handshake s i).udp ≡ s.udp)
      × (((schedule_new_handshake s i).peers i).curr_keypair ≡ (s.peers i).curr_keypair)
  unfolding schedule_new_handshake
  schedule_same = ground (arith, ==_refl i)

schedule-Moved :
    (s t : Processor) (i k : ℕ) → Moved s t i k → Moved s (schedule_new_handshake t i) i k
schedule-Moved s t i k m =
    let (dev, udp, slot) = schedule_same t i in
    record {
      same_slot = slot ∙ m.same_slot;
      same_id = rw dev m.same_id;
      sent = rw (dev, udp) m.sent;
    }

Moved-refl : (s : Processor) (i k : ℕ) → Moved s s i k
Moved-refl s i k = record { same_slot = refl; same_id = refl; sent = none_sent }

Moved-trans : (s t u : Processor) (i k : ℕ) → Moved s t i k → Moved t u i k → Moved s u i k
Moved-trans s t u i k m n = record {
  same_slot = n.same_slot ∙ m.same_slot;
  same_id = n.same_id ∙ m.same_id;
  sent = Sent-trans m.sent n.sent;
}

-- A packet that is queued sends nothing.
put_same :
    (s : Processor) (i k : ℕ) (p : WgPeer)
    → p.curr_keypair ≡ (s.peers i).curr_keypair
    → Moved s (put_peer s i p) i k
put_same s i k p e = record { same_slot = rw (==_refl i) e; same_id = refl; sent = none_sent }

slot-make_room : (fuel : ℕ) (p : WgPeer) → (make_room fuel p).curr_keypair ≡ p.curr_keypair
unfolding make_room drop_first
slot-make_room zero p = refl
slot-make_room (suc fuel) p = ground (arith, slot-make_room fuel (drop_first p))

slot-add :
    (p : WgPeer) (packet : Packet)
    → (add_packet_to_peer_queue p packet).curr_keypair ≡ p.curr_keypair
unfolding add_packet_to_peer_queue
slot-add p packet = slot-make_room p.num_queued_packets p

queue-Moved : (s : Processor) (i k : ℕ) (packet : Packet) → Moved s (queue_packet s i packet) i k
unfolding queue_packet
queue-Moved s i k packet =
    let p = add_packet_to_peer_queue (s.peers i) packet in
    if-both (λ t. Moved s t i k) (s.peers i).marked_for_delete (Moved-refl s i k)
      (schedule-Moved s (put_peer s i p) i k (put_same s i k p (slot-add (s.peers i) packet)))

-- The slot stays through the timers.
slot-noted :
    (p : WgPeer) (b : Bool)
    → (if b then on_keepalive_sent p else on_data_sent p).curr_keypair ≡ p.curr_keypair
unfolding on_keepalive_sent on_data_sent
slot-noted p true = refl
slot-noted p false = refl

ctr-encrypt :
    (env : Env) (s : Processor) (i k : ℕ) (packet : Packet)
    → ctr (encrypt_packet env s i k packet) k ≡ ctr s k + 1
unfolding encrypt_packet do_write_udp_packet
ctr-encrypt env s i k packet = ground (arith, ==_refl k)

id-encrypt :
    (env : Env) (s : Processor) (i k : ℕ) (packet : Packet)
    → ((encrypt_packet env s i k packet).dev.keypairs k).remote_key_id
      ≡ (s.dev.keypairs k).remote_key_id
unfolding encrypt_packet do_write_udp_packet
id-encrypt env s i k packet = ground (arith, ==_refl k)

encrypt-Moved :
    (env : Env) (s : Processor) (i k : ℕ) (packet : Packet)
    → (s.dev.keypairs k).remote_key_id < 2 ^ 32
    → ctr s k < reject_after_messages
    → Moved s (encrypt_packet env s i k packet) i k
unfolding encrypt_packet do_write_udp_packet
encrypt-Moved env s i k packet id small =
    let kp = s.dev.keypairs k in
    let size = length packet.bytes in
    let text = env.encrypt kp kp.send_ctr (packet.bytes ++ replicate (padding s.mtu size) 0) in
    record {
      same_slot = rw (==_refl i) (slot-noted (s.peers i) (size == 0));
      same_id = id-encrypt env s i k packet;
      sent =
          subst (λ d. Sent kp.send_ctr s.udp d (encrypt_packet env s i k packet).udp)
            (sym (ctr-encrypt env s i k packet))
            (one_sent kp.send_ctr s.udp _ none_sent
              (message_data_lem kp.remote_key_id kp.send_ctr text id (omega arith)).1 small);
    }

transmit-Moved :
    (env : Env) (s : Processor) (i k : ℕ) (packet : Packet)
    → (s.dev.keypairs k).remote_key_id < 2 ^ 32
    → ctr s k < reject_after_messages
    → Moved s (transmit env s i k packet) i k
unfolding transmit
transmit-Moved env s i k packet id small =
    let t = encrypt_packet env s i k packet in
    let m = encrypt-Moved env s i k packet id small in
    if-both (λ u. Moved s u i k) _ (schedule-Moved s t i k m) m

write_with_key-Moved :
    (env : Env) (s : Processor) (i k : ℕ) (packet : Packet)
    → (s.dev.keypairs k).remote_key_id < 2 ^ 32
    → Moved s (write_with_key env s i packet (some k)) i k
unfolding write_with_key
write_with_key-Moved env s i k packet id = elim (dec_le reject_after_messages (ctr s k)) [
  | yes big ↦ rw (le→leb reject_after_messages (ctr s k) big) (queue-Moved s i k packet)
  | no small ↦
      rw (lt→leb reject_after_messages (ctr s k) (omega arith))
        (transmit-Moved env s i k packet id (omega arith))
]

write-Moved :
    (env : Env) (s : Processor) (i k : ℕ) (packet : Packet)
    → (s.peers i).curr_keypair ≡ some k
    → (s.dev.keypairs k).remote_key_id < 2 ^ 32
    → Moved s (write_and_encrypt_packet_to_udp env s i packet) i k
unfolding write_and_encrypt_packet_to_udp
write-Moved env s i k packet slot id =
    if-both (λ t. Moved s t i k) _ (Moved-refl s i k)
      (subst (λ o. Moved s (write_with_key env s i packet o) i k) (sym slot)
        (write_with_key-Moved env s i k packet id))

-- Whatever packets are written for a peer whose current keypair `k` has a remote key id of 32 bits,
-- the messages that go out have the counters from the keypair's send_ctr on, one for each and none
-- twice, all under REJECT_AFTER_MESSAGES, and send_ctr ends after the last of them.
pub write_all-Sent :
    (env : Env) (s : Processor) (i k : ℕ) (packets : List Packet)
    → (s.peers i).curr_keypair ≡ some k
    → (s.dev.keypairs k).remote_key_id < 2 ^ 32
    → let s' = write_all env s i packets in
      Sent (s.dev.keypairs k).send_ctr s.udp (s'.dev.keypairs k).send_ctr s'.udp
unfolding write_all
write_all-Sent env s i k [] slot id = none_sent
write_all-Sent env s i k (packet ∷ rest) slot id =
    let t = write_and_encrypt_packet_to_udp env s i packet in
    let m = write-Moved env s i k packet slot id in
    Sent-trans m.sent (
      write_all-Sent env t i k rest (m.same_slot ∙ slot)
        (subst (λ n. n < 2 ^ 32) (sym m.same_id) id))
