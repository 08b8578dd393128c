-- ===== src/Processor/Quiet.antt =====
-- The steps of HandleDataPacket that write nothing to the tunnel.
use tun_safe.Base.{
  ℕ, ◌+◌, ◌≡◌, ◌∙◌, refl, inl, inr, Bool-cases, if-both, Bool, true, false, Option, none, some,
  List, [], ◌∷◌, arith,
}
use tun_safe.Keys.{WgDevice, key_did_refresh}
use tun_safe.Peer.{WgPeer, Packet}
use tun_safe.Peer.Slots.{check_switch_to_next_key}
use tun_safe.Peer.Queue.{clear_packet_queue}
use tun_safe.Processor.{
  Processor, Env, put_peer, put_key, schedule_new_handshake, do_write_udp_packet,
}
use tun_safe.Processor.Send.{
  write_and_encrypt_packet_to_udp, write_all, send_queued_packets, transmit, encrypt_packet,
  write_with_key, queue_packet, wants_refresh,
}
use tun_safe.Processor.Receive.{
  switched, after_switch, refresh_key, remember_endpoint, note_authenticated, promote,
  refresh_current,
}

tun-schedule : (s : Processor) (i : ℕ) → (schedule_new_handshake s i).tun ≡ s.tun
unfolding schedule_new_handshake
tun-schedule s i = ground arith

tun-queue : (s : Processor) (i : ℕ) (packet : Packet) → (queue_packet s i packet).tun ≡ s.tun
unfolding queue_packet
tun-queue s i packet = elim (Bool-cases (s.peers i).marked_for_delete) [
  | inl gone ↦ rw gone refl
  | inr alive ↦ rw alive (tun-schedule _ i)
]

tun-encrypt :
    (env : Env) (s : Processor) (i k : ℕ) (packet : Packet)
    → (encrypt_packet env s i k packet).tun ≡ s.tun
unfolding encrypt_packet do_write_udp_packet
tun-encrypt env s i k packet = refl

tun-transmit :
    (env : Env) (s : Processor) (i k : ℕ) (packet : Packet)
    → (transmit env s i k packet).tun ≡ s.tun
unfolding transmit
tun-transmit env s i k packet =
    let t = encrypt_packet env s i k packet in
    let same = tun-encrypt env s i k packet in
    if-both (λ (u : Processor). u.tun ≡ s.tun) _ (tun-schedule t i ∙ same) same

tun-write_with_key :
    (env : Env) (s : Processor) (i : ℕ) (packet : Packet) (slot : Option ℕ)
    → (write_with_key env s i packet slot).tun ≡ s.tun
unfolding write_with_key
tun-write_with_key env s i packet none = tun-queue s i packet
tun-write_with_key env s i packet (some k) =
    ground (arith, tun-queue s i packet, tun-transmit env s i k packet)

tun-write :
    (env : Env) (s : Processor) (i : ℕ) (packet : Packet)
    → (write_and_encrypt_packet_to_udp env s i packet).tun ≡ s.tun
unfolding write_and_encrypt_packet_to_udp
tun-write env s i packet =
    ground (arith, tun-write_with_key env s i packet (s.peers i).curr_keypair)

tun-write_all :
    (env : Env) (s : Processor) (i : ℕ) (packets : List Packet)
    → (write_all env s i packets).tun ≡ s.tun
unfolding write_all
tun-write_all env s i [] = refl
tun-write_all env s i (packet ∷ rest) =
    tun-write_all env (write_and_encrypt_packet_to_udp env s i packet) i rest
    ∙ tun-write env s i packet

tun-send_queued : (env : Env) (s : Processor) (i : ℕ) → (send_queued_packets env s i).tun ≡ s.tun
unfolding send_queued_packets
tun-send_queued env s i =
    let p = s.peers i in tun-write_all env (put_peer s i (clear_packet_queue p)) i p.queued_packets

tun-after :
    (s : Processor) (i now : ℕ) (dev : WgDevice) (p : WgPeer)
    → (after_switch s i now dev p).tun ≡ s.tun
unfolding after_switch
tun-after s i now dev p = refl

tun-switched :
    (env : Env) (s : Processor) (i now : ℕ) (result : WgDevice × WgPeer × Bool)
    → (switched env s i now result).tun ≡ s.tun
unfolding switched
tun-switched env s i now (dev, p, true) =
    tun-send_queued env (after_switch s i now dev p) i ∙ tun-after s i now dev p
tun-switched env s i now (dev, p, false) = refl

tun-promote : (env : Env) (s : Processor) (i k now : ℕ) → (promote env s i k now).tun ≡ s.tun
unfolding promote
tun-promote env s i k now = tun-switched env s i now (check_switch_to_next_key s.dev (s.peers i) k)

tun-refresh_key : (s : Processor) (i : ℕ) (slot : Option ℕ) → (refresh_key s i slot).tun ≡ s.tun
unfolding refresh_key
tun-refresh_key s i none = refl
tun-refresh_key s i (some c) = elim (Bool-cases (wants_refresh (s.dev.keypairs c).recv_key_state)) [
  | inl wants ↦ rw wants (
      tun-schedule (put_key s c (record (s.dev.keypairs c) { recv_key_state = key_did_refresh })) i)
  | inr calm ↦ rw calm refl
]

tun-refresh : (s : Processor) (i : ℕ) → (refresh_current s i).tun ≡ s.tun
unfolding refresh_current
tun-refresh s i = tun-refresh_key s i (s.peers i).curr_keypair

pub tun-note :
    (env : Env) (s : Processor) (i k now : ℕ) (packet : Packet)
    → (note_authenticated env s i k now packet).tun ≡ s.tun
unfolding note_authenticated
tun-note env s i k now packet =
    let kp = s.dev.keypairs k in
    let s₁ = put_peer s i (remember_endpoint (s.peers i) packet) in
    let s₂ = put_key s₁ k (record kp { incoming_packet_count = kp.incoming_packet_count + 1 }) in
    tun-refresh (promote env s₂ i k now) i ∙ tun-promote env s₂ i k now
