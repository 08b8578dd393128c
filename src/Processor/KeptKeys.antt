-- ===== src/Processor/KeptKeys.antt =====
-- Sending leaves the keys and the ids of all keypairs alone.
use tun_safe.Base.{
  ℕ, refl, sym, subst, not, Option, none, some, List, [], ◌∷◌, ◌==◌, ==_iff, if-both, Bool-cases,
  inl, inr, leb,
}
use tun_safe.Keys.{WgKeypair, update, has_family}
use tun_safe.Peer.{Packet}
use tun_safe.Peer.Queue.{clear_packet_queue}
use tun_safe.Handshake.Kept.{SameKeys, SameKeys-refl, SameKeys-trans}
use tun_safe.Processor.{
  Processor, Env, put_peer, schedule_new_handshake, do_write_udp_packet, reject_after_messages,
}
use tun_safe.Processor.Send.{
  encrypt_packet, transmit, queue_packet, write_with_key, write_and_encrypt_packet_to_udp,
  write_all, send_queued_packets, send_keepalive_packet,
}

-- From one state to the other, each keypair has the keys and ids that it had.
abbrev pub KeepsKeys : Processor → Processor → Type 0
KeepsKeys s t = (j : ℕ) → SameKeys (t.dev.keypairs j) (s.dev.keypairs j)

KeepsKeys-refl : (s : Processor) → KeepsKeys s s
KeepsKeys-refl s j = SameKeys-refl (s.dev.keypairs j)

KeepsKeys-trans : (s t u : Processor) → KeepsKeys s t → KeepsKeys t u → KeepsKeys s u
KeepsKeys-trans s t u h g j =
    SameKeys-trans (u.dev.keypairs j) (t.dev.keypairs j) (s.dev.keypairs j) (g j) (h j)

update-SameKeys :
    (f : ℕ → WgKeypair) (k : ℕ) (kp : WgKeypair) (j : ℕ)
    → SameKeys kp (f k)
    → SameKeys (update f k kp j) (f j)
update-SameKeys f k kp j h = elim (Bool-cases (j == k)) [
  | inl e ↦ rw e (subst (λ n. SameKeys kp (f n)) (sym ((==_iff j k).0 e)) h)
  | inr e ↦ rw e (SameKeys-refl (f j))
]

schedule-KeepsKeys : (s : Processor) (i : ℕ) → KeepsKeys s (schedule_new_handshake s i)
unfolding schedule_new_handshake
schedule-KeepsKeys s i =
    if-both (KeepsKeys s) ((s.peers i).main_thread_scheduled == 0) (KeepsKeys-refl s)
      (KeepsKeys-refl s)

module _ (env : Env) where
  encrypt-KeepsKeys :
      (s : Processor) (i k : ℕ) (packet : Packet) → KeepsKeys s (encrypt_packet env s i k packet)
  unfolding encrypt_packet do_write_udp_packet
  encrypt-KeepsKeys s i k packet j =
      update-SameKeys s.dev.keypairs k _ j
        (record { send_key = refl; recv_key = refl; local_key_id = refl; remote_key_id = refl })

  transmit-KeepsKeys :
      (s : Processor) (i k : ℕ) (packet : Packet) → KeepsKeys s (transmit env s i k packet)
  unfolding transmit
  transmit-KeepsKeys s i k packet =
      let t = encrypt_packet env s i k packet in
      let h = encrypt-KeepsKeys s i k packet in
      if-both (KeepsKeys s) _
        (KeepsKeys-trans s t (schedule_new_handshake t i) h (schedule-KeepsKeys t i)) h

  queue-KeepsKeys :
      (s : Processor) (i : ℕ) (packet : Packet) → KeepsKeys s (queue_packet s i packet)
  unfolding queue_packet
  queue-KeepsKeys s i packet =
      if-both (KeepsKeys s) _ (KeepsKeys-refl s) (schedule-KeepsKeys (put_peer s i _) i)

  key-KeepsKeys :
      (s : Processor) (i : ℕ) (packet : Packet) (slot : Option ℕ)
      → KeepsKeys s (write_with_key env s i packet slot)
  unfolding write_with_key
  key-KeepsKeys s i packet none = queue-KeepsKeys s i packet
  key-KeepsKeys s i packet (some k) =
      if-both (KeepsKeys s) (leb reject_after_messages (s.dev.keypairs k).send_ctr)
        (queue-KeepsKeys s i packet) (transmit-KeepsKeys s i k packet)

  write-KeepsKeys :
      (s : Processor) (i : ℕ) (packet : Packet)
      → KeepsKeys s (write_and_encrypt_packet_to_udp env s i packet)
  unfolding write_and_encrypt_packet_to_udp
  write-KeepsKeys s i packet =
      if-both (KeepsKeys s) _ (KeepsKeys-refl s) (key-KeepsKeys s i packet (s.peers i).curr_keypair)

  all-KeepsKeys :
      (s : Processor) (i : ℕ) (packets : List Packet) → KeepsKeys s (write_all env s i packets)
  unfolding write_all
  all-KeepsKeys s i [] = KeepsKeys-refl s
  all-KeepsKeys s i (packet ∷ rest) =
      let t = write_and_encrypt_packet_to_udp env s i packet in
      KeepsKeys-trans s t (write_all env t i rest) (write-KeepsKeys s i packet)
        (all-KeepsKeys t i rest)

  queued-KeepsKeys : (s : Processor) (i : ℕ) → KeepsKeys s (send_queued_packets env s i)
  unfolding send_queued_packets
  queued-KeepsKeys s i =
      all-KeepsKeys (put_peer s i (clear_packet_queue (s.peers i))) i (s.peers i).queued_packets

  pub keepalive-KeepsKeys : (s : Processor) (i : ℕ) → KeepsKeys s (send_keepalive_packet env s i)
  unfolding send_keepalive_packet
  keepalive-KeepsKeys s i =
      let p = s.peers i in
      let empty : Packet = record { bytes = []; protocol = 0; addr = p.endpoint } in
      let linked = put_peer s i (record p { queued_packets = empty ∷ [] }) in
      if-both (KeepsKeys s) (not (has_family p.endpoint))
        {y = elim p.queued_packets [
          | [] ↦ send_queued_packets env linked i
          | _ ∷ _ ↦ send_queued_packets env s i
        ]}
        (KeepsKeys-refl s)
        (elim p.queued_packets
          as (λ (l : List Packet). KeepsKeys s (elim l [
            | [] ↦ send_queued_packets env linked i
            | _ ∷ _ ↦ send_queued_packets env s i
          ])) [ [] ↦ queued-KeepsKeys linked i | _ ∷ _ ↦ queued-KeepsKeys s i ])
