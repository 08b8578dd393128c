-- ===== src/Processor/Start.antt =====
-- A packet for a peer without a key starts a handshake.
use tun_safe.Base.{
  ℕ, zero, suc, ◌+◌, ◌-◌, ◌%◌, ◌≡◌, ◌∙◌, refl, sym, ap, ap₂, subst, false, not, ◌||◌, none, List,
  [], ◌∷◌, ◌++◌, ◌==◌, ltb, if◌then◌else◌, length, ==_refl, bit_and, bit_or, leb, if-both,
}
use tun_safe.Keys.{update}
use tun_safe.Peer.{WgPeer, Packet}
use tun_safe.Peer.Queue.{make_room, drop_first, add_packet_to_peer_queue}
use tun_safe.Handshake.{Crypto}
use tun_safe.Processor.{Processor, Env, put_peer, schedule_new_handshake}
use tun_safe.Processor.Send.{queue_packet, write_with_key, write_and_encrypt_packet_to_udp}
use tun_safe.Processor.Handshakes.{Chance}
use tun_safe.Processor.Main.{run_all_main_thread_scheduled}
use tun_safe.Processor.Sending.{Started, to_endpoint, CanStart, run-Started}

-- Adding a packet changes only the queue.
pub record IsQueueOnly (p q : WgPeer) : Type 0 where
  pub packets : List Packet
  pub count : ℕ
  pub same : q ≡ record p { queued_packets = packets; num_queued_packets = count }

make_room-IsQueueOnly : (fuel : ℕ) (p : WgPeer) → IsQueueOnly p (make_room fuel p)
unfolding make_room drop_first
make_room-IsQueueOnly zero p = record {
  packets = p.queued_packets;
  count = p.num_queued_packets;
  same = refl;
}
make_room-IsQueueOnly (suc fuel) p =
    let r = make_room-IsQueueOnly fuel (drop_first p) in
    if-both (IsQueueOnly p) (leb 128 p.num_queued_packets)
      (record { packets = r.packets; count = r.count; same = r.same })
      (record { packets = p.queued_packets; count = p.num_queued_packets; same = refl })

add-IsQueueOnly : (p : WgPeer) (packet : Packet) → IsQueueOnly p (add_packet_to_peer_queue p packet)
unfolding add_packet_to_peer_queue
add-IsQueueOnly p packet =
    let r = make_room-IsQueueOnly p.num_queued_packets p in
    let q = make_room p.num_queued_packets p in
    record {
      packets = q.queued_packets ++ (packet ∷ []);
      count = (q.num_queued_packets + 1) % 256;
      same =
          ap
            (λ (y : WgPeer). record y {
              queued_packets = q.queued_packets ++ (packet ∷ []);
              num_queued_packets = (q.num_queued_packets + 1) % 256;
            })
            r.same;
    }

-- The peer is idle, and the packet fits.
pub record IsIdle (env : Env) (s : Processor) (i : ℕ) (packet : Packet) : Type 0 where
  pub no_key : (s.peers i).curr_keypair ≡ none
  pub fits : ltb (env.packet_capacity - 15 - 16) (length packet.bytes) ≡ false
  pub idle : (s.peers i).main_thread_scheduled ≡ 0
  pub none_scheduled : s.scheduled ≡ []
  pub alive : (s.peers i).marked_for_delete ≡ false

-- The state after the packet was queued: the peer `q` is the only one that is scheduled.
abbrev queued_state : Processor → ℕ → WgPeer → Processor
queued_state s i q = record (put_peer (put_peer s i q) i (record q { main_thread_scheduled = 1 })) {
  scheduled = i ∷ [];
}

scheduled_eq :
    (s : Processor) (i : ℕ) (q : WgPeer)
    → q.main_thread_scheduled ≡ 0
    → s.scheduled ≡ []
    → schedule_new_handshake (put_peer s i q) i ≡ queued_state s i q
unfolding schedule_new_handshake
scheduled_eq s i q idle none_scheduled =
    let here : update s.peers i q i ≡ q = rw (==_refl i) refl in
    let s₁ = put_peer s i q in
    ap
      (λ (y : WgPeer).
        if y.main_thread_scheduled == 0
        then record (put_peer s₁ i
            (record y { main_thread_scheduled = bit_or y.main_thread_scheduled 1 })) {
              scheduled = s.scheduled ++ (i ∷ []);
            }
        else put_peer s₁ i (record y { main_thread_scheduled = bit_or y.main_thread_scheduled 1 }))
      here
    ∙ ap₂
        (λ n l.
          if n == 0
          then record (put_peer s₁ i (record q { main_thread_scheduled = bit_or n 1 })) {
            scheduled = l ++ (i ∷ []);
          }
          else put_peer s₁ i (record q { main_thread_scheduled = bit_or n 1 }))
        idle none_scheduled

-- A packet that fits, for a peer with an endpoint and without a key that is not marked for
-- deletion, when no handshake is scheduled, makes the next run of RunAllMainThreadScheduled write
-- an initiation to the peer's endpoint, if the last one is REKEY_TIMEOUT_MS ago or more, the id of
-- an earlier handshake is in the table, and an id can be drawn.
pub write_packet-Started :
    (c : Crypto) (env : Env) (s : Processor) (i : ℕ) (packet : Packet) (x : ℕ → Chance)
    → IsIdle env s i packet
    → CanStart s.dev (s.peers i) (x i)
    → Started
        (s.peers i)
        s.udp
        (run_all_main_thread_scheduled c (write_and_encrypt_packet_to_udp env s i packet) x).udp
unfolding write_and_encrypt_packet_to_udp write_with_key queue_packet
write_packet-Started c env s i packet x h can =
    let p = s.peers i in
    let q = add_packet_to_peer_queue p packet in
    let r = add-IsQueueOnly p packet in
    let t = queued_state s i q in
    let waiting : WgPeer = record p {
      queued_packets = r.packets;
      num_queued_packets = r.count;
      main_thread_scheduled = 1;
    } in
    let queued : write_and_encrypt_packet_to_udp env s i packet ≡ t =
      ap₂ (λ a b. if not a || b then s else write_with_key env s i packet p.curr_keypair)
        can.endpoint h.fits
      ∙ ap (write_with_key env s i packet) h.no_key
      ∙ ap (λ b. if b then s else schedule_new_handshake (put_peer s i q) i) h.alive
      ∙ scheduled_eq s i q (ap (λ (y : WgPeer). y.main_thread_scheduled) r.same ∙ h.idle)
          h.none_scheduled in
    let here : t.peers i ≡ waiting =
      let first : t.peers i ≡ record q { main_thread_scheduled = 1 } = rw (==_refl i) refl in
      first ∙ ap (λ (y : WgPeer). record y { main_thread_scheduled = 1 }) r.same in
    let can_wait : CanStart s.dev waiting (x i) = record {
      endpoint = can.endpoint;
      allowed = can.allowed;
      known = can.known;
      free = can.free;
    } in
    let started =
      run-Started c t i x
        (record {
          listed = refl;
          wanted = ap (λ (y : WgPeer). bit_and y.main_thread_scheduled 1 == 0) here;
          alive = ap (λ (y : WgPeer). y.marked_for_delete) here ∙ h.alive;
        })
        (subst (λ y. CanStart s.dev y (x i)) (sym here) can_wait) in
    (
      started.0,
      ap (λ u. (run_all_main_thread_scheduled c u x).udp) queued
          ∙ started.1
          ∙ ap (λ (y : WgPeer). to_endpoint y started.0 ∷ s.udp) here,
    )
