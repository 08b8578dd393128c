-- ===== src/Processor/Sending.antt =====
-- A scheduled handshake is sent.
use tun_safe.Base.{
  ℕ, ◌+◌, ◌-◌, ◌%◌, ◌^◌, ◌≤◌, ◌≡◌, ◌∙◌, refl, sym, ap, ap₂, subst, Bool, true, false, ◌&&◌, List,
  [], ◌∷◌, ◌==◌, if◌then◌else◌, arith, ==_refl, bit_and,
}
use tun_safe.Keys.{WgDevice, has_family}
use tun_safe.Keys.Ids.{HasFree}
use tun_safe.Peer.{WgPeer, Packet, check_handshake_rate_limit}
use tun_safe.Handshake.{Crypto, Initiation}
use tun_safe.Handshake.Created.{IsKnown, create-IsCreated}
use tun_safe.Handshake.Wire.{write_initiation}
use tun_safe.Processor.{Processor, put_peer, do_write_udp_packet}
use tun_safe.Processor.Handshakes.{
  Chance, write_initiation_packet, start_handshake, send_handshake_initiation,
}
use tun_safe.Processor.Main.{run_scheduled, run_each, run_all_main_thread_scheduled}

-- The packet that carries an initiation to the peer's endpoint.
abbrev pub to_endpoint : WgPeer → Initiation → Packet
to_endpoint p m = record {
  bytes = write_initiation m;
  protocol = p.endpoint_protocol;
  addr = p.endpoint;
}

-- One more packet was written: an initiation for the endpoint of the peer.
abbrev pub Started : WgPeer → List Packet → List Packet → Type 0
Started p before after = (m : Initiation) × (after ≡ to_endpoint p m ∷ before)

start-Started :
    (c : Crypto) (s : Processor) (i : ℕ) (x : Chance)
    → IsKnown s.dev (s.peers i).local_key_id_during_hs
    → HasFree s.dev x.draws
    → Started (s.peers i) s.udp (start_handshake c s i x).udp
unfolding start_handshake write_initiation_packet do_write_udp_packet
start-Started c s i x known free =
    let p = s.peers i in
    let made = create-IsCreated c s.dev i p x.random x.timestamp x.now x.draws known free in
    let s₁ = record s {
      stats = record (s.stats) { handshakes_out = s.stats.handshakes_out + 1 };
    } in
    (
      made.message,
      ap (λ o. (write_initiation_packet s₁ i o).udp) made.answer
          ∙ ap₂
              (λ a n.
                record { bytes = write_initiation made.message; protocol = n; addr = a } ∷ s.udp)
              made.same_endpoint.0 made.same_endpoint.1,
    )

-- CheckHandshakeRateLimit lets the handshake through.
allowed_eq :
    (p : WgPeer) (now : ℕ)
    → 5000 ≤ (now + 2 ^ 64 - p.last_handshake_init_timestamp) % 2 ^ 64
    → check_handshake_rate_limit p now ≡ (record p { last_handshake_init_timestamp = now }, true)
unfolding check_handshake_rate_limit
allowed_eq p now h = ground arith

-- The peer may start a handshake now.
pub record CanStart (dev : WgDevice) (p : WgPeer) (x : Chance) : Type 0 where
  pub endpoint : has_family p.endpoint ≡ true
  pub allowed : 5000 ≤ (x.now + 2 ^ 64 - p.last_handshake_init_timestamp) % 2 ^ 64
  pub known : IsKnown dev p.local_key_id_during_hs
  pub free : HasFree dev x.draws

send-Started :
    (c : Crypto) (s : Processor) (i : ℕ) (x : Chance)
    → CanStart s.dev (s.peers i) x
    → Started (s.peers i) s.udp (send_handshake_initiation c s i x).udp
unfolding send_handshake_initiation
send-Started c s i x can =
    let p = s.peers i in
    let q = record p { last_handshake_init_timestamp = x.now } in
    let s₁ = put_peer s i q in
    let here : s₁.peers i ≡ q = rw (==_refl i) refl in
    let started =
      start-Started c s₁ i x
        (subst (λ (y : WgPeer). IsKnown s.dev y.local_key_id_during_hs) (sym here) can.known)
        can.free in
    let sent : (if true && has_family q.endpoint then start_handshake c s₁ i x else s₁).udp
        ≡ (start_handshake c s₁ i x).udp =
      ap (λ b. (if b then start_handshake c s₁ i x else s₁).udp) can.endpoint in
    (
      started.0,
      ap
            (λ (r : WgPeer × Bool).
              (if r.1 && has_family r.0.endpoint
                then start_handshake c (put_peer s i r.0) i x
                else put_peer s i r.0).udp)
            (allowed_eq p x.now can.allowed)
          ∙ sent
          ∙ started.1
          ∙ ap (λ (y : WgPeer). to_endpoint y started.0 ∷ s.udp) here,
    )

-- A peer that is scheduled for a handshake.
pub record IsScheduled (s : Processor) (i : ℕ) : Type 0 where
  pub listed : s.scheduled ≡ i ∷ []
  pub wanted : (bit_and (s.peers i).main_thread_scheduled 1 == 0) ≡ false
  pub alive : (s.peers i).marked_for_delete ≡ false

pub run-Started :
    (c : Crypto) (s : Processor) (i : ℕ) (x : ℕ → Chance)
    → IsScheduled s i
    → CanStart s.dev (s.peers i) (x i)
    → Started (s.peers i) s.udp (run_all_main_thread_scheduled c s x).udp
unfolding run_all_main_thread_scheduled run_each run_scheduled
run-Started c s i x scheduled can =
    let p = s.peers i in
    let q = record p { main_thread_scheduled = 0; handshake_attempts = 0 } in
    let t = record s { scheduled = [] } in
    let ready = put_peer t i q in
    let here : ready.peers i ≡ q = rw (==_refl i) refl in
    let can_q : CanStart s.dev q (x i) = record {
      endpoint = can.endpoint;
      allowed = can.allowed;
      known = can.known;
      free = can.free;
    } in
    let started =
      send-Started c ready i (x i) (subst (λ y. CanStart s.dev y (x i)) (sym here) can_q) in
    let chosen : run_scheduled c t i (x i) ≡ send_handshake_initiation c ready i (x i) =
      rw (scheduled.alive, scheduled.wanted) refl in
    (
      started.0,
      ap (λ l. (run_each c t l x).udp) scheduled.listed
          ∙ ap (λ (r : Processor). r.udp) chosen
          ∙ started.1
          ∙ ap (λ (y : WgPeer). to_endpoint y started.0 ∷ s.udp) here,
    )
