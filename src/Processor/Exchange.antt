-- ===== src/Processor/Exchange.antt =====
-- A handshake between two processors, from the packets that one writes to those that the other reads.
use tun_safe.Base.{
  ℕ, ◌+◌, ◌-◌, ◌%◌, ◌^◌, ◌<◌, ◌≡◌, ◌∙◌, refl, sym, ap, subst, All, true, false, some, List, [], ◌∷◌,
  ==_refl, ltb, length, Bool-cases, inl, inr,
}
use mathlib.Core.Bool.{true≢false}
use tun_safe.Keys.{IpAddr, has_family, update}
use tun_safe.Keys.Ids.{HasFree}
use tun_safe.Peer.{WgPeer, Packet, check_handshake_rate_limit}
use tun_safe.Handshake.{Crypto}
use tun_safe.Handshake.Responder.{is_acceptable}
use tun_safe.Handshake.Agree.{public}
use tun_safe.Handshake.Created.{IsConfigured, IsKnown}
use tun_safe.Handshake.Complete.{IsFree}
use tun_safe.Handshake.Exchange.{Exchange, CanComplete}
use tun_safe.Processor.{Processor, Env}
use tun_safe.Processor.Handshakes.{Chance, send_handshake_initiation}
use tun_safe.Processor.Main.{handle_udp_packet}

-- Two processors that know each other as the peers `i` and `r`, the times and random numbers of the
-- three calls, and the addresses from which their packets arrive.
pub record Meeting : Type 0 where
  pub a : Processor
  pub b : Processor
  pub env_a : Env
  pub env_b : Env
  pub i : ℕ
  pub r : ℕ
  pub s_i : List ℕ
  pub s_r : List ℕ
  pub start : Chance
  pub answer : Chance
  pub ending : Chance
  pub protocol_a : ℕ
  pub addr_a : IpAddr
  pub protocol_b : ℕ
  pub addr_b : IpAddr

-- The latest packet that was written, as it arrives from an address.
abbrev pub arriving : List Packet → ℕ → IpAddr → Packet
arriving [] protocol addr = record { bytes = []; protocol = protocol; addr = addr }
arriving (packet ∷ _) protocol addr = record packet { protocol = protocol; addr = addr }

-- The initiator sends, the responder answers, and the initiator takes the answer.
abbrev pub initiated : Crypto → Meeting → Processor
initiated c x = send_handshake_initiation c x.a x.i x.start

abbrev pub answered : Crypto → Meeting → Processor
answered c x =
    handle_udp_packet c x.env_b x.b (arriving (initiated c x).udp x.protocol_a x.addr_a) false
      x.answer

abbrev pub finished : Crypto → Meeting → Processor
finished c x =
    handle_udp_packet c x.env_a (initiated c x) (arriving (answered c x).udp x.protocol_b x.addr_b)
      false x.ending

-- The two are configured for each other, may begin, and can draw ids of 32 bits.
pub record CanMeet (c : Crypto) (x : Meeting) : Type 0 where
  pub keyed_a : x.a.dev.is_private_key_initialized ≡ true
  pub keyed_b : x.b.dev.is_private_key_initialized ≡ true
  pub initiator : IsConfigured c x.a.dev (x.a.peers x.i) x.s_i (public c x.s_r)
  pub responder : IsConfigured c x.b.dev (x.b.peers x.r) x.s_r (public c x.s_i)
  pub known : x.b.dev.peer_id_lookup (public c x.s_i) ≡ some x.r
  pub mac_there : (x.a.peers x.i).precomputed_mac1_key ≡ x.b.dev.precomputed_mac1_key
  pub mac_back : (x.b.peers x.r).precomputed_mac1_key ≡ x.a.dev.precomputed_mac1_key
  pub psk : (x.a.peers x.i).preshared_key ≡ (x.b.peers x.r).preshared_key
  pub allowed : (check_handshake_rate_limit (x.a.peers x.i) x.start.now).1 ≡ true
  pub family : has_family (x.a.peers x.i).endpoint ≡ true
  pub timestamp : length x.start.timestamp ≡ 12
  pub acceptable : is_acceptable (x.b.peers x.r) x.start.timestamp x.answer.now ≡ true
  pub old_id : IsKnown x.a.dev (x.a.peers x.i).local_key_id_during_hs
  pub free_i : HasFree x.a.dev x.start.draws
  pub free_r : HasFree x.b.dev x.answer.draws
  pub words_i : All (λ v. v < 2 ^ 32) x.start.draws
  pub words_r : All (λ v. v < 2 ^ 32) x.answer.draws
  pub slots_i : IsFree (x.a.peers x.i) x.a.dev.next_keypair
  pub slots_r : IsFree (x.b.peers x.r) x.b.dev.next_keypair

-- The peer of the initiator when the message is made.
abbrev pub checked : Meeting → WgPeer
checked x = record (x.a.peers x.i) { last_handshake_init_timestamp = x.start.now }

pub checked_lem :
    (p : WgPeer) (now : ℕ)
    → (check_handshake_rate_limit p now).1 ≡ true
    → (check_handshake_rate_limit p now).0 ≡ record p { last_handshake_init_timestamp = now }
unfolding check_handshake_rate_limit
checked_lem p now h =
    elim (Bool-cases (ltb ((now + 2 ^ 64 - p.last_handshake_init_timestamp) % 2 ^ 64) 5000)) [
      | inl early ↦
          let e : (check_handshake_rate_limit p now).1 ≡ false = rw early refl in
          absurd (true≢false (sym h ∙ e))
      | inr late ↦ rw late refl
    ]

-- The exchange of messages behind the packets.
abbrev pub exchange : Meeting → Exchange
exchange x = record {
  dev_i = x.a.dev;
  peers_i = update x.a.peers x.i (checked x);
  i = x.i;
  dev_r = x.b.dev;
  peers_r = x.b.peers;
  r = x.r;
  s_i = x.s_i;
  s_r = x.s_r;
  random_i = x.start.random;
  random_r = x.answer.random;
  timestamp = x.start.timestamp;
  created_at = x.start.now;
  answered_at = x.answer.now;
  completed_at = x.ending.now;
  initiation_size = 148;
  response_size = 92;
  draws_i = x.start.draws;
  draws_r = x.answer.draws;
  addr = x.addr_b;
  protocol = x.protocol_b;
}

pub checked_here : (x : Meeting) → update x.a.peers x.i (checked x) x.i ≡ checked x
checked_here x = rw (==_refl x.i) refl

pub exchange-CanComplete : (c : Crypto) (x : Meeting) → CanMeet c x → CanComplete c (exchange x)
exchange-CanComplete c x can =
    let here = sym (checked_here x) in
    let side = can.initiator in
    let slots = can.slots_i in
    record {
      initiator =
          subst (λ p. IsConfigured c x.a.dev p x.s_i (public c x.s_r)) here
            (record {
              s_priv = side.s_priv;
              s_pub = side.s_pub;
              s_remote = side.s_remote;
              s_priv_pub = side.s_priv_pub;
            });
      responder = can.responder;
      known = can.known;
      psk = ap (λ (p : WgPeer). p.preshared_key) (checked_here x) ∙ can.psk;
      acceptable = can.acceptable;
      old_id = subst (λ (p : WgPeer). IsKnown x.a.dev p.local_key_id_during_hs) here can.old_id;
      free_i = can.free_i;
      free_r = can.free_r;
      slots_i =
          subst (λ p. IsFree p x.a.dev.next_keypair) here
            (record { curr = slots.curr; prev = slots.prev; next = slots.next });
      slots_r = can.slots_r;
    }
