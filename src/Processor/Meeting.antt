-- ===== src/Processor/Meeting.antt =====
-- What each of two processors does with the packets of a handshake when it is not overloaded:
-- SendHandshakeInitiation on the one, and HandleUdpPacket on both.
use tun_safe.Base.{
  ℕ, ◌+◌, ◌≡◌, ◌∙◌, refl, ap, ap₂, true, false, ◌&&◌, some, List, ◌∷◌, length, length-append, take,
  arith, if◌then◌else◌,
}
use tun_safe.Base.Bytes.{write_le, read_le}
use tun_safe.Keys.{WgDevice, IpAddr, has_family}
use tun_safe.Peer.{WgPeer, Packet, check_handshake_rate_limit}
use tun_safe.RateLimit.{check_rate_limit, commit_result}
use tun_safe.Handshake.{Crypto, Initiation, Response, initiation_bytes, response_bytes}
use tun_safe.Handshake.Initiator.{
  create_message_handshake_initiation, parse_message_handshake_response,
}
use tun_safe.Handshake.Responder.{parse_message_handshake_initiation}
use tun_safe.Handshake.Cookie.{check_cookie_mac1}
use tun_safe.Handshake.Wire.{
  read_initiation, read_response, write_initiation, write_response, IsInitiationSized,
  IsResponseSized, read_initiation-write_initiation, read_response-write_response,
}
use tun_safe.Processor.{Processor, Env, put_peer, do_write_udp_packet}
use tun_safe.Processor.Handshakes.{
  Chance, send_handshake_initiation, start_handshake, write_initiation_packet, after_initiation,
  handle_handshake_initiation_packet, answer_initiation, handle_handshake_response_packet,
  complete_handshake, get_ip_for_rate_limit, check_incoming_handshake_rate_limit,
}
use tun_safe.Processor.Main.{
  handle_udp_packet, udp_type, initiation_type, response_type, dispatch_udp, admit_initiation,
  admit_response,
}

-- The messages by type and size.
length-write_initiation : (m : Initiation) → IsInitiationSized m → length (write_initiation m) ≡ 148
unfolding write_initiation initiation_bytes write_le
length-write_initiation m h =
    simp length-append (omega (arith, h.ephemeral, h.static_enc, h.timestamp_enc, h.mac1, h.mac2))

length-write_response : (m : Response) → IsResponseSized m → length (write_response m) ≡ 92
unfolding write_response response_bytes write_le
length-write_response m h =
    simp length-append (omega (arith, h.ephemeral, h.empty_enc, h.mac1, h.mac2))

sized_initiation :
    (bytes : List ℕ)
    → length bytes ≡ 148
    → read_le (take 4 bytes) ≡ 1
    → udp_type true bytes ≡ initiation_type
unfolding udp_type
sized_initiation bytes h t = rw (h, t) refl

sized_response :
    (bytes : List ℕ)
    → length bytes ≡ 92
    → read_le (take 4 bytes) ≡ 2
    → udp_type true bytes ≡ response_type
unfolding udp_type
sized_response bytes h t = rw (h, t) refl

udp_type-write_initiation :
    (m : Initiation) → IsInitiationSized m → udp_type true (write_initiation m) ≡ initiation_type
udp_type-write_initiation m h =
    sized_initiation (write_initiation m) (length-write_initiation m h) (
      unfold write_initiation in
      unfold initiation_bytes in unfold write_le in unfold read_le in refl)

udp_type-write_response :
    (m : Response) → IsResponseSized m → udp_type true (write_response m) ≡ response_type
udp_type-write_response m h =
    sized_response (write_response m) (length-write_response m h)
      (unfold write_response in unfold response_bytes in unfold write_le in unfold read_le in refl)

-- A message whose first mac is right goes through; the state of the rate limiter is what changes.
abbrev admitted : Processor → Packet → Processor
admitted s packet =
    let (limiter, rr) = check_rate_limit s.rate_limiter (get_ip_for_rate_limit packet.addr) in
    record s { rate_limiter = commit_result limiter rr }

admitted_lem :
    (c : Crypto) (s : Processor) (packet : Packet) (x : Chance)
    → check_cookie_mac1 c s.dev packet ≡ true
    → check_incoming_handshake_rate_limit c s packet false x ≡ (admitted s packet, true)
unfolding check_incoming_handshake_rate_limit
admitted_lem c s packet x h = rw h refl

abbrev pub counted : Processor → Packet → Processor
counted s packet =
    let st = s.stats in
    record s {
      stats = record st {
        udp_bytes_in = st.udp_bytes_in + length packet.bytes;
        udp_packets_in = st.udp_packets_in + 1;
      };
    }

-- A packet with an initiation.
abbrev pub initiation_packet : Initiation → ℕ → IpAddr → Packet
initiation_packet m protocol addr = record {
  bytes = write_initiation m;
  protocol = protocol;
  addr = addr;
}

abbrev pub response_packet : Response → ℕ → IpAddr → Packet
response_packet m protocol addr = record {
  bytes = write_response m;
  protocol = protocol;
  addr = addr;
}

module _ (c : Crypto) (env : Env) (s : Processor) (x : Chance) (protocol : ℕ) (addr : IpAddr)
    (keyed : s.dev.is_private_key_initialized ≡ true) where
  -- The receiver of an initiation that parses answers it.
  pub handle_initiation_lem :
      (m : Initiation) (i : ℕ) (dev : WgDevice) (p : WgPeer) (r : Response)
      → let packet = initiation_packet m protocol addr in
        IsInitiationSized m
        → check_cookie_mac1 c s.dev packet ≡ true
        → parse_message_handshake_initiation c s.dev s.peers m x.random 148 x.now x.draws
          ≡ some (i, dev, p, r)
        → let t = handle_udp_packet c env s packet false x in
          (t.dev ≡ dev) × (t.udp ≡ (response_packet r protocol addr ∷ s.udp))
  unfolding handle_udp_packet dispatch_udp admit_initiation handle_handshake_initiation_packet
      answer_initiation do_write_udp_packet
  handle_initiation_lem m i dev p r sized mac parsed =
      let packet = initiation_packet m protocol addr in
      let s₁ = counted s packet in
      let s₂ = record s₁ {
        stats = record (s₁.stats) { handshakes_in = s₁.stats.handshakes_in + 1 };
      } in
      let parsed' : parse_message_handshake_initiation c s.dev s.peers
            (read_initiation (write_initiation m)) x.random (length (write_initiation m)) x.now
            x.draws
          ≡ some (i, dev, p, r) =
        ap₂ (λ y n. parse_message_handshake_initiation c s.dev s.peers y x.random n x.now x.draws)
          (read_initiation-write_initiation m sized) (length-write_initiation m sized)
        ∙ parsed in
      let whole : handle_udp_packet c env s packet false x
          ≡ answer_initiation (admitted s₂ packet) packet (some (i, dev, p, r)) =
        ap (λ b. dispatch_udp c env s₁ packet false x (udp_type b packet.bytes)) keyed
        ∙ ap (dispatch_udp c env s₁ packet false x) (udp_type-write_initiation m sized)
        ∙ ap (admit_initiation c packet x) (admitted_lem c s₂ packet x mac)
        ∙ ap (answer_initiation (admitted s₂ packet) packet) parsed' in
      (ap (λ (t : Processor). t.dev) whole, ap (λ (t : Processor). t.udp) whole)

  -- The receiver of a response that parses completes its handshake.
  pub handle_response_lem :
      (m : Response) (i : ℕ) (dev : WgDevice) (p : WgPeer)
      → let packet = response_packet m protocol addr in
        IsResponseSized m
        → check_cookie_mac1 c s.dev packet ≡ true
        → parse_message_handshake_response c s.dev s.peers m addr protocol 92 x.now
          ≡ some (i, dev, p)
        → handle_udp_packet c env s packet false x
          ≡ complete_handshake env
              (admitted (counted s packet) packet)
              packet
              x.now
              (some (i, dev, p))
  unfolding handle_udp_packet dispatch_udp admit_response handle_handshake_response_packet
  handle_response_lem m i dev p sized mac parsed =
      let packet = response_packet m protocol addr in
      let s₁ = counted s packet in
      let parsed' : parse_message_handshake_response c s.dev s.peers
            (read_response (write_response m)) addr protocol (length (write_response m)) x.now
          ≡ some (i, dev, p) =
        ap₂ (λ y n. parse_message_handshake_response c s.dev s.peers y addr protocol n x.now)
          (read_response-write_response m sized) (length-write_response m sized)
        ∙ parsed in
      ap (λ b. dispatch_udp c env s₁ packet false x (udp_type b packet.bytes)) keyed
      ∙ ap (dispatch_udp c env s₁ packet false x) (udp_type-write_response m sized)
      ∙ ap (admit_response c env packet x) (admitted_lem c s₁ packet x mac)
      ∙ ap (complete_handshake env (admitted s₁ packet) packet x.now) parsed'

-- The sender of an initiation: the message goes to the endpoint.
pub send_initiation_lem :
    (c : Crypto) (s : Processor) (i : ℕ) (x : Chance) (dev : WgDevice) (p : WgPeer) (m : Initiation)
    → let checked = check_handshake_rate_limit (s.peers i) x.now in
      let s₁ = put_peer s i checked.0 in
      checked.1 ≡ true
      → has_family checked.0.endpoint ≡ true
      → create_message_handshake_initiation c s.dev i
          (s₁.peers i)
          x.random
          x.timestamp
          x.now
          x.draws
        ≡ some (dev, p, m)
      → let t = send_handshake_initiation c s i x in
        (t.dev ≡ dev)
        × (t.peers ≡ (put_peer s₁ i (after_initiation p)).peers)
        × (t.udp ≡ (initiation_packet m p.endpoint_protocol p.endpoint ∷ s.udp))
unfolding send_handshake_initiation start_handshake write_initiation_packet do_write_udp_packet
send_initiation_lem c s i x dev p m allowed family made =
    let checked = check_handshake_rate_limit (s.peers i) x.now in
    let s₁ = put_peer s i checked.0 in
    let both : (checked.1 && has_family checked.0.endpoint) ≡ true =
      ap₂ (λ a b. a && b) allowed family in
    let s₂ = record s₁ {
      stats = record (s₁.stats) { handshakes_out = s₁.stats.handshakes_out + 1 };
    } in
    let whole : send_handshake_initiation c s i x
        ≡ write_initiation_packet s₂ i (some (dev, p, m)) =
      ap (λ b. if b then start_handshake c s₁ i x else s₁) both
      ∙ ap (write_initiation_packet s₂ i) made in
    (
      ap (λ (t : Processor). t.dev) whole,
      ap (λ (t : Processor). t.peers) whole,
      ap (λ (t : Processor). t.udp) whole,
    )
