-- ===== src/Processor/Deliver.antt =====
-- Cryptokey routing: what HandleDataPacket may write to the tunnel.
use tun_safe.Base.{
  ℕ, ◌+◌, ◌≤◌, ◌<◌, ◌≡◌, ◌≢◌, ◌∙◌, refl, ap, ◌⊎◌, inl, inr, Bool-cases, true, false, Option, none,
  some, List, ◌∷◌, arith, length, take, drop, ltb, leb, not, ◌||◌, ◌==◌,
}
use tun_safe.Replay.{check_replay}
use tun_safe.Keys.{KeyState, key_invalid}
use tun_safe.Keys.Table.{lookup_keypair_by_key_id}
use tun_safe.Peer.{Packet}
use tun_safe.Processor.{
  Processor, Env, Route, bad_header, route, source_route, put_peer, reject_after_messages, put_key,
}
use tun_safe.Processor.Receive.{
  deliver, deliver_route, count_header_error, note_authenticated, handle_authenticated_data_packet,
  accept, decrypted, check_mac, check_key_id, find_keypair, handle_data_packet, receiver_id,
  counter_of, is_invalid,
}
use tun_safe.Processor.Quiet.{tun-note}

-- The text is an IP packet whose source address routes to the peer `i`, and `out` is what its
-- header says of it.
pub record IsFrom (env : Env) (i : ℕ) (text out : List ℕ) : Type 0 where
  pub size : ℕ
  pub routed : source_route env text ≡ route (some i) size
  pub fits : size ≤ length text
  pub cut : out ≡ take size text

-- The one packet that may be added to the tunnel's.
abbrev pub Writes : Processor → Processor → Packet → (List ℕ → Type 0) → Type 0
Writes s s' packet P =
    (s'.tun ≡ s.tun) ⊎ ((out : List ℕ) × P out × (s'.tun ≡ record packet { bytes = out } ∷ s.tun))

tun-route :
    (env : Env) (s : Processor) (i : ℕ) (packet : Packet) (r : Route)
    → source_route env packet.bytes ≡ r
    → Writes s (deliver_route s i packet r) packet (IsFrom env i packet.bytes)
unfolding deliver_route count_header_error
tun-route env s i packet bad_header e = inl refl
tun-route env s i packet (route none size) e = inl refl
tun-route env s i packet (route (some j) size) e =
    elim (Bool-cases (not (j == i) || ltb (length packet.bytes) size)) [
      | inl refused ↦ inl (rw refused refl)
      | inr fine ↦
          let same : j ≡ i = ground arith in
          inr (
            take size packet.bytes,
            record {
              size = size;
              routed = e ∙ ap (λ k. route (some k) size) same;
              fits = ground arith;
              cut = refl;
            },
            rw fine refl,
          )
    ]

-- Why `out` may be written: `packet` names a valid keypair of the table, decrypts under it to
-- `text`, has a counter that was not seen, and `text` is from the keypair's peer.
pub record IsAccepted (env : Env) (s : Processor) (packet : Packet) (out : List ℕ) : Type 0 where
  pub keypair : ℕ
  pub peer : ℕ
  pub text : List ℕ
  pub found : lookup_keypair_by_key_id s.dev (receiver_id packet.bytes) ≡ some keypair
  pub in_range : counter_of packet.bytes < reject_after_messages
  pub owned : (s.dev.keypairs keypair).peer ≡ some peer
  pub authentic :
      env.decrypt (s.dev.keypairs keypair) (counter_of packet.bytes) (drop 16 packet.bytes)
      ≡ some text
  pub valid : (s.dev.keypairs keypair).recv_key_state ≢ key_invalid
  pub fresh :
      (check_replay (s.dev.keypairs keypair).replay_detector (counter_of packet.bytes)).1 ≡ true
  pub from : IsFrom env peer text out

-- What is written does not depend on the state, where the tunnel is the same.
Writes-trans :
    (s s₁ s' : Processor) (packet : Packet) (P : List ℕ → Type 0)
    → s₁.tun ≡ s.tun
    → Writes s₁ s' packet P
    → Writes s s' packet P
Writes-trans s s₁ s' packet P e (inl same) = inl (same ∙ e)
Writes-trans s s₁ s' packet P e (inr (out, why, written)) =
    inr (out, why, written ∙ ap (λ l. record packet { bytes = out } ∷ l) e)

Writes-map :
    (s s' : Processor) (packet : Packet) (P Q : List ℕ → Type 0)
    → ((out : List ℕ) → P out → Q out)
    → Writes s s' packet P
    → Writes s s' packet Q
Writes-map s s' packet P Q f (inl same) = inl same
Writes-map s s' packet P Q f (inr (out, why, written)) = inr (out, f out why, written)

module _ (env : Env) (s : Processor) (i k now : ℕ) (packet : Packet) where
  keepalive_eq :
      (length packet.bytes == 0) ≡ true
      → handle_authenticated_data_packet env s i k now packet
        ≡ note_authenticated env s i k now packet
  unfolding handle_authenticated_data_packet
  keepalive_eq h = rw h

  pub data_eq :
      (length packet.bytes == 0) ≡ false
      → handle_authenticated_data_packet env s i k now packet
        ≡ deliver env (note_authenticated env s i k now packet) i packet
  unfolding handle_authenticated_data_packet
  data_eq h = rw h

tun-deliver :
    (env : Env) (s : Processor) (i : ℕ) (packet : Packet)
    → Writes s (deliver env s i packet) packet (IsFrom env i packet.bytes)
unfolding deliver
tun-deliver env s i packet = tun-route env s i packet (source_route env packet.bytes) refl

tun-authenticated :
    (env : Env) (s : Processor) (i k now : ℕ) (packet : Packet)
    → Writes s
        (handle_authenticated_data_packet env s i k now packet)
        packet
        (IsFrom env i packet.bytes)
tun-authenticated env s i k now packet =
    let s' = note_authenticated env s i k now packet in
    let same : s'.tun ≡ s.tun = tun-note env s i k now packet in
    elim (Bool-cases (length packet.bytes == 0)) [
      | inl keepalive ↦ rw (keepalive_eq env s i k now packet keepalive) (inl same)
      | inr not_empty ↦ rw (data_eq env s i k now packet not_empty) (
          Writes-trans s s' (deliver env s' i packet) packet (IsFrom env i packet.bytes) same
            (tun-deliver env s' i packet))
    ]

is_invalid-false : (state : KeyState) → is_invalid state ≡ false → state ≢ key_invalid
unfolding is_invalid
is_invalid-false key_invalid h = ground arith
is_invalid-false _ h = ground arith

-- The states that let a counter through.
abbrev Passes : Processor → ℕ → ℕ → Type 0
Passes s k counter =
    let kp = s.dev.keypairs k in
    (kp.recv_key_state ≢ key_invalid) × ((check_replay kp.replay_detector counter).1 ≡ true)

tun-accept :
    (env : Env) (s : Processor) (i k now counter size : ℕ) (packet : Packet)
    → Writes s
        (accept env s i k now counter size packet)
        packet
        (λ out. Passes s k counter × IsFrom env i packet.bytes out)
unfolding accept
tun-accept env s i k now counter size packet =
    let kp = s.dev.keypairs k in
    let p = s.peers i in
    let s₁ = put_peer s i (record p { rx_bytes = p.rx_bytes + size }) in
    let s₂ =
      put_key s₁ k (record kp { replay_detector = (check_replay kp.replay_detector counter).0 }) in
    elim (Bool-cases (is_invalid kp.recv_key_state)) [
      | inl dead ↦ inl (rw dead refl)
      | inr alive ↦ elim (Bool-cases (check_replay kp.replay_detector counter).1) [
        | inr replayed ↦ inl (rw (alive, replayed) refl)
        | inl fresh ↦
            rw (alive, fresh)
              (Writes-map s (handle_authenticated_data_packet env s₂ i k now packet) packet
                (IsFrom env i packet.bytes) _
                (λ out from. ((is_invalid-false kp.recv_key_state alive, refl), from))
                (tun-authenticated env s₂ i k now packet))
      ]
    ]

tun-owner :
    (env : Env) (s : Processor) (k now : ℕ) (packet : Packet) (text : List ℕ) (owner : Option ℕ)
    → (s.dev.keypairs k).peer ≡ owner
    → lookup_keypair_by_key_id s.dev (receiver_id packet.bytes) ≡ some k
    → counter_of packet.bytes < reject_after_messages
    → env.decrypt (s.dev.keypairs k) (counter_of packet.bytes) (drop 16 packet.bytes) ≡ some text
    → Writes s (decrypted env s k owner now packet text) packet (IsAccepted env s packet)
unfolding decrypted
tun-owner env s k now packet text none owned found in_range e = inl refl
tun-owner env s k now packet text (some i) owned found in_range e =
    let counter = counter_of packet.bytes in
    let size = length packet.bytes in
    let plain = record packet { bytes = text } in
    Writes-map s (accept env s i k now counter size plain) plain
      (λ out. Passes s k counter × IsFrom env i text out) (IsAccepted env s packet)
      (λ out ((valid, fresh), from). record {
        keypair = k;
        peer = i;
        text = text;
        found = found;
        in_range = in_range;
        owned = owned;
        authentic = e;
        valid = valid;
        fresh = fresh;
        from = from;
      })
      (tun-accept env s i k now counter size plain)

tun-mac :
    (env : Env) (s : Processor) (k now : ℕ) (packet : Packet) (result : Option (List ℕ))
    → lookup_keypair_by_key_id s.dev (receiver_id packet.bytes) ≡ some k
    → counter_of packet.bytes < reject_after_messages
    → env.decrypt (s.dev.keypairs k) (counter_of packet.bytes) (drop 16 packet.bytes) ≡ result
    → Writes s (check_mac env s k now packet result) packet (IsAccepted env s packet)
unfolding check_mac
tun-mac env s k now packet none found in_range e = inl refl
tun-mac env s k now packet (some text) found in_range e =
    tun-owner env s k now packet text (s.dev.keypairs k).peer refl found in_range e

found_lem :
    (s : Processor) (bytes : List ℕ) (k : ℕ)
    → find_keypair s bytes ≡ some k
    → (lookup_keypair_by_key_id s.dev (receiver_id bytes) ≡ some k)
      × (counter_of bytes < reject_after_messages)
unfolding find_keypair
found_lem s bytes k h = elim (Bool-cases (leb reject_after_messages (counter_of bytes))) [
  | inl big ↦ absurd (some_not_none k (rw big at h))
  | inr small ↦ (rw small at h, ground arith)
]
  where
    some_not_none : (k : ℕ) → ¬ (none ≡ some k)
    some_not_none k e = ground arith

tun-key_id :
    (env : Env) (s : Processor) (now : ℕ) (packet : Packet) (found : Option ℕ)
    → find_keypair s packet.bytes ≡ found
    → Writes s (check_key_id env s now packet found) packet (IsAccepted env s packet)
unfolding check_key_id
tun-key_id env s now packet none e = inl refl
tun-key_id env s now packet (some k) e =
    let (known, in_range) = found_lem s packet.bytes k e in
    tun-mac env s k now packet
      (env.decrypt (s.dev.keypairs k) (counter_of packet.bytes) (drop 16 packet.bytes)) known
      in_range refl

-- A data packet from the network writes nothing to the tunnel, or one packet: the text, cut to the
-- size that its IP header says, of a packet that names a valid keypair, was encrypted with it, has a
-- counter that the keypair has not seen, and whose source address is routed to the keypair's peer.
pub handle_data_packet_delivers :
    (env : Env) (s : Processor) (now : ℕ) (packet : Packet)
    → Writes s (handle_data_packet env s now packet) packet (IsAccepted env s packet)
unfolding handle_data_packet
handle_data_packet_delivers env s now packet =
    tun-key_id env s now packet (find_keypair s packet.bytes) refl
