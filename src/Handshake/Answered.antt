-- ===== src/Handshake/Answered.antt =====
-- Which initiations ParseMessageHandshakeInitiation answers.
use tun_safe.Base.{
  ℕ, ◌+◌, ◌≡◌, ◌∙◌, refl, sym, ap, subst, inl, inr, Bool, true, false, Option, none, some, List, [],
  ◌∷◌, ==_refl, arith, if◌then◌else◌, Bool-cases, Option-cases,
}
use tun_safe.Keys.{WgDevice, put_keypair}
use tun_safe.Keys.Table.{insert_in_key_id_lookup}
use tun_safe.Peer.{WgPeer}
use tun_safe.Peer.Slots.{delete_keypair, insert_keypair_in_peer, place_keypair}
use tun_safe.Peer.Timers.{on_handshake_auth_complete}
use tun_safe.Handshake.{Crypto, Initiation, Response, write_mac_to_packet}
use mathlib.Core.Option.{some-injective, none-ne-some}
use tun_safe.Handshake.Keypair.{create_new_keypair, store_keypair}
use tun_safe.Handshake.Responder.{
  Opened, Answer, open_static, open_timestamp, respond, is_later, is_acceptable, answer_message,
  establish, check_timestamp, check_peer, check_static, parse_message_handshake_initiation,
}

-- What the responder remembers of the message.
placed_keeps :
    (initiator : Bool) (next : Option ℕ) (dev : WgDevice) (p : WgPeer) (k : ℕ)
    → let q = (place_keypair initiator next dev p k).1 in
      (q.last_timestamp ≡ p.last_timestamp)
      × (q.last_handshake_init_recv_timestamp ≡ p.last_handshake_init_recv_timestamp)
unfolding place_keypair
placed_keeps true (some n) dev p k = (refl, refl)
placed_keeps true none dev p k = (refl, refl)
placed_keeps false next dev p k = (refl, refl)

mac_keeps_time :
    (c : Crypto) (p : WgPeer) (now : ℕ) (bytes : List ℕ)
    → let q = (write_mac_to_packet c (on_handshake_auth_complete p) now bytes).0 in
      (q.last_timestamp ≡ p.last_timestamp)
      × (q.last_handshake_init_recv_timestamp ≡ p.last_handshake_init_recv_timestamp)
unfolding write_mac_to_packet on_handshake_auth_complete
mac_keeps_time c p now bytes = ground arith

answer_remembers :
    (c : Crypto) (dev : WgDevice) (self : ℕ) (p : WgPeer) (k id remote : ℕ) (timestamp : List ℕ)
    (a : Answer) (size now : ℕ)
    → let q = (answer_message c dev self p k id remote timestamp a size now).1 in
      (q.last_timestamp ≡ timestamp) × (q.last_handshake_init_recv_timestamp ≡ now)
unfolding answer_message insert_keypair_in_peer
answer_remembers c dev self p k id remote timestamp a size now =
    let q = record p {
      last_handshake_init_recv_timestamp = now;
      last_timestamp = timestamp;
      rx_bytes = p.rx_bytes + size;
      tx_bytes = p.tx_bytes + 92;
      time_of_next_key_event = 0;
      prev_keypair = none;
    } in
    let dev₁ = put_keypair dev k (record (dev.keypairs k) { peer = some self }) in
    let placed =
      placed_keeps (dev.keypairs k).is_initiator p.next_keypair (delete_keypair dev₁ p.prev_keypair)
        q k in
    let finished =
      mac_keeps_time c
        (place_keypair (dev.keypairs k).is_initiator p.next_keypair
          (delete_keypair dev₁ p.prev_keypair) q k).1
        now in
    ((finished _).0 ∙ placed.0, (finished _).1 ∙ placed.1)

establish_remembers :
    (c : Crypto) (dev : WgDevice) (self : ℕ) (p : WgPeer) (m : Initiation) (timestamp : List ℕ)
    (a : Answer) (size now : ℕ) (draws : List ℕ) (dev' : WgDevice) (q : WgPeer) (r : Response)
    → establish c dev self p m timestamp a size now draws ≡ some (dev', q, r)
    → (q.last_timestamp ≡ timestamp) × (q.last_handshake_init_recv_timestamp ≡ now)
unfolding establish
establish_remembers c dev self p m timestamp a size now draws dev' q r e =
    let kp = create_new_keypair c false a.ci m.sender_key_id now in
    let (dev₁, k) = store_keypair dev kp in
    elim (Option-cases (insert_in_key_id_lookup dev₁ self (some k) 0 draws)) [
      | inl h ↦
          let eq : establish c dev self p m timestamp a size now draws ≡ none =
            rw (h, establish) refl in
          absurd (none-ne-some _ (sym eq ∙ e))
      | inr ((id, dev₂), h) ↦
          let dev₃ = put_keypair dev₂ k (record kp { local_key_id = id }) in
          let made = answer_message c dev₃ self p k id m.sender_key_id timestamp a size now in
          let eq : establish c dev self p m timestamp a size now draws ≡ some made =
            rw (h, establish) refl in
          let same : made ≡ (dev', q, r) = some-injective _ _ (sym eq ∙ e) in
          let (u, v) = answer_remembers c dev₃ self p k id m.sender_key_id timestamp a size now in
          (
            ap (λ (z : WgDevice × WgPeer × Response). z.1.last_timestamp) (sym same) ∙ u,
            ap (λ (z : WgDevice × WgPeer × Response). z.1.last_handshake_init_recv_timestamp)
                  (sym same)
                ∙ v,
          )
    ]

-- The branch that answers.
pub record IsAccepted (c : Crypto) (dev : WgDevice) (peers : ℕ → WgPeer) (m : Initiation)
    (now self : ℕ) (q : WgPeer) : Type 0 where
  pub opened : Opened
  pub static : open_static c dev.s_priv dev.s_pub m.ephemeral m.static_enc ≡ some opened
  pub known : dev.peer_id_lookup opened.spubi ≡ some self
  pub hi : List ℕ
  pub ci : List ℕ
  pub authentic :
      open_timestamp c (peers self).s_priv_pub opened m.timestamp_enc
      ≡ some (q.last_timestamp, hi, ci)
  pub acceptable : is_acceptable (peers self) q.last_timestamp now ≡ true
  pub received : q.last_handshake_init_recv_timestamp ≡ now

check_timestamp-IsAccepted :
    (c : Crypto) (dev : WgDevice) (self : ℕ) (p : WgPeer) (m : Initiation) (random : List ℕ)
    (size now : ℕ) (draws timestamp hi ci : List ℕ) (dev' : WgDevice) (q : WgPeer) (r : Response)
    → check_timestamp c dev self p m random size now draws (some (timestamp, hi, ci))
      ≡ some (dev', q, r)
    → (is_acceptable p timestamp now ≡ true)
      × (q.last_timestamp ≡ timestamp)
      × (q.last_handshake_init_recv_timestamp ≡ now)
unfolding check_timestamp
check_timestamp-IsAccepted c dev self p m random size now draws timestamp hi ci dev' q r e =
    let a = respond c hi ci (c.normalize random) m.ephemeral p.s_remote p.preshared_key in
    let result = establish c dev self p m timestamp a size now draws in
    elim (Bool-cases (is_acceptable p timestamp now)) [
      | inl h ↦
          let eq : (if is_acceptable p timestamp now then result else none) ≡ result = rw h refl in
          let (u, v) =
            establish_remembers c dev self p m timestamp a size now draws dev' q r (sym eq ∙ e) in
          (h, u, v)
      | inr h ↦
          let eq : (if is_acceptable p timestamp now then result else none) ≡ none = rw h refl in
          absurd (none-ne-some _ (sym eq ∙ e))
    ]

check_opened-IsAccepted :
    (c : Crypto) (dev : WgDevice) (peers : ℕ → WgPeer) (m : Initiation) (random : List ℕ)
    (size now : ℕ) (draws : List ℕ) (o : Opened) (self : ℕ) (dev' : WgDevice) (q : WgPeer)
    (r : Response)
    → open_static c dev.s_priv dev.s_pub m.ephemeral m.static_enc ≡ some o
    → dev.peer_id_lookup o.spubi ≡ some self
    → (t : Option (List ℕ × List ℕ × List ℕ))
    → open_timestamp c (peers self).s_priv_pub o m.timestamp_enc ≡ t
    → check_timestamp c dev self (peers self) m random size now draws t ≡ some (dev', q, r)
    → IsAccepted c dev peers m now self q
unfolding check_timestamp
check_opened-IsAccepted c dev peers m random size now draws o self dev' q r static known none
      authentic e =
    absurd (none-ne-some _ e)
check_opened-IsAccepted c dev peers m random size now draws o self dev' q r static known
      (some (timestamp, hi, ci)) authentic e =
    let (acceptable, same, received) =
      check_timestamp-IsAccepted c dev self (peers self) m random size now draws timestamp hi ci
        dev' q r e in
    record {
      opened = o;
      static = static;
      known = known;
      hi = hi;
      ci = ci;
      authentic = authentic ∙ ap (λ t. some (t, hi, ci)) (sym same);
      acceptable = ap (λ t. is_acceptable (peers self) t now) same ∙ acceptable;
      received = received;
    }

check_peer-IsAccepted :
    (c : Crypto) (dev : WgDevice) (peers : ℕ → WgPeer) (m : Initiation) (random : List ℕ)
    (size now : ℕ) (draws : List ℕ) (o : Opened) (self : ℕ) (dev' : WgDevice) (q : WgPeer)
    (r : Response)
    → open_static c dev.s_priv dev.s_pub m.ephemeral m.static_enc ≡ some o
    → (i : Option ℕ) → dev.peer_id_lookup o.spubi ≡ i
    → check_peer c dev peers m random size now draws o i ≡ some (self, dev', q, r)
    → IsAccepted c dev peers m now self q
unfolding check_peer
check_peer-IsAccepted c dev peers m random size now draws o self dev' q r static none known e =
    absurd (none-ne-some _ e)
check_peer-IsAccepted c dev peers m random size now draws o self dev' q r static (some i) known e =
    let checked =
      check_timestamp c dev i (peers i) m random size now draws
        (open_timestamp c (peers i).s_priv_pub o m.timestamp_enc) in
    elim (Option-cases checked) [
      | inl h ↦
          let eq : check_peer c dev peers m random size now draws o (some i) ≡ none =
            rw (h, check_peer) refl in
          absurd (none-ne-some _ (sym eq ∙ e))
      | inr ((dev₁, q₁, r₁), h) ↦
          let eq : check_peer c dev peers m random size now draws o (some i)
              ≡ some (i, dev₁, q₁, r₁) =
            rw (h, check_peer) refl in
          let same : (i, dev₁, q₁, r₁) ≡ (self, dev', q, r) = some-injective _ _ (sym eq ∙ e) in
          let accepted =
            check_opened-IsAccepted c dev peers m random size now draws o i dev₁ q₁ r₁ static known
              _ refl h in
          subst (λ (z : ℕ × WgDevice × WgPeer × Response). IsAccepted c dev peers m now z.0 z.2)
            same accepted
    ]

check_static-IsAccepted :
    (c : Crypto) (dev : WgDevice) (peers : ℕ → WgPeer) (m : Initiation) (random : List ℕ)
    (size now : ℕ) (draws : List ℕ) (self : ℕ) (dev' : WgDevice) (q : WgPeer) (r : Response)
    (o : Option Opened)
    → open_static c dev.s_priv dev.s_pub m.ephemeral m.static_enc ≡ o
    → check_static c dev peers m random size now draws o ≡ some (self, dev', q, r)
    → IsAccepted c dev peers m now self q
unfolding check_static
check_static-IsAccepted c dev peers m random size now draws self dev' q r none static e =
    absurd (none-ne-some _ e)
check_static-IsAccepted c dev peers m random size now draws self dev' q r (some o) static e =
    check_peer-IsAccepted c dev peers m random size now draws o self dev' q r static _ refl e

-- A message is answered only when its two parts decrypt under the keys of the device and of the
-- peer that owns the public key inside, its timestamp is later than the peer's last one, and
-- the last answer is 20 ms ago or more; the peer remembers the timestamp and the time.
pub answered-IsAccepted :
    (c : Crypto) (dev : WgDevice) (peers : ℕ → WgPeer) (m : Initiation) (random : List ℕ)
    (size now : ℕ) (draws : List ℕ) (self : ℕ) (dev' : WgDevice) (q : WgPeer) (r : Response)
    → parse_message_handshake_initiation c dev peers m random size now draws
      ≡ some (self, dev', q, r)
    → IsAccepted c dev peers m now self q
unfolding parse_message_handshake_initiation
answered-IsAccepted c dev peers m random size now draws self dev' q r e =
    check_static-IsAccepted c dev peers m random size now draws self dev' q r _ refl e

-- Timestamps are ordered.
pub is_later_irrefl : (a : List ℕ) → is_later a a ≡ false
unfolding is_later
is_later_irrefl [] = refl
is_later_irrefl (x ∷ a) = rw (==_refl x) (is_later_irrefl a)

pub is_later_trans :
    (a b d : List ℕ) → is_later a b ≡ true → is_later b d ≡ true → is_later a d ≡ true
unfolding is_later
is_later_trans [] b d h k = h
is_later_trans (x ∷ a) [] d h k = ground arith
is_later_trans (x ∷ a) (y ∷ b) [] h k = refl
is_later_trans (x ∷ a) (y ∷ b) (z ∷ d) h k = ground (arith, is_later_trans a b d)
