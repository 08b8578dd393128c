-- ===== src/Handshake/Exchange.antt =====
-- Both sides together: an initiation, its answer, and the mirrored keypairs.
use tun_safe.Base.{◌≡◌, ◌∙◌, refl, ap, ap₂, subst, some}
use tun_safe.Keys.{WgDevice, update}
use tun_safe.Peer.{WgPeer}
use tun_safe.Handshake.{Crypto, Laws, Initiation, Response}
use tun_safe.Handshake.Initiator.{
  Opening, initiate, create_message_handshake_initiation, take_response,
  parse_message_handshake_response,
}
use tun_safe.Handshake.Responder.{establish, parse_message_handshake_initiation}
use tun_safe.Handshake.Agree.{public, opening}
use tun_safe.Handshake.Created.{create-IsCreated}
use tun_safe.Handshake.Complete.{Mirror, IsFree, reply, answered, Carries}
use tun_safe.Handshake.Accepted.{take_response-SameKeys, accepted, mirrored}
pub use tun_safe.Handshake.Accepted.{Exchange, CanComplete}

-- A peer that waits for the answer as another does.
pub record Waits (q p : WgPeer) : Type 0 where
  pub hs : q.hs ≡ p.hs
  pub psk : q.preshared_key ≡ p.preshared_key
  pub waiting : q.local_key_id_during_hs ≡ p.local_key_id_during_hs
  pub curr : q.curr_keypair ≡ p.curr_keypair
  pub prev : q.prev_keypair ≡ p.prev_keypair
  pub next : q.next_keypair ≡ p.next_keypair

-- The end of a handshake, for the peer `q` of the initiator.
pub record IsEnded (x : Exchange) (c : Crypto) (dev_i₁ dev_r₁ : WgDevice) (response : Response)
    (q : WgPeer) : Type 0 where
  pub dev_i₂ : WgDevice
  pub peer_i₂ : WgPeer
  pub completed :
      parse_message_handshake_response c dev_i₁
        (update x.peers_i x.i q)
        response
        x.addr
        x.protocol
        x.response_size
        x.completed_at
      ≡ some (x.i, dev_i₂, peer_i₂)
  pub mirror : Mirror (dev_i₂.keypairs x.dev_i.next_keypair) (dev_r₁.keypairs x.dev_r.next_keypair)

-- The first two calls succeed, and the third does whatever happens to the peer that waits between them.
pub record IsUnderWay (c : Crypto) (x : Exchange) : Type 0 where
  pub dev_i₁ : WgDevice
  pub peer_i₁ : WgPeer
  pub initiation : Initiation
  pub created :
      create_message_handshake_initiation c x.dev_i x.i
        (x.peers_i x.i)
        x.random_i
        x.timestamp
        x.created_at
        x.draws_i
      ≡ some (dev_i₁, peer_i₁, initiation)
  pub dev_r₁ : WgDevice
  pub peer_r₁ : WgPeer
  pub response : Response
  pub parsed :
      parse_message_handshake_initiation c x.dev_r x.peers_r initiation x.random_r x.initiation_size
        x.answered_at x.draws_r
      ≡ some (x.r, dev_r₁, peer_r₁, response)
  pub answer :
      establish c x.dev_r x.r
        (x.peers_r x.r)
        initiation
        x.timestamp
        (reply c x.s_i x.s_r
          (c.normalize x.random_i)
          (c.normalize x.random_r)
          x.timestamp
          (x.peers_r x.r).preshared_key)
        x.initiation_size
        x.answered_at
        x.draws_r
      ≡ some (dev_r₁, peer_r₁, response)
  pub ends : (q : WgPeer) → Waits q peer_i₁ → IsEnded x c dev_i₁ dev_r₁ response q

-- The three calls succeed, each on what the one before has left and sent, and the two new keypairs
-- mirror each other.
pub record IsComplete (c : Crypto) (x : Exchange) : Type 0 where
  pub dev_i₁ : WgDevice
  pub peer_i₁ : WgPeer
  pub initiation : Initiation
  pub created :
      create_message_handshake_initiation c x.dev_i x.i
        (x.peers_i x.i)
        x.random_i
        x.timestamp
        x.created_at
        x.draws_i
      ≡ some (dev_i₁, peer_i₁, initiation)
  pub dev_r₁ : WgDevice
  pub peer_r₁ : WgPeer
  pub response : Response
  pub parsed :
      parse_message_handshake_initiation c x.dev_r x.peers_r initiation x.random_r x.initiation_size
        x.answered_at x.draws_r
      ≡ some (x.r, dev_r₁, peer_r₁, response)
  pub dev_i₂ : WgDevice
  pub peer_i₂ : WgPeer
  pub completed :
      parse_message_handshake_response c dev_i₁
        (update x.peers_i x.i peer_i₁)
        response
        x.addr
        x.protocol
        x.response_size
        x.completed_at
      ≡ some (x.i, dev_i₂, peer_i₂)
  pub mirror : Mirror (dev_i₂.keypairs x.dev_i.next_keypair) (dev_r₁.keypairs x.dev_r.next_keypair)

-- The two sides of a handshake, with the peer of the initiator that waits for the answer left open.
pub under_way : (c : Crypto) → Laws c → (x : Exchange) → CanComplete c x → IsUnderWay c x
under_way c laws x can =
    let e_i = c.normalize x.random_i in
    let p = x.peers_i x.i in
    let start =
      create-IsCreated c x.dev_i x.i p x.random_i x.timestamp x.created_at x.draws_i can.old_id
        can.free_i in
    let same : initiate c x.dev_i.s_pub p.s_remote p.s_priv_pub e_i x.timestamp
        ≡ opening c x.s_i x.s_r e_i x.timestamp =
      ap₂ (λ a b. initiate c a b p.s_priv_pub e_i x.timestamp) can.initiator.s_pub
        can.initiator.s_remote
      ∙ ap (λ k. initiate c (public c x.s_i) (public c x.s_r) k e_i x.timestamp)
          can.initiator.s_priv_pub in
    let carries : Carries start.message (opening c x.s_i x.s_r e_i x.timestamp) = record {
      ephemeral = start.ephemeral ∙ ap (λ (o : Opening). o.ephemeral) same;
      static_enc = start.static_enc ∙ ap (λ (o : Opening). o.static_enc) same;
      timestamp_enc = start.timestamp_enc ∙ ap (λ (o : Opening). o.timestamp_enc) same;
    } in
    let (y, parsed) =
      answered c laws x.s_i x.s_r e_i x.timestamp x.random_r x.dev_r x.peers_r x.r start.message
        x.initiation_size x.answered_at x.draws_r can.responder can.known carries can.acceptable
        can.free_r can.slots_r in
    let a =
      reply c x.s_i x.s_r e_i (c.normalize x.random_r) x.timestamp (x.peers_r x.r).preshared_key in
    record {
      dev_i₁ = start.after;
      peer_i₁ = start.peer;
      initiation = start.message;
      created = start.answer;
      dev_r₁ = y.after;
      peer_r₁ = y.peer;
      response = y.message;
      parsed = parsed;
      answer = y.answer;
      ends = λ (q : WgPeer) (w : Waits q start.peer).
          let result =
            take_response c start.after x.i q y.message a.ci x.addr x.protocol x.response_size
              x.completed_at in
          let (curr, prev, next) = start.same_slots in
          let slots : IsFree q start.after.next_keypair = record {
            curr = rw (w.curr, curr, start.same_next) can.slots_i.curr;
            prev = rw (w.prev, prev, start.same_next) can.slots_i.prev;
            next = rw (w.next, next, start.same_next) can.slots_i.next;
          } in
          let keys =
            take_response-SameKeys c start.after x.i q y.message a.ci x.addr x.protocol
              x.response_size x.completed_at slots in
          record {
            dev_i₂ = result.0;
            peer_i₂ = result.1;
            completed =
                accepted c laws x start.after q y.message
                  (ap start.after.key_id_lookup y.receiver ∙ start.owned)
                  (start.same_priv ∙ can.initiator.s_priv)
                  (w.hs ∙ start.hs ∙ ap (λ (o : Opening). o.hs) same) (w.psk ∙ start.psk ∙ can.psk)
                  y.ephemeral y.empty_enc;
            mirror =
                subst (λ k. Mirror (result.0.keypairs k) (y.after.keypairs x.dev_r.next_keypair))
                  start.same_next
                  (mirrored c a.ci start.message.sender_key_id y.message.sender_key_id
                    q.local_key_id_during_hs x.completed_at x.answered_at
                    (result.0.keypairs start.after.next_keypair)
                    (y.after.keypairs x.dev_r.next_keypair) (w.waiting ∙ start.waiting) keys
                    y.keys);
          };
    }

-- When an initiator and a responder are configured for each other, with one preshared key, the
-- timestamp is acceptable, ids can be drawn, the id of an earlier handshake is in the table, and
-- no slot holds the index of the next keypair, then the three calls of a handshake succeed, and
-- the two sides have new keypairs of which each sends with the key, and to the key id, that the
-- other receives with. The key exchange commutes, and decryption undoes encryption.
pub complete_lem : (c : Crypto) → Laws c → (x : Exchange) → CanComplete c x → IsComplete c x
complete_lem c laws x can =
    let u = under_way c laws x can in
    let e =
      u.ends u.peer_i₁
        (record { hs = refl; psk = refl; waiting = refl; curr = refl; prev = refl; next = refl }) in
    record {
      dev_i₁ = u.dev_i₁;
      peer_i₁ = u.peer_i₁;
      initiation = u.initiation;
      created = u.created;
      dev_r₁ = u.dev_r₁;
      peer_r₁ = u.peer_r₁;
      response = u.response;
      parsed = u.parsed;
      dev_i₂ = e.dev_i₂;
      peer_i₂ = e.peer_i₂;
      completed = e.completed;
      mirror = e.mirror;
    }
