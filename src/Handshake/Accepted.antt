-- ===== src/Handshake/Accepted.antt =====
-- The initiator of a handshake accepts the answer, and what it makes of it.
use tun_safe.Base.{
  ℕ, ◌+◌, ◌≡◌, ◌∙◌, refl, sym, ap, ap₂, subst, true, false, none, some, List, ==_refl,
  if◌then◌else◌, if-both,
}
use tun_safe.Keys.{WgDevice, WgKeypair, IpAddr, update}
use tun_safe.Keys.Table.{lookup_peer_in_key_id_lookup}
use tun_safe.Keys.Ids.{HasFree}
use tun_safe.Peer.{WgPeer}
use tun_safe.Peer.Slots.{insert_keypair_in_peer}
use tun_safe.Handshake.{Crypto, Laws, Response}
use tun_safe.Handshake.Keypair.{create_new_keypair, store_keypair}
use tun_safe.Handshake.Initiator.{
  finish, take_response, check_empty, check_receiver, parse_message_handshake_response,
}
use tun_safe.Handshake.Responder.{is_acceptable}
use tun_safe.Handshake.Agree.{public, opening, finish-respond}
use tun_safe.Handshake.Kept.{SameKeys, insert-SameKeys}
use tun_safe.Handshake.Created.{IsConfigured, IsKnown}
use tun_safe.Handshake.Complete.{Mirror, IsFree, reply}

-- An initiator and a responder, and what happens to them: the random bytes, the timestamp, the times
-- and sizes, the numbers drawn for ids, and where the answer comes from.
pub record Exchange : Type 0 where
  pub dev_i : WgDevice
  pub peers_i : ℕ → WgPeer
  pub i : ℕ
  pub dev_r : WgDevice
  pub peers_r : ℕ → WgPeer
  pub r : ℕ
  pub s_i : List ℕ
  pub s_r : List ℕ
  pub random_i : List ℕ
  pub random_r : List ℕ
  pub timestamp : List ℕ
  pub created_at : ℕ
  pub answered_at : ℕ
  pub completed_at : ℕ
  pub initiation_size : ℕ
  pub response_size : ℕ
  pub draws_i : List ℕ
  pub draws_r : List ℕ
  pub addr : IpAddr
  pub protocol : ℕ

-- The two know each other, the responder has seen no later timestamp, and ids can be drawn.
pub record CanComplete (c : Crypto) (x : Exchange) : Type 0 where
  pub initiator : IsConfigured c x.dev_i (x.peers_i x.i) x.s_i (public c x.s_r)
  pub responder : IsConfigured c x.dev_r (x.peers_r x.r) x.s_r (public c x.s_i)
  pub known : x.dev_r.peer_id_lookup (public c x.s_i) ≡ some x.r
  pub psk : (x.peers_i x.i).preshared_key ≡ (x.peers_r x.r).preshared_key
  pub acceptable : is_acceptable (x.peers_r x.r) x.timestamp x.answered_at ≡ true
  pub old_id : IsKnown x.dev_i (x.peers_i x.i).local_key_id_during_hs
  pub free_i : HasFree x.dev_i x.draws_i
  pub free_r : HasFree x.dev_r x.draws_r
  pub slots_i : IsFree (x.peers_i x.i) x.dev_i.next_keypair
  pub slots_r : IsFree (x.peers_r x.r) x.dev_r.next_keypair

lookup_owned :
    (dev : WgDevice) (id self : ℕ)
    → dev.key_id_lookup id ≡ some (self, none)
    → lookup_peer_in_key_id_lookup dev id ≡ some self
unfolding lookup_peer_in_key_id_lookup
lookup_owned dev id self h = rw (h, lookup_peer_in_key_id_lookup) refl

-- The keypair that the initiator makes of the answer.
pub take_response-SameKeys :
    (c : Crypto) (dev : WgDevice) (self : ℕ) (p : WgPeer) (m : Response) (ci : List ℕ)
    (addr : IpAddr) (protocol size now : ℕ)
    → IsFree p dev.next_keypair
    → SameKeys
        ((take_response c dev self p m ci addr protocol size now).0.keypairs dev.next_keypair)
        (record (create_new_keypair c true ci m.sender_key_id now) {
          local_key_id = p.local_key_id_during_hs;
        })
unfolding take_response store_keypair
take_response-SameKeys c dev self p m ci addr protocol size now slots =
    let k = dev.next_keypair in
    let kp = record (create_new_keypair c true ci m.sender_key_id now) {
      local_key_id = p.local_key_id_during_hs;
    } in
    let (dev₁, _) = store_keypair dev kp in
    let dev₂ = record dev₁ {
      key_id_lookup = update dev₁.key_id_lookup m.receiver_key_id (some (self, some k));
    } in
    let q = record p { local_key_id_during_hs = 0; rx_bytes = p.rx_bytes + size } in
    let moved = record q { endpoint = addr; endpoint_protocol = protocol } in
    let q' = if p.allow_endpoint_change then moved else q in
    let free : IsFree q' k =
      if-both (λ (x : WgPeer). IsFree x k) p.allow_endpoint_change
        (record { curr = slots.curr; prev = slots.prev; next = slots.next })
        (record { curr = slots.curr; prev = slots.prev; next = slots.next }) in
    let stored : dev₂.keypairs k ≡ kp = rw (==_refl k) refl in
    subst (λ y. SameKeys ((insert_keypair_in_peer dev₂ self q' k).0.keypairs k) y) stored
      (insert-SameKeys dev₂ self q' k free.curr free.prev free.next)

-- The initiator accepts the answer.
pub accepted :
    (c : Crypto) (laws : Laws c) (x : Exchange) (dev : WgDevice) (p : WgPeer) (m : Response)
    → let e_i = c.normalize x.random_i in
      let a =
        reply c x.s_i x.s_r e_i
          (c.normalize x.random_r)
          x.timestamp
          (x.peers_r x.r).preshared_key in
      let result =
        take_response c dev x.i p m a.ci x.addr x.protocol x.response_size x.completed_at in
      dev.key_id_lookup m.receiver_key_id ≡ some (x.i, none)
      → dev.s_priv ≡ x.s_i
      → p.hs ≡ (opening c x.s_i x.s_r e_i x.timestamp).hs
      → p.preshared_key ≡ (x.peers_r x.r).preshared_key
      → m.ephemeral ≡ a.ephemeral
      → m.empty_enc ≡ a.empty_enc
      → parse_message_handshake_response c dev
          (update x.peers_i x.i p)
          m
          x.addr
          x.protocol
          x.response_size
          x.completed_at
        ≡ some (x.i, result.0, result.1)
unfolding parse_message_handshake_response check_receiver check_empty
accepted c laws x dev p m owned priv hs psk ephemeral empty_enc =
    let e_i = c.normalize x.random_i in
    let e_r = c.normalize x.random_r in
    let key = (x.peers_r x.r).preshared_key in
    let o = opening c x.s_i x.s_r e_i x.timestamp in
    let a = reply c x.s_i x.s_r e_i e_r x.timestamp key in
    let same_peer : update x.peers_i x.i p x.i ≡ p = rw (==_refl x.i) refl in
    let finished : finish c p.hs dev.s_priv p.preshared_key m.ephemeral m.empty_enc ≡ some a.ci =
      ap₂ (λ h s. finish c h s p.preshared_key m.ephemeral m.empty_enc) hs priv
      ∙ ap (λ k. finish c o.hs x.s_i k m.ephemeral m.empty_enc) psk
      ∙ ap₂ (finish c o.hs x.s_i key) ephemeral empty_enc
      ∙ finish-respond c laws x.s_i x.s_r e_i x.timestamp e_r key in
    ap
      (check_receiver c dev (update x.peers_i x.i p) m x.addr x.protocol x.response_size
        x.completed_at)
      (lookup_owned dev m.receiver_key_id x.i owned)
    ∙ ap
        (λ q.
          check_empty c dev x.i q m x.addr x.protocol x.response_size x.completed_at
            (finish c q.hs dev.s_priv q.preshared_key m.ephemeral m.empty_enc))
        same_peer
    ∙ ap (check_empty c dev x.i p m x.addr x.protocol x.response_size x.completed_at) finished

-- Keypairs that are made of one chaining key in the two roles.
pub mirrored :
    (c : Crypto) (ci : List ℕ) (id_i id_r waiting now_i now_r : ℕ) (a b : WgKeypair)
    → waiting ≡ id_i
    → SameKeys a (record (create_new_keypair c true ci id_r now_i) { local_key_id = waiting })
    → SameKeys b (record (create_new_keypair c false ci id_i now_r) { local_key_id = id_r })
    → Mirror a b
unfolding create_new_keypair
mirrored c ci id_i id_r waiting now_i now_r a b e s t = record {
  there = s.send_key ∙ sym t.recv_key;
  back = s.recv_key ∙ sym t.send_key;
  id_there = s.remote_key_id ∙ sym t.local_key_id;
  id_back = t.remote_key_id ∙ sym e ∙ sym s.local_key_id;
}
