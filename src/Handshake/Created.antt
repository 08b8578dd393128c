-- ===== src/Handshake/Created.antt =====
-- What CreateMessageHandshakeInitiation leaves: a message, and a peer that waits for its answer.
use tun_safe.Base.{ℕ, ◌≡◌, ◌≢◌, refl, ap, ◌⊎◌, Option, none, some, List, arith}
use tun_safe.Keys.{WgDevice}
use tun_safe.Keys.Ids.{HasFree, insert_in_key_id_lookup_lem}
use tun_safe.Peer.{WgPeer}
use tun_safe.Handshake.{Crypto, Initiation, write_mac_to_packet}
use tun_safe.Handshake.Initiator.{
  Opening, initiate, initiation_message, create_message_handshake_initiation,
}
use tun_safe.Handshake.Agree.{public}

-- The configuration of one side, as SetPrivateKey and SetPublicKey leave it: `s` is its own private
-- key, `remote` the other's public one.
pub record IsConfigured (c : Crypto) (dev : WgDevice) (p : WgPeer) (s remote : List ℕ)
    : Type 0 where
  pub s_priv : dev.s_priv ≡ s
  pub s_pub : dev.s_pub ≡ public c s
  pub s_remote : p.s_remote ≡ remote
  pub s_priv_pub : p.s_priv_pub ≡ c.dh s remote

-- The id that a handshake had before it, if any, is in the table.
abbrev pub IsKnown : WgDevice → ℕ → Type 0
IsKnown dev id = (id ≡ 0) ⊎ (dev.key_id_lookup id ≢ none)

-- A message that was made: the device has its id, and the peer waits for the answer.
pub record IsCreated (dev : WgDevice) (self : ℕ) (p : WgPeer) (o : Opening)
    (result : Option (WgDevice × WgPeer × Initiation)) : Type 0 where
  pub after : WgDevice
  pub peer : WgPeer
  pub message : Initiation
  pub answer : result ≡ some (after, peer, message)
  pub ephemeral : message.ephemeral ≡ o.ephemeral
  pub static_enc : message.static_enc ≡ o.static_enc
  pub timestamp_enc : message.timestamp_enc ≡ o.timestamp_enc
  pub owned : after.key_id_lookup message.sender_key_id ≡ some (self, none)
  pub same_priv : after.s_priv ≡ dev.s_priv
  pub waiting : peer.local_key_id_during_hs ≡ message.sender_key_id
  pub hs : peer.hs ≡ o.hs
  pub psk : peer.preshared_key ≡ p.preshared_key
  pub same_slots :
      (peer.curr_keypair ≡ p.curr_keypair)
      × (peer.prev_keypair ≡ p.prev_keypair)
      × (peer.next_keypair ≡ p.next_keypair)
  pub same_next : after.next_keypair ≡ dev.next_keypair
  pub same_endpoint : (peer.endpoint ≡ p.endpoint) × (peer.endpoint_protocol ≡ p.endpoint_protocol)

-- WriteMacToPacket changes only what is about the macs.
mac_keeps :
    (c : Crypto) (p : WgPeer) (now : ℕ) (bytes : List ℕ)
    → let q = (write_mac_to_packet c p now bytes).0 in
      (q.local_key_id_during_hs ≡ p.local_key_id_during_hs)
      × (q.hs ≡ p.hs)
      × (q.preshared_key ≡ p.preshared_key)
      × (q.curr_keypair ≡ p.curr_keypair)
      × (q.prev_keypair ≡ p.prev_keypair)
      × (q.next_keypair ≡ p.next_keypair)
      × (q.endpoint ≡ p.endpoint)
      × (q.endpoint_protocol ≡ p.endpoint_protocol)
unfolding write_mac_to_packet
mac_keeps c p now bytes = ground arith

pub create-IsCreated :
    (c : Crypto) (dev : WgDevice) (self : ℕ) (p : WgPeer) (random timestamp : List ℕ) (now : ℕ)
    (draws : List ℕ)
    → IsKnown dev p.local_key_id_during_hs
    → HasFree dev draws
    → IsCreated dev self p
        (initiate c dev.s_pub p.s_remote p.s_priv_pub (c.normalize random) timestamp)
        (create_message_handshake_initiation c dev self p random timestamp now draws)
unfolding create_message_handshake_initiation initiation_message
create-IsCreated c dev self p random timestamp now draws known free =
    let o = initiate c dev.s_pub p.s_remote p.s_priv_pub (c.normalize random) timestamp in
    let ins = insert_in_key_id_lookup_lem dev self none p.local_key_id_during_hs draws known free in
    let made = initiation_message c p o ins.id now in
    let kept = mac_keeps c (record p { hs = o.hs; local_key_id_during_hs = ins.id }) now in
    record {
      after = ins.after;
      peer = made.0;
      message = made.1;
      answer = rw (ins.answer, create_message_handshake_initiation) refl;
      ephemeral = refl;
      static_enc = refl;
      timestamp_enc = refl;
      owned = ins.owned;
      same_priv = ap (λ (d : WgDevice). d.s_priv) ins.same_rest;
      waiting = (kept _).0;
      hs = (kept _).1;
      psk = (kept _).2;
      same_slots = ((kept _).3, (kept _).4, (kept _).5);
      same_next = ap (λ (d : WgDevice). d.next_keypair) ins.same_rest;
      same_endpoint = ((kept _).6, (kept _).7);
    }
