-- ===== src/Handshake/Complete.antt =====
-- A whole handshake: initiation, response, and the keypairs that the two sides have then.
use tun_safe.Base.{
  ℕ, ◌+◌, ◌≡◌, ◌∙◌, refl, ap, ap₂, subst, inl, true, false, Option, some, List, ==_refl,
}
use tun_safe.Keys.{WgDevice, WgKeypair, put_keypair}
use tun_safe.Keys.Ids.{HasFree, insert_in_key_id_lookup_lem}
use tun_safe.Peer.{WgPeer}
use tun_safe.Peer.Slots.{insert_keypair_in_peer}
use tun_safe.Peer.Settled.{Apart}
use tun_safe.Handshake.{Crypto, Laws, Initiation, Response}
use tun_safe.Handshake.Keypair.{create_new_keypair, store_keypair}
use tun_safe.Handshake.Initiator.{Opening}
use tun_safe.Handshake.Responder.{
  Opened, Answer, open_static, open_timestamp, respond, is_acceptable, answer_message, establish,
  check_timestamp, check_peer, check_static, parse_message_handshake_initiation,
}
use tun_safe.Handshake.Agree.{
  public, opening, opened, open_static-initiate, open_timestamp-initiate,
}
use tun_safe.Handshake.Kept.{SameKeys, insert-SameKeys}
use tun_safe.Handshake.Created.{IsConfigured}

-- Each side sends with the key and to the id that the other receives with.
pub record Mirror (a b : WgKeypair) : Type 0 where
  pub there : a.send_key ≡ b.recv_key
  pub back : a.recv_key ≡ b.send_key
  pub id_there : a.remote_key_id ≡ b.local_key_id
  pub id_back : b.remote_key_id ≡ a.local_key_id

-- No slot of the peer holds the keypair.
pub record IsFree (p : WgPeer) (k : ℕ) : Type 0 where
  pub curr : Apart p.curr_keypair (some k)
  pub prev : Apart p.prev_keypair (some k)
  pub next : Apart p.next_keypair (some k)

-- An answer that was made: its fields, and the keypair that it stands for.
pub record IsAnswered (c : Crypto) (dev : WgDevice) (a : Answer) (remote_key_id now : ℕ)
    (result : Option (WgDevice × WgPeer × Response)) : Type 0 where
  pub after : WgDevice
  pub peer : WgPeer
  pub message : Response
  pub answer : result ≡ some (after, peer, message)
  pub ephemeral : message.ephemeral ≡ a.ephemeral
  pub empty_enc : message.empty_enc ≡ a.empty_enc
  pub receiver : message.receiver_key_id ≡ remote_key_id
  pub keys :
      SameKeys
        (after.keypairs dev.next_keypair)
        (record (create_new_keypair c false a.ci remote_key_id now) {
          local_key_id = message.sender_key_id;
        })

establish-IsAnswered :
    (c : Crypto) (dev : WgDevice) (self : ℕ) (p : WgPeer) (m : Initiation) (timestamp : List ℕ)
    (a : Answer) (size now : ℕ) (draws : List ℕ)
    → HasFree dev draws
    → IsFree p dev.next_keypair
    → IsAnswered c dev a m.sender_key_id now (establish c dev self p m timestamp a size now draws)
unfolding establish store_keypair answer_message
establish-IsAnswered c dev self p m timestamp a size now draws free slots =
    let kp = create_new_keypair c false a.ci m.sender_key_id now in
    let (dev₁, k) = store_keypair dev kp in
    let ins = insert_in_key_id_lookup_lem dev₁ self (some k) 0 draws (inl refl) free in
    let dev₃ = put_keypair ins.after k (record kp { local_key_id = ins.id }) in
    let made = answer_message c dev₃ self p k ins.id m.sender_key_id timestamp a size now in
    let q = record p {
      last_handshake_init_recv_timestamp = now;
      last_timestamp = timestamp;
      rx_bytes = p.rx_bytes + size;
      tx_bytes = p.tx_bytes + 92;
    } in
    let stored : dev₃.keypairs k ≡ record kp { local_key_id = ins.id } = rw (==_refl k) refl in
    record {
      after = made.0;
      peer = made.1;
      message = made.2;
      answer = rw (ins.answer, establish) refl;
      ephemeral = refl;
      empty_enc = refl;
      receiver = refl;
      keys =
          subst (λ x. SameKeys ((insert_keypair_in_peer dev₃ self q k).0.keypairs k) x) stored
            (insert-SameKeys dev₃ self q k slots.curr slots.prev slots.next);
    }

-- The responder's answer to an initiation, as the exchange goes.
abbrev pub reply : Crypto → List ℕ → List ℕ → List ℕ → List ℕ → List ℕ → List ℕ → Answer
reply c s_i s_r e_i e_r timestamp preshared_key =
    let o = opening c s_i s_r e_i timestamp in
    respond c o.hs.hi o.hs.ci e_r o.ephemeral (public c s_i) preshared_key

-- A message of the initiator that arrives at the responder.
pub record Carries (m : Initiation) (o : Opening) : Type 0 where
  pub ephemeral : m.ephemeral ≡ o.ephemeral
  pub static_enc : m.static_enc ≡ o.static_enc
  pub timestamp_enc : m.timestamp_enc ≡ o.timestamp_enc

-- A timestamp that is accepted.
accepted_eq :
    (c : Crypto) (dev : WgDevice) (self : ℕ) (p : WgPeer) (m : Initiation) (random : List ℕ)
    (size now : ℕ) (draws timestamp hi ci : List ℕ)
    → is_acceptable p timestamp now ≡ true
    → check_timestamp c dev self p m random size now draws (some (timestamp, hi, ci))
      ≡ establish c dev self p m timestamp
          (respond c hi ci (c.normalize random) m.ephemeral p.s_remote p.preshared_key)
          size
          now
          draws
unfolding check_timestamp
accepted_eq c dev self p m random size now draws timestamp hi ci h = rw h refl

peer_eq :
    (c : Crypto) (dev : WgDevice) (peers : ℕ → WgPeer) (m : Initiation) (random : List ℕ)
    (size now : ℕ) (draws : List ℕ) (o : Opened) (self : ℕ) (after : WgDevice) (q : WgPeer)
    (r : Response)
    → check_timestamp c dev self
        (peers self)
        m
        random
        size
        now
        draws
        (open_timestamp c (peers self).s_priv_pub o m.timestamp_enc)
      ≡ some (after, q, r)
    → check_peer c dev peers m random size now draws o (some self) ≡ some (self, after, q, r)
unfolding check_peer
peer_eq c dev peers m random size now draws o self after q r h = rw (h, check_peer) refl

module _ (c : Crypto) (laws : Laws c) (s_i s_r e_i timestamp random : List ℕ) where
  abbrev o : Opening
  o = opening c s_i s_r e_i timestamp

  check_timestamp_lem :
      (dev : WgDevice) (self : ℕ) (p : WgPeer) (m : Initiation) (size now : ℕ) (draws : List ℕ)
      → IsConfigured c dev p s_r (public c s_i)
      → Carries m o
      → is_acceptable p timestamp now ≡ true
      → check_timestamp c dev self p m random size now draws
          (open_timestamp c p.s_priv_pub (opened c s_i s_r e_i timestamp) m.timestamp_enc)
        ≡ establish c dev self p m timestamp
            (reply c s_i s_r e_i (c.normalize random) timestamp p.preshared_key)
            size
            now
            draws
  check_timestamp_lem dev self p m size now draws configured carries acceptable =
      ap₂
        (λ x y.
          check_timestamp c dev self p m random size now draws
            (open_timestamp c x (opened c s_i s_r e_i timestamp) y))
        configured.s_priv_pub carries.timestamp_enc
      ∙ ap (check_timestamp c dev self p m random size now draws)
          (open_timestamp-initiate c laws s_i s_r e_i timestamp)
      ∙ accepted_eq c dev self p m random size now draws timestamp o.hs.hi o.hs.ci acceptable
      ∙ ap₂
          (λ x y.
            establish c dev self p m timestamp
              (respond c o.hs.hi o.hs.ci (c.normalize random) x y p.preshared_key) size now draws)
          carries.ephemeral configured.s_remote

  open_static_lem :
      (dev : WgDevice) (p : WgPeer) (m : Initiation)
      → IsConfigured c dev p s_r (public c s_i)
      → Carries m o
      → open_static c dev.s_priv dev.s_pub m.ephemeral m.static_enc
        ≡ some (opened c s_i s_r e_i timestamp)
  open_static_lem dev p m configured carries =
      ap₂ (λ x y. open_static c x y m.ephemeral m.static_enc) configured.s_priv configured.s_pub
      ∙ ap₂ (λ x y. open_static c s_r (public c s_r) x y) carries.ephemeral carries.static_enc
      ∙ open_static-initiate c laws s_i s_r e_i timestamp

  -- The responder answers.
  pub answered :
      (dev : WgDevice) (peers : ℕ → WgPeer) (self : ℕ) (m : Initiation) (size now : ℕ)
      (draws : List ℕ)
      → IsConfigured c dev (peers self) s_r (public c s_i)
      → dev.peer_id_lookup (public c s_i) ≡ some self
      → Carries m o
      → is_acceptable (peers self) timestamp now ≡ true
      → HasFree dev draws
      → IsFree (peers self) dev.next_keypair
      → let a = reply c s_i s_r e_i (c.normalize random) timestamp (peers self).preshared_key in
        (x : IsAnswered c dev a m.sender_key_id now
          (establish c dev self (peers self) m timestamp a size now draws))
        × (parse_message_handshake_initiation c dev peers m random size now draws
            ≡ some (self, x.after, x.peer, x.message))
  unfolding parse_message_handshake_initiation check_static
  answered dev peers self m size now draws configured known carries acceptable free slots =
      let p = peers self in
      let a = reply c s_i s_r e_i (c.normalize random) timestamp p.preshared_key in
      let x = establish-IsAnswered c dev self p m timestamp a size now draws free slots in
      let o₁ = opened c s_i s_r e_i timestamp in
      (
        x,
        ap (check_static c dev peers m random size now draws)
              (open_static_lem dev p m configured carries)
            ∙ ap (check_peer c dev peers m random size now draws o₁) known
            ∙ peer_eq c dev peers m random size now draws o₁ self x.after x.peer x.message (
                check_timestamp_lem dev self p m size now draws configured carries acceptable
                ∙ x.answer),
      )
