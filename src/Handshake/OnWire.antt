-- ===== src/Handshake/OnWire.antt =====
-- The messages of a handshake as they are sent: the sizes of their fields, and their macs.
use tun_safe.Base.{
  ℕ, ◌+◌, ◌^◌, ◌<◌, ◌≡◌, ◌∙◌, refl, sym, ap, true, Option, none, some, List, [], ◌∷◌, length, arith,
  All, Option-cases, inl, inr,
}
use mathlib.Core.Option.{none-ne-some, some-injective}
use tun_safe.Keys.{WgDevice, IpAddr}
use tun_safe.Keys.Table.{insert_in_key_id_lookup}
use tun_safe.Peer.{WgPeer}
use tun_safe.Handshake.{Crypto, IsSized, Initiation, initiation_bytes}
use tun_safe.Handshake.Initiator.{
  Opening, initiate, initiation_message, create_message_handshake_initiation,
}
use tun_safe.Handshake.Cookie.{check_cookie_mac1}
use tun_safe.Handshake.Macs.{length-macs, check_cookie_mac1-write_mac_to_packet}
use tun_safe.Handshake.Wire.{write_initiation, IsInitiationSized}

-- The sizes of what the ciphers make: a point has 32 bytes, and a tag 16.
pub record Sizes (c : Crypto) : Type 0 where
  pub mac : IsSized c
  pub point : (a b : List ℕ) → length (c.dh a b) ≡ 32
  pub sealed :
      (k : List ℕ) (n : ℕ) (text ad : List ℕ) → length (c.encrypt k n text ad) ≡ length text + 16

-- An id is one of the numbers drawn.
pub inserted_id-lt :
    (bound : ℕ) (dev : WgDevice) (peer : ℕ) (kp : Option ℕ) (old : ℕ) (draws : List ℕ) (id : ℕ)
    (after : WgDevice)
    → All (λ v. v < bound) draws
    → insert_in_key_id_lookup dev peer kp old draws ≡ some (id, after)
    → id < bound
unfolding insert_in_key_id_lookup
inserted_id-lt bound dev peer kp old [] id after h e = cc
inserted_id-lt bound dev peer kp old (v ∷ draws) id after (hv, h) e =
    ground (arith, inserted_id-lt bound dev peer kp old draws id after h)

-- An id that is inserted leaves the keys of the device alone.
pub inserted-keys :
    (dev : WgDevice) (peer : ℕ) (kp : Option ℕ) (old : ℕ) (draws : List ℕ) (id : ℕ)
    (after : WgDevice)
    → insert_in_key_id_lookup dev peer kp old draws ≡ some (id, after)
    → (after.is_private_key_initialized ≡ dev.is_private_key_initialized)
      × (after.precomputed_mac1_key ≡ dev.precomputed_mac1_key)
unfolding insert_in_key_id_lookup
inserted-keys dev peer kp old [] id after e = cc
inserted-keys dev peer kp old (v ∷ draws) id after e =
    ground (arith, inserted-keys dev peer kp old draws id after)

-- A message that was made, with the id that it got.
pub create-some :
    (c : Crypto) (dev : WgDevice) (self : ℕ) (p : WgPeer) (random timestamp : List ℕ) (now : ℕ)
    (draws : List ℕ) (after : WgDevice) (q : WgPeer) (m : Initiation)
    → create_message_handshake_initiation c dev self p random timestamp now draws
      ≡ some (after, q, m)
    → (id : ℕ) × (insert_in_key_id_lookup dev self none p.local_key_id_during_hs draws
        ≡ some (id, after))
      × (initiation_message c p
            (initiate c dev.s_pub p.s_remote p.s_priv_pub (c.normalize random) timestamp)
            id
            now
          ≡ (q, m))
unfolding create_message_handshake_initiation
create-some c dev self p random timestamp now draws after q m e =
    let o = initiate c dev.s_pub p.s_remote p.s_priv_pub (c.normalize random) timestamp in
    elim (Option-cases (insert_in_key_id_lookup dev self none p.local_key_id_during_hs draws)) [
      | inl missing ↦
          let eq : create_message_handshake_initiation c dev self p random timestamp now draws
              ≡ none =
            rw (missing, create_message_handshake_initiation) refl in
          absurd (none-ne-some _ (sym eq ∙ e))
      | inr ((id, dev'), found) ↦
          let (q', m') = initiation_message c p o id now in
          let eq : create_message_handshake_initiation c dev self p random timestamp now draws
              ≡ some (dev', q', m') =
            rw (found, create_message_handshake_initiation) refl in
          let same = some-injective _ _ (sym eq ∙ e) in
          (
            id,
            found ∙ ap (λ (t : WgDevice × WgPeer × Initiation). some (id, t.0)) same,
            ap (λ (t : WgDevice × WgPeer × Initiation). (t.1, t.2)) same,
          )
    ]

module _ (c : Crypto) (sizes : Sizes c) where
  -- A message with its macs, of a peer whose key for the first mac is `key`.
  pub initiation-IsInitiationSized :
      (p : WgPeer) (o : Opening) (id now : ℕ)
      → id < 2 ^ 32
      → length o.ephemeral ≡ 32
      → length o.static_enc ≡ 48
      → length o.timestamp_enc ≡ 28
      → IsInitiationSized ((initiation_message c p o id now).1)
  unfolding initiation_message
  initiation-IsInitiationSized p o id now h he hs ht =
      let q = record p { hs = o.hs; local_key_id_during_hs = id } in
      let macs = length-macs c sizes.mac q now in
      record {
        sender_key_id = h;
        ephemeral = he;
        static_enc = hs;
        timestamp_enc = ht;
        mac1 = (macs _).0;
        mac2 = (macs _).1;
      }

  pub initiate-sizes :
      (s_pub s_remote s_priv_pub e timestamp : List ℕ)
      → length s_pub ≡ 32
      → length timestamp ≡ 12
      → let o = initiate c s_pub s_remote s_priv_pub e timestamp in
        (length o.ephemeral ≡ 32) × (length o.static_enc ≡ 48) × (length o.timestamp_enc ≡ 28)
  unfolding initiate
  initiate-sizes s_pub s_remote s_priv_pub e timestamp hs ht = (
    sizes.point e c.basepoint,
    sizes.sealed _ 0 s_pub _ ∙ omega arith,
    sizes.sealed _ 0 timestamp _ ∙ omega arith,
  )

  pub initiation-mac1 :
      (dev : WgDevice) (p : WgPeer) (o : Opening) (id now protocol : ℕ) (addr : IpAddr)
      → p.precomputed_mac1_key ≡ dev.precomputed_mac1_key
      → check_cookie_mac1 c dev (record {
        bytes = write_initiation (initiation_message c p o id now).1;
        protocol = protocol;
        addr = addr;
      })
        ≡ true
  unfolding initiation_message write_initiation initiation_bytes
  initiation-mac1 dev p o id now protocol addr key =
      check_cookie_mac1-write_mac_to_packet c dev
        (record p { hs = o.hs; local_key_id_during_hs = id }) now protocol _ addr sizes.mac key
