-- ===== src/Handshake/OnWireBack.antt =====
-- The answer of a handshake as it is sent.
use tun_safe.Base.{
  ℕ, ◌+◌, ◌^◌, ◌<◌, ◌≡◌, ◌∙◌, refl, sym, Bool, true, false, Option, none, some, List, [], length,
  Option-cases, inl, inr,
}
use mathlib.Core.Option.{none-ne-some, some-injective}
use tun_safe.Keys.{WgDevice, IpAddr, put_keypair}
use tun_safe.Keys.Table.{insert_in_key_id_lookup}
use tun_safe.Peer.{WgPeer}
use tun_safe.Peer.Slots.{insert_keypair_in_peer, place_keypair}
use tun_safe.Peer.Timers.{on_handshake_auth_complete}
use tun_safe.Handshake.{Crypto, Initiation, Response, response_bytes}
use tun_safe.Handshake.Keypair.{create_new_keypair, store_keypair}
use tun_safe.Handshake.Responder.{Answer, respond, answer_message, establish}
use tun_safe.Handshake.Cookie.{check_cookie_mac1}
use tun_safe.Handshake.Macs.{length-macs, check_cookie_mac1-write_mac_to_packet}
use tun_safe.Handshake.Wire.{write_response, IsResponseSized}
use tun_safe.Handshake.OnWire.{Sizes}

-- The key for the first mac stays when a keypair is put into a slot.
place-mac1_key :
    (is_initiator : Bool) (next : Option ℕ) (dev : WgDevice) (p : WgPeer) (k : ℕ)
    → (place_keypair is_initiator next dev p k).1.precomputed_mac1_key ≡ p.precomputed_mac1_key
unfolding place_keypair
place-mac1_key true (some n) dev p k = refl
place-mac1_key true none dev p k = refl
place-mac1_key false next dev p k = refl

insert-mac1_key :
    (dev : WgDevice) (self : ℕ) (p : WgPeer) (k : ℕ)
    → (insert_keypair_in_peer dev self p k).1.precomputed_mac1_key ≡ p.precomputed_mac1_key
unfolding insert_keypair_in_peer
insert-mac1_key dev self p k = place-mac1_key _ p.next_keypair _ _ k

-- An answer that was made, with the id that it got.
pub establish-some :
    (c : Crypto) (dev : WgDevice) (self : ℕ) (p : WgPeer) (m : Initiation) (timestamp : List ℕ)
    (a : Answer) (size now : ℕ) (draws : List ℕ) (after : WgDevice) (q : WgPeer) (r : Response)
    → establish c dev self p m timestamp a size now draws ≡ some (after, q, r)
    → let kp = create_new_keypair c false a.ci m.sender_key_id now in
      let (dev₁, k) = store_keypair dev kp in
      (id : ℕ) × (dev₂ : WgDevice) × (insert_in_key_id_lookup dev₁ self (some k) 0 draws
        ≡ some (id, dev₂))
      × (answer_message c
            (put_keypair dev₂ k (record kp { local_key_id = id }))
            self
            p
            k
            id
            m.sender_key_id
            timestamp
            a
            size
            now
          ≡ (after, q, r))
unfolding establish
establish-some c dev self p m timestamp a size now draws after q r e =
    let kp = create_new_keypair c false a.ci m.sender_key_id now in
    let (dev₁, k) = store_keypair dev kp in
    elim (Option-cases (insert_in_key_id_lookup dev₁ self (some k) 0 draws)) [
      | inl missing ↦
          let eq : establish c dev self p m timestamp a size now draws ≡ none =
            rw (missing, establish) refl in
          absurd (none-ne-some _ (sym eq ∙ e))
      | inr ((id, dev₂), found) ↦
          let eq : establish c dev self p m timestamp a size now draws
              ≡ some (
                  answer_message c (put_keypair dev₂ k (record kp { local_key_id = id })) self p k
                    id m.sender_key_id timestamp a size now) =
            rw (found, establish) refl in
          (id, dev₂, found, some-injective _ _ (sym eq ∙ e))
    ]

-- The peer that signs the answer.
abbrev answering : WgDevice → ℕ → WgPeer → ℕ → List ℕ → ℕ → ℕ → WgPeer
answering dev self p k timestamp size now =
    let q = record p {
      last_handshake_init_recv_timestamp = now;
      last_timestamp = timestamp;
      rx_bytes = p.rx_bytes + size;
      tx_bytes = p.tx_bytes + 92;
    } in
    on_handshake_auth_complete (insert_keypair_in_peer dev self q k).1

module _ (c : Crypto) (sizes : Sizes c) where
  pub answer-IsResponseSized :
      (dev : WgDevice) (self : ℕ) (p : WgPeer) (k id remote_key_id : ℕ) (timestamp : List ℕ)
      (a : Answer) (size now : ℕ)
      → id < 2 ^ 32
      → remote_key_id < 2 ^ 32
      → length a.ephemeral ≡ 32
      → length a.empty_enc ≡ 16
      → IsResponseSized ((answer_message c dev self p k id remote_key_id timestamp a size now).2)
  unfolding answer_message
  answer-IsResponseSized dev self p k id remote_key_id timestamp a size now hi hr he hm =
      let macs = length-macs c sizes.mac (answering dev self p k timestamp size now) now in
      record {
        sender_key_id = hi;
        receiver_key_id = hr;
        ephemeral = he;
        empty_enc = hm;
        mac1 = (macs _).0;
        mac2 = (macs _).1;
      }

  pub respond-sizes :
      (hi ci e_priv ephemeral s_remote psk : List ℕ)
      → let a = respond c hi ci e_priv ephemeral s_remote psk in
        (length a.ephemeral ≡ 32) × (length a.empty_enc ≡ 16)
  unfolding respond
  respond-sizes hi ci e_priv ephemeral s_remote psk =
      (sizes.point e_priv c.basepoint, sizes.sealed _ 0 [] _)

  pub answer-mac1 :
      (dev to : WgDevice) (self : ℕ) (p : WgPeer) (k id remote_key_id : ℕ) (timestamp : List ℕ)
      (a : Answer) (size now protocol : ℕ) (addr : IpAddr)
      → p.precomputed_mac1_key ≡ to.precomputed_mac1_key
      → check_cookie_mac1 c to (record {
        bytes =
            write_response (answer_message c dev self p k id remote_key_id timestamp a size now).2;
        protocol = protocol;
        addr = addr;
      })
        ≡ true
  unfolding answer_message write_response response_bytes on_handshake_auth_complete
  answer-mac1 dev to self p k id remote_key_id timestamp a size now protocol addr key =
      check_cookie_mac1-write_mac_to_packet c to (answering dev self p k timestamp size now) now
        protocol _ addr sizes.mac (insert-mac1_key dev self _ k ∙ key)
