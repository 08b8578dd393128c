-- ===== src/Handshake/Agree.antt =====
-- The two sides of the exchange compute the same chaining key.
use tun_safe.Base.{ℕ, ◌≡◌, refl, some, List}
use tun_safe.Handshake.{Crypto, Laws, init_hash, init_chaining_key, blake_mix, compute_hkdf2_dh}
use tun_safe.Handshake.Initiator.{Opening, initiate, finish}
use tun_safe.Handshake.Responder.{Opened, open_static, open_timestamp, respond}

-- The public key of a private key.
abbrev pub public : Crypto → List ℕ → List ℕ
public c s = c.dh s c.basepoint

-- The opening of the initiator with the private keys `s_i` and `e_i`.
abbrev pub opening : Crypto → List ℕ → List ℕ → List ℕ → List ℕ → Opening
opening c s_i s_r e_i timestamp =
    initiate c (public c s_i) (public c s_r) (c.dh s_i (public c s_r)) e_i timestamp

-- What the responder has after the first half.
abbrev pub opened : Crypto → List ℕ → List ℕ → List ℕ → List ℕ → Opened
opened c s_i s_r e_i timestamp =
    let o = opening c s_i s_r e_i timestamp in
    let hi₁ = blake_mix c (blake_mix c init_hash (public c s_r)) o.ephemeral in
    let (ci₀, _, _) = c.hkdf o.ephemeral init_chaining_key in
    record {
      spubi = public c s_i;
      hi = blake_mix c hi₁ o.static_enc;
      ci = (compute_hkdf2_dh c ci₀ e_i (public c s_r)).0;
    }

module _ (c : Crypto) (laws : Laws c) (s_i s_r e_i timestamp : List ℕ) where
  abbrev o : Opening
  o = opening c s_i s_r e_i timestamp

  -- The responder reads the initiator's public key.
  pub open_static-initiate :
      open_static c s_r (public c s_r) o.ephemeral o.static_enc
      ≡ some (opened c s_i s_r e_i timestamp)
  unfolding initiate open_static
  open_static-initiate =
      rw (← laws.dh_comm e_i s_r, laws.decrypt-encrypt, open_static)
        (rw (laws.dh_comm e_i s_r) refl)

  -- It reads the timestamp, and has the initiator's hash and chaining key.
  pub open_timestamp-initiate :
      open_timestamp c (c.dh s_r (public c s_i)) (opened c s_i s_r e_i timestamp) o.timestamp_enc
      ≡ some (timestamp, o.hs.hi, o.hs.ci)
  unfolding initiate open_timestamp
  open_timestamp-initiate =
      rw (laws.dh_comm s_r s_i, laws.decrypt-encrypt, open_timestamp)
        (rw (laws.dh_comm s_r s_i) refl)

  -- The initiator accepts the answer, and has the responder's chaining key.
  pub finish-respond :
      (e_r preshared_key : List ℕ)
      → let a = respond c o.hs.hi o.hs.ci e_r o.ephemeral (public c s_i) preshared_key in
        finish c o.hs s_i preshared_key a.ephemeral a.empty_enc ≡ some a.ci
  unfolding initiate respond finish
  finish-respond e_r preshared_key =
      rw (laws.dh_comm e_i e_r, laws.dh_comm s_i e_r, laws.decrypt-encrypt, finish)
        (rw (laws.dh_comm e_i e_r, laws.dh_comm s_i e_r) refl)
