-- ===== src/Handshake/Ready.antt =====
-- What SetPrivateKey and SetPublicKey leave is what a handshake relies on.
use tun_safe.Base.{
  ℕ, ◌≡◌, ◌∙◌, refl, sym, ap, ◌⊎◌, inl, inr, true, Option, none, some, List, [], ◌∷◌, ==_refl,
  arith, ℕ_discrete, IsIn, subst,
}
use tun_safe.Base.Bytes.{bytes_eq_refl}
use tun_safe.Keys.{WgDevice, update}
use tun_safe.Peer.{WgPeer}
use tun_safe.Peer.Slots.{clear_keys, clear_handshake}
use tun_safe.Handshake.{Crypto, label_cookie, label_mac1, blake_x2}
use tun_safe.Handshake.Agree.{public}
use tun_safe.Handshake.Created.{IsConfigured}
use tun_safe.Handshake.Config.{
  precompute, update_bytes, apply_private_key, set_public_key, recompute, set_private_key,
}
use tun_safe.Handshake.SameDevice.{
  SameDevice, SameDevice-trans, clear_keys-SameDevice, clear_handshake-SameDevice,
}

-- A peer that is ready for a handshake with the owner of the public key `remote`: nothing is left of
-- an earlier one.
pub record IsReady (c : Crypto) (dev : WgDevice) (p : WgPeer) (s remote : List ℕ) : Type 0 where
  pub configured : IsConfigured c dev p s remote
  pub mac1_key : p.precomputed_mac1_key ≡ blake_x2 c 32 label_mac1 remote
  pub cookie_key : p.precomputed_cookie_key ≡ blake_x2 c 32 label_cookie remote
  pub no_keypair : (p.curr_keypair ≡ none) × (p.prev_keypair ≡ none) × (p.next_keypair ≡ none)
  pub no_handshake : p.local_key_id_during_hs ≡ 0

-- A device with the private key `s`.
pub record IsKeyed (c : Crypto) (dev : WgDevice) (s : List ℕ) : Type 0 where
  pub initialized : dev.is_private_key_initialized ≡ true
  pub s_priv : dev.s_priv ≡ s
  pub s_pub : dev.s_pub ≡ public c s

cleared :
    (dev : WgDevice) (p : WgPeer)
    → let q = (clear_handshake dev p).1 in
      (q.local_key_id_during_hs ≡ 0)
      × (q.s_remote ≡ p.s_remote)
      × (q.s_priv_pub ≡ p.s_priv_pub)
      × (q.precomputed_mac1_key ≡ p.precomputed_mac1_key)
      × (q.precomputed_cookie_key ≡ p.precomputed_cookie_key)
      × (q.curr_keypair ≡ p.curr_keypair)
      × (q.prev_keypair ≡ p.prev_keypair)
      × (q.next_keypair ≡ p.next_keypair)
unfolding clear_handshake
cleared dev p = ground arith

SameDevice-IsKeyed :
    (c : Crypto) (a b : WgDevice) (s : List ℕ) → SameDevice a b → IsKeyed c b s → IsKeyed c a s
SameDevice-IsKeyed c a b s same keyed = record {
  initialized = same.is_private_key_initialized ∙ keyed.initialized;
  s_priv = same.s_priv ∙ keyed.s_priv;
  s_pub = same.s_pub ∙ keyed.s_pub;
}

apply_private_key-IsReady :
    (c : Crypto) (dev : WgDevice) (p : WgPeer) (s : List ℕ)
    → IsKeyed c dev s
    → let (dev', q) = apply_private_key true c dev p in
      IsReady c dev' q s p.s_remote × SameDevice dev' dev
unfolding apply_private_key clear_keys
apply_private_key-IsReady c dev p s keyed =
    let (dev₁, p₁) = clear_keys dev (precompute c dev p) in
    let (id, remote, priv_pub, mac1, cookie, curr, prev, next) = cleared dev₁ p₁ in
    let same =
      SameDevice-trans (clear_handshake dev₁ p₁).0 dev₁ dev (clear_handshake-SameDevice dev₁ p₁)
        (clear_keys-SameDevice dev (precompute c dev p)) in
    (
      record {
        configured = record {
          s_priv = same.s_priv ∙ keyed.s_priv;
          s_pub = same.s_pub ∙ keyed.s_pub;
          s_remote = remote;
          s_priv_pub = priv_pub ∙ ap (λ x. c.dh x p.s_remote) keyed.s_priv;
        };
        mac1_key = mac1;
        cookie_key = cookie;
        no_keypair = (curr, prev, next);
        no_handshake = id;
      },
      same,
    )

-- After SetPublicKey on a device with a private key, the peer is ready for a handshake with the owner of
-- the public key, which belongs to it in the table, and the device keeps its own keys.
pub set_public_key-IsReady :
    (c : Crypto) (dev : WgDevice) (self : ℕ) (p : WgPeer) (s spub : List ℕ)
    → IsKeyed c dev s
    → let (dev', q) = set_public_key c dev self p spub in
      IsReady c dev' q s spub × (dev'.peer_id_lookup spub ≡ some self) × IsKeyed c dev' s
unfolding set_public_key
set_public_key-IsReady c dev self p s spub keyed =
    let dev₁ = record dev { peer_id_lookup = update_bytes dev.peer_id_lookup spub (some self) } in
    let p₁ = record p { s_remote = spub } in
    let keyed₁ : IsKeyed c dev₁ s = record {
      initialized = keyed.initialized;
      s_priv = keyed.s_priv;
      s_pub = keyed.s_pub;
    } in
    let (ready, same) = apply_private_key-IsReady c dev₁ p₁ s keyed₁ in
    subst
      (λ b.
        let (dev', q) = apply_private_key b c dev₁ p₁ in
        IsReady c dev' q s spub × (dev'.peer_id_lookup spub ≡ some self) × IsKeyed c dev' s)
      (sym keyed.initialized)
      (
        ready,
        ap (λ (f : List ℕ → Option ℕ). f spub) same.peer_id_lookup ∙ rw (bytes_eq_refl spub) refl,
        SameDevice-IsKeyed c _ dev₁ s same keyed₁,
      )

-- A peer that another is set up beside stays ready.
IsReady-transport :
    (c : Crypto) (dev dev' : WgDevice) (p : WgPeer) (s remote : List ℕ)
    → IsKeyed c dev' s
    → IsReady c dev p s remote
    → IsReady c dev' p s remote
IsReady-transport c dev dev' p s remote keyed r = record {
  configured = record {
    s_priv = keyed.s_priv;
    s_pub = keyed.s_pub;
    s_remote = r.configured.s_remote;
    s_priv_pub = r.configured.s_priv_pub;
  };
  mac1_key = r.mac1_key;
  cookie_key = r.cookie_key;
  no_keypair = r.no_keypair;
  no_handshake = r.no_handshake;
}

recompute-IsReady :
    (c : Crypto) (dev : WgDevice) (peers : ℕ → WgPeer) (list : List ℕ) (s : List ℕ) (j : ℕ)
    (remote : List ℕ)
    → IsKeyed c dev s
    → (peers j).s_remote ≡ remote
    → IsIn j list ⊎ IsReady c dev (peers j) s remote
    → let (dev', peers') = recompute c dev peers list in
      IsReady c dev' (peers' j) s remote × IsKeyed c dev' s
unfolding recompute
recompute-IsReady c dev peers [] s j remote keyed e (inl h) = absurd h
recompute-IsReady c dev peers [] s j remote keyed e (inr r) = (r, keyed)
recompute-IsReady c dev peers (i ∷ rest) s j remote keyed e h =
    let (dev₁, p) = set_public_key c dev i (peers i) (peers i).s_remote in
    let (ready, _, keyed₁) = set_public_key-IsReady c dev i (peers i) s (peers i).s_remote keyed in
    elim (ℕ_discrete j i) [
      | yes same ↦
          let here : update peers i p j ≡ p = rw (same, ==_refl i) refl in
          let remote_eq : (peers i).s_remote ≡ remote =
            ap (λ k. (peers k).s_remote) (sym same) ∙ e in
          let r : IsReady c dev₁ (update peers i p j) s remote =
            subst (λ q. IsReady c dev₁ q s remote) (sym here)
              (subst (IsReady c dev₁ p s) remote_eq ready) in
          recompute-IsReady c dev₁ (update peers i p) rest s j remote keyed₁ r.configured.s_remote
            (inr r)
      | no other ↦
          let there : update peers i p j ≡ peers j = ground arith in
          recompute-IsReady c dev₁ (update peers i p) rest s j remote keyed₁
            (ap (λ (q : WgPeer). q.s_remote) there ∙ e)
            (elim h [
              | inl (inl same) ↦ absurd (other same)
              | inl (inr in_rest) ↦ inl in_rest
              | inr r ↦ inr (
                  subst (λ q. IsReady c dev₁ q s remote) (sym there)
                    (IsReady-transport c dev dev₁ (peers j) s remote keyed₁ r))
            ])
    ]

-- After SetPrivateKey every peer of the list is ready for a handshake with the owner of its public key, in
-- which the device uses the new private key.
pub set_private_key-IsReady :
    (c : Crypto) (dev : WgDevice) (peers : ℕ → WgPeer) (list private_key : List ℕ) (j : ℕ)
    → IsIn j list
    → let (dev', peers') = set_private_key c dev peers list private_key in
      IsReady c dev' (peers' j) private_key (peers j).s_remote
unfolding set_private_key
set_private_key-IsReady c dev peers list private_key j h =
    let s_pub = public c private_key in
    let dev₁ = record dev {
      s_priv = private_key;
      s_pub = s_pub;
      precomputed_cookie_key = blake_x2 c 32 label_cookie s_pub;
      precomputed_mac1_key = blake_x2 c 32 label_mac1 s_pub;
      is_private_key_initialized = true;
    } in
    (recompute-IsReady c dev₁ peers list private_key j (peers j).s_remote
      (record { initialized = refl; s_priv = refl; s_pub = refl }) refl (inl h)).0
