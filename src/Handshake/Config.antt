-- ===== src/Handshake/Config.antt =====
-- The keys of a device and of its peers: WgDevice::SetPrivateKey, WgPeer::SetPublicKey and
-- WgPeer::SetPresharedKey.
use tun_safe.Base.{
  ℕ, Bool, true, false, Option, none, some, List, [], ◌∷◌, if◌then◌else◌, replicate,
}
use tun_safe.Base.Bytes.{bytes_eq}
use tun_safe.Keys.{WgDevice, update}
use tun_safe.Peer.{WgPeer}
use tun_safe.Peer.Slots.{clear_keys, clear_handshake}
use tun_safe.Handshake.{Crypto, label_cookie, label_mac1, blake_x2}

-- A write to peer_id_lookup_.
abbrev pub update_bytes : (List ℕ → Option ℕ) → List ℕ → Option ℕ → List ℕ → Option ℕ
update_bytes f k v j = if bytes_eq j k then v else f j

-- What SetPublicKey stores in the peer once the private key is known.
abbrev pub precompute : Crypto → WgDevice → WgPeer → WgPeer
precompute c dev p = record p {
  s_priv_pub = c.dh dev.s_priv p.s_remote;
  precomputed_cookie_key = blake_x2 c 32 label_cookie p.s_remote;
  precomputed_mac1_key = blake_x2 c 32 label_mac1 p.s_remote;
}

-- The rest of SetPublicKey, after the test of is_private_key_initialized_.
unfoldable pub apply_private_key : Bool → Crypto → WgDevice → WgPeer → WgDevice × WgPeer
apply_private_key false c dev p = (dev, p)
apply_private_key true c dev p =
    let (dev₁, p₁) = clear_keys dev (precompute c dev p) in clear_handshake dev₁ p₁

-- WgPeer::SetPublicKey for the peer `self`.
unfoldable pub set_public_key : Crypto → WgDevice → ℕ → WgPeer → List ℕ → WgDevice × WgPeer
unfolding apply_private_key
set_public_key c dev self p spub =
    apply_private_key dev.is_private_key_initialized c
      (record dev { peer_id_lookup = update_bytes dev.peer_id_lookup spub (some self) })
      (record p { s_remote = spub })

-- WgPeer::SetPresharedKey; a null pointer is none.
unfoldable pub set_preshared_key : WgPeer → Option (List ℕ) → WgPeer
set_preshared_key p none = record p { preshared_key = replicate 32 0 }
set_preshared_key p (some key) = record p { preshared_key = key }

-- The loop over the list of peers at the end of SetPrivateKey.
unfoldable pub recompute : Crypto → WgDevice → (ℕ → WgPeer) → List ℕ → WgDevice × (ℕ → WgPeer)
unfolding set_public_key
recompute c dev peers [] = (dev, peers)
recompute c dev peers (i ∷ rest) =
    let (dev₁, p) = set_public_key c dev i (peers i) (peers i).s_remote in
    recompute c dev₁ (update peers i p) rest

-- WgDevice::SetPrivateKey; `list` is the list of peers.
unfoldable pub set_private_key :
    Crypto → WgDevice → (ℕ → WgPeer) → List ℕ → List ℕ → WgDevice × (ℕ → WgPeer)
unfolding recompute
set_private_key c dev peers list private_key =
    let s_pub = c.dh private_key c.basepoint in
    let dev₁ = record dev {
      s_priv = private_key;
      s_pub = s_pub;
      precomputed_cookie_key = blake_x2 c 32 label_cookie s_pub;
      precomputed_mac1_key = blake_x2 c 32 label_mac1 s_pub;
      is_private_key_initialized = true;
    } in
    recompute c dev₁ peers list
