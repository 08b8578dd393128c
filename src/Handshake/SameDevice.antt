-- ===== src/Handshake/SameDevice.antt =====
-- Deleting keypairs leaves the keys of the device.
use tun_safe.Base.{ℕ, ◌≡◌, ◌∙◌, Option, none, some, arith}
use tun_safe.Keys.{WgDevice}
use tun_safe.Peer.{WgPeer}
use tun_safe.Peer.Slots.{
  delete_keypair, drop_addr_entry, drop_key_id, retire, clear_keys, clear_handshake,
}

-- The keys of the device.
pub record SameDevice (a b : WgDevice) : Type 0 where
  pub s_priv : a.s_priv ≡ b.s_priv
  pub s_pub : a.s_pub ≡ b.s_pub
  pub is_private_key_initialized : a.is_private_key_initialized ≡ b.is_private_key_initialized
  pub precomputed_mac1_key : a.precomputed_mac1_key ≡ b.precomputed_mac1_key
  pub precomputed_cookie_key : a.precomputed_cookie_key ≡ b.precomputed_cookie_key
  pub peer_id_lookup : a.peer_id_lookup ≡ b.peer_id_lookup

pub SameDevice-trans : (a b c : WgDevice) → SameDevice a b → SameDevice b c → SameDevice a c
SameDevice-trans a b c s t = record {
  s_priv = s.s_priv ∙ t.s_priv;
  s_pub = s.s_pub ∙ t.s_pub;
  is_private_key_initialized = s.is_private_key_initialized ∙ t.is_private_key_initialized;
  precomputed_mac1_key = s.precomputed_mac1_key ∙ t.precomputed_mac1_key;
  precomputed_cookie_key = s.precomputed_cookie_key ∙ t.precomputed_cookie_key;
  peer_id_lookup = s.peer_id_lookup ∙ t.peer_id_lookup;
}

addr-SameDevice : (dev : WgDevice) (k : ℕ) → SameDevice (drop_addr_entry dev k) dev
unfolding drop_addr_entry
addr-SameDevice dev k = ground arith

id-SameDevice : (dev : WgDevice) (k : ℕ) → SameDevice (drop_key_id dev k) dev
unfolding drop_key_id
id-SameDevice dev k = ground arith

retire-SameDevice : (dev : WgDevice) (k : ℕ) → SameDevice (retire dev k) dev
unfolding retire
retire-SameDevice dev k = ground arith

delete-SameDevice : (dev : WgDevice) (slot : Option ℕ) → SameDevice (delete_keypair dev slot) dev
unfolding delete_keypair
delete-SameDevice dev none = ground arith
delete-SameDevice dev (some k) =
    let dev₁ = drop_addr_entry dev k in
    let dev₂ = drop_key_id dev₁ k in
    SameDevice-trans (retire dev₂ k) dev₂ dev (retire-SameDevice dev₂ k)
      (SameDevice-trans dev₂ dev₁ dev (id-SameDevice dev₁ k) (addr-SameDevice dev k))

pub clear_keys-SameDevice : (dev : WgDevice) (p : WgPeer) → SameDevice (clear_keys dev p).0 dev
unfolding clear_keys
clear_keys-SameDevice dev p =
    let dev₁ = delete_keypair dev p.curr_keypair in
    let dev₂ = delete_keypair dev₁ p.next_keypair in
    let dev₃ = delete_keypair dev₂ p.prev_keypair in
    SameDevice-trans dev₃ dev₂ dev (delete-SameDevice dev₂ p.prev_keypair) (
      SameDevice-trans dev₂ dev₁ dev (delete-SameDevice dev₁ p.next_keypair)
        (delete-SameDevice dev p.curr_keypair))

pub clear_handshake-SameDevice :
    (dev : WgDevice) (p : WgPeer) → SameDevice (clear_handshake dev p).0 dev
unfolding clear_handshake
clear_handshake-SameDevice dev p = ground arith
