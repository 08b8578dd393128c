-- ===== src/Handshake/Kept.antt =====
-- The keys and the ids of a keypair stay when it is put into a slot.
use tun_safe.Base.{ℕ, ◌≡◌, ◌∙◌, refl, sym, ap, Bool, true, false, Option, none, some, ==_refl}
use tun_safe.Keys.{WgDevice, WgKeypair, put_keypair}
use tun_safe.Peer.{WgPeer}
use tun_safe.Peer.Slots.{delete_keypair, place_keypair, insert_keypair_in_peer}
use tun_safe.Peer.Delete.{delete_keypair_lem}
use tun_safe.Peer.Settled.{Apart}
use tun_safe.Peer.Safety.{delete_none}

-- What the other side relies on.
pub record SameKeys (a b : WgKeypair) : Type 0 where
  pub send_key : a.send_key ≡ b.send_key
  pub recv_key : a.recv_key ≡ b.recv_key
  pub local_key_id : a.local_key_id ≡ b.local_key_id
  pub remote_key_id : a.remote_key_id ≡ b.remote_key_id

pub SameKeys-refl : (a : WgKeypair) → SameKeys a a
SameKeys-refl a = record {
  send_key = refl;
  recv_key = refl;
  local_key_id = refl;
  remote_key_id = refl;
}

pub SameKeys-trans : (a b c : WgKeypair) → SameKeys a b → SameKeys b c → SameKeys a c
SameKeys-trans a b c s t = record {
  send_key = s.send_key ∙ t.send_key;
  recv_key = s.recv_key ∙ t.recv_key;
  local_key_id = s.local_key_id ∙ t.local_key_id;
  remote_key_id = s.remote_key_id ∙ t.remote_key_id;
}

eq-SameKeys : (a b : WgKeypair) → a ≡ b → SameKeys a b
eq-SameKeys a b e = record {
  send_key = ap (λ (x : WgKeypair). x.send_key) e;
  recv_key = ap (λ (x : WgKeypair). x.recv_key) e;
  local_key_id = ap (λ (x : WgKeypair). x.local_key_id) e;
  remote_key_id = ap (λ (x : WgKeypair). x.remote_key_id) e;
}

delete-SameKeys :
    (dev : WgDevice) (slot : Option ℕ) (k : ℕ)
    → Apart slot (some k)
    → SameKeys ((delete_keypair dev slot).keypairs k) (dev.keypairs k)
delete-SameKeys dev none k a =
    eq-SameKeys _ _ (ap (λ (d : WgDevice). d.keypairs k) (delete_none dev))
delete-SameKeys dev (some j) k a = eq-SameKeys _ _ ((delete_keypair_lem dev j).4 k (λ e. a (sym e)))

place-SameKeys :
    (initiator : Bool) (next : Option ℕ) (dev : WgDevice) (p : WgPeer) (k : ℕ)
    → Apart p.curr_keypair (some k)
    → Apart next (some k)
    → SameKeys ((place_keypair initiator next dev p k).0.keypairs k) (dev.keypairs k)
unfolding place_keypair
place-SameKeys true (some n) dev p k a b = delete-SameKeys dev p.curr_keypair k a
place-SameKeys true none dev p k a b = SameKeys-refl (dev.keypairs k)
place-SameKeys false next dev p k a b = delete-SameKeys dev next k b

put-SameKeys :
    (dev : WgDevice) (self k : ℕ)
    → SameKeys
        ((put_keypair dev k (record (dev.keypairs k) { peer = some self })).keypairs k)
        (dev.keypairs k)
put-SameKeys dev self k =
    rw (==_refl k)
      (record { send_key = refl; recv_key = refl; local_key_id = refl; remote_key_id = refl })

pub insert-SameKeys :
    (dev : WgDevice) (self : ℕ) (p : WgPeer) (k : ℕ)
    → Apart p.curr_keypair (some k)
    → Apart p.prev_keypair (some k)
    → Apart p.next_keypair (some k)
    → SameKeys ((insert_keypair_in_peer dev self p k).0.keypairs k) (dev.keypairs k)
unfolding insert_keypair_in_peer
insert-SameKeys dev self p k curr prev next =
    let dev₁ = put_keypair dev k (record (dev.keypairs k) { peer = some self }) in
    let dev₂ = delete_keypair dev₁ p.prev_keypair in
    let q = record p { time_of_next_key_event = 0; prev_keypair = none } in
    let dev₃ = (place_keypair (dev.keypairs k).is_initiator p.next_keypair dev₂ q k).0 in
    SameKeys-trans (dev₃.keypairs k) (dev₂.keypairs k) (dev.keypairs k)
      (place-SameKeys (dev.keypairs k).is_initiator p.next_keypair dev₂ q k curr next)
      (SameKeys-trans (dev₂.keypairs k) (dev₁.keypairs k) (dev.keypairs k)
        (delete-SameKeys dev₁ p.prev_keypair k prev) (put-SameKeys dev self k))
