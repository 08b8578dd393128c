-- ===== src/Peer/Slots.antt =====
-- The three keypair slots: WgPeer::DeleteKeypair, ClearKeys_Locked, ClearHandshake_Locked,
-- InsertKeypairInPeer_Locked and CheckSwitchToNextKey_Locked.
use tun_safe.Base.{ℕ, Bool, true, false, Option, none, some, ◌∷◌, ◌==◌, if◌then◌else◌}
use tun_safe.Keys.{WgDevice, key_invalid, put_keypair}
use tun_safe.Keys.Table.{erase_key_id}
use tun_safe.Keys.AddrEntries.{erase_keypair_addr_entry}
use tun_safe.Peer.{WgPeer}

-- `if (t->addr_entry) EraseKeypairAddrEntry_Locked(t)`
unfoldable pub drop_addr_entry : WgDevice → ℕ → WgDevice
unfolding erase_keypair_addr_entry
drop_addr_entry dev k = elim (dev.keypairs k).addr_entry [
  | none ↦ dev
  | some e ↦ erase_keypair_addr_entry dev k e
]

-- `if (t->local_key_id) { key_id_lookup_.erase(…); t->local_key_id = 0; }`
unfoldable pub drop_key_id : WgDevice → ℕ → WgDevice
drop_key_id dev k =
    let kp = dev.keypairs k in
    if kp.local_key_id == 0
    then dev
    else put_keypair (erase_key_id dev kp.local_key_id) k (record kp { local_key_id = 0 })

-- The last two lines: the key is invalid, and the object is left to `delayed_delete_`.
unfoldable pub retire : WgDevice → ℕ → WgDevice
retire dev k =
    let dev' = put_keypair dev k (record (dev.keypairs k) { recv_key_state = key_invalid }) in
    record dev' { delayed_delete = k ∷ dev.delayed_delete }

-- WgPeer::DeleteKeypair on the keypair of a slot; the caller empties the slot.
unfoldable pub delete_keypair : WgDevice → Option ℕ → WgDevice
unfolding drop_addr_entry drop_key_id retire
delete_keypair dev none = dev
delete_keypair dev (some k) = retire (drop_key_id (drop_addr_entry dev k) k) k

unfoldable pub clear_keys : WgDevice → WgPeer → WgDevice × WgPeer
clear_keys dev p =
    let dev₁ = delete_keypair dev p.curr_keypair in
    let dev₂ = delete_keypair dev₁ p.next_keypair in
    (
      delete_keypair dev₂ p.prev_keypair,
      record p { curr_keypair = none; next_keypair = none; prev_keypair = none },
    )

unfoldable pub clear_handshake : WgDevice → WgPeer → WgDevice × WgPeer
clear_handshake dev p =
    if p.local_key_id_during_hs == 0
    then (dev, p)
    else (erase_key_id dev p.local_key_id_during_hs, record p { local_key_id_during_hs = 0 })

-- The if statement: an initiator's keypair is current at once, a responder's waits in the next slot.
unfoldable pub place_keypair :
    (is_initiator : Bool) (next : Option ℕ) → WgDevice → WgPeer → ℕ → WgDevice × WgPeer
place_keypair true (some n) dev p k = (
  delete_keypair dev p.curr_keypair,
  record p { prev_keypair = some n; next_keypair = none; curr_keypair = some k },
)
place_keypair true none dev p k =
    (dev, record p { prev_keypair = p.curr_keypair; curr_keypair = some k })
place_keypair false next dev p k = (delete_keypair dev next, record p { next_keypair = some k })

-- WgPeer::InsertKeypairInPeer_Locked; `self` is the index of the peer.
unfoldable pub insert_keypair_in_peer : WgDevice → ℕ → WgPeer → ℕ → WgDevice × WgPeer
unfolding place_keypair
insert_keypair_in_peer dev self p k =
    let dev₁ = put_keypair dev k (record (dev.keypairs k) { peer = some self }) in
    let dev₂ = delete_keypair dev₁ p.prev_keypair in
    let q = record p { time_of_next_key_event = 0; prev_keypair = none } in
    place_keypair (dev.keypairs k).is_initiator p.next_keypair dev₂ q k

-- Is it the keypair of the slot?
unfoldable pub is_slot : Option ℕ → ℕ → Bool
is_slot none k = false
is_slot (some j) k = j == k

-- WgPeer::CheckSwitchToNextKey_Locked
unfoldable pub check_switch_to_next_key : WgDevice → WgPeer → ℕ → WgDevice × WgPeer × Bool
unfolding is_slot
check_switch_to_next_key dev p k =
    if is_slot p.next_keypair k
    then (
      delete_keypair dev p.prev_keypair,
      record p {
        prev_keypair = p.curr_keypair;
        curr_keypair = p.next_keypair;
        next_keypair = none;
        time_of_next_key_event = 0;
      },
      true,
    )
    else (dev, p, false)
