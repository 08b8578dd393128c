-- ===== src/Keys/Table.antt =====
-- The key id table of WgDevice (key_id_lookup_): random ids, at most one owner each.
use tun_safe.Base.{ℕ, Option, none, some, List, [], ◌∷◌, ◌==◌, if◌then◌else◌}
use tun_safe.Keys.{WgDevice, update}

-- `key_id_lookup_.erase(id)`
abbrev pub erase_key_id : WgDevice → ℕ → WgDevice
erase_key_id dev id = record dev { key_id_lookup = update dev.key_id_lookup id none }

-- WgDevice::InsertInKeyIdLookup: the store of the id, `x = v`, is left to the two callers below.
-- `old` is the id that the owner had (0 for none), `draws` what GetRandomNumber returns, call by
-- call; `none` means that the loop wants more draws.
unfoldable pub insert_in_key_id_lookup :
    WgDevice → ℕ → Option ℕ → ℕ → List ℕ → Option (ℕ × WgDevice)
insert_in_key_id_lookup dev peer kp old [] = none
insert_in_key_id_lookup dev peer kp old (v ∷ draws) =
    let again = insert_in_key_id_lookup dev peer kp old draws in
    let taken = record dev { key_id_lookup = update dev.key_id_lookup v (some (peer, kp)) } in
    if v == 0 then again else elim (dev.key_id_lookup v) [
      | some entry ↦ again
      | none ↦ some (v, if old == 0 then taken else erase_key_id taken old)
    ]

-- WgDevice::LookupPeerInKeyIdLookup: the peer of a handshake.
unfoldable pub lookup_peer_in_key_id_lookup : WgDevice → ℕ → Option ℕ
lookup_peer_in_key_id_lookup dev key_id = elim (dev.key_id_lookup key_id) [
  | none ↦ none
  | some (peer, kp) ↦ elim kp [ none ↦ some peer | some k ↦ none ]
]

-- WgDevice::LookupKeypairByKeyId
unfoldable pub lookup_keypair_by_key_id : WgDevice → ℕ → Option ℕ
lookup_keypair_by_key_id dev key_id = elim (dev.key_id_lookup key_id) [
  | none ↦ none
  | some (peer, kp) ↦ kp
]
