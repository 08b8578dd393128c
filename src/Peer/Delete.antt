-- ===== src/Peer/Delete.antt =====
-- What WgPeer::DeleteKeypair does to the keypairs, the key id table and the delayed deletes.
use tun_safe.Base.{ℕ, ◌≡◌, ◌≢◌, ◌∙◌, sym, ap, ℕ_discrete, Option, none, some, ◌∷◌, ==_refl, arith}
use tun_safe.Keys.{WgDevice, WgKeypair, key_invalid}
use tun_safe.Peer.Slots.{delete_keypair, drop_addr_entry, drop_key_id, retire}

module _ (dev : WgDevice) (k : ℕ) where
  addr_other : (j : ℕ) → j ≢ k → (drop_addr_entry dev k).keypairs j ≡ dev.keypairs j
  unfolding drop_addr_entry
  addr_other j ne = ground arith

  key_id_other : (j : ℕ) → j ≢ k → (drop_key_id dev k).keypairs j ≡ dev.keypairs j
  unfolding drop_key_id
  key_id_other j ne = ground arith

  retire_other : (j : ℕ) → j ≢ k → (retire dev k).keypairs j ≡ dev.keypairs j
  unfolding retire
  retire_other j ne = ground arith

  -- The fields of the keypair that stay.
  addr_self : ((drop_addr_entry dev k).keypairs k).key_timestamp ≡ (dev.keypairs k).key_timestamp
  unfolding drop_addr_entry
  addr_self = ground (arith, ==_refl k)

  key_id_self : ((drop_key_id dev k).keypairs k).key_timestamp ≡ (dev.keypairs k).key_timestamp
  unfolding drop_key_id
  key_id_self = ground (arith, ==_refl k)

  retire_self :
      (((retire dev k).keypairs k).key_timestamp ≡ (dev.keypairs k).key_timestamp)
      × (((retire dev k).keypairs k).recv_key_state ≡ key_invalid)
      × (((retire dev k).keypairs k).local_key_id ≡ (dev.keypairs k).local_key_id)
  unfolding retire
  retire_self = ground (arith, ==_refl k)

  unlinked : (((drop_key_id dev k).keypairs k).local_key_id ≡ 0)
  unfolding drop_key_id
  unlinked = ground (arith, ==_refl k)

  erased :
      (dev.keypairs k).local_key_id ≢ 0
      → (drop_key_id dev k).key_id_lookup (dev.keypairs k).local_key_id ≡ none
  unfolding drop_key_id
  erased h = ground (arith, ==_refl (dev.keypairs k).local_key_id)

  kept_ids :
      (id : ℕ)
      → id ≢ (dev.keypairs k).local_key_id
      → (drop_key_id dev k).key_id_lookup id ≡ dev.key_id_lookup id
  unfolding drop_key_id
  kept_ids id h = ground arith

  key_id_deletes : (drop_key_id dev k).delayed_delete ≡ dev.delayed_delete
  unfolding drop_key_id
  key_id_deletes = ground arith

  addr_ids :
      ((drop_addr_entry dev k).key_id_lookup ≡ dev.key_id_lookup)
      × (((drop_addr_entry dev k).keypairs k).local_key_id ≡ (dev.keypairs k).local_key_id)
      × ((drop_addr_entry dev k).delayed_delete ≡ dev.delayed_delete)
  unfolding drop_addr_entry
  addr_ids = ground (arith, ==_refl k)

-- Deleting a keypair makes it invalid for receiving, frees its key id (and no other), leaves every
-- other keypair as it was, and hands the object to the delayed delete.
pub delete_keypair_lem :
    (dev : WgDevice) (k : ℕ)
    → let dev' = delete_keypair dev (some k) in
      ((dev'.keypairs k).recv_key_state ≡ key_invalid)
      × ((dev'.keypairs k).local_key_id ≡ 0)
      × ((dev.keypairs k).local_key_id ≢ 0
          → dev'.key_id_lookup (dev.keypairs k).local_key_id ≡ none)
      × ((id : ℕ)
          → id ≢ (dev.keypairs k).local_key_id
          → dev'.key_id_lookup id ≡ dev.key_id_lookup id)
      × ((j : ℕ) → j ≢ k → dev'.keypairs j ≡ dev.keypairs j)
      × (dev'.delayed_delete ≡ k ∷ dev.delayed_delete)
unfolding delete_keypair
delete_keypair_lem dev k =
    let dev₁ = drop_addr_entry dev k in
    let dev₂ = drop_key_id dev₁ k in
    let (same_ids, same_id, same_deletes) = addr_ids dev k in
    let (_, invalid, same_local) = retire_self dev₂ k in
    (
      invalid,
      same_local ∙ unlinked dev₁ k,
      λ h. ap (dev₂.key_id_lookup) (sym same_id) ∙ erased dev₁ k (λ e. h (sym same_id ∙ e)),
      λ id ne.
          kept_ids dev₁ k id (λ e. ne (e ∙ same_id))
          ∙ ap (λ (f : ℕ → Option (ℕ × Option ℕ)). f id) same_ids,
      λ j ne. retire_other dev₂ k j ne ∙ key_id_other dev₁ k j ne ∙ addr_other dev k j ne,
      ap (λ l. k ∷ l) (key_id_deletes dev₁ k ∙ same_deletes),
    )

pub timestamp-delete_keypair :
    (dev : WgDevice) (k j : ℕ)
    → ((delete_keypair dev (some k)).keypairs j).key_timestamp ≡ (dev.keypairs j).key_timestamp
unfolding delete_keypair
timestamp-delete_keypair dev k j = elim (ℕ_discrete j k) [
  | yes e ↦ rw e (
      (retire_self (drop_key_id (drop_addr_entry dev k) k) k).0
      ∙ key_id_self (drop_addr_entry dev k) k
      ∙ addr_self dev k)
  | no ne ↦ ap (λ (kp : WgKeypair). kp.key_timestamp) ((delete_keypair_lem dev k).4 j ne)
]
