-- ===== src/Keys/Ids.antt =====
-- WgDevice::InsertInKeyIdLookup: the id that a handshake or a keypair gets.
use tun_safe.Base.{
  ℕ, ◌≡◌, ◌≢◌, ◌∙◌, sym, ap, refl, ◌⊎◌, inl, inr, Option-cases, ℕ_discrete, if-both, Option, none,
  some, List, [], ◌∷◌, ◌==◌, if◌then◌else◌, arith, ==_refl,
}
use tun_safe.Keys.{WgDevice, update}
use tun_safe.Keys.Table.{insert_in_key_id_lookup, erase_key_id}

-- The id is new, belongs to the owner, and replaces the old one; the other ids are left alone.
pub record IsInserted (dev : WgDevice) (peer : ℕ) (kp : Option ℕ) (old : ℕ)
    (result : Option (ℕ × WgDevice)) : Type 0 where
  pub id : ℕ
  pub after : WgDevice
  pub answer : result ≡ some (id, after)
  pub not_zero : id ≢ 0
  pub was_free : dev.key_id_lookup id ≡ none
  pub owned : after.key_id_lookup id ≡ some (peer, kp)
  pub freed : old ≢ 0 → after.key_id_lookup old ≡ none
  pub others : (j : ℕ) → j ≢ id → j ≢ old → after.key_id_lookup j ≡ dev.key_id_lookup j
  pub same_rest : after ≡ record dev { key_id_lookup = after.key_id_lookup }

-- A draw that can be an id.
abbrev pub HasFree : WgDevice → List ℕ → Type 0
HasFree dev [] = ⊥
HasFree dev (v ∷ draws) = ((v ≢ 0) × (dev.key_id_lookup v ≡ none)) ⊎ HasFree dev draws

module _ (dev : WgDevice) (peer : ℕ) (kp : Option ℕ) (old v : ℕ) (draws : List ℕ) where
  zero_again :
      v ≡ 0
      → insert_in_key_id_lookup dev peer kp old (v ∷ draws)
        ≡ insert_in_key_id_lookup dev peer kp old draws
  unfolding insert_in_key_id_lookup
  zero_again e = ground arith

  taken_again :
      (entry : ℕ × Option ℕ)
      → dev.key_id_lookup v ≡ some entry
      → insert_in_key_id_lookup dev peer kp old (v ∷ draws)
        ≡ insert_in_key_id_lookup dev peer kp old draws
  unfolding insert_in_key_id_lookup
  taken_again entry e = ground arith

  abbrev taken : WgDevice
  taken = record dev { key_id_lookup = update dev.key_id_lookup v (some (peer, kp)) }

  free_now :
      v ≢ 0
      → dev.key_id_lookup v ≡ none
      → insert_in_key_id_lookup dev peer kp old (v ∷ draws)
        ≡ some (v, if old == 0 then taken else erase_key_id taken old)
  unfolding insert_in_key_id_lookup
  free_now nz e = ground arith

  after_free :
      v ≢ 0
      → dev.key_id_lookup v ≡ none
      → old ≢ v
      → IsInserted dev peer kp old (insert_in_key_id_lookup dev peer kp old (v ∷ draws))
  after_free nz free ne = record {
    id = v;
    after = if old == 0 then taken else erase_key_id taken old;
    answer = free_now nz free;
    not_zero = nz;
    was_free = free;
    owned = ground (arith, ==_refl v);
    freed = λ h. ground (arith, ==_refl old);
    others = λ j a b. ground arith;
    same_rest =
        if-both (λ (d : WgDevice). d ≡ record dev { key_id_lookup = d.key_id_lookup }) (old == 0)
          refl refl;
  }

same-IsInserted :
    (dev : WgDevice) (peer : ℕ) (kp : Option ℕ) (old : ℕ) (a b : Option (ℕ × WgDevice))
    → a ≡ b
    → IsInserted dev peer kp old b
    → IsInserted dev peer kp old a
same-IsInserted dev peer kp old a b e h = rw e h

-- The old id is in the table, and the new one is not.
not_old :
    (dev : WgDevice) (old v : ℕ)
    → (old ≡ 0) ⊎ (dev.key_id_lookup old ≢ none)
    → v ≢ 0
    → dev.key_id_lookup v ≡ none
    → old ≢ v
not_old dev old v (inl zero) nz free e = nz (sym e ∙ zero)
not_old dev old v (inr known) nz free e = known (ap dev.key_id_lookup e ∙ free)

-- When one of the random numbers is not 0 and not in the table, and the owner's old id is 0 or in
-- the table, the owner gets an id that is not 0 and was free; its old id is freed, every other id
-- keeps its owner, and nothing else is changed.
pub insert_in_key_id_lookup_lem :
    (dev : WgDevice) (peer : ℕ) (kp : Option ℕ) (old : ℕ) (draws : List ℕ)
    → (old ≡ 0) ⊎ (dev.key_id_lookup old ≢ none)
    → HasFree dev draws
    → IsInserted dev peer kp old (insert_in_key_id_lookup dev peer kp old draws)
insert_in_key_id_lookup_lem dev peer kp old [] known free = absurd free
insert_in_key_id_lookup_lem dev peer kp old (v ∷ draws) known (inl (nz, free)) =
    after_free dev peer kp old v draws nz free (not_old dev old v known nz free)
insert_in_key_id_lookup_lem dev peer kp old (v ∷ draws) known (inr more) =
    let rest = insert_in_key_id_lookup_lem dev peer kp old draws known more in
    elim (ℕ_discrete v 0) [
      | yes zero ↦
          same-IsInserted dev peer kp old _ _ (zero_again dev peer kp old v draws zero) rest
      | no nz ↦ elim (Option-cases (dev.key_id_lookup v)) [
        | inr (entry, e) ↦
            same-IsInserted dev peer kp old _ _ (taken_again dev peer kp old v draws entry e) rest
        | inl free ↦ after_free dev peer kp old v draws nz free (not_old dev old v known nz free)
      ]
    ]
