-- ===== src/Peer/Safety.antt =====
-- A peer never keeps a keypair that it has handed to the delayed delete: the operations that move
-- keypairs between the slots, as steps, and what every run of them keeps.
use tun_safe.Base.{
  ℕ, ◌≡◌, ◌≢◌, refl, sym, Option, none, some, Bool-cases, inl, inr, Bool, true, false, List, All,
}
use tun_safe.Keys.{WgDevice, put_keypair}
use tun_safe.Peer.{WgPeer}
use tun_safe.Peer.Slots.{
  is_slot, place_keypair, delete_keypair, clear_keys, insert_keypair_in_peer,
  check_switch_to_next_key,
}
use tun_safe.Peer.Delete.{delete_keypair_lem}
use tun_safe.Peer.Events.{
  is_expired, update_current, update_other, check_and_update_time_of_next_key_event,
}
use tun_safe.Peer.Aging.{
  other_dead, other_alive, other_none, current_dead, current_alive, current_none,
}
use tun_safe.Peer.Settled.{Apart, other-Apart, current-Apart}

-- The slot's keypair is not among the deleted.
abbrev pub IsLive : List ℕ → Option ℕ → Type 0
IsLive deleted none = Unit {0}
IsLive deleted (some k) = All (λ d. d ≢ k) deleted

pub record AreSafe (deleted : List ℕ) (curr prev next : Option ℕ) : Type 0 where
  pub curr_prev : Apart curr prev
  pub curr_next : Apart curr next
  pub prev_next : Apart prev next
  pub curr_live : IsLive deleted curr
  pub prev_live : IsLive deleted prev
  pub next_live : IsLive deleted next

abbrev pub IsSafe : WgDevice → WgPeer → Type 0
IsSafe dev p = AreSafe dev.delayed_delete p.curr_keypair p.prev_keypair p.next_keypair

-- A new keypair: it stands in no slot, and is not deleted.
pub record IsFresh (dev : WgDevice) (p : WgPeer) (k : ℕ) : Type 0 where
  pub not_curr : Apart p.curr_keypair (some k)
  pub not_prev : Apart p.prev_keypair (some k)
  pub not_next : Apart p.next_keypair (some k)
  pub live : IsLive dev.delayed_delete (some k)

Apart-sym : (s t : Option ℕ) → Apart s t → Apart t s
Apart-sym none none a = tt
Apart-sym none (some k) a = tt
Apart-sym (some j) none a = tt
Apart-sym (some j) (some k) a = λ e. a (sym e)

pub delete_none : (dev : WgDevice) → delete_keypair dev none ≡ dev
unfolding delete_keypair
delete_none dev = refl

delete-IsLive :
    (dev : WgDevice) (s t : Option ℕ)
    → IsLive dev.delayed_delete s
    → Apart s t
    → IsLive (delete_keypair dev t).delayed_delete s
delete-IsLive dev s none live a = rw (delete_none dev) live
delete-IsLive dev none (some k) live a = tt
delete-IsLive dev (some j) (some k) live a =
    rw ((delete_keypair_lem dev k).5) (λ e. a (sym e), live)

-- What an update of a slot leaves, where it is not deleted.
other-IsLive :
    (dev : WgDevice) (s t : Option ℕ) (now time : ℕ)
    → IsLive dev.delayed_delete s
    → Apart s t
    → IsLive (update_other dev t now time).0.delayed_delete s
other-IsLive dev s none now time live a = rw (other_none dev now time) live
other-IsLive dev s (some k) now time live a = elim (Bool-cases (is_expired dev k now)) [
  | inl dead ↦ rw (other_dead dev k now time dead) (delete-IsLive dev s (some k) live a)
  | inr alive ↦ rw (other_alive dev k now time alive) live
]

current-IsLive :
    (dev : WgDevice) (s t : Option ℕ) (now : ℕ)
    → IsLive dev.delayed_delete s
    → Apart s t
    → IsLive (update_current dev t now).0.delayed_delete s
current-IsLive dev s none now live a = rw (current_none dev now) live
current-IsLive dev s (some k) now live a = elim (Bool-cases (is_expired dev k now)) [
  | inl dead ↦ rw (current_dead dev k now dead) (delete-IsLive dev s (some k) live a)
  | inr alive ↦ rw (current_alive dev k now alive) live
]

-- The slot itself, after its own update.
other_slot-IsLive :
    (dev : WgDevice) (t : Option ℕ) (now time : ℕ)
    → IsLive dev.delayed_delete t
    → let (dev', t', _) = update_other dev t now time in IsLive dev'.delayed_delete t'
other_slot-IsLive dev none now time live = rw (other_none dev now time) tt
other_slot-IsLive dev (some k) now time live = elim (Bool-cases (is_expired dev k now)) [
  | inl dead ↦ rw (other_dead dev k now time dead) tt
  | inr alive ↦ rw (other_alive dev k now time alive) live
]

current_slot-IsLive :
    (dev : WgDevice) (t : Option ℕ) (now : ℕ)
    → IsLive dev.delayed_delete t
    → let (dev', t', _) = update_current dev t now in IsLive dev'.delayed_delete t'
current_slot-IsLive dev none now live = rw (current_none dev now) tt
current_slot-IsLive dev (some k) now live = elim (Bool-cases (is_expired dev k now)) [
  | inl dead ↦ rw (current_dead dev k now dead) tt
  | inr alive ↦ rw (current_alive dev k now alive) live
]

-- Deleting the previous keypair empties its slot.
delete_prev :
    (dev : WgDevice) (curr prev next : Option ℕ)
    → AreSafe dev.delayed_delete curr prev next
    → AreSafe (delete_keypair dev prev).delayed_delete curr none next
delete_prev dev curr prev next s = record {
  curr_prev = Apart-sym none curr tt;
  curr_next = s.curr_next;
  prev_next = tt;
  curr_live = delete-IsLive dev curr prev s.curr_live s.curr_prev;
  prev_live = tt;
  next_live = delete-IsLive dev next prev s.next_live (Apart-sym prev next s.prev_next);
}

-- The slots move up.
moved_up :
    (deleted : List ℕ) (curr next : Option ℕ)
    → AreSafe deleted curr none next
    → AreSafe deleted next curr none
moved_up deleted curr next s = record {
  curr_prev = Apart-sym curr next s.curr_next;
  curr_next = Apart-sym none next tt;
  prev_next = s.curr_prev;
  curr_live = s.next_live;
  prev_live = s.curr_live;
  next_live = tt;
}

switch-IsSafe :
    (dev : WgDevice) (p : WgPeer) (k : ℕ)
    → IsSafe dev p
    → let (dev', p', _) = check_switch_to_next_key dev p k in IsSafe dev' p'
unfolding check_switch_to_next_key
switch-IsSafe dev p k safe = elim (Bool-cases (is_slot p.next_keypair k)) [
  | inl hit ↦ rw hit (
      moved_up (delete_keypair dev p.prev_keypair).delayed_delete p.curr_keypair p.next_keypair
        (delete_prev dev p.curr_keypair p.prev_keypair p.next_keypair safe))
  | inr miss ↦ rw miss safe
]

-- A new keypair in its slot, with the previous slot empty.
place-IsSafe :
    (initiator : Bool) (next : Option ℕ) (dev : WgDevice) (p : WgPeer) (k : ℕ)
    → p.next_keypair ≡ next
    → p.prev_keypair ≡ none
    → AreSafe dev.delayed_delete p.curr_keypair none next
    → Apart p.curr_keypair (some k)
    → Apart next (some k)
    → IsLive dev.delayed_delete (some k)
    → let (dev', p') = place_keypair initiator next dev p k in IsSafe dev' p'
unfolding place_keypair
place-IsSafe true (some n) dev p k e e₀ s curr_apart next_apart live = record {
  curr_prev = Apart-sym (some n) (some k) next_apart;
  curr_next = tt;
  prev_next = tt;
  curr_live =
      delete-IsLive dev (some k) p.curr_keypair live (Apart-sym p.curr_keypair (some k) curr_apart);
  prev_live =
      delete-IsLive dev (some n) p.curr_keypair s.next_live
        (Apart-sym p.curr_keypair (some n) s.curr_next);
  next_live = tt;
}
place-IsSafe true none dev p k e e₀ s curr_apart next_apart live = rw e (record {
  curr_prev = Apart-sym p.curr_keypair (some k) curr_apart;
  curr_next = tt;
  prev_next = s.curr_next;
  curr_live = live;
  prev_live = s.curr_live;
  next_live = tt;
})
place-IsSafe false next dev p k e e₀ s curr_apart next_apart live = rw e₀ (record {
  curr_prev = s.curr_prev;
  curr_next = curr_apart;
  prev_next = tt;
  curr_live = delete-IsLive dev p.curr_keypair next s.curr_live s.curr_next;
  prev_live = tt;
  next_live = delete-IsLive dev (some k) next live (Apart-sym next (some k) next_apart);
})

insert-IsSafe :
    (dev : WgDevice) (self : ℕ) (p : WgPeer) (k : ℕ)
    → IsSafe dev p
    → IsFresh dev p k
    → let (dev', p') = insert_keypair_in_peer dev self p k in IsSafe dev' p'
unfolding insert_keypair_in_peer
insert-IsSafe dev self p k safe fresh =
    let dev₁ = put_keypair dev k (record (dev.keypairs k) { peer = some self }) in
    let dev₂ = delete_keypair dev₁ p.prev_keypair in
    let q = record p { time_of_next_key_event = 0; prev_keypair = none } in
    place-IsSafe (dev.keypairs k).is_initiator p.next_keypair dev₂ q k refl refl
      (delete_prev dev₁ p.curr_keypair p.prev_keypair p.next_keypair safe) fresh.not_curr
      fresh.not_next
      (delete-IsLive dev₁ (some k) p.prev_keypair fresh.live
        (Apart-sym p.prev_keypair (some k) fresh.not_prev))

clear-IsSafe : (dev : WgDevice) (p : WgPeer) → let (dev', p') = clear_keys dev p in IsSafe dev' p'
unfolding clear_keys
clear-IsSafe dev p = record {
  curr_prev = tt;
  curr_next = tt;
  prev_next = tt;
  curr_live = tt;
  prev_live = tt;
  next_live = tt;
}

check-IsSafe :
    (dev : WgDevice) (p : WgPeer) (now : ℕ)
    → IsSafe dev p
    → let (dev', p') = check_and_update_time_of_next_key_event dev p now in IsSafe dev' p'
unfolding check_and_update_time_of_next_key_event
check-IsSafe dev p now safe =
    let (dev₁, curr, t₁) = update_current dev p.curr_keypair now in
    let (dev₂, prev, t₂) = update_other dev₁ p.prev_keypair now t₁ in
    let (dev₃, next, t₃) = update_other dev₂ p.next_keypair now t₂ in
    let curr_prev = current-Apart dev p.curr_keypair p.prev_keypair now safe.curr_prev in
    let curr_next = current-Apart dev p.curr_keypair p.next_keypair now safe.curr_next in
    let prev_next = other-Apart dev₁ p.prev_keypair p.next_keypair now t₁ safe.prev_next in
    let curr_live = current_slot-IsLive dev p.curr_keypair now safe.curr_live in
    let prev_live = other_slot-IsLive dev₁ p.prev_keypair now t₁ (
      current-IsLive dev p.prev_keypair p.curr_keypair now safe.prev_live
        (Apart-sym p.curr_keypair p.prev_keypair safe.curr_prev)) in
    let next_live : IsLive dev₂.delayed_delete p.next_keypair =
      other-IsLive dev₁ p.next_keypair p.prev_keypair now t₁
        (current-IsLive dev p.next_keypair p.curr_keypair now safe.next_live
          (Apart-sym p.curr_keypair p.next_keypair safe.curr_next))
        (Apart-sym p.prev_keypair p.next_keypair safe.prev_next) in
    record {
      curr_prev =
          Apart-sym prev curr
            (other-Apart dev₁ p.prev_keypair curr now t₁ (Apart-sym curr p.prev_keypair curr_prev));
      curr_next =
          Apart-sym next curr
            (other-Apart dev₂ p.next_keypair curr now t₂ (Apart-sym curr p.next_keypair curr_next));
      prev_next =
          Apart-sym next prev
            (other-Apart dev₂ p.next_keypair prev now t₂ (Apart-sym prev p.next_keypair prev_next));
      curr_live =
          other-IsLive dev₂ curr p.next_keypair now t₂
            (other-IsLive dev₁ curr p.prev_keypair now t₁ curr_live curr_prev) curr_next;
      prev_live = other-IsLive dev₂ prev p.next_keypair now t₂ prev_live prev_next;
      next_live = other_slot-IsLive dev₂ p.next_keypair now t₂ next_live;
    }

-- The operations on the slots, by the tunnel and the main thread in any order.
pub data Step : WgDevice × WgPeer → WgDevice × WgPeer → Type 0 where
  insert :
      (s : WgDevice × WgPeer) (self k : ℕ)
      → IsFresh s.0 s.1 k
      → Step s (insert_keypair_in_peer s.0 self s.1 k)
  switch :
      (s : WgDevice × WgPeer) (k : ℕ)
      → Step s ((check_switch_to_next_key s.0 s.1 k).0, (check_switch_to_next_key s.0 s.1 k).1)
  clear_all : (s : WgDevice × WgPeer) → Step s (clear_keys s.0 s.1)
  check :
      (s : WgDevice × WgPeer) (now : ℕ)
      → Step s (check_and_update_time_of_next_key_event s.0 s.1 now)

pub data Run : WgDevice × WgPeer → WgDevice × WgPeer → Type 0 where
  done : {s : WgDevice × WgPeer} → Run s s
  step : {s t u : WgDevice × WgPeer} → Step s t → Run t u → Run s u

Step-IsSafe : {s t : WgDevice × WgPeer} → Step s t → IsSafe s.0 s.1 → IsSafe t.0 t.1
Step-IsSafe (insert s self k fresh) safe = insert-IsSafe s.0 self s.1 k safe fresh
Step-IsSafe (switch s k) safe = switch-IsSafe s.0 s.1 k safe
Step-IsSafe (clear_all s) safe = clear-IsSafe s.0 s.1
Step-IsSafe (check s now) safe = check-IsSafe s.0 s.1 now safe

-- From a state in which the three slots hold different keypairs, and none that was handed to the
-- delayed delete, any run of insertions of fresh keypairs, switches, clearings and key event checks
-- leads to such a state.
pub run-IsSafe : {s t : WgDevice × WgPeer} → Run s t → IsSafe s.0 s.1 → IsSafe t.0 t.1
run-IsSafe done safe = safe
run-IsSafe (step s r) safe = run-IsSafe r (Step-IsSafe s safe)
