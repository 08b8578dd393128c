-- ===== src/Peer/Settled.antt =====
-- Between two key events nothing happens: `time_of_next_key_event_` is a sound reason to skip
-- CheckAndUpdateTimeOfNextKeyEvent until then.
use tun_safe.Base.{
  ℕ, ◌≤◌, ◌<◌, ◌≡◌, ◌≢◌, ◌∙◌, refl, Option, none, some, Bool-cases, inl, inr, arith,
}
use tun_safe.Keys.{WgDevice}
use tun_safe.Peer.{WgPeer}
use tun_safe.Peer.Delete.{delete_keypair_lem}
use tun_safe.Peer.Events.{
  is_expired, update_current, update_other, check_and_update_time_of_next_key_event,
}
use tun_safe.Peer.Aging.{
  SameAt, Young, current_again, other_again, other_dead, other_alive, other_none, current_dead,
  current_alive, current_none,
}

-- Two slots do not hold one keypair.
abbrev pub Apart : Option ℕ → Option ℕ → Type 0
Apart none t = Unit {0}
Apart (some j) none = Unit {0}
Apart (some j) (some k) = j ≢ k

pub record IsSlotsApart (p : WgPeer) : Type 0 where
  pub curr_prev : Apart p.curr_keypair p.prev_keypair
  pub curr_next : Apart p.curr_keypair p.next_keypair
  pub prev_next : Apart p.prev_keypair p.next_keypair

other_keeps :
    (dev : WgDevice) (slot : Option ℕ) (now time j : ℕ)
    → Apart (some j) slot
    → (update_other dev slot now time).0.keypairs j ≡ dev.keypairs j
other_keeps dev none now time j a = rw (other_none dev now time)
other_keeps dev (some k) now time j a = elim (Bool-cases (is_expired dev k now)) [
  | inl dead ↦ rw (other_dead dev k now time dead) ((delete_keypair_lem dev k).4 j a)
  | inr alive ↦ rw (other_alive dev k now time alive)
]

other-SameAt :
    (dev : WgDevice) (slot s : Option ℕ) (now time : ℕ)
    → Apart s slot
    → SameAt dev (update_other dev slot now time).0 s
other-SameAt dev slot none now time a = tt
other-SameAt dev slot (some j) now time a = other_keeps dev slot now time j a

SameAt-trans : (a b c : WgDevice) (s : Option ℕ) → SameAt a b s → SameAt b c s → SameAt a c s
SameAt-trans a b c none p q = tt
SameAt-trans a b c (some j) p q = q ∙ p

SameAt-refl : (a : WgDevice) (s : Option ℕ) → SameAt a a s
SameAt-refl a none = tt
SameAt-refl a (some j) = refl

other_sooner :
    (dev : WgDevice) (slot : Option ℕ) (now time : ℕ) → (update_other dev slot now time).2 ≤ time
other_sooner dev none now time = rw (other_none dev now time) (omega arith)
other_sooner dev (some k) now time = elim (Bool-cases (is_expired dev k now)) [
  | inl dead ↦ rw (other_dead dev k now time dead) (omega arith)
  | inr alive ↦ rw (other_alive dev k now time alive) (omega arith)
]

Apart-none : (t : Option ℕ) → Apart none t
Apart-none t = tt

pub other-Apart :
    (dev : WgDevice) (slot t : Option ℕ) (now time : ℕ)
    → Apart slot t
    → Apart (update_other dev slot now time).1 t
other-Apart dev none t now time a = rw (other_none dev now time) tt
other-Apart dev (some k) t now time a = elim (Bool-cases (is_expired dev k now)) [
  | inl dead ↦ rw (other_dead dev k now time dead) tt
  | inr alive ↦ rw (other_alive dev k now time alive) a
]

pub current-Apart :
    (dev : WgDevice) (slot t : Option ℕ) (now : ℕ)
    → Apart slot t
    → Apart (update_current dev slot now).1 t
current-Apart dev none t now a = rw (current_none dev now) tt
current-Apart dev (some k) t now a = elim (Bool-cases (is_expired dev k now)) [
  | inl dead ↦ rw (current_dead dev k now dead) tt
  | inr alive ↦ rw (current_alive dev k now alive) a
]

-- A second check before the time of the next key event changes nothing, neither the peer nor any
-- keypair. The three slots hold different keypairs, and the uint64 sums do not wrap.
pub check_again :
    (dev : WgDevice) (p : WgPeer) (now later : ℕ)
    → IsSlotsApart p
    → Young dev p.curr_keypair
    → now ≤ later
    → let (dev', p') = check_and_update_time_of_next_key_event dev p now in
      later < p'.time_of_next_key_event
      → check_and_update_time_of_next_key_event dev' p' later ≡ (dev', p')
unfolding check_and_update_time_of_next_key_event
check_again dev p now later apart young le h =
    let (dev₁, curr, t₁) = update_current dev p.curr_keypair now in
    let (dev₂, prev, t₂) = update_other dev₁ p.prev_keypair now t₁ in
    let (dev₃, next, t₃) = update_other dev₂ p.next_keypair now t₂ in
    let sooner₂ : t₂ ≤ t₁ = other_sooner dev₁ p.prev_keypair now t₁ in
    let sooner₃ : t₃ ≤ t₂ = other_sooner dev₂ p.next_keypair now t₂ in
    let same₁ : SameAt dev₁ dev₃ curr =
      SameAt-trans dev₁ dev₂ dev₃ curr
        (other-SameAt dev₁ p.prev_keypair curr now t₁
          (current-Apart dev p.curr_keypair p.prev_keypair now apart.curr_prev))
        (other-SameAt dev₂ p.next_keypair curr now t₂
          (current-Apart dev p.curr_keypair p.next_keypair now apart.curr_next)) in
    let same₂ : SameAt dev₂ dev₃ prev =
      other-SameAt dev₂ p.next_keypair prev now t₂
        (other-Apart dev₁ p.prev_keypair p.next_keypair now t₁ apart.prev_next) in
    let again₁ : update_current dev₃ curr later ≡ (dev₃, curr, t₁) =
      current_again dev dev₃ p.curr_keypair now later young le (omega arith) same₁ in
    let again₂ : update_other dev₃ prev later t₁ ≡ (dev₃, prev, t₂) =
      other_again dev₁ dev₃ p.prev_keypair now later t₁ (omega arith) same₂ in
    let again₃ : update_other dev₃ next later t₂ ≡ (dev₃, next, t₃) =
      other_again dev₂ dev₃ p.next_keypair now later t₂ h (SameAt-refl dev₃ next) in
    rw (again₁, again₂, again₃)
