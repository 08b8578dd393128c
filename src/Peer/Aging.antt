-- ===== src/Peer/Aging.antt =====
-- The steps of CheckAndUpdateTimeOfNextKeyEvent, run once more before the time that they return.
use tun_safe.Base.{
  ℕ, ◌-◌, ◌^◌, ◌≤◌, ◌<◌, ◌≡◌, ◌≢◌, ◌∙◌, refl, ap, min, true, false, Option, none, some, arith, inl,
  inr, Bool-cases, ℕ_discrete, ==_refl,
}
use mathlib.Core.Path.{fun_ext}
use tun_safe.Keys.{
  WgDevice, WgKeypair, KeyState, key_invalid, update, put_keypair, reject_after_time_ms,
}
use tun_safe.Peer.Slots.{delete_keypair}
use tun_safe.Peer.Events.{
  want_refresh, is_expired, add64, age_current, update_current, update_other,
}

-- The uint64 sums do not wrap.
abbrev pub max_timestamp : ℕ
max_timestamp = 2 ^ 64 - reject_after_time_ms

want_refresh_twice : (s : KeyState) → want_refresh (want_refresh s) ≡ want_refresh s
unfolding want_refresh
want_refresh_twice key_invalid = refl
want_refresh_twice s = refl

age_current_stable :
    (kp : WgKeypair) (now later : ℕ)
    → kp.key_timestamp < max_timestamp
    → now ≤ later
    → let (kp', next) = age_current kp now in later < next → age_current kp' later ≡ (kp', next)
unfolding age_current
age_current_stable kp now later h l b =
    ground (arith, want_refresh_twice kp.recv_key_state, want_refresh_twice kp.send_key_state)

update_self {ℓ} : {A : Type ℓ} (f : ℕ → A) (k : ℕ) → update f k (f k) ≡ f
update_self f k =
    fun_ext (λ j. elim (ℕ_discrete j k) [ yes e ↦ rw (e, ==_refl k) | no ne ↦ ground arith ])

-- The time at which a key dies.
abbrev pub dies : WgDevice → ℕ → ℕ
dies dev k = add64 (dev.keypairs k).key_timestamp reject_after_time_ms

age_current_bound :
    (kp : WgKeypair) (now : ℕ)
    → kp.key_timestamp < max_timestamp
    → ((age_current kp now).1 ≤ add64 kp.key_timestamp reject_after_time_ms)
      × ((age_current kp now).0.key_timestamp ≡ kp.key_timestamp)
unfolding age_current
age_current_bound kp now h = ground arith

-- The slot's keypair was made early enough for the sums not to wrap.
abbrev pub Young : WgDevice → Option ℕ → Type 0
Young dev none = Unit {0}
Young dev (some k) = (dev.keypairs k).key_timestamp < max_timestamp

-- `dev'` has the slot's keypair as `dev` has it.
abbrev pub SameAt : WgDevice → WgDevice → Option ℕ → Type 0
SameAt dev dev' none = Unit {0}
SameAt dev dev' (some k) = dev'.keypairs k ≡ dev.keypairs k

module _ (dev : WgDevice) (k now : ℕ) where
  pub current_dead :
      is_expired dev k now ≡ true
      → update_current dev (some k) now ≡ (delete_keypair dev (some k), none, 2 ^ 64 - 1)
  unfolding update_current
  current_dead dead = rw dead

  pub current_alive :
      is_expired dev k now ≡ false
      → update_current dev (some k) now ≡ (
        put_keypair dev k (age_current (dev.keypairs k) now).0,
        some k,
        (age_current (dev.keypairs k) now).1,
      )
  unfolding update_current
  current_alive alive = rw alive

  pub other_dead :
      (time : ℕ)
      → is_expired dev k now ≡ true
      → update_other dev (some k) now time ≡ (delete_keypair dev (some k), none, time)
  unfolding update_other
  other_dead time dead = rw dead

  pub other_alive :
      (time : ℕ)
      → is_expired dev k now ≡ false
      → update_other dev (some k) now time ≡ (dev, some k, min time (dies dev k))
  unfolding update_other
  other_alive time alive = rw alive

pub current_none :
    (dev : WgDevice) (now : ℕ) → update_current dev none now ≡ (dev, none, 2 ^ 64 - 1)
unfolding update_current
current_none dev now = refl

pub other_none :
    (dev : WgDevice) (now time : ℕ) → update_other dev none now time ≡ (dev, none, time)
unfolding update_other
other_none dev now time = refl

put_self : (dev : WgDevice) (k : ℕ) → put_keypair dev k (dev.keypairs k) ≡ dev
put_self dev k = λ i. record dev { keypairs = update_self dev.keypairs k i }

pub put_here : (dev : WgDevice) (k : ℕ) (kp : WgKeypair) → (put_keypair dev k kp).keypairs k ≡ kp
put_here dev k kp = rw (==_refl k)

pub put_there :
    (dev : WgDevice) (k j : ℕ) (kp : WgKeypair)
    → j ≢ k
    → (put_keypair dev k kp).keypairs j ≡ dev.keypairs j
put_there dev k j kp ne = ground arith

-- A current keypair that was aged at `now` and lives is left alone until its next event.
pub aged_again :
    (dev dev' : WgDevice) (k now later : ℕ)
    → Young dev (some k)
    → now ≤ later
    → later < (age_current (dev.keypairs k) now).1
    → dev'.keypairs k ≡ (age_current (dev.keypairs k) now).0
    → update_current dev' (some k) later ≡ (dev', some k, (age_current (dev.keypairs k) now).1)
aged_again dev dev' k now later y l h e =
    let kp = dev.keypairs k in
    let (bound, made) = age_current_bound kp now y in
    let same_age : (dev'.keypairs k).key_timestamp ≡ kp.key_timestamp =
      ap (λ (q : WgKeypair). q.key_timestamp) e ∙ made in
    let alive : is_expired dev' k later ≡ false = rw same_age (ground arith) in
    let again : age_current (dev'.keypairs k) later ≡ (dev'.keypairs k, (age_current kp now).1) =
      rw e (age_current_stable kp now later y l h) in
    current_alive dev' k later alive
    ∙ ap (λ (a : WgKeypair × ℕ). (put_keypair dev' k a.0, some k, a.1)) again
    ∙ ap (λ d. (d, some k, (age_current kp now).1)) (put_self dev' k)

pub current_again :
    (dev dev' : WgDevice) (slot : Option ℕ) (now later : ℕ)
    → Young dev slot
    → now ≤ later
    → let (dev₁, slot₁, next) = update_current dev slot now in
      later < next → SameAt dev₁ dev' slot₁ → update_current dev' slot₁ later ≡ (dev', slot₁, next)
current_again dev dev' none now later y l h e = rw (current_none dev now) (current_none dev' later)
current_again dev dev' (some k) now later y l h e = elim (Bool-cases (is_expired dev k now)) [
  | inl dead ↦ rw (current_dead dev k now dead) (current_none dev' later)
  | inr alive ↦
      let eq = current_alive dev k now alive in
      rw eq (
        aged_again dev dev' k now later y l (rw eq at h)
          (rw eq at e ∙ put_here dev k (age_current (dev.keypairs k) now).0))
]

pub other_again :
    (dev dev' : WgDevice) (slot : Option ℕ) (now later time : ℕ)
    → let (dev₁, slot₁, next) = update_other dev slot now time in
      later < next
      → SameAt dev₁ dev' slot₁
      → update_other dev' slot₁ later time ≡ (dev', slot₁, next)
other_again dev dev' none now later time h e =
    rw (other_none dev now time) (other_none dev' later time)
other_again dev dev' (some k) now later time h e = elim (Bool-cases (is_expired dev k now)) [
  | inl dead ↦ rw (other_dead dev k now time dead) (other_none dev' later time)
  | inr alive ↦
      let eq = other_alive dev k now time alive in
      let sooner : later < min time (dies dev k) = rw eq at h in
      let same : dev'.keypairs k ≡ dev.keypairs k = rw eq at e in
      let alive' : is_expired dev' k later ≡ false = rw same (ground arith) in
      rw eq (other_alive dev' k later time alive' ∙ rw same)
]
