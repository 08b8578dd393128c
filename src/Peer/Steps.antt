-- ===== src/Peer/Steps.antt =====
-- What each of the five steps of CheckTimeouts does to the flags, the actions and the peer.
use tun_safe.Base.{
  ℕ, ◌+◌, ◌%◌, ◌<◌, ◌^◌, ◌≡◌, refl, bit_or, bit_xor, Bool, true, false, not, ◌&&◌, ◌||◌, ltb, leb,
  ◌==◌, if◌then◌else◌, arith, get_or, get_or-set_ne,
}
use tun_safe.Keys.{has_family, rekey_timeout_ms, keepalive_timeout_ms}
use tun_safe.Peer.{WgPeer}
use tun_safe.Peer.Check.{
  Tick, has, without, elapsed, is_due, max_handshake_attempts, fire_retransmit_handshake,
  fire_send_keepalive, fire_persistent_keepalive, fire_new_handshake, fire_zero_keys, zero_all,
}
use tun_safe.Peer.Flags.{has-without, has-flip, has-set}

-- The handshake is given up: too many attempts, or nobody to send it to.
abbrev pub gives_up : WgPeer → Bool
gives_up p = ltb max_handshake_attempts p.handshake_attempts || not (has_family p.endpoint)

-- The values are in range, and what a later timer is decided by.
pub record IsSmall (s : Tick) : Type 0 where
  pub flags : s.t < 32
  pub actions : s.rv < 32

pub is_due_lem :
    (s : Tick) (now x limit : ℕ)
    → is_due s now x limit ≡ (has s.t x && leb limit (elapsed s.peer now x))
unfolding is_due
is_due_lem s now x limit = refl

elapsed_lem :
    (s s' : Tick) (now x : ℕ)
    → get_or s'.peer.timer_value x 0 ≡ get_or s.peer.timer_value x 0
    → elapsed s'.peer now x ≡ elapsed s.peer now x
unfolding elapsed
elapsed_lem s s' now x h = rw h

&&-right_comm : (a b c : Bool) → (a && b && c) ≡ (a && c && b)
&&-right_comm a b c = ground arith

-- A timer that runs as before is due as before.
pub is_due_same :
    (s s' : Tick) (now x limit : ℕ)
    → has s'.t x ≡ has s.t x
    → get_or s'.peer.timer_value x 0 ≡ get_or s.peer.timer_value x 0
    → is_due s' now x limit ≡ is_due s now x limit
is_due_same s s' now x limit f v =
    rw (is_due_lem s' now x limit, is_due_lem s now x limit, f, elapsed_lem s s' now x v)

-- A timer that is dropped unless `m` is due only if `m`.
pub is_due_masked :
    (s s' : Tick) (now x limit : ℕ) (m : Bool)
    → has s'.t x ≡ (has s.t x && m)
    → get_or s'.peer.timer_value x 0 ≡ get_or s.peer.timer_value x 0
    → is_due s' now x limit ≡ (is_due s now x limit && m)
is_due_masked s s' now x limit m f v =
    rw (is_due_lem s' now x limit, is_due_lem s now x limit, f, elapsed_lem s s' now x v)
      (&&-right_comm (has s.t x) m (leb limit (elapsed s.peer now x)))

pub record SamePeer (s s' : Tick) : Type 0 where
  pub endpoint : s'.peer.endpoint ≡ s.peer.endpoint
  pub interval : s'.peer.persistent_keepalive_ms ≡ s.peer.persistent_keepalive_ms

-- The flags after the changes that the steps make.
module _ (t y : ℕ) (ht : t < 32) (hy : y < 5) where
  after_flip : has (bit_xor t 1) y ≡ (if y == 0 then not (has t 0) else has t y)
  after_flip = (has-flip t 0 y ht (omega arith) hy).0

  after_without : (x : ℕ) → x < 5 → has (without t x) y ≡ (if y == x then false else has t y)
  after_without x hx = (has-without t x y ht hx hy).0

  after_set : (x : ℕ) → x < 5 → has (bit_or t (2 ^ x)) y ≡ (if y == x then true else has t y)
  after_set x hx = (has-set t x y ht hx hy).0

module _ (t x : ℕ) (ht : t < 32) (hx : x < 5) where
  flip-lt : bit_xor t 1 < 32
  flip-lt = (has-flip t x x ht hx hx).1

  without-lt : without t x < 32
  without-lt = (has-without t x x ht hx hx).1

  set-lt : bit_or t (2 ^ x) < 32
  set-lt = (has-set t x x ht hx hx).1

module _ (now : ℕ) (s : Tick) (small : IsSmall s) where
  abbrev t₀ : ℕ
  t₀ = bit_xor s.t 1

  t₀-lt : t₀ < 32
  t₀-lt = flip-lt s.t 0 small.flags (omega arith)

  abbrev retransmit_due : Bool
  retransmit_due = is_due s now 0 rekey_timeout_ms

  pub retransmit-IsSmall : IsSmall (fire_retransmit_handshake now s)
  unfolding fire_retransmit_handshake
  retransmit-IsSmall =
      ground (
        arith,
        t₀-lt,
        without-lt t₀ 1 t₀-lt (omega arith),
        set-lt s.rv 1 small.actions (omega arith),
      )

  pub retransmit_flag :
      (y : ℕ) → y < 5 → 1 < y → has (fire_retransmit_handshake now s).t y ≡ has s.t y
  unfolding fire_retransmit_handshake
  retransmit_flag y h l =
      ground (arith, after_flip s.t y small.flags h, after_without t₀ y t₀-lt h 1 (omega arith))

  pub retransmit_keepalive_flag :
      has (fire_retransmit_handshake now s).t 1
      ≡ (has s.t 1 && not (retransmit_due && gives_up s.peer))
  unfolding fire_retransmit_handshake
  retransmit_keepalive_flag = ground (
    arith,
    after_flip s.t 1 small.flags (omega arith),
    after_without t₀ 1 t₀-lt (omega arith) 1 (omega arith),
  )

  pub retransmit_actions :
      (has (fire_retransmit_handshake now s).rv 1
        ≡ (has s.rv 1 || (retransmit_due && not (gives_up s.peer))))
      × (has (fire_retransmit_handshake now s).rv 0 ≡ has s.rv 0)
  unfolding fire_retransmit_handshake
  retransmit_actions = ground (
    arith,
    after_set s.rv 1 small.actions (omega arith) 1 (omega arith),
    after_set s.rv 0 small.actions (omega arith) 1 (omega arith),
  )

  pub retransmit_peer : SamePeer s (fire_retransmit_handshake now s)
  unfolding fire_retransmit_handshake
  retransmit_peer = ground arith

  pub retransmit_values : (fire_retransmit_handshake now s).peer.timer_value ≡ s.peer.timer_value
  unfolding fire_retransmit_handshake
  retransmit_values = ground arith

  abbrev keepalive_due : Bool
  keepalive_due = is_due s now 1 keepalive_timeout_ms

  pub keepalive-IsSmall : IsSmall (fire_send_keepalive now s)
  unfolding fire_send_keepalive
  keepalive-IsSmall = ground (
    arith,
    without-lt s.t 1 small.flags (omega arith),
    set-lt (without s.t 1) 1 (without-lt s.t 1 small.flags (omega arith)) (omega arith),
    set-lt s.rv 0 small.actions (omega arith),
  )

  pub keepalive_flag : (y : ℕ) → y < 5 → 1 < y → has (fire_send_keepalive now s).t y ≡ has s.t y
  unfolding fire_send_keepalive
  keepalive_flag y h l = ground (
    arith,
    after_without s.t y small.flags h 1 (omega arith),
    after_set (without s.t 1) y (without-lt s.t 1 small.flags (omega arith)) h 1 (omega arith),
  )

  pub keepalive_actions :
      (has (fire_send_keepalive now s).rv 1 ≡ has s.rv 1)
      × (has (fire_send_keepalive now s).rv 0 ≡ (has s.rv 0 || keepalive_due))
  unfolding fire_send_keepalive
  keepalive_actions = ground (
    arith,
    after_set s.rv 1 small.actions (omega arith) 0 (omega arith),
    after_set s.rv 0 small.actions (omega arith) 0 (omega arith),
  )

  pub keepalive_peer : SamePeer s (fire_send_keepalive now s)
  unfolding fire_send_keepalive
  keepalive_peer = ground arith

  pub keepalive_value :
      (y : ℕ)
      → 1 < y
      → get_or (fire_send_keepalive now s).peer.timer_value y 0 ≡ get_or s.peer.timer_value y 0
  unfolding fire_send_keepalive
  keepalive_value y l =
      ground (arith, get_or-set_ne s.peer.timer_value 1 y (now % 2 ^ 32) 0 (omega arith))

  abbrev persistent_due : Bool
  persistent_due = is_due s now 4 s.peer.persistent_keepalive_ms

  pub persistent-IsSmall : IsSmall (fire_persistent_keepalive now s)
  unfolding fire_persistent_keepalive
  persistent-IsSmall = ground (
    arith,
    without-lt s.t 4 small.flags (omega arith),
    without-lt (without s.t 4) 1 (without-lt s.t 4 small.flags (omega arith)) (omega arith),
    set-lt s.rv 0 small.actions (omega arith),
  )

  pub persistent_flag :
      (y : ℕ) → 1 < y → y < 4 → has (fire_persistent_keepalive now s).t y ≡ has s.t y
  unfolding fire_persistent_keepalive
  persistent_flag y l h = ground (
    arith,
    after_without s.t y small.flags (omega arith) 4 (omega arith),
    after_without (without s.t 4) y (without-lt s.t 4 small.flags (omega arith)) (omega arith) 1
        (omega arith),
  )

  pub persistent_actions :
      (has (fire_persistent_keepalive now s).rv 1 ≡ has s.rv 1)
      × (has (fire_persistent_keepalive now s).rv 0
          ≡ (has s.rv 0 || (persistent_due && not (s.peer.persistent_keepalive_ms == 0))))
  unfolding fire_persistent_keepalive
  persistent_actions = ground (
    arith,
    after_set s.rv 1 small.actions (omega arith) 0 (omega arith),
    after_set s.rv 0 small.actions (omega arith) 0 (omega arith),
  )

  pub persistent_peer : (fire_persistent_keepalive now s).peer ≡ s.peer
  unfolding fire_persistent_keepalive
  persistent_peer = ground arith

  abbrev new_handshake_due : Bool
  new_handshake_due = is_due s now 2 (keepalive_timeout_ms + rekey_timeout_ms)

  pub new_handshake-IsSmall : IsSmall (fire_new_handshake now s)
  unfolding fire_new_handshake
  new_handshake-IsSmall =
      ground (
        arith,
        without-lt s.t 2 small.flags (omega arith),
        set-lt s.rv 1 small.actions (omega arith),
      )

  pub new_handshake_actions :
      (has (fire_new_handshake now s).rv 1
        ≡ (has s.rv 1 || (new_handshake_due && has_family s.peer.endpoint)))
      × (has (fire_new_handshake now s).rv 0 ≡ has s.rv 0)
  unfolding fire_new_handshake
  new_handshake_actions = ground (
    arith,
    after_set s.rv 1 small.actions (omega arith) 1 (omega arith),
    after_set s.rv 0 small.actions (omega arith) 1 (omega arith),
  )

  pub zero_keys_actions : (fire_zero_keys now s).rv ≡ s.rv
  unfolding fire_zero_keys
  zero_keys_actions = ground arith

  pub zero_keys-lt : (fire_zero_keys now s).t < 32
  unfolding fire_zero_keys zero_all
  zero_keys-lt = ground (arith, without-lt s.t 3 small.flags (omega arith))
