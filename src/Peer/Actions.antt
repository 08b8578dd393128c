-- ===== src/Peer/Actions.antt =====
-- Which actions CheckTimeouts asks for, from the timers that are due when it starts.
use tun_safe.Base.{
  ℕ, ◌+◌, ◌<◌, ◌≡◌, ◌∙◌, sym, ap, Bool, false, not, ◌&&◌, ◌||◌, ◌==◌, arith, get_or, inl, inr,
  Bool-cases,
}
use tun_safe.Base.Bits.{bit-zero, tested_clear}
use tun_safe.Keys.{has_family, rekey_timeout_ms, keepalive_timeout_ms}
use tun_safe.Peer.{WgPeer}
use tun_safe.Peer.Check.{
  Tick, has, is_due, fire_retransmit_handshake, fire_send_keepalive, fire_persistent_keepalive,
  fire_new_handshake, fire_zero_keys, fire_timers,
}
use tun_safe.Peer.Flags.{low_bits}
use tun_safe.Peer.Steps.{gives_up, IsSmall}
use tun_safe.Peer.Steps

none_wanted : (x : ℕ) → x < 5 → has 0 x ≡ false
unfolding has
none_wanted x h = rw (tested_clear x 0 (bit-zero x))

module _ (now : ℕ) (s : Tick) (small : IsSmall s) where
  abbrev s₁ : Tick
  s₁ = fire_retransmit_handshake now s

  abbrev s₂ : Tick
  s₂ = fire_send_keepalive now s₁

  abbrev s₃ : Tick
  s₃ = fire_persistent_keepalive now s₂

  abbrev s₄ : Tick
  s₄ = fire_new_handshake now s₃

  small₁ : IsSmall s₁
  small₁ = Steps.retransmit-IsSmall now s small

  small₂ : IsSmall s₂
  small₂ = Steps.keepalive-IsSmall now s₁ small₁

  small₃ : IsSmall s₃
  small₃ = Steps.persistent-IsSmall now s₂ small₂

  small₄ : IsSmall s₄
  small₄ = Steps.new_handshake-IsSmall now s₃ small₃

  interval : s₂.peer.persistent_keepalive_ms ≡ s.peer.persistent_keepalive_ms
  interval =
      (Steps.keepalive_peer now s₁ small₁).interval ∙ (Steps.retransmit_peer now s small).interval

  endpoint : s₃.peer.endpoint ≡ s.peer.endpoint
  endpoint =
      ap (λ (p : WgPeer). p.endpoint) (Steps.persistent_peer now s₂ small₂)
      ∙ (Steps.keepalive_peer now s₁ small₁).endpoint
      ∙ (Steps.retransmit_peer now s small).endpoint

  keepalive_due : is_due s₁ now 1 keepalive_timeout_ms ≡ (
      is_due s now 1 keepalive_timeout_ms
      && not (is_due s now 0 rekey_timeout_ms && gives_up s.peer))
  keepalive_due =
      Steps.is_due_masked s s₁ now 1 keepalive_timeout_ms _
        (Steps.retransmit_keepalive_flag now s small)
        (ap (λ v. get_or v 1 0) (Steps.retransmit_values now s small))

  persistent_due :
      is_due s₂ now 4 s₂.peer.persistent_keepalive_ms
      ≡ is_due s now 4 s.peer.persistent_keepalive_ms
  persistent_due =
      ap (is_due s₂ now 4) interval
      ∙ Steps.is_due_same s s₂ now 4 _
          (Steps.keepalive_flag now s₁ small₁ 4 (omega arith) (omega arith)
            ∙ Steps.retransmit_flag now s small 4 (omega arith) (omega arith))
          (Steps.keepalive_value now s₁ small₁ 4 (omega arith)
            ∙ ap (λ v. get_or v 4 0) (Steps.retransmit_values now s small))

  new_handshake_due : (limit : ℕ) → is_due s₃ now 2 limit ≡ is_due s now 2 limit
  new_handshake_due limit =
      Steps.is_due_same s s₃ now 2 limit
        (Steps.persistent_flag now s₂ small₂ 2 (omega arith) (omega arith)
          ∙ Steps.keepalive_flag now s₁ small₁ 2 (omega arith) (omega arith)
          ∙ Steps.retransmit_flag now s small 2 (omega arith) (omega arith))
        (ap (λ (p : WgPeer). get_or p.timer_value 2 0) (Steps.persistent_peer now s₂ small₂)
          ∙ Steps.keepalive_value now s₁ small₁ 2 (omega arith)
          ∙ ap (λ v. get_or v 2 0) (Steps.retransmit_values now s small))

  abbrev pub wants_handshake : Bool
  wants_handshake =
      (is_due s now 0 rekey_timeout_ms && not (gives_up s.peer))
      || (is_due s now 2 (keepalive_timeout_ms + rekey_timeout_ms) && has_family s.peer.endpoint)

  abbrev pub wants_keepalive : Bool
  wants_keepalive =
      (is_due s now 1 keepalive_timeout_ms
        && not (is_due s now 0 rekey_timeout_ms && gives_up s.peer))
      || (is_due s now 4 s.peer.persistent_keepalive_ms
          && not (s.peer.persistent_keepalive_ms == 0))

  fire_timers_idle : s.t ≡ 0 → fire_timers now s ≡ s
  unfolding fire_timers
  fire_timers_idle e = rw e

  fire_timers_busy : (s.t == 0) ≡ false → fire_timers now s ≡ fire_zero_keys now s₄
  unfolding fire_timers
  fire_timers_busy e = rw (low_bits s.t small.flags, e)

  early_handshake :
      s.rv ≡ 0 → has s₃.rv 1 ≡ (is_due s now 0 rekey_timeout_ms && not (gives_up s.peer))
  early_handshake z =
      (Steps.persistent_actions now s₂ small₂).0
      ∙ (Steps.keepalive_actions now s₁ small₁).0
      ∙ (Steps.retransmit_actions now s small).0
      ∙ rw (z, none_wanted 1 (omega arith))

  fired_handshake : s.rv ≡ 0 → has (fire_zero_keys now s₄).rv 1 ≡ wants_handshake
  fired_handshake z =
      ap (λ rv. has rv 1) (Steps.zero_keys_actions now s₄ small₄)
      ∙ (Steps.new_handshake_actions now s₃ small₃).0
      ∙ rw
          (early_handshake z, new_handshake_due (keepalive_timeout_ms + rekey_timeout_ms), endpoint)

  early_keepalive : s.rv ≡ 0 → has s₂.rv 0 ≡ is_due s₁ now 1 keepalive_timeout_ms
  early_keepalive z =
      (Steps.keepalive_actions now s₁ small₁).1
      ∙ rw ((Steps.retransmit_actions now s small).1, z, none_wanted 0 (omega arith))

  fired_keepalive : s.rv ≡ 0 → has (fire_zero_keys now s₄).rv 0 ≡ wants_keepalive
  fired_keepalive z =
      ap (λ rv. has rv 0) (Steps.zero_keys_actions now s₄ small₄)
      ∙ (Steps.new_handshake_actions now s₃ small₃).1
      ∙ (Steps.persistent_actions now s₂ small₂).1
      ∙ rw (early_keepalive z, keepalive_due, persistent_due, interval)

  idle : (x limit : ℕ) → s.t ≡ 0 → x < 5 → is_due s now x limit ≡ false
  idle x limit z h = rw (Steps.is_due_lem s now x limit, z, none_wanted x h)

  quiet : (x : ℕ) → s.t ≡ 0 → s.rv ≡ 0 → x < 5 → has (fire_timers now s).rv x ≡ false
  quiet x e z h =
      ap (λ (u : Tick). has u.rv x) (fire_timers_idle e) ∙ ap (λ rv. has rv x) z ∙ none_wanted x h

  nothing_wanted : s.t ≡ 0 → (wants_handshake ≡ false) × (wants_keepalive ≡ false)
  nothing_wanted e = (
    rw (
      idle 0 rekey_timeout_ms e (omega arith),
      idle 2 (keepalive_timeout_ms + rekey_timeout_ms) e (omega arith),
    ),
    rw (
      idle 1 keepalive_timeout_ms e (omega arith),
      idle 4 s.peer.persistent_keepalive_ms e (omega arith),
    ),
  )

  -- With the flags below 32 and no action yet, a handshake is sent exactly when its retransmission
  -- is due and not given up, or the timer for a new one is due and there is an endpoint. A keepalive
  -- is sent exactly when its timer is due and not dropped by a handshake that is given up, or the
  -- persistent one is due and its interval is not 0.
  pub fire_timers_actions :
      s.rv ≡ 0
      → (has (fire_timers now s).rv 1 ≡ wants_handshake)
        × (has (fire_timers now s).rv 0 ≡ wants_keepalive)
  fire_timers_actions z = elim (Bool-cases (s.t == 0)) [
    | inl none_set ↦
        let e : s.t ≡ 0 = ground arith in
        (
          quiet 1 e z (omega arith) ∙ sym (nothing_wanted e).0,
          quiet 0 e z (omega arith) ∙ sym (nothing_wanted e).1,
        )
    | inr some_set ↦ (
      rw (fire_timers_busy some_set) (fired_handshake z),
      rw (fire_timers_busy some_set) (fired_keepalive z),
    )
  ]
