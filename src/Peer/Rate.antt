-- ===== src/Peer/Rate.antt =====
-- WgPeer::CheckHandshakeRateLimit over time.
use tun_safe.Base.{
  ℕ, ◌+◌, ◌^◌, ◌≤◌, ◌<◌, ◌≡◌, true, false, List, [], ◌∷◌, arith, if◌then◌else◌, dec_lt,
}
use tun_safe.Keys.{rekey_timeout_ms}
use tun_safe.Peer.{WgPeer, check_handshake_rate_limit}

-- The times, of those at which it is asked, at which a handshake is allowed.
unfoldable pub allowed_times : WgPeer → List ℕ → List ℕ
unfolding check_handshake_rate_limit
allowed_times p [] = []
allowed_times p (now ∷ later) =
    let (q, allowed) = check_handshake_rate_limit p now in
    let rest = allowed_times q later in if allowed then now ∷ rest else rest

-- The times go up from `from`, and are uint64.
abbrev pub Rising : ℕ → List ℕ → Type 0
Rising from [] = Unit {0}
Rising from (t ∷ ts) = (from ≤ t) × (t < 2 ^ 64) × Rising t ts

-- Each time is REKEY_TIMEOUT_MS or more after the one before.
abbrev pub Spaced : ℕ → List ℕ → Type 0
Spaced from [] = Unit {0}
Spaced from (t ∷ ts) = (from + rekey_timeout_ms ≤ t) × Spaced t ts

module _ (p : WgPeer) (now : ℕ) (after : p.last_handshake_init_timestamp ≤ now)
    (small : now < 2 ^ 64) where
  refused :
      now < p.last_handshake_init_timestamp + rekey_timeout_ms
      → check_handshake_rate_limit p now ≡ (p, false)
  unfolding check_handshake_rate_limit
  refused h = ground arith

  allowed :
      p.last_handshake_init_timestamp + rekey_timeout_ms ≤ now
      → check_handshake_rate_limit p now ≡ (record p { last_handshake_init_timestamp = now }, true)
  unfolding check_handshake_rate_limit
  allowed h = ground arith

Rising-weaken : (a b : ℕ) (ts : List ℕ) → a ≤ b → Rising b ts → Rising a ts
Rising-weaken a b [] h r = tt
Rising-weaken a b (t ∷ ts) h (le, small, rest) = (omega arith, small, rest)

-- Asked at rising times from its last handshake on, a peer allows handshakes that are
-- REKEY_TIMEOUT_MS or more apart.
pub allowed_times-Spaced :
    (p : WgPeer) (times : List ℕ)
    → Rising p.last_handshake_init_timestamp times
    → Spaced p.last_handshake_init_timestamp (allowed_times p times)
unfolding allowed_times
allowed_times-Spaced p [] r = tt
allowed_times-Spaced p (now ∷ later) (after, small, r) =
    elim (dec_lt now (p.last_handshake_init_timestamp + rekey_timeout_ms)) [
      | yes early ↦ rw (refused p now after small early) (
          allowed_times-Spaced p later
            (Rising-weaken p.last_handshake_init_timestamp now later after r))
      | no late ↦ rw (allowed p now after small (omega arith)) (
        omega arith,
        allowed_times-Spaced (record p { last_handshake_init_timestamp = now }) later r,
      )
    ]
