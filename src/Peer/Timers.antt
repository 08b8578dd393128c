-- ===== src/Peer/Timers.antt =====
-- The five timers of a peer, as bits of `timers_`: bit x is an active timer, bit x + 5 one that was
-- set since the last check. The macros WgClearTimer, WgIsTimerActive, WgSetTimer, and the handlers
-- that use them.
use tun_safe.Base.{ℕ, ◌-◌, ◌*◌, ◌^◌, bit_and, bit_or, Bool, true, not, ◌==◌, if◌then◌else◌}
use tun_safe.Peer.{WgPeer}

abbrev pub retransmit_handshake : ℕ
retransmit_handshake = 0

abbrev pub send_keepalive : ℕ
send_keepalive = 1

abbrev pub new_handshake : ℕ
new_handshake = 2

abbrev pub zero_keys : ℕ
zero_keys = 3

abbrev pub persistent_keepalive : ℕ
persistent_keepalive = 4

-- `timers_ &= ~(33 << x)`, over uint32
unfoldable pub clear_timer : ℕ → ℕ → ℕ
clear_timer x t = bit_and t (2 ^ 32 - 1 - 33 * 2 ^ x)

unfoldable pub is_timer_active : ℕ → ℕ → Bool
is_timer_active x t = not (bit_and t (33 * 2 ^ x) == 0)

unfoldable pub set_timer : ℕ → ℕ → ℕ
set_timer x t = bit_or t (32 * 2 ^ x)

abbrev with_timers : WgPeer → ℕ → WgPeer
with_timers p t = record p { timers = t }

unfoldable pub set_unless_active : ℕ → ℕ → ℕ
unfolding is_timer_active set_timer
set_unless_active x t = if is_timer_active x t then t else set_timer x t

unfoldable pub on_data_sent : WgPeer → WgPeer
unfolding clear_timer set_timer set_unless_active
on_data_sent p = with_timers p (
    set_timer persistent_keepalive
      (set_unless_active new_handshake (clear_timer send_keepalive p.timers)))

unfoldable pub on_keepalive_sent : WgPeer → WgPeer
unfolding set_timer
on_keepalive_sent p = with_timers p (set_timer persistent_keepalive p.timers)

unfoldable pub on_data_received : WgPeer → WgPeer
unfolding clear_timer set_timer set_unless_active is_timer_active
on_data_received p =
    let t = clear_timer new_handshake p.timers in
    record p {
      timers = set_timer persistent_keepalive (set_unless_active send_keepalive t);
      pending_keepalive = if is_timer_active send_keepalive t then true else p.pending_keepalive;
    }

unfoldable pub on_keepalive_received : WgPeer → WgPeer
unfolding clear_timer set_timer
on_keepalive_received p =
    with_timers p (set_timer persistent_keepalive (clear_timer new_handshake p.timers))

unfoldable pub on_handshake_init_sent : WgPeer → WgPeer
unfolding clear_timer set_timer
on_handshake_init_sent p = with_timers p (
    set_timer persistent_keepalive
      (set_timer retransmit_handshake (clear_timer send_keepalive p.timers)))

unfoldable pub on_handshake_auth_complete : WgPeer → WgPeer
unfolding clear_timer set_timer
on_handshake_auth_complete p =
    with_timers p
      (set_timer persistent_keepalive (set_timer zero_keys (clear_timer new_handshake p.timers)))

-- OnHandshakeFullyComplete, but for the message to the log.
unfoldable pub on_handshake_fully_complete : WgPeer → ℕ → WgPeer
unfolding clear_timer
on_handshake_fully_complete p now = record p {
  timers = clear_timer retransmit_handshake p.timers;
  total_handshake_attempts = 0;
  handshake_attempts = 0;
  last_complete_handshake_timestamp = now;
}
