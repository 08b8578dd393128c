-- ===== src/Peer/Check.antt =====
-- WgPeer::CheckTimeouts_Locked: which timers have run out, and what is to be sent.
use tun_safe.Base.{
  ℕ, ◌+◌, ◌-◌, ◌/◌, ◌%◌, ◌*◌, ◌^◌, bit_and, bit_or, bit_xor, Bool, false, not, ◌&&◌, ◌||◌, List,
  ltb, leb, ◌==◌, if◌then◌else◌, get_or, set,
}
use tun_safe.Keys.{
  WgDevice, has_family, rekey_timeout_ms, keepalive_timeout_ms, reject_after_time_ms,
}
use tun_safe.Peer.{WgPeer}
use tun_safe.Peer.Slots.{clear_keys, clear_handshake}
use tun_safe.Peer.Queue.{clear_packet_queue}
use tun_safe.Peer.Events.{check_and_update_time_of_next_key_event}

abbrev pub max_handshake_attempts : ℕ
max_handshake_attempts = 20

abbrev pub action_send_keepalive : ℕ
action_send_keepalive = 1

abbrev pub action_send_handshake : ℕ
action_send_handshake = 2

-- The locals of the function beside the peer and its device: `t` and `rv`.
pub record Tick : Type 0 where
  pub dev : WgDevice
  pub peer : WgPeer
  pub t : ℕ
  pub rv : ℕ

-- `t & (1 << x)`
unfoldable pub has : ℕ → ℕ → Bool
has t x = not (bit_and t (2 ^ x) == 0)

-- `t &= ~(1 << x)`, over uint32
unfoldable pub without : ℕ → ℕ → ℕ
without t x = bit_and t (2 ^ 32 - 1 - 2 ^ x)

-- `now32 - timer_value_[x]`, over uint32
unfoldable pub elapsed : WgPeer → ℕ → ℕ → ℕ
elapsed p now x = (now % 2 ^ 32 + 2 ^ 32 - get_or p.timer_value x 0) % 2 ^ 32

unfoldable pub is_due : Tick → ℕ → ℕ → ℕ → Bool
unfolding has elapsed
is_due s now x limit = has s.t x && leb limit (elapsed s.peer now x)

-- `if (t & (1 << (5+x))) timer_value_[x] = now32`
unfoldable pub start_timer : ℕ → ℕ → ℕ → List ℕ → List ℕ
unfolding has
start_timer t now x values = if has t (x + 5) then set values x (now % 2 ^ 32) else values

-- "Got any new timers?"
unfoldable pub start_timers : WgPeer → ℕ → ℕ → WgPeer × ℕ
unfolding start_timer
start_timers p now t = if bit_and t (0x1f * 2 ^ 5) == 0 then (p, t) else (
  record p {
    timer_value = start_timer t now 4 (
        start_timer t now 3
          (start_timer t now 2 (start_timer t now 1 (start_timer t now 0 p.timer_value))));
  },
  bit_and (bit_or t (t / 2 ^ 5)) 0x1f,
)

unfoldable pub fire_retransmit_handshake : ℕ → Tick → Tick
unfolding is_due without clear_packet_queue
fire_retransmit_handshake now s =
    let p = s.peer in
    if is_due s now 0 rekey_timeout_ms
    then if ltb max_handshake_attempts p.handshake_attempts || not (has_family p.endpoint)
      then record s { t = without (bit_xor s.t 1) 1; peer = clear_packet_queue p }
      else record s {
        t = bit_xor s.t 1;
        peer = record p { handshake_attempts = (p.handshake_attempts + 1) % 256 };
        rv = bit_or s.rv action_send_handshake;
      }
    else s

unfoldable pub fire_send_keepalive : ℕ → Tick → Tick
unfolding is_due without
fire_send_keepalive now s =
    let p = s.peer in
    let t = without s.t 1 in
    let rv = bit_or s.rv action_send_keepalive in
    if is_due s now 1 keepalive_timeout_ms
    then if p.pending_keepalive
      then record s {
        t = bit_or t 2;
        rv = rv;
        peer = record p {
          pending_keepalive = false;
          timer_value = set p.timer_value 1 (now % 2 ^ 32);
        };
      }
      else record s { t = t; rv = rv }
    else s

unfoldable pub fire_persistent_keepalive : ℕ → Tick → Tick
unfolding is_due without
fire_persistent_keepalive now s =
    let t = without s.t 4 in
    if is_due s now 4 s.peer.persistent_keepalive_ms
    then if s.peer.persistent_keepalive_ms == 0
      then record s { t = t }
      else record s { t = without t 1; rv = bit_or s.rv action_send_keepalive }
    else s

unfoldable pub fire_new_handshake : ℕ → Tick → Tick
unfolding is_due without
fire_new_handshake now s =
    let t = without s.t 2 in
    if is_due s now 2 (keepalive_timeout_ms + rekey_timeout_ms)
    then if has_family s.peer.endpoint
      then record s {
        t = t;
        peer = record (s.peer) { handshake_attempts = 0 };
        rv = bit_or s.rv action_send_handshake;
      }
      else record s { t = t }
    else s

unfoldable pub zero_all : Tick → Tick
unfolding without
zero_all s =
    let (dev₁, p₁) = clear_keys s.dev s.peer in
    let (dev₂, p₂) = clear_handshake dev₁ p₁ in
    record s { t = without s.t 3; dev = dev₂; peer = p₂ }

unfoldable pub fire_zero_keys : ℕ → Tick → Tick
unfolding is_due zero_all
fire_zero_keys now s = if is_due s now 3 (reject_after_time_ms * 3) then zero_all s else s

-- "Got any expired timers?"
unfoldable pub fire_timers : ℕ → Tick → Tick
unfolding fire_retransmit_handshake fire_send_keepalive fire_persistent_keepalive fire_new_handshake
    fire_zero_keys
fire_timers now s =
    if bit_and s.t 0x1f == 0
    then s
    else fire_zero_keys now (
        fire_new_handshake now (
          fire_persistent_keepalive now
            (fire_send_keepalive now (fire_retransmit_handshake now s))))

-- The part after the key events: the actions, and the new state.
unfoldable pub check_timers : WgDevice → WgPeer → ℕ → WgDevice × WgPeer × ℕ
unfolding start_timers fire_timers
check_timers dev p now =
    let (p₁, t) = start_timers p now p.timers in
    let s = fire_timers now (record { dev = dev; peer = p₁; t = t; rv = 0 }) in
    if p.timers == 0 then (dev, p, 0) else (s.dev, record (s.peer) { timers = s.t }, s.rv)

unfoldable pub check_timeouts : WgDevice → WgPeer → ℕ → WgDevice × WgPeer × ℕ
unfolding check_and_update_time_of_next_key_event check_timers
check_timeouts dev p now =
    let (dev', p') =
      if leb p.time_of_next_key_event now
      then check_and_update_time_of_next_key_event dev p now
      else (dev, p) in
    check_timers dev' p' now
