-- ===== src/Peer/Bounds.antt =====
-- What the handlers do to each of the five timers, checked value by value over their ten bits.
use tun_safe.Base.{
  ℕ, ◌<◌, ◌≡◌, refl, Bool, true, false, not, ◌&&◌, ltb, arith, ltb→lt, if◌then◌else◌, ◌==◌,
}
use tun_safe.Base.Bits.{all_below, below}
use tun_safe.Peer.{WgPeer}
use tun_safe.Peer.Timers.{
  is_timer_active, on_data_sent, on_keepalive_sent, on_data_received, on_keepalive_received,
  on_handshake_init_sent, on_handshake_auth_complete, on_handshake_fully_complete,
}

-- The seven notifications of WgPeer.
pub data Event : Type 0 where
  data_sent keepalive_sent data_received keepalive_received handshake_init_sent : Event
  handshake_auth_complete handshake_fully_complete : Event

unfoldable pub handle : Event → WgPeer → ℕ → WgPeer
unfolding on_data_sent on_keepalive_sent on_data_received on_keepalive_received
    on_handshake_init_sent on_handshake_auth_complete on_handshake_fully_complete
handle data_sent p now = on_data_sent p
handle keepalive_sent p now = on_keepalive_sent p
handle data_received p now = on_data_received p
handle keepalive_received p now = on_keepalive_received p
handle handshake_init_sent p now = on_handshake_init_sent p
handle handshake_auth_complete p now = on_handshake_auth_complete p
handle handshake_fully_complete p now = on_handshake_fully_complete p now

pub data Effect : Type 0 where
  start stop keep : Effect

-- The intent: which timer an event starts or stops. The timers are numbered 0 for the
-- retransmission of a handshake, 1 for a keepalive, 2 for a new handshake, 3 for zeroing the keys,
-- and 4 for the persistent keepalive, which every event but the last starts.
unfoldable pub effect : Event → ℕ → Effect
effect data_sent x =
    if x == 1 then stop else if x == 2 then start else if x == 4 then start else keep
effect keepalive_sent x = if x == 4 then start else keep
effect data_received x =
    if x == 2 then stop else if x == 1 then start else if x == 4 then start else keep
effect keepalive_received x = if x == 2 then stop else if x == 4 then start else keep
effect handshake_init_sent x =
    if x == 1 then stop else if x == 0 then start else if x == 4 then start else keep
effect handshake_auth_complete x =
    if x == 2 then stop else if x == 3 then start else if x == 4 then start else keep
effect handshake_fully_complete x = if x == 0 then stop else keep

unfoldable pub apply_effect : Effect → Bool → Bool
apply_effect start b = true
apply_effect stop b = false
apply_effect keep b = b

same : Bool → Bool → Bool
same true b = b
same false b = not b

same-eq : (a b : Bool) → same a b ≡ true → a ≡ b
unfolding same
same-eq a b h = ground arith

-- What `handle` does to the flags, on a peer that has nothing else.
flags_after : (WgPeer → WgPeer) → WgPeer → ℕ → ℕ
flags_after h p t = (h (record p { timers = t })).timers

test : Event → WgPeer → ℕ → ℕ → Bool
test e p t x =
    ltb (flags_after (λ q. handle e q 0) p t) 1024
    && same (is_timer_active x (flags_after (λ q. handle e q 0) p t))
        (apply_effect (effect e x) (is_timer_active x t))

test_passes : (e : Event) (p : WgPeer) → all_below 1024 (λ t. all_below 5 (test e p t)) ≡ true
unfolding all_below test flags_after handle effect apply_effect same is_timer_active
test_passes data_sent p = refl
test_passes _ p = refl

timers-handle : (e : Event) (p : WgPeer) (now : ℕ) → (handle e p now).timers ≡ (handle e p 0).timers
unfolding handle
timers-handle data_sent p now = refl
timers-handle _ p now = refl

both : (a b : Bool) → (a && b) ≡ true → (a ≡ true) × (b ≡ true)
both a b h = ground arith

passed_lem :
    (e : Event) (p : WgPeer) (t x : ℕ)
    → test e p t x ≡ true
    → (flags_after (λ q. handle e q 0) p t < 1024)
      × (is_timer_active x (flags_after (λ q. handle e q 0) p t)
          ≡ apply_effect (effect e x) (is_timer_active x t))
unfolding test
passed_lem e p t x h = let (small, agrees) = both _ _ h in (ltb→lt _ _ small, same-eq _ _ agrees)

-- With the flags in their ten bits, every event keeps them there, makes active the timers that it is
-- meant to start, stops the one that it is meant to stop, and leaves the others as they were.
pub handle_timers :
    (e : Event) (p : WgPeer) (now x : ℕ)
    → p.timers < 1024
    → x < 5
    → ((handle e p now).timers < 1024)
      × (is_timer_active x (handle e p now).timers
          ≡ apply_effect (effect e x) (is_timer_active x p.timers))
handle_timers e p now x ht hx =
    let passed = below 1024 (λ t. all_below 5 (test e p t)) p.timers (test_passes e p) ht in
    let (small, agrees) = passed_lem e p p.timers x (below 5 (test e p p.timers) x passed hx) in
    rw (timers-handle e p now) (unfold flags_after in small, unfold flags_after in agrees)
