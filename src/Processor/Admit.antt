-- ===== src/Processor/Admit.antt =====
-- Handshake messages that CheckIncomingHandshakeRateLimit stops.
use tun_safe.Base.{
  ℕ, ◌+◌, ◌≡◌, ◌∙◌, refl, sym, ◌⊎◌, inl, inr, Bool, true, false, not, ◌&&◌, ◌||◌, List, ◌==◌,
  if◌then◌else◌, length, arith, if-both, subst,
}
use mathlib.Core.Bool.{true≢false}
use tun_safe.Keys.{WgDevice}
use tun_safe.Peer.{Packet}
use tun_safe.RateLimit.{WgRateLimit, RateLimitResult, check_rate_limit, commit_result}
use tun_safe.Handshake.{Crypto}
use tun_safe.Handshake.Cookie.{
  check_cookie_mac1, check_cookie_mac2, create_cookie_message, make_cookie, refresh_secret,
}
use tun_safe.Processor.{Processor, Env, Stats, do_write_udp_packet}
use tun_safe.Processor.Handshakes.{
  Chance, get_ip_for_rate_limit, demand_cookie, check_incoming_handshake_rate_limit,
}
use tun_safe.Processor.Main.{
  initiation_type, response_type, udp_type, admit_initiation, admit_response, dispatch_udp,
  handle_udp_packet,
}

-- What CheckRateLimit says of the packet.
abbrev pub verdict : Processor → Packet → RateLimitResult
verdict s packet = (check_rate_limit s.rate_limiter (get_ip_for_rate_limit packet.addr)).1

-- The first mac is wrong, or under load the address is over its limit, or it is not new and the second
-- mac is wrong.
abbrev pub IsRefused : Crypto → Processor → Packet → Bool → Chance → Type 0
IsRefused c s packet overload x =
    (check_cookie_mac1 c s.dev packet ≡ false)
    ⊎ ((overload ≡ true)
        × (((verdict s packet).is_ok ≡ false)
            ⊎ ((((verdict s packet).new_value == 1) ≡ false)
                × ((check_cookie_mac2 c s.dev packet x.secret x.now).1 ≡ false))))

-- The two processors have the same peers, keys and queues, and wrote the same to the tunnel.
pub record IsUntouched (a b : Processor) : Type 0 where
  pub peers : a.peers ≡ b.peers
  pub keypairs : a.dev.keypairs ≡ b.dev.keypairs
  pub key_id_lookup : a.dev.key_id_lookup ≡ b.dev.key_id_lookup
  pub addr_entry_lookup : a.dev.addr_entry_lookup ≡ b.dev.addr_entry_lookup
  pub scheduled : a.scheduled ≡ b.scheduled
  pub tun : a.tun ≡ b.tun

secret_keeps :
    (dev : WgDevice) (random : List ℕ) (now : ℕ)
    → let dev' = refresh_secret dev random now in
      (dev'.keypairs ≡ dev.keypairs)
      × (dev'.key_id_lookup ≡ dev.key_id_lookup)
      × (dev'.addr_entry_lookup ≡ dev.addr_entry_lookup)
unfolding refresh_secret
secret_keeps dev random now = ground arith

demand_cookie-IsUntouched :
    (c : Crypto) (s : Processor) (packet : Packet) (x : Chance)
    → (check_cookie_mac2 c s.dev packet x.secret x.now).1 ≡ false
    → let r = demand_cookie c s packet x in (r.1 ≡ false) × IsUntouched r.0 s
unfolding demand_cookie check_cookie_mac2 create_cookie_message make_cookie do_write_udp_packet
demand_cookie-IsUntouched c s packet x h =
    let dev₁ = refresh_secret s.dev x.secret x.now in
    let (a₁, b₁, c₁) = secret_keeps s.dev x.secret x.now in
    let (a₂, b₂, c₂) = secret_keeps dev₁ x.secret x.now in
    rw h (
      refl,
      record {
        peers = refl;
        keypairs = a₂ ∙ a₁;
        key_id_lookup = b₂ ∙ b₁;
        addr_entry_lookup = c₂ ∙ c₁;
        scheduled = refl;
        tun = refl;
      },
    )

-- A change of the rate limiter and the counters alone.
limiter-IsUntouched :
    (s : Processor) (r : WgRateLimit) → IsUntouched (record s { rate_limiter = r }) s
limiter-IsUntouched s r = record {
  peers = refl;
  keypairs = refl;
  key_id_lookup = refl;
  addr_entry_lookup = refl;
  scheduled = refl;
  tun = refl;
}

stop_first : (a b : Bool) → b ≡ false → (a || not b) ≡ true
stop_first true b h = refl
stop_first false b h = rw h refl

refused-IsUntouched :
    (c : Crypto) (s : Processor) (packet : Packet) (overload : Bool) (x : Chance)
    → IsRefused c s packet overload x
    → let r = check_incoming_handshake_rate_limit c s packet overload x in
      (r.1 ≡ false) × IsUntouched r.0 s
unfolding check_incoming_handshake_rate_limit
refused-IsUntouched c s packet overload x (inl h) =
    rw (stop_first (overload && not (verdict s packet).is_ok) (check_cookie_mac1 c s.dev packet) h)
      (refl, limiter-IsUntouched s _)
refused-IsUntouched c s packet overload x (inr (loaded, inl h)) =
    rw (loaded, h) (refl, limiter-IsUntouched s _)
refused-IsUntouched c s packet overload x (inr (loaded, inr (seen, h))) =
    let (limiter, rr) = check_rate_limit s.rate_limiter (get_ip_for_rate_limit packet.addr) in
    let committed = record s { rate_limiter = commit_result limiter rr } in
    let (stopped, same) = demand_cookie-IsUntouched c committed packet x h in
    let inner : let r =
          if overload && not (rr.new_value == 1)
          then demand_cookie c committed packet x
          else (committed, true) in
        (r.1 ≡ false) × IsUntouched r.0 s =
      rw (loaded, seen)
        (
          stopped,
          record {
            peers = same.peers;
            keypairs = same.keypairs;
            key_id_lookup = same.key_id_lookup;
            addr_entry_lookup = same.addr_entry_lookup;
            scheduled = same.scheduled;
            tun = same.tun;
          },
        ) in
    if-both (λ (r : Processor × Bool). (r.1 ≡ false) × IsUntouched r.0 s)
      ((overload && not rr.is_ok) || not (check_cookie_mac1 c s.dev packet))
      (refl, limiter-IsUntouched s limiter) inner

-- A message that is refused is not handled.
initiation_stopped :
    (c : Crypto) (packet : Packet) (x : Chance) (s : Processor) (r : Processor × Bool)
    → (r.1 ≡ false) × IsUntouched r.0 s
    → IsUntouched (admit_initiation c packet x r) s
unfolding admit_initiation
initiation_stopped c packet x s (t, true) (h, same) = absurd (true≢false h)
initiation_stopped c packet x s (t, false) (h, same) = same

response_stopped :
    (c : Crypto) (env : Env) (packet : Packet) (x : Chance) (s : Processor) (r : Processor × Bool)
    → (r.1 ≡ false) × IsUntouched r.0 s
    → IsUntouched (admit_response c env packet x r) s
unfolding admit_response
response_stopped c env packet x s (t, true) (h, same) = absurd (true≢false h)
response_stopped c env packet x s (t, false) (h, same) = same

-- Counters of the display.
stats-IsUntouched :
    (a s : Processor) (st : Stats) → IsUntouched a (record s { stats = st }) → IsUntouched a s
stats-IsUntouched a s st same = record {
  peers = same.peers;
  keypairs = same.keypairs;
  key_id_lookup = same.key_id_lookup;
  addr_entry_lookup = same.addr_entry_lookup;
  scheduled = same.scheduled;
  tun = same.tun;
}

-- When a handshake message has a wrong first mac, or under load its address is over the limit, or is not
-- new and the second mac is wrong, then HandleUdpPacket leaves the peers, their keys and the scheduled
-- handshakes as they were, and writes nothing to the tunnel.
pub refused_lem :
    (c : Crypto) (env : Env) (s : Processor) (packet : Packet) (overload : Bool) (x : Chance)
    → (let type = udp_type s.dev.is_private_key_initialized packet.bytes in
        (type ≡ initiation_type) ⊎ (type ≡ response_type))
    → IsRefused c s packet overload x
    → IsUntouched (handle_udp_packet c env s packet overload x) s
unfolding handle_udp_packet dispatch_udp
refused_lem c env s packet overload x (inl type) refused =
    let st = record (s.stats) {
      udp_bytes_in = s.stats.udp_bytes_in + length packet.bytes;
      udp_packets_in = s.stats.udp_packets_in + 1;
    } in
    let st' = record st { handshakes_in = s.stats.handshakes_in + 1 } in
    let s' = record s { stats = st' } in
    subst (λ t. IsUntouched (dispatch_udp c env (record s { stats = st }) packet overload x t) s)
      (sym type)
      (initiation_stopped c packet x s (check_incoming_handshake_rate_limit c s' packet overload x)
        (let r = refused-IsUntouched c s' packet overload x refused in
          (
            r.0,
            stats-IsUntouched (check_incoming_handshake_rate_limit c s' packet overload x).0 s st'
                r.1,
          )))
refused_lem c env s packet overload x (inr type) refused =
    let st = record (s.stats) {
      udp_bytes_in = s.stats.udp_bytes_in + length packet.bytes;
      udp_packets_in = s.stats.udp_packets_in + 1;
    } in
    let s' = record s { stats = st } in
    subst (λ t. IsUntouched (dispatch_udp c env s' packet overload x t) s) (sym type)
      (response_stopped c env packet x s
        (check_incoming_handshake_rate_limit c s' packet overload x)
        (let r = refused-IsUntouched c s' packet overload x refused in
          (
            r.0,
            stats-IsUntouched (check_incoming_handshake_rate_limit c s' packet overload x).0 s st
                r.1,
          )))
