-- ===== src/Processor/Limited.antt =====
-- How many handshakes CheckIncomingHandshakeRateLimit lets through under load.
use tun_safe.Base.{
  ℕ, suc, ◌+◌, ◌≤◌, ◌≡◌, refl, ◌⊎◌, inl, inr, Bool, false, not, ◌&&◌, List, [], ◌∷◌, ◌==◌,
  if◌then◌else◌, get_or, arith, ap, sym, subst, Bool-cases, ◌∙◌, if-both,
}
use tun_safe.Peer.{Packet}
use tun_safe.RateLimit.{WgRateLimit, check_rate_limit, commit_result}
use tun_safe.RateLimit.Bins.{IsBounded, All-get_or, apply, apply-IsBounded, ask, ask_and_commit}
use tun_safe.RateLimit.Period.{bin1-check_rate_limit, counter_grows}
use tun_safe.Handshake.{Crypto}
use tun_safe.Handshake.Cookie.{check_cookie_mac1}
use tun_safe.Processor.{Processor, do_write_udp_packet}
use tun_safe.Processor.Handshakes.{
  Chance, get_ip_for_rate_limit, demand_cookie, check_incoming_handshake_rate_limit,
}

-- A handshake message that arrives: the processor as it is then, but for its limiter, and the load.
pub record Arrival : Type 0 where
  pub state : Processor
  pub packet : Packet
  pub overload : Bool
  pub chance : Chance

-- The call of CheckIncomingHandshakeRateLimit, with the limiter that the arrivals before have left.
unfoldable pub arrives : Crypto → WgRateLimit → Arrival → Processor × Bool
arrives c r a =
    check_incoming_handshake_rate_limit c (record (a.state) { rate_limiter = r }) a.packet
      a.overload a.chance

-- The arrivals under load, with the counter `j`, that go on to the handler of the message.
unfoldable pub let_through : Crypto → WgRateLimit → ℕ → List Arrival → ℕ
unfolding arrives
let_through c r j [] = 0
let_through c r j (a ∷ rest) =
    let (s, passes) = arrives c r a in
    let later = let_through c s.rate_limiter j rest in
    let slot = (check_rate_limit r (get_ip_for_rate_limit a.packet.addr)).1.value_ptr in
    if (slot == j) && (a.overload && passes) then suc later else later

-- The limiter was asked and nothing more, or it was committed, and under load only for an address that
-- is not over its limit.
abbrev Uses : WgRateLimit → WgRateLimit → Bool → Processor × Bool → Type 0
Uses asked committed over t =
    ((t.0.rate_limiter ≡ asked) × (t.1 ≡ false)) ⊎ ((t.0.rate_limiter ≡ committed) × (over ≡ false))

module _ (r : WgRateLimit) (ip : ℕ) (h : IsBounded r) where
  asked-IsBounded : IsBounded (check_rate_limit r ip).0
  unfolding apply
  asked-IsBounded = apply-IsBounded r (ask ip) h

  committed-IsBounded :
      let (limiter, rr) = check_rate_limit r ip in IsBounded (commit_result limiter rr)
  unfolding apply
  committed-IsBounded = apply-IsBounded r (ask_and_commit ip) h

demand_cookie-rate_limiter :
    (c : Crypto) (s : Processor) (packet : Packet) (x : Chance)
    → (demand_cookie c s packet x).0.rate_limiter ≡ s.rate_limiter
unfolding demand_cookie do_write_udp_packet
demand_cookie-rate_limiter c s packet x =
    if-both (λ (t : Processor × Bool). t.0.rate_limiter ≡ s.rate_limiter) _ refl refl

arrives-Uses :
    (c : Crypto) (r : WgRateLimit) (a : Arrival)
    → let (limiter, rr) = check_rate_limit r (get_ip_for_rate_limit a.packet.addr) in
      Uses limiter (commit_result limiter rr) (a.overload && not rr.is_ok) (arrives c r a)
unfolding arrives check_incoming_handshake_rate_limit
arrives-Uses c r a =
    let (limiter, rr) = check_rate_limit r (get_ip_for_rate_limit a.packet.addr) in
    let s = record (a.state) { rate_limiter = commit_result limiter rr } in
    elim (Bool-cases (a.overload && not rr.is_ok)) [
      | inl over ↦ rw over (inl (refl, refl))
      | inr within ↦
          let P = Uses limiter (commit_result limiter rr) false in
          rw within (
            if-both P (not (check_cookie_mac1 c a.state.dev a.packet)) (inl (refl, refl)) (
              if-both P (a.overload && not (rr.new_value == 1))
                (inr (demand_cookie-rate_limiter c s a.packet a.chance, refl)) (inr (refl, refl))))
    ]

counted :
    (own overload passes ok : Bool) (later before after : ℕ)
    → later + after ≤ 100
    → before + (if own && ok then 1 else 0) ≤ after
    → (overload && not ok) ≡ false
    → (if own && (overload && passes) then suc later else later) + before ≤ 100
counted own overload passes ok later before after l grown within = ground arith

not_counted :
    (own overload passes : Bool) (later before : ℕ)
    → later + before ≤ 100
    → passes ≡ false
    → (if own && (overload && passes) then suc later else later) + before ≤ 100
not_counted own overload passes later before l h = ground arith

-- However handshake messages arrive, with a wrong first mac or a right one and with the load going up and
-- down, and whatever the processor does in between, from a bounded limiter at most PACKET_ACCUM of those
-- under load go on to their handler for one counter until the next period, less what the counter starts
-- with.
pub let_through_lem :
    (c : Crypto) (r : WgRateLimit) (j : ℕ) (arrivals : List Arrival)
    → IsBounded r
    → let_through c r j arrivals + get_or r.bin1 j 0 ≤ 100
unfolding let_through
let_through_lem c r j [] h = omega (arith, All-get_or r.bin1 j h.low)
let_through_lem c r j (a ∷ rest) h =
    let ip = get_ip_for_rate_limit a.packet.addr in
    let (limiter, rr) = check_rate_limit r ip in
    let (s, passes) = arrives c r a in
    let later = let_through c s.rate_limiter j rest in
    elim (arrives-Uses c r a) [
      | inl (asked, stopped) ↦
          let bounded = subst IsBounded (sym asked) (asked-IsBounded r ip h) in
          let counters : get_or s.rate_limiter.bin1 j 0 ≡ get_or r.bin1 j 0 =
            ap (λ (l : WgRateLimit). get_or l.bin1 j 0) asked
            ∙ ap (λ l. get_or l j 0) (bin1-check_rate_limit r ip j) in
          not_counted (rr.value_ptr == j) a.overload passes later (get_or r.bin1 j 0)
            (omega (arith, counters, let_through_lem c s.rate_limiter j rest bounded)) stopped
      | inr (committed, within) ↦
          let bounded = subst IsBounded (sym committed) (committed-IsBounded r ip h) in
          let counters = ap (λ (l : WgRateLimit). get_or l.bin1 j 0) committed in
          counted (rr.value_ptr == j) a.overload passes rr.is_ok later (get_or r.bin1 j 0)
            (get_or (commit_result limiter rr).bin1 j 0)
            (omega (arith, counters, let_through_lem c s.rate_limiter j rest bounded))
            (counter_grows r ip j h) within
    ]
