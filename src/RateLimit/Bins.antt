-- ===== src/RateLimit/Bins.antt =====
-- The bounds of the counters and of the quota.
use tun_safe.Base.{
  ℕ, suc, zero, ◌+◌, ◌*◌, ◌/◌, ◌%◌, ◌^◌, ◌≤◌, ◌<◌, ◌≡◌, true, false, ltb, if◌then◌else◌, List, [],
  ◌∷◌, get_or, set, replicate, arith, length, length-set, length-replicate, All, ◌∙◌, dec_le,
  if-both,
}
use native.Mathlib.Omega.{div_any}
use native.Mathlib.Nat.{mul-le-mul_left}
use tun_safe.RateLimit.{
  WgRateLimit, RateLimitResult, new_rate_limit, check_rate_limit, commit_result, periodic, hashit,
  is_let_through, next_quota, old_value, bin_size, packet_accum,
}

-- No counter is over PACKET_ACCUM, and the quota is 1 to 25.
pub record IsBounded (r : WgRateLimit) : Type 0 where
  pub low : All (λ v. v ≤ 100) r.bin1
  pub high : All (λ v. v ≤ 100) r.bin2
  pub sized : length r.bin1 ≡ 4096
  pub positive : 1 ≤ r.packets_per_sec
  pub quota : r.packets_per_sec ≤ 25

pub All-get_or : (xs : List ℕ) (i : ℕ) → All (λ v. v ≤ 100) xs → get_or xs i 0 ≤ 100
All-get_or [] i h = omega arith
All-get_or (x ∷ xs) zero h = h.0
All-get_or (x ∷ xs) (suc i) h = All-get_or xs i h.1

All-set :
    (xs : List ℕ) (i v : ℕ) → All (λ v. v ≤ 100) xs → v ≤ 100 → All (λ v. v ≤ 100) (set xs i v)
All-set [] i v h b = tt
All-set (x ∷ xs) zero v h b = (b, h.1)
All-set (x ∷ xs) (suc i) v h b = (h.0, All-set xs i v h.1 b)

All-replicate : (n : ℕ) → All (λ v. v ≤ 100) (replicate n 0)
All-replicate zero = tt
All-replicate (suc n) = (omega arith, All-replicate n)

-- More packets than the total leave less than the limit for each.
quotient_bound : (used : ℕ) → 25000 ≤ used → 625000 / used ≤ 25
quotient_bound used h = elim (dec_le (625000 / used) 25) [
  | yes small ↦ small
  | no large ↦
      let product : used * 26 ≤ used * (625000 / used) = mul-le-mul_left used (omega arith) in
      absurd (omega (arith, div_any 625000 used, product))
]

quota_bounds :
    (used current : ℕ)
    → 1 ≤ current
    → current ≤ 25
    → (1 ≤ next_quota used current) × (next_quota used current ≤ 25)
unfolding next_quota
quota_bounds used current a b = ground (arith, quotient_bound used)

old_bound : (r : WgRateLimit) (ip : ℕ) → IsBounded r → old_value r ip ≤ 100
old_bound r ip h = omega (
  arith,
  All-get_or r.bin1 (hashit ip r.key1 % bin_size) h.low,
  All-get_or r.bin2 (hashit ip r.key2 % bin_size) h.high,
)

-- The verdict on a packet, where the counters are bounded: the counter goes up by one when the
-- packet is let through and stays when it is not, and it stays within 100; below 50 every packet is
-- let through, at 100 none is.
pub check_rate_limit_lem :
    (r : WgRateLimit) (ip : ℕ)
    → IsBounded r
    → let rr = (check_rate_limit r ip).1 in
      let old = old_value r ip in
      (rr.new_value ≡ (if rr.is_ok then old + 1 else old))
      × (old < 50 → rr.is_ok ≡ true)
      × (100 ≤ old → rr.is_ok ≡ false)
      × (rr.new_value ≤ 100)
unfolding check_rate_limit is_let_through
check_rate_limit_lem r ip h = ground (arith, old_bound r ip h)

check-IsBounded : (r : WgRateLimit) (ip : ℕ) → IsBounded r → IsBounded (check_rate_limit r ip).0
unfolding check_rate_limit
check-IsBounded r ip h =
    let drawn : IsBounded (record r { rand = (r.rand * 0x1b873593 + 5 + r.rand_xor) % 2 ^ 32 }) =
      record {
        low = h.low;
        high = h.high;
        sized = h.sized;
        positive = h.positive;
        quota = h.quota;
      } in
    if-both IsBounded (ltb (old_value r ip) 50) h
      (if-both IsBounded (ltb (old_value r ip) packet_accum) drawn h)

commit-IsBounded :
    (r : WgRateLimit) (rr : RateLimitResult)
    → IsBounded r
    → rr.new_value ≤ 100
    → IsBounded (commit_result r rr)
unfolding commit_result
commit-IsBounded r rr h small = record {
  low = All-set r.bin1 rr.value_ptr rr.new_value h.low small;
  high = h.high;
  sized = length-set r.bin1 rr.value_ptr rr.new_value ∙ h.sized;
  positive = ground (arith, h.positive);
  quota = ground (arith, h.quota);
}

periodic-IsBounded :
    (r : WgRateLimit) (key : ℕ × ℕ) (seed : ℕ) → IsBounded r → IsBounded (periodic r key seed)
unfolding periodic
periodic-IsBounded r key seed h =
    let (positive, quota) = quota_bounds r.used_rate_limit r.packets_per_sec h.positive h.quota in
    record {
      low = All-replicate 4096;
      high = h.low;
      sized = length-replicate {A = ℕ} 4096 0;
      positive = positive;
      quota = quota;
    }

-- What the processor does with the limiter: it asks, and commits to the answer or not; and once a
-- second it starts a new period.
pub data Use : Type 0 where
  ask : (ip : ℕ) → Use
  ask_and_commit : (ip : ℕ) → Use
  tick : (key : ℕ × ℕ) (seed : ℕ) → Use

unfoldable pub apply : WgRateLimit → Use → WgRateLimit
apply r (ask ip) = (check_rate_limit r ip).0
apply r (ask_and_commit ip) = let (r', rr) = check_rate_limit r ip in commit_result r' rr
apply r (tick key seed) = periodic r key seed

unfoldable pub apply_all : WgRateLimit → List Use → WgRateLimit
unfolding apply
apply_all r [] = r
apply_all r (u ∷ us) = apply_all (apply r u) us

pub apply-IsBounded : (r : WgRateLimit) (u : Use) → IsBounded r → IsBounded (apply r u)
unfolding apply
apply-IsBounded r (ask ip) h = check-IsBounded r ip h
apply-IsBounded r (ask_and_commit ip) h =
    let (r', rr) = check_rate_limit r ip in
    commit-IsBounded r' rr (check-IsBounded r ip h) (check_rate_limit_lem r ip h).3
apply-IsBounded r (tick key seed) h = periodic-IsBounded r key seed h

-- However a bounded limiter is used, its counters stay within PACKET_ACCUM, and its quota stays from
-- 1 to PACKETS_PER_SEC.
pub apply_all-IsBounded :
    (r : WgRateLimit) (us : List Use) → IsBounded r → IsBounded (apply_all r us)
unfolding apply_all
apply_all-IsBounded r [] h = h
apply_all-IsBounded r (u ∷ us) h = apply_all-IsBounded (apply r u) us (apply-IsBounded r u h)

pub new-IsBounded : IsBounded new_rate_limit
unfolding new_rate_limit
new-IsBounded = record {
  low = All-replicate 4096;
  high = All-replicate 4096;
  sized = length-replicate {A = ℕ} 4096 0;
  positive = omega arith;
  quota = omega arith;
}
