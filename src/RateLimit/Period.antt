-- ===== src/RateLimit/Period.antt =====
-- What a use of the limiter does to the counters of the period.
use tun_safe.Base.{
  ℕ, ◌+◌, ◌≤◌, ◌<◌, ◌≡◌, sym, Bool, ◌==◌, ◌&&◌, if◌then◌else◌, List, get_or, set, length, arith,
  get_or-set_self, get_or-set_ne, ℕ_discrete, ==_refl,
}
use tun_safe.RateLimit.{WgRateLimit, check_rate_limit, commit_result, old_value}
use tun_safe.RateLimit.Bins.{IsBounded, check_rate_limit_lem}

grows :
    (xs : List ℕ) (i j v old : ℕ) (ok : Bool)
    → i < length xs
    → get_or xs i 0 ≤ old
    → v ≡ (if ok then old + 1 else old)
    → get_or xs j 0 + (if (i == j) && ok then 1 else 0) ≤ get_or (set xs i v) j 0
grows xs i j v old ok l o e = elim (ℕ_discrete i j) [
  | yes same ↦ rw (sym same) (ground (arith, ==_refl i, get_or-set_self xs i v 0 l))
  | no other ↦ ground (arith, get_or-set_ne xs i j v 0 other)
]

module _ (r : WgRateLimit) (ip j : ℕ) where
  -- CheckRateLimit alone leaves them.
  pub bin1-check_rate_limit : (check_rate_limit r ip).0.bin1 ≡ r.bin1
  unfolding check_rate_limit
  bin1-check_rate_limit = ground arith

  slot_small : IsBounded r → (check_rate_limit r ip).1.value_ptr < length r.bin1
  unfolding check_rate_limit
  slot_small h = omega (arith, h.sized)

  own_le : get_or r.bin1 (check_rate_limit r ip).1.value_ptr 0 ≤ old_value r ip
  unfolding check_rate_limit
  own_le = omega arith

  bin_after :
      let (limiter, rr) = check_rate_limit r ip in
      (commit_result limiter rr).bin1 ≡ set r.bin1 rr.value_ptr rr.new_value
  unfolding commit_result check_rate_limit
  bin_after = ground arith

  -- CommitResult lowers none, and raises that of an address that is not over its limit.
  pub counter_grows :
      IsBounded r
      → let (limiter, rr) = check_rate_limit r ip in
        get_or r.bin1 j 0 + (if (rr.value_ptr == j) && rr.is_ok then 1 else 0)
        ≤ get_or (commit_result limiter rr).bin1 j 0
  counter_grows h = rw bin_after (
      grows r.bin1 (check_rate_limit r ip).1.value_ptr j (check_rate_limit r ip).1.new_value
        (old_value r ip) (check_rate_limit r ip).1.is_ok (slot_small h) own_le
        (check_rate_limit_lem r ip h).0)
