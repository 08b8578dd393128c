-- ===== src/RateLimit.antt =====
-- WgRateLimit (wireguard_proto.h and wireguard_proto.cpp): two tables of counters over hashed
-- addresses decide which handshakes are answered under load.
pub mod Bins
pub mod Period
pub mod Tests
use tun_safe.Base.{
  ℕ, ◌+◌, ◌-◌, ◌*◌, ◌/◌, ◌%◌, ◌^◌, max, bit_xor, Bool, true, false, ltb, leb, ◌==◌, if◌then◌else◌,
  List, get_or, set, replicate,
}

abbrev pub bin_size : ℕ
bin_size = 4096

abbrev pub packets_per_sec_limit : ℕ
packets_per_sec_limit = 25

abbrev pub packet_accum : ℕ
packet_accum = 100

abbrev pub total_packets_per_sec : ℕ
total_packets_per_sec = 25000

-- `bin1` and `bin2` are the two rows of bins_; Periodic exchanges them. A key is two words.
pub record WgRateLimit : Type 0 where
  pub bin1 : List ℕ
  pub bin2 : List ℕ
  pub rand : ℕ
  pub rand_xor : ℕ
  pub packets_per_sec : ℕ
  pub used_rate_limit : ℕ
  pub key1 : ℕ × ℕ
  pub key2 : ℕ × ℕ

-- `value_ptr` points into bin1_, and is an index here.
pub record RateLimitResult : Type 0 where
  pub value_ptr : ℕ
  pub new_value : ℕ
  pub is_ok : Bool

unfoldable pub new_rate_limit : WgRateLimit
new_rate_limit = record {
  bin1 = replicate bin_size 0;
  bin2 = replicate bin_size 0;
  rand = 0;
  rand_xor = 0;
  packets_per_sec = packets_per_sec_limit;
  used_rate_limit = 0;
  key1 = (1, 1);
  key2 = (1, 1);
}

-- rol64(ip, 32)
abbrev pub rol32 : ℕ → ℕ
rol32 ip = (ip * 2 ^ 32 + ip / 2 ^ 32) % 2 ^ 64

-- hashit, over uint64 and then uint32.
unfoldable pub hashit : ℕ → ℕ × ℕ → ℕ
hashit ip (k₀, k₁) =
    let x = (ip * k₀ + rol32 ip * k₁) % 2 ^ 64 in
    let a = (x + x / 2 ^ 32 * 0x85ebca6b) % 2 ^ 32 in
    let b = a - a / 2 ^ 16 in bit_xor b (b / 2 ^ 4)

-- The counter of the address: its own, or what is left of the last period's. As ints, the
-- difference is negative where it is 0 here, and the other counter is not.
abbrev pub old_value : WgRateLimit → ℕ → ℕ
old_value r ip =
    max (get_or r.bin1 (hashit ip r.key1 % bin_size) 0)
      (get_or r.bin2 (hashit ip r.key2 % bin_size) 0 - r.packets_per_sec)

-- Whether the packet is let through, for the counter `old`: the upper half at random.
unfoldable pub is_let_through : ℕ → ℕ → Bool
is_let_through rand old =
    if ltb old 50
    then true
    else if ltb old packet_accum
    then ltb old (rand * 51 / 2 ^ 32 + 50)
    else false

-- WgRateLimit::CheckRateLimit
unfoldable pub check_rate_limit : WgRateLimit → ℕ → WgRateLimit × RateLimitResult
unfolding hashit is_let_through
check_rate_limit r ip =
    let old = old_value r ip in
    let v = is_let_through r.rand old in
    let drawn = record r { rand = (r.rand * 0x1b873593 + 5 + r.rand_xor) % 2 ^ 32 } in
    (
      if ltb old 50 then r else if ltb old packet_accum then drawn else r,
      record {
        value_ptr = hashit ip r.key1 % bin_size;
        new_value = if v then (old + 1) % 256 else old % 256;
        is_ok = v;
      },
    )

-- WgRateLimit::CommitResult
unfoldable pub commit_result : WgRateLimit → RateLimitResult → WgRateLimit
commit_result r rr = record r {
  bin1 = set r.bin1 rr.value_ptr rr.new_value;
  used_rate_limit = (r.used_rate_limit + 1) % 2 ^ 32;
  packets_per_sec =
      if r.used_rate_limit == total_packets_per_sec
      then (r.packets_per_sec + 1) / 2
      else r.packets_per_sec;
}

-- The quota of the next period.
unfoldable pub next_quota : ℕ → ℕ → ℕ
next_quota used current =
    let wanted =
      if leb total_packets_per_sec used
      then max 1 (packets_per_sec_limit * total_packets_per_sec / used)
      else packets_per_sec_limit in
    if ltb current wanted then (wanted + current + 1) / 2 else wanted

-- WgRateLimit::Periodic; `key` is the first four words of the seed and `seed` its last.
unfoldable pub periodic : WgRateLimit → ℕ × ℕ → ℕ → WgRateLimit
unfolding next_quota
periodic r key seed = record r {
  packets_per_sec = next_quota r.used_rate_limit r.packets_per_sec;
  used_rate_limit = 0;
  rand_xor = seed;
  key2 = r.key1;
  key1 = key;
  bin1 = replicate bin_size 0;
  bin2 = r.bin1;
}
