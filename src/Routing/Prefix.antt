-- ===== src/Routing/Prefix.antt =====
-- CalculateIPv6CommonPrefix counts the bits that two addresses share at their front.
use tun_safe.Base.{
  ℕ, zero, suc, ◌+◌, ◌-◌, ◌/◌, ◌^◌, ◌<◌, ◌≤◌, ◌≡◌, ◌∙◌, ◌↔◌, sym, ◌==◌, if◌then◌else◌, bit_xor,
  arith, ℕ_discrete, dec_lt,
}
use native.Mathlib.Nat.{pow-suc}
use tun_safe.Base.Bits.{shift_right, xor_lt_pow_iff}
use tun_safe.Routing.{Ip6, find_highest_set_bit, calculate_ipv6_common_prefix}

pow_pos : (k : ℕ) → 1 ≤ 2 ^ k
pow_pos zero = omega arith
pow_pos (suc k) = omega (arith, pow_pos k, pow-suc 2 k)

highest_suc :
    (bits x : ℕ)
    → find_highest_set_bit (suc bits) (suc x) ≡ 1 + find_highest_set_bit bits (suc x / 2)
unfolding find_highest_set_bit
highest_suc bits x = ground arith

-- The highest bit of a word bounds it.
highest_iff : (bits x k : ℕ) → x < 2 ^ bits → (find_highest_set_bit bits x ≤ k) ↔ (x < 2 ^ k)
unfolding find_highest_set_bit
highest_iff zero x k h = (λ _. omega (arith, pow_pos k), λ _. omega arith)
highest_iff (suc bits) zero k h = (λ _. omega (arith, pow_pos k), λ _. omega arith)
highest_iff (suc bits) (suc x) zero h =
    (λ e. absurd (omega (arith, highest_suc bits x)), λ e. absurd (omega arith))
highest_iff (suc bits) (suc x) (suc k) h =
    let (there, back) = highest_iff bits (suc x / 2) k (omega (arith, pow-suc 2 bits)) in
    (
      λ e. omega (arith, pow-suc 2 k, there (omega (arith, highest_suc bits x))),
      λ e. omega (arith, highest_suc bits x, back (omega (arith, pow-suc 2 k))),
    )

-- The addresses agree in their first `n` bits.
abbrev pub SamePrefix : ℕ → Ip6 → Ip6 → Type 0
SamePrefix n a b =
    (shift_right (64 - n) a.high ≡ shift_right (64 - n) b.high)
    × (shift_right (128 - n) a.low ≡ shift_right (128 - n) b.low)

-- shift_right of a word by its size or more.
shift_all : (k x : ℕ) → x < 2 ^ k → shift_right k x ≡ 0
shift_all zero x h = omega arith
shift_all (suc k) x h = shift_all k (x / 2) (omega (arith, pow-suc 2 k))

-- The exclusive or of two words is a word.
xor_word : (a b : ℕ) → a < 2 ^ 64 → b < 2 ^ 64 → bit_xor a b < 2 ^ 64
xor_word a b h k = (xor_lt_pow_iff 64 a b).1 (shift_all 64 a h ∙ sym (shift_all 64 b k))

-- CalculateIPv6CommonPrefix is the number of bits that two addresses share at their front.
pub common_prefix_iff :
    (a b : Ip6) (n : ℕ)
    → (a.high < 2 ^ 64) × (a.low < 2 ^ 64) × (b.high < 2 ^ 64) × (b.low < 2 ^ 64)
    → n ≤ 128
    → (n ≤ calculate_ipv6_common_prefix a b) ↔ SamePrefix n a b
unfolding calculate_ipv6_common_prefix
common_prefix_iff a b n (ha, la, hb, lb) h =
    let x = bit_xor a.high b.high in
    let y = bit_xor a.low b.low in
    let fx = find_highest_set_bit 64 x in
    let fy = find_highest_set_bit 64 y in
    let (x_same, x_lt) = xor_lt_pow_iff (64 - n) a.high b.high in
    let (y_same, y_lt) = xor_lt_pow_iff (128 - n) a.low b.low in
    let (hx, hx') = highest_iff 64 x (64 - n) (xor_word a.high b.high ha hb) in
    let (hy, hy') = highest_iff 64 y (128 - n) (xor_word a.low b.low la lb) in
    let x_bound =
      (highest_iff 64 x 64 (xor_word a.high b.high ha hb)).1 (xor_word a.high b.high ha hb) in
    let y_bound =
      (highest_iff 64 y 64 (xor_word a.low b.low la lb)).1 (xor_word a.low b.low la lb) in
    let x_pos = (highest_iff 64 x 0 (xor_word a.high b.high ha hb)).0 in
    elim (ℕ_discrete x 0) [
      | yes zero_x ↦
          let len : (if x == 0 then 128 - fy else 64 - fx) ≡ 128 - fy = ground arith in
          (
            λ e. (
              x_same (omega (arith, zero_x, pow_pos (64 - n))),
              y_same (hy (omega (arith, e, len, y_bound))),
            ),
            λ (p, q). omega (arith, len, hy' (y_lt q), h),
          )
      | no some_x ↦
          let len : (if x == 0 then 128 - fy else 64 - fx) ≡ 64 - fx = ground arith in
          let pos : 1 ≤ fx = elim (dec_lt 0 fx) [
            | yes p ↦ p
            | no p ↦ absurd (some_x (omega (arith, x_pos (omega arith))))
          ] in
          (
            λ e. (
              x_same (hx (omega (arith, e, len, x_bound, pos))),
              y_same (hy (omega (arith, e, len, y_bound, pos))),
            ),
            λ (p, q). omega (arith, len, hx' (x_lt p), pos),
          )
    ]
