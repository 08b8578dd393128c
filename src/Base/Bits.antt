-- ===== src/Base/Bits.antt =====
-- Single bits of a word: the laws of `|` and `&` by `1 << k`, which the native operations lack.
use Prim.Native.Nat.{
  ℕ, zero, suc, ◌+◌, ◌*◌, ◌/◌, ◌%◌, ◌^◌, ◌≤◌, ◌<◌, min, max, bit_and, bit_or, bitwise, digits,
  bit_and-bitwise, bit_or-bitwise, bit_xor, bit_xor-bitwise, differ,
}
use mathlib.Core.Path.{◌≡◌, refl, ap, sym, ◌∙◌}
use mathlib.Core.Logic.{◌≢◌, ◌↔◌}
use native.Mathlib.Omega.{arith}
use native.Mathlib.Nat.{pow-suc, one-le-pow, le_refl}
use mathlib.Core.Bool.{Bool, true, false, ◌&&◌}
use tun_safe.Base.Tests.{◌==◌}

-- Bit k of a word, 0 or 1.
pub bit : ℕ → ℕ → ℕ
bit w zero = w % 2
bit w (suc k) = bit (w / 2) k

module _ (rest : ℕ → ℕ) (op : ℕ → ℕ → ℕ) where
  -- The native definition counts down from the first number; any larger count serves.
  digits_count :
      (count a other b : ℕ)
      → a ≤ count
      → a ≤ other
      → digits rest op count a b ≡ digits rest op other a b
  digits_count zero zero zero b p q = refl
  digits_count zero zero (suc m) b p q = refl
  digits_count (suc n) zero zero b p q = refl
  digits_count (suc n) zero (suc m) b p q = refl
  digits_count zero (suc a) other b p q = absurd (omega arith)
  digits_count (suc n) (suc a) zero b p q = absurd (omega arith)
  digits_count (suc n) (suc a) (suc m) b p q =
      ap (λ d. d * 2 + op (suc a % 2) (b % 2))
        (digits_count n (suc a / 2) m (b / 2) (omega arith) (omega arith))

  lowest_digit :
      (a b : ℕ)
      → bitwise rest op (suc a) b ≡ bitwise rest op (suc a / 2) (b / 2) * 2 + op (suc a % 2) (b % 2)
  lowest_digit a b =
      ap (λ d. d * 2 + op (suc a % 2) (b % 2))
        (digits_count a (suc a / 2) (suc a / 2) (b / 2) (omega arith) (le_refl _))

bit_or_digit : (a b : ℕ) → bit_or a b ≡ bit_or (a / 2) (b / 2) * 2 + max (a % 2) (b % 2)
bit_or_digit zero b = simp bit_or-bitwise (omega arith)
bit_or_digit (suc a) b = simp bit_or-bitwise (lowest_digit (λ y. y) max a b)

bit_and_digit : (a b : ℕ) → bit_and a b ≡ bit_and (a / 2) (b / 2) * 2 + min (a % 2) (b % 2)
bit_and_digit zero b = simp bit_and-bitwise (omega arith)
bit_and_digit (suc a) b = simp bit_and-bitwise (lowest_digit (λ y. 0) min a b)

-- By a bound on the number, since the halves go down.
and_none : (n a : ℕ) → a ≤ n → bit_and a 0 ≡ 0
and_none n zero h = refl
and_none zero (suc a) h = absurd (omega arith)
and_none (suc n) (suc a) h =
    omega (arith, bit_and_digit (suc a) 0, and_none n (suc a / 2) (omega arith))

or_none : (n a : ℕ) → a ≤ n → bit_or a 0 ≡ a
or_none n zero h = refl
or_none zero (suc a) h = absurd (omega arith)
or_none (suc n) (suc a) h =
    omega (arith, bit_or_digit (suc a) 0, or_none n (suc a / 2) (omega arith))

-- `w & (1 << k)` is bit k in its place.
pub bit_and-pow : (k w : ℕ) → bit_and w (2 ^ k) ≡ bit w k * 2 ^ k
unfolding bit
bit_and-pow zero w = omega (arith, bit_and_digit w 1, and_none (w / 2) (w / 2) (le_refl _))
bit_and-pow (suc k) w = omega (
  arith,
  bit_and_digit w (2 ^ suc k),
  pow-suc 2 k,
  bit_and-pow k (w / 2),
  ap (λ (t : ℕ). bit (w / 2) k * t) (pow-suc 2 k),
  ap (bit_and (w / 2)) (halved k),
)
  where
    halved : (k : ℕ) → 2 ^ suc k / 2 ≡ 2 ^ k
    halved k = omega (arith, pow-suc 2 k)

pub bit-lt : (k w : ℕ) → bit w k < 2
unfolding bit
bit-lt zero w = omega arith
bit-lt (suc k) w = bit-lt k (w / 2)

or_half : (k w : ℕ) → bit_or w (2 ^ suc k) / 2 ≡ bit_or (w / 2) (2 ^ k)
or_half k w =
    let e : 2 ^ suc k / 2 ≡ 2 ^ k = omega (arith, pow-suc 2 k) in
    omega (arith, bit_or_digit w (2 ^ suc k), ap (bit_or (w / 2)) e)

or_low : (k w : ℕ) → bit_or w (2 ^ suc k) % 2 ≡ w % 2
or_low k w = omega (arith, bit_or_digit w (2 ^ suc k), pow-suc 2 k)

or_one_half : (w : ℕ) → bit_or w 1 / 2 ≡ w / 2
or_one_half w = omega (arith, bit_or_digit w 1, or_none (w / 2) (w / 2) (le_refl _))

-- `w | (1 << k)` sets bit k.
pub bit-bit_or_self : (k w : ℕ) → bit (bit_or w (2 ^ k)) k ≡ 1
unfolding bit
bit-bit_or_self zero w = omega (arith, bit_or_digit w 1)
bit-bit_or_self (suc k) w = rw (or_half k w) (bit-bit_or_self k (w / 2))

-- It leaves the other bits alone.
pub bit-bit_or_ne : (k j w : ℕ) → j ≢ k → bit (bit_or w (2 ^ k)) j ≡ bit w j
unfolding bit
bit-bit_or_ne zero zero w h = absurd (h refl)
bit-bit_or_ne zero (suc j) w h = ap (λ v. bit v j) (or_one_half w)
bit-bit_or_ne (suc k) zero w h = or_low k w
bit-bit_or_ne (suc k) (suc j) w h = rw (or_half k w) (bit-bit_or_ne k j (w / 2) (λ e. h (ap suc e)))

pub bit-zero : (k : ℕ) → bit 0 k ≡ 0
unfolding bit
bit-zero zero = refl
bit-zero (suc k) = bit-zero k

-- The test `w & (1 << k)`.
pub tested_clear : (k w : ℕ) → bit w k ≡ 0 → (bit_and w (2 ^ k) == 0) ≡ true
tested_clear k w h = rw (bit_and-pow k w, h) (ground arith)

pub tested_set : (k w : ℕ) → bit w k ≡ 1 → (bit_and w (2 ^ k) == 0) ≡ false
tested_set k w h = rw (bit_and-pow k w, h) (ground (arith, one-le-pow k 2))

-- Over a small range, every value is checked by evaluation.
unfoldable pub all_below : ℕ → (ℕ → Bool) → Bool
all_below zero p = true
all_below (suc n) p = all_below n p && p n

pub below : (n : ℕ) (p : ℕ → Bool) (x : ℕ) → all_below n p ≡ true → x < n → p x ≡ true
unfolding all_below
below zero p x h l = absurd (omega arith)
below (suc n) p x h l = ground (arith, below n p x)

-- Exclusive or, a digit at a time.
bit_xor_digit : (a b : ℕ) → bit_xor a b ≡ bit_xor (a / 2) (b / 2) * 2 + differ (a % 2) (b % 2)
bit_xor_digit zero b = simp bit_xor-bitwise (omega arith)
bit_xor_digit (suc a) b = simp bit_xor-bitwise (lowest_digit (λ y. y) differ a b)

differ_self : (r : ℕ) → differ r r ≡ 0
differ_self zero = refl
differ_self (suc r) = differ_self r

differ_bits : (r t : ℕ) → r < 2 → t < 2 → (differ r t < 2) × (differ r t ≡ 0 → r ≡ t)
differ_bits zero t h k = (k, λ e. sym e)
differ_bits (suc zero) zero h k = (h, λ e. e)
differ_bits (suc zero) (suc zero) h k = (omega arith, λ e. refl)
differ_bits (suc zero) (suc (suc t)) h k = absurd (omega arith)
differ_bits (suc (suc r)) t h k = absurd (omega arith)

xor_self : (n a : ℕ) → a ≤ n → bit_xor a a ≡ 0
xor_self n zero h = refl
xor_self zero (suc a) h = absurd (omega arith)
xor_self (suc n) (suc a) h = omega (
  arith,
  bit_xor_digit (suc a) (suc a),
  xor_self n (suc a / 2) (omega arith),
  differ_self (suc a % 2),
)

xor_zero : (n a b : ℕ) → a ≤ n → bit_xor a b ≡ 0 → a ≡ b
xor_zero n zero b h e = let whole : bit_xor 0 b ≡ b = simp bit_xor-bitwise refl in sym e ∙ whole
xor_zero zero (suc a) b h e = absurd (omega arith)
xor_zero (suc n) (suc a) b h e =
    let (small, same) = differ_bits (suc a % 2) (b % 2) (omega arith) (omega arith) in
    let digit = bit_xor_digit (suc a) b in
    let halves = xor_zero n (suc a / 2) (b / 2) (omega arith) (omega (arith, digit, e)) in
    omega (arith, halves, same (omega (arith, digit, e)))

-- The word without its lowest k bits.
abbrev pub shift_right : ℕ → ℕ → ℕ
shift_right zero a = a
shift_right (suc k) a = shift_right k (a / 2)

half_xor : (a b : ℕ) → bit_xor a b / 2 ≡ bit_xor (a / 2) (b / 2)
half_xor a b =
    omega (arith, bit_xor_digit a b, (differ_bits (a % 2) (b % 2) (omega arith) (omega arith)).0)

-- Two words agree above their lowest k bits if and only if their exclusive or is below 2 ^ k.
pub xor_lt_pow_iff : (k a b : ℕ) → (bit_xor a b < 2 ^ k) ↔ (shift_right k a ≡ shift_right k b)
xor_lt_pow_iff zero a b = (
  λ h. xor_zero a a b (le_refl a) (omega arith),
  λ e. omega (arith, ap (bit_xor a) (sym e), xor_self a a (le_refl a)),
)
xor_lt_pow_iff (suc k) a b =
    let (there, back) = xor_lt_pow_iff k (a / 2) (b / 2) in
    (
      λ h. there (omega (arith, half_xor a b, pow-suc 2 k)),
      λ e. omega (arith, half_xor a b, pow-suc 2 k, back e),
    )
