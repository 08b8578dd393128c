-- ===== src/Peer/Flags.antt =====
-- The bits of `t` in CheckTimeouts, below 32, checked value by value.
use tun_safe.Base.{
  ℕ, ◌<◌, ◌^◌, ◌≡◌, refl, bit_and, bit_or, bit_xor, Bool, true, false, not, ◌&&◌, ltb, ◌==◌,
  if◌then◌else◌, arith, ltb→lt, ==_iff,
}
use tun_safe.Base.Bits.{all_below, below}
use tun_safe.Peer.Check.{has, without}

abbrev same : Bool → Bool → Bool
same true b = b
same false b = not b

same-eq : (a b : Bool) → same a b ≡ true → a ≡ b
same-eq a b h = ground arith

both : (a b : Bool) → (a && b) ≡ true → (a ≡ true) × (b ≡ true)
both a b h = ground arith

-- A test of two flags of a value below 32.
holds : (ℕ → ℕ → ℕ → Bool) → Bool
holds test = all_below 32 (λ t. all_below 5 (λ x. all_below 5 (test t x)))

holds_at :
    (test : ℕ → ℕ → ℕ → Bool) (t x y : ℕ)
    → holds test ≡ true
    → t < 32
    → x < 5
    → y < 5
    → test t x y ≡ true
unfolding holds
holds_at test t x y h ht hx hy =
    below 5 (test t x) y (below 5 (λ x. all_below 5 (test t x)) x (below 32 _ t h ht) hx) hy

without_test : ℕ → ℕ → ℕ → Bool
without_test t x y =
    same (has (without t x) y) (if y == x then false else has t y) && ltb (without t x) 32

flip_test : ℕ → ℕ → ℕ → Bool
flip_test t x y =
    same (has (bit_xor t 1) y) (if y == 0 then not (has t 0) else has t y) && ltb (bit_xor t 1) 32

set_test : ℕ → ℕ → ℕ → Bool
set_test t x y =
    same (has (bit_or t (2 ^ x)) y) (if y == x then true else has t y) && ltb (bit_or t (2 ^ x)) 32

module _ (t x y : ℕ) (ht : t < 32) (hx : x < 5) (hy : y < 5) where
  pub has-without : (has (without t x) y ≡ (if y == x then false else has t y)) × (without t x < 32)
  unfolding holds all_below has without without_test
  has-without =
      let (a, b) = both _ _ (holds_at without_test t x y refl ht hx hy) in
      (same-eq _ _ a, ltb→lt _ _ b)

  pub has-flip :
      (has (bit_xor t 1) y ≡ (if y == 0 then not (has t 0) else has t y)) × (bit_xor t 1 < 32)
  unfolding holds all_below has flip_test
  has-flip =
      let (a, b) = both _ _ (holds_at flip_test t x y refl ht hx hy) in
      (same-eq _ _ a, ltb→lt _ _ b)

  pub has-set :
      (has (bit_or t (2 ^ x)) y ≡ (if y == x then true else has t y)) × (bit_or t (2 ^ x) < 32)
  unfolding holds all_below has set_test
  has-set =
      let (a, b) = both _ _ (holds_at set_test t x y refl ht hx hy) in (same-eq _ _ a, ltb→lt _ _ b)

-- The five low bits are the whole of a value below 32.
pub low_bits : (t : ℕ) → t < 32 → bit_and t 0x1f ≡ t
unfolding all_below
low_bits t h = (==_iff _ t).0 (below 32 (λ t. bit_and t 0x1f == t) t refl h)
