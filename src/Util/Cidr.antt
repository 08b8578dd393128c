-- ===== src/Util/Cidr.antt =====
-- Networks and their inclusion: CheckFirstNbitsEquals and IsWgCidrAddrSubsetOf in tunsafe_ipaddr.cpp.
use tun_safe.Base.{
  ℕ, zero, suc, ◌-◌, ◌*◌, ◌/◌, ◌%◌, ◌^◌, ◌<◌, ◌≡◌, ◌∙◌, ◌↔◌, ◌⊎◌, inl, inr, refl, sym, ap, Bool,
  true, false, not, ◌&&◌, ◌||◌, List, [], ◌∷◌, ◌==◌, ==_iff, leb, take, get_or, bit_and, bit_xor,
  arith, all_below, all_below_lem,
}
use mathlib.Core.Bool.{true≢false}
use tun_safe.Base.Bytes.{bytes_eq, bytes_eq_refl, bytes_eq_sound, both, IsBytes}
use tun_safe.Base.Bits.{shift_right, xor_lt_pow_iff}

-- WgCidrAddr: the size in bits, 32 or 128, and the length of the network's prefix.
pub record WgCidrAddr : Type 0 where
  pub addr : List ℕ
  pub size : ℕ
  pub cidr : ℕ

-- The bits of a byte above the lowest `r`: `x & (0xff << r)`.
unfoldable pub has_high_bits : ℕ → ℕ → Bool
has_high_bits r x = not (bit_and x (255 * 2 ^ r) == 0)

-- CheckFirstNbitsEquals
unfoldable pub check_first_nbits_equals : List ℕ → List ℕ → ℕ → Bool
unfolding has_high_bits
check_first_nbits_equals a b n =
    let k = n / 8 in
    bytes_eq (take k a) (take k b)
    && ((n % 8 == 0) || not (has_high_bits (8 - n % 8) (bit_xor (get_or a k 0) (get_or b k 0))))

-- IsWgCidrAddrSubsetOf
unfoldable pub is_wg_cidr_addr_subset_of : WgCidrAddr → WgCidrAddr → Bool
unfolding check_first_nbits_equals
is_wg_cidr_addr_subset_of inner outer =
    (inner.size == outer.size)
    && (leb outer.cidr inner.cidr && check_first_nbits_equals inner.addr outer.addr outer.cidr)

-- IsWgCidrAddrSubsetOfAny
unfoldable pub is_wg_cidr_addr_subset_of_any : WgCidrAddr → List WgCidrAddr → Bool
unfolding is_wg_cidr_addr_subset_of
is_wg_cidr_addr_subset_of_any inner [] = false
is_wg_cidr_addr_subset_of_any inner (a ∷ rest) =
    is_wg_cidr_addr_subset_of inner a || is_wg_cidr_addr_subset_of_any inner rest

-- A byte has no high bits exactly when it is below the power of two.
unfoldable agrees : ℕ → ℕ → Bool
unfolding has_high_bits
agrees r x = elim (has_high_bits r x) [ true ↦ leb (2 ^ r) x | false ↦ not (leb (2 ^ r) x) ]

unfoldable agrees_below : ℕ → Bool
unfolding agrees
agrees_below r = all_below 256 (agrees r)

all_agree : all_below 9 agrees_below ≡ true
unfolding agrees_below
all_agree = refl

agrees_iff :
    (h : Bool) (p x : ℕ)
    → (elim h [ true ↦ leb p x | false ↦ not (leb p x) ]) ≡ true
    → (h ≡ false) ↔ (x < p)
agrees_iff true p x e = (λ f. absurd (true≢false f), λ lt. ground arith)
agrees_iff false p x e = (λ f. ground arith, λ lt. refl)

high_bits : (r x : ℕ) → r < 9 → x < 256 → (has_high_bits r x ≡ false) ↔ (x < 2 ^ r)
unfolding agrees_below agrees
high_bits r x hr hx =
    agrees_iff (has_high_bits r x) (2 ^ r) x
      (all_below_lem 256 (agrees r) x (all_below_lem 9 agrees_below r all_agree hr) hx)

-- The exclusive or of two bytes is a byte.
xor_byte : (a b : ℕ) → a < 256 → b < 256 → bit_xor a b < 256
xor_byte a b ha hb =
    let zero_a : shift_right 8 a ≡ 0 = omega arith in
    let zero_b : shift_right 8 b ≡ 0 = omega arith in (xor_lt_pow_iff 8 a b).1 (zero_a ∙ sym zero_b)

-- Two bytes have the same bits above the lowest `r`.
same_high_bits :
    (r a b : ℕ)
    → r < 9
    → a < 256
    → b < 256
    → (has_high_bits r (bit_xor a b) ≡ false) ↔ (shift_right r a ≡ shift_right r b)
same_high_bits r a b hr ha hb =
    let (there, back) = high_bits r (bit_xor a b) hr (xor_byte a b ha hb) in
    let (to, from) = xor_lt_pow_iff r a b in (λ h. to (there h), λ e. back (from e))

byte_at : (k : ℕ) (xs : List ℕ) → IsBytes xs → get_or xs k 0 < 256
byte_at k [] h = omega arith
byte_at zero (x ∷ xs) (hx, h) = hx
byte_at (suc k) (x ∷ xs) (hx, h) = byte_at k xs h

-- The first bits of two addresses: the whole bytes, and what is over of the next byte.
pub SameBits : List ℕ → List ℕ → ℕ → Type 0
SameBits a b n =
    (take (n / 8) a ≡ take (n / 8) b)
    × ((n % 8 ≡ 0)
        ⊎ (shift_right (8 - n % 8) (get_or a (n / 8) 0)
            ≡ shift_right (8 - n % 8) (get_or b (n / 8) 0)))

split : {P : Type 0} (m : ℕ) (q : Bool) → ((m == 0) || not q) ≡ true → (q ≡ false → P) → (m ≡ 0) ⊎ P
split m true h f = inl ((==_iff m 0).0 (ground arith))
split m false h f = inr (f refl)

on_high : {P : Type 0} {m : ℕ} {q : Bool} → (m ≡ 0) ⊎ P → (P → q ≡ false) → (m ≡ 0) ⊎ (q ≡ false)
on_high (inl z) f = inl z
on_high (inr p) f = inr (f p)

joined :
    (w : Bool) (m : ℕ) (q : Bool)
    → w ≡ true
    → (m ≡ 0) ⊎ (q ≡ false)
    → (w && ((m == 0) || not q)) ≡ true
joined w m q h (inl z) = ground arith
joined w m q h (inr e) = ground arith

-- CheckFirstNbitsEquals says that the first bits of two addresses of bytes are the same: the whole bytes,
-- and above the bits that are left out, the next byte.
pub check_first_nbits_equals_iff :
    (a b : List ℕ) (n : ℕ)
    → IsBytes a
    → IsBytes b
    → (check_first_nbits_equals a b n ≡ true) ↔ SameBits a b n
unfolding check_first_nbits_equals SameBits
check_first_nbits_equals_iff a b n ha hb =
    let k = n / 8 in
    let high =
      same_high_bits (8 - n % 8) (get_or a k 0) (get_or b k 0) (omega arith) (byte_at k a ha)
        (byte_at k b hb) in
    (
      λ h.
          let (whole, over) = both (bytes_eq (take k a) (take k b)) _ h in
          (bytes_eq_sound (take k a) (take k b) whole, split (n % 8) _ over high.0),
      λ (whole, over).
          joined (bytes_eq (take k a) (take k b)) (n % 8) _
            (ap (bytes_eq (take k a)) (sym whole) ∙ bytes_eq_refl (take k a)) (on_high over high.1),
    )
