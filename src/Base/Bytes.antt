-- ===== src/Base/Bytes.antt =====
-- The macros of tunsafe_endian.h on a little-endian machine: integers as byte lists.
use Prim.Native.Nat.{ℕ, zero, suc, ◌+◌, ◌*◌, ◌/◌, ◌%◌, ◌^◌, ◌<◌}
use mathlib.Core.Path.{◌≡◌, refl, ap, ap₂, sym}
use mathlib.Core.List.{List, [], ◌∷◌, ◌++◌}
use mathlib.Core.Bool.{Bool, true, false, ◌&&◌, true≢false}
use tun_safe.Base.Tests.{◌==◌, ==_refl, ==_iff}
use native.Mathlib.Omega.{arith}
use native.Mathlib.Nat.{pow-suc}
use tun_safe.Base.Lists.{length}

-- WriteLE16, WriteLE32, WriteLE64: n bytes, the lowest first; what does not fit is cut.
unfoldable pub write_le : ℕ → ℕ → List ℕ
write_le zero v = []
write_le (suc n) v = (v % 256) ∷ write_le n (v / 256)

-- ReadLE16, ReadLE32, ReadLE64 of the whole list.
unfoldable pub read_le : List ℕ → ℕ
read_le [] = 0
read_le (b ∷ bs) = b + 256 * read_le bs

-- WriteBE16 and ReadBE16.
unfoldable pub write_be16 : ℕ → List ℕ
write_be16 v = (v / 256 % 256) ∷ (v % 256) ∷ []

unfoldable pub read_be : ℕ → List ℕ → ℕ
read_be acc [] = acc
read_be acc (b ∷ bs) = read_be (acc * 256 + b) bs

-- `memcmp(a, b, n) == 0` for lists of n bytes.
unfoldable pub bytes_eq : List ℕ → List ℕ → Bool
bytes_eq [] [] = true
bytes_eq (x ∷ a) (y ∷ b) = (x == y) && bytes_eq a b
bytes_eq _ _ = false

pub bytes_eq_refl : (a : List ℕ) → bytes_eq a a ≡ true
unfolding bytes_eq
bytes_eq_refl [] = refl
bytes_eq_refl (x ∷ a) = rw (==_refl x, bytes_eq_refl a) refl

pub both : (p q : Bool) → (p && q) ≡ true → (p ≡ true) × (q ≡ true)
both true q h = (refl, h)
both false q h = absurd (true≢false (sym h))

-- Lists that compare equal are equal.
pub bytes_eq_sound : (a b : List ℕ) → bytes_eq a b ≡ true → a ≡ b
unfolding bytes_eq
bytes_eq_sound [] [] h = refl
bytes_eq_sound [] (y ∷ b) h = absurd (true≢false (sym h))
bytes_eq_sound (x ∷ a) [] h = absurd (true≢false (sym h))
bytes_eq_sound (x ∷ a) (y ∷ b) h =
    let (e, rest) = both (x == y) (bytes_eq a b) h in
    ap₂ (λ (m : ℕ) (l : List ℕ). m ∷ l) ((==_iff x y).0 e) (bytes_eq_sound a b rest)

abbrev pub IsBytes : List ℕ → Type 0
IsBytes [] = Unit {0}
IsBytes (b ∷ bs) = (b < 256) × IsBytes bs

pub length-write_le : (n v : ℕ) → length (write_le n v) ≡ n
unfolding write_le
length-write_le zero v = refl
length-write_le (suc n) v = ap suc (length-write_le n (v / 256))

pub write_le-IsBytes : (n v : ℕ) → IsBytes (write_le n v)
unfolding write_le
write_le-IsBytes zero v = tt
write_le-IsBytes (suc n) v = (omega arith, write_le-IsBytes n (v / 256))

pub read_le-write_le : (n v : ℕ) → v < 256 ^ n → read_le (write_le n v) ≡ v
unfolding write_le read_le
read_le-write_le zero v h = omega arith
read_le-write_le (suc n) v h =
    omega (arith, read_le-write_le n (v / 256) (omega (arith, pow-suc 256 n)))

pub read_be-write_be16 : (v : ℕ) → v < 2 ^ 16 → read_be 0 (write_be16 v) ≡ v
unfolding write_be16 read_be
read_be-write_be16 v h = omega arith

pub IsBytes-append : (xs ys : List ℕ) → IsBytes xs → IsBytes ys → IsBytes (xs ++ ys)
IsBytes-append [] ys hx hy = hy
IsBytes-append (x ∷ xs) ys hx hy = (hx.0, IsBytes-append xs ys hx.1 hy)
