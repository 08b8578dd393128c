-- ===== src/Util/Hex.antt =====
-- ParseHexString and PrintHexString.
use tun_safe.Base.{
  ℕ, ◌+◌, ◌-◌, ◌*◌, ◌/◌, ◌%◌, ◌<◌, ◌≡◌, refl, sym, ap, Bool, true, false, ◌&&◌, Option, none, some,
  List, [], ◌∷◌, ◌==◌, leb, if◌then◌else◌, length, bit_or, arith, ==_iff, ==_refl, all_below,
  all_below_lem,
}
use mathlib.Core.Bool.{true≢false}
use tun_safe.Base.Bytes.{IsBytes}

-- A character of PrintHexString: "0123456789abcdef"[v].
unfoldable pub hex_char : ℕ → ℕ
hex_char v = if leb v 9 then 48 + v else 87 + v

unfoldable pub print_hex_string : List ℕ → List ℕ
unfolding hex_char
print_hex_string [] = []
print_hex_string (b ∷ rest) = hex_char (b / 16) ∷ hex_char (b % 16) ∷ print_hex_string rest

-- The value of a character, in either case.
unfoldable pub hex_value : ℕ → Option ℕ
hex_value c =
    let l = bit_or c 32 in
    if leb 48 c && leb c 57
    then some (c - 48)
    else if leb 97 l && leb l 102
    then some (l - 87)
    else none

abbrev pub hex_byte : Option ℕ → Option ℕ → Option (List ℕ) → Option (List ℕ)
hex_byte (some c) (some d) (some rest) = some ((c * 16 + d) ∷ rest)
hex_byte (some c) (some d) none = none
hex_byte (some c) none rest = none
hex_byte none d rest = none

unfoldable pub hex_loop : List ℕ → Option (List ℕ)
unfolding hex_value
hex_loop (c ∷ d ∷ rest) = hex_byte (hex_value c) (hex_value d) (hex_loop rest)
hex_loop _ = some []

-- ParseHexString: the bytes, if the text has two characters for each.
unfoldable pub parse_hex_string : List ℕ → ℕ → Option (List ℕ)
unfolding hex_loop
parse_hex_string text data_size = if length text == data_size * 2 then hex_loop text else none

-- A digit is read back from its character.
unfoldable is_read_back : ℕ → Bool
unfolding hex_char hex_value
is_read_back v = elim (hex_value (hex_char v)) [ none ↦ false | some w ↦ w == v ]

all_read_back : all_below 16 is_read_back ≡ true
unfolding is_read_back
all_read_back = refl

found : (o : Option ℕ) (v : ℕ) → (elim o [ none ↦ false | some w ↦ w == v ]) ≡ true → o ≡ some v
found none v h = absurd (true≢false (sym h))
found (some w) v h = ap some ((==_iff w v).0 h)

hex_value-hex_char : (v : ℕ) → v < 16 → hex_value (hex_char v) ≡ some v
unfolding is_read_back
hex_value-hex_char v h =
    found (hex_value (hex_char v)) v (all_below_lem 16 is_read_back v all_read_back h)

length-print_hex_string : (bytes : List ℕ) → length (print_hex_string bytes) ≡ length bytes * 2
unfolding print_hex_string
length-print_hex_string [] = refl
length-print_hex_string (b ∷ rest) = omega (arith, length-print_hex_string rest)

hex_loop-print_hex_string :
    (bytes : List ℕ) → IsBytes bytes → hex_loop (print_hex_string bytes) ≡ some bytes
unfolding hex_loop print_hex_string
hex_loop-print_hex_string [] h = refl
hex_loop-print_hex_string (b ∷ rest) (hb, h) =
    let high = hex_value-hex_char (b / 16) (omega arith) in
    let low = hex_value-hex_char (b % 16) (omega arith) in
    rw (high, low, hex_loop-print_hex_string rest h) (ap (λ x. some (x ∷ rest)) (omega arith))

-- The bytes are read back from their hexadecimal text.
pub parse_hex_string-print_hex_string :
    (bytes : List ℕ)
    → IsBytes bytes
    → parse_hex_string (print_hex_string bytes) (length bytes) ≡ some bytes
unfolding parse_hex_string
parse_hex_string-print_hex_string bytes h =
    let size : (length (print_hex_string bytes) == length bytes * 2) ≡ true =
      rw (length-print_hex_string bytes) (==_refl (length bytes * 2)) in
    rw size (hex_loop-print_hex_string bytes h)
