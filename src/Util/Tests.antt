-- ===== src/Util/Tests.antt =====
-- Texts of bytes, and the theorems at them.
use tun_safe.Base.{ℕ, ◌≡◌, ◌↔◌, true, false, refl, none, some, List, [], ◌∷◌, arith}
use tun_safe.Base.Bytes.{IsBytes, bytes_eq}
use tun_safe.Util.Cidr.{
  check_first_nbits_equals, is_wg_cidr_addr_subset_of_any, SameBits, check_first_nbits_equals_iff,
}
use tun_safe.Util.Base64.{base64_encode, base64_decode}
use tun_safe.Util.Base64.Decoded.{base64_decode-base64_encode}
use tun_safe.Util.Hex.{print_hex_string, parse_hex_string, parse_hex_string-print_hex_string}

-- "Man" and "Ma"
encode_man : base64_encode (77 ∷ 97 ∷ 110 ∷ []) ≡ 84 ∷ 87 ∷ 70 ∷ 117 ∷ []
unfolding base64_encode
encode_man = refl

encode_ma : base64_encode (77 ∷ 97 ∷ []) ≡ 84 ∷ 87 ∷ 69 ∷ 61 ∷ []
unfolding base64_encode
encode_ma = refl

-- A line break inside is skipped; there is no room for the third byte.
decode_man : base64_decode (84 ∷ 87 ∷ 10 ∷ 70 ∷ 117 ∷ []) 3 ≡ some (77 ∷ 97 ∷ 110 ∷ [])
unfolding base64_decode
decode_man = refl

decode_no_room : base64_decode (84 ∷ 87 ∷ 70 ∷ 117 ∷ []) 2 ≡ none
unfolding base64_decode
decode_no_room = refl

abbrev four_bytes : List ℕ
four_bytes = 1 ∷ 20 ∷ 255 ∷ 0 ∷ []

four_bytes-IsBytes : IsBytes four_bytes
four_bytes-IsBytes = (omega arith, (omega arith, (omega arith, (omega arith, tt))))

base64_decode-base64_encode_example : base64_decode (base64_encode four_bytes) 32 ≡ some four_bytes
base64_decode-base64_encode_example =
    base64_decode-base64_encode four_bytes 32 four_bytes-IsBytes (omega arith)

parse_hex_string-print_hex_string_example :
    parse_hex_string (print_hex_string four_bytes) 4 ≡ some four_bytes
parse_hex_string-print_hex_string_example =
    parse_hex_string-print_hex_string four_bytes four_bytes-IsBytes

-- Networks: 10.1.2.0 and 10.1.3.255 agree in their first 23 bits, and not in 24.
check_first_nbits_equals_iff_example :
    (check_first_nbits_equals (10 ∷ 1 ∷ 2 ∷ 0 ∷ []) (10 ∷ 1 ∷ 3 ∷ 255 ∷ []) 23 ≡ true)
    ↔ SameBits (10 ∷ 1 ∷ 2 ∷ 0 ∷ []) (10 ∷ 1 ∷ 3 ∷ 255 ∷ []) 23
check_first_nbits_equals_iff_example =
    check_first_nbits_equals_iff (10 ∷ 1 ∷ 2 ∷ 0 ∷ []) (10 ∷ 1 ∷ 3 ∷ 255 ∷ []) 23 (omega arith)
      (omega arith)

nbits-23 : check_first_nbits_equals (10 ∷ 1 ∷ 2 ∷ 0 ∷ []) (10 ∷ 1 ∷ 3 ∷ 255 ∷ []) 23 ≡ true
unfolding check_first_nbits_equals bytes_eq
nbits-23 = refl

nbits-24 : check_first_nbits_equals (10 ∷ 1 ∷ 2 ∷ 0 ∷ []) (10 ∷ 1 ∷ 3 ∷ 255 ∷ []) 24 ≡ false
unfolding check_first_nbits_equals bytes_eq
nbits-24 = refl

-- 10.1.2.7/32 lies in 10.1.2.0/23, the second network of the list.
subset_of_second :
    is_wg_cidr_addr_subset_of_any
      (record { addr = 10 ∷ 1 ∷ 2 ∷ 7 ∷ []; size = 32; cidr = 32 })
      (record { addr = 10 ∷ 2 ∷ 0 ∷ 0 ∷ []; size = 32; cidr = 16 }
        ∷ record { addr = 10 ∷ 1 ∷ 2 ∷ 0 ∷ []; size = 32; cidr = 23 }
        ∷ [])
    ≡ true
unfolding is_wg_cidr_addr_subset_of_any bytes_eq
subset_of_second = refl
