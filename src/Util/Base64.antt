-- ===== src/Util/Base64.antt =====
-- base64_encode, base64_decode and ParseBase64Key.
pub mod Decoded
use tun_safe.Base.{
  ℕ, ◌+◌, ◌-◌, ◌*◌, ◌/◌, ◌%◌, ◌^◌, Bool, true, false, Option, none, some, List, [], ◌∷◌, ◌++◌, ◌==◌,
  ltb, if◌then◌else◌, get_or, length,
}

-- kBase64Alphabet
abbrev pub base64_alphabet : List ℕ
base64_alphabet =
    65 ∷ 66 ∷ 67 ∷ 68 ∷ 69 ∷ 70 ∷ 71 ∷ 72 ∷ 73 ∷ 74 ∷ 75 ∷ 76 ∷ 77 ∷ 78 ∷ 79 ∷ 80 ∷ 81 ∷ 82 ∷ 83
    ∷ 84 ∷ 85 ∷ 86 ∷ 87 ∷ 88 ∷ 89 ∷ 90 ∷ 97 ∷ 98 ∷ 99 ∷ 100 ∷ 101 ∷ 102 ∷ 103 ∷ 104 ∷ 105 ∷ 106
    ∷ 107 ∷ 108 ∷ 109 ∷ 110 ∷ 111 ∷ 112 ∷ 113 ∷ 114 ∷ 115 ∷ 116 ∷ 117 ∷ 118 ∷ 119 ∷ 120 ∷ 121 ∷ 122
    ∷ 48 ∷ 49 ∷ 50 ∷ 51 ∷ 52 ∷ 53 ∷ 54 ∷ 55 ∷ 56 ∷ 57 ∷ 43 ∷ 47 ∷ []

-- The table `d`: the value of a character, or 64 for white space, 65 for the sign `=` and 66 for any other.
abbrev pub base64_values : List ℕ
base64_values =
    66 ∷ 66 ∷ 66 ∷ 66 ∷ 66 ∷ 66 ∷ 66 ∷ 66 ∷ 66 ∷ 66 ∷ 64 ∷ 66 ∷ 66 ∷ 66 ∷ 66 ∷ 66 ∷ 66 ∷ 66 ∷ 66
    ∷ 66 ∷ 66 ∷ 66 ∷ 66 ∷ 66 ∷ 66 ∷ 66 ∷ 66 ∷ 66 ∷ 66 ∷ 66 ∷ 66 ∷ 66 ∷ 66 ∷ 66 ∷ 66 ∷ 66 ∷ 66 ∷ 66
    ∷ 66 ∷ 66 ∷ 66 ∷ 66 ∷ 66 ∷ 62 ∷ 66 ∷ 66 ∷ 66 ∷ 63 ∷ 52 ∷ 53 ∷ 54 ∷ 55 ∷ 56 ∷ 57 ∷ 58 ∷ 59 ∷ 60
    ∷ 61 ∷ 66 ∷ 66 ∷ 66 ∷ 65 ∷ 66 ∷ 66 ∷ 66 ∷ 0 ∷ 1 ∷ 2 ∷ 3 ∷ 4 ∷ 5 ∷ 6 ∷ 7 ∷ 8 ∷ 9 ∷ 10 ∷ 11 ∷ 12
    ∷ 13 ∷ 14 ∷ 15 ∷ 16 ∷ 17 ∷ 18 ∷ 19 ∷ 20 ∷ 21 ∷ 22 ∷ 23 ∷ 24 ∷ 25 ∷ 66 ∷ 66 ∷ 66 ∷ 66 ∷ 66 ∷ 66
    ∷ 26 ∷ 27 ∷ 28 ∷ 29 ∷ 30 ∷ 31 ∷ 32 ∷ 33 ∷ 34 ∷ 35 ∷ 36 ∷ 37 ∷ 38 ∷ 39 ∷ 40 ∷ 41 ∷ 42 ∷ 43 ∷ 44
    ∷ 45 ∷ 46 ∷ 47 ∷ 48 ∷ 49 ∷ 50 ∷ 51 ∷ 66 ∷ 66 ∷ 66 ∷ 66 ∷ 66 ∷ 66 ∷ 66 ∷ 66 ∷ 66 ∷ 66 ∷ 66 ∷ 66
    ∷ 66 ∷ 66 ∷ 66 ∷ 66 ∷ 66 ∷ 66 ∷ 66 ∷ 66 ∷ 66 ∷ 66 ∷ 66 ∷ 66 ∷ 66 ∷ 66 ∷ 66 ∷ 66 ∷ 66 ∷ 66 ∷ 66
    ∷ 66 ∷ 66 ∷ 66 ∷ 66 ∷ 66 ∷ 66 ∷ 66 ∷ 66 ∷ 66 ∷ 66 ∷ 66 ∷ 66 ∷ 66 ∷ 66 ∷ 66 ∷ 66 ∷ 66 ∷ 66 ∷ 66
    ∷ 66 ∷ 66 ∷ 66 ∷ 66 ∷ 66 ∷ 66 ∷ 66 ∷ 66 ∷ 66 ∷ 66 ∷ 66 ∷ 66 ∷ 66 ∷ 66 ∷ 66 ∷ 66 ∷ 66 ∷ 66 ∷ 66
    ∷ 66 ∷ 66 ∷ 66 ∷ 66 ∷ 66 ∷ 66 ∷ 66 ∷ 66 ∷ 66 ∷ 66 ∷ 66 ∷ 66 ∷ 66 ∷ 66 ∷ 66 ∷ 66 ∷ 66 ∷ 66 ∷ 66
    ∷ 66 ∷ 66 ∷ 66 ∷ 66 ∷ 66 ∷ 66 ∷ 66 ∷ 66 ∷ 66 ∷ 66 ∷ 66 ∷ 66 ∷ 66 ∷ 66 ∷ 66 ∷ 66 ∷ 66 ∷ 66 ∷ 66
    ∷ 66 ∷ 66 ∷ 66 ∷ 66 ∷ 66 ∷ 66 ∷ 66 ∷ 66 ∷ 66 ∷ 66 ∷ 66 ∷ 66 ∷ 66 ∷ 66 ∷ 66 ∷ 66 ∷ 66 ∷ 66 ∷ 66
    ∷ 66 ∷ 66 ∷ 66 ∷ 66 ∷ 66 ∷ 66 ∷ 66 ∷ []

unfoldable pub digit : ℕ → ℕ
digit v = get_or base64_alphabet v 0

-- base64_encode into memory that it allocates: full blocks, then what is left.
unfoldable pub base64_encode : List ℕ → List ℕ
unfolding digit
base64_encode [] = []
base64_encode (x ∷ []) = let a = x * 2 ^ 4 in digit (a / 2 ^ 6) ∷ digit (a % 64) ∷ 61 ∷ 61 ∷ []
base64_encode (x ∷ y ∷ []) =
    let a = x * 2 ^ 10 + y * 2 ^ 2 in
    digit (a / 2 ^ 12) ∷ digit (a / 2 ^ 6 % 64) ∷ digit (a % 64) ∷ 61 ∷ []
base64_encode (x ∷ y ∷ z ∷ rest) =
    let a = x * 2 ^ 16 + y * 2 ^ 8 + z in
    digit (a / 2 ^ 18)
    ∷ digit (a / 2 ^ 12 % 64)
    ∷ digit (a / 2 ^ 6 % 64)
    ∷ digit (a % 64)
    ∷ base64_encode rest

unfoldable pub table_value : ℕ → ℕ
table_value x = get_or base64_values x 66

-- The cases of the switch.
pub data Symbol : Type 0 where
  whitespace equals invalid : Symbol
  value : ℕ → Symbol

unfoldable pub symbol : ℕ → Symbol
unfolding table_value
symbol x =
    let c = table_value x in
    if c == 64 then whitespace else if c == 65 then equals else if c == 66 then invalid else value c

-- The bytes that are written before the rest of the output.
abbrev pub write : List ℕ → Option (List ℕ) → Option (List ℕ)
write bytes none = none
write bytes (some out) = some (bytes ++ out)

-- What is left after the loop.
unfoldable pub decode_end : ℕ → ℕ → ℕ → ℕ → Option (List ℕ)
decode_end out_len iter buf len =
    if iter == 3
    then (if ltb out_len (len + 2)
        then none
        else some ((buf / 2 ^ 10 % 256) ∷ (buf / 2 ^ 2 % 256) ∷ []))
    else if iter == 2
    then (if ltb out_len (len + 1) then none else some ((buf / 2 ^ 4 % 256) ∷ []))
    else some []

-- The loop: `out_len` is the capacity, `iter` and `buf` hold the characters of an unfinished block, and
-- `len` bytes were written. The result is the bytes that are written from there on.
unfoldable pub decode_loop : ℕ → ℕ → ℕ → ℕ → List ℕ → Option (List ℕ)
unfolding symbol decode_end
decode_loop out_len iter buf len [] = decode_end out_len iter buf len
decode_loop out_len iter buf len (x ∷ rest) = elim (symbol x) [
  | whitespace ↦ decode_loop out_len iter buf len rest
  | invalid ↦ none
  | equals ↦ decode_end out_len iter buf len
  | value c ↦
      let buf' = (buf * 2 ^ 6 + c) % 2 ^ 32 in
      let block = (buf' / 2 ^ 16 % 256) ∷ (buf' / 2 ^ 8 % 256) ∷ (buf' % 256) ∷ [] in
      elim (iter == 3) [
        | false ↦ decode_loop out_len (iter + 1) buf' len rest
        | true ↦ elim (ltb out_len (len + 3)) [
          | true ↦ none
          | false ↦ write block (decode_loop out_len 0 0 (len + 3) rest)
        ]
      ]
]

-- base64_decode: the bytes that are written, of which `*outLen` becomes the number.
unfoldable pub base64_decode : List ℕ → ℕ → Option (List ℕ)
unfolding decode_loop
base64_decode text out_len = decode_loop out_len 0 0 0 text

abbrev pub check_size : ℕ → Option (List ℕ) → Option (List ℕ)
check_size n none = none
check_size n (some out) = if length out == n then some out else none

-- ParseBase64Key
unfoldable pub parse_base64_key : List ℕ → Option (List ℕ)
unfolding base64_decode
parse_base64_key text = check_size 32 (base64_decode text 32)
