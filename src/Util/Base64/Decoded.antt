-- ===== src/Util/Base64/Decoded.antt =====
-- base64_decode undoes base64_encode.
use tun_safe.Base.{
  ℕ, ◌+◌, ◌*◌, ◌/◌, ◌%◌, ◌^◌, ◌<◌, ◌≤◌, ◌≡◌, ◌∙◌, refl, ap, ap₂, Bool, true, false, some, List, [],
  ◌∷◌, ◌==◌, ltb, length, arith, ==_iff, all_below, all_below_lem,
}
use tun_safe.Base.Bytes.{IsBytes}
use tun_safe.Util.Base64.{
  digit, table_value, value, symbol, write, decode_end, decode_loop, base64_encode, base64_decode,
  parse_base64_key, check_size,
}

-- A value is read back from its character.
unfoldable is_read_back : ℕ → Bool
unfolding digit table_value
is_read_back v = table_value (digit v) == v

all_read_back : all_below 64 is_read_back ≡ true
unfolding is_read_back
all_read_back = refl

table_value-digit : (v : ℕ) → v < 64 → table_value (digit v) ≡ v
unfolding is_read_back
table_value-digit v h =
    (==_iff (table_value (digit v)) v).0 (all_below_lem 64 is_read_back v all_read_back h)

symbol-digit : (v : ℕ) → v < 64 → symbol (digit v) ≡ value v
unfolding symbol
symbol-digit v h = rw (table_value-digit v h) (ground arith)

-- One character of a block that is not complete, and the fourth.
decode_digit :
    (n iter buf len v : ℕ) (rest : List ℕ)
    → v < 64
    → iter < 3
    → decode_loop n iter buf len (digit v ∷ rest)
      ≡ decode_loop n (iter + 1) ((buf * 2 ^ 6 + v) % 2 ^ 32) len rest
unfolding decode_loop
decode_digit n iter buf len v rest h lt =
    let early : (iter == 3) ≡ false = ground arith in rw (symbol-digit v h, decode_loop, early) refl

decode_fourth :
    (n buf len v : ℕ) (rest : List ℕ)
    → v < 64
    → len + 3 ≤ n
    → let buf' = (buf * 2 ^ 6 + v) % 2 ^ 32 in
      decode_loop n 3 buf len (digit v ∷ rest)
      ≡ write
          ((buf' / 2 ^ 16 % 256) ∷ (buf' / 2 ^ 8 % 256) ∷ (buf' % 256) ∷ [])
          (decode_loop n 0 0 (len + 3) rest)
unfolding decode_loop
decode_fourth n buf len v rest h le =
    let fits : ltb n (len + 3) ≡ false = ground arith in
    rw (symbol-digit v h, decode_loop, fits) refl

decode_equals :
    (n iter buf len : ℕ) (rest : List ℕ)
    → decode_loop n iter buf len (61 ∷ rest) ≡ decode_end n iter buf len
unfolding decode_loop table_value
decode_equals n iter buf len rest = refl

-- Three digits in a row, and two.
decode_two :
    (n len v₀ v₁ : ℕ) (rest : List ℕ)
    → v₀ < 64
    → v₁ < 64
    → decode_loop n 0 0 len (digit v₀ ∷ digit v₁ ∷ rest)
      ≡ decode_loop n 2 (v₀ * 2 ^ 6 + v₁) len rest
decode_two n len v₀ v₁ rest h₀ h₁ =
    decode_digit n 0 0 len v₀ (digit v₁ ∷ rest) h₀ (omega arith)
    ∙ decode_digit n 1 ((0 * 2 ^ 6 + v₀) % 2 ^ 32) len v₁ rest h₁ (omega arith)
    ∙ ap (λ b. decode_loop n 2 b len rest) (omega arith)

decode_three :
    (n len v₀ v₁ v₂ : ℕ) (rest : List ℕ)
    → v₀ < 64
    → v₁ < 64
    → v₂ < 64
    → decode_loop n 0 0 len (digit v₀ ∷ digit v₁ ∷ digit v₂ ∷ rest)
      ≡ decode_loop n 3 ((v₀ * 2 ^ 6 + v₁) * 2 ^ 6 + v₂) len rest
decode_three n len v₀ v₁ v₂ rest h₀ h₁ h₂ =
    decode_two n len v₀ v₁ (digit v₂ ∷ rest) h₀ h₁
    ∙ decode_digit n 2 (v₀ * 2 ^ 6 + v₁) len v₂ rest h₂ (omega arith)
    ∙ ap (λ b. decode_loop n 3 b len rest) (omega arith)

decode_one_left :
    (n len x : ℕ)
    → x < 256
    → len + 1 ≤ n
    → decode_loop n 0 0 len (base64_encode (x ∷ [])) ≡ some (x ∷ [])
unfolding base64_encode decode_end
decode_one_left n len x h le =
    let a = x * 2 ^ 4 in
    let fits : ltb n (len + 1) ≡ false = ground arith in
    let back : ((a / 2 ^ 6) * 2 ^ 6 + a % 64) / 2 ^ 4 % 256 ≡ x = omega arith in
    decode_two n len (a / 2 ^ 6) (a % 64) (61 ∷ 61 ∷ []) (omega arith) (omega arith)
    ∙ decode_equals n 2 ((a / 2 ^ 6) * 2 ^ 6 + a % 64) len (61 ∷ [])
    ∙ rw fits (ap (λ b. some (b ∷ [])) back)

decode_two_left :
    (n len x y : ℕ)
    → x < 256
    → y < 256
    → len + 2 ≤ n
    → decode_loop n 0 0 len (base64_encode (x ∷ y ∷ [])) ≡ some (x ∷ y ∷ [])
unfolding base64_encode decode_end
decode_two_left n len x y hx hy le =
    let a = x * 2 ^ 10 + y * 2 ^ 2 in
    let buf = ((a / 2 ^ 12) * 2 ^ 6 + a / 2 ^ 6 % 64) * 2 ^ 6 + a % 64 in
    let fits : ltb n (len + 2) ≡ false = ground arith in
    let back_x : buf / 2 ^ 10 % 256 ≡ x = omega arith in
    let back_y : buf / 2 ^ 2 % 256 ≡ y = omega arith in
    decode_three n len (a / 2 ^ 12) (a / 2 ^ 6 % 64) (a % 64) (61 ∷ []) (omega arith) (omega arith)
      (omega arith)
    ∙ decode_equals n 3 buf len []
    ∙ rw fits (ap₂ (λ b c. some (b ∷ c ∷ [])) back_x back_y)

decode_loop-base64_encode :
    (n len : ℕ) (bytes : List ℕ)
    → IsBytes bytes
    → len + length bytes ≤ n
    → decode_loop n 0 0 len (base64_encode bytes) ≡ some bytes
unfolding base64_encode decode_loop decode_end
decode_loop-base64_encode n len [] h le = refl
decode_loop-base64_encode n len (x ∷ []) (hx, h) le = decode_one_left n len x hx le
decode_loop-base64_encode n len (x ∷ y ∷ []) (hx, (hy, h)) le = decode_two_left n len x y hx hy le
decode_loop-base64_encode n len (x ∷ y ∷ z ∷ rest) (hx, (hy, (hz, h))) le =
    let a = x * 2 ^ 16 + y * 2 ^ 8 + z in
    let v₀ = a / 2 ^ 18 in
    let v₁ = a / 2 ^ 12 % 64 in
    let v₂ = a / 2 ^ 6 % 64 in
    let v₃ = a % 64 in
    let buf = (((v₀ * 2 ^ 6 + v₁) * 2 ^ 6 + v₂) * 2 ^ 6 + v₃) % 2 ^ 32 in
    let whole : buf ≡ a = omega arith in
    let block : List ℕ = (buf / 2 ^ 16 % 256) ∷ (buf / 2 ^ 8 % 256) ∷ (buf % 256) ∷ [] in
    let back : block ≡ x ∷ y ∷ z ∷ [] =
      rw whole
        (ap₂ (λ b c. b ∷ c) (omega arith) (ap₂ (λ b c. b ∷ c ∷ []) (omega arith) (omega arith))) in
    decode_three n len v₀ v₁ v₂ (digit v₃ ∷ base64_encode rest) (omega arith) (omega arith)
      (omega arith)
    ∙ decode_fourth n ((v₀ * 2 ^ 6 + v₁) * 2 ^ 6 + v₂) len v₃ (base64_encode rest) (omega arith)
        (omega arith)
    ∙ ap₂ write back (decode_loop-base64_encode n (len + 3) rest h (omega arith))

-- Decoding the base64 text of some bytes gives the bytes, if the output has room for them.
pub base64_decode-base64_encode :
    (bytes : List ℕ) (out_len : ℕ)
    → IsBytes bytes
    → length bytes ≤ out_len
    → base64_decode (base64_encode bytes) out_len ≡ some bytes
unfolding base64_decode
base64_decode-base64_encode bytes out_len h le =
    decode_loop-base64_encode out_len 0 bytes h (omega arith)

-- A key of 32 bytes is parsed from its base64 text.
pub parse_base64_key-base64_encode :
    (key : List ℕ) → IsBytes key → length key ≡ 32 → parse_base64_key (base64_encode key) ≡ some key
unfolding parse_base64_key
parse_base64_key-base64_encode key h size =
    let decoded = base64_decode-base64_encode key 32 h (omega arith) in
    let fits : (length key == 32) ≡ true = rw size refl in ap (check_size 32) decoded ∙ rw fits refl
