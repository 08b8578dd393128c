-- ===== src/Handshake/Wire.antt =====
-- The handshake messages as bytes: the fields of the packed structs MessageHandshakeInitiation,
-- MessageHandshakeResponse and MessageHandshakeCookie, as their handlers read and write them.
use tun_safe.Base.{
  ℕ, ◌+◌, ◌^◌, ◌<◌, ◌≡◌, ◌∙◌, refl, sym, ap, List, [], ◌++◌, length, take, drop, arith, zero, suc,
  ◌∷◌, append-nil, append_assoc, take-length-append,
}
use tun_safe.Base.Bytes.{write_le, read_le, length-write_le, read_le-write_le}
use tun_safe.Handshake.{Initiation, Response, initiation_bytes, response_bytes}
use tun_safe.Handshake.Cookie.{CookieMessage}

-- `size` bytes from `from` on.
abbrev pub field : ℕ → ℕ → List ℕ → List ℕ
field from size bytes = take size (drop from bytes)

unfoldable pub read_initiation : List ℕ → Initiation
read_initiation bytes = record {
  sender_key_id = read_le (field 4 4 bytes);
  ephemeral = field 8 32 bytes;
  static_enc = field 40 48 bytes;
  timestamp_enc = field 88 28 bytes;
  mac1 = field 116 16 bytes;
  mac2 = field 132 16 bytes;
}

unfoldable pub read_response : List ℕ → Response
read_response bytes = record {
  sender_key_id = read_le (field 4 4 bytes);
  receiver_key_id = read_le (field 8 4 bytes);
  ephemeral = field 12 32 bytes;
  empty_enc = field 44 16 bytes;
  mac1 = field 60 16 bytes;
  mac2 = field 76 16 bytes;
}

unfoldable pub read_cookie : List ℕ → CookieMessage
read_cookie bytes = record {
  receiver_key_id = read_le (field 4 4 bytes);
  nonce = field 8 24 bytes;
  cookie_enc = field 32 32 bytes;
}

unfoldable pub write_initiation : Initiation → List ℕ
unfolding initiation_bytes
write_initiation m = initiation_bytes m ++ (m.mac1 ++ m.mac2)

unfoldable pub write_response : Response → List ℕ
unfolding response_bytes
write_response m = response_bytes m ++ (m.mac1 ++ m.mac2)

unfoldable pub write_cookie : CookieMessage → List ℕ
write_cookie m = write_le 4 3 ++ (write_le 4 m.receiver_key_id ++ (m.nonce ++ m.cookie_enc))

-- The sizes of the fields.
pub record IsInitiationSized (m : Initiation) : Type 0 where
  pub sender_key_id : m.sender_key_id < 2 ^ 32
  pub ephemeral : length m.ephemeral ≡ 32
  pub static_enc : length m.static_enc ≡ 48
  pub timestamp_enc : length m.timestamp_enc ≡ 28
  pub mac1 : length m.mac1 ≡ 16
  pub mac2 : length m.mac2 ≡ 16

-- A field after the first `n` bytes, and one at the front.
past :
    (n from size : ℕ) (xs ys : List ℕ)
    → length xs ≡ n
    → field (n + from) size (xs ++ ys) ≡ field from size ys
past zero from size [] ys h = ap (λ k. field k size ys) (omega arith)
past zero from size (x ∷ xs) ys h = absurd (omega arith)
past (suc n) from size [] ys h = absurd (omega arith)
past (suc n) from size (x ∷ xs) ys h =
    let one : suc n + from ≡ suc (n + from) = omega arith in
    ap (λ k. field k size (x ∷ (xs ++ ys))) one ∙ past n from size xs ys (omega arith)

front : (n : ℕ) (xs ys : List ℕ) → length xs ≡ n → field 0 n (xs ++ ys) ≡ xs
front n xs ys h = ap (λ k. take k (xs ++ ys)) (sym h) ∙ take-length-append xs ys

-- Chunks in a row, and their size.
abbrev concat : List (List ℕ) → List ℕ
concat [] = []
concat (x ∷ xs) = x ++ concat xs

abbrev total : List (List ℕ) → ℕ
total [] = 0
total (x ∷ xs) = length x + total xs

-- A chunk is the field behind the chunks before it.
field-concat :
    (before : List (List ℕ)) (x : List ℕ) (after : List (List ℕ)) (from size : ℕ)
    → total before ≡ from
    → length x ≡ size
    → field from size (concat (before ++ (x ∷ after))) ≡ x
field-concat [] x after from size h k =
    ap (λ n. field n size (x ++ concat after)) (sym h) ∙ front size x (concat after) k
field-concat (y ∷ before) x after from size h k =
    let all = concat (before ++ (x ∷ after)) in
    ap (λ n. field n size (y ++ all)) (sym h)
    ∙ past (length y) (total before) size y all refl
    ∙ field-concat before x after (total before) size refl k

-- An initiation is read back from its bytes, when its fields have their sizes.
pub read_initiation-write_initiation :
    (m : Initiation) → IsInitiationSized m → read_initiation (write_initiation m) ≡ m
unfolding read_initiation write_initiation initiation_bytes
read_initiation-write_initiation m h =
    let tag : List ℕ = write_le 4 1 in
    let id : List ℕ = write_le 4 m.sender_key_id in
    let flat : write_initiation m
        ≡ concat (tag ∷ id ∷ m.ephemeral ∷ m.static_enc ∷ m.timestamp_enc ∷ m.mac1 ∷ m.mac2 ∷ []) =
      simp (append_assoc, append-nil) in
    let n₁ = length-write_le 4 1 in
    let n₂ = length-write_le 4 m.sender_key_id in
    let f₁ =
      field-concat (tag ∷ []) id
        (m.ephemeral ∷ m.static_enc ∷ m.timestamp_enc ∷ m.mac1 ∷ m.mac2 ∷ []) 4 4
        (omega (arith, n₁)) n₂ in
    let f₂ =
      field-concat (tag ∷ id ∷ []) m.ephemeral
        (m.static_enc ∷ m.timestamp_enc ∷ m.mac1 ∷ m.mac2 ∷ []) 8 32 (omega (arith, n₁, n₂))
        h.ephemeral in
    let f₃ =
      field-concat (tag ∷ id ∷ m.ephemeral ∷ []) m.static_enc
        (m.timestamp_enc ∷ m.mac1 ∷ m.mac2 ∷ []) 40 48 (omega (arith, n₁, n₂, h.ephemeral))
        h.static_enc in
    let f₄ =
      field-concat (tag ∷ id ∷ m.ephemeral ∷ m.static_enc ∷ []) m.timestamp_enc
        (m.mac1 ∷ m.mac2 ∷ []) 88 28 (omega (arith, n₁, n₂, h.ephemeral, h.static_enc))
        h.timestamp_enc in
    let f₅ =
      field-concat (tag ∷ id ∷ m.ephemeral ∷ m.static_enc ∷ m.timestamp_enc ∷ []) m.mac1
        (m.mac2 ∷ []) 116 16 (omega (arith, n₁, n₂, h.ephemeral, h.static_enc, h.timestamp_enc))
        h.mac1 in
    let f₆ =
      field-concat (tag ∷ id ∷ m.ephemeral ∷ m.static_enc ∷ m.timestamp_enc ∷ m.mac1 ∷ []) m.mac2 []
        132 16 (omega (arith, n₁, n₂, h.ephemeral, h.static_enc, h.timestamp_enc, h.mac1)) h.mac2 in
    ap read_initiation flat
    ∙ rw
        (
          f₁,
          f₂,
          f₃,
          f₄,
          f₅,
          f₆,
          read_le-write_le 4 m.sender_key_id h.sender_key_id,
          read_initiation,
        )
        refl

pub record IsResponseSized (m : Response) : Type 0 where
  pub sender_key_id : m.sender_key_id < 2 ^ 32
  pub receiver_key_id : m.receiver_key_id < 2 ^ 32
  pub ephemeral : length m.ephemeral ≡ 32
  pub empty_enc : length m.empty_enc ≡ 16
  pub mac1 : length m.mac1 ≡ 16
  pub mac2 : length m.mac2 ≡ 16

-- A response is read back from its bytes, when its fields have their sizes.
pub read_response-write_response :
    (m : Response) → IsResponseSized m → read_response (write_response m) ≡ m
unfolding read_response write_response response_bytes
read_response-write_response m h =
    let tag : List ℕ = write_le 4 2 in
    let id : List ℕ = write_le 4 m.sender_key_id in
    let to : List ℕ = write_le 4 m.receiver_key_id in
    let flat : write_response m
        ≡ concat (tag ∷ id ∷ to ∷ m.ephemeral ∷ m.empty_enc ∷ m.mac1 ∷ m.mac2 ∷ []) =
      simp (append_assoc, append-nil) in
    let n₁ = length-write_le 4 2 in
    let n₂ = length-write_le 4 m.sender_key_id in
    let n₃ = length-write_le 4 m.receiver_key_id in
    let f₁ =
      field-concat (tag ∷ []) id (to ∷ m.ephemeral ∷ m.empty_enc ∷ m.mac1 ∷ m.mac2 ∷ []) 4 4
        (omega (arith, n₁)) n₂ in
    let f₂ =
      field-concat (tag ∷ id ∷ []) to (m.ephemeral ∷ m.empty_enc ∷ m.mac1 ∷ m.mac2 ∷ []) 8 4
        (omega (arith, n₁, n₂)) n₃ in
    let f₃ =
      field-concat (tag ∷ id ∷ to ∷ []) m.ephemeral (m.empty_enc ∷ m.mac1 ∷ m.mac2 ∷ []) 12 32
        (omega (arith, n₁, n₂, n₃)) h.ephemeral in
    let f₄ =
      field-concat (tag ∷ id ∷ to ∷ m.ephemeral ∷ []) m.empty_enc (m.mac1 ∷ m.mac2 ∷ []) 44 16
        (omega (arith, n₁, n₂, n₃, h.ephemeral)) h.empty_enc in
    let f₅ =
      field-concat (tag ∷ id ∷ to ∷ m.ephemeral ∷ m.empty_enc ∷ []) m.mac1 (m.mac2 ∷ []) 60 16
        (omega (arith, n₁, n₂, n₃, h.ephemeral, h.empty_enc)) h.mac1 in
    let f₆ =
      field-concat (tag ∷ id ∷ to ∷ m.ephemeral ∷ m.empty_enc ∷ m.mac1 ∷ []) m.mac2 [] 76 16
        (omega (arith, n₁, n₂, n₃, h.ephemeral, h.empty_enc, h.mac1)) h.mac2 in
    let r₁ = read_le-write_le 4 m.sender_key_id h.sender_key_id in
    let r₂ = read_le-write_le 4 m.receiver_key_id h.receiver_key_id in
    ap read_response flat ∙ rw (f₁, f₂, f₃, f₄, f₅, f₆, r₁, r₂, read_response) refl
