-- ===== src/Processor/Short.antt =====
-- The counter in a short header, for a build with WITH_SHORT_HEADERS: how
-- WriteAndEncryptPacketToUdp shortens it, and how HandleShortHeaderFormatPacket finds it again.
use tun_safe.Base.{
  ℕ, ◌+◌, ◌-◌, ◌/◌, ◌%◌, ◌^◌, ◌≤◌, ◌<◌, ◌≡◌, ◌∙◌, refl, sym, ap, ap₂, subst, false, Option, none,
  some, List, ◌++◌, ◌==◌, ltb, ltb→lt, Bool-cases, inl, inr, arith, if◌then◌else◌, length, take,
  drop, length-append, take-length-append, drop-length-append,
}
use mathlib.Core.Option.{some-injective, none-ne-some}
use tun_safe.Base.Bytes.{write_le, read_le}

-- The counter in one, two or four bytes by the distance from the last one acknowledged, with its type
-- in the tag; none if it is too far ahead. Unsigned difference.
unfoldable pub counter_bytes : ℕ → ℕ → Option (ℕ × List ℕ)
counter_bytes send_ctr acked =
    let distance = (send_ctr + 2 ^ 64 - acked) % 2 ^ 64 in
    if ltb distance (2 ^ 6)
    then some (0, write_le 1 send_ctr)
    else if ltb distance (2 ^ 14)
    then some (1, write_le 2 send_ctr)
    else if ltb distance (2 ^ 30)
    then some (2, write_le 4 send_ctr)
    else none

-- `counter += (intN)(low - counter)` from the counter that is expected: the closest one with the low
-- bits `low`. `w` is 2 ^ N; the sum has 64 bits.
unfoldable pub closest_counter : ℕ → ℕ → ℕ → ℕ
closest_counter w expected low =
    let d = (low + w - expected % w) % w in
    if ltb d (w / 2) then (expected + d) % 2 ^ 64 else (expected + 2 ^ 64 + d - w) % 2 ^ 64

-- A counter of `size` bytes, if they are there, with the bytes behind it.
unfoldable pub take_counter : ℕ → ℕ → ℕ → List ℕ → Option (ℕ × List ℕ)
unfolding closest_counter
take_counter size w expected bytes =
    if ltb (length bytes) size
    then none
    else some (closest_counter w expected (read_le (take size bytes)), drop size bytes)

-- `switch (tag & WG_SHORT_HEADER_TYPE_MASK)`
unfoldable pub parse_counter : ℕ → ℕ → List ℕ → Option (ℕ × List ℕ)
unfolding take_counter
parse_counter type expected bytes =
    if type == 0
    then take_counter 1 (2 ^ 8) expected bytes
    else if type == 1
    then take_counter 2 (2 ^ 16) expected bytes
    else if type == 2
    then take_counter 4 (2 ^ 32) expected bytes
    else none

-- The window around the expected counter, for each size.
module _ (expected ctr : ℕ) (he : expected < 2 ^ 64) (hc : ctr < 2 ^ 64)
    (ahead : expected ≤ ctr + 128) where
  closest_one : ctr < expected + 64 → closest_counter (2 ^ 8) expected (ctr % 256) ≡ ctr
  unfolding closest_counter
  closest_one near = ground arith

  closest_two : ctr < expected + 2 ^ 14 → closest_counter (2 ^ 16) expected (ctr % 2 ^ 16) ≡ ctr
  unfolding closest_counter
  closest_two near = ground arith

  closest_four : ctr < expected + 2 ^ 30 → closest_counter (2 ^ 32) expected (ctr % 2 ^ 32) ≡ ctr
  unfolding closest_counter
  closest_four near = ground arith

take_there :
    (w expected : ℕ) (bytes rest : List ℕ)
    → take_counter (length bytes) w expected (bytes ++ rest)
      ≡ some (closest_counter w expected (read_le bytes), rest)
unfolding take_counter
take_there w expected bytes rest =
    let fits : ltb (length (bytes ++ rest)) (length bytes) ≡ false =
      ground (arith, length-append bytes rest) in
    rw fits (
      ap₂ (λ l r. some (closest_counter w expected (read_le l), r)) (take-length-append bytes rest)
        (drop-length-append bytes rest))

-- The bytes of a counter are there, and read as its low bits.
module _ (ctr : ℕ) (rest : List ℕ) where
  take_one :
      (expected : ℕ)
      → take_counter 1 (2 ^ 8) expected (write_le 1 ctr ++ rest)
        ≡ some (closest_counter (2 ^ 8) expected (ctr % 256), rest)
  unfolding write_le read_le
  take_one expected =
      take_there (2 ^ 8) expected (write_le 1 ctr) rest
      ∙ ap (λ low. some (closest_counter (2 ^ 8) expected low, rest)) (omega arith)

  take_two :
      (expected : ℕ)
      → take_counter 2 (2 ^ 16) expected (write_le 2 ctr ++ rest)
        ≡ some (closest_counter (2 ^ 16) expected (ctr % 2 ^ 16), rest)
  unfolding write_le read_le
  take_two expected =
      take_there (2 ^ 16) expected (write_le 2 ctr) rest
      ∙ ap (λ low. some (closest_counter (2 ^ 16) expected low, rest)) (omega arith)

  take_four :
      (expected : ℕ)
      → take_counter 4 (2 ^ 32) expected (write_le 4 ctr ++ rest)
        ≡ some (closest_counter (2 ^ 32) expected (ctr % 2 ^ 32), rest)
  unfolding write_le read_le
  take_four expected =
      take_there (2 ^ 32) expected (write_le 4 ctr) rest
      ∙ ap (λ low. some (closest_counter (2 ^ 32) expected low, rest)) (omega arith)

-- The size that the sender chooses, by the distance.
data Chosen (ctr acked : ℕ) : ℕ → List ℕ → Type 0 where
  one : ctr < acked + 2 ^ 6 → Chosen ctr acked 0 (write_le 1 ctr)
  two : ctr < acked + 2 ^ 14 → Chosen ctr acked 1 (write_le 2 ctr)
  four : ctr < acked + 2 ^ 30 → Chosen ctr acked 2 (write_le 4 ctr)

counter_bytes-Chosen :
    (ctr acked type : ℕ) (bytes : List ℕ)
    → acked ≤ ctr
    → ctr < 2 ^ 64
    → counter_bytes ctr acked ≡ some (type, bytes)
    → Chosen ctr acked type bytes
unfolding counter_bytes
counter_bytes-Chosen ctr acked type bytes le hc e =
    let d = (ctr + 2 ^ 64 - acked) % 2 ^ 64 in
    let same : d ≡ ctr - acked = omega arith in
    elim (Bool-cases (ltb d (2 ^ 6))) [
      | inl near ↦
          let eq : counter_bytes ctr acked ≡ some (0, write_le 1 ctr) = rw near refl in
          let lt = ltb→lt d (2 ^ 6) near in
          subst (λ (t : ℕ × List ℕ). Chosen ctr acked t.0 t.1) (some-injective _ _ (sym eq ∙ e))
            (one (omega arith))
      | inr far ↦ elim (Bool-cases (ltb d (2 ^ 14))) [
        | inl near ↦
            let eq : counter_bytes ctr acked ≡ some (1, write_le 2 ctr) = rw (far, near) refl in
            let lt = ltb→lt d (2 ^ 14) near in
            subst (λ (t : ℕ × List ℕ). Chosen ctr acked t.0 t.1) (some-injective _ _ (sym eq ∙ e))
              (two (omega arith))
        | inr farther ↦ elim (Bool-cases (ltb d (2 ^ 30))) [
          | inl near ↦
              let eq : counter_bytes ctr acked ≡ some (2, write_le 4 ctr) =
                rw (far, farther, near) refl in
              let lt = ltb→lt d (2 ^ 30) near in
              subst (λ (t : ℕ × List ℕ). Chosen ctr acked t.0 t.1) (some-injective _ _ (sym eq ∙ e))
                (four (omega arith))
          | inr too_far ↦
              let eq : counter_bytes ctr acked ≡ none = rw (far, farther, too_far) refl in
              absurd (none-ne-some _ (sym eq ∙ e))
        ]
      ]
    ]

-- The receiver finds the counter that the sender shortened, whatever follows it, when no counter above
-- the sender's was acknowledged, the receiver expects one that is not below what it acknowledged, and
-- at most 128 above the sender's.
pub parse_counter-counter_bytes :
    (expected ctr acked type : ℕ) (bytes rest : List ℕ)
    → expected < 2 ^ 64
    → ctr < 2 ^ 64
    → acked ≤ ctr
    → acked ≤ expected
    → expected ≤ ctr + 128
    → counter_bytes ctr acked ≡ some (type, bytes)
    → parse_counter type expected (bytes ++ rest) ≡ some (ctr, rest)
unfolding parse_counter
parse_counter-counter_bytes expected ctr acked type bytes rest he hc le known ahead e =
    found (counter_bytes-Chosen ctr acked type bytes le hc e)
  where
    found :
        {t : ℕ} {b : List ℕ}
        → Chosen ctr acked t b
        → parse_counter t expected (b ++ rest) ≡ some (ctr, rest)
    found (one near) =
        take_one ctr rest expected
        ∙ ap (λ n. some (n, rest)) (closest_one expected ctr he hc ahead (omega arith))
    found (two near) =
        take_two ctr rest expected
        ∙ ap (λ n. some (n, rest)) (closest_two expected ctr he hc ahead (omega arith))
    found (four near) =
        take_four ctr rest expected
        ∙ ap (λ n. some (n, rest)) (closest_four expected ctr he hc ahead (omega arith))
