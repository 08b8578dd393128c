-- ===== src/Processor/Tests/Short.antt =====
-- Counters in short headers.
use tun_safe.Base.{◌≡◌, refl, some, none, [], ◌∷◌, ◌+◌, ◌^◌, arith}
use tun_safe.Base.Bytes.{write_le}
use tun_safe.Processor.Short.{counter_bytes, parse_counter, parse_counter-counter_bytes}

-- 20 after the last one acknowledged, one byte is enough; the receiver expects the packet 1000.
parse_counter-counter_bytes_example : parse_counter 0 1000 (242 ∷ 7 ∷ []) ≡ some (1010, 7 ∷ [])
unfolding counter_bytes write_le
parse_counter-counter_bytes_example =
    parse_counter-counter_bytes 1000 1010 990 0 (242 ∷ []) (7 ∷ []) (omega arith) (omega arith)
      (omega arith) (omega arith) (omega arith) refl

-- 2 ^ 30 after it, there is no short header.
counter_bytes-far : counter_bytes (990 + 2 ^ 30) 990 ≡ none
unfolding counter_bytes
counter_bytes-far = refl
