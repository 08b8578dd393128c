-- ===== src/Replay.antt =====
-- ReplayDetector (wireguard_proto.h and wireguard_proto.cpp): the sliding window of packet
-- counters, as a ring of 64 words of 32 bits.
pub mod Window
pub mod Ring
pub mod Refine
pub mod Once
pub mod Tests
use tun_safe.Base.{
  ℕ, zero, suc, ◌+◌, ◌-◌, ◌/◌, ◌%◌, ◌^◌, min, bit_and, bit_or, Bool, true, false, List, [], ◌∷◌,
  leb, ◌==◌, if◌then◌else◌, get_or, set, replicate,
}

abbrev pub bits_per_entry : ℕ
bits_per_entry = 32

abbrev pub window_size : ℕ
window_size = 2048 - bits_per_entry

abbrev pub bitmap_size : ℕ
bitmap_size = window_size / bits_per_entry + 1

-- The largest counter that the callers let through: the packet handlers drop a packet whose
-- counter is REJECT_AFTER_MESSAGES = UINT64_MAX - 2048 or more before they ask the detector.
abbrev pub reject_after_messages : ℕ
reject_after_messages = 2 ^ 64 - 1 - 2048

pub record ReplayDetector : Type 0 where
  pub expected_seq_nr : ℕ
  pub bitmap : List ℕ

unfoldable pub init : ReplayDetector
init = record { expected_seq_nr = 0; bitmap = replicate bitmap_size 0 }

-- The do-while loop: the slots prev_slot + nn, …, prev_slot + 1. `x & BITMAP_MASK` is `x % 64`.
unfoldable pub clear : List ℕ → ℕ → ℕ → List ℕ
clear bitmap prev_slot zero = bitmap
clear bitmap prev_slot (suc nn) =
    clear (set bitmap ((prev_slot + suc nn) % 2 ^ 64 % bitmap_size) 0) prev_slot nn

-- The slot of the last number before `expected`; it wraps to 2 ^ 64 - 1 at 0.
abbrev pub prev_slot_of : ℕ → ℕ
prev_slot_of expected =
    ((expected + bits_per_entry - 1) % 2 ^ 64 / bits_per_entry + 2 ^ 64 - 1) % 2 ^ 64

-- The branch `seq_nr >= expected_seq_nr`.
unfoldable pub advance : ReplayDetector → ℕ → ReplayDetector
advance d seq_nr =
    let prev_slot = prev_slot_of d.expected_seq_nr in
    let n = (seq_nr / bits_per_entry + 2 ^ 64 - prev_slot) % 2 ^ 64 in
    record {
      expected_seq_nr = (seq_nr + 1) % 2 ^ 64;
      bitmap = if n == 0 then d.bitmap else clear d.bitmap prev_slot (min n bitmap_size);
    }

-- The last four lines: set the bit of `seq_nr`, and tell whether it was clear.
unfoldable pub mark : ReplayDetector → ℕ → ReplayDetector × Bool
mark d seq_nr =
    let i = seq_nr / bits_per_entry % bitmap_size in
    let mask = 2 ^ (seq_nr % bits_per_entry) in
    let prev = get_or d.bitmap i 0 in
    (record d { bitmap = set d.bitmap i (bit_or prev mask) }, bit_and prev mask == 0)

unfoldable pub check_replay : ReplayDetector → ℕ → ReplayDetector × Bool
check_replay d seq_nr =
    if leb d.expected_seq_nr seq_nr
    then mark (advance d seq_nr) seq_nr
    else if leb ((seq_nr + window_size) % 2 ^ 64) d.expected_seq_nr
    then (d, false)
    else mark d seq_nr

-- A sequence of packets, in the order of arrival, with the verdict on each.
unfoldable pub run : ReplayDetector → List ℕ → List Bool
run d [] = []
run d (n ∷ ns) = let (d', verdict) = check_replay d n in verdict ∷ run d' ns
