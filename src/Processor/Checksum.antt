-- ===== src/Processor/Checksum.antt =====
-- The checksum of a neighbor advertisement is the one that its receiver expects.
use tun_safe.Base.{
  ℕ, zero, suc, ◌⊎◌, ◌+◌, ◌-◌, ◌*◌, ◌/◌, ◌%◌, ◌^◌, ◌≤◌, ◌<◌, ◌≡◌, ◌∙◌, refl, ap, false, List, [],
  ◌∷◌, ◌==◌, ==_iff, length, length-append, arith, Bool-cases, inl, inr,
}
use tun_safe.Base.Bytes.{IsBytes, IsBytes-append, write_be16}
use tun_safe.Processor.Neighbor.{
  sum_words, fold_sum, icmpv6_sum, compute_icmpv6_checksum, advertisement,
}

-- One round of the loop.
round_lem :
    (n s : ℕ)
    → ((s / 65536 ≡ 0) × (fold_sum (suc n) s ≡ s))
      ⊎ ((0 < s / 65536) × (fold_sum (suc n) s ≡ fold_sum n (s % 65536 + s / 65536)))
unfolding fold_sum
round_lem n s = elim (Bool-cases (s / 65536 == 0)) [
  | inl e ↦ inl ((==_iff (s / 65536) 0).0 e, rw e refl)
  | inr e ↦ inr (nonzero (s / 65536) e, rw e refl)
]
  where
    nonzero : (k : ℕ) → (k == 0) ≡ false → 0 < k
    nonzero k e = ground arith

-- The loop keeps the sum modulo 65535, and keeps it from 0.
fold_sum-mod : (n s : ℕ) → (q : ℕ) × (s ≡ fold_sum n s + 65535 * q) × (0 < s → 0 < fold_sum n s)
fold_sum-mod zero s = unfold fold_sum in (0, omega arith, λ h. h)
fold_sum-mod (suc n) s =
    let (q, e, p) = fold_sum-mod n (s % 65536 + s / 65536) in
    elim (round_lem n s) [
      | inl (z, same) ↦ (0, omega (arith, same), λ h. omega (arith, same))
      | inr (z, same) ↦
          (q + s / 65536, omega (arith, same, e), λ h. omega (arith, same, p (omega arith)))
    ]

fold_sum-small : (n s : ℕ) → s < 65536 → fold_sum n s ≡ s
fold_sum-small zero s h = unfold fold_sum in refl
fold_sum-small (suc n) s h = elim (round_lem n s) [
  | inl (z, same) ↦ same
  | inr (z, same) ↦ absurd (omega arith)
]

fold_sum-two : (n s : ℕ) → s ≤ 131070 → fold_sum (suc n) s < 65536
fold_sum-two n s h = elim (round_lem n s) [
  | inl (z, same) ↦ omega (arith, same)
  | inr (z, same) ↦ omega (arith, same, fold_sum-small n (s % 65536 + s / 65536) (omega arith))
]

-- Three rounds are enough for a sum of 32 bits.
fold_sum-lt : (n s : ℕ) → s < 2 ^ 32 → fold_sum (suc (suc n)) s < 65536
fold_sum-lt n s h = elim (round_lem (suc n) s) [
  | inl (z, same) ↦ omega (arith, same)
  | inr (z, same) ↦ omega (arith, same, fold_sum-two n (s % 65536 + s / 65536) (omega arith))
]

-- A sum with its complement folds to 65535.
complement : (s : ℕ) → s < 2 ^ 31 → fold_sum 3 (s + (65535 - fold_sum 3 s)) ≡ 65535
complement s h =
    let r = fold_sum 3 s in
    let small = fold_sum-lt 1 s (omega arith) in
    let (q, e, p) = fold_sum-mod 3 s in
    let t = s + (65535 - r) in
    let small' = fold_sum-lt 1 t (omega (arith, small)) in
    let (q', e', p') = fold_sum-mod 3 t in
    let positive = p' (omega (arith, small, e)) in omega (arith, e, e', small, small', positive)

-- The words of a buffer of bytes.
sum_words-le : (xs : List ℕ) → IsBytes xs → sum_words xs ≤ 65535 * length xs
unfolding sum_words
sum_words-le [] h = omega arith
sum_words-le (x ∷ []) (hx, h) = omega arith
sum_words-le (x ∷ y ∷ rest) (hx, (hy, h)) = omega (arith, sum_words-le rest h)

-- The checksum is the second word of the message.
sum-advertisement :
    (v : ℕ) (target option : List ℕ)
    → v < 65536
    → sum_words (advertisement v target option) ≡ v + sum_words (advertisement 0 target option)
unfolding advertisement sum_words write_be16
sum-advertisement v target option h = omega arith

pub length-advertisement :
    (v : ℕ) (target option : List ℕ)
    → length (advertisement v target option) ≡ 8 + length target + length option
unfolding advertisement write_be16
length-advertisement v target option = omega (arith, length-append target option)

advertisement-IsBytes :
    (target option : List ℕ)
    → IsBytes target
    → IsBytes option
    → IsBytes (advertisement 0 target option)
unfolding advertisement write_be16
advertisement-IsBytes target option ht ho = (
  omega arith,
  (
    omega arith,
    (
      omega arith,
      (
        omega arith,
        (
          omega arith,
          (omega arith, (omega arith, (omega arith, IsBytes-append target option ht ho))),
        ),
      ),
    ),
  ),
)

-- The sum of a message without its checksum.
abbrev bare : List ℕ → List ℕ → List ℕ → ℕ
bare target asker option =
    let icmp = advertisement 0 target option in
    sum_words icmp + sum_words target + sum_words asker + (58 + length icmp)

bare-lt :
    (target asker option : List ℕ)
    → IsBytes target
    → IsBytes asker
    → IsBytes option
    → length target ≡ 16
    → length asker ≡ 16
    → length option ≤ 8
    → bare target asker option < 2 ^ 31
bare-lt target asker option ht ha ho lt la lo = omega (
  arith,
  sum_words-le (advertisement 0 target option) (advertisement-IsBytes target option ht ho),
  sum_words-le target ht,
  sum_words-le asker ha,
  length-advertisement 0 target option,
)

sum-is :
    (v : ℕ) (target asker option : List ℕ)
    → v < 65536
    → bare target asker option < 2 ^ 31
    → icmpv6_sum (advertisement v target option) target asker ≡ bare target asker option + v
unfolding icmpv6_sum
sum-is v target asker option h small = omega (
  arith,
  sum-advertisement v target option h,
  length-advertisement v target option,
  length-advertisement 0 target option,
)

-- The receiver's sum over the message is 65535.
pub advertisement_checks :
    (target asker option : List ℕ)
    → IsBytes target
    → IsBytes asker
    → IsBytes option
    → length target ≡ 16
    → length asker ≡ 16
    → length option ≤ 8
    → let v = compute_icmpv6_checksum (advertisement 0 target option) target asker in
      (v < 65536) × (fold_sum 3 (icmpv6_sum (advertisement v target option) target asker) ≡ 65535)
unfolding compute_icmpv6_checksum
advertisement_checks target asker option ht ha ho lt la lo =
    let small = bare-lt target asker option ht ha ho lt la lo in
    let s = bare target asker option in
    let first = sum-is 0 target asker option (omega arith) small in
    let whole : icmpv6_sum (advertisement 0 target option) target asker ≡ s =
      omega (arith, first) in
    let v : compute_icmpv6_checksum (advertisement 0 target option) target asker
        ≡ 65535 - fold_sum 3 s =
      ap (λ n. 65535 - fold_sum 3 n) whole in
    let fits : compute_icmpv6_checksum (advertisement 0 target option) target asker < 65536 =
      omega (arith, v) in
    (
      fits,
      ap (fold_sum 3) (sum-is _ target asker option fits small ∙ ap (λ n. s + n) v)
          ∙ complement s small,
    )
