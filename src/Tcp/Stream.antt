-- ===== src/Tcp/Stream.antt =====
-- The queue of pieces as one stream of bytes.
use tun_safe.Base.{
  ℕ, suc, zero, ◌+◌, ◌-◌, ◌≤◌, ◌<◌, ◌≡◌, ◌∙◌, refl, sym, ap, min, List, [], ◌∷◌, ◌++◌, All, arith,
  length, take, drop, length-append, length-drop, dec_lt, lt→ltb, ◌==◌, if◌then◌else◌, append_assoc,
  append-nil, ltb, Bool, true, false, Bool-cases, ◌⊎◌, inl, inr,
}
use tun_safe.Base.Bytes.{read_be}
use tun_safe.Tcp.{NextPacket, is_read, not_allocated, fill, read_next_packet, read_packet_header}

-- The bytes of the pieces, in order.
abbrev pub stream : List (List ℕ) → List ℕ
stream [] = []
stream (p ∷ rest) = p ++ stream rest

-- No piece is empty.
abbrev pub NoneEmpty : List (List ℕ) → Type 0
NoneEmpty = All (λ p. 1 ≤ length p)

module _ {ℓ} {A : Type ℓ} where
  pub take-append_le : (n : ℕ) (xs ys : List A) → n ≤ length xs → take n (xs ++ ys) ≡ take n xs
  take-append_le zero xs ys h = refl
  take-append_le (suc n) [] ys h = absurd (omega arith)
  take-append_le (suc n) (x ∷ xs) ys h = ap (λ l. x ∷ l) (take-append_le n xs ys (omega arith))

  pub drop-append_le :
      (n : ℕ) (xs ys : List A) → n ≤ length xs → drop n (xs ++ ys) ≡ drop n xs ++ ys
  drop-append_le zero xs ys h = refl
  drop-append_le (suc n) [] ys h = absurd (omega arith)
  drop-append_le (suc n) (x ∷ xs) ys h = drop-append_le n xs ys (omega arith)

  pub take-append_ge :
      (n k : ℕ) (xs ys : List A) → n ≡ length xs + k → take n (xs ++ ys) ≡ xs ++ take k ys
  take-append_ge n k [] ys h = ap (λ m. take m ys) (omega arith)
  take-append_ge zero k (x ∷ xs) ys h = absurd (omega arith)
  take-append_ge (suc n) k (x ∷ xs) ys h = ap (λ l. x ∷ l) (take-append_ge n k xs ys (omega arith))

  pub drop-append_ge :
      (n k : ℕ) (xs ys : List A) → n ≡ length xs + k → drop n (xs ++ ys) ≡ drop k ys
  drop-append_ge n k [] ys h = ap (λ m. drop m ys) (omega arith)
  drop-append_ge zero k (x ∷ xs) ys h = absurd (omega arith)
  drop-append_ge (suc n) k (x ∷ xs) ys h = drop-append_ge n k xs ys (omega arith)

  pub take_all : (xs : List A) → take (length xs) xs ≡ xs
  take_all [] = refl
  take_all (x ∷ xs) = ap (λ l. x ∷ l) (take_all xs)

  pub drop_all : (xs : List A) → drop (length xs) xs ≡ []
  drop_all [] = refl
  drop_all (x ∷ xs) = drop_all xs

-- A read of `num` bytes: they are the first of the stream, and the rest is left.
pub record IsRead (num : ℕ) (bytes : List ℕ) (result : NextPacket) : Type 0 where
  pub packet : List ℕ
  pub rest : List (List ℕ)
  pub answer : result ≡ is_read packet rest
  pub first : packet ≡ take num bytes
  pub left : stream rest ≡ drop num bytes
  pub none_empty : NoneEmpty rest

module _ (num : ℕ) (p n : List ℕ) (rest : List (List ℕ)) where
  fill_split :
      num - length p < length n
      → fill num p (n ∷ rest)
        ≡ is_read (p ++ take (num - length p) n) (drop (num - length p) n ∷ rest)
  unfolding fill
  fill_split h =
      let k = num - length p in
      let e : min (length n) k ≡ k = omega arith in rw e (ground (arith, length-drop k n))

  fill_whole :
      length n ≤ num - length p
      → fill num p (n ∷ rest)
        ≡ (if length (p ++ n) == num then is_read (p ++ n) rest else fill num (p ++ n) rest)
  unfolding fill
  fill_whole h =
      let e : min (length n) (num - length p) ≡ length n = omega arith in
      rw (e, take_all n, drop_all n) refl

  fill_more :
      length n ≤ num - length p
      → length (p ++ n) < num
      → fill num p (n ∷ rest) ≡ fill num (p ++ n) rest
  fill_more h l = fill_whole h ∙ ground arith

  fill_exact :
      length n ≤ num - length p
      → length (p ++ n) ≡ num
      → fill num p (n ∷ rest) ≡ is_read (p ++ n) rest
  fill_exact h l = fill_whole h ∙ ground arith

fill_lem :
    (num : ℕ) (p : List ℕ) (queue : List (List ℕ))
    → length p < num
    → num ≤ length p + length (stream queue)
    → NoneEmpty queue
    → IsRead num (p ++ stream queue) (fill num p queue)
fill_lem num p [] short enough full = absurd (omega arith)
fill_lem num p (n ∷ rest) short enough full = elim (dec_lt (num - length p) (length n)) [
  | yes split ↦
      let k = num - length p in
      let whole : num ≡ length p + k = omega arith in
      record {
        packet = p ++ take k n;
        rest = drop k n ∷ rest;
        answer = fill_split num p n rest split;
        first =
            ap (λ l. p ++ l) (sym (take-append_le k n (stream rest) (omega arith)))
            ∙ sym (take-append_ge num k p (n ++ stream rest) whole);
        left =
            sym (drop-append_le k n (stream rest) (omega arith))
            ∙ sym (drop-append_ge num k p (n ++ stream rest) whole);
        none_empty = (omega (arith, length-drop k n), full.1);
      }
  | no whole ↦
      let longer = length-append p n in
      let more = length-append n (stream rest) in
      let same = append_assoc p n (stream rest) in
      elim (dec_lt (length (p ++ n)) num) [
        | yes shorter ↦
            let again = fill_lem num (p ++ n) rest shorter (omega (arith, longer, more)) full.1 in
            record {
              packet = again.packet;
              rest = again.rest;
              answer = fill_more num p n rest (omega arith) shorter ∙ again.answer;
              first = again.first ∙ ap (take num) same;
              left = again.left ∙ ap (drop num) same;
              none_empty = again.none_empty;
            }
        | no not_shorter ↦
            let exact : num ≡ length (p ++ n) + 0 = omega (arith, longer) in
            record {
              packet = p ++ n;
              rest = rest;
              answer = fill_exact num p n rest (omega arith) (omega arith);
              first =
                  sym (append-nil (p ++ n))
                  ∙ sym (take-append_ge num 0 (p ++ n) (stream rest) exact)
                  ∙ ap (take num) same;
              left = sym (drop-append_ge num 0 (p ++ n) (stream rest) exact) ∙ ap (drop num) same;
              none_empty = full.1;
            }
      ]
]

-- Of a queue without empty pieces that has `num` bytes, ReadNextPacket returns the first `num`, and
-- leaves the others, in pieces that are not empty.
pub read_next_packet_lem :
    (num : ℕ) (queue : List (List ℕ))
    → 1 ≤ num
    → num ≤ length (stream queue)
    → NoneEmpty queue
    → IsRead num (stream queue) (read_next_packet true num queue)
unfolding read_next_packet
read_next_packet_lem num [] pos enough full = absurd (omega arith)
read_next_packet_lem num (p ∷ rest) pos enough full = elim (dec_lt (length p) num) [
  | yes short ↦
      let r = fill_lem num p rest short (omega (arith, length-append p (stream rest))) full.1 in
      record {
        packet = r.packet;
        rest = r.rest;
        answer = rw (lt→ltb (length p) num short) r.answer;
        first = r.first;
        left = r.left;
        none_empty = r.none_empty;
      }
  | no long ↦ elim (dec_lt num (length p)) [
    | yes split ↦ record {
      packet = take num p;
      rest = drop num p ∷ rest;
      answer = ground arith;
      first = sym (take-append_le num p (stream rest) (omega arith));
      left = sym (drop-append_le num p (stream rest) (omega arith));
      none_empty = (omega (arith, length-drop num p), full.1);
    }
    | no not_longer ↦
        let exact : num ≡ length p + 0 = omega arith in
        record {
          packet = p;
          rest = rest;
          answer = ground arith;
          first = sym (append-nil p) ∙ sym (take-append_ge num 0 p (stream rest) exact);
          left = sym (drop-append_ge num 0 p (stream rest) exact);
          none_empty = full.1;
        }
  ]
]

-- Without a packet from the pool the read is the same, or it changes nothing.
pub read_next_packet_cases :
    (alloc : Bool) (num : ℕ) (queue : List (List ℕ))
    → (read_next_packet alloc num queue ≡ read_next_packet true num queue)
      ⊎ ((read_next_packet alloc num queue ≡ not_allocated) × (alloc ≡ false))
unfolding read_next_packet
read_next_packet_cases true num queue = inl refl
read_next_packet_cases false num [] = inl refl
read_next_packet_cases false num (p ∷ rest) = elim (Bool-cases (ltb (length p) num)) [
  | inl short ↦ inl (rw short refl)
  | inr other ↦ elim (Bool-cases (ltb num (length p))) [
    | inl split ↦ inr (rw (other, split) refl, refl)
    | inr exact ↦ inl (rw (other, exact) refl)
  ]
]

-- The header is the first two bytes of the stream, however it is cut.
pub read_packet_header_lem :
    (queue : List (List ℕ))
    → 2 ≤ length (stream queue)
    → NoneEmpty queue
    → read_packet_header queue ≡ read_be 0 (take 2 (stream queue))
unfolding read_packet_header read_be
read_packet_header_lem [] enough full = absurd (omega arith)
read_packet_header_lem ([] ∷ rest) enough full = absurd (omega (arith, full.0))
read_packet_header_lem ((a ∷ []) ∷ []) enough full = absurd (omega arith)
read_packet_header_lem ((a ∷ []) ∷ [] ∷ rest) enough full = absurd (omega (arith, full.1.0))
read_packet_header_lem ((a ∷ []) ∷ (b ∷ n) ∷ rest) enough full = omega arith
read_packet_header_lem ((a ∷ b ∷ p) ∷ rest) enough full = ground arith
