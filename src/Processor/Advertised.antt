-- ===== src/Processor/Advertised.antt =====
-- What HandleIcmpv6NeighborSolicitation answers.
use tun_safe.Base.{
  ℕ, zero, suc, ◌+◌, ◌%◌, ◌≤◌, ◌<◌, ◌≡◌, ◌≢◌, ◌∙◌, refl, sym, ap, ap₂, Bool, true, false, not, ◌||◌,
  ◌==◌, ltb, Option, some, none, List, [], ◌∷◌, ◌++◌, length, length-take, length-drop, length-set,
  take, drop, get_or, set, arith, take-length-append, if◌then◌else◌, ◌⊎◌, inl, inr, Bool-cases,
}
use mathlib.Core.Option.{none-ne-some}
use mathlib.Core.Bool.{true≢false}
use tun_safe.Base.Bytes.{
  IsBytes, write_be16, read_be, read_be-write_be16, bytes_eq, bytes_eq_refl, bytes_eq_sound,
}
use tun_safe.Processor.{Env, field_be}
use tun_safe.Processor.Neighbor.{
  neighbor_multicast_prefix, fold_sum, icmpv6_sum, compute_icmpv6_checksum, advertisement,
  reply_packet, target_option, solicitation, Solicitation, not_for_us, multicast, unicast,
  answer_solicitation, handle_icmpv6_neighbor_solicitation,
}
use tun_safe.Processor.Checksum.{advertisement_checks, length-advertisement}

-- The parts of the reply.
drop-past : (n k : ℕ) (xs ys : List ℕ) → length xs ≡ n → drop (n + k) (xs ++ ys) ≡ drop k ys
drop-past zero k [] ys h = ap (λ m. drop m ys) (omega arith)
drop-past zero k (x ∷ xs) ys h = absurd (omega arith)
drop-past (suc n) k [] ys h = absurd (omega arith)
drop-past (suc n) k (x ∷ xs) ys h =
    let one : suc n + k ≡ suc (n + k) = omega arith in
    ap (λ m. drop m (x ∷ (xs ++ ys))) one ∙ drop-past n k xs ys (omega arith)

take-front : (n : ℕ) (xs ys : List ℕ) → length xs ≡ n → take n (xs ++ ys) ≡ xs
take-front n xs ys h = ap (λ k. take k (xs ++ ys)) (sym h) ∙ take-length-append xs ys

-- A reply to `asker` about `target` that its receiver takes: from the target, which it names again, with
-- the option at its end, its size, and a checksum for which the sum over the message and the addresses
-- is 65535.
pub record IsReply (target asker option out : List ℕ) : Type 0 where
  pub source : take 16 (drop 8 out) ≡ target
  pub destination : take 16 (drop 24 out) ≡ asker
  pub named : take 16 (drop 48 out) ≡ target
  pub options : drop 64 out ≡ option
  pub size : field_be out 4 2 ≡ length (drop 40 out)
  pub checksum :
      fold_sum 3 (icmpv6_sum (drop 40 out) (take 16 (drop 8 out)) (take 16 (drop 24 out))) ≡ 65535

past_addresses :
    (k : ℕ) (a b rest : List ℕ)
    → length a ≡ 16
    → length b ≡ 16
    → drop (16 + (16 + k)) (a ++ (b ++ rest)) ≡ drop k rest
past_addresses k a b rest la lb = drop-past 16 (16 + k) a (b ++ rest) la ∙ drop-past 16 k b rest lb

reply_packet-IsReply :
    (version target asker option : List ℕ)
    → length version ≡ 4
    → IsBytes target
    → IsBytes asker
    → IsBytes option
    → length target ≡ 16
    → length asker ≡ 16
    → length option ≤ 8
    → IsReply target asker option (reply_packet version target asker option)
unfolding reply_packet write_be16 advertisement
reply_packet-IsReply version target asker option lv ht ha ho lt la lo =
    let v = compute_icmpv6_checksum (advertisement 0 target option) target asker in
    let icmp = advertisement v target option in
    let rest : List ℕ = write_be16 (length icmp) ++ (58 ∷ 255 ∷ (target ++ (asker ++ icmp))) in
    let out = reply_packet version target asker option in
    let to_target : drop 8 out ≡ target ++ (asker ++ icmp) = drop-past 4 4 version rest lv in
    let to_asker : drop 24 out ≡ asker ++ icmp =
      drop-past 4 20 version rest lv ∙ drop-past 16 0 target (asker ++ icmp) lt in
    let to_icmp : drop 40 out ≡ icmp =
      drop-past 4 36 version rest lv ∙ past_addresses 0 target asker icmp lt la in
    let to_named : drop 48 out ≡ target ++ option =
      drop-past 4 44 version rest lv ∙ past_addresses 8 target asker icmp lt la in
    let to_option : drop 64 out ≡ option =
      drop-past 4 60 version rest lv
      ∙ past_addresses 24 target asker icmp lt la
      ∙ drop-past 16 0 target option lt in
    let source = ap (take 16) to_target ∙ take-front 16 target (asker ++ icmp) lt in
    let destination = ap (take 16) to_asker ∙ take-front 16 asker icmp la in
    let size = ap (λ l. read_be 0 (take 2 l)) (drop-past 4 0 version rest lv) in
    let short = length-advertisement v target option in
    record {
      source = source;
      destination = destination;
      named = ap (take 16) to_named ∙ take-front 16 target option lt;
      options = to_option;
      size =
          size ∙ read_be-write_be16 (length icmp) (omega (arith, short)) ∙ sym (ap length to_icmp);
      checksum =
          ap (fold_sum 3) (
            ap₂ (λ m s. icmpv6_sum m s (take 16 (drop 24 out))) to_icmp source
            ∙ ap (icmpv6_sum icmp target) destination)
          ∙ (advertisement_checks target asker option ht ha ho lt la lo).1;
    }

IsBytes-take : (n : ℕ) (xs : List ℕ) → IsBytes xs → IsBytes (take n xs)
IsBytes-take zero xs h = tt
IsBytes-take (suc n) [] h = tt
IsBytes-take (suc n) (x ∷ xs) (hx, h) = (hx, IsBytes-take n xs h)

IsBytes-drop : (n : ℕ) (xs : List ℕ) → IsBytes xs → IsBytes (drop n xs)
IsBytes-drop zero xs h = h
IsBytes-drop (suc n) [] h = tt
IsBytes-drop (suc n) (x ∷ xs) (hx, h) = IsBytes-drop n xs h

IsBytes-set : (xs : List ℕ) (i v : ℕ) → v < 256 → IsBytes xs → IsBytes (set xs i v)
IsBytes-set [] i v hv h = tt
IsBytes-set (x ∷ xs) zero v hv (hx, h) = (hv, h)
IsBytes-set (x ∷ xs) (suc i) v hv (hx, h) = (hx, IsBytes-set xs i v hv h)

target_option-IsBytes :
    (b : Bool) (mac : List ℕ)
    → IsBytes mac
    → length mac ≡ 6
    → IsBytes (target_option b mac) × (length (target_option b mac) ≤ 8)
unfolding target_option
target_option-IsBytes true mac h l =
    let v = (get_or mac 2 0 + 1) % 256 in
    (
      (omega arith, (omega arith, IsBytes-set mac 2 v (omega arith) h)),
      omega (arith, length-set mac 2 v),
    )
target_option-IsBytes false mac h l = (tt, omega arith)

-- An address in the packet.
field-IsBytes :
    (from : ℕ) (bytes : List ℕ)
    → IsBytes bytes
    → from + 16 ≤ length bytes
    → IsBytes (take 16 (drop from bytes)) × (length (take 16 (drop from bytes)) ≡ 16)
field-IsBytes from bytes h l = (
  IsBytes-take 16 (drop from bytes) (IsBytes-drop from bytes h),
  omega (arith, length-take 16 (drop from bytes), length-drop from bytes),
)

asked-IsReply :
    (b : Bool) (mac bytes : List ℕ)
    → IsBytes bytes
    → IsBytes mac
    → length mac ≡ 6
    → 64 ≤ length bytes
    → IsReply (take 16 (drop 48 bytes)) (take 16 (drop 8 bytes)) (target_option b mac) (
        reply_packet
          (take 4 bytes)
          (take 16 (drop 48 bytes))
          (take 16 (drop 8 bytes))
          (target_option b mac))
asked-IsReply b mac bytes h hm lm l =
    let (ht, lt) = field-IsBytes 48 bytes h (omega arith) in
    let (ha, la) = field-IsBytes 8 bytes h (omega arith) in
    let (ho, lo) = target_option-IsBytes b mac hm lm in
    reply_packet-IsReply (take 4 bytes) (take 16 (drop 48 bytes)) (take 16 (drop 8 bytes))
      (target_option b mac) (omega (arith, length-take 4 bytes)) ht ha ho lt la lo

-- The destination is a solicited-node multicast address, or the address that is asked for.
pub IsMulticast : List ℕ → Type 0
IsMulticast bytes = take 13 (drop 24 bytes) ≡ neighbor_multicast_prefix

pub IsUnicast : List ℕ → Type 0
IsUnicast bytes = take 16 (drop 24 bytes) ≡ take 16 (drop 48 bytes)

-- A neighbor solicitation that has to be answered: spoofing is on, it is complete, of type 135 and code
-- 0, sent to one of these destinations, and a peer has the address that is asked for.
pub record IsDue (env : Env) (spoofing : Bool) (bytes : List ℕ) : Type 0 where
  pub on : spoofing ≡ true
  pub complete : 64 ≤ length bytes
  pub type : get_or bytes 40 0 ≡ 135
  pub code : get_or bytes 41 0 ≡ 0
  pub addressed : IsMulticast bytes ⊎ IsUnicast bytes
  pub routed : env.lookup_v6 (field_be bytes 48 16) ≢ none

-- The reply that is right for the packet: to a multicast, with the address of the network card, the third
-- byte of which is one higher; to others without.
pub IsRight : List ℕ → List ℕ → List ℕ → Type 0
IsRight mac bytes out =
    let target = take 16 (drop 48 bytes) in
    let asker = take 16 (drop 8 bytes) in
    let changed = set mac 2 ((get_or mac 2 0 + 1) % 256) in
    (IsMulticast bytes × IsReply target asker (2 ∷ 1 ∷ changed) out)
    ⊎ ((¬ IsMulticast bytes) × IsReply target asker [] out)

-- No answer where none is due, and the right one where one is.
pub Answers : Env → Bool → List ℕ → List ℕ → Option (List ℕ) → Type 0
Answers env spoofing mac bytes none = ¬ IsDue env spoofing bytes
Answers env spoofing mac bytes (some out) = IsDue env spoofing bytes × IsRight mac bytes out

-- What each kind of destination is.
Meant : List ℕ → Solicitation → Type 0
Meant bytes not_for_us = (¬ IsMulticast bytes) × (¬ IsUnicast bytes)
Meant bytes multicast = IsMulticast bytes
Meant bytes unicast = (¬ IsMulticast bytes) × IsUnicast bytes

bytes_ne : (a b : List ℕ) → bytes_eq a b ≡ false → a ≢ b
bytes_ne a b h e = true≢false (sym (bytes_eq_refl a) ∙ ap (bytes_eq a) e ∙ h)

solicitation-Meant : (bytes : List ℕ) → Meant bytes (solicitation bytes)
unfolding solicitation Meant IsMulticast IsUnicast
solicitation-Meant bytes =
    let prefix = take 13 (drop 24 bytes) in
    let destination = take 16 (drop 24 bytes) in
    let target = take 16 (drop 48 bytes) in
    elim (Bool-cases (bytes_eq prefix neighbor_multicast_prefix)) [
      | inl m ↦ rw m (bytes_eq_sound prefix neighbor_multicast_prefix m)
      | inr other ↦ elim (Bool-cases (bytes_eq destination target)) [
        | inl u ↦
            rw (other, u)
              (bytes_ne prefix neighbor_multicast_prefix other, bytes_eq_sound destination target u)
        | inr neither ↦
            rw (other, neither)
              (bytes_ne prefix neighbor_multicast_prefix other, bytes_ne destination target neither)
      ]
    ]

-- The answer to a complete solicitation that is let through, for what was found.
module _ (env : Env) (mac bytes : List ℕ) (h : IsBytes bytes) (hm : IsBytes mac)
    (lm : length mac ≡ 6) (complete : 64 ≤ length bytes) (type : get_or bytes 40 0 ≡ 135)
    (code : get_or bytes 41 0 ≡ 0) where
  due :
      (peer : ℕ)
      → env.lookup_v6 (field_be bytes 48 16) ≡ some peer
      → IsMulticast bytes ⊎ IsUnicast bytes
      → IsDue env true bytes
  due peer found addressed = record {
    on = refl;
    complete = complete;
    type = type;
    code = code;
    addressed = addressed;
    routed = λ z. none-ne-some _ (sym z ∙ found);
  }

  answer-Answers :
      (found : Option ℕ) (kind : Solicitation)
      → env.lookup_v6 (field_be bytes 48 16) ≡ found
      → Meant bytes kind
      → Answers env true mac bytes (answer_solicitation found mac bytes kind)
  unfolding answer_solicitation Answers IsRight Meant target_option
  answer-Answers none kind e m = λ d. d.routed e
  answer-Answers (some peer) not_for_us e (not_multi, not_uni) =
      λ d. elim d.addressed [ inl a ↦ not_multi a | inr a ↦ not_uni a ]
  answer-Answers (some peer) multicast e m =
      (due peer e (inl m), inl (m, asked-IsReply true mac bytes h hm lm complete))
  answer-Answers (some peer) unicast e (not_multi, u) =
      (due peer e (inr u), inr (not_multi, asked-IsReply false mac bytes h hm lm complete))

guarded :
    (env : Env) (spoofing : Bool) (mac bytes : List ℕ) (b : Bool) (o : Option (List ℕ))
    → (b ≡ true → ¬ IsDue env spoofing bytes)
    → (b ≡ false → Answers env spoofing mac bytes o)
    → Answers env spoofing mac bytes (if b then none else o)
unfolding Answers
guarded env spoofing mac bytes true o stopped passed = stopped refl
guarded env spoofing mac bytes false o stopped passed = passed refl

guard_open :
    (n type code : ℕ) (spoofing : Bool)
    → (ltb n 64 || (not (type == 135) || (not (code == 0) || not spoofing))) ≡ false
    → (64 ≤ n) × (type ≡ 135) × (code ≡ 0) × (spoofing ≡ true)
guard_open n type code spoofing h = ground arith

guard_shut :
    (n type code : ℕ) (spoofing : Bool)
    → (ltb n 64 || (not (type == 135) || (not (code == 0) || not spoofing))) ≡ true
    → 64 ≤ n
    → type ≡ 135
    → code ≡ 0
    → spoofing ≡ false
guard_shut n type code spoofing h l t c = ground arith

-- For packets of bytes, and an address of the network card that has six: HandleIcmpv6NeighborSolicitation
-- answers the packets that are due and no others, which are those of 64 bytes or more, type 135 and code
-- 0, sent to a solicited-node multicast address or to the address that is asked for, while the spoofing
-- is on and that address is routed to a peer. The reply goes from that address to the one that asked,
-- names the address again, ends with the option of the network card's address, its third byte one
-- higher, where the packet was multicast, and with no option otherwise, and has its size in the header
-- and a checksum for which the receiver's sum is 65535.
pub handle_icmpv6_neighbor_solicitation_lem :
    (env : Env) (spoofing : Bool) (mac bytes : List ℕ)
    → IsBytes bytes
    → IsBytes mac
    → length mac ≡ 6
    → Answers env spoofing mac bytes (handle_icmpv6_neighbor_solicitation env spoofing mac bytes)
unfolding handle_icmpv6_neighbor_solicitation
handle_icmpv6_neighbor_solicitation_lem env spoofing mac bytes h hm lm =
    let n = length bytes in
    let type = get_or bytes 40 0 in
    let code = get_or bytes 41 0 in
    guarded env spoofing mac bytes _ _
      (λ b d. true≢false (sym d.on ∙ guard_shut n type code spoofing b d.complete d.type d.code))
      (λ b.
        let (l, t, c, on) = guard_open n type code spoofing b in
        rw on (
          answer-Answers env mac bytes h hm lm l t c (env.lookup_v6 (field_be bytes 48 16))
            (solicitation bytes) refl (solicitation-Meant bytes)))
