-- ===== src/Processor/Neighbor.antt =====
-- The answer to a neighbor solicitation: ComputeIcmpv6Checksum and HandleIcmpv6NeighborSolicitation.
use tun_safe.Base.{
  ℕ, zero, suc, ◌+◌, ◌-◌, ◌*◌, ◌/◌, ◌%◌, ◌^◌, Bool, true, false, not, ◌&&◌, ◌||◌, Option, none,
  some, List, [], ◌∷◌, ◌++◌, ◌==◌, ltb, if◌then◌else◌, length, take, drop, get_or, set,
}
use tun_safe.Base.Bytes.{write_be16, bytes_eq}
use tun_safe.Keys.{unset}
use tun_safe.Peer.{Packet}
use tun_safe.Processor.{Processor, Env, field_be}
use tun_safe.Processor.Send.{handle_tun_packet}

-- The words of a buffer, high byte first; a last byte alone counts as it is.
unfoldable pub sum_words : List ℕ → ℕ
sum_words [] = 0
sum_words (x ∷ []) = x
sum_words (x ∷ y ∷ rest) = (x * 256 + y) + sum_words rest

-- `while (sum >> 16)`; three rounds are enough for 32 bits (Processor/Checksum).
unfoldable pub fold_sum : ℕ → ℕ → ℕ
fold_sum zero sum = sum
fold_sum (suc n) sum =
    let rest = fold_sum n (sum % 2 ^ 16 + sum / 2 ^ 16) in if sum / 2 ^ 16 == 0 then sum else rest

-- ComputeIcmpv6Checksum; the protocol is 58.
unfoldable pub icmpv6_sum : List ℕ → List ℕ → List ℕ → ℕ
unfolding sum_words
icmpv6_sum buf src_addr dst_addr =
    (sum_words buf + sum_words src_addr + sum_words dst_addr + (58 + length buf)) % 2 ^ 32

unfoldable pub compute_icmpv6_checksum : List ℕ → List ℕ → List ℕ → ℕ
unfolding icmpv6_sum fold_sum
compute_icmpv6_checksum buf src_addr dst_addr =
    2 ^ 16 - 1 - fold_sum 3 (icmpv6_sum buf src_addr dst_addr)

abbrev pub neighbor_multicast_prefix : List ℕ
neighbor_multicast_prefix = 255 ∷ 2 ∷ 0 ∷ 0 ∷ 0 ∷ 0 ∷ 0 ∷ 0 ∷ 0 ∷ 0 ∷ 0 ∷ 1 ∷ 255 ∷ []

-- The option with the address, for a solicitation that was multicast; one byte of it is changed.
unfoldable pub target_option : Bool → List ℕ → List ℕ
target_option true mac = 2 ∷ 1 ∷ set mac 2 ((get_or mac 2 0 + 1) % 256)
target_option false mac = []

-- ICMPv6NaPacket, with its checksum.
unfoldable pub advertisement : ℕ → List ℕ → List ℕ → List ℕ
advertisement checksum target option =
    136 ∷ 0 ∷ (write_be16 checksum ++ (96 ∷ 0 ∷ 0 ∷ 0 ∷ (target ++ option)))

-- The whole reply, from the target to the address that asked.
unfoldable pub reply_packet : List ℕ → List ℕ → List ℕ → List ℕ → List ℕ
unfolding advertisement compute_icmpv6_checksum
reply_packet version target asker option =
    let checksum = compute_icmpv6_checksum (advertisement 0 target option) target asker in
    let icmp = advertisement checksum target option in
    version ++ (write_be16 (length icmp) ++ (58 ∷ 255 ∷ (target ++ (asker ++ icmp))))

-- What is asked for, in the destination: the multicast prefix, or the target itself.
pub data Solicitation : Type 0 where
  not_for_us multicast unicast : Solicitation

unfoldable pub solicitation : List ℕ → Solicitation
solicitation bytes =
    if bytes_eq (take 13 (drop 24 bytes)) neighbor_multicast_prefix
    then multicast
    else if bytes_eq (take 16 (drop 24 bytes)) (take 16 (drop 48 bytes))
    then unicast
    else not_for_us

unfoldable pub answer_solicitation : Option ℕ → List ℕ → List ℕ → Solicitation → Option (List ℕ)
unfolding reply_packet target_option
answer_solicitation none mac bytes kind = none
answer_solicitation (some peer) mac bytes not_for_us = none
answer_solicitation (some peer) mac bytes multicast = some (
    reply_packet (take 4 bytes) (take 16 (drop 48 bytes)) (take 16 (drop 8 bytes))
      (target_option true mac))
answer_solicitation (some peer) mac bytes unicast = some (
    reply_packet (take 4 bytes) (take 16 (drop 48 bytes)) (take 16 (drop 8 bytes))
      (target_option false mac))

-- WireguardProcessor::HandleIcmpv6NeighborSolicitation; `spoofing` is network_discovery_spoofing_,
-- `mac` network_discovery_mac_. The result is the packet for the tunnel.
unfoldable pub handle_icmpv6_neighbor_solicitation : Env → Bool → List ℕ → List ℕ → Option (List ℕ)
unfolding solicitation answer_solicitation
handle_icmpv6_neighbor_solicitation env spoofing mac bytes =
    if ltb (length bytes) 64
      || (not (get_or bytes 40 0 == 135) || (not (get_or bytes 41 0 == 0) || not spoofing))
    then none
    else answer_solicitation (env.lookup_v6 (field_be bytes 48 16)) mac bytes (solicitation bytes)

-- HandleTunPacket with the reply: the packet that is answered goes no further.
unfoldable pub handle_tun_packet_replying : Env → Bool → List ℕ → Processor → Packet → Processor
unfolding handle_icmpv6_neighbor_solicitation
handle_tun_packet_replying env spoofing mac s packet =
    let bytes = packet.bytes in
    let is_icmpv6 = (get_or bytes 0 0 / 16 == 6) && (get_or bytes 6 0 == 58) in
    let reply = handle_icmpv6_neighbor_solicitation env spoofing mac bytes in
    elim (if is_icmpv6 then reply else none) [
      | none ↦ handle_tun_packet env s false packet
      | some out ↦ record s { tun = record { bytes = out; protocol = 0; addr = unset } ∷ s.tun }
    ]
