-- ===== src/Routing.antt =====
-- IpToPeerMap (ip_to_peer_map.h and ip_to_peer_map.cpp) for IPv6: a list of networks, each with the
-- peer that it is routed to. RoutingTrie32, which holds the networks of IPv4, is not modelled.
pub mod Prefix
pub mod Best
pub mod Networks
pub mod Tests
use tun_safe.Base.{
  ℕ, zero, suc, ◌+◌, ◌-◌, ◌/◌, ◌==◌, Bool, true, false, ◌&&◌, Option, none, some, List, [], ◌∷◌,
  leb, if◌then◌else◌, bit_xor,
}

-- The sixteen bytes of an address as two big endian words.
pub record Ip6 : Type 0 where
  pub high : ℕ
  pub low : ℕ

-- IpToPeerMap::Entry6
pub record Entry6 : Type 0 where
  pub ip : Ip6
  pub cidr_len : ℕ
  pub peer : ℕ

-- `it->cidr_len == cidr && memcmp(it->ip, addr, 16) == 0`
abbrev pub is_network : Entry6 → Ip6 → ℕ → Bool
is_network e addr cidr =
    (e.cidr_len == cidr) && ((e.ip.high == addr.high) && (e.ip.low == addr.low))

-- IpToPeerMap::InsertV6: the list, and the peer that had the network.
unfoldable pub insert_v6 : List Entry6 → Ip6 → ℕ → ℕ → List Entry6 × Option ℕ
insert_v6 [] addr cidr peer = (record { ip = addr; cidr_len = cidr; peer = peer } ∷ [], none)
insert_v6 (e ∷ rest) addr cidr peer =
    let (rest', old) = insert_v6 rest addr cidr peer in
    if is_network e addr cidr
    then (record e { peer = peer } ∷ rest, some e.peer)
    else (e ∷ rest', old)

-- IpToPeerMap::RemoveV6: the first entry of the network.
unfoldable pub remove_v6 : List Entry6 → Ip6 → ℕ → List Entry6
remove_v6 [] addr cidr = []
remove_v6 (e ∷ rest) addr cidr =
    let rest' = remove_v6 rest addr cidr in if is_network e addr cidr then rest else e ∷ rest'

-- FindHighestSetBit64 for a word of at most `bits` bits: the number of its highest bit, from 1, or 0.
unfoldable pub find_highest_set_bit : ℕ → ℕ → ℕ
find_highest_set_bit zero x = 0
find_highest_set_bit (suc bits) x =
    let above = find_highest_set_bit bits (x / 2) in if x == 0 then 0 else 1 + above

-- CalculateIPv6CommonPrefix
unfoldable pub calculate_ipv6_common_prefix : Ip6 → Ip6 → ℕ
unfolding find_highest_set_bit
calculate_ipv6_common_prefix a b =
    let x = bit_xor a.high b.high in
    let y = bit_xor a.low b.low in
    if x == 0 then 128 - find_highest_set_bit 64 y else 64 - find_highest_set_bit 64 x

-- The loop of LookupV6 with its two variables.
unfoldable pub look_on : Ip6 → List Entry6 → ℕ → Option ℕ → Option ℕ
unfolding calculate_ipv6_common_prefix
look_on addr [] best_len best_peer = best_peer
look_on addr (e ∷ rest) best_len best_peer =
    let len = calculate_ipv6_common_prefix addr e.ip in
    let taken = look_on addr rest len (some e.peer) in
    let passed = look_on addr rest best_len best_peer in
    if leb e.cidr_len len && leb best_len len then taken else passed

-- IpToPeerMap::LookupV6
unfoldable pub lookup_v6 : List Entry6 → Ip6 → Option ℕ
unfolding look_on
lookup_v6 entries addr = look_on addr entries 0 none
