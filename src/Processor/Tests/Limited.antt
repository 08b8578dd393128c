-- ===== src/Processor/Tests/Limited.antt =====
-- Initiations under load, and the bound on those that are let through.
use tun_safe.Base.{ℕ, ◌+◌, ◌≤◌, ◌≡◌, refl, true, false, List, [], ◌∷◌, ◌++◌, replicate, get_or}
use tun_safe.Base.Bytes.{read_le, bytes_eq}
use tun_safe.Keys.{v4}
use tun_safe.Peer.{Packet}
use tun_safe.RateLimit.{new_rate_limit, check_rate_limit}
use tun_safe.RateLimit.Bins.{new-IsBounded}
use tun_safe.Handshake.Tests.{toy}
use tun_safe.Handshake.Cookie.{check_cookie_mac1}
use tun_safe.Processor.Limited.{Arrival, let_through, let_through_lem}
use tun_safe.Processor.Handshakes.{get_ip_for_rate_limit, check_incoming_handshake_rate_limit}
use tun_safe.Processor.Tests.{some_processor, some_chance}

-- An initiation with a right first mac, and `mac2` as each byte of the second.
abbrev initiation : ℕ → Packet
initiation mac2 = record {
  bytes = 1 ∷ replicate 115 0 ++ (replicate 16 1 ++ replicate 16 mac2);
  protocol = 0;
  addr = v4 656 4;
}

abbrev under_load : ℕ → Arrival
under_load mac2 = record {
  state = some_processor;
  packet = initiation mac2;
  overload = true;
  chance = some_chance;
}

-- Four of one address, the last of them while there is no load.
abbrev arrivals : List Arrival
arrivals =
    under_load 0 ∷ under_load 0 ∷ under_load 3 ∷ record (under_load 0) { overload = false } ∷ []

-- The count goes up for the counter of the address, and for no other.
let_through_one :
    (let_through toy new_rate_limit 2 (under_load 0 ∷ []) ≡ 1)
    × (let_through toy new_rate_limit 3 (under_load 0 ∷ []) ≡ 0)
unfolding let_through check_rate_limit check_incoming_handshake_rate_limit check_cookie_mac1
    get_ip_for_rate_limit bytes_eq read_le new_rate_limit
let_through_one = (refl, refl)

let_through_lem_example :
    let_through toy new_rate_limit 2 arrivals + get_or new_rate_limit.bin1 2 0 ≤ 100
let_through_lem_example = let_through_lem toy new_rate_limit 2 arrivals new-IsBounded
