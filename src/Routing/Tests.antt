-- ===== src/Routing/Tests.antt =====
-- Two networks, and the theorems at them.
use tun_safe.Base.{ℕ, ◌^◌, ◌*◌, ◌≤◌, ◌≡◌, ◌⊎◌, ◌↔◌, refl, none, some, false, [], ◌∷◌, arith, All}
use tun_safe.Routing.{Ip6, Entry6, insert_v6, remove_v6, lookup_v6, calculate_ipv6_common_prefix}
use tun_safe.Routing.Prefix.{SamePrefix, common_prefix_iff}
use tun_safe.Routing.Best.{Matches, IsBest, lookup_v6_lem}
use tun_safe.Routing.Networks.{owner, same_network, insert_v6_lem, remove_v6_lem}

-- fd00::
abbrev base : Ip6
base = record { high = 253 * 2 ^ 56; low = 0 }

-- fd00::/64, and fd00::/8 for another peer.
abbrev narrow : Entry6
narrow = record { ip = base; cidr_len = 64; peer = 1 }

abbrev wide : Entry6
wide = record { ip = base; cidr_len = 8; peer = 2 }

-- fd00::7
abbrev host : Ip6
host = record { high = 253 * 2 ^ 56; low = 7 }

-- The later entry wins, though its prefix is shorter.
wide_wins : lookup_v6 (narrow ∷ wide ∷ []) host ≡ some 2
unfolding lookup_v6
wide_wins = refl

narrow_wins : lookup_v6 (wide ∷ narrow ∷ []) host ≡ some 1
unfolding lookup_v6
narrow_wins = refl

lookup_v6_lem_example :
    ((lookup_v6 (narrow ∷ wide ∷ []) host ≡ none)
      × All (λ e. ¬ Matches host e) (narrow ∷ wide ∷ []))
    ⊎ ((e : Entry6) × (lookup_v6 (narrow ∷ wide ∷ []) host ≡ some e.peer)
        × IsBest host (narrow ∷ wide ∷ []) e)
lookup_v6_lem_example = lookup_v6_lem host (narrow ∷ wide ∷ [])

common_prefix_iff_example :
    (100 ≤ calculate_ipv6_common_prefix host base) ↔ SamePrefix 100 host base
common_prefix_iff_example =
    common_prefix_iff host base 100 (omega arith, omega arith, omega arith, omega arith)
      (omega arith)

insert_v6_lem_example :
    let (after, old) = insert_v6 (narrow ∷ wide ∷ []) base 8 5 in
    (old ≡ owner (narrow ∷ wide ∷ []) base 8)
    × (owner after base 8 ≡ some 5)
    × ((b : Ip6) (k : ℕ)
        → same_network base 8 b k ≡ false
        → owner after b k ≡ owner (narrow ∷ wide ∷ []) b k)
insert_v6_lem_example = insert_v6_lem (narrow ∷ wide ∷ []) base 8 5

remove_v6_lem_example :
    let after = remove_v6 (narrow ∷ wide ∷ []) base 64 in
    (owner after base 64 ≡ none)
    × ((b : Ip6) (k : ℕ)
        → same_network base 64 b k ≡ false
        → owner after b k ≡ owner (narrow ∷ wide ∷ []) b k)
unfolding owner
remove_v6_lem_example = remove_v6_lem (narrow ∷ wide ∷ []) base 64 (refl, (refl, tt))
