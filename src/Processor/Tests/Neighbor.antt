-- ===== src/Processor/Tests/Neighbor.antt =====
-- A neighbor solicitation and its answer.
use tun_safe.Base.{ℕ, ◌≡◌, refl, true, none, some, List, [], ◌∷◌, ◌++◌, replicate, arith, set}
use tun_safe.Base.Bytes.{read_be, bytes_eq, write_be16}
use tun_safe.Processor.{Env}
use tun_safe.Processor.Neighbor.{handle_icmpv6_neighbor_solicitation}
use tun_safe.Processor.Advertised.{Answers, handle_icmpv6_neighbor_solicitation_lem}
use tun_safe.Processor.Tests.{plain_env}

abbrev routed_env : Env
routed_env = record plain_env { lookup_v6 = λ ip. some 0 }

abbrev asker : List ℕ
asker = 254 ∷ 128 ∷ replicate 13 0 ++ (1 ∷ [])

abbrev target : List ℕ
target = 254 ∷ 128 ∷ replicate 13 0 ++ (2 ∷ [])

-- It was sent to the target itself.
abbrev asked : List ℕ
asked =
    96
    ∷ 0
    ∷ 0
    ∷ 0
    ∷ 0
    ∷ 24
    ∷ 58
    ∷ 255
    ∷ (asker ++ (target ++ (135 ∷ 0 ∷ 0 ∷ 0 ∷ 0 ∷ 0 ∷ 0 ∷ 0 ∷ target)))

abbrev mac : List ℕ
mac = 0 ∷ 255 ∷ 1 ∷ 2 ∷ 3 ∷ 4 ∷ []

-- The answer, with its checksum.
abbrev reply : List ℕ
reply =
    96
    ∷ 0
    ∷ 0
    ∷ 0
    ∷ 0
    ∷ 24
    ∷ 58
    ∷ 255
    ∷ (target ++ (asker ++ (136 ∷ 0 ∷ 28 ∷ 37 ∷ 96 ∷ 0 ∷ 0 ∷ 0 ∷ target)))

replied : handle_icmpv6_neighbor_solicitation routed_env true mac asked ≡ some reply
unfolding handle_icmpv6_neighbor_solicitation bytes_eq read_be write_be16
replied = refl

-- A code that is not 0, or another destination, gets no answer.
not_replied :
    (handle_icmpv6_neighbor_solicitation routed_env true mac (set asked 41 1) ≡ none)
    × (handle_icmpv6_neighbor_solicitation routed_env true mac (set asked 39 3) ≡ none)
unfolding handle_icmpv6_neighbor_solicitation bytes_eq read_be write_be16
not_replied = (refl, refl)

handle_icmpv6_neighbor_solicitation_lem_example :
    Answers routed_env true mac asked
      (handle_icmpv6_neighbor_solicitation routed_env true mac asked)
handle_icmpv6_neighbor_solicitation_lem_example =
    handle_icmpv6_neighbor_solicitation_lem routed_env true mac asked (omega arith) (omega arith)
      refl
