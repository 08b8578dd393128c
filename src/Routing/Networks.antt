-- ===== src/Routing/Networks.antt =====
-- InsertV6 as a map from networks to peers.
use tun_safe.Base.{
  ℕ, ◌≡◌, ◌∙◌, refl, ap, Bool, true, false, ◌&&◌, Option, none, some, List, [], ◌∷◌, if◌then◌else◌,
  arith, ◌==◌, ==_refl, Bool-cases, inl, inr,
}
use tun_safe.Routing.{Ip6, Entry6, is_network, insert_v6, remove_v6}

-- The peer of a network, if it is in the list.
unfoldable pub owner : List Entry6 → Ip6 → ℕ → Option ℕ
owner [] addr cidr = none
owner (e ∷ rest) addr cidr =
    let found = owner rest addr cidr in if is_network e addr cidr then some e.peer else found

-- Whether two networks are the same.
abbrev pub same_network : Ip6 → ℕ → Ip6 → ℕ → Bool
same_network a n b k = (n == k) && ((a.high == b.high) && (a.low == b.low))

same_network_refl : (a : Ip6) (n : ℕ) → same_network a n a n ≡ true
same_network_refl a n = rw (==_refl n, ==_refl a.high, ==_refl a.low) refl

not_both :
    (e : Entry6) (a b : Ip6) (n k : ℕ)
    → is_network e a n ≡ true
    → same_network a n b k ≡ false
    → is_network e b k ≡ false
not_both e a b n k h d = ground arith

-- Inserting a network gives it the new peer, returns the peer that it had before, and leaves
-- every other network alone.
pub insert_v6_lem :
    (entries : List Entry6) (addr : Ip6) (cidr peer : ℕ)
    → let (after, old) = insert_v6 entries addr cidr peer in
      (old ≡ owner entries addr cidr)
      × (owner after addr cidr ≡ some peer)
      × ((b : Ip6) (k : ℕ)
          → same_network addr cidr b k ≡ false
          → owner after b k ≡ owner entries b k)
unfolding insert_v6 owner
insert_v6_lem [] addr cidr peer = (refl, rw (same_network_refl addr cidr) refl, λ b k d. rw d refl)
insert_v6_lem (e ∷ rest) addr cidr peer =
    let (old, new, others) = insert_v6_lem rest addr cidr peer in
    elim (Bool-cases (is_network e addr cidr)) [
      | inl found ↦ (
        rw found refl,
        rw found (rw found refl),
        λ b k d. let other = not_both e addr b cidr k found d in rw found (rw other refl),
      )
      | inr passed ↦ (
        rw passed old,
        rw passed (rw passed new),
        λ b k d. rw passed (ap (λ o. if is_network e b k then some e.peer else o) (others b k d)),
      )
    ]

-- No network is in the list twice.
abbrev pub IsUnique : List Entry6 → Type 0
IsUnique [] = Unit {0}
IsUnique (e ∷ rest) = (owner rest e.ip e.cidr_len ≡ none) × IsUnique rest

-- A query for the network of an entry.
network_of :
    (e : Entry6) (rest : List Entry6) (a : Ip6) (n : ℕ)
    → is_network e a n ≡ true
    → owner rest e.ip e.cidr_len ≡ none
    → owner rest a n ≡ none
unfolding owner
network_of e [] a n h u = refl
network_of e (f ∷ rest) a n h u = ground (arith, network_of e rest a n h)

-- From a list without doubles, removing a network leaves it without a peer, and every other network alone.
pub remove_v6_lem :
    (entries : List Entry6) (addr : Ip6) (cidr : ℕ)
    → IsUnique entries
    → let after = remove_v6 entries addr cidr in
      (owner after addr cidr ≡ none)
      × ((b : Ip6) (k : ℕ)
          → same_network addr cidr b k ≡ false
          → owner after b k ≡ owner entries b k)
unfolding remove_v6 owner
remove_v6_lem [] addr cidr u = (refl, λ b k d. refl)
remove_v6_lem (e ∷ rest) addr cidr (fresh, u) =
    let (gone, others) = remove_v6_lem rest addr cidr u in
    elim (Bool-cases (is_network e addr cidr)) [
      | inl found ↦ (
        rw found (network_of e rest addr cidr found fresh),
        λ b k d. let other = not_both e addr b cidr k found d in rw found (rw other refl),
      )
      | inr passed ↦ (
        rw passed (rw passed gone),
        λ b k d. rw passed (ap (λ o. if is_network e b k then some e.peer else o) (others b k d)),
      )
    ]

not_network :
    (e : Entry6) (a : Ip6) (n : ℕ)
    → is_network e a n ≡ false
    → same_network a n e.ip e.cidr_len ≡ false
not_network e a n h = ground arith

-- Inserting a network keeps a list without doubles.
pub insert_v6-IsUnique :
    (entries : List Entry6) (addr : Ip6) (cidr peer : ℕ)
    → IsUnique entries
    → IsUnique (insert_v6 entries addr cidr peer).0
unfolding insert_v6 owner
insert_v6-IsUnique [] addr cidr peer u = (refl, tt)
insert_v6-IsUnique (e ∷ rest) addr cidr peer (fresh, u) =
    elim (Bool-cases (is_network e addr cidr)) [
      | inl found ↦ rw found (fresh, u)
      | inr passed ↦
          let (_, _, others) = insert_v6_lem rest addr cidr peer in
          rw passed (
            others e.ip e.cidr_len (not_network e addr cidr passed) ∙ fresh,
            insert_v6-IsUnique rest addr cidr peer u,
          )
    ]
