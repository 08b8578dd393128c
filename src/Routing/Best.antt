-- ===== src/Routing/Best.antt =====
-- LookupV6 chooses among the networks that an address lies in.
use tun_safe.Base.{
  ℕ, ◌<◌, ◌≤◌, ◌≡◌, refl, ◌⊎◌, inl, inr, false, ◌&&◌, Option, none, some, List, [], ◌∷◌, leb, arith,
  All, IsIn, Bool-cases,
}
use tun_safe.Routing.{Ip6, Entry6, calculate_ipv6_common_prefix, look_on, lookup_v6}

-- The address lies in the network of the entry.
abbrev pub Matches : Ip6 → Entry6 → Type 0
Matches addr e = e.cidr_len ≤ calculate_ipv6_common_prefix addr e.ip

-- The entry is one of the list, matches, and shares as long a prefix with the address as any entry that
-- matches.
pub record IsBest (addr : Ip6) (entries : List Entry6) (e : Entry6) : Type 0 where
  pub member : IsIn e entries
  pub matches : Matches addr e
  pub longest :
      All
        (λ f.
          Matches addr f
          → calculate_ipv6_common_prefix addr f.ip ≤ calculate_ipv6_common_prefix addr e.ip)
        entries

-- No entry that matches is as long as `len`, or the best one is.
abbrev Looked : Ip6 → List Entry6 → ℕ → Option ℕ → Option ℕ → Type 0
Looked addr l len best result =
    ((result ≡ best) × All (λ f. Matches addr f → calculate_ipv6_common_prefix addr f.ip < len) l)
    ⊎ ((e : Entry6) × (result ≡ some e.peer)
        × (len ≤ calculate_ipv6_common_prefix addr e.ip)
        × IsBest addr l e)

All-map : {P Q : Entry6 → Type 0} (l : List Entry6) → ((e : Entry6) → P e → Q e) → All P l → All Q l
All-map [] f a = tt
All-map (e ∷ l) f (h, a) = (f e h, All-map l f a)

-- An entry that is not better is passed.
passed :
    (addr : Ip6) (e : Entry6) (l : List Entry6) (len : ℕ) (best result : Option ℕ)
    → (leb e.cidr_len (calculate_ipv6_common_prefix addr e.ip)
        && leb len (calculate_ipv6_common_prefix addr e.ip))
      ≡ false
    → Looked addr l len best result
    → Looked addr (e ∷ l) len best result
passed addr e l len best result worse (inl (same, short)) = inl (same, ((λ m. ground arith), short))
passed addr e l len best result worse (inr (f, same, long, b)) = inr (
  f,
  same,
  long,
  record { member = inr b.member; matches = b.matches; longest = ((λ m. ground arith), b.longest) },
)

-- An entry that is better is taken.
taken :
    (addr : Ip6) (e : Entry6) (l : List Entry6) (len : ℕ) (best result : Option ℕ)
    → Matches addr e
    → len ≤ calculate_ipv6_common_prefix addr e.ip
    → Looked addr l (calculate_ipv6_common_prefix addr e.ip) (some e.peer) result
    → Looked addr (e ∷ l) len best result
taken addr e l len best result m long (inl (same, short)) = inr (
  e,
  same,
  long,
  record {
    member = inl refl;
    matches = m;
    longest = ((λ _. omega arith), All-map l (λ f h k. omega (arith, h k)) short);
  },
)
taken addr e l len best result m long (inr (f, same, longer, b)) = inr (
  f,
  same,
  omega arith,
  record { member = inr b.member; matches = b.matches; longest = ((λ _. longer), b.longest) },
)

looked :
    (addr : Ip6) (l : List Entry6) (len : ℕ) (best : Option ℕ)
    → Looked addr l len best (look_on addr l len best)
unfolding look_on
looked addr [] len best = inl (refl, tt)
looked addr (e ∷ l) len best =
    let c = calculate_ipv6_common_prefix addr e.ip in
    elim (Bool-cases (leb e.cidr_len c && leb len c)) [
      | inl better ↦ rw better (
          taken addr e l len best (look_on addr l c (some e.peer)) (ground arith) (ground arith)
            (looked addr l c (some e.peer)))
      | inr worse ↦
          rw worse
            (passed addr e l len best (look_on addr l len best) worse (looked addr l len best))
    ]

-- LookupV6 gives none when the address lies in no network of the list, and otherwise the peer of an
-- entry that it lies in, which shares as long a prefix with the address as any entry that it lies in.
pub lookup_v6_lem :
    (addr : Ip6) (entries : List Entry6)
    → ((lookup_v6 entries addr ≡ none) × All (λ e. ¬ Matches addr e) entries)
      ⊎ ((e : Entry6) × (lookup_v6 entries addr ≡ some e.peer) × IsBest addr entries e)
unfolding lookup_v6
lookup_v6_lem addr entries = elim (looked addr entries 0 none) [
  | inl (same, short) ↦ inl (same, All-map entries (λ e h m. absurd (omega (arith, h m))) short)
  | inr (e, same, long, b) ↦ inr (e, same, b)
]
