-- ===== src/Processor/Transit.antt =====
-- A packet from one tunnel to the other: the padding, the message, and the IP header that says how
-- much of the decrypted text is the packet.
use tun_safe.Base.{
  ℕ, zero, suc, ◌+◌, ◌/◌, ◌≤◌, ◌<◌, ◌≡◌, ◌∙◌, refl, sym, ap, Bool, true, false, ◌==◌, leb, Option,
  List, [], ◌∷◌, ◌++◌, length, length-append, take, drop, get_or, arith, if◌then◌else◌, leb→le,
  le→leb, Bool-cases, inl, inr,
}
use tun_safe.Processor.{Env, Route, bad_header, route, source_route, field_be}

-- What stands in the first bytes does not depend on the others.
pub take-append : (n : ℕ) (xs ys : List ℕ) → n ≤ length xs → take n (xs ++ ys) ≡ take n xs
take-append zero xs ys h = refl
take-append (suc n) [] ys h = absurd (omega arith)
take-append (suc n) (x ∷ xs) ys h = ap (λ l. x ∷ l) (take-append n xs ys (omega arith))

field-append :
    (from size : ℕ) (xs ys : List ℕ)
    → from + size ≤ length xs
    → take size (drop from (xs ++ ys)) ≡ take size (drop from xs)
field-append zero size xs ys h = take-append size xs ys (omega arith)
field-append (suc from) size [] ys h = absurd (omega arith)
field-append (suc from) size (x ∷ xs) ys h = field-append from size xs ys (omega arith)

first-append : (xs ys : List ℕ) → 0 < length xs → get_or (xs ++ ys) 0 0 ≡ get_or xs 0 0
first-append [] ys h = absurd (omega arith)
first-append (x ∷ xs) ys h = refl

chosen : (x : Route) {b : Bool} → b ≡ true → (if b then x else bad_header) ≡ x
chosen x h = rw h refl

refused : (x : Route) {b : Bool} → b ≡ false → (if b then x else bad_header) ≡ bad_header
refused x h = rw h refl

pub route_not_bad : (peer : Option ℕ) (size : ℕ) → ¬ (bad_header ≡ route peer size)
route_not_bad peer size e = ground arith

-- What a header of the version 4 or 6 says, where there is room for it.
v4_route : Env → List ℕ → Route
v4_route env bytes =
    let size = field_be bytes 2 2 in
    if leb 20 size then route (env.lookup_v4 (field_be bytes 12 4)) size else bad_header

v6_route : Env → List ℕ → Route
v6_route env bytes = route (env.lookup_v6 (field_be bytes 8 16)) (40 + field_be bytes 4 2)

module _ (env : Env) (bytes : List ℕ) where
  routes_v4 :
      (get_or bytes 0 0 / 16 == 4) ≡ true
      → source_route env bytes ≡ (if leb 20 (length bytes) then v4_route env bytes else bad_header)
  unfolding source_route v4_route
  routes_v4 e = rw e refl

  routes_v6 :
      (get_or bytes 0 0 / 16 == 4) ≡ false
      → (get_or bytes 0 0 / 16 == 6) ≡ true
      → source_route env bytes ≡ (if leb 40 (length bytes) then v6_route env bytes else bad_header)
  unfolding source_route v6_route
  routes_v6 e f = rw (e, f) refl

  routes_nothing :
      (get_or bytes 0 0 / 16 == 4) ≡ false
      → (get_or bytes 0 0 / 16 == 6) ≡ false
      → source_route env bytes ≡ bad_header
  unfolding source_route
  routes_nothing e f = rw (e, f) refl

v4-append :
    (env : Env) (bytes more : List ℕ)
    → 20 ≤ length bytes
    → v4_route env (bytes ++ more) ≡ v4_route env bytes
unfolding v4_route
v4-append env bytes more h =
    rw (field-append 2 2 bytes more (omega arith), field-append 12 4 bytes more (omega arith)) refl

v6-append :
    (env : Env) (bytes more : List ℕ)
    → 40 ≤ length bytes
    → v6_route env (bytes ++ more) ≡ v6_route env bytes
unfolding v6_route
v6-append env bytes more h =
    rw (field-append 4 2 bytes more (omega arith), field-append 8 16 bytes more (omega arith)) refl

-- The route that a header names stays when bytes are added after the packet.
pub source_route-append :
    (env : Env) (bytes more : List ℕ) (peer : Option ℕ) (size : ℕ)
    → source_route env bytes ≡ route peer size
    → source_route env (bytes ++ more) ≡ route peer size
source_route-append env bytes more peer size h = elim (Bool-cases (get_or bytes 0 0 / 16 == 4)) [
  | inl four ↦ elim (Bool-cases (leb 20 (length bytes))) [
    | inl long ↦
        let fits = leb→le 20 (length bytes) long in
        let longer = le→leb 20 (length (bytes ++ more)) (omega (arith, length-append bytes more)) in
        let four' = ap (λ v. v / 16 == 4) (first-append bytes more (omega arith)) ∙ four in
        routes_v4 env (bytes ++ more) four'
        ∙ chosen (v4_route env (bytes ++ more)) longer
        ∙ v4-append env bytes more fits
        ∙ sym (chosen (v4_route env bytes) long)
        ∙ sym (routes_v4 env bytes four)
        ∙ h
    | inr short ↦ absurd (
        route_not_bad peer size
          (sym (routes_v4 env bytes four ∙ refused (v4_route env bytes) short) ∙ h))
  ]
  | inr not_four ↦ elim (Bool-cases (get_or bytes 0 0 / 16 == 6)) [
    | inl six ↦ elim (Bool-cases (leb 40 (length bytes))) [
      | inl long ↦
          let fits = leb→le 40 (length bytes) long in
          let longer =
            le→leb 40 (length (bytes ++ more)) (omega (arith, length-append bytes more)) in
          let same = first-append bytes more (omega arith) in
          routes_v6 env (bytes ++ more) (ap (λ v. v / 16 == 4) same ∙ not_four)
            (ap (λ v. v / 16 == 6) same ∙ six)
          ∙ chosen (v6_route env (bytes ++ more)) longer
          ∙ v6-append env bytes more fits
          ∙ sym (chosen (v6_route env bytes) long)
          ∙ sym (routes_v6 env bytes not_four six)
          ∙ h
      | inr short ↦ absurd (
          route_not_bad peer size
            (sym (routes_v6 env bytes not_four six ∙ refused (v6_route env bytes) short) ∙ h))
    ]
    | inr not_six ↦
        absurd (route_not_bad peer size (sym (routes_nothing env bytes not_four not_six) ∙ h))
  ]
]
