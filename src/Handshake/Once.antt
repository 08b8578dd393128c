-- ===== src/Handshake/Once.antt =====
-- A run of initiations that arrive at a responder (HandleHandshakeInitiationPacket in wireguard.cpp calls
-- ParseMessageHandshakeInitiation on each).
use tun_safe.Base.{
  ℕ, ◌+◌, ◌%◌, ◌^◌, ◌≡◌, ◌∙◌, refl, sym, ap, subst, inl, inr, true, false, Option, none, some, List,
  [], ◌∷◌, ◌++◌, ==_refl, arith, if◌then◌else◌, ltb, ◌==◌, ℕ_discrete, map, IsIn,
}
use mathlib.Core.Bool.{true≢false}
use tun_safe.Keys.{WgDevice, update}
use tun_safe.Peer.{WgPeer}
use tun_safe.Handshake.{Crypto, Initiation, Response, min_handshake_interval_ms}
use tun_safe.Handshake.Responder.{is_later, is_acceptable, parse_message_handshake_initiation}
use tun_safe.Handshake.Answered.{answered-IsAccepted, is_later_irrefl, is_later_trans}

pub record Arrival : Type 0 where
  pub message : Initiation
  pub random : List ℕ
  pub size : ℕ
  pub at : ℕ
  pub draws : List ℕ

-- The state after a message; without an answer nothing changes.
unfoldable pub apply_answer :
    WgDevice → (ℕ → WgPeer) → Option (ℕ × WgDevice × WgPeer × Response) → WgDevice × (ℕ → WgPeer)
apply_answer dev peers none = (dev, peers)
apply_answer dev peers (some (self, dev', q, r)) = (dev', update peers self q)

-- The timestamp and the time of an answer to the peer `j`.
unfoldable pub entry_of : ℕ → Option (ℕ × WgDevice × WgPeer × Response) → List (List ℕ × ℕ)
entry_of j none = []
entry_of j (some (self, dev', q, r)) =
    if self == j then (q.last_timestamp, q.last_handshake_init_recv_timestamp) ∷ [] else []

-- The answers to the peer `j` on a run of messages.
unfoldable pub answers_of : Crypto → WgDevice → (ℕ → WgPeer) → ℕ → List Arrival → List (List ℕ × ℕ)
unfolding apply_answer entry_of parse_message_handshake_initiation
answers_of c dev peers j [] = []
answers_of c dev peers j (a ∷ rest) =
    let result =
      parse_message_handshake_initiation c dev peers a.message a.random a.size a.at a.draws in
    let (dev', peers') = apply_answer dev peers result in
    entry_of j result ++ answers_of c dev' peers' j rest

-- Each timestamp is later than the one before, and each time 20 ms after it or more (unsigned sum).
abbrev pub Rising : List ℕ → ℕ → List (List ℕ × ℕ) → Type 0
Rising t n [] = Unit {0}
Rising t n ((u, k) ∷ rest) =
    (is_later u t ≡ true)
    × (ltb k ((n + min_handshake_interval_ms) % 2 ^ 64) ≡ false)
    × Rising u k rest

acceptable_parts :
    (p : WgPeer) (t : List ℕ) (now : ℕ)
    → is_acceptable p t now ≡ true
    → (is_later t p.last_timestamp ≡ true)
      × (ltb now ((p.last_handshake_init_recv_timestamp + min_handshake_interval_ms) % 2 ^ 64)
          ≡ false)
unfolding is_acceptable
acceptable_parts p t now h = ground arith

-- One message.
step-Rising :
    (c : Crypto) (dev : WgDevice) (peers : ℕ → WgPeer) (j : ℕ) (a : Arrival)
    (rest : List (List ℕ × ℕ)) (result : Option (ℕ × WgDevice × WgPeer × Response))
    → parse_message_handshake_initiation c dev peers a.message a.random a.size a.at a.draws ≡ result
    → let peers' = (apply_answer dev peers result).1 in
      Rising (peers' j).last_timestamp (peers' j).last_handshake_init_recv_timestamp rest
      → Rising
          (peers j).last_timestamp
          (peers j).last_handshake_init_recv_timestamp
          (entry_of j result ++ rest)
unfolding apply_answer entry_of
step-Rising c dev peers j a rest none e h = h
step-Rising c dev peers j a rest (some (self, dev', q, r)) e h =
    let x =
      answered-IsAccepted c dev peers a.message a.random a.size a.at a.draws self dev' q r e in
    let p = peers j in
    let entry : List ℕ × ℕ = (q.last_timestamp, q.last_handshake_init_recv_timestamp) in
    elim (ℕ_discrete self j) [
      | yes same ↦
          let here : update peers self q j ≡ q = rw (same, ==_refl j) refl in
          let listed : entry_of j (some (self, dev', q, r)) ≡ entry ∷ [] =
            rw (same, ==_refl j) refl in
          let (later, apart) = acceptable_parts (peers self) q.last_timestamp a.at x.acceptable in
          let later' : is_later q.last_timestamp p.last_timestamp ≡ true =
            ap (λ k. is_later q.last_timestamp (peers k).last_timestamp) (sym same) ∙ later in
          let apart' : ltb q.last_handshake_init_recv_timestamp
                ((p.last_handshake_init_recv_timestamp + min_handshake_interval_ms) % 2 ^ 64)
              ≡ false =
            ap
              (λ n.
                ltb n ((p.last_handshake_init_recv_timestamp + min_handshake_interval_ms) % 2 ^ 64))
              x.received
            ∙ ap
                (λ k. ltb a.at (
                  ((peers k).last_handshake_init_recv_timestamp + min_handshake_interval_ms)
                  % 2 ^ 64))
                (sym same)
            ∙ apart in
          subst (λ l. Rising p.last_timestamp p.last_handshake_init_recv_timestamp (l ++ rest))
            (sym listed)
            (
              later',
              apart',
              subst
                  (λ (y : WgPeer).
                    Rising y.last_timestamp y.last_handshake_init_recv_timestamp rest)
                  here h,
            )
      | no other ↦
          let here : update peers self q j ≡ p = ground arith in
          let listed : entry_of j (some (self, dev', q, r)) ≡ [] = ground arith in
          subst (λ l. Rising p.last_timestamp p.last_handshake_init_recv_timestamp (l ++ rest))
            (sym listed)
            (subst
              (λ (y : WgPeer). Rising y.last_timestamp y.last_handshake_init_recv_timestamp rest)
              here h)
    ]

-- On any run of messages, each answer to a peer has a later timestamp than the one before it, and is 20 ms
-- after it or more (in uint64), starting from what the peer remembers.
pub answers_of-Rising :
    (c : Crypto) (dev : WgDevice) (peers : ℕ → WgPeer) (j : ℕ) (run : List Arrival)
    → Rising
        (peers j).last_timestamp
        (peers j).last_handshake_init_recv_timestamp
        (answers_of c dev peers j run)
unfolding answers_of
answers_of-Rising c dev peers j [] = tt
answers_of-Rising c dev peers j (a ∷ rest) =
    let result =
      parse_message_handshake_initiation c dev peers a.message a.random a.size a.at a.draws in
    let (dev', peers') = apply_answer dev peers result in
    step-Rising c dev peers j a (answers_of c dev' peers' j rest) result refl
      (answers_of-Rising c dev' peers' j rest)

-- All timestamps of a rising list are later than the start.
Rising-later :
    (t u : List ℕ) (n k : ℕ) (l : List (List ℕ × ℕ))
    → Rising t n l
    → IsIn u (map (λ (e : List ℕ × ℕ). e.0) l)
    → is_later u t ≡ true
Rising-later t u n k [] h i = absurd i
Rising-later t u n k ((v, m) ∷ rest) (later, apart, rising) (inl e) =
    ap (λ x. is_later x t) e ∙ later
Rising-later t u n k ((v, m) ∷ rest) (later, apart, rising) (inr i) =
    is_later_trans u v t (Rising-later v u m k rest rising i) later

-- The timestamp that a peer remembers is not answered again, on any run of messages.
pub answers_of_once :
    (c : Crypto) (dev : WgDevice) (peers : ℕ → WgPeer) (j : ℕ) (run : List Arrival)
    → ¬ IsIn (peers j).last_timestamp (map (λ (e : List ℕ × ℕ). e.0) (answers_of c dev peers j run))
answers_of_once c dev peers j run i =
    let t = (peers j).last_timestamp in
    let later =
      Rising-later t t (peers j).last_handshake_init_recv_timestamp 0 (answers_of c dev peers j run)
        (answers_of-Rising c dev peers j run) i in
    true≢false (sym later ∙ is_later_irrefl t)
