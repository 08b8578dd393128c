-- ===== src/Handshake/Tests/Messages.antt =====
-- Messages, macs and cookies, and the theorems on them, with the toy ciphers.
use tun_safe.Base.{ℕ, ◌+◌, ◌≡◌, refl, none, some, List, [], ◌∷◌, arith, replicate, IsIn, map, true}
use tun_safe.Keys.{WgDevice, v4}
use tun_safe.Peer.{WgPeer}
use tun_safe.Peer.Tests.{some_device}
use tun_safe.Keys.Table.{lookup_peer_in_key_id_lookup, insert_in_key_id_lookup}
use tun_safe.Peer.Slots.{insert_keypair_in_peer, delete_keypair}
use tun_safe.Peer.Timers.{on_handshake_auth_complete}
use tun_safe.Handshake.{Initiation, Response}
use tun_safe.Handshake.Initiator.{initiate}
use tun_safe.Handshake.Cookie.{
  check_cookie_mac1, create_cookie_message, make_cookie, refresh_secret,
}
use tun_safe.Handshake.Macs.{with_macs, check_cookie_mac1-write_mac_to_packet}
use tun_safe.Handshake.Retry.{Retry, CanRetry, IsRetried, retry_lem}
use tun_safe.Handshake.Wire.{
  read_initiation, write_initiation, read_response, write_response,
  read_initiation-write_initiation, read_response-write_response,
}
use tun_safe.Handshake.Once.{Arrival, Rising, answers_of, answers_of-Rising, answers_of_once}
use tun_safe.Handshake.Agree.{public}
use tun_safe.Handshake.Tests.{
  toy, toy-Laws, toy-IsSized, responder_device, initiator_peer, responder_peer,
}

abbrev mac_key : List ℕ
mac_key = 8 ∷ []

abbrev mac_peer : WgPeer
mac_peer = record initiator_peer {
  precomputed_mac1_key = mac_key;
  precomputed_cookie_key = mac_key;
}

abbrev mac_device : WgDevice
mac_device = record responder_device {
  precomputed_mac1_key = mac_key;
  precomputed_cookie_key = mac_key;
}

check_cookie_mac1-write_mac_to_packet_example :
    check_cookie_mac1 toy mac_device (with_macs toy mac_peer 50 (1 ∷ 2 ∷ []) 0 (v4 1 2)) ≡ true
check_cookie_mac1-write_mac_to_packet_example =
    check_cookie_mac1-write_mac_to_packet toy mac_device mac_peer 50 0 (1 ∷ 2 ∷ []) (v4 1 2)
      toy-IsSized refl

abbrev some_retry : Retry
some_retry = record {
  receiver = mac_device;
  sender = record some_device { key_id_lookup = λ id. some (2, none) };
  peers = λ i. mac_peer;
  self = 2;
  key_id = 6;
  addr = v4 1 2;
  protocol = 0;
  first = 1 ∷ 2 ∷ [];
  second = 1 ∷ 3 ∷ [];
  sent_at = 200000;
  answered_at = 200010;
  taken_at = 200020;
  sent_again_at = 205000;
  checked_at = 205010;
  random = 77 ∷ [];
  nonce = 5 ∷ [];
  random_again = 78 ∷ [];
}

some_retry-CanRetry : CanRetry toy some_retry
unfolding lookup_peer_in_key_id_lookup create_cookie_message make_cookie refresh_secret
some_retry-CanRetry = record {
  owned = refl;
  key = refl;
  fresh_cookie = omega arith;
  fresh_secret = omega arith;
}

retry_lem_example : IsRetried toy some_retry
retry_lem_example = retry_lem toy toy-Laws toy-IsSized some_retry some_retry-CanRetry

-- An initiation, twice, and a later one.
abbrev toy_initiation : ℕ → Initiation
unfolding initiate
toy_initiation n =
    let o = initiate toy (public toy (3 ∷ [])) (public toy (5 ∷ [])) (17 ∷ []) (20 ∷ []) (n ∷ []) in
    record {
      sender_key_id = 40;
      ephemeral = o.ephemeral;
      static_enc = o.static_enc;
      timestamp_enc = o.timestamp_enc;
      mac1 = [];
      mac2 = [];
    }

abbrev arrival : ℕ → ℕ → Arrival
arrival n at = record {
  message = toy_initiation n;
  random = 30 ∷ [];
  size = 148;
  at = at;
  draws = (50 + n) ∷ [];
}

abbrev arrivals : List Arrival
arrivals = arrival 64 1000 ∷ arrival 64 2000 ∷ arrival 65 3000 ∷ arrival 66 3001 ∷ []

-- The answers to peer 2.
two_answers :
    answers_of toy responder_device (λ i. responder_peer) 2 arrivals
    ≡ (64 ∷ [], 1000) ∷ (65 ∷ [], 3000) ∷ []
unfolding answers_of toy_initiation insert_in_key_id_lookup on_handshake_auth_complete
    insert_keypair_in_peer delete_keypair
two_answers = refl

answers_of-Rising_example :
    Rising (replicate 12 0) 0 (answers_of toy responder_device (λ i. responder_peer) 2 arrivals)
answers_of-Rising_example = answers_of-Rising toy responder_device (λ i. responder_peer) 2 arrivals

abbrev seen_peer : WgPeer
seen_peer = record responder_peer { last_timestamp = 64 ∷ [] }

answers_of_once_example :
    ¬ IsIn
      (64 ∷ [])
      (map (λ (e : List ℕ × ℕ). e.0) (answers_of toy responder_device (λ i. seen_peer) 2 arrivals))
answers_of_once_example = answers_of_once toy responder_device (λ i. seen_peer) 2 arrivals

abbrev full_initiation : Initiation
full_initiation = record {
  sender_key_id = 70000;
  ephemeral = replicate 32 1;
  static_enc = replicate 48 2;
  timestamp_enc = replicate 28 3;
  mac1 = replicate 16 4;
  mac2 = replicate 16 5;
}

read_initiation-write_initiation_example :
    read_initiation (write_initiation full_initiation) ≡ full_initiation
read_initiation-write_initiation_example =
    read_initiation-write_initiation full_initiation (record {
      sender_key_id = omega arith;
      ephemeral = refl;
      static_enc = refl;
      timestamp_enc = refl;
      mac1 = refl;
      mac2 = refl;
    })

abbrev full_response : Response
full_response = record {
  sender_key_id = 70000;
  receiver_key_id = 80000;
  ephemeral = replicate 32 1;
  empty_enc = replicate 16 2;
  mac1 = replicate 16 4;
  mac2 = replicate 16 5;
}

read_response-write_response_example : read_response (write_response full_response) ≡ full_response
read_response-write_response_example = read_response-write_response full_response (record {
  sender_key_id = omega arith;
  receiver_key_id = omega arith;
  ephemeral = refl;
  empty_enc = refl;
  mac1 = refl;
  mac2 = refl;
})
