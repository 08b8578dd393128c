-- ===== src/Handshake/Tests.antt =====
-- A handshake with toy ciphers that keep the laws.
pub mod Messages
use tun_safe.Base.{
  ℕ, ◌+◌, ◌≡◌, refl, ap, none, some, inl, inr, List, [], ◌∷◌, ==_refl, arith, ◌==◌, if◌then◌else◌,
  Option, replicate, length-replicate, inr, IsIn, map, true,
}
use tun_safe.Keys.{WgDevice, v4}
use tun_safe.Peer.{WgPeer, new_peer}
use tun_safe.Peer.Tests.{some_device}
use tun_safe.Keys.Table.{lookup_peer_in_key_id_lookup, insert_in_key_id_lookup}
use tun_safe.Peer.Slots.{insert_keypair_in_peer, delete_keypair}
use tun_safe.Peer.Timers.{on_handshake_auth_complete}
use tun_safe.Handshake.{Crypto, Laws, IsSized, Initiation, Response}
use tun_safe.Handshake.Initiator.{initiate}
use tun_safe.Handshake.Config.{set_private_key, set_public_key}
use tun_safe.Handshake.Ready.{IsReady, IsKeyed, set_private_key-IsReady, set_public_key-IsReady}
use tun_safe.Handshake.Cookie.{
  check_cookie_mac1, create_cookie_message, make_cookie, refresh_secret,
}
use tun_safe.Handshake.Macs.{with_macs, check_cookie_mac1-write_mac_to_packet}
use tun_safe.Handshake.Retry.{Retry, CanRetry, IsRetried, retry_lem}
use tun_safe.Handshake.Wire.{
  read_initiation, write_initiation, read_response, write_response,
  read_initiation-write_initiation, read_response-write_response,
}
use tun_safe.Handshake.Once.{Arrival, Rising, answers_of, answers_of-Rising, answers_of_once}
use tun_safe.Handshake.Agree.{public}
use tun_safe.Handshake.Responder.{is_acceptable}
use tun_safe.Handshake.Exchange.{Exchange, CanComplete, IsComplete, complete_lem}

abbrev first : List ℕ → ℕ
first [] = 0
first (x ∷ xs) = x

-- The text behind a byte of the key.
abbrev toy_seal : List ℕ → List ℕ → List ℕ
toy_seal k text = first k ∷ text

abbrev toy_open : List ℕ → List ℕ → Option (List ℕ)
toy_open k [] = none
toy_open k (x ∷ text) = if x == first k then some text else none

toy_open-toy_seal : (k text : List ℕ) → toy_open k (toy_seal k text) ≡ some text
toy_open-toy_seal k text = rw (==_refl (first k)) refl

abbrev pub toy : Crypto
toy = record {
  dh = λ a b. (first a + first b) ∷ [];
  basepoint = 9 ∷ [];
  normalize = λ a. a;
  blake2s = λ size text key. replicate size (first text + first key);
  hkdf = λ text key. (
    (first text + first key + 1) ∷ [],
    (first text + first key + 2) ∷ [],
    (first text + first key + 3) ∷ [],
  );
  encrypt = λ k n text ad. toy_seal k text;
  decrypt = λ k n text ad. toy_open k text;
  xencrypt = λ k n text ad. toy_seal k text;
  xdecrypt = λ k n text ad. toy_open k text;
}

pub toy-Laws : Laws toy
toy-Laws = record {
  dh_comm = λ a b. ap (λ x. x ∷ []) (omega arith);
  decrypt-encrypt = λ k n text ad. toy_open-toy_seal k text;
  xdecrypt-xencrypt = λ k n text ad. toy_open-toy_seal k text;
}

abbrev initiator_device : WgDevice
initiator_device = record some_device { s_priv = 3 ∷ []; s_pub = public toy (3 ∷ []) }

abbrev responder_device : WgDevice
responder_device = record some_device {
  s_priv = 5 ∷ [];
  s_pub = public toy (5 ∷ []);
  peer_id_lookup = λ key. if first key == 12 then some 2 else none;
}

abbrev initiator_peer : WgPeer
initiator_peer = record new_peer {
  s_remote = public toy (5 ∷ []);
  s_priv_pub = toy.dh (3 ∷ []) (public toy (5 ∷ []));
  curr_keypair = some 1;
}

abbrev responder_peer : WgPeer
responder_peer = record new_peer {
  s_remote = public toy (3 ∷ []);
  s_priv_pub = toy.dh (5 ∷ []) (public toy (3 ∷ []));
}

abbrev some_exchange : Exchange
some_exchange = record {
  dev_i = initiator_device;
  peers_i = λ p. initiator_peer;
  i = 1;
  dev_r = responder_device;
  peers_r = λ p. responder_peer;
  r = 2;
  s_i = 3 ∷ [];
  s_r = 5 ∷ [];
  random_i = 20 ∷ [];
  random_r = 30 ∷ [];
  timestamp = 64 ∷ 0 ∷ [];
  created_at = 1000;
  answered_at = 1010;
  completed_at = 1020;
  initiation_size = 148;
  response_size = 92;
  draws_i = 40 ∷ [];
  draws_r = 0 ∷ 50 ∷ [];
  addr = v4 1 2;
  protocol = 0;
}

some_exchange-CanComplete : CanComplete toy some_exchange
unfolding is_acceptable
some_exchange-CanComplete = record {
  initiator = record { s_priv = refl; s_pub = refl; s_remote = refl; s_priv_pub = refl };
  responder = record { s_priv = refl; s_pub = refl; s_remote = refl; s_priv_pub = refl };
  known = refl;
  psk = refl;
  acceptable = refl;
  old_id = inl refl;
  free_i = inl (omega arith, refl);
  free_r = inr (inl (omega arith, refl));
  slots_i = record { curr = omega arith; prev = tt; next = tt };
  slots_r = record { curr = tt; prev = tt; next = tt };
}

complete_lem_example : IsComplete toy some_exchange
complete_lem_example = complete_lem toy toy-Laws some_exchange some_exchange-CanComplete

toy-IsSized : IsSized toy
toy-IsSized n text key = length-replicate {A = ℕ} n (first text + first key)

-- The second peer of the list.
set_private_key-IsReady_example :
    let (dev', peers') =
      set_private_key toy some_device (λ i. initiator_peer) (4 ∷ 2 ∷ []) (7 ∷ []) in
    IsReady toy dev' (peers' 2) (7 ∷ []) (14 ∷ [])
set_private_key-IsReady_example =
    set_private_key-IsReady toy some_device (λ i. initiator_peer) (4 ∷ 2 ∷ []) (7 ∷ []) 2
      (inr (inl refl))

set_public_key-IsReady_example :
    let (dev', q) = set_public_key toy initiator_device 3 initiator_peer (14 ∷ []) in
    IsReady toy dev' q (3 ∷ []) (14 ∷ [])
    × (dev'.peer_id_lookup (14 ∷ []) ≡ some 3)
    × IsKeyed toy dev' (3 ∷ [])
set_public_key-IsReady_example =
    set_public_key-IsReady toy initiator_device 3 initiator_peer (3 ∷ []) (14 ∷ [])
      (record { initialized = refl; s_priv = refl; s_pub = refl })
