-- ===== src/Processor/Tests/Meeting.antt =====
-- A handshake between two processors with toy ciphers whose results have the sizes of the real ones.
use tun_safe.Base.{
  ℕ, ◌+◌, ◌≡◌, refl, ap, none, some, inl, inr, List, [], ◌∷◌, ◌++◌, ◌==◌, ==_refl, arith, Option,
  replicate, length-replicate, get_or, drop, if◌then◌else◌,
}
use tun_safe.Keys.{v4}
use tun_safe.Peer.{new_peer, check_handshake_rate_limit}
use tun_safe.Peer.Tests.{some_device}
use tun_safe.Handshake.{Crypto, Laws}
use tun_safe.Handshake.Agree.{public}
use tun_safe.Handshake.Complete.{Mirror}
use tun_safe.Handshake.Responder.{is_acceptable}
use tun_safe.Handshake.OnWire.{Sizes}
use tun_safe.Processor.{Processor}
use tun_safe.Processor.Handshakes.{Chance}
use tun_safe.Processor.Exchange.{Meeting, CanMeet, answered, finished}
use tun_safe.Processor.Mirrored.{finished-Mirror}
use tun_safe.Processor.Tests.{plain_env, no_stats}
use tun_safe.RateLimit.{new_rate_limit}

abbrev head : List ℕ → ℕ
head a = get_or a 0 0

abbrev open_sealed : List ℕ → List ℕ → Option (List ℕ)
open_sealed k [] = none
open_sealed k (x ∷ text) = if x == head k then some (drop 15 text) else none

abbrev sized_toy : Crypto
sized_toy = record {
  dh = λ a b. (head a + head b) ∷ replicate 31 0;
  basepoint = 9 ∷ [];
  normalize = λ a. a;
  blake2s = λ size text key. replicate size (head text + head key);
  hkdf = λ text key. (
    (head text + head key + 1) ∷ [],
    (head text + head key + 2) ∷ [],
    (head text + head key + 3) ∷ [],
  );
  encrypt = λ k n text ad. head k ∷ (replicate 15 0 ++ text);
  decrypt = λ k n text ad. open_sealed k text;
  xencrypt = λ k n text ad. head k ∷ (replicate 15 0 ++ text);
  xdecrypt = λ k n text ad. open_sealed k text;
}

open-sealed : (k text : List ℕ) → open_sealed k (head k ∷ (replicate 15 0 ++ text)) ≡ some text
open-sealed k text = rw (==_refl (head k)) refl

sized_toy-Laws : Laws sized_toy
sized_toy-Laws = record {
  dh_comm = λ a b. ap (λ x. x ∷ replicate 31 0) (omega arith);
  decrypt-encrypt = λ k n text ad. open-sealed k text;
  xdecrypt-xencrypt = λ k n text ad. open-sealed k text;
}

sized_toy-Sizes : Sizes sized_toy
sized_toy-Sizes = record {
  mac = λ n text key. length-replicate {A = ℕ} n (head text + head key);
  point = λ a b. refl;
  sealed = λ k n text ad. omega arith;
}

abbrev sender : Processor
sender = record {
  dev = record some_device { s_priv = 3 ∷ []; s_pub = public sized_toy (3 ∷ []) };
  peers = λ i. record new_peer {
    s_remote = public sized_toy (5 ∷ []);
    s_priv_pub = sized_toy.dh (3 ∷ []) (public sized_toy (5 ∷ []));
    precomputed_mac1_key = [];
    endpoint = v4 3 4;
  };
  stats = no_stats;
  mtu = 1420;
  scheduled = [];
  rate_limiter = new_rate_limit;
  udp = [];
  tun = [];
}

abbrev receiver : Processor
receiver = record sender {
  dev = record some_device {
    s_priv = 5 ∷ [];
    s_pub = public sized_toy (5 ∷ []);
    peer_id_lookup = λ key. if head key == 12 then some 2 else none;
  };
  peers = λ i. record new_peer {
    s_remote = public sized_toy (3 ∷ []);
    s_priv_pub = sized_toy.dh (5 ∷ []) (public sized_toy (3 ∷ []));
    precomputed_mac1_key = [];
  };
}

abbrev at : ℕ → List ℕ → Chance
at now draws = record {
  random = (now + 7) ∷ [];
  secret = [];
  nonce = [];
  timestamp = 64 ∷ replicate 11 0;
  now = now;
  draws = draws;
}

abbrev some_meeting : Meeting
some_meeting = record {
  a = sender;
  b = receiver;
  env_a = plain_env;
  env_b = plain_env;
  i = 1;
  r = 2;
  s_i = 3 ∷ [];
  s_r = 5 ∷ [];
  start = at 10000 (40 ∷ []);
  answer = at 10010 (0 ∷ 50 ∷ []);
  ending = at 10020 [];
  protocol_a = 0;
  addr_a = v4 1 2;
  protocol_b = 0;
  addr_b = v4 3 4;
}

some_meeting-CanMeet : CanMeet sized_toy some_meeting
unfolding is_acceptable check_handshake_rate_limit
some_meeting-CanMeet = record {
  keyed_a = refl;
  keyed_b = refl;
  initiator = record { s_priv = refl; s_pub = refl; s_remote = refl; s_priv_pub = refl };
  responder = record { s_priv = refl; s_pub = refl; s_remote = refl; s_priv_pub = refl };
  known = refl;
  mac_there = refl;
  mac_back = refl;
  psk = refl;
  allowed = refl;
  family = refl;
  timestamp = refl;
  acceptable = refl;
  old_id = inl refl;
  free_i = inl (omega arith, refl);
  free_r = inr (inl (omega arith, refl));
  words_i = omega arith;
  words_r = omega arith;
  slots_i = record { curr = tt; prev = tt; next = tt };
  slots_r = record { curr = tt; prev = tt; next = tt };
}

finished-Mirror_example :
    Mirror
      ((finished sized_toy some_meeting).dev.keypairs 10)
      ((answered sized_toy some_meeting).dev.keypairs 10)
finished-Mirror_example =
    finished-Mirror sized_toy sized_toy-Laws sized_toy-Sizes some_meeting some_meeting-CanMeet
