-- ===== src/Processor/Tests.antt =====
-- Two ends of a tunnel with a cipher that changes nothing, and the theorems on them.
pub mod Meeting
pub mod RoundTrip
pub mod Neighbor
pub mod Short
pub mod Limited
use tun_safe.Base.{
  ℕ, ◌≡◌, refl, none, some, List, [], ◌∷◌, ◌++◌, replicate, arith, drop, inl, inr, false,
}
use tun_safe.Base.Bytes.{read_le, read_be, bytes_eq}
use tun_safe.Replay.{init, check_replay, advance, mark, clear}
use tun_safe.Keys.{v4, unset}
use tun_safe.Peer.{Packet}
use tun_safe.Peer.Tests.{some_device, some_peer}
use tun_safe.RateLimit.{new_rate_limit}
use tun_safe.Processor.{Processor, Env, Stats}
use tun_safe.Processor.Send.{write_all, write_and_encrypt_packet_to_udp, message_data}
use tun_safe.Processor.Receive.{handle_data_packet, receiver_id, counter_of}
use tun_safe.Processor.Deliver.{Writes, IsAccepted, handle_data_packet_delivers}
use tun_safe.Handshake.Cookie.{check_cookie_mac1}
use tun_safe.Handshake.Tests.{toy}
use tun_safe.Processor.Handshakes.{Chance}
use tun_safe.Processor.Main.{udp_type, handle_udp_packet, run_all_main_thread_scheduled}
use tun_safe.Processor.Admit.{IsUntouched, refused_lem}
use tun_safe.Processor.Sending.{Started}
use tun_safe.Processor.Start.{write_packet-Started}
use tun_safe.Processor.Counter.{Sent, write_all-Sent, message_data_lem}

abbrev pub plain_env : Env
plain_env = record {
  encrypt = λ kp counter text. text;
  decrypt = λ kp counter text. some text;
  lookup_v4 = λ ip. some 0;
  lookup_v6 = λ ip. none;
  packet_capacity = 1900;
}

abbrev pub no_stats : Stats
no_stats = record {
  udp_bytes_in = 0;
  udp_packets_in = 0;
  udp_bytes_out = 0;
  udp_packets_out = 0;
  tun_bytes_in = 0;
  tun_packets_in = 0;
  tun_bytes_out = 0;
  tun_packets_out = 0;
  error_header = 0;
  error_key_id = 0;
  error_mac = 0;
  error_duplicate = 0;
  handshakes_in = 0;
  handshakes_in_success = 0;
  handshakes_out = 0;
  handshakes_out_success = 0;
  last_complete_handshake_timestamp = 0;
  first_complete_handshake_timestamp = 0;
}

abbrev pub some_processor : Processor
some_processor = record {
  dev = some_device;
  peers = λ i. some_peer;
  stats = no_stats;
  mtu = 1420;
  scheduled = [];
  rate_limiter = new_rate_limit;
  udp = [];
  tun = [];
}

-- An IPv4 header with nothing behind it.
abbrev pub ip_packet : List ℕ
ip_packet = 69 ∷ 0 ∷ 0 ∷ 20 ∷ replicate 16 0

abbrev pub outgoing : Packet
outgoing = record { bytes = ip_packet; protocol = 0; addr = unset }

write_all-Sent_example :
    let s' = write_all plain_env some_processor 0 (outgoing ∷ outgoing ∷ []) in
    Sent 5 [] (s'.dev.keypairs 1).send_ctr s'.udp
write_all-Sent_example =
    write_all-Sent plain_env some_processor 0 1 (outgoing ∷ outgoing ∷ []) refl (omega arith)

message_data_lem_example :
    let bytes = message_data 9 5 ip_packet in
    (receiver_id bytes ≡ 9) × (counter_of bytes ≡ 5) × (drop 16 bytes ≡ ip_packet)
message_data_lem_example = message_data_lem 9 5 ip_packet (omega arith) (omega arith)

-- A packet for key id 7, with counter 5.
abbrev incoming : Packet
incoming = record {
  bytes = 4 ∷ 0 ∷ 0 ∷ 0 ∷ 7 ∷ 0 ∷ 0 ∷ 0 ∷ 5 ∷ replicate 7 0 ++ ip_packet;
  protocol = 0;
  addr = v4 3 4;
}

handle_data_packet_delivers_example :
    Writes some_processor
      (handle_data_packet plain_env some_processor 2000 incoming)
      incoming
      (IsAccepted plain_env some_processor incoming)
handle_data_packet_delivers_example =
    handle_data_packet_delivers plain_env some_processor 2000 incoming

-- It is delivered, and a second time it is a duplicate.
handle-incoming :
    let once = handle_data_packet plain_env some_processor 2000 incoming in
    let twice = handle_data_packet plain_env once 2000 incoming in
    (once.tun ≡ record incoming { bytes = ip_packet } ∷ [])
    × (twice.tun ≡ once.tun)
    × (twice.stats.error_duplicate ≡ 1)
unfolding handle_data_packet init check_replay advance mark clear read_le read_be
handle-incoming = (refl, refl, refl)

abbrev some_chance : Chance
some_chance = record {
  random = 20 ∷ [];
  secret = 6 ∷ [];
  nonce = 5 ∷ [];
  timestamp = 64 ∷ [];
  now = 10000;
  draws = 7 ∷ 50 ∷ [];
}

-- An initiation of zeros, with a wrong first mac.
abbrev wrong_initiation : Packet
wrong_initiation = record { bytes = 1 ∷ replicate 147 0; protocol = 0; addr = v4 3 4 }

refused_lem_example :
    IsUntouched
      (handle_udp_packet toy plain_env some_processor wrong_initiation false some_chance)
      some_processor
unfolding udp_type check_cookie_mac1 read_le bytes_eq
refused_lem_example =
    refused_lem toy plain_env some_processor wrong_initiation false some_chance (inl refl)
      (inl refl)

abbrev idle_processor : Processor
idle_processor = record some_processor { peers = λ i. record some_peer { curr_keypair = none } }

write_packet-Started_example :
    Started
      (idle_processor.peers 2)
      []
      (run_all_main_thread_scheduled toy
        (write_and_encrypt_packet_to_udp plain_env idle_processor 2 outgoing)
        (λ i. some_chance)).udp
write_packet-Started_example =
    write_packet-Started toy plain_env idle_processor 2 outgoing (λ i. some_chance)
      (record { no_key = refl; fits = refl; idle = refl; none_scheduled = refl; alive = refl })
      (record {
        endpoint = refl;
        allowed = omega arith;
        known = inl refl;
        free = inr (inl (omega arith, refl));
      })
