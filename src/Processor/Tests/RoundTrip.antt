-- ===== src/Processor/Tests/RoundTrip.antt =====
-- A packet through a tunnel with a cipher that changes nothing.
use tun_safe.Base.{◌≡◌, refl, some, [], ◌∷◌, arith, false}
use tun_safe.Base.Bytes.{read_be}
use tun_safe.Replay.{init, check_replay, advance, mark, clear}
use tun_safe.Keys.{WgKeypair, v4}
use tun_safe.Peer.Tests.{some_keypair, some_device}
use tun_safe.Handshake.Tests.{toy}
use tun_safe.Keys.Table.{lookup_keypair_by_key_id}
use tun_safe.Processor.{Processor, source_route}
use tun_safe.Processor.Receive.{is_invalid}
use tun_safe.Processor.Send.{handle_tun_packet, destination_route}
use tun_safe.Processor.Handshakes.{Chance}
use tun_safe.Processor.Main.{handle_udp_packet}
use tun_safe.Processor.Exchange.{arriving}
use tun_safe.Processor.Tunnel.{CanSend}
use tun_safe.Processor.RoundTrip.{CanArrive, Undoes, handle_udp_packet-handle_tun_packet}
use tun_safe.Processor.Tests.{plain_env, some_processor, ip_packet, outgoing}

abbrev sender_key : WgKeypair
sender_key = record some_keypair {
  local_key_id = 9;
  remote_key_id = 7;
  send_key = 1 ∷ [];
  recv_key = 2 ∷ [];
}

abbrev receiver_key : WgKeypair
receiver_key = record some_keypair {
  peer = some 0;
  local_key_id = 7;
  remote_key_id = 9;
  send_key = 2 ∷ [];
  recv_key = 1 ∷ [];
}

abbrev sender : Processor
sender = record some_processor { dev = record some_device { keypairs = λ k. sender_key } }

abbrev receiver : Processor
receiver = record some_processor { dev = record some_device { keypairs = λ k. receiver_key } }

outgoing-CanSend : CanSend plain_env sender false outgoing 0 1 20
unfolding destination_route read_be
outgoing-CanSend = record {
  routed = refl;
  whole = omega arith;
  endpoint = refl;
  room = omega arith;
  current = refl;
  counter = omega arith;
}

outgoing-CanArrive : CanArrive plain_env receiver sender_key ip_packet 1 0 20
unfolding read_be init check_replay advance mark clear lookup_keypair_by_key_id is_invalid
    source_route
outgoing-CanArrive = record {
  mirror = record { there = refl; back = refl; id_there = refl; id_back = refl };
  suite = refl;
  tag = refl;
  word = omega arith;
  found = refl;
  owned = refl;
  valid = refl;
  fresh = refl;
  from = refl;
}

plain_env-Undoes : Undoes plain_env plain_env
plain_env-Undoes kp kp' send suite tag n text = refl

abbrev some_chance : Chance
some_chance = record {
  random = [];
  secret = [];
  nonce = [];
  timestamp = [];
  now = 2000;
  draws = [];
}

handle_udp_packet-handle_tun_packet_example :
    let wire = (handle_tun_packet plain_env sender false outgoing).udp in
    (handle_udp_packet toy plain_env receiver (arriving wire 0 (v4 3 4)) false some_chance).tun
    ≡ (record { bytes = ip_packet; protocol = 0; addr = v4 3 4 } ∷ [])
handle_udp_packet-handle_tun_packet_example =
    handle_udp_packet-handle_tun_packet toy plain_env plain_env sender receiver false false outgoing
      0 1 1 0 20 0 (v4 3 4) some_chance plain_env-Undoes outgoing-CanSend outgoing-CanArrive
