-- ===== src/Tcp/Tests.antt =====
-- A short stream in two cuts, and the theorems at inputs that meet their hypotheses.
use tun_safe.Base.{
  ℕ, ◌≡◌, refl, Bool, true, false, Option, none, some, replicate, List, [], ◌∷◌, arith,
}
use tun_safe.Base.Bytes.{read_le, write_le, read_be, write_be16}
use tun_safe.Tcp.{
  TcpPacketHandler, Outcome, returned, running, read_packet_header, new_handler,
  get_next_wireguard_packet, add_header_to_outgoing_packet, queue_incoming_packet,
}
use tun_safe.Tcp.Next.{Same, SameOutcome, get_next_wireguard_packet-Same}
use tun_safe.Tcp.Fuel.{get_next_wireguard_packet_spins}

abbrev two_pieces : TcpPacketHandler
two_pieces = record {
  rqueue = (0 ∷ []) ∷ (2 ∷ 7 ∷ 8 ∷ 0 ∷ []) ∷ [];
  rqueue_bytes = 5;
  error_flag = false;
  predicted_key_in = 0;
  predicted_key_out = 0;
  predicted_serial_in = 0;
  predicted_serial_out = 0;
}

abbrev one_piece : TcpPacketHandler
one_piece = record two_pieces { rqueue = (0 ∷ 2 ∷ 7 ∷ 8 ∷ 0 ∷ []) ∷ [] }

pieces-Same : Same two_pieces one_piece
pieces-Same = record {
  left = record { none_empty = omega arith; counted = refl };
  right = record { none_empty = omega arith; counted = refl };
  bytes = refl;
  error = refl;
  key_in = refl;
  key_out = refl;
  serial_in = refl;
  serial_out = refl;
}

get_next_wireguard_packet-Same_example :
    SameOutcome
      (get_next_wireguard_packet 1900 (replicate 5 true) two_pieces)
      (get_next_wireguard_packet 1900 (replicate 5 true) one_piece)
get_next_wireguard_packet-Same_example =
    get_next_wireguard_packet-Same 1900 5 two_pieces one_piece pieces-Same

-- The pool is empty in the first round, and has packets in the next three.
abbrev draws : List Bool
draws = false ∷ true ∷ true ∷ true ∷ []

get_next_wireguard_packet_spins_example :
    get_next_wireguard_packet 1900 (replicate 50 false) one_piece ≡ running one_piece
unfolding read_packet_header read_be
get_next_wireguard_packet_spins_example =
    get_next_wireguard_packet_spins 1900 50 one_piece (0 ∷ 2 ∷ 7 ∷ 8 ∷ 0 ∷ []) [] refl (omega arith)
      (omega arith) (omega arith)

-- The packet, whichever way it was cut.
get_next-pieces :
    (get_next_wireguard_packet 1900 (true ∷ []) two_pieces
      ≡ returned
          (some (7 ∷ 8 ∷ []))
          (record two_pieces { rqueue = (0 ∷ []) ∷ []; rqueue_bytes = 1 }))
    × (get_next_wireguard_packet 1900 draws one_piece
        ≡ get_next_wireguard_packet 1900 (true ∷ []) two_pieces)
unfolding get_next_wireguard_packet read_be
get_next-pieces = (refl, refl)

abbrev packet_of : Outcome → Option (List ℕ)
packet_of (returned packet h) = packet
packet_of _ = none

-- A data message, sent and received: the control packet goes first.
abbrev message : List ℕ
message = 4 ∷ 0 ∷ 0 ∷ 0 ∷ 9 ∷ 0 ∷ 0 ∷ 0 ∷ 5 ∷ 0 ∷ 0 ∷ 0 ∷ 0 ∷ 0 ∷ 0 ∷ 0 ∷ 77 ∷ []

get_next-add_header :
    let wire = (add_header_to_outgoing_packet new_handler message).1 in
    packet_of
      (get_next_wireguard_packet 1900 (replicate 40 true) (queue_incoming_packet new_handler wire))
    ≡ some message
unfolding get_next_wireguard_packet add_header_to_outgoing_packet queue_incoming_packet new_handler
    read_be read_le write_le write_be16
get_next-add_header = refl
