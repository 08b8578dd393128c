-- ===== src/Tcp.antt =====
-- TcpPacketHandler (network_common.h and network_common.cpp): packets over a TCP stream. The bytes
-- arrive in pieces, which are kept in a queue and cut again at the packets' borders.
pub mod Stream
pub mod Next
pub mod Fuel
pub mod Tests
use tun_safe.Base.{
  ℕ, suc, zero, ◌+◌, ◌-◌, ◌*◌, ◌/◌, ◌%◌, ◌^◌, min, Bool, true, false, ◌&&◌, Option, none, some,
  List, [], ◌∷◌, ◌++◌, ltb, leb, ◌==◌, if◌then◌else◌, length, take, drop, get_or,
}
use tun_safe.Base.Bytes.{write_le, read_le, write_be16, read_be}

abbrev pub packet_type_normal : ℕ
packet_type_normal = 0

abbrev pub packet_type_data : ℕ
packet_type_data = 2

abbrev pub packet_type_control : ℕ
packet_type_control = 3

-- The queue rqueue_ is the list of the pieces; `capacity` is kPacketCapacity.
pub record TcpPacketHandler : Type 0 where
  pub rqueue : List (List ℕ)
  pub rqueue_bytes : ℕ
  pub error_flag : Bool
  pub predicted_key_in : ℕ
  pub predicted_key_out : ℕ
  pub predicted_serial_in : ℕ
  pub predicted_serial_out : ℕ

unfoldable pub new_handler : TcpPacketHandler
new_handler = record {
  rqueue = [];
  rqueue_bytes = 0;
  error_flag = false;
  predicted_key_in = 0;
  predicted_key_out = 0;
  predicted_serial_in = 0;
  predicted_serial_out = 0;
}

-- The 15 bytes that set the key and the serial.
unfoldable pub control_packet : ℕ → ℕ → List ℕ
control_packet key serial =
    write_be16 (13 + packet_type_control * 2 ^ 14) ++ (0 ∷ write_le 4 key ++ write_le 8 serial)

-- TcpPacketHandler::AddHeaderToOutgoingPacket: what is written for the packet.
unfoldable pub add_header_to_outgoing_packet : TcpPacketHandler → List ℕ → TcpPacketHandler × List ℕ
unfolding control_packet
add_header_to_outgoing_packet h bytes =
    let size = length bytes in
    let key = read_le (take 4 (drop 4 bytes)) in
    let serial = read_le (take 8 (drop 8 bytes)) in
    let body = write_be16 (size - 16 + packet_type_data * 2 ^ 14) ++ drop 16 bytes in
    let next = record h { predicted_key_out = key; predicted_serial_out = (serial + 1) % 2 ^ 64 } in
    if leb 16 size && (read_le (take 4 bytes) == 4)
    then if (h.predicted_key_out == key) && (h.predicted_serial_out == serial)
      then (next, body)
      else (next, control_packet key serial ++ body)
    else (h, write_be16 size ++ bytes)

-- TcpPacketHandler::QueueIncomingPacket
unfoldable pub queue_incoming_packet : TcpPacketHandler → List ℕ → TcpPacketHandler
queue_incoming_packet h piece = record h {
  rqueue = h.rqueue ++ (piece ∷ []);
  rqueue_bytes = (h.rqueue_bytes + length piece) % 2 ^ 32;
}

-- ReadPacketHeader: two bytes of one piece, or one each of two.
unfoldable pub read_packet_header : List (List ℕ) → ℕ
read_packet_header [] = 0
read_packet_header (p ∷ rest) =
    if leb 2 (length p)
    then read_be 0 (take 2 p)
    else get_or p 0 0 * 2 ^ 8 + get_or (get_or rest 0 []) 0 0

-- What ReadNextPacket does: it returns the packet and leaves the rest of the queue, it returns NULL
-- because AllocPacketFromPool does and leaves all as it is, or it follows a null pointer at the end of
-- the queue.
pub data NextPacket : Type 0 where
  is_read : (packet : List ℕ) (rest : List (List ℕ)) → NextPacket
  not_allocated null_pointer : NextPacket

-- The do loop of ReadNextPacket: `p` is filled up to `num` bytes.
unfoldable pub fill : ℕ → List ℕ → List (List ℕ) → NextPacket
fill num p [] = null_pointer
fill num p (n ∷ rest) =
    let bytes_to_copy = min (length n) (num - length p) in
    let p' = p ++ take bytes_to_copy n in
    let n' = drop bytes_to_copy n in
    let more = fill num p' rest in
    if length n' == 0
    then if length p' == num then is_read p' rest else more
    else is_read p' (n' ∷ rest)

-- TcpPacketHandler::ReadNextPacket; `alloc` is whether AllocPacketFromPool has a packet.
unfoldable pub read_next_packet : Bool → ℕ → List (List ℕ) → NextPacket
unfolding fill
read_next_packet alloc num [] = null_pointer
read_next_packet alloc num (p ∷ rest) =
    if ltb (length p) num
    then fill num p rest
    else if ltb num (length p)
    then if alloc then is_read (take num p) (drop num p ∷ rest) else not_allocated
    else is_read p rest

-- The loop of GetNextWireguardPacket: it returns a packet or NULL, it is still running after the rounds
-- that it was given, or it followed a null pointer.
pub data Outcome : Type 0 where
  returned : (packet : Option (List ℕ)) (h : TcpPacketHandler) → Outcome
  running : (h : TcpPacketHandler) → Outcome
  crashed : Outcome

-- What a packet of each type does, `body` without its header: it is returned, or the loop goes on.
unfoldable pub after_control : TcpPacketHandler → List ℕ → TcpPacketHandler
after_control h body =
    if (length body == 13) && (get_or body 0 0 == 0)
    then record h {
      predicted_key_in = read_le (take 4 (drop 1 body));
      predicted_serial_in = read_le (take 8 (drop 5 body));
    }
    else h

-- The optimised header is put back in front of the body.
unfoldable pub with_data_header : TcpPacketHandler → List ℕ → Outcome
with_data_header h body =
    returned
      (some (
        write_le 4 4
        ++ (write_le 4 h.predicted_key_in ++ (write_le 8 h.predicted_serial_in ++ body))))
      (record h { predicted_serial_in = (h.predicted_serial_in + 1) % 2 ^ 64 })

-- The end of the loop's body, for a packet of the type; `continue` is the rest of the loop.
unfoldable pub dispatch : TcpPacketHandler → ℕ → List ℕ → (TcpPacketHandler → Outcome) → Outcome
unfolding after_control with_data_header
dispatch h type body continue =
    if type == packet_type_normal
    then returned (some body) h
    else if type == packet_type_data
    then with_data_header h body
    else if type == packet_type_control
    then continue (after_control h body)
    else returned none (record h { error_flag = true })

-- `if (packet)`: after a failed allocation the loop starts again.
unfoldable pub take_packet :
    TcpPacketHandler → ℕ → ℕ → NextPacket → (TcpPacketHandler → Outcome) → Outcome
unfolding dispatch
take_packet h type num null_pointer continue = crashed
take_packet h type num not_allocated continue = continue h
take_packet h type num (is_read packet rest) continue =
    dispatch (record h { rqueue = rest; rqueue_bytes = h.rqueue_bytes - num }) type (drop 2 packet)
      continue

-- One round of the loop, with the header that was read.
unfoldable pub round : ℕ → Bool → TcpPacketHandler → ℕ → (TcpPacketHandler → Outcome) → Outcome
unfolding read_next_packet take_packet
round capacity alloc h header continue =
    let size = header % 2 ^ 14 in
    let type = header / 2 ^ 14 in
    if ltb h.rqueue_bytes (size + 2)
    then returned none h
    else if ltb capacity (size + 2)
    then returned none (record h { error_flag = true })
    else take_packet h type (size + 2) (read_next_packet alloc (size + 2) h.rqueue) continue

-- TcpPacketHandler::GetNextWireguardPacket, for as many rounds as the list is long; it says for each
-- whether AllocPacketFromPool has a packet, should the round call it.
unfoldable pub get_next_wireguard_packet : ℕ → List Bool → TcpPacketHandler → Outcome
unfolding read_packet_header round
get_next_wireguard_packet capacity [] h = running h
get_next_wireguard_packet capacity (alloc ∷ allocs) h =
    if ltb h.rqueue_bytes 2
    then returned none h
    else round capacity alloc h (read_packet_header h.rqueue)
        (get_next_wireguard_packet capacity allocs)
