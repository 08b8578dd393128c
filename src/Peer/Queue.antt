-- ===== src/Peer/Queue.antt =====
-- The queue of packets that wait for a handshake: AddPacketToPeerQueue_Locked and
-- ClearPacketQueue_Locked.
use tun_safe.Base.{
  ℕ, suc, zero, ◌+◌, ◌-◌, ◌%◌, ◌≤◌, ◌<◌, ◌≡◌, refl, ap, dec_lt, List, [], ◌∷◌, ◌++◌, leb,
  if◌then◌else◌, arith, length, drop, length-append, length-drop,
}
use tun_safe.Peer.{WgPeer, Packet}

abbrev pub max_queued_packets_per_peer : ℕ
max_queued_packets_per_peer = 128

-- `first_queued_packet_ = Packet_NEXT(packet); num_queued_packets_--` (a uint8).
unfoldable pub drop_first : WgPeer → WgPeer
drop_first p = record p {
  queued_packets = drop 1 p.queued_packets;
  num_queued_packets = (p.num_queued_packets + 255) % 256;
}

-- The while loop, for as many rounds as the counter can go down.
unfoldable pub make_room : ℕ → WgPeer → WgPeer
unfolding drop_first
make_room zero p = p
make_room (suc fuel) p =
    let rest = make_room fuel (drop_first p) in
    if leb max_queued_packets_per_peer p.num_queued_packets then rest else p

unfoldable pub add_packet_to_peer_queue : WgPeer → Packet → WgPeer
unfolding make_room
add_packet_to_peer_queue p packet =
    let q = make_room p.num_queued_packets p in
    record q {
      queued_packets = q.queued_packets ++ (packet ∷ []);
      num_queued_packets = (q.num_queued_packets + 1) % 256;
    }

unfoldable pub clear_packet_queue : WgPeer → WgPeer
clear_packet_queue p = record p { queued_packets = []; num_queued_packets = 0 }

-- The counter is the number of packets, and it is within the limit.
pub record IsQueueValid (p : WgPeer) : Type 0 where
  pub counted : p.num_queued_packets ≡ length p.queued_packets
  pub bounded : p.num_queued_packets ≤ max_queued_packets_per_peer

-- The last `n` elements.
abbrev pub newest {ℓ} : {A : Type ℓ} → ℕ → List A → List A
newest n xs = drop (length xs - n) xs

make_room_small : (fuel : ℕ) (p : WgPeer) → p.num_queued_packets < 128 → make_room fuel p ≡ p
unfolding make_room
make_room_small zero p h = refl
make_room_small (suc fuel) p h = ground arith

make_room_full :
    (fuel : ℕ) (p : WgPeer) → p.num_queued_packets ≡ 128 → make_room (suc fuel) p ≡ drop_first p
unfolding make_room
make_room_full fuel p h =
    ground (arith, make_room_small fuel (drop_first p) (unfold drop_first in omega arith))

-- What is kept of the queue when a packet is added.
record HasRoom (p q : WgPeer) : Type 0 where
  counted : q.num_queued_packets ≡ length q.queued_packets
  fits : q.num_queued_packets ≤ 127
  kept : q.queued_packets ≡ newest 127 p.queued_packets

small-HasRoom : (p : WgPeer) → IsQueueValid p → p.num_queued_packets < 128 → HasRoom p p
small-HasRoom p v h =
    let none_lost : length p.queued_packets - 127 ≡ 0 = omega (arith, v.counted) in
    record { counted = v.counted; fits = omega arith; kept = rw none_lost }

full-HasRoom : (p : WgPeer) → IsQueueValid p → p.num_queued_packets ≡ 128 → HasRoom p (drop_first p)
unfolding drop_first
full-HasRoom p v h =
    let one_lost : length p.queued_packets - 127 ≡ 1 = omega (arith, v.counted) in
    record {
      counted = omega (arith, v.counted, length-drop 1 p.queued_packets);
      fits = omega arith;
      kept = rw one_lost;
    }

make_room-HasRoom :
    (n : ℕ) (p : WgPeer) → IsQueueValid p → p.num_queued_packets ≡ n → HasRoom p (make_room n p)
make_room-HasRoom zero p v e =
    rw (make_room_small 0 p (omega arith)) (small-HasRoom p v (omega arith))
make_room-HasRoom (suc n) p v e = elim (dec_lt p.num_queued_packets 128) [
  | yes small ↦ rw (make_room_small (suc n) p small) (small-HasRoom p v small)
  | no full ↦
      let at_limit : p.num_queued_packets ≡ 128 = omega (arith, v.bounded) in
      rw (make_room_full n p at_limit) (full-HasRoom p v at_limit)
]

-- A valid queue stays valid, and takes the packet at its end; a full queue loses its oldest
-- packet, and the newest 127 stay in their order.
pub add_packet_to_peer_queue_lem :
    (p : WgPeer) (packet : Packet)
    → IsQueueValid p
    → let q = add_packet_to_peer_queue p packet in
      IsQueueValid q × (q.queued_packets ≡ newest 127 p.queued_packets ++ (packet ∷ []))
unfolding add_packet_to_peer_queue
add_packet_to_peer_queue_lem p packet v =
    let q = make_room p.num_queued_packets p in
    let room = make_room-HasRoom p.num_queued_packets p v refl in
    let longer = length-append q.queued_packets (packet ∷ []) in
    (
      record {
        counted = omega (arith, room.counted, room.fits, longer);
        bounded = omega (arith, room.fits);
      },
      ap (λ l. l ++ (packet ∷ [])) room.kept,
    )
