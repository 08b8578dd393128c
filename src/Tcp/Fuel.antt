-- ===== src/Tcp/Fuel.antt =====
-- The loop of GetNextWireguardPacket: every round takes bytes from the queue, but for one in which no
-- packet can be allocated.
use tun_safe.Base.{
  ℕ, suc, zero, ◌+◌, ◌%◌, ◌^◌, ◌≤◌, ◌<◌, ◌≡◌, ◌∙◌, refl, ap, Bool, true, false, List, [], ◌∷◌,
  arith, length, ltb, replicate,
}
use tun_safe.Tcp.{
  TcpPacketHandler, Outcome, returned, running, take_packet, round, not_allocated, read_next_packet,
  read_packet_header, get_next_wireguard_packet,
}
use tun_safe.Tcp.Next.{IsValid}

-- The loop has returned, and the queue is still as it has to be.
abbrev pub IsReturned : Outcome → Type 0
IsReturned (returned packet h) = IsValid h
IsReturned _ = ⊥

-- The rounds in which a packet can be allocated.
unfoldable pub successes : List Bool → ℕ
successes [] = 0
successes (true ∷ allocs) = suc (successes allocs)
successes (false ∷ allocs) = successes allocs

-- The rest of the loop returns where less than `limit` bytes are left.
abbrev Ends : ℕ → (TcpPacketHandler → Outcome) → Type 0
Ends limit c = (h : TcpPacketHandler) → IsValid h → h.rqueue_bytes < limit → IsReturned (c h)

-- A packet that ends inside a piece cannot be cut off it without another packet.
split_fails :
    (num : ℕ) (piece : List ℕ) (rest : List (List ℕ))
    → num < length piece
    → read_next_packet false num (piece ∷ rest) ≡ not_allocated
unfolding read_next_packet
split_fails num piece rest l = ground arith

not_below : (n m : ℕ) → m ≤ n → ltb n m ≡ false
not_below n m h = ground arith

-- While AllocPacketFromPool has no packet, GetNextWireguardPacket does not return and changes nothing,
-- however many rounds it makes, when the queue has all of a packet that is not over the capacity, and
-- the first piece of the queue goes on behind that packet.
pub get_next_wireguard_packet_spins :
    (capacity rounds : ℕ) (h : TcpPacketHandler) (piece : List ℕ) (rest : List (List ℕ))
    → h.rqueue ≡ piece ∷ rest
    → let num = read_packet_header h.rqueue % 2 ^ 14 + 2 in
      num < length piece
      → num ≤ h.rqueue_bytes
      → num ≤ capacity
      → get_next_wireguard_packet capacity (replicate rounds false) h ≡ running h
unfolding get_next_wireguard_packet round take_packet
get_next_wireguard_packet_spins capacity zero h piece rest e l m k = refl
get_next_wireguard_packet_spins capacity (suc n) h piece rest e l m k =
    let num = read_packet_header h.rqueue % 2 ^ 14 + 2 in
    let null = ap (read_next_packet false num) e ∙ split_fails num piece rest l in
    rw
      (
        not_below h.rqueue_bytes 2 (omega arith),
        not_below h.rqueue_bytes num m,
        not_below capacity num k,
        null,
      )
      (get_next_wireguard_packet_spins capacity n h piece rest e l m k)
