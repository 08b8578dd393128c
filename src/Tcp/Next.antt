-- ===== src/Tcp/Next.antt =====
-- What GetNextWireguardPacket returns depends on the bytes of the stream, not on the pieces.
use tun_safe.Base.{
  ℕ, suc, zero, ◌+◌, ◌-◌, ◌/◌, ◌%◌, ◌^◌, ◌≤◌, ◌≡◌, ◌∙◌, refl, sym, ap, ap₂, subst, true, some, List,
  replicate, ◌++◌, arith, length, take, drop, ltb, ◌==◌, if-related, length-drop,
}
use tun_safe.Base.Bytes.{read_be, write_le}
use tun_safe.Tcp.{
  TcpPacketHandler, Outcome, returned, running, dispatch, after_control, with_data_header,
  take_packet, round, read_next_packet, read_packet_header, get_next_wireguard_packet,
}
use tun_safe.Tcp.Stream.{stream, NoneEmpty, IsRead, read_next_packet_lem, read_packet_header_lem}

-- The queue has no empty piece, and its bytes are counted.
pub record IsValid (h : TcpPacketHandler) : Type 0 where
  pub none_empty : NoneEmpty h.rqueue
  pub counted : h.rqueue_bytes ≡ length (stream h.rqueue)

-- Two handlers with the same bytes in other pieces.
pub record Same (h g : TcpPacketHandler) : Type 0 where
  pub left : IsValid h
  pub right : IsValid g
  pub bytes : stream h.rqueue ≡ stream g.rqueue
  pub error : h.error_flag ≡ g.error_flag
  pub key_in : h.predicted_key_in ≡ g.predicted_key_in
  pub key_out : h.predicted_key_out ≡ g.predicted_key_out
  pub serial_in : h.predicted_serial_in ≡ g.predicted_serial_in
  pub serial_out : h.predicted_serial_out ≡ g.predicted_serial_out

-- Both return the same, or both are still running; none has crashed.
abbrev pub SameOutcome : Outcome → Outcome → Type 0
SameOutcome (returned p h) (returned q g) = (p ≡ q) × Same h g
SameOutcome (running h) (running g) = Same h g
SameOutcome _ _ = ⊥

Same-count : (h g : TcpPacketHandler) → Same h g → h.rqueue_bytes ≡ g.rqueue_bytes
Same-count h g s = s.left.counted ∙ ap length s.bytes ∙ sym s.right.counted

-- The same fields beside the queue.
control-Same :
    (h g : TcpPacketHandler) (body : List ℕ)
    → Same h g
    → Same (after_control h body) (after_control g body)
unfolding after_control
control-Same h g body s =
    if-related Same _ _ refl
      (record {
        left = record { none_empty = s.left.none_empty; counted = s.left.counted };
        right = record { none_empty = s.right.none_empty; counted = s.right.counted };
        bytes = s.bytes;
        error = s.error;
        key_in = refl;
        key_out = s.key_out;
        serial_in = refl;
        serial_out = s.serial_out;
      })
      (λ e. s)

data-Same :
    (h g : TcpPacketHandler) (body : List ℕ)
    → Same h g
    → SameOutcome (with_data_header h body) (with_data_header g body)
unfolding with_data_header
data-Same h g body s = (
  ap₂ (λ key serial. some (write_le 4 4 ++ (write_le 4 key ++ (write_le 8 serial ++ body))))
      s.key_in s.serial_in,
  record {
    left = record { none_empty = s.left.none_empty; counted = s.left.counted };
    right = record { none_empty = s.right.none_empty; counted = s.right.counted };
    bytes = s.bytes;
    error = s.error;
    key_in = s.key_in;
    key_out = s.key_out;
    serial_in = ap (λ n. (n + 1) % 2 ^ 64) s.serial_in;
    serial_out = s.serial_out;
  },
)

error-Same :
    (h g : TcpPacketHandler)
    → Same h g
    → Same (record h { error_flag = true }) (record g { error_flag = true })
error-Same h g s = record {
  left = record { none_empty = s.left.none_empty; counted = s.left.counted };
  right = record { none_empty = s.right.none_empty; counted = s.right.counted };
  bytes = s.bytes;
  error = refl;
  key_in = s.key_in;
  key_out = s.key_out;
  serial_in = s.serial_in;
  serial_out = s.serial_out;
}

-- The rest of the loop treats them alike.
abbrev Respects : (TcpPacketHandler → Outcome) → Type 0
Respects continue = (h g : TcpPacketHandler) → Same h g → SameOutcome (continue h) (continue g)

dispatch-Same :
    (h g : TcpPacketHandler) (type : ℕ) (body : List ℕ) (continue : TcpPacketHandler → Outcome)
    → Respects continue
    → Same h g
    → SameOutcome (dispatch h type body continue) (dispatch g type body continue)
unfolding dispatch
dispatch-Same h g type body continue respects s =
    if-related SameOutcome (type == 0) (type == 0) refl (refl, s)
      (λ e. if-related SameOutcome (type == 2) (type == 2) refl (data-Same h g body s) (λ e'.
        if-related SameOutcome (type == 3) (type == 3) refl
          (respects (after_control h body) (after_control g body) (control-Same h g body s))
          (λ e''. (refl, error-Same h g s))))

took :
    (h g : TcpPacketHandler) (num : ℕ)
    → Same h g
    → (a : IsRead num (stream h.rqueue) (read_next_packet true num h.rqueue))
    → (b : IsRead num (stream g.rqueue) (read_next_packet true num g.rqueue))
    → Same
        (record h { rqueue = a.rest; rqueue_bytes = h.rqueue_bytes - num })
        (record g { rqueue = b.rest; rqueue_bytes = g.rqueue_bytes - num })
took h g num s a b = record {
  left = record {
    none_empty = a.none_empty;
    counted =
        ap (λ n. n - num) s.left.counted
        ∙ sym (length-drop num (stream h.rqueue))
        ∙ ap length (sym a.left);
  };
  right = record {
    none_empty = b.none_empty;
    counted =
        ap (λ n. n - num) s.right.counted
        ∙ sym (length-drop num (stream g.rqueue))
        ∙ ap length (sym b.left);
  };
  bytes = a.left ∙ ap (drop num) s.bytes ∙ sym b.left;
  error = s.error;
  key_in = s.key_in;
  key_out = s.key_out;
  serial_in = s.serial_in;
  serial_out = s.serial_out;
}

take-Same :
    (h g : TcpPacketHandler) (type num : ℕ) (continue : TcpPacketHandler → Outcome)
    → Respects continue
    → Same h g
    → 1 ≤ num
    → num ≤ h.rqueue_bytes
    → SameOutcome
        (take_packet h type num (read_next_packet true num h.rqueue) continue)
        (take_packet g type num (read_next_packet true num g.rqueue) continue)
unfolding take_packet
take-Same h g type num continue respects s pos enough =
    let a =
      read_next_packet_lem num h.rqueue pos (omega (arith, s.left.counted)) s.left.none_empty in
    let b =
      read_next_packet_lem num g.rqueue pos (omega (arith, s.right.counted, Same-count h g s))
        s.right.none_empty in
    let same : b.packet ≡ a.packet = b.first ∙ ap (take num) (sym s.bytes) ∙ sym a.first in
    let h' = record h { rqueue = a.rest; rqueue_bytes = h.rqueue_bytes - num } in
    let g' = record g { rqueue = b.rest; rqueue_bytes = g.rqueue_bytes - num } in
    rw (a.answer, b.answer, same)
      (dispatch-Same h' g' type (drop 2 a.packet) continue respects (took h g num s a b))

round-Same :
    (capacity : ℕ) (h g : TcpPacketHandler) (header : ℕ) (continue : TcpPacketHandler → Outcome)
    → Respects continue
    → Same h g
    → SameOutcome (round capacity true h header continue) (round capacity true g header continue)
unfolding round
round-Same capacity h g header continue respects s =
    let num = header % 2 ^ 14 + 2 in
    if-related SameOutcome (ltb h.rqueue_bytes num) (ltb g.rqueue_bytes num)
      (ap (λ n. ltb n num) (Same-count h g s)) (refl, s)
      (λ enough.
        if-related SameOutcome (ltb capacity num) (ltb capacity num) refl (refl, error-Same h g s)
          (λ fits.
            take-Same h g (header / 2 ^ 14) num continue respects s (omega arith) (ground arith)))

-- Two handlers that hold the same bytes, in whatever pieces these arrived, return the same packet, or NULL,
-- after as many rounds, and again hold the same bytes, where every allocation of a packet succeeds.
pub get_next_wireguard_packet-Same :
    (capacity rounds : ℕ) (h g : TcpPacketHandler)
    → Same h g
    → SameOutcome
        (get_next_wireguard_packet capacity (replicate rounds true) h)
        (get_next_wireguard_packet capacity (replicate rounds true) g)
unfolding get_next_wireguard_packet
get_next_wireguard_packet-Same capacity zero h g s = s
get_next_wireguard_packet-Same capacity (suc n) h g s =
    let continue = get_next_wireguard_packet capacity (replicate n true) in
    if-related SameOutcome (ltb h.rqueue_bytes 2) (ltb g.rqueue_bytes 2)
      (ap (λ n. ltb n 2) (Same-count h g s)) (refl, s)
      (λ enough.
        let long : 2 ≤ h.rqueue_bytes = ground arith in
        let header : read_packet_header g.rqueue ≡ read_packet_header h.rqueue =
          read_packet_header_lem g.rqueue (omega (arith, long, s.right.counted, Same-count h g s))
            s.right.none_empty
          ∙ ap (λ l. read_be 0 (take 2 l)) (sym s.bytes)
          ∙ sym (
              read_packet_header_lem h.rqueue (omega (arith, long, s.left.counted))
                s.left.none_empty) in
        subst
          (λ k.
            SameOutcome (round capacity true h (read_packet_header h.rqueue) continue)
              (round capacity true g k continue))
          (sym header)
          (round-Same capacity h g (read_packet_header h.rqueue) continue
            (get_next_wireguard_packet-Same capacity n) s))
