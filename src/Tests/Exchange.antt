-- ===== src/Tests/Exchange.antt =====
-- Segments between two hosts at concrete inputs: the hosts 1 and 2, and the port 80 of host 2.
use lpc17xx_network.Base.{
  List, replicate, add32, ℕ, ◌≡◌, refl, arith, [], ◌∷◌, Bool, true, false, some, none,
}
use lpc17xx_network.Base.Run.{ok, halted}
use lpc17xx_network.Cbuf.{
  CircularBuf, circular_buf_push, circular_buf_pop, circular_buf_cur_usage, push_loop, pop_loop,
}
use lpc17xx_network.Cbuf.Inv.{IsValid, bytes}
use lpc17xx_network.Effect.{tcp_waitq}
use lpc17xx_network.Tcp.{
  Tcb, TcpTx, tcp_tx_call, ack_header, syn_received, established, zero_header,
}
use lpc17xx_network.Tcp.Receive.{tcp_rx, find_index, matches, Segment}
use lpc17xx_network.Tcp.Calls.{
  tcp_connect_start, tcp_connect_waits, tcp_connect_keeps, tcp_listen_start, tcp_listen_answer,
  tcp_tx_data_start, tcp_rx_data_round,
}
use lpc17xx_network.Tcp.Calls.{is_close_wait}
use lpc17xx_network.Tcp.Calls.Stream.{Brings, Receives, tcp_rx_data-received}
use lpc17xx_network.Cbuf.Push.{circular_buf_push-append}
use lpc17xx_network.Cbuf.Inv.{circular_buf_cur_usage-length}
use lpc17xx_network.Base.{◌≤◌, ap, length, length-append}
use lpc17xx_network.Tcp.Exchange.{arrive, with_bytes}
use lpc17xx_network.Tcp.Exchange.Handshake.{ArePaired, tcp_connect-tcp_listen}
use lpc17xx_network.Tcp.Exchange.Transfer.{
  tcp_tx_data-tcp_rx_padded, acked, receiver, rx_data, rx_ack,
}
use lpc17xx_network.Tcp.Exchange.Place.{ComesFirst, ComesFirst-nil, tcp_rx-tcp_rx_halted}
use lpc17xx_network.Tcp.Exchange.Session.{
  Session, write, read, Reach, here, next, InOrder, Reach-InOrder,
}

abbrev empty_buffer : CircularBuf
empty_buffer = record { buffer = 0 ∷ 0 ∷ 0 ∷ []; head = 0; tail = 0; buf_sz = 3; free_space = 3 }

empty_buffer-IsValid : IsValid empty_buffer
empty_buffer-IsValid = record {
  sized = refl;
  nonempty = omega arith;
  small = omega arith;
  free_in = omega arith;
  tail_in = omega arith;
  head_at = refl;
}

-- The end at `self` of an open connection.
abbrev pub end : ℕ → ℕ → ℕ → ℕ → Tcb
end self from to ip = record {
  self = self;
  cur_seq_n = 1025;
  cur_ack_n = 1025;
  unacked_byte_count = 0;
  rx_buf = empty_buffer;
  state = established;
  timeout = 0;
  src_port = from;
  dst_port = to;
  host_window_sz = 127;
  dst_ip = ip;
  decrement_timeout = false;
  timed_out = false;
}

abbrev pub on_host_1 : Tcb
on_host_1 = end 300 65355 80 2

abbrev pub on_host_2 : Tcb
on_host_2 = end 400 80 65355 1

pub ends-ArePaired : ArePaired 1 2 on_host_1 on_host_2
ends-ArePaired = record {
  open_t = refl;
  open_u = refl;
  port_tu = refl;
  port_ut = refl;
  ip_t = refl;
  ip_u = refl;
  seq_tu = refl;
  seq_ut = refl;
  seq_t_lt = omega arith;
  seq_u_lt = omega arith;
}

-- Six bytes that the controller puts behind the acknowledgement.
abbrev pad : List ℕ
pad = 0 ∷ 0 ∷ 0 ∷ 0 ∷ 0 ∷ 0 ∷ []

abbrev roomy : CircularBuf
roomy = record { buffer = replicate 8 0; head = 0; tail = 0; buf_sz = 8; free_space = 8 }

roomy-IsValid : IsValid roomy
roomy-IsValid = record {
  sized = refl;
  nonempty = omega arith;
  small = omega arith;
  free_in = omega arith;
  tail_in = omega arith;
  head_at = refl;
}

abbrev roomy_1 : Tcb
roomy_1 = record on_host_1 { rx_buf = roomy }

roomy-ArePaired : ArePaired 1 2 roomy_1 on_host_2
roomy-ArePaired = record {
  open_t = refl;
  open_u = refl;
  port_tu = refl;
  port_ut = refl;
  ip_t = refl;
  ip_u = refl;
  seq_tu = refl;
  seq_ut = refl;
  seq_t_lt = omega arith;
  seq_u_lt = omega arith;
}

-- Another connection, which stands before it in the list.
abbrev other : Tcb
other = end 500 22 65355 1

other-ComesFirst : ComesFirst on_host_2 (other ∷ [])
unfolding find_index matches
other-ComesFirst s m = ground (arith, m)

abbrev seven : TcpTx
seven = (tcp_tx_data_start roomy_1 (7 ∷ 8 ∷ []) 2).1

tcp_tx_data-tcp_rx_padded_example :
    (t' : Tcb) × (u' : Tcb) × (reply : TcpTx) × (answer : TcpTx) × (tcp_rx
        (other ∷ on_host_2 ∷ [])
        (arrive 0 1 seven)
      ≡ ok (record { tcbs = other ∷ u' ∷ []; sent = reply ∷ []; woken = tcp_waitq ∷ [] }))
    × (tcp_rx
          ((tcp_tx_data_start roomy_1 (7 ∷ 8 ∷ []) 2).0 ∷ [])
          (with_bytes pad 6 (arrive 0 2 reply))
        ≡ ok (record { tcbs = t' ∷ []; sent = answer ∷ []; woken = tcp_waitq ∷ [] }))
    × IsValid u'.rx_buf
    × (bytes u'.rx_buf ≡ 7 ∷ 8 ∷ [])
    × (t'.unacked_byte_count ≡ 0)
    × IsValid t'.rx_buf
    × (bytes t'.rx_buf ≡ pad)
    × (t'.cur_ack_n ≡ add32 u'.cur_seq_n 6)
    × (answer.header.ack_n ≡ t'.cur_ack_n)
    × ArePaired 1 2 (record t' { cur_ack_n = u'.cur_seq_n }) u'
tcp_tx_data-tcp_rx_padded_example =
    tcp_tx_data-tcp_rx_padded 1 2 0 0 2 roomy_1 on_host_2 (7 ∷ 8 ∷ []) pad [] [] (other ∷ []) []
      (ComesFirst-nil roomy_1) other-ComesFirst roomy-ArePaired roomy-IsValid empty_buffer-IsValid
      (omega arith) (omega arith) (omega arith) refl (omega arith) (omega arith)

-- The FIN of host 1, which it sends twice.
abbrev leaving : Segment
leaving = record {
  header = record zero_header {
    source_port = 65355;
    dest_port = 80;
    seq_n = 1025;
    ack_n = 1025;
    data_offset = 5;
    fin = true;
    ack = true;
  };
  src_ip = 1;
  body = [];
  data_len = 0;
}

takes_leaving : matches leaving on_host_2 ≡ true
unfolding matches
takes_leaving = refl

tcp_rx-tcp_rx_halted_example :
    (u' : Tcb) × (tcp_rx (other ∷ on_host_2 ∷ []) leaving
      ≡ ok (record {
        tcbs = other ∷ u' ∷ [];
        sent = tcp_tx_call (ack_header u') 1 ∷ [];
        woken = tcp_waitq ∷ [];
      }))
    × (tcp_rx (other ∷ u' ∷ []) leaving ≡ halted)
tcp_rx-tcp_rx_halted_example =
    tcp_rx-tcp_rx_halted leaving leaving (other ∷ []) on_host_2 [] other-ComesFirst refl
      takes_leaving refl takes_leaving

abbrev opening : TcpTx
opening = (tcp_connect_start 300 (0 ∷ []) 80 2 []).1

nobody_else : (f : Tcb → Bool) → find_index f [] ≡ none
unfolding find_index
nobody_else f = refl

tcp_connect-tcp_listen_example :
    (half : Tcb) × (t : Tcb) × (u : Tcb) × (ack : TcpTx) × (tcp_rx
        (tcp_listen_start 400 (0 ∷ []) 80 [])
        (arrive 0 1 opening)
      ≡ ok (record { tcbs = half ∷ []; sent = []; woken = tcp_waitq ∷ [] }))
    × (half.state ≡ syn_received)
    × (tcp_rx (tcp_connect_start 300 (0 ∷ []) 80 2 []).0 (arrive 0 2 (tcp_listen_answer half))
        ≡ ok (record { tcbs = t ∷ []; sent = ack ∷ []; woken = tcp_waitq ∷ [] }))
    × (tcp_connect_waits t.state ≡ false)
    × (tcp_connect_keeps t.state ≡ true)
    × (tcp_rx (half ∷ []) (arrive 0 1 ack)
        ≡ ok (record { tcbs = u ∷ []; sent = []; woken = tcp_waitq ∷ [] }))
    × ArePaired 1 2 t u
tcp_connect-tcp_listen_example =
    tcp_connect-tcp_listen 1 2 80 0 0 0 300 400 (0 ∷ []) (0 ∷ []) [] [] (nobody_else _)

-- A segment of two bytes, as it arrives at host 2.
abbrev segment : TcpTx
segment = record {
  header = record zero_header {
    source_port = 65355;
    dest_port = 80;
    seq_n = 1025;
    data_offset = 5;
    ack = true;
  };
  dest_ip = 2;
  payload = 7 ∷ 8 ∷ [];
  payload_len = 2;
}

-- A program writes two bytes, and the other then reads one of them.
abbrev idle : Session
idle = record { writer = on_host_1; reader = on_host_2; written = []; taken = [] }

abbrev wrote : Session
wrote = record {
  writer = acked on_host_1 2;
  reader = receiver on_host_1 on_host_2 (7 ∷ 8 ∷ []) 2;
  written = 7 ∷ 8 ∷ [];
  taken = [];
}

abbrev one_left : CircularBuf
one_left = record { buffer = 7 ∷ 8 ∷ 0 ∷ []; head = 2; tail = 1; buf_sz = 3; free_space = 2 }

abbrev was_read : Session
was_read = record {
  writer = wrote.writer;
  reader = record wrote.reader { rx_buf = one_left };
  written = 7 ∷ 8 ∷ [];
  taken = 7 ∷ [];
}

one_taken :
    tcp_rx_data_round wrote.reader 1 ≡ some (7 ∷ [], 0, record wrote.reader { rx_buf = one_left })
unfolding tcp_rx_data_round circular_buf_push circular_buf_pop circular_buf_cur_usage push_loop
    pop_loop
one_taken = refl

idle-InOrder : InOrder 1 2 [] [] (other ∷ []) [] idle
idle-InOrder = record {
  first_writer = ComesFirst-nil on_host_1;
  first_reader = other-ComesFirst;
  paired = ends-ArePaired;
  valid = empty_buffer-IsValid;
  settled = refl;
  in_order = refl;
}

written_and_read : Reach 1 2 [] [] (other ∷ []) [] idle was_read
unfolding tcp_tx_data_start
written_and_read =
    let to_write =
      write 0 0 2 (7 ∷ 8 ∷ []) _ _ _ wrote.writer wrote.reader (omega arith) (omega arith)
        (omega arith)
        (rx_data 1 2 on_host_1 on_host_2 (7 ∷ 8 ∷ []) 2 0 (other ∷ []) [] other-ComesFirst
          ends-ArePaired (omega arith))
        refl refl
        (rx_ack 1 2 on_host_1 on_host_2 (7 ∷ 8 ∷ []) 2 0 [] [] (ComesFirst-nil on_host_1)
          ends-ArePaired (omega arith) (omega arith) (omega arith))
        refl in
    next (next here to_write)
      (read 1 0 (7 ∷ []) (record wrote.reader { rx_buf = one_left }) (omega arith) one_taken)

Reach-InOrder_example : InOrder 1 2 [] [] (other ∷ []) [] was_read
Reach-InOrder_example = Reach-InOrder 1 2 [] [] (other ∷ []) [] written_and_read idle-InOrder

-- While a call of tcp_rx_data waits, a byte comes in.
abbrev one_byte : ℕ → Tcb → Tcb
one_byte k t = record t { rx_buf = circular_buf_push t.rx_buf (7 ∷ []) 1 }

one_byte-Brings :
    (t : Tcb)
    → IsValid t.rx_buf
    → is_close_wait t.state ≡ false
    → length (bytes t.rx_buf) ≡ 0
    → Brings (7 ∷ []) t (one_byte 0 t)
one_byte-Brings t v alive empty =
    let used = circular_buf_cur_usage-length v in
    let room : 1 ≤ t.rx_buf.free_space =
      unfold circular_buf_cur_usage in omega (arith, v.free_in, v.nonempty, v.small, used, empty) in
    let (valid, held, free) = circular_buf_push-append (7 ∷ []) 1 v room (omega arith) in
    record {
      valid = valid;
      alive = alive;
      ready = λ z. omega (arith, ap length held, length-append (bytes t.rx_buf) (7 ∷ []), z);
      behind = held;
    }

tcp_rx_data-received_example : Receives one_byte (λ (k : ℕ). 7 ∷ []) 2 on_host_2 2
tcp_rx_data-received_example =
    tcp_rx_data-received 1 2 one_byte (λ (k : ℕ). 7 ∷ []) on_host_2
      (λ k u v alive empty. one_byte-Brings u v alive empty)
      (one_byte-Brings on_host_2 empty_buffer-IsValid refl refl) empty_buffer-IsValid (omega arith)
      (omega arith)
