-- ===== src/Tcp/Receive.antt =====
-- tcp_rx_packet: what a segment does to the connections.
pub mod Step
pub mod Machine
use lpc17xx_network.Base.{
  ℕ, zero, suc, ◌+◌, ◌*◌, ◌^◌, List, [], ◌∷◌, ◌++◌, Bool, true, false, not, ◌&&◌, ◌||◌, Option,
  none, some, ltb, ◌==◌, if◌then◌else◌, drop, set, get_elem?, add32, sub32, is_empty,
}
use lpc17xx_network.Base.Run.{Run, ok, fault, halted}
use lpc17xx_network.Cbuf.{circular_buf_push}
use lpc17xx_network.Effect.{WaitQueue, tcp_waitq}
use lpc17xx_network.Tcp.{
  TcpHeader, TcpState, closed, listen, syn_sent, syn_received, established, close_wait, last_ack,
  fin_wait1, fin_wait2, closing, time_wait, Tcb, TcpTx, tcp_tx_call, zero_header, tcp_timeout,
  tcp_header_prepopulate, ack_header,
}

-- A received segment after its header is read and swapped: where it came from, the memory behind
-- the header, and the length that is left.
pub record Segment : Type 0 where
  pub header : TcpHeader
  pub src_ip : ℕ
  pub body : List ℕ
  pub data_len : ℕ

-- `list_for_each` with a test and a `break`: the place of the first element that passes.
unfoldable pub find_index : (Tcb → Bool) → List Tcb → Option ℕ
find_index p [] = none
find_index p (t ∷ ts) =
    let rest = find_index p ts in
    if p t then some 0 else elim rest [ none ↦ none | some i ↦ some (suc i) ]

-- The connection that a segment belongs to.
unfoldable pub matches : Segment → Tcb → Bool
matches s t =
    (s.header.dest_port == t.src_port)
    && (s.header.source_port == t.dst_port)
    && (t.dst_ip == s.src_ip)

abbrev pub is_listen : TcpState → Bool
is_listen listen = true
is_listen _ = false

-- A listening connection on the segment's port.
unfoldable pub accepts : Segment → Tcb → Bool
accepts s t = is_listen t.state && (s.header.dest_port == t.src_port)

-- The two searches of tcp_rx_packet.
unfoldable pub find_tcb : Segment → List Tcb → Option ℕ
find_tcb s ts = elim (find_index (matches s) ts) [
  | some i ↦ some i
  | none ↦ find_index (accepts s) ts
]

-- The answer to a segment of no connection: nothing to a reset, else a reset.
unfoldable pub refuse : Segment → List TcpTx
refuse s =
    let len = if s.header.syn then add32 s.data_len 1 else s.data_len in
    let reset = record zero_header {
      rst = true;
      data_offset = 5;
      dest_port = s.header.source_port;
      source_port = s.header.dest_port;
    } in
    let response =
      (if s.header.ack
        then record reset { seq_n = s.header.ack_n }
        else record reset { ack_n = add32 s.header.seq_n len; ack = true }) in
    if s.header.rst then [] else tcp_tx_call response s.src_ip ∷ []

-- What a case of the switch leaves: the connection, whether an acknowledgement is due, and what
-- it sent; or the connection was given back, and the function returned.
pub data Switched : Type 0 where
  stays : Tcb → Bool → List TcpTx → Switched
  freed : Switched

unfoldable pub on_syn_sent : Tcb → Segment → Switched
on_syn_sent t s =
    let h = s.header in
    let accepted = record t {
      cur_seq_n = add32 t.cur_seq_n 1;
      cur_ack_n = add32 h.seq_n 1;
      host_window_sz = h.window_sz;
    } in
    if h.syn && h.ack
    then stays (record accepted { state = established }) false
        (tcp_tx_call (ack_header accepted) accepted.dst_ip ∷ [])
    else stays (record t { state = closed }) false []

unfoldable pub on_listen : Tcb → Segment → Switched
on_listen t s =
    let h = s.header in
    if h.syn
    then stays
        (record t {
          dst_ip = s.src_ip;
          cur_ack_n = add32 h.seq_n 1;
          dst_port = h.source_port;
          state = syn_received;
        })
        false []
    else stays t false []

unfoldable pub on_syn_received : Tcb → Segment → Switched
on_syn_received t s =
    if s.header.ack
    then stays (record t { cur_seq_n = s.header.ack_n; state = established }) false []
    else stays t false []

-- `int no_acked_bytes = incoming->ack_n - cur_seq_n`, as its bit pattern.
unfoldable pub acked_bytes : Tcb → TcpHeader → ℕ
acked_bytes t h = if h.ack then sub32 h.ack_n t.cur_seq_n else 0

-- The acknowledgement of an established connection: `no_acked_bytes > 0` in int.
unfoldable pub take_ack : Tcb → TcpHeader → Tcb
take_ack t h =
    let n = acked_bytes t h in
    if h.ack
    then record t {
      unacked_byte_count =
          (if (ltb 0 n) && (ltb n (2 ^ 31))
            then sub32 t.unacked_byte_count n
            else t.unacked_byte_count);
      cur_seq_n = h.ack_n;
    }
    else t

unfoldable pub take_fin : Tcb → TcpHeader → Tcb
take_fin t h = if h.fin then record t { state = close_wait; cur_ack_n = add32 t.cur_ack_n 1 } else t

unfoldable pub take_data : Tcb → Segment → Tcb
take_data t s = if s.data_len == 0 then t else record t {
  rx_buf = circular_buf_push t.rx_buf s.body s.data_len;
  cur_ack_n = add32 t.cur_ack_n s.data_len;
}

unfoldable pub on_established : Tcb → Segment → Switched
on_established t s =
    let h = s.header in
    let send_ack =
      h.fin || not (s.data_len == 0) || ((s.data_len == 0) && (acked_bytes t h == 0)) in
    stays (take_data (take_fin (take_ack t h) h) s) send_ack []

-- `state = TIME_WAIT` with its timer.
abbrev pub start_time_wait : Tcb → Tcb
start_time_wait t = record t { state = time_wait; timeout = tcp_timeout; decrement_timeout = true }

-- `cur_ack_n == ack_n;` is a comparison in the source, and changes nothing.
unfoldable pub on_fin_wait2 : Tcb → Segment → Switched
on_fin_wait2 t s =
    if s.header.fin && s.header.ack then stays (start_time_wait t) true [] else stays t false []

-- The case falls through to FIN_WAIT2.
unfoldable pub on_fin_wait1 : Tcb → Segment → Switched
on_fin_wait1 t s =
    let h = s.header in
    let acked = h.ack && (h.ack_n == t.cur_seq_n) in
    if h.fin && acked
    then stays (start_time_wait (record t { cur_ack_n = add32 h.seq_n 1 })) true []
    else if acked
    then stays (record t { cur_ack_n = h.seq_n; state = fin_wait2 }) false []
    else if h.fin
    then stays (record t { cur_ack_n = add32 t.cur_ack_n 1; state = closing }) true []
    else on_fin_wait2 t s

-- The case falls through to FIN_WAIT1.
unfoldable pub on_close_wait : Tcb → Segment → Switched
on_close_wait t s =
    if s.header.ack && (s.header.ack_n == add32 t.cur_ack_n 1) then freed else on_fin_wait1 t s

-- `cur_ack_n = incoming->ack` stores the flag.
unfoldable pub on_closing : Tcb → Segment → Switched
on_closing t s =
    stays (start_time_wait (if s.header.ack then record t { cur_ack_n = 1 } else t)) false []

-- The switch on the state; states without a case change nothing.
unfoldable pub switch : TcpState → Tcb → Segment → Switched
switch syn_sent t s = on_syn_sent t s
switch listen t s = on_listen t s
switch syn_received t s = on_syn_received t s
switch established t s = on_established t s
switch close_wait t s = on_close_wait t s
switch fin_wait1 t s = on_fin_wait1 t s
switch fin_wait2 t s = on_fin_wait2 t s
switch closing t s = on_closing t s
switch closed t s = stays t false []
switch last_ack t s = stays t false []
switch time_wait t s = stays t false []

-- `decrement_timeout = 0; timed_out = 0; timeout = 0`.
abbrev pub stop_timer : Tcb → Tcb
stop_timer t = record t { decrement_timeout = false; timed_out = false; timeout = 0 }

-- The trap before the switch: interrupts off and an endless loop.
unfoldable pub guarded : TcpState → Tcb → Segment → Run Switched
guarded close_wait t s = halted
guarded state t s = ok (switch state t s)

-- What is left when tcp_rx_packet returns: the connections, the segments sent, the queues woken.
pub record Rx : Type 0 where
  pub tcbs : List Tcb
  pub sent : List TcpTx
  pub woken : List WaitQueue

unfoldable pub delete : List Tcb → ℕ → List Tcb
delete [] i = []
delete (t ∷ ts) zero = ts
delete (t ∷ ts) (suc i) = t ∷ delete ts i

-- The end of the function: the acknowledgement that is due, and the wake-up.
unfoldable pub finish : List Tcb → ℕ → Segment → Switched → Rx
finish ts i s (stays t send_ack sent) = record {
  tcbs = set ts i t;
  sent = sent ++ (if send_ack then tcp_tx_call (ack_header t) s.src_ip ∷ [] else []);
  woken = tcp_waitq ∷ [];
}
finish ts i s freed = record { tcbs = delete ts i; sent = []; woken = [] }

-- The segment for the connection at place `i`.
unfoldable pub deliver : List Tcb → ℕ → Segment → Option Tcb → Run Rx
deliver ts i s none = fault
deliver ts i s (some t) = elim (guarded t.state (stop_timer t) s) [
  | ok switched ↦ ok (finish ts i s switched)
  | fault ↦ fault
  | halted ↦ halted
]

-- tcp_rx_packet from the search on.
unfoldable pub tcp_rx : List Tcb → Segment → Run Rx
tcp_rx ts s = elim (find_tcb s ts) [
  | none ↦ ok (record { tcbs = ts; sent = refuse s; woken = [] })
  | some i ↦ deliver ts i s (get_elem? ts i)
]
