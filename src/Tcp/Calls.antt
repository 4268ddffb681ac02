-- ===== src/Tcp/Calls.antt =====
-- The calls that tcp.c offers to a program: connect, listen, send, receive and close. A call that
-- waits is given as its parts before and after each wait, with the condition that it waits for.
pub mod Data
pub mod Stream
use lpc17xx_network.Base.{
  ℕ, zero, suc, ◌+◌, ◌-◌, List, [], ◌∷◌, ◌++◌, Bool, true, false, not, ◌||◌, Option, none, some,
  ltb, ◌==◌, if◌then◌else◌, add32, sub32,
}
use lpc17xx_network.Cbuf.{CircularBuf, circular_buf_init, circular_buf_cur_usage, circular_buf_pop}
use lpc17xx_network.Tcp.{
  TcpHeader, TcpState, closed, listen, syn_sent, syn_received, established, close_wait, last_ack,
  fin_wait1, fin_wait2, closing, time_wait, Tcb, TcpTx, tcp_tx_call, zero_header, tcp_timeout,
  tcp_buf_sz, tcp_header_prepopulate, ack_header,
}

-- `memset(new_tcb, 0, ...)` and `circular_buf_init`, at the address and over the block that
-- get_mem returned.
abbrev pub new_tcb : ℕ → List ℕ → Tcb
new_tcb self block = record {
  self = self;
  cur_seq_n = 1024;
  cur_ack_n = 0;
  unacked_byte_count = 0;
  rx_buf = circular_buf_init block tcp_buf_sz;
  state = closed;
  timeout = 0;
  src_port = 0;
  dst_port = 0;
  host_window_sz = 0;
  dst_ip = 0;
  decrement_timeout = false;
  timed_out = false;
}

-- tcp_connect up to its wait: the new connection goes to the head of the list, and a SYN is sent.
unfoldable pub tcp_connect_start : ℕ → List ℕ → ℕ → ℕ → List Tcb → List Tcb × TcpTx
tcp_connect_start self block port ip tcbs =
    let t = record (new_tcb self block) {
      state = syn_sent;
      timeout = tcp_timeout;
      decrement_timeout = true;
      src_port = 65355;
      dst_port = port;
      dst_ip = ip;
    } in
    (t ∷ tcbs, tcp_tx_call (record (tcp_header_prepopulate t zero_header) { syn = true }) ip)

-- What it waits for.
unfoldable pub tcp_connect_waits : TcpState → Bool
tcp_connect_waits syn_sent = true
tcp_connect_waits _ = false

-- The end of tcp_connect: whether the connection is returned, or unlinked and given back.
unfoldable pub tcp_connect_keeps : TcpState → Bool
tcp_connect_keeps established = true
tcp_connect_keeps _ = false

-- `list_del` of the connection at the address `self`.
unfoldable pub unlisted : ℕ → List Tcb → List Tcb
unlisted self [] = []
unlisted self (t ∷ ts) = let rest = unlisted self ts in if t.self == self then ts else t ∷ rest

-- tcp_connect after its wait: what it returns, which is none for NULL, and the connections.
unfoldable pub tcp_connect_end : Tcb → List Tcb → Option Tcb × List Tcb
unfolding tcp_connect_keeps unlisted
tcp_connect_end new_tcb tcbs = elim (tcp_connect_keeps new_tcb.state) [
  | true ↦ (some new_tcb, tcbs)
  | false ↦ (none, unlisted new_tcb.self tcbs)
]

-- tcp_listen up to its first wait.
unfoldable pub tcp_listen_start : ℕ → List ℕ → ℕ → List Tcb → List Tcb
tcp_listen_start self block port tcbs =
    record (new_tcb self block) { state = listen; src_port = port } ∷ tcbs

-- tcp_listen between its waits: the answer to the SYN.
unfoldable pub tcp_listen_answer : Tcb → TcpTx
tcp_listen_answer t = tcp_tx_call (record (ack_header t) { syn = true }) t.dst_ip

-- tcp_tx_data up to its wait for `unacked_byte_count` to be 0.
unfoldable pub tcp_tx_data_start : Tcb → List ℕ → ℕ → Tcb × TcpTx
tcp_tx_data_start connection payload len = (
  record connection { unacked_byte_count = add32 connection.unacked_byte_count len },
  record {
    header = ack_header connection;
    dest_ip = connection.dst_ip;
    payload = payload;
    payload_len = len;
  },
)

abbrev pub is_close_wait : TcpState → Bool
is_close_wait close_wait = true
is_close_wait _ = false

-- The condition that a round of tcp_rx_data waits for.
unfoldable pub tcp_rx_data_ready : Tcb → Bool
tcp_rx_data_ready connection =
    not (circular_buf_cur_usage connection.rx_buf == 0) || is_close_wait connection.state

-- One round of tcp_rx_data after its wait: -1, which is none, or the bytes taken and what is left
-- to take.
unfoldable pub tcp_rx_data_round : Tcb → ℕ → Option (List ℕ × ℕ × Tcb)
tcp_rx_data_round connection len =
    let bytes_in_buf = circular_buf_cur_usage connection.rx_buf in
    let no_bytes_to_copy = if ltb len bytes_in_buf then len else bytes_in_buf in
    let (dst, buf) = circular_buf_pop connection.rx_buf no_bytes_to_copy in
    if is_close_wait connection.state
    then none
    else some (dst, sub32 len no_bytes_to_copy, record connection { rx_buf = buf })

-- tcp_close, by the state: the segment that is sent, if any, and the connection.
unfoldable pub tcp_close_in : TcpState → Tcb → List TcpTx × Tcb
tcp_close_in close_wait c = (
  tcp_tx_call (record (ack_header c) { fin = true }) c.dst_ip ∷ [],
  record c { state = last_ack },
)
tcp_close_in established c = (
  tcp_tx_call (record (ack_header c) { fin = true }) c.dst_ip ∷ [],
  record c { cur_seq_n = add32 c.cur_seq_n 1; state = fin_wait1 },
)
tcp_close_in _ c = ([], c)

unfoldable pub tcp_close : Tcb → List TcpTx × Tcb
unfolding tcp_close_in
tcp_close connection = tcp_close_in connection.state connection
