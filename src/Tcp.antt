-- ===== src/Tcp.antt =====
-- tcp.c and tcp.h: the header, the transmission control block, and the segments that are sent.
pub mod Transmit
pub mod Input
pub mod Receive
pub mod Calls
pub mod Tick
pub mod Exchange
pub mod LastAck
pub mod Walk
use lpc17xx_network.Base.{
  ℕ, ◌+◌, ◌*◌, ◌/◌, ◌%◌, ◌^◌, List, [], ◌∷◌, ◌++◌, Bool, true, false, ◌==◌, if◌then◌else◌, length,
  take,
}
use lpc17xx_network.Base.Wire.{
  Read, read_u8, read_u16, read_u32, ◌>>=◌, pure, bytes_of_words, words_of_bytes, low16, high16,
  bit,
}
use lpc17xx_network.ByteSwap.{swap_endian16, swap_endian32}
use lpc17xx_network.Cbuf.{CircularBuf}

-- tcp_header: the one-bit fields are Booleans.
pub record TcpHeader : Type 0 where
  pub source_port : ℕ
  pub dest_port : ℕ
  pub seq_n : ℕ
  pub ack_n : ℕ
  pub reserved_0 : ℕ
  pub data_offset : ℕ
  pub fin : Bool
  pub syn : Bool
  pub rst : Bool
  pub psh : Bool
  pub ack : Bool
  pub urg : Bool
  pub ece : Bool
  pub cwr : Bool
  pub window_sz : ℕ
  pub checksum : ℕ
  pub urg_ptr : ℕ

-- enum tcp_state.
pub data TcpState : Type 0 where
  closed listen syn_sent syn_received established close_wait last_ack : TcpState
  fin_wait1 fin_wait2 closing time_wait : TcpState

-- tcb. `self` is its address; `last_msg`, which is written once and never read, is left out.
pub record Tcb : Type 0 where
  pub self : ℕ
  pub cur_seq_n : ℕ
  pub cur_ack_n : ℕ
  pub unacked_byte_count : ℕ
  pub rx_buf : CircularBuf
  pub state : TcpState
  pub timeout : ℕ
  pub src_port : ℕ
  pub dst_port : ℕ
  pub host_window_sz : ℕ
  pub dst_ip : ℕ
  pub decrement_timeout : Bool
  pub timed_out : Bool

abbrev pub tcp_timeout : ℕ
tcp_timeout = 250

abbrev pub tcp_buf_sz : ℕ
tcp_buf_sz = 127

-- `memset(&header, 0, sizeof(header))`.
abbrev pub zero_header : TcpHeader
zero_header = record {
  source_port = 0;
  dest_port = 0;
  seq_n = 0;
  ack_n = 0;
  reserved_0 = 0;
  data_offset = 0;
  fin = false;
  syn = false;
  rst = false;
  psh = false;
  ack = false;
  urg = false;
  ece = false;
  cwr = false;
  window_sz = 0;
  checksum = 0;
  urg_ptr = 0;
}

-- A call of tcp_tx: the header, the address, and the payload.
pub record TcpTx : Type 0 where
  pub header : TcpHeader
  pub dest_ip : ℕ
  pub payload : List ℕ
  pub payload_len : ℕ

abbrev pub tcp_tx_call : TcpHeader → ℕ → TcpTx
tcp_tx_call header dest_ip = record {
  header = header;
  dest_ip = dest_ip;
  payload = [];
  payload_len = 0;
}

unfoldable pub tcp_swap_endian : TcpHeader → TcpHeader
tcp_swap_endian header = record header {
  source_port = swap_endian16 header.source_port;
  dest_port = swap_endian16 header.dest_port;
  seq_n = swap_endian32 header.seq_n;
  ack_n = swap_endian32 header.ack_n;
  window_sz = swap_endian16 header.window_sz;
  checksum = swap_endian16 header.checksum;
  urg_ptr = swap_endian16 header.urg_ptr;
}

-- tcp_header_prepopulate; the window is the free space of the buffer, stored in 16 bits.
unfoldable pub tcp_header_prepopulate : Tcb → TcpHeader → TcpHeader
tcp_header_prepopulate t header = record header {
  source_port = t.src_port;
  dest_port = t.dst_port;
  seq_n = t.cur_seq_n;
  ack_n = t.cur_ack_n;
  data_offset = 5;
  window_sz = t.rx_buf.free_space % 2 ^ 16;
}

-- A bare acknowledgement of what the connection has received.
abbrev pub ack_header : Tcb → TcpHeader
ack_header t = record (tcp_header_prepopulate t zero_header) { ack = true }
