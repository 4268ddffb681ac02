-- ===== src/Tests/Segments.antt =====
-- The connections of tcp.c at concrete inputs.
use lpc17xx_network.Base.{[], ◌∷◌, true, false}
use lpc17xx_network.Cbuf.{CircularBuf}
use lpc17xx_network.Tcp.{Tcb, TcpState, established, zero_header}
use lpc17xx_network.Tcp.Receive.{Segment, tcp_rx}
use lpc17xx_network.Tcp.Receive.Machine.{Outcome, tcp_rx-Outcome}

abbrev buffer : CircularBuf
buffer = record { buffer = 1 ∷ 2 ∷ 0 ∷ 0 ∷ []; head = 2; tail = 0; buf_sz = 4; free_space = 2 }

-- A connection of port 80 with port 4000 of another host.
abbrev connection : TcpState → Tcb
connection st = record {
  self = 300;
  cur_seq_n = 1024;
  cur_ack_n = 50;
  unacked_byte_count = 0;
  rx_buf = buffer;
  state = st;
  timeout = 0;
  src_port = 80;
  dst_port = 4000;
  host_window_sz = 100;
  dst_ip = 0xC0A80007;
  decrement_timeout = false;
  timed_out = false;
}

-- A segment of two bytes for it.
abbrev incoming : Segment
incoming = record {
  header = record zero_header {
    source_port = 4000;
    dest_port = 80;
    ack = true;
    seq_n = 50;
    ack_n = 1024;
  };
  src_ip = 0xC0A80007;
  body = 7 ∷ 8 ∷ 9 ∷ [];
  data_len = 2;
}

tcp_rx-Outcome_example :
    Outcome (connection established ∷ []) incoming (tcp_rx (connection established ∷ []) incoming)
tcp_rx-Outcome_example = tcp_rx-Outcome (connection established ∷ []) incoming
