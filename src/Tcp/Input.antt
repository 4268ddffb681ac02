-- ===== src/Tcp/Input.antt =====
-- tcp_rx_packet of tcp.c as the handler of a packet.
use lpc17xx_network.Base.{◌*◌, List, ◌++◌, drop, sub32}
use lpc17xx_network.Base.Run.{Run, ok, fault, halted}
use lpc17xx_network.Base.Wire.{bytes_of_words}
use lpc17xx_network.Packet.{Packet, ProtocolType}
use lpc17xx_network.Tcp.{TcpHeader, Tcb, tcp_swap_endian}
use lpc17xx_network.Tcp.Transmit.{read_tcp, tcp_words}
use lpc17xx_network.Tcp.Receive.{Segment, Rx, tcp_rx}

-- The header is swapped in place, and the pointer and the length move past it and its options.
unfoldable pub segment_of : Packet → TcpHeader → Segment
segment_of pkt incoming = record {
  header = tcp_swap_endian incoming;
  src_ip = pkt.src_ip;
  body =
      drop (incoming.data_offset * 4)
        (bytes_of_words (tcp_words (tcp_swap_endian incoming)) ++ drop 20 pkt.cur_data);
  data_len = sub32 pkt.cur_data_length (incoming.data_offset * 4);
}

-- The packet is dropped on every path that returns.
abbrev pub handled : Packet → Segment → Run Rx → Run (Packet × Rx)
handled pkt s fault = fault
handled pkt s halted = halted
handled pkt s (ok rx) = ok (
  record pkt { cur_data = s.body; cur_data_length = s.data_len; handler = ProtocolType.drop },
  rx,
)

unfoldable pub tcp_rx_packet : Packet → List Tcb → Run (Packet × Rx)
tcp_rx_packet pkt tcbs = elim (read_tcp pkt.cur_data) [
  | fault ↦ fault
  | halted ↦ halted
  | ok (incoming, rest) ↦ let s = segment_of pkt incoming in handled pkt s (tcp_rx tcbs s)
]
