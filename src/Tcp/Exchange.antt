-- ===== src/Tcp/Exchange.antt =====
-- Segments between two hosts: what tcp_tx sends on one, as tcp_rx_packet of the other finds it.
pub mod Wire
pub mod Handshake
pub mod Place
pub mod Transfer
pub mod Session
use lpc17xx_network.Base.{ℕ, ◌+◌, ◌*◌, List, ◌++◌, take}
use lpc17xx_network.Base.Run.{Run, ok, fault, halted}
use lpc17xx_network.Base.Wire.{bytes_of_words}
use lpc17xx_network.ByteSwap.{swap_endian16}
use lpc17xx_network.Packet.{Packet, ProtocolType}
use lpc17xx_network.Tcp.{TcpTx}
use lpc17xx_network.Tcp.Transmit.{tcp_words, sent_header}
use lpc17xx_network.Tcp.Receive.{Segment, Rx}

-- The bytes that tcp_tx hands to ip4_xmit_packet.
abbrev pub sent_bytes : TcpTx → List ℕ
sent_bytes tx = bytes_of_words (tcp_words (sent_header tx)) ++ take tx.payload_len tx.payload

-- The segment that arrives from the address `src`, with `c` in its checksum field, and without the
-- padding that the controller puts behind a short frame.
abbrev pub arrive : ℕ → ℕ → TcpTx → Segment
arrive c src tx = record {
  header = record tx.header { checksum = c };
  src_ip = src;
  body = take tx.payload_len tx.payload;
  data_len = tx.payload_len;
}

-- A segment with other bytes behind its header than were sent, such as the padding of its frame.
abbrev pub with_bytes : List ℕ → ℕ → Segment → Segment
with_bytes rest n s = record s { body = rest; data_len = n }

-- The checksum of a sent segment, as the receiver swaps it.
abbrev pub sent_checksum : TcpTx → ℕ
sent_checksum tx = swap_endian16 (sent_header tx).checksum
