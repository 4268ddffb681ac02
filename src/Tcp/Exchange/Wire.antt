-- ===== src/Tcp/Exchange/Wire.antt =====
-- From tcp_tx to tcp_rx_packet through the bytes of a segment.
use lpc17xx_network.Base.{
  List, ◌++◌, ℕ, ◌+◌, ◌*◌, ◌^◌, ◌<◌, ◌≡◌, refl, sym, ◌∙◌, ap, ap₂, arith, List, take, drop, sub32,
}
use lpc17xx_network.Base.Run.{ok}
use lpc17xx_network.Base.Wire.{bytes_of_words}
use lpc17xx_network.Checksum.Verify.{checksum-lt}
use lpc17xx_network.Packet.{Packet}
use lpc17xx_network.Effect.{ip4_xmit}
use lpc17xx_network.Ipv4.{ip_proto_tcp}
use lpc17xx_network.Tcp.{TcpHeader, Tcb, TcpTx, tcp_swap_endian}
use lpc17xx_network.Tcp.Transmit.{read_tcp, tcp_words, tcp_compute_checksum, sent_header, tcp_tx}
use lpc17xx_network.Tcp.Transmit.Verify.{IsHeader, tcp_swap_endian-IsHeader, with_checksum}
use lpc17xx_network.Tcp.Transmit.Roundtrip.{read_tcp-tcp_words, tcp_swapped_back}
use lpc17xx_network.Tcp.Receive.{tcp_rx}
use lpc17xx_network.Tcp.Input.{handled, segment_of, tcp_rx_packet}
use lpc17xx_network.Tcp.Exchange.{sent_bytes, arrive, with_bytes, sent_checksum}

sent_header-IsHeader : (tx : TcpTx) → IsHeader tx.header → IsHeader (sent_header tx)
unfolding sent_header tcp_compute_checksum
sent_header-IsHeader tx v =
    with_checksum (tcp_swap_endian tx.header) _ (tcp_swap_endian-IsHeader tx.header v)
      (checksum-lt _)

sent_header_back :
    (tx : TcpTx)
    → IsHeader tx.header
    → tcp_swap_endian (sent_header tx) ≡ record tx.header { checksum = sent_checksum tx }
unfolding sent_header tcp_compute_checksum
sent_header_back tx v = tcp_swapped_back tx.header _ v

rx_of_read :
    (pkt : Packet) (tcbs : List Tcb) (h : TcpHeader) (rest : List ℕ)
    → read_tcp pkt.cur_data ≡ ok (h, rest)
    → tcp_rx_packet pkt tcbs ≡ handled pkt (segment_of pkt h) (tcp_rx tcbs (segment_of pkt h))
unfolding tcp_rx_packet
rx_of_read pkt tcbs h rest e = rw (tcp_rx_packet, e) refl

segment_of-sent :
    (tx : TcpTx) (pkt : Packet) (rest : List ℕ) (n : ℕ)
    → IsHeader tx.header
    → tx.header.data_offset ≡ 5
    → pkt.cur_data ≡ bytes_of_words (tcp_words (sent_header tx)) ++ rest
    → pkt.cur_data_length ≡ 20 + n
    → 20 + n < 2 ^ 32
    → segment_of pkt (sent_header tx) ≡ with_bytes rest n (arrive (sent_checksum tx) pkt.src_ip tx)
unfolding segment_of
segment_of-sent tx pkt rest n v five e f small =
    let off : (sent_header tx).data_offset * 4 ≡ 20 =
      unfold sent_header tcp_compute_checksum tcp_swap_endian in omega arith in
    let body : drop 20 pkt.cur_data ≡ rest = unfold tcp_words in ap (drop 20) e in
    let len : sub32 pkt.cur_data_length 20 ≡ n = omega arith in
    rw (off, sent_header_back tx v) (unfold tcp_words in rw (body, len) refl)

-- A packet that begins with a sent header, whatever follows it.
pub tcp_rx_packet-with_bytes :
    (tx : TcpTx) (pkt : Packet) (tcbs : List Tcb) (rest : List ℕ) (n : ℕ)
    → IsHeader tx.header
    → tx.header.data_offset ≡ 5
    → pkt.cur_data ≡ bytes_of_words (tcp_words (sent_header tx)) ++ rest
    → pkt.cur_data_length ≡ 20 + n
    → 20 + n < 2 ^ 32
    → let s = with_bytes rest n (arrive (sent_checksum tx) pkt.src_ip tx) in
      tcp_rx_packet pkt tcbs ≡ handled pkt s (tcp_rx tcbs s)
tcp_rx_packet-with_bytes tx pkt tcbs rest n v five e f small =
    rx_of_read pkt tcbs (sent_header tx) rest
      (ap read_tcp e ∙ read_tcp-tcp_words (sent_header tx) rest (sent_header-IsHeader tx v))
    ∙ ap (λ t. handled pkt t (tcp_rx tcbs t)) (segment_of-sent tx pkt rest n v five e f small)

-- A segment without options whose header fields are within their widths, and whose payload is
-- shorter than 2^15 bytes, is handed to the IPv4 layer as bytes that, arriving as a packet, are
-- handled by tcp_rx_packet as the header that was given, with the checksum filled in, and the
-- payload that was sent.
pub tcp_rx_packet-tcp_tx :
    (tx : TcpTx) (pkt : Packet) (tcbs : List Tcb)
    → IsHeader tx.header
    → tx.header.data_offset ≡ 5
    → pkt.cur_data ≡ sent_bytes tx
    → pkt.cur_data_length ≡ 20 + tx.payload_len
    → tx.payload_len < 2 ^ 15
    → let s = arrive (sent_checksum tx) pkt.src_ip tx in
      (tcp_tx tx ≡ ip4_xmit ip_proto_tcp tx.dest_ip pkt.cur_data pkt.cur_data_length)
      × (tcp_rx_packet pkt tcbs ≡ handled pkt s (tcp_rx tcbs s))
unfolding tcp_tx
tcp_rx_packet-tcp_tx tx pkt tcbs v five e f small = (
  ap₂ (ip4_xmit ip_proto_tcp tx.dest_ip) (sym e) (omega arith),
  tcp_rx_packet-with_bytes tx pkt tcbs (take tx.payload_len tx.payload) tx.payload_len v five e f
      (omega arith),
)
