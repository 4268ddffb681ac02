-- ===== src/Stack/Sending.antt =====
-- A TCP segment on its way out: through the queues of ipv4.c and ethernet.c to a frame.
use lpc17xx_network.Base.{
  ℕ, ◌+◌, ◌^◌, ◌<◌, ◌≤◌, ◌≡◌, ◌≢◌, sym, ◌∙◌, ap, ap₂, arith, List, [], ◌++◌, length, take,
  length-take, Option, some, append-nil,
}
use lpc17xx_network.Effect.{ip4_xmit}
use lpc17xx_network.Ethernet.{our_ip_address}
use lpc17xx_network.Ipv4.{Ip4Header, ip_proto_tcp, ip4_swap_endian, ip4_get_pkt_dst}
use lpc17xx_network.Ipv4.Header
use lpc17xx_network.Ipv4.Transmit
use lpc17xx_network.Tcp.{TcpTx}
use lpc17xx_network.Tcp.Transmit.{tcp_tx, tcp_words}
use lpc17xx_network.Tcp.Exchange.{sent_bytes}
use lpc17xx_network.Packet.{Packet, ethernet}
use lpc17xx_network.Protocol.{rx_packet_loop}
use lpc17xx_network.Tcp.Transmit.Verify
use lpc17xx_network.Tcp.Receive.{tcp_rx}
use lpc17xx_network.Tcp.Exchange.{arrive, with_bytes, sent_checksum}
use lpc17xx_network.Stack.{Net, protocols}
use lpc17xx_network.Stack.Delivery.{datagram, ip_frame, carried, delivered, rx_packet_loop-segment}
use lpc17xx_network.Stack.Datagrams.{
  ip4_sends, length-datagram, length-ip_frame, ip4_sends-ip4_xmit,
}

-- The header of the datagram that carries a segment.
abbrev pub segment_header : TcpTx → Ip4Header
segment_header tx = Transmit.sent_header ip_proto_tcp tx.dest_ip (20 + tx.payload_len)

pub length-sent_bytes :
    (tx : TcpTx) → tx.payload_len ≤ length tx.payload → length (sent_bytes tx) ≡ 20 + tx.payload_len
unfolding tcp_words
length-sent_bytes tx long = omega (arith, length-take tx.payload_len tx.payload)

-- A segment is handed to the IPv4 layer as a whole.
tcp_tx-sent_bytes :
    (tx : TcpTx)
    → 40 + tx.payload_len < 2 ^ 16
    → tcp_tx tx ≡ ip4_xmit ip_proto_tcp tx.dest_ip (sent_bytes tx) (20 + tx.payload_len)
unfolding tcp_tx
tcp_tx-sent_bytes tx small = ap (ip4_xmit ip_proto_tcp tx.dest_ip (sent_bytes tx)) (omega arith)

pub ip4_sends-tcp_tx :
    (resolve : ℕ → Option (List ℕ)) (ether_addr mac : List ℕ) (tx : TcpTx)
    → resolve (ip4_get_pkt_dst tx.dest_ip) ≡ some mac
    → length mac ≡ 6
    → tx.dest_ip < 2 ^ 32
    → tx.payload_len ≤ length tx.payload
    → 40 + tx.payload_len < 2 ^ 16
    → let h = segment_header tx in
      (ip4_sends resolve ether_addr (tcp_tx tx)
        ≡ some (ip_frame mac ether_addr (datagram h (sent_bytes tx))))
      × Header.IsHeader h
      × (h.ihl ≡ 5)
      × (h.ttl ≢ 0)
      × (h.protocol ≡ ip_proto_tcp)
      × ((ip4_swap_endian h).dst_ip ≡ tx.dest_ip)
      × ((ip4_swap_endian h).src_ip ≡ our_ip_address)
ip4_sends-tcp_tx resolve ether_addr mac tx known six dst long small =
    let n = 20 + tx.payload_len in
    let (out, fields, ihl, ttl, proto, to, from) =
      ip4_sends-ip4_xmit resolve ether_addr mac ip_proto_tcp tx.dest_ip n (sent_bytes tx) known six
        (omega arith) dst (length-sent_bytes tx long) (omega arith) in
    (
      ap (ip4_sends resolve ether_addr) (tcp_tx-sent_bytes tx small) ∙ out,
      fields,
      ihl,
      ttl,
      proto,
      to,
      from,
    )

carried_bare :
    (h : Ip4Header) (tx : TcpTx)
    → (ip4_swap_endian h).src_ip ≡ our_ip_address
    → carried h tx [] ≡ arrive (sent_checksum tx) our_ip_address tx
carried_bare h tx from =
    let all : tx.payload_len + 0 ≡ tx.payload_len = omega arith in
    ap₂ (λ b n. with_bytes b n (arrive (sent_checksum tx) (ip4_swap_endian h).src_ip tx))
      (append-nil (take tx.payload_len tx.payload)) all
    ∙ ap (λ a. arrive (sent_checksum tx) a tx) from

-- A segment for this host's own address, without options, with header fields within their widths
-- and shorter than an IPv4 datagram, that tcp_tx sends through ip4_xmit_packet, ip4_tx_task,
-- ether_tx and ether_tx_task, with empty queues and a resolved address of six bytes, becomes a
-- frame; and the loop of rx_task takes that frame through the Ethernet, IPv4 and TCP handlers to
-- tcp_rx with the header and payload that were given, the checksum filled in, and then gives the
-- packet back.
pub rx_packet_loop-ip4_sends :
    (resolve : ℕ → Option (List ℕ)) (ether_addr mac frame : List ℕ) (tx : TcpTx) (pkt : Packet)
    (s : Net)
    → resolve (ip4_get_pkt_dst tx.dest_ip) ≡ some mac
    → length mac ≡ 6
    → length ether_addr ≡ 6
    → tx.dest_ip ≡ our_ip_address
    → Verify.IsHeader tx.header
    → tx.header.data_offset ≡ 5
    → tx.payload_len ≤ length tx.payload
    → 40 + tx.payload_len < 2 ^ 16
    → ip4_sends resolve ether_addr (tcp_tx tx) ≡ some frame
    → pkt.handler ≡ ethernet
    → pkt.cur_data ≡ frame
    → pkt.cur_data_length ≡ length frame
    → rx_packet_loop 4 protocols pkt s
      ≡ some (delivered pkt s (tcp_rx s.tcbs (arrive (sent_checksum tx) our_ip_address tx)))
rx_packet_loop-ip4_sends resolve ether_addr mac frame tx pkt s known m6 e6 self v five long small
      sent eth at len =
    let h = segment_header tx in
    let (out, fields, ihl, ttl, proto, to, from) =
      ip4_sends-tcp_tx resolve ether_addr mac tx known m6 (omega (arith, self)) long small in
    let same : frame ≡ ip_frame mac ether_addr (datagram h (sent_bytes tx)) = cc in
    let pad : sent_bytes tx ++ [] ≡ sent_bytes tx = append-nil (sent_bytes tx) in
    rx_packet_loop-segment pkt s mac ether_addr [] h tx (record {
      dhost_six = m6;
      shost_six = e6;
      ip_fields = fields;
      no_options = ihl;
      alive = ttl;
      for_tcp = proto;
      for_us = to ∙ self;
      tcp_fields = v;
      no_tcp_options = five;
      injected = eth;
      frame = at ∙ same ∙ ap (λ b. ip_frame mac ether_addr (datagram h b)) (sym pad);
      frame_len =
          len
          ∙ ap length same
          ∙ length-ip_frame mac ether_addr (datagram h (sent_bytes tx)) m6 e6
          ∙ omega (arith, length-datagram h (sent_bytes tx), length-sent_bytes tx long);
      small = omega arith;
    })
    ∙ ap (λ g. some (delivered pkt s (tcp_rx s.tcbs g))) (carried_bare h tx from)
