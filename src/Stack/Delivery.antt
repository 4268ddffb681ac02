-- ===== src/Stack/Delivery.antt =====
-- A frame that carries a TCP segment, through ethernet.c, ipv4.c and tcp.c.
use lpc17xx_network.Base.{
  ℕ, suc, ◌+◌, ◌^◌, ◌<◌, ◌≡◌, ◌≢◌, refl, ◌∙◌, ap, arith, List, ◌++◌, map, length, take, drop,
  take-length, append_assoc, sub32, false, some, ==_ne,
}
use lpc17xx_network.Base.Run.{Run, ok, fault, halted}
use lpc17xx_network.Base.Wire.{bytes_of_words}
use lpc17xx_network.Packet.{ProtocolType, ethernet, ipv4, tcp, Packet, packet_destroy}
use lpc17xx_network.Effect.{wakeup}
use lpc17xx_network.Protocol.{
  Handler, Protocols, same_type, protocol_register, resolve_pkt_protocol, rx_layer, rx_packet_loop,
}
use lpc17xx_network.Ethernet.{
  our_ip_address, ethertype_ip, ether_xmit_payload, ethernet_rx_pkt, ethernet_switch,
}
use lpc17xx_network.Ethernet.Laws.{ethernet_rx_pkt-ether_xmit_payload}
use lpc17xx_network.Ipv4.{
  Ip4Header, ip_proto_tcp, read_ip4, ip4_words, ip4_swap_endian, ipv4_rx_header, ipv4_rx_packet,
  ipv4_switch,
}
use lpc17xx_network.Ipv4.Header
use lpc17xx_network.Ipv4.Header.{read_ip4-ip4_words}
use lpc17xx_network.Tcp.{TcpTx}
use lpc17xx_network.Tcp.Transmit.{tcp_tx}
use lpc17xx_network.Tcp.Receive.{Segment, Rx, tcp_rx}
use lpc17xx_network.Tcp.Input.{tcp_rx_packet, handled}
use lpc17xx_network.Tcp.Transmit.{tcp_words, sent_header}
use lpc17xx_network.Tcp.Transmit.Verify
use lpc17xx_network.Tcp.Exchange.{sent_bytes, arrive, with_bytes, sent_checksum}
use lpc17xx_network.Tcp.Exchange.Wire.{tcp_rx_packet-with_bytes}
use lpc17xx_network.Stack.{Net, ethernet_layer, ipv4_layer, tcp_layer, protocols}

-- One round of the loop of rx_task, and the last one.
module _ {S : Type 0} (ps : Protocols S) (n : ℕ) (pkt q : Packet) (s t : S)
    (rx_pkt : Handler S) where
  pub loop_on :
      resolve_pkt_protocol pkt.handler ps ≡ some rx_pkt
      → rx_pkt pkt s ≡ ok (q, t)
      → same_type q.handler ProtocolType.drop ≡ false
      → rx_packet_loop (suc n) ps pkt s ≡ rx_packet_loop n ps q t
  unfolding rx_packet_loop rx_layer
  loop_on found ran more = rw (rx_packet_loop, rx_layer, found, ran, more) refl

-- The bytes of a datagram with the header `h` as it lies in memory.
abbrev pub datagram : Ip4Header → List ℕ → List ℕ
datagram h rest = bytes_of_words (ip4_words h) ++ rest

-- The frame between two addresses that carries bytes of IPv4.
abbrev pub ip_frame : List ℕ → List ℕ → List ℕ → List ℕ
ip_frame dhost shost bytes = ether_xmit_payload shost dhost ethertype_ip bytes (length bytes)

pub ethernet_layer-ip_frame :
    (pkt : Packet) (s : Net) (dhost shost bytes : List ℕ)
    → length dhost ≡ 6
    → length shost ≡ 6
    → pkt.cur_data ≡ ip_frame dhost shost bytes
    → ethernet_layer pkt s
      ≡ ok (
        record pkt {
          cur_data = bytes;
          cur_data_length = sub32 pkt.cur_data_length 14;
          handler = ipv4;
        },
        s,
      )
unfolding ethernet_layer ethernet_switch
ethernet_layer-ip_frame pkt s dhost shost bytes d h e =
    let same = ap (λ (c : List ℕ). record pkt { cur_data = c }) e in
    let read =
      ap (λ (p : Packet). ethernet_rx_pkt p s.no_dropped_packets) same
      ∙ ethernet_rx_pkt-ether_xmit_payload pkt s.no_dropped_packets ethertype_ip (length bytes)
          shost dhost bytes d h (omega arith) in
    rw (ethernet_layer, read, take-length bytes) refl

-- The packet that ipv4_rx_packet makes of a datagram, before it is given to a protocol.
abbrev pub unwrapped : Packet → Ip4Header → List ℕ → Packet
unwrapped pkt h rest = record pkt {
  cur_data = rest;
  cur_data_length = sub32 pkt.cur_data_length 20;
  src_ip = (ip4_swap_endian h).src_ip;
  dst_ip = our_ip_address;
}

pub ipv4_layer-datagram :
    (pkt : Packet) (s : Net) (h : Ip4Header) (rest : List ℕ)
    → Header.IsHeader h
    → h.ihl ≡ 5
    → h.ttl ≢ 0
    → (ip4_swap_endian h).dst_ip ≡ our_ip_address
    → pkt.cur_data ≡ datagram h rest
    → ipv4_layer pkt s ≡ ok (ipv4_switch (unwrapped pkt h rest) h.protocol, s)
unfolding ipv4_layer ipv4_rx_packet ipv4_rx_header ip4_swap_endian
ipv4_layer-datagram pkt s h rest v five alive ours e =
    let read = ap read_ip4 e ∙ read_ip4-ip4_words h rest v in
    let rest_of : drop 20 pkt.cur_data ≡ rest = unfold ip4_words in ap (drop 20) e in
    rw (ipv4_layer, ipv4_rx_packet, read)
      (unfold ip4_words in rw (five, ==_ne h.ttl 0 alive, ours, rest_of) refl)

ipv4_layer-segment :
    (pkt : Packet) (s : Net) (h : Ip4Header) (rest : List ℕ)
    → Header.IsHeader h
    → h.ihl ≡ 5
    → h.ttl ≢ 0
    → h.protocol ≡ ip_proto_tcp
    → (ip4_swap_endian h).dst_ip ≡ our_ip_address
    → pkt.cur_data ≡ datagram h rest
    → ipv4_layer pkt s ≡ ok (record (unwrapped pkt h rest) { handler = tcp }, s)
unfolding ipv4_switch
ipv4_layer-segment pkt s h rest v five alive proto ours e =
    ipv4_layer-datagram pkt s h rest v five alive ours e
    ∙ ap (λ (n : ℕ). ok (ipv4_switch (unwrapped pkt h rest) n, s)) proto

-- The end of the loop when tcp_rx_packet has handled the packet: the blocks that are given back, and
-- the state.
abbrev pub delivered : Packet → Net → Run Rx → Run (List ℕ × Net)
delivered pkt s (ok rx) = ok (
  packet_destroy pkt,
  record s { tcbs = rx.tcbs; effects = s.effects ++ (map tcp_tx rx.sent ++ map wakeup rx.woken) },
)
delivered pkt s fault = fault
delivered pkt s halted = halted

delivered_same :
    (p q : Packet) (s : Net) (r : Run Rx)
    → packet_destroy p ≡ packet_destroy q
    → delivered p s r ≡ delivered q s r
delivered_same p q s (ok rx) e = rw e refl
delivered_same p q s fault e = refl
delivered_same p q s halted e = refl

-- The round of tcp_rx_packet is the last one.
tcp_round :
    (n : ℕ) (pkt : Packet) (s : Net) (seg : Segment) (r : Run Rx)
    → pkt.handler ≡ tcp
    → tcp_rx_packet pkt s.tcbs ≡ handled pkt seg r
    → rx_packet_loop (suc n) protocols pkt s ≡ some (delivered pkt s r)
unfolding rx_packet_loop rx_layer resolve_pkt_protocol protocols protocol_register tcp_layer
    packet_destroy
tcp_round n pkt s seg (ok rx) h e = rw (rx_packet_loop, rx_layer, resolve_pkt_protocol, h, e) refl
tcp_round n pkt s seg fault h e = rw (rx_packet_loop, rx_layer, resolve_pkt_protocol, h, e) refl
tcp_round n pkt s seg halted h e = rw (rx_packet_loop, rx_layer, resolve_pkt_protocol, h, e) refl

-- A frame from an Ethernet address to another that carries, in a datagram without options for this
-- host, the segment that tcp_tx builds for `tx`, and then `pad`.
pub record Carries (pkt : Packet) (dhost shost : List ℕ) (h : Ip4Header) (tx : TcpTx) (pad : List ℕ)
    : Type 0 where
  pub dhost_six : length dhost ≡ 6
  pub shost_six : length shost ≡ 6
  pub ip_fields : Header.IsHeader h
  pub no_options : h.ihl ≡ 5
  pub alive : h.ttl ≢ 0
  pub for_tcp : h.protocol ≡ ip_proto_tcp
  pub for_us : (ip4_swap_endian h).dst_ip ≡ our_ip_address
  pub tcp_fields : Verify.IsHeader tx.header
  pub no_tcp_options : tx.header.data_offset ≡ 5
  pub injected : pkt.handler ≡ ethernet
  pub frame : pkt.cur_data ≡ ip_frame dhost shost (datagram h (sent_bytes tx ++ pad))
  pub frame_len : pkt.cur_data_length ≡ 54 + (tx.payload_len + length pad)
  pub small : tx.payload_len + length pad < 2 ^ 31

-- What tcp_rx_packet makes of it: the padding stands behind the payload.
abbrev pub carried : Ip4Header → TcpTx → List ℕ → Segment
carried h tx pad =
    with_bytes (take tx.payload_len tx.payload ++ pad) (tx.payload_len + length pad)
      (arrive (sent_checksum tx) (ip4_swap_endian h).src_ip tx)

-- The whole way.
pub rx_packet_loop-segment :
    (pkt : Packet) (s : Net) (dhost shost pad : List ℕ) (h : Ip4Header) (tx : TcpTx)
    → Carries pkt dhost shost h tx pad
    → rx_packet_loop 4 protocols pkt s ≡ some (delivered pkt s (tcp_rx s.tcbs (carried h tx pad)))
unfolding resolve_pkt_protocol protocols protocol_register
rx_packet_loop-segment pkt s dhost shost pad h tx c =
    let inner = sent_bytes tx ++ pad in
    let n = tx.payload_len + length pad in
    let p1 : Packet = record pkt {
      cur_data = datagram h inner;
      cur_data_length = sub32 pkt.cur_data_length 14;
      handler = ipv4;
    } in
    let p2 : Packet = record p1 {
      cur_data = inner;
      cur_data_length = sub32 p1.cur_data_length 20;
      src_ip = (ip4_swap_endian h).src_ip;
      dst_ip = our_ip_address;
      handler = tcp;
    } in
    let rest = take tx.payload_len tx.payload ++ pad in
    let seg = with_bytes rest n (arrive (sent_checksum tx) p2.src_ip tx) in
    let at : inner ≡ bytes_of_words (tcp_words (sent_header tx)) ++ rest =
      append_assoc (bytes_of_words (tcp_words (sent_header tx))) (take tx.payload_len tx.payload)
        pad in
    let last =
      tcp_rx_packet-with_bytes tx p2 s.tcbs rest n c.tcp_fields c.no_tcp_options at
        (omega (arith, c.frame_len, c.small)) (omega (arith, c.small)) in
    loop_on protocols 3 pkt p1 s s ethernet_layer (rw c.injected refl)
      (ethernet_layer-ip_frame pkt s dhost shost (datagram h inner) c.dhost_six c.shost_six c.frame)
      refl
    ∙ loop_on protocols 2 p1 p2 s s ipv4_layer refl
        (ipv4_layer-segment p1 s h inner c.ip_fields c.no_options c.alive c.for_tcp c.for_us refl)
        refl
    ∙ tcp_round 1 p2 s seg (tcp_rx s.tcbs seg) refl last
    ∙ ap some (delivered_same p2 pkt s (tcp_rx s.tcbs seg) (unfold packet_destroy in refl))
