-- ===== src/Stack/Listening.antt =====
-- A UDP datagram to this host's own address, from udp_xmit_packet to the listeners.
use lpc17xx_network.Base.{
  ℕ, suc, ◌+◌, ◌-◌, ◌%◌, ◌^◌, ◌<◌, ◌≤◌, ◌≡◌, refl, sym, ◌∙◌, ap, arith, List, ◌++◌, map, length,
  take, length-take, min, sub32, Option, some, ==_iff,
}
use lpc17xx_network.Base.Run.{ok}
use lpc17xx_network.ByteSwap.{swap_endian16}
use lpc17xx_network.ByteSwap.Laws.{swap_endian16-swap_endian16, swap_endian16-lt}
use lpc17xx_network.Effect.{ip4_xmit, wakeup}
use lpc17xx_network.Ethernet.{our_ip_address}
use lpc17xx_network.Ipv4.{ip_proto_udp, ip4_get_pkt_dst, ipv4_switch}
use lpc17xx_network.Ipv4.Transmit
use lpc17xx_network.Packet.{Packet, ethernet, ipv4, udp, packet_destroy}
use lpc17xx_network.Protocol.{protocol_register, resolve_pkt_protocol, rx_layer, rx_packet_loop}
use lpc17xx_network.Udp.{
  UdpHeader, read_udp, udp_bytes, udp_swap_endian, UdpListener, udp_rx_packet, udp_xmit_packet,
}
use lpc17xx_network.Udp.Laws.{IsListener, received, udp_copy-received}
use lpc17xx_network.Udp.Wire.{IsHeader, read_udp-udp_bytes, hears, wakes, udp_deliver-map}
use lpc17xx_network.Stack.{Net, ethernet_layer, ipv4_layer, udp_layer, protocols}
use lpc17xx_network.Stack.Delivery.{
  loop_on, datagram, ip_frame, ethernet_layer-ip_frame, unwrapped, ipv4_layer-datagram,
}
use lpc17xx_network.Stack.Datagrams.{
  ip4_sends, length-datagram, length-ip_frame, ip4_sends-ip4_xmit,
}

-- The header that udp_xmit_packet fills in and swaps, and the bytes that it sends.
abbrev pub xmit_header : ℕ → ℕ → UdpHeader
xmit_header dst_port payload_len = record {
  src_port = 0;
  dst_port = swap_endian16 dst_port;
  length = swap_endian16 (8 + payload_len);
  checksum = 0;
}

abbrev pub xmit_bytes : ℕ → List ℕ → ℕ → List ℕ
xmit_bytes dst_port payload payload_len =
    udp_bytes (xmit_header dst_port payload_len) ++ take payload_len payload

udp_xmit_packet-bytes :
    (dst_port dst_ip payload_len : ℕ) (payload : List ℕ)
    → 8 + payload_len < 2 ^ 16
    → udp_xmit_packet dst_port dst_ip payload payload_len
      ≡ ip4_xmit ip_proto_udp dst_ip (xmit_bytes dst_port payload payload_len) (8 + payload_len)
unfolding udp_xmit_packet udp_swap_endian
udp_xmit_packet-bytes dst_port dst_ip payload_len payload small =
    let width : (8 + payload_len) % 2 ^ 16 ≡ 8 + payload_len = omega arith in rw width refl

length-xmit_bytes :
    (dst_port payload_len : ℕ) (payload : List ℕ)
    → payload_len ≤ length payload
    → length (xmit_bytes dst_port payload payload_len) ≡ 8 + payload_len
unfolding udp_bytes
length-xmit_bytes dst_port payload_len payload long = omega (arith, length-take payload_len payload)

-- What the packet leaves behind.
abbrev pub heard : Packet → Net → ℕ → List ℕ → ℕ → List ℕ × Net
heard pkt s port payload payload_sz = (
  packet_destroy pkt,
  record s {
    listeners = map (hears port payload payload_sz) s.listeners;
    effects = s.effects ++ map wakeup (wakes port s.listeners);
  },
)

udp_round :
    (n : ℕ) (pkt : Packet) (s : Net) (port : ℕ) (body : List ℕ)
    → pkt.handler ≡ udp
    → port < 2 ^ 16
    → pkt.cur_data ≡ udp_bytes (xmit_header port (length body)) ++ body
    → pkt.cur_data_length ≡ 8 + length body
    → length body < 2 ^ 16
    → rx_packet_loop (suc n) protocols pkt s ≡ some (ok (heard pkt s port body (length body)))
unfolding rx_packet_loop rx_layer resolve_pkt_protocol protocols protocol_register udp_layer
    udp_rx_packet packet_destroy
udp_round n pkt s port body h small e size short =
    let v : IsHeader (xmit_header port (length body)) = record {
      src_port_lt = omega arith;
      dst_port_lt = swap_endian16-lt port;
      length_lt = swap_endian16-lt (8 + length body);
      checksum_lt = omega arith;
    } in
    let read = ap read_udp e ∙ read_udp-udp_bytes (xmit_header port (length body)) body v in
    let left : sub32 pkt.cur_data_length 8 ≡ length body = omega (arith, size) in
    rw
      (
        rx_packet_loop,
        rx_layer,
        resolve_pkt_protocol,
        h,
        read,
        left,
        swap_endian16-swap_endian16 port small,
        udp_deliver-map port body (length body) s.listeners (omega arith),
      )
      refl

-- The way in, for a frame without padding.
rx_packet_loop-heard :
    (resolve : ℕ → Option (List ℕ)) (ether_addr mac frame payload : List ℕ)
    (dst_port payload_len : ℕ) (pkt : Packet) (s : Net)
    → resolve (ip4_get_pkt_dst our_ip_address) ≡ some mac
    → length mac ≡ 6
    → length ether_addr ≡ 6
    → dst_port < 2 ^ 16
    → payload_len ≤ length payload
    → 28 + payload_len < 2 ^ 16
    → ip4_sends resolve ether_addr (udp_xmit_packet dst_port our_ip_address payload payload_len)
      ≡ some frame
    → pkt.handler ≡ ethernet
    → pkt.cur_data ≡ frame
    → pkt.cur_data_length ≡ length frame
    → rx_packet_loop 4 protocols pkt s
      ≡ some (ok (heard pkt s dst_port (take payload_len payload) payload_len))
unfolding resolve_pkt_protocol protocols protocol_register packet_destroy
rx_packet_loop-heard resolve ether_addr mac frame payload dst_port payload_len pkt s known m6 e6
      port long small sent eth at len =
    let body = take payload_len payload in
    let bytes = xmit_bytes dst_port payload payload_len in
    let h = Transmit.sent_header ip_proto_udp our_ip_address (8 + payload_len) in
    let size = length-xmit_bytes dst_port payload_len payload long in
    let body_size : length body ≡ payload_len = omega (arith, length-take payload_len payload) in
    let (out, fields, ihl, ttl, proto, to, from) =
      ip4_sends-ip4_xmit resolve ether_addr mac ip_proto_udp our_ip_address (8 + payload_len) bytes
        known m6 (omega arith) (omega arith) size (omega arith) in
    let way =
      ap (ip4_sends resolve ether_addr)
        (udp_xmit_packet-bytes dst_port our_ip_address payload_len payload (omega arith))
      ∙ out in
    let same : frame ≡ ip_frame mac ether_addr (datagram h bytes) = cc in
    let p1 : Packet = record pkt {
      cur_data = datagram h bytes;
      cur_data_length = sub32 pkt.cur_data_length 14;
      handler = ipv4;
    } in
    let p2 : Packet = record (unwrapped p1 h bytes) { handler = udp } in
    let total : length frame ≡ 42 + payload_len =
      ap length same
      ∙ length-ip_frame mac ether_addr (datagram h bytes) m6 e6
      ∙ omega (arith, length-datagram h bytes, size) in
    loop_on protocols 3 pkt p1 s s ethernet_layer (rw eth refl)
      (ethernet_layer-ip_frame pkt s mac ether_addr (datagram h bytes) m6 e6 (at ∙ same)) refl
    ∙ loop_on protocols 2 p1 p2 s s ipv4_layer refl
        (ipv4_layer-datagram p1 s h bytes fields ihl ttl to refl
          ∙ ap (λ (n : ℕ). ok (ipv4_switch (unwrapped p1 h bytes) n, s)) proto
          ∙ unfold ipv4_switch in refl)
        refl
    ∙ udp_round 1 p2 s dst_port body refl port
        (ap (λ n. udp_bytes (xmit_header dst_port n) ++ body) (sym body_size))
        (omega (arith, len, total, body_size)) (omega (arith, body_size))
    ∙ ap (λ n. some (ok (heard pkt s dst_port body n))) body_size

-- A datagram for this host's own address with a 16-bit port, a payload of at least `payload_len`
-- bytes and a length that fits an IPv4 datagram, that udp_xmit_packet sends through the transmit
-- queues with a resolved address and an address of the sender of six bytes each, becomes a frame;
-- the loop of rx_task takes that frame through the Ethernet, IPv4 and UDP handlers to every
-- listener on the port, wakes the queue once for each of them, leaves the others alone and gives
-- the packet back. A well-formed listener on the port stays well-formed and has then received,
-- behind what it had, the first bytes of the payload, as many as fit its buffer.
pub rx_packet_loop-udp_xmit_packet :
    (resolve : ℕ → Option (List ℕ)) (ether_addr mac frame payload : List ℕ)
    (dst_port payload_len : ℕ) (pkt : Packet) (s : Net) (i : UdpListener)
    → resolve (ip4_get_pkt_dst our_ip_address) ≡ some mac
    → length mac ≡ 6
    → length ether_addr ≡ 6
    → dst_port < 2 ^ 16
    → payload_len ≤ length payload
    → 28 + payload_len < 2 ^ 16
    → ip4_sends resolve ether_addr (udp_xmit_packet dst_port our_ip_address payload payload_len)
      ≡ some frame
    → pkt.handler ≡ ethernet
    → pkt.cur_data ≡ frame
    → pkt.cur_data_length ≡ length frame
    → IsListener i
    → i.port ≡ dst_port
    → let hear = hears dst_port (take payload_len payload) payload_len in
      (rx_packet_loop 4 protocols pkt s
        ≡ some (
            ok (
              packet_destroy pkt,
              record s {
                listeners = map hear s.listeners;
                effects = s.effects ++ map wakeup (wakes dst_port s.listeners);
              },
            )))
      × IsListener (hear i)
      × (received (hear i)
          ≡ received i
            ++ take (min payload_len (i.dst_buf_sz - i.dst_buf_ptr)) (take payload_len payload))
rx_packet_loop-udp_xmit_packet resolve ether_addr mac frame payload dst_port payload_len pkt s i
      known m6 e6 port long small sent eth at len v on =
    (
      rx_packet_loop-heard resolve ether_addr mac frame payload dst_port payload_len pkt s known m6
          e6 port long small sent eth at len,
      heard_by.0,
      heard_by.1,
    )
  where
    heard_by :
        IsListener (hears dst_port (take payload_len payload) payload_len i)
        × (received (hears dst_port (take payload_len payload) payload_len i)
            ≡ received i
              ++ take (min payload_len (i.dst_buf_sz - i.dst_buf_ptr)) (take payload_len payload))
    heard_by = rw ((==_iff i.port dst_port).1 on) (
        udp_copy-received i (take payload_len payload) payload_len v
          (omega (arith, length-take payload_len payload)))

-- The frame that carries it.
pub ip4_sends-udp_xmit_packet :
    (resolve : ℕ → Option (List ℕ)) (ether_addr mac payload : List ℕ) (dst_port payload_len : ℕ)
    → resolve (ip4_get_pkt_dst our_ip_address) ≡ some mac
    → length mac ≡ 6
    → payload_len ≤ length payload
    → 28 + payload_len < 2 ^ 16
    → ip4_sends resolve ether_addr (udp_xmit_packet dst_port our_ip_address payload payload_len)
      ≡ some (
          ip_frame mac ether_addr (
            datagram
              (Transmit.sent_header ip_proto_udp our_ip_address (8 + payload_len))
              (xmit_bytes dst_port payload payload_len)))
ip4_sends-udp_xmit_packet resolve ether_addr mac payload dst_port payload_len known m6 long small =
    ap (ip4_sends resolve ether_addr)
      (udp_xmit_packet-bytes dst_port our_ip_address payload_len payload (omega arith))
    ∙ (ip4_sends-ip4_xmit resolve ether_addr mac ip_proto_udp our_ip_address (8 + payload_len)
        (xmit_bytes dst_port payload payload_len) known m6 (omega arith) (omega arith)
        (length-xmit_bytes dst_port payload_len payload long) (omega arith)).0
