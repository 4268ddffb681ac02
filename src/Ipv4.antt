-- ===== src/Ipv4.antt =====
-- ipv4.c and ipv4.h: the IPv4 header, its receive handler, and the transmission of datagrams.
pub mod Header
pub mod Transmit
use lpc17xx_network.Base.{
  ℕ, ◌+◌, ◌*◌, ◌/◌, ◌%◌, ◌^◌, List, [], ◌∷◌, ◌++◌, Option, none, some, bit_and, ◌==◌, if◌then◌else◌,
  take, drop, sub32,
}
use lpc17xx_network.Base.Run.{Run, ok, fault, halted}
use lpc17xx_network.Base.Wire.{
  Read, read_u8, read_u16, read_u32, ◌>>=◌, pure, bytes_of_words, low16, high16,
}
use lpc17xx_network.ByteSwap.{swap_endian16, swap_endian32}
use lpc17xx_network.Checksum.{checksum}
use lpc17xx_network.Packet.{Packet, ProtocolType}
use lpc17xx_network.Effect.{Effect, wakeup, ip4_tx_waitq}
use lpc17xx_network.Ethernet.{our_ip_address, ip_gateway, net_mask, ethertype_ip}

abbrev pub ip_proto_tcp : ℕ
ip_proto_tcp = 0x6

abbrev pub ip_proto_udp : ℕ
ip_proto_udp = 0x11

abbrev pub default_ttl : ℕ
default_ttl = 10

pub record Ip4Header : Type 0 where
  pub ihl : ℕ
  pub version : ℕ
  pub reserved_0 : ℕ
  pub tot_length : ℕ
  pub identification : ℕ
  pub reserved_1 : ℕ
  pub ttl : ℕ
  pub protocol : ℕ
  pub header_checksum : ℕ
  pub src_ip : ℕ
  pub dst_ip : ℕ

-- The structure at the front of a block.
unfoldable pub read_ip4 : Read Ip4Header
read_ip4 = do
  ver ← read_u8
  res ← read_u8
  tot ← read_u16
  ident ← read_u16
  frag ← read_u16
  live ← read_u8
  proto ← read_u8
  sum ← read_u16
  src ← read_u32
  dst ← read_u32
  pure (record {
    ihl = ver % 16;
    version = ver / 16;
    reserved_0 = res;
    tot_length = tot;
    identification = ident;
    reserved_1 = frag;
    ttl = live;
    protocol = proto;
    header_checksum = sum;
    src_ip = src;
    dst_ip = dst;
  })

-- `(uint16_t *)header`: the ten words of the structure.
unfoldable pub ip4_words : Ip4Header → List ℕ
ip4_words h =
    (h.ihl + h.version * 16 + h.reserved_0 * 256)
    ∷ h.tot_length
    ∷ h.identification
    ∷ h.reserved_1
    ∷ (h.ttl + h.protocol * 256)
    ∷ h.header_checksum
    ∷ low16 h.src_ip
    ∷ high16 h.src_ip
    ∷ low16 h.dst_ip
    ∷ high16 h.dst_ip
    ∷ []

unfoldable pub ip4_swap_endian : Ip4Header → Ip4Header
ip4_swap_endian iphdr = record iphdr {
  tot_length = swap_endian16 iphdr.tot_length;
  identification = swap_endian16 iphdr.identification;
  src_ip = swap_endian32 iphdr.src_ip;
  dst_ip = swap_endian32 iphdr.dst_ip;
}

unfoldable pub ip4_compute_checksum : Ip4Header → Ip4Header
unfolding ip4_words
ip4_compute_checksum header = record header { header_checksum = checksum (ip4_words header) }

-- The end of ipv4_rx_packet: the handler for the datagram's protocol.
unfoldable pub ipv4_switch : Packet → ℕ → Packet
ipv4_switch pkt protocol =
    if protocol == ip_proto_tcp
    then record pkt { handler = ProtocolType.tcp }
    else if protocol == ip_proto_udp
    then record pkt { handler = ProtocolType.udp }
    else record pkt { handler = ProtocolType.drop }

-- ipv4_rx_packet after the header is read and swapped, which is done in place.
unfoldable pub ipv4_rx_header : Packet → Ip4Header → Packet
unfolding ipv4_switch
ipv4_rx_header pkt header =
    let header_len = header.ihl * 4 in
    let swapped = bytes_of_words (ip4_words header) ++ drop 20 pkt.cur_data in
    let moved = record pkt {
      cur_data = drop header_len swapped;
      cur_data_length = sub32 pkt.cur_data_length header_len;
    } in
    if header.ttl == 0
    then record moved { handler = ProtocolType.drop }
    else if header.dst_ip == our_ip_address
    then ipv4_switch (record moved { dst_ip = header.dst_ip; src_ip = header.src_ip })
        header.protocol
    else record moved { handler = ProtocolType.drop }

unfoldable pub ipv4_rx_packet : Packet → Run Packet
ipv4_rx_packet pkt = elim (read_ip4 pkt.cur_data) [
  | ok (header, rest) ↦ ok (ipv4_rx_header pkt (ip4_swap_endian header))
  | fault ↦ fault
  | halted ↦ halted
]

-- ip4_tx_q_t.
pub record Ip4Tx : Type 0 where
  pub protocol : ℕ
  pub dst_ip : ℕ
  pub payload : List ℕ
  pub payload_len : ℕ

-- ip4_xmit_packet: a copy of the payload goes to the head of the queue.
unfoldable pub ip4_xmit_packet : ℕ → ℕ → List ℕ → ℕ → List Ip4Tx → List Ip4Tx × List Effect
ip4_xmit_packet protocol dst_ip payload payload_len queue = (
  record {
    protocol = protocol;
    dst_ip = dst_ip;
    payload = take payload_len payload;
    payload_len = payload_len;
  }
      ∷ queue,
  wakeup ip4_tx_waitq ∷ [],
)

unfoldable pub ip4_get_pkt_dst : ℕ → ℕ
ip4_get_pkt_dst dst_ip =
    if bit_and dst_ip net_mask == bit_and our_ip_address net_mask then dst_ip else ip_gateway

-- The header that ip4_do_xmit_packet fills into the zeroed buffer, before it is swapped.
unfoldable pub ip4_new_header : ℕ → ℕ → ℕ → Ip4Header
ip4_new_header protocol dst_ip packet_buf_len = record {
  ihl = 5;
  version = 4;
  reserved_0 = 0;
  tot_length = packet_buf_len % 2 ^ 16;
  identification = 0;
  reserved_1 = 0;
  ttl = default_ttl;
  protocol = protocol;
  header_checksum = 0;
  src_ip = our_ip_address;
  dst_ip = dst_ip;
}

-- The bytes of `packet_buf` that ip4_do_xmit_packet hands to ether_tx.
unfoldable pub ip4_packet : ℕ → ℕ → List ℕ → ℕ → List ℕ
unfolding ip4_new_header ip4_swap_endian ip4_compute_checksum ip4_words
ip4_packet protocol dst_ip payload payload_len =
    let header = ip4_new_header protocol dst_ip (20 + payload_len) in
    bytes_of_words (ip4_words (ip4_compute_checksum (ip4_swap_endian header)))
    ++ take payload_len payload

-- A call of ether_tx: address, type, bytes and length.
pub record EtherRequest : Type 0 where
  pub dhost : List ℕ
  pub ether_type : ℕ
  pub payload : List ℕ
  pub len : ℕ

-- ip4_do_xmit_packet; `resolve` is what resolve_address returns for an address, NULL being none.
unfoldable pub ip4_do_xmit_packet : (ℕ → Option (List ℕ)) → ℕ → ℕ → List ℕ → ℕ → Option EtherRequest
unfolding ip4_packet ip4_get_pkt_dst
ip4_do_xmit_packet resolve protocol dst_ip payload payload_len =
    elim (resolve (ip4_get_pkt_dst dst_ip)) [
      | none ↦ none
      | some dst_hw_addr ↦ some (record {
        dhost = dst_hw_addr;
        ether_type = ethertype_ip;
        payload = ip4_packet protocol dst_ip payload payload_len;
        len = 20 + payload_len;
      })
    ]

-- One round of ip4_tx_task: the datagram at the head of the queue.
unfoldable pub ip4_tx_round : (ℕ → Option (List ℕ)) → List Ip4Tx → List Ip4Tx × Option EtherRequest
unfolding ip4_do_xmit_packet
ip4_tx_round resolve [] = ([], none)
ip4_tx_round resolve (t ∷ queue) =
    (queue, ip4_do_xmit_packet resolve t.protocol t.dst_ip t.payload t.payload_len)
