-- ===== src/Udp.antt =====
-- udp.c and udp.h: listeners, the receive handler, and the transmission of datagrams.
pub mod Laws
pub mod Wire
use lpc17xx_network.Base.{
  ℕ, ◌+◌, ◌-◌, ◌%◌, ◌^◌, List, [], ◌∷◌, ◌++◌, Bool, true, false, ◌||◌, Option, none, some, ltb,
  ◌==◌, if◌then◌else◌, length, take, drop, add32, sub32,
}
use lpc17xx_network.Base.Run.{Run, ok, fault, halted}
use lpc17xx_network.Base.Wire.{Read, read_u16, ◌>>=◌, pure, bytes_of_words}
use lpc17xx_network.ByteSwap.{swap_endian16}
use lpc17xx_network.Packet.{Packet, ProtocolType}
use lpc17xx_network.Effect.{Effect, ip4_xmit, WaitQueue, udp_waitq}
use lpc17xx_network.Ipv4.{ip_proto_udp}

pub record UdpHeader : Type 0 where
  pub src_port : ℕ
  pub dst_port : ℕ
  pub length : ℕ
  pub checksum : ℕ

unfoldable pub read_udp : Read UdpHeader
read_udp = do
  src ← read_u16
  dst ← read_u16
  len ← read_u16
  sum ← read_u16
  pure (record { src_port = src; dst_port = dst; length = len; checksum = sum })

unfoldable pub udp_bytes : UdpHeader → List ℕ
udp_bytes h = bytes_of_words (h.src_port ∷ h.dst_port ∷ h.length ∷ h.checksum ∷ [])

unfoldable pub udp_swap_endian : UdpHeader → UdpHeader
udp_swap_endian header = record header {
  dst_port = swap_endian16 header.dst_port;
  length = swap_endian16 header.length;
}

-- udp_listener: `dst_buf` is the caller's memory.
pub record UdpListener : Type 0 where
  pub dst_buf : List ℕ
  pub dst_buf_sz : ℕ
  pub dst_buf_ptr : ℕ
  pub port : ℕ

unfoldable pub port_in_use : ℕ → List UdpListener → Bool
port_in_use port [] = false
port_in_use port (i ∷ is) = (i.port == port) || port_in_use port is

-- What udp_rx does up to its wait: the interrupt mask it leaves, and its listener, or -EINUSE.
unfoldable pub udp_rx_start :
    ℕ → List ℕ → ℕ → Bool → List UdpListener → Bool × Option (List UdpListener)
udp_rx_start port dst_buf dst_buf_sz masked listeners =
    if port_in_use port listeners then (true, none) else (
      masked,
      some (
          record { dst_buf = dst_buf; dst_buf_sz = dst_buf_sz; dst_buf_ptr = 0; port = port }
          ∷ listeners),
    )

-- What udp_rx waits for.
unfoldable pub udp_rx_done : UdpListener → Bool
udp_rx_done i = i.dst_buf_ptr == i.dst_buf_sz

-- memcpy to `buf + at`.
unfoldable pub write_at : List ℕ → ℕ → List ℕ → List ℕ
write_at buf at bytes = take at buf ++ (bytes ++ drop (at + length bytes) buf)

-- How much of a payload one listener takes: the comparison is made in size_t.
unfoldable pub bytes_to_copy : UdpListener → ℕ → ℕ
bytes_to_copy i payload_sz =
    let user_buf_sz = i.dst_buf_sz - i.dst_buf_ptr in
    if ltb payload_sz user_buf_sz then payload_sz else user_buf_sz

unfoldable pub udp_copy : UdpListener → List ℕ → ℕ → UdpListener
udp_copy i payload payload_sz =
    let n = bytes_to_copy i payload_sz in
    record i {
      dst_buf = write_at i.dst_buf i.dst_buf_ptr (take n payload);
      dst_buf_ptr = (i.dst_buf_ptr + n) % 2 ^ 16;
    }

-- The loop of udp_rx_packet over all listeners: each one on the port takes what fits and wakes
-- the queue. A copy from beyond the frame is a fault.
unfoldable pub udp_deliver :
    ℕ → List ℕ → ℕ → List UdpListener → Run (List UdpListener × List WaitQueue)
udp_deliver port payload payload_sz [] = ok ([], [])
udp_deliver port payload payload_sz (i ∷ is) = elim (udp_deliver port payload payload_sz is) [
  | fault ↦ fault
  | halted ↦ halted
  | ok (rest, woken) ↦
      if i.port == port
      then (if ltb (length payload) (bytes_to_copy i payload_sz)
          then fault
          else ok (udp_copy i payload payload_sz ∷ rest, udp_waitq ∷ woken))
      else ok (i ∷ rest, woken)
]

unfoldable pub udp_rx_packet :
    Packet → List UdpListener → Run (Packet × List UdpListener × List WaitQueue)
udp_rx_packet pkt listeners = elim (read_udp pkt.cur_data) [
  | fault ↦ fault
  | halted ↦ halted
  | ok (header, payload) ↦
      let payload_sz = sub32 pkt.cur_data_length 8 in
      elim (udp_deliver (swap_endian16 header.dst_port) payload payload_sz listeners) [
        | fault ↦ fault
        | halted ↦ halted
        | ok (listeners', woken) ↦ ok (
          record pkt {
            cur_data = payload;
            cur_data_length = payload_sz;
            handler = ProtocolType.drop;
          },
          listeners',
          woken,
        )
      ]
]

-- udp_xmit_packet: the datagram that goes to ip4_xmit_packet.
unfoldable pub udp_xmit_packet : ℕ → ℕ → List ℕ → ℕ → Effect
udp_xmit_packet dst_port dst_ip payload payload_len =
    let packet_buf_len = 8 + payload_len in
    let header : UdpHeader = record {
      src_port = 0;
      dst_port = dst_port;
      length = packet_buf_len % 2 ^ 16;
      checksum = 0;
    } in
    ip4_xmit ip_proto_udp dst_ip (udp_bytes (udp_swap_endian header) ++ take payload_len payload)
      (packet_buf_len % 2 ^ 16)
