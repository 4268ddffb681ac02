-- ===== src/Packet.antt =====
-- The received packet of protocol.h, with packet_create and packet_destroy of protocol.c.
use lpc17xx_network.Base.{ℕ, List, [], ◌∷◌}

-- enum protocol_type.
pub data ProtocolType : Type 0 where
  ethernet ipv4 udp tcp arp drop : ProtocolType

-- struct packet_t. `self` and `data` are addresses; `cur_data` is the memory of the frame from
-- the pointer of that name to the end of the frame.
pub record Packet : Type 0 where
  pub self : ℕ
  pub data_addr : ℕ
  pub cur_data : List ℕ
  pub data_length : ℕ
  pub cur_data_length : ℕ
  pub handler : ProtocolType
  pub src_ip : ℕ
  pub dst_ip : ℕ

-- packet_create: `block` is the memory that get_mem returned for the structure.
unfoldable pub packet_create : Packet → ℕ → List ℕ → ℕ → Packet
packet_create block frame bytes frame_len = record block {
  data_addr = frame;
  cur_data = bytes;
  data_length = frame_len;
  cur_data_length = frame_len;
}

-- packet_destroy: the blocks that are given back, in order.
unfoldable pub packet_destroy : Packet → List ℕ
packet_destroy pkt = pkt.data_addr ∷ pkt.self ∷ []
