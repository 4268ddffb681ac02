-- ===== src/Tcp/Transmit.antt =====
-- tcp_tx of tcp.c: the segment in memory, its pseudo header and its checksum.
pub mod Verify
pub mod Roundtrip
use lpc17xx_network.Base.{
  ℕ, ◌+◌, ◌*◌, ◌/◌, ◌%◌, ◌^◌, List, [], ◌∷◌, ◌++◌, Bool, ◌==◌, if◌then◌else◌, length, take,
  replicate,
}
use lpc17xx_network.Base.Wire.{
  Read, read_u8, read_u16, read_u32, ◌>>=◌, pure, bytes_of_words, words_of_bytes, low16, high16,
  bit,
}
use lpc17xx_network.ByteSwap.{swap_endian16, swap_endian32}
use lpc17xx_network.Checksum
use lpc17xx_network.Ethernet.{our_ip_address}
use lpc17xx_network.Ipv4.{ip_proto_tcp}
use lpc17xx_network.Effect.{Effect, ip4_xmit}
use lpc17xx_network.Tcp.{TcpHeader, TcpTx, tcp_swap_endian}

-- The flag at place `k` of a byte.
abbrev pub flag : ℕ → ℕ → Bool
flag b k = b / 2 ^ k % 2 == 1

-- The structure at the front of a block.
unfoldable pub read_tcp : Read TcpHeader
read_tcp = do
  source ← read_u16
  dest ← read_u16
  seq ← read_u32
  acked ← read_u32
  offset ← read_u8
  flags ← read_u8
  window ← read_u16
  sum ← read_u16
  urgent ← read_u16
  pure (record {
    source_port = source;
    dest_port = dest;
    seq_n = seq;
    ack_n = acked;
    reserved_0 = offset % 16;
    data_offset = offset / 16;
    fin = flag flags 0;
    syn = flag flags 1;
    rst = flag flags 2;
    psh = flag flags 3;
    ack = flag flags 4;
    urg = flag flags 5;
    ece = flag flags 6;
    cwr = flag flags 7;
    window_sz = window;
    checksum = sum;
    urg_ptr = urgent;
  })

unfoldable pub tcp_flags : TcpHeader → ℕ
tcp_flags h =
    bit h.fin
    + 2 * bit h.syn
    + 4 * bit h.rst
    + 8 * bit h.psh
    + 16 * bit h.ack
    + 32 * bit h.urg
    + 64 * bit h.ece
    + 128 * bit h.cwr

-- The ten words of the structure.
unfoldable pub tcp_words : TcpHeader → List ℕ
tcp_words h =
    h.source_port
    ∷ h.dest_port
    ∷ low16 h.seq_n
    ∷ high16 h.seq_n
    ∷ low16 h.ack_n
    ∷ high16 h.ack_n
    ∷ (h.reserved_0 + h.data_offset * 16 + tcp_flags h * 256)
    ∷ h.window_sz
    ∷ h.checksum
    ∷ h.urg_ptr
    ∷ []

-- tcp_pseudo, whose reserved byte is always 0.
pub record TcpPseudo : Type 0 where
  pub src : ℕ
  pub dst : ℕ
  pub proto : ℕ
  pub length : ℕ

unfoldable pub tcp_swap_pseudo_endian : TcpPseudo → TcpPseudo
tcp_swap_pseudo_endian pheader = record {
  src = swap_endian32 pheader.src;
  dst = swap_endian32 pheader.dst;
  proto = pheader.proto;
  length = swap_endian16 pheader.length;
}

unfoldable pub pseudo_words : TcpPseudo → List ℕ
pseudo_words p =
    low16 p.src ∷ high16 p.src ∷ low16 p.dst ∷ high16 p.dst ∷ (p.proto * 256) ∷ p.length ∷ []

-- The zeroed buffer of tcp_compute_checksum, filled: a payload of odd length is padded by a zero.
unfoldable pub checksum_buffer : TcpHeader → TcpPseudo → List ℕ → ℕ → List ℕ
checksum_buffer header pheader payload payload_len =
    bytes_of_words (pseudo_words pheader)
    ++ (bytes_of_words (tcp_words header)
        ++ (take payload_len payload ++ replicate (payload_len % 2) 0))

unfoldable pub tcp_compute_checksum : TcpHeader → TcpPseudo → List ℕ → ℕ → TcpHeader
tcp_compute_checksum header pheader payload payload_len = record header {
  checksum =
      Checksum.checksum (words_of_bytes (checksum_buffer header pheader payload payload_len));
}

-- The pseudo header that tcp_tx fills in.
unfoldable pub new_pseudo : TcpTx → TcpPseudo
new_pseudo tx = record {
  src = our_ip_address;
  dst = tx.dest_ip;
  proto = ip_proto_tcp;
  length = (20 + tx.payload_len) % 2 ^ 16;
}

-- The header as tcp_tx sends it, swapped and with its checksum.
unfoldable pub sent_header : TcpTx → TcpHeader
sent_header tx =
    tcp_compute_checksum (tcp_swap_endian tx.header) (tcp_swap_pseudo_endian (new_pseudo tx))
      tx.payload tx.payload_len

-- tcp_tx: the bytes of header and payload go to ip4_xmit_packet, their length in 16 bits.
unfoldable pub tcp_tx : TcpTx → Effect
tcp_tx tx =
    ip4_xmit ip_proto_tcp tx.dest_ip
      (bytes_of_words (tcp_words (sent_header tx)) ++ take tx.payload_len tx.payload)
      ((20 + tx.payload_len) % 2 ^ 16)
