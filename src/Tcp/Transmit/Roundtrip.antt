-- ===== src/Tcp/Transmit/Roundtrip.antt =====
-- The TCP header read back from memory, and the segment that a receiver makes of a sent one.
use lpc17xx_network.Base.{
  ℕ, ◌+◌, ◌*◌, ◌/◌, ◌%◌, ◌≡◌, refl, arith, List, ◌++◌, Bool, true, false, ◌==◌,
}
use lpc17xx_network.Base.Run.{ok}
use lpc17xx_network.Base.Wire.{bit, bytes_of_words}
use lpc17xx_network.ByteSwap.{swap_endian16}
use lpc17xx_network.ByteSwap.Laws.{swap_endian16-swap_endian16, swap_endian32-swap_endian32}
use lpc17xx_network.Tcp.{TcpHeader, tcp_swap_endian}
use lpc17xx_network.Tcp.Transmit.{flag, read_tcp, tcp_flags, tcp_words}
use lpc17xx_network.Tcp.Transmit.Verify.{IsHeader, bit_lt, tcp_flags-lt}

bit_test : (b : Bool) (x : ℕ) → x ≡ bit b → (x == 1) ≡ b
bit_test true x e = ground arith
bit_test false x e = ground arith

flags :
    (h : TcpHeader)
    → (flag (tcp_flags h) 0 ≡ h.fin)
      × (flag (tcp_flags h) 1 ≡ h.syn)
      × (flag (tcp_flags h) 2 ≡ h.rst)
      × (flag (tcp_flags h) 3 ≡ h.psh)
      × (flag (tcp_flags h) 4 ≡ h.ack)
      × (flag (tcp_flags h) 5 ≡ h.urg)
      × (flag (tcp_flags h) 6 ≡ h.ece)
      × (flag (tcp_flags h) 7 ≡ h.cwr)
unfolding tcp_flags
flags h =
    let b0 = bit_lt h.fin in
    let b1 = bit_lt h.syn in
    let b2 = bit_lt h.rst in
    let b3 = bit_lt h.psh in
    let b4 = bit_lt h.ack in
    let b5 = bit_lt h.urg in
    let b6 = bit_lt h.ece in
    let b7 = bit_lt h.cwr in
    (
      bit_test h.fin _ (omega arith),
      bit_test h.syn _ (omega arith),
      bit_test h.rst _ (omega arith),
      bit_test h.psh _ (omega arith),
      bit_test h.ack _ (omega arith),
      bit_test h.urg _ (omega arith),
      bit_test h.ece _ (omega arith),
      bit_test h.cwr _ (omega arith),
    )

-- The numbers that read_tcp takes the fields from.
fields :
    (h : TcpHeader)
    → IsHeader h
    → let w = h.reserved_0 + h.data_offset * 16 + tcp_flags h * 256 in
      (w % 256 % 16 ≡ h.reserved_0) × (w % 256 / 16 ≡ h.data_offset) × (w / 256 % 256 ≡ tcp_flags h)
fields h v = omega (arith, tcp_flags-lt h)

-- A TCP header within its widths is read back from its twenty bytes.
pub read_tcp-tcp_words :
    (h : TcpHeader) (rest : List ℕ)
    → IsHeader h
    → read_tcp (bytes_of_words (tcp_words h) ++ rest) ≡ ok (h, rest)
unfolding read_tcp tcp_words
read_tcp-tcp_words h rest v =
    let (r, o, f) = fields h v in
    let (f0, f1, f2, f3, f4, f5, f6, f7) = flags h in
    rw (r, o, f, f0, f1, f2, f3, f4, f5, f6, f7) (ground arith)

-- A receiver swaps the header back, whatever stands in its checksum.
pub tcp_swapped_back :
    (h : TcpHeader) (c : ℕ)
    → IsHeader h
    → tcp_swap_endian (record (tcp_swap_endian h) { checksum = c })
      ≡ record h { checksum = swap_endian16 c }
unfolding tcp_swap_endian
tcp_swapped_back h c v =
    rw
      (
        swap_endian16-swap_endian16 h.source_port v.source_port_lt,
        swap_endian16-swap_endian16 h.dest_port v.dest_port_lt,
        swap_endian32-swap_endian32 h.seq_n v.seq_n_lt,
        swap_endian32-swap_endian32 h.ack_n v.ack_n_lt,
        swap_endian16-swap_endian16 h.window_sz v.window_sz_lt,
        swap_endian16-swap_endian16 h.urg_ptr v.urg_ptr_lt,
      )
      refl
