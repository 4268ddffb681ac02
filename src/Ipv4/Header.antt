-- ===== src/Ipv4/Header.antt =====
-- The IPv4 header in memory: its ranges, its byte order, and its checksum.
use lpc17xx_network.Base.{ℕ, ◌+◌, ◌^◌, ◌<◌, ◌≡◌, ◌∙◌, ap, arith, List, ◌++◌, length}
use lpc17xx_network.Base.Run.{ok}
use lpc17xx_network.Base.Wire.{AllBelow, bytes_of_words}
use lpc17xx_network.ByteSwap.Laws.{
  swap_endian16-swap_endian16, swap_endian32-swap_endian32, swap_endian16-lt, swap_endian32-lt,
}
use lpc17xx_network.Checksum.{fold, checksum}
use lpc17xx_network.Checksum.Verify.{total, checksum-fold, checksum-lt}
use lpc17xx_network.Ipv4.{Ip4Header, read_ip4, ip4_words, ip4_swap_endian, ip4_compute_checksum}

-- Every field is within its width.
pub record IsHeader (h : Ip4Header) : Type 0 where
  pub ihl_lt : h.ihl < 16
  pub version_lt : h.version < 16
  pub reserved_0_lt : h.reserved_0 < 256
  pub tot_length_lt : h.tot_length < 2 ^ 16
  pub identification_lt : h.identification < 2 ^ 16
  pub reserved_1_lt : h.reserved_1 < 2 ^ 16
  pub ttl_lt : h.ttl < 256
  pub protocol_lt : h.protocol < 256
  pub header_checksum_lt : h.header_checksum < 2 ^ 16
  pub src_ip_lt : h.src_ip < 2 ^ 32
  pub dst_ip_lt : h.dst_ip < 2 ^ 32

-- An IPv4 header whose fields are within their widths is read back from its twenty bytes, and
-- what follows them is left.
pub read_ip4-ip4_words :
    (h : Ip4Header) (rest : List ℕ)
    → IsHeader h
    → read_ip4 (bytes_of_words (ip4_words h) ++ rest) ≡ ok (h, rest)
unfolding read_ip4 ip4_words
read_ip4-ip4_words h rest v = ground arith

pub ip4_words-AllBelow : (h : Ip4Header) → IsHeader h → AllBelow (2 ^ 16) (ip4_words h)
unfolding ip4_words
ip4_words-AllBelow h v = omega arith

pub ip4_swap_endian-IsHeader : (h : Ip4Header) → IsHeader h → IsHeader (ip4_swap_endian h)
unfolding ip4_swap_endian
ip4_swap_endian-IsHeader h v = ground (
  arith,
  swap_endian16-lt h.tot_length,
  swap_endian16-lt h.identification,
  swap_endian32-lt h.src_ip v.src_ip_lt,
  swap_endian32-lt h.dst_ip v.dst_ip_lt,
)

pub ip4_compute_checksum-IsHeader : (h : Ip4Header) → IsHeader h → IsHeader (ip4_compute_checksum h)
unfolding ip4_compute_checksum
ip4_compute_checksum-IsHeader h v = ground (arith, checksum-lt (ip4_words h))

-- ip4_swap_endian is its own inverse on headers within their widths.
pub ip4_swap_endian-ip4_swap_endian :
    (h : Ip4Header) → IsHeader h → ip4_swap_endian (ip4_swap_endian h) ≡ h
unfolding ip4_swap_endian
ip4_swap_endian-ip4_swap_endian h v = ground (
  arith,
  swap_endian16-swap_endian16 h.tot_length v.tot_length_lt,
  swap_endian16-swap_endian16 h.identification v.identification_lt,
  swap_endian32-swap_endian32 h.src_ip v.src_ip_lt,
  swap_endian32-swap_endian32 h.dst_ip v.dst_ip_lt,
)

-- With its checksum filled in, the header's words sum up, folded, to 0xffff.
pub ip4_compute_checksum-fold :
    (h : Ip4Header)
    → IsHeader h
    → h.header_checksum ≡ 0
    → fold (total (ip4_words (ip4_compute_checksum h))) ≡ 0xffff
unfolding ip4_compute_checksum total
ip4_compute_checksum-fold h v zero =
    ap fold summed ∙ checksum-fold (ip4_words h) (ip4_words-AllBelow h v) few
  where
    few : length (ip4_words h) < 2 ^ 16
    few = unfold ip4_words in omega arith

    summed :
        total (ip4_words (ip4_compute_checksum h)) ≡ total (ip4_words h) + checksum (ip4_words h)
    summed = unfold ip4_words in omega arith
