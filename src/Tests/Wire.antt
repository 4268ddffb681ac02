-- ===== src/Tests/Wire.antt =====
-- Headers, checksums and byte orders at concrete inputs.
use lpc17xx_network.Base.{◌≡◌, refl, arith, [], ◌∷◌, true, take}
use lpc17xx_network.Base.Wire.{words_of_bytes}
use lpc17xx_network.Checksum.{fold}
use lpc17xx_network.Checksum.Closed.{fold-ones_sum}
use lpc17xx_network.Checksum.Verify.{total}
use lpc17xx_network.Ipv4.{ip4_packet}
use lpc17xx_network.Ipv4.Transmit.{ip4_packet-fold}
use lpc17xx_network.Tcp.{TcpTx, zero_header}
use lpc17xx_network.Tcp.Transmit.{sent_header, new_pseudo, tcp_swap_pseudo_endian}
use lpc17xx_network.Tcp.Transmit.Verify.{segment_words, sent_header-fold}

fold-ones_sum_example : fold 0x1fffe ≡ 0xffff
fold-ones_sum_example = fold-ones_sum 0x1fffe (omega arith)

ip4_packet-fold_example :
    fold (total (words_of_bytes (take 20 (ip4_packet 17 0xC0A80007 (1 ∷ 2 ∷ []) 2)))) ≡ 0xffff
ip4_packet-fold_example = ip4_packet-fold 17 0xC0A80007 2 (1 ∷ 2 ∷ []) (omega arith) (omega arith)

-- A segment of three bytes.
abbrev segment : TcpTx
segment = record {
  header = record zero_header { source_port = 80; dest_port = 4000; data_offset = 5; ack = true };
  dest_ip = 0xC0A80007;
  payload = 1 ∷ 2 ∷ 3 ∷ [];
  payload_len = 3;
}

sent_header-fold_example :
    fold (
      total (
        segment_words
          (sent_header segment)
          (tcp_swap_pseudo_endian (new_pseudo segment))
          (1 ∷ 2 ∷ 3 ∷ [])
          3))
    ≡ 0xffff
sent_header-fold_example =
    sent_header-fold segment (omega arith) refl (omega arith)
      (omega arith, (omega arith, (omega arith, tt))) (omega arith)
