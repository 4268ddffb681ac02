-- ===== src/Ipv4/Transmit.antt =====
-- What ip4_do_xmit_packet sends.
use lpc17xx_network.Base.{
  ℕ, ◌+◌, ◌^◌, ◌<◌, ◌≡◌, refl, ◌∙◌, ap, arith, List, [], ◌++◌, length, take, drop, append_assoc,
  sub32,
}
use lpc17xx_network.Base.Run.{ok}
use lpc17xx_network.Base.Wire.{bytes_of_words, words_of_bytes, words_of_bytes-append}
use lpc17xx_network.Checksum.{fold}
use lpc17xx_network.Checksum.Verify.{total}
use lpc17xx_network.Packet.{Packet}
use lpc17xx_network.Ethernet.{our_ip_address}
use lpc17xx_network.Ipv4.{
  Ip4Header, read_ip4, ip4_words, ip4_swap_endian, ip4_compute_checksum, ip4_new_header, ip4_packet,
  ipv4_rx_header, ipv4_rx_packet, ipv4_switch,
}
use lpc17xx_network.Ipv4.Header.{
  IsHeader, read_ip4-ip4_words, ip4_words-AllBelow, ip4_swap_endian-IsHeader,
  ip4_compute_checksum-IsHeader, ip4_swap_endian-ip4_swap_endian, ip4_compute_checksum-fold,
}

pub ip4_new_header-IsHeader :
    (protocol dst_ip len : ℕ)
    → protocol < 256
    → dst_ip < 2 ^ 32
    → IsHeader (ip4_new_header protocol dst_ip len)
unfolding ip4_new_header
ip4_new_header-IsHeader protocol dst_ip len p d = omega arith

-- The header of the datagram as it lies in memory when it is sent.
unfoldable pub sent_header : ℕ → ℕ → ℕ → Ip4Header
sent_header protocol dst_ip payload_len =
    ip4_compute_checksum (ip4_swap_endian (ip4_new_header protocol dst_ip (20 + payload_len)))

pub sent_header-IsHeader :
    (protocol dst_ip len : ℕ)
    → protocol < 256
    → dst_ip < 2 ^ 32
    → IsHeader (sent_header protocol dst_ip len)
unfolding sent_header
sent_header-IsHeader protocol dst_ip len p d =
    ip4_compute_checksum-IsHeader _
      (ip4_swap_endian-IsHeader _ (ip4_new_header-IsHeader protocol dst_ip (20 + len) p d))

-- A receiver swaps the header back, whatever stands in its checksum.
pub swapped_back :
    (h : Ip4Header) (c : ℕ)
    → IsHeader h
    → ip4_swap_endian (record (ip4_swap_endian h) { header_checksum = c })
      ≡ record h { header_checksum = c }
unfolding ip4_swap_endian
swapped_back h c v =
    ap {A = Ip4Header} (λ x. record x { header_checksum = c }) (ip4_swap_endian-ip4_swap_endian h v)

first_words :
    (protocol dst_ip len : ℕ) (payload : List ℕ)
    → protocol < 256
    → dst_ip < 2 ^ 32
    → words_of_bytes (take 20 (ip4_packet protocol dst_ip payload len))
      ≡ ip4_words (sent_header protocol dst_ip len)
unfolding ip4_packet ip4_words sent_header
first_words protocol dst_ip len payload p d =
    words_of_bytes-append (ip4_words (sent_header protocol dst_ip len)) []
      (ip4_words-AllBelow _ (sent_header-IsHeader protocol dst_ip len p d))

-- The twenty bytes that a sent datagram begins with are words that sum up, folded, to 0xffff, for
-- every protocol of one byte and every address: the header checksum is right.
pub ip4_packet-fold :
    (protocol dst_ip len : ℕ) (payload : List ℕ)
    → protocol < 256
    → dst_ip < 2 ^ 32
    → fold (total (words_of_bytes (take 20 (ip4_packet protocol dst_ip payload len)))) ≡ 0xffff
unfolding sent_header ip4_swap_endian ip4_new_header
ip4_packet-fold protocol dst_ip len payload p d =
    let h = ip4_new_header protocol dst_ip (20 + len) in
    let v = ip4_new_header-IsHeader protocol dst_ip (20 + len) p d in
    ap (λ ws. fold (total ws)) (first_words protocol dst_ip len payload p d)
    ∙ ip4_compute_checksum-fold (ip4_swap_endian h) (ip4_swap_endian-IsHeader h v) refl

-- The header of a sent datagram as its receiver reads it.
read_sent :
    (protocol dst_ip len : ℕ) (rest : List ℕ)
    → protocol < 256
    → dst_ip < 2 ^ 32
    → read_ip4 (bytes_of_words (ip4_words (sent_header protocol dst_ip len)) ++ rest)
      ≡ ok (sent_header protocol dst_ip len, rest)
read_sent protocol dst_ip len rest p d =
    read_ip4-ip4_words _ rest (sent_header-IsHeader protocol dst_ip len p d)

-- ipv4_rx_packet on a frame that begins with a header.
rx_of_read :
    (pkt : Packet) (h : Ip4Header) (rest : List ℕ)
    → read_ip4 pkt.cur_data ≡ ok (h, rest)
    → ipv4_rx_packet pkt ≡ ok (ipv4_rx_header pkt (ip4_swap_endian h))
unfolding ipv4_rx_packet
rx_of_read pkt h rest e = rw (e, ipv4_rx_packet)

pub sent_bytes :
    (protocol dst_ip len : ℕ) (payload pad : List ℕ)
    → ip4_packet protocol dst_ip payload len ++ pad
      ≡ bytes_of_words (ip4_words (sent_header protocol dst_ip len)) ++ (take len payload ++ pad)
unfolding ip4_packet sent_header
sent_bytes protocol dst_ip len payload pad =
    append_assoc (bytes_of_words (ip4_words (sent_header protocol dst_ip len))) (take len payload)
      pad

-- The header that was filled in, but for its checksum, decides what is done with the rest.
rx_of_sent :
    (protocol len c : ℕ) (pkt : Packet) (h : Ip4Header) (rest : List ℕ)
    → pkt.cur_data ≡ bytes_of_words (ip4_words h) ++ rest
    → pkt.cur_data_length ≡ 20 + length rest
    → 20 + length rest < 2 ^ 32
    → ipv4_rx_header pkt
        (record (ip4_new_header protocol our_ip_address (20 + len)) { header_checksum = c })
      ≡ ipv4_switch
          (record pkt {
            cur_data = rest;
            cur_data_length = length rest;
            dst_ip = our_ip_address;
            src_ip = our_ip_address;
          })
          protocol
unfolding ipv4_rx_header ip4_new_header ip4_words
rx_of_sent protocol len c pkt h rest e f small =
    let dropped : drop 20 pkt.cur_data ≡ rest = ap (drop 20) e in
    let same : Path Packet
        (record pkt {
          cur_data = drop 20 pkt.cur_data;
          cur_data_length = sub32 pkt.cur_data_length 20;
          dst_ip = our_ip_address;
          src_ip = our_ip_address;
        })
        (record pkt {
          cur_data = rest;
          cur_data_length = length rest;
          dst_ip = our_ip_address;
          src_ip = our_ip_address;
        }) =
      ground (arith, dropped) in
    ap (λ (x : Packet). ipv4_switch x protocol) same

-- A datagram that the transmitter builds for this host's own address, with any bytes of padding
-- behind it, is received with its addresses and its protocol's handler; what is passed on is the
-- payload with the padding, since the total length is not looked at.
pub ipv4_rx_packet-ip4_packet :
    (protocol len : ℕ) (payload pad : List ℕ) (pkt : Packet)
    → protocol < 256
    → pkt.cur_data ≡ ip4_packet protocol our_ip_address payload len ++ pad
    → pkt.cur_data_length ≡ 20 + length (take len payload ++ pad)
    → 20 + length (take len payload ++ pad) < 2 ^ 32
    → ipv4_rx_packet pkt
      ≡ ok (
          ipv4_switch
            (record pkt {
              cur_data = take len payload ++ pad;
              cur_data_length = length (take len payload ++ pad);
              dst_ip = our_ip_address;
              src_ip = our_ip_address;
            })
            protocol)
unfolding sent_header ip4_compute_checksum
ipv4_rx_packet-ip4_packet protocol len payload pad pkt p e f small =
    let h = ip4_new_header protocol our_ip_address (20 + len) in
    let rest = take len payload ++ pad in
    let sent = sent_header protocol our_ip_address len in
    let c = sent.header_checksum in
    let at = e ∙ sent_bytes protocol our_ip_address len payload pad in
    rx_of_read pkt sent rest
      (ap read_ip4 at ∙ read_sent protocol our_ip_address len rest p (omega arith))
    ∙ ap (λ (x : Ip4Header). ok (ipv4_rx_header pkt x))
        (swapped_back h c
          (ip4_new_header-IsHeader protocol our_ip_address (20 + len) p (omega arith)))
    ∙ ap ok (rx_of_sent protocol len c pkt sent rest at f small)
