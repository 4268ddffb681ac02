-- ===== src/Stack/Datagrams.antt =====
-- A datagram on its way out: through the queues of ipv4.c and ethernet.c to a frame.
use lpc17xx_network.Base.{
  ℕ, ◌+◌, ◌^◌, ◌<◌, ◌≡◌, ◌≢◌, refl, sym, ◌∙◌, ap, ap₂, arith, List, [], ◌∷◌, ◌++◌, length, take,
  length-append, length-take, take-length, Option, none, some,
}
use lpc17xx_network.Base.Wire.{bytes_of_words}
use lpc17xx_network.ByteSwap.{swap_endian16}
use lpc17xx_network.Effect.{Effect, ip4_xmit}
use lpc17xx_network.Ethernet.{
  ethernet_mac_copy, our_ip_address, ethertype_ip, ether_tx, ether_tx_round, ether_xmit_payload,
  ethernet_bytes,
}
use lpc17xx_network.Ipv4.{
  Ip4Header, ip4_words, ip4_swap_endian, ip4_compute_checksum, ip4_new_header, ip4_packet,
  ip4_get_pkt_dst, ip4_do_xmit_packet, ip4_xmit_packet, ip4_tx_round, EtherRequest,
}
use lpc17xx_network.Ipv4.Header
use lpc17xx_network.Ipv4.Transmit
use lpc17xx_network.Stack.Delivery.{datagram, ip_frame}

module _ (resolve : ℕ → Option (List ℕ)) (ether_addr : List ℕ) where
  -- A call of ether_tx, and the round of ether_tx_task that takes it from the empty queue.
  abbrev pub ether_sends : Option EtherRequest → Option (List ℕ)
  ether_sends none = none
  ether_sends (some r) =
      (ether_tx_round ether_addr (ether_tx r.dhost r.ether_type r.payload r.len []).0).1

  -- A call of ip4_xmit_packet, and the rounds of ip4_tx_task and of ether_tx_task after it.
  abbrev pub ip4_sends : Effect → Option (List ℕ)
  ip4_sends (ip4_xmit protocol dst_ip payload payload_len) =
      ether_sends
        (ip4_tx_round resolve (ip4_xmit_packet protocol dst_ip payload payload_len []).0).1
  ip4_sends _ = none

-- The address and fields that a receiver finds in the header of a sent datagram.
sent_fields :
    (protocol dst_ip len : ℕ)
    → protocol < 256
    → dst_ip < 2 ^ 32
    → ((ip4_swap_endian (Transmit.sent_header protocol dst_ip len)).dst_ip ≡ dst_ip)
      × ((ip4_swap_endian (Transmit.sent_header protocol dst_ip len)).src_ip ≡ our_ip_address)
unfolding Transmit.sent_header ip4_compute_checksum ip4_new_header
sent_fields protocol dst_ip len p d =
    let h = ip4_new_header protocol dst_ip (20 + len) in
    let back =
      Transmit.swapped_back h (Transmit.sent_header protocol dst_ip len).header_checksum
        (Transmit.ip4_new_header-IsHeader protocol dst_ip (20 + len) p d) in
    (ap {A = Ip4Header} (λ x. x.dst_ip) back, ap {A = Ip4Header} (λ x. x.src_ip) back)

ip4_packet-datagram :
    (protocol dst_ip len : ℕ) (bytes : List ℕ)
    → length bytes ≡ len
    → ip4_packet protocol dst_ip (take len bytes) len
      ≡ datagram (Transmit.sent_header protocol dst_ip len) bytes
unfolding ip4_packet Transmit.sent_header
ip4_packet-datagram protocol dst_ip len bytes size =
    let all : take len bytes ≡ bytes = ap (λ n. take n bytes) (sym size) ∙ take-length bytes in
    ap (λ l. bytes_of_words (ip4_words (Transmit.sent_header protocol dst_ip len)) ++ l)
      (ap (take len) all ∙ all)

pub length-datagram :
    (h : Ip4Header) (bytes : List ℕ) → length (datagram h bytes) ≡ 20 + length bytes
unfolding ip4_words
length-datagram h bytes = omega arith

pub length-ip_frame :
    (dhost shost bytes : List ℕ)
    → length dhost ≡ 6
    → length shost ≡ 6
    → length (ip_frame dhost shost bytes) ≡ 14 + length bytes
unfolding ether_xmit_payload ethernet_bytes
length-ip_frame dhost shost bytes d h =
    let tail = bytes_of_words (swap_endian16 ethertype_ip ∷ []) in
    let header = dhost ++ (shost ++ tail) in
    omega (
      arith,
      d,
      h,
      length-append header (take (length bytes) bytes),
      length-append dhost (shost ++ tail),
      length-append shost tail,
      length-take (length bytes) bytes,
    )

-- A call of ether_tx for a whole block of fewer than 2^16 bytes.
ether_sends-ip_frame :
    (resolve : ℕ → Option (List ℕ)) (ether_addr mac bytes : List ℕ) (len : ℕ)
    → length mac ≡ 6
    → length bytes ≡ len
    → len < 2 ^ 16
    → ether_sends resolve ether_addr
        (some (record { dhost = mac; ether_type = ethertype_ip; payload = bytes; len = len }))
      ≡ some (ip_frame mac ether_addr bytes)
unfolding ether_tx ether_tx_round ethernet_mac_copy
ether_sends-ip_frame resolve ether_addr mac bytes len six same small =
    let all : take len bytes ≡ bytes = ap (λ n. take n bytes) (sym same) ∙ take-length bytes in
    let to : take 6 mac ≡ mac = ap (λ n. take n mac) (sym six) ∙ take-length mac in
    ap₂ (λ b n. some (ether_xmit_payload ether_addr (take 6 mac) ethertype_ip b n)) all
      (omega (arith, same))
    ∙ ap (λ a. some (ether_xmit_payload ether_addr a ethertype_ip bytes (length bytes))) to

ip4_do_xmit_packet-some :
    (resolve : ℕ → Option (List ℕ)) (protocol dst_ip len : ℕ) (payload mac : List ℕ)
    → resolve (ip4_get_pkt_dst dst_ip) ≡ some mac
    → ip4_do_xmit_packet resolve protocol dst_ip payload len
      ≡ some (record {
        dhost = mac;
        ether_type = ethertype_ip;
        payload = ip4_packet protocol dst_ip payload len;
        len = 20 + len;
      })
unfolding ip4_do_xmit_packet
ip4_do_xmit_packet-some resolve protocol dst_ip len payload mac known =
    rw (ip4_do_xmit_packet, known) refl

-- The whole way out, for a block of bytes.
pub ip4_sends-ip4_xmit :
    (resolve : ℕ → Option (List ℕ)) (ether_addr mac : List ℕ) (protocol dst_ip len : ℕ)
    (bytes : List ℕ)
    → resolve (ip4_get_pkt_dst dst_ip) ≡ some mac
    → length mac ≡ 6
    → protocol < 256
    → dst_ip < 2 ^ 32
    → length bytes ≡ len
    → 20 + len < 2 ^ 16
    → let h = Transmit.sent_header protocol dst_ip len in
      (ip4_sends resolve ether_addr (ip4_xmit protocol dst_ip bytes len)
        ≡ some (ip_frame mac ether_addr (datagram h bytes)))
      × Header.IsHeader h
      × (h.ihl ≡ 5)
      × (h.ttl ≢ 0)
      × (h.protocol ≡ protocol)
      × ((ip4_swap_endian h).dst_ip ≡ dst_ip)
      × ((ip4_swap_endian h).src_ip ≡ our_ip_address)
unfolding ip4_xmit_packet ip4_tx_round
ip4_sends-ip4_xmit resolve ether_addr mac protocol dst_ip len bytes known six proto dst size small =
    let h = Transmit.sent_header protocol dst_ip len in
    let (to, from) = sent_fields protocol dst_ip len proto dst in
    (
      ap (ether_sends resolve ether_addr)
            (ip4_do_xmit_packet-some resolve protocol dst_ip len (take len bytes) mac known)
          ∙ ap
              (λ b. ether_sends resolve ether_addr (
                some
                  (record { dhost = mac; ether_type = ethertype_ip; payload = b; len = 20 + len })))
              (ip4_packet-datagram protocol dst_ip len bytes size)
          ∙ ether_sends-ip_frame resolve ether_addr mac (datagram h bytes) (20 + len) six
              (length-datagram h bytes ∙ ap (λ k. 20 + k) size) (omega arith),
      Transmit.sent_header-IsHeader protocol dst_ip len proto dst,
      unfold Transmit.sent_header ip4_compute_checksum ip4_swap_endian ip4_new_header in refl,
      unfold Transmit.sent_header ip4_compute_checksum ip4_swap_endian ip4_new_header in
          omega arith,
      unfold Transmit.sent_header ip4_compute_checksum ip4_swap_endian ip4_new_header in refl,
      to,
      from,
    )
