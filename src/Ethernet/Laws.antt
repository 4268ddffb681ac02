-- ===== src/Ethernet/Laws.antt =====
-- Frames that ether_xmit_payload builds, as ethernet_rx_pkt reads them.
use lpc17xx_network.Base.{
  ℕ, ◌^◌, ◌<◌, ◌≡◌, refl, ◌∙◌, ap, arith, List, [], ◌∷◌, ◌++◌, true, append_assoc, length, take,
  sub32, ==_refl,
}
use lpc17xx_network.Base.Run.{ok}
use lpc17xx_network.Base.Wire.{Read, ◌>>=◌, read_bytes, bytes_of_words}
use lpc17xx_network.ByteSwap.{swap_endian16}
use lpc17xx_network.ByteSwap.Laws.{swap_endian16-swap_endian16, swap_endian16-lt}
use lpc17xx_network.Packet.{Packet}
use lpc17xx_network.Ethernet.{
  EthernetHeader, read_ethernet, ethernet_bytes, ether_xmit_payload, ethernet_rx_pkt,
  ethernet_switch, ethernet_mac_equal,
}

pub read_bytes-append : (xs ys : List ℕ) → read_bytes (length xs) (xs ++ ys) ≡ ok (xs, ys)
read_bytes-append [] ys = refl
read_bytes-append (x ∷ xs) ys = rw (read_bytes-append xs ys) refl

pub read_six : (xs ys : List ℕ) → length xs ≡ 6 → read_bytes 6 (xs ++ ys) ≡ ok (xs, ys)
read_six xs ys h = rw (← h) (read_bytes-append xs ys)

pub ethernet_mac_equal_refl : (mac : List ℕ) → ethernet_mac_equal mac mac ≡ true
unfolding ethernet_mac_equal
ethernet_mac_equal_refl [] = refl
ethernet_mac_equal_refl (a ∷ mac) = rw (==_refl a) (ethernet_mac_equal_refl mac)

pub bind_ok :
    {A B : Type 0} (m : Read A) (f : A → Read B) (bs : List ℕ) (a : A) (rest : List ℕ)
    → m bs ≡ ok (a, rest)
    → (◌>>=◌ m f) bs ≡ f a rest
bind_ok m f bs a rest e = rw (◌>>=◌, e) refl

-- An Ethernet header with addresses of six bytes and a type of 16 bits is read back from its
-- fourteen bytes, and what follows them is left.
pub read_ethernet-ethernet_bytes :
    (h : EthernetHeader) (rest : List ℕ)
    → length h.ether_dhost ≡ 6
    → length h.ether_shost ≡ 6
    → h.ether_type < 2 ^ 16
    → read_ethernet (ethernet_bytes h ++ rest) ≡ ok (h, rest)
unfolding read_ethernet ethernet_bytes
read_ethernet-ethernet_bytes h rest p q small =
    let tail = bytes_of_words (h.ether_type ∷ []) in
    let after = (h.ether_shost ++ tail) ++ rest in
    rw (append_assoc h.ether_dhost (h.ether_shost ++ tail) rest) (
      bind_ok (read_bytes 6) _ (h.ether_dhost ++ after) h.ether_dhost after
        (read_six h.ether_dhost after p)
      ∙ rw (append_assoc h.ether_shost tail rest) (
          bind_ok (read_bytes 6) _ (h.ether_shost ++ (tail ++ rest)) h.ether_shost (tail ++ rest)
            (read_six h.ether_shost (tail ++ rest) q)
          ∙ ap (λ (t : ℕ). ok (record h { ether_type = t }, rest)) (omega arith)))

-- A frame that ether_xmit_payload builds, between addresses of six bytes, is received with the
-- payload that was sent and the handler that its type selects, or counted as dropped.
pub ethernet_rx_pkt-ether_xmit_payload :
    (pkt : Packet) (dropped ether_type len : ℕ) (ether_addr dhost payload : List ℕ)
    → length dhost ≡ 6
    → length ether_addr ≡ 6
    → ether_type < 2 ^ 16
    → ethernet_rx_pkt
        (record pkt { cur_data = ether_xmit_payload ether_addr dhost ether_type payload len })
        dropped
      ≡ ok (
          ethernet_switch
            (record pkt {
              cur_data = take len payload;
              cur_data_length = sub32 pkt.cur_data_length 14;
            })
            ether_type
            dropped)
unfolding ethernet_rx_pkt ether_xmit_payload
ethernet_rx_pkt-ether_xmit_payload pkt dropped ether_type len ether_addr dhost payload p q small =
    let h : EthernetHeader = record {
      ether_dhost = dhost;
      ether_shost = ether_addr;
      ether_type = swap_endian16 ether_type;
    } in
    rw
      (
        ethernet_rx_pkt,
        read_ethernet-ethernet_bytes h (take len payload) p q (swap_endian16-lt ether_type),
        swap_endian16-swap_endian16 ether_type small,
      )
      refl
