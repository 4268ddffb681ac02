-- ===== src/Ethernet.antt =====
-- ethernet.c and ethernet.h: the Ethernet header, its receive handler and the transmit queue.
pub mod Laws
use lpc17xx_network.Base.{
  ℕ, ◌+◌, ◌%◌, ◌^◌, List, [], ◌∷◌, ◌++◌, Bool, true, false, ◌&&◌, Option, none, some, ◌==◌,
  if◌then◌else◌, take, add32, sub32,
}
use lpc17xx_network.Base.Run.{Run, ok, fault, halted}
use lpc17xx_network.Base.Wire.{Read, read_u16, read_bytes, ◌>>=◌, pure, bytes_of_words}
use lpc17xx_network.ByteSwap.{swap_endian16}
use lpc17xx_network.Packet.{Packet, ipv4, arp, drop}
use lpc17xx_network.Effect.{Effect, wakeup, ether_tx_waitq}

abbrev pub ether_addr_len : ℕ
ether_addr_len = 6

abbrev pub our_ip_address : ℕ
our_ip_address = 0xC0A800ab

abbrev pub ip_gateway : ℕ
ip_gateway = 0xC0A80001

abbrev pub net_mask : ℕ
net_mask = 0xFFFFFF00

abbrev pub ethertype_ip : ℕ
ethertype_ip = 0x0800

abbrev pub ethertype_arp : ℕ
ethertype_arp = 0x0806

pub record EthernetHeader : Type 0 where
  pub ether_dhost : List ℕ
  pub ether_shost : List ℕ
  pub ether_type : ℕ

-- The structure at the front of a block, and the 14 bytes that it lies in.
unfoldable pub read_ethernet : Read EthernetHeader
read_ethernet = do
  dhost ← read_bytes 6
  shost ← read_bytes 6
  kind ← read_u16
  pure (record { ether_dhost = dhost; ether_shost = shost; ether_type = kind })

unfoldable pub ethernet_bytes : EthernetHeader → List ℕ
ethernet_bytes h = h.ether_dhost ++ (h.ether_shost ++ bytes_of_words (h.ether_type ∷ []))

-- ethernet_mac_equal: memcmp over the six bytes.
unfoldable pub ethernet_mac_equal : List ℕ → List ℕ → Bool
ethernet_mac_equal [] [] = true
ethernet_mac_equal [] (b ∷ bs) = false
ethernet_mac_equal (a ∷ as') [] = false
ethernet_mac_equal (a ∷ as') (b ∷ bs) = (a == b) && ethernet_mac_equal as' bs

-- The choice of the next handler by the swapped type, with the static count of dropped packets.
unfoldable pub ethernet_switch : Packet → ℕ → ℕ → Packet × ℕ
ethernet_switch pkt ether_type dropped =
    if ether_type == ethertype_arp
    then (record pkt { handler = arp }, dropped)
    else if ether_type == ethertype_ip
    then (record pkt { handler = ipv4 }, dropped)
    else (record pkt { handler = drop }, add32 dropped 1)

unfoldable pub ethernet_rx_pkt : Packet → ℕ → Run (Packet × ℕ)
ethernet_rx_pkt pkt dropped = elim (read_ethernet pkt.cur_data) [
  | ok (header, rest) ↦
      let moved = record pkt { cur_data = rest; cur_data_length = sub32 pkt.cur_data_length 14 } in
      ok (ethernet_switch moved (swap_endian16 header.ether_type) dropped)
  | fault ↦ fault
  | halted ↦ halted
]

-- struct ether_tx_q_t.
pub record EtherTx : Type 0 where
  pub dhost : List ℕ
  pub ether_type : ℕ
  pub payload : List ℕ
  pub payload_len : ℕ

-- ethernet_mac_copy: what stands at `dst` after it.
unfoldable pub ethernet_mac_copy : List ℕ → List ℕ
ethernet_mac_copy src = take ether_addr_len src

-- ether_tx: a copy of `len` bytes goes to the head of the queue; its length is kept in 16 bits.
unfoldable pub ether_tx : List ℕ → ℕ → List ℕ → ℕ → List EtherTx → List EtherTx × List Effect
unfolding ethernet_mac_copy
ether_tx dhost ether_type payload len queue = (
  record {
    dhost = ethernet_mac_copy dhost;
    ether_type = ether_type;
    payload = take len payload;
    payload_len = len % 2 ^ 16;
  }
      ∷ queue,
  wakeup ether_tx_waitq ∷ [],
)

-- ether_xmit_payload: the frame that emac_xmit_frame is given, header and payload.
unfoldable pub ether_xmit_payload : List ℕ → List ℕ → ℕ → List ℕ → ℕ → List ℕ
unfolding ethernet_bytes
ether_xmit_payload ether_addr dhost ether_type payload len =
    ethernet_bytes (record {
      ether_dhost = dhost;
      ether_shost = ether_addr;
      ether_type = swap_endian16 ether_type;
    })
    ++ take len payload

-- One round of ether_tx_task: the queue that is left, and the frame sent, if any.
unfoldable pub ether_tx_round : List ℕ → List EtherTx → List EtherTx × Option (List ℕ)
unfolding ether_xmit_payload
ether_tx_round ether_addr [] = ([], none)
ether_tx_round ether_addr (t ∷ queue) =
    (queue, some (ether_xmit_payload ether_addr t.dhost t.ether_type t.payload t.payload_len))
