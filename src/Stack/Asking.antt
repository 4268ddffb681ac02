-- ===== src/Stack/Asking.antt =====
-- A frame that carries an ARP packet, through ethernet.c and arp.c.
use lpc17xx_network.Base.{
  ℕ, suc, ◌≡◌, refl, ◌∙◌, ap, arith, List, [], ◌∷◌, ◌++◌, length, take-length, sub32, true, Bool,
  none, some,
}
use lpc17xx_network.Base.Run.{ok}
use lpc17xx_network.Packet.{ethernet, arp, Packet, packet_destroy}
use lpc17xx_network.Effect.{Effect, wakeup, arp_waitqueue}
use lpc17xx_network.Protocol.{protocol_register, resolve_pkt_protocol, rx_layer, rx_packet_loop}
use lpc17xx_network.Ethernet.{ethertype_arp, ether_xmit_payload, ethernet_rx_pkt, ethernet_switch}
use lpc17xx_network.Ethernet.Laws.{ethernet_rx_pkt-ether_xmit_payload}
use lpc17xx_network.Arp.{
  ArpPacket, ArpState, Resolution, read_arp, arp_bytes, arp_swap_endian, lookup_entry, arp_handle,
  arp_rx_packet, resolve_address_start, resolve_address_end,
}
use lpc17xx_network.Arp.Laws.{IsReply, listed, answered, question, resolve_address_start-arp_handle}
use lpc17xx_network.Arp.Wire.{
  IsPacket, read_arp-arp_bytes, arp_swap_endian-arp_swap_endian, arp_swap_endian-IsPacket,
}
use lpc17xx_network.Stack.{Net, ethernet_layer, arp_layer, protocols}
use lpc17xx_network.Stack.Delivery.{loop_on}

-- The frame between two addresses that carries an ARP packet, with padding behind it.
abbrev pub arp_frame : List ℕ → List ℕ → ArpPacket → List ℕ → List ℕ
arp_frame dhost shost p pad =
    let bytes = arp_bytes (arp_swap_endian p) ++ pad in
    ether_xmit_payload shost dhost ethertype_arp bytes (length bytes)

ethernet_layer-arp_frame :
    (pkt : Packet) (s : Net) (dhost shost pad : List ℕ) (p : ArpPacket)
    → length dhost ≡ 6
    → length shost ≡ 6
    → pkt.cur_data ≡ arp_frame dhost shost p pad
    → ethernet_layer pkt s
      ≡ ok (
        record pkt {
          cur_data = arp_bytes (arp_swap_endian p) ++ pad;
          cur_data_length = sub32 pkt.cur_data_length 14;
          handler = arp;
        },
        s,
      )
unfolding ethernet_layer ethernet_switch
ethernet_layer-arp_frame pkt s dhost shost pad p d h e =
    let bytes = arp_bytes (arp_swap_endian p) ++ pad in
    let same = ap (λ (c : List ℕ). record pkt { cur_data = c }) e in
    let read =
      ap (λ (q : Packet). ethernet_rx_pkt q s.no_dropped_packets) same
      ∙ ethernet_rx_pkt-ether_xmit_payload pkt s.no_dropped_packets ethertype_arp (length bytes)
          shost dhost bytes d h (omega arith) in
    rw (ethernet_layer, read, take-length bytes) refl

arp_round :
    (n : ℕ) (pkt : Packet) (s : Net) (pad : List ℕ) (p : ArpPacket)
    → IsPacket p
    → pkt.handler ≡ arp
    → pkt.cur_data ≡ arp_bytes (arp_swap_endian p) ++ pad
    → rx_packet_loop (suc n) protocols pkt s
      ≡ some (
          ok (
            packet_destroy pkt,
            record s {
              arp_state = (arp_handle s.ether_addr p s.arp_state).0;
              effects = s.effects ++ (arp_handle s.ether_addr p s.arp_state).1;
            },
          ))
unfolding rx_packet_loop rx_layer resolve_pkt_protocol protocols protocol_register arp_layer
    arp_rx_packet packet_destroy
arp_round n pkt s pad p v h e =
    let read =
      ap read_arp e ∙ read_arp-arp_bytes (arp_swap_endian p) pad (arp_swap_endian-IsPacket p v) in
    rw
      (rx_packet_loop, rx_layer, resolve_pkt_protocol, h, read, arp_swap_endian-arp_swap_endian p v)
      refl

rx_packet_loop-arp_frame :
    (pkt : Packet) (s : Net) (dhost shost pad : List ℕ) (p : ArpPacket)
    → length dhost ≡ 6
    → length shost ≡ 6
    → IsPacket p
    → pkt.handler ≡ ethernet
    → pkt.cur_data ≡ arp_frame dhost shost p pad
    → rx_packet_loop 4 protocols pkt s
      ≡ some (
          ok (
            packet_destroy pkt,
            record s {
              arp_state = (arp_handle s.ether_addr p s.arp_state).0;
              effects = s.effects ++ (arp_handle s.ether_addr p s.arp_state).1;
            },
          ))
unfolding resolve_pkt_protocol protocols protocol_register packet_destroy
rx_packet_loop-arp_frame pkt s dhost shost pad p d h v eth at =
    let q : Packet = record pkt {
      cur_data = arp_bytes (arp_swap_endian p) ++ pad;
      cur_data_length = sub32 pkt.cur_data_length 14;
      handler = arp;
    } in
    loop_on protocols 3 pkt q s s ethernet_layer (rw eth refl)
      (ethernet_layer-arp_frame pkt s dhost shost pad p d h at) refl
    ∙ arp_round 2 q s pad p v refl refl

-- When resolve_address asks for an unknown address, and the next packet is a frame between
-- addresses of six bytes with a reply to this host for that address, with fields within their
-- widths and any padding, the loop of rx_task ends and gives the packet back; the caller's
-- request is off the pending list with the answer set, the other requests are kept, the waiting
-- processes are woken, the caller gets the sender's hardware address, and a later call finds that
-- address in the table at once; that later call returns with interrupts left masked.
pub rx_packet_loop-resolve_address :
    (self : ℕ) (masked : Bool) (pkt : Packet) (s : Net) (dhost shost pad : List ℕ) (p : ArpPacket)
    → lookup_entry p.spa s.arp_state.table ≡ none
    → IsReply s.ether_addr p
    → IsPacket p
    → length dhost ≡ 6
    → length shost ≡ 6
    → pkt.handler ≡ ethernet
    → pkt.cur_data ≡ arp_frame dhost shost p pad
    → (s' : ArpState) × (s'' : ArpState) × (resolve_address_start self s.ether_addr p.spa masked
          s.arp_state
        ≡ (masked, Resolution.asked s' (question s.ether_addr p.spa)))
      × (rx_packet_loop 4 protocols pkt (record s { arp_state = s' })
          ≡ some (
              ok (
                packet_destroy pkt,
                record s { arp_state = s''; effects = s.effects ++ (wakeup arp_waitqueue ∷ []) },
              )))
      × (s''.pending ≡ s.arp_state.pending)
      × (s''.settled ≡ answered p (listed self p.spa) ∷ s.arp_state.settled)
      × (resolve_address_end (answered p (listed self p.spa)) ≡ some p.sha)
      × (resolve_address_start self s.ether_addr p.spa masked s'' ≡ (true, Resolution.known p.sha))
rx_packet_loop-resolve_address self masked pkt s dhost shost pad p unknown reply v d h eth at =
    let (s', s'', start, handled, pending, settled, end, later) =
      resolve_address_start-arp_handle self s.ether_addr masked s.arp_state p unknown reply in
    (
      s',
      s'',
      start,
      rx_packet_loop-arp_frame pkt (record s { arp_state = s' }) dhost shost pad p d h v eth at
          ∙ ap
              (λ (r : ArpState × List Effect).
                some (
                  ok
                    (packet_destroy pkt, record s { arp_state = r.0; effects = s.effects ++ r.1 })))
              handled,
      pending,
      settled,
      end,
      later,
    )
