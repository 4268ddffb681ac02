-- ===== src/Stack.antt =====
-- The layers put together: the handlers of ethernet.c, arp.c, ipv4.c, udp.c and tcp.c as the
-- initcalls register them with protocol.c, over the state that they share.
pub mod Layers
pub mod Ticks
pub mod Delivery
pub mod Datagrams
pub mod Padding
pub mod Sending
pub mod Boot
pub mod Reset
pub mod Asking
pub mod Backwards
pub mod Listening
use lpc17xx_network.Base.{ℕ, List, [], ◌∷◌, ◌++◌, map}
use lpc17xx_network.Base.Run.{Run, ok, fault, halted}
use lpc17xx_network.Packet.{ProtocolType, ethernet, ipv4, udp, tcp, arp, Packet}
use lpc17xx_network.Effect.{Effect, wakeup}
use lpc17xx_network.Protocol.{Handler, Protocols, protocol_register}
use lpc17xx_network.Ethernet.{ethernet_rx_pkt}
use lpc17xx_network.Ipv4.{ipv4_rx_packet}
use lpc17xx_network.Udp.{UdpListener, udp_rx_packet}
use lpc17xx_network.Arp.{ArpState, arp_rx_packet, arp_tick}
use lpc17xx_network.Tcp.{Tcb}
use lpc17xx_network.Tcp.Transmit.{tcp_tx}
use lpc17xx_network.Tcp.Tick.{tcp_tick}
use lpc17xx_network.Tcp.Input.{tcp_rx_packet}

-- The static variables of the receive handlers, with the effects asked for so far, oldest first.
-- `ether_addr` is this host's address, which emac.c sets.
pub record Net : Type 0 where
  pub ether_addr : List ℕ
  pub no_dropped_packets : ℕ
  pub arp_state : ArpState
  pub listeners : List UdpListener
  pub tcbs : List Tcb
  pub effects : List Effect

unfoldable pub ethernet_layer : Handler Net
ethernet_layer pkt s = elim (ethernet_rx_pkt pkt s.no_dropped_packets) [
  | fault ↦ fault
  | halted ↦ halted
  | ok (pkt', n) ↦ ok (pkt', record s { no_dropped_packets = n })
]

unfoldable pub ipv4_layer : Handler Net
ipv4_layer pkt s = elim (ipv4_rx_packet pkt) [
  | fault ↦ fault
  | halted ↦ halted
  | ok pkt' ↦ ok (pkt', s)
]

unfoldable pub arp_layer : Handler Net
arp_layer pkt s = elim (arp_rx_packet s.ether_addr pkt s.arp_state) [
  | fault ↦ fault
  | halted ↦ halted
  | ok (pkt', a, es) ↦ ok (pkt', record s { arp_state = a; effects = s.effects ++ es })
]

unfoldable pub udp_layer : Handler Net
udp_layer pkt s = elim (udp_rx_packet pkt s.listeners) [
  | fault ↦ fault
  | halted ↦ halted
  | ok (pkt', ls, woken) ↦
      ok (pkt', record s { listeners = ls; effects = s.effects ++ map wakeup woken })
]

unfoldable pub tcp_layer : Handler Net
tcp_layer pkt s = elim (tcp_rx_packet pkt s.tcbs) [
  | fault ↦ fault
  | halted ↦ halted
  | ok (pkt', rx) ↦ ok (
    pkt',
    record s { tcbs = rx.tcbs; effects = s.effects ++ (map tcp_tx rx.sent ++ map wakeup rx.woken) },
  )
]

-- protocol_head after the initcalls; the order in which the linker lists them does not matter to
-- the search, since the types differ.
unfoldable pub protocols : Protocols Net
unfolding protocol_register
protocols = protocol_register ethernet ethernet_layer (
    protocol_register arp arp_layer (
      protocol_register ipv4 ipv4_layer
        (protocol_register udp udp_layer (protocol_register tcp tcp_layer []))))

-- The tick functions of arp.c and tcp.c over that state.
unfoldable pub arp_tick_work : Net → Net
arp_tick_work s = record s { arp_state = arp_tick s.arp_state }

unfoldable pub tcp_tick_work : Net → Net
tcp_tick_work s = record s { tcbs = tcp_tick s.tcbs }
