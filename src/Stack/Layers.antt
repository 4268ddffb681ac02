-- ===== src/Stack/Layers.antt =====
-- How far in the handlers of the stack hand a packet, and the receive loop over them.
use lpc17xx_network.Base.{ℕ, ◌≡◌, ◌<◌, refl, arith}
use lpc17xx_network.Base.Run.{Run, ok, fault, halted}
use lpc17xx_network.Packet.{ProtocolType, ethernet, ipv4, udp, tcp, arp, Packet}
use lpc17xx_network.Protocol.{Handler, protocol_register, rx_packet_loop}
use lpc17xx_network.Protocol.Dispatch.{
  layers, Descends, down, faults, halts, IsLayer, AreLayers, Ended, rx_packet_loop-Ended,
}
use lpc17xx_network.Ethernet.{ethernet_switch, ethernet_rx_pkt}
use lpc17xx_network.Ipv4.{ipv4_switch, ipv4_rx_header, ipv4_rx_packet}
use lpc17xx_network.Udp.{udp_rx_packet}
use lpc17xx_network.Arp.{arp_rx_packet}
use lpc17xx_network.Tcp.Input.{tcp_rx_packet}
use lpc17xx_network.Stack.{
  Net, ethernet_layer, ipv4_layer, arp_layer, udp_layer, tcp_layer, protocols,
}

-- A packet keeps its blocks, and has fewer layers to go.
abbrev Inward : ℕ → Packet → Packet → Type 0
Inward n pkt q = (layers q.handler < n) × (q.data_addr ≡ pkt.data_addr) × (q.self ≡ pkt.self)

ethernet_switch-Inward : (pkt : Packet) (kind n : ℕ) → Inward 3 pkt (ethernet_switch pkt kind n).0
unfolding ethernet_switch
ethernet_switch-Inward pkt kind n = ground arith

ethernet_layer-Inward :
    (pkt q : Packet) (s s' : Net) → ethernet_layer pkt s ≡ ok (q, s') → Inward 3 pkt q
unfolding ethernet_layer ethernet_rx_pkt ethernet_switch
ethernet_layer-Inward pkt q s s' e = ground arith

ipv4_layer-Inward : (pkt q : Packet) (s s' : Net) → ipv4_layer pkt s ≡ ok (q, s') → Inward 2 pkt q
unfolding ipv4_layer ipv4_rx_packet ipv4_rx_header ipv4_switch
ipv4_layer-Inward pkt q s s' e = ground arith

arp_layer-Inward : (pkt q : Packet) (s s' : Net) → arp_layer pkt s ≡ ok (q, s') → Inward 1 pkt q
unfolding arp_layer arp_rx_packet
arp_layer-Inward pkt q s s' e = ground arith

udp_layer-Inward : (pkt q : Packet) (s s' : Net) → udp_layer pkt s ≡ ok (q, s') → Inward 1 pkt q
unfolding udp_layer udp_rx_packet
udp_layer-Inward pkt q s s' e = ground arith

tcp_layer-Inward : (pkt q : Packet) (s s' : Net) → tcp_layer pkt s ≡ ok (q, s') → Inward 1 pkt q
unfolding tcp_layer tcp_rx_packet
tcp_layer-Inward pkt q s s' e = ground arith

-- A handler whose results go inwards is a layer.
layer :
    (a : ProtocolType) (h : Handler Net)
    → ((pkt q : Packet) (s s' : Net) → h pkt s ≡ ok (q, s') → Inward (layers a) pkt q)
    → IsLayer a h
layer a h inward pkt s e = go (h pkt s) (λ q s' e. inward pkt q s s' e)
  where
    go :
        (r : Run (Packet × Net))
        → ((q : Packet) (t : Net) → r ≡ ok (q, t) → Inward (layers a) pkt q)
        → Descends a pkt r
    go (ok (q, t)) f = let (less, b, c) = f q t refl in down less b c
    go fault f = faults
    go halted f = halts

pub protocols-AreLayers : AreLayers protocols
unfolding protocols protocol_register
protocols-AreLayers = (
  layer ethernet ethernet_layer ethernet_layer-Inward,
  (
    layer arp arp_layer arp_layer-Inward,
    (
      layer ipv4 ipv4_layer ipv4_layer-Inward,
      (layer udp udp_layer udp_layer-Inward, (layer tcp tcp_layer tcp_layer-Inward, tt)),
    ),
  ),
)

-- With the five handlers that the stack registers, whatever a frame holds and whatever the state
-- of the components is, the loop of rx_task ends within four rounds of handlers: with the frame's
-- block and the packet's block given back, each once, or at a read past the end of the frame, or
-- at a trap.
pub rx_packet_loop-protocols :
    (pkt : Packet) (s : Net) → Ended pkt (rx_packet_loop 4 protocols pkt s)
rx_packet_loop-protocols pkt s =
    rx_packet_loop-Ended 4 protocols pkt s protocols-AreLayers (at_most pkt.handler)
  where
    at_most : (a : ProtocolType) → layers a < 4
    at_most a = ground arith
