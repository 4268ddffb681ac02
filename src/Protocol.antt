-- ===== src/Protocol.antt =====
-- protocol.c: the queue of received packets, the registered protocols, and the task that hands
-- each packet from layer to layer. The state that the handlers share is a parameter.
pub mod Dispatch
use lpc17xx_network.Base.{
  ℕ, zero, suc, List, [], ◌∷◌, ◌++◌, Bool, true, false, Option, none, some, if◌then◌else◌,
}
use lpc17xx_network.Base.Run.{Run, ok, fault, halted}
use lpc17xx_network.Packet.{
  ProtocolType, ethernet, ipv4, udp, tcp, arp, drop, Packet, packet_destroy,
}
use lpc17xx_network.Effect.{WaitQueue, rx_waitq}

-- `proto->type == pkt->handler`.
abbrev pub same_type : ProtocolType → ProtocolType → Bool
same_type ethernet ethernet = true
same_type ipv4 ipv4 = true
same_type udp udp = true
same_type tcp tcp = true
same_type arp arp = true
same_type drop drop = true
same_type _ _ = false

-- packet_inject: the packet goes to the head of the queue, and the task is woken.
unfoldable pub packet_inject : Packet → ProtocolType → List Packet → List Packet × List WaitQueue
packet_inject pkt type queue = (record pkt { handler = type } ∷ queue, rx_waitq ∷ [])

-- What `rx_pkt` does to a packet and to the state.
abbrev pub Handler : Type 0 → Type 0
Handler S = Packet → S → Run (Packet × S)

-- The list of protocols; protocol_register puts one at its head.
abbrev pub Protocols : Type 0 → Type 0
Protocols S = List (ProtocolType × Handler S)

module _ {S : Type 0} where
  unfoldable pub protocol_register : ProtocolType → Handler S → Protocols S → Protocols S
  protocol_register type rx_pkt protocols = (type, rx_pkt) ∷ protocols

  unfoldable pub resolve_pkt_protocol : ProtocolType → Protocols S → Option (Handler S)
  resolve_pkt_protocol handler [] = none
  resolve_pkt_protocol handler ((type, rx_pkt) ∷ ps) =
      let rest = resolve_pkt_protocol handler ps in
      if same_type type handler then some rx_pkt else rest

  -- One layer: without a handler the packet is marked to be dropped.
  unfoldable pub rx_layer : Protocols S → Packet → S → Run (Packet × S)
  rx_layer protocols pkt s = elim (resolve_pkt_protocol pkt.handler protocols) [
    | none ↦ ok (record pkt { handler = drop }, s)
    | some rx_pkt ↦ rx_pkt pkt s
  ]

  -- `while (pkt)` of rx_task on fuel: the blocks given back and the state; none when the fuel
  -- runs out.
  unfoldable pub rx_packet_loop : ℕ → Protocols S → Packet → S → Option (Run (List ℕ × S))
  rx_packet_loop zero protocols pkt s = none
  rx_packet_loop (suc n) protocols pkt s = elim (rx_layer protocols pkt s) [
    | fault ↦ some fault
    | halted ↦ some halted
    | ok (pkt', s') ↦
        let more = rx_packet_loop n protocols pkt' s' in
        if same_type pkt'.handler drop then some (ok (packet_destroy pkt', s')) else more
  ]

  -- rx_task from a wake-up until the queue is empty and it waits again: list_pop takes the packet
  -- at the head. `n` is the fuel for each packet.
  unfoldable pub rx_task : ℕ → Protocols S → List Packet → S → Option (Run S)
  rx_task n protocols [] s = some (ok s)
  rx_task n protocols (pkt ∷ pkt_rx_q) s = elim (rx_packet_loop n protocols pkt s) [
    | none ↦ none
    | some fault ↦ some fault
    | some halted ↦ some halted
    | some (ok (blocks, s')) ↦ rx_task n protocols pkt_rx_q s'
  ]
