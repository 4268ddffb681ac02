-- ===== src/Tests/Address.antt =====
-- The exchanges of arp.c at concrete inputs.
use lpc17xx_network.Base.{ℕ, ◌≡◌, refl, arith, List, [], ◌∷◌, true, false, some, none}
use lpc17xx_network.Effect.{wakeup, arp_waitqueue}
use lpc17xx_network.Ethernet.{our_ip_address}
use lpc17xx_network.Arp.{
  ArpPacket, ArpState, Resolution, lookup_entry, resolve_address_start, resolve_address_end,
}
use lpc17xx_network.Arp.Wire.{IsPacket}
use lpc17xx_network.Base.{replicate}
use lpc17xx_network.Base.Run.{ok}
use lpc17xx_network.Packet.{Packet, ethernet, packet_destroy}
use lpc17xx_network.Protocol.{rx_packet_loop}
use lpc17xx_network.Stack.{Net, protocols}
use lpc17xx_network.Stack.Asking.{arp_frame, rx_packet_loop-resolve_address}
use lpc17xx_network.Arp.Laws.{IsReply, listed, answered, question}

abbrev our_mac : List ℕ
our_mac = 2 ∷ 0 ∷ 0 ∷ 0 ∷ 0 ∷ 1 ∷ []

abbrev their_mac : List ℕ
their_mac = 2 ∷ 0 ∷ 0 ∷ 0 ∷ 0 ∷ 7 ∷ []

abbrev reply : ArpPacket
reply = record {
  htype = 1;
  ptype = 0x0800;
  hlen = 6;
  plen = 4;
  oper = 2;
  sha = their_mac;
  spa = 0xC0A80007;
  tha = our_mac;
  tpa = our_ip_address;
}

abbrev empty : ArpState
empty = record { table = []; pending = []; settled = [] }

reply-IsReply : IsReply our_mac reply
reply-IsReply = record { hardware = refl; operation = refl; target = refl }

empty_table : lookup_entry 0xC0A80007 [] ≡ none
unfolding lookup_entry
empty_table = refl

reply-IsPacket : IsPacket reply
reply-IsPacket = omega arith

abbrev net : Net
net = record {
  ether_addr = our_mac;
  no_dropped_packets = 0;
  arp_state = empty;
  listeners = [];
  tcbs = [];
  effects = [];
}

-- The reply with the padding of a short frame.
abbrev arrived : Packet
arrived = record {
  self = 100;
  data_addr = 200;
  cur_data = arp_frame our_mac their_mac reply (replicate 18 0);
  data_length = 60;
  cur_data_length = 60;
  handler = ethernet;
  src_ip = 0;
  dst_ip = 0;
}

rx_packet_loop-resolve_address_example :
    (s' : ArpState) × (s'' : ArpState) × (resolve_address_start 50 our_mac 0xC0A80007 false empty
      ≡ (false, Resolution.asked s' (question our_mac 0xC0A80007)))
    × (rx_packet_loop 4 protocols arrived (record net { arp_state = s' })
        ≡ some (
            ok (
              packet_destroy arrived,
              record net { arp_state = s''; effects = wakeup arp_waitqueue ∷ [] },
            )))
    × (s''.pending ≡ [])
    × (s''.settled ≡ answered reply (listed 50 0xC0A80007) ∷ [])
    × (resolve_address_end (answered reply (listed 50 0xC0A80007)) ≡ some their_mac)
    × (resolve_address_start 50 our_mac 0xC0A80007 false s'' ≡ (true, Resolution.known their_mac))
rx_packet_loop-resolve_address_example =
    rx_packet_loop-resolve_address 50 false arrived net our_mac their_mac (replicate 18 0) reply
      empty_table reply-IsReply reply-IsPacket refl refl refl refl
