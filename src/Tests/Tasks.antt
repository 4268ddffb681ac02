-- ===== src/Tests/Tasks.antt =====
-- The receive loop at concrete inputs.
use lpc17xx_network.Base.{[], ◌∷◌, ◌++◌, replicate}
use lpc17xx_network.Packet.{Packet, ethernet}
use lpc17xx_network.Protocol.{rx_packet_loop}
use lpc17xx_network.Protocol.Dispatch.{Ended}
use lpc17xx_network.Stack.{Net, protocols}
use lpc17xx_network.Stack.Layers.{rx_packet_loop-protocols}

-- A frame of ARP with an empty body of zeros.
abbrev frame : Packet
frame = record {
  self = 100;
  data_addr = 200;
  cur_data = replicate 12 0 ++ (8 ∷ 6 ∷ replicate 28 0);
  data_length = 42;
  cur_data_length = 42;
  handler = ethernet;
  src_ip = 0;
  dst_ip = 0;
}

abbrev quiet : Net
quiet = record {
  ether_addr = 2 ∷ 0 ∷ 0 ∷ 0 ∷ 0 ∷ 1 ∷ [];
  no_dropped_packets = 0;
  arp_state = record { table = []; pending = []; settled = [] };
  listeners = [];
  tcbs = [];
  effects = [];
}

rx_packet_loop-protocols_example : Ended frame (rx_packet_loop 4 protocols frame quiet)
rx_packet_loop-protocols_example = rx_packet_loop-protocols frame quiet
