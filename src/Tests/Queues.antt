-- ===== src/Tests/Queues.antt =====
-- Two frames in the queue of rx_task, and a datagram to a listener, at concrete inputs.
use lpc17xx_network.Base.{ℕ, ◌≡◌, refl, arith, List, [], ◌∷◌, ◌++◌, some, add32, ◌∙◌, length-append}
use lpc17xx_network.Base.Run.{ok}
use lpc17xx_network.ByteSwap.Laws.{swap_endian32-swap_endian32, swap_endian32-lt}
use lpc17xx_network.Cbuf.Inv.{bytes}
use lpc17xx_network.Effect.{wakeup, udp_waitq}
use lpc17xx_network.Ethernet.{our_ip_address}
use lpc17xx_network.Ipv4.{ip_proto_udp, ip4_swap_endian}
use lpc17xx_network.Ipv4.Transmit
use lpc17xx_network.Packet.{ethernet, packet_destroy}
use lpc17xx_network.Protocol.{packet_inject, rx_task, rx_packet_loop}
use lpc17xx_network.Tcp.{Tcb}
use lpc17xx_network.Tcp.Exchange.{sent_bytes}
use lpc17xx_network.Udp.Laws.{IsListener, received}
use lpc17xx_network.Udp.Wire.{hears}
use lpc17xx_network.Stack.{Net, protocols}
use lpc17xx_network.Stack.Backwards.{Brings, rx_task-packet_inject}
use lpc17xx_network.Stack.Delivery.{datagram, ip_frame, Carries}
use lpc17xx_network.Stack.Datagrams.{length-ip_frame, length-datagram}
use lpc17xx_network.Stack.Sending.{length-sent_bytes}
use lpc17xx_network.Stack.Listening.{
  xmit_bytes, ip4_sends-udp_xmit_packet, rx_packet_loop-udp_xmit_packet,
}
use lpc17xx_network.Tests.Buffers.{listener, listener-IsListener}
use lpc17xx_network.Tests.Frames.{
  open_to, net, segment, segment-IsHeader, ip_header, mac, holding, buffer-IsValid,
}

-- A frame with one byte for the connection to the host 2.
abbrev frame_of : ℕ → List ℕ
frame_of b = ip_frame mac mac (datagram ip_header (sent_bytes (segment (b ∷ [])) ++ []))

frame_of-Carries : (b : ℕ) → Carries (holding (frame_of b)) mac mac ip_header (segment (b ∷ [])) []
unfolding ip4_swap_endian
frame_of-Carries b = record {
  dhost_six = refl;
  shost_six = refl;
  ip_fields =
      omega
        (arith, swap_endian32-lt 2 (omega arith), swap_endian32-lt our_ip_address (omega arith));
  no_options = refl;
  alive = omega arith;
  for_tcp = refl;
  for_us = swap_endian32-swap_endian32 our_ip_address (omega arith);
  tcp_fields = segment-IsHeader (b ∷ []);
  no_tcp_options = refl;
  injected = refl;
  frame = refl;
  frame_len =
      length-ip_frame mac mac (datagram ip_header (sent_bytes (segment (b ∷ [])) ++ [])) refl refl
      ∙ omega (
        arith,
        length-datagram ip_header (sent_bytes (segment (b ∷ [])) ++ []),
        length-append (sent_bytes (segment (b ∷ []))) [],
        length-sent_bytes (segment (b ∷ [])) (omega arith),
      );
  small = omega arith;
}

frame_of-Brings : (b : ℕ) → Brings (holding (frame_of b)) (open_to 2) (segment (b ∷ []))
unfolding ip4_swap_endian
frame_of-Brings b = record {
  dhost = mac;
  shost = mac;
  header = ip_header;
  carries = frame_of-Carries b;
  for_it = record {
    open_here = refl;
    to_port = refl;
    from_port = refl;
    from_ip = swap_endian32-swap_endian32 2 (omega arith);
    no_fin = refl;
    whole = omega arith;
  };
  some_bytes = omega arith;
}

rx_task-packet_inject_example :
    (s' : Net) × (u' : Tcb) × (rx_task 4 protocols
        (packet_inject
          (holding (frame_of 8))
          ethernet
          (packet_inject (holding (frame_of 7)) ethernet []).0).0
        (net 2)
      ≡ some (ok s'))
    × (s'.tcbs ≡ u' ∷ [])
    × (bytes u'.rx_buf ≡ 8 ∷ 7 ∷ [])
    × (u'.cur_ack_n ≡ add32 (add32 1025 1) 1)
rx_task-packet_inject_example =
    rx_task-packet_inject (holding (frame_of 7)) (holding (frame_of 8)) (net 2) (open_to 2) []
      (segment (7 ∷ [])) (segment (8 ∷ [])) refl buffer-IsValid (frame_of-Brings 7)
      (frame_of-Brings 8) (omega arith)

-- A datagram of three bytes to port 53.
abbrev query : List ℕ
query = ip_frame mac mac (
    datagram (Transmit.sent_header ip_proto_udp our_ip_address 11)
      (xmit_bytes 53 (5 ∷ 6 ∷ 7 ∷ []) 3))

abbrev listening : Net
listening = record (net 2) { listeners = listener ∷ [] }

rx_packet_loop-udp_xmit_packet_example :
    (rx_packet_loop 4 protocols (holding query) listening
      ≡ some (
          ok (
            packet_destroy (holding query),
            record listening {
              listeners = hears 53 (5 ∷ 6 ∷ 7 ∷ []) 3 listener ∷ [];
              effects = wakeup udp_waitq ∷ [];
            },
          )))
    × IsListener (hears 53 (5 ∷ 6 ∷ 7 ∷ []) 3 listener)
    × (received (hears 53 (5 ∷ 6 ∷ 7 ∷ []) 3 listener) ≡ 1 ∷ 2 ∷ 5 ∷ 6 ∷ [])
rx_packet_loop-udp_xmit_packet_example =
    rx_packet_loop-udp_xmit_packet (λ (a : ℕ). some mac) mac mac query (5 ∷ 6 ∷ 7 ∷ []) 53 3
      (holding query) listening listener refl refl refl (omega arith) (omega arith) (omega arith)
      (ip4_sends-udp_xmit_packet (λ (a : ℕ). some mac) mac mac (5 ∷ 6 ∷ 7 ∷ []) 53 3 refl refl
        (omega arith) (omega arith))
      refl refl refl listener-IsListener refl
