-- ===== src/Tests/Frames.antt =====
-- Whole frames, the initcalls and the program at concrete inputs.
use lpc17xx_network.Base.{
  ℕ, ◌≡◌, refl, ◌∙◌, arith, List, [], ◌∷◌, ◌++◌, true, false, some, add32, length, replicate,
  length-append,
}
use lpc17xx_network.Base.Run.{ok}
use lpc17xx_network.ByteSwap.{swap_endian32}
use lpc17xx_network.ByteSwap.Laws.{swap_endian32-swap_endian32, swap_endian32-lt}
use lpc17xx_network.Cbuf.{CircularBuf}
use lpc17xx_network.Cbuf.Inv.{IsValid, bytes}
use lpc17xx_network.Effect.{wakeup, tcp_waitq}
use lpc17xx_network.Ethernet.{our_ip_address}
use lpc17xx_network.Ipv4.{Ip4Header, ip4_swap_endian, ip_proto_tcp}
use lpc17xx_network.Packet.{Packet, ethernet, packet_destroy}
use lpc17xx_network.Protocol.{rx_packet_loop}
use lpc17xx_network.Tcp.{Tcb, TcpTx, established, zero_header, tcp_tx_call, ack_header}
use lpc17xx_network.Tcp.Transmit.{tcp_tx}
use lpc17xx_network.Tcp.Transmit.Verify
use lpc17xx_network.Tcp.Receive.{tcp_rx}
use lpc17xx_network.Tcp.Exchange.{arrive, sent_bytes, sent_checksum}
use lpc17xx_network.Stack.{Net, protocols}
use lpc17xx_network.Stack.Delivery.{datagram, ip_frame, Carries, delivered}
use lpc17xx_network.Stack.Padding.{rx_packet_loop-filled}
use lpc17xx_network.Stack.Datagrams.{ip4_sends, length-ip_frame, length-datagram}
use lpc17xx_network.Stack.Sending.{
  segment_header, length-sent_bytes, ip4_sends-tcp_tx, rx_packet_loop-ip4_sends,
}

abbrev buffer : CircularBuf
buffer = record { buffer = replicate 8 0; head = 0; tail = 0; buf_sz = 8; free_space = 8 }

pub buffer-IsValid : IsValid buffer
buffer-IsValid = record {
  sized = refl;
  nonempty = omega arith;
  small = omega arith;
  free_in = omega arith;
  tail_in = omega arith;
  head_at = refl;
}

-- An open connection to this host itself, and to the host 2.
abbrev pub open_to : ℕ → Tcb
open_to ip = record {
  self = 300;
  cur_seq_n = 1025;
  cur_ack_n = 1025;
  unacked_byte_count = 0;
  rx_buf = buffer;
  state = established;
  timeout = 0;
  src_port = 80;
  dst_port = 65355;
  host_window_sz = 127;
  dst_ip = ip;
  decrement_timeout = false;
  timed_out = false;
}

abbrev pub net : ℕ → Net
net ip = record {
  ether_addr = 2 ∷ 0 ∷ 0 ∷ 0 ∷ 0 ∷ 1 ∷ [];
  no_dropped_packets = 0;
  arp_state = record { table = []; pending = []; settled = [] };
  listeners = [];
  tcbs = open_to ip ∷ [];
  effects = [];
}

-- A segment that carries `body`.
abbrev pub segment : List ℕ → TcpTx
segment body = record {
  header = record zero_header {
    source_port = 65355;
    dest_port = 80;
    seq_n = 1025;
    data_offset = 5;
    ack = true;
  };
  dest_ip = our_ip_address;
  payload = body;
  payload_len = length body;
}

pub segment-IsHeader : (body : List ℕ) → Verify.IsHeader (segment body).header
segment-IsHeader body = omega arith

abbrev pub mac : List ℕ
mac = 0 ∷ 1 ∷ 2 ∷ 3 ∷ 4 ∷ 5 ∷ []

abbrev pub holding : List ℕ → Packet
holding frame = record {
  self = 100;
  data_addr = 200;
  cur_data = frame;
  data_length = length frame;
  cur_data_length = length frame;
  handler = ethernet;
  src_ip = 0;
  dst_ip = 0;
}

abbrev pub hello : TcpTx
hello = segment (7 ∷ 8 ∷ [])

abbrev pub hello_frame : List ℕ
hello_frame = ip_frame mac mac (datagram (segment_header hello) (sent_bytes hello))

pub hello_sent : ip4_sends (λ (a : ℕ). some mac) mac (tcp_tx hello) ≡ some hello_frame
hello_sent =
    (ip4_sends-tcp_tx (λ (a : ℕ). some mac) mac mac hello refl refl (omega arith) (omega arith)
      (omega arith)).0

rx_packet_loop-ip4_sends_example :
    rx_packet_loop 4 protocols (holding hello_frame) (net our_ip_address)
    ≡ some (
        delivered (holding hello_frame) (net our_ip_address) (
          tcp_rx (open_to our_ip_address ∷ []) (arrive (sent_checksum hello) our_ip_address hello)))
rx_packet_loop-ip4_sends_example =
    rx_packet_loop-ip4_sends (λ (a : ℕ). some mac) mac mac hello_frame hello (holding hello_frame)
      (net our_ip_address) refl refl refl refl (segment-IsHeader (7 ∷ 8 ∷ [])) refl (omega arith)
      (omega arith) hello_sent refl refl refl

-- Six bytes of padding behind a bare acknowledgement of the host 2.
abbrev bare : TcpTx
bare = segment []

abbrev pub ip_header : Ip4Header
ip_header = record {
  ihl = 5;
  version = 4;
  reserved_0 = 0;
  tot_length = 0x2800;
  identification = 0;
  reserved_1 = 0;
  ttl = 64;
  protocol = ip_proto_tcp;
  header_checksum = 0;
  src_ip = swap_endian32 2;
  dst_ip = swap_endian32 our_ip_address;
}

abbrev padded : List ℕ
padded = ip_frame mac mac (datagram ip_header (sent_bytes bare ++ replicate 6 0))

padded-Carries : Carries (holding padded) mac mac ip_header bare (replicate 6 0)
unfolding ip4_swap_endian
padded-Carries = record {
  dhost_six = refl;
  shost_six = refl;
  ip_fields =
      omega
        (arith, swap_endian32-lt 2 (omega arith), swap_endian32-lt our_ip_address (omega arith));
  no_options = refl;
  alive = omega arith;
  for_tcp = refl;
  for_us = swap_endian32-swap_endian32 our_ip_address (omega arith);
  tcp_fields = segment-IsHeader [];
  no_tcp_options = refl;
  injected = refl;
  frame = refl;
  frame_len =
      length-ip_frame mac mac (datagram ip_header (sent_bytes bare ++ replicate 6 0)) refl refl
      ∙ omega (
        arith,
        length-datagram ip_header (sent_bytes bare ++ replicate 6 0),
        length-append (sent_bytes bare) (replicate 6 0),
        length-sent_bytes bare (omega arith),
      );
  small = omega arith;
}

rx_packet_loop-filled_example :
    (u' : Tcb) × (rx_packet_loop 4 protocols (holding padded) (net 2)
      ≡ some (
          ok (
            packet_destroy (holding padded),
            record (net 2) {
              tcbs = u' ∷ [];
              effects = tcp_tx (tcp_tx_call (ack_header u') 2) ∷ wakeup tcp_waitq ∷ [];
            },
          )))
    × (bytes u'.rx_buf ≡ replicate 6 0)
    × (u'.cur_ack_n ≡ add32 1025 6)
rx_packet_loop-filled_example =
    rx_packet_loop-filled (holding padded) (net 2) mac mac (replicate 6 0) ip_header bare
      (open_to 2) [] padded-Carries refl refl refl refl
      (unfold ip4_swap_endian in swap_endian32-swap_endian32 2 (omega arith)) refl buffer-IsValid
      (omega arith) (λ e. omega (arith, e)) (omega arith)
