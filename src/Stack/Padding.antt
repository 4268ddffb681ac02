-- ===== src/Stack/Padding.antt =====
-- A frame for an open connection, and the padding at its end.
use lpc17xx_network.Base.{
  ℕ, ◌+◌, ◌-◌, ◌≤◌, ◌≡◌, ◌≢◌, refl, sym, ◌∙◌, ap, arith, List, [], ◌∷◌, ◌++◌, length, take,
  length-append, length-take, take-length, add32, true, false, some, ==_ne, ==_refl, Bool-cases,
  inl, inr,
}
use lpc17xx_network.Base.Run.{ok}
use lpc17xx_network.Cbuf.Inv.{IsValid, bytes}
use lpc17xx_network.Packet.{Packet, packet_destroy}
use lpc17xx_network.Effect.{wakeup, tcp_waitq}
use lpc17xx_network.Protocol.{rx_packet_loop}
use lpc17xx_network.Ipv4.{Ip4Header, ip4_swap_endian}
use lpc17xx_network.Tcp.{Tcb, TcpTx, established, ack_header, tcp_tx_call}
use lpc17xx_network.Tcp.Transmit.{tcp_tx}
use lpc17xx_network.Tcp.Receive.{
  Segment, matches, stop_timer, finish, tcp_rx, take_ack, take_fin, take_data, on_established,
}
use lpc17xx_network.Cbuf.{circular_buf_push}
use lpc17xx_network.Cbuf.Push.{circular_buf_push-append}
use lpc17xx_network.Tcp.Exchange.Transfer.{rx_established}
use lpc17xx_network.Stack.{Net, protocols}
use lpc17xx_network.Stack.Delivery.{Carries, carried, delivered, rx_packet_loop-segment}

-- The connection after a segment without FIN that brings bytes.
abbrev pub filled : Tcb → Segment → Tcb
filled u seg = take_data (take_ack (stop_timer u) seg.header) seg

-- A connection that has taken the bytes `body` is the one that it was, with these in its buffer.
pub record HasTaken (u u' : Tcb) (body : List ℕ) : Type 0 where
  pub state : u'.state ≡ u.state
  pub src_port : u'.src_port ≡ u.src_port
  pub dst_port : u'.dst_port ≡ u.dst_port
  pub dst_ip : u'.dst_ip ≡ u.dst_ip
  pub valid : IsValid u'.rx_buf
  pub held : bytes u'.rx_buf ≡ bytes u.rx_buf ++ body
  pub free : u'.rx_buf.free_space ≡ u.rx_buf.free_space - length body
  pub moved : u'.cur_ack_n ≡ add32 u.cur_ack_n (length body)

push-HasTaken :
    (u : Tcb) (seg : Segment) (unacked seq : ℕ)
    → IsValid u.rx_buf
    → length seg.body ≡ seg.data_len
    → seg.data_len ≤ u.rx_buf.free_space
    → HasTaken u
        (record (stop_timer u) {
          unacked_byte_count = unacked;
          cur_seq_n = seq;
          rx_buf = circular_buf_push u.rx_buf seg.body seg.data_len;
          cur_ack_n = add32 u.cur_ack_n seg.data_len;
        })
        seg.body
push-HasTaken u seg unacked seq v size fits =
    let (valid, held, free) =
      circular_buf_push-append seg.body seg.data_len v fits (omega (arith, size)) in
    let all : take seg.data_len seg.body ≡ seg.body =
      ap (λ n. take n seg.body) (sym size) ∙ take-length seg.body in
    record {
      state = refl;
      src_port = refl;
      dst_port = refl;
      dst_ip = refl;
      valid = valid;
      held = held ∙ ap (λ l. bytes u.rx_buf ++ l) all;
      free = free ∙ ap (λ n. u.rx_buf.free_space - n) (sym size);
      moved = ap (λ n. add32 u.cur_ack_n n) (sym size);
    }

filled-HasTaken :
    (u : Tcb) (seg : Segment)
    → IsValid u.rx_buf
    → length seg.body ≡ seg.data_len
    → seg.data_len ≢ 0
    → seg.data_len ≤ u.rx_buf.free_space
    → HasTaken u (filled u seg) seg.body
unfolding take_ack take_data
filled-HasTaken u seg v size some_data fits = elim (Bool-cases seg.header.ack) [
  | inl on ↦ rw (==_ne seg.data_len 0 some_data, on) (push-HasTaken u seg _ _ v size fits)
  | inr off ↦ rw (==_ne seg.data_len 0 some_data, off) (push-HasTaken u seg _ _ v size fits)
]

tcp_rx-filled :
    (seg : Segment) (u : Tcb) (others : List Tcb)
    → u.state ≡ established
    → matches seg u ≡ true
    → seg.header.fin ≡ false
    → seg.data_len ≢ 0
    → tcp_rx (u ∷ others) seg
      ≡ ok (record {
        tcbs = filled u seg ∷ others;
        sent = tcp_tx_call (ack_header (filled u seg)) seg.src_ip ∷ [];
        woken = tcp_waitq ∷ [];
      })
unfolding on_established take_fin finish
tcp_rx-filled seg u others est m fin some_data =
    rx_established seg u others est m ∙ rw (fin, ==_ne seg.data_len 0 some_data) refl

-- A segment without FIN, of the host and the ports that an open connection is for.
pub record IsFor (u : Tcb) (h : Ip4Header) (tx : TcpTx) : Type 0 where
  pub open_here : u.state ≡ established
  pub to_port : tx.header.dest_port ≡ u.src_port
  pub from_port : tx.header.source_port ≡ u.dst_port
  pub from_ip : (ip4_swap_endian h).src_ip ≡ u.dst_ip
  pub no_fin : tx.header.fin ≡ false
  pub whole : tx.payload_len ≤ length tx.payload

-- What the packet leaves.
abbrev pub taken : Packet → Net → Tcb → Tcb → List Tcb → List ℕ × Net
taken pkt s u u' others = (
  packet_destroy pkt,
  record s {
    tcbs = u' ∷ others;
    effects = s.effects ++ (tcp_tx (tcp_tx_call (ack_header u') u.dst_ip) ∷ wakeup tcp_waitq ∷ []);
  },
)

pub rx_packet_loop-HasTaken :
    (pkt : Packet) (s : Net) (dhost shost pad : List ℕ) (h : Ip4Header) (tx : TcpTx) (u : Tcb)
    (others : List Tcb)
    → Carries pkt dhost shost h tx pad
    → s.tcbs ≡ u ∷ others
    → IsFor u h tx
    → IsValid u.rx_buf
    → tx.payload_len + length pad ≢ 0
    → tx.payload_len + length pad ≤ u.rx_buf.free_space
    → (u' : Tcb) × (rx_packet_loop 4 protocols pkt s ≡ some (ok (taken pkt s u u' others)))
      × HasTaken u u' (take tx.payload_len tx.payload ++ pad)
unfolding matches
rx_packet_loop-HasTaken pkt s dhost shost pad h tx u others c at f v some_data fits =
    let seg = carried h tx pad in
    let body = take tx.payload_len tx.payload ++ pad in
    let size : length body ≡ tx.payload_len + length pad = omega (
      arith,
      length-append (take tx.payload_len tx.payload) pad,
      length-take tx.payload_len tx.payload,
      f.whole,
    ) in
    let m : matches seg u ≡ true =
      rw
        (
          f.to_port,
          f.from_port,
          f.from_ip,
          ==_refl u.src_port,
          ==_refl u.dst_port,
          ==_refl u.dst_ip,
        )
        refl in
    (
      filled u seg,
      rx_packet_loop-segment pkt s dhost shost pad h tx c
          ∙ ap (λ ts. some (delivered pkt s (tcp_rx ts seg))) at
          ∙ ap (λ r. some (delivered pkt s r))
              (tcp_rx-filled seg u others f.open_here m f.no_fin some_data)
          ∙ rw (f.from_ip) refl,
      filled-HasTaken u seg v size some_data fits,
    )

-- A frame with a segment without FIN for the open connection at the head of the list, and padding
-- behind its datagram, that together fit the well-formed buffer and are one byte or more: the
-- padding is appended to the buffer behind the payload, and the acknowledgement that goes out
-- counts both.
pub rx_packet_loop-filled :
    (pkt : Packet) (s : Net) (dhost shost pad : List ℕ) (h : Ip4Header) (tx : TcpTx) (u : Tcb)
    (others : List Tcb)
    → Carries pkt dhost shost h tx pad
    → s.tcbs ≡ u ∷ others
    → u.state ≡ established
    → tx.header.dest_port ≡ u.src_port
    → tx.header.source_port ≡ u.dst_port
    → (ip4_swap_endian h).src_ip ≡ u.dst_ip
    → tx.header.fin ≡ false
    → IsValid u.rx_buf
    → tx.payload_len ≤ length tx.payload
    → tx.payload_len + length pad ≢ 0
    → tx.payload_len + length pad ≤ u.rx_buf.free_space
    → (u' : Tcb) × (rx_packet_loop 4 protocols pkt s
        ≡ some (
            ok (
              packet_destroy pkt,
              record s {
                tcbs = u' ∷ others;
                effects =
                    s.effects
                    ++ (tcp_tx (tcp_tx_call (ack_header u') u.dst_ip) ∷ wakeup tcp_waitq ∷ []);
              },
            )))
      × (bytes u'.rx_buf ≡ bytes u.rx_buf ++ (take tx.payload_len tx.payload ++ pad))
      × (u'.cur_ack_n ≡ add32 u.cur_ack_n (tx.payload_len + length pad))
rx_packet_loop-filled pkt s dhost shost pad h tx u others c at est to from ip fin v long some_data
      fits =
    let f : IsFor u h tx = record {
      open_here = est;
      to_port = to;
      from_port = from;
      from_ip = ip;
      no_fin = fin;
      whole = long;
    } in
    let (u', run, grown) =
      rx_packet_loop-HasTaken pkt s dhost shost pad h tx u others c at f v some_data fits in
    let size : length (take tx.payload_len tx.payload ++ pad) ≡ tx.payload_len + length pad =
      omega (
        arith,
        length-append (take tx.payload_len tx.payload) pad,
        length-take tx.payload_len tx.payload,
        long,
      ) in
    (u', run, grown.held, grown.moved ∙ ap (λ n. add32 u.cur_ack_n n) size)
