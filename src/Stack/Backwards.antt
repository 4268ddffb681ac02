-- ===== src/Stack/Backwards.antt =====
-- Two frames that are injected before rx_task runs.
use lpc17xx_network.Base.{
  ℕ, ◌+◌, ◌≤◌, ◌≡◌, ◌≢◌, refl, sym, subst, ◌∙◌, ap, arith, List, [], ◌∷◌, ◌++◌, length, take,
  append_assoc, append-nil, length-take, add32, some,
}
use lpc17xx_network.Base.Run.{ok}
use lpc17xx_network.Cbuf.Inv.{IsValid, bytes}
use lpc17xx_network.Packet.{Packet, ethernet}
use lpc17xx_network.Protocol.{packet_inject, rx_packet_loop, rx_task}
use lpc17xx_network.Ipv4.{Ip4Header}
use lpc17xx_network.Tcp.{Tcb, TcpTx}
use lpc17xx_network.Stack.{Net, protocols}
use lpc17xx_network.Stack.Delivery.{Carries}
use lpc17xx_network.Stack.Padding.{HasTaken, IsFor, taken, rx_packet_loop-HasTaken}

-- A frame on its way into the stack, without padding, for a connection.
pub record Brings (pkt : Packet) (u : Tcb) (tx : TcpTx) : Type 0 where
  pub dhost : List ℕ
  pub shost : List ℕ
  pub header : Ip4Header
  pub carries : Carries (record pkt { handler = ethernet }) dhost shost header tx []
  pub for_it : IsFor u header tx
  pub some_bytes : tx.payload_len ≢ 0

-- Another state of the connection that has the same ports and address.
same_connection :
    {u u' : Tcb} {h : Ip4Header} {tx : TcpTx} {body : List ℕ}
    → HasTaken u u' body
    → IsFor u h tx
    → IsFor u' h tx
same_connection g f = record {
  open_here = g.state ∙ f.open_here;
  to_port = f.to_port ∙ sym g.src_port;
  from_port = f.from_port ∙ sym g.dst_port;
  from_ip = f.from_ip ∙ sym g.dst_ip;
  no_fin = f.no_fin;
  whole = f.whole;
}

rx_task_one :
    (pkt : Packet) (queue : List Packet) (s s' : Net) (blocks : List ℕ)
    → rx_packet_loop 4 protocols pkt s ≡ some (ok (blocks, s'))
    → rx_task 4 protocols (pkt ∷ queue) s ≡ rx_task 4 protocols queue s'
unfolding rx_task
rx_task_one pkt queue s s' blocks e = rw (rx_task, e) refl

rx_task_none : (s : Net) → rx_task 4 protocols [] s ≡ some (ok s)
unfolding rx_task
rx_task_none s = refl

-- The payload of a segment.
abbrev pub payload_of : TcpTx → List ℕ
payload_of tx = take tx.payload_len tx.payload

taken_bare :
    (u u' : Tcb) (tx : TcpTx) → HasTaken u u' (payload_of tx ++ []) → HasTaken u u' (payload_of tx)
taken_bare u u' tx g = subst (HasTaken u u') (append-nil (payload_of tx)) g

length-payload_of :
    (tx : TcpTx) → tx.payload_len ≤ length tx.payload → length (payload_of tx) ≡ tx.payload_len
length-payload_of tx whole = omega (arith, length-take tx.payload_len tx.payload)

-- One frame of the queue.
rx_task-Brings :
    (pkt : Packet) (queue : List Packet) (s : Net) (u : Tcb) (others : List Tcb) (tx : TcpTx)
    → Brings pkt u tx
    → s.tcbs ≡ u ∷ others
    → IsValid u.rx_buf
    → tx.payload_len ≤ u.rx_buf.free_space
    → (u' : Tcb) × HasTaken u u' (payload_of tx)
      × (rx_task 4 protocols (record pkt { handler = ethernet } ∷ queue) s
          ≡ rx_task 4 protocols queue (taken pkt s u u' others).1)
rx_task-Brings pkt queue s u others tx b at v fits =
    let all : tx.payload_len + 0 ≡ tx.payload_len = omega arith in
    let (u', run, grown) =
      rx_packet_loop-HasTaken (record pkt { handler = ethernet }) s b.dhost b.shost [] b.header tx u
        others b.carries at b.for_it v (λ e. b.some_bytes (omega (arith, e))) (omega arith) in
    (
      u',
      taken_bare u u' tx grown,
      rx_task_one (record pkt { handler = ethernet }) queue s (taken pkt s u u' others).1
          (taken (record pkt { handler = ethernet }) s u u' others).0 run,
    )

-- When two frames without padding, each with a segment without FIN for the open connection at the
-- head of the list, with data, are injected one after the other before rx_task runs, and their
-- data fits the well-formed buffer: rx_task empties the queue, the buffer then holds the data of
-- the second frame before that of the first, and the acknowledgement number has moved on by both
-- lengths.
pub rx_task-packet_inject :
    (p1 p2 : Packet) (s : Net) (u : Tcb) (others : List Tcb) (tx1 tx2 : TcpTx)
    → s.tcbs ≡ u ∷ others
    → IsValid u.rx_buf
    → Brings p1 u tx1
    → Brings p2 u tx2
    → tx1.payload_len + tx2.payload_len ≤ u.rx_buf.free_space
    → (s' : Net) × (u' : Tcb) × (rx_task 4 protocols
          (packet_inject p2 ethernet (packet_inject p1 ethernet []).0).0
          s
        ≡ some (ok s'))
      × (s'.tcbs ≡ u' ∷ others)
      × (bytes u'.rx_buf ≡ bytes u.rx_buf ++ (payload_of tx2 ++ payload_of tx1))
      × (u'.cur_ack_n ≡ add32 (add32 u.cur_ack_n tx2.payload_len) tx1.payload_len)
unfolding packet_inject
rx_task-packet_inject p1 p2 s u others tx1 tx2 at v b1 b2 fits =
    let size1 = length-payload_of tx1 b1.for_it.whole in
    let size2 = length-payload_of tx2 b2.for_it.whole in
    let (u2, g2, run2) =
      rx_task-Brings p2 (record p1 { handler = ethernet } ∷ []) s u others tx2 b2 at v
        (omega arith) in
    let s2 = (taken p2 s u u2 others).1 in
    let b : Brings p1 u2 tx1 = record {
      dhost = b1.dhost;
      shost = b1.shost;
      header = b1.header;
      carries = b1.carries;
      for_it = same_connection g2 b1.for_it;
      some_bytes = b1.some_bytes;
    } in
    let (u1, g1, run1) =
      rx_task-Brings p1 [] s2 u2 others tx1 b refl g2.valid (omega (arith, g2.free, size2)) in
    (
      (taken p1 s2 u2 u1 others).1,
      u1,
      run2 ∙ run1 ∙ rx_task_none (taken p1 s2 u2 u1 others).1,
      refl,
      g1.held
          ∙ ap (λ l. l ++ payload_of tx1) g2.held
          ∙ append_assoc (bytes u.rx_buf) (payload_of tx2) (payload_of tx1),
      g1.moved
          ∙ ap (λ n. add32 u2.cur_ack_n n) size1
          ∙ ap (λ n. add32 n tx1.payload_len) (g2.moved ∙ ap (λ n. add32 u.cur_ack_n n) size2),
    )
