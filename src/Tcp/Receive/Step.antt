-- ===== src/Tcp/Receive/Step.antt =====
-- The cases of the switch in tcp_rx_packet.
use lpc17xx_network.Base.{
  ◌≤◌, ◌≡◌, ◌≢◌, refl, arith, List, ◌++◌, Bool, true, false, ◌&&◌, ◌==◌, Bool-cases, inl, inr,
  ==_ne, length, take, add32, if◌then◌else◌,
}
use lpc17xx_network.Cbuf.Inv.{IsValid, bytes}
use lpc17xx_network.Cbuf.Push.{circular_buf_push-append}
use lpc17xx_network.Tcp.{
  TcpHeader, TcpState, closed, listen, syn_sent, syn_received, established, close_wait, last_ack,
  fin_wait1, fin_wait2, closing, time_wait, Tcb, TcpTx,
}
use lpc17xx_network.Tcp.Receive.{
  Segment, Switched, stays, on_syn_sent, on_listen, on_syn_received, take_ack, take_fin, take_data,
  on_established, on_fin_wait2, on_fin_wait1, on_closing, switch,
}

-- The moves of a connection when a segment with the header `h` comes in.
pub data Transition (h : TcpHeader) : TcpState → TcpState → Type 0 where
  same : {a : TcpState} → Transition h a a
  opened : h.syn ≡ true → h.ack ≡ true → Transition h syn_sent established
  refused : Transition h syn_sent closed
  arrived : h.syn ≡ true → Transition h listen syn_received
  agreed : h.ack ≡ true → Transition h syn_received established
  peer_closed : h.fin ≡ true → Transition h established close_wait
  fin_acked : h.ack ≡ true → Transition h fin_wait1 fin_wait2
  crossed : h.fin ≡ true → Transition h fin_wait1 closing
  ended1 : h.fin ≡ true → h.ack ≡ true → Transition h fin_wait1 time_wait
  ended2 : h.fin ≡ true → h.ack ≡ true → Transition h fin_wait2 time_wait
  ended3 : Transition h closing time_wait

-- A case of the switch keeps the connection, its address and its local port, and moves its state
-- by a transition.
pub data Moves (h : TcpHeader) (t : Tcb) : Switched → Type 0 where
  moves :
      {t' : Tcb} {send : Bool} {sent : List TcpTx}
      → Transition h t.state t'.state
      → t'.self ≡ t.self
      → t'.src_port ≡ t.src_port
      → Moves h t (stays t' send sent)

-- A property of both branches of a test.
test :
    (P : Switched → Type 0) (b : Bool) (x y : Switched)
    → (b ≡ true → P x)
    → (b ≡ false → P y)
    → P (if b then x else y)
test P true x y f g = f refl
test P false x y f g = g refl

fin-Transition :
    (h : TcpHeader) (b : Bool)
    → h.fin ≡ b
    → Transition h established (if b then close_wait else established)
fin-Transition h true e = peer_closed e
fin-Transition h false e = same

module _ (t : Tcb) (s : Segment) where
  on_syn_sent-Moves : t.state ≡ syn_sent → Moves s.header t (on_syn_sent t s)
  unfolding on_syn_sent
  on_syn_sent-Moves e =
      test (Moves s.header t) (s.header.syn && s.header.ack) _ _
        (λ b. moves (rw e (opened (ground arith) (ground arith))) refl refl)
        (λ b. moves (rw e refused) refl refl)

  on_listen-Moves : t.state ≡ listen → Moves s.header t (on_listen t s)
  unfolding on_listen
  on_listen-Moves e =
      test (Moves s.header t) s.header.syn _ _ (λ b. moves (rw e (arrived b)) refl refl)
        (λ b. moves same refl refl)

  on_syn_received-Moves : t.state ≡ syn_received → Moves s.header t (on_syn_received t s)
  unfolding on_syn_received
  on_syn_received-Moves e =
      test (Moves s.header t) s.header.ack _ _ (λ b. moves (rw e (agreed b)) refl refl)
        (λ b. moves same refl refl)

  -- The connection that an established one becomes.
  after : Tcb
  after = take_data (take_fin (take_ack t s.header) s.header) s

  after-self : (after.self ≡ t.self) × (after.src_port ≡ t.src_port)
  unfolding after take_data take_fin take_ack
  after-self = ground arith

  after-state : after.state ≡ (if s.header.fin then close_wait else t.state)
  unfolding after take_data take_fin take_ack
  after-state = ground arith

  after-Transition : t.state ≡ established → Transition s.header t.state after.state
  after-Transition e = rw (after-state, e) (fin-Transition s.header s.header.fin refl)

  on_established-Moves : t.state ≡ established → Moves s.header t (on_established t s)
  unfolding on_established after
  on_established-Moves e = moves (after-Transition e) after-self.0 after-self.1

  on_fin_wait2-Moves : t.state ≡ fin_wait2 → Moves s.header t (on_fin_wait2 t s)
  unfolding on_fin_wait2
  on_fin_wait2-Moves e =
      test (Moves s.header t) (s.header.fin && s.header.ack) _ _
        (λ b. moves (rw e (ended2 (ground arith) (ground arith))) refl refl)
        (λ b. moves same refl refl)

  on_fin_wait1-Moves : t.state ≡ fin_wait1 → Moves s.header t (on_fin_wait1 t s)
  unfolding on_fin_wait1 on_fin_wait2
  on_fin_wait1-Moves e =
      let acked = s.header.ack && (s.header.ack_n == t.cur_seq_n) in
      test (Moves s.header t) (s.header.fin && acked) _ _
        (λ b. moves (rw e (ended1 (ground arith) (ground arith))) refl refl)
        (λ b.
          test (Moves s.header t) acked _ _ (λ c. moves (rw e (fin_acked (ground arith))) refl refl)
            (λ c.
              test (Moves s.header t) s.header.fin _ _ (λ d. moves (rw e (crossed d)) refl refl)
                (λ d. rw d (moves same refl refl))))

  on_closing-Moves : t.state ≡ closing → Moves s.header t (on_closing t s)
  unfolding on_closing
  on_closing-Moves e = elim (Bool-cases s.header.ack) [
    | inl b ↦ rw b (moves (rw e ended3) refl refl)
    | inr b ↦ rw b (moves (rw e ended3) refl refl)
  ]

  -- In every state but CLOSE_WAIT, whose segments do not reach the switch.
  pub switch-Moves : (a : TcpState) → t.state ≡ a → a ≢ close_wait → Moves s.header t (switch a t s)
  unfolding switch
  switch-Moves closed e ne = moves same refl refl
  switch-Moves listen e ne = on_listen-Moves e
  switch-Moves syn_sent e ne = on_syn_sent-Moves e
  switch-Moves syn_received e ne = on_syn_received-Moves e
  switch-Moves established e ne = on_established-Moves e
  switch-Moves close_wait e ne = absurd (ne refl)
  switch-Moves last_ack e ne = moves same refl refl
  switch-Moves fin_wait1 e ne = on_fin_wait1-Moves e
  switch-Moves fin_wait2 e ne = on_fin_wait2-Moves e
  switch-Moves closing e ne = on_closing-Moves e
  switch-Moves time_wait e ne = moves same refl refl

-- When the data of a segment, one byte or more, fits the free space of a connection's well-formed
-- buffer, it is appended to the buffer, and the acknowledgement number moves on by its length.
pub take_data-append :
    (t : Tcb) (s : Segment)
    → IsValid t.rx_buf
    → s.data_len ≤ t.rx_buf.free_space
    → s.data_len ≤ length s.body
    → s.data_len ≢ 0
    → IsValid (take_data t s).rx_buf
      × (bytes (take_data t s).rx_buf ≡ bytes t.rx_buf ++ take s.data_len s.body)
      × ((take_data t s).cur_ack_n ≡ add32 t.cur_ack_n s.data_len)
unfolding take_data
take_data-append t s v fits long some_data =
    let (valid, held, free) = circular_buf_push-append s.body s.data_len v fits long in
    rw (==_ne s.data_len 0 some_data) (valid, held, refl)
