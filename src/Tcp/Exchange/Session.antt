-- ===== src/Tcp/Exchange/Session.antt =====
-- A connection in use: one program writes, the other reads, in any order.
use lpc17xx_network.Base.{
  ℕ, ◌^◌, ◌<◌, ◌≤◌, ◌≡◌, ◌≢◌, refl, sym, ◌∙◌, ap, List, [], ◌∷◌, ◌++◌, false, some, length, take,
  append_assoc,
}
use lpc17xx_network.Base.Run.{ok}
use lpc17xx_network.Cbuf.Inv.{IsValid, bytes}
use lpc17xx_network.Tcp.{Tcb, TcpTx}
use lpc17xx_network.Tcp.Receive.{Rx, tcp_rx}
use lpc17xx_network.Tcp.Calls.{is_close_wait, tcp_tx_data_start, tcp_rx_data_round}
use lpc17xx_network.Tcp.Calls.Data.{tcp_rx_data_round-append}
use lpc17xx_network.Tcp.Exchange.{arrive}
use lpc17xx_network.Tcp.Exchange.Handshake.{ArePaired}
use lpc17xx_network.Tcp.Exchange.Transfer.{tcp_tx_data-tcp_rx}
use lpc17xx_network.Tcp.Exchange.Place.{ComesFirst, same_place}
use lpc17xx_network.Tcp.Receive.{matches}

-- The two ends, with all that was written on one and all that was read on the other.
pub record Session : Type 0 where
  pub writer : Tcb
  pub reader : Tcb
  pub written : List ℕ
  pub taken : List ℕ

-- Between the hosts `a` and `b`, whose other connections stand before and behind these two in their lists.
module _ (a b : ℕ) (before_a on_a before_b on_b : List Tcb) where
  pub data Step (s : Session) : Session → Type 0 where
    -- A call of tcp_tx_data whose bytes fit the reader's buffer, with its acknowledgement.
    write :
        (c1 c2 len : ℕ) (payload : List ℕ) (rx back : Rx) (reply : TcpTx) (t u : Tcb)
        → len ≢ 0
        → len ≤ length payload
        → len ≤ s.reader.rx_buf.free_space
        → tcp_rx
            (before_b ++ s.reader ∷ on_b)
            (arrive c1 a (tcp_tx_data_start s.writer payload len).1)
          ≡ ok rx
        → rx.tcbs ≡ before_b ++ u ∷ on_b
        → rx.sent ≡ reply ∷ []
        → tcp_rx (before_a ++ (tcp_tx_data_start s.writer payload len).0 ∷ on_a) (arrive c2 b reply)
          ≡ ok back
        → back.tcbs ≡ before_a ++ t ∷ on_a
        → Step s (record {
          writer = t;
          reader = u;
          written = s.written ++ take len payload;
          taken = s.taken;
        })
    -- A round of tcp_rx_data.
    read :
        (len left : ℕ) (dst : List ℕ) (u : Tcb)
        → len < 2 ^ 32
        → tcp_rx_data_round s.reader len ≡ some (dst, left, u)
        → Step s
            (record { writer = s.writer; reader = u; written = s.written; taken = s.taken ++ dst })

  pub data Reach (s : Session) : Session → Type 0 where
    here : Reach s s
    next : {t u : Session} → Reach s t → Step t u → Reach s u

  -- What was read, followed by what the reader's buffer holds, is what was written.
  pub record InOrder (s : Session) : Type 0 where
    pub first_writer : ComesFirst s.writer before_a
    pub first_reader : ComesFirst s.reader before_b
    pub paired : ArePaired a b s.writer s.reader
    pub valid : IsValid s.reader.rx_buf
    pub settled : s.writer.unacked_byte_count ≡ 0
    pub in_order : s.taken ++ bytes s.reader.rx_buf ≡ s.written

  module _ (s : Session) (v : InOrder s) where
    write-InOrder :
        (c1 c2 len : ℕ) (payload : List ℕ) (rx back : Rx) (reply : TcpTx) (t u : Tcb)
        → len ≢ 0
        → len ≤ length payload
        → len ≤ s.reader.rx_buf.free_space
        → tcp_rx
            (before_b ++ s.reader ∷ on_b)
            (arrive c1 a (tcp_tx_data_start s.writer payload len).1)
          ≡ ok rx
        → rx.tcbs ≡ before_b ++ u ∷ on_b
        → rx.sent ≡ reply ∷ []
        → tcp_rx (before_a ++ (tcp_tx_data_start s.writer payload len).0 ∷ on_a) (arrive c2 b reply)
          ≡ ok back
        → back.tcbs ≡ before_a ++ t ∷ on_a
        → InOrder (record {
          writer = t;
          reader = u;
          written = s.written ++ take len payload;
          taken = s.taken;
        })
    write-InOrder c1 c2 len payload rx back reply t u nonzero long fits e tcbs sent f back_tcbs =
        let (t', u', reply', rx_e, back_e, valid, held, settled, kept, paired, first_t, first_u) =
          tcp_tx_data-tcp_rx a b c1 c2 len s.writer s.reader payload before_a on_a before_b on_b
            v.first_writer v.first_reader v.paired v.valid nonzero long fits v.settled in
        let same_u : u' ≡ u = same_place before_b u' u on_b cc in
        let same_reply : reply' ≡ reply = cc in
        let same_t : t' ≡ t = same_place before_a t' t on_a cc in
        rw (← same_u, ← same_t)
          (record {
            first_writer = first_t;
            first_reader = first_u;
            paired = paired;
            valid = valid;
            settled = settled;
            in_order =
                ap (λ l. s.taken ++ l) held
                ∙ sym (append_assoc s.taken (bytes s.reader.rx_buf) (take len payload))
                ∙ ap (λ l. l ++ take len payload) v.in_order;
          })

    read-InOrder :
        (len left : ℕ) (dst : List ℕ) (u : Tcb)
        → len < 2 ^ 32
        → tcp_rx_data_round s.reader len ≡ some (dst, left, u)
        → InOrder
            (record { writer = s.writer; reader = u; written = s.written; taken = s.taken ++ dst })
    unfolding matches
    read-InOrder len left dst u small e =
        let alive : is_close_wait s.reader.state ≡ false = rw v.paired.open_u refl in
        let (dst', buf, round, valid, joined, count) =
          tcp_rx_data_round-append s.reader len v.valid alive small in
        let same_u : record s.reader { rx_buf = buf } ≡ u = cc in
        let same_dst : dst' ≡ dst = cc in
        rw (← same_u, ← same_dst)
          (record {
            first_writer = v.first_writer;
            first_reader = v.first_reader;
            paired = record {
              open_t = v.paired.open_t;
              open_u = v.paired.open_u;
              port_tu = v.paired.port_tu;
              port_ut = v.paired.port_ut;
              ip_t = v.paired.ip_t;
              ip_u = v.paired.ip_u;
              seq_tu = v.paired.seq_tu;
              seq_ut = v.paired.seq_ut;
              seq_t_lt = v.paired.seq_t_lt;
              seq_u_lt = v.paired.seq_u_lt;
            };
            valid = valid;
            settled = v.settled;
            in_order =
                append_assoc s.taken dst' (bytes buf) ∙ ap (λ l. s.taken ++ l) joined ∙ v.in_order;
          })

  Step-InOrder : {s s' : Session} → Step s s' → InOrder s → InOrder s'
  Step-InOrder {s} (write c1 c2 len payload rx back reply t u nonzero long fits e tcbs sent f g) v =
      write-InOrder s v c1 c2 len payload rx back reply t u nonzero long fits e tcbs sent f g
  Step-InOrder {s} (read len left dst u small e) v = read-InOrder s v len left dst u small e

  -- Between two ends of an open connection, each the first of its host's list with these ports
  -- and this address, when each segment reaches tcp_rx with exactly the payload that was sent,
  -- without the padding of a short frame: one program calls tcp_tx_data and the other
  -- tcp_rx_data, in any order, each segment handled by tcp_rx and acknowledged before the next,
  -- and none longer than the free space. What the reader has read followed by what its buffer
  -- holds stays equal to what the writer has written, and the ends stay in step in ports,
  -- addresses, states and sequence numbers.
  pub Reach-InOrder : {s s' : Session} → Reach s s' → InOrder s → InOrder s'
  Reach-InOrder here v = v
  Reach-InOrder (next r st) v = Step-InOrder st (Reach-InOrder r v)
