-- ===== src/Tcp/Exchange/Transfer.antt =====
-- Data that tcp_tx_data sends over an open connection, and its acknowledgement.
use lpc17xx_network.Base.{
  ℕ, ◌^◌, ◌<◌, ◌≤◌, ◌≡◌, ◌≢◌, refl, ◌∙◌, ap, arith, List, [], ◌∷◌, ◌++◌, true, false, ==_refl,
  ==_ne, lt→ltb, add32, sub32, length, take, length-take, take-take,
}
use lpc17xx_network.Base.Run.{ok}
use lpc17xx_network.Cbuf.{circular_buf_push}
use lpc17xx_network.Cbuf.Push.{circular_buf_push-append}
use lpc17xx_network.Cbuf.Inv.{IsValid, bytes}
use lpc17xx_network.Effect.{tcp_waitq}
use lpc17xx_network.Tcp.{established, Tcb, TcpTx, tcp_tx_call, tcp_header_prepopulate, ack_header}
use lpc17xx_network.Tcp.Receive.{
  Segment, matches, switch, guarded, stop_timer, finish, tcp_rx, acked_bytes, take_ack, take_fin,
  take_data, on_established, stays,
}
use lpc17xx_network.Tcp.Calls.{tcp_tx_data_start}
use lpc17xx_network.Tcp.Exchange.{arrive, with_bytes}
use lpc17xx_network.Tcp.Exchange.Place.{ComesFirst, tcp_rx-established}
use lpc17xx_network.Tcp.Exchange.Handshake.{ArePaired, find_tcb-first, tcp_rx-first}

-- An open connection at the head of the list takes an acknowledgement and data.
pub rx_established :
    (s : Segment) (u : Tcb) (others : List Tcb)
    → u.state ≡ established
    → matches s u ≡ true
    → tcp_rx (u ∷ others) s ≡ ok (finish (u ∷ others) 0 s (on_established (stop_timer u) s))
unfolding guarded switch
rx_established s u others e m =
    tcp_rx-first s u others (on_established (stop_timer u) s) (find_tcb-first s u others m)
      (rw (guarded, e, switch) refl)

-- The connection that sends, and its segment.
abbrev pub sender : Tcb → ℕ → Tcb
sender t len = record t { unacked_byte_count = add32 t.unacked_byte_count len }

abbrev pub data_segment : Tcb → List ℕ → ℕ → TcpTx
data_segment t payload len = record {
  header = ack_header t;
  dest_ip = t.dst_ip;
  payload = payload;
  payload_len = len;
}

-- The connection that has received it, and the one that has its acknowledgement.
abbrev pub receiver : Tcb → Tcb → List ℕ → ℕ → Tcb
receiver t u payload len = record (stop_timer u) {
  rx_buf = circular_buf_push u.rx_buf (take len payload) len;
  cur_seq_n = t.cur_ack_n;
  cur_ack_n = add32 u.cur_ack_n len;
}

abbrev pub acked : Tcb → ℕ → Tcb
acked t len = record (stop_timer t) { cur_seq_n = add32 t.cur_seq_n len }

abbrev pub padded : Tcb → ℕ → List ℕ → Tcb
padded t len pad = record (acked t len) {
  rx_buf = circular_buf_push t.rx_buf pad (length pad);
  cur_ack_n = add32 t.cur_ack_n (length pad);
}

module _ (a b : ℕ) (t u : Tcb) (payload : List ℕ) (len c : ℕ) where
  received_data :
      ArePaired a b t u
      → len ≢ 0
      → on_established (stop_timer u) (arrive c a (data_segment t payload len))
        ≡ stays (receiver t u payload len) true []
  unfolding on_established take_ack take_fin take_data acked_bytes tcp_header_prepopulate
  received_data p some =
      let none_acked : sub32 t.cur_ack_n u.cur_seq_n ≡ 0 = omega (arith, p.seq_ut, p.seq_u_lt) in
      rw (==_ne len 0 some, none_acked) refl

  -- It takes the segments of the other end.
  data_matches : ArePaired a b t u → matches (arrive c a (data_segment t payload len)) u ≡ true
  unfolding matches tcp_header_prepopulate
  data_matches p =
      rw (p.port_tu, ← p.port_ut, p.ip_u, ==_refl u.src_port, ==_refl u.dst_port, ==_refl a) refl

  pub rx_data :
      (before others : List Tcb)
      → ComesFirst u before
      → ArePaired a b t u
      → len ≢ 0
      → tcp_rx (before ++ u ∷ others) (arrive c a (data_segment t payload len))
        ≡ ok (record {
          tcbs = before ++ receiver t u payload len ∷ others;
          sent = tcp_tx_call (ack_header (receiver t u payload len)) a ∷ [];
          woken = tcp_waitq ∷ [];
        })
  rx_data before others first p some =
      tcp_rx-established (arrive c a (data_segment t payload len)) before u others first
        (data_matches p) (receiver t u payload len) true p.open_u (received_data p some)

  acked_data :
      ArePaired a b t u
      → len ≢ 0
      → len < 2 ^ 31
      → t.unacked_byte_count < 2 ^ 31
      → on_established
          (stop_timer (sender t len))
          (arrive c b (tcp_tx_call (ack_header (receiver t u payload len)) a))
        ≡ stays (acked t len) false []
  unfolding on_established take_ack take_fin take_data acked_bytes tcp_header_prepopulate
  acked_data p some small few =
      let all_acked : sub32 (add32 u.cur_ack_n len) t.cur_seq_n ≡ len =
        omega (arith, p.seq_tu, p.seq_t_lt) in
      let settled : sub32 (add32 t.unacked_byte_count len) len ≡ t.unacked_byte_count =
        omega arith in
      rw
        (
          all_acked,
          ==_ne len 0 some,
          lt→ltb 0 len (omega arith),
          lt→ltb len (2 ^ 31) small,
          settled,
          ← p.seq_tu,
        )
        refl

  ack_matches :
      ArePaired a b t u
      → matches (arrive c b (tcp_tx_call (ack_header (receiver t u payload len)) a)) t ≡ true
  unfolding matches tcp_header_prepopulate
  ack_matches p =
      rw (p.port_tu, ← p.port_ut, p.ip_t, ==_refl u.src_port, ==_refl u.dst_port, ==_refl b) refl

  pub rx_ack :
      (before others : List Tcb)
      → ComesFirst t before
      → ArePaired a b t u
      → len ≢ 0
      → len < 2 ^ 31
      → t.unacked_byte_count < 2 ^ 31
      → tcp_rx
          (before ++ sender t len ∷ others)
          (arrive c b (tcp_tx_call (ack_header (receiver t u payload len)) a))
        ≡ ok (record { tcbs = before ++ acked t len ∷ others; sent = []; woken = tcp_waitq ∷ [] })
  unfolding matches
  rx_ack before others first p some small few =
      tcp_rx-established (arrive c b (tcp_tx_call (ack_header (receiver t u payload len)) a)) before
        (sender t len) others first (ack_matches p) (acked t len) false p.open_t
        (acked_data p some small few)

  -- The acknowledgement with padding behind it.
  module _ (pad : List ℕ) where
    padded_data :
        ArePaired a b t u
        → len ≢ 0
        → len < 2 ^ 31
        → t.unacked_byte_count < 2 ^ 31
        → length pad ≢ 0
        → on_established (stop_timer (sender t len)) (
            with_bytes pad
              (length pad)
              (arrive c b (tcp_tx_call (ack_header (receiver t u payload len)) a)))
          ≡ stays (padded t len pad) true []
    unfolding on_established take_ack take_fin take_data acked_bytes tcp_header_prepopulate
    padded_data p some small few more =
        let all_acked : sub32 (add32 u.cur_ack_n len) t.cur_seq_n ≡ len =
          omega (arith, p.seq_tu, p.seq_t_lt) in
        let settled : sub32 (add32 t.unacked_byte_count len) len ≡ t.unacked_byte_count =
          omega arith in
        rw
          (
            all_acked,
            ==_ne len 0 some,
            ==_ne (length pad) 0 more,
            lt→ltb 0 len (omega arith),
            lt→ltb len (2 ^ 31) small,
            settled,
            ← p.seq_tu,
          )
          refl

    rx_padded :
        (before others : List Tcb)
        → ComesFirst t before
        → ArePaired a b t u
        → len ≢ 0
        → len < 2 ^ 31
        → t.unacked_byte_count < 2 ^ 31
        → length pad ≢ 0
        → tcp_rx (before ++ sender t len ∷ others) (
            with_bytes pad
              (length pad)
              (arrive c b (tcp_tx_call (ack_header (receiver t u payload len)) a)))
          ≡ ok (record {
            tcbs = before ++ padded t len pad ∷ others;
            sent = tcp_tx_call (ack_header (padded t len pad)) b ∷ [];
            woken = tcp_waitq ∷ [];
          })
    unfolding matches
    rx_padded before others first p some small few more =
        tcp_rx-established
          (with_bytes pad (length pad)
            (arrive c b (tcp_tx_call (ack_header (receiver t u payload len)) a)))
          before (sender t len) others first (ack_matches p) (padded t len pad) true p.open_t
          (padded_data p some small few more)

paired_after :
    (a b : ℕ) (t u : Tcb) (payload : List ℕ) (len : ℕ)
    → ArePaired a b t u
    → ArePaired a b (acked t len) (receiver t u payload len)
paired_after a b t u payload len p = record {
  open_t = p.open_t;
  open_u = p.open_u;
  port_tu = p.port_tu;
  port_ut = p.port_ut;
  ip_t = p.ip_t;
  ip_u = p.ip_u;
  seq_tu = ap (λ n. add32 n len) p.seq_tu;
  seq_ut = refl;
  seq_t_lt = omega arith;
  seq_u_lt = omega (arith, p.seq_ut, p.seq_u_lt);
}

-- The same without padding; both ends come first among the connections like them again.
pub tcp_tx_data-tcp_rx :
    (a b c1 c2 len : ℕ) (t u : Tcb) (payload : List ℕ) (before_a on_a before_b on_b : List Tcb)
    → ComesFirst t before_a
    → ComesFirst u before_b
    → ArePaired a b t u
    → IsValid u.rx_buf
    → len ≢ 0
    → len ≤ length payload
    → len ≤ u.rx_buf.free_space
    → t.unacked_byte_count ≡ 0
    → let (t1, segment) = tcp_tx_data_start t payload len in
      (t' : Tcb) × (u' : Tcb) × (reply : TcpTx) × (tcp_rx
          (before_b ++ u ∷ on_b)
          (arrive c1 a segment)
        ≡ ok (record { tcbs = before_b ++ u' ∷ on_b; sent = reply ∷ []; woken = tcp_waitq ∷ [] }))
      × (tcp_rx (before_a ++ t1 ∷ on_a) (arrive c2 b reply)
          ≡ ok (record { tcbs = before_a ++ t' ∷ on_a; sent = []; woken = tcp_waitq ∷ [] }))
      × IsValid u'.rx_buf
      × (bytes u'.rx_buf ≡ bytes u.rx_buf ++ take len payload)
      × (t'.unacked_byte_count ≡ 0)
      × (t'.rx_buf ≡ t.rx_buf)
      × ArePaired a b t' u'
      × ComesFirst t' before_a
      × ComesFirst u' before_b
unfolding tcp_tx_data_start matches
tcp_tx_data-tcp_rx a b c1 c2 len t u payload before_a on_a before_b on_b first_t first_u p v some
      long fits done =
    let (valid, held, free) =
      circular_buf_push-append (take len payload) len v fits
        (omega (arith, length-take len payload)) in
    (
      acked t len,
      receiver t u payload len,
      tcp_tx_call (ack_header (receiver t u payload len)) a,
      rx_data a b t u payload len c1 before_b on_b first_u p some,
      rx_ack a b t u payload len c2 before_a on_a first_t p some (omega (arith, v.free_in, v.small))
          (omega arith),
      valid,
      held ∙ ap (λ l. bytes u.rx_buf ++ l) (take-take len payload),
      done,
      refl,
      paired_after a b t u payload len p,
      first_t,
      first_u,
    )

-- Between two ends in step, each the first of its host's list with these ports and this address,
-- with nothing unacknowledged: a segment of tcp_tx_data, with one byte or more and without
-- padding, that fits the receiver's well-formed buffer is appended to it and acknowledged. The
-- acknowledgement arrives with one byte or more of padding of its frame behind it, which fits the
-- sender's well-formed buffer: the sender's count of unacknowledged bytes goes back to zero, but
-- it stores the padding as data, answers with an acknowledgement of its own, and acknowledges
-- beyond what the receiver sends next by the length of the padding. But for that number the two
-- ends are in step again.
pub tcp_tx_data-tcp_rx_padded :
    (a b c1 c2 len : ℕ) (t u : Tcb) (payload pad : List ℕ) (before_a on_a before_b on_b : List Tcb)
    → ComesFirst t before_a
    → ComesFirst u before_b
    → ArePaired a b t u
    → IsValid t.rx_buf
    → IsValid u.rx_buf
    → len ≢ 0
    → len ≤ length payload
    → len ≤ u.rx_buf.free_space
    → t.unacked_byte_count ≡ 0
    → length pad ≢ 0
    → length pad ≤ t.rx_buf.free_space
    → let (t1, segment) = tcp_tx_data_start t payload len in
      (t' : Tcb) × (u' : Tcb) × (reply : TcpTx) × (answer : TcpTx) × (tcp_rx
          (before_b ++ u ∷ on_b)
          (arrive c1 a segment)
        ≡ ok (record { tcbs = before_b ++ u' ∷ on_b; sent = reply ∷ []; woken = tcp_waitq ∷ [] }))
      × (tcp_rx (before_a ++ t1 ∷ on_a) (with_bytes pad (length pad) (arrive c2 b reply))
          ≡ ok
              (record { tcbs = before_a ++ t' ∷ on_a; sent = answer ∷ []; woken = tcp_waitq ∷ [] }))
      × IsValid u'.rx_buf
      × (bytes u'.rx_buf ≡ bytes u.rx_buf ++ take len payload)
      × (t'.unacked_byte_count ≡ 0)
      × IsValid t'.rx_buf
      × (bytes t'.rx_buf ≡ bytes t.rx_buf ++ pad)
      × (t'.cur_ack_n ≡ add32 u'.cur_seq_n (length pad))
      × (answer.header.ack_n ≡ t'.cur_ack_n)
      × ArePaired a b (record t' { cur_ack_n = u'.cur_seq_n }) u'
unfolding tcp_tx_data_start tcp_header_prepopulate
tcp_tx_data-tcp_rx_padded a b c1 c2 len t u payload pad before_a on_a before_b on_b first_t first_u
      p vt v some long fits done more room =
    let (valid, held, free) =
      circular_buf_push-append (take len payload) len v fits
        (omega (arith, length-take len payload)) in
    let (valid_t, held_t, free_t) =
      circular_buf_push-append pad (length pad) vt room (omega arith) in
    let q = paired_after a b t u payload len p in
    (
      padded t len pad,
      receiver t u payload len,
      tcp_tx_call (ack_header (receiver t u payload len)) a,
      tcp_tx_call (ack_header (padded t len pad)) b,
      rx_data a b t u payload len c1 before_b on_b first_u p some,
      rx_padded a b t u payload len c2 pad before_a on_a first_t p some
          (omega (arith, v.free_in, v.small)) (omega arith) more,
      valid,
      held ∙ ap (λ l. bytes u.rx_buf ++ l) (take-take len payload),
      done,
      valid_t,
      held_t ∙ ap (λ l. bytes t.rx_buf ++ l) (take_all pad),
      refl,
      refl,
      record {
        open_t = q.open_t;
        open_u = q.open_u;
        port_tu = q.port_tu;
        port_ut = q.port_ut;
        ip_t = q.ip_t;
        ip_u = q.ip_u;
        seq_tu = q.seq_tu;
        seq_ut = q.seq_ut;
        seq_t_lt = q.seq_t_lt;
        seq_u_lt = q.seq_u_lt;
      },
    )
  where
    take_all : (l : List ℕ) → take (length l) l ≡ l
    take_all [] = refl
    take_all (x ∷ xs) = ap (λ l. x ∷ l) (take_all xs)
