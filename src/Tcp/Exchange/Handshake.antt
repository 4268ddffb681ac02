-- ===== src/Tcp/Exchange/Handshake.antt =====
-- The handshake between tcp_connect on one host and tcp_listen on another.
use lpc17xx_network.Base.{
  ℕ, ◌^◌, ◌<◌, ◌≡◌, refl, arith, List, [], ◌∷◌, true, false, none, some, ==_refl,
}
use lpc17xx_network.Base.Run.{ok}
use lpc17xx_network.Effect.{tcp_waitq}
use lpc17xx_network.Cbuf.{circular_buf_init}
use lpc17xx_network.Tcp.{
  listen, syn_sent, syn_received, established, Tcb, TcpTx, tcp_tx_call, zero_header,
  tcp_header_prepopulate, ack_header,
}
use lpc17xx_network.Tcp.Receive.{
  Segment, find_index, matches, accepts, find_tcb, switch, guarded, stop_timer, finish, deliver,
  tcp_rx, on_listen, on_syn_received, on_syn_sent, Switched, stays,
}
use lpc17xx_network.Tcp.Calls.{
  new_tcb, tcp_connect_start, tcp_connect_waits, tcp_connect_keeps, tcp_listen_start,
  tcp_listen_answer,
}
use lpc17xx_network.Tcp.Exchange.{arrive}

-- A segment that the first connection of the list matches is for that connection.
pub find_tcb-first :
    (s : Segment) (t : Tcb) (ts : List Tcb) → matches s t ≡ true → find_tcb s (t ∷ ts) ≡ some 0
unfolding find_tcb find_index
find_tcb-first s t ts e = rw (find_tcb, find_index, e) refl

-- A segment that no connection matches is for a listening one at the head of the list.
pub find_tcb-listener :
    (s : Segment) (t : Tcb) (ts : List Tcb)
    → matches s t ≡ false
    → find_index (matches s) ts ≡ none
    → accepts s t ≡ true
    → find_tcb s (t ∷ ts) ≡ some 0
unfolding find_tcb find_index
find_tcb-listener s t ts m o a = rw (find_tcb, find_index, m, o, a) refl

-- The case of the switch that a connection at the head of the list goes through.
pub tcp_rx-first :
    (s : Segment) (t : Tcb) (ts : List Tcb) (sw : Switched)
    → find_tcb s (t ∷ ts) ≡ some 0
    → guarded t.state (stop_timer t) s ≡ ok sw
    → tcp_rx (t ∷ ts) s ≡ ok (finish (t ∷ ts) 0 s sw)
unfolding tcp_rx deliver
tcp_rx-first s t ts sw found g = rw (tcp_rx, found, deliver, g) refl

-- The two ends of a connection, between the hosts `a` and `b`: each is open, knows the other's port
-- and address, and acknowledges up to the number that the other sends next.
pub record ArePaired (a b : ℕ) (t u : Tcb) : Type 0 where
  pub open_t : t.state ≡ established
  pub open_u : u.state ≡ established
  pub port_tu : t.dst_port ≡ u.src_port
  pub port_ut : u.dst_port ≡ t.src_port
  pub ip_t : t.dst_ip ≡ b
  pub ip_u : u.dst_ip ≡ a
  pub seq_tu : t.cur_seq_n ≡ u.cur_ack_n
  pub seq_ut : u.cur_seq_n ≡ t.cur_ack_n
  pub seq_t_lt : t.cur_seq_n < 2 ^ 32
  pub seq_u_lt : u.cur_seq_n < 2 ^ 32

-- The connection that tcp_connect lists, and the one that tcp_listen lists.
abbrev pub calling : ℕ → List ℕ → ℕ → ℕ → Tcb
calling self block port ip = record (new_tcb self block) {
  state = syn_sent;
  timeout = 250;
  decrement_timeout = true;
  src_port = 65355;
  dst_port = port;
  dst_ip = ip;
}

abbrev pub waiting_for : ℕ → List ℕ → ℕ → Tcb
waiting_for self block port = record (new_tcb self block) { state = listen; src_port = port }

-- The listener after the SYN, and both ends when they are open.
abbrev pub half_open : ℕ → List ℕ → ℕ → ℕ → Tcb
half_open self block port ip = record (waiting_for self block port) {
  dst_ip = ip;
  cur_ack_n = 1025;
  dst_port = 65355;
  state = syn_received;
}

abbrev pub called : ℕ → List ℕ → ℕ → ℕ → Tcb
called self block port ip = record (half_open self block port ip) {
  cur_seq_n = 1025;
  state = established;
}

abbrev pub connected : ℕ → List ℕ → ℕ → ℕ → Tcb
connected self block port ip = record (stop_timer (calling self block port ip)) {
  cur_seq_n = 1025;
  cur_ack_n = 1025;
  host_window_sz = 127;
  state = established;
}

abbrev pub syn_of : ℕ → List ℕ → ℕ → ℕ → TcpTx
syn_of self block port ip =
    tcp_tx_call
      (record (tcp_header_prepopulate (calling self block port ip) zero_header) { syn = true }) ip

module _ (a b port c : ℕ) (caller_self self : ℕ) (caller_block block : List ℕ)
    (others : List Tcb) where
  pub on_syn :
      find_index (matches (arrive c a (syn_of caller_self caller_block port b))) others ≡ none
      → tcp_rx
          (waiting_for self block port ∷ others)
          (arrive c a (syn_of caller_self caller_block port b))
        ≡ ok (record {
          tcbs = half_open self block port a ∷ others;
          sent = [];
          woken = tcp_waitq ∷ [];
        })
  unfolding matches accepts guarded switch on_listen tcp_header_prepopulate finish
  on_syn free =
      let s = arrive c a (syn_of caller_self caller_block port b) in
      tcp_rx-first s (waiting_for self block port) others
        (stays (half_open self block port a) false [])
        (find_tcb-listener s (waiting_for self block port) others (ground arith) free
          (==_refl port))
        refl

  pub on_syn_ack :
      tcp_rx
        (calling caller_self caller_block port b ∷ others)
        (arrive c b (tcp_listen_answer (half_open self block port a)))
      ≡ ok (record {
        tcbs = connected caller_self caller_block port b ∷ others;
        sent = tcp_tx_call (ack_header (connected caller_self caller_block port b)) b ∷ [];
        woken = tcp_waitq ∷ [];
      })
  unfolding matches guarded switch on_syn_sent tcp_listen_answer tcp_header_prepopulate finish
      circular_buf_init
  on_syn_ack =
      let s = arrive c b (tcp_listen_answer (half_open self block port a)) in
      let t = calling caller_self caller_block port b in
      let u = connected caller_self caller_block port b in
      tcp_rx-first s t others (stays u false (tcp_tx_call (ack_header u) b ∷ []))
        (find_tcb-first s t others (ground arith)) refl

  pub on_ack :
      tcp_rx
        (half_open self block port a ∷ others)
        (arrive c a (tcp_tx_call (ack_header (connected caller_self caller_block port b)) b))
      ≡ ok (record { tcbs = called self block port a ∷ others; sent = []; woken = tcp_waitq ∷ [] })
  unfolding matches guarded switch on_syn_received tcp_header_prepopulate finish
  on_ack =
      let s = arrive c a (tcp_tx_call (ack_header (connected caller_self caller_block port b)) b) in
      let t = half_open self block port a in
      tcp_rx-first s t others (stays (called self block port a) false [])
        (find_tcb-first s t others (ground arith)) refl

-- When no connection of the listening host matches the SYN of tcp_connect, that SYN, the answer
-- of tcp_listen and the acknowledgement take both ends to ESTABLISHED in three segments, wake
-- both hosts' processes at each of them, end the wait of tcp_connect with a connection that it
-- keeps, and leave the two ends in step in ports, addresses and sequence numbers; other
-- connections are left alone.
pub tcp_connect-tcp_listen :
    (a b port c1 c2 c3 caller_self self : ℕ) (caller_block block : List ℕ) (on_a on_b : List Tcb)
    → let (tcbs_a, syn) = tcp_connect_start caller_self caller_block port b on_a in
      find_index (matches (arrive c1 a syn)) on_b ≡ none
      → (half : Tcb) × (t : Tcb) × (u : Tcb) × (ack : TcpTx) × (tcp_rx
            (tcp_listen_start self block port on_b)
            (arrive c1 a syn)
          ≡ ok (record { tcbs = half ∷ on_b; sent = []; woken = tcp_waitq ∷ [] }))
        × (half.state ≡ syn_received)
        × (tcp_rx tcbs_a (arrive c2 b (tcp_listen_answer half))
            ≡ ok (record { tcbs = t ∷ on_a; sent = ack ∷ []; woken = tcp_waitq ∷ [] }))
        × (tcp_connect_waits t.state ≡ false)
        × (tcp_connect_keeps t.state ≡ true)
        × (tcp_rx (half ∷ on_b) (arrive c3 a ack)
            ≡ ok (record { tcbs = u ∷ on_b; sent = []; woken = tcp_waitq ∷ [] }))
        × ArePaired a b t u
unfolding tcp_connect_start tcp_listen_start tcp_connect_waits tcp_connect_keeps
tcp_connect-tcp_listen a b port c1 c2 c3 caller_self self caller_block block on_a on_b free =
    let u = called self block port a in
    let t = connected caller_self caller_block port b in
    (
      half_open self block port a,
      t,
      u,
      tcp_tx_call (ack_header t) b,
      on_syn a b port c1 caller_self self caller_block block on_b free,
      refl,
      on_syn_ack a b port c2 caller_self self caller_block block on_a,
      refl,
      refl,
      on_ack a b port c3 caller_self self caller_block block on_b,
      record {
        open_t = refl;
        open_u = refl;
        port_tu = refl;
        port_ut = refl;
        ip_t = refl;
        ip_u = refl;
        seq_tu = refl;
        seq_ut = refl;
        seq_t_lt = omega arith;
        seq_u_lt = omega arith;
      },
    )
