-- ===== src/Tcp/Receive/Machine.antt =====
-- tcp_rx_packet over the list of connections.
use lpc17xx_network.Base.{
  ℕ, zero, suc, ◌≡◌, ◌≢◌, refl, arith, List, [], ◌∷◌, Bool, true, Option, none, some, ◌⊎◌, inl, inr,
  Bool-cases, get_elem?, set,
}
use lpc17xx_network.Base.Run.{Run, ok, halted}
use lpc17xx_network.Tcp.{TcpHeader, TcpState, close_wait, Tcb}
use lpc17xx_network.Tcp.Receive.{
  Segment, find_index, matches, accepts, find_tcb, Switched, switch, stop_timer, guarded, Rx,
  finish, deliver, tcp_rx,
}
use lpc17xx_network.Tcp.Receive.Step.{Transition, Moves, moves, switch-Moves}

-- What find_index returns passes the test, and nothing passes it when it returns none.
pub find_index-some :
    (p : Tcb → Bool) (ts : List Tcb) (i : ℕ)
    → find_index p ts ≡ some i
    → (t : Tcb) × (get_elem? ts i ≡ some t) × (p t ≡ true)
unfolding find_index
find_index-some p [] i e = cc
find_index-some p (t ∷ ts) zero e = (t, refl, first)
  where
    first : p t ≡ true
    first = ground (arith, Bool-cases (p t))
find_index-some p (t ∷ ts) (suc i) e = find_index-some p ts i (ground arith)

-- A segment for a connection in CLOSE_WAIT stops the system, whatever its flags are.
pub tcp_rx-halted :
    (ts : List Tcb) (s : Segment) (i : ℕ) (t : Tcb)
    → find_tcb s ts ≡ some i
    → get_elem? ts i ≡ some t
    → t.state ≡ close_wait
    → tcp_rx ts s ≡ halted
unfolding tcp_rx deliver guarded
tcp_rx-halted ts s i t found at e = rw (found, tcp_rx) (rw (at, deliver) (rw (e, guarded)))

-- What a segment changes: nothing, or the one connection at a place, by a transition.
pub data Changes (h : TcpHeader) (ts : List Tcb) : List Tcb → Type 0 where
  nothing : Changes h ts ts
  one :
      (i : ℕ) (t t' : Tcb)
      → get_elem? ts i ≡ some t
      → Transition h t.state t'.state
      → t'.self ≡ t.self
      → t'.src_port ≡ t.src_port
      → Changes h ts (set ts i t')

finish-Changes :
    {h : TcpHeader} (ts : List Tcb) (i : ℕ) (s : Segment) (t : Tcb) {sw : Switched}
    → get_elem? ts i ≡ some t
    → Moves h (stop_timer t) sw
    → Changes h ts (finish ts i s sw).tcbs
unfolding finish
finish-Changes ts i s t at (moves {t'} tr a b) = one i t t' at tr a b

guarded-ok :
    (a : TcpState) (t : Tcb) (s : Segment) → a ≢ close_wait → guarded a t s ≡ ok (switch a t s)
unfolding guarded
guarded-ok close_wait t s ne = absurd (ne refl)
guarded-ok _ t s ne = refl

pub TcpState-discrete : Discrete TcpState
TcpState-discrete = hlevel

pub deliver-ok :
    (ts : List Tcb) (i : ℕ) (s : Segment) (t : Tcb)
    → t.state ≢ close_wait
    → deliver ts i s (some t) ≡ ok (finish ts i s (switch t.state (stop_timer t) s))
unfolding deliver
deliver-ok ts i s t ne = rw (guarded-ok t.state (stop_timer t) s ne, deliver)

-- What tcp_rx_packet comes to: it stops for good, on a connection in CLOSE_WAIT, or it returns.
pub data Outcome (ts : List Tcb) (s : Segment) : Run Rx → Type 0 where
  stuck :
      (i : ℕ) (t : Tcb)
      → find_tcb s ts ≡ some i
      → get_elem? ts i ≡ some t
      → t.state ≡ close_wait
      → Outcome ts s halted
  returns : {rx : Rx} → Changes s.header ts rx.tcbs → Outcome ts s (ok rx)

deliver-Outcome :
    (ts : List Tcb) (i : ℕ) (s : Segment) (t : Tcb)
    → find_tcb s ts ≡ some i
    → get_elem? ts i ≡ some t
    → Outcome ts s (deliver ts i s (some t))
deliver-Outcome ts i s t found at = elim (TcpState-discrete t.state close_wait) [
  | yes e ↦ rw (stops e) (stuck i t found at e)
  | no ne ↦
      rw (deliver-ok ts i s t ne)
        (returns (finish-Changes ts i s t at (switch-Moves (stop_timer t) s t.state refl ne)))
]
  where
    stops : t.state ≡ close_wait → deliver ts i s (some t) ≡ halted
    stops e = unfold deliver guarded in rw (e, guarded)

-- The connection that a segment is given to matches it in both ports and the address, or, when no
-- connection does, is listening on the segment's port.
pub find_tcb-some :
    (s : Segment) (ts : List Tcb) (i : ℕ)
    → find_tcb s ts ≡ some i
    → (t : Tcb) × (get_elem? ts i ≡ some t)
      × ((matches s t ≡ true) ⊎ ((find_index (matches s) ts ≡ none) × (accepts s t ≡ true)))
unfolding find_tcb
find_tcb-some s ts i e = go (find_index (matches s) ts) refl e
  where
    go :
        (o : Option ℕ)
        → find_index (matches s) ts ≡ o
        → find_tcb s ts ≡ some i
        → (t : Tcb) × (get_elem? ts i ≡ some t)
          × ((matches s t ≡ true) ⊎ ((find_index (matches s) ts ≡ none) × (accepts s t ≡ true)))
    go (some j) f g =
        let (t, at, ok') = find_index-some (matches s) ts i (ground arith) in (t, at, inl ok')
    go none f g =
        let (t, at, ok') = find_index-some (accepts s) ts i (ground arith) in (t, at, inr (f, ok'))

-- Every segment either stops the system, and then it belongs to a connection in CLOSE_WAIT, or is
-- handled: then either no connection is changed, or exactly one is, at its place in the list,
-- with its address and local port kept and its state unchanged or moved by one of the listed
-- transitions, whose flags the segment carries. No segment reads or writes outside the list.
pub tcp_rx-Outcome : (ts : List Tcb) (s : Segment) → Outcome ts s (tcp_rx ts s)
unfolding tcp_rx
tcp_rx-Outcome ts s = go (find_tcb s ts) refl
  where
    go : (o : Option ℕ) → find_tcb s ts ≡ o → Outcome ts s (tcp_rx ts s)
    go none e = rw (e, tcp_rx) (returns nothing)
    go (some i) e =
        let (t, at, why) = find_tcb-some s ts i e in
        rw (e, tcp_rx) (rw at (deliver-Outcome ts i s t e at))
