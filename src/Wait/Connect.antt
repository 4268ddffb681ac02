-- ===== src/Wait/Connect.antt =====
-- The processes in tcp_connect, among everything that changes the connections.
pub mod Keeps
pub mod Order
use lpc17xx_network.Base.{
  ℕ, zero, suc, ◌≡◌, ◌≢◌, refl, ◌∙◌, sym, ap, arith, List, [], ◌∷◌, Bool, true, false, not, ◌==◌,
  ◌-◌, ==_iff, Bool-cases, Option, none, some, ◌⊎◌, inl, inr, get_elem?, set, is_empty,
  if◌then◌else◌,
}
use lpc17xx_network.Base.Run.{Run, ok}
use lpc17xx_network.Effect.{tcp_waitq}
use lpc17xx_network.LinkedList.Ring.{has}
use lpc17xx_network.Tcp.{
  TcpHeader, TcpState, closed, listen, syn_sent, syn_received, established, close_wait, last_ack,
  fin_wait1, fin_wait2, closing, time_wait, Tcb, TcpTx,
}
use lpc17xx_network.Tcp.Receive.{
  Segment, find_tcb, Switched, switch, guarded, stop_timer, Rx, finish, deliver, tcp_rx, refuse,
}
use lpc17xx_network.Tcp.Receive.Step.{Moves, moves, switch-Moves}
use lpc17xx_network.Tcp.Receive.Machine.{
  find_tcb-some, tcp_rx-halted, deliver-ok, TcpState-discrete,
}
use lpc17xx_network.Tcp.Calls.{
  tcp_connect_start, tcp_connect_waits, tcp_listen_start, tcp_close, tcp_close_in,
}
use lpc17xx_network.Tcp.Tick.{is_time_wait, tick_tcb, tcp_tick}
use lpc17xx_network.Wait.{Waiting, Reach}
use lpc17xx_network.Wait.Order.{Reach-NoneLost}

-- The connection at an address.
unfoldable pub at_address : ℕ → List Tcb → Option Tcb
at_address a [] = none
at_address a (t ∷ ts) = let rest = at_address a ts in if t.self == a then some t else rest

abbrev pub connect_done : Option Tcb → Bool
connect_done none = false
connect_done (some t) = not (tcp_connect_waits t.state)

-- What happens to the connections, and whether tcp_waitq is woken after it.
pub data Event (waits_on : ℕ → ℕ) (ts : List Tcb) : List Tcb → Bool → Type 0 where
  -- A segment.
  arrives :
      (s : Segment) (rx : Rx) (wakes : Bool)
      → tcp_rx ts s ≡ ok rx
      → is_empty rx.woken ≡ not wakes
      → Event waits_on ts rx.tcbs wakes
  -- A timer tick.
  ticks : Event waits_on ts (tcp_tick ts) false
  -- Another process begins to connect, or to listen on a block that no process waits on.
  connects :
      (self port ip : ℕ) (block : List ℕ)
      → Event waits_on ts (tcp_connect_start self block port ip ts).0 false
  listens :
      (self port : ℕ) (block : List ℕ)
      → ((p : ℕ) → waits_on p ≢ self)
      → Event waits_on ts (tcp_listen_start self block port ts) false
  -- A process closes a connection.
  closes :
      (i : ℕ) (t : Tcb)
      → get_elem? ts i ≡ some t
      → Event waits_on ts (set ts i (tcp_close t).1) false
  -- A process sends or reads on a connection, which changes its counters and its buffer.
  uses :
      (i : ℕ) (t t' : Tcb)
      → get_elem? ts i ≡ some t
      → t'.self ≡ t.self
      → t'.state ≡ t.state
      → Event waits_on ts (set ts i t') false

-- The process `p` is in tcp_connect for the connection at the address `waits_on p`.
abbrev pub connects_at : (ℕ → ℕ) → ℕ → List Tcb → Bool
connects_at waits_on p ts = connect_done (at_address (waits_on p) ts)
