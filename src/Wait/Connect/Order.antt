-- ===== src/Wait/Connect/Order.antt =====
-- No process sleeps in tcp_connect while its connection is set up.
use lpc17xx_network.Base.{
  ℕ, ◌≡◌, ◌≢◌, refl, ◌∙◌, sym, arith, List, [], Bool, true, false, ==_ne, inl, inr,
}
use lpc17xx_network.LinkedList.Ring.{has}
use lpc17xx_network.Tcp.{Tcb}
use lpc17xx_network.Tcp.Calls.{tcp_connect_start, tcp_connect_waits, tcp_listen_start, tcp_close}
use lpc17xx_network.Wait.{Waiting, Reach}
use lpc17xx_network.Wait.Order.{none_left, Reach-NoneLost}
use lpc17xx_network.Wait.Connect.{
  at_address, connect_done, Event, arrives, ticks, connects, listens, closes, uses, connects_at,
}
use lpc17xx_network.Wait.Connect.Keeps.{
  tcp_rx-wakes, at_address-set, at_address-tick, tcp_close-keeps, true_ne_false, same_state,
}

tcp_connect_start-keeps :
    (a self port ip : ℕ) (block : List ℕ) (ts : List Tcb)
    → connect_done (at_address a ts) ≡ false
    → connect_done (at_address a (tcp_connect_start self block port ip ts).0) ≡ false
unfolding tcp_connect_start at_address tcp_connect_waits
tcp_connect_start-keeps a self port ip block ts off = ground arith

tcp_listen_start-keeps :
    (a self port : ℕ) (block : List ℕ) (ts : List Tcb)
    → a ≢ self
    → connect_done (at_address a ts) ≡ false
    → connect_done (at_address a (tcp_listen_start self block port ts)) ≡ false
unfolding tcp_listen_start at_address
tcp_listen_start-keeps a self port block ts ne off = rw (==_ne self a (λ e. ne (sym e))) off

quiet :
    (waits_on : ℕ → ℕ) {ts ts' : List Tcb} {w : Bool}
    → Event waits_on ts ts' w
    → w ≡ false
    → (p : ℕ) → connects_at waits_on p ts ≡ false
    → connects_at waits_on p ts' ≡ false
quiet waits_on {ts} (arrives s rx wakes e empty) silent p off = elim (tcp_rx-wakes ts s rx e) [
  | inl same ↦ rw same off
  | inr woken ↦ absurd (true_ne_false (sym (rw (woken, silent) at empty)))
]
quiet waits_on {ts} ticks silent p off = at_address-tick (waits_on p) ts off
quiet waits_on {ts} (connects self port ip block) silent p off =
    tcp_connect_start-keeps (waits_on p) self port ip block ts off
quiet waits_on {ts} (listens self port block other) silent p off =
    tcp_listen_start-keeps (waits_on p) self port block ts (other p) off
quiet waits_on {ts} (closes i t here) silent p off =
    let (self, keep) = tcp_close-keeps t in
    at_address-set (waits_on p) i ts t (tcp_close t).1 here self keep off
quiet waits_on {ts} (uses i t t' here self st) silent p off =
    at_address-set (waits_on p) i ts t t' here self (same_state t t' st) off

-- However rounds of wait_for_volatile_condition, segments, timer ticks and the calls of other
-- processes are ordered, from an empty wait queue: once every wake-up that is owed has been made,
-- no process sleeps in tcp_connect while its connection has left the states that it waits in. No
-- wake-up is lost.
pub Reach-connects_at :
    (waits_on : ℕ → ℕ) (w v : Waiting (List Tcb)) (p : ℕ)
    → Reach (connects_at waits_on) (Event waits_on) w v
    → w.waitq ≡ []
    → v.owed ≡ false
    → has p v.waitq ≡ true
    → connects_at waits_on p v.shared ≡ false
Reach-connects_at waits_on w v p r empty paid asleep =
    elim (Reach-NoneLost (connects_at waits_on) (Event waits_on) r
      (λ s s' e q off. quiet waits_on e refl q off)
      (inr (λ q h. absurd (none_left q (rw empty at h))))) [
        | inl owed ↦ absurd (true_ne_false (sym owed ∙ paid))
        | inr safe ↦ safe p asleep
      ]
