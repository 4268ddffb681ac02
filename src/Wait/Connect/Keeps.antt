-- ===== src/Wait/Connect/Keeps.antt =====
-- What leaves a connection alone that is being set up.
use lpc17xx_network.Base.{
  ℕ, zero, suc, ◌≡◌, ◌≢◌, refl, arith, List, [], ◌∷◌, true, false, not, ◌==◌, ◌-◌, Bool-cases,
  Option, none, some, ◌⊎◌, inl, inr, get_elem?, set,
}
use lpc17xx_network.Base.Run.{ok}
use lpc17xx_network.Effect.{tcp_waitq}
use lpc17xx_network.Tcp.{TcpState, established, close_wait, time_wait, Tcb}
use lpc17xx_network.Tcp.Receive.{
  Segment, find_tcb, Switched, switch, stop_timer, Rx, finish, deliver, tcp_rx, refuse,
}
use lpc17xx_network.Tcp.Receive.Step.{Moves, moves, switch-Moves}
use lpc17xx_network.Tcp.Receive.Machine.{
  find_tcb-some, tcp_rx-halted, deliver-ok, TcpState-discrete,
}
use lpc17xx_network.Tcp.Calls.{tcp_connect_waits, tcp_close, tcp_close_in}
use lpc17xx_network.Tcp.Tick.{is_time_wait, tick_tcb, tcp_tick}
use lpc17xx_network.Wait.Connect.{at_address, connect_done}

tcp_rx-found :
    (ts : List Tcb) (s : Segment) (i : ℕ) (t : Tcb)
    → find_tcb s ts ≡ some i
    → get_elem? ts i ≡ some t
    → tcp_rx ts s ≡ deliver ts i s (some t)
unfolding tcp_rx
tcp_rx-found ts s i t found here = rw (tcp_rx, found, here) refl

tcp_rx-refused :
    (ts : List Tcb) (s : Segment)
    → find_tcb s ts ≡ none
    → tcp_rx ts s ≡ ok (record { tcbs = ts; sent = refuse s; woken = [] })
unfolding tcp_rx
tcp_rx-refused ts s e = rw (tcp_rx, e) refl

-- A segment leaves the connections alone, or the queue is woken after it.
pub tcp_rx-wakes :
    (ts : List Tcb) (s : Segment) (rx : Rx)
    → tcp_rx ts s ≡ ok rx
    → (rx.tcbs ≡ ts) ⊎ (rx.woken ≡ tcp_waitq ∷ [])
tcp_rx-wakes ts s rx e = go (find_tcb s ts) refl
  where
    finished :
        (i : ℕ) (t : Tcb) (sw : Switched)
        → Moves s.header (stop_timer t) sw
        → (finish ts i s sw).woken ≡ tcp_waitq ∷ []
    finished i t sw (moves tr x y) = unfold finish in refl

    at :
        (i : ℕ) (t : Tcb)
        → find_tcb s ts ≡ some i
        → get_elem? ts i ≡ some t
        → rx.woken ≡ tcp_waitq ∷ []
    at i t found here = elim (TcpState-discrete t.state close_wait) [
      | yes trapped ↦ (let h = tcp_rx-halted ts s i t found here trapped in cc)
      | no ne ↦
          let d = deliver-ok ts i s t ne in
          let w =
            finished i t (switch t.state (stop_timer t) s)
              (switch-Moves (stop_timer t) s t.state refl ne) in
          (let f = tcp_rx-found ts s i t found here in cc)
    ]

    go : (o : Option ℕ) → find_tcb s ts ≡ o → (rx.tcbs ≡ ts) ⊎ (rx.woken ≡ tcp_waitq ∷ [])
    go none f = (let r = tcp_rx-refused ts s f in inl (cc))
    go (some i) f = let (t, here, why) = find_tcb-some s ts i f in inr (at i t f here)

-- Whether a connection that `at_address` finds is still being set up is left alone by a write of a
-- connection with the same address that does not begin or end the set-up.
pub at_address-set :
    (a i : ℕ) (ts : List Tcb) (t t' : Tcb)
    → get_elem? ts i ≡ some t
    → t'.self ≡ t.self
    → (connect_done (some t) ≡ false → connect_done (some t') ≡ false)
    → connect_done (at_address a ts) ≡ false
    → connect_done (at_address a (set ts i t')) ≡ false
unfolding at_address
at_address-set a i [] t t' here self keep off = off
at_address-set a zero (x ∷ ts) t t' here self keep off = ground (arith, keep)
at_address-set a (suc i) (x ∷ ts) t t' here self keep off =
    let ih = at_address-set a i ts t t' here self keep in ground (arith, ih)

not_time_wait : (a : TcpState) → a ≢ time_wait → is_time_wait a ≡ false
not_time_wait time_wait ne = absurd (ne refl)
not_time_wait _ ne = refl

pub tcp_tick-none : (t : Tcb) (ts : List Tcb) → tick_tcb t ≡ none → tcp_tick (t ∷ ts) ≡ tcp_tick ts
unfolding tcp_tick
tcp_tick-none t ts e = rw (tcp_tick, e) refl

pub tcp_tick-some :
    (t t' : Tcb) (ts : List Tcb) → tick_tcb t ≡ some t' → tcp_tick (t ∷ ts) ≡ t' ∷ tcp_tick ts
unfolding tcp_tick
tcp_tick-some t t' ts e = rw (tcp_tick, e) refl

pub at_address-hit :
    (a : ℕ) (t : Tcb) (ts : List Tcb) → (t.self == a) ≡ true → at_address a (t ∷ ts) ≡ some t
unfolding at_address
at_address-hit a t ts e = rw (at_address, e) refl

pub at_address-miss :
    (a : ℕ) (t : Tcb) (ts : List Tcb)
    → (t.self == a) ≡ false
    → at_address a (t ∷ ts) ≡ at_address a ts
unfolding at_address
at_address-miss a t ts e = rw (at_address, e) refl

-- A tick takes a connection out, in TIME_WAIT, or keeps its address and its state.
pub tick_tcb-cases :
    (t : Tcb)
    → ((tick_tcb t ≡ none) × (t.state ≡ time_wait))
      ⊎ ((t' : Tcb) × (tick_tcb t ≡ some t') × (t'.self ≡ t.self) × (t'.state ≡ t.state))
unfolding tick_tcb
tick_tcb-cases t = elim (Bool-cases t.decrement_timeout) [
  | inl on ↦ elim (Bool-cases (t.timeout == 0)) [
    | inl z ↦ elim (TcpState-discrete t.state time_wait) [
      | yes e ↦ inl (ground (arith, on, z, e), e)
      | no ne ↦ inr (
        record t { timeout = 65535; timed_out = true; decrement_timeout = false },
        ground (arith, on, z, not_time_wait t.state ne),
        refl,
        refl,
      )
    ]
    | inr z ↦ inr (record t { timeout = t.timeout - 1 }, ground (arith, on, z), refl, refl)
  ]
  | inr off ↦ inr (t, ground (arith, off), refl, refl)
]

pub true_ne_false : true ≢ false
true_ne_false h = cc

-- A connection that is being set up is not in TIME_WAIT.
setting_up : (t : Tcb) → connect_done (some t) ≡ false → t.state ≢ time_wait
unfolding tcp_connect_waits
setting_up t off e = absurd (true_ne_false (rw e at off))

pub same_state :
    (t t' : Tcb)
    → t'.state ≡ t.state
    → connect_done (some t) ≡ false
    → connect_done (some t') ≡ false
same_state t t' e off = rw e off

pub at_address-tick :
    (a : ℕ) (ts : List Tcb)
    → connect_done (at_address a ts) ≡ false
    → connect_done (at_address a (tcp_tick ts)) ≡ false
at_address-tick a [] off = unfold tcp_tick in off
at_address-tick a (t ∷ ts) off = elim (Bool-cases (t.self == a)) [
  | inl hit ↦
      let here = rw (at_address-hit a t ts hit) at off in
      elim (tick_tcb-cases t) [
        | inl (gone, e) ↦ absurd (setting_up t here e)
        | inr (t', kept, self, st) ↦
            rw (tcp_tick-some t t' ts kept, at_address-hit a t' (tcp_tick ts) (rw self hit))
              (same_state t t' st here)
      ]
  | inr miss ↦
      let there = at_address-tick a ts (rw (at_address-miss a t ts miss) at off) in
      elim (tick_tcb-cases t) [
        | inl (gone, e) ↦ rw (tcp_tick-none t ts gone) there
        | inr (t', kept, self, st) ↦
            rw (tcp_tick-some t t' ts kept, at_address-miss a t' (tcp_tick ts) (rw self miss)) there
      ]
]

-- tcp_close leaves a connection that is being set up alone.
pub tcp_close-keeps :
    (t : Tcb)
    → ((tcp_close t).1.self ≡ t.self)
      × (connect_done (some t) ≡ false → connect_done (some (tcp_close t).1) ≡ false)
unfolding tcp_close tcp_connect_waits
tcp_close-keeps t = go t.state refl
  where
    go :
        (st : TcpState)
        → t.state ≡ st
        → (((tcp_close_in st t).1).self ≡ t.self)
          × (not (tcp_connect_waits t.state) ≡ false
              → not (tcp_connect_waits ((tcp_close_in st t).1).state) ≡ false)
    go close_wait e = (refl, λ off. absurd (true_ne_false (rw e at off)))
    go established e = (refl, λ off. absurd (true_ne_false (rw e at off)))
    go _ e = (refl, λ off. off)
