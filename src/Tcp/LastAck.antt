-- ===== src/Tcp/LastAck.antt =====
-- A connection that was closed by the other end first, and then by its own program: LAST_ACK.
use lpc17xx_network.Base.{
  ℕ, zero, suc, ◌≡◌, ◌≢◌, refl, sym, arith, List, [], ◌∷◌, Bool, true, false, ◌==◌, ==_ne, ==_iff,
  ==_refl, Bool-cases, Option, none, some, inl, inr, get_elem?, set,
}
use lpc17xx_network.Base.Run.{Run, ok}
use lpc17xx_network.Tcp.{TcpHeader, TcpState, established, close_wait, last_ack, Tcb}
use lpc17xx_network.Tcp.Receive.{Segment, Rx, tcp_rx}
use lpc17xx_network.Tcp.Receive.Step.{
  Transition, same, opened, refused, arrived, agreed, peer_closed, fin_acked, crossed, ended1,
  ended2, ended3,
}
use lpc17xx_network.Tcp.Receive.Machine.{
  Changes, nothing, one, Outcome, stuck, returns, tcp_rx-Outcome,
}
use lpc17xx_network.Tcp.Calls.{
  tcp_connect_start, tcp_connect_end, unlisted, tcp_connect_keeps, tcp_listen_start, tcp_close,
  tcp_close_in,
}
use lpc17xx_network.Tcp.Tick.{tcp_tick}
use lpc17xx_network.Wait.Connect.{at_address}
use lpc17xx_network.Wait.Connect.Keeps.{
  tick_tcb-cases, tcp_tick-none, tcp_tick-some, at_address-hit, at_address-miss, true_ne_false,
}

abbrev pub is_last_ack : TcpState → Bool
is_last_ack last_ack = true
is_last_ack _ = false

-- The connection at an address is listed, and in LAST_ACK.
abbrev pub lingers : Option Tcb → Bool
lingers none = false
lingers (some t) = is_last_ack t.state

-- What happens to the connections while the block at `a` is in use, so that get_mem does not
-- return it: segments, ticks, and the calls of programs.
pub data Happens (a : ℕ) (ts : List Tcb) : List Tcb → Type 0 where
  arrives : (s : Segment) (rx : Rx) → tcp_rx ts s ≡ ok rx → Happens a ts rx.tcbs
  ticks : Happens a ts (tcp_tick ts)
  connects :
      (self port ip : ℕ) (block : List ℕ)
      → self ≢ a
      → Happens a ts (tcp_connect_start self block port ip ts).0
  fails : (t : Tcb) → t.self ≢ a → Happens a ts (tcp_connect_end t ts).1
  listens :
      (self port : ℕ) (block : List ℕ)
      → self ≢ a
      → Happens a ts (tcp_listen_start self block port ts)
  closes : (i : ℕ) (t : Tcb) → get_elem? ts i ≡ some t → Happens a ts (set ts i (tcp_close t).1)
  uses :
      (i : ℕ) (t t' : Tcb)
      → get_elem? ts i ≡ some t
      → t'.self ≡ t.self
      → t'.state ≡ t.state
      → Happens a ts (set ts i t')

pub data Reaches (a : ℕ) (ts : List Tcb) : List Tcb → Type 0 where
  here : Reaches a ts ts
  next : {us vs : List Tcb} → Reaches a ts us → Happens a us vs → Reaches a ts vs

from_last_ack :
    {h : TcpHeader} {x y : TcpState}
    → Transition h x y
    → is_last_ack x ≡ true
    → is_last_ack y ≡ true
from_last_ack same e = e
from_last_ack (opened p q) e = cc
from_last_ack refused e = cc
from_last_ack (arrived p) e = cc
from_last_ack (agreed p) e = cc
from_last_ack (peer_closed p) e = cc
from_last_ack (fin_acked p) e = cc
from_last_ack (crossed p) e = cc
from_last_ack (ended1 p q) e = cc
from_last_ack (ended2 p q) e = cc
from_last_ack ended3 e = cc

-- A write of a connection with its own address that does not leave LAST_ACK.
lingers-set :
    (a i : ℕ) (ts : List Tcb) (t t' : Tcb)
    → get_elem? ts i ≡ some t
    → t'.self ≡ t.self
    → (is_last_ack t.state ≡ true → is_last_ack t'.state ≡ true)
    → lingers (at_address a ts) ≡ true
    → lingers (at_address a (set ts i t')) ≡ true
unfolding at_address
lingers-set a i [] t t' at self keep on = on
lingers-set a zero (x ∷ ts) t t' at self keep on = ground (arith, keep)
lingers-set a (suc i) (x ∷ ts) t t' at self keep on =
    let ih = lingers-set a i ts t t' at self keep in ground (arith, ih)

lingers-arrives :
    (a : ℕ) (ts : List Tcb) (h : TcpHeader) {us : List Tcb}
    → Changes h ts us
    → lingers (at_address a ts) ≡ true
    → lingers (at_address a us) ≡ true
lingers-arrives a ts h nothing on = on
lingers-arrives a ts h (one i t t' at tr self port) on =
    lingers-set a i ts t t' at self (from_last_ack tr) on

lingers-ticks :
    (a : ℕ) (ts : List Tcb)
    → lingers (at_address a ts) ≡ true
    → lingers (at_address a (tcp_tick ts)) ≡ true
lingers-ticks a [] on = unfold tcp_tick in on
lingers-ticks a (t ∷ ts) on = elim (Bool-cases (t.self == a)) [
  | inl hit ↦
      let at = rw (at_address-hit a t ts hit) at on in
      elim (tick_tcb-cases t) [
        | inl (gone, e) ↦ absurd (true_ne_false (sym (rw e at at)))
        | inr (t', kept, self, st) ↦
            rw (tcp_tick-some t t' ts kept, at_address-hit a t' (tcp_tick ts) (rw self hit))
              (rw st at)
      ]
  | inr miss ↦
      let there = lingers-ticks a ts (rw (at_address-miss a t ts miss) at on) in
      elim (tick_tcb-cases t) [
        | inl (gone, e) ↦ rw (tcp_tick-none t ts gone) there
        | inr (t', kept, self, st) ↦
            rw (tcp_tick-some t t' ts kept, at_address-miss a t' (tcp_tick ts) (rw self miss)) there
      ]
]

lingers-connects :
    (a self port ip : ℕ) (block : List ℕ) (ts : List Tcb)
    → self ≢ a
    → lingers (at_address a ts) ≡ true
    → lingers (at_address a (tcp_connect_start self block port ip ts).0) ≡ true
unfolding tcp_connect_start at_address
lingers-connects a self port ip block ts ne on = rw (==_ne self a ne) on

lingers-listens :
    (a self port : ℕ) (block : List ℕ) (ts : List Tcb)
    → self ≢ a
    → lingers (at_address a ts) ≡ true
    → lingers (at_address a (tcp_listen_start self block port ts)) ≡ true
unfolding tcp_listen_start at_address
lingers-listens a self port block ts ne on = rw (==_ne self a ne) on

lingers-unlisted :
    (a self : ℕ) (ts : List Tcb)
    → self ≢ a
    → lingers (at_address a ts) ≡ true
    → lingers (at_address a (unlisted self ts)) ≡ true
unfolding unlisted at_address
lingers-unlisted a self [] ne on = on
lingers-unlisted a self (t ∷ ts) ne on =
    let ih = lingers-unlisted a self ts ne in
    elim (Bool-cases (t.self == self)) [
      | inl mine ↦
          let other : (t.self == a) ≡ false = rw ((==_iff t.self self).0 mine) (==_ne self a ne) in
          rw mine (rw (at_address-miss a t ts other) at on)
      | inr other ↦ ground (arith, ih, other)
    ]

lingers-fails :
    (a : ℕ) (t : Tcb) (ts : List Tcb)
    → t.self ≢ a
    → lingers (at_address a ts) ≡ true
    → lingers (at_address a (tcp_connect_end t ts).1) ≡ true
unfolding tcp_connect_end
lingers-fails a t ts ne on = elim (Bool-cases (tcp_connect_keeps t.state)) [
  | inl kept ↦ rw (tcp_connect_end, kept) on
  | inr failed ↦ rw (tcp_connect_end, failed) (lingers-unlisted a t.self ts ne on)
]

tcp_close-keeps :
    (t : Tcb)
    → ((tcp_close t).1.self ≡ t.self)
      × (is_last_ack t.state ≡ true → is_last_ack (tcp_close t).1.state ≡ true)
unfolding tcp_close
tcp_close-keeps t = go t.state refl
  where
    go :
        (st : TcpState)
        → t.state ≡ st
        → (((tcp_close_in st t).1).self ≡ t.self)
          × (is_last_ack t.state ≡ true → is_last_ack ((tcp_close_in st t).1).state ≡ true)
    go close_wait e = unfold tcp_close_in in (refl, λ on. refl)
    go established e =
        unfold tcp_close_in in (refl, λ on. absurd (true_ne_false (sym (rw e at on))))
    go _ e = unfold tcp_close_in in (refl, λ on. on)

Happens-lingers :
    (a : ℕ) (ts us : List Tcb)
    → Happens a ts us
    → lingers (at_address a ts) ≡ true
    → lingers (at_address a us) ≡ true
Happens-lingers a ts _ (arrives s rx e) on = go (tcp_rx-Outcome ts s) e
  where
    go : {r : Run Rx} → Outcome ts s r → r ≡ ok rx → lingers (at_address a rx.tcbs) ≡ true
    go (stuck i t found at e) f = absurd (cc)
    go (returns {rx = rx'} c) f =
        let same : rx' ≡ rx = cc in rw same at (lingers-arrives a ts s.header c on)
Happens-lingers a ts _ ticks on = lingers-ticks a ts on
Happens-lingers a ts _ (connects self port ip block ne) on =
    lingers-connects a self port ip block ts ne on
Happens-lingers a ts _ (fails t ne) on = lingers-fails a t ts ne on
Happens-lingers a ts _ (listens self port block ne) on = lingers-listens a self port block ts ne on
Happens-lingers a ts _ (closes i t at) on =
    let (self, keep) = tcp_close-keeps t in lingers-set a i ts t (tcp_close t).1 at self keep on
Happens-lingers a ts _ (uses i t t' at self st) on =
    lingers-set a i ts t t' at self (λ e. rw st e) on

Reaches-lingers :
    (a : ℕ) (ts us : List Tcb)
    → Reaches a ts us
    → lingers (at_address a ts) ≡ true
    → lingers (at_address a us) ≡ true
Reaches-lingers a ts _ here on = on
Reaches-lingers a ts us (next {us = vs} r h) on =
    Happens-lingers a vs us h (Reaches-lingers a ts vs r on)

-- A connection in CLOSE_WAIT whose program calls tcp_close stays in the list, in LAST_ACK,
-- whatever segments are handled afterwards, however often tcp_tick runs, whatever connections at
-- other addresses are opened, listened for or given up, and whatever calls of tcp_close, or calls
-- that leave the states as they are, follow.
pub tcp_close-lingers :
    (t : Tcb) (ts us : List Tcb)
    → t.state ≡ close_wait
    → Reaches t.self ((tcp_close t).1 ∷ ts) us
    → lingers (at_address t.self us) ≡ true
tcp_close-lingers t ts us e r =
    Reaches-lingers t.self ((tcp_close t).1 ∷ ts) us r
      (unfold tcp_close tcp_close_in at_address in rw (e, ==_refl t.self) refl)
