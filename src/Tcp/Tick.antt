-- ===== src/Tcp/Tick.antt =====
-- tcp_tick of tcp.c: the timers of the connections.
use lpc17xx_network.Base.{
  ℕ, ◌-◌, ◌≡◌, refl, ap, ◌∙◌, arith, List, [], ◌∷◌, Bool, true, false, Option, none, some, ◌==◌,
  if◌then◌else◌,
}
use lpc17xx_network.Tcp.{TcpState, time_wait, Tcb}

abbrev pub is_time_wait : TcpState → Bool
is_time_wait time_wait = true
is_time_wait _ = false

-- The body of the loop; none when the connection is unlinked and given back. The counter has 16
-- bits: `timeout--` at 0 makes it 65535.
unfoldable pub tick_tcb : Tcb → Option Tcb
tick_tcb cur =
    let out = record cur { timeout = 65535; timed_out = true; decrement_timeout = false } in
    let counted = record cur { timeout = cur.timeout - 1 } in
    if cur.decrement_timeout
    then (if cur.timeout == 0
        then (if is_time_wait cur.state then none else some out)
        else some counted)
    else some cur

unfoldable pub tcp_tick : List Tcb → List Tcb
tcp_tick [] = []
tcp_tick (t ∷ ts) = elim (tick_tcb t) [ none ↦ tcp_tick ts | some t' ↦ t' ∷ tcp_tick ts ]

-- The connection at a place of a list after `n` ticks.
unfoldable pub ticks : ℕ → List Tcb → List Tcb
ticks ℕ.zero ts = ts
ticks (ℕ.suc n) ts = ticks n (tcp_tick ts)

-- A connection whose timer runs with `n` ticks left.
abbrev Armed : ℕ → Tcb → Type 0
Armed n t = (t.decrement_timeout ≡ true) × (t.timeout ≡ n)

tick_tcb-Armed :
    (n : ℕ) (t : Tcb) → Armed (ℕ.suc n) t → tick_tcb t ≡ some (record t { timeout = n })
unfolding tick_tcb
tick_tcb-Armed n t (on, left) = ground arith

tick_tcb_ended : (t : Tcb) → Armed 0 t → t.state ≡ time_wait → tick_tcb t ≡ none
unfolding tick_tcb
tick_tcb_ended t (on, left) e = ground arith

gone : (t : Tcb) (ts : List Tcb) → tick_tcb t ≡ none → tcp_tick (t ∷ ts) ≡ tcp_tick ts
unfolding tcp_tick
gone t ts e = rw (e, tcp_tick)

stays : (t t' : Tcb) (ts : List Tcb) → tick_tcb t ≡ some t' → tcp_tick (t ∷ ts) ≡ t' ∷ tcp_tick ts
unfolding tcp_tick
stays t t' ts e = rw (e, tcp_tick)

-- A connection in TIME_WAIT whose running timer has `n` ticks left is kept for `n` ticks, and the
-- next tick takes it out of the list; the connections behind it are treated as if it were not
-- there.
pub ticks_time_wait :
    (n : ℕ) (t : Tcb) (ts : List Tcb)
    → Armed n t
    → t.state ≡ time_wait
    → (ticks n (t ∷ ts) ≡ record t { timeout = 0 } ∷ ticks n ts)
      × (ticks (ℕ.suc n) (t ∷ ts) ≡ ticks (ℕ.suc n) ts)
unfolding ticks
ticks_time_wait ℕ.zero t ts armed e =
    (ap (λ x. x ∷ ts) (ground arith), gone t ts (tick_tcb_ended t armed e))
ticks_time_wait (ℕ.suc n) t ts armed e =
    let first = stays t (record t { timeout = n }) ts (tick_tcb-Armed n t armed) in
    let rest = ticks_time_wait n (record t { timeout = n }) (tcp_tick ts) (armed.0, refl) e in
    (ap (ticks n) first ∙ rest.0, ap (λ l. ticks n (tcp_tick l)) first ∙ rest.1)
