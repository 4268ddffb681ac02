-- ===== src/Stack/Ticks.antt =====
-- The timer interrupt over the state of the stack.
use lpc17xx_network.Base.{
  ℕ, zero, suc, ◌+◌, ◌%◌, ◌^◌, ◌<◌, ◌≡◌, refl, ◌∙◌, ap, arith, List, [], ◌∷◌,
}
use lpc17xx_network.Arp.Laws.{arp_ticks}
use lpc17xx_network.Tcp.Tick.{ticks}
use lpc17xx_network.Tick.{Ticker, run_tick_work, irq_timer0, tick_add_work_fn}
use lpc17xx_network.Stack.{Net, arp_tick_work, tcp_tick_work}

-- Timer interrupts, one after another.
abbrev pub irqs : ℕ → Ticker Net → Ticker Net
irqs zero t = t
irqs (suc n) t = irqs n (irq_timer0 t)

-- The state after `n` ticks.
abbrev pub ticked : ℕ → Net → Net
ticked n s = record s { arp_state = arp_ticks n s.arp_state; tcbs = ticks n s.tcbs }

-- The two orders in which the initcalls may register the tick functions.
abbrev pub arp_then_tcp : Ticker Net → Ticker Net
arp_then_tcp t = tick_add_work_fn tcp_tick_work (tick_add_work_fn arp_tick_work t)

abbrev pub tcp_then_arp : Ticker Net → Ticker Net
tcp_then_arp t = tick_add_work_fn arp_tick_work (tick_add_work_fn tcp_tick_work t)

once_arp : (s : Net) → run_tick_work (arp_tick_work ∷ tcp_tick_work ∷ []) s ≡ ticked 1 s
unfolding run_tick_work arp_tick_work tcp_tick_work ticks
once_arp s = refl

once_tcp : (s : Net) → run_tick_work (tcp_tick_work ∷ arp_tick_work ∷ []) s ≡ ticked 1 s
unfolding run_tick_work arp_tick_work tcp_tick_work ticks
once_tcp s = refl

irqs-ticked :
    (work : List (Net → Net)) (n : ℕ) (t : Ticker Net)
    → ((s : Net) → run_tick_work work s ≡ ticked 1 s)
    → t.tick_work ≡ work
    → t.timer0_irq_wakeups < 2 ^ 32
    → ((irqs n t).shared ≡ ticked n t.shared)
      × ((irqs n t).timer0_irq_wakeups ≡ (t.timer0_irq_wakeups + n) % 2 ^ 32)
unfolding irq_timer0 ticks
irqs-ticked work zero t once same small = (refl, omega arith)
irqs-ticked work (suc n) t once same small =
    let (states, count) = irqs-ticked work n (irq_timer0 t) once same (omega arith) in
    let first : run_tick_work t.tick_work t.shared ≡ ticked 1 t.shared =
      ap (λ w. run_tick_work w t.shared) same ∙ once t.shared in
    (states ∙ ap (ticked n) first, count ∙ omega arith)

-- With arp_tick and tcp_tick registered by tick_add_work_fn in either order on an empty list, `n`
-- timer interrupts run each of them `n` times and leave the same state, and count themselves
-- modulo 2^32.
pub irqs-tick_add_work_fn :
    (n : ℕ) (t : Ticker Net)
    → t.tick_work ≡ []
    → t.timer0_irq_wakeups < 2 ^ 32
    → ((irqs n (arp_then_tcp t)).shared ≡ ticked n t.shared)
      × ((irqs n (tcp_then_arp t)).shared ≡ ticked n t.shared)
      × ((irqs n (arp_then_tcp t)).timer0_irq_wakeups ≡ (t.timer0_irq_wakeups + n) % 2 ^ 32)
unfolding tick_add_work_fn
irqs-tick_add_work_fn n t none_yet small =
    let tcp_first =
      irqs-ticked _ n (arp_then_tcp t) once_tcp
        (ap (λ w. tcp_tick_work ∷ arp_tick_work ∷ w) none_yet) small in
    let arp_first =
      irqs-ticked _ n (tcp_then_arp t) once_arp
        (ap (λ w. arp_tick_work ∷ tcp_tick_work ∷ w) none_yet) small in
    (tcp_first.0, arp_first.0, tcp_first.1)
