-- ===== src/Tests/Closing.antt =====
-- Two ends that are closed at concrete inputs, and one that waits in LAST_ACK.
use lpc17xx_network.Base.{◌≡◌, refl, arith, List, [], ◌∷◌, true, some}
use lpc17xx_network.Tcp.{Tcb, close_wait, time_wait}
use lpc17xx_network.Tcp.Calls.{tcp_close}
use lpc17xx_network.Tcp.Tick.{tcp_tick}
use lpc17xx_network.Tcp.LastAck.{here, next, ticks, lingers, tcp_close-lingers}
use lpc17xx_network.Wait.Connect.{at_address}
use lpc17xx_network.Tests.Exchange.{on_host_2, end}
use lpc17xx_network.Tests.Lists.{links, two-IsRing}
use lpc17xx_network.LinkedList.{Links, list_for_each_safe}
use lpc17xx_network.LinkedList.Ring.{IsRing}
use lpc17xx_network.Tcp.Walk.{addresses, tick_links, list_for_each_safe-tcp_tick}

-- The other end has closed the connection.
abbrev left_behind : Tcb
left_behind = record on_host_2 { state = close_wait }

tcp_close-lingers_example :
    lingers (at_address 400 (tcp_tick ((tcp_close left_behind).1 ∷ []))) ≡ true
tcp_close-lingers_example =
    tcp_close-lingers left_behind [] (tcp_tick ((tcp_close left_behind).1 ∷ [])) refl
      (next here ticks)

-- The connections at the nodes 2 and 3; the first one has no tick left in TIME_WAIT.
abbrev ticking : List Tcb
ticking =
    record (end 2 65355 80 2) { state = time_wait; decrement_timeout = true }
    ∷ end 3 80 65355 1
    ∷ []

list_for_each_safe-tcp_tick_example :
    (l' : Links) × (list_for_each_safe 3 1 (tick_links ticking) links ≡ some (2 ∷ 3 ∷ [], l'))
    × IsRing l' 1 (addresses (tcp_tick ticking))
list_for_each_safe-tcp_tick_example =
    list_for_each_safe-tcp_tick 3 1 ticking links two-IsRing (omega arith)
