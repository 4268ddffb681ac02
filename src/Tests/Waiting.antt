-- ===== src/Tests/Waiting.antt =====
-- Waits for conditions, at concrete inputs.
use lpc17xx_network.Base.{ℕ, ◌+◌, ◌≡◌, refl, List, [], ◌∷◌, false, some}
use lpc17xx_network.Process.{Sched, running, waitqueue_wait}
use lpc17xx_network.Tcp.{Tcb}
use lpc17xx_network.Tcp.Calls.{tcp_connect_waits}
use lpc17xx_network.Tcp.Exchange.Handshake.{calling}
use lpc17xx_network.Wait.{Waiting, sleeps, wait_round, goes_to_sleep, Reach, here, next}
use lpc17xx_network.Wait.Connect.{at_address, connects_at, Event}
use lpc17xx_network.Wait.Connect.Order.{Reach-connects_at}

abbrev sched : Sched
sched = record {
  runqueue = [];
  waitqueue = [];
  deadqueue = [];
  current_tsk = some 5;
  idle_tsk = 9;
  state = λ (q : ℕ). running;
  cur_stack = λ (q : ℕ). 64;
}

-- Process 5 has called tcp_connect, and its connection lies at 305.
abbrev connecting : Waiting (List Tcb)
connecting = record { shared = calling 305 [] 80 2 ∷ []; waitq = []; sched = sched; owed = false }

abbrev waits_on : ℕ → ℕ
waits_on p = 300 + p

abbrev blocked : Waiting (List Tcb)
blocked = record connecting { waitq = 5 ∷ []; sched = (waitqueue_wait 5 [] sched).1 }

first_round :
    wait_round false (connects_at waits_on 5 connecting.shared) 5 [] sched
    ≡ sleeps false (5 ∷ []) (waitqueue_wait 5 [] sched).1
unfolding at_address tcp_connect_waits wait_round waitqueue_wait
first_round = refl

steps : Reach (connects_at waits_on) (Event waits_on) connecting blocked
steps = next here (goes_to_sleep 5 false false (5 ∷ []) (waitqueue_wait 5 [] sched).1 first_round)

Reach-connects_at_example : connects_at waits_on 5 blocked.shared ≡ false
Reach-connects_at_example = Reach-connects_at waits_on connecting blocked 5 steps refl refl refl
