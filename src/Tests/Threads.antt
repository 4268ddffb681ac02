-- ===== src/Tests/Threads.antt =====
-- The scheduler's memory, its first threads and the timer at concrete inputs.
use lpc17xx_network.Base.{
  ℕ, ◌≡◌, ◌≢◌, refl, arith, List, [], ◌∷◌, true, false, some, ◌==◌, if◌then◌else◌,
}
use lpc17xx_network.Base.Run.{ok}
use lpc17xx_network.LinkedList.{Links}
use lpc17xx_network.LinkedList.Ring.{IsRing}
use lpc17xx_network.Process.{
  Sched, running, requeue, take_next, pick_new_task, process_wait, process_wakeup,
}
use lpc17xx_network.Process.Links.{Heads, Holds, IsFree, wait_links, wakeup_links}
use lpc17xx_network.Process.Links.Switch.{switch_links, chosen, pick_new_task-Holds}
use lpc17xx_network.Process.Links.Race.{IsCut, process_wakeup-process_wait}
use lpc17xx_network.Stack.{Net}
use lpc17xx_network.Stack.Ticks.{irqs, ticked, arp_then_tcp, tcp_then_arp, irqs-tick_add_work_fn}
use lpc17xx_network.Tick.{Ticker}

-- The heads at 10, 20 and 30; process 2 is ready, 5 waits, and 1 runs.
abbrev heads : Heads
heads = record { runqueue = 10; waitqueue = 20; deadqueue = 30 }

abbrev partner : ℕ → ℕ
partner n =
    if n == 10 then 2 else if n == 2 then 10 else if n == 20 then 5 else if n == 5 then 20 else n

abbrev memory : Links
memory = record { next = partner; prev = partner }

abbrev queues : Sched
queues = record {
  runqueue = 2 ∷ [];
  waitqueue = 5 ∷ [];
  deadqueue = [];
  current_tsk = some 1;
  idle_tsk = 9;
  state = λ (q : ℕ). running;
  cur_stack = λ (q : ℕ). 64;
}

memory-Holds : Holds heads memory queues
memory-Holds = record {
  run = record { chain = (refl, refl, (refl, refl)); distinct = (refl, (refl, tt)) };
  wait = record { chain = (refl, refl, (refl, refl)); distinct = (refl, (refl, tt)) };
  dead = record { chain = (refl, refl); distinct = (refl, tt) };
  run_wait = λ n h. ground arith;
  run_dead = λ n h. ground arith;
  wait_dead = λ n h. ground arith;
}

current_out : (c : ℕ) → some 1 ≡ some c → (c ≢ 0) × (true ≡ true → IsFree heads queues c)
current_out c e = (
  λ z. ground (arith, e),
  λ t. record {
    not_run = ground (arith, e);
    not_wait = ground (arith, e);
    not_dead = ground (arith, e);
  },
)

abbrev after_switch : Sched
after_switch = record queues {
  runqueue = 1 ∷ [];
  current_tsk = some 2;
  cur_stack = λ q. if q == 1 then 64 else 64;
}

two_next : pick_new_task 64 queues ≡ ok after_switch
unfolding pick_new_task requeue take_next
two_next = refl

pick_new_task-Holds_example :
    Holds heads (switch_links heads queues memory).1 after_switch
    × (some 2 ≡ some (chosen 9 (switch_links heads queues memory).0))
pick_new_task-Holds_example =
    pick_new_task-Holds heads memory queues after_switch 64 memory-Holds refl current_out two_next

process_wakeup-process_wait_example :
    let between = process_wakeup 1 (process_wait 1 queues) in
    let after = switch_links heads between (wakeup_links heads 1 (wait_links heads 1 memory)) in
    Holds heads (wakeup_links heads 1 (wait_links heads 1 memory)) between
    × (between.current_tsk ≡ some 1)
    × (after.0 ≡ 1)
    × IsCut after.1 10 1
    × ((qs : List ℕ) → ¬ IsRing after.1 10 qs)
process_wakeup-process_wait_example =
    process_wakeup-process_wait heads memory queues 1 memory-Holds ((current_out 1 refl).1 refl)
      refl (omega arith)

abbrev ready : Ticker Net
ready = record {
  tick_work = [];
  timer0_irq_wakeups = 0xffffffff;
  pendsv = false;
  interrupt = true;
  shared = record {
    ether_addr = 2 ∷ 0 ∷ 0 ∷ 0 ∷ 0 ∷ 1 ∷ [];
    no_dropped_packets = 0;
    arp_state = record { table = []; pending = []; settled = [] };
    listeners = [];
    tcbs = [];
    effects = [];
  };
}

irqs-tick_add_work_fn_example :
    ((irqs 3 (arp_then_tcp ready)).shared ≡ ticked 3 ready.shared)
    × ((irqs 3 (tcp_then_arp ready)).shared ≡ ticked 3 ready.shared)
    × ((irqs 3 (arp_then_tcp ready)).timer0_irq_wakeups ≡ 2)
irqs-tick_add_work_fn_example = irqs-tick_add_work_fn 3 ready refl (omega arith)
