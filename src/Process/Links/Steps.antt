-- ===== src/Process/Links/Steps.antt =====
-- The operations of process.c in any order, on the queues in memory.
use lpc17xx_network.Base.{ℕ, ◌≡◌, ◌≢◌, true, List, ◌∷◌, ◌++◌, some}
use lpc17xx_network.Base.Run.{ok}
use lpc17xx_network.LinkedList.{Links}
use lpc17xx_network.Process.{
  Sched, is_running, process_wakeup, process_wait, process_finish, process_spawn, pick_new_task,
  idle_round,
}
use lpc17xx_network.Process.Links.{Heads, IsFree, wait_links, wakeup_links, finish_links}
use lpc17xx_network.Process.Links.Ends.{spawn_links, idle_links}
use lpc17xx_network.Process.Links.Sound.{
  IsSound, process_wait-IsSound, process_finish-IsSound, process_spawn-IsSound, idle_round-IsSound,
}
use lpc17xx_network.Process.Links.Switch.{switch_links}
use lpc17xx_network.Process.Links.Turns.{process_wakeup-IsSound, pick_new_task-IsSound}

-- What the processes and the interrupts do: a running process waits, ends or spawns another, an
-- interrupt or a process wakes a waiting one that is not the current one, PendSV switches, and
-- the idle task gives a finished process back.
pub data Happens (h : Heads) (l : Links) (s : Sched) : Links → Sched → Type 0 where
  waits :
      (c : ℕ)
      → s.current_tsk ≡ some c
      → is_running (s.state c) ≡ true
      → c ≢ s.idle_tsk
      → Happens h l s (wait_links h c l) (process_wait c s)
  finishes :
      (c : ℕ)
      → s.current_tsk ≡ some c
      → is_running (s.state c) ≡ true
      → c ≢ s.idle_tsk
      → Happens h l s (finish_links h c l) (process_finish c s)
  spawns :
      (newproc stack : ℕ)
      → IsFree h s newproc
      → newproc ≢ 0
      → s.current_tsk ≢ some newproc
      → Happens h l s (spawn_links h newproc l) (process_spawn newproc stack s)
  wakes :
      (proc : ℕ) (xs ys : List ℕ)
      → s.waitqueue ≡ xs ++ proc ∷ ys
      → s.current_tsk ≢ some proc
      → Happens h l s (wakeup_links h proc l) (process_wakeup proc s)
  switches :
      (stack : ℕ) (s' : Sched)
      → pick_new_task stack s ≡ ok s'
      → Happens h l s (switch_links h s l).1 s'
  idles : Happens h l s (idle_links h l).1 (idle_round s).1

pub data Reaches (h : Heads) (l : Links) (s : Sched) : Links → Sched → Type 0 where
  here : Reaches h l s l s
  next : {k m : Links} {t u : Sched} → Reaches h l s k t → Happens h k t m u → Reaches h l s m u

Happens-IsSound :
    {h : Heads} {l : Links} {s : Sched} {k : Links} {t : Sched}
    → Happens h l s k t
    → IsSound h l s
    → IsSound h k t
Happens-IsSound {h} {l} {s} (waits c task on other) v = process_wait-IsSound h l s c v task on other
Happens-IsSound {h} {l} {s} (finishes c task on other) v =
    process_finish-IsSound h l s c v task on other
Happens-IsSound {h} {l} {s} (spawns p stack f not_null other) v =
    process_spawn-IsSound h l s p stack v f not_null other
Happens-IsSound {h} {l} {s} (wakes p xs ys at other) v =
    process_wakeup-IsSound h l s p xs ys v at other
Happens-IsSound {h} {l} {s} (switches stack s' e) v = pick_new_task-IsSound h l s s' stack v e
Happens-IsSound {h} {l} {s} idles v = idle_round-IsSound h l s v

-- Start from queues that are well-formed lists in memory with no node in common, each of
-- processes in its own state, without NULL in the run and wait queues, with the current process
-- not at NULL and in no queue while it runs, and with the idle task not at NULL and in no queue
-- but the run queue. However process_wait and process_finish of a running current process other
-- than the idle task, process_spawn of a process that is in no queue, not at NULL and not
-- current, process_wakeup of a waiting process that is not current, pick_new_task and rounds of
-- the idle task follow each other, all of that still holds, and the pointers in memory are those
-- of the queues.
pub Reaches-IsSound :
    (h : Heads) (l : Links) (s : Sched) (k : Links) (t : Sched)
    → IsSound h l s
    → Reaches h l s k t
    → IsSound h k t
Reaches-IsSound h l s _ _ v here = v
Reaches-IsSound h l s _ _ v (next {k} {m} {t} {u} r e) =
    Happens-IsSound e (Reaches-IsSound h l s k t v r)
