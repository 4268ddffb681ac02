-- ===== src/Process.antt =====
-- process.c, process.h and wait.c: the scheduler's queues and the wait queues. Processes are named
-- by their addresses; a queue is the list of the processes linked into it, its head first.
pub mod Queues
pub mod Robin
pub mod Spawn
pub mod Links
use lpc17xx_network.Base.{
  ℕ, List, [], ◌∷◌, ◌++◌, Bool, true, false, Option, none, some, ◌==◌, if◌then◌else◌, bit_or, ◌^◌,
}
use lpc17xx_network.Base.Run.{Run, ok, halted}
use lpc17xx_network.Irq.{cpsie}

pub data ProcessState : Type 0 where
  running waiting finished : ProcessState

-- The static variables of process.c, and the fields of the processes that they lead to.
pub record Sched : Type 0 where
  pub runqueue : List ℕ
  pub waitqueue : List ℕ
  pub deadqueue : List ℕ
  pub current_tsk : Option ℕ
  pub idle_tsk : ℕ
  pub state : ℕ → ProcessState
  pub cur_stack : ℕ → ℕ

-- list_del: a process is in at most one place of a queue.
unfoldable pub unlink : ℕ → List ℕ → List ℕ
unlink p [] = []
unlink p (q ∷ qs) = if q == p then qs else q ∷ unlink p qs

abbrev pub put_state : ℕ → ProcessState → (ℕ → ProcessState) → ℕ → ProcessState
put_state p st f q = if q == p then st else f q

-- process_wakeup: the process is unlinked from its queue and put at the head of the run queue.
unfoldable pub process_wakeup : ℕ → Sched → Sched
process_wakeup proc s = record s {
  runqueue = proc ∷ unlink proc s.runqueue;
  waitqueue = unlink proc s.waitqueue;
  deadqueue = unlink proc s.deadqueue;
  state = put_state proc running s.state;
}

unfoldable pub process_get_cur_task : Sched → Option ℕ
process_get_cur_task s = s.current_tsk

-- The mask of PENDSVSET in ICSR.
abbrev pub icsr_pendsvset_mask : ℕ
icsr_pendsvset_mask = 2 ^ 28

-- reschedule, on ICSR and PRIMASK: the switch itself is made by the handler of PendSV.
unfoldable pub reschedule : ℕ → Bool → ℕ × Bool
reschedule icsr primask = (bit_or icsr icsr_pendsvset_mask, cpsie primask)

-- process_wait, up to the context switch that reschedule asks for.
unfoldable pub process_wait : ℕ → Sched → Sched
process_wait current s = record s {
  waitqueue = current ∷ s.waitqueue;
  state = put_state current waiting s.state;
}

-- process_finish, up to the context switch.
unfoldable pub process_finish : ℕ → Sched → Sched
process_finish current s = record s {
  deadqueue = current ∷ s.deadqueue;
  state = put_state current finished s.state;
}

-- process_spawn, for the process that create_process made.
unfoldable pub process_spawn : ℕ → ℕ → Sched → Sched
process_spawn newproc stack s = record s {
  runqueue = newproc ∷ s.runqueue;
  state = put_state newproc running s.state;
  cur_stack = λ q. if q == newproc then stack else s.cur_stack q;
}

abbrev pub is_running : ProcessState → Bool
is_running running = true
is_running _ = false

-- The current process goes to the tail of the run queue if it is still running.
unfoldable pub requeue : ℕ → ℕ → Sched → Sched
requeue current stack s = record s {
  cur_stack = λ q. if q == current then stack else s.cur_stack q;
  runqueue = (if is_running (s.state current) then s.runqueue ++ current ∷ [] else s.runqueue);
}

-- list_pop of the run queue, with the idle task for an empty one.
unfoldable pub take_next : List ℕ → Sched → Sched
take_next [] s = record s { runqueue = []; current_tsk = some s.idle_tsk }
take_next (p ∷ ps) s = record s { runqueue = ps; current_tsk = some p }

-- pick_new_task: the new state; the stack that is returned is `cur_stack` of the new task. An
-- active task that hands in no stack stops the system.
unfoldable pub pick_new_task : ℕ → Sched → Run Sched
pick_new_task current_stack s = elim s.current_tsk [
  | none ↦ ok (take_next s.runqueue s)
  | some current ↦
      let s' = requeue current current_stack s in
      if current_stack == 0 then halted else ok (take_next s'.runqueue s')
]

-- One round of the idle task: the process at the head of the dead queue is given back.
unfoldable pub idle_round : Sched → Option ℕ × Sched
idle_round s = elim s.deadqueue [ [] ↦ (none, s) | p ∷ ps ↦ (some p, record s { deadqueue = ps }) ]

-- __waitqueue_wait: the current process is put at the head of the wait queue, and waits.
unfoldable pub waitqueue_wait : ℕ → List ℕ → Sched → List ℕ × Sched
unfolding process_wait
waitqueue_wait current waitq s = (current ∷ waitq, process_wait current s)

-- waitqueue_wakeup: every process of the wait queue is woken, and the queue is left empty.
unfoldable pub waitqueue_wakeup : List ℕ → Sched → List ℕ × Sched
waitqueue_wakeup [] s = ([], s)
waitqueue_wakeup (p ∷ waitq) s = waitqueue_wakeup waitq (process_wakeup p s)
