-- ===== src/Wait.antt =====
-- wait_for_volatile_condition of wait.h, and the interleavings of the processes in it with what
-- changes their conditions.
pub mod Order
pub mod Connect
use lpc17xx_network.Base.{ℕ, List, Bool, true, false, ◌||◌, ◌≡◌, if◌then◌else◌}
use lpc17xx_network.Process.{Sched, waitqueue_wait, waitqueue_wakeup}

-- What a round of the loop comes to: the loop is left, or the process is asleep. Beside it the
-- interrupt mask: it is restored, or cleared by the reschedule of process_wait.
pub data Round : Type 0 where
  leaves : Bool → Round
  sleeps : Bool → List ℕ → Sched → Round

-- A round for the process `current`. From the test to the reschedule interrupts are masked.
unfoldable pub wait_round : Bool → Bool → ℕ → List ℕ → Sched → Round
wait_round masked condition current waitq s =
    let (waitq', s') = waitqueue_wait current waitq s in
    if condition then leaves masked else sleeps false waitq' s'

-- Processes that wait on one queue for conditions on a shared state. `owed` tells that a handler has
-- changed the state and has not yet woken the queue.
pub record Waiting (S : Type 0) : Type 0 where
  pub shared : S
  pub waitq : List ℕ
  pub sched : Sched
  pub owed : Bool

module _ {S : Type 0} (condition : ℕ → S → Bool) (Event : S → S → Bool → Type 0) where
  -- One step of a process or of a handler, with nothing in between.
  pub data Step (w : Waiting S) : Waiting S → Type 0 where
    goes_to_sleep :
        (p : ℕ) (masked masked' : Bool) (waitq : List ℕ) (sched : Sched)
        → wait_round masked (condition p w.shared) p w.waitq w.sched ≡ sleeps masked' waitq sched
        → Step w (record w { waitq = waitq; sched = sched })
    -- A change of the state, after which its maker wakes the queue or does not.
    changes :
        (s : S) (wakes : Bool)
        → Event w.shared s wakes
        → Step w (record w { shared = s; owed = w.owed || wakes })
    wakes_up : Step w (record w {
      waitq = (waitqueue_wakeup w.waitq w.sched).0;
      sched = (waitqueue_wakeup w.waitq w.sched).1;
      owed = false;
    })

  pub data Reach (w : Waiting S) : Waiting S → Type 0 where
    here : Reach w w
    next : {v u : Waiting S} → Reach w v → Step v u → Reach w u
