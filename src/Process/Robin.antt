-- ===== src/Process/Robin.antt =====
-- The turns of the processes in the run queue of pick_new_task.
use lpc17xx_network.Base.{
  ℕ, zero, suc, ◌≡◌, ◌≢◌, refl, ◌∙◌, List, [], ◌∷◌, ◌++◌, some, length, append_assoc, ==_ne,
  ==_refl, true, arith,
}
use lpc17xx_network.Base.Run.{Run, ok, fault, halted}
use lpc17xx_network.LinkedList.Ring.{has}
use lpc17xx_network.Process.{running, Sched, requeue, take_next, pick_new_task}

-- Task switches one after another, each with a stack for the process that it stops.
abbrev pub switches : ℕ → ℕ → Sched → Run Sched
switches zero stack s = ok s
switches (suc n) stack s = elim (pick_new_task stack s) [
  | ok s' ↦ switches n stack s'
  | fault ↦ fault
  | halted ↦ halted
]

-- A switch away from a running process puts it behind all that wait for their turn.
pub pick_new_task-next :
    (s : Sched) (current next stack : ℕ) (rest : List ℕ)
    → s.current_tsk ≡ some current
    → s.state current ≡ running
    → s.runqueue ≡ next ∷ rest
    → stack ≢ 0
    → pick_new_task stack s
      ≡ ok (record (requeue current stack s) {
        runqueue = rest ++ current ∷ [];
        current_tsk = some next;
      })
unfolding pick_new_task requeue take_next
pick_new_task-next s current next stack rest c r q h = rw (c, r, q, ==_ne stack 0 h) refl

has-first : (q : ℕ) (qs : List ℕ) → has q (q ∷ qs) ≡ true
has-first q qs = rw (==_refl q) refl

has-later : (q p : ℕ) (qs : List ℕ) → has q qs ≡ true → has q (p ∷ qs) ≡ true
has-later q p qs h = ground arith

-- While the current process and those before it are running, a process of the run queue with `n`
-- processes before it gets the processor after `n + 1` task switches that hand in a stack,
-- whatever stands behind it; the processes that ran meanwhile then stand behind the others in the
-- order of their turns.
pub switches-reaches :
    (front : List ℕ) (s : Sched) (current p stack : ℕ) (back : List ℕ)
    → s.current_tsk ≡ some current
    → ((q : ℕ) → has q (current ∷ front) ≡ true → s.state q ≡ running)
    → s.runqueue ≡ front ++ p ∷ back
    → stack ≢ 0
    → (s' : Sched) × (switches (suc (length front)) stack s ≡ ok s')
      × (s'.current_tsk ≡ some p)
      × (s'.runqueue ≡ back ++ (current ∷ front))
switches-reaches [] s current p stack back c r q h =
    let after = record (requeue current stack s) {
      runqueue = back ++ current ∷ [];
      current_tsk = some p;
    } in
    (
      after,
      rw
          (
            switches,
            pick_new_task-next s current p stack back c (r current (has-first current [])) q h,
          )
          refl,
      refl,
      refl,
    )
switches-reaches (next ∷ front) s current p stack back c r q h =
    let after = record (requeue current stack s) {
      runqueue = (front ++ p ∷ back) ++ current ∷ [];
      current_tsk = some next;
    } in
    let (s', run, cur, left) =
      switches-reaches front after next p stack (back ++ current ∷ []) refl
        (unfold requeue in λ m e. r m (has-later m current (next ∷ front) e))
        (append_assoc front (p ∷ back) (current ∷ [])) h in
    (
      s',
      rw
          (
            switches,
            pick_new_task-next s current next stack (front ++ p ∷ back) c
                (r current (has-first current (next ∷ front))) q h,
          )
          run,
      cur,
      left ∙ append_assoc back (current ∷ []) (next ∷ front),
    )
